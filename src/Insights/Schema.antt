-- ===== src/Insights/Schema.antt =====
-- The document of insights of src/insights/monthly-insights.ts: its schema, and the JSON value of a
-- document.
pub mod Again
use ai_statement_analyzer.Base.{
  ℕ, zero, suc, ◌+◌, ◌-◌, ◌*◌, ◌/◌, ◌%◌, ◌≤◌, ◌<◌, min, String, ◌≡◌, refl, sym, ap, ◌∙◌, ◌≢◌, ◌↔◌,
  ◌⊎◌, inl, inr, Bool, true, false, ◌&&◌, ◌||◌, not, Option, none, some, List, [], ◌∷◌, ◌++◌, map,
  arith, str_eq, eq_iff, eq_refl, ltb, leb, ◌==◌, if◌then◌else◌, is_some, or_else, Bool-cases,
  if-both, Option-cases, length, head?, filter, all, any, find, All,
}
use ai_statement_analyzer.Base.Maybe.{◌>>=◌, ◌>>◌, guard, every}
use ai_statement_analyzer.Base.Text.{utf16_length, trim}
use ai_statement_analyzer.Json.{
  Json, Items, nil, cons, Fields, end, field, as_object, as_array, as_text, get, only_keys,
}
use ai_statement_analyzer.Ai.OcrParser.{array_of}

pub data Severity : Type 0 where
  info_severity warning_severity : Severity

pub record InsightText : Type 0 where
  pub severity : Severity
  pub title : String
  pub description : String

pub data Insight : Type 0 where
  category_increase merchant_increase : InsightText → String → Insight
  notable_spending : InsightText → Option String → Option String → Insight

abbrev pub severity_text : Severity → String
severity_text info_severity = "info"
severity_text warning_severity = "warning"

unfoldable pub severity_of : String → Option Severity
severity_of s =
    if str_eq s "info"
    then some info_severity
    else if str_eq s "warning"
    then some warning_severity
    else none

-- `z.string().trim().min(1).max(limit)`
unfoldable pub trimmed : ℕ → Json → Option String
trimmed limit v = do
  s ← as_text v
  guard (leb 1 (utf16_length (trim s)) && leb (utf16_length (trim s)) limit)
  some (trim s)

abbrev pub max_title : ℕ
max_title = 80

abbrev pub max_description : ℕ
max_description = 300

abbrev pub max_name : ℕ
max_name = 100

abbrev pub max_insights : ℕ
max_insights = 5

-- `z.literal(s)`
abbrev pub literal : String → Json → Option (Unit {0})
literal s v = as_text v >>= λ t. guard (str_eq t s)

abbrev pub required : {A : Type 0} → String → (Json → Option A) → Fields → Option A
required key parse fields = get key fields >>= parse

-- `.optional()`
abbrev pub parsed_if : {A : Type 0} → (Json → Option A) → Option Json → Option (Option A)
parsed_if parse none = some none
parsed_if parse (some v) = parse v >>= λ a. some (some a)

abbrev pub optional : {A : Type 0} → String → (Json → Option A) → Fields → Option (Option A)
optional key parse fields = parsed_if parse (get key fields)

abbrev pub severity_value : Json → Option Severity
severity_value v = as_text v >>= severity_of

unfoldable pub insight_text : Fields → Option InsightText
insight_text fields = do
  severity ← required "severity" severity_value fields
  title ← required "title" (trimmed max_title) fields
  description ← required "description" (trimmed max_description) fields
  some (record { severity = severity; title = title; description = description })

abbrev pub category_keys : List String
category_keys = "type" ∷ "severity" ∷ "title" ∷ "description" ∷ "category" ∷ []

abbrev pub merchant_keys : List String
merchant_keys = "type" ∷ "severity" ∷ "title" ∷ "description" ∷ "merchant" ∷ []

abbrev pub notable_keys : List String
notable_keys = "type" ∷ "severity" ∷ "title" ∷ "description" ∷ "category" ∷ "merchant" ∷ []

unfoldable pub category_increase_fields : Fields → Option Insight
category_increase_fields fields = do
  guard (only_keys category_keys fields)
  required "type" (literal "CATEGORY_INCREASE") fields
  t ← insight_text fields
  category ← required "category" (trimmed max_name) fields
  some (category_increase t category)

unfoldable pub merchant_increase_fields : Fields → Option Insight
merchant_increase_fields fields = do
  guard (only_keys merchant_keys fields)
  required "type" (literal "MERCHANT_INCREASE") fields
  t ← insight_text fields
  merchant ← required "merchant" (trimmed max_name) fields
  some (merchant_increase t merchant)

unfoldable pub notable_spending_fields : Fields → Option Insight
notable_spending_fields fields = do
  guard (only_keys notable_keys fields)
  required "type" (literal "NOTABLE_SPENDING") fields
  t ← insight_text fields
  category ← optional "category" (trimmed max_name) fields
  merchant ← optional "merchant" (trimmed max_name) fields
  guard (is_some category || is_some merchant)
  some (notable_spending t category merchant)

-- `z.union`: the first schema that accepts.
abbrev pub or_next : {A : Type 0} → Option A → Option A → Option A
or_next (some a) o = some a
or_next none o = o

unfoldable pub insight : Json → Option Insight
insight v = as_object v >>= λ fields.
    or_next (category_increase_fields fields)
      (or_next (merchant_increase_fields fields) (notable_spending_fields fields))

unfoldable pub insights_of : Fields → Option (List Insight)
insights_of fields = do
  guard (only_keys ("insights" ∷ []) fields)
  elements ← required "insights" as_array fields
  insights ← every insight elements
  guard (leb (length elements) max_insights)
  some insights

unfoldable pub insights_document : Json → Option (List Insight)
insights_document v = as_object v >>= insights_of

-- The values as JSON, as `JSON.stringify` and the `jsonb` column keep them.
abbrev pub with_text : String → InsightText → Fields → Fields
with_text type t rest = field "type" (Json.text type) (
    field "severity" (Json.text (severity_text t.severity))
      (field "title" (Json.text t.title) (field "description" (Json.text t.description) rest)))

abbrev pub optional_field : String → Option String → Fields → Fields
optional_field key none rest = rest
optional_field key (some s) rest = field key (Json.text s) rest

unfoldable pub insight_json : Insight → Json
insight_json (category_increase t category) =
    Json.obj (with_text "CATEGORY_INCREASE" t (field "category" (Json.text category) end))
insight_json (merchant_increase t merchant) =
    Json.obj (with_text "MERCHANT_INCREASE" t (field "merchant" (Json.text merchant) end))
insight_json (notable_spending t category merchant) = Json.obj (
    with_text "NOTABLE_SPENDING" t
      (optional_field "category" category (optional_field "merchant" merchant end)))

unfoldable pub document_json : List Insight → Json
document_json insights =
    Json.obj (field "insights" (Json.arr (array_of (map insight_json insights))) end)
