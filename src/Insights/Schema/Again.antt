-- ===== src/Insights/Schema/Again.antt =====
-- A document of insights is read back, unchanged, from its own JSON value.
use ai_statement_analyzer.Base.{
  ℕ, ◌≤◌, String, ◌≡◌, refl, ◌⊎◌, inl, inr, true, ◌&&◌, ◌||◌, Option, none, some, List, [], ◌∷◌,
  map, arith, leb, is_some, length, All,
}
use mathlib.Core.Option.{some-injective}
use mathlib.Core.Path.{subst}
use ai_statement_analyzer.Base.Maybe.{guard, bind-some, every}
use ai_statement_analyzer.Base.Text.{utf16_length, trim}
use ai_statement_analyzer.Json.{Json, Fields, as_object, as_array, as_text, get, only_keys}
use ai_statement_analyzer.Ai.OcrParser.Laws.{trim-trim, guard-true}
use ai_statement_analyzer.Ai.OcrParser.Agreement.{items-array_of, length-every, length-map}
use ai_statement_analyzer.Insights.Schema.{
  Severity, info_severity, warning_severity, InsightText, Insight, category_increase,
  merchant_increase, notable_spending, severity_text, severity_of, severity_value, trimmed,
  insight_text, required, optional, parsed_if, literal, or_next, category_increase_fields,
  merchant_increase_fields, notable_spending_fields, insight, insights_of, insights_document,
  insight_json, document_json, max_title, max_description, max_name, max_insights, category_keys,
  merchant_keys, notable_keys,
}

-- A text that the schema leaves as it is.
abbrev pub IsClean : ℕ → String → Type 0
IsClean limit s = trimmed limit (Json.text s) ≡ some s

trimmed-IsClean : (limit : ℕ) (v : Json) (s : String) → trimmed limit v ≡ some s → IsClean limit s
unfolding trimmed
trimmed-IsClean limit v s h =
    let (t, at, rest) = bind-some (as_text v) _ h in
    let (g, passes, last) =
      bind-some (guard (leb 1 (utf16_length (trim t)) && leb (utf16_length (trim t)) limit)) _
        rest in
    subst (IsClean limit) (some-injective _ _ last) (rw (trim-trim t, passes) refl)

required-IsClean :
    (limit : ℕ) (key : String) (fields : Fields) (s : String)
    → required key (trimmed limit) fields ≡ some s
    → IsClean limit s
required-IsClean limit key fields s h =
    let (v, at, rest) = bind-some (get key fields) (trimmed limit) h in
    trimmed-IsClean limit v s rest

-- An optional text that the schema leaves as it is.
abbrev pub IsCleanIf : Option String → Type 0
IsCleanIf none = Unit
IsCleanIf (some s) = IsClean max_name s

parsed_if-IsCleanIf :
    (v : Option Json) (o : Option String) → parsed_if (trimmed max_name) v ≡ some o → IsCleanIf o
parsed_if-IsCleanIf none o h = subst IsCleanIf (some-injective _ _ h) tt
parsed_if-IsCleanIf (some v) o h =
    let (s, at, last) = bind-some (trimmed max_name v) _ h in
    subst IsCleanIf (some-injective _ _ last) (trimmed-IsClean max_name v s at)

pub record IsText (t : InsightText) : Type 0 where
  pub title : IsClean max_title t.title
  pub description : IsClean max_description t.description

insight_text-IsText : (fields : Fields) (t : InsightText) → insight_text fields ≡ some t → IsText t
unfolding insight_text
insight_text-IsText fields t h =
    let (severity, h1, k1) = bind-some (required "severity" severity_value fields) _ h in
    let (title, h2, k2) = bind-some (required "title" (trimmed max_title) fields) _ k1 in
    let (description, h3, last) =
      bind-some (required "description" (trimmed max_description) fields) _ k2 in
    subst IsText (some-injective _ _ last) (record {
      title = required-IsClean max_title "title" fields title h2;
      description = required-IsClean max_description "description" fields description h3;
    })

-- An insight whose texts are trimmed and within their limits, and that names something.
abbrev pub IsInsight : Insight → Type 0
IsInsight (category_increase t category) = IsText t × IsClean max_name category
IsInsight (merchant_increase t merchant) = IsText t × IsClean max_name merchant
IsInsight (notable_spending t category merchant) =
    IsText t
    × IsCleanIf category
    × IsCleanIf merchant
    × ((is_some category || is_some merchant) ≡ true)

category_fields-IsInsight :
    (fields : Fields) (i : Insight) → category_increase_fields fields ≡ some i → IsInsight i
unfolding category_increase_fields
category_fields-IsInsight fields i h =
    let (g, h1, k1) = bind-some (guard (only_keys category_keys fields)) _ h in
    let (u, h2, k2) = bind-some (required "type" (literal "CATEGORY_INCREASE") fields) _ k1 in
    let (t, h3, k3) = bind-some (insight_text fields) _ k2 in
    let (category, h4, last) = bind-some (required "category" (trimmed max_name) fields) _ k3 in
    subst IsInsight (some-injective _ _ last)
      (insight_text-IsText fields t h3, required-IsClean max_name "category" fields category h4)

merchant_fields-IsInsight :
    (fields : Fields) (i : Insight) → merchant_increase_fields fields ≡ some i → IsInsight i
unfolding merchant_increase_fields
merchant_fields-IsInsight fields i h =
    let (g, h1, k1) = bind-some (guard (only_keys merchant_keys fields)) _ h in
    let (u, h2, k2) = bind-some (required "type" (literal "MERCHANT_INCREASE") fields) _ k1 in
    let (t, h3, k3) = bind-some (insight_text fields) _ k2 in
    let (merchant, h4, last) = bind-some (required "merchant" (trimmed max_name) fields) _ k3 in
    subst IsInsight (some-injective _ _ last)
      (insight_text-IsText fields t h3, required-IsClean max_name "merchant" fields merchant h4)

notable_fields-IsInsight :
    (fields : Fields) (i : Insight) → notable_spending_fields fields ≡ some i → IsInsight i
unfolding notable_spending_fields
notable_fields-IsInsight fields i h =
    let (g, h1, k1) = bind-some (guard (only_keys notable_keys fields)) _ h in
    let (u, h2, k2) = bind-some (required "type" (literal "NOTABLE_SPENDING") fields) _ k1 in
    let (t, h3, k3) = bind-some (insight_text fields) _ k2 in
    let (category, h4, k4) = bind-some (optional "category" (trimmed max_name) fields) _ k3 in
    let (merchant, h5, k5) = bind-some (optional "merchant" (trimmed max_name) fields) _ k4 in
    let (named, h6, last) = bind-some (guard (is_some category || is_some merchant)) _ k5 in
    subst IsInsight (some-injective _ _ last) (
      insight_text-IsText fields t h3,
      parsed_if-IsCleanIf (get "category" fields) category h4,
      parsed_if-IsCleanIf (get "merchant" fields) merchant h5,
      guard-true _ h6,
    )

or_next-cases :
    (a b : Option Insight) {i : Insight} → or_next a b ≡ some i → (a ≡ some i) ⊎ (b ≡ some i)
or_next-cases none b h = inr h
or_next-cases (some x) b h = inl h

pub insight-IsInsight : (v : Json) (i : Insight) → insight v ≡ some i → IsInsight i
unfolding insight
insight-IsInsight v i h =
    let (fields, at, rest) = bind-some (as_object v) _ h in
    elim (or_next-cases (category_increase_fields fields) _ rest) [
      | inl c ↦ category_fields-IsInsight fields i c
      | inr other ↦ elim (or_next-cases (merchant_increase_fields fields) _ other) [
        | inl m ↦ merchant_fields-IsInsight fields i m
        | inr n ↦ notable_fields-IsInsight fields i n
      ]
    ]

severity_of-severity_text : (s : Severity) → severity_of (severity_text s) ≡ some s
unfolding severity_of
severity_of-severity_text info_severity = refl
severity_of-severity_text warning_severity = refl

pub insight-again : (i : Insight) → IsInsight i → insight (insight_json i) ≡ some i
unfolding insight insight_json insight_text category_increase_fields merchant_increase_fields
    notable_spending_fields
insight-again (category_increase t category) (h, c) =
    rw (severity_of-severity_text t.severity, h.title, h.description, c) refl
insight-again (merchant_increase t merchant) (h, m) =
    rw (severity_of-severity_text t.severity, h.title, h.description, m) refl
insight-again (notable_spending t none none) (h, c, m, named) = absurd (ground (arith, named))
insight-again (notable_spending t (some category) none) (h, c, m, named) =
    rw (severity_of-severity_text t.severity, h.title, h.description, c) refl
insight-again (notable_spending t none (some merchant)) (h, c, m, named) =
    rw (severity_of-severity_text t.severity, h.title, h.description, m) refl
insight-again (notable_spending t (some category) (some merchant)) (h, c, m, named) =
    rw (severity_of-severity_text t.severity, h.title, h.description, c, m) refl

every-IsInsight :
    (vs : List Json) (is : List Insight) → every insight vs ≡ some is → All IsInsight is
unfolding every
every-IsInsight [] is h = subst (All IsInsight) (some-injective _ _ h) tt
every-IsInsight (v ∷ vs) is h =
    let (i, at, rest) = bind-some (insight v) _ h in
    let (js, at', last) = bind-some (every insight vs) _ rest in
    subst (All IsInsight) (some-injective _ _ last)
      (insight-IsInsight v i at, every-IsInsight vs js at')

every-again : (is : List Insight) → All IsInsight is → every insight (map insight_json is) ≡ some is
unfolding every
every-again [] h = refl
every-again (i ∷ is) (c, h) = rw (insight-again i c, every-again is h) refl

-- Insights that the schema has accepted.
pub record IsDocument (insights : List Insight) : Type 0 where
  pub clean : All IsInsight insights
  pub at_most : length insights ≤ max_insights

pub insights_document-IsDocument :
    (v : Json) (is : List Insight) → insights_document v ≡ some is → IsDocument is
unfolding insights_document insights_of
insights_document-IsDocument v is h =
    let (fields, h1, k1) = bind-some (as_object v) insights_of h in
    let (g, h2, k2) = bind-some (guard (only_keys ("insights" ∷ []) fields)) _ k1 in
    let (elements, h3, k3) = bind-some (required "insights" as_array fields) _ k2 in
    let (js, h4, k4) = bind-some (every insight elements) _ k3 in
    let (g', h5, last) = bind-some (guard (leb (length elements) max_insights)) _ k4 in
    let few = guard-true _ h5 in
    subst IsDocument (some-injective _ _ last) (record {
      clean = every-IsInsight elements js h4;
      at_most = ground (arith, few, length-every insight elements js h4);
    })

-- A document that the schema has accepted is read back from its own JSON value.
pub insights_document-document_json :
    (is : List Insight) → IsDocument is → insights_document (document_json is) ≡ some is
unfolding insights_document insights_of document_json
insights_document-document_json is d =
    let few : leb (length is) max_insights ≡ true = ground (arith, d.at_most) in
    rw
      (
        items-array_of (map insight_json is),
        every-again is d.clean,
        length-map insight_json is,
        few,
      )
      refl
