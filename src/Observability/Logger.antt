-- ===== src/Observability/Logger.antt =====
-- src/observability/logger.ts: the fields of a line of the log. Texts are lists of UTF-16 units;
-- JSON's text of a line is not modelled.
pub mod Safe
mod Tests
use ai_statement_analyzer.Base.{
  ℕ, zero, suc, ◌+◌, ◌-◌, ◌*◌, ◌/◌, ◌%◌, ◌≤◌, ◌<◌, min, String, ◌≡◌, refl, sym, ap, ◌∙◌, ◌≢◌, ◌↔◌,
  ◌⊎◌, inl, inr, Bool, true, false, ◌&&◌, ◌||◌, not, Option, none, some, List, [], ◌∷◌, ◌++◌, map,
  arith, str_eq, eq_iff, eq_refl, ltb, leb, ◌==◌, if◌then◌else◌, is_some, or_else, Bool-cases,
  if-both, Option-cases, length, head?, filter, all, any, find, All,
}
use ai_statement_analyzer.Base.Text.{codes}
use ai_statement_analyzer.Base.Int.{ℤ}
use ai_statement_analyzer.Json.{includes}

abbrev pub Units : Type 0
Units = List ℕ

-- The values that the fields of a caller have: `other_value` is what is no text, no finite number and
-- no Boolean. Of a number only its text's value `n` matters.
pub data Value : Type 0 where
  text_value : Units → Value
  number_value : ℤ → Value
  boolean_value : Bool → Value
  other_value : Value

pub record Field : Type 0 where
  pub key : String
  pub value : Value

abbrev pub allowed_log_fields : List String
allowed_log_fields =
    "event" ∷ "requestId" ∷ "statementId" ∷ "messageId" ∷ "status" ∷ "durationMs" ∷ "receiveCount"
    ∷ "errorCode" ∷ "stage" ∷ "disposition" ∷ "modelId" ∷ "promptVersion" ∷ "method" ∷ "route"
    ∷ "httpStatus" ∷ "signal" ∷ "cached" ∷ "host" ∷ "port" ∷ "transactionCount" ∷ "inputTokens"
    ∷ "outputTokens" ∷ "totalTokens" ∷ "targetMonth" ∷ []

abbrev pub max_log_string_length : ℕ
max_log_string_length = 512

-- `[\u0000-\u001f\u007f]`
abbrev pub is_control : ℕ → Bool
is_control u = leb u 31 || u == 127

abbrev pub is_kept : ℕ → Bool
is_kept u = not (is_control u)

abbrev pub take : ℕ → Units → Units
take zero us = []
take (suc n) [] = []
take (suc n) (u ∷ us) = u ∷ take n us

unfoldable pub sanitize_string : Units → Units
sanitize_string value = take max_log_string_length (filter is_kept value)

unfoldable pub sanitize_value : Value → Option Value
sanitize_value (text_value s) = some (text_value (sanitize_string s))
sanitize_value (number_value n) = some (number_value n)
sanitize_value (boolean_value b) = some (boolean_value b)
sanitize_value other_value = none

-- `output[key] = value`: a key that is there keeps its place.
unfoldable pub assign : String → Value → List Field → List Field
assign key value [] = record { key = key; value = value } ∷ []
assign key value (f ∷ fields) =
    let rest = assign key value fields in
    if str_eq f.key key then record { key = key; value = value } ∷ fields else f ∷ rest

abbrev pub assign_if : String → Option Value → List Field → List Field
assign_if key none output = output
assign_if key (some value) output = assign key value output

-- The loop over the entries of the fields.
unfoldable pub assign_fields : List Field → List Field → List Field
assign_fields [] output = output
assign_fields (f ∷ fields) output = assign_fields fields (
    if not (includes allowed_log_fields f.key)
    then output
    else assign_if f.key (sanitize_value f.value) output)

-- `fields.event`
abbrev pub is_field : String → Field → Bool
is_field key f = str_eq f.key key

abbrev pub event_of : Option Field → Option Units
event_of none = none
event_of (some f) = elim f.value [
  | text_value [] ↦ none
  | text_value (u ∷ us) ↦ some (u ∷ us)
  | _ ↦ none
]

abbrev pub with_event : Option Units → List Field → List Field
with_event none output = output
with_event (some event) output = assign "event" (text_value (sanitize_string event)) output

-- `unknown` and the moment, as units.
abbrev pub unknown_event : Units
unknown_event = codes "unknown"

abbrev pub first_fields : Units → Units → List Field
first_fields service timestamp =
    record { key = "event"; value = text_value unknown_event }
    ∷ record { key = "timestamp"; value = text_value timestamp }
    ∷ record { key = "service"; value = text_value (sanitize_string service) }
    ∷ []

unfoldable pub create_line : Units → Units → List Field → List Field
create_line service timestamp fields =
    with_event (event_of (find (is_field "event") fields))
      (assign_fields fields (first_fields service timestamp))
