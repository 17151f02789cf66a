-- ===== src/Api/Schemas.antt =====
-- src/api/schemas.ts: what a request to create a statement and a query of a month must look like.
pub mod Accepted
use ai_statement_analyzer.Base.{
  ℕ, zero, suc, ◌+◌, ◌-◌, ◌*◌, ◌/◌, ◌%◌, ◌≤◌, ◌<◌, min, String, ◌≡◌, refl, sym, ap, ◌∙◌, ◌≢◌, ◌↔◌,
  ◌⊎◌, inl, inr, Bool, true, false, ◌&&◌, ◌||◌, not, Option, none, some, List, [], ◌∷◌, ◌++◌, map,
  arith, str_eq, eq_iff, eq_refl, ltb, leb, ◌==◌, if◌then◌else◌, is_some, or_else, Bool-cases,
  Option-cases, length, head?, filter, all, any, find, All,
}
use Prim.Native.String
use ai_statement_analyzer.Base.Maybe.{◌>>=◌, ◌>>◌, guard}
use ai_statement_analyzer.Base.Int.{pos}
use ai_statement_analyzer.Base.Text.{
  codes, decimal_from, is_digit, is_year_month, utf16_length, trim, in_range,
}
use ai_statement_analyzer.Base.Number.{Number, integer, fractional, positive_integer}
use ai_statement_analyzer.Json.{
  Json, obj, num, Fields, get, only_keys, as_object, as_text, as_number,
}
use ai_statement_analyzer.Database.Types.{ContentType, image_jpeg, image_png}
use Prim.Native.Char.{code}

abbrev pub max_upload_bytes : ℕ
max_upload_bytes = 10 * 1024 * 1024

abbrev pub year_value : List ℕ → ℕ
year_value (a ∷ b ∷ c ∷ d ∷ rest) = decimal_from 0 (a ∷ b ∷ c ∷ d ∷ [])
year_value s = decimal_from 0 s

abbrev pub is_year_allowed : ℕ → Bool
is_year_allowed year = leb 2000 year && leb year 2100

unfoldable pub target_month : String → Option String
target_month s =
    if is_year_month (codes s) && is_year_allowed (year_value (codes s)) then some s else none

abbrev pub is_four_digits : List ℕ → Bool
is_four_digits (a ∷ b ∷ c ∷ d ∷ []) = is_digit a && is_digit b && is_digit c && is_digit d
is_four_digits _ = false

unfoldable pub analytics_year : String → Option ℕ
analytics_year s =
    if is_four_digits (codes s) && is_year_allowed (decimal_from 0 (codes s))
    then some (decimal_from 0 (codes s))
    else none

-- `/^(0?[1-9]|1[0-2])$/`
abbrev pub is_month_text : List ℕ → Bool
is_month_text (a ∷ []) = in_range b'1' b'9' a
is_month_text (a ∷ b ∷ []) =
    (a == b'0' && in_range b'1' b'9' b) || (a == b'1' && in_range b'0' b'2' b)
is_month_text _ = false

unfoldable pub analytics_month : String → Option ℕ
analytics_month s = if is_month_text (codes s) then some (decimal_from 0 (codes s)) else none

abbrev pub file_name : String → Option String
file_name s = if leb 1 (utf16_length s) && leb (utf16_length s) 255 then some s else none

abbrev pub content_type : String → Option ContentType
content_type s =
    if str_eq s "image/jpeg"
    then some image_jpeg
    else if str_eq s "image/png"
    then some image_png
    else none

abbrev pub at_most_max : ℕ → Option ℕ
at_most_max n = if leb n max_upload_bytes then some n else none

unfoldable pub content_length : Number → Option ℕ
content_length n = positive_integer n >>= at_most_max

pub record CreateStatementRequest : Type 0 where
  pub target_month : String
  pub file_name : String
  pub content_type : ContentType
  pub content_length : ℕ

abbrev pub text_field : String → Fields → Option String
text_field key fields = get key fields >>= as_text

abbrev pub number_field : String → Fields → Option Number
number_field key fields = get key fields >>= as_number

abbrev pub create_keys : List String
create_keys = "targetMonth" ∷ "fileName" ∷ "contentType" ∷ "contentLength" ∷ []

unfoldable pub create_fields : Fields → Option CreateStatementRequest
create_fields fields = do
  month_text ← text_field "targetMonth" fields
  month ← target_month month_text
  name_text ← text_field "fileName" fields
  name ← file_name name_text
  type_text ← text_field "contentType" fields
  type ← content_type type_text
  length_number ← number_field "contentLength" fields
  size ← content_length length_number
  guard (only_keys create_keys fields)
  some (record {
    target_month = month;
    file_name = name;
    content_type = type;
    content_length = size;
  })

unfoldable pub create_statement_request : Json → Option CreateStatementRequest
create_statement_request body = as_object body >>= create_fields

-- `isTooLargeContentLength` of src/app.ts; `large_fraction` is what `>` tells of a number that is
-- no integer.
abbrev pub exceeds : Bool → Option Json → Bool
exceeds large_fraction (some (num (integer (pos n)))) = ltb max_upload_bytes n
exceeds large_fraction (some (num fractional)) = large_fraction
exceeds large_fraction _ = false

unfoldable pub is_too_large_content_length : Bool → Json → Bool
is_too_large_content_length large_fraction (obj fields) =
    exceeds large_fraction (get "contentLength" fields)
is_too_large_content_length large_fraction _ = false

-- `split(";", 1)[0]`
unfoldable pub before_semicolon : String → String
before_semicolon String.[] = String.[]
before_semicolon (String.◌∷◌ c s) =
    let rest = before_semicolon s in if code c == 59 then String.[] else String.◌∷◌ c rest

-- No letter outside ASCII has one of the letters of the media type as its lower case.
abbrev pub lower_code : ℕ → ℕ
lower_code c = if in_range 65 90 c then c + 32 else c

abbrev pub codes_eq : List ℕ → List ℕ → Bool
codes_eq [] [] = true
codes_eq (a ∷ s) (b ∷ t) = a == b && codes_eq s t
codes_eq _ _ = false

unfoldable pub is_json_content_type : Option String → Bool
unfolding before_semicolon trim
is_json_content_type none = false
is_json_content_type (some value) =
    codes_eq (map lower_code (codes (trim (before_semicolon value)))) (codes "application/json")
