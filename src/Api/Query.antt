-- ===== src/Api/Query.antt =====
-- The query of a month: its parameters in src/app.ts and the schema of src/api/schemas.ts.
pub mod Months
use ai_statement_analyzer.Base.{
  ℕ, zero, suc, ◌+◌, ◌-◌, ◌*◌, ◌/◌, ◌%◌, ◌≤◌, ◌<◌, min, String, ◌≡◌, refl, sym, ap, ◌∙◌, ◌≢◌, ◌↔◌,
  ◌⊎◌, inl, inr, Bool, true, false, ◌&&◌, ◌||◌, not, Option, none, some, List, [], ◌∷◌, ◌++◌, map,
  arith, str_eq, eq_iff, eq_refl, ltb, leb, ◌==◌, if◌then◌else◌, is_some, or_else, Bool-cases,
  if-both, Option-cases, length, head?, filter, all, any, find, All,
}
use ai_statement_analyzer.Base.Maybe.{◌>>=◌, ◌>>◌, guard}
use ai_statement_analyzer.Json.{Fields, field, end, only_keys}
use ai_statement_analyzer.Api.Schemas.{text_field, analytics_year, analytics_month}

-- `context.req.queries()`: the parameters of the query, each with its values.
pub record QueryParameter : Type 0 where
  pub key : String
  pub values : List String

pub record MonthlyAnalyticsQuery : Type 0 where
  pub year : ℕ
  pub month : ℕ

abbrev pub is_repeated : QueryParameter → Bool
is_repeated q = not (length q.values == 1)

-- `Object.fromEntries` of the first values; no key occurs twice.
abbrev pub with_first : String → Option String → Fields → Fields
with_first key none fields = fields
with_first key (some value) fields = field key (ai_statement_analyzer.Json.text value) fields

unfoldable pub from_entries : List QueryParameter → Fields
from_entries [] = end
from_entries (q ∷ qs) = with_first q.key (head? q.values) (from_entries qs)

-- The schema of the query.
unfoldable pub monthly_analytics_query : Fields → Option MonthlyAnalyticsQuery
monthly_analytics_query fields = do
  guard (only_keys ("year" ∷ "month" ∷ []) fields)
  year_text ← text_field "year" fields
  year ← analytics_year year_text
  month_text ← text_field "month" fields
  month ← analytics_month month_text
  some (record { year = year; month = month })

unfoldable pub parse_query : List QueryParameter → Option MonthlyAnalyticsQuery
parse_query queries =
    if any is_repeated queries then none else monthly_analytics_query (from_entries queries)
