-- ===== src/Api/Query/Months.antt =====
-- A query that the schema accepts names a month of the years 2000 to 2100.
use ai_statement_analyzer.Base.{
  ℕ, ◌≤◌, String, ◌≡◌, inl, inr, true, ◌&&◌, some, List, [], ◌∷◌, arith, Bool-cases, any,
}
use ai_statement_analyzer.Base.Maybe.{guard, bind-some}
use ai_statement_analyzer.Api.Query.{
  parse_query, MonthlyAnalyticsQuery, monthly_analytics_query, QueryParameter, is_repeated,
  from_entries,
}
use ai_statement_analyzer.Api.Schemas.{
  analytics_month, is_month_text, analytics_year, is_four_digits, is_year_allowed, text_field,
}
use ai_statement_analyzer.Base.Text.{codes, decimal_from}
use ai_statement_analyzer.Json.{Fields, only_keys}

pub record IsMonthQuery (query : MonthlyAnalyticsQuery) : Type 0 where
  pub year_from : 2000 ≤ query.year
  pub year_to : query.year ≤ 2100
  pub month_from : 1 ≤ query.month
  pub month_to : query.month ≤ 12

analytics_year-bounds : (s : String) (n : ℕ) → analytics_year s ≡ some n → (2000 ≤ n) × (n ≤ 2100)
unfolding analytics_year
analytics_year-bounds s n h =
    elim (Bool-cases (is_four_digits (codes s) && is_year_allowed (decimal_from 0 (codes s)))) [
      | inl y ↦
          let same : decimal_from 0 (codes s) ≡ n = ground (arith, rw y at h) in
          (ground (arith, y, same), ground (arith, y, same))
      | inr k ↦ absurd (ground (arith, rw k at h))
    ]

month_value :
    (s : List ℕ) → is_month_text s ≡ true → (1 ≤ decimal_from 0 s) × (decimal_from 0 s ≤ 12)
month_value [] h = cc
month_value (a ∷ []) h = (ground (arith, h), ground (arith, h))
month_value (a ∷ b ∷ []) h = (ground (arith, h), ground (arith, h))
month_value (a ∷ b ∷ c ∷ s) h = cc

analytics_month-bounds : (s : String) (n : ℕ) → analytics_month s ≡ some n → (1 ≤ n) × (n ≤ 12)
unfolding analytics_month
analytics_month-bounds s n h = elim (Bool-cases (is_month_text (codes s))) [
  | inl y ↦
      let same : decimal_from 0 (codes s) ≡ n = ground (arith, rw y at h) in
      rw (← same) (month_value (codes s) y)
  | inr k ↦ absurd (ground (arith, rw k at h))
]

query-IsMonthQuery :
    (fields : Fields) (query : MonthlyAnalyticsQuery)
    → monthly_analytics_query fields ≡ some query
    → IsMonthQuery query
unfolding monthly_analytics_query
query-IsMonthQuery fields query h =
    let (_, _, h1) = bind-some (guard (only_keys ("year" ∷ "month" ∷ []) fields)) _ h in
    let (year_text, _, h2) = bind-some (text_field "year" fields) _ h1 in
    let (year, is_year, h3) = bind-some (analytics_year year_text) _ h2 in
    let (month_text, _, h4) = bind-some (text_field "month" fields) _ h3 in
    let (month, is_month, h5) = bind-some (analytics_month month_text) _ h4 in
    let made : MonthlyAnalyticsQuery = record { year = year; month = month } in
    let same : made ≡ query = ground (arith, h5) in
    let (from, to) = analytics_year-bounds year_text year is_year in
    let (from', to') = analytics_month-bounds month_text month is_month in
    rw (← same) (record { year_from = from; year_to = to; month_from = from'; month_to = to' })

pub parse_query-IsMonthQuery :
    (queries : List QueryParameter) (query : MonthlyAnalyticsQuery)
    → parse_query queries ≡ some query
    → IsMonthQuery query
unfolding parse_query
parse_query-IsMonthQuery queries query h = elim (Bool-cases (any is_repeated queries)) [
  | inl y ↦ absurd (ground (arith, rw y at h))
  | inr n ↦ query-IsMonthQuery (from_entries queries) query (rw n at h)
]
