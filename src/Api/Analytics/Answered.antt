-- ===== src/Api/Analytics/Answered.antt =====
-- The two queries of a month always answer, and what their answers are.
use ai_statement_analyzer.Base.{
  ℕ, ◌≡◌, refl, inl, inr, Option, none, some, List, arith, Option-cases,
}
use ai_statement_analyzer.Base.Int.{ℤ, pos, negsuc}
use ai_statement_analyzer.Analytics.{
  MonthlyAnalyticsRanges, get_monthly_analytics_ranges, MonthlyAnalyticsResponse,
  build_monthly_analytics, ranges_around, shift_month,
}
use ai_statement_analyzer.Effects.{Exec, Traced, settle, pure}
use ai_statement_analyzer.Database.AnalyticsQuery.{MonthlyAnalyticsAggregates}
use ai_statement_analyzer.Api.Query.{QueryParameter, MonthlyAnalyticsQuery, parse_query}
use ai_statement_analyzer.Api.Analytics.{
  analytics_of, get_monthly_analytics, Answer, error_answer, json_answer, get_insights,
  insights_unavailable, insights_failed, insights_answer,
}
use ai_statement_analyzer.Failure.{Outcome, ok, Thrown, throw}
use ai_statement_analyzer.Api.Query.Months.{parse_query-IsMonthQuery, IsMonthQuery}
use ai_statement_analyzer.Api.Responses.{invalid_request, dependency_unavailable}
use ai_statement_analyzer.Analytics.Ranges.{ranges_of-ok}
use ai_statement_analyzer.Base.Number.{integer}
use ai_statement_analyzer.Insights.Service.{
  Rendering, MonthlyInsightsServiceOptions, MonthlyInsightsResponse, get_monthly_insights,
}
use ai_statement_analyzer.Effects.Laws.{attempt-cases}
use ai_statement_analyzer.Insights.Service.Grounded.{
  RunsCallback, IsAnswer, get_monthly_insights-IsAnswer,
}

-- The ways in which the analytics are answered.
pub data IsAnswered {F S : Type 0} (rounded change : ℤ → ℤ → F)
    (find : MonthlyAnalyticsRanges → Exec S MonthlyAnalyticsAggregates)
    (queries : List QueryParameter) (t : Traced S)
    : Outcome (Answer (MonthlyAnalyticsResponse F)) → Type 0 where
  no_month :
      parse_query queries ≡ none
      → IsAnswered rounded change find queries t (ok (error_answer invalid_request))
  no_store :
      (query : MonthlyAnalyticsQuery) (ranges : MonthlyAnalyticsRanges) (e : Thrown)
      → parse_query queries ≡ some query
      → get_monthly_analytics_ranges (integer (pos query.year)) (integer (pos query.month))
        ≡ ok ranges
      → (find ranges t.world).0 ≡ throw e
      → IsAnswered rounded change find queries t (ok (error_answer dependency_unavailable))
  with_month :
      (query : MonthlyAnalyticsQuery) (ranges : MonthlyAnalyticsRanges)
      (aggregates : MonthlyAnalyticsAggregates)
      → parse_query queries ≡ some query
      → IsMonthQuery query
      → get_monthly_analytics_ranges (integer (pos query.year)) (integer (pos query.month))
        ≡ ok ranges
      → (find ranges t.world).0 ≡ ok aggregates
      → IsAnswered rounded change find queries t (
          ok (
            json_answer (
              build_monthly_analytics rounded change query.year query.month aggregates.current
                aggregates.previous)))

module _ {F S : Type 0} (rounded change : ℤ → ℤ → F)
    (find : MonthlyAnalyticsRanges → Exec S MonthlyAnalyticsAggregates)
    (queries : List QueryParameter) (t : Traced S) where
  analytics_of-IsAnswered :
      (query : MonthlyAnalyticsQuery)
      → parse_query queries ≡ some query
      → IsAnswered rounded change find queries t (analytics_of rounded change find query t).0
  unfolding analytics_of get_monthly_analytics_ranges
  analytics_of-IsAnswered query h =
      let m = parse_query-IsMonthQuery queries query h in
      let given =
        ranges_of-ok query.year query.month
          (ground (arith, m.year_from), m.month_from, m.month_to) in
      let ranges =
        ranges_around query.year query.month (shift_month query.year query.month (pos 1))
          (shift_month query.year query.month (negsuc 0)) in
      rw given (
        attempt-cases (λ x. IsAnswered rounded change find queries t x.0) (find ranges) _ _ t
          (λ e failed. no_store query ranges e h given failed)
          (λ aggregates found. with_month query ranges aggregates h m given found))

  -- The analytics are always answered: with 400 where the query names no month, with 503 where the
  -- store fails on the ranges of the parsed month, and else with the response that is built of the
  -- aggregates of these ranges.
  pub get_monthly_analytics-IsAnswered :
      IsAnswered rounded change find queries t
        (get_monthly_analytics rounded change find queries t).0
  unfolding get_monthly_analytics
  get_monthly_analytics-IsAnswered = elim (Option-cases (parse_query queries)) [
    | inl e ↦ rw e (no_month e)
    | inr (query, e) ↦ rw e (analytics_of-IsAnswered query e)
  ]

module _ {F S : Type 0} (rendering : Rendering F)
    (options : MonthlyInsightsServiceOptions F S) where
  abbrev pub provider : Option (ℕ → ℕ → Exec (Traced S) MonthlyInsightsResponse)
  provider = some (get_monthly_insights rendering options)

  -- The ways in which the insights are answered.
  pub data InsightsAnswered (queries : List QueryParameter) (t : Traced S)
      : Outcome (Answer MonthlyInsightsResponse) → Type 0 where
    refused :
        parse_query queries ≡ none → InsightsAnswered queries t (ok (error_answer invalid_request))
    failed :
        (query : MonthlyAnalyticsQuery) (e : Thrown)
        → parse_query queries ≡ some query
        → (get_monthly_insights rendering options query.year query.month t).0 ≡ throw e
        → InsightsAnswered queries t (ok (error_answer insights_unavailable))
    given :
        (query : MonthlyAnalyticsQuery) (r : MonthlyInsightsResponse)
        → parse_query queries ≡ some query
        → IsMonthQuery query
        → IsAnswer rendering options query.year query.month t r
        → InsightsAnswered queries t (ok (json_answer r))

  -- The insights are always answered: with 400 where the query names no month, with 503 where the
  -- service throws for the parsed month, and else, where the lock only answers what its callback
  -- answered, with a response about that month that is grounded in the aggregates of its ranges.
  pub get_insights-InsightsAnswered :
      RunsCallback options.with_monthly_insights_generation_lock
      → (queries : List QueryParameter) (t : Traced S)
      → InsightsAnswered queries t (get_insights provider queries t).0
  unfolding get_insights insights_answer
  get_insights-InsightsAnswered runs queries t = elim (Option-cases (parse_query queries)) [
    | inl e ↦ rw e (refused e)
    | inr (query, e) ↦ rw e (
        elim (get_monthly_insights rendering options query.year query.month t).0
            as (λ o.
              (get_monthly_insights rendering options query.year query.month t).0 ≡ o
              → InsightsAnswered queries t
                  (settle o (get_monthly_insights rendering options query.year query.month t).1
                    (λ x. insights_failed "monthly_insights_failed")
                    (λ r. pure (json_answer r))).0) [
                      | ok r ↦ λ answered.
                          given query r e (parse_query-IsMonthQuery queries query e) (
                            get_monthly_insights-IsAnswer rendering options runs query.year
                              query.month t r answered)
                      | throw x ↦ λ threw. failed query x e threw
                    ]
          refl)
  ]
