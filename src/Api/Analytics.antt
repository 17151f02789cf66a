-- ===== src/Api/Analytics.antt =====
-- The handlers of src/app.ts that answer a month's analytics and insights, and the health checks.
pub mod Answered
use ai_statement_analyzer.Base.{
  ℕ, zero, suc, ◌+◌, ◌-◌, ◌*◌, ◌/◌, ◌%◌, ◌≤◌, ◌<◌, min, String, ◌≡◌, refl, sym, ap, ◌∙◌, ◌≢◌, ◌↔◌,
  ◌⊎◌, inl, inr, Bool, true, false, ◌&&◌, ◌||◌, not, Option, none, some, List, [], ◌∷◌, ◌++◌, map,
  arith, str_eq, eq_iff, eq_refl, ltb, leb, ◌==◌, if◌then◌else◌, is_some, or_else, Bool-cases,
  if-both, Option-cases, length, head?, filter, all, any, find, All,
}
use ai_statement_analyzer.Effects.{◌>>=◌, ◌>>◌, lift}
use ai_statement_analyzer.Api.Query.{MonthlyAnalyticsQuery, parse_query, QueryParameter}
use ai_statement_analyzer.Analytics.{
  build_monthly_analytics, MonthlyAnalyticsRanges, MonthlyAnalyticsAggregate,
  MonthlyAnalyticsResponse, get_monthly_analytics_ranges,
}
use ai_statement_analyzer.Insights.Service.{MonthlyInsightsResponse, to_response}
use ai_statement_analyzer.Base.Int.{ℤ, pos}
use ai_statement_analyzer.Effects.{
  LogLine, Exec, line, Traced, pure, write_log, at_error, attempt, call,
}
use ai_statement_analyzer.Api.Responses.{
  Response, error_response, invalid_request, dependency_unavailable,
}
use ai_statement_analyzer.Database.AnalyticsQuery.{MonthlyAnalyticsAggregates}
use ai_statement_analyzer.Base.Number.{integer}

-- A JSON answer with the status 200, or an error.
pub data Answer (A : Type 0) : Type 0 where
  json_answer : A → Answer A
  error_answer : Response → Answer A

-- What the health checks answer.
pub record Health : Type 0 where
  pub http_status : ℕ
  pub status : String
  pub service : Option String
  pub database : Option String

abbrev pub health : Health
health = record { http_status = 200; status = "ok"; service = some "api"; database = none }

abbrev pub database_health : ℕ → String → String → Health
database_health http_status status database = record {
  http_status = http_status;
  status = status;
  service = none;
  database = some database;
}

abbrev pub insights_unavailable : Response
insights_unavailable = error_response 503 "INSIGHTS_UNAVAILABLE" "支出Insightsを利用できません。"

abbrev pub insights_failure_line : String → LogLine
insights_failure_line event = record (line at_error event) {
  status = some "failed";
  disposition =
      some (if str_eq event "monthly_insights_config_missing" then "PERMANENT" else "RETRYABLE");
  error_code = some "INSIGHTS_UNAVAILABLE";
}

abbrev pub analytics_failure_line : LogLine
analytics_failure_line = record (line at_error "monthly_analytics_failed") {
  status = some "failed";
  disposition = some "RETRYABLE";
  error_code = some "DEPENDENCY_UNAVAILABLE";
}

module _ {S : Type 0} where
  -- `SELECT 1` is a parameter.
  unfoldable pub health_db : Exec S (Unit {0}) → Exec (Traced S) Health
  health_db select_1 =
      attempt (call select_1)
        (λ e.
          write_log (record (line at_error "database_health_check_failed") {
            error_code = some "DATABASE_UNAVAILABLE";
          })
          >> pure (database_health 503 "error" "unavailable"))
        (λ _. pure (database_health 200 "ok" "ok"))

  module _ {F : Type 0} (rounded change : ℤ → ℤ → F)
      (find : MonthlyAnalyticsRanges → Exec S MonthlyAnalyticsAggregates) where
    unfoldable pub analytics_of :
        MonthlyAnalyticsQuery → Exec (Traced S) (Answer (MonthlyAnalyticsResponse F))
    analytics_of query = do
      ranges ←
          lift (get_monthly_analytics_ranges (integer (pos query.year)) (integer (pos query.month)))
      attempt (call (find ranges))
          (λ e. write_log analytics_failure_line >> pure (error_answer dependency_unavailable))
          (λ aggregates. pure (
            json_answer (
              build_monthly_analytics rounded change query.year query.month aggregates.current
                aggregates.previous)))

    abbrev pub analytics_or_invalid :
        Option MonthlyAnalyticsQuery → Exec (Traced S) (Answer (MonthlyAnalyticsResponse F))
    analytics_or_invalid none = pure (error_answer invalid_request)
    analytics_or_invalid (some query) = analytics_of query

    unfoldable pub get_monthly_analytics :
        List QueryParameter → Exec (Traced S) (Answer (MonthlyAnalyticsResponse F))
    get_monthly_analytics queries = analytics_or_invalid (parse_query queries)

  -- The provider of the insights may be missing.
  abbrev pub insights_failed : String → Exec (Traced S) (Answer MonthlyInsightsResponse)
  insights_failed event =
      write_log (insights_failure_line event) >> pure (error_answer insights_unavailable)

  unfoldable pub insights_answer :
      Option (ℕ → ℕ → Exec (Traced S) MonthlyInsightsResponse)
      → MonthlyAnalyticsQuery
      → Exec (Traced S) (Answer MonthlyInsightsResponse)
  insights_answer none query = insights_failed "monthly_insights_config_missing"
  insights_answer (some provider) query =
      attempt (provider query.year query.month) (λ e. insights_failed "monthly_insights_failed")
        (λ r. pure (json_answer r))

  abbrev pub insights_or_invalid :
      Option (ℕ → ℕ → Exec (Traced S) MonthlyInsightsResponse)
      → Option MonthlyAnalyticsQuery
      → Exec (Traced S) (Answer MonthlyInsightsResponse)
  insights_or_invalid provider none = pure (error_answer invalid_request)
  insights_or_invalid provider (some query) = insights_answer provider query

  unfoldable pub get_insights :
      Option (ℕ → ℕ → Exec (Traced S) MonthlyInsightsResponse)
      → List QueryParameter
      → Exec (Traced S) (Answer MonthlyInsightsResponse)
  get_insights provider queries = insights_or_invalid provider (parse_query queries)
