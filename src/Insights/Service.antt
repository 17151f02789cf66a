-- ===== src/Insights/Service.antt =====
-- src/insights/monthly-insights-service.ts: the insights of a month, from the cache or generated under
-- its lock. The percentages, JSON's text and the hash are parameters, and so is what the service is
-- given: the analytics, the cache, the analyzer and the clock.
pub mod Answers
pub mod Grounded
pub mod Cached
use ai_statement_analyzer.Base.{
  ℕ, zero, suc, ◌+◌, ◌-◌, ◌*◌, ◌/◌, ◌%◌, ◌≤◌, ◌<◌, min, String, ◌≡◌, refl, sym, ap, ◌∙◌, ◌≢◌, ◌↔◌,
  ◌⊎◌, inl, inr, Bool, true, false, ◌&&◌, ◌||◌, not, Option, none, some, List, [], ◌∷◌, ◌++◌, map,
  arith, str_eq, eq_iff, eq_refl, ltb, leb, ◌==◌, if◌then◌else◌, is_some, or_else, Bool-cases,
  if-both, Option-cases, length, head?, filter, all, any, find, All,
}
use Prim.Native.String
use ai_statement_analyzer.Failure.{invalid_insights}
use ai_statement_analyzer.Ai.BedrockOcr.{retryable, non_retryable}
use ai_statement_analyzer.Effects.{◌>>=◌, ◌>>◌}
use ai_statement_analyzer.Database.InsightsCache.{
  MonthlyInsightsCacheRecord, MonthlyInsightsCacheSession, MonthlyInsightsCacheLookup,
}
use ai_statement_analyzer.Analytics.{
  MonthlyAnalyticsRanges, build_monthly_analytics, get_monthly_analytics_ranges,
}
use ai_statement_analyzer.Base.Int.{ℤ, pos}
use ai_statement_analyzer.Effects.{
  Exec, LogLine, Traced, line, at_error, write_log, attempt, at_info, ◌>>◌, call, lift, raise, pure,
}
use ai_statement_analyzer.Database.AnalyticsQuery.{MonthlyAnalyticsAggregates}
use ai_statement_analyzer.Insights.Input.{
  CompactInsightsInput, create_compact_insights_input, get_analytics_fingerprint,
}
use ai_statement_analyzer.Ai.BedrockOcr.{BedrockErrorDisposition, classify_bedrock_error}
use ai_statement_analyzer.Failure.{Outcome, Thrown, ErrorClass, ok, throw}
use ai_statement_analyzer.Insights.Schema.{Insight, document_json}
use ai_statement_analyzer.Worker.JobError.{instance_of}
use ai_statement_analyzer.Insights.Analyzer.{InsightsAnalysisResult}
use ai_statement_analyzer.Insights.Grounding.{parse_and_validate_insights}
use ai_statement_analyzer.Worker.JobHandler.{get_safe_error_code}
use ai_statement_analyzer.Base.Number.{integer}

pub record MonthlyInsightsResponse : Type 0 where
  pub year : ℕ
  pub month : ℕ
  pub insights : List Insight
  pub generated_at : ℕ
  pub cached : Bool

-- What the input and its fingerprint depend on.
pub record Rendering (F : Type 0) : Type 0 where
  pub rounded : ℤ → ℤ → F
  pub change : ℤ → ℤ → F
  pub is_positive : F → Bool
  pub stringify : CompactInsightsInput F → String
  pub digest : String → String
  pub model_id : String
  pub prompt_version : String

abbrev pub GenerationLock : Type 0 → Type 0
GenerationLock S =
    String
    → (MonthlyInsightsCacheSession S → Exec (Traced S) MonthlyInsightsResponse)
    → Exec (Traced S) MonthlyInsightsResponse

pub record MonthlyInsightsServiceOptions (F S : Type 0) : Type 0 where
  pub find_monthly_analytics : MonthlyAnalyticsRanges → Exec S MonthlyAnalyticsAggregates
  pub cache : MonthlyInsightsCacheSession S
  pub with_monthly_insights_generation_lock : GenerationLock S
  pub analyze : CompactInsightsInput F → Exec S InsightsAnalysisResult
  pub now : Exec S ℕ

abbrev pub is_invalid_insights : ErrorClass → Bool
is_invalid_insights invalid_insights = true
is_invalid_insights _ = false

abbrev pub bedrock_disposition_text : BedrockErrorDisposition → String
bedrock_disposition_text retryable = "RETRYABLE"
bedrock_disposition_text non_retryable = "NON_RETRYABLE"

abbrev pub cache_hit_line : LogLine
cache_hit_line = record (line at_info "monthly_insights_cache_hit") { status = some "completed" }

abbrev pub cache_miss_line : LogLine
cache_miss_line = record (line at_info "monthly_insights_cache_miss") { status = some "started" }

abbrev pub failure_line : String → String → String → LogLine
failure_line event code disposition = record (line at_error event) {
  status = some "failed";
  stage = some "insights";
  error_code = some code;
  disposition = some disposition;
}

abbrev pub response_invalid_line : LogLine
response_invalid_line =
    failure_line "bedrock_response_invalid" "INVALID_INSIGHTS_RESPONSE" "PERMANENT"

abbrev pub analyzer_failure_line : Thrown → LogLine
analyzer_failure_line error =
    if instance_of is_invalid_insights error
    then response_invalid_line
    else failure_line "bedrock_request_failed" (get_safe_error_code error)
        (bedrock_disposition_text (classify_bedrock_error error))

module _ {F : Type 0} (rendering : Rendering F) where
  unfoldable pub input_of : ℕ → ℕ → MonthlyAnalyticsAggregates → CompactInsightsInput F
  input_of year month aggregates = create_compact_insights_input (
      build_monthly_analytics rendering.rounded rendering.change year month aggregates.current
        aggregates.previous)

  abbrev pub lookup_of :
      MonthlyAnalyticsRanges → CompactInsightsInput F → MonthlyInsightsCacheLookup
  lookup_of ranges input = record {
    target_month = ranges.current.start;
    analytics_version = get_analytics_fingerprint rendering.stringify rendering.digest input;
    model_id = rendering.model_id;
    prompt_version = rendering.prompt_version;
  }

  module _ (year month : ℕ) where
    abbrev pub to_response : List Insight → ℕ → Bool → MonthlyInsightsResponse
    to_response insights generated_at cached = record {
      year = year;
      month = month;
      insights = insights;
      generated_at = generated_at;
      cached = cached;
    }

    abbrev pub or_null : ℕ → Outcome (List Insight) → Outcome (Option MonthlyInsightsResponse)
    or_null generated_at (ok insights) = ok (some (to_response insights generated_at true))
    or_null generated_at (throw e) =
        if not (instance_of is_invalid_insights e) then throw e else ok none

    unfoldable pub get_cached_response :
        CompactInsightsInput F
        → Option MonthlyInsightsCacheRecord
        → Outcome (Option MonthlyInsightsResponse)
    get_cached_response input none = ok none
    get_cached_response input (some cached) =
        or_null cached.generated_at
          (parse_and_validate_insights rendering.is_positive cached.insights input)

abbrev pub lock_key : MonthlyInsightsCacheLookup → String
lock_key l =
    String.◌++◌ l.target_month
      (String.◌++◌ ":" (String.◌++◌ l.model_id (String.◌++◌ ":" l.prompt_version)))

module _ {F S : Type 0} (rendering : Rendering F)
    (options : MonthlyInsightsServiceOptions F S) where
  module _ (year month : ℕ) (lookup : MonthlyInsightsCacheLookup)
      (input : CompactInsightsInput F) where
    abbrev pub analyzer_failed : Thrown → Exec (Traced S) MonthlyInsightsResponse
    analyzer_failed e = write_log (analyzer_failure_line e) >> raise e

    abbrev pub validation_failed : Thrown → Exec (Traced S) MonthlyInsightsResponse
    validation_failed e =
        if instance_of is_invalid_insights e
        then write_log response_invalid_line >> raise e
        else raise e

    unfoldable pub save :
        MonthlyInsightsCacheSession S → List Insight → Exec (Traced S) MonthlyInsightsResponse
    save cache insights = do
      generated_at ← call options.now
      call (
          cache.save_monthly_insights
            (record { lookup = lookup; insights = insights; generated_at = generated_at }))
      pure (to_response rendering year month insights generated_at false)

    unfoldable pub validate_generated :
        MonthlyInsightsCacheSession S
        → InsightsAnalysisResult
        → Exec (Traced S) MonthlyInsightsResponse
    validate_generated cache generated =
        attempt
          (lift (
            parse_and_validate_insights rendering.is_positive (document_json generated.insights)
              input))
          validation_failed (save cache)

    unfoldable pub generate :
        MonthlyInsightsCacheSession S → Exec (Traced S) MonthlyInsightsResponse
    generate cache =
        attempt (call (options.analyze input)) analyzer_failed (validate_generated cache)

    -- The cached answer, where there is one, and its line in the log.
    abbrev pub cached_or :
        Exec (Traced S) MonthlyInsightsResponse
        → Option MonthlyInsightsResponse
        → Exec (Traced S) MonthlyInsightsResponse
    cached_or otherwise (some response) = write_log cache_hit_line >> pure response
    cached_or otherwise none = otherwise

    unfoldable pub find_cached_or :
        MonthlyInsightsCacheSession S
        → Exec (Traced S) MonthlyInsightsResponse
        → Exec (Traced S) MonthlyInsightsResponse
    find_cached_or cache otherwise = do
      cached ← call (cache.find_monthly_insights lookup)
      response ← lift (get_cached_response rendering year month input cached)
      cached_or otherwise response

    unfoldable pub locked : MonthlyInsightsCacheSession S → Exec (Traced S) MonthlyInsightsResponse
    locked cache = find_cached_or cache (generate cache)

    unfoldable pub answer_lookup : Exec (Traced S) MonthlyInsightsResponse
    answer_lookup = find_cached_or options.cache (
        write_log cache_miss_line
        >> options.with_monthly_insights_generation_lock (lock_key lookup) locked)

  abbrev pub answer_from :
      ℕ
      → ℕ
      → MonthlyAnalyticsRanges
      → CompactInsightsInput F
      → Exec (Traced S) MonthlyInsightsResponse
  answer_from year month ranges input =
      answer_lookup year month (lookup_of rendering ranges input) input

  unfoldable pub get_monthly_insights : ℕ → ℕ → Exec (Traced S) MonthlyInsightsResponse
  get_monthly_insights year month = do
    ranges ← lift (get_monthly_analytics_ranges (integer (pos year)) (integer (pos month)))
    aggregates ← call (options.find_monthly_analytics ranges)
    answer_from year month ranges (input_of rendering year month aggregates)
