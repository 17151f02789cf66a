-- ===== src/Insights/Service/Grounded.antt =====
-- Every answer of the service is about the requested month and grounded in its analytics.
use ai_statement_analyzer.Base.{ℕ, String, ◌≡◌, refl, inl, inr, Bool, true, false, List}
use ai_statement_analyzer.Insights.Service.{
  Rendering, GenerationLock, MonthlyInsightsServiceOptions, get_monthly_insights,
  MonthlyInsightsResponse, locked, find_cached_or, lock_key, to_response, cache_miss_line, input_of,
  answer_lookup,
}
use ai_statement_analyzer.Database.InsightsCache.{
  MonthlyInsightsCacheSession, MonthlyInsightsCacheLookup,
}
use ai_statement_analyzer.Effects.{Exec, Traced, write_log, lift, call}
use ai_statement_analyzer.Insights.Input.{CompactInsightsInput}
use ai_statement_analyzer.Json.{Json}
use ai_statement_analyzer.Insights.Grounding.Accepted.{AreGrounded, parse_and_validate-AreGrounded}
use ai_statement_analyzer.Analytics.{MonthlyAnalyticsRanges, get_monthly_analytics_ranges}
use ai_statement_analyzer.Insights.Schema.{Insight, document_json}
use ai_statement_analyzer.Failure.{ok}
use ai_statement_analyzer.Insights.Grounding.{parse_and_validate_insights}
use ai_statement_analyzer.Effects.Laws.{bind-ok}
use ai_statement_analyzer.Base.Number.{integer}
use ai_statement_analyzer.Insights.Service.Answers.{find_cached_or-ok, generate-ok}
use ai_statement_analyzer.Base.Int.{pos}
use ai_statement_analyzer.Database.AnalyticsQuery.{MonthlyAnalyticsAggregates}

-- A lock that resolves has run the callback with some session, and answers what it answered.
abbrev pub RunsCallback : {S : Type 0} → GenerationLock S → Type 0
RunsCallback {S} with_lock =
    (key : String)
    (callback : MonthlyInsightsCacheSession S → Exec (Traced S) MonthlyInsightsResponse)
    (t : Traced S) (r : MonthlyInsightsResponse)
    → (with_lock key callback t).0 ≡ ok r
    → (cache : MonthlyInsightsCacheSession S) × (start : Traced S) × ((callback cache start).0
        ≡ ok r)

module _ {F S : Type 0} (rendering : Rendering F)
    (options : MonthlyInsightsServiceOptions F S) where
  pub record IsAbout (year month : ℕ) (input : CompactInsightsInput F) (r : MonthlyInsightsResponse)
      : Type 0 where
    pub same_year : r.year ≡ year
    pub same_month : r.month ≡ month
    pub grounded : AreGrounded rendering.is_positive input r.insights

  -- The answer is about the month, and grounded in the aggregates that the store gave for its ranges.
  pub record IsAnswer (year month : ℕ) (t : Traced S) (r : MonthlyInsightsResponse) : Type 0 where
    pub ranges : MonthlyAnalyticsRanges
    pub in_range :
        get_monthly_analytics_ranges (integer (pos year)) (integer (pos month)) ≡ ok ranges
    pub aggregates : MonthlyAnalyticsAggregates
    pub aggregated : (options.find_monthly_analytics ranges t.world).0 ≡ ok aggregates
    pub about : IsAbout year month (input_of rendering year month aggregates) r

  module _ (year month : ℕ) (lookup : MonthlyInsightsCacheLookup)
      (input : CompactInsightsInput F) where
    to_response-IsAbout :
        (raw : Json) (is : List Insight) (at : ℕ) (cached : Bool) (r : MonthlyInsightsResponse)
        → parse_and_validate_insights rendering.is_positive raw input ≡ ok is
        → r ≡ to_response rendering year month is at cached
        → IsAbout year month input r
    to_response-IsAbout raw is at cached r accepted e = rw e (record {
      same_year = refl;
      same_month = refl;
      grounded = parse_and_validate-AreGrounded rendering.is_positive raw input is accepted;
    })

    find_cached_or-IsAbout :
        (cache : MonthlyInsightsCacheSession S)
        (otherwise : Exec (Traced S) MonthlyInsightsResponse) (t : Traced S)
        (r : MonthlyInsightsResponse)
        → ((s : Traced S) → (otherwise s).0 ≡ ok r → IsAbout year month input r)
        → (find_cached_or rendering options year month lookup input cache otherwise t).0 ≡ ok r
        → IsAbout year month input r
    find_cached_or-IsAbout cache otherwise t r rest h =
        elim (find_cached_or-ok rendering options year month lookup input cache otherwise t r
          h).by [
            | inl (c, _) ↦
                to_response-IsAbout c.cached.insights c.insights c.cached.generated_at true r
                  c.accepted c.is_response
            | inr (k, _) ↦ rest _ k
          ]

    locked-IsAbout :
        (cache : MonthlyInsightsCacheSession S) (t : Traced S) (r : MonthlyInsightsResponse)
        → (locked rendering options year month lookup input cache t).0 ≡ ok r
        → IsAbout year month input r
    unfolding locked
    locked-IsAbout cache t r h =
        find_cached_or-IsAbout cache _ t r
          (λ s k.
            let g = generate-ok rendering options year month lookup input cache s r k in
            to_response-IsAbout (document_json g.generated.insights) g.insights
              g.stored.generated_at false r g.accepted g.stored.is_response)
          h

    answer-IsAbout :
        RunsCallback options.with_monthly_insights_generation_lock
        → (t : Traced S) (r : MonthlyInsightsResponse)
        → (answer_lookup rendering options year month lookup input t).0 ≡ ok r
        → IsAbout year month input r
    unfolding answer_lookup
    answer-IsAbout runs t r h =
        find_cached_or-IsAbout options.cache _ t r
          (λ s k.
            let (cache, start, ran) =
              runs (lock_key lookup) _ (write_log cache_miss_line s).1 r k in
            locked-IsAbout cache start r ran)
          h

  -- Where the lock only answers what its callback answered: whatever the cache and the model hold,
  -- an answer of the service is about the requested month, the store has given the aggregates of its
  -- ranges, and the insights are within the schema's limits and grounded in these aggregates.
  pub get_monthly_insights-IsAnswer :
      RunsCallback options.with_monthly_insights_generation_lock
      → (year month : ℕ) (t : Traced S) (r : MonthlyInsightsResponse)
      → (get_monthly_insights rendering options year month t).0 ≡ ok r
      → IsAnswer year month t r
  unfolding get_monthly_insights
  get_monthly_insights-IsAnswer runs year month t r h =
      let one =
        bind-ok (lift (get_monthly_analytics_ranges (integer (pos year)) (integer (pos month)))) _ t
          h in
      let two = bind-ok (call (options.find_monthly_analytics one.value)) _ t one.rest in
      record {
        ranges = one.value;
        in_range = one.first;
        aggregates = two.value;
        aggregated = two.first;
        about = answer-IsAbout year month _ _ runs _ r two.rest;
      }
