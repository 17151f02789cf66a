-- ===== src/Insights/Service/Answers.antt =====
-- What an answer of the service went through.
use ai_statement_analyzer.Base.{
  ℕ, ◌≡◌, refl, sym, ap, ◌∙◌, ◌≢◌, ◌⊎◌, inl, inr, true, false, Option, none, some, List, arith,
  Bool-cases,
}
use ai_statement_analyzer.Insights.Service.{
  Rendering, MonthlyInsightsServiceOptions, save, get_cached_response, MonthlyInsightsResponse,
  or_null, to_response, is_invalid_insights, find_cached_or, generate, validate_generated,
  validation_failed, cached_or,
}
use ai_statement_analyzer.Database.InsightsCache.{
  MonthlyInsightsCacheLookup, MonthlyInsightsCacheSession, MonthlyInsightsCacheRecord,
}
use ai_statement_analyzer.Insights.Input.{CompactInsightsInput}
use ai_statement_analyzer.Effects.{Traced, Exec, call, lift}
use ai_statement_analyzer.Insights.Schema.{Insight, document_json}
use ai_statement_analyzer.Insights.Analyzer.{InsightsAnalysisResult}
use ai_statement_analyzer.Failure.{ok, throw, Thrown}
use ai_statement_analyzer.Insights.Grounding.{parse_and_validate_insights}
use ai_statement_analyzer.Worker.JobError.{instance_of}
use ai_statement_analyzer.Effects.Laws.{bind-ok, attempt-ok}
use mathlib.Core.Path.{subst}

module _ {F S : Type 0} (rendering : Rendering F) (options : MonthlyInsightsServiceOptions F S)
    (year month : ℕ) (lookup : MonthlyInsightsCacheLookup) (input : CompactInsightsInput F) where
  -- A row whose insights are accepted, and its answer.
  pub record IsCached (row : Option MonthlyInsightsCacheRecord) (r : MonthlyInsightsResponse)
      : Type 0 where
    pub cached : MonthlyInsightsCacheRecord
    pub is_row : row ≡ some cached
    pub insights : List Insight
    pub accepted :
        parse_and_validate_insights rendering.is_positive cached.insights input ≡ ok insights
    pub is_response : r ≡ to_response rendering year month insights cached.generated_at true

  pub get_cached_response-IsCached :
      (row : Option MonthlyInsightsCacheRecord) (r : MonthlyInsightsResponse)
      → get_cached_response rendering year month input row ≡ ok (some r)
      → IsCached row r
  unfolding get_cached_response
  get_cached_response-IsCached none r h = cc
  get_cached_response-IsCached (some c) r h =
      elim (parse_and_validate_insights rendering.is_positive c.insights input)
          as (λ o.
            parse_and_validate_insights rendering.is_positive c.insights input ≡ o
            → or_null rendering year month c.generated_at o ≡ ok (some r)
            → IsCached (some c) r) [
              | ok is ↦ λ e k. record {
                cached = c;
                is_row = refl;
                insights = is;
                accepted = e;
                is_response = ground (arith, k);
              }
              | throw x ↦ λ e k. elim (Bool-cases (instance_of is_invalid_insights x)) [
                | inl y ↦ absurd (ground (arith, rw y at k))
                | inr n ↦ absurd (ground (arith, rw n at k))
              ]
            ]
        refl h

  abbrev pub saving : MonthlyInsightsCacheSession S → List Insight → ℕ → Exec S (Unit {0})
  saving cache insights at =
      cache.save_monthly_insights
        (record { lookup = lookup; insights = insights; generated_at = at })

  -- What `save` did behind the state `w`.
  pub record IsSaved (cache : MonthlyInsightsCacheSession S) (is : List Insight) (w : S)
      (r : MonthlyInsightsResponse) (after : Traced S) : Type 0 where
    pub generated_at : ℕ
    pub saved : (saving cache is generated_at (options.now w).1).0 ≡ ok tt
    pub is_after : after.world ≡ (saving cache is generated_at (options.now w).1).1
    pub is_response : r ≡ to_response rendering year month is generated_at false

  save-ok :
      (cache : MonthlyInsightsCacheSession S) (is : List Insight) (t : Traced S)
      (r : MonthlyInsightsResponse)
      → (save rendering options year month lookup input cache is t).0 ≡ ok r
      → IsSaved cache is t.world r (save rendering options year month lookup input cache is t).1
  unfolding save
  save-ok cache is t r h =
      let one = bind-ok (call options.now) _ t h in
      let two = bind-ok (call (saving cache is one.value)) _ (call options.now t).1 one.rest in
      record {
        generated_at = one.value;
        saved = two.first;
        is_after = ap (λ (x : Traced S). x.world) (one.state ∙ two.state);
        is_response = ground (arith, two.rest);
      }

  -- An answer of a freshly generated document.
  pub record IsGenerated (cache : MonthlyInsightsCacheSession S) (t : Traced S)
      (r : MonthlyInsightsResponse) (after : Traced S) : Type 0 where
    pub generated : InsightsAnalysisResult
    pub analyzed : (options.analyze input t.world).0 ≡ ok generated
    pub insights : List Insight
    pub accepted :
        parse_and_validate_insights rendering.is_positive (document_json generated.insights) input
        ≡ ok insights
    pub stored : IsSaved cache insights (options.analyze input t.world).1 r after

  validation_failed-throws :
      (e : Thrown) (t : Traced S) (r : MonthlyInsightsResponse)
      → (validation_failed rendering options year month lookup input e t).0 ≢ ok r
  validation_failed-throws e t r h = elim (Bool-cases (instance_of is_invalid_insights e)) [
    | inl y ↦ ground (arith, rw y at h)
    | inr n ↦ ground (arith, rw n at h)
  ]

  pub generate-ok :
      (cache : MonthlyInsightsCacheSession S) (t : Traced S) (r : MonthlyInsightsResponse)
      → (generate rendering options year month lookup input cache t).0 ≡ ok r
      → IsGenerated cache t r (generate rendering options year month lookup input cache t).1
  unfolding generate validate_generated
  generate-ok cache t r h =
      let (generated, analyzed, rest, state) =
        attempt-ok (call (options.analyze input)) _ _ t (λ e s q. ground (arith, q)) h in
      let (insights, accepted, rest', state') =
        attempt-ok
          (lift (
            parse_and_validate_insights rendering.is_positive (document_json generated.insights)
              input))
          _ _ (call (options.analyze input) t).1 (λ e s. validation_failed-throws e s r) rest in
      record {
        generated = generated;
        analyzed = analyzed;
        insights = insights;
        accepted = accepted;
        stored =
            subst (λ x. IsSaved cache insights (options.analyze input t.world).1 r x)
              (sym (state ∙ state'))
              (save-ok cache insights (call (options.analyze input) t).1 r rest');
      }

  abbrev pub looked : MonthlyInsightsCacheSession S → Traced S → Traced S
  looked cache t = (call (cache.find_monthly_insights lookup) t).1

  -- The row that was found gives the answer, or it gives none and the rest answers.
  pub record IsFoundOr (cache : MonthlyInsightsCacheSession S)
      (otherwise : Exec (Traced S) MonthlyInsightsResponse) (t : Traced S)
      (r : MonthlyInsightsResponse) (after : Traced S) : Type 0 where
    pub row : Option MonthlyInsightsCacheRecord
    pub found : (cache.find_monthly_insights lookup t.world).0 ≡ ok row
    pub by :
        (IsCached row r × (after.world ≡ (looked cache t).world))
        ⊎ (((otherwise (looked cache t)).0 ≡ ok r) × (after ≡ (otherwise (looked cache t)).1))

  cached_or-ok :
      (cache : MonthlyInsightsCacheSession S) (otherwise : Exec (Traced S) MonthlyInsightsResponse)
      (t after : Traced S) (r : MonthlyInsightsResponse) (row : Option MonthlyInsightsCacheRecord)
      (o : Option MonthlyInsightsResponse)
      → get_cached_response rendering year month input row ≡ ok o
      → (cached_or rendering options year month lookup input otherwise o (looked cache t)).0 ≡ ok r
      → after ≡ (cached_or rendering options year month lookup input otherwise o (looked cache t)).1
      → (IsCached row r × (after.world ≡ (looked cache t).world))
        ⊎ (((otherwise (looked cache t)).0 ≡ ok r) × (after ≡ (otherwise (looked cache t)).1))
  cached_or-ok cache otherwise t after r row none g h e = inr (h, e)
  cached_or-ok cache otherwise t after r row (some r') g h e =
      let same : r' ≡ r = ground (arith, h) in
      inl (
        get_cached_response-IsCached row r (rw g (ap (λ x. ok (some x)) same)),
        ap (λ (x : Traced S). x.world) e,
      )

  pub find_cached_or-ok :
      (cache : MonthlyInsightsCacheSession S) (otherwise : Exec (Traced S) MonthlyInsightsResponse)
      (t : Traced S) (r : MonthlyInsightsResponse)
      → (find_cached_or rendering options year month lookup input cache otherwise t).0 ≡ ok r
      → IsFoundOr cache otherwise t r
          (find_cached_or rendering options year month lookup input cache otherwise t).1
  unfolding find_cached_or
  find_cached_or-ok cache otherwise t r h =
      let one = bind-ok (call (cache.find_monthly_insights lookup)) _ t h in
      let two =
        bind-ok (lift (get_cached_response rendering year month input one.value)) _ (looked cache t)
          one.rest in
      record {
        row = one.value;
        found = one.first;
        by =
            cached_or-ok cache otherwise t _ r one.value two.value two.first two.rest
              (one.state ∙ two.state);
      }
