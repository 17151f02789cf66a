-- ===== src/Insights/Service/Cached.antt =====
-- The service over the repository's cache: what was answered is answered again, from the table.
use ai_statement_analyzer.Base.{ℕ, ◌≡◌, refl, ap, ◌∙◌, inl, inr, true, Option, some, List, ◌∷◌}
use ai_statement_analyzer.Insights.Service.{
  Rendering, MonthlyInsightsServiceOptions, MonthlyInsightsResponse, get_cached_response,
  get_monthly_insights, answer_lookup, locked, find_cached_or, cache_hit_line, lock_key, lookup_of,
  input_of,
}
use ai_statement_analyzer.Analytics.{MonthlyAnalyticsRanges, get_monthly_analytics_ranges}
use ai_statement_analyzer.Database.InsightsCache.{
  MonthlyInsightsCacheLookup, CacheState, Table, on_rest, MonthlyInsightsCacheRecord, session,
  select_insights, with_monthly_insights_generation_lock, upsert, find_monthly_insights, row_of,
  SaveMonthlyInsightsInput, is_typed,
}
use ai_statement_analyzer.Effects.{Exec, Traced, write_log, lift, call}
use ai_statement_analyzer.Insights.Input.{CompactInsightsInput}
use ai_statement_analyzer.Database.AnalyticsQuery.{MonthlyAnalyticsAggregates}
use ai_statement_analyzer.Insights.Analyzer.{InsightsAnalysisResult}
use ai_statement_analyzer.Insights.Schema.{Insight}
use ai_statement_analyzer.Insights.Service.Answers.{
  IsCached, IsSaved, generate-ok, find_cached_or-ok,
}
use ai_statement_analyzer.Failure.{ok}
use ai_statement_analyzer.Json.{Json}
use ai_statement_analyzer.Insights.Grounding.{parse_and_validate_insights}
use ai_statement_analyzer.Database.InsightsCache.Locked.{lock-IsGranted}
use ai_statement_analyzer.Effects.Laws.{bind-ok}
use ai_statement_analyzer.Database.InsightsCache.Saved.{
  save_monthly_insights-typed, find_monthly_insights-ok, save_monthly_insights-ok, select-upsert,
}
use ai_statement_analyzer.Insights.Grounding.Accepted.{parse_and_validate-document_json}
use ai_statement_analyzer.Base.Number.{integer}
use ai_statement_analyzer.Base.Int.{pos}

-- The store of the analytics, the model and the clock.
pub record Surroundings (F E : Type 0) : Type 0 where
  pub find_monthly_analytics : MonthlyAnalyticsRanges → Exec E MonthlyAnalyticsAggregates
  pub analyze : CompactInsightsInput F → Exec E InsightsAnalysisResult
  pub now : Exec E ℕ

module _ {F E : Type 0} (rendering : Rendering F) (around : Surroundings F E) where
  abbrev pub over_cache : MonthlyInsightsServiceOptions F (CacheState E)
  over_cache = record {
    find_monthly_analytics = λ ranges. on_rest (around.find_monthly_analytics ranges);
    cache = session;
    with_monthly_insights_generation_lock = with_monthly_insights_generation_lock;
    analyze = λ input. on_rest (around.analyze input);
    now = on_rest around.now;
  }

  abbrev pub again : MonthlyInsightsResponse → MonthlyInsightsResponse
  again r = record r { cached = true }

  module _ (year month : ℕ) (lookup : MonthlyInsightsCacheLookup)
      (input : CompactInsightsInput F) where
    -- The lookup can be asked, and the table has a row that gives the answer.
    abbrev Has : Table → MonthlyInsightsResponse → Type 0
    Has rows r =
        (is_typed lookup ≡ true)
        × (get_cached_response rendering year month input (select_insights lookup rows)
            ≡ ok (some (again r)))

    found-Has :
        (rows : Table) (row : Option MonthlyInsightsCacheRecord) (r : MonthlyInsightsResponse)
        → is_typed lookup ≡ true
        → select_insights lookup rows ≡ row
        → IsCached rendering over_cache year month lookup input row r
        → Has rows r
    unfolding get_cached_response
    found-Has rows row r y e c = (y, rw (e, c.is_row, c.accepted, c.is_response) refl)

    saved-Has :
        (is : List Insight) (w : CacheState E) (r : MonthlyInsightsResponse) (raw : Json)
        (after : Traced (CacheState E))
        → parse_and_validate_insights rendering.is_positive raw input ≡ ok is
        → IsSaved rendering over_cache year month lookup input session is w r after
        → Has after.world.table r
    unfolding get_cached_response
    saved-Has is w r raw after accepted s =
        let new : SaveMonthlyInsightsInput = record {
          lookup = lookup;
          insights = is;
          generated_at = s.generated_at;
        } in
        let table : after.world.table ≡ upsert (row_of new) w.table =
          ap (λ x. x.table) s.is_after
          ∙ save_monthly_insights-ok new (over_cache.now w).1 s.saved in
        (
          save_monthly_insights-typed new (over_cache.now w).1 s.saved,
          rw
              (
                table,
                select-upsert (row_of new) w.table,
                parse_and_validate-document_json rendering.is_positive raw input is accepted,
                s.is_response,
              )
              refl,
        )

    find_cached_or-Has :
        (otherwise : Exec (Traced (CacheState E)) MonthlyInsightsResponse)
        (t : Traced (CacheState E)) (r : MonthlyInsightsResponse)
        → ((s : Traced (CacheState E)) → (otherwise s).0 ≡ ok r → Has (otherwise s).1.world.table r)
        → (find_cached_or rendering over_cache year month lookup input session otherwise t).0 ≡ ok r
        → Has
            (find_cached_or rendering over_cache year month lookup input session otherwise
              t).1.world.table
            r
    find_cached_or-Has otherwise t r rest h =
        let f =
          find_cached_or-ok rendering over_cache year month lookup input session otherwise t r h in
        let (typed, selected, same) = find_monthly_insights-ok lookup t.world f.row f.found in
        elim f.by [
          | inl (c, e) ↦
              rw (ap (λ (x : CacheState E). x.table) (e ∙ same))
                (found-Has t.world.table f.row r typed selected c)
          | inr (k, e) ↦ rw e (rest _ k)
        ]

    locked-Has :
        (t : Traced (CacheState E)) (r : MonthlyInsightsResponse)
        → (locked rendering over_cache year month lookup input session t).0 ≡ ok r
        → Has (locked rendering over_cache year month lookup input session t).1.world.table r
    unfolding locked
    locked-Has t r h =
        find_cached_or-Has _ t r
          (λ s k.
            let g = generate-ok rendering over_cache year month lookup input session s r k in
            saved-Has g.insights _ r _ _ g.accepted g.stored)
          h

    answer_lookup-Has :
        (t : Traced (CacheState E)) (r : MonthlyInsightsResponse)
        → (answer_lookup rendering over_cache year month lookup input t).0 ≡ ok r
        → Has (answer_lookup rendering over_cache year month lookup input t).1.world.table r
    unfolding answer_lookup
    answer_lookup-Has t r h =
        find_cached_or-Has _ t r
          (λ s k.
            let g = lock-IsGranted (lock_key lookup) _ _ r k in
            rw g.committed (locked-Has g.start r g.answered))
          h

    -- A row that gives the answer gives it, and nothing else happens.
    Has-answer_lookup :
        (t : Traced (CacheState E)) (r : MonthlyInsightsResponse)
        → Has t.world.table r
        → answer_lookup rendering over_cache year month lookup input t
          ≡ (ok (again r), (write_log cache_hit_line t).1)
    unfolding answer_lookup find_cached_or find_monthly_insights
    Has-answer_lookup t r (typed, h) = rw (typed, h) refl

  -- Once the service over the repository has answered, a later request of the same month, in a state
  -- with the table that it left and for which the store gives the same aggregates, is answered from the
  -- table: with the same insights and moment, marked as cached. Neither the model nor the lock is asked
  -- and the table stays.
  pub get_monthly_insights-again :
      (year month : ℕ) (t later : Traced (CacheState E)) (r : MonthlyInsightsResponse)
      → (get_monthly_insights rendering over_cache year month t).0 ≡ ok r
      → later.world.table ≡ (get_monthly_insights rendering over_cache year month t).1.world.table
      → ((ranges : MonthlyAnalyticsRanges)
          → (around.find_monthly_analytics ranges later.world.rest).0
            ≡ (around.find_monthly_analytics ranges t.world.rest).0)
      → (ranges : MonthlyAnalyticsRanges) × (get_monthly_analytics_ranges
            (integer (pos year))
            (integer (pos month))
          ≡ ok ranges)
        × (get_monthly_insights rendering over_cache year month later ≡ (
          ok (again r),
          record {
            world = record later.world {
              rest = (around.find_monthly_analytics ranges later.world.rest).1;
            };
            log = cache_hit_line ∷ later.log;
          },
        ))
  unfolding get_monthly_insights
  get_monthly_insights-again year month t later r h table same =
      let one =
        bind-ok (lift (get_monthly_analytics_ranges (integer (pos year)) (integer (pos month)))) _ t
          h in
      let two = bind-ok (call (over_cache.find_monthly_analytics one.value)) _ t one.rest in
      let has =
        answer_lookup-Has year month _ _ (call (over_cache.find_monthly_analytics one.value) t).1 r
          two.rest in
      let found : Has year month
          (lookup_of rendering one.value (input_of rendering year month two.value))
          (input_of rendering year month two.value) later.world.table r =
        rw (table, ap (λ (x : Traced (CacheState E)). x.world.table) (one.state ∙ two.state)) has in
      (
        one.value,
        one.first,
        rw (one.first, same one.value, two.first)
            (Has-answer_lookup year month _ _
              (call (over_cache.find_monthly_analytics one.value) later).1 r found),
      )
