-- ===== src/Database/InsightsCache/Saved.antt =====
-- What was saved is found.
use ai_statement_analyzer.Base.{
  ◌≡◌, refl, inl, inr, some, [], ◌∷◌, str_eq, eq_refl, Bool-cases, arith, true, Option,
}
use ai_statement_analyzer.Database.InsightsCache.{
  MonthlyInsightsCacheRecord, Table, select_insights, upsert, save_monthly_insights,
  SaveMonthlyInsightsInput, CacheState, row_of, is_savable, find_monthly_insights, is_typed,
  MonthlyInsightsCacheLookup,
}
use ai_statement_analyzer.Failure.{ok}

pub select-upsert :
    (new : MonthlyInsightsCacheRecord) (rows : Table)
    → select_insights new.lookup (upsert new rows) ≡ some new
unfolding select_insights upsert
select-upsert new [] =
    rw
      (
        eq_refl new.target_month,
        eq_refl new.analytics_version,
        eq_refl new.model_id,
        eq_refl new.prompt_version,
      )
      refl
select-upsert new (r ∷ rows) = elim (Bool-cases (str_eq r.target_month new.target_month)) [
  | inl h ↦
      rw
        (
          h,
          eq_refl new.target_month,
          eq_refl new.analytics_version,
          eq_refl new.model_id,
          eq_refl new.prompt_version,
        )
        refl
  | inr h ↦ rw (h, h) (select-upsert new rows)
]

-- A save that resolved has written its row.
pub save_monthly_insights-ok :
    {E : Type 0} (input : SaveMonthlyInsightsInput) (s : CacheState E)
    → (save_monthly_insights input s).0 ≡ ok tt
    → (save_monthly_insights input s).1.table ≡ upsert (row_of input) s.table
unfolding save_monthly_insights
save_monthly_insights-ok input s h = elim (Bool-cases (is_savable input)) [
  | inl y ↦ rw y refl
  | inr n ↦ absurd (ground (arith, rw n at h))
]

-- A save that resolved had parameters of the column types.
pub save_monthly_insights-typed :
    {E : Type 0} (input : SaveMonthlyInsightsInput) (s : CacheState E)
    → (save_monthly_insights input s).0 ≡ ok tt
    → is_typed input.lookup ≡ true
unfolding save_monthly_insights
save_monthly_insights-typed input s h = elim (Bool-cases (is_typed input.lookup)) [
  | inl y ↦ y
  | inr n ↦ absurd (ground (arith, rw n at h))
]

-- A lookup that resolved had such parameters, and gives what the table has.
pub find_monthly_insights-ok :
    {E : Type 0} (l : MonthlyInsightsCacheLookup) (s : CacheState E)
    (row : Option MonthlyInsightsCacheRecord)
    → (find_monthly_insights l s).0 ≡ ok row
    → (is_typed l ≡ true) × (select_insights l s.table ≡ row) × ((find_monthly_insights l s).1 ≡ s)
unfolding find_monthly_insights
find_monthly_insights-ok l s row h = elim (Bool-cases (is_typed l)) [
  | inl y ↦ (y, ground (arith, rw y at h), rw y refl)
  | inr n ↦ absurd (ground (arith, rw n at h))
]
