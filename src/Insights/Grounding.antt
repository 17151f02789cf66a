-- ===== src/Insights/Grounding.antt =====
-- `parseAndValidateInsights` of src/insights/monthly-insights.ts: the schema, and the names that the
-- input has.
pub mod Accepted
use ai_statement_analyzer.Base.{
  ℕ, zero, suc, ◌+◌, ◌-◌, ◌*◌, ◌/◌, ◌%◌, ◌≤◌, ◌<◌, min, String, ◌≡◌, refl, sym, ap, ◌∙◌, ◌≢◌, ◌↔◌,
  ◌⊎◌, inl, inr, Bool, true, false, ◌&&◌, ◌||◌, not, Option, none, some, List, [], ◌∷◌, ◌++◌, map,
  arith, str_eq, eq_iff, eq_refl, ltb, leb, ◌==◌, if◌then◌else◌, is_some, or_else, Bool-cases,
  if-both, Option-cases, length, head?, filter, all, any, find, All,
}
use ai_statement_analyzer.Failure.{Outcome, ok, throw, invalid_insights_error}
use ai_statement_analyzer.Json.{Json}
use ai_statement_analyzer.Insights.Schema.{
  Insight, category_increase, merchant_increase, notable_spending, insights_document,
}
use ai_statement_analyzer.Insights.Input.{CompactInsightsBucket, CompactInsightsInput}

module _ {F : Type 0} where
  abbrev pub is_named : String → CompactInsightsBucket F → Bool
  is_named name b = str_eq b.name name

  abbrev pub has_name : List (CompactInsightsBucket F) → String → Bool
  has_name buckets name = any (is_named name) buckets

abbrev pub absent_or : (String → Bool) → Option String → Bool
absent_or test none = true
absent_or test (some name) = test name

module _ {F : Type 0} (is_positive : F → Bool) where
  abbrev pub rises : Option F → Bool
  rises none = false
  rises (some f) = is_positive f

  abbrev pub bucket_increases : Option (CompactInsightsBucket F) → Bool
  bucket_increases none = false
  bucket_increases (some b) = is_some b.previous_amount && rises b.amount_change_percentage

  unfoldable pub has_increase : List (CompactInsightsBucket F) → String → Bool
  has_increase buckets name = bucket_increases (find (is_named name) buckets)

  -- No case of the loop throws.
  unfoldable pub is_grounded : CompactInsightsInput F → Insight → Bool
  is_grounded input (category_increase t category) =
      is_some input.previous
      && has_name input.current.categories category
      && has_increase input.current.categories category
  is_grounded input (merchant_increase t merchant) =
      is_some input.previous
      && has_name input.current.merchants merchant
      && has_increase input.current.merchants merchant
  is_grounded input (notable_spending t category merchant) =
      absent_or (has_name input.current.categories) category
      && absent_or (has_name input.current.merchants) merchant

  abbrev pub validated : CompactInsightsInput F → Option (List Insight) → Outcome (List Insight)
  validated input none = throw invalid_insights_error
  validated input (some insights) =
      if all (is_grounded input) insights then ok insights else throw invalid_insights_error

  unfoldable pub parse_and_validate_insights :
      Json → CompactInsightsInput F → Outcome (List Insight)
  parse_and_validate_insights raw input = validated input (insights_document raw)
