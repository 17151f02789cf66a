-- ===== src/Insights/Input.antt =====
-- The input that src/insights/monthly-insights.ts makes of the analytics, and its fingerprint. `F` is
-- the type of the rounded percentages; JSON's text, the hash and the positive percentages are
-- parameters.
pub mod Fingerprint
use ai_statement_analyzer.Base.{
  ℕ, zero, suc, ◌+◌, ◌-◌, ◌*◌, ◌/◌, ◌%◌, ◌≤◌, ◌<◌, min, String, ◌≡◌, refl, sym, ap, ◌∙◌, ◌≢◌, ◌↔◌,
  ◌⊎◌, inl, inr, Bool, true, false, ◌&&◌, ◌||◌, not, Option, none, some, List, [], ◌∷◌, ◌++◌, map,
  arith, str_eq, eq_iff, eq_refl, ltb, leb, ◌==◌, if◌then◌else◌, is_some, or_else, Bool-cases,
  if-both, Option-cases, length, head?, filter, all, any, find, All,
}
use Prim.Native.String
use ai_statement_analyzer.Base.Int.{ℤ}
use ai_statement_analyzer.Order.{key_le}
use ai_statement_analyzer.Base.{sort_by}
use ai_statement_analyzer.Analytics.{
  BucketResponse, MonthlyAnalyticsResponse, PreviousMonth, decimal_text, two_digits,
}

pub record CompactInsightsBucket (F : Type 0) : Type 0 where
  pub name : String
  pub amount : ℤ
  pub count : ℕ
  pub percentage : Option F
  pub previous_amount : Option ℤ
  pub amount_change_percentage : Option F

pub record CurrentMonth (F : Type 0) : Type 0 where
  pub total_amount : ℤ
  pub transaction_count : ℕ
  pub categories : List (CompactInsightsBucket F)
  pub merchants : List (CompactInsightsBucket F)

pub record PreviousTotals : Type 0 where
  pub total_amount : ℤ
  pub transaction_count : ℕ

pub record CompactInsightsInput (F : Type 0) : Type 0 where
  pub month : String
  pub current : CurrentMonth F
  pub previous : Option PreviousTotals

module _ {F : Type 0} where
  -- `mapCategoryBucket` and `mapMerchantBucket`
  abbrev pub map_bucket : BucketResponse F → CompactInsightsBucket F
  map_bucket b = record {
    name = b.name;
    amount = b.amount;
    count = b.count;
    percentage = b.percentage;
    previous_amount = b.previous_amount;
    amount_change_percentage = b.amount_change_percentage;
  }

  abbrev pub previous_totals : Option (PreviousMonth F) → Option PreviousTotals
  previous_totals none = none
  previous_totals (some p) =
      some (record { total_amount = p.total_amount; transaction_count = p.transaction_count })

  unfoldable pub create_compact_insights_input : MonthlyAnalyticsResponse F → CompactInsightsInput F
  create_compact_insights_input analytics = record {
    month =
        String.◌++◌ (decimal_text analytics.year analytics.year)
          (String.◌++◌ "-" (two_digits analytics.month));
    current = record {
      total_amount = analytics.total_amount;
      transaction_count = analytics.transaction_count;
      categories = map map_bucket analytics.categories;
      merchants = map map_bucket analytics.merchants;
    };
    previous = previous_totals analytics.previous_month;
  }

  abbrev pub bucket_name : CompactInsightsBucket F → String
  bucket_name b = b.name

  -- `compareByName(left, right) <= 0`
  abbrev pub by_name : CompactInsightsBucket F → CompactInsightsBucket F → Bool
  by_name = key_le bucket_name

  unfoldable pub canonicalize_input : CompactInsightsInput F → CompactInsightsInput F
  canonicalize_input input = record {
    month = input.month;
    current = record {
      total_amount = input.current.total_amount;
      transaction_count = input.current.transaction_count;
      categories = sort_by by_name input.current.categories;
      merchants = sort_by by_name input.current.merchants;
    };
    previous = input.previous;
  }

  -- `stringify` is `JSON.stringify` of an input, `digest` the hexadecimal SHA-256 of a text.
  module _ (stringify : CompactInsightsInput F → String) (digest : String → String) where
    unfoldable pub get_analytics_fingerprint : CompactInsightsInput F → String
    get_analytics_fingerprint input =
        String.◌++◌ "monthly-analytics-v1:" (digest (stringify (canonicalize_input input)))
