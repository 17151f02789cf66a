-- ===== src/Insights/Input/Fingerprint.antt =====
-- The fingerprint does not depend on the order of the buckets.
use ai_statement_analyzer.Base.{String, ◌≡◌, refl}
use ai_statement_analyzer.Order.{Reordered, sort_by-Reordered}
use ai_statement_analyzer.Insights.Input.{
  CompactInsightsInput, canonicalize_input, get_analytics_fingerprint, bucket_name,
}

-- The same input with its categories and its merchants in another order; buckets of one name keep
-- their order.
pub record IsReordered {F : Type 0} (a b : CompactInsightsInput F) : Type 0 where
  pub month : a.month ≡ b.month
  pub total : a.current.total_amount ≡ b.current.total_amount
  pub count : a.current.transaction_count ≡ b.current.transaction_count
  pub previous : a.previous ≡ b.previous
  pub categories : Reordered bucket_name a.current.categories b.current.categories
  pub merchants : Reordered bucket_name a.current.merchants b.current.merchants

module _ {F : Type 0} (stringify : CompactInsightsInput F → String) (digest : String → String)
    (a b : CompactInsightsInput F) where
  -- Inputs that differ only in the order of their buckets have one fingerprint, whatever the texts
  -- of JSON and the hash are.
  pub fingerprint-IsReordered :
      IsReordered a b
      → get_analytics_fingerprint stringify digest a ≡ get_analytics_fingerprint stringify digest b
  unfolding get_analytics_fingerprint canonicalize_input
  fingerprint-IsReordered r =
      rw
        (
          r.month,
          r.total,
          r.count,
          r.previous,
          sort_by-Reordered bucket_name r.categories,
          sort_by-Reordered bucket_name r.merchants,
        )
        refl
