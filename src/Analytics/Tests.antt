-- ===== src/Analytics/Tests.antt =====
-- The theorems about the analytics on one month.
use ai_statement_analyzer.Base.{◌≡◌, refl, List, [], ◌∷◌, arith, length}
use ai_statement_analyzer.Base.Int.{ℤ, pos}
use ai_statement_analyzer.Analytics.{
  MonthlyAnalyticsRanges, get_monthly_analytics_ranges, AnalyticsAggregateBucket, build_response,
  format_month_start, decimal_text,
}
use ai_statement_analyzer.Base.Number.{integer}
use ai_statement_analyzer.Failure.{ok}
use ai_statement_analyzer.Analytics.Ranges.{AreMonths, ranges-AreMonths}
use ai_statement_analyzer.Analytics.Order.{AreDescending, build_response-AreDescending}

ranges-AreMonths_example :
    (ranges : MonthlyAnalyticsRanges) × (get_monthly_analytics_ranges
        (integer (pos 2026))
        (integer (pos 12))
      ≡ ok ranges)
    × AreMonths 2026 12 ranges
ranges-AreMonths_example =
    ranges-AreMonths 2026 12 (ground arith) (ground arith) (ground arith) (ground arith)

abbrev buckets : List AnalyticsAggregateBucket
buckets =
    record { name = "交通"; amount = pos 300; count = 1 }
    ∷ record { name = "食費"; amount = pos 900; count = 2 }
    ∷ []

abbrev whole : ℤ → ℤ → ℤ
whole a b = a

build_response-AreDescending_example :
    (length (build_response whole whole (pos 1200) buckets []) ≡ length buckets)
    × AreDescending (build_response whole whole (pos 1200) buckets [])
build_response-AreDescending_example =
    build_response-AreDescending whole whole (pos 1200) [] buckets

month_start : format_month_start 2026 3 ≡ "2026-03-01"
unfolding format_month_start decimal_text
month_start = refl
