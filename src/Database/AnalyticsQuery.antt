-- ===== src/Database/AnalyticsQuery.antt =====
-- `findMonthlyAnalytics` of src/database/statement-repository.ts: the aggregates of the transactions of
-- completed statements in two months, read in one snapshot. Dates are compared as the texts
-- YYYY-MM-DD, names in the order of the answer.
pub mod Distinct
pub mod Sums
mod Tests
use ai_statement_analyzer.Base.{
  ℕ, zero, suc, ◌+◌, ◌-◌, ◌*◌, ◌/◌, ◌%◌, ◌≤◌, ◌<◌, min, String, ◌≡◌, refl, sym, ap, ◌∙◌, ◌≢◌, ◌↔◌,
  ◌⊎◌, inl, inr, Bool, true, false, ◌&&◌, ◌||◌, not, Option, none, some, List, [], ◌∷◌, ◌++◌, map,
  arith, str_eq, eq_iff, eq_refl, ltb, leb, ◌==◌, if◌then◌else◌, is_some, or_else, Bool-cases,
  if-both, Option-cases, length, head?, filter, all, any, find, All,
}
use ai_statement_analyzer.Base.{sort_by}
use ai_statement_analyzer.Base.Int.{ℤ, pos, ◌+ℤ◌, abs}
use ai_statement_analyzer.Base.Text.{text_lt}
use ai_statement_analyzer.Failure.{Outcome, ok, throw, plain}
use ai_statement_analyzer.Effects.{Exec, lift, pure, ◌>>=◌}
use ai_statement_analyzer.Database.Types.{
  Database, TransactionRecord, StatementRecord, is_completed,
}
use ai_statement_analyzer.Database.Statements.{has_id}
use ai_statement_analyzer.Database.World.{World, query}
use ai_statement_analyzer.Ai.OcrSchema.{max_safe_integer}
use ai_statement_analyzer.Analytics.{
  AnalyticsDateRange, MonthlyAnalyticsRanges, AnalyticsAggregateBucket, MonthlyAnalyticsAggregate,
  not_after,
}

pub record MonthlyAnalyticsAggregates : Type 0 where
  pub current : MonthlyAnalyticsAggregate
  pub previous : MonthlyAnalyticsAggregate

-- The join with a completed statement, and the half-open range of dates.
abbrev pub is_of_completed : String → StatementRecord → Bool
is_of_completed id r = has_id id r && is_completed r.status

abbrev pub is_counted : AnalyticsDateRange → List StatementRecord → TransactionRecord → Bool
is_counted range statements t =
    any (is_of_completed t.statement_id) statements
    && not (text_lt t.transaction_date range.start)
    && text_lt t.transaction_date range.end

-- `SUM(amount)`, zero of no rows.
unfoldable pub sum_amounts : List TransactionRecord → ℤ
sum_amounts [] = pos 0
sum_amounts (t ∷ ts) = t.amount +ℤ sum_amounts ts

-- `GROUP BY`: a row joins the group of its name, or begins one.
unfoldable pub add_to_groups :
    String → ℤ → List AnalyticsAggregateBucket → List AnalyticsAggregateBucket
add_to_groups name amount [] = record { name = name; amount = amount; count = 1 } ∷ []
add_to_groups name amount (b ∷ buckets) =
    let rest = add_to_groups name amount buckets in
    if str_eq b.name name
    then record b { amount = amount +ℤ b.amount; count = b.count + 1 } ∷ buckets
    else b ∷ rest

unfoldable pub groups :
    (TransactionRecord → String) → List TransactionRecord → List AnalyticsAggregateBucket
groups key [] = []
groups key (t ∷ ts) = add_to_groups (key t) t.amount (groups key ts)

abbrev pub is_safe : ℤ → Bool
is_safe n = leb (abs n) max_safe_integer

unfoldable pub map_analytics_integer : ℤ → Outcome ℤ
map_analytics_integer n = if is_safe n then ok n else throw plain

abbrev pub is_safe_bucket : AnalyticsAggregateBucket → Bool
is_safe_bucket b = is_safe b.amount && leb b.count max_safe_integer

-- `rows.map(mapAnalyticsBucket)`
unfoldable pub map_analytics_buckets :
    List AnalyticsAggregateBucket → Outcome (List AnalyticsAggregateBucket)
map_analytics_buckets buckets = if all is_safe_bucket buckets then ok buckets else throw plain

-- `GROUP BY key ORDER BY SUM(amount) DESC, key ASC`
abbrev pub grouped :
    (TransactionRecord → String) → List TransactionRecord → List AnalyticsAggregateBucket
grouped key rows = sort_by not_after (groups key rows)

abbrev pub by_category : TransactionRecord → String
by_category t = t.category

abbrev pub by_merchant : TransactionRecord → String
by_merchant t = t.merchant_name

unfoldable pub aggregate_of : List TransactionRecord → Exec Database MonthlyAnalyticsAggregate
aggregate_of rows = do
  total ← lift (map_analytics_integer (sum_amounts rows))
  count ← lift (map_analytics_integer (pos (length rows)))
  categories ← lift (map_analytics_buckets (grouped by_category rows))
  merchants ← lift (map_analytics_buckets (grouped by_merchant rows))
  pure (record {
    total_amount = total;
    transaction_count = length rows;
    categories = categories;
    merchants = merchants;
  })

unfoldable pub find_monthly_aggregate : AnalyticsDateRange → Exec Database MonthlyAnalyticsAggregate
find_monthly_aggregate range db =
    aggregate_of (filter (is_counted range db.statements) db.transactions) db

unfoldable pub monthly_analytics : MonthlyAnalyticsRanges → Exec Database MonthlyAnalyticsAggregates
monthly_analytics ranges = do
  current ← find_monthly_aggregate ranges.current
  previous ← find_monthly_aggregate ranges.previous
  pure (record { current = current; previous = previous })

unfoldable pub find_monthly_analytics :
    MonthlyAnalyticsRanges → Exec World MonthlyAnalyticsAggregates
find_monthly_analytics ranges = query (monthly_analytics ranges)
