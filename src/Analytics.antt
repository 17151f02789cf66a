-- ===== src/Analytics.antt =====
-- src/analytics/monthly-analytics.ts: the ranges of a month and of the one before it, and the answer
-- that is built of the two aggregates.
pub mod Ranges
pub mod Order
mod Tests
use ai_statement_analyzer.Base.{
  ℕ, zero, suc, ◌+◌, ◌-◌, ◌*◌, ◌/◌, ◌%◌, ◌≤◌, ◌<◌, min, String, ◌≡◌, refl, sym, ap, ◌∙◌, ◌≢◌, ◌↔◌,
  ◌⊎◌, inl, inr, Bool, true, false, ◌&&◌, ◌||◌, not, Option, none, some, List, [], ◌∷◌, ◌++◌, map,
  arith, str_eq, eq_iff, eq_refl, ltb, leb, ◌==◌, if◌then◌else◌, is_some, or_else, Bool-cases,
  Option-cases, length, head?, filter, all, any, find, All, sort_by,
}
use Prim.Native.String
use ai_statement_analyzer.Base.Int.{ℤ, pos, negsuc, eq_ℤ, ltb_ℤ}
use ai_statement_analyzer.Base.Text.{text_lt}
use ai_statement_analyzer.Base.Number.{Number, integer, fractional}
use ai_statement_analyzer.Failure.{Outcome, ok, throw, plain}

pub record AnalyticsDateRange : Type 0 where
  pub start : String
  pub end : String

pub record MonthlyAnalyticsRanges : Type 0 where
  pub current : AnalyticsDateRange
  pub previous : AnalyticsDateRange

pub record AnalyticsAggregateBucket : Type 0 where
  pub name : String
  pub amount : ℤ
  pub count : ℕ

pub record MonthlyAnalyticsAggregate : Type 0 where
  pub total_amount : ℤ
  pub transaction_count : ℕ
  pub categories : List AnalyticsAggregateBucket
  pub merchants : List AnalyticsAggregateBucket

-- `String(n)`: a number below 10 to the power of `digits` has all its digits.
abbrev pub digit_text : ℕ → String
digit_text n =
    if n == 0
    then "0"
    else if n == 1
    then "1"
    else if n == 2
    then "2"
    else if n == 3
    then "3"
    else if n == 4
    then "4"
    else if n == 5
    then "5"
    else if n == 6
    then "6"
    else if n == 7
    then "7"
    else if n == 8
    then "8"
    else "9"

unfoldable pub decimal_text : ℕ → ℕ → String
decimal_text zero n = ""
decimal_text (suc digits) n =
    let front = decimal_text digits (n / 10) in
    if ltb n 10 then digit_text n else String.◌++◌ front (digit_text (n % 10))

-- `String(month).padStart(2, "0")`
abbrev pub two_digits : ℕ → String
two_digits n = if ltb n 10 then String.◌++◌ "0" (digit_text n) else decimal_text n n

unfoldable pub format_month_start : ℕ → ℕ → String
format_month_start year month =
    String.◌++◌ (decimal_text year year) (String.◌++◌ "-" (String.◌++◌ (two_digits month) "-01"))

pub record YearMonth : Type 0 where
  pub year : ℕ
  pub month : ℕ

abbrev pub of_index : ℕ → YearMonth
of_index index = record { year = index / 12; month = index % 12 + 1 }

-- For a year from 1 on and a month from 1 on, the index and its neighbours are not negative.
unfoldable pub shift_month : ℕ → ℕ → ℤ → YearMonth
shift_month year month (pos n) = of_index (year * 12 + month - 1 + n)
shift_month year month (negsuc n) = of_index (year * 12 + month - 1 - suc n)

abbrev pub ranges_around : ℕ → ℕ → YearMonth → YearMonth → MonthlyAnalyticsRanges
ranges_around year month next previous = record {
  current = record {
    start = format_month_start year month;
    end = format_month_start next.year next.month;
  };
  previous = record {
    start = format_month_start previous.year previous.month;
    end = format_month_start year month;
  };
}

unfoldable pub ranges_of : ℕ → ℕ → Outcome MonthlyAnalyticsRanges
ranges_of year month =
    if ltb year 1 || ltb month 1 || ltb 12 month
    then throw plain
    else ok (
        ranges_around year month (shift_month year month (pos 1))
          (shift_month year month (negsuc 0)))

unfoldable pub get_monthly_analytics_ranges : Number → Number → Outcome MonthlyAnalyticsRanges
get_monthly_analytics_ranges (integer (pos year)) (integer (pos month)) = ranges_of year month
get_monthly_analytics_ranges _ _ = throw plain

-- The answer. `rounded a b` is `Number(((a / b) * 100).toFixed(1))`.
pub record BucketResponse (F : Type 0) : Type 0 where
  pub name : String
  pub amount : ℤ
  pub count : ℕ
  pub percentage : Option F
  pub previous_amount : Option ℤ
  pub amount_change_percentage : Option F

pub record PreviousMonth (F : Type 0) : Type 0 where
  pub total_amount : ℤ
  pub transaction_count : ℕ
  pub amount_change_percentage : Option F
  pub transaction_count_change_percentage : Option F

pub record MonthlyAnalyticsResponse (F : Type 0) : Type 0 where
  pub year : ℕ
  pub month : ℕ
  pub total_amount : ℤ
  pub transaction_count : ℕ
  pub previous_month : Option (PreviousMonth F)
  pub categories : List (BucketResponse F)
  pub merchants : List (BucketResponse F)

-- `compareBuckets(left, right) <= 0`
unfoldable pub not_after : AnalyticsAggregateBucket → AnalyticsAggregateBucket → Bool
not_after left right =
    if not (eq_ℤ left.amount right.amount)
    then ltb_ℤ right.amount left.amount
    else if str_eq left.name right.name
    then true
    else text_lt left.name right.name

-- A `Map` of the buckets by name: a later bucket replaces an earlier one.
unfoldable pub by_name : String → List AnalyticsAggregateBucket → Option AnalyticsAggregateBucket
by_name name [] = none
by_name name (b ∷ buckets) =
    let later = by_name name buckets in
    if is_some later then later else if str_eq b.name name then some b else none

module _ {F : Type 0} (rounded : ℤ → ℤ → F) (change : ℤ → ℤ → F) where
  unfoldable pub percentage : ℤ → ℤ → Option F
  percentage amount total = if eq_ℤ total (pos 0) then none else some (rounded amount total)

  -- `change a b` is the rounded value of `(a - b) / Math.abs(b) * 100`.
  unfoldable pub change_percentage : ℤ → ℤ → Option F
  change_percentage current previous =
      if eq_ℤ previous (pos 0) then none else some (change current previous)

  abbrev pub change_from : ℤ → Option AnalyticsAggregateBucket → Option F
  change_from amount none = none
  change_from amount (some b) = change_percentage amount b.amount

  abbrev pub amount_of : Option AnalyticsAggregateBucket → Option ℤ
  amount_of none = none
  amount_of (some b) = some b.amount

  abbrev pub bucket_response :
      ℤ → List AnalyticsAggregateBucket → AnalyticsAggregateBucket → BucketResponse F
  bucket_response total previous b = record {
    name = b.name;
    amount = b.amount;
    count = b.count;
    percentage = percentage b.amount total;
    previous_amount = amount_of (by_name b.name previous);
    amount_change_percentage = change_from b.amount (by_name b.name previous);
  }

  unfoldable pub build_response :
      ℤ → List AnalyticsAggregateBucket → List AnalyticsAggregateBucket → List (BucketResponse F)
  build_response total current previous =
      map (bucket_response total previous) (sort_by not_after current)

  abbrev pub previous_month :
      MonthlyAnalyticsAggregate → MonthlyAnalyticsAggregate → Option (PreviousMonth F)
  previous_month current previous =
      if previous.transaction_count == 0
      then none
      else some (record {
        total_amount = previous.total_amount;
        transaction_count = previous.transaction_count;
        amount_change_percentage = change_percentage current.total_amount previous.total_amount;
        transaction_count_change_percentage =
            change_percentage (pos current.transaction_count) (pos previous.transaction_count);
      })

  unfoldable pub build_monthly_analytics :
      ℕ → ℕ → MonthlyAnalyticsAggregate → MonthlyAnalyticsAggregate → MonthlyAnalyticsResponse F
  build_monthly_analytics year month current previous = record {
    year = year;
    month = month;
    total_amount = current.total_amount;
    transaction_count = current.transaction_count;
    previous_month = previous_month current previous;
    categories = build_response current.total_amount current.categories previous.categories;
    merchants = build_response current.total_amount current.merchants previous.merchants;
  }
