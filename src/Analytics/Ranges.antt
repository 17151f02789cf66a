-- ===== src/Analytics/Ranges.antt =====
-- The ranges of a month against the calendar: the month behind it, the month before it, and the texts
-- of their first days.
use ai_statement_analyzer.Base.{
  ℕ, zero, suc, ◌+◌, ◌-◌, ◌*◌, ◌/◌, ◌%◌, ◌≤◌, ◌<◌, String, ◌≡◌, refl, ap, ◌∙◌, inl, inr, true,
  false, List, [], ◌∷◌, ◌++◌, arith, ltb, ◌==◌, if◌then◌else◌, Bool-cases,
}
use ai_statement_analyzer.Base.Int.{pos, negsuc}
use ai_statement_analyzer.Base.Number.{integer}
use ai_statement_analyzer.Base.Text.{codes}
use ai_statement_analyzer.Failure.{ok}
use Prim.Native.String
use Prim.Native.Char.{code}
use text.Mathlib.TextLemmas.{nil-append, cons-append}
use ai_statement_analyzer.Analytics.{
  MonthlyAnalyticsRanges, shift_month, ranges_of, ranges_around, get_monthly_analytics_ranges,
  format_month_start, decimal_text, digit_text, two_digits,
}

-- The months of the calendar, from the year 1 on.
abbrev pub IsMonth : ℕ → ℕ → Type 0
IsMonth year month = (1 ≤ year) × (1 ≤ month) × (month ≤ 12)

pub ranges_of-ok :
    (year month : ℕ)
    → IsMonth year month
    → ranges_of year month
      ≡ ok (
          ranges_around year month
            (shift_month year month (pos 1))
            (shift_month year month (negsuc 0)))
unfolding ranges_of
ranges_of-ok year month (y, m, l) = ground arith

-- The calendar: the month behind a month, and the month before it.
abbrev next_year : ℕ → ℕ → ℕ
next_year year month = if month == 12 then year + 1 else year

abbrev next_month : ℕ → ℕ
next_month month = if month == 12 then 1 else month + 1

abbrev last_year : ℕ → ℕ → ℕ
last_year year month = if month == 1 then year - 1 else year

abbrev last_month : ℕ → ℕ
last_month month = if month == 1 then 12 else month - 1

shift-next :
    (year month : ℕ)
    → IsMonth year month
    → shift_month year month (pos 1)
      ≡ record { year = next_year year month; month = next_month month }
unfolding shift_month
shift-next year month (y, m, l) =
    let quotient : (year * 12 + month - 1 + 1) / 12 ≡ next_year year month = ground arith in
    let rest : (year * 12 + month - 1 + 1) % 12 + 1 ≡ next_month month = ground arith in
    rw (quotient, rest) refl

shift-last :
    (year month : ℕ)
    → IsMonth year month
    → shift_month year month (negsuc 0)
      ≡ record { year = last_year year month; month = last_month month }
unfolding shift_month
shift-last year month (y, m, l) =
    let quotient : (year * 12 + month - 1 - 1) / 12 ≡ last_year year month = ground arith in
    let rest : (year * 12 + month - 1 - 1) % 12 + 1 ≡ last_month month = ground arith in
    rw (quotient, rest) refl

-- The code points of `YYYY-MM-01`.
abbrev digit : ℕ → ℕ
digit n = b'0' + n % 10

abbrev pub first_day_codes : ℕ → ℕ → List ℕ
first_day_codes year month =
    digit (year / 1000)
    ∷ digit (year / 100)
    ∷ digit (year / 10)
    ∷ digit year
    ∷ b'-'
    ∷ digit (month / 10)
    ∷ digit month
    ∷ b'-'
    ∷ b'0'
    ∷ b'1'
    ∷ []

codes-append : (s t : String) → codes (String.◌++◌ s t) ≡ codes s ++ codes t
codes-append String.[] t = ap codes (nil-append t)
codes-append (String.◌∷◌ c s) t =
    ap codes (cons-append c s t) ∙ ap (λ r. code c ∷ r) (codes-append s t)

digit_text-codes : (n : ℕ) → n < 10 → codes (digit_text n) ≡ digit n ∷ []
digit_text-codes zero h = refl
digit_text-codes (suc zero) h = refl
digit_text-codes (suc (suc zero)) h = refl
digit_text-codes (suc (suc (suc zero))) h = refl
digit_text-codes (suc (suc (suc (suc zero)))) h = refl
digit_text-codes (suc (suc (suc (suc (suc zero))))) h = refl
digit_text-codes (suc (suc (suc (suc (suc (suc zero)))))) h = refl
digit_text-codes (suc (suc (suc (suc (suc (suc (suc zero))))))) h = refl
digit_text-codes (suc (suc (suc (suc (suc (suc (suc (suc zero)))))))) h = refl
digit_text-codes (suc (suc (suc (suc (suc (suc (suc (suc (suc zero))))))))) h = refl
digit_text-codes (suc (suc (suc (suc (suc (suc (suc (suc (suc (suc n)))))))))) h =
    absurd (omega arith)

decimal_text-one : (fuel n : ℕ) → n < 10 → codes (decimal_text (suc fuel) n) ≡ digit n ∷ []
unfolding decimal_text
decimal_text-one fuel n h =
    let small : ltb n 10 ≡ true = ground arith in rw small (digit_text-codes n h)

decimal_text-more :
    (fuel n : ℕ)
    → 10 ≤ n
    → codes (decimal_text (suc fuel) n) ≡ codes (decimal_text fuel (n / 10)) ++ digit n ∷ []
unfolding decimal_text
decimal_text-more fuel n h =
    let large : ltb n 10 ≡ false = ground arith in
    let last : digit (n % 10) ≡ digit n = omega arith in
    rw large (
      codes-append (decimal_text fuel (n / 10)) (digit_text (n % 10))
      ∙ rw (digit_text-codes (n % 10) (omega arith), last) refl)

-- A year of four digits.
year-codes :
    (fuel year : ℕ)
    → 1000 ≤ year
    → year ≤ 9999
    → codes (decimal_text (suc (suc (suc (suc fuel)))) year)
      ≡ digit (year / 1000) ∷ digit (year / 100) ∷ digit (year / 10) ∷ digit year ∷ []
year-codes fuel year h l =
    let hundreds : year / 10 / 10 ≡ year / 100 = omega arith in
    let thousands : year / 100 / 10 ≡ year / 1000 = omega arith in
    rw
      (
        decimal_text-more (suc (suc (suc fuel))) year (omega arith),
        decimal_text-more (suc (suc fuel)) (year / 10) (omega arith),
        decimal_text-more (suc fuel) (year / 10 / 10) (omega arith),
        decimal_text-one fuel (year / 10 / 10 / 10) (omega arith),
        hundreds,
        thousands,
      )
      refl

month-codes :
    (month : ℕ) → month ≤ 12 → codes (two_digits month) ≡ digit (month / 10) ∷ digit month ∷ []
unfolding decimal_text
month-codes month l = elim (Bool-cases (ltb month 10)) [
  | inl small ↦
      let first : digit (month / 10) ≡ b'0' = ground arith in
      rw (small, first)
        (codes-append "0" (digit_text month)
          ∙ ap (λ r. b'0' ∷ r) (digit_text-codes month (ground arith)))
  | inr large ↦
      let fuel : month ≡ suc (suc (month - 2)) = ground arith in
      let ten : 10 ≤ month = ground arith in
      rw large (
        ap (λ f. codes (decimal_text f month)) fuel
        ∙ decimal_text-more (suc (month - 2)) month ten
        ∙ ap (λ r. r ++ digit month ∷ []) (decimal_text-one (month - 2) (month / 10) (omega arith)))
]

first_day-codes :
    (year month : ℕ)
    → 1000 ≤ year
    → year ≤ 9999
    → month ≤ 12
    → codes (format_month_start year month) ≡ first_day_codes year month
unfolding format_month_start
first_day-codes year month h l m =
    let fuel : year ≡ suc (suc (suc (suc (year - 4)))) = omega arith in
    let four : codes (decimal_text year year)
        ≡ digit (year / 1000) ∷ digit (year / 100) ∷ digit (year / 10) ∷ digit year ∷ [] =
      ap (λ f. codes (decimal_text f year)) fuel ∙ year-codes (year - 4) year h l in
    codes-append (decimal_text year year) (String.◌++◌ "-" (String.◌++◌ (two_digits month) "-01"))
    ∙ rw
        (
          four,
          codes-append "-" (String.◌++◌ (two_digits month) "-01"),
          codes-append (two_digits month) "-01",
          month-codes month m,
        )
        refl

-- The first days that bound the month, its predecessor and nothing else, as code points.
pub record AreMonths (year month : ℕ) (r : MonthlyAnalyticsRanges) : Type 0 where
  pub starts : codes r.current.start ≡ first_day_codes year month
  pub ends : codes r.current.end ≡ first_day_codes (next_year year month) (next_month month)
  pub starts_before :
      codes r.previous.start ≡ first_day_codes (last_year year month) (last_month month)
  pub ends_before : codes r.previous.end ≡ first_day_codes year month

-- For every month of the years 1001 to 9998, the ranges are given: the current one is from the first
-- day of the month, `YYYY-MM-01`, to the first day of the month behind it, and the previous one from
-- the first day of the month before it to the first day of the month. The month behind a December is
-- the January of the next year, and the month before a January the December of the last year.
pub ranges-AreMonths :
    (year month : ℕ)
    → 1001 ≤ year
    → year ≤ 9998
    → 1 ≤ month
    → month ≤ 12
    → (ranges : MonthlyAnalyticsRanges) × (get_monthly_analytics_ranges
          (integer (pos year))
          (integer (pos month))
        ≡ ok ranges)
      × AreMonths year month ranges
unfolding get_monthly_analytics_ranges
ranges-AreMonths year month h l m n =
    let is_month : IsMonth year month = (omega arith, m, n) in
    (
      _,
      ranges_of-ok year month is_month,
      record {
        starts = first_day-codes year month (omega arith) (omega arith) n;
        ends = rw (shift-next year month is_month) (
            first_day-codes (next_year year month) (next_month month) (ground arith) (ground arith)
              (ground arith));
        starts_before = rw (shift-last year month is_month) (
            first_day-codes (last_year year month) (last_month month) (ground arith) (ground arith)
              (ground arith));
        ends_before = first_day-codes year month (omega arith) (omega arith) n;
      },
    )
