-- ===== src/Ai/OcrParser/Dates.antt =====
-- The dates of the OCR schema (src/ai/ocr-schema.ts) as the column `transaction_date` reads them.
use ai_statement_analyzer.Base.{
  ℕ, ◌+◌, ◌≤◌, ◌≡◌, refl, inl, inr, Bool, true, false, ◌&&◌, List, [], ◌∷◌, arith, leb, ◌==◌,
  Bool-cases,
}
use ai_statement_analyzer.Base.Text.{is_digit, decimal_from, is_month_pair}
use ai_statement_analyzer.Ai.OcrSchema.{
  is_transaction_date, is_valid_calendar_date, is_day_pair, days_in_month, utc_fields,
}
use ai_statement_analyzer.Database.Columns.{is_date_codes, is_date_of}

valid-is_date_of :
    (year month day : ℕ)
    → 1 ≤ month
    → month ≤ 12
    → 1 ≤ day
    → is_valid_calendar_date year month day ≡ true
    → is_date_of year month day ≡ true
unfolding is_valid_calendar_date utc_fields
valid-is_date_of year month day m l d h = elim (Bool-cases (leb year 99)) [
  | inl old ↦ absurd (
      let bad : (1900 + year == year) ≡ true = ground (arith, (rw old at h)) in ground (arith, bad))
  | inr modern ↦ elim (Bool-cases (leb day (days_in_month year month))) [
    | inl y ↦
        let big : leb 1 year ≡ true = ground arith in
        let first : leb 1 month ≡ true = ground arith in
        let last : leb month 12 ≡ true = ground arith in
        let day_first : leb 1 day ≡ true = ground arith in rw (big, first, last, day_first, y) refl
    | inr n ↦ absurd (
        let bad : (month + 1 == month) ≡ true = ground (arith, (rw (modern, n) at h)) in
        ground (arith, bad))
  ]
]

abbrev two : ℕ → ℕ → ℕ
two m n = decimal_from 0 (m ∷ n ∷ [])

month_pair-bounds :
    (m n : ℕ)
    → is_month_pair m n ≡ true
    → (is_digit m ≡ true) × (is_digit n ≡ true) × (1 ≤ two m n) × (two m n ≤ 12)
month_pair-bounds m n h = (ground arith, ground arith, ground arith, ground arith)

day_pair-bounds :
    (x y : ℕ) → is_day_pair x y ≡ true → (is_digit x ≡ true) × (is_digit y ≡ true) × (1 ≤ two x y)
day_pair-bounds x y h = (ground arith, ground arith, ground arith)

split : (a b : Bool) → (a && b) ≡ true → (a ≡ true) × (b ≡ true)
split true b h = (refl, h)
split false b h = cc

-- A date that the schema accepts is a date of the column.
pub transaction_date-is_date : (s : List ℕ) → is_transaction_date s ≡ true → is_date_codes s ≡ true
unfolding is_transaction_date is_date_codes
transaction_date-is_date [] h = cc
transaction_date-is_date (a ∷ []) h = cc
transaction_date-is_date (a ∷ b ∷ []) h = cc
transaction_date-is_date (a ∷ b ∷ c ∷ []) h = cc
transaction_date-is_date (a ∷ b ∷ c ∷ d ∷ []) h = cc
transaction_date-is_date (a ∷ b ∷ c ∷ d ∷ p ∷ []) h = cc
transaction_date-is_date (a ∷ b ∷ c ∷ d ∷ p ∷ m ∷ []) h = cc
transaction_date-is_date (a ∷ b ∷ c ∷ d ∷ p ∷ m ∷ n ∷ []) h = cc
transaction_date-is_date (a ∷ b ∷ c ∷ d ∷ p ∷ m ∷ n ∷ q ∷ []) h = cc
transaction_date-is_date (a ∷ b ∷ c ∷ d ∷ p ∷ m ∷ n ∷ q ∷ x ∷ []) h = cc
transaction_date-is_date (a ∷ b ∷ c ∷ d ∷ p ∷ m ∷ n ∷ q ∷ x ∷ y ∷ []) h =
    let date = is_valid_calendar_date (decimal_from 0 (a ∷ b ∷ c ∷ d ∷ [])) (two m n) (two x y) in
    let (h8, valid) = split _ date h in
    let (h7, xy) = split _ (is_day_pair x y) h8 in
    let (h6, hq) = split _ (q == b'-') h7 in
    let (h5, mn) = split _ (is_month_pair m n) h6 in
    let (h4, hp) = split _ (p == b'-') h5 in
    let (h3, hd) = split _ (is_digit d) h4 in
    let (h2, hc) = split _ (is_digit c) h3 in
    let (ha, hb) = split (is_digit a) (is_digit b) h2 in
    let (hm, hn, first, last) = month_pair-bounds m n mn in
    let (hx, hy, day_first) = day_pair-bounds x y xy in
    let year = decimal_from 0 (a ∷ b ∷ c ∷ d ∷ []) in
    let dated = valid-is_date_of year (two m n) (two x y) first last day_first valid in
    rw (ha, hb, hc, hd, hp, hm, hn, hq, hx, hy) dated
transaction_date-is_date (a ∷ b ∷ c ∷ d ∷ p ∷ m ∷ n ∷ q ∷ x ∷ y ∷ z ∷ rest) h = cc
