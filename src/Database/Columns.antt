-- ===== src/Database/Columns.antt =====
-- What the column types of migrations/*.sql accept of the texts and numbers that the statements of
-- src/database/statement-repository.ts pass: a refused parameter raises before any row is touched.
use ai_statement_analyzer.Base.{
  ℕ, String, Bool, true, false, ◌&&◌, Option, none, some, List, [], ◌∷◌, leb, ltb, ◌==◌, all,
}
use ai_statement_analyzer.Base.Int.{ℤ, pos, negsuc}
use ai_statement_analyzer.Base.Text.{codes, is_digit, decimal_from}
use ai_statement_analyzer.Ai.OcrSchema.{days_in_month}

-- `text`: no U+0000.
abbrev pub is_storable : String → Bool
is_storable s = all (λ c. ltb 0 c) (codes s)

-- A missing text is NULL.
abbrev pub is_storable_option : Option String → Bool
is_storable_option none = true
is_storable_option (some s) = is_storable s

-- A calendar date: the years are from 1 on.
abbrev pub is_date_of : ℕ → ℕ → ℕ → Bool
is_date_of year month day =
    leb 1 year && leb 1 month && leb month 12 && leb 1 day && leb day (days_in_month year month)

-- `date`, written `YYYY-MM-DD`, the only form that the program passes.
unfoldable pub is_date_codes : List ℕ → Bool
is_date_codes (a ∷ b ∷ c ∷ d ∷ p ∷ m ∷ n ∷ q ∷ x ∷ y ∷ []) =
    is_digit a
    && is_digit b
    && is_digit c
    && is_digit d
    && p == b'-'
    && is_digit m
    && is_digit n
    && q == b'-'
    && is_digit x
    && is_digit y
    && is_date_of (decimal_from 0 (a ∷ b ∷ c ∷ d ∷ [])) (decimal_from 0 (m ∷ n ∷ []))
        (decimal_from 0 (x ∷ y ∷ []))
is_date_codes _ = false

abbrev pub is_date : String → Bool
is_date s = is_date_codes (codes s)

-- The first day of a month: `target_month = date_trunc('month', target_month)::date`.
abbrev pub ends_with_first : List ℕ → Bool
ends_with_first (a ∷ b ∷ c ∷ d ∷ p ∷ m ∷ n ∷ q ∷ x ∷ y ∷ []) = x == b'0' && y == b'1'
ends_with_first _ = false

-- `integer`, of a number that is not negative.
abbrev pub is_integer : ℕ → Bool
is_integer n = leb n 2147483647

-- `bigint`
abbrev pub is_bigint : ℤ → Bool
is_bigint (pos n) = ltb n 9223372036854775808
is_bigint (negsuc n) = ltb n 9223372036854775808
