-- ===== src/Ai/OcrSchema.antt =====
-- src/ai/ocr-schema.ts: the schema of the model's answer, and its parser. A schema is a function
-- into `Option`; the messages of its issues are left out.
use ai_statement_analyzer.Base.{
  ℕ, ◌+◌, ◌-◌, ◌%◌, String, Bool, false, not, ◌&&◌, ◌||◌, Option, none, some, List, [], ◌∷◌, leb,
  ◌==◌, str_eq, if◌then◌else◌,
}
use ai_statement_analyzer.Base.Int.{ℤ, pos, abs, eq_ℤ}
use ai_statement_analyzer.Base.Maybe.{◌>>=◌, ◌>>◌, guard}
use ai_statement_analyzer.Base.Number.{Number, integer, fractional, positive_integer}
use ai_statement_analyzer.Base.Text.{
  codes, is_digit, in_range, is_month_pair, decimal_from, utf16_length, trim,
}
use ai_statement_analyzer.Json.{Json, includes, as_text, as_number}

abbrev pub max_ocr_transactions : ℕ
max_ocr_transactions = 100

pub data OcrCategory : Type 0 where
  food transport shopping entertainment subscription travel other : OcrCategory

abbrev pub category_text : OcrCategory → String
category_text food = "食費"
category_text transport = "交通"
category_text shopping = "買い物"
category_text entertainment = "娯楽"
category_text subscription = "サブスク"
category_text travel = "旅行"
category_text other = "その他"

abbrev pub ocr_categories : List OcrCategory
ocr_categories = food ∷ transport ∷ shopping ∷ entertainment ∷ subscription ∷ travel ∷ other ∷ []

abbrev pub no_subcategory : String
no_subcategory = "なし"

abbrev pub ocr_subcategories : List String
ocr_subcategories =
    "外食" ∷ "コンビニ" ∷ "スーパー" ∷ "カフェ" ∷ "電車" ∷ "タクシー" ∷ "飛行機" ∷ "日用品" ∷ "衣服" ∷ "EC" ∷ "なし" ∷ []

abbrev pub subcategories_by_category : OcrCategory → List String
subcategories_by_category food = "外食" ∷ "コンビニ" ∷ "スーパー" ∷ "カフェ" ∷ []
subcategories_by_category transport = "電車" ∷ "タクシー" ∷ "飛行機" ∷ []
subcategories_by_category shopping = "日用品" ∷ "衣服" ∷ "EC" ∷ []
subcategories_by_category _ = []

-- `z.enum(OCR_CATEGORIES)`
unfoldable pub find_category : List OcrCategory → String → Option OcrCategory
find_category [] s = none
find_category (c ∷ cs) s =
    let rest = find_category cs s in if str_eq (category_text c) s then some c else rest

-- The days of a month of the Gregorian calendar.
abbrev pub is_leap : ℕ → Bool
is_leap year = (year % 4 == 0 && not (year % 100 == 0)) || year % 400 == 0

abbrev pub days_in_month : ℕ → ℕ → ℕ
days_in_month year month =
    if month == 2
    then (if is_leap year then 29 else 28)
    else if month == 4 || month == 6 || month == 9 || month == 11
    then 30
    else 31

pub record CalendarDate : Type 0 where
  pub year : ℕ
  pub month : ℕ
  pub day : ℕ

-- The fields of `new Date(Date.UTC(year, month - 1, day))` for a month from 1 to 12 and a day from 1
-- to 31: a two-digit year is one of the 1900s, and a day too many is a day of the next month
-- (December has no day too many).
unfoldable pub utc_fields : ℕ → ℕ → ℕ → CalendarDate
utc_fields given_year month day =
    let year = if leb given_year 99 then 1900 + given_year else given_year in
    let days = days_in_month year month in
    if leb day days
    then record { year = year; month = month; day = day }
    else record { year = year; month = month + 1; day = day - days }

unfoldable pub is_valid_calendar_date : ℕ → ℕ → ℕ → Bool
unfolding utc_fields
is_valid_calendar_date year month day =
    let date = utc_fields year month day in
    date.year == year && date.month == month && date.day == day

-- `(0[1-9]|[12]\d|3[01])`
abbrev pub is_day_pair : ℕ → ℕ → Bool
is_day_pair a b =
    (a == b'0' && in_range b'1' b'9' b)
    || (in_range b'1' b'2' a && is_digit b)
    || (a == b'3' && in_range b'0' b'1' b)

-- The pattern `YYYY-MM-DD` and the calendar.
unfoldable pub is_transaction_date : List ℕ → Bool
unfolding is_valid_calendar_date
is_transaction_date (a ∷ b ∷ c ∷ d ∷ p ∷ m ∷ n ∷ q ∷ x ∷ y ∷ []) =
    is_digit a
    && is_digit b
    && is_digit c
    && is_digit d
    && p == b'-'
    && is_month_pair m n
    && q == b'-'
    && is_day_pair x y
    && is_valid_calendar_date (decimal_from 0 (a ∷ b ∷ c ∷ d ∷ [])) (decimal_from 0 (m ∷ n ∷ []))
        (decimal_from 0 (x ∷ y ∷ []))
is_transaction_date _ = false

unfoldable pub transaction_date : Json → Option String
transaction_date v = do s ← as_text v; guard (is_transaction_date (codes s)); some s

-- `z.string().trim().min(1).max(200)`
unfoldable pub merchant : Json → Option String
merchant v = do
  s ← as_text v
  guard (leb 1 (utf16_length (trim s)) && leb (utf16_length (trim s)) 200)
  some (trim s)

abbrev pub as_integer : Number → Option ℤ
as_integer (integer n) = some n
as_integer fractional = none

abbrev pub max_safe_integer : ℕ
max_safe_integer = 9007199254740991

abbrev pub max_amount : ℕ
max_amount = 100000000

unfoldable pub amount : Json → Option ℤ
amount v = do
  n ← as_number v
  a ← as_integer n
  guard (leb (abs a) max_safe_integer)
  guard (not (eq_ℤ a (pos 0)))
  guard (leb (abs a) max_amount)
  some a

unfoldable pub category : Json → Option OcrCategory
unfolding find_category
category v = do s ← as_text v; find_category ocr_categories s

unfoldable pub line_number : Json → Option ℕ
line_number v = do
  n ← as_number v
  l ← positive_integer n
  guard (leb l max_ocr_transactions)
  some l

-- `z.enum(OCR_SUBCATEGORIES)`
unfoldable pub tool_subcategory : Json → Option String
tool_subcategory v = do s ← as_text v; guard (includes ocr_subcategories s); some s

-- `z.string().nullable()`
unfoldable pub result_subcategory : Json → Option (Option String)
result_subcategory Json.null = some none
result_subcategory v = do s ← as_text v; some (some s)
