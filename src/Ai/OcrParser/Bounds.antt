-- ===== src/Ai/OcrParser/Bounds.antt =====
-- The bounds of a parsed answer of the model (src/ai/ocr-schema.ts).
use mathlib.Core.Option.{some-injective}
use mathlib.Core.Path.{subst}
use ai_statement_analyzer.Base.{
  ℕ, zero, suc, ◌≤◌, String, ◌≡◌, inl, inr, true, false, Option, none, some, List, [], ◌∷◌, map,
  arith, ◌==◌, Bool-cases, length, All,
}
use ai_statement_analyzer.Base.Int.{pos, abs, eq_ℤ, ℤ}
use ai_statement_analyzer.Base.Maybe.{guard, bind-some, every}
use ai_statement_analyzer.Base.Number.{integer}
use ai_statement_analyzer.Base.Text.{codes, utf16_length, trim}
use ai_statement_analyzer.Failure.{ok}
use ai_statement_analyzer.Ai.OcrSchema.{
  amount, merchant, line_number, transaction_date, is_transaction_date, max_amount,
  max_ocr_transactions, result_subcategory,
}
use ai_statement_analyzer.Ai.OcrParser.{
  OcrTransaction, entry, ocr_transaction, ocr_result, parse_ocr_tool_input, lines_differ,
  has_number, is_allowed, ocr_tool_input, result_json, to_result, or_throw, Entry, validate_result,
}
use ai_statement_analyzer.Json.{Json}
use ai_statement_analyzer.Ai.OcrParser.Laws.{Parts, entry-Parts, guard-true}
use ai_statement_analyzer.Ai.OcrParser.Agreement.{document-Parts}

-- A transaction within the schema's limits.
pub record IsWithinLimits (t : OcrTransaction) : Type 0 where
  pub valid_date : is_transaction_date (codes t.transaction_date) ≡ true
  pub nonzero : eq_ℤ t.amount (pos 0) ≡ false
  pub amount_limit : abs t.amount ≤ max_amount
  pub line_first : 1 ≤ t.line_number
  pub line_last : t.line_number ≤ max_ocr_transactions
  pub raw_length : (1 ≤ utf16_length t.merchant_raw) × (utf16_length t.merchant_raw ≤ 200)
  pub name_length : (1 ≤ utf16_length t.merchant_name) × (utf16_length t.merchant_name ≤ 200)
  pub allowed : is_allowed t.category t.subcategory ≡ true

transaction_date-valid :
    (s : String) → transaction_date (Json.text s) ≡ some s → is_transaction_date (codes s) ≡ true
unfolding transaction_date
transaction_date-valid s h =
    let (g, valid, last) = bind-some (guard (is_transaction_date (codes s))) _ h in
    guard-true _ valid

amount-bounds :
    (a : ℤ)
    → amount (Json.num (integer a)) ≡ some a
    → (eq_ℤ a (pos 0) ≡ false) × (abs a ≤ max_amount)
unfolding amount
amount-bounds a h = ground arith

merchant-bounds :
    (s : String) → merchant (Json.text s) ≡ some s → (1 ≤ utf16_length s) × (utf16_length s ≤ 200)
unfolding merchant
merchant-bounds s h =
    let same : trim s ≡ s = ground arith in
    rw same at
      (let b : (1 ≤ utf16_length (trim s)) × (utf16_length (trim s) ≤ 200) = ground arith in b)

line_number-bounds :
    (l : ℕ)
    → line_number (Json.num (integer (pos l))) ≡ some l
    → (1 ≤ l) × (l ≤ max_ocr_transactions)
unfolding line_number
line_number-bounds zero h = cc
line_number-bounds (suc l) h = ground arith

ocr_transaction-IsWithinLimits :
    (v : Json) (t : OcrTransaction) → ocr_transaction v ≡ some t → IsWithinLimits t
unfolding ocr_transaction
ocr_transaction-IsWithinLimits v t h =
    let (u, at, rest) = bind-some (entry result_subcategory v) _ h in
    let (g, ok', last) = bind-some (guard (is_allowed u.category u.subcategory)) _ rest in
    let same : u ≡ t = some-injective _ _ last in
    let parts = subst (Parts result_subcategory) same (entry-Parts result_subcategory v u at) in
    let (nonzero, limit) = amount-bounds t.amount parts.yen in
    let (first, final) = line_number-bounds t.line_number parts.line in
    record {
      valid_date = transaction_date-valid t.transaction_date parts.date;
      nonzero = nonzero;
      amount_limit = limit;
      line_first = first;
      line_last = final;
      raw_length = merchant-bounds t.merchant_raw parts.raw;
      name_length = merchant-bounds t.merchant_name parts.name;
      allowed =
          subst (λ (x : OcrTransaction). is_allowed x.category x.subcategory ≡ true) same
            (guard-true _ ok');
    }

every-IsWithinLimits :
    (vs : List Json) (ts : List OcrTransaction)
    → every ocr_transaction vs ≡ some ts
    → All IsWithinLimits ts
unfolding every
every-IsWithinLimits [] ts h = subst (All IsWithinLimits) (some-injective _ _ h) tt
every-IsWithinLimits (v ∷ vs) ts h =
    let (t, at, rest) = bind-some (ocr_transaction v) _ h in
    let (us, at', last) = bind-some (every ocr_transaction vs) _ rest in
    subst (All IsWithinLimits) (some-injective _ _ last)
      (ocr_transaction-IsWithinLimits v t at, every-IsWithinLimits vs us at')

-- Each line differs from all the lines behind it.
abbrev pub AreDistinct : List ℕ → Type 0
AreDistinct [] = Unit
AreDistinct (n ∷ lines) = All (λ m. (n == m) ≡ false) lines × AreDistinct lines

unseen :
    (n : ℕ) (seen lines : List ℕ)
    → has_number n seen ≡ true
    → lines_differ seen lines ≡ true
    → All (λ m. (n == m) ≡ false) lines
unfolding lines_differ
unseen n seen [] h d = tt
unseen n seen (m ∷ lines) h d = elim (Bool-cases (n == m)) [
  | inl same ↦
      let e : n ≡ m = ground arith in
      let bad : has_number m seen ≡ true = rw e at h in absurd (ground arith)
  | inr other ↦ (other, unseen n (m ∷ seen) lines (ground arith) (ground arith))
]

lines_differ-AreDistinct :
    (seen lines : List ℕ) → lines_differ seen lines ≡ true → AreDistinct lines
unfolding lines_differ
lines_differ-AreDistinct seen [] d = tt
lines_differ-AreDistinct seen (n ∷ lines) d = (
  unseen n (n ∷ seen) lines (ground arith) (ground arith),
  lines_differ-AreDistinct (n ∷ seen) lines (ground arith),
)

pub record IsOcrResult (ts : List OcrTransaction) : Type 0 where
  pub at_least_one : 1 ≤ length ts
  pub at_most : length ts ≤ max_ocr_transactions
  pub limits : All IsWithinLimits ts
  pub distinct : AreDistinct (map (λ t. t.line_number) ts)

or_throw-ok : {A : Type 0} (o : Option A) {a : A} → or_throw o ≡ ok a → o ≡ some a
or_throw-ok none h = cc
or_throw-ok (some b) h = ground arith

validate_result-ok :
    (o : Option (List (Entry String))) {ts : List OcrTransaction}
    → validate_result o ≡ ok ts
    → (us : List (Entry String)) × (ocr_result (result_json (map to_result us)) ≡ some ts)
validate_result-ok none h = cc
validate_result-ok (some us) h = (us, or_throw-ok _ h)

-- Whatever the model answers, an answer that is accepted has between 1 and 100 transactions on
-- distinct lines from 1 to 100, each with a calendar date of the form that the schema tests, an amount that is not zero and at most 100,000,000 in size,
-- merchants of 1 to 200 UTF-16 units, and a subcategory that its category allows.
pub parse_ocr_tool_input-IsOcrResult :
    (v : Json) (ts : List OcrTransaction) → parse_ocr_tool_input v ≡ ok ts → IsOcrResult ts
unfolding parse_ocr_tool_input ocr_result
parse_ocr_tool_input-IsOcrResult v ts h =
    let (us, again) = validate_result-ok (ocr_tool_input v) h in
    let d = document-Parts ocr_transaction (result_json (map to_result us)) ts again in
    record {
      at_least_one = ground (arith, d.bounded);
      at_most = ground (arith, d.bounded);
      limits = every-IsWithinLimits d.elements ts d.parsed;
      distinct = lines_differ-AreDistinct [] _ d.differ;
    }
