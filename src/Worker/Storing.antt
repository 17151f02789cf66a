-- ===== src/Worker/Storing.antt =====
-- From the analyzer's answer to the tables: what the OCR parser accepts can be stored.
use ai_statement_analyzer.Base.{
  ℕ, ◌≤◌, String, ◌≡◌, refl, inl, inr, true, false, Option, none, some, List, [], ◌∷◌, map, arith,
  str_eq, eq_iff, ◌==◌, Bool-cases, All,
}
use ai_statement_analyzer.Base.Int.{ℤ, pos, negsuc, abs}
use ai_statement_analyzer.Base.Text.{codes}
use ai_statement_analyzer.Json.{includes}
use ai_statement_analyzer.Ai.OcrSchema.{
  OcrCategory, food, transport, shopping, entertainment, subscription, travel, other, category_text,
  subcategories_by_category, max_amount,
}
use ai_statement_analyzer.Ai.OcrParser.{is_allowed}
use ai_statement_analyzer.Ai.OcrParser.Dates.{transaction_date-is_date}
use ai_statement_analyzer.Database.Completion.{violates_type}
use ai_statement_analyzer.Database.Columns.{is_storable, is_storable_option, is_bigint, is_integer}
use ai_statement_analyzer.Failure.{ok}
use ai_statement_analyzer.Json.{Json}
use ai_statement_analyzer.Database.Types.{CreateTransactionInput, Database, completed}
use ai_statement_analyzer.Database.Completion.{is_refused, complete_transaction}
use ai_statement_analyzer.Database.Lifecycle.{status_of}
use ai_statement_analyzer.Database.Leases.Holder.{DistinctLines, IsHolder, stored, complete_stores}
use ai_statement_analyzer.Ai.OcrParser.{OcrTransaction, parse_ocr_tool_input}
use ai_statement_analyzer.Ai.OcrParser.Bounds.{
  IsWithinLimits, AreDistinct, parse_ocr_tool_input-IsOcrResult,
}
use ai_statement_analyzer.Worker.JobHandler.{to_create_transaction_input}

-- The merchants of a transaction are texts that the database can hold: none has U+0000.
abbrev pub HasStorableMerchants : OcrTransaction → Type 0
HasStorableMerchants t = (is_storable t.merchant_raw ≡ true) × (is_storable t.merchant_name ≡ true)

listed-is_storable :
    (xs : List String) (s : String)
    → All (λ x. is_storable x ≡ true) xs
    → includes xs s ≡ true
    → is_storable s ≡ true
listed-is_storable [] s a h = cc
listed-is_storable (x ∷ xs) s (f, a) h = elim (Bool-cases (str_eq x s)) [
  | inl y ↦ rw (← (eq_iff x s).0 y) f
  | inr n ↦ listed-is_storable xs s a (ground (arith, h, n))
]

category-is_storable : (kind : OcrCategory) → is_storable (category_text kind) ≡ true
category-is_storable food = refl
category-is_storable transport = refl
category-is_storable shopping = refl
category-is_storable entertainment = refl
category-is_storable subscription = refl
category-is_storable travel = refl
category-is_storable other = refl

subcategories-are_storable :
    (kind : OcrCategory) → All (λ x. is_storable x ≡ true) (subcategories_by_category kind)
subcategories-are_storable food = (refl, (refl, (refl, (refl, tt))))
subcategories-are_storable transport = (refl, (refl, (refl, tt)))
subcategories-are_storable shopping = (refl, (refl, (refl, tt)))
subcategories-are_storable entertainment = tt
subcategories-are_storable subscription = tt
subcategories-are_storable travel = tt
subcategories-are_storable other = tt

allowed-is_storable :
    (kind : OcrCategory) (o : Option String)
    → is_allowed kind o ≡ true
    → is_storable_option o ≡ true
allowed-is_storable kind none h = refl
allowed-is_storable kind (some s) h =
    listed-is_storable (subcategories_by_category kind) s (subcategories-are_storable kind) h

is_bigint-of : (a : ℤ) → abs a ≤ max_amount → is_bigint a ≡ true
is_bigint-of (pos n) h = ground (arith, h)
is_bigint-of (negsuc n) h = ground (arith, h)

accepted-violates_type :
    (t : OcrTransaction)
    → IsWithinLimits t
    → HasStorableMerchants t
    → violates_type (to_create_transaction_input t) ≡ false
unfolding violates_type
accepted-violates_type t l (raw, name) =
    let integer_line : is_integer t.line_number ≡ true = ground (arith, l.line_last) in
    rw
      (
        integer_line,
        transaction_date-is_date (codes t.transaction_date) l.valid_date,
        raw,
        name,
        is_bigint-of t.amount l.amount_limit,
        category-is_storable t.category,
        allowed-is_storable t.category t.subcategory l.allowed,
      )
      refl

All-checked :
    (ts : List OcrTransaction)
    → All IsWithinLimits ts
    → All HasStorableMerchants ts
    → All (λ i. is_refused i ≡ false) (map to_create_transaction_input ts)
All-checked [] h m = tt
All-checked (t ∷ ts) (l, h) (n, m) = (
  rw (accepted-violates_type t l n) (ground (arith, l.nonzero, l.line_first)),
  All-checked ts h m,
)

other_lines :
    (n : ℕ) (ts : List OcrTransaction)
    → All (λ m. (n == m) ≡ false) (map (λ t. t.line_number) ts)
    → All
        (λ (j : CreateTransactionInput). (n == j.line_number) ≡ false)
        (map to_create_transaction_input ts)
other_lines n [] h = tt
other_lines n (t ∷ ts) (d, h) = (d, other_lines n ts h)

distinct-lines :
    (ts : List OcrTransaction)
    → AreDistinct (map (λ t. t.line_number) ts)
    → DistinctLines (map to_create_transaction_input ts)
distinct-lines [] h = tt
distinct-lines (t ∷ ts) (d, h) = (other_lines t.line_number ts d, distinct-lines ts h)

-- Whatever the model answers: when the parser accepts it, no merchant has U+0000, which the parser
-- accepts and PostgreSQL refuses, and the worker holds the statement's unexpired lease, then saving the transactions succeeds, the statement is COMPLETED, and the transactions
-- stored for it are exactly those that were parsed, in their order.
pub parsed_stores :
    (v : Json) (ts : List OcrTransaction) (id token : String) (db : Database)
    → parse_ocr_tool_input v ≡ ok ts
    → All HasStorableMerchants ts
    → IsHolder id token db
    → ((complete_transaction id token (map to_create_transaction_input ts) db).0 ≡ ok tt)
      × (status_of id (complete_transaction id token (map to_create_transaction_input ts) db).1
          ≡ some completed)
      × (stored id (complete_transaction id token (map to_create_transaction_input ts) db).1
          ≡ map to_create_transaction_input ts)
parsed_stores v ts id token db parsed storable holder =
    let r = parse_ocr_tool_input-IsOcrResult v ts parsed in
    complete_stores id token db holder (map to_create_transaction_input ts) (record {
      checked = All-checked ts r.limits storable;
      distinct = distinct-lines ts r.distinct;
    })
