-- ===== src/Database/Completion/Upsert.antt =====
-- What the upserts of `saveTransactionsAndComplete` keep: the uniqueness of lines, and whatever holds
-- of the stored rows and of the new ones.
use ai_statement_analyzer.Base.{
  ℕ, String, ◌≡◌, refl, inl, inr, Bool, false, ◌||◌, List, [], ◌∷◌, ◌++◌, arith, eq_iff,
  if◌then◌else◌, Bool-cases, any, All,
}
use ai_statement_analyzer.Database.Table.{update}
use ai_statement_analyzer.Database.Types.{CreateTransactionInput, TransactionRecord, Database}
use ai_statement_analyzer.Database.Completion.{
  has_line, overwrite, new_transaction, is_refused, upsert_transaction, upsert_all,
}
use ai_statement_analyzer.Effects.Laws.{bind-keeps}

abbrev pub has_lines : String → ℕ → List TransactionRecord → Bool
has_lines id n rows = any (has_line id n) rows

-- No two transactions share a statement and a line.
abbrev pub UniqueLines : List TransactionRecord → Type 0
UniqueLines [] = Unit
UniqueLines (t ∷ rows) = (has_lines t.statement_id t.line_number rows ≡ false) × UniqueLines rows

module _ (input : CreateTransactionInput) (id : String) where
  overwrite_row : TransactionRecord → TransactionRecord
  overwrite_row t = if has_line id input.line_number t then overwrite input t else t

  overwrite_row-has_line :
      (j : String) (n : ℕ) (t : TransactionRecord) → has_line j n (overwrite_row t) ≡ has_line j n t
  unfolding overwrite_row
  overwrite_row-has_line j n t = ground (arith, eq_iff t.statement_id j)

  overwrite_row-line : (t : TransactionRecord) → (overwrite_row t).line_number ≡ t.line_number
  unfolding overwrite_row
  overwrite_row-line t = ground arith

  overwrite_row-statement_id :
      (t : TransactionRecord) → (overwrite_row t).statement_id ≡ t.statement_id
  unfolding overwrite_row
  overwrite_row-statement_id t = ground arith

  has_lines-update :
      (j : String) (n : ℕ) (rows : List TransactionRecord)
      → has_lines j n (update (has_line id input.line_number) (overwrite input) rows)
        ≡ has_lines j n rows
  unfolding overwrite_row
  has_lines-update j n [] = refl
  has_lines-update j n (t ∷ rows) =
      rw (overwrite_row-has_line j n t, has_lines-update j n rows) refl

  update-UniqueLines :
      (rows : List TransactionRecord)
      → UniqueLines rows
      → UniqueLines (update (has_line id input.line_number) (overwrite input) rows)
  unfolding overwrite_row
  update-UniqueLines [] u = tt
  update-UniqueLines (t ∷ rows) (f, u) = (
    rw (has_lines-update, overwrite_row-line t, overwrite_row-statement_id t) f,
    update-UniqueLines rows u,
  )

pub has_lines-append :
    (j : String) (n : ℕ) (rows : List TransactionRecord) (t : TransactionRecord)
    → has_lines j n (rows ++ t ∷ []) ≡ (has_lines j n rows || has_line j n t)
has_lines-append j n [] t = ground arith
has_lines-append j n (r ∷ rows) t = ground (arith, has_lines-append j n rows t)

append-UniqueLines :
    (rows : List TransactionRecord) (t : TransactionRecord)
    → has_lines t.statement_id t.line_number rows ≡ false
    → UniqueLines rows
    → UniqueLines (rows ++ t ∷ [])
append-UniqueLines [] t f u = (refl, tt)
append-UniqueLines (r ∷ rows) t f (g, u) = (
  rw has_lines-append
      (ground (arith, eq_iff r.statement_id t.statement_id, eq_iff t.statement_id r.statement_id)),
  append-UniqueLines rows t (ground arith) u,
)

module _ (id : String) where
  upsert_transaction-UniqueLines :
      (input : CreateTransactionInput) (db : Database)
      → UniqueLines db.transactions
      → UniqueLines (upsert_transaction id input db).1.transactions
  unfolding upsert_transaction
  upsert_transaction-UniqueLines input db u = elim (Bool-cases (is_refused input)) [
    | inl bad ↦ rw bad u
    | inr good ↦ elim (Bool-cases (has_lines id input.line_number db.transactions)) [
      | inl old ↦ rw (good, old) (update-UniqueLines input id db.transactions u)
      | inr new ↦
          rw (good, new) (append-UniqueLines db.transactions (new_transaction db id input) new u)
    ]
  ]

  pub upsert_all-UniqueLines :
      (inputs : List CreateTransactionInput) (db : Database)
      → UniqueLines db.transactions
      → UniqueLines (upsert_all id inputs db).1.transactions
  unfolding upsert_all
  upsert_all-UniqueLines [] db u = u
  upsert_all-UniqueLines (input ∷ inputs) db u =
      let first = upsert_transaction-UniqueLines input db u in
      bind-keeps (λ d. UniqueLines d.transactions) (upsert_transaction id input)
        (λ _. upsert_all id inputs) db first
        (λ _. upsert_all-UniqueLines inputs (upsert_transaction id input db).1 first)

-- A property of rows that an overwritten and a new row have.
module _ {ℓ} (id : String) (P : TransactionRecord → Type ℓ)
    (old : (input : CreateTransactionInput) (t : TransactionRecord)
      → is_refused input ≡ false
      → P t
      → P (overwrite input t))
    (new : (input : CreateTransactionInput) (db : Database)
      → is_refused input ≡ false
      → P (new_transaction db id input)) where
  update-All_rows :
      (input : CreateTransactionInput) (rows : List TransactionRecord)
      → is_refused input ≡ false
      → All P rows
      → All P (update (has_line id input.line_number) (overwrite input) rows)
  update-All_rows input [] good h = tt
  update-All_rows input (t ∷ rows) good (p, h) = (
    elim (Bool-cases (has_line id input.line_number t)) [
      | inl e ↦ rw e (old input t good p)
      | inr e ↦ rw e p
    ],
    update-All_rows input rows good h,
  )

  append-All_rows :
      (rows : List TransactionRecord) (t : TransactionRecord)
      → All P rows
      → P t
      → All P (rows ++ t ∷ [])
  append-All_rows [] t h p = (p, tt)
  append-All_rows (r ∷ rows) t (q, h) p = (q, append-All_rows rows t h p)

  upsert_transaction-All :
      (input : CreateTransactionInput) (db : Database)
      → All P db.transactions
      → All P (upsert_transaction id input db).1.transactions
  unfolding upsert_transaction
  upsert_transaction-All input db h = elim (Bool-cases (is_refused input)) [
    | inl bad ↦ rw bad h
    | inr good ↦ elim (Bool-cases (has_lines id input.line_number db.transactions)) [
      | inl e ↦ rw (good, e) (update-All_rows input db.transactions good h)
      | inr e ↦ rw (good, e) (append-All_rows db.transactions _ h (new input db good))
    ]
  ]

  pub upsert_all-All :
      (inputs : List CreateTransactionInput) (db : Database)
      → All P db.transactions
      → All P (upsert_all id inputs db).1.transactions
  unfolding upsert_all
  upsert_all-All [] db h = h
  upsert_all-All (input ∷ inputs) db h =
      let first = upsert_transaction-All input db h in
      bind-keeps (λ d. All P d.transactions) (upsert_transaction id input)
        (λ _. upsert_all id inputs) db first
        (λ _. upsert_all-All inputs (upsert_transaction id input db).1 first)
