-- ===== src/Database/Leases/Holder.antt =====
-- What the holder of a running lease gets: its transactions are stored, all of them and no others,
-- and the statement is completed.
use mathlib.Core.Option
use mathlib.Core.List.{append-nil, append_assoc}
use ai_statement_analyzer.Base.{
  ℕ, ◌+◌, String, ◌≡◌, refl, sym, ap, ◌∙◌, inl, inr, true, false, some, List, [], ◌∷◌, ◌++◌, map,
  arith, str_eq, eq_iff, ◌==◌, Bool-cases, filter, All,
}
use ai_statement_analyzer.Failure.{ok}
use ai_statement_analyzer.Database.Types.{
  CreateTransactionInput, TransactionRecord, StatementRecord, Database, completed,
}
use ai_statement_analyzer.Database.Statements.{
  holds_claim, update_completed, select_statement, complete_row,
}
use ai_statement_analyzer.Database.Completion.{
  new_transaction, is_refused, upsert_transaction, upsert_all, complete_transaction, complete_body,
  check_claim, check_completed, rollback,
}
use ai_statement_analyzer.Database.Completion.Upsert.{has_lines, has_lines-append}
use ai_statement_analyzer.Database.Lifecycle.WellFormed.{IsWellFormed, IsOwned, completed_row}
use ai_statement_analyzer.Database.Rows.{find_row, returning-find_row}
use ai_statement_analyzer.Database.Lifecycle.{status_of}
use ai_statement_analyzer.Database.Completion.Cases.{
  upsert_all-statements, complete-IsCompletion, upsert_all-now,
}

-- The token and the unexpired lease stand in the statement's row.
pub record IsHolder (id token : String) (db : Database) : Type 0 where
  pub well_formed : IsWellFormed db
  pub row : StatementRecord
  pub found : find_row id db.statements ≡ some row
  pub held : holds_claim db.now token row ≡ true

-- Transactions that the table's column types and checks accept, on lines of their own.
abbrev pub DistinctLines : List CreateTransactionInput → Type 0
DistinctLines [] = Unit
DistinctLines (i ∷ inputs) =
    All (λ j. (i.line_number == j.line_number) ≡ false) inputs × DistinctLines inputs

pub record AreValid (inputs : List CreateTransactionInput) : Type 0 where
  pub checked : All (λ i. is_refused i ≡ false) inputs
  pub distinct : DistinctLines inputs

-- The inputs stored for a statement, in the order of the table.
abbrev pub of_statement : String → List TransactionRecord → List TransactionRecord
of_statement id rows = filter (λ t. str_eq t.statement_id id) rows

abbrev pub stored : String → Database → List CreateTransactionInput
stored id db = map (λ t. t.input) (of_statement id db.transactions)

abbrev IsFresh : String → List TransactionRecord → CreateTransactionInput → Type 0
IsFresh id rows i = has_lines id i.line_number rows ≡ false

module _ (id : String) where
  IsFresh-append :
      (db : Database) (i : CreateTransactionInput) (inputs : List CreateTransactionInput)
      → All (λ j. (i.line_number == j.line_number) ≡ false) inputs
      → All (IsFresh id db.transactions) inputs
      → All (IsFresh id (db.transactions ++ new_transaction db id i ∷ [])) inputs
  IsFresh-append db i [] d f = tt
  IsFresh-append db i (j ∷ inputs) (d, ds) (f, fs) = (
    rw (has_lines-append id j.line_number db.transactions (new_transaction db id i), f)
        (ground arith),
    IsFresh-append db i inputs ds fs,
  )

  stored-append :
      (rows : List TransactionRecord) (t : TransactionRecord)
      → str_eq t.statement_id id ≡ true
      → map (λ t. t.input) (of_statement id (rows ++ t ∷ []))
        ≡ map (λ t. t.input) (of_statement id rows) ++ t.input ∷ []
  stored-append [] t e = rw e refl
  stored-append (r ∷ rows) t e = elim (Bool-cases (str_eq r.statement_id id)) [
    | inl h ↦ rw h (ap (◌∷◌ r.input) (stored-append rows t e))
    | inr h ↦ rw h (stored-append rows t e)
  ]

  upsert_fresh :
      (i : CreateTransactionInput) (db : Database)
      → is_refused i ≡ false
      → IsFresh id db.transactions i
      → upsert_transaction id i db ≡ (
        ok tt,
        record db {
          transactions = db.transactions ++ new_transaction db id i ∷ [];
          next_transaction_id = db.next_transaction_id + 1;
        },
      )
  unfolding upsert_transaction
  upsert_fresh i db good fresh = rw (good, fresh) refl

  upsert_all_fresh :
      (inputs : List CreateTransactionInput) (db : Database)
      → AreValid inputs
      → All (IsFresh id db.transactions) inputs
      → ((upsert_all id inputs db).0 ≡ ok tt)
        × (stored id (upsert_all id inputs db).1 ≡ stored id db ++ inputs)
  unfolding upsert_all
  upsert_all_fresh [] db v f = (refl, sym (append-nil _))
  upsert_all_fresh (i ∷ inputs) db v (f, fs) =
      let next : Database = record db {
        transactions = db.transactions ++ new_transaction db id i ∷ [];
        next_transaction_id = db.next_transaction_id + 1;
      } in
      let (done, rest) =
        upsert_all_fresh inputs next (record { checked = v.checked.1; distinct = v.distinct.1 })
          (IsFresh-append db i inputs v.distinct.0 fs) in
      let step = upsert_fresh i db v.checked.0 f in
      let appended =
        stored-append db.transactions (new_transaction db id i) ((eq_iff id id).1 refl) in
      (
        rw step done,
        rw step
            (rest ∙ ap (λ l. l ++ inputs) appended ∙ append_assoc (stored id db) (i ∷ []) inputs),
      )

module _ (id token : String) (db : Database) (h : IsHolder id token db) where
  -- Before completion nothing is stored for the statement.
  not_owned : (t : TransactionRecord) → IsOwned db.statements t → str_eq t.statement_id id ≡ false
  not_owned t o = elim (Bool-cases (str_eq t.statement_id id)) [
    | inl same ↦
        let done : Option.map (λ r. r.status) (find_row id db.statements) ≡ some completed =
          rw ((eq_iff t.statement_id id).0 same) at o in
        absurd (ground (arith, rw h.found at done, h.held))
    | inr other ↦ other
  ]

  none_stored :
      (rows : List TransactionRecord) → All (IsOwned db.statements) rows → of_statement id rows ≡ []
  none_stored [] o = refl
  none_stored (t ∷ rows) (o, os) = rw (not_owned t o) (none_stored rows os)

  none_has_line :
      (n : ℕ) (rows : List TransactionRecord)
      → All (IsOwned db.statements) rows
      → has_lines id n rows ≡ false
  none_has_line n [] o = refl
  none_has_line n (t ∷ rows) (o, os) = rw (not_owned t o) (none_has_line n rows os)

  All-IsFresh : (inputs : List CreateTransactionInput) → All (IsFresh id db.transactions) inputs
  All-IsFresh [] = tt
  All-IsFresh (i ∷ inputs) =
      (none_has_line i.line_number db.transactions h.well_formed.owned, All-IsFresh inputs)

  complete_ok :
      (inputs : List CreateTransactionInput)
      → (upsert_all id inputs db).0 ≡ ok tt
      → (complete_transaction id token inputs db).0 ≡ ok tt
  unfolding complete_transaction complete_body rollback select_statement find_row check_claim
      check_completed update_completed
  complete_ok inputs done =
      rw
        (
          h.found,
          h.held,
          done,
          upsert_all-statements id inputs db,
          upsert_all-now id inputs db,
          returning-find_row (holds_claim db.now token) (complete_row db.now) id db.statements
              h.well_formed.unique,
          h.found,
          h.held,
        )
        refl

  -- The holder of an unexpired lease that saves transactions which the table's column types and checks
  -- accept, on distinct lines, succeeds: the statement is COMPLETED and the transactions stored for it are
  -- exactly those given, in their order.
  pub complete_stores :
      (inputs : List CreateTransactionInput)
      → AreValid inputs
      → ((complete_transaction id token inputs db).0 ≡ ok tt)
        × (status_of id (complete_transaction id token inputs db).1 ≡ some completed)
        × (stored id (complete_transaction id token inputs db).1 ≡ inputs)
  unfolding status_of
  complete_stores inputs v =
      let (written, kept) = upsert_all_fresh id inputs db v (All-IsFresh inputs) in
      let succeeds = complete_ok inputs written in
      let done = complete-IsCompletion id token inputs db succeeds in
      (
        succeeds,
        rw done.statements (completed_row done h.well_formed),
        rw done.transactions (rw kept (rw (none_stored db.transactions h.well_formed.owned) refl)),
      )
