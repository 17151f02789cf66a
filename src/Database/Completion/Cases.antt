-- ===== src/Database/Completion/Cases.antt =====
-- What the completing transaction can end in: it throws and leaves the tables as they were, or it
-- held the claim, wrote every transaction and completed the row.
use ai_statement_analyzer.Base.{
  String, true, Option, none, some, List, [], ◌∷◌, ◌≡◌, refl, inl, inr, arith, Bool-cases, ◌&&◌,
  false,
}
use ai_statement_analyzer.Failure.{Outcome, ok, throw, processing_claim_lost_error}
use ai_statement_analyzer.Effects.{◌>>=◌}
use ai_statement_analyzer.Effects.Laws.{bind-ok}
use ai_statement_analyzer.Database.Types.{StatementRecord, CreateTransactionInput, Database}
use ai_statement_analyzer.Database.Table.{update}
use ai_statement_analyzer.Database.Statements.{
  has_id, holds_claim, complete_row, update_completed, select_statement,
}
use ai_statement_analyzer.Database.Rows.{find_row}
use ai_statement_analyzer.Database.Completion.{
  upsert_transaction, upsert_all, check_claim, check_completed, rollback, complete_body,
  complete_transaction, ◌>>=◌,
}

module _ (id : String) where
  upsert_transaction-statements :
      (input : CreateTransactionInput) (db : Database)
      → (upsert_transaction id input db).1.statements ≡ db.statements
  unfolding upsert_transaction
  upsert_transaction-statements input db = ground arith

  upsert_transaction-now :
      (input : CreateTransactionInput) (db : Database)
      → (upsert_transaction id input db).1.now ≡ db.now
  unfolding upsert_transaction
  upsert_transaction-now input db = ground arith

  pub upsert_all-statements :
      (inputs : List CreateTransactionInput) (db : Database)
      → (upsert_all id inputs db).1.statements ≡ db.statements
  unfolding upsert_all
  upsert_all-statements [] db = refl
  upsert_all-statements (input ∷ inputs) db = ground (
    arith,
    upsert_transaction-statements input db,
    upsert_all-statements inputs (upsert_transaction id input db).1,
  )

  pub upsert_all-now :
      (inputs : List CreateTransactionInput) (db : Database)
      → (upsert_all id inputs db).1.now ≡ db.now
  unfolding upsert_all
  upsert_all-now [] db = refl
  upsert_all-now (input ∷ inputs) db = ground (
    arith,
    upsert_transaction-now input db,
    upsert_all-now inputs (upsert_transaction id input db).1,
  )

-- The tables as before, whatever the sequence.
pub record SameTables (before after : Database) : Type 0 where
  pub statements : after.statements ≡ before.statements
  pub transactions : after.transactions ≡ before.transactions
  pub now : after.now ≡ before.now

-- The row held the claim, and the tables hold the transactions and the completed row.
pub record IsCompletion (id token : String) (inputs : List CreateTransactionInput)
    (before after : Database) : Type 0 where
  pub row : StatementRecord
  pub found : find_row id before.statements ≡ some row
  pub held : holds_claim before.now token row ≡ true
  pub written : (upsert_all id inputs before).0 ≡ ok tt
  pub transactions : after.transactions ≡ (upsert_all id inputs before).1.transactions
  pub statements :
      after.statements
      ≡ update
          (λ r. has_id id r && holds_claim before.now token r)
          (complete_row before.now)
          before.statements
  pub now : after.now ≡ before.now

abbrev pub CompletionCases :
    String
    → String
    → List CreateTransactionInput
    → Database
    → Outcome (Unit {0})
    → Database
    → Type 0
CompletionCases id token inputs before (throw e) after = SameTables before after
CompletionCases id token inputs before (ok _) after = IsCompletion id token inputs before after

module _ (id token : String) (inputs : List CreateTransactionInput) (db : Database) where
  rollback-cases :
      (r : Outcome (Unit {0}) × Database)
      → (r.0 ≡ ok tt → IsCompletion id token inputs db r.1)
      → CompletionCases id token inputs db (rollback db r).0 (rollback db r).1
  unfolding rollback
  rollback-cases (throw e, after) h = record { statements = refl; transactions = refl; now = refl }
  rollback-cases (ok _, after) h = h refl

  check_claim-held :
      (o : Option StatementRecord)
      → (check_claim token o db).0 ≡ ok tt
      → (r : StatementRecord) × (o ≡ some r)
        × (holds_claim db.now token r ≡ true)
        × ((check_claim token o db).1 ≡ db)
  unfolding check_claim
  check_claim-held none h = cc
  check_claim-held (some r) h = elim (Bool-cases (holds_claim db.now token r)) [
    | inl held ↦ (r, refl, held, rw held refl)
    | inr free ↦ absurd (ground (arith, free))
  ]

  check_completed-state :
      (rows : List StatementRecord) (s : Database) → (check_completed rows s).1 ≡ s
  unfolding check_completed
  check_completed-state rows s = ground arith

  -- The steps behind the lock, from a state whose rows and clock are those of `db`.
  after_check :
      (r : StatementRecord)
      → find_row id db.statements ≡ some r
      → holds_claim db.now token r ≡ true
      → ((upsert_all id inputs >>= λ _. update_completed id token >>= check_completed) db).0 ≡ ok tt
      → IsCompletion id token inputs db
          ((upsert_all id inputs >>= λ _. update_completed id token >>= check_completed) db).1
  unfolding update_completed
  after_check r found held h =
      let u =
        bind-ok (upsert_all id inputs) (λ _. update_completed id token >>= check_completed) db h in
      record {
        row = r;
        found = found;
        held = held;
        written = u.first;
        transactions = rw (u.state, check_completed-state);
        statements = rw (
          u.state,
          check_completed-state,
          upsert_all-statements id inputs db,
          upsert_all-now id inputs db,
        );
        now = rw (u.state, check_completed-state, upsert_all-now id inputs db);
      }

  complete_body-IsCompletion :
      (complete_body id token inputs db).0 ≡ ok tt
      → IsCompletion id token inputs db (complete_body id token inputs db).1
  unfolding complete_body select_statement find_row
  complete_body-IsCompletion h =
      let rest = λ (_ : Unit {0}).
        upsert_all id inputs >>= λ _. update_completed id token >>= check_completed in
      let c = bind-ok (check_claim token (find_row id db.statements)) rest db h in
      let (r, found, held, same) = check_claim-held (find_row id db.statements) c.first in
      rw (c.state, same) (after_check r found held (rw same at c.rest))

  -- The transaction throws and changes no row, or it held the claim and did all of its work.
  pub complete-cases :
      CompletionCases id token inputs db
        (complete_transaction id token inputs db).0
        (complete_transaction id token inputs db).1
  unfolding complete_transaction
  complete-cases = rollback-cases (complete_body id token inputs db) complete_body-IsCompletion

-- Without the claim the transaction throws, and everything is as before.
pub complete-not_held :
    (id token : String) (inputs : List CreateTransactionInput) (db : Database) (r : StatementRecord)
    → find_row id db.statements ≡ some r
    → holds_claim db.now token r ≡ false
    → complete_transaction id token inputs db ≡ (throw processing_claim_lost_error, db)
unfolding complete_transaction complete_body rollback select_statement find_row check_claim
complete-not_held id token inputs db r found free = rw (found, free) refl

-- A transaction that resolved is a completion.
pub complete-IsCompletion :
    (id token : String) (inputs : List CreateTransactionInput) (db : Database)
    → (complete_transaction id token inputs db).0 ≡ ok tt
    → IsCompletion id token inputs db (complete_transaction id token inputs db).1
complete-IsCompletion id token inputs db e = rw e at (complete-cases id token inputs db)
