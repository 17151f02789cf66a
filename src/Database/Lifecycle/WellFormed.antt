-- ===== src/Database/Lifecycle/WellFormed.antt =====
-- What holds of the tables at every moment, and that every action of every process keeps it.
use mathlib.Core.Option
use ai_statement_analyzer.Base.{
  String, ◌≡◌, refl, inl, inr, Bool, true, false, ◌&&◌, some, List, [], ◌∷◌, ◌++◌, arith, leb,
  Bool-cases, Option-cases, any, All,
}
use ai_statement_analyzer.Database.Completion.{is_refused, complete_transaction}
use ai_statement_analyzer.Database.Types.{
  completed, Database, TransactionRecord, StatementRecord, CreateTransactionInput, is_completed,
}
use ai_statement_analyzer.Database.Lifecycle.{IsConsistent}
use ai_statement_analyzer.Database.Rows.{
  update-All, update-UniqueIds, UniqueIds, find_row, find_row-update, find_row-append,
  All-append_one, append-UniqueIds, find_row-no_conflict, find_row-has_id,
}
use ai_statement_analyzer.Database.Completion.Upsert.{
  UniqueLines, upsert_all-UniqueLines, upsert_all-All,
}
use ai_statement_analyzer.Database.World.{
  apply, apply_all, Action, creates, uploads, queues, resets, claims, fails, completes, elapses,
}
use ai_statement_analyzer.Database.Statements.{
  insert_statement, update_statements, update_uploaded, update_queued, update_reset, update_claim,
  update_failed, max_content_length, has_id, conflicts, holds_claim, complete_row,
}
use ai_statement_analyzer.Failure.{Outcome, throw, ok}
use ai_statement_analyzer.Database.Completion.Cases.{CompletionCases, complete-cases, IsCompletion}
use ai_statement_analyzer.Database.Table.{update}

abbrev pub IsOwned : List StatementRecord → TransactionRecord → Type 0
IsOwned statements t =
    Option.map (λ r. r.status) (find_row t.statement_id statements) ≡ some completed

-- Rows agree with their status, identifiers and lines are unique, and transactions are stored only
-- for completed statements, with values that the table's column types and checks accept.
pub record IsWellFormed (db : Database) : Type 0 where
  pub consistent : All IsConsistent db.statements
  pub unique : UniqueIds db.statements
  pub lines : UniqueLines db.transactions
  pub owned : All (IsOwned db.statements) db.transactions
  pub checked : All (λ t. is_refused t.input ≡ false) db.transactions

module _ (test : StatementRecord → Bool) (set : StatementRecord → StatementRecord)
    (same : (r : StatementRecord) → (set r).id ≡ r.id)
    (consistent : (r : StatementRecord) → IsConsistent r → test r ≡ true → IsConsistent (set r))
    (spares : (r : StatementRecord) → test r ≡ true → is_completed r.status ≡ false) where
  status-spared :
      (id : String) (statements : List StatementRecord)
      → Option.map (λ r. r.status) (find_row id statements) ≡ some completed
      → Option.map (λ r. r.status) (find_row id (update test set statements)) ≡ some completed
  status-spared id statements e = elim (Option-cases (find_row id statements)) [
    | inl absent ↦ absurd (ground (arith, absent))
    | inr (r, found) ↦
        rw (find_row-update test set same id statements, found) (ground (arith, found, spares r))
  ]

  IsOwned-spared :
      (statements : List StatementRecord) (rows : List TransactionRecord)
      → All (IsOwned statements) rows
      → All (IsOwned (update test set statements)) rows
  IsOwned-spared statements [] h = tt
  IsOwned-spared statements (t ∷ rows) (o, h) =
      (status-spared t.statement_id statements o, IsOwned-spared statements rows h)

  update-IsWellFormed :
      (db : Database) → IsWellFormed db → IsWellFormed (update_statements test set db).1
  update-IsWellFormed db w = record {
    consistent = update-All test set same IsConsistent db.statements consistent w.consistent;
    unique = update-UniqueIds test set same db.statements w.unique;
    lines = w.lines;
    owned = IsOwned-spared db.statements db.transactions w.owned;
    checked = w.checked;
  }

IsOwned-append :
    (statements : List StatementRecord) (new : StatementRecord) (rows : List TransactionRecord)
    → All (IsOwned statements) rows
    → All (IsOwned (statements ++ new ∷ [])) rows
IsOwned-append statements new [] h = tt
IsOwned-append statements new (t ∷ rows) (o, h) = (
  ground (arith, find_row-append t.statement_id statements new),
  IsOwned-append statements new rows h,
)

insert-IsWellFormed :
    (new : StatementRecord) (db : Database)
    → IsConsistent new
    → IsWellFormed db
    → IsWellFormed (insert_statement new db).1
unfolding insert_statement
insert-IsWellFormed new db c w =
    elim (Bool-cases (leb 1 new.content_length && leb new.content_length max_content_length)) [
      | inr short ↦ rw short w
      | inl fits ↦ elim (Bool-cases (any (conflicts new) db.statements)) [
        | inl clash ↦ rw (fits, clash) w
        | inr free ↦
            rw (fits, free)
              (record {
                consistent = All-append_one IsConsistent db.statements new w.consistent c;
                unique =
                    append-UniqueIds db.statements new (find_row-no_conflict new db.statements free)
                      w.unique;
                lines = w.lines;
                owned = IsOwned-append db.statements new db.transactions w.owned;
                checked = w.checked;
              })
      ]
    ]

-- The tables of a completion, from the update of the rows and the upserted transactions.
module _ {id token : String} {inputs : List CreateTransactionInput} {db d : Database}
    (done : IsCompletion id token inputs db d) (w : IsWellFormed db) where
  abbrev pub completed_rows : List StatementRecord
  completed_rows =
      update (λ r. has_id id r && holds_claim db.now token r) (complete_row db.now) db.statements

  rows_updated : IsWellFormed (record db { statements = completed_rows })
  rows_updated =
      update-IsWellFormed (λ r. has_id id r && holds_claim db.now token r) (complete_row db.now)
        (λ r. refl) (λ r c h. ground arith) (λ r h. ground arith) db w

  pub completed_row : Option.map (λ r. r.status) (find_row id completed_rows) ≡ some completed
  completed_row =
      rw
        (
          find_row-update (λ r. has_id id r && holds_claim db.now token r) (complete_row db.now)
              (λ r. refl) id db.statements,
          done.found,
          find_row-has_id id db.statements done.found,
          done.held,
        )
        refl

  completion-IsWellFormed : IsWellFormed d
  completion-IsWellFormed = record {
    consistent = rw done.statements rows_updated.consistent;
    unique = rw done.statements rows_updated.unique;
    lines = rw done.transactions (upsert_all-UniqueLines id inputs db w.lines);
    owned =
        rw (done.statements, done.transactions)
          (upsert_all-All id (IsOwned completed_rows) (λ input t good o. o)
            (λ input s good. completed_row) inputs db rows_updated.owned);
    checked = rw done.transactions (
        upsert_all-All id (λ t. is_refused t.input ≡ false) (λ input t good o. good)
          (λ input s good. good) inputs db w.checked);
  }

complete-IsWellFormed :
    (id token : String) (inputs : List CreateTransactionInput) (db : Database)
    → IsWellFormed db
    → IsWellFormed (complete_transaction id token inputs db).1
complete-IsWellFormed id token inputs db w = after _ _ (complete-cases id token inputs db)
  where
    after :
        (o : Outcome (Unit {0})) (d : Database)
        → CompletionCases id token inputs db o d
        → IsWellFormed d
    after (throw x) d same = record {
      consistent = rw same.statements w.consistent;
      unique = rw same.statements w.unique;
      lines = rw same.transactions w.lines;
      owned = rw (same.statements, same.transactions) w.owned;
      checked = rw same.transactions w.checked;
    }
    after (ok _) d done = completion-IsWellFormed done w

-- Every action keeps the tables well formed.
pub apply-IsWellFormed : (a : Action) (db : Database) → IsWellFormed db → IsWellFormed (apply a db)
unfolding apply update_uploaded update_queued update_reset update_claim update_failed
apply-IsWellFormed (creates id key month content_type n) db w =
    insert-IsWellFormed _ db
      (record { token = refl; lease = refl; processed = refl; failure = refl }) w
apply-IsWellFormed (uploads k) db w =
    update-IsWellFormed _ _ (λ r. refl) (λ r c h. ground arith) (λ r h. ground arith) db w
apply-IsWellFormed (queues k) db w =
    update-IsWellFormed _ _ (λ r. refl) (λ r c h. ground arith) (λ r h. ground arith) db w
apply-IsWellFormed (resets k) db w =
    update-IsWellFormed _ _ (λ r. refl) (λ r c h. ground arith) (λ r h. ground arith) db w
apply-IsWellFormed (claims k token n) db w =
    update-IsWellFormed _ _ (λ r. refl) (λ r c h. ground arith) (λ r h. ground arith) db w
apply-IsWellFormed (fails k token code m) db w =
    update-IsWellFormed _ _ (λ r. refl) (λ r c h. ground arith) (λ r h. ground arith) db w
apply-IsWellFormed (completes k token inputs) db w = complete-IsWellFormed k token inputs db w
apply-IsWellFormed (elapses n) db w = record {
  consistent = w.consistent;
  unique = w.unique;
  lines = w.lines;
  owned = w.owned;
  checked = w.checked;
}

-- From well-formed tables, every history of every process leads to well-formed tables.
pub apply_all-IsWellFormed :
    (actions : List Action) (db : Database) → IsWellFormed db → IsWellFormed (apply_all actions db)
unfolding apply_all
apply_all-IsWellFormed [] db w = w
apply_all-IsWellFormed (a ∷ actions) db w =
    apply_all-IsWellFormed actions (apply a db) (apply-IsWellFormed a db w)
