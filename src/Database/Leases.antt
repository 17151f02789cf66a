-- ===== src/Database/Leases.antt =====
-- The processing lease: while it runs, the row is its holder's, whatever the other processes do.
pub mod Exclusion
pub mod Holder
pub mod Progress
use ai_statement_analyzer.Base.{
  ℕ, zero, suc, ◌+◌, ◌-◌, ◌*◌, ◌/◌, ◌%◌, ◌≤◌, ◌<◌, min, String, ◌≡◌, refl, sym, ap, ◌∙◌, ◌≢◌, ◌↔◌,
  ◌⊎◌, inl, inr, Bool, true, false, ◌&&◌, ◌||◌, not, Option, none, some, List, [], ◌∷◌, ◌++◌, map,
  arith, str_eq, eq_iff, eq_refl, ltb, leb, ◌==◌, if◌then◌else◌, is_some, or_else, Bool-cases,
  Option-cases, length, head?, filter, all, any, find, All,
}
use ai_statement_analyzer.Database.Types.{
  processing, StatementRecord, Database, CreateTransactionInput,
}
use ai_statement_analyzer.Database.Statements.{
  has_id, is_claimable, claim_row, update_statements, update_claim, insert_statement,
  update_uploaded, update_queued, update_reset, update_failed, lease_expired,
}
use ai_statement_analyzer.Database.World.{
  Action, creates, uploads, queues, resets, claims, fails, completes, elapses, apply, apply_all,
}
use ai_statement_analyzer.Database.Lifecycle.History.{is_terminal}
use ai_statement_analyzer.Database.Rows.{find_row, touched, find_row-append, find_row-update}
use ai_statement_analyzer.Failure.{Outcome, throw, ok}
use ai_statement_analyzer.Database.Table.{update}
use ai_statement_analyzer.Database.Completion.Cases.{CompletionCases, complete-cases}
use ai_statement_analyzer.Database.Completion.{complete_transaction}

-- The row is processed under this token and lease, or its processing has ended for good.
abbrev pub IsHeld : String → ℕ → StatementRecord → Type 0
IsHeld token expires r =
    ((r.status ≡ processing)
      × (r.processing_token ≡ some token)
      × (r.processing_lease_expires_at ≡ some expires))
    ⊎ (is_terminal r.status ≡ true)

abbrev pub HeldRow : String → String → ℕ → List StatementRecord → Type 0
HeldRow id token expires rows =
    (r : StatementRecord) × (find_row id rows ≡ some r) × IsHeld token expires r

module _ (id token : String) (expires : ℕ) where
  HeldRow-update :
      (test : StatementRecord → Bool) (set : StatementRecord → StatementRecord)
      → ((r : StatementRecord) → (set r).id ≡ r.id)
      → ((r : StatementRecord) → IsHeld token expires r → IsHeld token expires (touched test set r))
      → (rows : List StatementRecord) → HeldRow id token expires rows
      → HeldRow id token expires (update test set rows)
  HeldRow-update test set same keep rows (r, found, held) =
      (touched test set r, rw (find_row-update test set same id rows, found) refl, keep r held)

  HeldRow-insert :
      (new : StatementRecord) (db : Database)
      → HeldRow id token expires db.statements
      → HeldRow id token expires (insert_statement new db).1.statements
  unfolding insert_statement
  HeldRow-insert new db (r, found, held) =
      (r, ground (arith, found, find_row-append id db.statements new), held)

  HeldRow-complete :
      (k t : String) (inputs : List CreateTransactionInput) (db : Database)
      → HeldRow id token expires db.statements
      → HeldRow id token expires (complete_transaction k t inputs db).1.statements
  HeldRow-complete k t inputs db held = after _ _ (complete-cases k t inputs db)
    where
      after :
          (o : Outcome (Unit {0})) (d : Database)
          → CompletionCases k t inputs db o d
          → HeldRow id token expires d.statements
      after (throw x) d same = rw same.statements held
      after (ok _) d done =
          rw done.statements
            (HeldRow-update _ _ (λ r. refl) (λ r h. ground arith) db.statements held)

  apply-HeldRow :
      (a : Action) (db : Database)
      → db.now ≤ expires
      → HeldRow id token expires db.statements
      → HeldRow id token expires (apply a db).statements
  unfolding apply update_uploaded update_queued update_reset update_claim update_failed
  apply-HeldRow (creates k key month content_type n) db early h = HeldRow-insert _ db h
  apply-HeldRow (uploads k) db early h =
      HeldRow-update _ _ (λ r. refl) (λ r held. ground arith) db.statements h
  apply-HeldRow (queues k) db early h =
      HeldRow-update _ _ (λ r. refl) (λ r held. ground arith) db.statements h
  apply-HeldRow (resets k) db early h =
      HeldRow-update _ _ (λ r. refl) (λ r held. ground arith) db.statements h
  apply-HeldRow (claims k t n) db early h =
      HeldRow-update _ _ (λ r. refl) (λ r held. ground arith) db.statements h
  apply-HeldRow (fails k t code m) db early h =
      HeldRow-update _ _ (λ r. refl) (λ r held. ground arith) db.statements h
  apply-HeldRow (completes k t inputs) db early h = HeldRow-complete k t inputs db h
  apply-HeldRow (elapses n) db early h = h

apply-now : (a : Action) (db : Database) → db.now ≤ (apply a db).now
unfolding apply update_uploaded update_queued update_reset update_claim update_failed
    insert_statement
apply-now (creates k key month content_type n) db = ground arith
apply-now (completes k t inputs) db = after _ _ (complete-cases k t inputs db)
  where
    after :
        (o : Outcome (Unit {0})) (d : Database) → CompletionCases k t inputs db o d → db.now ≤ d.now
    after (throw x) d same = omega (arith, same.now)
    after (ok _) d done = omega (arith, done.now)
apply-now _ db = omega arith

apply_all-now : (actions : List Action) (db : Database) → db.now ≤ (apply_all actions db).now
unfolding apply_all
apply_all-now [] db = omega arith
apply_all-now (a ∷ actions) db = omega (arith, apply-now a db, apply_all-now actions (apply a db))

apply_all-HeldRow :
    (id token : String) (expires : ℕ) (actions : List Action) (db : Database)
    → (apply_all actions db).now ≤ expires
    → HeldRow id token expires db.statements
    → HeldRow id token expires (apply_all actions db).statements
unfolding apply_all
apply_all-HeldRow id token expires [] db early h = h
apply_all-HeldRow id token expires (a ∷ actions) db early h =
    apply_all-HeldRow id token expires actions (apply a db) early (
      apply-HeldRow id token expires a db
        (omega (arith, apply-now a db, apply_all-now actions (apply a db))) h)
