-- ===== src/Database/Lifecycle.antt =====
-- The life of a statement in the tables: which status may follow which, what each status means for
-- the columns beside it, and that every action of every process keeps to it.
pub mod History
pub mod WellFormed
use mathlib.Core.Option
use ai_statement_analyzer.Base.{
  String, Bool, true, false, Option, none, some, List, [], ◌∷◌, ◌≡◌, refl, ◌⊎◌, inl, inr, arith,
  All, is_some, Bool-cases, Option-cases, ◌||◌, ◌&&◌,
}
use ai_statement_analyzer.Effects.{Exec}
use ai_statement_analyzer.Database.Types.{
  StatementStatus, upload_pending, uploaded, queued, processing, completed, failed, is_processing,
  is_completed, is_failed, StatementRecord, Database, is_upload_pending, CreateTransactionInput,
  is_uploaded, is_queued,
}
use ai_statement_analyzer.Database.Statements.{
  has_id, update_statements, insert_statement, update_claim, update_uploaded, update_queued,
  update_reset, update_failed, update_completed, holds_claim, complete_row,
}
use ai_statement_analyzer.Database.World.{
  Action, creates, uploads, queues, resets, claims, fails, completes, elapses, apply, apply_all,
}
use ai_statement_analyzer.Database.Rows.{
  find_row, UniqueIds, touched, find_row-update, find_row-append,
}
use ai_statement_analyzer.Database.Completion.{complete_transaction}
use ai_statement_analyzer.Failure.{Outcome, throw, ok}
use ai_statement_analyzer.Database.Completion.Cases.{CompletionCases, complete-cases}

-- The transitions of the status column that the program makes.
pub data Next : StatementStatus → StatementStatus → Type 0 where
  upload : Next upload_pending uploaded
  queue : Next uploaded queued
  reset : Next queued uploaded
  claim : Next queued processing
  reclaim : Next processing processing
  complete : Next processing completed
  fail : Next processing failed

-- The columns beside the status: a token and a lease exactly while it is processed, a completion
-- time exactly when it is completed, a failure code exactly when it has failed.
pub record IsConsistent (r : StatementRecord) : Type 0 where
  pub token : is_some r.processing_token ≡ is_processing r.status
  pub lease : is_some r.processing_lease_expires_at ≡ is_processing r.status
  pub processed : is_some r.processed_at ≡ is_completed r.status
  pub failure : is_some r.failure_code ≡ is_failed r.status

unfoldable pub status_of : String → Database → Option StatementStatus
status_of id db = Option.map (λ r. r.status) (find_row id db.statements)

-- An update of one row either leaves its status or makes a legal transition.
abbrev pub StepOrStay : StatementStatus → StatementStatus → Type 0
StepOrStay s t = (s ≡ t) ⊎ Next s t

module _ (test : StatementRecord → Bool) (set : StatementRecord → StatementRecord)
    (same : (r : StatementRecord) → (set r).id ≡ r.id)
    (legal : (r : StatementRecord) → test r ≡ true → Next r.status (set r).status) where
  touched-status : (r : StatementRecord) → StepOrStay r.status (touched test set r).status
  touched-status r = elim (Bool-cases (test r)) [
    | inl e ↦ rw e (inr (legal r e))
    | inr e ↦ rw e (inl refl)
  ]

  update-status :
      (id : String) (db : Database) {s : StatementStatus}
      → status_of id db ≡ some s
      → (t : StatementStatus) × (status_of id (update_statements test set db).1 ≡ some t)
        × StepOrStay s t
  unfolding status_of
  update-status id db {s} e = elim (Option-cases (find_row id db.statements)) [
    | inl absent ↦ absurd (ground (arith, absent))
    | inr (r, found) ↦ (
      (touched test set r).status,
      rw (find_row-update test set same id db.statements, found) refl,
      let at : s ≡ r.status = ground (arith, found) in rw at (touched-status r),
    )
  ]

module _ (s : StatementStatus) where
  from_upload_pending : is_upload_pending s ≡ true → Next s uploaded
  from_upload_pending h = grind (arith, upload)

  from_uploaded : is_uploaded s ≡ true → Next s queued
  from_uploaded h = grind (arith, queue)

  from_queued : is_queued s ≡ true → Next s uploaded
  from_queued h = grind (arith, reset)

  from_claimable : (is_queued s || is_processing s) ≡ true → Next s processing
  from_claimable h = grind (arith, claim, reclaim)

  from_processing : is_processing s ≡ true → Next s failed × Next s completed
  from_processing h = grind (arith, fail, complete)

insert-status :
    (new : StatementRecord) (id : String) (db : Database) {s : StatementStatus}
    → status_of id db ≡ some s
    → status_of id (insert_statement new db).1 ≡ some s
unfolding insert_statement status_of
insert-status new id db e = ground (arith, find_row-append id db.statements new)

complete-status :
    (id k token : String) (inputs : List CreateTransactionInput) (db : Database)
    {s : StatementStatus}
    → status_of id db ≡ some s
    → (t : StatementStatus) × (status_of id (complete_transaction k token inputs db).1 ≡ some t)
      × StepOrStay s t
unfolding status_of
complete-status id k token inputs db {s} e = after _ _ (complete-cases k token inputs db)
  where
    after :
        (o : Outcome (Unit {0})) (d : Database)
        → CompletionCases k token inputs db o d
        → (t : StatementStatus) × (status_of id d ≡ some t) × StepOrStay s t
    after (throw x) d same = (s, rw same.statements e, inl refl)
    after (ok _) d done =
        let (t, found, step) =
          update-status (λ r. has_id k r && holds_claim db.now token r) (complete_row db.now)
            (λ r. refl) (λ r h. (from_processing r.status (ground arith)).1) id db e in
        (t, rw done.statements found, step)

-- One action changes the status of a statement along a legal transition, if at all, and drops none.
pub apply-status :
    (a : Action) (id : String) (db : Database) {s : StatementStatus}
    → status_of id db ≡ some s
    → (t : StatementStatus) × (status_of id (apply a db) ≡ some t) × StepOrStay s t
unfolding apply status_of update_uploaded update_queued update_reset update_claim update_failed
apply-status (creates key_id key month content_type n) id db {s} e =
    (s, insert-status _ id db e, inl refl)
apply-status (uploads k) id db e =
    update-status _ _ (λ r. refl) (λ r h. from_upload_pending r.status (ground arith)) id db e
apply-status (queues k) id db e =
    update-status _ _ (λ r. refl) (λ r h. from_uploaded r.status (ground arith)) id db e
apply-status (resets k) id db e =
    update-status _ _ (λ r. refl) (λ r h. from_queued r.status (ground arith)) id db e
apply-status (claims k token n) id db e =
    update-status _ _ (λ r. refl) (λ r h. from_claimable r.status (ground arith)) id db e
apply-status (fails k token code m) id db e =
    update-status _ _ (λ r. refl) (λ r h. (from_processing r.status (ground arith)).0) id db e
apply-status (completes k token inputs) id db e = complete-status id k token inputs db e
apply-status (elapses n) id db {s} e = (s, e, inl refl)
