-- ===== src/Worker/Settlement.antt =====
-- The handler over the repository: a message is deleted only when its statement is done.
use mathlib.Core.Option.{some-injective}
use ai_statement_analyzer.Base.{
  ℕ, String, ◌≡◌, refl, ◌≢◌, ◌⊎◌, inl, inr, Bool, true, ◌&&◌, Option, none, some, List, [], ◌∷◌,
  arith, eq_iff, ◌==◌, Bool-cases, length, any,
}
use ai_statement_analyzer.Failure.{ok}
use ai_statement_analyzer.Effects.{Exec, Traced, pure}
use ai_statement_analyzer.Effects.Laws.{bind-ok}
use ai_statement_analyzer.Database.Types.{
  StatementRecord, Database, CreateTransactionInput, StatementFailureCode, ProcessingClaim,
  failure_code_text,
}
use ai_statement_analyzer.Database.World.{World, query}
use ai_statement_analyzer.Database.Repository.{
  claim_for_processing, claim_with, first_claim, find_by_id, mark_failed,
  save_transactions_and_complete,
}
use ai_statement_analyzer.Database.Lifecycle.History.{is_terminal}
use ai_statement_analyzer.Worker.JobHandler.{
  ProcessingStatementStore, AnalyzeJobHandlerDependencies, ack, handle_job,
}
use ai_statement_analyzer.Worker.Acknowledgement.{SettlingStores, handle_job-AckSettles}
use ai_statement_analyzer.Database.Table.{returning, update}
use ai_statement_analyzer.Database.Rows.{find_row, find_row-update, find_row-has_id}
use ai_statement_analyzer.Database.Statements.{
  has_id, select_statement, update_claim, update_failed, is_claimable, claim_row, holds_claim,
  complete_row, fail_row,
}
use ai_statement_analyzer.Database.Queries.{query-Answered}
use ai_statement_analyzer.Database.Completion.{complete_transaction}
use ai_statement_analyzer.Database.Completion.Cases.{complete-IsCompletion, IsCompletion}
use ai_statement_analyzer.Storage.{StatementObjectStore}
use ai_statement_analyzer.Ai.BedrockOcr.{OcrImageInput, OcrAnalysisResult}
use ai_statement_analyzer.Base.Number.{Number}
use ai_statement_analyzer.Queue.{ReceivedAnalyzeJob}

abbrev pub repository_store : ProcessingStatementStore World
repository_store = record {
  find_by_id = find_by_id;
  claim_for_processing = claim_for_processing;
  save_transactions_and_complete = save_transactions_and_complete;
  mark_failed = mark_failed;
}

abbrev pub is_done_row : String → StatementRecord → Bool
is_done_row id r = has_id id r && is_terminal r.status

-- The statement is gone, or its row is COMPLETED or FAILED.
abbrev pub IsSettled : String → World → Type 0
IsSettled id w =
    (find_row id w.database.statements ≡ none) ⊎ (any (is_done_row id) w.database.statements ≡ true)

module _ (id : String) where
  any-find_row :
      (rows : List StatementRecord) (r : StatementRecord)
      → find_row id rows ≡ some r
      → is_terminal r.status ≡ true
      → any (is_done_row id) rows ≡ true
  unfolding find_row
  any-find_row [] r found t = cc
  any-find_row (x ∷ rows) r found t = elim (Bool-cases (has_id id x)) [
    | inl h ↦ let same : x ≡ r = ground (arith, h) in rw (h, same, t) refl
    | inr h ↦ ground (arith, any-find_row rows r, h)
  ]

  returning-id :
      (test : StatementRecord → Bool) (set : StatementRecord → StatementRecord)
      → ((r : StatementRecord) → (set r).id ≡ r.id)
      → (rows : List StatementRecord) {r : StatementRecord} {rest : List StatementRecord}
      → returning (λ r. has_id id r && test r) set rows ≡ r ∷ rest
      → r.id ≡ id
  returning-id test set same [] h = cc
  returning-id test set same (x ∷ rows) {r} {rest} h = elim (Bool-cases (has_id id x && test x)) [
    | inl k ↦
        let first : set x ≡ r = ground (arith, k) in
        rw (← first, same x) ((eq_iff x.id id).0 (ground (arith, k)))
    | inr k ↦ returning-id test set same rows {r = r} {rest = rest} (ground (arith, k))
  ]

  module _ (test : StatementRecord → Bool) (set : StatementRecord → StatementRecord)
      (same : (r : StatementRecord) → (set r).id ≡ r.id)
      (ends : (r : StatementRecord) → is_terminal (set r).status ≡ true) where
    any-update :
        (rows : List StatementRecord)
        → returning (λ r. has_id id r && test r) set rows ≢ []
        → any (is_done_row id) (update (λ r. has_id id r && test r) set rows) ≡ true
    any-update [] some' = absurd (some' refl)
    any-update (r ∷ rows) some' = elim (Bool-cases (has_id id r)) [
      | inr h ↦ ground (arith, h, any-update rows)
      | inl h ↦ elim (Bool-cases (test r)) [
        | inl k ↦ rw (h, k, same r, h, ends r) refl
        | inr k ↦ ground (arith, h, k, any-update rows)
      ]
    ]

  claim_with-id :
      (token : String) (seconds : Option ℕ) (w : World) (c : ProcessingClaim)
      → (claim_with id token seconds w).0 ≡ ok (some c)
      → c.statement_id ≡ id
  unfolding claim_with update_claim
  claim_with-id token none w c h = cc
  claim_with-id token (some seconds) w c h =
      let b =
        bind-ok (query (update_claim id token seconds)) (λ rows. pure (first_claim rows)) w h in
      let q = query-Answered (update_claim id token seconds) w b.first in
      first_row b.value c q.before q.answer (ground (arith, b.rest))
    where
      first_row :
          (rows : List StatementRecord) (c : ProcessingClaim) (db : Database)
          → (update_claim id token seconds db).0 ≡ ok rows
          → first_claim rows ≡ some c
          → c.statement_id ≡ id
      first_row [] c db e f = cc
      first_row (r ∷ rest) c db e f =
          let known : r.id ≡ id =
            returning-id (is_claimable db.now) (claim_row db.now token seconds) (λ r. refl)
              db.statements {r = r} {rest = rest} (ground arith) in
          ground arith

  find-settles :
      (o : Option StatementRecord) (w : World)
      → (find_by_id id w).0 ≡ ok o
      → ((r : StatementRecord) → o ≡ some r → is_terminal r.status ≡ true)
      → IsSettled id (find_by_id id w).1
  unfolding find_by_id select_statement find_row
  find-settles o w h t =
      let q = query-Answered (select_statement id) w h in rw q.after (found o q.before q.answer t)
    where
      found :
          (o : Option StatementRecord) (db : Database)
          → (select_statement id db).0 ≡ ok o
          → ((r : StatementRecord) → o ≡ some r → is_terminal r.status ≡ true)
          → IsSettled id (record { database = (select_statement id db).1; turns = [] })
      found none db e t = inl (ground (arith, e))
      found (some r) db e t = inr (any-find_row db.statements r (ground (arith, e)) (t r refl))

  completed_row :
      {token : String} {inputs : List CreateTransactionInput} {db d : Database}
      → IsCompletion id token inputs db d
      → any (is_done_row id) (
          update
            (λ r. has_id id r && holds_claim db.now token r)
            (complete_row db.now)
            db.statements)
        ≡ true
  completed_row {token} {inputs} {db} done =
      any-find_row _ (complete_row db.now done.row)
        (rw
          (
            find_row-update (λ r. has_id id r && holds_claim db.now token r) (complete_row db.now)
                (λ r. refl) id db.statements,
            done.found,
            find_row-has_id id db.statements done.found,
            done.held,
          )
          refl)
        refl

  save-settles :
      (token : String) (inputs : List CreateTransactionInput) (w : World)
      → (save_transactions_and_complete id token inputs w).0 ≡ ok tt
      → IsSettled id (save_transactions_and_complete id token inputs w).1
  unfolding save_transactions_and_complete
  save-settles token inputs w h =
      let q = query-Answered (complete_transaction id token inputs) w h in
      let done = complete-IsCompletion id token inputs q.before q.answer in
      inr (rw (q.after, done.statements) (completed_row done))

  failed_row :
      (token : String) (code : StatementFailureCode) (message : String)
      (rows : List StatementRecord) (db : Database)
      → (update_failed id token code message db).0 ≡ ok rows
      → length rows == 1 ≡ true
      → any (is_done_row id) (update_failed id token code message db).1.statements ≡ true
  unfolding update_failed
  failed_row token code message rows db e one =
      any-update (holds_claim db.now token) (fail_row db.now (failure_code_text code) message)
        (λ r. refl) (λ r. refl) db.statements (λ empty. absurd (ground (arith, e, empty)))

  mark_failed-settles :
      (token : String) (code : StatementFailureCode) (message : String) (w : World)
      → (mark_failed id token code message w).0 ≡ ok true
      → IsSettled id (mark_failed id token code message w).1
  unfolding mark_failed
  mark_failed-settles token code message w h =
      let b =
        bind-ok (query (update_failed id token code message)) (λ rows. pure (length rows == 1)) w
          h in
      let q = query-Answered (update_failed id token code message) w b.first in
      inr (
        rw (b.state, q.after)
          (failed_row token code message b.value q.before q.answer (ground (arith, b.rest))))

-- The handler's dependencies as `src/worker.ts` puts them together, with any object store and any
-- analyzer.
abbrev pub over_repository :
    StatementObjectStore World
    → (OcrImageInput → Exec World OcrAnalysisResult)
    → Option Number
    → AnalyzeJobHandlerDependencies World
over_repository object_store analyze lease_seconds = record {
  statements = repository_store;
  object_store = object_store;
  analyze = analyze;
  lease_seconds = lease_seconds;
}

module _ (objects : StatementObjectStore World)
    (analyze : OcrImageInput → Exec World OcrAnalysisResult) (lease : Option Number) where
  repository-SettlingStores :
      (id : String) → SettlingStores (over_repository objects analyze lease) id (IsSettled id)
  unfolding claim_for_processing
  repository-SettlingStores id = record {
    of_claim = λ token l s c h. claim_with-id id token _ s c h;
    of_absent = λ s h. find-settles id none s h (λ r e. absurd (ground (arith, e)));
    of_terminal = λ s r h t.
        find-settles id (some r) s h
          (λ x e. let same : r ≡ x = some-injective _ _ e in rw (← same) t);
    of_save = λ token inputs s h. save-settles id token inputs s h;
    of_mark_failed = λ token code message s h. mark_failed-settles id token code message s h;
  }

  -- Whatever the object store and the analyzer do, whatever the other processes do between the
  -- queries and whichever queries fail: when the handler over the repository answers ACK, the
  -- statement is either gone or stands in the tables as COMPLETED or FAILED.
  pub handle_job-IsSettled :
      (job : ReceivedAnalyzeJob) (token : String) (t : Traced World)
      → (handle_job (over_repository objects analyze lease) job token t).0 ≡ ok ack
      → IsSettled job.statement_id
          (handle_job (over_repository objects analyze lease) job token t).1.world
  handle_job-IsSettled job token t =
      handle_job-AckSettles (over_repository objects analyze lease) job (IsSettled job.statement_id)
        (repository-SettlingStores job.statement_id) token t
