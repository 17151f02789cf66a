-- ===== src/Worker/AnalyzeWorker/Deletion.antt =====
-- The worker calls for the deletion of a message only behind a handler that did not answer RETRY.
use ai_statement_analyzer.Base.{
  ℕ, ◌≡◌, refl, ◌≢◌, inl, inr, Bool, true, false, Option, none, some, List, [], ◌∷◌, arith,
  Bool-cases, if-both, All,
}
use ai_statement_analyzer.Failure.{Outcome, ok, throw}
use ai_statement_analyzer.Queue.{ReceivedAnalyzeJob}
use ai_statement_analyzer.Worker.JobHandler.{AnalyzeJobDisposition, ack, retry}
use ai_statement_analyzer.Worker.JobError.{instance_of}
use ai_statement_analyzer.Worker.Rounds.{
  is_invalid_job_message, Moment, quiet, shutdown_within, deadline_passes, Round,
  ShutdownOperationResult, completed_with, failed_with, timed_out, WorkerState,
  AnalyzeWorkerOptions, write, shutdown_if, request_shutdown, run_with_shutdown_timeout, result_of,
  initial_receive_backoff_ms,
}
use ai_statement_analyzer.Worker.AnalyzeWorker.{
  after_delete, delete_job, after_handler, process_job, after_receive, receive, run_rounds, run,
  started_line, received_line,
}

module _ {S : Type 0} (worker : AnalyzeWorkerOptions S) (Keeps : S → Type 0)
    (Settled : ReceivedAnalyzeJob → S → Type 0) where
  -- A deletion keeps the invariant where the job is settled, all other calls keep it always, and the
  -- handler's answer other than RETRY stands on a settled job.
  pub record DeletesSettled : Type 0 where
    pub receives : (s : S) → Keeps s → Keeps (worker.queue.receive_one s).1
    pub handles : (job : ReceivedAnalyzeJob) (s : S) → Keeps s → Keeps (worker.handle_job job s).1
    pub answers :
        (job : ReceivedAnalyzeJob) (s : S) (d : Option AnalyzeJobDisposition)
        → (worker.handle_job job s).0 ≡ ok d
        → d ≢ some retry
        → Settled job (worker.handle_job job s).1
    pub deletes :
        (job : ReceivedAnalyzeJob) (s : S)
        → Keeps s
        → Settled job s
        → Keeps (worker.queue.delete_message job.receipt_handle s).1

  -- A handling or a deletion that is given up.
  abbrev pub KeepsLeft : (S → Type 0) → Moment S → Type 0
  KeepsLeft P (deadline_passes leaves) = (s : S) → P s → Keeps (leaves s)
  KeepsLeft P _ = Unit

  pub record IsRound (round : Round S) : Type 0 where
    pub handling : KeepsLeft Keeps round.handling
    pub deleting :
        (job : ReceivedAnalyzeJob) → KeepsLeft (λ s. Keeps s × Settled job s) round.deleting

module _ {S : Type 0} {worker : AnalyzeWorkerOptions S} {Keeps : S → Type 0}
    {Settled : ReceivedAnalyzeJob → S → Type 0} (laws : DeletesSettled worker Keeps Settled) where
  request_shutdown-world : (s : WorkerState S) → (request_shutdown s).world ≡ s.world
  unfolding request_shutdown
  request_shutdown-world s = ground arith

  shutdown_if-world : (b : Bool) (s : WorkerState S) → (shutdown_if b s).world ≡ s.world
  shutdown_if-world true s = request_shutdown-world s
  shutdown_if-world false s = refl

  after_delete-world :
      (job : ReceivedAnalyzeJob) (r : ShutdownOperationResult (Unit {0})) (s : WorkerState S)
      → (after_delete worker job (r, s)).world ≡ s.world
  unfolding after_delete
  after_delete-world job (completed_with _) s = refl
  after_delete-world job (failed_with e) s = refl
  after_delete-world job timed_out s = refl

  delete_job-Keeps :
      (moment : Moment S) (job : ReceivedAnalyzeJob) (s : WorkerState S)
      → KeepsLeft worker Keeps Settled (λ x. Keeps x × Settled job x) moment
      → Keeps s.world
      → Settled job s.world
      → Keeps (delete_job worker moment job s).world
  unfolding delete_job run_with_shutdown_timeout
  delete_job-Keeps quiet job s m k d = rw after_delete-world (laws.deletes job s.world k d)
  delete_job-Keeps shutdown_within job s m k d =
      rw (after_delete-world, request_shutdown-world) (laws.deletes job s.world k d)
  delete_job-Keeps (deadline_passes leaves) job s m k d =
      rw (after_delete-world, request_shutdown-world) (m s.world (k, d))

  after_handler-Keeps :
      (moment : Moment S) (job : ReceivedAnalyzeJob)
      (r : ShutdownOperationResult (Option AnalyzeJobDisposition)) (s : WorkerState S)
      → KeepsLeft worker Keeps Settled (λ x. Keeps x × Settled job x) moment
      → Keeps s.world
      → ((d : Option AnalyzeJobDisposition)
          → r ≡ completed_with d
          → d ≢ some retry
          → Settled job s.world)
      → Keeps (after_handler worker moment job (r, s)).world
  unfolding after_handler
  after_handler-Keeps moment job (failed_with e) s m k d = k
  after_handler-Keeps moment job timed_out s m k d = k
  after_handler-Keeps moment job (completed_with (some retry)) s m k d = k
  after_handler-Keeps moment job (completed_with (some ack)) s m k d =
      delete_job-Keeps moment job s m k (d (some ack) refl (λ e. absurd (ground (arith, e))))
  after_handler-Keeps moment job (completed_with none) s m k d =
      delete_job-Keeps moment job s m k (d none refl (λ e. absurd (ground (arith, e))))

  result_of-answer :
      (o : Outcome (Option AnalyzeJobDisposition)) (d : Option AnalyzeJobDisposition)
      → result_of o ≡ completed_with d
      → o ≡ ok d
  result_of-answer (ok a) d e = ground (arith, e)
  result_of-answer (throw x) d e = absurd (ground (arith, e))

  process_job-Keeps :
      (round : Round S) (job : ReceivedAnalyzeJob) (s : WorkerState S)
      → IsRound worker Keeps Settled round
      → Keeps s.world
      → Keeps (process_job worker round job s).world
  unfolding process_job run_with_shutdown_timeout
  process_job-Keeps round job s r k = by_moment round.handling r.handling
    where
      by_moment :
          (m : Moment S)
          → KeepsLeft worker Keeps Settled Keeps m
          → Keeps
              (after_handler worker round.deleting job (
                run_with_shutdown_timeout m
                  (worker.handle_job job)
                  (write (started_line job) s))).world
      by_moment quiet u =
          after_handler-Keeps round.deleting job _ _ (r.deleting job) (laws.handles job s.world k)
            (λ d e n. laws.answers job s.world d (result_of-answer _ d e) n)
      by_moment shutdown_within u =
          after_handler-Keeps round.deleting job _ _ (r.deleting job)
            (rw request_shutdown-world (laws.handles job s.world k))
            (λ d e n.
              rw request_shutdown-world (laws.answers job s.world d (result_of-answer _ d e) n))
      by_moment (deadline_passes leaves) u =
          after_handler-Keeps round.deleting job _ _ (r.deleting job)
            (rw request_shutdown-world (u s.world k)) (λ d e n. absurd (ground (arith, e)))

  after_receive-Keeps :
      (round : Round S) (backoff : ℕ) (o : Outcome (Option ReceivedAnalyzeJob)) (s : WorkerState S)
      → IsRound worker Keeps Settled round
      → Keeps s.world
      → Keeps (after_receive worker round backoff o s).1.world
  unfolding after_receive
  after_receive-Keeps round backoff (ok none) s r k = k
  after_receive-Keeps round backoff (ok (some job)) s r k =
      process_job-Keeps round job (write (received_line worker job) s) r k
  after_receive-Keeps round backoff (throw e) s r k = elim (Bool-cases s.shutdown_requested) [
    | inl a ↦ rw a k
    | inr a ↦ elim (Bool-cases (instance_of is_invalid_job_message e)) [
      | inl b ↦ rw (a, b) k
      | inr b ↦ rw (a, b, shutdown_if-world) k
    ]
  ]

  run_rounds-Keeps :
      (rounds : List (Round S)) (backoff : ℕ) (s : WorkerState S)
      → All (IsRound worker Keeps Settled) rounds
      → Keeps s.world
      → Keeps (run_rounds worker rounds backoff s).world
  unfolding run_rounds
  run_rounds-Keeps [] backoff s r k =
      if-both (λ (x : WorkerState S). Keeps x.world) s.shutdown_requested k k
  run_rounds-Keeps (round ∷ rounds) backoff s (r, rs) k =
      let next = receive worker round backoff s in
      if-both (λ (x : WorkerState S). Keeps x.world) s.shutdown_requested k
        (run_rounds-Keeps rounds next.0 next.1 rs (
          after_receive-Keeps round backoff _ _ r (rw shutdown_if-world (laws.receives s.world k))))

  -- However long the worker runs, and wherever the shutdown and its deadline fall: an invariant that
  -- only the deletion of the message of an unsettled job would break holds throughout.
  pub run-Keeps :
      (rounds : List (Round S)) (s : WorkerState S)
      → All (IsRound worker Keeps Settled) rounds
      → Keeps s.world
      → Keeps (run worker rounds s).world
  unfolding run
  run-Keeps rounds s r k = run_rounds-Keeps rounds initial_receive_backoff_ms _ r k
