-- ===== src/Worker/AnalyzeWorker/Backoff.antt =====
-- The waits of the worker between failing receives.
use ai_statement_analyzer.Base.{
  ℕ, ◌≤◌, ◌≡◌, refl, ◌∙◌, inl, inr, Bool, true, false, Option, none, some, List, [], ◌∷◌, arith,
  Bool-cases, if-both, All,
}
use ai_statement_analyzer.Failure.{Outcome, ok, throw}
use ai_statement_analyzer.Queue.{ReceivedAnalyzeJob}
use ai_statement_analyzer.Worker.JobError.{instance_of}
use ai_statement_analyzer.Worker.JobHandler.{AnalyzeJobDisposition, ack, retry}
use ai_statement_analyzer.Worker.Rounds.{
  is_invalid_job_message, Moment, quiet, shutdown_within, deadline_passes, Round,
  ShutdownOperationResult, completed_with, failed_with, timed_out, WorkerState,
  AnalyzeWorkerOptions, write, shutdown_if, request_shutdown, run_with_shutdown_timeout,
  initial_receive_backoff_ms, max_receive_backoff_ms,
}
use ai_statement_analyzer.Worker.AnalyzeWorker.{
  after_delete, delete_job, after_handler, process_job, after_receive, receive, run_rounds, run,
  next_backoff, started_line,
}

abbrev pub IsBackoff : ℕ → Type 0
IsBackoff n = (initial_receive_backoff_ms ≤ n) × (n ≤ max_receive_backoff_ms)

module _ {S : Type 0} (worker : AnalyzeWorkerOptions S) where
  request_shutdown-waits : (s : WorkerState S) → (request_shutdown s).waits ≡ s.waits
  unfolding request_shutdown
  request_shutdown-waits s = ground arith

  shutdown_if-waits : (b : Bool) (s : WorkerState S) → (shutdown_if b s).waits ≡ s.waits
  shutdown_if-waits true s = request_shutdown-waits s
  shutdown_if-waits false s = refl

  after_delete-waits :
      (job : ReceivedAnalyzeJob) (r : ShutdownOperationResult (Unit {0})) (s : WorkerState S)
      → (after_delete worker job (r, s)).waits ≡ s.waits
  unfolding after_delete
  after_delete-waits job (completed_with _) s = refl
  after_delete-waits job (failed_with e) s = refl
  after_delete-waits job timed_out s = refl

  delete_job-waits :
      (moment : Moment S) (job : ReceivedAnalyzeJob) (s : WorkerState S)
      → (delete_job worker moment job s).waits ≡ s.waits
  unfolding delete_job run_with_shutdown_timeout
  delete_job-waits quiet job s = after_delete-waits job _ _
  delete_job-waits shutdown_within job s = after_delete-waits job _ _ ∙ request_shutdown-waits _
  delete_job-waits (deadline_passes leaves) job s =
      after_delete-waits job _ _ ∙ request_shutdown-waits _

  after_handler-waits :
      (moment : Moment S) (job : ReceivedAnalyzeJob)
      (r : ShutdownOperationResult (Option AnalyzeJobDisposition)) (s : WorkerState S)
      → (after_handler worker moment job (r, s)).waits ≡ s.waits
  unfolding after_handler
  after_handler-waits moment job (failed_with e) s = refl
  after_handler-waits moment job timed_out s = refl
  after_handler-waits moment job (completed_with (some retry)) s = refl
  after_handler-waits moment job (completed_with (some ack)) s = delete_job-waits moment job s
  after_handler-waits moment job (completed_with none) s = delete_job-waits moment job s

  process_job-waits :
      (round : Round S) (job : ReceivedAnalyzeJob) (s : WorkerState S)
      → (process_job worker round job s).waits ≡ s.waits
  unfolding process_job run_with_shutdown_timeout
  process_job-waits round job s = by_moment round.handling
    where
      by_moment :
          (m : Moment S)
          → (after_handler worker round.deleting job (
              run_with_shutdown_timeout m
                (worker.handle_job job)
                (write (started_line job) s))).waits
            ≡ s.waits
      by_moment quiet = after_handler-waits round.deleting job _ _
      by_moment shutdown_within =
          after_handler-waits round.deleting job _ _ ∙ request_shutdown-waits _
      by_moment (deadline_passes leaves) =
          after_handler-waits round.deleting job _ _ ∙ request_shutdown-waits _

  next-IsBackoff : (n : ℕ) → IsBackoff n → IsBackoff (next_backoff worker n)
  next-IsBackoff n h = ground arith

  after_receive-waits :
      (round : Round S) (backoff : ℕ) (o : Outcome (Option ReceivedAnalyzeJob)) (s : WorkerState S)
      → IsBackoff backoff
      → All IsBackoff s.waits
      → IsBackoff (after_receive worker round backoff o s).0
        × All IsBackoff (after_receive worker round backoff o s).1.waits
  unfolding after_receive
  after_receive-waits round backoff (ok none) s b w = (ground arith, w)
  after_receive-waits round backoff (ok (some job)) s b w = (ground arith, rw process_job-waits w)
  after_receive-waits round backoff (throw e) s b w = elim (Bool-cases s.shutdown_requested) [
    | inl x ↦ rw x (b, w)
    | inr x ↦ elim (Bool-cases (instance_of is_invalid_job_message e)) [
      | inl y ↦ rw (x, y) (b, w)
      | inr y ↦ rw (x, y, shutdown_if-waits) (next-IsBackoff backoff b, (b, w))
    ]
  ]

  run_rounds-waits :
      (rounds : List (Round S)) (backoff : ℕ) (s : WorkerState S)
      → IsBackoff backoff
      → All IsBackoff s.waits
      → All IsBackoff (run_rounds worker rounds backoff s).waits
  unfolding run_rounds
  run_rounds-waits [] backoff s b w =
      if-both (λ (x : WorkerState S). All IsBackoff x.waits) s.shutdown_requested w w
  run_rounds-waits (round ∷ rounds) backoff s b w =
      let next = receive worker round backoff s in
      let (b', w') = after_receive-waits round backoff _ _ b (rw shutdown_if-waits w) in
      if-both (λ (x : WorkerState S). All IsBackoff x.waits) s.shutdown_requested w
        (run_rounds-waits rounds next.0 next.1 b' w')

  -- Every wait of a worker that starts without one is between one second and thirty.
  pub run-IsBackoff :
      (rounds : List (Round S)) (s : WorkerState S)
      → s.waits ≡ []
      → All IsBackoff (run worker rounds s).waits
  unfolding run
  run-IsBackoff rounds s e =
      run_rounds-waits rounds initial_receive_backoff_ms _ (ground arith) (rw e tt)
