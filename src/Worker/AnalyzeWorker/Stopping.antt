-- ===== src/Worker/AnalyzeWorker/Stopping.antt =====
-- A worker whose shutdown is requested stops: no receive comes behind the one that was running.
use ai_statement_analyzer.Base.{
  ℕ, ◌≡◌, refl, sym, ap, ◌∙◌, inl, inr, Bool, true, false, Option, none, some, List, [], ◌∷◌, ◌++◌,
  if◌then◌else◌, Bool-cases,
}
use ai_statement_analyzer.Worker.Rounds.{
  quiet, shutdown_within, deadline_passes, completed_with, failed_with, timed_out,
}
use ai_statement_analyzer.Worker.JobHandler.{ack, retry}
use ai_statement_analyzer.Worker.Rounds.{
  AnalyzeWorkerOptions, request_shutdown, run_with_shutdown_timeout, WorkerState, Round, Moment,
  shutdown_if, ShutdownOperationResult, completed_with, deadline_passes, failed_with,
}
use ai_statement_analyzer.Worker.AnalyzeWorker.{
  after_delete, run, after_receive, after_handler, run_rounds, process_job, receive, delete_job,
  stop,
}
use ai_statement_analyzer.Queue.{ReceivedAnalyzeJob}
use ai_statement_analyzer.Failure.{Outcome, ok, throw}
use ai_statement_analyzer.Effects.{Exec}
use ai_statement_analyzer.Worker.JobHandler.{AnalyzeJobDisposition}

module _ {S : Type 0} (worker : AnalyzeWorkerOptions S) where
  abbrev Requested : WorkerState S → Type 0
  Requested s = s.shutdown_requested ≡ true

  request_shutdown-Requested : (s : WorkerState S) → Requested (request_shutdown s)
  unfolding request_shutdown
  request_shutdown-Requested s = elim (Bool-cases s.shutdown_requested) [
    | inl y ↦ rw y refl
    | inr n ↦ rw n refl
  ]

  shutdown_if-Requested : (b : Bool) (s : WorkerState S) → Requested s → Requested (shutdown_if b s)
  shutdown_if-Requested false s h = h
  shutdown_if-Requested true s h = request_shutdown-Requested s

  timeout-Requested :
      {A : Type 0} (moment : Moment S) (operation : Exec S A) (s : WorkerState S)
      → Requested s
      → Requested (run_with_shutdown_timeout moment operation s).1
  unfolding run_with_shutdown_timeout
  timeout-Requested quiet operation s h = h
  timeout-Requested shutdown_within operation s h = request_shutdown-Requested _
  timeout-Requested (deadline_passes leaves) operation s h = request_shutdown-Requested _

  after_delete-Requested :
      (job : ReceivedAnalyzeJob) (r : ShutdownOperationResult (Unit {0})) (s : WorkerState S)
      → Requested s
      → Requested (after_delete worker job (r, s))
  unfolding after_delete
  after_delete-Requested job (completed_with _) s h = h
  after_delete-Requested job (failed_with e) s h = h
  after_delete-Requested job timed_out s h = h

  after_handler-Requested :
      (deleting : Moment S) (job : ReceivedAnalyzeJob)
      (r : ShutdownOperationResult (Option AnalyzeJobDisposition)) (s : WorkerState S)
      → Requested s
      → Requested (after_handler worker deleting job (r, s))
  unfolding after_handler delete_job
  after_handler-Requested deleting job (failed_with e) s h = h
  after_handler-Requested deleting job timed_out s h = h
  after_handler-Requested deleting job (completed_with (some retry)) s h = h
  after_handler-Requested deleting job (completed_with (some ack)) s h =
      after_delete-Requested job _ _
        (timeout-Requested deleting (worker.queue.delete_message job.receipt_handle) s h)
  after_handler-Requested deleting job (completed_with none) s h =
      after_delete-Requested job _ _
        (timeout-Requested deleting (worker.queue.delete_message job.receipt_handle) s h)

  after_receive-Requested :
      (round : Round S) (backoff : ℕ) (o : Outcome (Option ReceivedAnalyzeJob)) (s : WorkerState S)
      → Requested s
      → Requested (after_receive worker round backoff o s).1
  unfolding after_receive process_job
  after_receive-Requested round backoff (ok none) s h = h
  after_receive-Requested round backoff (ok (some job)) s h =
      after_handler-Requested round.deleting job _ _
        (timeout-Requested round.handling (worker.handle_job job) _ h)
  after_receive-Requested round backoff (throw e) s h = rw h refl

  receive-Requested :
      (round : Round S) (backoff : ℕ) (s : WorkerState S)
      → round.shutdown_receiving ≡ true
      → Requested (receive worker round backoff s).1
  receive-Requested round backoff s h =
      after_receive-Requested round backoff _ _ (rw h (request_shutdown-Requested _))

  -- The last line of the log says that the worker has stopped, as it was asked to.
  pub record IsStopped (s : WorkerState S) : Type 0 where
    pub last : WorkerState S
    pub requested : last.shutdown_requested ≡ true
    pub stopped : s ≡ stop worker last

  Requested-stops :
      (rounds : List (Round S)) (backoff : ℕ) (s : WorkerState S)
      → Requested s
      → run_rounds worker rounds backoff s ≡ stop worker s
  unfolding run_rounds
  Requested-stops [] backoff s h = rw h refl
  Requested-stops (round ∷ rounds) backoff s h = rw h refl

  running-continues :
      (round : Round S) (rounds : List (Round S)) (backoff : ℕ) (s : WorkerState S)
      → s.shutdown_requested ≡ false
      → run_rounds worker (round ∷ rounds) backoff s
        ≡ run_rounds worker rounds
            (receive worker round backoff s).0
            (receive worker round backoff s).1
  unfolding run_rounds
  running-continues round rounds backoff s n =
      ap
        (λ b.
          if b
          then stop worker s
          else run_rounds worker rounds (receive worker round backoff s).0
              (receive worker round backoff s).1)
        n

  -- What follows the round in which the shutdown is requested does not matter.
  pub record IsLast (rounds : List (Round S)) (backoff : ℕ) (s : WorkerState S)
      (more : List (Round S)) : Type 0 where
    pub same : run_rounds worker (rounds ++ more) backoff s ≡ run_rounds worker rounds backoff s
    pub ended : IsStopped (run_rounds worker (rounds ++ more) backoff s)

  stop-IsLast :
      (rounds more : List (Round S)) (backoff : ℕ) (s : WorkerState S)
      → Requested s
      → IsLast rounds backoff s more
  stop-IsLast rounds more backoff s h = record {
    same = Requested-stops (rounds ++ more) backoff s h ∙ sym (Requested-stops rounds backoff s h);
    ended = record {
      last = s;
      requested = h;
      stopped = Requested-stops (rounds ++ more) backoff s h;
    };
  }

  continued-IsLast :
      (round : Round S) (rounds more : List (Round S)) (backoff : ℕ) (s : WorkerState S)
      → s.shutdown_requested ≡ false
      → IsLast rounds (receive worker round backoff s).0 (receive worker round backoff s).1 more
      → IsLast (round ∷ rounds) backoff s more
  continued-IsLast round rounds more backoff s n rest =
      let step = running-continues round (rounds ++ more) backoff s n in
      record {
        same = step ∙ rest.same ∙ sym (running-continues round rounds backoff s n);
        ended = record {
          last = rest.ended.last;
          requested = rest.ended.requested;
          stopped = step ∙ rest.ended.stopped;
        };
      }

  rounds-IsLast :
      (before : List (Round S)) (round : Round S) (more : List (Round S)) (backoff : ℕ)
      (s : WorkerState S)
      → round.shutdown_receiving ≡ true
      → IsLast (before ++ (round ∷ [])) backoff s more
  rounds-IsLast [] round more backoff s h = elim (Bool-cases s.shutdown_requested) [
    | inl y ↦ stop-IsLast (round ∷ []) more backoff s y
    | inr n ↦
        let next = receive worker round backoff s in
        continued-IsLast round [] more backoff s n
          (stop-IsLast [] more next.0 next.1 (receive-Requested round backoff s h))
  ]
  rounds-IsLast (first ∷ before) round more backoff s h = elim (Bool-cases s.shutdown_requested) [
    | inl y ↦ stop-IsLast (first ∷ (before ++ (round ∷ []))) more backoff s y
    | inr n ↦
        let next = receive worker first backoff s in
        continued-IsLast first (before ++ (round ∷ [])) more backoff s n
          (rounds-IsLast before round more next.0 next.1 h)
  ]

  -- Wherever the worker is in its loop: once the shutdown is requested during a receive, the loop ends
  -- with this round. The worker writes that it has stopped, and it is in the state in which it would be
  -- had no further round been possible.
  pub run-stops :
      (before : List (Round S)) (round : Round S) (more : List (Round S)) (s : WorkerState S)
      → round.shutdown_receiving ≡ true
      → (run worker (before ++ (round ∷ []) ++ more) s ≡ run worker (before ++ (round ∷ [])) s)
        × IsStopped (run worker (before ++ (round ∷ []) ++ more) s)
  unfolding run
  run-stops before round more s h =
      let l = rounds-IsLast before round more _ _ h in (l.same, l.ended)
