-- ===== src/Worker/AnalyzeWorker.antt =====
-- src/worker/analyze-worker.ts: the loop that receives a job, has it handled and deletes its message.
pub mod Deletion
pub mod Backoff
pub mod Stopping
use ai_statement_analyzer.Base.{
  ℕ, zero, suc, ◌+◌, ◌-◌, ◌*◌, ◌/◌, ◌%◌, ◌≤◌, ◌<◌, min, String, ◌≡◌, refl, sym, ap, ◌∙◌, ◌≢◌, ◌↔◌,
  ◌⊎◌, inl, inr, Bool, true, false, ◌&&◌, ◌||◌, not, Option, none, some, List, [], ◌∷◌, ◌++◌, map,
  arith, str_eq, eq_iff, eq_refl, ltb, leb, ◌==◌, if◌then◌else◌, is_some, or_else, Bool-cases,
  Option-cases, length, head?, filter, all, any, find, All,
}
use ai_statement_analyzer.Failure.{
  Thrown, thrown_object, thrown_primitive, Outcome, ok, throw, ErrorClass, other_object,
  invalid_job_message,
}
use ai_statement_analyzer.Effects.{Exec, LogLine, line, at_info, at_error}
use ai_statement_analyzer.Queue.{ReceivedAnalyzeJob, AnalyzeJobQueue}
use ai_statement_analyzer.Worker.JobError.{instance_of}
use ai_statement_analyzer.Worker.JobHandler.{AnalyzeJobDisposition, ack, retry, non_empty}
use ai_statement_analyzer.Worker.Rounds.{
  initial_receive_backoff_ms, max_receive_backoff_ms, receive_backoff_multiplier,
  is_invalid_job_message, get_error_code, get_analyze_job_error_stage, Moment, Round,
  ShutdownOperationResult, completed_with, failed_with, timed_out, WorkerState,
  AnalyzeWorkerOptions, write, shutdown_if, run_with_shutdown_timeout,
}

abbrev pub job_line : LogLine → ReceivedAnalyzeJob → LogLine
job_line l job = record l { statement_id = some job.statement_id }

abbrev pub failure_line : String → Option String → String → ReceivedAnalyzeJob → LogLine
failure_line event stage code job = record (line at_error event) {
  statement_id = some job.statement_id;
  stage = stage;
  status = some "failed";
  disposition = some "RETRYABLE";
  error_code = some code;
}

abbrev pub message_delete : Option String
message_delete = some "message-delete"

abbrev pub completed_line : ReceivedAnalyzeJob → LogLine
completed_line job = record (line at_info "worker_job_completed") {
  statement_id = some job.statement_id;
  stage = message_delete;
  status = some "completed";
  disposition = some "ACK";
}

abbrev pub retry_line : ReceivedAnalyzeJob → LogLine
retry_line job = record (line at_info "worker_job_retry") {
  statement_id = some job.statement_id;
  status = some "retry";
  disposition = some "RETRYABLE";
}

abbrev pub started_line : ReceivedAnalyzeJob → LogLine
started_line job = record (line at_info "worker_job_started") {
  statement_id = some job.statement_id;
  status = some "started";
}

module _ {S : Type 0} (worker : AnalyzeWorkerOptions S) where
  unfoldable pub after_delete :
      ReceivedAnalyzeJob → ShutdownOperationResult (Unit {0}) × WorkerState S → WorkerState S
  after_delete job (failed_with e, s) =
      write (failure_line "worker_delete_failed" message_delete (get_error_code e) job) s
  after_delete job (timed_out, s) =
      write (failure_line "worker_delete_shutdown_timeout" message_delete "SHUTDOWN_TIMEOUT" job) s
  after_delete job (completed_with _, s) = write (completed_line job) s

  unfoldable pub delete_job : Moment S → ReceivedAnalyzeJob → WorkerState S → WorkerState S
  delete_job deleting job s =
      after_delete job
        (run_with_shutdown_timeout deleting (worker.queue.delete_message job.receipt_handle) s)

  -- A handler that answers nothing has the message deleted too.
  unfoldable pub after_handler :
      Moment S
      → ReceivedAnalyzeJob
      → ShutdownOperationResult (Option AnalyzeJobDisposition) × WorkerState S
      → WorkerState S
  after_handler deleting job (failed_with e, s) =
      write
        (failure_line "worker_job_failed" (some (or_else (get_analyze_job_error_stage e) "unknown"))
          (get_error_code e) job)
        s
  after_handler deleting job (timed_out, s) =
      write (failure_line "worker_job_shutdown_timeout" none "SHUTDOWN_TIMEOUT" job) s
  after_handler deleting job (completed_with (some retry), s) = write (retry_line job) s
  after_handler deleting job (completed_with (some ack), s) = delete_job deleting job s
  after_handler deleting job (completed_with none, s) = delete_job deleting job s

  unfoldable pub process_job : Round S → ReceivedAnalyzeJob → WorkerState S → WorkerState S
  process_job round job s = after_handler round.deleting job (
      run_with_shutdown_timeout round.handling (worker.handle_job job) (write (started_line job) s))

  abbrev pub received_line : ReceivedAnalyzeJob → LogLine
  received_line job = job_line (line at_info "worker_message_received") job

  abbrev pub next_backoff : ℕ → ℕ
  next_backoff backoff = min (backoff * receive_backoff_multiplier) max_receive_backoff_ms

  abbrev pub receive_failed_line : Thrown → LogLine
  receive_failed_line e = record (line at_error "worker_receive_failed") {
    status = some "failed";
    disposition = some "RETRYABLE";
    error_code = some (get_error_code e);
  }

  abbrev pub message_invalid_line : Thrown → LogLine
  message_invalid_line e = record (line at_error "worker_message_invalid") {
    status = some "failed";
    disposition = some "PERMANENT";
    error_code = some (get_error_code e);
  }

  abbrev pub wait_for_retry : Round S → ℕ → WorkerState S → WorkerState S
  wait_for_retry round backoff s =
      shutdown_if round.shutdown_waiting (record s { waits = backoff ∷ s.waits })

  -- The body of the loop behind the receive: the next backoff and the state.
  unfoldable pub after_receive :
      Round S → ℕ → Outcome (Option ReceivedAnalyzeJob) → WorkerState S → ℕ × WorkerState S
  after_receive round backoff (ok none) s = (initial_receive_backoff_ms, s)
  after_receive round backoff (ok (some job)) s =
      (initial_receive_backoff_ms, process_job round job (write (received_line job) s))
  after_receive round backoff (throw e) s =
      if s.shutdown_requested
      then (backoff, s)
      else if instance_of is_invalid_job_message e
      then (backoff, write (message_invalid_line e) s)
      else (next_backoff backoff, wait_for_retry round backoff (write (receive_failed_line e) s))

  abbrev pub receive : Round S → ℕ → WorkerState S → ℕ × WorkerState S
  receive round backoff s = after_receive round backoff (worker.queue.receive_one s.world).0 (
      shutdown_if round.shutdown_receiving
        (record s { world = (worker.queue.receive_one s.world).1 }))

  abbrev pub stop : WorkerState S → WorkerState S
  stop s = write (record (line at_info "worker_stopped") { status = some "stopped" }) s

  -- The loop for as many rounds as are given, unless the shutdown ends it before.
  unfoldable pub run_rounds : List (Round S) → ℕ → WorkerState S → WorkerState S
  run_rounds [] backoff s = if s.shutdown_requested then stop s else s
  run_rounds (round ∷ rounds) backoff s =
      let next = receive round backoff s in
      let rest = run_rounds rounds next.0 next.1 in if s.shutdown_requested then stop s else rest

  unfoldable pub run : List (Round S) → WorkerState S → WorkerState S
  run rounds s =
      run_rounds rounds initial_receive_backoff_ms
        (write (record (line at_info "worker_started") { status = some "started" }) s)
