-- ===== src/Worker/Rounds.antt =====
-- The state of the worker of src/worker/analyze-worker.ts and its waits. What the clock and the signals
-- do in a round of the loop stands in the round: whether the shutdown is requested during a wait, and
-- whether its deadline passes before an operation has ended. An operation that is given up leaves the
-- world in a state that the round names.
use ai_statement_analyzer.Base.{
  ℕ, String, Bool, true, false, Option, none, some, List, ◌∷◌, if◌then◌else◌, or_else,
}
use ai_statement_analyzer.Failure.{
  Thrown, thrown_object, thrown_primitive, Outcome, ok, throw, ErrorClass, other_object,
  invalid_job_message,
}
use ai_statement_analyzer.Effects.{Exec, LogLine, line, at_info}
use ai_statement_analyzer.Queue.{ReceivedAnalyzeJob, AnalyzeJobQueue}
use ai_statement_analyzer.Worker.JobHandler.{AnalyzeJobDisposition, non_empty}

abbrev pub initial_receive_backoff_ms : ℕ
initial_receive_backoff_ms = 1000

abbrev pub max_receive_backoff_ms : ℕ
max_receive_backoff_ms = 30000

abbrev pub receive_backoff_multiplier : ℕ
receive_backoff_multiplier = 2

abbrev pub is_error_class : ErrorClass → Bool
is_error_class other_object = false
is_error_class _ = true

abbrev pub is_invalid_job_message : ErrorClass → Bool
is_invalid_job_message invalid_job_message = true
is_invalid_job_message _ = false

unfoldable pub get_error_code : Thrown → String
get_error_code thrown_primitive = "UNKNOWN_ERROR"
get_error_code (thrown_object e) =
    if is_invalid_job_message e.kind
    then "INVALID_MESSAGE"
    else if is_error_class e.kind
    then or_else (non_empty e.name) "UNKNOWN_ERROR"
    else "UNKNOWN_ERROR"

abbrev pub get_analyze_job_error_stage : Thrown → Option String
get_analyze_job_error_stage thrown_primitive = none
get_analyze_job_error_stage (thrown_object e) = e.stage

-- How an operation under `runWithShutdownTimeout` ends.
pub data Moment (S : Type 0) : Type 0 where
  quiet shutdown_within : Moment S
  deadline_passes : (S → S) → Moment S

pub record Round (S : Type 0) : Type 0 where
  pub shutdown_receiving : Bool
  pub shutdown_waiting : Bool
  pub handling : Moment S
  pub deleting : Moment S

pub data ShutdownOperationResult (A : Type 0) : Type 0 where
  completed_with : A → ShutdownOperationResult A
  failed_with : Thrown → ShutdownOperationResult A
  timed_out : ShutdownOperationResult A

-- `waits` are the arguments of `waitForRetry`, the latest first.
pub record WorkerState (S : Type 0) : Type 0 where
  pub world : S
  pub log : List LogLine
  pub shutdown_requested : Bool
  pub waits : List ℕ

pub record AnalyzeWorkerOptions (S : Type 0) : Type 0 where
  pub queue : AnalyzeJobQueue S
  pub handle_job : ReceivedAnalyzeJob → Exec S (Option AnalyzeJobDisposition)

abbrev pub result_of : {A : Type 0} → Outcome A → ShutdownOperationResult A
result_of (ok a) = completed_with a
result_of (throw e) = failed_with e

module _ {S : Type 0} where
  abbrev pub write : LogLine → WorkerState S → WorkerState S
  write l s = record s { log = l ∷ s.log }

  unfoldable pub request_shutdown : WorkerState S → WorkerState S
  request_shutdown s = if s.shutdown_requested then s else record s {
    shutdown_requested = true;
    log = record (line at_info "worker_shutdown_requested") { status = some "requested" } ∷ s.log;
  }

  abbrev pub shutdown_if : Bool → WorkerState S → WorkerState S
  shutdown_if false s = s
  shutdown_if true s = request_shutdown s

  unfoldable pub run_with_shutdown_timeout :
      {A : Type 0} → Moment S → Exec S A → WorkerState S → ShutdownOperationResult A × WorkerState S
  run_with_shutdown_timeout quiet operation s =
      (result_of (operation s.world).0, record s { world = (operation s.world).1 })
  run_with_shutdown_timeout shutdown_within operation s = (
    result_of (operation s.world).0,
    request_shutdown (record s { world = (operation s.world).1 }),
  )
  run_with_shutdown_timeout (deadline_passes leaves) operation s =
      (timed_out, request_shutdown (record s { world = leaves s.world }))
