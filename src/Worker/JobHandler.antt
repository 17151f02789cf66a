-- ===== src/Worker/JobHandler.antt =====
-- src/worker/analyze-job-handler.ts: one job, from the claim of its statement to the answer whether
-- its message may be deleted. The stores and the analyzer are the interfaces that the handler takes.
use ai_statement_analyzer.Base.{
  String, Bool, true, false, ◌&&◌, ◌||◌, not, Option, none, some, List, map, str_eq, ◌==◌,
  if◌then◌else◌, or_else, length,
}
use ai_statement_analyzer.Base.Number.{Number}
use ai_statement_analyzer.Failure.{
  Thrown, thrown_object, thrown_primitive, invalid_source_object_error,
}
use ai_statement_analyzer.Effects.{
  Exec, Traced, LogLine, line, at_info, at_error, write_log, call, pure, raise, attempt, ◌>>=◌,
  ◌>>◌,
}
use ai_statement_analyzer.Database.Types.{
  StatementStatus, StatementFailureCode, StatementRecord, CreateTransactionInput, ProcessingClaim,
  is_completed, is_failed, content_type_text, failure_code_text,
}
use ai_statement_analyzer.Storage.{StatementObjectStore, DownloadedObject}
use ai_statement_analyzer.Queue.{ReceivedAnalyzeJob}
use ai_statement_analyzer.Ai.OcrSchema.{category_text}
use ai_statement_analyzer.Ai.OcrParser.{OcrTransaction}
use ai_statement_analyzer.Ai.ToolUse.{is_text}
use ai_statement_analyzer.Ai.BedrockOcr.{OcrImageInput, OcrAnalysisResult}
use ai_statement_analyzer.Worker.JobError.{
  AnalyzeJobErrorStage, object_store, ocr, database, AnalyzeJobErrorClassification, retry_later,
  permanent, classify_analyze_job_error, instance_of, is_invalid_ocr_image, is_invalid_ocr_response,
}

pub data AnalyzeJobDisposition : Type 0 where
  ack retry : AnalyzeJobDisposition

pub record ProcessingStatementStore (S : Type 0) : Type 0 where
  pub find_by_id : String → Exec S (Option StatementRecord)
  pub claim_for_processing : String → String → Option Number → Exec S (Option ProcessingClaim)
  pub save_transactions_and_complete :
      String → String → List CreateTransactionInput → Exec S (Unit {0})
  pub mark_failed : String → String → StatementFailureCode → String → Exec S Bool

pub record AnalyzeJobHandlerDependencies (S : Type 0) : Type 0 where
  pub statements : ProcessingStatementStore S
  pub object_store : StatementObjectStore S
  pub analyze : OcrImageInput → Exec S OcrAnalysisResult
  pub lease_seconds : Option Number

abbrev pub is_terminal_status : StatementStatus → Bool
is_terminal_status status = is_completed status || is_failed status

abbrev pub to_create_transaction_input : OcrTransaction → CreateTransactionInput
to_create_transaction_input t = record {
  line_number = t.line_number;
  transaction_date = t.transaction_date;
  merchant_raw = t.merchant_raw;
  merchant_name = t.merchant_name;
  amount = t.amount;
  category = category_text t.category;
  subcategory = t.subcategory;
}

abbrev pub to_create_transaction_inputs : OcrAnalysisResult → List CreateTransactionInput
to_create_transaction_inputs result = map to_create_transaction_input result.transactions

abbrev pub non_empty : Option String → Option String
non_empty none = none
non_empty (some s) = if str_eq s "" then none else some s

unfoldable pub get_safe_error_code : Thrown → String
get_safe_error_code thrown_primitive = "UNKNOWN_ERROR"
get_safe_error_code (thrown_object e) =
    or_else (non_empty e.name) (or_else (non_empty e.code) "UNKNOWN_ERROR")

-- `annotateAnalyzeJobError`: the weak map's entry stands in the object itself.
abbrev pub annotate : Thrown → String → Thrown
annotate thrown_primitive stage = thrown_primitive
annotate (thrown_object e) stage = thrown_object (record e { stage = some stage })

abbrev pub stage_text : AnalyzeJobErrorStage → String
stage_text object_store = "object-store"
stage_text ocr = "ocr"
stage_text database = "database"

abbrev pub is_ocr : AnalyzeJobErrorStage → Bool
is_ocr ocr = true
is_ocr _ = false

abbrev pub is_bedrock_request_failure : AnalyzeJobErrorStage → Thrown → Bool
is_bedrock_request_failure stage error =
    is_ocr stage
    && not (instance_of is_invalid_ocr_image error)
    && not (instance_of is_invalid_ocr_response error)

abbrev pub disposition_text : AnalyzeJobErrorClassification → String
disposition_text retry_later = "RETRYABLE"
disposition_text (permanent code message) = "PERMANENT"

-- The lines of the log.
module _ (job : ReceivedAnalyzeJob) where
  abbrev pub progress : String → String → String → LogLine
  progress event stage status = record (line at_info event) {
    statement_id = some job.statement_id;
    stage = some stage;
    status = some status;
  }

  abbrev pub trouble : String → String → String → String → String → LogLine
  trouble event stage status disposition code = record (line at_error event) {
    statement_id = some job.statement_id;
    stage = some stage;
    status = some status;
    disposition = some disposition;
    error_code = some code;
  }

  abbrev pub resolved_line : AnalyzeJobDisposition → LogLine
  resolved_line ack = record (line at_info "worker_job_skipped") {
    statement_id = some job.statement_id;
    stage = some "claim";
    disposition = some "ACK";
  }
  resolved_line retry = record (line at_info "worker_job_retry") {
    statement_id = some job.statement_id;
    stage = some "claim";
    disposition = some "RETRY";
  }

-- The object is the one that was registered: its type, its length, and as many bytes.
abbrev pub matches_claim : ProcessingClaim → DownloadedObject → Bool
matches_claim claim object = not (
    not (is_text object.content_type (content_type_text claim.content_type))
    || not (object.content_length == claim.content_length)
    || not (length object.bytes == claim.content_length))

module _ {S : Type 0} (deps : AnalyzeJobHandlerDependencies S) (job : ReceivedAnalyzeJob) where
  abbrev pub resolve : Option StatementRecord → AnalyzeJobDisposition
  resolve none = ack
  resolve (some statement) = if is_terminal_status statement.status then ack else retry

  unfoldable pub resolve_unclaimed_job : Exec S AnalyzeJobDisposition
  resolve_unclaimed_job = do
    statement ← deps.statements.find_by_id job.statement_id
    pure (resolve statement)

  unfoldable pub on_claim_error : Thrown → Exec (Traced S) AnalyzeJobDisposition
  on_claim_error error = do
    write_log
        (trouble job "worker_stage_failed" "claim" "failed" "RETRYABLE" (get_safe_error_code error))
    pure retry

  unfoldable pub after_mark_failed :
      AnalyzeJobErrorStage → StatementFailureCode → Bool → Exec (Traced S) AnalyzeJobDisposition
  after_mark_failed stage code true = do
    write_log (
        trouble job "worker_job_failed" (stage_text stage) "failed" "PERMANENT"
          (failure_code_text code))
    pure ack
  after_mark_failed stage code false = do
    write_log
        (trouble job "worker_job_retry" "database" "retry" "RETRYABLE" "PROCESSING_CLAIM_LOST")
    pure retry

  unfoldable pub on_mark_failed_error : Thrown → Exec (Traced S) AnalyzeJobDisposition
  on_mark_failed_error error = do
    write_log (
        trouble job "worker_stage_failed" "database" "failed" "RETRYABLE"
          (get_safe_error_code error))
    raise (annotate error "database")

  unfoldable pub settle_failure :
      ProcessingClaim
      → AnalyzeJobErrorStage
      → Thrown
      → AnalyzeJobErrorClassification
      → Exec (Traced S) AnalyzeJobDisposition
  settle_failure claim stage error retry_later = do
    write_log (
        trouble job "worker_job_retry" (stage_text stage) "retry" "RETRYABLE"
          (get_safe_error_code error))
    pure retry
  settle_failure claim stage error (permanent code message) =
      attempt
        (call (deps.statements.mark_failed claim.statement_id claim.processing_token code message))
        on_mark_failed_error (after_mark_failed stage code)

  unfoldable pub log_bedrock_failure :
      AnalyzeJobErrorStage → Thrown → AnalyzeJobErrorClassification → Exec (Traced S) (Unit {0})
  log_bedrock_failure stage error classification =
      if is_ocr stage && instance_of is_invalid_ocr_response error
      then write_log (
          trouble job "bedrock_response_invalid" (stage_text stage) "failed" "PERMANENT"
            (get_safe_error_code error))
      else if is_bedrock_request_failure stage error
      then write_log (
          trouble job "bedrock_request_failed" (stage_text stage) "failed"
            (disposition_text classification) (get_safe_error_code error))
      else pure tt

  -- The `catch` of the processing, at the stage that it had come to.
  unfoldable pub on_error :
      ProcessingClaim → AnalyzeJobErrorStage → Thrown → Exec (Traced S) AnalyzeJobDisposition
  on_error claim stage error = do
    let classification = classify_analyze_job_error stage error
    write_log (
        trouble job "worker_stage_failed" (stage_text stage) "failed"
          (disposition_text classification) (get_safe_error_code error))
    log_bedrock_failure stage error classification
    settle_failure claim stage error classification

  unfoldable pub check_object : ProcessingClaim → DownloadedObject → Exec S DownloadedObject
  check_object claim object =
      if matches_claim claim object then pure object else raise invalid_source_object_error

  unfoldable pub fetch : ProcessingClaim → Exec S DownloadedObject
  fetch claim = do object ← deps.object_store.get_object claim.s3_key; check_object claim object

  unfoldable pub save_stage :
      ProcessingClaim → OcrAnalysisResult → Exec (Traced S) AnalyzeJobDisposition
  save_stage claim analysis = do
    write_log (progress job "worker_stage_completed" "ocr" "completed")
    write_log (progress job "worker_stage_started" "database" "started")
    attempt
        (call (
          deps.statements.save_transactions_and_complete claim.statement_id claim.processing_token
            (to_create_transaction_inputs analysis)))
        (on_error claim database)
        (λ _. do write_log (progress job "worker_stage_completed" "database" "completed"); pure ack)

  unfoldable pub ocr_stage :
      ProcessingClaim → DownloadedObject → Exec (Traced S) AnalyzeJobDisposition
  ocr_stage claim object = do
    write_log (progress job "worker_stage_completed" "object-store" "completed")
    write_log (progress job "worker_stage_started" "ocr" "started")
    attempt
        (call (
          deps.analyze
            (record { bytes = object.bytes; content_type = content_type_text claim.content_type })))
        (on_error claim ocr) (save_stage claim)

  unfoldable pub process : Option ProcessingClaim → Exec (Traced S) AnalyzeJobDisposition
  process none =
      attempt (call resolve_unclaimed_job) on_claim_error
        (λ disposition. do write_log (resolved_line job disposition); pure disposition)
  process (some claim) = do
    write_log (progress job "worker_stage_completed" "claim" "completed")
    write_log (progress job "worker_job_claimed" "claim" "completed")
    write_log (progress job "worker_stage_started" "object-store" "started")
    attempt (call (fetch claim)) (on_error claim object_store) (ocr_stage claim)

  -- The handler; `processing_token` is what `tokenGenerator` returns.
  unfoldable pub handle_job : String → Exec (Traced S) AnalyzeJobDisposition
  handle_job processing_token = do
    write_log (progress job "worker_stage_started" "claim" "started")
    attempt
        (call (
          deps.statements.claim_for_processing job.statement_id processing_token
            deps.lease_seconds))
        on_claim_error process
