-- ===== src/Failure.antt =====
-- Thrown values, the calls that may throw, and the errors that the modules of src/ raise
-- (src/database/errors.ts, src/storage/object-store.ts, src/ai/bedrock-ocr.ts,
-- src/queue/analyze-job.ts, src/insights/monthly-insights.ts).
use ai_statement_analyzer.Base.{ℕ, String, Option, none, some}

-- What `instanceof` tells of a thrown object: the program's own classes, another `Error`, or an
-- object that is no `Error`.
pub data ErrorClass : Type 0 where
  unique_constraint processing_claim_lost object_not_found invalid_source_object : ErrorClass
  invalid_ocr_image invalid_ocr_response invalid_job_message invalid_insights : ErrorClass
  database_configuration aggregate plain_error other_object : ErrorClass

-- `name` and `code` are `none` where the property is absent or no string; `stage` is the object's entry
-- in the weak map of src/worker/analyze-job-error.ts.
pub record ErrorObject : Type 0 where
  pub kind : ErrorClass
  pub name : Option String
  pub code : Option String
  pub http_status : Option ℕ
  pub stage : Option String

pub data Thrown : Type 0 where
  thrown_object : ErrorObject → Thrown
  thrown_primitive : Thrown

-- An instance of one of the program's classes: `this.name` is the class's name.
abbrev pub own_error : ErrorClass → String → Thrown
own_error kind name =
    thrown_object
      (record { kind = kind; name = some name; code = none; http_status = none; stage = none })

abbrev pub processing_claim_lost_error : Thrown
processing_claim_lost_error = own_error processing_claim_lost "ProcessingClaimLostError"

abbrev pub unique_constraint_error : Thrown
unique_constraint_error = own_error unique_constraint "UniqueConstraintError"

abbrev pub object_not_found_error : Thrown
object_not_found_error = own_error object_not_found "ObjectNotFoundError"

abbrev pub invalid_source_object_error : Thrown
invalid_source_object_error = own_error invalid_source_object "InvalidSourceObjectError"

abbrev pub invalid_ocr_image_error : Thrown
invalid_ocr_image_error = own_error invalid_ocr_image "InvalidOcrImageError"

abbrev pub invalid_ocr_response_error : Thrown
invalid_ocr_response_error = own_error invalid_ocr_response "InvalidOcrResponseError"

abbrev pub invalid_job_message_error : Thrown
invalid_job_message_error = own_error invalid_job_message "InvalidAnalyzeJobMessageError"

abbrev pub invalid_insights_error : Thrown
invalid_insights_error = own_error invalid_insights "InvalidInsightsResponseError"

-- `new Error(message)`
abbrev pub plain : Thrown
plain = own_error plain_error "Error"

-- An error of the PostgreSQL driver with an SQLSTATE code.
abbrev pub database_error : String → Thrown
database_error code = thrown_object (record {
  kind = plain_error;
  name = some "error";
  code = some code;
  http_status = none;
  stage = none;
})

pub data Outcome {ℓ} (A : Type ℓ) : Type ℓ where
  ok : A → Outcome A
  throw : Thrown → Outcome A

-- How a `COMMIT` ends: with its acknowledgement, with an error before it took effect, or with an error
-- behind it, where the acknowledgement is lost.
pub data CommitResult : Type 0 where
  acknowledged : CommitResult
  not_committed : Thrown → CommitResult
  unacknowledged : Thrown → CommitResult
