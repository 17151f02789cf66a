-- ===== src/Database/Types.antt =====
-- The rows and inputs of src/database/statement-repository.ts, and the tables of migrations/*.sql.
-- A timestamp is a number of microseconds; a `string | null` column is an `Option String`.
use ai_statement_analyzer.Base.{ℕ, String, Bool, true, false, Option, List}
use ai_statement_analyzer.Base.Int.{ℤ}

pub data StatementStatus : Type 0 where
  upload_pending uploaded queued processing completed failed : StatementStatus

abbrev pub is_upload_pending : StatementStatus → Bool
is_upload_pending upload_pending = true
is_upload_pending _ = false

abbrev pub is_uploaded : StatementStatus → Bool
is_uploaded uploaded = true
is_uploaded _ = false

abbrev pub is_queued : StatementStatus → Bool
is_queued queued = true
is_queued _ = false

abbrev pub is_processing : StatementStatus → Bool
is_processing processing = true
is_processing _ = false

abbrev pub is_completed : StatementStatus → Bool
is_completed completed = true
is_completed _ = false

abbrev pub is_failed : StatementStatus → Bool
is_failed failed = true
is_failed _ = false

pub data StatementFailureCode : Type 0 where
  source_object_not_found source_object_invalid unsupported_image : StatementFailureCode
  invalid_ocr_response ocr_non_retryable processing_failed : StatementFailureCode

-- The code as the text that the column holds.
abbrev pub failure_code_text : StatementFailureCode → String
failure_code_text source_object_not_found = "SOURCE_OBJECT_NOT_FOUND"
failure_code_text source_object_invalid = "SOURCE_OBJECT_INVALID"
failure_code_text unsupported_image = "UNSUPPORTED_IMAGE"
failure_code_text invalid_ocr_response = "INVALID_OCR_RESPONSE"
failure_code_text ocr_non_retryable = "OCR_NON_RETRYABLE"
failure_code_text processing_failed = "PROCESSING_FAILED"

pub data ContentType : Type 0 where
  image_jpeg image_png : ContentType

abbrev pub content_type_text : ContentType → String
content_type_text image_jpeg = "image/jpeg"
content_type_text image_png = "image/png"

pub record CreateStatementInput : Type 0 where
  pub id : Option String
  pub owner_id : Option String
  pub s3_key : String
  pub target_month : String
  pub content_type : ContentType
  pub content_length : ℕ
  pub status : Option StatementStatus

pub record StatementRecord : Type 0 where
  pub id : String
  pub owner_id : Option String
  pub s3_key : String
  pub target_month : String
  pub status : StatementStatus
  pub content_type : ContentType
  pub content_length : ℕ
  pub processing_started_at : Option ℕ
  pub processing_lease_expires_at : Option ℕ
  pub processing_token : Option String
  pub processed_at : Option ℕ
  pub failure_code : Option String
  pub failure_message : Option String
  pub created_at : ℕ
  pub updated_at : ℕ

pub record CreateTransactionInput : Type 0 where
  pub line_number : ℕ
  pub transaction_date : String
  pub merchant_raw : String
  pub merchant_name : String
  pub amount : ℤ
  pub category : String
  pub subcategory : Option String

pub record TransactionRecord : Type 0 where
  pub input : CreateTransactionInput
  pub open input use *
  pub id : ℕ
  pub statement_id : String
  pub created_at : ℕ

pub record ProcessingClaim : Type 0 where
  pub statement_id : String
  pub s3_key : String
  pub content_type : ContentType
  pub content_length : ℕ
  pub processing_started_at : ℕ
  pub processing_lease_expires_at : ℕ
  pub processing_token : String

-- The two tables of the analysis, with the database's clock and the identity sequence.
pub record Database : Type 0 where
  pub now : ℕ
  pub statements : List StatementRecord
  pub transactions : List TransactionRecord
  pub next_transaction_id : ℕ
