-- ===== src/Api/Responses.antt =====
-- The responses of src/app.ts, its log lines, and what a statement shows of itself.
use ai_statement_analyzer.Base.{
  ℕ, zero, suc, String, Bool, Option, none, some, str_eq, if◌then◌else◌, List, ◌∷◌, [],
}
use ai_statement_analyzer.Failure.{Thrown}
use ai_statement_analyzer.Effects.{
  Exec, Traced, LogLine, line, at_info, at_error, write_log, pure, ◌>>◌,
}
use ai_statement_analyzer.Database.Types.{
  StatementStatus, upload_pending, uploaded, queued, processing, completed, failed, StatementRecord,
  CreateStatementInput, ContentType,
}
use ai_statement_analyzer.Json.{includes}
use ai_statement_analyzer.Storage.{StatementObjectStore}
use ai_statement_analyzer.Queue.{AnalyzeJobQueue}

-- What `PUBLIC_FAILURE_MESSAGES[code]` gives: a message of the table, a method that every object
-- inherits, which the JSON of the response leaves out, or the prototype of all objects, which it writes
-- as `{}`.
pub data PublicMessage : Type 0 where
  message_text : String → PublicMessage
  inherited_method object_prototype : PublicMessage

pub record PublicFailure : Type 0 where
  pub code : String
  pub message : PublicMessage

pub record PublicStatement : Type 0 where
  pub statement_id : String
  pub target_month : String
  pub status : StatementStatus
  pub processed_at : Option ℕ
  pub failure : Option PublicFailure

pub record CreatedStatement : Type 0 where
  pub statement_id : String
  pub status : StatementStatus
  pub url : String
  pub content_type : ContentType
  pub expires_in_seconds : ℕ

pub data Body : Type 0 where
  failure_body : String → String → Body
  upload_status : String → StatementStatus → Body
  statement_body : PublicStatement → Body
  created_body : CreatedStatement → Body

pub record Response : Type 0 where
  pub http_status : ℕ
  pub body : Body

pub record StatementStore (S : Type 0) : Type 0 where
  pub create : CreateStatementInput → Exec S StatementRecord
  pub find_by_id : String → Exec S (Option StatementRecord)
  pub mark_uploaded : String → Exec S (Option StatementRecord)
  pub mark_queued : String → Exec S (Option StatementRecord)
  pub reset_queued_to_uploaded : String → Exec S (Option StatementRecord)

-- `is_uuid` is the schema library's test of an identifier.
pub record AppDependencies (S : Type 0) : Type 0 where
  pub statements : StatementStore S
  pub object_store : StatementObjectStore S
  pub job_queue : AnalyzeJobQueue S
  pub presigned_url_expires_seconds : ℕ
  pub is_uuid : String → Bool

abbrev pub status_text : StatementStatus → String
status_text upload_pending = "UPLOAD_PENDING"
status_text uploaded = "UPLOADED"
status_text queued = "QUEUED"
status_text processing = "PROCESSING"
status_text completed = "COMPLETED"
status_text failed = "FAILED"

abbrev pub error_response : ℕ → String → String → Response
error_response status code message = record {
  http_status = status;
  body = failure_body code message;
}

abbrev pub invalid_request : Response
invalid_request = error_response 400 "INVALID_REQUEST" "入力内容が不正です。"

abbrev pub statement_not_found : Response
statement_not_found = error_response 404 "STATEMENT_NOT_FOUND" "明細が見つかりません。"

abbrev pub dependency_unavailable : Response
dependency_unavailable = error_response 503 "DEPENDENCY_UNAVAILABLE" "依存サービスを利用できません。"

abbrev pub to_upload_status : ℕ → StatementRecord → Response
to_upload_status status statement = record {
  http_status = status;
  body = upload_status statement.id statement.status;
}

abbrev pub dependency_failure_line : String → String → LogLine
dependency_failure_line event statement_id = record (line at_error event) {
  statement_id = some statement_id;
  status = some "failed";
  disposition = some "RETRYABLE";
  error_code = some "DEPENDENCY_UNAVAILABLE";
}

abbrev pub statement_line : String → StatementRecord → LogLine
statement_line event statement = record (line at_info event) {
  statement_id = some statement.id;
  status = some (status_text statement.status);
}

module _ {S : Type 0} where
  abbrev pub respond : Response → Exec (Traced S) Response
  respond r = pure r

  -- `logDependencyFailure` and a 503.
  abbrev pub unavailable : String → String → Thrown → Exec (Traced S) Response
  unavailable event statement_id e =
      write_log (dependency_failure_line event statement_id) >> respond dependency_unavailable

-- The methods of `Object.prototype`.
abbrev pub inherited_methods : List String
inherited_methods =
    "constructor" ∷ "toString" ∷ "toLocaleString" ∷ "valueOf" ∷ "hasOwnProperty" ∷ "isPrototypeOf"
    ∷ "propertyIsEnumerable" ∷ "__defineGetter__" ∷ "__defineSetter__" ∷ "__lookupGetter__"
    ∷ "__lookupSetter__" ∷ []

unfoldable pub inherited_value : String → Option PublicMessage
inherited_value code =
    if str_eq code "__proto__"
    then some object_prototype
    else if includes inherited_methods code
    then some inherited_method
    else none

unfoldable pub public_failure_message : String → Option PublicMessage
public_failure_message code =
    if str_eq code "SOURCE_OBJECT_NOT_FOUND"
    then some (message_text "明細画像が見つかりません。")
    else if str_eq code "SOURCE_OBJECT_INVALID"
    then some (message_text "明細画像の情報が不正です。")
    else if str_eq code "UNSUPPORTED_IMAGE"
    then some (message_text "対応していない画像形式です。")
    else if str_eq code "INVALID_OCR_RESPONSE"
    then some (message_text "明細を解析できませんでした。")
    else if str_eq code "OCR_NON_RETRYABLE"
    then some (message_text "明細を解析できませんでした。")
    else if str_eq code "PROCESSING_FAILED"
    then some (message_text "明細を処理できませんでした。")
    else inherited_value code

abbrev pub public_failure : String → Option PublicMessage → PublicFailure
public_failure code (some message) = record { code = code; message = message }
public_failure code none = record {
  code = "PROCESSING_FAILED";
  message = message_text "明細を処理できませんでした。";
}

-- An empty code counts as absent.
unfoldable pub to_public_failure : Option String → Option PublicFailure
to_public_failure none = none
to_public_failure (some code) =
    if str_eq code "" then none else some (public_failure code (public_failure_message code))

-- `text.slice(0, n)`, on text of the basic plane.
unfoldable pub slice_to : ℕ → String → String
slice_to zero s = String.[]
slice_to (suc n) String.[] = String.[]
slice_to (suc n) (String.◌∷◌ c s) = String.◌∷◌ c (slice_to n s)

unfoldable pub to_public_statement : StatementRecord → PublicStatement
to_public_statement statement = record {
  statement_id = statement.id;
  target_month = slice_to 7 statement.target_month;
  status = statement.status;
  processed_at = statement.processed_at;
  failure = to_public_failure statement.failure_code;
}
