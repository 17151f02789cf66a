-- ===== src/Api/Upload.antt =====
-- The handlers of src/app.ts that create a statement, complete its upload and show it.
pub mod Checked
use ai_statement_analyzer.Base.{
  ℕ, zero, suc, ◌+◌, ◌-◌, ◌*◌, ◌/◌, ◌%◌, ◌≤◌, ◌<◌, min, String, ◌≡◌, refl, sym, ap, ◌∙◌, ◌≢◌, ◌↔◌,
  ◌⊎◌, inl, inr, Bool, true, false, ◌&&◌, ◌||◌, not, Option, none, some, List, [], ◌∷◌, ◌++◌, map,
  arith, str_eq, eq_iff, eq_refl, ltb, leb, ◌==◌, if◌then◌else◌, is_some, or_else, Bool-cases,
  Option-cases, length, head?, filter, all, any, find, All,
}
use Prim.Native.String
use ai_statement_analyzer.Failure.{
  Thrown, Outcome, ok, throw, ErrorClass, unique_constraint, thrown_object, thrown_primitive,
  object_not_found,
}
use ai_statement_analyzer.Effects.{
  Exec, Traced, LogLine, line, at_info, at_error, write_log, call, pure, attempt, ◌>>◌, ◌>>=◌,
}
use ai_statement_analyzer.Database.Types.{
  StatementStatus, upload_pending, uploaded, queued, processing, completed, failed, StatementRecord,
  CreateStatementInput, content_type_text,
}
use ai_statement_analyzer.Json.{Json}
use ai_statement_analyzer.Storage.{StatementObjectStore, ObjectMetadata}
use ai_statement_analyzer.Ai.ToolUse.{is_text}
use ai_statement_analyzer.Worker.JobError.{instance_of, is_object_not_found}
use ai_statement_analyzer.Api.Schemas.{
  CreateStatementRequest, create_statement_request, is_too_large_content_length,
  is_json_content_type,
}
use ai_statement_analyzer.Api.Responses.{
  Response, Body, statement_body, created_body, CreatedStatement, AppDependencies, StatementStore,
  error_response, invalid_request, statement_not_found, to_upload_status, statement_line, respond,
  unavailable, to_public_statement,
}

-- A request as the framework hands it on: `body` is `none` where it is no JSON.
pub record CreateRequest : Type 0 where
  pub content_type : Option String
  pub body : Option Json
  pub large_fraction : Bool

abbrev pub is_unique_constraint : ErrorClass → Bool
is_unique_constraint unique_constraint = true
is_unique_constraint _ = false

unfoldable pub is_missing_object : Thrown → Bool
is_missing_object thrown_primitive = false
is_missing_object (thrown_object e) =
    is_object_not_found e.kind || is_text e.name "ObjectNotFoundError"

unfoldable pub to_create_input : String → CreateStatementRequest → CreateStatementInput
to_create_input statement_id request = record {
  id = some statement_id;
  owner_id = none;
  s3_key = String.◌++◌ "statements/" (String.◌++◌ statement_id "/source");
  target_month = request.target_month;
  content_type = request.content_type;
  content_length = request.content_length;
  status = some upload_pending;
}

-- The declared metadata against the object's.
abbrev pub same_type : Option String → String → Bool
same_type none expected = false
same_type (some actual) expected = str_eq actual expected

abbrev pub matches : StatementRecord → ObjectMetadata → Bool
matches statement metadata =
    same_type metadata.content_type (content_type_text statement.content_type)
    && metadata.content_length == statement.content_length

abbrev pub not_uploadable : Response
not_uploadable = error_response 409 "STATEMENT_NOT_UPLOADABLE" "この明細はアップロード完了にできません。"

abbrev pub metadata_mismatch : Response
metadata_mismatch = error_response 409 "UPLOAD_METADATA_MISMATCH" "アップロードされた画像の情報が登録内容と一致しません。"

abbrev pub upload_not_found : Response
upload_not_found = error_response 404 "UPLOAD_NOT_FOUND" "アップロードされた画像が見つかりません。"

module _ {S : Type 0} (app : AppDependencies S) where
  unfoldable pub created :
      CreateStatementInput → String → StatementRecord → Exec (Traced S) Response
  created input url statement =
      write_log (statement_line "statement_created" statement)
      >> respond (record {
        http_status = 201;
        body = created_body (record {
          statement_id = statement.id;
          status = statement.status;
          url = url;
          content_type = input.content_type;
          expires_in_seconds = app.presigned_url_expires_seconds;
        });
      })

  unfoldable pub on_create_failure : String → Thrown → Exec (Traced S) Response
  on_create_failure statement_id e =
      if instance_of is_unique_constraint e
      then respond (error_response 409 "STATEMENT_CONFLICT" "明細の作成が競合しました。")
      else unavailable "statement_create_failed" statement_id e

  unfoldable pub create_from : String → CreateStatementRequest → Exec (Traced S) Response
  create_from statement_id request =
      let input = to_create_input statement_id request in
      attempt
        (call (
          app.object_store.create_presigned_put_url (record {
            key = input.s3_key;
            content_type = input.content_type;
            expires_in_seconds = app.presigned_url_expires_seconds;
          })))
        (on_create_failure statement_id)
        (λ url.
          attempt (call (app.statements.create input)) (on_create_failure statement_id)
            (created input url))

  unfoldable pub create_parsed : String → Option CreateStatementRequest → Exec (Traced S) Response
  create_parsed statement_id none = respond invalid_request
  create_parsed statement_id (some request) = create_from statement_id request

  unfoldable pub create_with_body : String → Bool → Option Json → Exec (Traced S) Response
  create_with_body statement_id large_fraction none = respond invalid_request
  create_with_body statement_id large_fraction (some body) =
      if is_too_large_content_length large_fraction body
      then respond (error_response 413 "FILE_TOO_LARGE" "ファイルサイズが上限を超えています。")
      else create_parsed statement_id (create_statement_request body)

  -- `POST /statements`; `statement_id` is `randomUUID()`.
  unfoldable pub create_statement : String → CreateRequest → Exec (Traced S) Response
  create_statement statement_id request =
      if is_json_content_type request.content_type
      then create_with_body statement_id request.large_fraction request.body
      else respond (error_response 400 "INVALID_REQUEST" "Content-Typeはapplication/jsonを指定してください。")

  unfoldable pub after_upload_as : StatementRecord → StatementStatus → Exec (Traced S) Response
  after_upload_as statement failed = respond not_uploadable
  after_upload_as statement _ =
      write_log (statement_line "statement_upload_completed" statement)
      >> respond (to_upload_status 200 statement)

  unfoldable pub after_upload : Option StatementRecord → Exec (Traced S) Response
  after_upload none = respond statement_not_found
  after_upload (some statement) = after_upload_as statement statement.status

  unfoldable pub or_refetch : String → Option StatementRecord → Exec S (Option StatementRecord)
  or_refetch id none = app.statements.find_by_id id
  or_refetch id (some statement) = pure (some statement)

  unfoldable pub mark_or_refetch : String → Exec S (Option StatementRecord)
  mark_or_refetch id = app.statements.mark_uploaded id >>= or_refetch id

  unfoldable pub check_metadata : StatementRecord → ObjectMetadata → Exec (Traced S) Response
  check_metadata statement metadata =
      if matches statement metadata
      then attempt (call (mark_or_refetch statement.id))
          (unavailable "upload_complete_mark_uploaded_failed" statement.id) after_upload
      else respond metadata_mismatch

  unfoldable pub on_head_failure : StatementRecord → Thrown → Exec (Traced S) Response
  on_head_failure statement e =
      if is_missing_object e
      then respond upload_not_found
      else unavailable "upload_complete_head_object_failed" statement.id e

  unfoldable pub complete_as : StatementRecord → StatementStatus → Exec (Traced S) Response
  complete_as statement failed = respond not_uploadable
  complete_as statement upload_pending =
      attempt (call (app.object_store.head_object statement.s3_key)) (on_head_failure statement)
        (check_metadata statement)
  complete_as statement _ =
      write_log (statement_line "statement_upload_already_completed" statement)
      >> respond (to_upload_status 200 statement)

  unfoldable pub complete_found : Option StatementRecord → Exec (Traced S) Response
  complete_found none = respond statement_not_found
  complete_found (some statement) = complete_as statement statement.status

  -- `POST /statements/:id/upload/complete`
  unfoldable pub complete_upload : String → Exec (Traced S) Response
  complete_upload id =
      if app.is_uuid id
      then attempt (call (app.statements.find_by_id id))
          (unavailable "upload_complete_statement_get_failed" id) complete_found
      else respond invalid_request

  unfoldable pub show_found : Option StatementRecord → Exec (Traced S) Response
  show_found none = respond statement_not_found
  show_found (some statement) =
      respond (record { http_status = 200; body = statement_body (to_public_statement statement) })

  -- `GET /statements/:id`
  unfoldable pub get_statement : String → Exec (Traced S) Response
  get_statement id =
      if app.is_uuid id
      then attempt (call (app.statements.find_by_id id)) (unavailable "statement_get_failed" id)
          show_found
      else respond invalid_request
