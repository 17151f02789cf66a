-- ===== src/Api/Failures.antt =====
-- What src/app.ts shows of the failures that the processes have stored.
use mathlib.Core.Option
use ai_statement_analyzer.Base.{String, ◌≡◌, Option, is_some, All}
use ai_statement_analyzer.Database.Types.{
  StatementRecord, StatementFailureCode, source_object_not_found, source_object_invalid,
  unsupported_image, invalid_ocr_response, ocr_non_retryable, processing_failed, failure_code_text,
  is_failed, Database,
}
use ai_statement_analyzer.Api.Responses.{PublicFailure, message_text, to_public_statement}

-- The texts for the users, by the code.
abbrev pub text_of : StatementFailureCode → String
text_of source_object_not_found = "明細画像が見つかりません。"
text_of source_object_invalid = "明細画像の情報が不正です。"
text_of unsupported_image = "対応していない画像形式です。"
text_of invalid_ocr_response = "明細を解析できませんでした。"
text_of ocr_non_retryable = "明細を解析できませんでした。"
text_of processing_failed = "明細を処理できませんでした。"

abbrev pub failure_of : StatementFailureCode → PublicFailure
failure_of code = record { code = failure_code_text code; message = message_text (text_of code) }

-- A row has one of the six codes exactly where it is FAILED.
abbrev pub IsCoded : StatementRecord → Type 0
IsCoded r =
    (o : Option StatementFailureCode) × (r.failure_code ≡ Option.map failure_code_text o)
    × (is_some o ≡ is_failed r.status)

-- The statement shows a failure exactly where it is FAILED: that of one of the codes.
abbrev pub ShowsFailure : StatementRecord → Type 0
ShowsFailure r =
    (o : Option StatementFailureCode) × ((to_public_statement r).failure ≡ Option.map failure_of o)
    × (is_some o ≡ is_failed r.status)

abbrev AreCoded : Database → Type 0
AreCoded db = All IsCoded db.statements
