-- ===== src/Worker/JobError.antt =====
-- src/worker/analyze-job-error.ts: which errors of a job are tried again and which are final.
use ai_statement_analyzer.Base.{String, Bool, true, false, ◌||◌, if◌then◌else◌}
use ai_statement_analyzer.Failure.{
  Thrown, thrown_object, thrown_primitive, ErrorClass, object_not_found, invalid_source_object,
  invalid_ocr_image, invalid_ocr_response,
}
use ai_statement_analyzer.Database.Types.{
  StatementFailureCode, source_object_not_found, source_object_invalid, unsupported_image,
  ocr_non_retryable,
}
use ai_statement_analyzer.Ai.ToolUse.{is_text}
use ai_statement_analyzer.Ai.BedrockOcr.{
  retryable, non_retryable, BedrockErrorDisposition, classify_bedrock_error,
}

pub data AnalyzeJobErrorStage : Type 0 where
  object_store ocr database : AnalyzeJobErrorStage

pub data AnalyzeJobErrorClassification : Type 0 where
  retry_later : AnalyzeJobErrorClassification
  permanent : StatementFailureCode → String → AnalyzeJobErrorClassification

unfoldable pub is_abort_error : Thrown → Bool
is_abort_error thrown_primitive = false
is_abort_error (thrown_object e) = is_text e.name "AbortError" || is_text e.code "ABORT_ERR"

abbrev pub is_object_not_found : ErrorClass → Bool
is_object_not_found object_not_found = true
is_object_not_found _ = false

abbrev pub is_invalid_source_object : ErrorClass → Bool
is_invalid_source_object invalid_source_object = true
is_invalid_source_object _ = false

abbrev pub is_invalid_ocr_image : ErrorClass → Bool
is_invalid_ocr_image invalid_ocr_image = true
is_invalid_ocr_image _ = false

abbrev pub is_invalid_ocr_response : ErrorClass → Bool
is_invalid_ocr_response invalid_ocr_response = true
is_invalid_ocr_response _ = false

-- `error instanceof C`
abbrev pub instance_of : (ErrorClass → Bool) → Thrown → Bool
instance_of is thrown_primitive = false
instance_of is (thrown_object e) = is e.kind

abbrev pub by_disposition : BedrockErrorDisposition → AnalyzeJobErrorClassification
by_disposition retryable = retry_later
by_disposition non_retryable = permanent ocr_non_retryable "OCRサービスが明細を処理できませんでした。"

abbrev pub classify_at_stage : AnalyzeJobErrorStage → Thrown → AnalyzeJobErrorClassification
classify_at_stage object_store error =
    if instance_of is_object_not_found error
    then permanent source_object_not_found "明細画像が見つかりません。"
    else if instance_of is_invalid_source_object error
    then permanent source_object_invalid "明細画像の情報が不正です。"
    else retry_later
classify_at_stage ocr error =
    if instance_of is_invalid_ocr_image error
    then permanent unsupported_image "対応していない画像形式です。"
    else if instance_of is_invalid_ocr_response error
    then permanent StatementFailureCode.invalid_ocr_response "OCR結果を検証できませんでした。"
    else by_disposition (classify_bedrock_error error)
classify_at_stage database error = retry_later

unfoldable pub classify_analyze_job_error :
    AnalyzeJobErrorStage → Thrown → AnalyzeJobErrorClassification
unfolding is_abort_error
classify_analyze_job_error stage error =
    if is_abort_error error then retry_later else classify_at_stage stage error
