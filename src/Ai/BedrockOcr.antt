-- ===== src/Ai/BedrockOcr.antt =====
-- src/ai/bedrock-ocr.ts: the analyzer of an image, and the classification of the model's errors. The
-- SDK's `send` is a parameter; the command's prompts and tool description are not modelled.
use ai_statement_analyzer.Base.{
  ℕ, String, not, Option, none, some, List, [], ◌∷◌, ◌==◌, ltb, length, any, or_else, if◌then◌else◌,
  ◌*◌,
}
use ai_statement_analyzer.Failure.{
  Thrown, thrown_object, thrown_primitive, Outcome, ok, throw, invalid_ocr_image_error,
  invalid_ocr_response_error,
}
use ai_statement_analyzer.Effects.{Exec, lift, ◌>>=◌, ◌>>◌}
use ai_statement_analyzer.Json.{Json, includes}
use ai_statement_analyzer.Ai.OcrParser.{OcrTransaction, parse_ocr_tool_input}
use ai_statement_analyzer.Ai.ToolUse.{ConverseOutput, Usage, get_tool_use}

abbrev pub max_statement_image_bytes : ℕ
max_statement_image_bytes = 10 * 1024 * 1024

abbrev pub ocr_tool_name : String
ocr_tool_name = "extract_credit_card_transactions"

pub record OcrImageInput : Type 0 where
  pub bytes : List ℕ
  pub content_type : String

pub record OcrUsage : Type 0 where
  pub input_tokens : ℕ
  pub output_tokens : ℕ
  pub total_tokens : ℕ

pub record OcrAnalysisResult : Type 0 where
  pub transactions : List OcrTransaction
  pub usage : Option OcrUsage

unfoldable pub validate_image : OcrImageInput → Outcome (Unit {0})
validate_image image =
    if not (includes ("image/jpeg" ∷ "image/png" ∷ []) image.content_type)
    then throw invalid_ocr_image_error
    else if length image.bytes == 0
    then throw invalid_ocr_image_error
    else if ltb max_statement_image_bytes (length image.bytes)
    then throw invalid_ocr_image_error
    else ok tt

abbrev pub to_usage : Option Usage → Option OcrUsage
to_usage none = none
to_usage (some u) = some (record {
  input_tokens = or_else u.input_tokens 0;
  output_tokens = or_else u.output_tokens 0;
  total_tokens = or_else u.total_tokens 0;
})

-- The `try` around the parser: its errors become errors of the response.
abbrev pub to_analysis : Option Usage → Outcome (List OcrTransaction) → Outcome OcrAnalysisResult
to_analysis usage (throw e) = throw invalid_ocr_response_error
to_analysis usage (ok transactions) =
    ok (record { transactions = transactions; usage = to_usage usage })

unfoldable pub read_response : ConverseOutput → Json → Outcome OcrAnalysisResult
read_response response input = to_analysis response.usage (parse_ocr_tool_input input)

module _ {S : Type 0} (send : OcrImageInput → Exec S ConverseOutput) where
  unfoldable pub analyze : OcrImageInput → Exec S OcrAnalysisResult
  analyze image = do
    lift (validate_image image)
    response ← send image
    input ← lift (get_tool_use invalid_ocr_response_error ocr_tool_name response)
    lift (read_response response input)

pub data BedrockErrorDisposition : Type 0 where
  retryable non_retryable : BedrockErrorDisposition

abbrev pub retryable_error_codes : List String
retryable_error_codes =
    "ThrottlingException" ∷ "ServiceUnavailableException" ∷ "InternalServerException"
    ∷ "ModelTimeoutException" ∷ "ModelNotReadyException" ∷ "ModelErrorException"
    ∷ "ServiceQuotaExceededException" ∷ "TimeoutError" ∷ "ECONNRESET" ∷ "ECONNREFUSED" ∷ "ETIMEDOUT"
    ∷ []

abbrev pub present : Option String → List String → List String
present none codes = codes
present (some s) codes = s ∷ codes

abbrev pub or_unknown : List String → List String
or_unknown [] = "UNKNOWN_ERROR" ∷ []
or_unknown (c ∷ codes) = c ∷ codes

unfoldable pub get_error_codes : Thrown → List String
get_error_codes thrown_primitive = "UNKNOWN_ERROR" ∷ []
get_error_codes (thrown_object e) = or_unknown (present e.name (present e.code []))

unfoldable pub classify_bedrock_error : Thrown → BedrockErrorDisposition
unfolding get_error_codes
classify_bedrock_error error =
    if any (includes retryable_error_codes) (get_error_codes error)
    then retryable
    else non_retryable
