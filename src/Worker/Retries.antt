-- ===== src/Worker/Retries.antt =====
-- Which errors of the analyzer of src/ai/bedrock-ocr.ts bring a job back.
use ai_statement_analyzer.Base.{
  ◌≡◌, refl, ◌⊎◌, inl, inr, Bool, true, false, Option, none, some, List, arith, Option-cases, head?,
  filter,
}
use ai_statement_analyzer.Failure.{
  Thrown, Outcome, ok, throw, invalid_ocr_image_error, invalid_ocr_response_error,
}
use ai_statement_analyzer.Effects.{Exec, continue}
use ai_statement_analyzer.Ai.OcrParser.{OcrTransaction, parse_ocr_tool_input}
use ai_statement_analyzer.Ai.ToolUse.{
  ConverseOutput, ContentBlock, ToolUseBlock, Usage, get_tool_use, single_tool_use, checked_input,
  tool_use_of, is_tool_use_block,
}
use ai_statement_analyzer.Ai.BedrockOcr.{
  OcrImageInput, validate_image, read_response, to_analysis, analyze, ocr_tool_name,
}
use ai_statement_analyzer.Worker.JobError.{
  AnalyzeJobErrorClassification, retry_later, permanent, ocr, classify_analyze_job_error,
  is_abort_error,
}

abbrev pub is_permanent : AnalyzeJobErrorClassification → Bool
is_permanent retry_later = false
is_permanent (permanent code message) = true

-- The job fails for good on the error.
abbrev pub IsFinal : Thrown → Type 0
IsFinal e = is_permanent (classify_analyze_job_error ocr e) ≡ true

image_error-IsFinal : IsFinal invalid_ocr_image_error
unfolding classify_analyze_job_error is_abort_error
image_error-IsFinal = refl

response_error-IsFinal : IsFinal invalid_ocr_response_error
unfolding classify_analyze_job_error is_abort_error
response_error-IsFinal = refl

validate_image-throws :
    (image : OcrImageInput) (e : Thrown)
    → validate_image image ≡ throw e
    → invalid_ocr_image_error ≡ e
unfolding validate_image
validate_image-throws image e h = ground (arith, h)

module _ (e : Thrown) where
  checked-throws :
      (t : Option ToolUseBlock)
      → checked_input invalid_ocr_response_error ocr_tool_name t ≡ throw e
      → invalid_ocr_response_error ≡ e
  checked-throws none h = ground (arith, h)
  checked-throws (some t) h = elim (Option-cases t.input) [
    | inl absent ↦ ground (arith, absent, h)
    | inr (input, present) ↦ ground (arith, present, h)
  ]

  single-throws :
      (content : Option (List ContentBlock))
      → single_tool_use invalid_ocr_response_error ocr_tool_name content ≡ throw e
      → invalid_ocr_response_error ≡ e
  single-throws none h = ground (arith, h)
  single-throws (some content) h =
      ground (arith, h, checked-throws (tool_use_of (head? (filter is_tool_use_block content))))

  get_tool_use-throws :
      (response : ConverseOutput)
      → get_tool_use invalid_ocr_response_error ocr_tool_name response ≡ throw e
      → invalid_ocr_response_error ≡ e
  unfolding get_tool_use
  get_tool_use-throws response h = ground (arith, h, single-throws response.content)

  to_analysis-throws :
      (usage : Option Usage) (o : Outcome (List OcrTransaction))
      → to_analysis usage o ≡ throw e
      → invalid_ocr_response_error ≡ e
  to_analysis-throws usage (ok transactions) h = absurd (ground (arith, h))
  to_analysis-throws usage (throw x) h = ground (arith, h)

  IsFinal-after : (x : Thrown) {P : Type 0} → IsFinal x → x ≡ e → P ⊎ IsFinal e
  IsFinal-after x f same = inr (rw same at f)

-- The outcome of a step and of what comes behind it.
step-cases :
    {S A B : Type 0} (o : Outcome A) (k : A → Exec S B) (s : S) (e : Thrown) {P : Type 0}
    → (o ≡ throw e → P)
    → ((a : A) → (k a s).0 ≡ throw e → P)
    → (continue o s k).0 ≡ throw e
    → P
step-cases (ok a) k s e f h t = h a t
step-cases (throw x) k s e f h t = f (ground (arith, t))

-- The analyzer's own checks of the image and of the model's answer end the job for good: an error on
-- which the job may be tried again is one that the call of the model has thrown.
pub analyze-IsFinal :
    {S : Type 0} (call_model : OcrImageInput → Exec S ConverseOutput) (image : OcrImageInput)
    (s : S) (e : Thrown)
    → (analyze call_model image s).0 ≡ throw e
    → ((call_model image s).0 ≡ throw e) ⊎ IsFinal e
unfolding analyze read_response
analyze-IsFinal call_model image s e thrown =
    step-cases (validate_image image) _ s e
      (λ h. IsFinal-after e _ image_error-IsFinal (validate_image-throws image e h))
      (λ u rest.
        step-cases (call_model image s).0 _ _ e (λ h. inl h)
          (λ response rest.
            step-cases (get_tool_use invalid_ocr_response_error ocr_tool_name response) _ _ e
              (λ h. IsFinal-after e _ response_error-IsFinal (get_tool_use-throws e response h))
              (λ input rest. IsFinal-after e _ response_error-IsFinal (
                to_analysis-throws e response.usage (parse_ocr_tool_input input)
                  (ground (arith, rest))))
              rest)
          rest)
      thrown
