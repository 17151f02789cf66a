-- ===== src/Insights/Analyzer.antt =====
-- src/ai/bedrock-insights.ts: the analyzer of a month's input. The SDK's `send` is a parameter; the
-- prompts and the tool's description are not modelled.
use ai_statement_analyzer.Base.{String, Bool, Option, List}
use ai_statement_analyzer.Failure.{invalid_insights_error}
use ai_statement_analyzer.Effects.{Exec, pure, lift, ◌>>=◌}
use ai_statement_analyzer.Ai.ToolUse.{ConverseOutput, get_tool_use}
use ai_statement_analyzer.Ai.BedrockOcr.{OcrUsage, to_usage}
use ai_statement_analyzer.Insights.Schema.{Insight}
use ai_statement_analyzer.Insights.Input.{CompactInsightsInput}
use ai_statement_analyzer.Insights.Grounding.{parse_and_validate_insights}

abbrev pub insights_tool_name : String
insights_tool_name = "generate_spending_insights"

-- The usage has the fields of the OCR analyzer's.
pub record InsightsAnalysisResult : Type 0 where
  pub insights : List Insight
  pub usage : Option OcrUsage

module _ {F S : Type 0} (is_positive : F → Bool)
    (send : CompactInsightsInput F → Exec S ConverseOutput) where
  unfoldable pub analyze_insights : CompactInsightsInput F → Exec S InsightsAnalysisResult
  analyze_insights input = do
    response ← send input
    tool_input ← lift (get_tool_use invalid_insights_error insights_tool_name response)
    insights ← lift (parse_and_validate_insights is_positive tool_input input)
    pure (record { insights = insights; usage = to_usage response.usage })
