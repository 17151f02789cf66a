-- ===== src/Ai/ToolUse.antt =====
-- `getToolUse` of src/ai/bedrock-ocr.ts and of src/ai/bedrock-insights.ts: one function, which the two
-- files write out with their own error class and tool name. The response is what the program reads of
-- the SDK's output.
use ai_statement_analyzer.Base.{
  ℕ, String, Bool, true, false, not, ◌||◌, Option, none, some, List, ◌==◌, str_eq, length, filter,
  head?, if◌then◌else◌,
}
use ai_statement_analyzer.Failure.{Thrown, Outcome, ok, throw}
use ai_statement_analyzer.Json.{Json}

pub record ToolUseBlock : Type 0 where
  pub name : Option String
  pub input : Option Json

-- A block of the content: one with the key `toolUse`, whose value may be missing, or another.
pub data ContentBlock : Type 0 where
  tool_use : Option ToolUseBlock → ContentBlock
  other_block : ContentBlock

pub record Usage : Type 0 where
  pub input_tokens : Option ℕ
  pub output_tokens : Option ℕ
  pub total_tokens : Option ℕ

-- `content` is `none` where `output?.message?.content` is no array.
pub record ConverseOutput : Type 0 where
  pub content : Option (List ContentBlock)
  pub stop_reason : Option String
  pub usage : Option Usage

abbrev pub is_text : Option String → String → Bool
is_text none s = false
is_text (some t) s = str_eq t s

abbrev pub is_tool_use_block : ContentBlock → Bool
is_tool_use_block (tool_use _) = true
is_tool_use_block other_block = false

abbrev pub tool_use_of : Option ContentBlock → Option ToolUseBlock
tool_use_of none = none
tool_use_of (some other_block) = none
tool_use_of (some (tool_use t)) = t

module _ (invalid : Thrown) (tool_name : String) where
  -- The checks of the name and of the input; the input is all that the callers read.
  abbrev pub checked_input : Option ToolUseBlock → Outcome Json
  checked_input none = throw invalid
  checked_input (some t) =
      if not (is_text t.name tool_name)
      then throw invalid
      else (elim t.input [ none ↦ throw invalid | some input ↦ ok input ])

  abbrev pub single_tool_use : Option (List ContentBlock) → Outcome Json
  single_tool_use none = throw invalid
  single_tool_use (some content) =
      if not (length content == 1) || not (length (filter is_tool_use_block content) == 1)
      then throw invalid
      else checked_input (tool_use_of (head? (filter is_tool_use_block content)))

  unfoldable pub get_tool_use : ConverseOutput → Outcome Json
  get_tool_use response =
      if not (is_text response.stop_reason "tool_use")
      then throw invalid
      else single_tool_use response.content
