-- ===== src/Ai.antt =====
-- The calls of the model and the checks of its answers (src/ai).
pub mod OcrSchema
pub mod OcrParser
pub mod ToolUse
pub mod BedrockOcr
pub mod Tests
