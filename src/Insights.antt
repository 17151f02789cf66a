-- ===== src/Insights.antt =====
-- The monthly insights (src/insights and src/ai/bedrock-insights.ts).
pub mod Schema
pub mod Input
pub mod Grounding
pub mod Analyzer
pub mod Service
mod Tests
