-- ===== src/Parser.antt =====
-- internal/parser: what is read out of the traffic of the LLM APIs.
pub mod Json
pub mod Sse
pub mod Claude
pub mod ToolJson
pub mod ToolResult
mod Tests
