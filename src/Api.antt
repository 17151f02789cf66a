-- ===== src/Api.antt =====
-- The HTTP API of src/app.ts.
pub mod Schemas
pub mod Responses
pub mod Failures
pub mod Upload
pub mod Analyze
pub mod Query
pub mod Analytics
mod Tests
