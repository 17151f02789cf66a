-- ===== src/Database.antt =====
-- The PostgreSQL tables and the repository over them (src/database/statement-repository.ts).
pub mod Types
pub mod Table
pub mod Columns
pub mod Statements
pub mod Completion
pub mod World
pub mod Queries
pub mod Repository
pub mod Rows
pub mod Lifecycle
pub mod Leases
pub mod InsightsCache
pub mod AnalyticsQuery
pub mod Migrate
pub mod Tests
