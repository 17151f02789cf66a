-- ===== src/Observability.antt =====
-- src/observability.
pub mod Logger
