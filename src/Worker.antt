-- ===== src/Worker.antt =====
-- The worker (src/worker).
pub mod JobError
pub mod JobHandler
pub mod Acknowledgement
pub mod Settlement
pub mod Composition
pub mod Storing
pub mod Retries
pub mod Rounds
pub mod AnalyzeWorker
mod Tests
