-- ===== src/Queue.antt =====
-- The job queue: the types of src/queue/analyze-job.ts.
pub mod Sqs
pub mod Consumer
use ai_statement_analyzer.Base.{ℕ, String, Option}
use ai_statement_analyzer.Effects.{Exec}

pub record ReceivedAnalyzeJob : Type 0 where
  pub statement_id : String
  pub message_id : String
  pub receipt_handle : String
  pub receive_count : ℕ

pub record AnalyzeJobQueue (S : Type 0) : Type 0 where
  pub send_analyze_job : String → Exec S (Unit {0})
  pub receive_one : Exec S (Option ReceivedAnalyzeJob)
  pub delete_message : String → Exec S (Unit {0})
