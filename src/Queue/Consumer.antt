-- ===== src/Queue/Consumer.antt =====
-- `consumeOneAnalyzeJob` of src/queue/analyze-job-consumer.ts: one job is received and its message
-- deleted.
use ai_statement_analyzer.Base.{ℕ, String, Option, none, some}
use ai_statement_analyzer.Effects.{Exec, pure, ◌>>=◌, ◌>>◌}
use ai_statement_analyzer.Queue.{AnalyzeJobQueue, ReceivedAnalyzeJob}

pub data ConsumeOneAnalyzeJobResult : Type 0 where
  empty : ConsumeOneAnalyzeJobResult
  deleted : String → String → ℕ → ConsumeOneAnalyzeJobResult

module _ {S : Type 0} (queue : AnalyzeJobQueue S) where
  abbrev pub consume_job : Option ReceivedAnalyzeJob → Exec S ConsumeOneAnalyzeJobResult
  consume_job none = pure empty
  consume_job (some job) =
      queue.delete_message job.receipt_handle
      >> pure (deleted job.message_id job.statement_id job.receive_count)

  unfoldable pub consume_one_analyze_job : Exec S ConsumeOneAnalyzeJobResult
  consume_one_analyze_job = queue.receive_one >>= consume_job
