-- ===== src/Worker/Acknowledgement.antt =====
-- When the handler of src/worker/analyze-job-handler.ts lets a message be deleted.
use ai_statement_analyzer.Base.{
  String, ◌≡◌, refl, inl, inr, Bool, true, false, ◌&&◌, Option, none, some, List, ◌∷◌, arith,
  Bool-cases,
}
use ai_statement_analyzer.Failure.{Thrown, Outcome, ok}
use ai_statement_analyzer.Effects.{Traced, LogLine, pure}
use ai_statement_analyzer.Effects.Laws.{attempt-cases, bind-ok}
use ai_statement_analyzer.Database.Types.{
  StatementFailureCode, CreateTransactionInput, ProcessingClaim, StatementRecord,
}
use ai_statement_analyzer.Worker.JobError.{
  retry_later, permanent, classify_analyze_job_error, instance_of, is_invalid_ocr_response,
}
use ai_statement_analyzer.Worker.JobHandler.{
  AnalyzeJobHandlerDependencies, AnalyzeJobDisposition, ack, handle_job, on_error, settle_failure,
  after_mark_failed, log_bedrock_failure, is_terminal_status, on_mark_failed_error,
  resolve_unclaimed_job, save_stage, on_claim_error, ocr_stage, process, is_ocr, fetch,
  to_create_transaction_inputs, is_bedrock_request_failure, resolve, trouble, stage_text,
  get_safe_error_code, disposition_text,
}
use ai_statement_analyzer.Base.Number.{Number}
use ai_statement_analyzer.Queue.{ReceivedAnalyzeJob}
use ai_statement_analyzer.Worker.JobError.{
  AnalyzeJobErrorStage, AnalyzeJobErrorClassification, permanent,
}
use ai_statement_analyzer.Storage.{DownloadedObject}
use ai_statement_analyzer.Ai.BedrockOcr.{OcrAnalysisResult}

-- What the stores promise of a statement whose work is settled in the state that they leave.
pub record SettlingStores {S : Type 0} (deps : AnalyzeJobHandlerDependencies S) (id : String)
    (Settled : S → Type 0) : Type 0 where
  pub of_claim :
      (token : String) (lease : Option Number) (s : S) (c : ProcessingClaim)
      → (deps.statements.claim_for_processing id token lease s).0 ≡ ok (some c)
      → c.statement_id ≡ id
  pub of_absent :
      (s : S)
      → (deps.statements.find_by_id id s).0 ≡ ok none
      → Settled (deps.statements.find_by_id id s).1
  pub of_terminal :
      (s : S) (r : StatementRecord)
      → (deps.statements.find_by_id id s).0 ≡ ok (some r)
      → is_terminal_status r.status ≡ true
      → Settled (deps.statements.find_by_id id s).1
  pub of_save :
      (token : String) (inputs : List CreateTransactionInput) (s : S)
      → (deps.statements.save_transactions_and_complete id token inputs s).0 ≡ ok tt
      → Settled (deps.statements.save_transactions_and_complete id token inputs s).1
  pub of_mark_failed :
      (token : String) (code : StatementFailureCode) (message : String) (s : S)
      → (deps.statements.mark_failed id token code message s).0 ≡ ok true
      → Settled (deps.statements.mark_failed id token code message s).1

module _ {S : Type 0} (deps : AnalyzeJobHandlerDependencies S) (job : ReceivedAnalyzeJob)
    (Settled : S → Type 0) (stores : SettlingStores deps job.statement_id Settled) where
  -- An acknowledgement stands on a settled statement.
  abbrev AckSettles : Outcome AnalyzeJobDisposition × Traced S → Type 0
  AckSettles r = r.0 ≡ ok ack → Settled r.1.world

  after_mark_failed-AckSettles :
      (stage : AnalyzeJobErrorStage) (code : StatementFailureCode) (marked : Bool) (t : Traced S)
      → (marked ≡ true → Settled t.world)
      → AckSettles (after_mark_failed deps job stage code marked t)
  unfolding after_mark_failed
  after_mark_failed-AckSettles stage code true t settled = λ h. settled refl
  after_mark_failed-AckSettles stage code false t settled = λ h. absurd (ground arith)

  settle_failure-AckSettles :
      (c : ProcessingClaim) (stage : AnalyzeJobErrorStage) (e : Thrown)
      (by : AnalyzeJobErrorClassification) (t : Traced S)
      → c.statement_id ≡ job.statement_id
      → AckSettles (settle_failure deps job c stage e by t)
  unfolding settle_failure on_mark_failed_error
  settle_failure-AckSettles c stage e retry_later t own = λ h. absurd (ground arith)
  settle_failure-AckSettles c stage e (permanent code message) t own = rw own (
      attempt-cases AckSettles
        (deps.statements.mark_failed job.statement_id c.processing_token code message) _ _ t
        (λ x thrown h. absurd (ground arith))
        (λ marked done. after_mark_failed-AckSettles stage code marked _ (λ yes'.
          stores.of_mark_failed c.processing_token code message t.world (rw yes' at done))))

  logged :
      (stage : AnalyzeJobErrorStage) (e : Thrown) (by : AnalyzeJobErrorClassification)
      (t : Traced S)
      → (l : List LogLine) × (log_bedrock_failure deps job stage e by t
          ≡ (ok tt, record t { log = l }))
  unfolding log_bedrock_failure
  logged stage e by t = elim (Bool-cases (is_ocr stage && instance_of is_invalid_ocr_response e)) [
    | inl a ↦ (
      trouble job "bedrock_response_invalid" (stage_text stage) "failed" "PERMANENT"
            (get_safe_error_code e)
          ∷ t.log,
      rw a refl,
    )
    | inr a ↦ elim (Bool-cases (is_bedrock_request_failure stage e)) [
      | inl b ↦ (
        trouble job "bedrock_request_failed" (stage_text stage) "failed" (disposition_text by)
              (get_safe_error_code e)
            ∷ t.log,
        rw (a, b) refl,
      )
      | inr b ↦ (t.log, rw (a, b) refl)
    ]
  ]

  on_error-AckSettles :
      (c : ProcessingClaim) (stage : AnalyzeJobErrorStage) (e : Thrown) (t : Traced S)
      → c.statement_id ≡ job.statement_id
      → AckSettles (on_error deps job c stage e t)
  unfolding on_error
  on_error-AckSettles c stage e t own =
      let first =
        trouble job "worker_stage_failed" (stage_text stage) "failed"
          (disposition_text (classify_analyze_job_error stage e)) (get_safe_error_code e) in
      let (l, same) =
        logged stage e (classify_analyze_job_error stage e) (record t { log = first ∷ t.log }) in
      rw same (
        settle_failure-AckSettles c stage e (classify_analyze_job_error stage e)
          (record t { log = l }) own)

  save_settles :
      (id token : String) (inputs : List CreateTransactionInput) (s : S)
      → id ≡ job.statement_id
      → (deps.statements.save_transactions_and_complete id token inputs s).0 ≡ ok tt
      → Settled (deps.statements.save_transactions_and_complete id token inputs s).1
  save_settles id token inputs s own = rw own (stores.of_save token inputs s)

  save_stage-AckSettles :
      (c : ProcessingClaim) (analysis : OcrAnalysisResult) (t : Traced S)
      → c.statement_id ≡ job.statement_id
      → AckSettles (save_stage deps job c analysis t)
  unfolding save_stage
  save_stage-AckSettles c analysis t own =
      attempt-cases AckSettles
        (deps.statements.save_transactions_and_complete c.statement_id c.processing_token
          (to_create_transaction_inputs analysis))
        _ _ _ (λ x thrown. on_error-AckSettles c _ x _ own)
        (λ u done h. save_settles c.statement_id c.processing_token _ t.world own done)

  ocr_stage-AckSettles :
      (c : ProcessingClaim) (o : DownloadedObject) (t : Traced S)
      → c.statement_id ≡ job.statement_id
      → AckSettles (ocr_stage deps job c o t)
  unfolding ocr_stage
  ocr_stage-AckSettles c o t own =
      attempt-cases AckSettles (deps.analyze _) _ _ _ (λ x thrown. on_error-AckSettles c _ x _ own)
        (λ analysis done. save_stage-AckSettles c analysis _ own)

  found_settles :
      (o : Option StatementRecord) (s : S)
      → (deps.statements.find_by_id job.statement_id s).0 ≡ ok o
      → resolve deps job o ≡ ack
      → Settled (deps.statements.find_by_id job.statement_id s).1
  found_settles none s found e = stores.of_absent s found
  found_settles (some r) s found e = stores.of_terminal s r found (ground arith)

  resolve_unclaimed-AckSettles :
      (d : AnalyzeJobDisposition) (s : S)
      → (resolve_unclaimed_job deps job s).0 ≡ ok d
      → d ≡ ack
      → Settled (resolve_unclaimed_job deps job s).1
  unfolding resolve_unclaimed_job
  resolve_unclaimed-AckSettles d s h e =
      let b =
        bind-ok (deps.statements.find_by_id job.statement_id) (λ o. pure (resolve deps job o)) s
          h in
      rw b.state (found_settles b.value s b.first (ground (arith, b.rest)))

  process-AckSettles :
      (c : Option ProcessingClaim) (t : Traced S)
      → ((claim : ProcessingClaim) → c ≡ some claim → claim.statement_id ≡ job.statement_id)
      → AckSettles (process deps job c t)
  unfolding process on_claim_error
  process-AckSettles none t own =
      attempt-cases AckSettles (resolve_unclaimed_job deps job) _ _ t
        (λ x thrown h. absurd (ground arith))
        (λ d done h. resolve_unclaimed-AckSettles d t.world done (ground arith))
  process-AckSettles (some c) t own =
      attempt-cases AckSettles (fetch deps job c) _ _ _
        (λ x thrown. on_error-AckSettles c _ x _ (own c refl))
        (λ o done. ocr_stage-AckSettles c o _ (own c refl))

  -- The handler answers ACK only in a state in which the statement is settled.
  pub handle_job-AckSettles :
      (token : String) (t : Traced S)
      → (handle_job deps job token t).0 ≡ ok ack
      → Settled (handle_job deps job token t).1.world
  unfolding handle_job on_claim_error
  handle_job-AckSettles token t =
      attempt-cases AckSettles
        (deps.statements.claim_for_processing job.statement_id token deps.lease_seconds) _ _ _
        (λ x thrown h. absurd (ground arith))
        (λ c done.
          process-AckSettles c _
            (λ claim e. stores.of_claim token deps.lease_seconds t.world claim (rw e at done)))
