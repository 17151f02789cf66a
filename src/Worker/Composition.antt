-- ===== src/Worker/Composition.antt =====
-- The worker as src/worker.ts puts it together: the loop, the handler and the repository. The queue, the
-- object store, the analyzer and the tokens are parameters.
use ai_statement_analyzer.Base.{
  String, ◌≡◌, refl, sym, ◌≢◌, Option, some, List, [], ◌∷◌, arith, All,
}
use ai_statement_analyzer.Worker.AnalyzeWorker.{run}
use ai_statement_analyzer.Worker.AnalyzeWorker.Deletion.{DeletesSettled, IsRound, run-Keeps}
use ai_statement_analyzer.Worker.Settlement.{IsSettled, over_repository, handle_job-IsSettled}
use ai_statement_analyzer.Failure.{Outcome, ok, throw}
use ai_statement_analyzer.Effects.{Traced, Exec}
use ai_statement_analyzer.Queue.{AnalyzeJobQueue, ReceivedAnalyzeJob}
use ai_statement_analyzer.Database.World.{World}
use ai_statement_analyzer.Storage.{StatementObjectStore}
use ai_statement_analyzer.Worker.JobHandler.{AnalyzeJobDisposition, retry, handle_job, ack}
use ai_statement_analyzer.Ai.BedrockOcr.{OcrImageInput, OcrAnalysisResult}
use ai_statement_analyzer.Base.Number.{Number}
use ai_statement_analyzer.Worker.Rounds.{AnalyzeWorkerOptions, Round, WorkerState}

-- A call of `deleteMessage`, the job that was handled last, and the tables at this moment.
pub record Deletion : Type 0 where
  pub receipt_handle : String
  pub handled_last : Option ReceivedAnalyzeJob
  pub tables : World

-- The world and the log of the handler, the job that was handled last, and the deletions, the latest
-- first.
pub record Floor : Type 0 where
  pub work : Traced World
  pub handled_last : Option ReceivedAnalyzeJob
  pub deletions : List Deletion

abbrev pub with_world : World → Floor → Floor
with_world w s = record s { work = record s.work { world = w } }

abbrev pub answer_of : Outcome AnalyzeJobDisposition → Outcome (Option AnalyzeJobDisposition)
answer_of (ok d) = ok (some d)
answer_of (throw e) = throw e

module _ (queue : AnalyzeJobQueue World) (objects : StatementObjectStore World)
    (analyze : OcrImageInput → Exec World OcrAnalysisResult) (lease : Option Number)
    (token_of : ReceivedAnalyzeJob → World → String) where
  abbrev pub handled : ReceivedAnalyzeJob → Floor → Outcome AnalyzeJobDisposition × Traced World
  handled job s =
      handle_job (over_repository objects analyze lease) job (token_of job s.work.world) s.work

  abbrev pub floor_queue : AnalyzeJobQueue Floor
  floor_queue = record {
    send_analyze_job =
        λ id s. let r = queue.send_analyze_job id s.work.world in (r.0, with_world r.1 s);
    receive_one = λ s. let r = queue.receive_one s.work.world in (r.0, with_world r.1 s);
    delete_message = λ handle s.
        let r = queue.delete_message handle s.work.world in
        (
          r.0,
          record (with_world r.1 s) {
            deletions =
                record {
                  receipt_handle = handle;
                  handled_last = s.handled_last;
                  tables = s.work.world;
                }
                ∷ s.deletions;
          },
        );
  }

  abbrev pub worker_over_repository : AnalyzeWorkerOptions Floor
  worker_over_repository = record {
    queue = floor_queue;
    handle_job = λ job s. (
      answer_of (handled job s).0,
      record s { work = (handled job s).1; handled_last = some job },
    );
  }

  -- The message was that of the job that was handled last, whose statement was gone, COMPLETED or
  -- FAILED.
  pub record WasSettled (d : Deletion) : Type 0 where
    pub job : ReceivedAnalyzeJob
    pub was_handled : d.handled_last ≡ some job
    pub its_message : job.receipt_handle ≡ d.receipt_handle
    pub settled : IsSettled job.statement_id d.tables

  abbrev pub AllSettled : Floor → Type 0
  AllSettled s = All WasSettled s.deletions

  abbrev pub SettledNow : ReceivedAnalyzeJob → Floor → Type 0
  SettledNow job s = (s.handled_last ≡ some job) × IsSettled job.statement_id s.work.world

  answer-ack :
      (o : Outcome AnalyzeJobDisposition) (d : Option AnalyzeJobDisposition)
      → answer_of o ≡ ok d
      → d ≢ some retry
      → o ≡ ok ack
  answer-ack (throw e) d h n = cc
  answer-ack (ok ack) d h n = refl
  answer-ack (ok retry) d h n =
      let same : some retry ≡ d = ground (arith, h) in absurd (n (sym same))

  worker-DeletesSettled : DeletesSettled worker_over_repository AllSettled SettledNow
  worker-DeletesSettled = record {
    receives = λ s k. k;
    handles = λ job s k. k;
    answers = λ job s d h n. (
      refl,
      handle_job-IsSettled objects analyze lease job (token_of job s.work.world) s.work
          (answer-ack (handled job s).0 d h n),
    );
    deletes = λ job s k (last, settled).
        (record { job = job; was_handled = last; its_message = refl; settled = settled }, k);
  }

  -- However long the worker over the repository runs, wherever the shutdown and its deadline fall, and
  -- whatever the queue, the object store, the analyzer and the other processes do: where an operation
  -- that is given up leaves no deletion of an unsettled job behind, every message that was
  -- deleted was that of the job handled last, at a moment at which its statement was gone from the
  -- tables, COMPLETED or FAILED.
  pub run-AllSettled :
      (rounds : List (Round Floor)) (s : WorkerState Floor)
      → All (IsRound worker_over_repository AllSettled SettledNow) rounds
      → s.world.deletions ≡ []
      → AllSettled (run worker_over_repository rounds s).world
  run-AllSettled rounds s r none_yet = run-Keeps worker-DeletesSettled rounds s r (rw none_yet tt)
