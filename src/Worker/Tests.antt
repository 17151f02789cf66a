-- ===== src/Worker/Tests.antt =====
-- The theorems about the worker on one job.
use ai_statement_analyzer.Base.{
  ◌≡◌, refl, Bool, true, false, ◌&&◌, not, none, some, List, [], ◌∷◌, map, arith, if◌then◌else◌,
  All, ◌⊎◌, ◌++◌,
}
use ai_statement_analyzer.Failure.{ok, throw, plain}
use ai_statement_analyzer.Effects.{Exec, Traced, pure}
use ai_statement_analyzer.Database.Types.{completed}
use ai_statement_analyzer.Database.Completion.{
  complete_transaction, complete_body, check_claim, check_completed, rollback, upsert_all,
  upsert_transaction,
}
use ai_statement_analyzer.Database.Completion.{violates_type}
use ai_statement_analyzer.Database.Columns.{is_date_codes}
use ai_statement_analyzer.Database.Statements.{update_claim, select_statement, update_completed}
use ai_statement_analyzer.Database.World.{World, query}
use ai_statement_analyzer.Database.Repository.{
  claim_for_processing, claim_with, save_transactions_and_complete,
}
use ai_statement_analyzer.Database.Lifecycle.{status_of}
use ai_statement_analyzer.Database.Leases.Holder.{stored}
use ai_statement_analyzer.Database.Tests.{start, held, held-IsHolder}
use ai_statement_analyzer.Ai.Tests.{answer, parsed, answer-parsed}
use ai_statement_analyzer.Ai.BedrockOcr.{OcrImageInput, OcrAnalysisResult}
use ai_statement_analyzer.Storage.{StatementObjectStore}
use ai_statement_analyzer.Queue.{ReceivedAnalyzeJob, AnalyzeJobQueue}
use ai_statement_analyzer.Worker.JobHandler.{
  ack, handle_job, process, fetch, check_object, ocr_stage, save_stage, to_create_transaction_input,
}
use ai_statement_analyzer.Worker.Settlement.{IsSettled, over_repository, handle_job-IsSettled}
use ai_statement_analyzer.Worker.Storing.{parsed_stores}
use ai_statement_analyzer.Worker.Retries.{IsFinal, analyze-IsFinal}
use ai_statement_analyzer.Ai.ToolUse.{ConverseOutput}
use ai_statement_analyzer.Ai.BedrockOcr.{analyze, validate_image}
use ai_statement_analyzer.Failure.{invalid_ocr_image_error}
use ai_statement_analyzer.Worker.Rounds.{
  Round, quiet, deadline_passes, WorkerState, AnalyzeWorkerOptions,
}
use ai_statement_analyzer.Worker.AnalyzeWorker.{run}
use ai_statement_analyzer.Worker.AnalyzeWorker.Deletion.{DeletesSettled, run-Keeps}
use ai_statement_analyzer.Worker.AnalyzeWorker.Backoff.{IsBackoff, run-IsBackoff}
use ai_statement_analyzer.Worker.AnalyzeWorker.Stopping.{IsStopped, run-stops}
use ai_statement_analyzer.Worker.Composition.{
  Floor, AllSettled, worker_over_repository, run-AllSettled,
}

parsed_stores_example :
    ((complete_transaction "s1" "t1" (map to_create_transaction_input parsed) held).0 ≡ ok tt)
    × (status_of "s1"
          (complete_transaction "s1" "t1" (map to_create_transaction_input parsed) held).1
        ≡ some completed)
    × (stored "s1" (complete_transaction "s1" "t1" (map to_create_transaction_input parsed) held).1
        ≡ map to_create_transaction_input parsed)
parsed_stores_example =
    parsed_stores answer parsed "s1" "t1" held answer-parsed ((refl, refl), tt) held-IsHolder

-- A PNG of ten bytes, and an analyzer that answers one transaction.
abbrev objects : StatementObjectStore World
objects = record {
  create_presigned_put_url = λ input. pure "https://example.test/put";
  head_object = λ key. pure (record { content_type = some "image/png"; content_length = 10 });
  get_object = λ key. pure (record {
    metadata = record { content_type = some "image/png"; content_length = 10 };
    bytes = 137 ∷ 80 ∷ 78 ∷ 71 ∷ 13 ∷ 10 ∷ 26 ∷ 10 ∷ 0 ∷ 0 ∷ [];
  });
}

abbrev analyzer : OcrImageInput → Exec World OcrAnalysisResult
analyzer image = pure (record { transactions = parsed; usage = none })

abbrev job : ReceivedAnalyzeJob
job = record { statement_id = "s1"; message_id = "m1"; receipt_handle = "r1"; receive_count = 1 }

abbrev before : Traced World
before = record { world = record { database = start; turns = [] }; log = [] }

before-acks : (handle_job (over_repository objects analyzer none) job "t1" before).0 ≡ ok ack
unfolding handle_job process fetch check_object ocr_stage save_stage claim_for_processing claim_with
    query update_claim save_transactions_and_complete complete_transaction complete_body check_claim
    check_completed rollback upsert_all upsert_transaction violates_type is_date_codes
    select_statement update_completed
before-acks = refl

handle_job-IsSettled_example :
    IsSettled "s1" (handle_job (over_repository objects analyzer none) job "t1" before).1.world
handle_job-IsSettled_example =
    handle_job-IsSettled objects analyzer none job "t1" before before-acks

-- A queue that counts the messages it has delivered and deleted, with a handler of one job.
pub record Shop : Type 0 where
  pub delivered : Bool
  pub handled : Bool
  pub deleted : Bool

abbrev shop_queue : AnalyzeJobQueue Shop
shop_queue = record {
  send_analyze_job = λ id. pure tt;
  receive_one =
      λ s. if s.delivered then (throw plain, s) else (ok (some job), record s { delivered = true });
  delete_message = λ handle s. (ok tt, record s { deleted = true });
}

abbrev shop_worker : AnalyzeWorkerOptions Shop
shop_worker = record {
  queue = shop_queue;
  handle_job = λ j s. (ok (some ack), record s { handled = true });
}

abbrev shop : WorkerState Shop
shop = record {
  world = record { delivered = false; handled = false; deleted = false };
  log = [];
  shutdown_requested = false;
  waits = [];
}

abbrev DeletedHandled : Shop → Type 0
DeletedHandled s = s.deleted && not s.handled ≡ false

shop-DeletesSettled : DeletesSettled shop_worker DeletedHandled (λ j s. s.handled ≡ true)
shop-DeletesSettled = record {
  receives = λ s k. ground (arith, k);
  handles = λ j s k. ground (arith, k);
  answers = λ j s d e n. refl;
  deletes = λ j s k d. ground (arith, k, d);
}

abbrev rounds : List (Round Shop)
rounds =
    record {
      shutdown_receiving = false;
      shutdown_waiting = false;
      handling = quiet;
      deleting = quiet;
    }
    ∷ record {
      shutdown_receiving = false;
      shutdown_waiting = true;
      handling = quiet;
      deleting = deadline_passes (λ s. s);
    }
    ∷ []

run-Keeps_example : DeletedHandled (run shop_worker rounds shop).world
run-Keeps_example =
    run-Keeps shop-DeletesSettled rounds shop
      (
        record { handling = tt; deleting = λ j. tt },
        (record { handling = tt; deleting = λ j s k. k.0 }, tt),
      )
      refl

run-IsBackoff_example : All IsBackoff (run shop_worker rounds shop).waits
run-IsBackoff_example = run-IsBackoff shop_worker rounds shop refl

abbrev asked_to_stop : Round Shop
asked_to_stop = record {
  shutdown_receiving = true;
  shutdown_waiting = false;
  handling = quiet;
  deleting = quiet;
}

run-stops_example :
    (run shop_worker (rounds ++ (asked_to_stop ∷ []) ++ rounds) shop
      ≡ run shop_worker (rounds ++ (asked_to_stop ∷ [])) shop)
    × IsStopped shop_worker (run shop_worker (rounds ++ (asked_to_stop ∷ []) ++ rounds) shop)
run-stops_example = run-stops shop_worker rounds asked_to_stop rounds shop refl

-- The worker over the repository, with a queue that delivers the job in every receive.
abbrev job_queue : AnalyzeJobQueue World
job_queue = record {
  send_analyze_job = λ id. pure tt;
  receive_one = pure (some job);
  delete_message = λ handle. pure tt;
}

abbrev floor : WorkerState Floor
floor = record {
  world = record { work = before; handled_last = none; deletions = [] };
  log = [];
  shutdown_requested = false;
  waits = [];
}

abbrev quiet_round : Round Floor
quiet_round = record {
  shutdown_receiving = false;
  shutdown_waiting = false;
  handling = quiet;
  deleting = quiet;
}

run-AllSettled_example :
    AllSettled job_queue objects analyzer none
      (λ j w. "t1")
      (run
        (worker_over_repository job_queue objects analyzer none (λ j w. "t1"))
        (quiet_round ∷ quiet_round ∷ [])
        floor).world
run-AllSettled_example =
    run-AllSettled job_queue objects analyzer none (λ j w. "t1") (quiet_round ∷ quiet_round ∷ [])
      floor
      (
        record { handling = tt; deleting = λ j. tt },
        (record { handling = tt; deleting = λ j. tt }, tt),
      )
      refl

-- An empty image.
abbrev empty_image : OcrImageInput
empty_image = record { bytes = []; content_type = "image/png" }

abbrev silent_model : OcrImageInput → Exec World ConverseOutput
silent_model image = pure (record { content = none; stop_reason = none; usage = none })

empty-throws : (analyze silent_model empty_image before.world).0 ≡ throw invalid_ocr_image_error
unfolding analyze validate_image
empty-throws = refl

analyze-IsFinal_example :
    ((silent_model empty_image before.world).0 ≡ throw invalid_ocr_image_error)
    ⊎ IsFinal invalid_ocr_image_error
analyze-IsFinal_example =
    analyze-IsFinal silent_model empty_image before.world invalid_ocr_image_error empty-throws
