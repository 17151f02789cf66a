-- ===== src/Startup/Tests.antt =====
-- A local environment in which both start, and a host that is refused.
use ai_statement_analyzer.Base.{String, ◌≡◌, refl, false, none, some, str_eq, if◌then◌else◌}
use ai_statement_analyzer.Startup.{started, start_worker, start_api, start_failed}
use ai_statement_analyzer.Configuration.{Environment, get_database_pool_config, by_string}
use ai_statement_analyzer.Base.Number.{Number, integer}
use ai_statement_analyzer.Startup.Ready.{IfStarted, IsApiReady, IsWorkerReady, starts-AreReady}
use ai_statement_analyzer.Base.Int.{pos}
use ai_statement_analyzer.Base.Text.{trim, trim_start, decimal_from, trim_end, codes}

abbrev local : String → Environment
local host name =
    if str_eq name "HOST"
    then some host
    else if str_eq name "DATABASE_URL"
    then some "postgres://db"
    else if str_eq name "S3_BUCKET_NAME"
    then some "images"
    else if str_eq name "SQS_QUEUE_URL"
    then some "http://queue"
    else none

abbrev read_number : String → Number
read_number s = integer (pos (decimal_from 0 (codes s)))

refused_host :
    start_api read_number (local "0.0.0.0") ≡ start_failed "AUTH_REQUIRED_FOR_NON_LOOPBACK_HOST"
unfolding start_api
refused_host = refl

worker_starts :
    start_worker read_number (local "localhost")
    ≡ started (record {
      queue_url = "http://queue";
      region = "ap-northeast-1";
      database_config = by_string "postgres://db" false;
      bucket_name = "images";
      model_id = "jp.amazon.nova-2-lite-v1:0";
      processing_lease_seconds = 600;
    })
unfolding start_worker get_database_pool_config trim trim_start trim_end
worker_starts = refl

starts-AreReady_example :
    IfStarted (IsApiReady (local "localhost")) (start_api read_number (local "localhost"))
    × IfStarted (IsWorkerReady (local "localhost")) (start_worker read_number (local "localhost"))
starts-AreReady_example = starts-AreReady read_number (local "localhost")
