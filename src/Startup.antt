-- ===== src/Startup.antt =====
-- src/server.ts and src/worker.ts up to the parts that they connect: what the environment must say for
-- the API and for the worker to start.
pub mod Ready
mod Tests
use ai_statement_analyzer.Base.{
  ℕ, zero, suc, ◌+◌, ◌-◌, ◌*◌, ◌/◌, ◌%◌, ◌≤◌, ◌<◌, min, String, ◌≡◌, refl, sym, ap, ◌∙◌, ◌≢◌, ◌↔◌,
  ◌⊎◌, inl, inr, Bool, true, false, ◌&&◌, ◌||◌, not, Option, none, some, List, [], ◌∷◌, ◌++◌, map,
  arith, str_eq, eq_iff, eq_refl, ltb, leb, ◌==◌, if◌then◌else◌, is_some, or_else, Bool-cases,
  if-both, Option-cases, length, head?, filter, all, any, find, All,
}
use ai_statement_analyzer.Configuration
use ai_statement_analyzer.Failure.{Outcome, ok, throw}
use ai_statement_analyzer.Base.Number.{Number, positive_integer}
use ai_statement_analyzer.Configuration.{
  DatabasePoolConfig, Environment, variable, get_database_pool_config, is_allowed_server_host,
}

-- Refused with the error code of the log, or started with the configuration.
pub data Start (A : Type 0) : Type 0 where
  start_failed : String → Start A
  started : A → Start A

pub record InsightsModel : Type 0 where
  pub model_id : String
  pub prompt_version : String

pub record ApiConfig : Type 0 where
  pub host : String
  pub port : Number
  pub database_config : DatabasePoolConfig
  pub region : String
  pub bucket_name : String
  pub queue_url : String
  pub presigned_url_expires_seconds : ℕ
  pub frontend_origin : Option String
  pub insights : Option InsightsModel

pub record WorkerConfig : Type 0 where
  pub queue_url : String
  pub region : String
  pub database_config : DatabasePoolConfig
  pub bucket_name : String
  pub model_id : String
  pub processing_lease_seconds : ℕ

abbrev pub is_exactly_true : Option String → Bool
is_exactly_true none = false
is_exactly_true (some s) = str_eq s "true"

-- `try { getDatabasePoolConfig(process.env) } catch { null }`
abbrev pub or_null : {A : Type 0} → Outcome A → Option A
or_null (ok a) = some a
or_null (throw e) = none

abbrev pub region_of : Environment → String
region_of environment = or_else (environment "AWS_REGION") "ap-northeast-1"

abbrev pub insights_of : Option String → Option String → Option InsightsModel
insights_of none version = none
insights_of (some model_id) version =
    some (record { model_id = model_id; prompt_version = or_else version "v1" })

module _ {A B : Type 0} where
  -- `if (!value) { ... process.exit(1) }`
  abbrev pub or_failed : Option A → String → (A → Start B) → Start B
  or_failed none code continue = start_failed code
  or_failed (some a) code continue = continue a

abbrev pub at_most : ℕ → Option ℕ → Option ℕ
at_most limit none = none
at_most limit (some n) = if leb n limit then some n else none

abbrev pub max_expiry_seconds : ℕ
max_expiry_seconds = 604800

module _ (number_of : String → Number) (environment : Environment) where
  abbrev pub host_of : String
  host_of = or_else (environment "HOST") "127.0.0.1"

  abbrev pub allows_non_loopback_host : Bool
  allows_non_loopback_host = is_exactly_true (environment "ALLOW_NON_LOOPBACK_HOST")

  abbrev pub database_config_of : Option DatabasePoolConfig
  database_config_of = or_null (get_database_pool_config number_of environment)

  -- A number that is an integer from 1 on.
  abbrev pub positive_number : String → String → Option ℕ
  positive_number name fallback = positive_integer (number_of (or_else (environment name) fallback))

  abbrev pub expiry_of : Option ℕ
  expiry_of = at_most max_expiry_seconds (positive_number "S3_PRESIGNED_URL_EXPIRES_SECONDS" "300")

  unfoldable pub start_api : Start ApiConfig
  start_api =
      if not (is_allowed_server_host host_of allows_non_loopback_host)
      then start_failed "AUTH_REQUIRED_FOR_NON_LOOPBACK_HOST"
      else or_failed database_config_of "DATABASE_CONFIG_MISSING" (λ database_config.
        or_failed (variable (environment "S3_BUCKET_NAME")) "S3_BUCKET_NAME_MISSING" (λ bucket_name.
          or_failed (variable (environment "SQS_QUEUE_URL")) "SQS_QUEUE_URL_MISSING" (λ queue_url.
            or_failed expiry_of "S3_PRESIGNED_URL_EXPIRES_SECONDS_INVALID" (λ expiry.
              started (record {
                host = host_of;
                port = number_of (or_else (environment "PORT") "3000");
                database_config = database_config;
                region = region_of environment;
                bucket_name = bucket_name;
                queue_url = queue_url;
                presigned_url_expires_seconds = expiry;
                frontend_origin = variable (environment "FRONTEND_ORIGIN");
                insights =
                    insights_of (variable (environment "BEDROCK_INSIGHTS_MODEL_ID"))
                      (environment "INSIGHTS_PROMPT_VERSION");
              })))))

  unfoldable pub start_worker : Start WorkerConfig
  start_worker =
      or_failed (variable (environment "SQS_QUEUE_URL")) "SQS_QUEUE_URL_MISSING" (λ queue_url.
        or_failed database_config_of "DATABASE_CONFIG_MISSING" (λ database_config.
          or_failed (variable (environment "S3_BUCKET_NAME")) "S3_BUCKET_NAME_MISSING"
            (λ bucket_name.
              or_failed (positive_number "PROCESSING_LEASE_SECONDS" "600")
                "PROCESSING_LEASE_SECONDS_INVALID"
                (λ lease. started (record {
                  queue_url = queue_url;
                  region = region_of environment;
                  database_config = database_config;
                  bucket_name = bucket_name;
                  model_id =
                      or_else (environment "BEDROCK_OCR_MODEL_ID") "jp.amazon.nova-2-lite-v1:0";
                  processing_lease_seconds = lease;
                })))))
