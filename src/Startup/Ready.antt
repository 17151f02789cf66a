-- ===== src/Startup/Ready.antt =====
-- What a started API and a started worker can rely on.
use ai_statement_analyzer.Base.{
  ℕ, zero, suc, ◌≤◌, String, ◌≡◌, refl, inl, inr, Bool, true, Option, none, some, arith, leb,
  or_else, Bool-cases,
}
use ai_statement_analyzer.Base.Int.{pos, negsuc}
use ai_statement_analyzer.Base.Number.{Number, integer, fractional, positive_integer}
use ai_statement_analyzer.Startup.{
  Start, at_most, start_worker, ApiConfig, start_api, WorkerConfig, start_failed, or_failed,
  started, database_config_of, positive_number, is_exactly_true, or_null, host_of,
  allows_non_loopback_host, expiry_of, max_expiry_seconds,
}
use ai_statement_analyzer.Configuration.{
  Environment, DatabasePoolConfig, is_allowed_server_host, variable, is_true,
  get_database_pool_config,
}
use ai_statement_analyzer.Base.Number.{Number, positive_integer, integer}
use ai_statement_analyzer.Failure.{Outcome, throw, ok}
use ai_statement_analyzer.Configuration.Usable.{
  UsableOrRefused, IsUsable, variable-IsFilled, IsFilled, get_database_pool_config-UsableOrRefused,
}

-- A host from outside is served only where the environment allows it.
pub record IsApiReady (environment : Environment) (c : ApiConfig) : Type 0 where
  pub allowed :
      is_allowed_server_host c.host (is_exactly_true (environment "ALLOW_NON_LOOPBACK_HOST")) ≡ true
  pub database : IsUsable (is_true (environment "DB_SSL")) c.database_config
  pub bucket : IsFilled c.bucket_name
  pub queue : IsFilled c.queue_url
  pub expiry_from : 1 ≤ c.presigned_url_expires_seconds
  pub expiry_to : c.presigned_url_expires_seconds ≤ max_expiry_seconds

pub record IsWorkerReady (environment : Environment) (c : WorkerConfig) : Type 0 where
  pub database : IsUsable (is_true (environment "DB_SSL")) c.database_config
  pub bucket : IsFilled c.bucket_name
  pub queue : IsFilled c.queue_url
  pub lease : 1 ≤ c.processing_lease_seconds

abbrev pub IfStarted : {A : Type 0} → (A → Type 0) → Start A → Type 0
IfStarted P (start_failed code) = Unit
IfStarted P (started a) = P a

or_failed-IfStarted :
    {A B : Type 0} (P : B → Type 0) (o : Option A) (code : String) (f : A → Start B)
    → ((a : A) → o ≡ some a → IfStarted P (f a))
    → IfStarted P (or_failed o code f)
or_failed-IfStarted P none code f h = tt
or_failed-IfStarted P (some a) code f h = h a refl

or_null-IsUsable :
    (tls : Bool) (o : Outcome DatabasePoolConfig) (c : DatabasePoolConfig)
    → UsableOrRefused tls o
    → or_null o ≡ some c
    → IsUsable tls c
or_null-IsUsable tls (throw e) c u h = cc
or_null-IsUsable tls (ok d) c u h = let same : d ≡ c = ground (arith, h) in rw (← same) u

positive_integer-positive : (n : Number) (m : ℕ) → positive_integer n ≡ some m → 1 ≤ m
positive_integer-positive (integer (pos zero)) m h = cc
positive_integer-positive (integer (pos (suc n))) m h = ground (arith, h)
positive_integer-positive (integer (negsuc n)) m h = cc
positive_integer-positive fractional m h = cc

at_most-bounds :
    (limit : ℕ) (o : Option ℕ) (n : ℕ)
    → ((m : ℕ) → o ≡ some m → 1 ≤ m)
    → at_most limit o ≡ some n
    → (1 ≤ n) × (n ≤ limit)
at_most-bounds limit none n f h = cc
at_most-bounds limit (some m) n f h = elim (Bool-cases (leb m limit)) [
  | inl y ↦
      let same : m ≡ n = ground (arith, rw y at h) in rw (← same) (f m refl, ground (arith, y))
  | inr k ↦ absurd (ground (arith, rw k at h))
]

module _ (number_of : String → Number) (environment : Environment) where
  database-IsUsable :
      (c : DatabasePoolConfig)
      → database_config_of number_of environment ≡ some c
      → IsUsable (is_true (environment "DB_SSL")) c
  database-IsUsable c h =
      or_null-IsUsable _ (get_database_pool_config number_of environment) c
        (get_database_pool_config-UsableOrRefused number_of environment) h

  expiry-bounds :
      (e : ℕ) → expiry_of number_of environment ≡ some e → (1 ≤ e) × (e ≤ max_expiry_seconds)
  expiry-bounds e h =
      at_most-bounds max_expiry_seconds
        (positive_number number_of environment "S3_PRESIGNED_URL_EXPIRES_SECONDS" "300") e
        (λ m.
          positive_integer-positive
            (number_of (or_else (environment "S3_PRESIGNED_URL_EXPIRES_SECONDS") "300")) m)
        h

  start_api-IsApiReady : IfStarted (IsApiReady environment) (start_api number_of environment)
  unfolding start_api
  start_api-IsApiReady =
      elim (Bool-cases (
        is_allowed_server_host (host_of number_of environment)
          (allows_non_loopback_host number_of environment))) [
            | inr n ↦ rw n tt
            | inl y ↦ rw y (
                or_failed-IfStarted (IsApiReady environment)
                  (database_config_of number_of environment) _ _
                  (λ d hd.
                    or_failed-IfStarted (IsApiReady environment)
                      (variable (environment "S3_BUCKET_NAME")) _ _
                      (λ b hb.
                        or_failed-IfStarted (IsApiReady environment)
                          (variable (environment "SQS_QUEUE_URL")) _ _
                          (λ q hq.
                            or_failed-IfStarted (IsApiReady environment)
                              (expiry_of number_of environment) _ _
                              (λ e he.
                                let (from, to) = expiry-bounds e he in
                                record {
                                  allowed = y;
                                  database = database-IsUsable d hd;
                                  bucket = variable-IsFilled _ b hb;
                                  queue = variable-IsFilled _ q hq;
                                  expiry_from = from;
                                  expiry_to = to;
                                })))))
          ]

  start_worker-IsWorkerReady :
      IfStarted (IsWorkerReady environment) (start_worker number_of environment)
  unfolding start_worker
  start_worker-IsWorkerReady =
      or_failed-IfStarted (IsWorkerReady environment) (variable (environment "SQS_QUEUE_URL")) _ _
        (λ q hq.
          or_failed-IfStarted (IsWorkerReady environment) (database_config_of number_of environment)
            _ _
            (λ d hd.
              or_failed-IfStarted (IsWorkerReady environment)
                (variable (environment "S3_BUCKET_NAME")) _ _
                (λ b hb.
                  or_failed-IfStarted (IsWorkerReady environment)
                    (positive_number number_of environment "PROCESSING_LEASE_SECONDS" "600") _ _
                    (λ l hl. record {
                      database = database-IsUsable d hd;
                      bucket = variable-IsFilled _ b hb;
                      queue = variable-IsFilled _ q hq;
                      lease =
                          positive_integer-positive
                            (number_of (or_else (environment "PROCESSING_LEASE_SECONDS") "600")) l
                            hl;
                    }))))

  -- Whatever the environment says: an API that starts serves this host only, or is allowed to serve
  -- another; an API or a worker that starts has a usable database configuration and names of a bucket
  -- and a queue; the links of the API expire within a week, and the worker's lease is at least one
  -- second.
  pub starts-AreReady :
      IfStarted (IsApiReady environment) (start_api number_of environment)
      × IfStarted (IsWorkerReady environment) (start_worker number_of environment)
  starts-AreReady = (start_api-IsApiReady, start_worker-IsWorkerReady)
