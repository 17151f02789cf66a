-- ===== src/Lib.antt =====
-- The analysis of credit card statements: an HTTP API takes the images of statements, a queue hands
-- them to a worker, the worker has a model read them and stores the transactions in PostgreSQL.
--
-- The parts and their files:
--   Database      src/database/statement-repository.ts and the constraints of migrations/*.sql, and the
--     runner of the migrations, src/database/migrate.ts (Migrate).
--     Types, Table, Statements: the rows of `statements` and `transactions`, and each SQL statement as
--     an action on the two tables; Columns: what the column types of the transactions and the insights
--     refuse; Completion: the transaction of `saveTransactionsAndComplete` up to its commit, with its
--     rollback; Repository: the methods; World: the actions of all processes, the turns in which
--     they come between the queries of the modelled one, and faults before or behind a query.
--     Rows, Queries, Completion/*, Lifecycle/*, Leases/*: the lemmas and theorems about them.
--     AnalyticsQuery: the aggregates of a month; InsightsCache: the table of insights, its session and
--     the lock under which a month's insights are generated.
--   Ai            src/ai/ocr-schema.ts (OcrSchema, OcrParser) and src/ai/bedrock-ocr.ts (ToolUse,
--     BedrockOcr). The SDK's `send` is a parameter.
--   Worker        src/worker/analyze-job-error.ts (JobError), src/worker/analyze-job-handler.ts
--     (JobHandler) over the interfaces of its stores, and src/worker/analyze-worker.ts (Rounds,
--     AnalyzeWorker). Acknowledgement states what the handler needs of the stores, Settlement shows
--     that the repository provides it, Composition joins it to the loop, Storing the parser to the
--     tables.
--   Api           src/app.ts and src/api/schemas.ts: Schemas, Responses, Upload (create a statement,
--     complete its upload, show it), Failures (what is shown of a stored failure), Analyze (send it to the worker), Query and Analytics (the analytics
--     and the insights of a month, and the health checks).
--   Analytics     src/analytics/monthly-analytics.ts: the ranges of a month and the answer built of two
--     aggregates. The rounding of a percentage is a parameter.
--   Insights      src/insights/monthly-insights.ts (Schema, Input, Grounding), src/ai/bedrock-insights.ts
--     (Analyzer) and src/insights/monthly-insights-service.ts (Service): the input made of the
--     analytics, the validation of the model's answer against it, and the service that takes an answer
--     from the cache or generates it. JSON's text and the hash are parameters.
--   Queue         src/queue/analyze-job.ts, src/queue/sqs-job-queue.ts over the SDK's client (Sqs), and
--     src/queue/analyze-job-consumer.ts (Consumer).
--   Storage       src/storage/object-store.ts, and src/storage/s3-object-store.ts over the SDK's client
--     (S3).
--   Observability src/observability/logger.ts.
--   Configuration src/config/database.ts, src/config/frontend-origin.ts, src/server-safety.ts.
--   Startup       the checks of the environment in src/server.ts and src/worker.ts.
--   Failure, Effects, Json, Order, Base: errors as values (src/database/errors.ts and the error classes
--     of the other files), asynchronous code as actions on a state, JSON, and shared helpers.
--
-- How the code is read:
--   An `await` is an action on a state that answers or throws; what was written before a rejection
--   stays written. A timestamp is a number of microseconds, `NOW()` the database's clock at the
--   action; a transaction with a locked row is one action at one moment. A rollback restores the rows
--   but not the sequence of identifiers. A failing connection shows as the error of the query, which
--   may have taken effect or not, and so does a failing COMMIT. The values of a transaction and of a
--   saved document of insights are refused where their columns refuse them: a number out of range, a
--   text that is no date, U+0000 in a text. A date is written YYYY-MM-DD, the only form that the
--   program passes; other forms that PostgreSQL knows are refused in the model. The columns of
--   `statements` are tested for the content's length and the unique keys only: the program passes them
--   generated identifiers and keys, tested months and the fixed texts of its failures. An abort signal shows as an error that the called code throws.
--   The worker's loop runs through a list of rounds, which says where the shutdown is requested and
--   which operation its deadline gives up, and no bound is chosen.
--   A schema of the validation library is a function into Option, without its messages; text is
--   compared by code points; a number that is no integer is one value. The stage that a weak map
--   keeps for an error stands in the error. Log lines are values, without the identifiers of requests
--   and messages, receive counts, durations and the model's name.
--   A body's stream is the finite list of what its reads give. While the lock of the insights is waited
--   for, others may save; a lock, a commit or a migration may fail.
--
-- Not modelled: the request log, CORS and the limit on the body in src/app.ts, which belong to the web
-- framework; the prompts and tool descriptions of src/ai; the JSON text of a line of the log; the rest
-- of the entry points (src/server.ts, src/worker.ts), which connect the parts; the scripts
-- (src/migrate.ts, src/queue/consume-once.ts, src/ai/bedrock-ocr-smoke.ts and its fixture); the
-- infrastructure (infra), which describes cloud resources.
pub mod Base
pub mod Order
pub mod Failure
pub mod Effects
pub mod Database
pub mod Json
pub mod Ai
pub mod Storage
pub mod Queue
pub mod Worker
pub mod Api
pub mod Analytics
pub mod Insights
pub mod Observability
pub mod Configuration
pub mod Startup
