-- ===== src/Queue/Sqs.antt =====
-- src/queue/sqs-job-queue.ts and the message of src/queue/analyze-job.ts: the queue over the SDK's
-- client, the texts of JSON and of numbers, and the schema library's test of an identifier.
pub mod Delivery
mod Tests
use ai_statement_analyzer.Base.{
  ℕ, zero, suc, ◌+◌, ◌-◌, ◌*◌, ◌/◌, ◌%◌, ◌≤◌, ◌<◌, min, String, ◌≡◌, refl, sym, ap, ◌∙◌, ◌≢◌, ◌↔◌,
  ◌⊎◌, inl, inr, Bool, true, false, ◌&&◌, ◌||◌, not, Option, none, some, List, [], ◌∷◌, ◌++◌, map,
  arith, str_eq, eq_iff, eq_refl, ltb, leb, ◌==◌, if◌then◌else◌, is_some, or_else, Bool-cases,
  Option-cases, length, head?, filter, all, any, find, All,
}
use ai_statement_analyzer.Base.Maybe.{◌>>=◌}
use ai_statement_analyzer.Base.Number.{Number, positive_integer}
use ai_statement_analyzer.Failure.{
  Outcome, ok, throw, Thrown, own_error, plain_error, invalid_job_message_error,
}
use ai_statement_analyzer.Effects.{Exec}
use ai_statement_analyzer.Json.{Json, Fields, field, end, as_object, as_text, only_keys, get}
use ai_statement_analyzer.Queue.{ReceivedAnalyzeJob}

-- What the program reads of a delivered message; a missing text is `none`.
pub record Message : Type 0 where
  pub message_id : Option String
  pub receipt_handle : Option String
  pub body : Option String
  pub approximate_receive_count : Option String

-- The SDK's client, with the attributes of its commands left out.
pub record SqsClient (S : Type 0) : Type 0 where
  pub send_message : String → Exec S (Unit {0})
  pub receive_message : Exec S (List Message)
  pub delete_message : String → Exec S (Unit {0})

-- `JSON.parse` (`none` where it throws), `JSON.stringify`, `Number` and `z.string().uuid()`.
pub record Platform : Type 0 where
  pub parse : String → Option Json
  pub stringify : Json → String
  pub to_number : String → Number
  pub is_uuid : String → Bool

abbrev pub message_json : String → Json
message_json id = Json.obj (field "statementId" (Json.text id) end)

abbrev pub schema_error : Thrown
schema_error = own_error plain_error "ZodError"

abbrev pub filled : Option String → Option String
filled none = none
filled (some s) = if str_eq s "" then none else some s

module _ (platform : Platform) where
  abbrev pub uuid_text : String → Option String
  uuid_text s = if platform.is_uuid s then some s else none

  abbrev pub strict_fields : Fields → Option Fields
  strict_fields fields = if only_keys ("statementId" ∷ []) fields then some fields else none

  -- `analyzeJobMessageSchema`, with the identifier as its answer.
  unfoldable pub analyze_job_message : Json → Option String
  analyze_job_message v = as_object v >>= λ all.
      strict_fields all >>= λ fields. (get "statementId" fields >>= as_text) >>= uuid_text

  unfoldable pub read_count : Option String → ℕ
  read_count text = or_else (positive_integer (platform.to_number (or_else text "1"))) 1

  abbrev pub or_invalid : {A : Type 0} → Option A → Outcome A
  or_invalid none = throw invalid_job_message_error
  or_invalid (some a) = ok a

  abbrev pub with_parts : Message → Option ReceivedAnalyzeJob
  with_parts m = filled m.message_id >>= λ message_id. filled m.receipt_handle >>= λ receipt_handle.
      filled m.body >>= λ body. platform.parse body >>= λ value.
      analyze_job_message value >>= λ statement_id. some (record {
        statement_id = statement_id;
        message_id = message_id;
        receipt_handle = receipt_handle;
        receive_count = read_count m.approximate_receive_count;
      })

  unfoldable pub read_message : Message → Outcome ReceivedAnalyzeJob
  read_message m = or_invalid (with_parts m)

  abbrev pub some_job : Outcome ReceivedAnalyzeJob → Outcome (Option ReceivedAnalyzeJob)
  some_job (ok job) = ok (some job)
  some_job (throw e) = throw e

  abbrev pub first_job : List Message → Outcome (Option ReceivedAnalyzeJob)
  first_job [] = ok none
  first_job (m ∷ messages) = some_job (read_message m)

  module _ {S : Type 0} (client : SqsClient S) where
    unfoldable pub send_analyze_job : String → Exec S (Unit {0})
    send_analyze_job id s =
        if platform.is_uuid id
        then client.send_message (platform.stringify (message_json id)) s
        else (throw schema_error, s)

    abbrev pub received : Outcome (List Message) → Outcome (Option ReceivedAnalyzeJob)
    received (ok messages) = first_job messages
    received (throw e) = throw e

    unfoldable pub receive_one : Exec S (Option ReceivedAnalyzeJob)
    receive_one s = (received (client.receive_message s).0, (client.receive_message s).1)
