-- ===== src/Api/Analyze.antt =====
-- The handler of src/app.ts that sends a statement to the worker.
pub mod Sending
use ai_statement_analyzer.Base.{
  ℕ, zero, suc, ◌+◌, ◌-◌, ◌*◌, ◌/◌, ◌%◌, ◌≤◌, ◌<◌, min, String, ◌≡◌, refl, sym, ap, ◌∙◌, ◌≢◌, ◌↔◌,
  ◌⊎◌, inl, inr, Bool, true, false, ◌&&◌, ◌||◌, not, Option, none, some, List, [], ◌∷◌, ◌++◌, map,
  arith, str_eq, eq_iff, eq_refl, ltb, leb, ◌==◌, if◌then◌else◌, is_some, or_else, Bool-cases,
  Option-cases, length, head?, filter, all, any, find, All,
}
use ai_statement_analyzer.Failure.{Thrown, Outcome, ok, throw}
use ai_statement_analyzer.Effects.{
  Exec, Traced, LogLine, line, at_info, at_error, write_log, call, pure, attempt, ◌>>◌, ◌>>=◌,
}
use ai_statement_analyzer.Database.Types.{
  StatementStatus, upload_pending, uploaded, queued, processing, completed, failed, StatementRecord,
}
use ai_statement_analyzer.Api.Responses.{
  Response, Body, AppDependencies, StatementStore, error_response, invalid_request,
  statement_not_found, to_upload_status, statement_line, respond, unavailable,
  dependency_failure_line,
}

module _ {S : Type 0} (app : AppDependencies S) where
  unfoldable pub sent : StatementRecord → Unit {0} → Exec (Traced S) Response
  sent statement u =
      write_log (statement_line "analyze_job_sent" statement)
      >> respond (to_upload_status 202 statement)

  abbrev pub recovery_failed : StatementRecord → Exec (Traced S) (Unit {0})
  recovery_failed statement =
      write_log (dependency_failure_line "analyze_queue_state_recovery_failed" statement.id)

  abbrev pub check_reset : StatementRecord → Option StatementRecord → Exec (Traced S) (Unit {0})
  check_reset statement none = recovery_failed statement
  check_reset statement (some _) = pure tt

  unfoldable pub recover_queue : StatementRecord → Exec (Traced S) (Unit {0})
  recover_queue statement =
      attempt (call (app.statements.reset_queued_to_uploaded statement.id))
        (λ x. recovery_failed statement) (check_reset statement)

  unfoldable pub on_send_failure : StatementRecord → Thrown → Exec (Traced S) Response
  on_send_failure statement e =
      recover_queue statement >> unavailable "analyze_job_send_failed" statement.id e

  unfoldable pub send : StatementRecord → Exec (Traced S) Response
  send statement =
      attempt (call (app.job_queue.send_analyze_job statement.id)) (on_send_failure statement)
        (sent statement)

  unfoldable pub refetched_as : StatementRecord → StatementStatus → Exec (Traced S) Response
  refetched_as statement uploaded =
      respond (error_response 409 "ANALYZE_CONFLICT" "解析開始の競合が発生しました。")
  refetched_as statement _ = respond (to_upload_status 200 statement)

  unfoldable pub refetched : Option StatementRecord → Exec (Traced S) Response
  refetched none = respond statement_not_found
  refetched (some statement) = refetched_as statement statement.status

  unfoldable pub after_mark : String → Option StatementRecord → Exec (Traced S) Response
  after_mark id none =
      attempt (call (app.statements.find_by_id id))
        (unavailable "analyze_statement_refetch_failed" id) refetched
  after_mark id (some statement) = send statement

  unfoldable pub analyze_as : StatementRecord → StatementStatus → Exec (Traced S) Response
  analyze_as statement upload_pending =
      respond (error_response 409 "STATEMENT_NOT_READY" "画像のアップロードが完了していません。")
  analyze_as statement failed =
      respond (error_response 409 "STATEMENT_NOT_ANALYZABLE" "この明細は解析対象にできません。")
  analyze_as statement uploaded =
      attempt (call (app.statements.mark_queued statement.id))
        (unavailable "analyze_mark_queued_failed" statement.id) (after_mark statement.id)
  analyze_as statement _ =
      write_log (statement_line "analyze_already_queued" statement)
      >> respond (to_upload_status 200 statement)

  unfoldable pub analyze_found : Option StatementRecord → Exec (Traced S) Response
  analyze_found none = respond statement_not_found
  analyze_found (some statement) = analyze_as statement statement.status

  -- `POST /statements/:id/analyze`
  unfoldable pub analyze_statement : String → Exec (Traced S) Response
  analyze_statement id =
      if app.is_uuid id
      then attempt (call (app.statements.find_by_id id))
          (unavailable "analyze_statement_get_failed" id) analyze_found
      else respond invalid_request
