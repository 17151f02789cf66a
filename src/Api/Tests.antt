-- ===== src/Api/Tests.antt =====
-- The theorems about the API on small stores.
use ai_statement_analyzer.Base.{
  ℕ, ◌+◌, ◌≡◌, refl, Bool, true, false, ◌||◌, none, some, [], ◌∷◌, arith, List,
}
use ai_statement_analyzer.Base.Int.{pos, ℤ, ltb_ℤ}
use ai_statement_analyzer.Base.Number.{integer}
use ai_statement_analyzer.Failure.{ok, plain, object_not_found_error}
use ai_statement_analyzer.Effects.{Traced, pure, raise}
use ai_statement_analyzer.Json.{Json, text, num, obj, end, field}
use ai_statement_analyzer.Database.Types.{
  StatementRecord, Database, is_upload_pending, uploaded, queued, image_png,
}
use ai_statement_analyzer.Database.World.{pending_row}
use ai_statement_analyzer.Database.Repository.{create}
use ai_statement_analyzer.Api.Schemas.{
  CreateStatementRequest, create_statement_request, create_fields, target_month, content_length,
  analytics_year, analytics_month,
}
use ai_statement_analyzer.Api.Schemas.Accepted.{accepted_row, create-accepted}
use ai_statement_analyzer.Database.World.{Action, claims, fails}
use ai_statement_analyzer.Database.Types.{unsupported_image}
use ai_statement_analyzer.Api.Responses.{
  message_text, inherited_method, inherited_value, AppDependencies, to_upload_status,
  public_failure_message, to_public_failure,
}
use ai_statement_analyzer.Api.Upload.{complete_upload, to_create_input}
use ai_statement_analyzer.Api.Upload.Checked.{
  MarksChecked, AnswersKeeps, complete_upload-AnswersKeeps,
}
use ai_statement_analyzer.Api.Analyze.{
  analyze_statement, analyze_found, analyze_as, after_mark, send, sent,
}
use ai_statement_analyzer.Api.Analyze.Sending.{IsSent, analyze_statement-IsSent}
use ai_statement_analyzer.Insights.Service.{Rendering, MonthlyInsightsServiceOptions}
use ai_statement_analyzer.Api.Analytics.Answered.{
  IsAnswered, InsightsAnswered, provider, get_monthly_analytics-IsAnswered,
  get_insights-InsightsAnswered,
}
use ai_statement_analyzer.Database.AnalyticsQuery.{MonthlyAnalyticsAggregates}
use ai_statement_analyzer.Database.InsightsCache.{MonthlyInsightsCacheSession}
use ai_statement_analyzer.Api.Query.{
  parse_query, from_entries, QueryParameter, monthly_analytics_query,
}
use ai_statement_analyzer.Api.Analytics.{get_insights, get_monthly_analytics}
use ai_statement_analyzer.Analytics.{MonthlyAnalyticsAggregate}

-- A request, and the row that `create` makes of it.
abbrev body : Json
body = obj (
    field "targetMonth" (text "2026-01") (
      field "fileName" (text "a.png") (
        field "contentType" (text "image/png")
          (field "contentLength" (num (integer (pos 10))) end))))

abbrev request : CreateStatementRequest
request = record {
  target_month = "2026-01";
  file_name = "a.png";
  content_type = image_png;
  content_length = 10;
}

abbrev empty : Database
empty = record { now = 5; statements = []; transactions = []; next_transaction_id = 1 }

body-request : create_statement_request body ≡ some request
unfolding create_statement_request create_fields target_month content_length
body-request = refl

create-accepted_example :
    create "g" (to_create_input "s1" request) (record { database = empty; turns = [] }) ≡ (
      ok (accepted_row body request "s1" "g" empty),
      record {
        database = record empty { statements = accepted_row body request "s1" "g" empty ∷ [] };
        turns = [];
      },
    )
create-accepted_example = create-accepted body request "s1" "g" empty body-request refl

-- A code of the table, an unknown code, and a name that every object inherits.
public_failures :
    (to_public_failure (some "UNSUPPORTED_IMAGE")
      ≡ some (record { code = "UNSUPPORTED_IMAGE"; message = message_text "対応していない画像形式です。" }))
    × (to_public_failure (some "SECRET")
        ≡ some (record { code = "PROCESSING_FAILED"; message = message_text "明細を処理できませんでした。" }))
    × (to_public_failure (some "constructor")
        ≡ some (record { code = "constructor"; message = inherited_method }))
unfolding to_public_failure public_failure_message inherited_value
public_failures = (refl, refl, refl)

-- One statement, whose upload is checked and marked, and whose job is sent.
pub record Desk : Type 0 where
  pub row : StatementRecord
  pub head_matched : Bool
  pub jobs : ℕ

abbrev app : AppDependencies Desk
app = record {
  statements = record {
    create = λ input. raise plain;
    find_by_id = λ id s. (ok (some s.row), s);
    mark_uploaded = λ id s. (
      ok (some (record s.row { status = uploaded })),
      record s { row = record s.row { status = uploaded } },
    );
    mark_queued = λ id s. (
      ok (some (record s.row { status = queued })),
      record s { row = record s.row { status = queued } },
    );
    reset_queued_to_uploaded = λ id s. (ok none, s);
  };
  object_store = record {
    create_presigned_put_url = λ input. pure "https://example.test/put";
    head_object = λ key s. (
      ok (record { content_type = some "image/png"; content_length = 10 }),
      record s { head_matched = true },
    );
    get_object = λ key. raise object_not_found_error;
  };
  job_queue = record {
    send_analyze_job = λ id s. (ok tt, record s { jobs = s.jobs + 1 });
    receive_one = pure none;
    delete_message = λ handle. pure tt;
  };
  presigned_url_expires_seconds = 300;
  is_uuid = λ id. true;
}

-- What is kept: a row that has left UPLOAD_PENDING has had its object seen.
abbrev Seen : Desk → Type 0
Seen s = is_upload_pending s.row.status || s.head_matched ≡ true

desk-MarksChecked : MarksChecked app Seen
desk-MarksChecked = record {
  finds = λ id s k. k;
  heads = λ key s k. ground arith;
  marks = λ statement metadata s k head same. refl;
}

abbrev desk : Traced Desk
desk = record {
  world = record {
    row = pending_row 0 "s1" "k1" "2026-01-01" image_png 10;
    head_matched = false;
    jobs = 0;
  };
  log = [];
}

complete_upload-AnswersKeeps_example : AnswersKeeps Seen (complete_upload app "s1" desk)
complete_upload-AnswersKeeps_example =
    complete_upload-AnswersKeeps app Seen desk-MarksChecked "s1" desk refl

abbrev ready : Traced Desk
ready = record {
  world = record {
    row = record (pending_row 0 "s1" "k1" "2026-01-01" image_png 10) { status = uploaded };
    head_matched = true;
    jobs = 0;
  };
  log = [];
}

ready-accepted :
    (analyze_statement app "s1" ready).0
    ≡ ok (to_upload_status 202 (record ready.world.row { status = queued }))
unfolding analyze_statement analyze_found analyze_as after_mark send sent
ready-accepted = refl

analyze_statement-IsSent_example :
    IsSent app "s1" ready.world
      (to_upload_status 202 (record ready.world.row { status = queued }))
      (analyze_statement app "s1" ready).1.world
analyze_statement-IsSent_example =
    analyze_statement-IsSent app "s1" ready
      (to_upload_status 202 (record ready.world.row { status = queued })) ready-accepted refl

-- Queries of a month over a store without transactions.
abbrev empty_aggregates : MonthlyAnalyticsAggregates
empty_aggregates =
    let empty_aggregate : MonthlyAnalyticsAggregate = record {
      total_amount = pos 0;
      transaction_count = 0;
      categories = [];
      merchants = [];
    } in
    record { current = empty_aggregate; previous = empty_aggregate }

abbrev month_query : List QueryParameter
month_query =
    record { key = "year"; values = "2026" ∷ [] }
    ∷ record { key = "month"; values = "03" ∷ [] }
    ∷ []

parsed : parse_query month_query ≡ some (record { year = 2026; month = 3 })
unfolding parse_query from_entries monthly_analytics_query analytics_year analytics_month
parsed = refl

repeated : parse_query (record { key = "year"; values = "2026" ∷ "2027" ∷ [] } ∷ []) ≡ none
unfolding parse_query
repeated = refl

abbrev first_of : ℤ → ℤ → ℤ
first_of a b = a

abbrev idle : Traced Unit
idle = record { world = tt; log = [] }

get_monthly_analytics-IsAnswered_example :
    IsAnswered first_of first_of
      (λ ranges. pure empty_aggregates)
      month_query
      idle
      (get_monthly_analytics first_of first_of (λ ranges. pure empty_aggregates) month_query idle).0
get_monthly_analytics-IsAnswered_example =
    get_monthly_analytics-IsAnswered first_of first_of (λ ranges. pure empty_aggregates) month_query
      idle

abbrev rendering : Rendering ℤ
rendering = record {
  rounded = first_of;
  change = first_of;
  is_positive = λ f. ltb_ℤ (pos 0) f;
  stringify = λ input. input.month;
  digest = λ s. s;
  model_id = "model";
  prompt_version = "p1";
}

abbrev no_session : MonthlyInsightsCacheSession Unit
no_session = record {
  find_monthly_insights = λ l. pure none;
  save_monthly_insights = λ input. pure tt;
}

abbrev options : MonthlyInsightsServiceOptions ℤ Unit
options = record {
  find_monthly_analytics = λ ranges. pure empty_aggregates;
  cache = no_session;
  with_monthly_insights_generation_lock = λ key callback. callback no_session;
  analyze = λ input. pure (record { insights = []; usage = none });
  now = pure 7;
}

get_insights-InsightsAnswered_example :
    InsightsAnswered rendering options month_query idle
      (get_insights (provider rendering options) month_query idle).0
get_insights-InsightsAnswered_example =
    get_insights-InsightsAnswered rendering options (λ key callback t r h. (no_session, t, h))
      month_query idle

-- A job that fails for good.
abbrev failing : List Action
failing = claims "s1" "t1" 600 ∷ fails "s1" "t1" unsupported_image "internal text" ∷ []
