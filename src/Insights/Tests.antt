-- ===== src/Insights/Tests.antt =====
-- Runs of the insights of one month.
use ai_statement_analyzer.Base.{String, ◌≡◌, refl, false, none, [], ◌∷◌}
use ai_statement_analyzer.Order.{Reordered}
use ai_statement_analyzer.Insights.Input.{
  CompactInsightsInput, get_analytics_fingerprint, create_compact_insights_input,
  canonicalize_input, CompactInsightsBucket,
}
use ai_statement_analyzer.Insights.Service.{
  get_monthly_insights, MonthlyInsightsResponse, Rendering, input_of, answer_lookup, find_cached_or,
  get_cached_response, locked, generate, validate_generated, save, cache_hit_line,
}
use ai_statement_analyzer.Effects.{Traced, pure}
use ai_statement_analyzer.Database.AnalyticsQuery.{MonthlyAnalyticsAggregates}
use ai_statement_analyzer.Base.Int.{ℤ, ltb_ℤ, pos}
use ai_statement_analyzer.Insights.Grounding.{
  parse_and_validate_insights, is_grounded, has_increase,
}
use ai_statement_analyzer.Insights.Grounding.Accepted.{
  AreGrounded, parse_and_validate-AreGrounded, parse_and_validate-document_json,
}
use ai_statement_analyzer.Insights.Service.Cached.{
  Surroundings, over_cache, again, get_monthly_insights-again,
}
use ai_statement_analyzer.Insights.Schema.{
  Insight, document_json, category_increase, info_severity, insights_document, insights_of,
  insight_json, insight, category_increase_fields, insight_text, trimmed, severity_of,
}
use ai_statement_analyzer.Analytics.{
  MonthlyAnalyticsAggregate, get_monthly_analytics_ranges, AnalyticsAggregateBucket, ranges_of,
  build_monthly_analytics, format_month_start, build_response, decimal_text, by_name, shift_month,
  change_percentage, percentage, MonthlyAnalyticsRanges,
}
use ai_statement_analyzer.Database.Columns.{is_date_codes}
use ai_statement_analyzer.Database.InsightsCache.{
  is_typed, is_storable_document, CacheState, find_monthly_insights, select_insights,
  with_monthly_insights_generation_lock, save_monthly_insights, finish, upsert, session,
}
use ai_statement_analyzer.Failure.{ok}
use ai_statement_analyzer.Base.Maybe.{every}
use ai_statement_analyzer.Base.Text.{trim, trim_start, trim_end}
use ai_statement_analyzer.Insights.Input.Fingerprint.{fingerprint-IsReordered}
use ai_statement_analyzer.Insights.Service.Grounded.{IsAnswer, get_monthly_insights-IsAnswer}
use ai_statement_analyzer.Base.Number.{integer}
use ai_statement_analyzer.Database.InsightsCache.Locked.{lock-IsGranted}

abbrev sum_up : ℤ → ℤ → ℤ
sum_up a b = a

abbrev rendering : Rendering ℤ
rendering = record {
  rounded = sum_up;
  change = sum_up;
  is_positive = λ f. ltb_ℤ (pos 0) f;
  stringify = λ input. input.month;
  digest = λ s. s;
  model_id = "model";
  prompt_version = "insights-v1";
}

abbrev food : ℤ → AnalyticsAggregateBucket
food amount = record { name = "食費"; amount = amount; count = 2 }

abbrev aggregate : ℤ → MonthlyAnalyticsAggregate
aggregate amount = record {
  total_amount = amount;
  transaction_count = 2;
  categories = food amount ∷ [];
  merchants = [];
}

abbrev aggregates : MonthlyAnalyticsAggregates
aggregates = record { current = aggregate (pos 900); previous = aggregate (pos 300) }

abbrev food_rises : Insight
food_rises =
    category_increase (record { severity = info_severity; title = "食費"; description = "増加" }) "食費"

abbrev around : Surroundings ℤ Unit
around = record {
  find_monthly_analytics = λ ranges. pure aggregates;
  analyze = λ input. pure (record { insights = food_rises ∷ []; usage = none });
  now = pure 1000;
}

abbrev start : Traced (CacheState Unit)
start = record { world = record { table = []; turns = []; rest = tt }; log = [] }

abbrev answered : MonthlyInsightsResponse
answered = record {
  year = 2026;
  month = 3;
  insights = food_rises ∷ [];
  generated_at = 1000;
  cached = false;
}

abbrev input : CompactInsightsInput ℤ
input = input_of rendering 2026 3 aggregates

accepted :
    parse_and_validate_insights rendering.is_positive (document_json (food_rises ∷ [])) input
    ≡ ok (food_rises ∷ [])
unfolding parse_and_validate_insights document_json insights_document insights_of every insight_json
    insight category_increase_fields insight_text trimmed severity_of trim trim_start trim_end
    is_grounded has_increase input_of create_compact_insights_input build_monthly_analytics
    build_response by_name change_percentage percentage
accepted = refl

parse_and_validate-AreGrounded_example : AreGrounded rendering.is_positive input (food_rises ∷ [])
parse_and_validate-AreGrounded_example =
    parse_and_validate-AreGrounded rendering.is_positive (document_json (food_rises ∷ [])) input
      (food_rises ∷ []) accepted

parse_and_validate-document_json_example :
    parse_and_validate_insights rendering.is_positive (document_json (food_rises ∷ [])) input
    ≡ ok (food_rises ∷ [])
parse_and_validate-document_json_example =
    parse_and_validate-document_json rendering.is_positive (document_json (food_rises ∷ [])) input
      (food_rises ∷ []) accepted

run : (get_monthly_insights rendering (over_cache rendering around) 2026 3 start).0 ≡ ok answered
unfolding get_monthly_insights get_monthly_analytics_ranges ranges_of answer_lookup find_cached_or
    find_monthly_insights select_insights get_cached_response with_monthly_insights_generation_lock
    locked generate validate_generated save save_monthly_insights finish get_analytics_fingerprint
    canonicalize_input format_month_start decimal_text shift_month input_of
    create_compact_insights_input upsert build_monthly_analytics is_typed is_date_codes
    is_storable_document
run = rw accepted refl

get_monthly_insights-again_example :
    (ranges : MonthlyAnalyticsRanges) × (get_monthly_analytics_ranges
        (integer (pos 2026))
        (integer (pos 3))
      ≡ ok ranges)
    × (get_monthly_insights rendering
          (over_cache rendering around)
          2026
          3
          (get_monthly_insights rendering (over_cache rendering around) 2026 3 start).1
        ≡ (
          ok (again rendering around answered),
          record {
            world =
                record (get_monthly_insights rendering
                  (over_cache rendering around)
                  2026
                  3
                  start).1.world { rest = tt };
            log =
                cache_hit_line
                ∷ (get_monthly_insights rendering (over_cache rendering around) 2026 3 start).1.log;
          },
        ))
get_monthly_insights-again_example =
    get_monthly_insights-again rendering around 2026 3 start
      (get_monthly_insights rendering (over_cache rendering around) 2026 3 start).1 answered run
      refl (λ _. refl)

get_monthly_insights-IsAnswer_example :
    IsAnswer rendering (over_cache rendering around) 2026 3 start answered
get_monthly_insights-IsAnswer_example =
    get_monthly_insights-IsAnswer rendering (over_cache rendering around)
      (λ key callback t r h.
        let g = lock-IsGranted key callback t r h in (session, g.start, g.answered))
      2026 3 start answered run

-- Two orders of two categories.
abbrev category : String → CompactInsightsBucket ℤ
category name = record {
  name = name;
  amount = pos 1;
  count = 1;
  percentage = none;
  previous_amount = none;
  amount_change_percentage = none;
}

abbrev two_categories : String → String → CompactInsightsInput ℤ
two_categories a b = record {
  month = "2026-03";
  current = record {
    total_amount = pos 2;
    transaction_count = 2;
    categories = category a ∷ category b ∷ [];
    merchants = [];
  };
  previous = none;
}

fingerprint-IsReordered_example :
    get_analytics_fingerprint (λ input. input.month) (λ s. s) (two_categories "b" "a")
    ≡ get_analytics_fingerprint (λ input. input.month) (λ s. s) (two_categories "a" "b")
fingerprint-IsReordered_example =
    fingerprint-IsReordered (λ input. input.month) (λ s. s) (two_categories "b" "a")
      (two_categories "a" "b")
      (record {
        month = refl;
        total = refl;
        count = refl;
        previous = refl;
        categories = Reordered.swapped (category "b") (category "a") [] refl;
        merchants = Reordered.same [];
      })
