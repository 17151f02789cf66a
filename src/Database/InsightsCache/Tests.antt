-- ===== src/Database/InsightsCache/Tests.antt =====
-- A session that saves and looks up.
use ai_statement_analyzer.Failure.{ok, throw, database_error}
use ai_statement_analyzer.Database.Columns.{is_date_codes}
use ai_statement_analyzer.Base.{some, ◌≡◌, refl, none, List, [], ◌∷◌}
use ai_statement_analyzer.Database.InsightsCache.Refinement.{
  found, saved, MonthMap, CacheOperation, answers, finds, saves,
}
use ai_statement_analyzer.Database.InsightsCache.{
  row_of, find_monthly_insights, save_monthly_insights, select_insights, upsert, is_typed,
  is_storable_document, CacheState, MonthlyInsightsCacheLookup,
}

abbrev asked : MonthlyInsightsCacheLookup
asked = record {
  target_month = "2026-03-01";
  analytics_version = "v1";
  model_id = "model";
  prompt_version = "p1";
}

abbrev operations : List CacheOperation
operations =
    finds asked
    ∷ saves (record { lookup = asked; insights = []; generated_at = 7 })
    ∷ finds asked
    ∷ saves (record {
      lookup = record asked { target_month = "2026-03-02" };
      insights = [];
      generated_at = 8;
    })
    ∷ finds (record asked { target_month = "2026-02-30" })
    ∷ []

abbrev nothing : MonthMap
nothing month = none

abbrev fresh : CacheState Unit
fresh = record { table = []; turns = []; rest = tt }

-- A month that does not start on its day, and a day that is no date.
refused_day :
    answers operations fresh
    ≡ found (ok none)
      ∷ saved (ok tt)
      ∷ found (ok (some (row_of (record { lookup = asked; insights = []; generated_at = 7 }))))
      ∷ saved (throw (database_error "23514"))
      ∷ found (throw (database_error "22007"))
      ∷ []
unfolding answers find_monthly_insights save_monthly_insights select_insights upsert is_typed
    is_date_codes is_storable_document
refused_day = refl
