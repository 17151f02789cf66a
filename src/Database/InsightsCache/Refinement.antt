-- ===== src/Database/InsightsCache/Refinement.antt =====
-- The table of insights as what it promises: a map from the month to what was saved last.
use ai_statement_analyzer.Base.{
  String, ◌≡◌, Bool, ◌&&◌, Option, none, some, List, [], ◌∷◌, str_eq, if◌then◌else◌, find,
}
use ai_statement_analyzer.Database.InsightsCache.{
  Table, CacheState, MonthlyInsightsCacheRecord, MonthlyInsightsCacheLookup, row_of,
  SaveMonthlyInsightsInput, find_monthly_insights, is_savable, is_typed, type_error, save_error,
  save_monthly_insights,
}
use ai_statement_analyzer.Failure.{Outcome, ok, throw, database_error}

abbrev pub MonthMap : Type 0
MonthMap = String → Option MonthlyInsightsCacheRecord

abbrev pub is_of_month : String → MonthlyInsightsCacheRecord → Bool
is_of_month month r = str_eq r.target_month month

abbrev pub is_current : MonthlyInsightsCacheLookup → MonthlyInsightsCacheRecord → Bool
is_current l r =
    str_eq r.analytics_version l.analytics_version
    && str_eq r.model_id l.model_id
    && str_eq r.prompt_version l.prompt_version

abbrev pub if_current :
    MonthlyInsightsCacheLookup
    → Option MonthlyInsightsCacheRecord
    → Option MonthlyInsightsCacheRecord
if_current l none = none
if_current l (some r) = if is_current l r then some r else none

abbrev pub put : MonthlyInsightsCacheRecord → MonthMap → MonthMap
put new m month = if str_eq new.target_month month then some new else m month

pub data CacheOperation : Type 0 where
  finds : MonthlyInsightsCacheLookup → CacheOperation
  saves : SaveMonthlyInsightsInput → CacheOperation

pub data CacheAnswer : Type 0 where
  found : Outcome (Option MonthlyInsightsCacheRecord) → CacheAnswer
  saved : Outcome (Unit {0}) → CacheAnswer

-- The answers of the session's operations, one behind the other.
unfoldable pub answers : List CacheOperation → CacheState Unit → List CacheAnswer
answers [] s = []
answers (finds l ∷ ops) s =
    found (find_monthly_insights l s).0 ∷ answers ops (find_monthly_insights l s).1
answers (saves input ∷ ops) s =
    saved (save_monthly_insights input s).0 ∷ answers ops (save_monthly_insights input s).1

-- The same of a map: a lookup that the column types accept gives the month's record where its versions
-- are the asked ones, and a save that the column types and the limits accept replaces the month's
-- record.
unfoldable pub map_answers : List CacheOperation → MonthMap → List CacheAnswer
map_answers [] m = []
map_answers (finds l ∷ ops) m =
    let rest = map_answers ops m in
    if is_typed l
    then found (ok (if_current l (m l.target_month))) ∷ rest
    else found (throw (database_error (type_error l))) ∷ rest
map_answers (saves input ∷ ops) m =
    let done = map_answers ops (put (row_of input) m) in
    let refused = map_answers ops m in
    if is_savable input
    then saved (ok tt) ∷ done
    else saved (throw (database_error (save_error input))) ∷ refused

-- No two rows of one month: the table's primary key.
abbrev pub AreOfMonths : Table → Type 0
AreOfMonths [] = Unit
AreOfMonths (r ∷ rows) = (find (is_of_month r.target_month) rows ≡ none) × AreOfMonths rows

pub record IsMap (rows : Table) (m : MonthMap) : Type 0 where
  pub months : AreOfMonths rows
  pub same : (month : String) → find (is_of_month month) rows ≡ m month
