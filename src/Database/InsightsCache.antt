-- ===== src/Database/InsightsCache.antt =====
-- The cache of insights of src/database/statement-repository.ts: the table `monthly_insights`, its
-- queries, and the lock under which a month's insights are generated. While the lock is waited for,
-- other processes may save; then it is granted or fails, and the commit may fail, before or
-- behind its effect.
pub mod Saved
pub mod Locked
pub mod Refinement
mod Tests
use ai_statement_analyzer.Base.{
  ℕ, zero, suc, ◌+◌, ◌-◌, ◌*◌, ◌/◌, ◌%◌, ◌≤◌, ◌<◌, min, String, ◌≡◌, refl, sym, ap, ◌∙◌, ◌≢◌, ◌↔◌,
  ◌⊎◌, inl, inr, Bool, true, false, ◌&&◌, ◌||◌, not, Option, none, some, List, [], ◌∷◌, ◌++◌, map,
  arith, str_eq, eq_iff, eq_refl, ltb, leb, ◌==◌, if◌then◌else◌, is_some, or_else, Bool-cases,
  if-both, Option-cases, length, head?, filter, all, any, find, All,
}
use ai_statement_analyzer.Base.Text.{codes}
use ai_statement_analyzer.Failure.{
  CommitResult, acknowledged, not_committed, unacknowledged, aggregate, own_error, Outcome, ok,
  throw, Thrown, database_error,
}
use ai_statement_analyzer.Effects.{Exec, Traced, pure, raise, call}
use ai_statement_analyzer.Json.{Json}
use ai_statement_analyzer.Insights.Schema.{
  Insight, InsightText, category_increase, merchant_increase, notable_spending, document_json,
}
use ai_statement_analyzer.Database.Columns.{
  is_date, ends_with_first, is_storable, is_storable_option,
}

pub record MonthlyInsightsCacheLookup : Type 0 where
  pub target_month : String
  pub analytics_version : String
  pub model_id : String
  pub prompt_version : String

pub record MonthlyInsightsCacheRecord : Type 0 where
  pub lookup : MonthlyInsightsCacheLookup
  pub open lookup use *
  pub insights : Json
  pub generated_at : ℕ

pub record SaveMonthlyInsightsInput : Type 0 where
  pub lookup : MonthlyInsightsCacheLookup
  pub open lookup use *
  pub insights : List Insight
  pub generated_at : ℕ

abbrev pub Table : Type 0
Table = List MonthlyInsightsCacheRecord

abbrev pub is_looked_up : MonthlyInsightsCacheLookup → MonthlyInsightsCacheRecord → Bool
is_looked_up l r =
    str_eq r.target_month l.target_month
    && str_eq r.analytics_version l.analytics_version
    && str_eq r.model_id l.model_id
    && str_eq r.prompt_version l.prompt_version

unfoldable pub select_insights :
    MonthlyInsightsCacheLookup → Table → Option MonthlyInsightsCacheRecord
select_insights l rows = find (is_looked_up l) rows

abbrev pub row_of : SaveMonthlyInsightsInput → MonthlyInsightsCacheRecord
row_of input = record {
  lookup = input.lookup;
  insights = document_json input.insights;
  generated_at = input.generated_at;
}

-- `ON CONFLICT (target_month) DO UPDATE`: the month's row is overwritten.
unfoldable pub upsert : MonthlyInsightsCacheRecord → Table → Table
upsert new [] = new ∷ []
upsert new (r ∷ rows) =
    let rest = upsert new rows in
    if str_eq r.target_month new.target_month then new ∷ rows else r ∷ rest

abbrev pub has_length : ℕ → String → Bool
has_length limit s = leb 1 (length (codes s)) && leb (length (codes s)) limit

-- The table's CHECKs: the month is the first day of a month, and the limits on the lengths. A document
-- of insights is an object, so that the CHECK on its type always holds.
abbrev pub is_within_limits : MonthlyInsightsCacheLookup → Bool
is_within_limits l =
    ends_with_first (codes l.target_month)
    && has_length 200 l.analytics_version
    && has_length 255 l.model_id
    && has_length 100 l.prompt_version

-- The types of the parameters that name a month's row: a date, and texts without U+0000.
unfoldable pub is_typed : MonthlyInsightsCacheLookup → Bool
is_typed l =
    is_date l.target_month
    && is_storable l.analytics_version
    && is_storable l.model_id
    && is_storable l.prompt_version

abbrev pub type_error : MonthlyInsightsCacheLookup → String
type_error l = if is_date l.target_month then "22021" else "22007"

-- `jsonb` refuses U+0000 in a text.
abbrev pub is_storable_text : InsightText → Bool
is_storable_text t = is_storable t.title && is_storable t.description

abbrev pub is_storable_insight : Insight → Bool
is_storable_insight (category_increase t name) = is_storable_text t && is_storable name
is_storable_insight (merchant_increase t name) = is_storable_text t && is_storable name
is_storable_insight (notable_spending t category merchant) =
    is_storable_text t && is_storable_option category && is_storable_option merchant

unfoldable pub is_storable_document : List Insight → Bool
is_storable_document insights = all is_storable_insight insights

abbrev pub is_savable : SaveMonthlyInsightsInput → Bool
is_savable input =
    is_typed input.lookup && is_storable_document input.insights && is_within_limits input.lookup

-- The SQLSTATE of a save that is refused.
abbrev pub save_error : SaveMonthlyInsightsInput → String
save_error input =
    if not (is_typed input.lookup)
    then type_error input.lookup
    else if not (is_storable_document input.insights)
    then "22P05"
    else "23514"

-- Between asking for the lock and having it: what others save, and whether the lock is granted; and
-- how the commit ends, and whether the rollback fails.
pub record LockTurn : Type 0 where
  pub saves : List SaveMonthlyInsightsInput
  pub refused : Option Thrown
  pub commit : CommitResult
  pub rollback_fails : Bool

-- `rollbackTransaction`: the original error, or an aggregate of it and the failure of the rollback.
abbrev pub after_rollback : Bool → Thrown → Thrown
after_rollback false e = e
after_rollback true e = own_error aggregate "AggregateError"

-- `rest` is all other state: the model and the transactions.
pub record CacheState (E : Type 0) : Type 0 where
  pub table : Table
  pub turns : List LockTurn
  pub rest : E

unfoldable pub save_all : List SaveMonthlyInsightsInput → Table → Table
save_all [] rows = rows
save_all (input ∷ inputs) rows =
    save_all inputs (if is_savable input then upsert (row_of input) rows else rows)

pub record MonthlyInsightsCacheSession (S : Type 0) : Type 0 where
  pub find_monthly_insights :
      MonthlyInsightsCacheLookup → Exec S (Option MonthlyInsightsCacheRecord)
  pub save_monthly_insights : SaveMonthlyInsightsInput → Exec S (Unit {0})

module _ {E : Type 0} where
  unfoldable pub find_monthly_insights :
      MonthlyInsightsCacheLookup → Exec (CacheState E) (Option MonthlyInsightsCacheRecord)
  find_monthly_insights l s =
      if is_typed l
      then (ok (select_insights l s.table), s)
      else (throw (database_error (type_error l)), s)

  unfoldable pub save_monthly_insights : SaveMonthlyInsightsInput → Exec (CacheState E) (Unit {0})
  save_monthly_insights input s =
      if is_savable input
      then (ok tt, record s { table = upsert (row_of input) s.table })
      else (throw (database_error (save_error input)), s)

  -- Calls that only reach the other state.
  abbrev pub on_rest : {A : Type 0} → Exec E A → Exec (CacheState E) A
  on_rest m s = ((m s.rest).0, record s { rest = (m s.rest).1 })

  abbrev pub session : MonthlyInsightsCacheSession (CacheState E)
  session = record {
    find_monthly_insights = find_monthly_insights;
    save_monthly_insights = save_monthly_insights;
  }

  abbrev pub with_table : Table → Traced (CacheState E) → Traced (CacheState E)
  with_table rows t = record t { world = record t.world { table = rows } }

  module _ {A : Type 0} where
    -- `COMMIT`, or `ROLLBACK` to the table as it was when the lock was granted. A commit that took
    -- effect throws where its acknowledgement is lost.
    unfoldable pub finish :
        Bool
        → CommitResult
        → Table
        → Outcome A × Traced (CacheState E)
        → Outcome A × Traced (CacheState E)
    finish rollback_fails commit before (throw e, t) =
        (throw (after_rollback rollback_fails e), with_table before t)
    finish rollback_fails acknowledged before (ok a, t) = (ok a, t)
    finish rollback_fails (not_committed e) before (ok a, t) =
        (throw (after_rollback rollback_fails e), with_table before t)
    finish rollback_fails (unacknowledged e) before (ok a, t) =
        (throw (after_rollback rollback_fails e), t)

    abbrev pub granted :
        Bool
        → Option Thrown
        → CommitResult
        → Exec (Traced (CacheState E)) A
        → Exec (Traced (CacheState E)) A
    granted rollback_fails (some e) commit callback t = (throw (after_rollback rollback_fails e), t)
    granted rollback_fails none commit callback t =
        finish rollback_fails commit t.world.table (callback t)

    abbrev pub after_turn :
        List LockTurn → Exec (Traced (CacheState E)) A → Exec (Traced (CacheState E)) A
    after_turn [] callback t = granted false none acknowledged callback t
    after_turn (turn ∷ turns) callback t =
        granted turn.rollback_fails turn.refused turn.commit callback (record t {
          world = record t.world { table = save_all turn.saves t.world.table; turns = turns };
        })

    -- The key keeps out others who generate for the same month, model and prompt.
    unfoldable pub with_monthly_insights_generation_lock :
        String
        → (MonthlyInsightsCacheSession (CacheState E) → Exec (Traced (CacheState E)) A)
        → Exec (Traced (CacheState E)) A
    with_monthly_insights_generation_lock key callback t =
        after_turn t.world.turns (callback session) t
