-- ===== src/Database/Lifecycle/History.antt =====
-- Histories: any sequence of actions of any processes.
use ai_statement_analyzer.Base.{
  Bool, true, ◌||◌, String, some, List, [], ◌∷◌, ◌≡◌, inl, inr, Bool, true,
}
use ai_statement_analyzer.Database.Types.{StatementStatus, Database}
use ai_statement_analyzer.Database.World.{Action, apply, apply_all}
use ai_statement_analyzer.Database.Lifecycle.{
  upload, queue, reset, claim, reclaim, complete, fail, Next, status_of, apply-status, is_completed,
  is_failed,
}

-- A chain of legal transitions.
pub data Reaches (s : StatementStatus) : StatementStatus → Type 0 where
  here : Reaches s s
  then : {t u : StatementStatus} → Reaches s t → Next t u → Reaches s u

-- No transition leaves a terminal status.
abbrev pub is_terminal : StatementStatus → Bool
is_terminal s = is_completed s || is_failed s

Next-terminal : {s t : StatementStatus} → is_terminal s ≡ true → Next s t → ⊥
Next-terminal h upload = cc
Next-terminal h queue = cc
Next-terminal h reset = cc
Next-terminal h claim = cc
Next-terminal h reclaim = cc
Next-terminal h complete = cc
Next-terminal h fail = cc

-- A statement that is COMPLETED or FAILED keeps its status through every history.
pub apply_all-terminal :
    (actions : List Action) (id : String) (db : Database) (s : StatementStatus)
    → is_terminal s ≡ true
    → status_of id db ≡ some s
    → status_of id (apply_all actions db) ≡ some s
unfolding apply_all
apply_all-terminal [] id db s h e = e
apply_all-terminal (a ∷ actions) id db s h e =
    let (t, found, step) = apply-status a id db e in
    elim step [
      | inl same ↦ apply_all-terminal actions id (apply a db) s h (rw same found)
      | inr next ↦ absurd (Next-terminal h next)
    ]
