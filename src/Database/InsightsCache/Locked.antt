-- ===== src/Database/InsightsCache/Locked.antt =====
-- A callback that resolved under the lock was run, and what it has written is committed.
use ai_statement_analyzer.Base.{String, ◌≡◌, refl, Option, none, some, List, [], ◌∷◌, false, Bool}
use ai_statement_analyzer.Database.InsightsCache.{
  finish, with_monthly_insights_generation_lock, LockTurn, MonthlyInsightsCacheSession, Table,
  CacheState, after_turn, granted, session,
}
use ai_statement_analyzer.Effects.{Exec, Traced}
use ai_statement_analyzer.Failure.{
  CommitResult, acknowledged, not_committed, unacknowledged, Thrown, Outcome, ok, throw,
}

module _ {E A : Type 0} where
  -- The callback ran in the state `start`, and its state is the last.
  pub record IsGranted (callback : Exec (Traced (CacheState E)) A) (t : Traced (CacheState E))
      (a : A) (after : Traced (CacheState E)) : Type 0 where
    pub start : Traced (CacheState E)
    pub same_rest : start.world.rest ≡ t.world.rest
    pub answered : (callback start).0 ≡ ok a
    pub committed : after ≡ (callback start).1

  finish-ok :
      (fails : Bool) (commit : CommitResult) (before : Table) (o : Outcome A)
      (t : Traced (CacheState E)) (a : A)
      → (finish fails commit before (o, t)).0 ≡ ok a
      → (o ≡ ok a) × ((finish fails commit before (o, t)).1 ≡ t)
  unfolding finish
  finish-ok fails commit before (throw e) t a h = cc
  finish-ok fails acknowledged before (ok b) t a h = (h, refl)
  finish-ok fails (not_committed e) before (ok b) t a h = cc
  finish-ok fails (unacknowledged e) before (ok b) t a h = cc

  granted-ok :
      (fails : Bool) (refused : Option Thrown) (commit : CommitResult)
      (callback : Exec (Traced (CacheState E)) A) (t start : Traced (CacheState E)) (a : A)
      → start.world.rest ≡ t.world.rest
      → (granted fails refused commit callback start).0 ≡ ok a
      → IsGranted callback t a (granted fails refused commit callback start).1
  granted-ok fails (some e) commit callback t start a same h = cc
  granted-ok fails none commit callback t start a same h =
      let (answered, committed) =
        finish-ok fails commit start.world.table (callback start).0 (callback start).1 a h in
      record { start = start; same_rest = same; answered = answered; committed = committed }

  after_turn-ok :
      (turns : List LockTurn) (callback : Exec (Traced (CacheState E)) A)
      (t : Traced (CacheState E)) (a : A)
      → (after_turn turns callback t).0 ≡ ok a
      → IsGranted callback t a (after_turn turns callback t).1
  after_turn-ok [] callback t a h = granted-ok false none acknowledged callback t t a refl h
  after_turn-ok (turn ∷ turns) callback t a h =
      granted-ok turn.rollback_fails turn.refused turn.commit callback t _ a refl h

  pub lock-IsGranted :
      (key : String)
      (callback : MonthlyInsightsCacheSession (CacheState E) → Exec (Traced (CacheState E)) A)
      (t : Traced (CacheState E)) (a : A)
      → (with_monthly_insights_generation_lock key callback t).0 ≡ ok a
      → IsGranted (callback session) t a (with_monthly_insights_generation_lock key callback t).1
  unfolding with_monthly_insights_generation_lock
  lock-IsGranted key callback t a h = after_turn-ok t.world.turns (callback session) t a h
