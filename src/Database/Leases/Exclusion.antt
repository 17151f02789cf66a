-- ===== src/Database/Leases/Exclusion.antt =====
-- While a lease runs nobody else can claim, complete or fail the statement.
use ai_statement_analyzer.Base.{
  ℕ, ◌+◌, ◌*◌, ◌≤◌, String, ◌≡◌, refl, ◌≢◌, inl, inr, Bool, true, false, ◌&&◌, List, [], ◌∷◌, arith,
  eq_iff, Option-cases,
}
use ai_statement_analyzer.Failure.{ok, throw, processing_claim_lost_error}
use ai_statement_analyzer.Database.Types.{
  StatementFailureCode, CreateTransactionInput, StatementRecord, Database,
}
use ai_statement_analyzer.Database.Statements.{
  has_id, is_claimable, claim_row, update_claim, update_failed, microseconds, update_statements,
}
use ai_statement_analyzer.Database.World.{Action, apply_all, apply, claims}
use ai_statement_analyzer.Database.Rows.{
  UniqueIds, find_row, returning-find_row, find_row-update, find_row-has_id,
  update_of_returning_none,
}
use ai_statement_analyzer.Database.Lifecycle.WellFormed.{IsWellFormed, apply_all-IsWellFormed}
use ai_statement_analyzer.Database.Leases.{HeldRow, apply_all-HeldRow, IsHeld}
use ai_statement_analyzer.Database.Completion.{complete_transaction}
use ai_statement_analyzer.Database.Table.{returning}
use ai_statement_analyzer.Database.Completion.Cases.{complete-not_held}

-- The database after a claim that returned a row, and after any history behind it.
abbrev pub after_claim : String → String → ℕ → List Action → Database → Database
after_claim id token seconds actions db = apply_all actions (update_claim id token seconds db).1

-- A claim that returned a row, from well-formed tables, and a later moment within the lease.
pub record IsClaimed (id token : String) (seconds : ℕ) (actions : List Action) (db : Database)
    : Type 0 where
  pub well_formed : IsWellFormed db
  pub row : StatementRecord
  pub claimed : (update_claim id token seconds db).0 ≡ ok (row ∷ [])
  pub in_time : (after_claim id token seconds actions db).now ≤ db.now + seconds * microseconds

update_claim-HeldRow :
    (id token : String) (seconds : ℕ) (db : Database) (row : StatementRecord)
    → UniqueIds db.statements
    → (update_claim id token seconds db).0 ≡ ok (row ∷ [])
    → HeldRow id token
        (db.now + seconds * microseconds)
        (update_claim id token seconds db).1.statements
unfolding update_claim
update_claim-HeldRow id token seconds db row unique e =
    elim (Option-cases (find_row id db.statements)) [
      | inl absent ↦ absurd (
          ground (
            arith,
            absent,
            returning-find_row (is_claimable db.now) (claim_row db.now token seconds) id
                db.statements unique,
          ))
      | inr (r, found) ↦
          let rows =
            returning-find_row (is_claimable db.now) (claim_row db.now token seconds) id
              db.statements unique in
          let free : is_claimable db.now r ≡ true = ground (arith, rows, found) in
          (
            claim_row db.now token seconds r,
            rw
                (
                  find_row-update (λ r. has_id id r && is_claimable db.now r)
                      (claim_row db.now token seconds) (λ r. refl) id db.statements,
                  found,
                  find_row-has_id id db.statements found,
                  free,
                )
                refl,
            inl (refl, refl, refl),
          )
    ]

update_claim-IsWellFormed :
    (id token : String) (seconds : ℕ) (db : Database)
    → IsWellFormed db
    → IsWellFormed (update_claim id token seconds db).1
update_claim-IsWellFormed id token seconds db w =
    unfold apply apply_all in apply_all-IsWellFormed (claims id token seconds ∷ []) db w

module _ (id token : String) (seconds : ℕ) (actions : List Action) (db : Database)
    (c : IsClaimed id token seconds actions db) where
  abbrev later : Database
  later = after_claim id token seconds actions db

  later-HeldRow : HeldRow id token (db.now + seconds * microseconds) later.statements
  later-HeldRow =
      apply_all-HeldRow id token _ actions _ c.in_time
        (update_claim-HeldRow id token seconds db c.row c.well_formed.unique c.claimed)

  later-IsWellFormed : IsWellFormed later
  later-IsWellFormed =
      apply_all-IsWellFormed actions _ (update_claim-IsWellFormed id token seconds db c.well_formed)

  -- An update that the held row does not pass returns nothing and changes nothing.
  module _ (test : StatementRecord → Bool) (set : StatementRecord → StatementRecord)
      (refused : (r : StatementRecord)
        → IsHeld token (db.now + seconds * microseconds) r
        → test r ≡ false) where
    refused_update : update_statements (λ r. has_id id r && test r) set later ≡ (ok [], later)
    refused_update =
        let (r, found, held) = later-HeldRow in
        let none_returned : returning (λ r. has_id id r && test r) set later.statements ≡ [] =
          rw
            (
              returning-find_row test set id later.statements later-IsWellFormed.unique,
              found,
              refused r held,
            )
            refl in
        rw (none_returned, update_of_returning_none _ set later.statements none_returned) refl

  -- Within the lease of a successful claim, after any actions of any processes, another claim of the
  -- statement returns no row and changes nothing.
  pub claim_exclusive :
      (token2 : String) (seconds2 : ℕ) → update_claim id token2 seconds2 later ≡ (ok [], later)
  unfolding update_claim
  claim_exclusive token2 seconds2 = refused_update _ _ (λ r held. ground arith)

  -- Within the lease another token can neither fail nor complete the statement: nothing changes.
  pub stale_token :
      (other : String)
      → other ≢ token
      → ((code : StatementFailureCode) (message : String)
          → update_failed id other code message later ≡ (ok [], later))
        × ((inputs : List CreateTransactionInput)
            → complete_transaction id other inputs later
              ≡ (throw processing_claim_lost_error, later))
  unfolding update_failed
  stale_token other ne = (
    λ code message. refused_update _ _ (λ r held. ground (arith, eq_iff token other)),
    λ inputs.
        let (r, found, held) = later-HeldRow in
        complete-not_held id other inputs later r found (ground (arith, eq_iff token other)),
  )
