-- ===== src/Database/Leases/Progress.antt =====
-- No statement is stuck: from every status that is not final a few actions lead to completion, also
-- when the worker that held the lease has vanished.
use ai_statement_analyzer.Base.{
  ℕ, ◌+◌, ◌-◌, ◌≤◌, String, ◌≡◌, refl, ◌∙◌, Bool, true, false, ◌&&◌, Option, none, some, List, [],
  ◌∷◌, arith, eq_refl, is_some, or_else,
}
use ai_statement_analyzer.Database.Types.{
  upload_pending, uploaded, queued, processing, completed, failed,
}
use ai_statement_analyzer.Database.Types.{
  StatementRecord, Database, StatementStatus, CreateTransactionInput, is_queued, is_processing,
  is_upload_pending, is_uploaded, completed, queued, uploaded,
}
use ai_statement_analyzer.Database.World.{
  Action, apply, uploads, queues, claims, apply_all, elapses, completes,
}
use ai_statement_analyzer.Database.Lifecycle.WellFormed.{IsWellFormed, apply-IsWellFormed}
use ai_statement_analyzer.Database.Rows.{find_row, find_row-update, find_row-has_id, find_row-All}
use ai_statement_analyzer.Database.Table.{update}
use ai_statement_analyzer.Database.Statements.{
  has_id, update_queued, update_uploaded, update_claim, set_status, is_claimable, claim_row,
  lease_expired,
}
use ai_statement_analyzer.Database.Leases.Holder.{AreValid, stored, IsHolder, complete_stores}
use ai_statement_analyzer.Database.Lifecycle.{status_of, IsConsistent}
use ai_statement_analyzer.Database.Lifecycle.History.{is_terminal}

-- What has to happen before the statement can be claimed, by its status and its lease.
unfoldable pub before_claim : String → ℕ → StatementStatus → Option ℕ → List Action
before_claim id now upload_pending lease = uploads id ∷ queues id ∷ []
before_claim id now uploaded lease = queues id ∷ []
before_claim id now processing lease = elapses (or_else lease 0 + 1 - now) ∷ []
before_claim id now _ lease = []

elapsed-expired :
    (now : ℕ) (lease : Option ℕ)
    → is_some lease ≡ true
    → lease_expired (now + (or_else lease 0 + 1 - now)) lease ≡ true
elapsed-expired now none h = cc
elapsed-expired now (some expires) h = ground arith

module _ (id : String) where
  -- A well-formed table whose row for the statement is `r`.
  pub record HasRow (db : Database) (r : StatementRecord) : Type 0 where
    pub well_formed : IsWellFormed db
    pub found : find_row id db.statements ≡ some r

  HasRow-update :
      (a : Action) (test : StatementRecord → Bool) (set : StatementRecord → StatementRecord)
      (db : Database) (r : StatementRecord)
      → ((r : StatementRecord) → (set r).id ≡ r.id)
      → (apply a db).statements ≡ update (λ r. has_id id r && test r) set db.statements
      → test r ≡ true
      → HasRow db r
      → HasRow (apply a db) (set r)
  HasRow-update a test set db r same statements t h = record {
    well_formed = apply-IsWellFormed a db h.well_formed;
    found =
        let mine : has_id id r ≡ true = find_row-has_id id db.statements h.found in
        rw
          (
            statements,
            find_row-update (λ r. has_id id r && test r) set same id db.statements,
            h.found,
            mine,
            t,
          )
          refl;
  }

  abbrev pub IsFinished : List CreateTransactionInput → Database → Type 0
  IsFinished inputs db = (status_of id db ≡ some completed) × (stored id db ≡ inputs)

  abbrev pub claim_and_complete : String → ℕ → List CreateTransactionInput → List Action
  claim_and_complete token seconds inputs = claims id token seconds ∷ completes id token inputs ∷ []

  module _ (token : String) (seconds : ℕ) (positive : 1 ≤ seconds)
      (inputs : List CreateTransactionInput) (valid : AreValid inputs) where
    claimed-IsFinished :
        (db : Database) (r : StatementRecord)
        → HasRow db r
        → is_claimable db.now r ≡ true
        → IsFinished inputs (apply_all (claim_and_complete token seconds inputs) db)
    unfolding apply_all apply update_claim
    claimed-IsFinished db r h claimable =
        let claimed =
          HasRow-update (claims id token seconds) (is_claimable db.now)
            (claim_row db.now token seconds) db r (λ _. refl) refl claimable h in
        let holder : IsHolder id token (apply (claims id token seconds) db) = record {
          well_formed = claimed.well_formed;
          row = claim_row db.now token seconds r;
          found = claimed.found;
          held = ground (arith, positive, eq_refl token);
        } in
        let (_, done, kept) = complete_stores id token _ holder inputs valid in (done, kept)

    queued-IsFinished :
        (db : Database) (r : StatementRecord)
        → HasRow db r
        → is_queued r.status ≡ true
        → IsFinished inputs (apply_all (claim_and_complete token seconds inputs) db)
    queued-IsFinished db r h q = claimed-IsFinished db r h (ground (arith, q))

    uploaded-IsFinished :
        (db : Database) (r : StatementRecord)
        → HasRow db r
        → is_uploaded r.status ≡ true
        → IsFinished inputs
            (apply_all (claim_and_complete token seconds inputs) (apply (queues id) db))
    unfolding apply update_queued
    uploaded-IsFinished db r h u =
        queued-IsFinished (apply (queues id) db) (set_status db.now queued r)
          (HasRow-update (queues id) (λ x. is_uploaded x.status) (set_status db.now queued) db r
            (λ _. refl) refl u h)
          refl

    pending-IsFinished :
        (db : Database) (r : StatementRecord)
        → HasRow db r
        → is_upload_pending r.status ≡ true
        → IsFinished inputs (
            apply_all
              (claim_and_complete token seconds inputs)
              (apply (queues id) (apply (uploads id) db)))
    unfolding apply update_uploaded
    pending-IsFinished db r h u =
        uploaded-IsFinished (apply (uploads id) db) (set_status db.now uploaded r)
          (HasRow-update (uploads id) (λ x. is_upload_pending x.status) (set_status db.now uploaded)
            db r (λ _. refl) refl u h)
          refl

    expired-IsFinished :
        (db : Database) (r : StatementRecord)
        → HasRow db r
        → is_processing r.status ≡ true
        → IsFinished inputs (
            apply_all
              (claim_and_complete token seconds inputs)
              (apply (elapses (or_else r.processing_lease_expires_at 0 + 1 - db.now)) db))
    unfolding apply
    expired-IsFinished db r h p =
        let lease : is_some r.processing_lease_expires_at ≡ true =
          (find_row-All IsConsistent id db.statements r h.well_formed.consistent h.found).lease
          ∙ p in
        let expired : lease_expired
              (db.now + (or_else r.processing_lease_expires_at 0 + 1 - db.now))
              r.processing_lease_expires_at
            ≡ true =
          elapsed-expired db.now r.processing_lease_expires_at lease in
        claimed-IsFinished
          (apply (elapses (or_else r.processing_lease_expires_at 0 + 1 - db.now)) db) r
          (record {
            well_formed =
                apply-IsWellFormed (elapses (or_else r.processing_lease_expires_at 0 + 1 - db.now))
                  db h.well_formed;
            found = h.found;
          })
          (ground (arith, p, expired))

    by_status :
        (db : Database) (r : StatementRecord) (s : StatementStatus)
        → HasRow db r
        → r.status ≡ s
        → is_terminal s ≡ false
        → IsFinished inputs (
            apply_all
              (claim_and_complete token seconds inputs)
              (apply_all (before_claim id db.now s r.processing_lease_expires_at) db))
    unfolding before_claim apply_all
    by_status db r upload_pending h e t = pending-IsFinished db r h (rw e refl)
    by_status db r uploaded h e t = uploaded-IsFinished db r h (rw e refl)
    by_status db r queued h e t = queued-IsFinished db r h (rw e refl)
    by_status db r processing h e t = expired-IsFinished db r h (rw e refl)
    by_status db r completed h e t = cc
    by_status db r failed h e t = cc

    -- A statement in well-formed tables that is neither COMPLETED nor FAILED can be completed, whatever
    -- has become of its worker: once it is queued, or its lease has run out, a claim with any token and
    -- a lease of at least one second, and the completion behind it with transactions on distinct lines
    -- that the column types and checks accept, make it COMPLETED with exactly these transactions.
    pub before_claim-IsFinished :
        (db : Database) (r : StatementRecord)
        → HasRow db r
        → is_terminal r.status ≡ false
        → IsFinished inputs (
            apply_all
              (claim_and_complete token seconds inputs)
              (apply_all (before_claim id db.now r.status r.processing_lease_expires_at) db))
    before_claim-IsFinished db r h t = by_status db r r.status h refl t
