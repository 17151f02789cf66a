-- ===== src/Database/Rows.antt =====
-- Looking up a statement's row after an `UPDATE` or an `INSERT`.
use mathlib.Core.Option
use ai_statement_analyzer.Base.{
  String, Bool, Option, none, List, [], ◌∷◌, ◌≡◌, refl, arith, head?, if◌then◌else◌, All, ◌++◌,
  true, some, is_some, ◌&&◌, eq_iff, Bool-cases, str_eq, inl, inr, any, false,
}
use ai_statement_analyzer.Database.Types.{StatementRecord}
use ai_statement_analyzer.Database.Table.{select, update, returning}
use ai_statement_analyzer.Database.Statements.{has_id, conflicts}

-- The first row with the identifier.
unfoldable pub find_row : String → List StatementRecord → Option StatementRecord
find_row id rows = head? (select (has_id id) rows)

-- What an `UPDATE` makes of a single row.
abbrev pub touched :
    (StatementRecord → Bool)
    → (StatementRecord → StatementRecord)
    → StatementRecord
    → StatementRecord
touched test set r = if test r then set r else r

module _ (test : StatementRecord → Bool) (set : StatementRecord → StatementRecord)
    (same : (r : StatementRecord) → (set r).id ≡ r.id) where
  pub touched-id : (r : StatementRecord) → (touched test set r).id ≡ r.id
  touched-id r = ground (arith, same r)

  pub find_row-update :
      (id : String) (rows : List StatementRecord)
      → find_row id (update test set rows) ≡ Option.map (touched test set) (find_row id rows)
  unfolding find_row
  find_row-update id [] = refl
  find_row-update id (r ∷ rows) = rw (touched-id r) (ground (arith, find_row-update id rows))

-- No two rows share an identifier.
abbrev pub UniqueIds : List StatementRecord → Type 0
UniqueIds [] = Unit
UniqueIds (r ∷ rows) = (find_row r.id rows ≡ none) × UniqueIds rows

-- What an `UPDATE ... WHERE id = $1 AND test RETURNING` returns of the row with that identifier.
abbrev pub returned :
    (StatementRecord → Bool)
    → (StatementRecord → StatementRecord)
    → Option StatementRecord
    → List StatementRecord
returned test set none = []
returned test set (some r) = if test r then set r ∷ [] else []

module _ (test : StatementRecord → Bool) (set : StatementRecord → StatementRecord)
    (id : String) where
  pub returning-find_row :
      (rows : List StatementRecord)
      → UniqueIds rows
      → returning (λ r. has_id id r && test r) set rows ≡ returned test set (find_row id rows)
  unfolding find_row
  returning-find_row [] unique = refl
  returning-find_row (r ∷ rows) (fresh, unique) = elim (Bool-cases (str_eq r.id id)) [
    | inl same ↦
        let absent : find_row id rows ≡ none = rw ((eq_iff r.id id).0 same) at fresh in
        ground (arith, absent, returning-find_row rows unique, same)
    | inr other ↦ ground (arith, returning-find_row rows unique, other)
  ]

module _ (test : StatementRecord → Bool) (set : StatementRecord → StatementRecord)
    (same : (r : StatementRecord) → (set r).id ≡ r.id) where
  pub update-UniqueIds :
      (rows : List StatementRecord) → UniqueIds rows → UniqueIds (update test set rows)
  update-UniqueIds [] unique = tt
  update-UniqueIds (r ∷ rows) (fresh, unique) = (
    rw (touched-id test set same r, find_row-update test set same r.id rows, fresh) refl,
    update-UniqueIds rows unique,
  )

  pub update-All {ℓ} :
      (P : StatementRecord → Type ℓ) (rows : List StatementRecord)
      → ((r : StatementRecord) → P r → test r ≡ true → P (set r))
      → All P rows
      → All P (update test set rows)
  update-All P [] keep h = tt
  update-All P (r ∷ rows) keep (p, h) = (
    elim (Bool-cases (test r)) [ inl yes' ↦ rw yes' (keep r p yes') | inr no' ↦ rw no' p ],
    update-All P rows keep h,
  )

-- An inserted row stands last.
pub find_row-append :
    (id : String) (rows : List StatementRecord) (new : StatementRecord)
    → find_row id (rows ++ new ∷ [])
      ≡ (if is_some (find_row id rows) then find_row id rows else find_row id (new ∷ []))
unfolding find_row
find_row-append id [] new = refl
find_row-append id (r ∷ rows) new = ground (arith, find_row-append id rows new)

pub All-append_one {ℓ} :
    (P : StatementRecord → Type ℓ) (rows : List StatementRecord) (new : StatementRecord)
    → All P rows
    → P new
    → All P (rows ++ new ∷ [])
All-append_one P [] new h p = (p, tt)
All-append_one P (r ∷ rows) new (q, h) p = (q, All-append_one P rows new h p)

pub append-UniqueIds :
    (rows : List StatementRecord) (new : StatementRecord)
    → find_row new.id rows ≡ none
    → UniqueIds rows
    → UniqueIds (rows ++ new ∷ [])
unfolding find_row
append-UniqueIds [] new fresh unique = (refl, tt)
append-UniqueIds (r ∷ rows) new fresh (first, unique) = (
  rw find_row-append (ground (arith, first, fresh, eq_iff r.id new.id, eq_iff new.id r.id)),
  append-UniqueIds rows new (ground (arith, fresh)) unique,
)

pub find_row-has_id :
    (id : String) (rows : List StatementRecord) {r : StatementRecord}
    → find_row id rows ≡ some r
    → has_id id r ≡ true
unfolding find_row
find_row-has_id id [] e = cc
find_row-has_id id (x ∷ rows) {r} e = elim (Bool-cases (has_id id x)) [
  | inl h ↦ let same : x ≡ r = ground (arith, h) in rw (← same) h
  | inr h ↦ find_row-has_id id rows {r = r} (ground (arith, h))
]

pub find_row-All :
    (P : StatementRecord → Type 0) (id : String) (rows : List StatementRecord) (r : StatementRecord)
    → All P rows
    → find_row id rows ≡ some r
    → P r
unfolding find_row
find_row-All P id [] r a e = cc
find_row-All P id (x ∷ rows) r (p, a) e = elim (Bool-cases (has_id id x)) [
  | inl h ↦ let same : x ≡ r = ground (arith, e, h) in rw (← same) p
  | inr h ↦ find_row-All P id rows r a (ground (arith, e, h))
]

pub find_row-no_conflict :
    (new : StatementRecord) (rows : List StatementRecord)
    → any (conflicts new) rows ≡ false
    → find_row new.id rows ≡ none
unfolding find_row
find_row-no_conflict new [] h = refl
find_row-no_conflict new (r ∷ rows) h = ground (arith, find_row-no_conflict new rows)

-- An `UPDATE` that returns no row has changed none.
pub update_of_returning_none :
    (test : StatementRecord → Bool) (set : StatementRecord → StatementRecord)
    (rows : List StatementRecord)
    → returning test set rows ≡ []
    → update test set rows ≡ rows
update_of_returning_none test set [] h = refl
update_of_returning_none test set (r ∷ rows) h =
    ground (arith, update_of_returning_none test set rows)
