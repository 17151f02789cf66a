-- ===== src/Database/Table.antt =====
-- What the repository's SQL statements do to a table, a list of rows: `WHERE` as a Boolean test,
-- `UPDATE ... SET ... WHERE ... RETURNING` as the new table with the rows that it returns.
use ai_statement_analyzer.Base.{Bool, List, [], ◌∷◌, filter, if◌then◌else◌}

module _ {ℓ} {R : Type ℓ} where
  abbrev pub select : (R → Bool) → List R → List R
  select test rows = filter test rows

  abbrev pub update : (R → Bool) → (R → R) → List R → List R
  update test set [] = []
  update test set (r ∷ rows) = (if test r then set r else r) ∷ update test set rows

  -- `RETURNING` shows the rows after the assignment.
  abbrev pub returning : (R → Bool) → (R → R) → List R → List R
  returning test set [] = []
  returning test set (r ∷ rows) =
      let rest = returning test set rows in if test r then set r ∷ rest else rest
