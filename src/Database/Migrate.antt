-- ===== src/Database/Migrate.antt =====
-- src/database/migrate.ts: the migration files of a directory, run in one transaction. The directory,
-- the contents of its files and what a script does to the database are parameters.
pub mod Once
mod Tests
use ai_statement_analyzer.Base.{
  ℕ, zero, suc, ◌+◌, ◌-◌, ◌*◌, ◌/◌, ◌%◌, ◌≤◌, ◌<◌, min, String, ◌≡◌, refl, sym, ap, ◌∙◌, ◌≢◌, ◌↔◌,
  ◌⊎◌, inl, inr, Bool, true, false, ◌&&◌, ◌||◌, not, Option, none, some, List, [], ◌∷◌, ◌++◌, map,
  arith, str_eq, eq_iff, eq_refl, ltb, leb, ◌==◌, if◌then◌else◌, is_some, or_else, Bool-cases,
  if-both, Option-cases, length, head?, filter, all, any, find, All, sort_by,
}
use Prim.Native.String
use ai_statement_analyzer.Effects.{Exec, pure, raise, lift, ◌>>=◌, ◌>>◌}
use ai_statement_analyzer.Failure.{
  CommitResult, acknowledged, not_committed, unacknowledged, Thrown, Outcome, own_error, ok,
  aggregate, throw,
}
use ai_statement_analyzer.Base.Text.{is_digit, codes, in_range}
use ai_statement_analyzer.Json.{includes}

pub record MigrationFile : Type 0 where
  pub version : String
  pub file_name : String

abbrev pub skip_digits : List ℕ → List ℕ
skip_digits [] = []
skip_digits (c ∷ s) = let rest = skip_digits s in if is_digit c then rest else c ∷ s

-- `[a-z0-9_]`
abbrev pub is_name_code : ℕ → Bool
is_name_code c = in_range b'a' b'z' c || is_digit c || c == b'_'

abbrev pub skip_name : List ℕ → List ℕ
skip_name [] = []
skip_name (c ∷ s) = let rest = skip_name s in if is_name_code c then rest else c ∷ s

-- `\.sql$`
abbrev pub is_sql : List ℕ → Bool
is_sql (a ∷ b ∷ c ∷ d ∷ []) = a == b'.' && b == b's' && c == b'q' && d == b'l'
is_sql _ = false

abbrev pub is_underscored : List ℕ → Bool
is_underscored (a ∷ b ∷ s) = a == b'_' && is_name_code b && is_sql (skip_name s)
is_underscored _ = false

abbrev pub starts_with_digit : List ℕ → Bool
starts_with_digit [] = false
starts_with_digit (c ∷ s) = is_digit c

-- `/^\d+_[a-z0-9_]+\.sql$/`
unfoldable pub is_migration_file : String → Bool
is_migration_file name = starts_with_digit (codes name) && is_underscored (skip_digits (codes name))

-- The number of the first digits.
abbrev pub leading_number : ℕ → List ℕ → ℕ
leading_number n [] = n
leading_number n (c ∷ s) =
    let rest = leading_number (n * 10 + (c - b'0')) s in if is_digit c then rest else n

-- `fileName.slice(0, -4)`
abbrev pub drop_last : ℕ → String → String
drop_last n String.[] = String.[]
drop_last n (String.◌∷◌ c s) =
    let rest = drop_last n s in
    if leb (suc (length (codes s))) n then String.[] else String.◌∷◌ c rest

abbrev pub to_migration_file : String → MigrationFile
to_migration_file name = record { version = drop_last 4 name; file_name = name }

abbrev pub number_of : String → ℕ
number_of name = leading_number 0 (codes name)

unfoldable pub list_migration_files : List String → List MigrationFile
list_migration_files names = map to_migration_file (
    sort_by (λ left right. leb (number_of left) (number_of right)) (filter is_migration_file names))

-- The table `schema_migrations`, and all that the scripts change.
pub record Schema (D : Type 0) : Type 0 where
  pub versions : List String
  pub content : D

-- What fails of a run: the directory, the connection, `BEGIN` and the creation of the table, the
-- commit, the rollback.
pub record Failures : Type 0 where
  pub directory : Option Thrown
  pub connection : Option Thrown
  pub begin : Option Thrown
  pub commit : CommitResult
  pub rollback : Option Thrown

abbrev pub aggregate_error : Thrown
aggregate_error = own_error aggregate "AggregateError"

module _ {D : Type 0} (read_file : String → Outcome String)
    (run_script : String → D → Outcome D) where
  abbrev pub unless_failed : {S : Type 0} → Option Thrown → Exec S (Unit {0})
  unless_failed none = pure tt
  unless_failed (some e) = raise e

  abbrev pub put : Schema D → Exec (Schema D) (Unit {0})
  put after s = (ok tt, after)

  -- A script runs, and its version is inserted.
  unfoldable pub apply_migration : MigrationFile → Exec (Schema D) (Unit {0})
  apply_migration m s =
      (lift (read_file m.file_name) >>= λ sql. lift (run_script sql s.content) >>= λ content.
      put (record { versions = s.versions ++ (m.version ∷ []); content = content }))
        s

  unfoldable pub apply_migrations : List MigrationFile → Exec (Schema D) (Unit {0})
  apply_migrations [] s = (ok tt, s)
  apply_migrations (m ∷ migrations) s =
      let skipped = apply_migrations migrations s in
      let applied = (apply_migration m >> apply_migrations migrations) s in
      if includes s.versions m.version then skipped else applied

  -- `rollback`: the original error, or an aggregate of it and the failure of the rollback.
  abbrev pub rolled_back : Option Thrown → Thrown → Thrown
  rolled_back none e = e
  rolled_back (some f) e = aggregate_error

  -- `COMMIT`, with the tables behind it: an error goes to the handler, which asks for a `ROLLBACK`.
  abbrev pub commit_run : CommitResult → Option Thrown → Schema D → Exec (Schema D) (Unit {0})
  commit_run acknowledged rollback before s = (ok tt, s)
  commit_run (not_committed e) rollback before s = (throw (rolled_back rollback e), before)
  commit_run (unacknowledged e) rollback before s = (throw (rolled_back rollback e), s)

  abbrev pub settle_run :
      Failures → Schema D → Outcome (Unit {0}) × Schema D → Outcome (Unit {0}) × Schema D
  settle_run failures before (ok a, s) = commit_run failures.commit failures.rollback before s
  settle_run failures before (throw e, s) = (throw (rolled_back failures.rollback e), before)

  -- `BEGIN` and everything up to `COMMIT`.
  abbrev pub run_body : Failures → List String → Exec (Schema D) (Unit {0})
  run_body failures names = do
    unless_failed failures.begin
    apply_migrations (list_migration_files names)

  abbrev pub run_transaction : Failures → List String → Exec (Schema D) (Unit {0})
  run_transaction failures names s = settle_run failures s (run_body failures names s)

  unfoldable pub run_migrations : Failures → List String → Exec (Schema D) (Unit {0})
  run_migrations failures names = do
    unless_failed failures.directory
    unless_failed failures.connection
    run_transaction failures names
