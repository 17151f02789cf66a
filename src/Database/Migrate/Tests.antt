-- ===== src/Database/Migrate/Tests.antt =====
-- Migrations of a directory that are run twice.
use ai_statement_analyzer.Base.{String, ◌≡◌, refl, none, List, [], ◌∷◌, ◌++◌, map}
use ai_statement_analyzer.Failure.{acknowledged, unacknowledged, Outcome, ok, plain, throw}
use ai_statement_analyzer.Database.Migrate.{
  Failures, run_migrations, list_migration_files, Schema, apply_migrations, is_migration_file,
  apply_migration,
}
use ai_statement_analyzer.Database.Migrate.Once.{Migrated, run_migrations-Migrated}

listed :
    map
      (λ m. m.version)
      (list_migration_files ("010_c.sql" ∷ "readme.md" ∷ "002_b.sql" ∷ "1_.SQL" ∷ "001_a.sql" ∷ []))
    ≡ "001_a" ∷ "002_b" ∷ "010_c" ∷ []
unfolding list_migration_files is_migration_file
listed = refl

abbrev no_failures : Failures
no_failures = record {
  directory = none;
  connection = none;
  begin = none;
  commit = acknowledged;
  rollback = none;
}

abbrev empty_schema : Schema (List String)
empty_schema = record { versions = []; content = [] }

abbrev run_script : String → List String → Outcome (List String)
run_script sql content = ok (content ++ (sql ∷ []))

run_twice :
    (run_migrations
      (λ name. ok name)
      run_script
      no_failures
      ("2_b.sql" ∷ "1_a.sql" ∷ [])
      empty_schema).1.content
    ≡ "1_a.sql" ∷ "2_b.sql" ∷ []
unfolding run_migrations apply_migrations apply_migration list_migration_files is_migration_file
run_twice = refl

-- The acknowledgement of the commit is lost: the run throws, and the scripts are applied.
unacknowledged_run :
    run_migrations
      (λ name. ok name)
      run_script
      (record no_failures { commit = unacknowledged plain })
      ("1_a.sql" ∷ [])
      empty_schema
    ≡ (throw plain, record { versions = "1_a" ∷ []; content = "1_a.sql" ∷ [] })
unfolding run_migrations apply_migrations apply_migration list_migration_files is_migration_file
unacknowledged_run = refl

run_migrations-Migrated_example :
    Migrated
      (λ name. ok name)
      run_script
      no_failures
      ("2_b.sql" ∷ "1_a.sql" ∷ [])
      empty_schema
      (run_migrations
        (λ name. ok name)
        run_script
        no_failures
        ("2_b.sql" ∷ "1_a.sql" ∷ [])
        empty_schema).0
      (run_migrations
        (λ name. ok name)
        run_script
        no_failures
        ("2_b.sql" ∷ "1_a.sql" ∷ [])
        empty_schema).1
run_migrations-Migrated_example =
    run_migrations-Migrated (λ name. ok name) run_script no_failures ("2_b.sql" ∷ "1_a.sql" ∷ [])
      empty_schema
