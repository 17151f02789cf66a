-- ===== src/Database/Migrate/Once.antt =====
-- A run of the migrations is all or nothing, and a second run does nothing.
use ai_statement_analyzer.Base.{
  String, ◌≡◌, refl, ap, ◌∙◌, ◌⊎◌, inl, inr, true, ◌||◌, Option, none, some, List, [], ◌∷◌, ◌++◌,
  arith, eq_refl, Bool-cases, All,
}
use ai_statement_analyzer.Effects.{lift, ◌>>◌}
use ai_statement_analyzer.Database.Migrate.{
  MigrationFile, apply_migrations, Schema, apply_migration, run_migrations, Failures,
  list_migration_files, run_body, unless_failed, run_transaction, settle_run, commit_run,
}
use ai_statement_analyzer.Json.{includes}
use ai_statement_analyzer.Failure.{
  CommitResult, acknowledged, not_committed, unacknowledged, Outcome, ok, Thrown, throw,
}
use ai_statement_analyzer.Effects.Laws.{bind-ok}

abbrev pub Applied : List String → MigrationFile → Type 0
Applied versions m = includes versions m.version ≡ true

includes-append :
    (xs ys : List String) (s : String) → includes (xs ++ ys) s ≡ (includes xs s || includes ys s)
includes-append [] ys s = refl
includes-append (x ∷ xs) ys s = ground (arith, includes-append xs ys s)

module _ {D : Type 0} (read_file : String → Outcome String)
    (run_script : String → D → Outcome D) where
  -- What a run of the loop that resolved has done: nothing is forgotten and every file is applied.
  pub record IsApplied (migrations : List MigrationFile) (before after : Schema D) : Type 0 where
    pub kept :
        (version : String)
        → includes before.versions version ≡ true
        → includes after.versions version ≡ true
    pub applied : All (Applied after.versions) migrations

  apply_migration-adds :
      (m : MigrationFile) (s : Schema D)
      → (apply_migration read_file run_script m s).0 ≡ ok tt
      → (apply_migration read_file run_script m s).1.versions ≡ s.versions ++ (m.version ∷ [])
  unfolding apply_migration
  apply_migration-adds m s h =
      let one = bind-ok (lift (read_file m.file_name)) _ s h in
      let two = bind-ok (lift (run_script one.value s.content)) _ s one.rest in
      ap (λ (x : Schema D). x.versions) (one.state ∙ two.state)

  apply_migrations-IsApplied :
      (migrations : List MigrationFile) (s : Schema D)
      → (apply_migrations read_file run_script migrations s).0 ≡ ok tt
      → IsApplied migrations s (apply_migrations read_file run_script migrations s).1
  unfolding apply_migrations
  apply_migrations-IsApplied [] s h = record { kept = λ v k. k; applied = tt }
  apply_migrations-IsApplied (m ∷ migrations) s h =
      elim (Bool-cases (includes s.versions m.version)) [
        | inl y ↦
            let rest = apply_migrations-IsApplied migrations s (rw y at h) in
            rw y (record { kept = rest.kept; applied = (rest.kept m.version y, rest.applied) })
        | inr n ↦
            let one = bind-ok (apply_migration read_file run_script m) _ s (rw n at h) in
            let rest =
              apply_migrations-IsApplied migrations (apply_migration read_file run_script m s).1
                one.rest in
            let adds = apply_migration-adds m s one.first in
            let mid : (v : String)
                → includes s.versions v ≡ true
                → includes (apply_migration read_file run_script m s).1.versions v ≡ true =
              λ v k. rw (adds, includes-append s.versions (m.version ∷ []) v, k) refl in
            let own : includes (apply_migration read_file run_script m s).1.versions m.version
                ≡ true =
              rw (adds, includes-append s.versions (m.version ∷ []) m.version, eq_refl m.version)
                (ground arith) in
            rw (n, one.state)
              (record {
                kept = λ v k. rest.kept v (mid v k);
                applied = (rest.kept m.version own, rest.applied);
              })
      ]

  apply_migrations-none :
      (migrations : List MigrationFile) (s : Schema D)
      → All (Applied s.versions) migrations
      → apply_migrations read_file run_script migrations s ≡ (ok tt, s)
  unfolding apply_migrations
  apply_migrations-none [] s a = refl
  apply_migrations-none (m ∷ migrations) s (y, a) = rw y (apply_migrations-none migrations s a)

  -- Every migration of the directory is applied, no version is forgotten, and the next run that
  -- reaches the database does nothing.
  pub record IsOnce (names : List String) (before after : Schema D) : Type 0 where
    pub all_applied : IsApplied (list_migration_files names) before after
    pub again :
        run_migrations read_file run_script
          (record {
            directory = none;
            connection = none;
            begin = none;
            commit = acknowledged;
            rollback = none;
          })
          names
          after
        ≡ (ok tt, after)

  -- What a run leaves, by how it ended.
  abbrev pub Migrated : Failures → List String → Schema D → Outcome (Unit {0}) → Schema D → Type 0
  Migrated failures names before (ok _) after =
      (failures.commit ≡ acknowledged) × IsOnce names before after
  Migrated failures names before (throw e) after =
      (after ≡ before)
      ⊎ ((x : Thrown) × (failures.commit ≡ unacknowledged x) × IsOnce names before after)

  again-IsOnce :
      (names : List String) (before after : Schema D)
      → IsApplied (list_migration_files names) before after
      → IsOnce names before after
  unfolding run_migrations
  again-IsOnce names before after a = record {
    all_applied = a;
    again = rw (apply_migrations-none (list_migration_files names) after a.applied) refl;
  }

  run_body-IsApplied :
      (begin : Option Thrown) (names : List String) (s : Schema D)
      → ((unless_failed read_file run_script begin
            >> apply_migrations read_file run_script (list_migration_files names))
          s).0
        ≡ ok tt
      → IsApplied
          (list_migration_files names)
          s
          ((unless_failed read_file run_script begin
              >> apply_migrations read_file run_script (list_migration_files names))
            s).1
  run_body-IsApplied (some e) names s h = cc
  run_body-IsApplied none names s h = apply_migrations-IsApplied (list_migration_files names) s h

  committed :
      (failures : Failures) (names : List String) (before after : Schema D) (c : CommitResult)
      → failures.commit ≡ c
      → IsOnce names before after
      → Migrated failures names before
          (commit_run read_file run_script c failures.rollback before after).0
          (commit_run read_file run_script c failures.rollback before after).1
  committed failures names before after acknowledged same once = (same, once)
  committed failures names before after (not_committed e) same once = inl refl
  committed failures names before after (unacknowledged e) same once = inr (e, same, once)

  settled :
      (failures : Failures) (names : List String) (before : Schema D) (o : Outcome (Unit {0}))
      (after : Schema D)
      → (o ≡ ok tt → IsApplied (list_migration_files names) before after)
      → Migrated failures names before
          (settle_run read_file run_script failures before (o, after)).0
          (settle_run read_file run_script failures before (o, after)).1
  settled failures names before (ok a) after h =
      committed failures names before after failures.commit refl
        (again-IsOnce names before after (h refl))
  settled failures names before (throw e) after h = inl refl

  reached :
      (failures : Failures) (names : List String) (s : Schema D) (d c : Option Thrown)
      → (let run =
            (unless_failed read_file run_script d
                >> (unless_failed read_file run_script c
                    >> run_transaction read_file run_script failures names))
              s in
          Migrated failures names s run.0 run.1)
  reached failures names s none none =
      settled failures names s (run_body read_file run_script failures names s).0
        (run_body read_file run_script failures names s).1
        (run_body-IsApplied failures.begin names s)
  reached failures names s none (some e) = inl refl
  reached failures names s (some e) c = inl refl

  -- However a run of the migrations fails, at the directory, at the connection, in a script, at the
  -- commit or at the rollback: where it throws, the database is as it was, or the commit took effect
  -- without its acknowledgement; where it resolves, the commit was acknowledged. Behind a commit that
  -- took effect every migration of the directory is applied, no version is forgotten and a further run
  -- does nothing.
  pub run_migrations-Migrated :
      (failures : Failures) (names : List String) (s : Schema D)
      → Migrated failures names s
          (run_migrations read_file run_script failures names s).0
          (run_migrations read_file run_script failures names s).1
  unfolding run_migrations
  run_migrations-Migrated failures names s =
      reached failures names s failures.directory failures.connection
