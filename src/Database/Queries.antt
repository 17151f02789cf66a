-- ===== src/Database/Queries.antt =====
-- A query that was answered has run on the tables as the other processes had left them.
use ai_statement_analyzer.Base.{◌≡◌, refl, Option, none, some, List, [], ◌∷◌}
use ai_statement_analyzer.Failure.{ok}
use ai_statement_analyzer.Effects.{Exec}
use ai_statement_analyzer.Database.Types.{Database}
use ai_statement_analyzer.Database.World.{
  apply_all, Turn, Fault, lost, unacknowledged, World, under_fault, query,
}

module _ {A : Type 0} (m : Exec Database A) where
  pub record Answered (w : World) (a : A) : Type 0 where
    pub before : Database
    pub answer : (m before).0 ≡ ok a
    pub after : (query m w).1.database ≡ (m before).1

  fault-Answered :
      (f : Option Fault) (db : Database) {a : A}
      → (under_fault f m db).0 ≡ ok a
      → ((m db).0 ≡ ok a) × ((under_fault f m db).1 ≡ (m db).1)
  unfolding under_fault
  fault-Answered none db h = (h, refl)
  fault-Answered (some (lost e)) db h = cc
  fault-Answered (some (unacknowledged e)) db h = cc

  turns-Answered :
      (db : Database) (turns : List Turn) {a : A}
      → (query m (record { database = db; turns = turns })).0 ≡ ok a
      → Answered (record { database = db; turns = turns }) a
  unfolding query
  turns-Answered db [] h = record { before = db; answer = h; after = refl }
  turns-Answered db (turn ∷ turns) h =
      let (answer, after) = fault-Answered turn.fault (apply_all turn.others db) h in
      record { before = apply_all turn.others db; answer = answer; after = after }

  pub query-Answered : (w : World) {a : A} → (query m w).0 ≡ ok a → Answered w a
  query-Answered w h = turns-Answered w.database w.turns h
