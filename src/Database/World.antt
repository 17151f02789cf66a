-- ===== src/Database/World.antt =====
-- A database that several processes share and that may fail: before each query of the modelled
-- process the others take any number of actions, and the query itself may be lost or may take effect
-- without its answer arriving.
use ai_statement_analyzer.Base.{ℕ, ◌+◌, String, Option, none, some, List, [], ◌∷◌}
use ai_statement_analyzer.Failure.{Thrown, throw}
use ai_statement_analyzer.Effects.{Exec}
use ai_statement_analyzer.Database.Types.{
  upload_pending, StatementFailureCode, ContentType, StatementRecord, CreateTransactionInput,
  Database,
}
use ai_statement_analyzer.Database.Statements.{
  insert_statement, update_claim, update_uploaded, update_queued, update_reset, update_failed,
}
use ai_statement_analyzer.Database.Completion.{complete_transaction}

-- The row that `POST /statements` inserts.
abbrev pub pending_row : ℕ → String → String → String → ContentType → ℕ → StatementRecord
pending_row now id s3_key target_month content_type content_length = record {
  id = id;
  owner_id = none;
  s3_key = s3_key;
  target_month = target_month;
  status = upload_pending;
  content_type = content_type;
  content_length = content_length;
  processing_started_at = none;
  processing_lease_expires_at = none;
  processing_token = none;
  processed_at = none;
  failure_code = none;
  failure_message = none;
  created_at = now;
  updated_at = now;
}

-- What a process of the program can do to the tables, and the passing of time.
pub data Action : Type 0 where
  creates : String → String → String → ContentType → ℕ → Action
  uploads queues resets : String → Action
  claims : String → String → ℕ → Action
  fails : String → String → StatementFailureCode → String → Action
  completes : String → String → List CreateTransactionInput → Action
  elapses : ℕ → Action

unfoldable pub apply : Action → Database → Database
apply (creates id key month content_type length) db =
    (insert_statement (pending_row db.now id key month content_type length) db).1
apply (uploads id) db = (update_uploaded id db).1
apply (queues id) db = (update_queued id db).1
apply (resets id) db = (update_reset id db).1
apply (claims id token seconds) db = (update_claim id token seconds db).1
apply (fails id token code message) db = (update_failed id token code message db).1
apply (completes id token inputs) db = (complete_transaction id token inputs db).1
apply (elapses n) db = record db { now = db.now + n }

unfoldable pub apply_all : List Action → Database → Database
apply_all [] db = db
apply_all (a ∷ actions) db = apply_all actions (apply a db)

pub data Fault : Type 0 where
  lost unacknowledged : Thrown → Fault

pub record Turn : Type 0 where
  pub others : List Action
  pub fault : Option Fault

pub record World : Type 0 where
  pub database : Database
  pub turns : List Turn

module _ {A : Type 0} where
  unfoldable pub under_fault : Option Fault → Exec Database A → Exec Database A
  under_fault none m db = m db
  under_fault (some (lost e)) m db = (throw e, db)
  under_fault (some (unacknowledged e)) m db = (throw e, (m db).1)

  take_turn : List Turn → Exec Database A → Exec World A
  take_turn [] m w = ((m w.database).0, record w { database = (m w.database).1 })
  take_turn (turn ∷ turns) m w =
      let r = under_fault turn.fault m (apply_all turn.others w.database) in
      (r.0, record { database = r.1; turns = turns })

  unfoldable pub query : Exec Database A → Exec World A
  unfolding take_turn
  query m w = take_turn w.turns m w
