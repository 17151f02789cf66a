-- ===== src/Database/Statements.antt =====
-- The SQL of src/database/statement-repository.ts that reads and writes `statements`, each statement
-- as the action on the tables that it denotes, with the constraints of migrations/*.sql.
use ai_statement_analyzer.Base.{
  ℕ, ◌+◌, ◌*◌, String, Bool, false, not, ◌&&◌, ◌||◌, Option, none, some, List, [], ◌∷◌, ◌++◌, ltb,
  leb, str_eq, any, head?, if◌then◌else◌,
}
use ai_statement_analyzer.Failure.{database_error}
use ai_statement_analyzer.Effects.{Exec, pure, raise}
use ai_statement_analyzer.Database.Types.{
  StatementStatus, uploaded, queued, processing, completed, failed, is_upload_pending, is_uploaded,
  is_queued, is_processing, StatementFailureCode, failure_code_text, StatementRecord, Database,
}
use ai_statement_analyzer.Database.Table.{select, update, returning}

abbrev pub microseconds : ℕ
microseconds = 1000000

-- `UPDATE statements SET ... WHERE test RETURNING ...`
abbrev pub update_statements :
    (StatementRecord → Bool)
    → (StatementRecord → StatementRecord)
    → Exec Database (List StatementRecord)
update_statements test set db =
    (pure (returning test set db.statements)
      (record db { statements = update test set db.statements }))

-- A comparison with NULL does not hold.
abbrev pub lease_expired : ℕ → Option ℕ → Bool
lease_expired now none = false
lease_expired now (some expires) = ltb expires now

abbrev pub lease_valid : ℕ → Option ℕ → Bool
lease_valid now none = false
lease_valid now (some expires) = ltb now expires

abbrev pub token_is : Option String → String → Bool
token_is none token = false
token_is (some held) token = str_eq held token

abbrev pub has_id : String → StatementRecord → Bool
has_id id r = str_eq r.id id

-- The rows that the claim takes: queued ones, and those whose lease has run out.
abbrev pub is_claimable : ℕ → StatementRecord → Bool
is_claimable now r =
    is_queued r.status
    || (is_processing r.status && lease_expired now r.processing_lease_expires_at)

abbrev pub claim_row : ℕ → String → ℕ → StatementRecord → StatementRecord
claim_row now token lease_seconds r = record r {
  status = processing;
  processing_started_at = some now;
  processing_lease_expires_at = some (now + lease_seconds * microseconds);
  processing_token = some token;
  updated_at = now;
}

unfoldable pub update_claim : String → String → ℕ → Exec Database (List StatementRecord)
update_claim id token lease_seconds db =
    update_statements (λ r. has_id id r && is_claimable db.now r)
      (claim_row db.now token lease_seconds) db

abbrev pub set_status : ℕ → StatementStatus → StatementRecord → StatementRecord
set_status now status r = record r { status = status; updated_at = now }

unfoldable pub update_uploaded : String → Exec Database (List StatementRecord)
update_uploaded id db =
    update_statements (λ r. has_id id r && is_upload_pending r.status) (set_status db.now uploaded)
      db

unfoldable pub update_queued : String → Exec Database (List StatementRecord)
update_queued id db =
    update_statements (λ r. has_id id r && is_uploaded r.status) (set_status db.now queued) db

unfoldable pub update_reset : String → Exec Database (List StatementRecord)
update_reset id db =
    update_statements (λ r. has_id id r && is_queued r.status) (set_status db.now uploaded) db

unfoldable pub update_any_status : String → StatementStatus → Exec Database (List StatementRecord)
update_any_status id status db = update_statements (has_id id) (set_status db.now status) db

-- `status = 'PROCESSING' AND processing_token = $2 AND processing_lease_expires_at > NOW()`
abbrev pub holds_claim : ℕ → String → StatementRecord → Bool
holds_claim now token r =
    is_processing r.status
    && token_is r.processing_token token
    && lease_valid now r.processing_lease_expires_at

abbrev pub fail_row : ℕ → String → String → StatementRecord → StatementRecord
fail_row now code message r = record r {
  status = failed;
  failure_code = some code;
  failure_message = some message;
  processed_at = none;
  processing_lease_expires_at = none;
  processing_token = none;
  updated_at = now;
}

unfoldable pub update_failed :
    String → String → StatementFailureCode → String → Exec Database (List StatementRecord)
update_failed id token code message db =
    update_statements (λ r. has_id id r && holds_claim db.now token r)
      (fail_row db.now (failure_code_text code) message) db

abbrev pub complete_row : ℕ → StatementRecord → StatementRecord
complete_row now r = record r {
  status = completed;
  processed_at = some now;
  processing_lease_expires_at = none;
  processing_token = none;
  failure_code = none;
  failure_message = none;
  updated_at = now;
}

unfoldable pub update_completed : String → String → Exec Database (List StatementRecord)
update_completed id token db =
    update_statements (λ r. has_id id r && holds_claim db.now token r) (complete_row db.now) db

unfoldable pub select_statement : String → Exec Database (Option StatementRecord)
select_statement id db = pure (head? (select (has_id id) db.statements)) db

abbrev pub max_content_length : ℕ
max_content_length = 10485760

-- The primary key, the unique key of the object and the bound on the length.
abbrev pub conflicts : StatementRecord → StatementRecord → Bool
conflicts new r = str_eq r.id new.id || str_eq r.s3_key new.s3_key

unfoldable pub insert_statement : StatementRecord → Exec Database StatementRecord
insert_statement new db =
    if not (leb 1 new.content_length && leb new.content_length max_content_length)
    then raise (database_error "23514") db
    else if any (conflicts new) db.statements
    then raise (database_error "23505") db
    else pure new (record db { statements = db.statements ++ new ∷ [] })
