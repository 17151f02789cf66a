-- ===== src/Database/Repository.antt =====
-- The methods of `StatementRepository` (src/database/statement-repository.ts) on statements and
-- transactions. A connection of the pool that is opened, rolled back and released shows only in the
-- error that a failing query raises.
use ai_statement_analyzer.Base.{
  ℕ, String, Bool, false, Option, none, some, List, [], ◌∷◌, leb, ◌==◌, str_eq, head?, length,
  filter, or_else, sort_by, if◌then◌else◌,
}
use Prim.Native.String
use ai_statement_analyzer.Base.Int.{pos}
use ai_statement_analyzer.Base.Text.{codes, is_year_month}
use ai_statement_analyzer.Base.Number.{Number, integer, positive_integer}
use ai_statement_analyzer.Failure.{
  Outcome, ok, throw, Thrown, thrown_object, thrown_primitive, plain, unique_constraint_error,
}
use ai_statement_analyzer.Effects.{Exec, pure, raise, lift, try_catch, ◌>>=◌}
use ai_statement_analyzer.Database.Types.{
  StatementStatus, upload_pending, StatementFailureCode, CreateStatementInput, StatementRecord,
  CreateTransactionInput, TransactionRecord, ProcessingClaim, Database,
}
use ai_statement_analyzer.Database.Statements.{
  update_claim, update_uploaded, update_queued, update_reset, update_any_status, update_failed,
  select_statement, insert_statement,
}
use ai_statement_analyzer.Database.Completion.{complete_transaction}
use ai_statement_analyzer.Database.World.{World, query}

abbrev pub default_processing_lease_seconds : Number
default_processing_lease_seconds = integer (pos 600)

unfoldable pub normalize_target_month : String → Outcome String
normalize_target_month value =
    if is_year_month (codes value) then ok (String.◌++◌ value "-01") else throw plain

abbrev pub has_code : Option String → String → Bool
has_code none code = false
has_code (some c) code = str_eq c code

unfoldable pub is_unique_violation : Thrown → Bool
is_unique_violation thrown_primitive = false
is_unique_violation (thrown_object e) = has_code e.code "23505"

-- The columns that `INSERT INTO statements` sets; the others are NULL or `NOW()`.
abbrev pub new_row : String → CreateStatementInput → String → ℕ → StatementRecord
new_row generated input target_month now = record {
  id = or_else input.id generated;
  owner_id = input.owner_id;
  s3_key = input.s3_key;
  target_month = target_month;
  status = or_else input.status upload_pending;
  content_type = input.content_type;
  content_length = input.content_length;
  processing_started_at = none;
  processing_lease_expires_at = none;
  processing_token = none;
  processed_at = none;
  failure_code = none;
  failure_message = none;
  created_at = now;
  updated_at = now;
}

unfoldable pub insert_input : String → CreateStatementInput → String → Exec Database StatementRecord
insert_input generated input month db = insert_statement (new_row generated input month db.now) db

unfoldable pub on_create_error : Thrown → Exec World StatementRecord
on_create_error error =
    if is_unique_violation error then raise unique_constraint_error else raise error

-- `randomUUID()` is the argument `generated`.
unfoldable pub create : String → CreateStatementInput → Exec World StatementRecord
create generated input =
    try_catch
      (lift (normalize_target_month input.target_month) >>= λ month.
        query (insert_input generated input month))
      on_create_error

-- The source takes the three columns to be non-null, as the `UPDATE` has just set them.
abbrev pub map_processing_claim : StatementRecord → ProcessingClaim
map_processing_claim row = record {
  statement_id = row.id;
  s3_key = row.s3_key;
  content_type = row.content_type;
  content_length = row.content_length;
  processing_started_at = or_else row.processing_started_at 0;
  processing_lease_expires_at = or_else row.processing_lease_expires_at 0;
  processing_token = or_else row.processing_token "";
}

abbrev pub first_claim : List StatementRecord → Option ProcessingClaim
first_claim [] = none
first_claim (row ∷ rows) = some (map_processing_claim row)

unfoldable pub claim_with : String → String → Option ℕ → Exec World (Option ProcessingClaim)
claim_with id token none = raise plain
claim_with id token (some seconds) = do
  rows ← query (update_claim id token seconds)
  pure (first_claim rows)

unfoldable pub claim_for_processing :
    String → String → Option Number → Exec World (Option ProcessingClaim)
claim_for_processing id token lease =
    claim_with id token (positive_integer (or_else lease default_processing_lease_seconds))

unfoldable pub find_by_id : String → Exec World (Option StatementRecord)
find_by_id id = query (select_statement id)

unfoldable pub mark_uploaded : String → Exec World (Option StatementRecord)
mark_uploaded id = do rows ← query (update_uploaded id); pure (head? rows)

unfoldable pub mark_queued : String → Exec World (Option StatementRecord)
mark_queued id = do rows ← query (update_queued id); pure (head? rows)

unfoldable pub reset_queued_to_uploaded : String → Exec World (Option StatementRecord)
reset_queued_to_uploaded id = do rows ← query (update_reset id); pure (head? rows)

unfoldable pub update_status : String → StatementStatus → Exec World (Option StatementRecord)
update_status id status = do rows ← query (update_any_status id status); pure (head? rows)

unfoldable pub mark_failed : String → String → StatementFailureCode → String → Exec World Bool
mark_failed id token code message = do
  rows ← query (update_failed id token code message)
  pure (length rows == 1)

abbrev pub line_before : TransactionRecord → TransactionRecord → Bool
line_before a b = leb a.line_number b.line_number

abbrev pub transactions_of : String → Exec Database (List TransactionRecord)
transactions_of id db =
    pure (sort_by line_before (filter (λ t. str_eq t.statement_id id) db.transactions)) db

unfoldable pub find_transactions : String → Exec World (List TransactionRecord)
find_transactions id = query (transactions_of id)

unfoldable pub save_transactions_and_complete :
    String → String → List CreateTransactionInput → Exec World (Unit {0})
save_transactions_and_complete id token inputs = query (complete_transaction id token inputs)
