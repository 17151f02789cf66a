-- ===== src/Database/Completion.antt =====
-- The transaction of `saveTransactionsAndComplete` (src/database/statement-repository.ts): the row
-- is locked and its claim checked, the transactions are upserted one by one, the statement is
-- completed, and any error rolls the tables back.
pub mod Cases
pub mod Committed
pub mod Upsert
use ai_statement_analyzer.Base.{
  ℕ, ◌+◌, String, Bool, not, ◌&&◌, ◌||◌, Option, none, some, List, [], ◌∷◌, ◌++◌, leb, ◌==◌, str_eq,
  any, length, if◌then◌else◌,
}
use ai_statement_analyzer.Base.Int.{pos, eq_ℤ}
use ai_statement_analyzer.Failure.{
  Outcome, ok, throw, plain, database_error, processing_claim_lost_error,
}
use ai_statement_analyzer.Effects.{Exec, pure, raise, ◌>>=◌, ◌>>◌}
use ai_statement_analyzer.Database.Types.{
  StatementRecord, CreateTransactionInput, TransactionRecord, Database,
}
use ai_statement_analyzer.Database.Columns.{
  is_integer, is_date, is_storable, is_storable_option, is_bigint,
}
use ai_statement_analyzer.Database.Table.{update}
use ai_statement_analyzer.Database.Statements.{holds_claim, update_completed, select_statement}

-- `transactions_statement_line_unique`
abbrev pub has_line : String → ℕ → TransactionRecord → Bool
has_line statement_id line_number t =
    str_eq t.statement_id statement_id && t.line_number == line_number

abbrev pub overwrite : CreateTransactionInput → TransactionRecord → TransactionRecord
overwrite input t = record t { input = input }

abbrev pub new_transaction : Database → String → CreateTransactionInput → TransactionRecord
new_transaction db statement_id input = record {
  input = input;
  id = db.next_transaction_id;
  statement_id = statement_id;
  created_at = db.now;
}

-- `ON CONFLICT (statement_id, line_number) DO UPDATE`
abbrev pub upsert_rows : Database → String → CreateTransactionInput → List TransactionRecord
upsert_rows db statement_id input =
    if any (has_line statement_id input.line_number) db.transactions
    then update (has_line statement_id input.line_number) (overwrite input) db.transactions
    else db.transactions ++ new_transaction db statement_id input ∷ []

-- `line_number > 0` and `amount <> 0`
abbrev pub violates_check : CreateTransactionInput → Bool
violates_check input = not (leb 1 input.line_number) || eq_ℤ input.amount (pos 0)

-- The SQLSTATE of the first parameter that its column type refuses: a number out of range, a text that
-- is no date, a text with U+0000.
abbrev pub type_error : CreateTransactionInput → String
type_error input =
    if not (is_integer input.line_number)
    then "22003"
    else if not (is_date input.transaction_date)
    then "22007"
    else if not (is_storable input.merchant_raw && is_storable input.merchant_name)
    then "22021"
    else if not (is_bigint input.amount)
    then "22003"
    else "22021"

unfoldable pub violates_type : CreateTransactionInput → Bool
violates_type input = not (
    is_integer input.line_number
    && is_date input.transaction_date
    && is_storable input.merchant_raw
    && is_storable input.merchant_name
    && is_bigint input.amount
    && is_storable input.category
    && is_storable_option input.subcategory)

abbrev pub is_refused : CreateTransactionInput → Bool
is_refused input = violates_type input || violates_check input

-- A refused parameter raises before the row is made; the identity sequence moves on with every row that
-- is made, also with one that a CHECK refuses.
unfoldable pub upsert_transaction : String → CreateTransactionInput → Exec Database (Unit {0})
upsert_transaction statement_id input db =
    if is_refused input
    then raise (database_error (if violates_type input then type_error input else "23514"))
        (record db {
          next_transaction_id = db.next_transaction_id + (if violates_type input then 0 else 1);
        })
    else pure tt (record db {
      transactions = upsert_rows db statement_id input;
      next_transaction_id = db.next_transaction_id + 1;
    })

unfoldable pub upsert_all : String → List CreateTransactionInput → Exec Database (Unit {0})
upsert_all statement_id [] = pure tt
upsert_all statement_id (input ∷ inputs) = do
  upsert_transaction statement_id input
  upsert_all statement_id inputs

unfoldable pub check_claim : String → Option StatementRecord → Exec Database (Unit {0})
check_claim token none db = raise plain db
check_claim token (some row) db =
    if holds_claim db.now token row then pure tt db else raise processing_claim_lost_error db

unfoldable pub check_completed : List StatementRecord → Exec Database (Unit {0})
check_completed rows = if length rows == 1 then pure tt else raise processing_claim_lost_error

-- `ROLLBACK` restores the tables; a sequence is never rolled back.
unfoldable pub rollback : {A : Type 0} → Database → Outcome A × Database → Outcome A × Database
rollback before (ok a, after) = (ok a, after)
rollback before (throw e, after) =
    (throw e, record before { next_transaction_id = after.next_transaction_id })

unfoldable pub complete_body :
    String → String → List CreateTransactionInput → Exec Database (Unit {0})
complete_body id token inputs = do
  row ← select_statement id
  check_claim token row
  upsert_all id inputs
  rows ← update_completed id token
  check_completed rows

-- The transaction up to its `COMMIT`, and the `ROLLBACK` behind an error; that the `COMMIT` itself fails
-- is a fault of `World`.
unfoldable pub complete_transaction :
    String → String → List CreateTransactionInput → Exec Database (Unit {0})
complete_transaction id token inputs db = rollback db (complete_body id token inputs db)
