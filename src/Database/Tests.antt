-- ===== src/Database/Tests.antt =====
-- The theorems about the tables on small tables.
use ai_statement_analyzer.Base.{
  String, ◌≡◌, refl, ◌≢◌, true, some, List, [], ◌∷◌, arith, str_eq, eq_iff,
}
use ai_statement_analyzer.Base.Int.{pos}
use ai_statement_analyzer.Failure.{ok, throw, processing_claim_lost_error}
use ai_statement_analyzer.Database.Columns.{is_date_codes}
use ai_statement_analyzer.Database.World.{World, unacknowledged}
use ai_statement_analyzer.Database.Repository.{save_transactions_and_complete}
use ai_statement_analyzer.Database.Completion.Committed.{
  CommitCases, save_transactions_and_complete-CommitCases,
}
use ai_statement_analyzer.Failure.{plain}
use ai_statement_analyzer.Database.Completion.{violates_type}
use ai_statement_analyzer.Database.Types.{
  StatementRecord, Database, CreateTransactionInput, queued, completed, image_png,
  StatementFailureCode, processing,
}
use ai_statement_analyzer.Database.Statements.{update_claim, update_failed, claim_row}
use ai_statement_analyzer.Database.Completion.{complete_transaction}
use ai_statement_analyzer.Database.World.{
  Action, claims, completes, elapses, apply, apply_all, pending_row,
}
use ai_statement_analyzer.Database.Rows.{find_row}
use ai_statement_analyzer.Database.Lifecycle.{status_of}
use ai_statement_analyzer.Database.Lifecycle.History.{apply_all-terminal}
use ai_statement_analyzer.Database.Lifecycle.WellFormed.{IsWellFormed, apply_all-IsWellFormed}
use ai_statement_analyzer.Database.Leases.Exclusion.{
  after_claim, IsClaimed, claim_exclusive, stale_token,
}
use ai_statement_analyzer.Database.Leases.Holder.{IsHolder, AreValid, stored, complete_stores}
use ai_statement_analyzer.Database.Leases.Progress.{
  IsFinished, HasRow, claim_and_complete, before_claim, before_claim-IsFinished,
}

abbrev pub queued_row : StatementRecord
queued_row = record (pending_row 0 "s1" "k1" "2026-01-01" image_png 10) { status = queued }

abbrev pub start : Database
start = record { now = 5; statements = queued_row ∷ []; transactions = []; next_transaction_id = 1 }

pub start-IsWellFormed : IsWellFormed start
unfolding find_row
start-IsWellFormed = record {
  consistent = (record { token = refl; lease = refl; processed = refl; failure = refl }, tt);
  unique = (refl, tt);
  lines = tt;
  owned = tt;
  checked = tt;
}

-- A worker claims the statement, saves a transaction and time passes.
abbrev pub coffee : CreateTransactionInput
coffee = record {
  line_number = 1;
  transaction_date = "2026-01-05";
  merchant_raw = "CAFE";
  merchant_name = "Cafe";
  amount = pos 480;
  category = "食費";
  subcategory = some "カフェ";
}

abbrev one_job : List Action
one_job = claims "s1" "t1" 600 ∷ elapses 7 ∷ completes "s1" "t1" (coffee ∷ []) ∷ []

apply_all-IsWellFormed_example : IsWellFormed (apply_all one_job start)
apply_all-IsWellFormed_example = apply_all-IsWellFormed one_job start start-IsWellFormed

abbrev wait : List Action
wait = elapses 7 ∷ []

start-IsClaimed : IsClaimed "s1" "t1" 600 wait start
unfolding update_claim apply_all apply
start-IsClaimed = record {
  well_formed = start-IsWellFormed;
  row = claim_row 5 "t1" 600 queued_row;
  claimed = refl;
  in_time = ground arith;
}

claim_exclusive_example :
    update_claim "s1" "t2" 600 (after_claim "s1" "t1" 600 wait start)
    ≡ (ok [], after_claim "s1" "t1" 600 wait start)
claim_exclusive_example = claim_exclusive "s1" "t1" 600 wait start start-IsClaimed "t2" 600

abbrev other_token : String
other_token = "t2"

t2-other : other_token ≢ "t1"
t2-other e =
    let same : str_eq other_token "t1" ≡ true = (eq_iff other_token "t1").1 e in
    absurd (ground (arith, same))

stale_token_example :
    ((code : StatementFailureCode) (message : String)
      → update_failed "s1" "t2" code message (after_claim "s1" "t1" 600 wait start)
        ≡ (ok [], after_claim "s1" "t1" 600 wait start))
    × ((inputs : List CreateTransactionInput)
        → complete_transaction "s1" "t2" inputs (after_claim "s1" "t1" 600 wait start)
          ≡ (throw processing_claim_lost_error, after_claim "s1" "t1" 600 wait start))
stale_token_example = stale_token "s1" "t1" 600 wait start start-IsClaimed "t2" t2-other

abbrev pub finished : Database
finished = record start { statements = record queued_row { status = completed } ∷ [] }

finished-status : status_of "s1" finished ≡ some completed
unfolding status_of find_row
finished-status = refl

apply_all-terminal_example : status_of "s1" (apply_all one_job finished) ≡ some completed
apply_all-terminal_example = apply_all-terminal one_job "s1" finished completed refl finished-status

abbrev pub held : Database
held = record start { statements = claim_row 5 "t1" 600 queued_row ∷ [] }

held-IsWellFormed : IsWellFormed held
unfolding find_row
held-IsWellFormed = record {
  consistent = (record { token = refl; lease = refl; processed = refl; failure = refl }, tt);
  unique = (refl, tt);
  lines = tt;
  owned = tt;
  checked = tt;
}

pub held-IsHolder : IsHolder "s1" "t1" held
unfolding find_row
held-IsHolder = record {
  well_formed = held-IsWellFormed;
  row = claim_row 5 "t1" 600 queued_row;
  found = refl;
  held = refl;
}

coffee-AreValid : AreValid (coffee ∷ [])
unfolding violates_type is_date_codes
coffee-AreValid = record { checked = (refl, tt); distinct = (tt, tt) }

complete_stores_example :
    ((complete_transaction "s1" "t1" (coffee ∷ []) held).0 ≡ ok tt)
    × (status_of "s1" (complete_transaction "s1" "t1" (coffee ∷ []) held).1 ≡ some completed)
    × (stored "s1" (complete_transaction "s1" "t1" (coffee ∷ []) held).1 ≡ coffee ∷ [])
complete_stores_example = complete_stores "s1" "t1" held held-IsHolder (coffee ∷ []) coffee-AreValid

-- A commit whose acknowledgement is lost.
abbrev unanswered : World
unanswered = record {
  database = held;
  turns = record { others = []; fault = some (unacknowledged plain) } ∷ [];
}

save_transactions_and_complete-CommitCases_example :
    CommitCases "s1" "t1"
      (coffee ∷ [])
      (some (unacknowledged plain))
      held
      (save_transactions_and_complete "s1" "t1" (coffee ∷ []) unanswered).0
      (save_transactions_and_complete "s1" "t1" (coffee ∷ []) unanswered).1.database
unfolding apply_all
save_transactions_and_complete-CommitCases_example =
    save_transactions_and_complete-CommitCases "s1" "t1" (coffee ∷ []) unanswered

-- The worker that held the lease has vanished; the lease runs out, another worker takes over.
held-HasRow : HasRow "s1" held (claim_row 5 "t1" 600 queued_row)
unfolding find_row
held-HasRow = record { well_formed = held-IsWellFormed; found = refl }

before_claim-IsFinished_example : IsFinished "s1" (coffee ∷ []) (
    apply_all
      (claim_and_complete "s1" "t2" 600 (coffee ∷ []))
      (apply_all (before_claim "s1" 5 processing (some 600000005)) held))
before_claim-IsFinished_example =
    before_claim-IsFinished "s1" "t2" 600 (ground arith) (coffee ∷ []) coffee-AreValid held
      (claim_row 5 "t1" 600 queued_row) held-HasRow refl
