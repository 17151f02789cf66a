-- ===== src/Database/Completion/Committed.antt =====
-- `saveTransactionsAndComplete` on the shared database, whose `COMMIT` may fail before or behind its
-- effect.
use ai_statement_analyzer.Base.{String, ◌≡◌, refl, ◌⊎◌, inl, inr, Option, none, some, List, [], ◌∷◌}
use ai_statement_analyzer.Failure.{Thrown, Outcome, ok, throw}
use ai_statement_analyzer.Database.Types.{CreateTransactionInput, Database}
use ai_statement_analyzer.Database.Completion.{complete_transaction}
use ai_statement_analyzer.Database.Completion.Cases.{
  SameTables, IsCompletion, CompletionCases, complete-cases,
}
use ai_statement_analyzer.Database.World.{
  Fault, lost, unacknowledged, Turn, World, apply_all, query, under_fault,
}
use ai_statement_analyzer.Database.Repository.{save_transactions_and_complete}

-- The database that the next transaction finds, behind the actions of the other processes.
abbrev pub found_by : List Turn → Database → Database
found_by [] db = db
found_by (turn ∷ turns) db = apply_all turn.others db

abbrev pub next_fault : List Turn → Option Fault
next_fault [] = none
next_fault (turn ∷ turns) = turn.fault

-- How the call ends, by its answer: it resolves with all of its work done, or it throws and both tables
-- are as they were found, or it throws although all of its work is done, since the acknowledgement of
-- the commit was lost.
abbrev pub CommitCases :
    String
    → String
    → List CreateTransactionInput
    → Option Fault
    → Database
    → Outcome (Unit {0})
    → Database
    → Type 0
CommitCases id token inputs fault before (ok _) after = IsCompletion id token inputs before after
CommitCases id token inputs fault before (throw e) after =
    SameTables before after
    ⊎ ((fault ≡ some (unacknowledged e)) × IsCompletion id token inputs before after)

module _ (id token : String) (inputs : List CreateTransactionInput) where
  without_fault :
      (before after : Database) (o : Outcome (Unit {0}))
      → CompletionCases id token inputs before o after
      → CommitCases id token inputs none before o after
  without_fault before after (ok _) c = c
  without_fault before after (throw e) c = inl c

  without_answer :
      (e : Thrown) (before after : Database) (o : Outcome (Unit {0}))
      → CompletionCases id token inputs before o after
      → CommitCases id token inputs (some (unacknowledged e)) before (throw e) after
  without_answer e before after (ok _) c = inr (refl, c)
  without_answer e before after (throw _) c = inl c

  under_fault-CommitCases :
      (fault : Option Fault) (db : Database)
      → CommitCases id token inputs fault db
          (under_fault fault (complete_transaction id token inputs) db).0
          (under_fault fault (complete_transaction id token inputs) db).1
  unfolding under_fault
  under_fault-CommitCases none db = without_fault db _ _ (complete-cases id token inputs db)
  under_fault-CommitCases (some (lost e)) db =
      inl (record { statements = refl; transactions = refl; now = refl })
  under_fault-CommitCases (some (unacknowledged e)) db =
      without_answer e db _ _ (complete-cases id token inputs db)

  by_turns :
      (turns : List Turn) (db : Database)
      → CommitCases id token inputs
          (next_fault turns)
          (found_by turns db)
          (query (complete_transaction id token inputs) (record { database = db; turns = turns })).0
          (query
            (complete_transaction id token inputs)
            (record { database = db; turns = turns })).1.database
  unfolding query
  by_turns [] db = without_fault db _ _ (complete-cases id token inputs db)
  by_turns (turn ∷ turns) db = under_fault-CommitCases turn.fault (apply_all turn.others db)

  -- Whatever the other processes have done before and however the transaction fails: where
  -- `saveTransactionsAndComplete` resolves, the row held the claim, the transactions were written and
  -- the row is completed; where it throws, both tables are as the transaction found them, or all of
  -- this work is done and only the acknowledgement was lost.
  pub save_transactions_and_complete-CommitCases :
      (w : World)
      → CommitCases id token inputs
          (next_fault w.turns)
          (found_by w.turns w.database)
          (save_transactions_and_complete id token inputs w).0
          (save_transactions_and_complete id token inputs w).1.database
  unfolding save_transactions_and_complete
  save_transactions_and_complete-CommitCases w = by_turns w.turns w.database
