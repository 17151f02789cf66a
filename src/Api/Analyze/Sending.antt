-- ===== src/Api/Analyze/Sending.antt =====
-- What the answers of the handler that sends a statement to the worker stand for.
use ai_statement_analyzer.Base.{
  String, ◌≡◌, refl, ap, inl, inr, false, Option, none, some, ◌∷◌, arith, ◌==◌, Bool-cases,
  Option-cases,
}
use ai_statement_analyzer.Failure.{Thrown, Outcome, ok}
use ai_statement_analyzer.Effects.{Traced, call, attempt}
use ai_statement_analyzer.Effects.Laws.{attempt-cases}
use ai_statement_analyzer.Database.Types.{
  StatementStatus, upload_pending, uploaded, queued, processing, completed, failed, StatementRecord,
}
use ai_statement_analyzer.Api.Responses.{
  Response, AppDependencies, unavailable, to_upload_status, statement_line, dependency_failure_line,
}
use ai_statement_analyzer.Api.Analyze.{
  sent, on_send_failure, send, refetched, after_mark, analyze_found, analyze_statement,
  recover_queue, refetched_as, analyze_as,
}

module _ {S : Type 0} (app : AppDependencies S) (id : String) (before : S) where
  -- The store and the queue, right behind the first `findById` and behind `markQueued`.
  abbrev pub after_find : S
  after_find = (app.statements.find_by_id id before).1

  abbrev pub after_mark_queued : StatementRecord → S
  after_mark_queued found = (app.statements.mark_queued found.id after_find).1

  -- The statement of that id was found as uploaded, `markQueued` marked it, the job of the marked row
  -- was sent right behind, and the answer shows that row.
  pub record IsSent (answer : Response) (final : S) : Type 0 where
    pub found : StatementRecord
    pub statement : StatementRecord
    pub found_first : (app.statements.find_by_id id before).0 ≡ ok (some found)
    pub was_uploaded : found.status ≡ uploaded
    pub marked : (app.statements.mark_queued found.id after_find).0 ≡ ok (some statement)
    pub enqueued : (app.job_queue.send_analyze_job statement.id (after_mark_queued found)).0 ≡ ok tt
    pub state : final ≡ (app.job_queue.send_analyze_job statement.id (after_mark_queued found)).1
    pub shown : answer ≡ to_upload_status 202 statement

  -- No error escapes, and a 202 is answered only where the job was sent.
  abbrev pub AnswersSent : Outcome Response × Traced S → Type 0
  AnswersSent r =
      (answer : Response) × (r.0 ≡ ok answer) × (answer.http_status ≡ 202 → IsSent answer r.1.world)

  -- What the handler has when it marks the statement.
  pub record IsFound (found : StatementRecord) (t : Traced S) : Type 0 where
    pub found_first : (app.statements.find_by_id id before).0 ≡ ok (some found)
    pub was_uploaded : found.status ≡ uploaded
    pub same : t.world ≡ after_find

  not_sent : (r : Response) (t : Traced S) → (r.http_status == 202) ≡ false → AnswersSent (ok r, t)
  not_sent r t n = (r, refl, λ h. absurd (ground arith))

  recover_queue-ok :
      (statement : StatementRecord) (t : Traced S) → (recover_queue app statement t).0 ≡ ok tt
  unfolding recover_queue
  recover_queue-ok statement t =
      attempt-cases (λ r. r.0 ≡ ok tt) (app.statements.reset_queued_to_uploaded statement.id) _ _ t
        (λ x thrown. refl)
        (λ o done. elim (Option-cases o) [ inl e ↦ rw e refl | inr (r, e) ↦ rw e refl ])

  on_send_failure-AnswersSent :
      (statement : StatementRecord) (e : Thrown) (t : Traced S)
      → AnswersSent (on_send_failure app statement e t)
  unfolding on_send_failure
  on_send_failure-AnswersSent statement e t = rw recover_queue-ok (
      not_sent _
        (record (recover_queue app statement t).1 {
          log =
              dependency_failure_line "analyze_job_send_failed" statement.id
              ∷ (recover_queue app statement t).1.log;
        })
        refl)

  send-AnswersSent :
      (found statement : StatementRecord) (t : Traced S)
      → (app.statements.find_by_id id before).0 ≡ ok (some found)
      → found.status ≡ uploaded
      → (app.statements.mark_queued found.id after_find).0 ≡ ok (some statement)
      → t.world ≡ after_mark_queued found
      → AnswersSent (send app statement t)
  unfolding send sent
  send-AnswersSent found statement t first was marked same =
      attempt-cases AnswersSent (app.job_queue.send_analyze_job statement.id) _ _ t
        (λ x thrown. on_send_failure-AnswersSent statement x _)
        (λ u done. (
          _,
          refl,
          λ h. record {
            found = found;
            statement = statement;
            found_first = first;
            was_uploaded = was;
            marked = marked;
            enqueued = rw (← same) done;
            state = ap (λ s. (app.job_queue.send_analyze_job statement.id s).1) same;
            shown = refl;
          },
        ))

  refetched_as-AnswersSent :
      (statement : StatementRecord) (status : StatementStatus) (t : Traced S)
      → AnswersSent (refetched_as app statement status t)
  unfolding refetched_as
  refetched_as-AnswersSent statement upload_pending t = not_sent _ t refl
  refetched_as-AnswersSent statement uploaded t = not_sent _ t refl
  refetched_as-AnswersSent statement queued t = not_sent _ t refl
  refetched_as-AnswersSent statement processing t = not_sent _ t refl
  refetched_as-AnswersSent statement completed t = not_sent _ t refl
  refetched_as-AnswersSent statement failed t = not_sent _ t refl

  refetched-AnswersSent :
      (o : Option StatementRecord) (t : Traced S) → AnswersSent (refetched app o t)
  unfolding refetched
  refetched-AnswersSent none t = not_sent _ t refl
  refetched-AnswersSent (some statement) t = refetched_as-AnswersSent statement statement.status t

  after_mark-AnswersSent :
      (found : StatementRecord) (o : Option StatementRecord) (t : Traced S)
      → (app.statements.find_by_id id before).0 ≡ ok (some found)
      → found.status ≡ uploaded
      → (app.statements.mark_queued found.id after_find).0 ≡ ok o
      → t.world ≡ after_mark_queued found
      → AnswersSent (after_mark app found.id o t)
  unfolding after_mark
  after_mark-AnswersSent found none t first was marked same =
      attempt-cases AnswersSent (app.statements.find_by_id found.id) _ _ t
        (λ x thrown. (_, refl, λ h. absurd (ground (arith, h))))
        (λ o done. refetched-AnswersSent o _)
  after_mark-AnswersSent found (some statement) t first was marked same =
      send-AnswersSent found statement t first was marked same

  mark-AnswersSent :
      (found : StatementRecord) (t : Traced S)
      → IsFound found t
      → AnswersSent (
          attempt
            (call (app.statements.mark_queued found.id))
            (unavailable "analyze_mark_queued_failed" found.id)
            (after_mark app found.id)
            t)
  mark-AnswersSent found t f =
      attempt-cases AnswersSent (app.statements.mark_queued found.id) _ _ t
        (λ x thrown. (_, refl, λ h. absurd (ground (arith, h))))
        (λ o marked.
          after_mark-AnswersSent found o _ f.found_first f.was_uploaded (rw f.same at marked)
            (ap (λ s. (app.statements.mark_queued found.id s).1) f.same))

  already_queued :
      (statement : StatementRecord) (t : Traced S)
      → AnswersSent (
        ok (to_upload_status 200 statement),
        record t { log = statement_line "analyze_already_queued" statement ∷ t.log },
      )
  already_queued statement t = (_, refl, λ h. absurd (ground (arith, h)))

  analyze_as-AnswersSent :
      (found : StatementRecord) (status : StatementStatus) (t : Traced S)
      → (app.statements.find_by_id id before).0 ≡ ok (some found)
      → found.status ≡ status
      → t.world ≡ after_find
      → AnswersSent (analyze_as app found status t)
  unfolding analyze_as
  analyze_as-AnswersSent found upload_pending t first is same = not_sent _ t refl
  analyze_as-AnswersSent found uploaded t first is same =
      mark-AnswersSent found t (record { found_first = first; was_uploaded = is; same = same })
  analyze_as-AnswersSent found queued t first is same = already_queued found t
  analyze_as-AnswersSent found processing t first is same = already_queued found t
  analyze_as-AnswersSent found completed t first is same = already_queued found t
  analyze_as-AnswersSent found failed t first is same = not_sent _ t refl

  analyze_found-AnswersSent :
      (o : Option StatementRecord) (t : Traced S)
      → (app.statements.find_by_id id before).0 ≡ ok o
      → t.world ≡ after_find
      → AnswersSent (analyze_found app o t)
  unfolding analyze_found
  analyze_found-AnswersSent none t first same = not_sent _ t refl
  analyze_found-AnswersSent (some found) t first same =
      analyze_as-AnswersSent found found.status t first refl same

  -- The handler answers, and 202 only where the job was sent.
  pub analyze_statement-AnswersSent :
      (t : Traced S) → t.world ≡ before → AnswersSent (analyze_statement app id t)
  unfolding analyze_statement
  analyze_statement-AnswersSent t same = elim (Bool-cases (app.is_uuid id)) [
    | inr n ↦ rw n (not_sent _ t refl)
    | inl y ↦ rw y (
        attempt-cases AnswersSent (app.statements.find_by_id id) _ _ t
          (λ x thrown. (_, refl, λ h. absurd (ground (arith, h))))
          (λ o done.
            analyze_found-AnswersSent o _ (rw same at done)
              (ap (λ s. (app.statements.find_by_id id s).1) same)))
  ]

-- Whatever the stores and the queue do: where the handler answers 202, `findById` has returned the
-- uploaded statement of the requested id, `markQueued` has marked that statement, right behind it the
-- queue has accepted the job of the marked row, nothing was called since, and the answer shows the
-- marked row.
pub analyze_statement-IsSent :
    {S : Type 0} (app : AppDependencies S) (id : String) (t : Traced S) (answer : Response)
    → (analyze_statement app id t).0 ≡ ok answer
    → answer.http_status ≡ 202
    → IsSent app id t.world answer (analyze_statement app id t).1.world
analyze_statement-IsSent app id t answer answered accepted =
    let (a, e, f) = analyze_statement-AnswersSent app id t.world t refl in
    let same : a ≡ answer = ground (arith, e, answered) in rw (← same) (f (rw same accepted))
