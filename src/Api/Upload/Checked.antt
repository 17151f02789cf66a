-- ===== src/Api/Upload/Checked.antt =====
-- What the completion of an upload has checked before it marks a statement as uploaded.
use ai_statement_analyzer.Base.{String, ◌≡◌, refl, inl, inr, true, Option, none, some, Bool-cases}
use ai_statement_analyzer.Failure.{Thrown, Outcome, ok}
use ai_statement_analyzer.Effects.{Traced}
use ai_statement_analyzer.Effects.Laws.{attempt-cases, bind-keeps}
use ai_statement_analyzer.Storage.{ObjectMetadata}
use ai_statement_analyzer.Database.Types.{
  StatementStatus, upload_pending, uploaded, queued, processing, completed, failed, StatementRecord,
}
use ai_statement_analyzer.Api.Responses.{Response, AppDependencies}
use ai_statement_analyzer.Api.Upload.{
  matches, is_missing_object, after_upload_as, after_upload, or_refetch, mark_or_refetch,
  check_metadata, on_head_failure, complete_as, complete_found, complete_upload,
}

module _ {S : Type 0} (Keeps : S → Type 0) where
  -- The handler answers, in a state with the invariant.
  abbrev pub AnswersKeeps : Outcome Response × Traced S → Type 0
  AnswersKeeps r = ((answer : Response) × (r.0 ≡ ok answer)) × Keeps r.1.world

module _ {S : Type 0} (app : AppDependencies S) (Keeps : S → Type 0) where
  -- Reads keep the invariant; `markUploaded` keeps it behind a `headObject` whose answer matches the
  -- statement's type and length.
  pub record MarksChecked : Type 0 where
    pub finds : (id : String) (s : S) → Keeps s → Keeps (app.statements.find_by_id id s).1
    pub heads : (key : String) (s : S) → Keeps s → Keeps (app.object_store.head_object key s).1
    pub marks :
        (statement : StatementRecord) (metadata : ObjectMetadata) (s : S)
        → Keeps s
        → (app.object_store.head_object statement.s3_key s).0 ≡ ok metadata
        → matches statement metadata ≡ true
        → Keeps
            (app.statements.mark_uploaded statement.id
              (app.object_store.head_object statement.s3_key s).1).1

module _ {S : Type 0} (app : AppDependencies S) (Keeps : S → Type 0)
    (laws : MarksChecked app Keeps) where
  after_upload_as-AnswersKeeps :
      (statement : StatementRecord) (status : StatementStatus) (t : Traced S)
      → Keeps t.world
      → AnswersKeeps Keeps (after_upload_as app statement status t)
  unfolding after_upload_as
  after_upload_as-AnswersKeeps statement upload_pending t k = ((_, refl), k)
  after_upload_as-AnswersKeeps statement uploaded t k = ((_, refl), k)
  after_upload_as-AnswersKeeps statement queued t k = ((_, refl), k)
  after_upload_as-AnswersKeeps statement processing t k = ((_, refl), k)
  after_upload_as-AnswersKeeps statement completed t k = ((_, refl), k)
  after_upload_as-AnswersKeeps statement failed t k = ((_, refl), k)

  after_upload-AnswersKeeps :
      (o : Option StatementRecord) (t : Traced S)
      → Keeps t.world
      → AnswersKeeps Keeps (after_upload app o t)
  unfolding after_upload
  after_upload-AnswersKeeps none t k = ((_, refl), k)
  after_upload-AnswersKeeps (some statement) t k =
      after_upload_as-AnswersKeeps statement statement.status t k

  mark_or_refetch-Keeps :
      (id : String) (s : S)
      → Keeps (app.statements.mark_uploaded id s).1
      → Keeps (mark_or_refetch app id s).1
  unfolding mark_or_refetch or_refetch
  mark_or_refetch-Keeps id s k =
      bind-keeps Keeps (app.statements.mark_uploaded id) (or_refetch app id) s k (λ o. refetch o)
    where
      refetch :
          (o : Option StatementRecord)
          → Keeps (or_refetch app id o (app.statements.mark_uploaded id s).1).1
      refetch none = laws.finds id _ k
      refetch (some statement) = k

  check_metadata-AnswersKeeps :
      (statement : StatementRecord) (metadata : ObjectMetadata) (t : Traced S)
      → Keeps t.world
      → (matches statement metadata ≡ true
          → Keeps (app.statements.mark_uploaded statement.id t.world).1)
      → AnswersKeeps Keeps (check_metadata app statement metadata t)
  unfolding check_metadata
  check_metadata-AnswersKeeps statement metadata t k marked =
      elim (Bool-cases (matches statement metadata)) [
        | inr n ↦ rw n ((_, refl), k)
        | inl y ↦
            let kept = mark_or_refetch-Keeps statement.id t.world (marked y) in
            rw y (
              attempt-cases (AnswersKeeps Keeps) (mark_or_refetch app statement.id) _ _ t
                (λ x thrown. ((_, refl), kept)) (λ o done. after_upload-AnswersKeeps o _ kept))
      ]

  on_head_failure-AnswersKeeps :
      (statement : StatementRecord) (e : Thrown) (t : Traced S)
      → Keeps t.world
      → AnswersKeeps Keeps (on_head_failure app statement e t)
  unfolding on_head_failure
  on_head_failure-AnswersKeeps statement e t k = elim (Bool-cases (is_missing_object e)) [
    | inl y ↦ rw y ((_, refl), k)
    | inr n ↦ rw n ((_, refl), k)
  ]

  complete_as-AnswersKeeps :
      (statement : StatementRecord) (status : StatementStatus) (t : Traced S)
      → Keeps t.world
      → AnswersKeeps Keeps (complete_as app statement status t)
  unfolding complete_as
  complete_as-AnswersKeeps statement upload_pending t k =
      attempt-cases (AnswersKeeps Keeps) (app.object_store.head_object statement.s3_key) _ _ t
        (λ x thrown. on_head_failure-AnswersKeeps statement x _ (laws.heads _ _ k))
        (λ metadata done.
          check_metadata-AnswersKeeps statement metadata _ (laws.heads _ _ k)
            (λ same. laws.marks statement metadata t.world k done same))
  complete_as-AnswersKeeps statement uploaded t k = ((_, refl), k)
  complete_as-AnswersKeeps statement queued t k = ((_, refl), k)
  complete_as-AnswersKeeps statement processing t k = ((_, refl), k)
  complete_as-AnswersKeeps statement completed t k = ((_, refl), k)
  complete_as-AnswersKeeps statement failed t k = ((_, refl), k)

  complete_found-AnswersKeeps :
      (o : Option StatementRecord) (t : Traced S)
      → Keeps t.world
      → AnswersKeeps Keeps (complete_found app o t)
  unfolding complete_found
  complete_found-AnswersKeeps none t k = ((_, refl), k)
  complete_found-AnswersKeeps (some statement) t k =
      complete_as-AnswersKeeps statement statement.status t k

  -- Whatever the stores answer, the handler answers, and it keeps every invariant that only a
  -- `markUploaded` without a matching object would break.
  pub complete_upload-AnswersKeeps :
      (id : String) (t : Traced S) → Keeps t.world → AnswersKeeps Keeps (complete_upload app id t)
  unfolding complete_upload
  complete_upload-AnswersKeeps id t k = elim (Bool-cases (app.is_uuid id)) [
    | inr n ↦ rw n ((_, refl), k)
    | inl y ↦ rw y (
        attempt-cases (AnswersKeeps Keeps) (app.statements.find_by_id id) _ _ t
          (λ x thrown. ((_, refl), laws.finds id _ k))
          (λ o done. complete_found-AnswersKeeps o _ (laws.finds id _ k)))
  ]
