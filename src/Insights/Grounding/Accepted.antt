-- ===== src/Insights/Grounding/Accepted.antt =====
-- What accepted insights say, and that they are accepted again.
use ai_statement_analyzer.Base.{
  String, ◌≡◌, refl, inl, inr, Bool, true, ◌&&◌, Option, none, some, List, [], ◌∷◌, arith, is_some,
  Bool-cases, Option-cases, all, find, All,
}
use ai_statement_analyzer.Base.Int.{ℤ}
use ai_statement_analyzer.Failure.{ok}
use ai_statement_analyzer.Json.{Json}
use ai_statement_analyzer.Insights.Schema.{
  Insight, category_increase, merchant_increase, notable_spending, insights_document, document_json,
}
use ai_statement_analyzer.Insights.Schema.Again.{
  IsDocument, insights_document-IsDocument, insights_document-document_json,
}
use ai_statement_analyzer.Insights.Input.{
  CompactInsightsBucket, CompactInsightsInput, PreviousTotals,
}
use ai_statement_analyzer.Insights.Grounding.{
  is_named, has_name, rises, has_increase, absent_or, is_grounded, validated,
  parse_and_validate_insights,
}

module _ {F : Type 0} (is_positive : F → Bool) where
  -- The first bucket of the name has an amount in the month before, and its change is positive.
  pub record Rises (buckets : List (CompactInsightsBucket F)) (name : String) : Type 0 where
    pub bucket : CompactInsightsBucket F
    pub found : find (is_named name) buckets ≡ some bucket
    pub before : ℤ
    pub had : bucket.previous_amount ≡ some before
    pub change : F
    pub changed : bucket.amount_change_percentage ≡ some change
    pub positive : is_positive change ≡ true

  abbrev pub HasIf : List (CompactInsightsBucket F) → Option String → Type 0
  HasIf buckets none = Unit
  HasIf buckets (some name) = has_name buckets name ≡ true

  -- An increase is one over a month that the input has; what is named stands in the input.
  abbrev pub IsGrounded : CompactInsightsInput F → Insight → Type 0
  IsGrounded input (category_increase t category) =
      ((p : PreviousTotals) × (input.previous ≡ some p)) × Rises input.current.categories category
  IsGrounded input (merchant_increase t merchant) =
      ((p : PreviousTotals) × (input.previous ≡ some p)) × Rises input.current.merchants merchant
  IsGrounded input (notable_spending t category merchant) =
      HasIf input.current.categories category × HasIf input.current.merchants merchant

  is_some-value : {A : Type 0} (o : Option A) → is_some o ≡ true → (a : A) × (o ≡ some a)
  is_some-value none h = cc
  is_some-value (some a) h = (a, refl)

  rises-value :
      (o : Option F) → rises is_positive o ≡ true → (f : F) × (o ≡ some f) × (is_positive f ≡ true)
  rises-value none h = cc
  rises-value (some f) h = (f, refl, h)

  has_increase-Rises :
      (buckets : List (CompactInsightsBucket F)) (name : String)
      → has_increase is_positive buckets name ≡ true
      → Rises buckets name
  unfolding has_increase
  has_increase-Rises buckets name h = elim (Option-cases (find (is_named name) buckets)) [
    | inl e ↦ absurd (ground (arith, h, e))
    | inr (b, e) ↦
        let both : (is_some b.previous_amount && rises is_positive b.amount_change_percentage)
            ≡ true =
          rw e at h in
        let (a, had) = is_some-value b.previous_amount (ground (arith, both)) in
        let (f, changed, positive) =
          rises-value b.amount_change_percentage (ground (arith, both)) in
        record {
          bucket = b;
          found = e;
          before = a;
          had = had;
          change = f;
          changed = changed;
          positive = positive;
        }
  ]

  absent_or-HasIf :
      (buckets : List (CompactInsightsBucket F)) (o : Option String)
      → absent_or (has_name buckets) o ≡ true
      → HasIf buckets o
  absent_or-HasIf buckets none h = tt
  absent_or-HasIf buckets (some name) h = h

  is_grounded-IsGrounded :
      (input : CompactInsightsInput F) (i : Insight)
      → is_grounded is_positive input i ≡ true
      → IsGrounded input i
  unfolding is_grounded
  is_grounded-IsGrounded input (category_increase t category) h = (
    is_some-value input.previous (ground (arith, h)),
    has_increase-Rises input.current.categories category (ground (arith, h)),
  )
  is_grounded-IsGrounded input (merchant_increase t merchant) h = (
    is_some-value input.previous (ground (arith, h)),
    has_increase-Rises input.current.merchants merchant (ground (arith, h)),
  )
  is_grounded-IsGrounded input (notable_spending t category merchant) h = (
    absent_or-HasIf input.current.categories category (ground (arith, h)),
    absent_or-HasIf input.current.merchants merchant (ground (arith, h)),
  )

  all-IsGrounded :
      (input : CompactInsightsInput F) (is : List Insight)
      → all (is_grounded is_positive input) is ≡ true
      → All (IsGrounded input) is
  all-IsGrounded input [] h = tt
  all-IsGrounded input (i ∷ is) h = (
    is_grounded-IsGrounded input i (ground (arith, h)),
    all-IsGrounded input is (ground (arith, h)),
  )

  -- A document of the schema whose insights are grounded in the input.
  pub record AreGrounded (input : CompactInsightsInput F) (is : List Insight) : Type 0 where
    pub document : IsDocument is
    pub grounded : All (IsGrounded input) is

  validated-ok :
      (input : CompactInsightsInput F) (o : Option (List Insight)) (is : List Insight)
      → validated is_positive input o ≡ ok is
      → (o ≡ some is) × (all (is_grounded is_positive input) is ≡ true)
  validated-ok input none is h = absurd (ground (arith, h))
  validated-ok input (some js) is h = elim (Bool-cases (all (is_grounded is_positive input) js)) [
    | inl y ↦ let same : js ≡ is = ground (arith, h, y) in (rw same refl, rw same at y)
    | inr n ↦ absurd (ground (arith, h, n))
  ]

  -- Whatever the model or the cache holds: accepted insights are at most five, trimmed and within
  -- their limits, and grounded: each increase is one over a known month, and each name that an
  -- insight gives stands in the input.
  pub parse_and_validate-AreGrounded :
      (raw : Json) (input : CompactInsightsInput F) (is : List Insight)
      → parse_and_validate_insights is_positive raw input ≡ ok is
      → AreGrounded input is
  unfolding parse_and_validate_insights
  parse_and_validate-AreGrounded raw input is h =
      let (parsed, checked) = validated-ok input (insights_document raw) is h in
      record {
        document = insights_document-IsDocument raw is parsed;
        grounded = all-IsGrounded input is checked;
      }

  -- Accepted insights are accepted again, unchanged, from their own JSON value.
  pub parse_and_validate-document_json :
      (raw : Json) (input : CompactInsightsInput F) (is : List Insight)
      → parse_and_validate_insights is_positive raw input ≡ ok is
      → parse_and_validate_insights is_positive (document_json is) input ≡ ok is
  unfolding parse_and_validate_insights
  parse_and_validate-document_json raw input is h =
      let (parsed, checked) = validated-ok input (insights_document raw) is h in
      rw (insights_document-document_json is (insights_document-IsDocument raw is parsed), checked)
        refl
