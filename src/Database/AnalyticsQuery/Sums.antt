-- ===== src/Database/AnalyticsQuery/Sums.antt =====
-- The buckets of an aggregate add up to its rows, for every choice of names, and no name occurs twice.
use ai_statement_analyzer.Base.{
  ℕ, ◌+◌, String, ◌≡◌, refl, sym, ap, ◌∙◌, inl, inr, Bool, List, [], ◌∷◌, arith, str_eq, eq_iff,
  if◌then◌else◌, Bool-cases, length, filter, all, insert_by, sort_by,
}
use ai_statement_analyzer.Database.AnalyticsQuery.Distinct.{
  AreDistinct, groups-AreDistinct, sort_by-AreDistinct,
}
use ai_statement_analyzer.Base.Int.{◌+ℤ◌, ℤ, +ℤ_assoc, pos, +ℤ_comm}
use ai_statement_analyzer.Database.Types.{TransactionRecord, Database}
use ai_statement_analyzer.Analytics.{
  AnalyticsAggregateBucket, MonthlyAnalyticsAggregate, not_after, AnalyticsDateRange,
}
use ai_statement_analyzer.Database.AnalyticsQuery.{
  add_to_groups, groups, sum_amounts, map_analytics_buckets, grouped, map_analytics_integer,
  find_monthly_aggregate, by_category, aggregate_of, is_safe_bucket, by_merchant, is_safe,
  is_counted,
}
use ai_statement_analyzer.Failure.{ok}
use ai_statement_analyzer.Effects.Laws.{bind-ok}
use ai_statement_analyzer.Effects.{lift}

abbrev chosen : (String → Bool) → String → ℤ → ℤ
chosen p name amount = if p name then amount else pos 0

abbrev chosen_count : (String → Bool) → String → ℕ → ℕ
chosen_count p name count = if p name then count else 0

-- The amounts and the counts of the buckets whose name is chosen.
abbrev pub amounts : (String → Bool) → List AnalyticsAggregateBucket → ℤ
amounts p [] = pos 0
amounts p (b ∷ bs) = chosen p b.name b.amount +ℤ amounts p bs

abbrev pub counts : (String → Bool) → List AnalyticsAggregateBucket → ℕ
counts p [] = 0
counts p (b ∷ bs) = chosen_count p b.name b.count + counts p bs

0_+ℤ : (a : ℤ) → pos 0 +ℤ a ≡ a
unfolding ◌+ℤ◌
0_+ℤ a = ground arith

+ℤ_left_comm : (a b c : ℤ) → a +ℤ (b +ℤ c) ≡ b +ℤ (a +ℤ c)
+ℤ_left_comm a b c = sym (+ℤ_assoc a b c) ∙ ap (λ x. x +ℤ c) (+ℤ_comm a b) ∙ +ℤ_assoc b a c

chosen-+ℤ :
    (p : String → Bool) (name : String) (a b : ℤ)
    → chosen p name (a +ℤ b) ≡ chosen p name a +ℤ chosen p name b
chosen-+ℤ p name a b = elim (Bool-cases (p name)) [
  | inl y ↦ rw y refl
  | inr n ↦ rw n (sym (0_+ℤ (pos 0)))
]

amounts-add_to_groups :
    (p : String → Bool) (name : String) (amount : ℤ) (bs : List AnalyticsAggregateBucket)
    → amounts p (add_to_groups name amount bs) ≡ chosen p name amount +ℤ amounts p bs
unfolding add_to_groups
amounts-add_to_groups p name amount [] = refl
amounts-add_to_groups p name amount (b ∷ bs) = elim (Bool-cases (str_eq b.name name)) [
  | inl y ↦
      let same : b.name ≡ name = (eq_iff b.name name).0 y in
      rw y (
        ap (λ x. x +ℤ amounts p bs) (chosen-+ℤ p b.name amount b.amount)
        ∙ +ℤ_assoc (chosen p b.name amount) (chosen p b.name b.amount) (amounts p bs)
        ∙ ap (λ n. chosen p n amount +ℤ (chosen p b.name b.amount +ℤ amounts p bs)) same)
  | inr n ↦ rw n (
      ap (λ x. chosen p b.name b.amount +ℤ x) (amounts-add_to_groups p name amount bs)
      ∙ +ℤ_left_comm (chosen p b.name b.amount) (chosen p name amount) (amounts p bs))
]

counts-add_to_groups :
    (p : String → Bool) (name : String) (amount : ℤ) (bs : List AnalyticsAggregateBucket)
    → counts p (add_to_groups name amount bs) ≡ chosen_count p name 1 + counts p bs
unfolding add_to_groups
counts-add_to_groups p name amount [] = refl
counts-add_to_groups p name amount (b ∷ bs) = elim (Bool-cases (str_eq b.name name)) [
  | inl y ↦
      let same : p b.name ≡ p name = ap p ((eq_iff b.name name).0 y) in rw (y, same) (ground arith)
  | inr n ↦ rw n (ground (arith, counts-add_to_groups p name amount bs))
]

module _ (key : TransactionRecord → String) (p : String → Bool) where
  abbrev pub is_chosen : TransactionRecord → Bool
  is_chosen t = p (key t)

  amounts-groups :
      (ts : List TransactionRecord) → amounts p (groups key ts) ≡ sum_amounts (filter is_chosen ts)
  unfolding groups sum_amounts
  amounts-groups [] = refl
  amounts-groups (t ∷ ts) =
      amounts-add_to_groups p (key t) t.amount (groups key ts)
      ∙ ap (λ x. chosen p (key t) t.amount +ℤ x) (amounts-groups ts)
      ∙ elim (Bool-cases (p (key t))) [
        | inl y ↦ rw y refl
        | inr n ↦ rw n (0_+ℤ (sum_amounts (filter is_chosen ts)))
      ]

  counts-groups :
      (ts : List TransactionRecord) → counts p (groups key ts) ≡ length (filter is_chosen ts)
  unfolding groups
  counts-groups [] = refl
  counts-groups (t ∷ ts) =
      counts-add_to_groups p (key t) t.amount (groups key ts) ∙ elim (Bool-cases (p (key t))) [
        | inl y ↦ rw y (ground (arith, counts-groups ts))
        | inr n ↦ rw n (ground (arith, counts-groups ts))
      ]

module _ (before : AnalyticsAggregateBucket → AnalyticsAggregateBucket → Bool)
    (p : String → Bool) where
  amounts-insert_by :
      (x : AnalyticsAggregateBucket) (bs : List AnalyticsAggregateBucket)
      → amounts p (insert_by before x bs) ≡ amounts p (x ∷ bs)
  amounts-insert_by x [] = refl
  amounts-insert_by x (b ∷ bs) = elim (Bool-cases (before x b)) [
    | inl y ↦ rw y refl
    | inr n ↦ rw n (
        ap (λ z. chosen p b.name b.amount +ℤ z) (amounts-insert_by x bs)
        ∙ +ℤ_left_comm (chosen p b.name b.amount) (chosen p x.name x.amount) (amounts p bs))
  ]

  counts-insert_by :
      (x : AnalyticsAggregateBucket) (bs : List AnalyticsAggregateBucket)
      → counts p (insert_by before x bs) ≡ counts p (x ∷ bs)
  counts-insert_by x [] = refl
  counts-insert_by x (b ∷ bs) = elim (Bool-cases (before x b)) [
    | inl y ↦ rw y refl
    | inr n ↦ rw n (ground (arith, counts-insert_by x bs))
  ]

  amounts-sort_by :
      (bs : List AnalyticsAggregateBucket) → amounts p (sort_by before bs) ≡ amounts p bs
  amounts-sort_by [] = refl
  amounts-sort_by (b ∷ bs) =
      amounts-insert_by b (sort_by before bs)
      ∙ ap (λ z. chosen p b.name b.amount +ℤ z) (amounts-sort_by bs)

  counts-sort_by : (bs : List AnalyticsAggregateBucket) → counts p (sort_by before bs) ≡ counts p bs
  counts-sort_by [] = refl
  counts-sort_by (b ∷ bs) =
      counts-insert_by b (sort_by before bs) ∙ ground (arith, counts-sort_by bs)

-- The buckets of the rows by a key: no name twice, and for every choice of names the buckets have the
-- amounts and the number of the rows with these names.
pub record AreGroups (key : TransactionRecord → String) (rows : List TransactionRecord)
    (buckets : List AnalyticsAggregateBucket) : Type 0 where
  pub distinct : AreDistinct buckets
  pub add_up : (p : String → Bool) → amounts p buckets ≡ sum_amounts (filter (is_chosen key p) rows)
  pub counted : (p : String → Bool) → counts p buckets ≡ length (filter (is_chosen key p) rows)

grouped-AreGroups :
    (key : TransactionRecord → String) (rows : List TransactionRecord)
    → AreGroups key rows (grouped key rows)
grouped-AreGroups key rows = record {
  distinct = sort_by-AreDistinct not_after (groups key rows) (groups-AreDistinct key rows);
  add_up = λ p. amounts-sort_by not_after p (groups key rows) ∙ amounts-groups key p rows;
  counted = λ p. counts-sort_by not_after p (groups key rows) ∙ counts-groups key p rows;
}

map_analytics_buckets-ok :
    (bs cs : List AnalyticsAggregateBucket) → map_analytics_buckets bs ≡ ok cs → bs ≡ cs
unfolding map_analytics_buckets
map_analytics_buckets-ok bs cs h = elim (Bool-cases (all is_safe_bucket bs)) [
  | inl y ↦ ground (arith, rw y at h)
  | inr n ↦ absurd (ground (arith, rw n at h))
]

map_analytics_integer-ok : (n m : ℤ) → map_analytics_integer n ≡ ok m → n ≡ m
unfolding map_analytics_integer
map_analytics_integer-ok n m h = elim (Bool-cases (is_safe n)) [
  | inl y ↦ ground (arith, rw y at h)
  | inr k ↦ absurd (ground (arith, rw k at h))
]

pub record IsAggregate (rows : List TransactionRecord) (a : MonthlyAnalyticsAggregate)
    : Type 0 where
  pub total : a.total_amount ≡ sum_amounts rows
  pub count : a.transaction_count ≡ length rows
  pub categories : AreGroups by_category rows a.categories
  pub merchants : AreGroups by_merchant rows a.merchants

-- The aggregate that the query answers for a range: its total and its count are those of the
-- transactions of completed statements in the range, the names of its categories are distinct and so
-- are those of its merchants, and for every choice of names the buckets add up to the rows with these
-- names, in amount and in number.
pub find_monthly_aggregate-IsAggregate :
    (range : AnalyticsDateRange) (db : Database) (a : MonthlyAnalyticsAggregate)
    → (find_monthly_aggregate range db).0 ≡ ok a
    → IsAggregate (filter (is_counted range db.statements) db.transactions) a
unfolding find_monthly_aggregate aggregate_of
find_monthly_aggregate-IsAggregate range db a h =
    let rows = filter (is_counted range db.statements) db.transactions in
    let total = bind-ok (lift (map_analytics_integer (sum_amounts rows))) _ db h in
    let count = bind-ok (lift (map_analytics_integer (pos (length rows)))) _ db total.rest in
    let categories =
      bind-ok (lift (map_analytics_buckets (grouped by_category rows))) _ db count.rest in
    let merchants =
      bind-ok (lift (map_analytics_buckets (grouped by_merchant rows))) _ db categories.rest in
    let same : record {
      total_amount = total.value;
      transaction_count = length rows;
      categories = categories.value;
      merchants = merchants.value;
    }
        ≡ a =
      ground (arith, merchants.rest) in
    rw (← same) (record {
      total = sym (map_analytics_integer-ok (sum_amounts rows) total.value total.first);
      count = refl;
      categories =
          rw
            (← map_analytics_buckets-ok (grouped by_category rows) categories.value
              categories.first)
            (grouped-AreGroups by_category rows);
      merchants =
          rw (← map_analytics_buckets-ok (grouped by_merchant rows) merchants.value merchants.first)
            (grouped-AreGroups by_merchant rows);
    })
