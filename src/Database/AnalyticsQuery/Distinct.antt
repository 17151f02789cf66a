-- ===== src/Database/AnalyticsQuery/Distinct.antt =====
-- No two buckets of an aggregate have one name.
use ai_statement_analyzer.Base.{
  String, ◌≡◌, refl, sym, ◌∙◌, inl, inr, Bool, true, false, List, [], ◌∷◌, arith, str_eq, eq_iff,
  Bool-cases, any, sort_by, insert_by,
}
use ai_statement_analyzer.Analytics.{AnalyticsAggregateBucket}
use ai_statement_analyzer.Database.AnalyticsQuery.{add_to_groups, groups}
use ai_statement_analyzer.Database.Types.{TransactionRecord}
use ai_statement_analyzer.Base.Int.{ℤ}

abbrev pub bucket_named : String → AnalyticsAggregateBucket → Bool
bucket_named name b = str_eq b.name name

abbrev pub AreDistinct : List AnalyticsAggregateBucket → Type 0
AreDistinct [] = Unit
AreDistinct (b ∷ bs) = (any (bucket_named b.name) bs ≡ false) × AreDistinct bs

differ_comm : (s t : String) → str_eq s t ≡ false → str_eq t s ≡ false
differ_comm s t h = elim (Bool-cases (str_eq t s)) [
  | inl y ↦
      let same : str_eq s t ≡ true = (eq_iff s t).1 (sym ((eq_iff t s).0 y)) in
      absurd (ground (arith, h, same))
  | inr n ↦ n
]

any-add_to_groups :
    (n name : String) (amount : ℤ) (bs : List AnalyticsAggregateBucket)
    → any (bucket_named n) bs ≡ false
    → str_eq name n ≡ false
    → any (bucket_named n) (add_to_groups name amount bs) ≡ false
unfolding add_to_groups
any-add_to_groups n name amount [] h k = rw k refl
any-add_to_groups n name amount (b ∷ bs) h k = elim (Bool-cases (str_eq b.name name)) [
  | inl y ↦ rw y h
  | inr m ↦
      let first : str_eq b.name n ≡ false = ground (arith, h) in
      rw (m, first) (any-add_to_groups n name amount bs (ground (arith, h)) k)
]

add_to_groups-AreDistinct :
    (name : String) (amount : ℤ) (bs : List AnalyticsAggregateBucket)
    → AreDistinct bs
    → AreDistinct (add_to_groups name amount bs)
unfolding add_to_groups
add_to_groups-AreDistinct name amount [] d = (refl, tt)
add_to_groups-AreDistinct name amount (b ∷ bs) (f, d) = elim (Bool-cases (str_eq b.name name)) [
  | inl y ↦ rw y (f, d)
  | inr n ↦ rw n (
    any-add_to_groups b.name name amount bs f (differ_comm b.name name n),
    add_to_groups-AreDistinct name amount bs d,
  )
]

pub groups-AreDistinct :
    (key : TransactionRecord → String) (ts : List TransactionRecord) → AreDistinct (groups key ts)
unfolding groups
groups-AreDistinct key [] = tt
groups-AreDistinct key (t ∷ ts) =
    add_to_groups-AreDistinct (key t) t.amount (groups key ts) (groups-AreDistinct key ts)

module _ (before : AnalyticsAggregateBucket → AnalyticsAggregateBucket → Bool) where
  any-insert_by :
      (n : String) (x : AnalyticsAggregateBucket) (bs : List AnalyticsAggregateBucket)
      → any (bucket_named n) (insert_by before x bs) ≡ any (bucket_named n) (x ∷ bs)
  any-insert_by n x [] = refl
  any-insert_by n x (b ∷ bs) = elim (Bool-cases (before x b)) [
    | inl y ↦ rw y refl
    | inr m ↦ rw m (ground (arith, any-insert_by n x bs))
  ]

  insert_by-AreDistinct :
      (x : AnalyticsAggregateBucket) (bs : List AnalyticsAggregateBucket)
      → AreDistinct (x ∷ bs)
      → AreDistinct (insert_by before x bs)
  insert_by-AreDistinct x [] d = d
  insert_by-AreDistinct x (b ∷ bs) (f, (g, d)) = elim (Bool-cases (before x b)) [
    | inl y ↦ rw y (f, (g, d))
    | inr m ↦
        let first : str_eq b.name x.name ≡ false = ground (arith, f) in
        let kept : any (bucket_named b.name) (x ∷ bs) ≡ false =
          rw (differ_comm b.name x.name first) g in
        rw m (any-insert_by b.name x bs ∙ kept, insert_by-AreDistinct x bs (ground (arith, f), d))
  ]

  any-sort_by :
      (n : String) (bs : List AnalyticsAggregateBucket)
      → any (bucket_named n) (sort_by before bs) ≡ any (bucket_named n) bs
  any-sort_by n [] = refl
  any-sort_by n (b ∷ bs) = any-insert_by n b (sort_by before bs) ∙ ground (arith, any-sort_by n bs)

  pub sort_by-AreDistinct :
      (bs : List AnalyticsAggregateBucket) → AreDistinct bs → AreDistinct (sort_by before bs)
  sort_by-AreDistinct [] d = tt
  sort_by-AreDistinct (b ∷ bs) (f, d) =
      insert_by-AreDistinct b (sort_by before bs)
        (any-sort_by b.name bs ∙ f, sort_by-AreDistinct bs d)
