-- ===== src/Analytics/Order.antt =====
-- The order of the buckets in the answer.
use ai_statement_analyzer.Base.{
  suc, ◌≡◌, refl, ap, ◌∙◌, inl, inr, true, false, List, [], ◌∷◌, map, arith, Bool-cases, length,
  sort_by, insert_by,
}
use ai_statement_analyzer.Base.Int.{ℤ, eq_ℤ, ltb_ℤ}
use ai_statement_analyzer.Analytics.{
  AnalyticsAggregateBucket, BucketResponse, not_after, bucket_response, build_response,
}

-- `a` is at least `b`.
abbrev pub AtLeast : ℤ → ℤ → Type 0
AtLeast a b = ltb_ℤ a b ≡ false

equal-AtLeast : (a b : ℤ) → eq_ℤ a b ≡ true → AtLeast a b × AtLeast b a
equal-AtLeast a b h = (ground (arith, h), ground (arith, h))

less-AtLeast : (a b : ℤ) → ltb_ℤ a b ≡ true → AtLeast b a
less-AtLeast a b h = ground (arith, h)

not_after-AtLeast :
    (x y : AnalyticsAggregateBucket) → not_after x y ≡ true → AtLeast x.amount y.amount
unfolding not_after
not_after-AtLeast x y h = elim (Bool-cases (eq_ℤ x.amount y.amount)) [
  | inl e ↦ (equal-AtLeast x.amount y.amount e).0
  | inr e ↦ less-AtLeast y.amount x.amount (ground (arith, h, e))
]

after-AtLeast : (x y : AnalyticsAggregateBucket) → not_after x y ≡ false → AtLeast y.amount x.amount
unfolding not_after
after-AtLeast x y h = elim (Bool-cases (eq_ℤ x.amount y.amount)) [
  | inl e ↦ (equal-AtLeast x.amount y.amount e).1
  | inr e ↦ ground (arith, h, e)
]

-- No amount is below the one behind it.
abbrev IsAbove : ℤ → List AnalyticsAggregateBucket → Type 0
IsAbove a [] = Unit
IsAbove a (b ∷ buckets) = AtLeast a b.amount

abbrev IsDescending : List AnalyticsAggregateBucket → Type 0
IsDescending [] = Unit
IsDescending (b ∷ buckets) = IsAbove b.amount buckets × IsDescending buckets

insert_by-IsAbove :
    (a : ℤ) (x : AnalyticsAggregateBucket) (buckets : List AnalyticsAggregateBucket)
    → AtLeast a x.amount
    → IsAbove a buckets
    → IsAbove a (insert_by not_after x buckets)
insert_by-IsAbove a x [] h above = h
insert_by-IsAbove a x (y ∷ buckets) h above = elim (Bool-cases (not_after x y)) [
  | inl e ↦ rw e h
  | inr e ↦ rw e above
]

insert_by-IsDescending :
    (x : AnalyticsAggregateBucket) (buckets : List AnalyticsAggregateBucket)
    → IsDescending buckets
    → IsDescending (insert_by not_after x buckets)
insert_by-IsDescending x [] d = (tt, tt)
insert_by-IsDescending x (y ∷ buckets) (above, d) = elim (Bool-cases (not_after x y)) [
  | inl e ↦ rw e (not_after-AtLeast x y e, (above, d))
  | inr e ↦ rw e (
    insert_by-IsAbove y.amount x buckets (after-AtLeast x y e) above,
    insert_by-IsDescending x buckets d,
  )
]

sort_by-IsDescending :
    (buckets : List AnalyticsAggregateBucket) → IsDescending (sort_by not_after buckets)
sort_by-IsDescending [] = tt
sort_by-IsDescending (b ∷ buckets) =
    insert_by-IsDescending b (sort_by not_after buckets) (sort_by-IsDescending buckets)

length-insert_by :
    (x : AnalyticsAggregateBucket) (buckets : List AnalyticsAggregateBucket)
    → length (insert_by not_after x buckets) ≡ suc (length buckets)
length-insert_by x [] = refl
length-insert_by x (y ∷ buckets) = elim (Bool-cases (not_after x y)) [
  | inl e ↦ rw e refl
  | inr e ↦ rw (e, length-insert_by x buckets) refl
]

length-sort_by :
    (buckets : List AnalyticsAggregateBucket) → length (sort_by not_after buckets) ≡ length buckets
length-sort_by [] = refl
length-sort_by (b ∷ buckets) =
    length-insert_by b (sort_by not_after buckets) ∙ ap suc (length-sort_by buckets)

module _ {F : Type 0} where
  -- The amounts of an answer, each at least the one behind it.
  abbrev pub IsAboveResponse : ℤ → List (BucketResponse F) → Type 0
  IsAboveResponse a [] = Unit
  IsAboveResponse a (r ∷ answer) = AtLeast a r.amount

  abbrev pub AreDescending : List (BucketResponse F) → Type 0
  AreDescending [] = Unit
  AreDescending (r ∷ answer) = IsAboveResponse r.amount answer × AreDescending answer

module _ {F : Type 0} (rounded change : ℤ → ℤ → F) (total : ℤ)
    (previous : List AnalyticsAggregateBucket) where
  map-AreDescending :
      (buckets : List AnalyticsAggregateBucket)
      → IsDescending buckets
      → AreDescending (map (bucket_response rounded change total previous) buckets)
  map-AreDescending [] d = tt
  map-AreDescending (b ∷ []) d = (tt, tt)
  map-AreDescending (b ∷ c ∷ buckets) (above, d) = (above, map-AreDescending (c ∷ buckets) d)

  length-map_response :
      (buckets : List AnalyticsAggregateBucket)
      → length (map (bucket_response rounded change total previous) buckets) ≡ length buckets
  length-map_response [] = refl
  length-map_response (b ∷ buckets) = ap suc (length-map_response buckets)

  -- The answer has as many buckets as the aggregate, and no amount is below the one behind it.
  pub build_response-AreDescending :
      (current : List AnalyticsAggregateBucket)
      → (length (build_response rounded change total current previous) ≡ length current)
        × AreDescending (build_response rounded change total current previous)
  unfolding build_response
  build_response-AreDescending current = (
    length-map_response (sort_by not_after current) ∙ length-sort_by current,
    map-AreDescending (sort_by not_after current) (sort_by-IsDescending current),
  )
