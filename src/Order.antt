-- ===== src/Order.antt =====
-- The order of texts by their code points, and lists that a sort brings together.
use ai_statement_analyzer.Base.{
  ℕ, String, ◌≡◌, refl, sym, ap, ◌∙◌, ◌⊎◌, inl, inr, Bool, true, false, ◌||◌, List, [], ◌∷◌, arith,
  str_eq, eq_iff, Bool-cases,
}
use Prim.Native.Char.{code}
use text.Mathlib.TextEquality.{Char-path}
use ai_statement_analyzer.Base.{insert_by, sort_by}
use ai_statement_analyzer.Base.Text.{codes, codes_lt, text_lt}

codes-injective : (s t : String) → codes s ≡ codes t → s ≡ t
codes-injective String.[] String.[] h = refl
codes-injective String.[] (String.◌∷◌ d t) h = cc
codes-injective (String.◌∷◌ c s) String.[] h = cc
codes-injective (String.◌∷◌ c s) (String.◌∷◌ d t) h =
    let first : code c ≡ code d = ground (arith, h) in
    let rest : codes s ≡ codes t = ground (arith, h) in
    rw (Char-path c d first, codes-injective s t rest) refl

codes_lt-total : (s t : List ℕ) → codes_lt s t ≡ false → codes_lt t s ≡ false → s ≡ t
codes_lt-total [] [] h k = refl
codes_lt-total [] (d ∷ t) h k = cc
codes_lt-total (c ∷ s) [] h k = cc
codes_lt-total (c ∷ s) (d ∷ t) h k = ground (arith, h, k, codes_lt-total s t)

codes_lt-asym : (s t : List ℕ) → codes_lt s t ≡ true → codes_lt t s ≡ false
codes_lt-asym [] [] h = refl
codes_lt-asym [] (d ∷ t) h = refl
codes_lt-asym (c ∷ s) [] h = cc
codes_lt-asym (c ∷ s) (d ∷ t) h = ground (arith, h, codes_lt-asym s t)

codes_lt_trans : (s t u : List ℕ) → codes_lt s t ≡ true → codes_lt t u ≡ true → codes_lt s u ≡ true
codes_lt_trans [] [] u h k = k
codes_lt_trans [] (d ∷ t) [] h k = cc
codes_lt_trans [] (d ∷ t) (e ∷ u) h k = refl
codes_lt_trans (c ∷ s) [] u h k = cc
codes_lt_trans (c ∷ s) (d ∷ t) [] h k = cc
codes_lt_trans (c ∷ s) (d ∷ t) (e ∷ u) h k = ground (arith, h, k, codes_lt_trans s t u)

-- `left === right || left < right`
unfoldable pub text_le : String → String → Bool
text_le s t = str_eq s t || text_lt s t

text_le-cases : (s t : String) → text_le s t ≡ true → (s ≡ t) ⊎ (text_lt s t ≡ true)
unfolding text_le
text_le-cases s t h = elim (Bool-cases (str_eq s t)) [
  | inl e ↦ inl ((eq_iff s t).0 e)
  | inr n ↦ inr (ground (arith, h, n))
]

text_le-of : (s t : String) → text_lt s t ≡ true → text_le s t ≡ true
unfolding text_le
text_le-of s t h = ground (arith, h)

pub text_le_trans : (s t u : String) → text_le s t ≡ true → text_le t u ≡ true → text_le s u ≡ true
text_le_trans s t u h k = elim (text_le-cases s t h) [
  | inl e ↦ rw e k
  | inr a ↦ elim (text_le-cases t u k) [
    | inl e ↦ rw (← e) h
    | inr b ↦ text_le-of s u (codes_lt_trans (codes s) (codes t) (codes u) a b)
  ]
]

-- Of two texts one is at most the other, and if both are they are equal.
pub text_le_total : (s t : String) → text_le s t ≡ false → text_le t s ≡ true
unfolding text_le
text_le_total s t h = elim (Bool-cases (text_lt t s)) [
  | inl b ↦ ground (arith, b)
  | inr b ↦
      let a : text_lt s t ≡ false = ground (arith, h) in
      let e = codes-injective s t (codes_lt-total (codes s) (codes t) a b) in
      let same : str_eq s t ≡ true = (eq_iff s t).1 e in absurd (ground (arith, h, same))
]

pub text_le_antisym : (s t : String) → text_le s t ≡ true → text_le t s ≡ true → s ≡ t
text_le_antisym s t h k = elim (text_le-cases s t h) [
  | inl e ↦ e
  | inr a ↦ elim (text_le-cases t s k) [
    | inl e ↦ sym e
    | inr b ↦ let c = codes_lt-asym (codes s) (codes t) a in absurd (ground (arith, b, c))
  ]
]

-- Two lists whose items are the same, where items are swapped only when their keys differ.
pub data Reordered {ℓ} {A : Type ℓ} (key : A → String) : List A → List A → Type ℓ where
  same : (xs : List A) → Reordered key xs xs
  under : (x : A) {xs ys : List A} → Reordered key xs ys → Reordered key (x ∷ xs) (x ∷ ys)
  swapped :
      (x y : A) (xs : List A)
      → str_eq (key x) (key y) ≡ false
      → Reordered key (x ∷ y ∷ xs) (y ∷ x ∷ xs)
  through : {xs ys zs : List A} → Reordered key xs ys → Reordered key ys zs → Reordered key xs zs

module _ {ℓ} {A : Type ℓ} (key : A → String) where
  abbrev pub key_le : A → A → Bool
  key_le x y = text_le (key x) (key y)

  -- Two insertions commute where the first key is below the second.
  insert_below :
      (x y : A) (xs : List A)
      → key_le x y ≡ true
      → key_le y x ≡ false
      → insert_by key_le x (insert_by key_le y xs) ≡ insert_by key_le y (insert_by key_le x xs)
  insert_below x y [] h k = rw (h, k) refl
  insert_below x y (z ∷ xs) h k = elim (Bool-cases (key_le y z)) [
    | inl a ↦ let b = text_le_trans (key x) (key y) (key z) h a in rw (a, h, b, k) (rw a refl)
    | inr a ↦ elim (Bool-cases (key_le x z)) [
      | inl b ↦ rw (a, b, k) (rw a refl)
      | inr b ↦ rw (a, b, a) (ap (◌∷◌ z) (insert_below x y xs h k))
    ]
  ]

  insert_swap :
      (x y : A) (xs : List A)
      → str_eq (key x) (key y) ≡ false
      → insert_by key_le x (insert_by key_le y xs) ≡ insert_by key_le y (insert_by key_le x xs)
  insert_swap x y xs n = elim (Bool-cases (key_le x y)) [
    | inl h ↦ elim (Bool-cases (key_le y x)) [
      | inl k ↦
          let e = text_le_antisym (key x) (key y) h k in
          let s : str_eq (key x) (key y) ≡ true = (eq_iff (key x) (key y)).1 e in
          absurd (ground (arith, n, s))
      | inr k ↦ insert_below x y xs h k
    ]
    | inr h ↦ sym (insert_below y x xs (text_le_total (key x) (key y) h) h)
  ]

  -- Sorting by the key forgets the order.
  pub sort_by-Reordered :
      {xs ys : List A} → Reordered key xs ys → sort_by key_le xs ≡ sort_by key_le ys
  sort_by-Reordered (same xs) = refl
  sort_by-Reordered (under x r) = ap (insert_by key_le x) (sort_by-Reordered r)
  sort_by-Reordered (swapped x y xs n) = insert_swap x y (sort_by key_le xs) n
  sort_by-Reordered (through r s) = sort_by-Reordered r ∙ sort_by-Reordered s
