-- ===== src/Base/Maybe.antt =====
-- Chains of tests that may fail without a reason.
use mathlib.Core.Path.{◌≡◌, refl}
use mathlib.Core.Bool.{Bool, true, false}
use mathlib.Core.Option.{Option, none, some}
use mathlib.Core.List.{List, [], ◌∷◌}
use native.Mathlib.Omega.{arith}

module _ {ℓ κ} {A : Type ℓ} {B : Type κ} where
  infixl 5 ◌>>=◌ ◌>>◌
  abbrev pub ◌>>=◌ : Option A → (A → Option B) → Option B
  none >>= f = none
  some a >>= f = f a

  abbrev pub ◌>>◌ : Option A → Option B → Option B
  m >> n = m >>= λ _. n

  -- What a chain that succeeded went through.
  pub bind-some :
      (m : Option A) (f : A → Option B) {b : B}
      → (m >>= f) ≡ some b
      → (a : A) × (m ≡ some a) × (f a ≡ some b)
  bind-some none f h = ground arith
  bind-some (some a) f h = (a, refl, h)

abbrev pub guard : Bool → Option (Unit {0})
guard true = some tt
guard false = none

-- Every item passes, or the whole list fails.
unfoldable pub every {ℓ κ} : {A : Type ℓ} {B : Type κ} → (A → Option B) → List A → Option (List B)
every f [] = some []
every f (x ∷ xs) = do y ← f x; ys ← every f xs; some (y ∷ ys)
