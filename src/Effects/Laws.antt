-- ===== src/Effects/Laws.antt =====
-- Inversion of a sequence of calls that resolved.
use ai_statement_analyzer.Base.{◌≡◌, refl, ap, ◌≢◌}
use ai_statement_analyzer.Failure.{Outcome, ok, throw, Thrown}
use ai_statement_analyzer.Effects.{Exec, continue, ◌>>=◌, Traced, attempt, call, settle}

module _ {ℓ} {S A B : Type ℓ} where
  pub record Resolved (m : Exec S A) (f : A → Exec S B) (s : S) (b : B) : Type ℓ where
    pub value : A
    pub first : (m s).0 ≡ ok value
    pub rest : (f value (m s).1).0 ≡ ok b
    pub state : ((m >>= f) s).1 ≡ (f value (m s).1).1

  pub bind-ok :
      (m : Exec S A) (f : A → Exec S B) (s : S) {b : B} → ((m >>= f) s).0 ≡ ok b → Resolved m f s b
  bind-ok m f s {b} =
      elim (m s).0 as (λ o. (m s).0 ≡ o → (continue o (m s).1 f).0 ≡ ok b → Resolved m f s b) [
        | ok a ↦ λ e h. record {
          value = a;
          first = e;
          rest = h;
          state = ap (λ o. (continue o (m s).1 f).1) e;
        }
        | throw x ↦ λ e h. cc
      ]
        refl

module _ {ℓ κ} {S A B : Type ℓ} (P : S → Type κ) (m : Exec S A) (f : A → Exec S B) (s : S) where
  -- What the first call establishes and every continuation keeps holds in the end.
  pub bind-keeps : P (m s).1 → ((a : A) → P (f a (m s).1).1) → P ((m >>= f) s).1
  bind-keeps h k = elim (m s).0 as (λ o. P (continue o (m s).1 f).1) [ ok a ↦ k a | throw e ↦ h ]

module _ {κ} {S A B : Type 0} (P : Outcome B × Traced S → Type κ) (m : Exec S A)
    (h : Thrown → Exec (Traced S) B) (k : A → Exec (Traced S) B) (t : Traced S) where
  abbrev called : Traced S
  called = record t { world = (m t.world).1 }

  -- A call under a handler, by the two ways in which it can settle.
  pub attempt-cases :
      ((e : Thrown) → (m t.world).0 ≡ throw e → P (h e (record t { world = (m t.world).1 })))
      → ((a : A) → (m t.world).0 ≡ ok a → P (k a (record t { world = (m t.world).1 })))
      → P (attempt (call m) h k t)
  attempt-cases on_throw on_ok =
      elim (m t.world).0 as (λ o. (m t.world).0 ≡ o → P (settle o called h k)) [
        | ok a ↦ λ e. on_ok a e
        | throw x ↦ λ e. on_throw x e
      ]
        refl

module _ {ℓ} {S A B : Type ℓ} where
  -- An attempt that resolved although its handler never does went on with the first call's value.
  pub attempt-ok :
      (m : Exec S A) (h : Thrown → Exec S B) (k : A → Exec S B) (s : S) {b : B}
      → ((e : Thrown) (s' : S) → (h e s').0 ≢ ok b)
      → (attempt m h k s).0 ≡ ok b
      → (a : A) × ((m s).0 ≡ ok a)
        × ((k a (m s).1).0 ≡ ok b)
        × ((attempt m h k s).1 ≡ (k a (m s).1).1)
  attempt-ok m h k s {b} never =
      elim (m s).0
          as (λ o.
            (m s).0 ≡ o
            → (settle o (m s).1 h k).0 ≡ ok b
            → (a : A) × ((m s).0 ≡ ok a)
              × ((k a (m s).1).0 ≡ ok b)
              × ((attempt m h k s).1 ≡ (k a (m s).1).1)) [
                | ok a ↦ λ e r. (a, e, r, ap (λ o. (settle o (m s).1 h k).1) e)
                | throw x ↦ λ e r. absurd (never x (m s).1 r)
              ]
        refl
