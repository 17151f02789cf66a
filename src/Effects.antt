-- ===== src/Effects.antt =====
-- Asynchronous code as actions on a state: an `await` that resolves or rejects is an `Outcome`, and
-- what was written before a rejection stays written. `Traced` adds the lines that the structured
-- logger has written, the latest first.
pub mod Laws
use ai_statement_analyzer.Base.{String, Option, none, List, ◌∷◌}
use ai_statement_analyzer.Failure.{Outcome, ok, throw, Thrown}

abbrev pub Exec {ℓ} : Type ℓ → Type ℓ → Type ℓ
Exec S A = S → Outcome A × S

module _ {ℓ} {S A : Type ℓ} where
  abbrev pub pure : A → Exec S A
  pure a s = (ok a, s)

  abbrev pub raise : Thrown → Exec S A
  raise e s = (throw e, s)

  abbrev pub lift : Outcome A → Exec S A
  lift r s = (r, s)

  -- `try { m } catch (error) { handler }`
  abbrev pub recover : Outcome A → S → (Thrown → Exec S A) → Outcome A × S
  recover (ok a) s h = (ok a, s)
  recover (throw e) s h = h e s

  abbrev pub try_catch : Exec S A → (Thrown → Exec S A) → Exec S A
  try_catch m h s = recover (m s).0 (m s).1 h

module _ {ℓ} {S A B : Type ℓ} where
  abbrev pub continue : Outcome A → S → (A → Exec S B) → Outcome B × S
  continue (ok a) s f = f a s
  continue (throw e) s f = (throw e, s)

  infixl 5 ◌>>=◌ ◌>>◌
  abbrev pub ◌>>=◌ : Exec S A → (A → Exec S B) → Exec S B
  ◌>>=◌ m f s = continue (m s).0 (m s).1 f

  abbrev pub ◌>>◌ : Exec S A → Exec S B → Exec S B
  m >> n = m >>= λ _. n

  -- `try { a = m } catch (error) { return handler } k`: one handler for `m`, none for `k`.
  abbrev pub settle : Outcome A → S → (Thrown → Exec S B) → (A → Exec S B) → Outcome B × S
  settle (ok a) s h k = k a s
  settle (throw e) s h k = h e s

  abbrev pub attempt : Exec S A → (Thrown → Exec S B) → (A → Exec S B) → Exec S B
  attempt m h k s = settle (m s).0 (m s).1 h k

pub data Level : Type 0 where
  at_info at_error : Level

-- One call of the logger. The request's and message's identifiers, the receive count, the model's
-- name and the durations are left out.
pub record LogLine : Type 0 where
  pub level : Level
  pub event : String
  pub statement_id : Option String
  pub stage : Option String
  pub status : Option String
  pub disposition : Option String
  pub error_code : Option String

abbrev pub line : Level → String → LogLine
line level event = record {
  level = level;
  event = event;
  statement_id = none;
  stage = none;
  status = none;
  disposition = none;
  error_code = none;
}

pub record Traced (S : Type 0) : Type 0 where
  pub world : S
  pub log : List LogLine

module _ {S : Type 0} where
  abbrev pub write_log : LogLine → Exec (Traced S) (Unit {0})
  write_log l t = (ok tt, record t { log = l ∷ t.log })

  -- A call of a dependency, which writes no line of its own.
  abbrev pub call : {A : Type 0} → Exec S A → Exec (Traced S) A
  call m t = ((m t.world).0, record t { world = (m t.world).1 })
