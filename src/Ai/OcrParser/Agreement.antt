-- ===== src/Ai/OcrParser/Agreement.antt =====
-- The two schemas of src/ai/ocr-schema.ts agree: what the first accepts, the second accepts unchanged.
use mathlib.Core.Option
use mathlib.Core.Option.{some-injective}
use mathlib.Core.Path.{subst}
use ai_statement_analyzer.Base.{
  suc, String, ◌≡◌, refl, ap, inl, inr, true, ◌&&◌, Option, some, List, [], ◌∷◌, map, arith, leb,
  Option-cases, length,
}
use ai_statement_analyzer.Base.Maybe.{◌>>=◌, guard, bind-some, every}
use ai_statement_analyzer.Ai.OcrParser.{
  Entry, tool_transaction, ocr_transaction, document, ocr_tool_input, ocr_result, to_result,
  transaction_json, result_json, array_of, or_throw, parse_ocr_tool_input, lines_differ,
}
use ai_statement_analyzer.Json.{Json, items, as_object, only_keys, get, as_array}
use ai_statement_analyzer.Ai.OcrSchema.{max_ocr_transactions}
use ai_statement_analyzer.Ai.OcrParser.Laws.{ocr_transaction-again, guard-true}

pub items-array_of : (vs : List Json) → items (array_of vs) ≡ vs
items-array_of [] = refl
items-array_of (v ∷ vs) = ap (◌∷◌ v) (items-array_of vs)

-- The lists of an `every` that succeeded have one length.
pub length-every {ℓ κ} :
    {A : Type ℓ} {B : Type κ} (f : A → Option B) (xs : List A) (ys : List B)
    → every f xs ≡ some ys
    → length xs ≡ length ys
unfolding every
length-every f [] ys h = ground arith
length-every f (x ∷ xs) ys h =
    let (y, at, rest) = bind-some (f x) _ h in
    let (zs, at', last) = bind-some (every f xs) _ rest in
    subst (λ l. suc (length xs) ≡ length l) (some-injective _ _ last)
      (ap suc (length-every f xs zs at'))

every-again :
    (vs : List Json) (ts : List (Entry String))
    → every tool_transaction vs ≡ some ts
    → every ocr_transaction (map transaction_json (map to_result ts)) ≡ some (map to_result ts)
unfolding every
every-again [] ts h =
    subst
      (λ l. every ocr_transaction (map transaction_json (map to_result l)) ≡ some (map to_result l))
      (some-injective _ _ h) refl
every-again (v ∷ vs) ts h =
    let (t, at, rest) = bind-some (tool_transaction v) _ h in
    let (us, at', last) = bind-some (every tool_transaction vs) _ rest in
    subst
      (λ l. every ocr_transaction (map transaction_json (map to_result l)) ≡ some (map to_result l))
      (some-injective _ _ last) (rw (ocr_transaction-again v t at, every-again vs us at') refl)

pub length-map {ℓ κ} :
    {A : Type ℓ} {B : Type κ} (f : A → B) (xs : List A) → length (map f xs) ≡ length xs
length-map f [] = refl
length-map f (x ∷ xs) = ap suc (length-map f xs)

lines-to_result :
    (ts : List (Entry String))
    → map (λ t. t.line_number) (map to_result ts) ≡ map (λ t. t.line_number) ts
lines-to_result [] = refl
lines-to_result (t ∷ ts) = ap (◌∷◌ t.line_number) (lines-to_result ts)

-- What an accepted document consists of.
pub record DocumentParts {S : Type 0} (p : Json → Option (Entry S)) (ts : List (Entry S))
    : Type 0 where
  pub elements : List Json
  pub parsed : every p elements ≡ some ts
  pub bounded : (leb 1 (length ts) && leb (length ts) max_ocr_transactions) ≡ true
  pub differ : lines_differ [] (map (λ t. t.line_number) ts) ≡ true

pub document-Parts :
    {S : Type 0} (p : Json → Option (Entry S)) (v : Json) (ts : List (Entry S))
    → document p v ≡ some ts
    → DocumentParts p ts
unfolding document
document-Parts p v ts h =
    let (fields, at0, h0) = bind-some (as_object v) _ h in
    let (u, at1, h1) = bind-some (guard (only_keys ("transactions" ∷ []) fields)) _ h0 in
    let (elements, at2, h2) = bind-some (get "transactions" fields >>= as_array) _ h1 in
    let (us, at3, h3) = bind-some (every p elements) _ h2 in
    let (w, at4, h4) =
      bind-some (guard (leb 1 (length elements) && leb (length elements) max_ocr_transactions)) _
        h3 in
    let (x, at5, h5) = bind-some (guard (lines_differ [] (map (λ t. t.line_number) us))) _ h4 in
    subst (DocumentParts p) (some-injective _ _ h5) (record {
      elements = elements;
      parsed = at3;
      bounded = rw (← length-every p elements us at3) (guard-true _ at4);
      differ = guard-true _ at5;
    })

ocr_result-again :
    (v : Json) (ts : List (Entry String))
    → ocr_tool_input v ≡ some ts
    → ocr_result (result_json (map to_result ts)) ≡ some (map to_result ts)
unfolding ocr_tool_input ocr_result result_json document
ocr_result-again v ts h =
    let d = document-Parts tool_transaction v ts h in
    rw
      (
        items-array_of,
        every-again d.elements ts d.parsed,
        length-map,
        length-map,
        d.bounded,
        lines-to_result,
        d.differ,
      )
      refl

-- The parser's answer is that of the tool's schema, with the marks cleared: the second validation
-- never rejects and never changes what the first has accepted.
pub parse_ocr_tool_input_lem :
    (v : Json) → parse_ocr_tool_input v ≡ or_throw (Option.map (map to_result) (ocr_tool_input v))
unfolding parse_ocr_tool_input
parse_ocr_tool_input_lem v = elim (Option-cases (ocr_tool_input v)) [
  | inl e ↦ rw e refl
  | inr (ts, e) ↦ rw e (ap or_throw (ocr_result-again v ts e))
]
