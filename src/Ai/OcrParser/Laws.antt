-- ===== src/Ai/OcrParser/Laws.antt =====
-- Each value that the schema of src/ai/ocr-schema.ts accepts is accepted again, unchanged.
use ai_statement_analyzer.Base.{
  ℕ, zero, suc, String, ◌≡◌, refl, ap, ◌∙◌, inl, inr, Bool, true, false, ◌&&◌, Option, none, some,
  arith, Bool-cases,
}
use ai_statement_analyzer.Base.Int.{ℤ, pos, negsuc}
use ai_statement_analyzer.Base.Maybe.{◌>>=◌, guard, bind-some}
use ai_statement_analyzer.Base.Number.{Number, integer, fractional, positive_integer}
use ai_statement_analyzer.Base.Text.{trim, trim_start, trim_end, is_space, is_empty}
use mathlib.Core.Option.{some-injective}
use mathlib.Core.Path.{subst}
use Prim.Native.Char.{code}
use ai_statement_analyzer.Ai.OcrSchema.{
  food, merchant, OcrCategory, as_integer, category_text, result_subcategory, tool_subcategory,
}
use ai_statement_analyzer.Ai.OcrSchema.{transaction_date, merchant, amount, category, line_number}
use ai_statement_analyzer.Json.{Json, as_text, as_number, as_object, only_keys, get}
use ai_statement_analyzer.Ai.OcrParser.{
  Entry, entry, transaction_keys, tool_transaction, category_and_subcategory_agree, ocr_transaction,
  is_allowed, optional_text, transaction_json, clear_mark, is_marked_none, to_result,
}

pub guard-true : (b : Bool) → guard b ≡ some tt → b ≡ true
guard-true b h = ground arith

trim_end-trim_end : (s : String) → trim_end (trim_end s) ≡ trim_end s
unfolding trim_end
trim_end-trim_end String.[] = refl
trim_end-trim_end (String.◌∷◌ c s) =
    elim (Bool-cases (is_space (code c) && is_empty (trim_end s))) [
      | inl e ↦ rw e refl
      | inr e ↦ rw e (rw (trim_end-trim_end s, e) refl)
    ]

-- The text does not begin with white space.
abbrev HasNoLead : String → Type 0
HasNoLead String.[] = Unit
HasNoLead (String.◌∷◌ c s) = is_space (code c) ≡ false

HasNoLead-trim_start : (s : String) → HasNoLead (trim_start s)
unfolding trim_start
HasNoLead-trim_start String.[] = tt
HasNoLead-trim_start (String.◌∷◌ c s) = elim (Bool-cases (is_space (code c))) [
  | inl e ↦ rw e (HasNoLead-trim_start s)
  | inr e ↦ rw e e
]

trim_start-trim_end : (s : String) → HasNoLead s → trim_start (trim_end s) ≡ trim_end s
unfolding trim_start trim_end
trim_start-trim_end String.[] h = refl
trim_start-trim_end (String.◌∷◌ c s) h = rw h (rw h refl)

pub trim-trim : (s : String) → trim (trim s) ≡ trim s
unfolding trim
trim-trim s =
    ap trim_end (trim_start-trim_end (trim_start s) (HasNoLead-trim_start s))
    ∙ trim_end-trim_end (trim_start s)

transaction_date-again :
    (v : Json) (s : String) → transaction_date v ≡ some s → transaction_date (Json.text s) ≡ some s
unfolding transaction_date
transaction_date-again v s h = let (t, at, rest) = bind-some (as_text v) _ h in ground arith

merchant-again : (v : Json) (s : String) → merchant v ≡ some s → merchant (Json.text s) ≡ some s
unfolding merchant
merchant-again v s h =
    let (t, at, rest) = bind-some (as_text v) _ h in
    let same : trim t ≡ s = ground arith in rw (← same, trim-trim) (ground arith)

amount-again : (v : Json) (a : ℤ) → amount v ≡ some a → amount (Json.num (integer a)) ≡ some a
unfolding amount
amount-again v a h =
    let (n, at, rest) = bind-some (as_number v) _ h in
    let (b, at', rest') = bind-some (as_integer n) _ rest in ground arith

category-again :
    (v : Json) (c : OcrCategory)
    → category v ≡ some c
    → category (Json.text (category_text c)) ≡ some c
unfolding category
category-again v food h = refl
category-again v _ h = refl

pub positive_integer-again :
    (n : Number) (k : ℕ) → positive_integer n ≡ some k → positive_integer (integer (pos k)) ≡ some k
positive_integer-again (integer (pos zero)) k h = cc
positive_integer-again (integer (pos (suc n))) k h = ground arith
positive_integer-again (integer (negsuc n)) k h = cc
positive_integer-again fractional k h = cc

line_number-again :
    (v : Json) (l : ℕ) → line_number v ≡ some l → line_number (Json.num (integer (pos l))) ≡ some l
unfolding line_number
line_number-again v l h =
    let (n, at, rest) = bind-some (as_number v) _ h in
    let (k, at', rest') = bind-some (positive_integer n) _ rest in
    let same : k ≡ l = ground arith in
    rw (positive_integer-again n l (rw same at at')) (rw same at rest')

-- What each field of a parsed transaction came from.
pub record Parts {S : Type 0} (p : Json → Option S) (t : Entry S) : Type 0 where
  pub date : transaction_date (Json.text t.transaction_date) ≡ some t.transaction_date
  pub raw : merchant (Json.text t.merchant_raw) ≡ some t.merchant_raw
  pub name : merchant (Json.text t.merchant_name) ≡ some t.merchant_name
  pub yen : amount (Json.num (integer t.amount)) ≡ some t.amount
  pub kind : category (Json.text (category_text t.category)) ≡ some t.category
  pub source : Json
  pub sub : p source ≡ some t.subcategory
  pub line : line_number (Json.num (integer (pos t.line_number))) ≡ some t.line_number

pub entry-Parts :
    {S : Type 0} (p : Json → Option S) (v : Json) (t : Entry S) → entry p v ≡ some t → Parts p t
unfolding entry
entry-Parts p v t h =
    let (fields, at0, h0) = bind-some (as_object v) _ h in
    let (u, at1, h1) = bind-some (guard (only_keys transaction_keys fields)) _ h0 in
    let (date, date_at, h2) = bind-some (get "transactionDate" fields >>= transaction_date) _ h1 in
    let (raw, raw_at, h3) = bind-some (get "merchantRaw" fields >>= merchant) _ h2 in
    let (name, name_at, h4) = bind-some (get "merchantName" fields >>= merchant) _ h3 in
    let (yen, yen_at, h5) = bind-some (get "amount" fields >>= amount) _ h4 in
    let (kind, kind_at, h6) = bind-some (get "category" fields >>= category) _ h5 in
    let (sub, sub_at, h7) = bind-some (get "subcategory" fields >>= p) _ h6 in
    let (line, line_at, h8) = bind-some (get "lineNumber" fields >>= line_number) _ h7 in
    let (dv, _, dp) = bind-some (get "transactionDate" fields) transaction_date date_at in
    let (rv, _, rp) = bind-some (get "merchantRaw" fields) merchant raw_at in
    let (nv, _, np) = bind-some (get "merchantName" fields) merchant name_at in
    let (av, _, ap') = bind-some (get "amount" fields) amount yen_at in
    let (kv, _, kp) = bind-some (get "category" fields) category kind_at in
    let (sv, _, sp) = bind-some (get "subcategory" fields) p sub_at in
    let (lv, _, lp) = bind-some (get "lineNumber" fields) line_number line_at in
    subst (Parts p) (some-injective _ _ h8) (record {
      date = transaction_date-again dv date dp;
      raw = merchant-again rv raw rp;
      name = merchant-again nv name np;
      yen = amount-again av yen ap';
      kind = category-again kv kind kp;
      source = sv;
      sub = sp;
      line = line_number-again lv line lp;
    })

-- The subcategory that the tool's transaction is given, once the mark is cleared, passes the
-- result's refinement.
agree-is_allowed :
    (t : Entry String)
    → category_and_subcategory_agree t ≡ true
    → is_allowed t.category (clear_mark t.subcategory) ≡ true
unfolding category_and_subcategory_agree
agree-is_allowed t h = elim (Bool-cases (is_marked_none t.subcategory)) [
  | inl e ↦ rw e refl
  | inr e ↦ rw e (ground (arith, e))
]

result_subcategory-optional_text :
    (o : Option String) → result_subcategory (optional_text o) ≡ some o
unfolding result_subcategory
result_subcategory-optional_text none = refl
result_subcategory-optional_text (some s) = refl

-- A transaction of the tool's input, with its mark cleared, is read back by the result's schema.
pub ocr_transaction-again :
    (v : Json) (t : Entry String)
    → tool_transaction v ≡ some t
    → ocr_transaction (transaction_json (to_result t)) ≡ some (to_result t)
unfolding tool_transaction ocr_transaction transaction_json entry
ocr_transaction-again v t h =
    let (u, at, rest) = bind-some (entry tool_subcategory v) _ h in
    let (g, agrees, last) = bind-some (guard (category_and_subcategory_agree u)) _ rest in
    let same : u ≡ t = some-injective _ _ last in
    let parts = subst (Parts tool_subcategory) same (entry-Parts tool_subcategory v u at) in
    let agreed : category_and_subcategory_agree t ≡ true =
      subst (λ x. category_and_subcategory_agree x ≡ true) same (guard-true _ agrees) in
    rw
      (
        parts.date,
        parts.raw,
        parts.name,
        parts.yen,
        parts.kind,
        result_subcategory-optional_text (clear_mark t.subcategory),
        parts.line,
        agree-is_allowed t agreed,
      )
      refl
