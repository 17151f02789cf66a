-- ===== src/Ai/OcrParser.antt =====
-- `parseOcrToolInput` of src/ai/ocr-schema.ts: the tool's input is parsed, the "no subcategory" mark
-- becomes null, and the result is parsed once more by the result's own schema.
pub mod Laws
pub mod Agreement
pub mod Bounds
pub mod Dates
use ai_statement_analyzer.Base.{
  ℕ, String, Bool, true, false, not, ◌&&◌, ◌||◌, Option, none, some, List, [], ◌∷◌, map, leb, ltb,
  ◌==◌, str_eq, length, if◌then◌else◌,
}
use ai_statement_analyzer.Base.Int.{ℤ, pos}
use ai_statement_analyzer.Base.Maybe.{◌>>=◌, ◌>>◌, guard, every}
use ai_statement_analyzer.Base.Number.{integer}
use ai_statement_analyzer.Failure.{Outcome, ok, throw, plain}
use ai_statement_analyzer.Json.{
  Json, Items, nil, cons, Fields, end, field, get, includes, only_keys, as_object, as_array,
}
use ai_statement_analyzer.Ai.OcrSchema.{
  max_ocr_transactions, OcrCategory, category_text, subcategories_by_category, no_subcategory,
  transaction_date, merchant, amount, category, line_number, tool_subcategory, result_subcategory,
}

-- A transaction with a subcategory of the type `S`: the tool's has a text, the result's may be null.
pub record Entry (S : Type 0) : Type 0 where
  pub transaction_date : String
  pub merchant_raw : String
  pub merchant_name : String
  pub amount : ℤ
  pub category : OcrCategory
  pub subcategory : S
  pub line_number : ℕ

abbrev pub OcrTransaction : Type 0
OcrTransaction = Entry (Option String)

abbrev pub transaction_keys : List String
transaction_keys =
    "transactionDate" ∷ "merchantRaw" ∷ "merchantName" ∷ "amount" ∷ "category" ∷ "subcategory"
    ∷ "lineNumber" ∷ []

-- The object schema that both transactions share, with a parser for the subcategory.
unfoldable pub entry : {S : Type 0} → (Json → Option S) → Json → Option (Entry S)
entry parse_subcategory v = do
  fields ← as_object v
  guard (only_keys transaction_keys fields)
  date ← get "transactionDate" fields >>= transaction_date
  raw ← get "merchantRaw" fields >>= merchant
  name ← get "merchantName" fields >>= merchant
  yen ← get "amount" fields >>= amount
  kind ← get "category" fields >>= category
  sub ← get "subcategory" fields >>= parse_subcategory
  line ← get "lineNumber" fields >>= line_number
  some (record {
    transaction_date = date;
    merchant_raw = raw;
    merchant_name = name;
    amount = yen;
    category = kind;
    subcategory = sub;
    line_number = line;
  })

-- `validateCategoryAndSubcategory`: no issue is added.
abbrev pub is_marked_none : String → Bool
is_marked_none s = str_eq s no_subcategory

unfoldable pub category_and_subcategory_agree : Entry String → Bool
category_and_subcategory_agree t =
    let allowed = subcategories_by_category t.category in
    not (not (includes allowed t.subcategory) && not (is_marked_none t.subcategory))
    && not (ltb 0 (length allowed) && is_marked_none t.subcategory)

-- The refinement of the result's transaction.
abbrev pub is_allowed : OcrCategory → Option String → Bool
is_allowed kind none = true
is_allowed kind (some s) = includes (subcategories_by_category kind) s

unfoldable pub tool_transaction : Json → Option (Entry String)
tool_transaction v = do
  t ← entry tool_subcategory v
  guard (category_and_subcategory_agree t)
  some t

unfoldable pub ocr_transaction : Json → Option OcrTransaction
ocr_transaction v = do
  t ← entry result_subcategory v
  guard (is_allowed t.category t.subcategory)
  some t

-- `validateLineNumbers`, whose set holds the lines seen so far.
abbrev pub has_number : ℕ → List ℕ → Bool
has_number n [] = false
has_number n (m ∷ seen) = m == n || has_number n seen

unfoldable pub lines_differ : List ℕ → List ℕ → Bool
lines_differ seen [] = true
lines_differ seen (n ∷ lines) = not (has_number n seen) && lines_differ (n ∷ seen) lines

unfoldable pub document : {S : Type 0} → (Json → Option (Entry S)) → Json → Option (List (Entry S))
document transaction v = do
  fields ← as_object v
  guard (only_keys ("transactions" ∷ []) fields)
  elements ← get "transactions" fields >>= as_array
  transactions ← every transaction elements
  guard (leb 1 (length elements) && leb (length elements) max_ocr_transactions)
  guard (lines_differ [] (map (λ t. t.line_number) transactions))
  some transactions

unfoldable pub ocr_tool_input : Json → Option (List (Entry String))
ocr_tool_input = document tool_transaction

unfoldable pub ocr_result : Json → Option (List OcrTransaction)
ocr_result = document ocr_transaction

-- `{ ...transaction, subcategory: … }`
abbrev pub clear_mark : String → Option String
clear_mark s = if is_marked_none s then none else some s

abbrev pub to_result : Entry String → OcrTransaction
to_result t = record {
  transaction_date = t.transaction_date;
  merchant_raw = t.merchant_raw;
  merchant_name = t.merchant_name;
  amount = t.amount;
  category = t.category;
  subcategory = clear_mark t.subcategory;
  line_number = t.line_number;
}

-- The result as the object that the second schema is given.
abbrev pub optional_text : Option String → Json
optional_text none = Json.null
optional_text (some s) = Json.text s

unfoldable pub transaction_json : OcrTransaction → Json
transaction_json t = Json.obj (
    field "transactionDate" (Json.text t.transaction_date) (
      field "merchantRaw" (Json.text t.merchant_raw) (
        field "merchantName" (Json.text t.merchant_name) (
          field "amount" (Json.num (integer t.amount)) (
            field "category" (Json.text (category_text t.category)) (
              field "subcategory" (optional_text t.subcategory)
                (field "lineNumber" (Json.num (integer (pos t.line_number))) end)))))))

abbrev pub array_of : List Json → Items
array_of [] = nil
array_of (v ∷ vs) = cons v (array_of vs)

unfoldable pub result_json : List OcrTransaction → Json
unfolding transaction_json
result_json ts = Json.obj (field "transactions" (Json.arr (array_of (map transaction_json ts))) end)

abbrev pub or_throw {ℓ} : {A : Type ℓ} → Option A → Outcome A
or_throw none = throw plain
or_throw (some a) = ok a

abbrev pub validate_result : Option (List (Entry String)) → Outcome (List OcrTransaction)
validate_result none = throw plain
validate_result (some transactions) =
    or_throw (ocr_result (result_json (map to_result transactions)))

unfoldable pub parse_ocr_tool_input : Json → Outcome (List OcrTransaction)
parse_ocr_tool_input input = validate_result (ocr_tool_input input)
