-- ===== src/Api/Schemas/Accepted.antt =====
-- What the repository makes of a request that the schema has accepted.
use ai_statement_analyzer.Base.{
  ℕ, zero, suc, String, ◌≡◌, refl, inl, inr, true, false, ◌&&◌, some, [], ◌∷◌, ◌++◌, arith, leb,
  Bool-cases, any,
}
use Prim.Native.String
use mathlib.Core.Path.{subst}
use mathlib.Core.Option.{some-injective}
use ai_statement_analyzer.Base.Int.{pos, negsuc}
use ai_statement_analyzer.Base.Maybe.{bind-some, guard}
use ai_statement_analyzer.Base.Text.{codes, is_year_month}
use ai_statement_analyzer.Base.Number.{Number, integer, fractional}
use ai_statement_analyzer.Failure.{ok}
use ai_statement_analyzer.Json.{Json, as_object, only_keys}
use ai_statement_analyzer.Database.Types.{StatementRecord, Database}
use ai_statement_analyzer.Database.Statements.{insert_statement, conflicts, max_content_length}
use ai_statement_analyzer.Database.World.{query}
use ai_statement_analyzer.Database.Repository.{
  create, new_row, normalize_target_month, insert_input,
}
use ai_statement_analyzer.Api.Schemas.{
  CreateStatementRequest, create_statement_request, target_month, content_length, is_year_allowed,
  year_value, create_fields, text_field, number_field, file_name, content_type, create_keys,
}
use ai_statement_analyzer.Api.Upload.{to_create_input}

pub record IsAccepted (r : CreateStatementRequest) : Type 0 where
  pub month : is_year_month (codes r.target_month) ≡ true
  pub at_least_one : leb 1 r.content_length ≡ true
  pub at_most : leb r.content_length max_content_length ≡ true

target_month-IsAccepted : (s m : String) → target_month s ≡ some m → is_year_month (codes m) ≡ true
unfolding target_month
target_month-IsAccepted s m h =
    elim (Bool-cases (is_year_month (codes s) && is_year_allowed (year_value (codes s)))) [
      | inl y ↦
          let same : s ≡ m = ground (arith, h, y) in
          let month : is_year_month (codes s) ≡ true = ground (arith, y) in rw same at month
      | inr n ↦ absurd (ground (arith, h, n))
    ]

content_length-bounds :
    (n : Number) (l : ℕ)
    → content_length n ≡ some l
    → (leb 1 l ≡ true) × (leb l max_content_length ≡ true)
unfolding content_length
content_length-bounds (integer (pos zero)) l h = cc
content_length-bounds (integer (pos (suc n))) l h = ground arith
content_length-bounds (integer (negsuc n)) l h = cc
content_length-bounds fractional l h = cc

create_statement_request-IsAccepted :
    (body : Json) (r : CreateStatementRequest)
    → create_statement_request body ≡ some r
    → IsAccepted r
unfolding create_statement_request create_fields
create_statement_request-IsAccepted body r h =
    let (fields, h1, k1) = bind-some (as_object body) _ h in
    let (month_text, h2, k2) = bind-some (text_field "targetMonth" fields) _ k1 in
    let (month, h3, k3) = bind-some (target_month month_text) _ k2 in
    let (name_text, h4, k4) = bind-some (text_field "fileName" fields) _ k3 in
    let (name, h5, k5) = bind-some (file_name name_text) _ k4 in
    let (type_text, h6, k6) = bind-some (text_field "contentType" fields) _ k5 in
    let (type, h7, k7) = bind-some (content_type type_text) _ k6 in
    let (length_number, h8, k8) = bind-some (number_field "contentLength" fields) _ k7 in
    let (size, h9, k9) = bind-some (content_length length_number) _ k8 in
    let (g, h10, last) = bind-some (guard (only_keys create_keys fields)) _ k9 in
    let (first, most) = content_length-bounds length_number size h9 in
    subst IsAccepted (some-injective _ _ last) (record {
      month = target_month-IsAccepted month_text month h3;
      at_least_one = first;
      at_most = most;
    })

module _ (body : Json) (request : CreateStatementRequest) (id generated : String)
    (db : Database) where
  abbrev pub accepted_row : StatementRecord
  accepted_row =
      new_row generated (to_create_input id request) (String.◌++◌ request.target_month "-01") db.now

  -- A request that the schema accepts passes the month's normalisation and the table's check: where
  -- no row has its identifier or its key, `create` inserts its row and returns it.
  pub create-accepted :
      create_statement_request body ≡ some request
      → any (conflicts accepted_row) db.statements ≡ false
      → create generated (to_create_input id request) (record { database = db; turns = [] }) ≡ (
        ok accepted_row,
        record {
          database = record db { statements = db.statements ++ accepted_row ∷ [] };
          turns = [];
        },
      )
  unfolding create normalize_target_month insert_input insert_statement to_create_input query
  create-accepted h free =
      let a = create_statement_request-IsAccepted body request h in
      rw (a.month, a.at_least_one, a.at_most, free) refl
