-- ===== src/Json.antt =====
-- JSON values, and the parts of the schema library's objects that the schemas of src/ use: text,
-- numbers, and objects whose keys are looked up and checked against a list.
use ai_statement_analyzer.Base.{
  String, Bool, true, false, ◌&&◌, ◌||◌, Option, none, some, List, [], ◌∷◌, str_eq, if◌then◌else◌,
}
use ai_statement_analyzer.Base.Number.{Number}

mutual
  pub data Json : Type 0 where
    null : Json
    bool : Bool → Json
    num : Number → Json
    text : String → Json
    arr : Items → Json
    obj : Fields → Json

  pub data Items : Type 0 where
    nil : Items
    cons : Json → Items → Items

  pub data Fields : Type 0 where
    end : Fields
    field : String → Json → Fields → Fields

abbrev pub items : Items → List Json
items nil = []
items (cons v vs) = v ∷ items vs

abbrev pub get : String → Fields → Option Json
get key end = none
get key (field k v fields) = let rest = get key fields in if str_eq k key then some v else rest

abbrev pub includes : List String → String → Bool
includes [] s = false
includes (x ∷ xs) s = str_eq x s || includes xs s

-- `.strict()`: no key beside the listed ones.
abbrev pub only_keys : List String → Fields → Bool
only_keys keys end = true
only_keys keys (field k v fields) = includes keys k && only_keys keys fields

abbrev pub as_object : Json → Option Fields
as_object (obj fields) = some fields
as_object _ = none

abbrev pub as_array : Json → Option (List Json)
as_array (arr vs) = some (items vs)
as_array _ = none

abbrev pub as_text : Json → Option String
as_text (text s) = some s
as_text _ = none

abbrev pub as_number : Json → Option Number
as_number (num n) = some n
as_number _ = none
