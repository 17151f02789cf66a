-- ===== src/Observability/Logger/Safe.antt =====
-- What a line of the log may hold.
use ai_statement_analyzer.Base.{
  ℕ, zero, suc, ◌≤◌, String, ◌≡◌, refl, ap, inl, inr, Bool, true, false, Option, none, some, List,
  [], ◌∷◌, arith, str_eq, eq_iff, Bool-cases, length, filter, all, find, All,
}
use ai_statement_analyzer.Observability.Logger.{
  other_value, number_value, boolean_value, text_value,
}
use ai_statement_analyzer.Observability.Logger.{
  Units, Value, sanitize_value, Field, sanitize_string, assign, take, text_value,
  max_log_string_length, with_event, allowed_log_fields, create_line, assign_fields, event_of,
  number_value, is_kept, assign_if, is_field, boolean_value, first_fields, unknown_event,
}
use ai_statement_analyzer.Json.{includes}

-- At most 512 units, none of them a control character.
pub record IsClean (us : Units) : Type 0 where
  pub short : length us ≤ max_log_string_length
  pub printable : All (λ u. is_kept u ≡ true) us

abbrev pub IsCleanValue : Value → Type 0
IsCleanValue (text_value us) = IsClean us
IsCleanValue (number_value n) = Unit
IsCleanValue (boolean_value b) = Unit
IsCleanValue other_value = ⊥

pub record IsCleanField (f : Field) : Type 0 where
  pub allowed : includes allowed_log_fields f.key ≡ true
  pub clean : IsCleanValue f.value

-- The event, the moment and the service, then fields of allowed names with clean values.
pub record IsLine (service timestamp : Units) (output : List Field) : Type 0 where
  pub event : Value
  pub clean_event : IsCleanValue event
  pub others : List Field
  pub clean_others : All IsCleanField others
  pub fields :
      output
      ≡ record { key = "event"; value = event }
        ∷ record { key = "timestamp"; value = text_value timestamp }
        ∷ record { key = "service"; value = text_value (sanitize_string service) }
        ∷ others

length-take : (n : ℕ) (us : Units) → length (take n us) ≤ n
length-take zero us = omega arith
length-take (suc n) [] = omega arith
length-take (suc n) (u ∷ us) = omega (arith, length-take n us)

filter-All : (p : ℕ → Bool) (us : Units) → All (λ u. p u ≡ true) (filter p us)
filter-All p [] = tt
filter-All p (u ∷ us) = elim (Bool-cases (p u)) [
  | inl y ↦ rw y (y, filter-All p us)
  | inr n ↦ rw n (filter-All p us)
]

take-All :
    (p : ℕ → Bool) (n : ℕ) (us : Units)
    → All (λ u. p u ≡ true) us
    → All (λ u. p u ≡ true) (take n us)
take-All p zero us a = tt
take-All p (suc n) [] a = tt
take-All p (suc n) (u ∷ us) (h, a) = (h, take-All p n us a)

pub sanitize_string-IsClean : (us : Units) → IsClean (sanitize_string us)
unfolding sanitize_string
sanitize_string-IsClean us = record {
  short = length-take max_log_string_length (filter is_kept us);
  printable = take-All is_kept max_log_string_length (filter is_kept us) (filter-All is_kept us);
}

sanitize_value-IsCleanValue : (v w : Value) → sanitize_value v ≡ some w → IsCleanValue w
unfolding sanitize_value
sanitize_value-IsCleanValue (text_value us) w h =
    let same : text_value (sanitize_string us) ≡ w = ground (arith, h) in
    rw (← same) (sanitize_string-IsClean us)
sanitize_value-IsCleanValue (number_value n) w h =
    let same : number_value n ≡ w = ground (arith, h) in rw (← same) tt
sanitize_value-IsCleanValue (boolean_value b) w h =
    let same : boolean_value b ≡ w = ground (arith, h) in rw (← same) tt
sanitize_value-IsCleanValue other_value w h = cc

assign-All :
    (key : String) (v : Value) (fs : List Field)
    → includes allowed_log_fields key ≡ true
    → IsCleanValue v
    → All IsCleanField fs
    → All IsCleanField (assign key v fs)
unfolding assign
assign-All key v [] a c all = (record { allowed = a; clean = c }, tt)
assign-All key v (f ∷ fs) a c (g, all) = elim (Bool-cases (str_eq f.key key)) [
  | inl y ↦ rw y (record { allowed = a; clean = c }, all)
  | inr n ↦ rw n (g, assign-All key v fs a c all)
]

-- No name that is not allowed is assigned.
not_allowed :
    (name key : String)
    → includes allowed_log_fields name ≡ false
    → includes allowed_log_fields key ≡ true
    → str_eq name key ≡ false
not_allowed name key n a = elim (Bool-cases (str_eq name key)) [
  | inl y ↦
      let same = ap (includes allowed_log_fields) ((eq_iff name key).0 y) in
      absurd (ground (arith, n, a, same))
  | inr k ↦ k
]

module _ (service timestamp : Units) where
  assign-IsLine :
      (key : String) (v : Value) (output : List Field)
      → includes allowed_log_fields key ≡ true
      → IsCleanValue v
      → IsLine service timestamp output
      → IsLine service timestamp (assign key v output)
  unfolding assign
  assign-IsLine key v output a c l = elim (Bool-cases (str_eq "event" key)) [
    | inl y ↦
        let same : "event" ≡ key = (eq_iff "event" key).0 y in
        record {
          event = v;
          clean_event = c;
          others = l.others;
          clean_others = l.clean_others;
          fields = rw (l.fields, ← same) refl;
        }
    | inr n ↦ record {
      event = l.event;
      clean_event = l.clean_event;
      others = assign key v l.others;
      clean_others = assign-All key v l.others a c l.clean_others;
      fields =
          rw (l.fields, n, not_allowed "timestamp" key refl a, not_allowed "service" key refl a)
            refl;
    }
  ]

  assign_if-IsLine :
      (key : String) (o : Option Value) (output : List Field)
      → includes allowed_log_fields key ≡ true
      → ((w : Value) → o ≡ some w → IsCleanValue w)
      → IsLine service timestamp output
      → IsLine service timestamp (assign_if key o output)
  assign_if-IsLine key none output a c l = l
  assign_if-IsLine key (some v) output a c l = assign-IsLine key v output a (c v refl) l

  assign_fields-IsLine :
      (fs output : List Field)
      → IsLine service timestamp output
      → IsLine service timestamp (assign_fields fs output)
  unfolding assign_fields
  assign_fields-IsLine [] output l = l
  assign_fields-IsLine (f ∷ fs) output l = elim (Bool-cases (includes allowed_log_fields f.key)) [
    | inl y ↦ assign_fields-IsLine fs _ (
        rw y (
          assign_if-IsLine f.key (sanitize_value f.value) output y
            (sanitize_value-IsCleanValue f.value) l))
    | inr n ↦ assign_fields-IsLine fs _ (rw n l)
  ]

  with_event-IsLine :
      (o : Option Units) (output : List Field)
      → IsLine service timestamp output
      → IsLine service timestamp (with_event o output)
  with_event-IsLine none output l = l
  with_event-IsLine (some e) output l =
      assign-IsLine "event" (text_value (sanitize_string e)) output refl (sanitize_string-IsClean e)
        l

  -- Whatever fields a caller logs: the line has the event, the moment and the service that the logger
  -- was made for, in this order, and behind them only fields of allowed names; every text but the
  -- moment is at most 512 units long and without control characters.
  pub create_line-IsLine :
      (fs : List Field) → IsLine service timestamp (create_line service timestamp fs)
  unfolding create_line
  create_line-IsLine fs = with_event-IsLine (event_of (find (is_field "event") fs)) _ (
      assign_fields-IsLine fs (first_fields service timestamp) (record {
        event = text_value unknown_event;
        clean_event = record { short = ground arith; printable = ground arith };
        others = [];
        clean_others = tt;
        fields = refl;
      }))
