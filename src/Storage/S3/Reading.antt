-- ===== src/Storage/S3/Reading.antt =====
-- A body that delivers chunks of bytes is read as their concatenation, up to the limit.
use ai_statement_analyzer.Base.{
  ℕ, suc, ◌+◌, ◌≡◌, refl, sym, ap, ◌∙◌, inl, inr, true, false, Option, none, List, [], ◌∷◌, ◌++◌,
  map, arith, if◌then◌else◌, Bool-cases, length, length-append,
}
use mathlib.Core.List.{append_assoc, append-nil}
use ai_statement_analyzer.Storage.S3.{other_read}
use ai_statement_analyzer.Failure.{Outcome, throw, ok, invalid_source_object_error, Thrown}
use ai_statement_analyzer.Storage.S3.{
  read_object_body, overlay, fill, set_at, assemble, collect, collect_web, read_web, zeros, Read,
  exceeds_limit, bytes_read, failed_read, async_iterable, byte_array, web_stream,
}

abbrev pub concat : List (List ℕ) → List ℕ
concat [] = []
concat (c ∷ cs) = c ++ concat cs

-- The chunks are set where they belong.
overlay-zeros : (c : List ℕ) (n : ℕ) → overlay c (zeros (length c + n)) ≡ c ++ zeros n
unfolding overlay
overlay-zeros [] n = let same : 0 + n ≡ n = omega arith in rw same refl
overlay-zeros (x ∷ c) n =
    let same : suc (length c) + n ≡ suc (length c + n) = omega arith in
    rw same (ap (◌∷◌ x) (overlay-zeros c n))

set_at-append :
    (before c bytes : List ℕ)
    → set_at (length before) c (before ++ bytes) ≡ before ++ overlay c bytes
unfolding set_at
set_at-append [] c bytes = refl
set_at-append (x ∷ before) c bytes = ap (◌∷◌ x) (set_at-append before c bytes)

fill-concat :
    (cs : List (List ℕ)) (before : List ℕ)
    → fill (length before) cs (before ++ zeros (length (concat cs))) ≡ before ++ concat cs
unfolding fill
fill-concat [] before = refl
fill-concat (c ∷ cs) before =
    rw
      (
        length-append c (concat cs),
        set_at-append before c (zeros (length c + length (concat cs))),
        overlay-zeros c (length (concat cs)),
        ← append_assoc before c (zeros (length (concat cs))),
        ← length-append before c,
      )
      (fill-concat cs (before ++ c) ∙ append_assoc before c (concat cs))

-- What the loop gives for chunks of bytes.
abbrev collected : ℕ → List (List ℕ) → List (List ℕ) → Outcome (ℕ × List (List ℕ))
collected total chunks cs =
    if exceeds_limit (total + length (concat cs))
    then throw invalid_source_object_error
    else ok (total + length (concat cs), chunks ++ cs)

collect-collected :
    (total : ℕ) (chunks cs : List (List ℕ))
    → exceeds_limit total ≡ false
    → collect total chunks (map bytes_read cs) ≡ collected total chunks cs
unfolding collect
collect-collected total chunks [] h =
    let same : total + length (concat []) ≡ total = omega arith in
    rw (same, h) (ap (λ x. ok (total, x)) (sym (append-nil chunks)))
collect-collected total chunks (c ∷ cs) h =
    let whole : total + length (concat (c ∷ cs)) ≡ total + length c + length (concat cs) =
      omega (arith, length-append c (concat cs)) in
    elim (Bool-cases (exceeds_limit (total + length c))) [
      | inl y ↦
          let over : exceeds_limit (total + length c + length (concat cs)) ≡ true =
            ground (arith, y) in
          rw (y, whole, over) refl
      | inr n ↦
          rw (n, whole)
            (collect-collected (total + length c) (chunks ++ (c ∷ [])) cs n
              ∙ ap
                  (λ x.
                    if exceeds_limit (total + length c + length (concat cs))
                    then throw invalid_source_object_error
                    else ok (total + length c + length (concat cs), x))
                  (append_assoc chunks (c ∷ []) cs))
    ]

-- Both loops give the same, where `cancel` does not fail.
collect_web-collect :
    (total : ℕ) (chunks : List (List ℕ)) (reads : List Read)
    → (collect_web none total chunks reads).0 ≡ collect total chunks reads
unfolding collect_web collect
collect_web-collect total chunks [] = refl
collect_web-collect total chunks (failed_read e ∷ reads) = refl
collect_web-collect total chunks (other_read ∷ reads) = refl
collect_web-collect total chunks (bytes_read c ∷ reads) =
    elim (Bool-cases (exceeds_limit (total + length c))) [
      | inl y ↦ rw y refl
      | inr n ↦ rw n (collect_web-collect (total + length c) (chunks ++ (c ∷ [])) reads)
    ]

-- The reference: the bytes, unless there are too many.
abbrev pub bounded : List ℕ → Outcome (List ℕ)
bounded bytes = if exceeds_limit (length bytes) then throw invalid_source_object_error else ok bytes

assemble-bounded : (cs : List (List ℕ)) → assemble (collected 0 [] cs) ≡ bounded (concat cs)
assemble-bounded cs =
    let same : 0 + length (concat cs) ≡ length (concat cs) = omega arith in
    rw same (elim (Bool-cases (exceeds_limit (length (concat cs)))) [
      | inl y ↦ rw y refl
      | inr n ↦ rw n (ap (λ x. ok x) (fill-concat cs []))
    ])

-- An asynchronous iterable and a web stream that deliver chunks of bytes are read alike: as an array of
-- the chunks' concatenation would be, which is refused beyond the limit.
pub read_object_body-chunks :
    (cs : List (List ℕ))
    → (read_object_body (async_iterable (map bytes_read cs))
        ≡ read_object_body (byte_array (concat cs)))
      × (read_object_body (web_stream (ok (map bytes_read cs)) none)
          ≡ read_object_body (byte_array (concat cs)))
unfolding read_object_body read_web
read_object_body-chunks cs =
    let loop = ap assemble (collect-collected 0 [] cs refl) ∙ assemble-bounded cs in
    (loop, ap assemble (collect_web-collect 0 [] (map bytes_read cs)) ∙ loop)

collect_web-cancelled :
    (cancel : Option Thrown) (total : ℕ) (chunks cs : List (List ℕ))
    → exceeds_limit total ≡ false
    → (collect_web cancel total chunks (map bytes_read cs)).1.cancelled
      ≡ exceeds_limit (total + length (concat cs))
unfolding collect_web
collect_web-cancelled cancel total chunks [] h =
    let same : total + length (concat []) ≡ total = omega arith in rw (same, h) refl
collect_web-cancelled cancel total chunks (c ∷ cs) h =
    let whole : total + length (concat (c ∷ cs)) ≡ total + length c + length (concat cs) =
      omega (arith, length-append c (concat cs)) in
    elim (Bool-cases (exceeds_limit (total + length c))) [
      | inl y ↦
          let over : exceeds_limit (total + length c + length (concat cs)) ≡ true =
            ground (arith, y) in
          rw (y, whole, over) refl
      | inr n ↦
          rw (n, whole) (collect_web-cancelled cancel (total + length c) (chunks ++ (c ∷ [])) cs n)
    ]

-- The reader of a web stream that delivers chunks of bytes is cancelled exactly where they are more
-- than the limit, and released in any case, also where `cancel` fails.
pub read_web-cancelled :
    (cancel : Option Thrown) (cs : List (List ℕ))
    → (read_web cancel (map bytes_read cs)).1
      ≡ record { cancelled = exceeds_limit (length (concat cs)); released = true }
unfolding read_web
read_web-cancelled cancel cs =
    let same : 0 + length (concat cs) ≡ length (concat cs) = omega arith in
    ap (λ b. record { cancelled = b; released = true })
      (collect_web-cancelled cancel 0 [] cs refl ∙ ap exceeds_limit same)
