-- ===== src/Storage/S3.antt =====
-- src/storage/s3-object-store.ts: the object store over the SDK's client, which is a parameter. A
-- body's stream is the finite list of what its reads give.
pub mod Reading
pub mod Objects
mod Tests
use ai_statement_analyzer.Base.{
  ℕ, zero, suc, ◌+◌, ◌-◌, ◌*◌, ◌/◌, ◌%◌, ◌≤◌, ◌<◌, min, String, ◌≡◌, refl, sym, ap, ◌∙◌, ◌≢◌, ◌↔◌,
  ◌⊎◌, inl, inr, Bool, true, false, ◌&&◌, ◌||◌, not, Option, none, some, List, [], ◌∷◌, ◌++◌, map,
  arith, str_eq, eq_iff, eq_refl, ltb, leb, ◌==◌, if◌then◌else◌, is_some, or_else, Bool-cases,
  if-both, Option-cases, length, head?, filter, all, any, find, All,
}
use ai_statement_analyzer.Failure.{thrown_primitive}
use ai_statement_analyzer.Ai.BedrockOcr.{max_statement_image_bytes}
use ai_statement_analyzer.Failure.{
  Outcome, Thrown, throw, thrown_object, ok, invalid_source_object_error, plain,
  object_not_found_error,
}
use ai_statement_analyzer.Storage.{
  StatementObjectStore, ObjectMetadata, DownloadedObject, PutUrlInput,
}
use ai_statement_analyzer.Effects.{Exec, raise, try_catch, ◌>>=◌, lift}
use ai_statement_analyzer.Ai.ToolUse.{is_text}

pub data Read : Type 0 where
  bytes_read : List ℕ → Read
  other_read : Read
  failed_read : Thrown → Read

-- What a web stream's reader was left with.
pub record Reader : Type 0 where
  pub cancelled : Bool
  pub released : Bool

-- The body: an array of bytes, an asynchronous iterable, an object with `transformToWebStream`, which
-- may fail, as `cancel` of its reader may, or anything else.
pub data Body : Type 0 where
  byte_array : List ℕ → Body
  async_iterable : List Read → Body
  web_stream : Outcome (List Read) → Option Thrown → Body
  other_body : Body

abbrev pub exceeds_limit : ℕ → Bool
exceeds_limit n = ltb max_statement_image_bytes n

-- `for await (const chunk of body)`, with the chunks so far and their length.
unfoldable pub collect : ℕ → List (List ℕ) → List Read → Outcome (ℕ × List (List ℕ))
collect total chunks [] = ok (total, chunks)
collect total chunks (failed_read e ∷ reads) = throw e
collect total chunks (other_read ∷ reads) = throw invalid_source_object_error
collect total chunks (bytes_read c ∷ reads) =
    let rest = collect (total + length c) (chunks ++ (c ∷ [])) reads in
    if exceeds_limit (total + length c) then throw invalid_source_object_error else rest

-- `await reader.cancel?.(reason)` and the error behind it.
abbrev pub cancel_with : Option Thrown → Outcome (ℕ × List (List ℕ))
cancel_with none = throw invalid_source_object_error
cancel_with (some e) = throw e

abbrev pub open_reader : Reader
open_reader = record { cancelled = false; released = false }

-- `while (true)` over the reader's reads, which end.
unfoldable pub collect_web :
    Option Thrown → ℕ → List (List ℕ) → List Read → Outcome (ℕ × List (List ℕ)) × Reader
collect_web cancel total chunks [] = (ok (total, chunks), open_reader)
collect_web cancel total chunks (failed_read e ∷ reads) = (throw e, open_reader)
collect_web cancel total chunks (other_read ∷ reads) =
    (throw invalid_source_object_error, open_reader)
collect_web cancel total chunks (bytes_read c ∷ reads) =
    let rest = collect_web cancel (total + length c) (chunks ++ (c ∷ [])) reads in
    if exceeds_limit (total + length c)
    then (cancel_with cancel, record open_reader { cancelled = true })
    else rest

-- `finally { reader.releaseLock?.() }`
unfoldable pub read_web : Option Thrown → List Read → Outcome (ℕ × List (List ℕ)) × Reader
read_web cancel reads =
    let result = collect_web cancel 0 [] reads in (result.0, record result.1 { released = true })

-- `new Uint8Array(n)`, and `bytes.set(chunk, offset)` within its length.
abbrev pub zeros : ℕ → List ℕ
zeros zero = []
zeros (suc n) = 0 ∷ zeros n

unfoldable pub overlay : List ℕ → List ℕ → List ℕ
overlay [] bytes = bytes
overlay (c ∷ chunk) [] = []
overlay (c ∷ chunk) (b ∷ bytes) = c ∷ overlay chunk bytes

unfoldable pub set_at : ℕ → List ℕ → List ℕ → List ℕ
set_at zero chunk bytes = overlay chunk bytes
set_at (suc n) chunk [] = []
set_at (suc n) chunk (b ∷ bytes) = b ∷ set_at n chunk bytes

unfoldable pub fill : ℕ → List (List ℕ) → List ℕ → List ℕ
fill offset [] bytes = bytes
fill offset (c ∷ chunks) bytes = fill (offset + length c) chunks (set_at offset c bytes)

abbrev pub assemble : Outcome (ℕ × List (List ℕ)) → Outcome (List ℕ)
assemble (throw e) = throw e
assemble (ok (total, chunks)) = ok (fill 0 chunks (zeros total))

unfoldable pub read_object_body : Body → Outcome (List ℕ)
read_object_body (byte_array bytes) =
    if exceeds_limit (length bytes) then throw invalid_source_object_error else ok bytes
read_object_body (async_iterable reads) = assemble (collect 0 [] reads)
read_object_body (web_stream (throw e) cancel) = throw e
read_object_body (web_stream (ok reads) cancel) = assemble (read_web cancel reads).0
read_object_body other_body = throw invalid_source_object_error

pub record HeadOutput : Type 0 where
  pub content_type : Option String
  pub content_length : Option ℕ

pub record GetOutput : Type 0 where
  pub head : HeadOutput
  pub open head use *
  pub body : Body

pub record S3Client (S : Type 0) : Type 0 where
  pub send_head : String → Exec S HeadOutput
  pub send_get : String → Exec S GetOutput
  pub get_signed_url : PutUrlInput → Exec S String

abbrev pub has_status : Option ℕ → ℕ → Bool
has_status none n = false
has_status (some m) n = m == n

unfoldable pub is_s3_not_found_error : Thrown → Bool
is_s3_not_found_error thrown_primitive = false
is_s3_not_found_error (thrown_object e) =
    is_text e.name "NotFound" || is_text e.name "NoSuchKey" || has_status e.http_status 404

abbrev pub metadata_of : HeadOutput → Outcome ObjectMetadata
metadata_of output = elim output.content_length [
  | none ↦ throw plain
  | some n ↦ ok (record { content_type = output.content_type; content_length = n })
]

abbrev pub with_bytes : GetOutput → ℕ → Outcome (List ℕ) → Outcome DownloadedObject
with_bytes output n (throw e) = throw e
with_bytes output n (ok bytes) =
    if not (length bytes == n)
    then throw invalid_source_object_error
    else ok (record {
      metadata = record { content_type = output.content_type; content_length = n };
      bytes = bytes;
    })

unfoldable pub read_object : GetOutput → Outcome DownloadedObject
read_object output = elim output.content_length [
  | none ↦ throw invalid_source_object_error
  | some n ↦
      if ltb n 1 || exceeds_limit n
      then throw invalid_source_object_error
      else with_bytes output n (read_object_body output.body)
]

module _ {S : Type 0} (client : S3Client S) where
  abbrev pub not_found_or : {A : Type 0} → Thrown → Exec S A
  not_found_or e = raise (if is_s3_not_found_error e then object_not_found_error else e)

  unfoldable pub head_object : String → Exec S ObjectMetadata
  head_object key =
      try_catch (client.send_head key >>= λ output. lift (metadata_of output)) not_found_or

  unfoldable pub get_object : String → Exec S DownloadedObject
  get_object key =
      try_catch (client.send_get key >>= λ output. lift (read_object output)) not_found_or

  abbrev pub s3_object_store : StatementObjectStore S
  s3_object_store = record {
    create_presigned_put_url = client.get_signed_url;
    head_object = head_object;
    get_object = get_object;
  }
