-- ===== src/Storage/S3/Objects.antt =====
-- What the store gives: images within the limit, as long as the object says.
use ai_statement_analyzer.Base.{
  ℕ, ◌≤◌, String, ◌≡◌, inl, inr, false, ◌||◌, List, arith, ltb, ◌==◌, Bool-cases, Option-cases,
  length,
}
use ai_statement_analyzer.Storage.{DownloadedObject}
use ai_statement_analyzer.Storage.S3.{
  read_object, GetOutput, S3Client, exceeds_limit, get_object, read_object_body, with_bytes,
}
use ai_statement_analyzer.Failure.{Outcome, ok, Thrown, throw}
use ai_statement_analyzer.Ai.BedrockOcr.{max_statement_image_bytes}
use ai_statement_analyzer.Effects.{recover, raise}
use ai_statement_analyzer.Effects.Laws.{bind-ok}

-- An object of between one byte and the limit, with as many bytes as it says.
pub record IsImage (o : DownloadedObject) : Type 0 where
  pub has_bytes : 1 ≤ o.content_length
  pub is_bounded : o.content_length ≤ max_statement_image_bytes
  pub is_whole : length o.bytes ≡ o.content_length

with_bytes-IsImage :
    (output : GetOutput) (n : ℕ) (r : Outcome (List ℕ)) (o : DownloadedObject)
    → (ltb n 1 || exceeds_limit n) ≡ false
    → with_bytes output n r ≡ ok o
    → IsImage o
with_bytes-IsImage output n (throw e) o b h = cc
with_bytes-IsImage output n (ok bytes) o b h = elim (Bool-cases (length bytes == n)) [
  | inl y ↦
      let downloaded : DownloadedObject = record {
        metadata = record { content_type = output.content_type; content_length = n };
        bytes = bytes;
      } in
      let same : downloaded ≡ o = ground (arith, rw y at h) in
      rw (← same) (record {
        has_bytes = ground (arith, b);
        is_bounded = ground (arith, b);
        is_whole = ground (arith, y);
      })
  | inr k ↦ absurd (ground (arith, rw k at h))
]

read_object-IsImage :
    (output : GetOutput) (o : DownloadedObject) → read_object output ≡ ok o → IsImage o
unfolding read_object
read_object-IsImage output o h = elim (Option-cases output.content_length) [
  | inl e ↦ absurd (ground (arith, rw e at h))
  | inr (n, e) ↦ elim (Bool-cases (ltb n 1 || exceeds_limit n)) [
    | inl y ↦ absurd (ground (arith, rw (e, y) at h))
    | inr b ↦ with_bytes-IsImage output n (read_object_body output.body) o b (rw (e, b) at h)
  ]
]

recover-ok :
    {S A : Type 0} (o : Outcome A) (s : S) (f : Thrown → Thrown) (a : A)
    → (recover o s (λ e. raise (f e))).0 ≡ ok a
    → o ≡ ok a
recover-ok (ok b) s f a h = h
recover-ok (throw e) s f a h = cc

module _ {S : Type 0} (client : S3Client S) where
  -- Whatever the client and the body's stream give: an object that is downloaded has between one byte
  -- and ten mebibytes, and exactly as many bytes as its length says.
  pub get_object-IsImage :
      (key : String) (s : S) (o : DownloadedObject) → (get_object client key s).0 ≡ ok o → IsImage o
  unfolding get_object
  get_object-IsImage key s o h =
      let sent = bind-ok (client.send_get key) _ s (recover-ok _ _ _ o h) in
      read_object-IsImage sent.value o sent.rest
