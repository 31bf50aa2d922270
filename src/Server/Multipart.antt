-- ===== src/Server/Multipart.antt =====
-- Multipart uploads and their parts (server/pending_multipart.go, and of server/uploads.go the
-- requests for parts). S3 and its rate limiter are a service; statements of the database succeed.
pub mod Urls
pub mod Parts
use Prim.Native.Char.{code}
use niks.Common.{
  ℕ, zero, suc, ◌+◌, ◌-◌, ◌*◌, ◌/◌, ◌%◌, ◌^◌, String, Option, none, some, List, [], ◌∷◌, ◌++◌, map,
  Bool, true, false, not, ◌&&◌, ◌||◌, if◌then◌else◌, ltb, leb, ◌==◌, string_eq, nat_eq, list_eq,
  filterb, length, is_none, contains,
}
use niks.Common.Table.{lookup}
use niks.Server.Db.{Object, PendingObject, PendingClosure, Db, is_pending, is_live}
use niks.Server.Push.{find_pending, register_completed_object}
use niks.Server.Keys.{bytes, is_valid_upload_key}

abbrev pub multipart_part_size : ℕ
multipart_part_size = 10 * 1024 * 1024

unfoldable pub use_simple_upload : ℕ → Bool
use_simple_upload nar_size = ltb 0 nar_size && leb nar_size multipart_part_size

-- 20 % more parts, between 2 and 100. Sums of `uint64` wrap.
abbrev pub with_buffer : ℕ → ℕ
with_buffer parts = (parts + parts / 5) % 2 ^ 64

abbrev pub clamped : ℕ → ℕ
clamped parts = if ltb 100 parts then 100 else if ltb parts 2 then 2 else parts

unfoldable pub estimate_parts_needed : ℕ → ℕ
estimate_parts_needed nar_size =
    if nar_size == 0
    then 10
    else clamped
        (with_buffer (((nar_size + multipart_part_size - 1) % 2 ^ 64) / multipart_part_size))

-- A row of `multipart_uploads`.
pub record MultipartUpload : Type 0 where
  pub pending_closure_id : ℕ
  pub object_key : String
  pub upload_id : String

pub record CompletedPart : Type 0 where
  pub part_number : ℕ
  pub etag : String

-- Answers of S3 for an object, and for an upload that is aborted.
pub data Stat : Type 0 where
  found no_such_key stat_failed : Stat

pub data Abort : Type 0 where
  aborted no_such_upload abort_failed : Abort

-- A request that fails does so because S3 throttles it, or for another reason.
pub data Answer {ℓ} (A : Type ℓ) : Type ℓ where
  success : A → Answer A
  throttled : Answer A
  broken : Answer A

-- The bucket, with the rate limiter before it: each request changes its state. Waiting for the
-- limiter fails when the request is cancelled.
pub record Bucket (S : Type 0) : Type 0 where
  pub wait : S → Bool × S
  pub stat_object : String → S → Stat × S
  pub new_upload : String → S → Answer String × S
  pub presign_put : String → S → Answer String × S
  pub complete_upload : String → String → List CompletedPart → S → Answer (Unit {0}) × S
  pub abort_upload : String → String → S → Abort × S
  pub presign : String → String → ℕ → S → Answer String × S

-- The tables and the bucket.
pub record World (S : Type 0) : Type 0 where
  pub db : Db
  pub uploads : List MultipartUpload
  pub bucket : S

-- The status of a response, or its contents.
pub data Response {ℓ} (A : Type ℓ) : Type ℓ where
  refused : ℕ → Response A
  answered : A → Response A

-- `GetMultipartUpload`.
unfoldable pub find_upload : String → String → List MultipartUpload → Option MultipartUpload
find_upload key id [] = none
find_upload key id (u ∷ us) =
    let rest = find_upload key id us in
    if u.upload_id == id && u.object_key == key then some u else rest

unfoldable pub get_valid_multipart_upload :
    String → String → List MultipartUpload → Response MultipartUpload
unfolding find_upload is_valid_upload_key
get_valid_multipart_upload key id us =
    let row = find_upload key id us in
    if key == ""
    then refused 400
    else if not (is_valid_upload_key (bytes key) "nar")
    then refused 400
    else if id == ""
    then refused 400
    else elim row [ none ↦ refused 404 | some u ↦ answered u ]

-- A number as a two's complement `int`.
abbrev pub is_negative : ℕ → Bool
is_negative n = leb (2 ^ 63) n

-- `a > b` for a small constant `b`.
abbrev pub exceeds : ℕ → ℕ → Bool
exceeds a b = not (is_negative a) && ltb b a

abbrev pub not_positive : ℕ → Bool
not_positive a = is_negative a || a == 0

abbrev pub with_url : String → Answer (List String) → Answer (List String)
with_url url (success urls) = success (url ∷ urls)
with_url url throttled = throttled
with_url url broken = broken

module _ {S : Type 0} (s3 : Bucket S) where
  -- `generatePartURLs`, from a part number on. Part numbers wrap.
  unfoldable pub generate_part_urls : String → String → ℕ → ℕ → S → Answer (List String) × S
  generate_part_urls key id start zero b = (success [], b)
  generate_part_urls key id start (suc n) b =
      let (go, b') = s3.wait b in
      let (answer, b'') = s3.presign key id start b' in
      let (rest, end) = generate_part_urls key id ((start + 1) % 2 ^ 64) n b'' in
      if go
      then (elim answer [
        | success url ↦ (with_url url rest, end)
        | throttled ↦ (throttled, b'')
        | broken ↦ (broken, b'')
      ])
      else (broken, b')

  -- `RequestMorePartsHandler`, on two's complement numbers.
  unfoldable pub request_more_parts :
      String → String → ℕ → ℕ → World S → Response (List String) × World S
  unfolding get_valid_multipart_upload generate_part_urls
  request_more_parts key id start num w =
      let (answer, b) = generate_part_urls key id start num w.bucket in
      if not_positive start
      then (refused 400, w)
      else if not_positive num || exceeds num 1000
      then (refused 400, w)
      else if exceeds ((start + num + (2 ^ 64 - 1)) % 2 ^ 64) 10000
      then (refused 400, w)
      else (elim (get_valid_multipart_upload key id w.uploads) [
        | refused status ↦ (refused status, w)
        | answered u ↦ (
          elim answer [
            | success urls ↦ answered urls
            | throttled ↦ refused 429
            | broken ↦ refused 500
          ],
          record w { bucket = b },
        )
      ])

  -- The end of `createMultipartUpload`: the upload's row is stored, and its URLs are handed out if
  -- all could be made.
  abbrev pub handed_out :
      ℕ
      → String
      → World S
      → String
      → Answer (List String)
      → S
      → S
      → Answer (String × List String) × World S
  handed_out closure key w id urls b dropped = elim urls [
    | success us ↦ (success (id, us), record w { uploads = row ∷ w.uploads; bucket = b })
    | throttled ↦ (throttled, record w { uploads = row ∷ w.uploads; bucket = dropped })
    | broken ↦ (broken, record w { uploads = row ∷ w.uploads; bucket = dropped })
  ]
    where
      row : MultipartUpload
      row = record { pending_closure_id = closure; object_key = key; upload_id = id }

  -- `createMultipartUpload`; a failed abort of an upload that is not handed out is only logged.
  unfoldable pub create_multipart_upload :
      ℕ → String → ℕ → World S → Answer (String × List String) × World S
  unfolding estimate_parts_needed generate_part_urls
  create_multipart_upload closure key nar_size w =
      let (go, b) = s3.wait w.bucket in
      let (created, b') = s3.new_upload key b in
      if go
      then (elim created [
        | success id ↦
            let (urls, b'') = generate_part_urls key id 1 (estimate_parts_needed nar_size) b' in
            handed_out closure key w id urls b'' (s3.abort_upload key id b'').1
        | throttled ↦ (throttled, record w { bucket = b' })
        | broken ↦ (broken, record w { bucket = b' })
      ])
      else (broken, record w { bucket = b })
