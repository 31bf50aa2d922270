-- ===== src/Server/Multipart/Parts.antt =====
-- How many parts are offered, and which (server/pending_multipart.go, server/uploads.go).
use niks.Common.{
  ℕ, ◌+◌, ◌%◌, ◌^◌, ◌≤◌, ◌<◌, String, some, List, ◌∷◌, Bool, true, false, ◌≡◌, ◌||◌, ◌-◌,
  if◌then◌else◌, subst, refl, ap, arith, length, nat_eq, string_eq,
}
use niks.Server.Keys.{bytes, is_valid_upload_key}
use niks.Server.Multipart.Urls.{
  Counted, Presigned, InOrder, generate_part_urls-Counted, generate_part_urls-InOrder,
}
use niks.Server.Multipart.{
  MultipartUpload, Bucket, World, Response, refused, answered, Answer, success, throttled, broken,
  estimate_parts_needed, find_upload, get_valid_multipart_upload, generate_part_urls,
  request_more_parts, create_multipart_upload, not_positive, exceeds, handed_out,
}

estimate_parts_needed-bounds :
    (nar_size : ℕ) → (2 ≤ estimate_parts_needed nar_size) × (estimate_parts_needed nar_size ≤ 100)
unfolding estimate_parts_needed
estimate_parts_needed-bounds nar_size = (ground arith, ground arith)

pub get_valid_multipart_upload-found :
    (key id : String) (us : List MultipartUpload) (u : MultipartUpload)
    → get_valid_multipart_upload key id us ≡ answered u
    → (find_upload key id us ≡ some u) × (is_valid_upload_key (bytes key) "nar" ≡ true)
unfolding get_valid_multipart_upload
get_valid_multipart_upload-found key id us u e = ground (arith, e)

small : (n : ℕ) → n < 2 ^ 63 → exceeds n 10000 ≡ false → n ≤ 10000
small n h e = ground arith

last_part :
    (start num : ℕ)
    → start + num ≤ 2 ^ 63
    → not_positive start ≡ false
    → exceeds ((start + num + (2 ^ 64 - 1)) % 2 ^ 64) 10000 ≡ false
    → start + num ≤ 10001
last_part start num h a e =
    let first : 1 ≤ start = ground (arith, a) in
    let end = small ((start + num + (2 ^ 64 - 1)) % 2 ^ 64) (omega (arith, h, first)) e in
    omega (arith, h, first, end)

module _ {S : Type 0} (s3 : Bucket S) where
  -- A request that passes the three checks, names a tracked upload and is answered.
  checked :
      (a b c : Bool) (v : Response MultipartUpload) (r : Answer (List String)) (w : World S)
      (b' : S) (urls : List String)
      → let handled : Response (List String) × World S =
          if a
          then (refused 400, w)
          else if b
          then (refused 400, w)
          else if c
          then (refused 400, w)
          else (elim v [
            | refused status ↦ (refused status, w)
            | answered u ↦ (
              elim r [
                | success urls ↦ answered urls
                | throttled ↦ refused 429
                | broken ↦ refused 500
              ],
              record w { bucket = b' },
            )
          ]) in
        handled.0 ≡ answered urls
        → (a ≡ false)
          × (b ≡ false)
          × (c ≡ false)
          × ((u : MultipartUpload) × (v ≡ answered u))
          × (r ≡ success urls)
  checked true b c v r w b' urls e = cc
  checked false true c v r w b' urls e = cc
  checked false false true v r w b' urls e = cc
  checked false false false (refused status) r w b' urls e = cc
  checked false false false (answered u) (success us) w b' urls e =
      (refl, refl, refl, (u, refl), cc)
  checked false false false (answered u) throttled w b' urls e = cc
  checked false false false (answered u) broken w b' urls e = cc

  -- If the numbers of a request do not overflow, then a request that is answered asks for 1 to 1000
  -- parts, all of them numbered from 1 to 10000, of an upload of a NAR for which there is a row with
  -- this key and upload id, and gets one URL for each, the URLs that S3 signed for these numbers.
  pub request_more_parts-bounds :
      (key id : String) (start num : ℕ) (w : World S) (urls : List String)
      → start + num ≤ 2 ^ 63
      → (request_more_parts s3 key id start num w).0 ≡ answered urls
      → (1 ≤ start)
        × (1 ≤ num)
        × (num ≤ 1000)
        × (start + num ≤ 10001)
        × (length urls ≡ num)
        × (is_valid_upload_key (bytes key) "nar" ≡ true)
        × ((u : MultipartUpload) × (find_upload key id w.uploads ≡ some u))
        × Presigned s3 key id start urls
  unfolding request_more_parts
  request_more_parts-bounds key id start num w urls h e =
      let (a, b, c, (u, v), r) =
        checked (not_positive start) (not_positive num || exceeds num 1000)
          (exceeds ((start + num + (2 ^ 64 - 1)) % 2 ^ 64) 10000)
          (get_valid_multipart_upload key id w.uploads)
          (generate_part_urls s3 key id start num w.bucket).0 w _ urls e in
      (
        ground (arith, a),
        ground (arith, b),
        ground (arith, b),
        last_part start num h a c,
        subst (Counted num) r (generate_part_urls-Counted s3 key id start num w.bucket),
        (get_valid_multipart_upload-found key id w.uploads u v).1,
        (u, (get_valid_multipart_upload-found key id w.uploads u v).0),
        subst (InOrder s3 key id start) r
            (generate_part_urls-InOrder s3 key id start num w.bucket (omega (arith, h))),
      )

  module _ (closure : ℕ) (key : String) (w : World S) where
    abbrev row : String → MultipartUpload
    row id = record { pending_closure_id = closure; object_key = key; upload_id = id }

    handed_out-row :
        (made id : String) (a : Answer (List String)) (b b' : S) (n : ℕ) (urls : List String)
        → Counted n a
        → (handed_out s3 closure key w made a b b').0 ≡ success (id, urls)
        → ((handed_out s3 closure key w made a b b').1.uploads ≡ row id ∷ w.uploads)
          × (length urls ≡ n)
    handed_out-row made id (success us) b b' n urls c e =
        let same : made ≡ id = cc in
        let all : us ≡ urls = cc in
        (ap (λ i. row i ∷ w.uploads) same, subst (λ (x : List String). length x ≡ n) all c)
    handed_out-row made id throttled b b' n urls c e = cc
    handed_out-row made id broken b b' n urls c e = cc

    -- An upload that is handed out has its row, and as many URLs as estimated, between 2 and 100.
    pub create_multipart_upload-tracked :
        (nar_size : ℕ) (id : String) (urls : List String)
        → (create_multipart_upload s3 closure key nar_size w).0 ≡ success (id, urls)
        → ((create_multipart_upload s3 closure key nar_size w).1.uploads ≡ row id ∷ w.uploads)
          × (length urls ≡ estimate_parts_needed nar_size)
          × (2 ≤ length urls)
          × (length urls ≤ 100)
    unfolding create_multipart_upload
    create_multipart_upload-tracked nar_size id urls e =
        let (stored, counted) =
          by_created (s3.wait w.bucket).0 created.0 part_urls
            (λ i. (s3.abort_upload key i (part_urls i).1).1) (s3.wait w.bucket).1 created.1
            (λ i. generate_part_urls-Counted s3 key i 1 (estimate_parts_needed nar_size) created.1)
            e in
        let (low, high) = estimate_parts_needed-bounds nar_size in
        (stored, counted, omega (arith, counted, low), omega (arith, counted, high))
      where
        created : Answer String × S
        created = s3.new_upload key (s3.wait w.bucket).1

        part_urls : String → Answer (List String) × S
        part_urls i = generate_part_urls s3 key i 1 (estimate_parts_needed nar_size) created.1

        by_created :
            (go : Bool) (made : Answer String) (f : String → Answer (List String) × S)
            (g : String → S) (b b' : S)
            → ((i : String) → Counted (estimate_parts_needed nar_size) (f i).0)
            → let r : Answer (String × List String) × World S =
                if go
                then (elim made [
                  | success i ↦ handed_out s3 closure key w i (f i).0 (f i).1 (g i)
                  | throttled ↦ (throttled, record w { bucket = b' })
                  | broken ↦ (broken, record w { bucket = b' })
                ])
                else (broken, record w { bucket = b }) in
              r.0 ≡ success (id, urls)
              → (r.1.uploads ≡ row id ∷ w.uploads) × (length urls ≡ estimate_parts_needed nar_size)
        by_created false made f g b b' c e = cc
        by_created true throttled f g b b' c e = cc
        by_created true broken f g b b' c e = cc
        by_created true (success i) f g b b' c e =
            handed_out-row i id (f i).0 (f i).1 (g i) (estimate_parts_needed nar_size) urls (c i) e
