-- ===== src/Client/Multipart/Covered.antt =====
-- Every end that an upload can come to (client/multipart.go).
use niks.Common.{
  ℕ, zero, suc, ◌+◌, ◌*◌, ◌/◌, ◌≤◌, ◌<◌, String, Option, none, some, List, [], ◌∷◌, ◌++◌, Bool,
  true, false, if◌then◌else◌, ltb, length, take, drop, take-append-drop, length-append, ◌&&◌, ◌≡◌,
  refl, ap, subst, arith, Bool-cases, inl, inr,
}
use niks.Client.Multipart.{
  multipart_part_size, max_part_size, target_max_parts, part_size_for_nar, Bytes, CompletedPart,
  Put, etag, put_failed, Server, Upload, uploaded, superseded, failed, out_of_fuel, next_url,
  superseded_by_peer, after_part, upload_parts, completed, upload_multipart,
}
use niks.Client.Multipart.Urls.{PartUrl, Serves, given-Serves, next_url-Serves}
use niks.Client.Multipart.Completes.{Completes, completed-Completes}
use niks.Client.Multipart.Sent.{
  Sent, sent_all, sent_last, sent_part, Refused, no_urls, no_put, not_completed,
  part_size_for_nar-bounds, part_size_for_nar-positive, Sent-length, length-take,
}

module _ (server : Server) (given : List String) (size : ℕ) where
  -- An upload that ends well has sent its stream, and no upload goes on for ever.
  abbrev pub Covers : ℕ → Bytes → Upload → Type 0
  Covers number stream (uploaded tags) = Sent server given size number stream tags
  Covers number stream superseded = (server.object_exists ≡ some true) × Refused server given true
  Covers number stream failed = (not_found : Bool) × Refused server given not_found
  Covers number stream out_of_fuel = ⊥

  superseded_by_peer-Covers :
      (number : ℕ) (stream : Bytes) (not_found : Bool)
      → Refused server given not_found
      → Covers number stream (superseded_by_peer server not_found)
  unfolding superseded_by_peer
  superseded_by_peer-Covers number stream not_found f =
      by_answer server.object_exists not_found refl f
    where
      by_answer :
          (o : Option Bool) (not_found : Bool)
          → server.object_exists ≡ o
          → Refused server given not_found
          → Covers number stream (elim o [
            | none ↦ failed
            | some there ↦ if not_found && there then superseded else failed
          ])
      by_answer none not_found e f = (not_found, f)
      by_answer (some true) true e f = (e, f)
      by_answer (some false) true e f = (true, f)
      by_answer (some there) false e f = (false, f)

  last_part-Covers :
      (number : ℕ) (url : String) (content : Bytes) (a : Put)
      → PartUrl server given number url
      → server.put_part url content ≡ a
      → 0 < length content
      → length content < size
      → Covers number content (after_part server number a (uploaded []))
  last_part-Covers number url content (put_failed not_found) u e l m =
      superseded_by_peer-Covers number content not_found (no_put content u e)
  last_part-Covers number url content (etag tag) u e l m = sent_last u l m e

  after_part-Covers :
      (number : ℕ) (url : String) (content rest : Bytes) (a : Put) (r : Upload)
      → PartUrl server given number url
      → server.put_part url content ≡ a
      → length content ≡ size
      → Covers (suc number) rest r
      → Covers number (content ++ rest) (after_part server number a r)
  after_part-Covers number url content rest (put_failed not_found) r u e l c =
      superseded_by_peer-Covers number (content ++ rest) not_found (no_put content u e)
  after_part-Covers number url content rest (etag tag) (uploaded tags) u e l c = sent_part u l e c
  after_part-Covers number url content rest (etag tag) superseded u e l c = c
  after_part-Covers number url content rest (etag tag) failed u e l c = c
  after_part-Covers number url content rest (etag tag) out_of_fuel u e l c = c

  next_url-Refused :
      (number : ℕ) (urls : List String)
      → next_url server number urls ≡ none
      → Refused server given false
  unfolding next_url
  next_url-Refused number [] e = no_urls number 100 e
  next_url-Refused number (u ∷ us) e = cc

  upload_parts-Covers :
      (fuel : ℕ) (urls : List String) (number : ℕ) (stream : Bytes)
      → 0 < size
      → Serves server given number urls
      → length stream < fuel
      → Covers number stream (upload_parts server fuel size urls number stream)
  unfolding upload_parts
  upload_parts-Covers zero urls number stream p s h = absurd (omega (arith, h))
  upload_parts-Covers (suc fuel) urls number stream p s h =
      by_url (next_url server number urls) (next_url-Refused number urls)
        (λ url urls' e. next_url-Serves server given number urls urls' url s e) stream h
        (λ urls' rest t k. upload_parts-Covers fuel urls' (suc number) rest p t k)
    where
      by_part :
          (url : String) (stream : Bytes) (rest : Upload)
          → PartUrl server given number url
          → 0 < length stream
          → (size ≤ length stream → Covers (suc number) (drop size stream) rest)
          → Covers number stream (
              if ltb (length stream) size
              then after_part server number (server.put_part url stream) (uploaded [])
              else after_part server number (server.put_part url (take size stream)) rest)
      by_part url stream rest u l c = elim (Bool-cases (ltb (length stream) size)) [
        | inl e ↦
            let short : length stream < size = ground (arith, e) in
            rw e (last_part-Covers number url stream (server.put_part url stream) u refl l short)
        | inr e ↦
            let long : size ≤ length stream = ground (arith, e) in
            let whole =
              after_part-Covers number url (take size stream) (drop size stream)
                (server.put_part url (take size stream)) rest u refl (length-take size stream long)
                (c long) in
            rw e (
              subst
                (λ (s : Bytes).
                  Covers number s
                    (after_part server number (server.put_part url (take size stream)) rest))
                (take-append-drop size stream) whole)
      ]

      by_url :
          (o : Option (String × List String))
          → (o ≡ none → Refused server given false)
          → ((url : String) (urls' : List String)
              → o ≡ some (url, urls')
              → PartUrl server given number url × Serves server given (suc number) urls')
          → (stream : Bytes) → length stream < suc fuel
          → ((urls' : List String) (rest : Bytes)
              → Serves server given (suc number) urls'
              → length rest < fuel
              → Covers (suc number) rest (upload_parts server fuel size urls' (suc number) rest))
          → Covers number stream (elim o [
            | none ↦ failed
            | some (url, urls') ↦
                let rest = upload_parts server fuel size urls' (suc number) (drop size stream) in
                elim stream [
                  | [] ↦ uploaded []
                  | b ∷ bs ↦
                      if ltb (length (b ∷ bs)) size
                      then after_part server number (server.put_part url (b ∷ bs)) (uploaded [])
                      else after_part server number (server.put_part url (take size (b ∷ bs))) rest
                ]
          ])
      by_url none f g stream h c = (false, f refl)
      by_url (some (url, urls')) f g [] h c = sent_all
      by_url (some (url, urls')) f g (b ∷ bs) h c =
          by_part url (b ∷ bs)
            (upload_parts server fuel size urls' (suc number) (drop size (b ∷ bs)))
            (g url urls' refl).0 (omega arith)
            (λ l. c urls' (drop size (b ∷ bs)) (g url urls' refl).1 (shorter l))
        where
          shorter : size ≤ length (b ∷ bs) → length (drop size (b ∷ bs)) < fuel
          shorter l =
              let whole = ap length (take-append-drop size (b ∷ bs)) in
              omega (
                arith,
                p,
                h,
                l,
                whole,
                length-append (take size (b ∷ bs)) (drop size (b ∷ bs)),
                length-take size (b ∷ bs) l,
              )

  completed-Covers :
      (stream : Bytes) (r : Upload) → Covers 1 stream r → Covers 1 stream (completed server r)
  completed-Covers stream superseded c = c
  completed-Covers stream failed c = c
  completed-Covers stream out_of_fuel c = c
  completed-Covers stream (uploaded tags) c = by_answer (server.complete tags) refl
    where
      by_answer :
          (o : Option Bool)
          → server.complete tags ≡ o
          → Covers 1 stream (elim o [
            | none ↦ uploaded tags
            | some not_found ↦ superseded_by_peer server not_found
          ])
      by_answer none e = c
      by_answer (some not_found) e =
          superseded_by_peer-Covers 1 stream not_found (not_completed tags e)

abbrev pub tags_of : Upload → List CompletedPart
tags_of (uploaded tags) = tags
tags_of superseded = []
tags_of failed = []
tags_of out_of_fuel = []

tags_of-length :
    (server : Server) (given : List String) (size : ℕ) (stream : Bytes) (r : Upload)
    → 0 < size
    → length stream ≤ 10000 * size
    → Covers server given size 1 stream r
    → length (tags_of r) ≤ 10000
tags_of-length server given size stream (uploaded tags) p h c =
    Sent-length server given size 1 10000 p h c
tags_of-length server given size stream superseded p h c = omega arith
tags_of-length server given size stream failed p h c = omega arith
tags_of-length server given size stream out_of_fuel p h c = absurd c

-- Whatever the sizes of the NAR and of the stream are.
upload-Covers :
    (server : Server) (nar_size : ℕ) (urls : List String) (stream : Bytes)
    → let r = upload_multipart server urls stream (part_size_for_nar nar_size) in
      Covers server urls (part_size_for_nar nar_size) 1 stream r × Completes server r
unfolding upload_multipart
upload-Covers server nar_size urls stream =
    let size = part_size_for_nar nar_size in
    let r = upload_parts server (suc (length stream)) size urls 1 stream in
    (
      completed-Covers server urls size stream r (
          upload_parts-Covers server urls size (suc (length stream)) urls 1 stream
            (part_size_for_nar-positive nar_size) (given-Serves server urls) (omega arith)),
      completed-Completes server r,
    )

-- For a NAR of at most 9000 parts of the largest size, and a compressed stream that is at most an
-- eighteenth and 500 parts of the default size longer than the NAR: an upload that ends well has
-- sent the stream in whole parts of the size chosen for the NAR, numbered from 1, a shorter one
-- last, each to the presigned URL of its number, and completes them with the ETags given for them,
-- in at most 10000 parts. It is given up for a peer's only if S3 or the server answers a part or the
-- completion with a 404 and the object is there, it fails only if one of them refuses something, and
-- it never runs out of fuel.
pub upload_multipart-Covers :
    (server : Server) (nar_size : ℕ) (urls : List String) (stream : Bytes)
    → nar_size ≤ target_max_parts * max_part_size
    → length stream ≤ nar_size + nar_size / 18 + 500 * multipart_part_size
    → let r = upload_multipart server urls stream (part_size_for_nar nar_size) in
      Covers server urls (part_size_for_nar nar_size) 1 stream r
      × Completes server r
      × (length (tags_of r) ≤ 10000)
upload_multipart-Covers server nar_size urls stream h k =
    let (low, _, whole) = part_size_for_nar-bounds nar_size h in
    let (covers, completes) = upload-Covers server nar_size urls stream in
    (
      covers,
      completes,
      tags_of-length server urls (part_size_for_nar nar_size) stream
          (upload_multipart server urls stream (part_size_for_nar nar_size)) (omega (arith, low))
          (omega (arith, k, low, whole)) covers,
    )
