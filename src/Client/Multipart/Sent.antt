-- ===== src/Client/Multipart/Sent.antt =====
-- The parts of an upload make up the stream, and are not too many (client/multipart.go).
use niks.Common.{
  ℕ, zero, suc, ◌*◌, ◌≤◌, ◌<◌, String, none, some, List, [], ◌∷◌, ◌++◌, Bool, false, length, take,
  length-append, ◌≡◌, refl, ap, arith,
}
use niks.Client.Multipart.Urls.{PartUrl}
use niks.Client.Multipart.{
  multipart_part_size, max_part_size, target_max_parts, part_size_for_nar, Bytes, CompletedPart,
  etag, put_failed, Server, request_more_parts,
}

-- A stream of which each part was accepted at the part's URL: parts of one size, numbered one
-- after the other, and a shorter one at the end.
pub data Sent (server : Server) (given : List String) (size : ℕ)
    : ℕ → Bytes → List CompletedPart → Type 0 where
  sent_all : {number : ℕ} → Sent server given size number [] []
  sent_last :
      {number : ℕ} {url tag : String} {content : Bytes}
      → PartUrl server given number url
      → 0 < length content
      → length content < size
      → server.put_part url content ≡ etag tag
      → Sent server given size number content ((number, tag) ∷ [])
  sent_part :
      {number : ℕ} {url tag : String} {content rest : Bytes} {tags : List CompletedPart}
      → PartUrl server given number url
      → length content ≡ size
      → server.put_part url content ≡ etag tag
      → Sent server given size (suc number) rest tags
      → Sent server given size number (content ++ rest) ((number, tag) ∷ tags)

-- What can end an upload early, and whether that is a 404: no usable answer for more URLs, a part
-- that is not accepted, or an upload that is not completed.
pub data Refused (server : Server) (given : List String) : Bool → Type 0 where
  no_urls :
      (start num : ℕ) → request_more_parts server start num ≡ none → Refused server given false
  no_put :
      {number : ℕ} {url : String} {not_found : Bool} (content : Bytes)
      → PartUrl server given number url
      → server.put_part url content ≡ put_failed not_found
      → Refused server given not_found
  not_completed :
      {not_found : Bool} (tags : List CompletedPart)
      → server.complete tags ≡ some not_found
      → Refused server given not_found

pub part_size_for_nar-positive : (nar_size : ℕ) → 0 < part_size_for_nar nar_size
unfolding part_size_for_nar
part_size_for_nar-positive nar_size = ground arith

pub part_size_for_nar-bounds :
    (nar_size : ℕ)
    → nar_size ≤ target_max_parts * max_part_size
    → (multipart_part_size ≤ part_size_for_nar nar_size)
      × (part_size_for_nar nar_size ≤ max_part_size)
      × (nar_size ≤ target_max_parts * part_size_for_nar nar_size)
unfolding part_size_for_nar
part_size_for_nar-bounds nar_size h = (ground arith, ground arith, ground arith)

-- No more parts than it takes to hold the stream.
pub Sent-length :
    (server : Server) (given : List String) (size number n : ℕ) {stream : Bytes}
    {tags : List CompletedPart}
    → 0 < size
    → length stream ≤ n * size
    → Sent server given size number stream tags
    → length tags ≤ n
Sent-length server given size number n p h sent_all = omega arith
Sent-length server given size number zero p h (sent_last u l m e) = absurd (omega (arith, h, l))
Sent-length server given size number (suc n) p h (sent_last u l m e) = omega arith
Sent-length server given size number zero p h (sent_part {content = c} {rest = r} u l e s) =
    absurd (omega (arith, h, l, p, length-append c r))
Sent-length server given size number (suc n) p h (sent_part {content = c} {rest = r} u l e s) =
    let others : length r ≤ n * size = omega (arith, h, l, length-append c r) in
    omega (arith, Sent-length server given size (suc number) n p others s)

pub length-take : (n : ℕ) (xs : Bytes) → n ≤ length xs → length (take n xs) ≡ n
length-take zero xs h = refl
length-take (suc n) [] h = absurd (omega (arith, h))
length-take (suc n) (x ∷ xs) h = ap suc (length-take n xs (omega (arith, h)))
