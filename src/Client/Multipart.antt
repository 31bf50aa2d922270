-- ===== src/Client/Multipart.antt =====
-- Uploading a compressed NAR in parts (client/multipart.go). The server and S3 are parameters. The
-- parts are taken in the order of their numbers, which is the order in which they are completed.
pub mod Urls
pub mod Completes
pub mod Sent
pub mod Covered
mod Tests
use niks.Common.{
  ℕ, zero, suc, ◌+◌, ◌-◌, ◌*◌, ◌/◌, ◌%◌, ◌^◌, String, Option, none, some, List, [], ◌∷◌, Bool, true,
  false, ◌&&◌, if◌then◌else◌, ltb, leb, ◌==◌, string_eq, nat_eq, contains, length, take, drop,
}

abbrev pub multipart_part_size : ℕ
multipart_part_size = 10 * 1024 * 1024

abbrev pub max_part_size : ℕ
max_part_size = 5 * 1024 * 1024 * 1024

abbrev pub target_max_parts : ℕ
target_max_parts = 9000

abbrev step : ℕ
step = 16 * 1024 * 1024

abbrev rounded_up : ℕ → ℕ
rounded_up size = (size + step - 1) % 2 ^ 64 / step * step % 2 ^ 64

-- Sums and products of `uint64` wrap.
unfoldable pub part_size_for_nar : ℕ → ℕ
part_size_for_nar nar_size =
    let size = (nar_size + target_max_parts - 1) % 2 ^ 64 / target_max_parts in
    if leb size multipart_part_size
    then multipart_part_size
    else if ltb max_part_size (rounded_up size)
    then max_part_size
    else rounded_up size

abbrev pub Bytes : Type 0
Bytes = List ℕ

-- `CompletedPart`: a part's number and ETag.
abbrev pub CompletedPart : Type 0
CompletedPart = ℕ × String

pub data Put : Type 0 where
  etag : String → Put
  -- Whether the status was 404.
  put_failed : Bool → Put

-- The server's answers to this upload: more URLs from a part on, with the number that they start
-- at; whether the upload could be completed; and whether the object is there.
pub record Server : Type 0 where
  pub part_urls : ℕ → ℕ → Option (List String × ℕ)
  pub put_part : String → Bytes → Put
  pub complete : List CompletedPart → Option Bool
  pub object_exists : Option Bool

pub data Upload : Type 0 where
  uploaded : List CompletedPart → Upload
  superseded : Upload
  failed : Upload
  out_of_fuel : Upload

module _ (server : Server) where
  -- `RequestMoreParts`, with its three checks of the answer: the first URL and the others.
  unfoldable pub request_more_parts : ℕ → ℕ → Option (String × List String)
  unfolding contains
  request_more_parts start num = elim (server.part_urls start num) [
    | none ↦ none
    | some (urls, answered) ↦ elim urls [
      | [] ↦ none
      | u ∷ us ↦
          if answered == start then (if contains (u ∷ us) "" then none else some (u, us)) else none
    ]
  ]

  -- The URL of the next part, of those at hand or of 100 more.
  unfoldable pub next_url : ℕ → List String → Option (String × List String)
  unfolding request_more_parts
  next_url number [] = request_more_parts number 100
  next_url number (u ∷ us) = some (u, us)

  -- A 404 is taken for a success if the object is there.
  unfoldable pub superseded_by_peer : Bool → Upload
  superseded_by_peer not_found = elim server.object_exists [
    | none ↦ failed
    | some there ↦ if not_found && there then superseded else failed
  ]

  -- The part before the rest of the upload. A part that is not accepted ends it.
  abbrev pub after_part : ℕ → Put → Upload → Upload
  after_part number (put_failed not_found) rest = superseded_by_peer not_found
  after_part number (etag tag) (uploaded tags) = uploaded ((number, tag) ∷ tags)
  after_part number (etag tag) superseded = superseded
  after_part number (etag tag) failed = failed
  after_part number (etag tag) out_of_fuel = out_of_fuel

  -- The loop of `uploadMultipart`: a part of `size` bytes at a time, the last one shorter.
  unfoldable pub upload_parts : ℕ → ℕ → List String → ℕ → Bytes → Upload
  unfolding next_url superseded_by_peer
  upload_parts zero size urls number stream = out_of_fuel
  upload_parts (suc fuel) size urls number stream = elim (next_url number urls) [
    | none ↦ failed
    | some (url, urls') ↦
        let rest = upload_parts fuel size urls' (suc number) (drop size stream) in
        elim stream [
          | [] ↦ uploaded []
          | b ∷ bs ↦
              if ltb (length (b ∷ bs)) size
              then after_part number (server.put_part url (b ∷ bs)) (uploaded [])
              else after_part number (server.put_part url (take size (b ∷ bs))) rest
        ]
  ]

  -- `complete` says whether a failure was a 404.
  abbrev pub completed : Upload → Upload
  completed (uploaded tags) = elim (server.complete tags) [
    | none ↦ uploaded tags
    | some not_found ↦ superseded_by_peer not_found
  ]
  completed superseded = superseded
  completed failed = failed
  completed out_of_fuel = out_of_fuel

  -- `uploadMultipart`; each part takes a byte or more off the stream.
  unfoldable pub upload_multipart : List String → Bytes → ℕ → Upload
  unfolding upload_parts superseded_by_peer
  upload_multipart urls stream size =
      completed (upload_parts (suc (length stream)) size urls 1 stream)
