-- ===== src/Client/Multipart/Tests.antt =====
-- A small stream in one part (client/multipart.go).
use niks.Common.{◌≤◌, ◌≡◌, refl, none, some, [], ◌∷◌, true, length, arith}
use niks.Client.Multipart.{Bytes, Server, uploaded, etag, upload_multipart, part_size_for_nar}
use niks.Client.Multipart.Completes.{Completes}
use niks.Client.Multipart.Covered.{Covers, tags_of, upload_multipart-Covers}

abbrev server : Server
server = record {
  part_urls = λ start num. some ("more" ∷ [], start);
  put_part = λ url content. etag url;
  complete = λ tags. none;
  object_exists = some true;
}

abbrev stream : Bytes
stream = 1 ∷ 2 ∷ 3 ∷ []

-- Two parts, the second to a URL that is asked for.
two_parts :
    upload_multipart server ("first" ∷ []) stream 2 ≡ uploaded ((1, "first") ∷ (2, "more") ∷ [])
unfolding upload_multipart
two_parts = refl

upload_multipart-Covers_example :
    Covers server
      ("first" ∷ [])
      (part_size_for_nar 4)
      1
      stream
      (upload_multipart server ("first" ∷ []) stream (part_size_for_nar 4))
    × Completes server (upload_multipart server ("first" ∷ []) stream (part_size_for_nar 4))
    × (length (tags_of (upload_multipart server ("first" ∷ []) stream (part_size_for_nar 4)))
        ≤ 10000)
upload_multipart-Covers_example =
    upload_multipart-Covers server 4 ("first" ∷ []) stream (omega arith) (omega arith)
