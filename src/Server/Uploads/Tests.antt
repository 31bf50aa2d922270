-- ===== src/Server/Uploads/Tests.antt =====
-- A NAR that two pushes upload in parts, with a bucket that counts its requests.
use niks.Common.{
  ℕ, suc, ◌+◌, ◌-◌, ◌≤◌, ◌^◌, String, none, some, List, [], ◌∷◌, true, not, ◌&&◌, anyb, length,
  string_eq, ◌≡◌, refl, arith,
}
use niks.Server.Db.{empty_db, PendingClosure}
use niks.Server.Keys.{
  bytes, is_valid_upload_key, is_valid_cache_path, is_server_owned, nar_re, nix_base32,
}
use niks.Server.Keys.Owned.{object_types, upload_keys-cache_paths}
use niks.Server.Multipart.{
  MultipartUpload, CompletedPart, Bucket, World, found, aborted, answered, success,
  request_more_parts, find_upload,
}
use niks.Server.Uploads.{complete_multipart_upload}
use niks.Server.Multipart.Urls.{Presigned}
use niks.Server.Multipart.Parts.{request_more_parts-bounds}
use niks.Server.Uploads.Completed.{Completes, complete_multipart_upload-Completes}

abbrev bucket : Bucket ℕ
bucket = record {
  wait = λ n. (true, n);
  stat_object = λ key n. (found, suc n);
  new_upload = λ key n. (success "u3", suc n);
  presign_put = λ key n. (success "url", suc n);
  complete_upload = λ key id parts n. (success tt, suc n);
  abort_upload = λ key id n. (aborted, suc n);
  presign = λ key id part n. (success "url", suc n);
}

abbrev key : String
key = "nar/0123456789abcdfghijklmnpqrsvwxyz0123456789abcdfghijk.nar.zst"

abbrev upload : ℕ → String → MultipartUpload
upload closure id = record { pending_closure_id = closure; object_key = key; upload_id = id }

abbrev closure : ℕ → PendingClosure
closure id = record {
  id = id;
  key = "a.narinfo";
  roots = none;
  started_at = 0;
  objects = record { key = key; refs = []; size = some 7 } ∷ [];
}

abbrev world : World ℕ
world = record {
  db = record empty_db { pending_closures = closure 1 ∷ closure 2 ∷ []; next_id = 3 };
  uploads = upload 1 "u1" ∷ upload 2 "u2" ∷ [];
  bucket = 0;
}

upload_keys-cache_paths_example :
    anyb (is_valid_upload_key (bytes key)) object_types
    ≡ (is_valid_cache_path (bytes key) && not (is_server_owned (bytes key)))
upload_keys-cache_paths_example = upload_keys-cache_paths (bytes key)

abbrev two_urls : List String
two_urls = "url" ∷ "url" ∷ []

-- The first URLs end at part 10; two more are asked for.
more_parts : (request_more_parts bucket key "u1" 11 2 world).0 ≡ answered two_urls
unfolding request_more_parts nar_re nix_base32
more_parts = refl

request_more_parts-bounds_example :
    (1 ≤ 11)
    × (1 ≤ 2)
    × (2 ≤ 1000)
    × (11 + 2 ≤ 10001)
    × (length two_urls ≡ 2)
    × (is_valid_upload_key (bytes key) "nar" ≡ true)
    × ((u : MultipartUpload) × (find_upload key "u1" world.uploads ≡ some u))
    × Presigned bucket key "u1" 11 two_urls
request_more_parts-bounds_example =
    request_more_parts-bounds bucket key "u1" 11 2 world two_urls (omega arith) more_parts

-- The end of the requested range wraps to a negative number, and passes the check against 10000.
wrapped_parts : (request_more_parts bucket key "u1" (2 ^ 63 - 1) 2 world).0 ≡ answered two_urls
unfolding request_more_parts nar_re nix_base32
wrapped_parts = refl

abbrev one_part : List CompletedPart
one_part = record { part_number = 1; etag = "e" } ∷ []

complete_multipart_upload-Completes_example :
    Completes bucket key "u1" world (complete_multipart_upload bucket key "u1" one_part world)
complete_multipart_upload-Completes_example =
    complete_multipart_upload-Completes bucket key "u1" one_part world
