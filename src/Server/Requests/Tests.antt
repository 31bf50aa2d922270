-- ===== src/Server/Requests/Tests.antt =====
-- A push of one narinfo (server/pushes.go).
use niks.Common.{
  ℕ, suc, String, none, List, [], ◌∷◌, true, false, anyb, contains, string_eq, ◌≡◌, refl,
}
use niks.Common.Table.{Table, keys}
use niks.Server.Db.{empty_db}
use niks.Server.Push.{ObjectWithRefs}
use niks.Server.Push as Push
use niks.Server.Keys.{narinfo_re, nix_base32}
use niks.Server.Multipart.{Bucket, World, found, aborted, success}
use niks.Server.Requests.{Offer, presigned_url, created, create_push}
use niks.Server.Requests.Declared.{is_declared, create_push-declared}

abbrev bucket : Bucket ℕ
bucket = record {
  wait = λ n. (true, n);
  stat_object = λ key n. (found, suc n);
  new_upload = λ key n. (success "u1", suc n);
  presign_put = λ key n. (success "url", suc n);
  complete_upload = λ key id parts n. (success tt, suc n);
  abort_upload = λ key id n. (aborted, suc n);
  presign = λ key id part n. (success "url", suc n);
}

abbrev root : String
root = "0123456789abcdfghijklmnpqrsvwxyz.narinfo"

abbrev objects : List ObjectWithRefs
objects = record { key = root; kind = "narinfo"; refs = []; nar_size = none } ∷ []

abbrev world : World ℕ
world = record { db = empty_db; uploads = []; bucket = 0 }

abbrev offers : Table String Offer
offers = (root, presigned_url "narinfo" "url") ∷ []

pushed :
    (create_push bucket 0 (λ k. Push.found) (root ∷ []) objects false 0 world).0 ≡ created 1 offers
unfolding create_push narinfo_re nix_base32
pushed = refl

offered : contains (keys offers) root ≡ true
unfolding contains
offered = refl

create_push-declared_example : anyb (is_declared root) objects ≡ true
create_push-declared_example =
    create_push-declared bucket 0 (λ k. Push.found) (root ∷ []) objects false 0 world 1 offers root
      pushed offered
