-- ===== src/Server/Upstream/Fill/Tests.antt =====
-- A path filled from an upstream into a bucket that is a table (server/upstream.go).
use mathlib.Core.Option.{some-injective, none-ne-some}
use niks.Common.{
  Option, some, List, [], ◌∷◌, ◌++◌, Bool, true, false, if◌then◌else◌, ◌==◌, list_eq, nat_eq,
  string_eq, filterb, map, is_none, ◌≡◌, ap, refl, sym, subst, ◌∙◌, arith, inl, inr, Bool-cases,
}
use niks.Common.Table.{Table, lookup, upsert, delete_where, lookup-upsert, lookup-delete_where}
use niks.Server.Db.{empty_db}
use niks.Server.Push as Push
use niks.Server.Keys.{Key, bytes, matches, nar_re, is_valid_upload_key}
use niks.Server.Sign.{Signer}
use niks.Server.Multipart.{Bucket, World, found, no_such_key, success, aborted}
use niks.Server.Upstream.Narinfo.{UpstreamNarinfo, format, empty_narinfo}
use niks.Server.Upstream.Fetch.{Upstream, Reply, Web, nar_key_of}
use niks.Server.Upstream.Fetch.Checked.{Trusted, Verified}
use niks.Server.Upstream.Misses.{Misses, other_way}
use niks.Server.Upstream.Fill.{narinfo_key_of, store_upstream_path, fill_from_upstream}
use niks.Server.Upstream.Fill.Registered.{Registered, store_upstream_path-Registered}
use niks.Server.Upstream.Fill.Outlasts.{Among, Outlasts}
use niks.Server.Upstream.Fill.Trusted.{fill_from_upstream-Outlasts}

abbrev Objects : Type 0
Objects = Table Key Key

abbrev hash : Key
hash = bytes "0123456789abcdfghijklmnpqrsvwxyz"

abbrev nar_hash : Key
nar_hash = bytes "sha256:0000000000000000000000000000000000000000000000000000"

abbrev info : UpstreamNarinfo
info = record empty_narinfo {
  nar_info = record {
    store_path = bytes "/nix/store/" ++ hash ++ bytes "-x";
    nar_hash = nar_hash;
    nar_size = 3;
    references = [];
  };
  url = bytes "nar/a";
  compression = bytes "none";
}

abbrev text : Key
text = bytes "1;/nix/store/0123456789abcdfghijklmnpqrsvwxyz-x;" ++ nar_hash ++ bytes ";3;"

-- An upstream that serves one path, with the scheme that repeats the text as its signature.
abbrev narinfo_reply : Reply
narinfo_reply = record {
  status = 200;
  body = format (record info { nar_key = bytes "nar/a" }) ((bytes "c:K" ++ text) ∷ []);
  broken = false;
}

abbrev get : Key → Option Reply
get url =
    if url == bytes "u/0123456789abcdfghijklmnpqrsvwxyz.narinfo"
    then some narinfo_reply
    else if url == bytes "u/nar/a"
    then some (record { status = 200; body = bytes "nar"; broken = false })
    else some (record { status = 404; body = []; broken = false })

abbrev web : Web Key Objects
web = record {
  crypto = record { decode = λ s. some s; verify = λ k t s. s == k ++ t };
  get = λ url b. (get url, b);
  parse_url = λ s. some (record { scheme = []; host = []; path = s; raw_query = [] });
  bzip2 = λ s. record { out = s; failed = false };
  zstd = λ s. record { out = s; failed = false };
  compress = λ s. s;
  sha256 = λ s.
      0 ∷ 0 ∷ 0 ∷ 0 ∷ 0 ∷ 0 ∷ 0 ∷ 0 ∷ 0 ∷ 0 ∷ 0 ∷ 0 ∷ 0 ∷ 0 ∷ 0 ∷ 0 ∷ 0 ∷ 0 ∷ 0 ∷ 0 ∷ 0 ∷ 0 ∷ 0 ∷ 0
      ∷ 0 ∷ 0 ∷ 0 ∷ 0 ∷ 0 ∷ 0 ∷ 0 ∷ 0 ∷ [];
  put_object = λ k c breaks b. (true, upsert k (λ _. c) b);
  remove_object = λ k b. delete_where (λ j v. j == k) b;
}

abbrev bucket : Bucket Objects
bucket = record {
  wait = λ b. (true, b);
  stat_object = λ key b. (if is_none (lookup (bytes key) b) then no_such_key else found, b);
  new_upload = λ key b. (success "u", b);
  presign_put = λ key b. (success "url", b);
  complete_upload = λ key id parts b. (success tt, b);
  abort_upload = λ key id b. (aborted, b);
  presign = λ key id part b. (success "url", b);
}

abbrev upstream : Upstream Key
upstream = record { url = bytes "u"; key = record { name = bytes "c"; key = bytes "K" } }

abbrev signer : Signer
signer infos = some (("0123456789abcdfghijklmnpqrsvwxyz.narinfo", bytes "k:s") ∷ [])

abbrev world : World Objects
world = record { db = empty_db; uploads = []; bucket = [] }

abbrev stored_info : UpstreamNarinfo
stored_info = record info { nar_key = nar_key_of info; sigs = (bytes "c:K" ++ text) ∷ [] }

abbrev stored : Bool × World Objects
stored =
    store_upstream_path bucket web (λ _. Push.no_such_key) (signer ∷ []) upstream stored_info 7
      world

stored_ok : stored ≡ (true, stored.1)
unfolding store_upstream_path filterb
stored_ok = refl

store_upstream_path-Registered_example : Registered stored_info stored.1.db
store_upstream_path-Registered_example =
    store_upstream_path-Registered bucket web (λ _. Push.no_such_key) (signer ∷ []) upstream
      stored_info 7 world stored.1 stored_ok

-- The whole fill, and what it puts into the bucket.
abbrev filled : Bool × (World Objects × Misses)
filled =
    fill_from_upstream bucket web (λ _. Push.no_such_key) (signer ∷ []) 7 0
      "0123456789abcdfghijklmnpqrsvwxyz.narinfo" (upstream ∷ []) world []

filled_ok :
    (filled.0 ≡ true)
    × (map (λ o. o.0) filled.1.0.bucket ≡ nar_key_of info ∷ (hash ++ bytes ".narinfo") ∷ [])
unfolding fill_from_upstream filterb upsert matches nar_re
filled_ok = (refl, refl)

-- What may stand in the bucket, for a narinfo that the upstream vouches for: a NAR that is what it
-- says, under the key of its NAR, or the narinfo itself with more signatures.
data Good (k content : Key) : Type 0 where
  good_nar :
      (u : Upstream Key) (i : UpstreamNarinfo)
      → Among u (upstream ∷ [])
      → Trusted web u hash 0 i
      → k ≡ i.nar_key
      → Verified web i content
      → Good k content
  good_narinfo :
      (u : Upstream Key) (i : UpstreamNarinfo) (sigs : List Key)
      → Among u (upstream ∷ [])
      → Trusted web u hash 0 i
      → k ≡ bytes (narinfo_key_of i.nar_info.store_path)
      → content ≡ format i (i.sigs ++ sigs)
      → Good k content

no_nar_key : is_valid_upload_key (hash ++ bytes ".narinfo") "nar" ≡ false
unfolding is_valid_upload_key matches nar_re
no_nar_key = refl

-- Nothing empty is good under the narinfo's key.
not-Good : ¬ Good (hash ++ bytes ".narinfo") []
unfolding format
not-Good (good_nar u i a t k v) =
    let other : is_valid_upload_key (hash ++ bytes ".narinfo") "nar" ≡ true =
      ap (λ x. is_valid_upload_key x "nar") k ∙ t.valid in
    ground (arith, other, no_nar_key)
not-Good (good_narinfo u i sigs a t k c) = cc

AllGood : Objects → Type 0
AllGood b = (k content : Key) → lookup k b ≡ some content → Good k content

AllGood-empty : AllGood []
unfolding AllGood lookup
AllGood-empty k content h = cc

upsert-AllGood :
    (k content : Key) (b : Objects)
    → Good k content
    → AllGood b
    → AllGood (upsert k (λ _. content) b)
unfolding AllGood
upsert-AllGood k content b g all j c h = elim (Bool-cases (k == j)) [
  | inl e ↦
      subst (λ i. Good i c) ((list_eq.test_iff k j).0 e)
        (subst (Good k)
          (some-injective content c (sym (lookup-upsert k j (λ _. content) b ∙ rw e refl) ∙ h)) g)
  | inr e ↦ all j c (sym (lookup-upsert k j (λ _. content) b ∙ rw e refl) ∙ h)
]

removed-AllGood :
    (k content : Key) (b : Objects)
    → AllGood b
    → AllGood (delete_where (λ j v. j == k) (upsert k (λ _. content) b))
unfolding AllGood
removed-AllGood k content b all j c h =
    let gone = lookup-delete_where (λ i. i == k) j (upsert k (λ _. content) b) in
    elim (Bool-cases (j == k)) [
      | inl e ↦ absurd (none-ne-some c (sym (gone ∙ rw e refl) ∙ h))
      | inr e ↦
          all j c
            (sym (gone ∙ rw e (lookup-upsert k j (λ _. content) b ∙ rw (other_way j k e) refl)) ∙ h)
    ]

outlasts : Outlasts bucket web (upstream ∷ []) hash 0 AllGood
unfolding AllGood
outlasts = record {
  wait = λ b i. i;
  stat = λ key b i. i;
  get = λ url b i. i;
  nar = λ u info content breaks b a t v i.
      upsert-AllGood info.nar_key content b (good_nar u info a t refl v) i;
  failed = λ u info content breaks b a t h i. absurd (ground (arith, h));
  taken_back = λ u info content breaks b a t h i. removed-AllGood info.nar_key content b i;
  narinfo = λ u info sigs b a t i. upsert-AllGood _ _ b (good_narinfo u info sigs a t refl refl) i;
}

fill_from_upstream-Outlasts_example : AllGood filled.1.0.bucket
fill_from_upstream-Outlasts_example =
    fill_from_upstream-Outlasts bucket web (upstream ∷ []) hash 0 AllGood outlasts
      (λ _. Push.no_such_key) (signer ∷ []) 7 "0123456789abcdfghijklmnpqrsvwxyz.narinfo" world []
      refl AllGood-empty
