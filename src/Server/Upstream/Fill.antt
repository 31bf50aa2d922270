-- ===== src/Server/Upstream/Fill.antt =====
-- Filling a miss from the upstream caches (server/upstream.go: fillFromUpstream, fillOnce,
-- storeUpstreamPath, copyUpstreamNar, putObject). One fill runs at a time, and none is cut off by
-- its time budget. A map is a table.
pub mod Outlasts
pub mod Trusted
pub mod Registered
mod Tests
use Prim.Native.String.{char_at}
use niks.Common.{
  ℕ, ◌-◌, String, Option, none, some, List, [], ◌∷◌, ◌++◌, map, Bool, true, false, not, ◌&&◌, ◌||◌,
  if◌then◌else◌, ltb, ◌==◌, nat_eq, list_eq, string_eq, take, drop, length,
}
use niks.Common.Table.{Table, lookup}
use niks.Server.Db.{Db, PendingObject, PendingClosure}
use niks.Server.Push as Push
use niks.Server.Push.{
  ObjectWithRefs, create_pending_closure_inner, commit_pending_closure, ok, err, Result,
}
use niks.Server.Keys.{Key, bytes}
use niks.Server.Sign.{NarInfo, Signer}
use niks.Server.Multipart.{Bucket, World}
use niks.Server.Uploads.{object_exists_in_s3}
use niks.Server.Upstream.Narinfo.{UpstreamNarinfo, nix_store_dir, trim_prefix, format}
use niks.Server.Upstream.Fetch.{
  Upstream, Reply, Web, Fetched, miss, bad_narinfo, fetched, fetch_upstream_narinfo, verify_nar,
  limited, body_limit, fails_early,
}
use niks.Server.Upstream.Misses.{Misses, recent, record_miss}

-- The text of a key. Keys are of printable ASCII.
unfoldable pub text : Key → String
text [] = String.[]
text (c ∷ s) =
    String.◌∷◌
      (char_at
        " !\"#$%&'()*+,-./0123456789:;<=>?@ABCDEFGHIJKLMNOPQRSTUVWXYZ[\\]^_`abcdefghijklmnopqrstuvwxyz{|}~"
        (c - 32))
      (text s)

-- The narinfo's key of a store path.
abbrev pub narinfo_key_of : Key → String
narinfo_key_of store_path =
    text (take 32 (trim_prefix store_path nix_store_dir) ++ bytes ".narinfo")

-- What is registered: the narinfo, with what it refers to and its NAR, and the NAR.
unfoldable pub objects_of : UpstreamNarinfo → Table String ObjectWithRefs
unfolding text
objects_of info =
    (
      narinfo_key_of info.nar_info.store_path,
      record {
        key = narinfo_key_of info.nar_info.store_path;
        kind = "narinfo";
        refs = map narinfo_key_of info.nar_info.references ++ text info.nar_key ∷ [];
        nar_size = none;
      },
    )
    ∷ (
      text info.nar_key,
      record {
        key = text info.nar_key;
        kind = "nar";
        refs = [];
        nar_size = some info.nar_info.nar_size;
      },
    )
    ∷ []

-- The signatures of all signers behind those of the upstream; `none` is an error.
unfoldable pub sign_all : String → NarInfo → List Signer → List Key → Option (List Key)
unfolding lookup
sign_all key info [] sigs = some sigs
sign_all key info (signer ∷ signers) sigs = elim (signer ((key, info) ∷ [])) [
  | none ↦ none
  | some signed ↦ elim (lookup key signed) [
    | none ↦ none
    | some sig ↦ sign_all key info signers (sigs ++ sig ∷ [])
  ]
]

module _ {K S : Type 0} (s3 : Bucket S) (web : Web K S) where
  -- `putObject`, behind the rate limiter. A reader that fails may break the upload off.
  unfoldable pub put_object : Key → Key → Bool → S → Bool × S
  put_object key content breaks b =
      let (go, b') = s3.wait b in
      let (done, b'') = web.put_object key content breaks b' in
      if go then (done, b'') else (false, b')

  -- What is left after the upload: a NAR that was stored and is not the right one is removed.
  abbrev pub after_put : UpstreamNarinfo → Bool → Bool × S → Bool × S
  after_put info verified (done, b) =
      if verified
      then (done, b)
      else if done
      then (false, web.remove_object info.nar_key b)
      else (false, b)

  abbrev pub copy_reply : UpstreamNarinfo → Option Reply → S → Bool × S
  copy_reply info none b = (false, b)
  copy_reply info (some reply) b =
      let content = limited web (body_limit web info) reply.body in
      let verified = verify_nar web info content in
      if reply.status == 200
      then after_put info verified
          (put_object info.nar_key content (fails_early web info reply || not verified) b)
      else (false, b)

  -- `copyUpstreamNar`.
  unfoldable pub copy_upstream_nar : Upstream K → UpstreamNarinfo → S → Bool × S
  unfolding put_object verify_nar
  copy_upstream_nar upstream info b =
      let (answer, b') = web.get (upstream.url ++ bytes "/" ++ info.url) b in
      copy_reply info answer b'

  -- The NAR is copied if it is pending.
  unfoldable pub copy_pending : Upstream K → UpstreamNarinfo → List PendingObject → S → Bool × S
  unfolding copy_upstream_nar text
  copy_pending upstream info [] b = (true, b)
  copy_pending upstream info (r ∷ rs) b =
      let (copied, b') = copy_upstream_nar upstream info b in
      if r.key == text info.nar_key
      then if copied then copy_pending upstream info rs b' else (false, b')
      else copy_pending upstream info rs b

  abbrev pub after_commit : World S → S → Result (Db × ℕ) → Bool × World S
  after_commit w b (err e) = (false, record w { bucket = b })
  after_commit w b (ok result) = (true, record w { db = result.0; bucket = b })

  abbrev pub committed : ℕ → ℕ → World S → Bool × S → Bool × World S
  committed id now w (stored, b) =
      if stored
      then after_commit w b (commit_pending_closure id now w.db)
      else (false, record w { bucket = b })

  abbrev pub put_narinfo : UpstreamNarinfo → ℕ → ℕ → World S → Option (List Key) → Bool × World S
  put_narinfo info id now w none = (false, w)
  put_narinfo info id now w (some sigs) = committed id now w (
      put_object (bytes (narinfo_key_of info.nar_info.store_path)) (web.compress (format info sigs))
        false w.bucket)

  -- Once the NAR is there: the narinfo is signed, stored and committed.
  unfoldable pub store_narinfo : List Signer → UpstreamNarinfo → ℕ → ℕ → World S → Bool × World S
  unfolding sign_all put_object format commit_pending_closure text
  store_narinfo signers info id now w =
      put_narinfo info id now w
        (sign_all (narinfo_key_of info.nar_info.store_path) info.nar_info signers info.sigs)

  abbrev pub after_copy :
      List Signer → UpstreamNarinfo → ℕ → ℕ → World S → Bool × S → Bool × World S
  after_copy signers info id now w (copied, b) =
      if copied
      then store_narinfo signers info id now (record w { bucket = b })
      else (false, record w { bucket = b })

  abbrev pub after_create :
      List Signer
      → Upstream K
      → UpstreamNarinfo
      → ℕ
      → World S
      → Db × Result (PendingClosure × List PendingObject)
      → Bool × World S
  after_create signers upstream info now w (db, err e) = (false, record w { db = db })
  after_create signers upstream info now w (db, ok row) =
      after_copy signers info row.0.id now (record w { db = db })
        (copy_pending upstream info row.1 w.bucket)

  -- `storeUpstreamPath`.
  unfoldable pub store_upstream_path :
      (String → Push.Stat)
      → List Signer
      → Upstream K
      → UpstreamNarinfo
      → ℕ
      → World S
      → Bool × World S
  unfolding create_pending_closure_inner objects_of copy_pending store_narinfo
  store_upstream_path stat signers upstream info now w = after_create signers upstream info now w (
      create_pending_closure_inner stat (narinfo_key_of info.nar_info.store_path) none
        (objects_of info) true now w.db)

  module _ (stat : String → Push.Stat) (signers : List Signer) (now : ℕ) where
    -- The first upstream with a good narinfo decides.
    abbrev pub after_answer :
        Upstream K
        → World S
        → Misses
        → Bool × (World S × Misses)
        → Fetched
        → Bool × (World S × Misses)
    after_answer upstream w misses next miss = next
    after_answer upstream w misses next bad_narinfo = next
    after_answer upstream w misses next (fetched info) =
        let (stored, w') = store_upstream_path stat signers upstream info now w in
        (stored, (w', misses))

    -- The loop of `fillOnce`. A path that no upstream has is remembered.
    unfoldable pub fill_each :
        ℕ → Key → List (Upstream K) → World S → Misses → Bool × (World S × Misses)
    unfolding fetch_upstream_narinfo store_upstream_path record_miss
    fill_each max_nar_size hash [] w misses = (true, (w, record_miss hash now misses))
    fill_each max_nar_size hash (upstream ∷ upstreams) w misses =
        let (answer, b) = fetch_upstream_narinfo web upstream hash max_nar_size w.bucket in
        let next = fill_each max_nar_size hash upstreams (record w { bucket = b }) misses in
        after_answer upstream (record w { bucket = b }) misses next answer

    -- `fillOnce`.
    unfoldable pub fill_once :
        ℕ → Key → List (Upstream K) → World S → Misses → Bool × (World S × Misses)
    unfolding recent fill_each
    fill_once max_nar_size hash upstreams w misses =
        let filled = fill_each max_nar_size hash upstreams w misses in
        if recent hash now misses then (true, (w, misses)) else filled

    -- `fillFromUpstream`; the key ends in `.narinfo`.
    unfoldable pub fill_from_upstream :
        ℕ → String → List (Upstream K) → World S → Misses → Bool × (World S × Misses)
    unfolding fill_once object_exists_in_s3
    fill_from_upstream max_nar_size narinfo_key upstreams w misses =
        let (answer, b) = object_exists_in_s3 s3 narinfo_key w.bucket in
        let hash = take (length (bytes narinfo_key) - 8) (bytes narinfo_key) in
        let filled = fill_once max_nar_size hash upstreams (record w { bucket = b }) misses in
        elim answer [
          | none ↦ (false, (record w { bucket = b }, misses))
          | some there ↦ if there then (true, (record w { bucket = b }, misses)) else filled
        ]
