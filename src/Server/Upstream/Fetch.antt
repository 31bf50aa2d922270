-- ===== src/Server/Upstream/Fetch.antt =====
-- What is asked of an upstream cache, and what is accepted of its answer (server/upstream.go:
-- fetchUpstreamNarinfo, verifyNar, copyUpstreamNar). HTTP, URLs, decoders and hashes are a service.
pub mod Checked
use niks.Common.{
  ℕ, ◌+◌, ◌-◌, ◌*◌, ◌%◌, ◌^◌, String, Option, none, some, List, [], ◌∷◌, ◌++◌, Bool, true, false,
  not, ◌&&◌, ◌||◌, if◌then◌else◌, ltb, leb, ◌==◌, nat_eq, list_eq, length, take, min,
}
use niks.Server.Keys.{Key, bytes, has_prefix, contains_text, is_valid_upload_key}
use niks.Server.NixBase32.{encode_nix_base32}
use niks.Server.Signing.{PublicKey, Crypto, verify_narinfo}
use niks.Server.Upstream.Narinfo.{
  UpstreamNarinfo, nix_store_dir, is_store_path_base, parse_narinfo, trim_prefix,
}

-- `Upstream`.
pub record Upstream (K : Type 0) : Type 0 where
  pub url : Key
  pub key : PublicKey K

-- What is used of a `url.URL`.
pub record Url : Type 0 where
  pub scheme : Key
  pub host : Key
  pub path : Key
  pub raw_query : Key

-- A response: its body, and whether reading it fails behind that.
pub record Reply : Type 0 where
  pub status : ℕ
  pub body : Key
  pub broken : Bool

-- What a decoder gives, and whether it fails behind that.
pub record Decoded : Type 0 where
  pub out : Key
  pub failed : Bool

-- `http.DefaultClient.Do`, a failure being `none`; `url.Parse`; the decoders; SHA-256; and the
-- bucket's uploads, `true` for a reader that fails or is cancelled, and removals.
pub record Web (K S : Type 0) : Type 0 where
  pub crypto : Crypto K
  pub get : Key → S → Option Reply × S
  pub parse_url : Key → Option Url
  pub bzip2 : Key → Decoded
  pub zstd : Key → Decoded
  pub compress : Key → Key
  pub sha256 : Key → Key
  pub put_object : Key → Key → Bool → S → Bool × S
  pub remove_object : Key → S → S

abbrev pub max_upstream_narinfo_size : ℕ
max_upstream_narinfo_size = 1024 * 1024

-- `narExtension`; a compression without one has none here.
abbrev pub nar_extension : Key → Key
nar_extension compression =
    if compression == bytes "none"
    then bytes ".nar"
    else if compression == bytes "zstd"
    then bytes ".nar.zst"
    else if compression == bytes "bzip2"
    then bytes ".nar.bz2"
    else []

-- A plain relative path.
unfoldable pub stays_on_the_upstream : Option Url → Bool
unfolding contains_text
stays_on_the_upstream none = false
stays_on_the_upstream (some u) =
    u.scheme == []
    && u.host == []
    && not (has_prefix u.path (bytes "/"))
    && not (contains_text u.path (bytes ".."))
    && u.raw_query == []

-- Where the NAR is stored.
abbrev pub nar_key_of : UpstreamNarinfo → Key
nar_key_of info =
    bytes "nar/"
    ++ trim_prefix info.nar_info.nar_hash (bytes "sha256:")
    ++ nar_extension info.compression

abbrev pub is_for : Key → Key → Bool
is_for hash store_path =
    has_prefix store_path (nix_store_dir ++ hash ++ bytes "-")
    && is_store_path_base (trim_prefix store_path nix_store_dir)

-- What comes of asking an upstream for a narinfo.
pub data Fetched : Type 0 where
  miss : Fetched
  bad_narinfo : Fetched
  fetched : UpstreamNarinfo → Fetched

module _ {K S : Type 0} (web : Web K S) where
  -- The checks of a narinfo, in their order.
  unfoldable pub check_narinfo : PublicKey K → Key → ℕ → UpstreamNarinfo → Option UpstreamNarinfo
  unfolding is_store_path_base verify_narinfo stays_on_the_upstream is_valid_upload_key
  check_narinfo key hash max_nar_size info =
      if not (is_for hash info.nar_info.store_path)
      then none
      else if not (verify_narinfo web.crypto key info.nar_info info.sigs)
      then none
      else if ltb 0 max_nar_size && ltb max_nar_size info.nar_info.nar_size
      then none
      else if nar_extension info.compression == []
      then none
      else if not (stays_on_the_upstream (web.parse_url info.url))
      then none
      else if not (is_valid_upload_key (nar_key_of info) "nar")
      then none
      else some (record info { nar_key = nar_key_of info })

  abbrev pub checked : PublicKey K → Key → ℕ → Option UpstreamNarinfo → Fetched
  checked key hash max_nar_size none = bad_narinfo
  checked key hash max_nar_size (some info) = elim (check_narinfo key hash max_nar_size info) [
    | none ↦ bad_narinfo
    | some info' ↦ fetched info'
  ]

  -- The answer: a 404 or 403 is a miss, and a body that is too long or breaks off is refused.
  unfoldable pub read_reply : PublicKey K → Key → ℕ → Option Reply → Fetched
  unfolding check_narinfo parse_narinfo
  read_reply key hash max_nar_size none = bad_narinfo
  read_reply key hash max_nar_size (some reply) =
      if reply.status == 404 || reply.status == 403
      then miss
      else if not (reply.status == 200)
      then bad_narinfo
      else if reply.broken && leb (length reply.body) max_upstream_narinfo_size
      then bad_narinfo
      else if ltb max_upstream_narinfo_size (length reply.body)
      then bad_narinfo
      else checked key hash max_nar_size (parse_narinfo reply.body)

  -- `fetchUpstreamNarinfo`.
  unfoldable pub fetch_upstream_narinfo : Upstream K → Key → ℕ → S → Fetched × S
  unfolding read_reply
  fetch_upstream_narinfo upstream hash max_nar_size b =
      let (answer, b') = web.get (upstream.url ++ bytes "/" ++ hash ++ bytes ".narinfo") b in
      (read_reply upstream.key hash max_nar_size answer, b')

  -- `io.LimitReader` by a number as a two's complement `int64`: a negative limit leaves nothing.
  abbrev pub limited : ℕ → Key → Key
  limited n s = if ltb n (2 ^ 63) then take n s else []

  -- Whether what was decoded is the NAR: one byte more than its size would be seen.
  unfoldable pub verify_decoded : UpstreamNarinfo → Decoded → Bool
  unfolding encode_nix_base32
  verify_decoded info d =
      let limit = (info.nar_info.nar_size + 1) % 2 ^ 64 in
      let read = limited limit d.out in
      if d.failed && ltb (length d.out) limit && ltb limit (2 ^ 63)
      then false
      else if not (length read == info.nar_info.nar_size)
      then false
      else bytes "sha256:" ++ encode_nix_base32 (web.sha256 read) == info.nar_info.nar_hash

  -- `verifyNar`.
  unfoldable pub verify_nar : UpstreamNarinfo → Key → Bool
  unfolding verify_decoded
  verify_nar info body =
      if info.compression == bytes "none"
      then verify_decoded info (record { out = body; failed = false })
      else if info.compression == bytes "bzip2"
      then verify_decoded info (web.bzip2 body)
      else if info.compression == bytes "zstd"
      then verify_decoded info (web.zstd body)
      else false

  -- The limit on the compressed NAR.
  abbrev pub body_limit : UpstreamNarinfo → ℕ
  body_limit info = (info.nar_info.nar_size * 2 + 1024 * 1024) % 2 ^ 64

  -- The body fails before its limit.
  abbrev pub fails_early : UpstreamNarinfo → Reply → Bool
  fails_early info reply =
      reply.broken && ltb (length reply.body) (body_limit info) && ltb (body_limit info) (2 ^ 63)
