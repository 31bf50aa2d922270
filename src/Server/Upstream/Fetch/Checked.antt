-- ===== src/Server/Upstream/Fetch/Checked.antt =====
-- What is accepted of an upstream cache (server/upstream.go: fetchUpstreamNarinfo, verifyNar).
use niks.Common.{
  ℕ, zero, suc, ◌+◌, ◌%◌, ◌^◌, Option, none, some, [], ◌∷◌, ◌++◌, Bool, true, false, not, ◌&&◌,
  if◌then◌else◌, ltb, ◌==◌, nat_eq, list_eq, length, take, length-take-le, ◌<◌, ◌≡◌, ◌⊎◌, refl, sym,
  ap, subst, ◌∙◌, arith, Bool-cases, inl, inr,
}
use niks.Server.Keys.{Key, bytes, is_valid_upload_key}
use niks.Server.NixBase32.{encode_nix_base32}
use niks.Server.Signing.{verify_narinfo}
use niks.Server.Upstream.Narinfo.{UpstreamNarinfo, parse_narinfo}
use niks.Server.Upstream.Fetch.{
  Upstream, Reply, Decoded, Web, bad_narinfo, fetched, is_for, nar_extension, nar_key_of,
  stays_on_the_upstream, check_narinfo, checked, read_reply, limited, verify_decoded, verify_nar,
}

-- What six tests in a row let through.
by_tests {ℓ} :
    {A : Type ℓ} (a b c d e f : Bool) (x y : A)
    → (if not a
        then none
        else if not b
        then none
        else if c
        then none
        else if d
        then none
        else if not e
        then none
        else if not f
        then none
        else some x)
      ≡ some y
    → (a ≡ true) × (b ≡ true) × (c ≡ false) × (d ≡ false) × (e ≡ true) × (f ≡ true) × (x ≡ y)
by_tests a b c d e f x y h = ground (arith, h)

by_steps :
    (a b c : Bool)
    → (if a then false else if not b then false else c) ≡ true
    → (a ≡ false) × (b ≡ true) × (c ≡ true)
by_steps a b c h = ground (arith, h)

take-short : (n : ℕ) (s : Key) → length (take (suc n) s) ≡ n → (length s ≡ n) × (take (suc n) s ≡ s)
take-short n [] h = (h, refl)
take-short zero (c ∷ s) h = absurd (omega (arith, h))
take-short (suc n) (c ∷ s) h =
    let (size, whole) = take-short n s (omega (arith, h)) in
    (omega (arith, size), ap (λ t. c ∷ t) whole)

module _ {K S : Type 0} (web : Web K S) where
  -- A narinfo for the path that was asked for, signed by the upstream's key, not over the limit, and
  -- whose NAR stays on the upstream and has a key of its own.
  pub record Trusted (upstream : Upstream K) (hash : Key) (max_nar_size : ℕ)
      (info : UpstreamNarinfo) : Type 0 where
    pub same_path : is_for hash info.nar_info.store_path ≡ true
    pub signed : verify_narinfo web.crypto upstream.key info.nar_info info.sigs ≡ true
    pub small : ltb 0 max_nar_size && ltb max_nar_size info.nar_info.nar_size ≡ false
    pub known : nar_extension info.compression == [] ≡ false
    pub stays : stays_on_the_upstream (web.parse_url info.url) ≡ true
    pub key : info.nar_key ≡ nar_key_of info
    pub valid : is_valid_upload_key info.nar_key "nar" ≡ true

  check_narinfo-Trusted :
      (upstream : Upstream K) (hash : Key) (max_nar_size : ℕ) (info info' : UpstreamNarinfo)
      → check_narinfo web upstream.key hash max_nar_size info ≡ some info'
      → Trusted upstream hash max_nar_size info'
  unfolding check_narinfo
  check_narinfo-Trusted upstream hash max_nar_size info info' h =
      let (path, signed, small, known, stays, valid, same) =
        by_tests _ _ _ _ _ _ (record info { nar_key = nar_key_of info }) info' h in
      subst (Trusted upstream hash max_nar_size) same (record {
        same_path = path;
        signed = signed;
        small = small;
        known = known;
        stays = stays;
        key = refl;
        valid = valid;
      })

  checked-Trusted :
      (upstream : Upstream K) (hash : Key) (max_nar_size : ℕ) (parsed : Option UpstreamNarinfo)
      (info : UpstreamNarinfo)
      → checked web upstream.key hash max_nar_size parsed ≡ fetched info
      → Trusted upstream hash max_nar_size info
  checked-Trusted upstream hash max_nar_size none info h = cc
  checked-Trusted upstream hash max_nar_size (some info') info h =
      by_check (check_narinfo web upstream.key hash max_nar_size info')
        (check_narinfo-Trusted upstream hash max_nar_size info') h
    where
      by_check :
          (o : Option UpstreamNarinfo)
          → ((i : UpstreamNarinfo) → o ≡ some i → Trusted upstream hash max_nar_size i)
          → (elim o [ none ↦ bad_narinfo | some i ↦ fetched i ]) ≡ fetched info
          → Trusted upstream hash max_nar_size info
      by_check none t h = cc
      by_check (some i) t h = t info (cc)

  pub read_reply-Trusted :
      (upstream : Upstream K) (hash : Key) (max_nar_size : ℕ) (answer : Option Reply)
      (info : UpstreamNarinfo)
      → read_reply web upstream.key hash max_nar_size answer ≡ fetched info
      → Trusted upstream hash max_nar_size info
  unfolding read_reply
  read_reply-Trusted upstream hash max_nar_size none info h = cc
  read_reply-Trusted upstream hash max_nar_size (some reply) info h =
      checked-Trusted upstream hash max_nar_size (parse_narinfo reply.body) info (ground (arith, h))

  -- The decoder ends without a failure, with as many bytes as the narinfo says, of the hash it says.
  pub record Exact (info : UpstreamNarinfo) (d : Decoded) : Type 0 where
    pub ended : d.failed ≡ false
    pub size : length d.out ≡ info.nar_info.nar_size
    pub hash : bytes "sha256:" ++ encode_nix_base32 (web.sha256 d.out) ≡ info.nar_info.nar_hash

  -- A limit of one byte more leaves the number of bytes only if they are all.
  limited-whole :
      (n : ℕ) (s : Key)
      → length (limited web ((n + 1) % 2 ^ 64) s) ≡ n
      → (length s ≡ n)
        × (limited web ((n + 1) % 2 ^ 64) s ≡ s)
        × ((n + 1) % 2 ^ 64 ≡ suc n)
        × (n + 1 < 2 ^ 63)
  limited-whole n s h = by_limit ((n + 1) % 2 ^ 64) refl (Bool-cases _) h
    where
      by_limit :
          (m : ℕ)
          → (n + 1) % 2 ^ 64 ≡ m
          → (ltb m (2 ^ 63) ≡ true) ⊎ (ltb m (2 ^ 63) ≡ false)
          → length (limited web m s) ≡ n
          → (length s ≡ n) × (limited web m s ≡ s) × (m ≡ suc n) × (n + 1 < 2 ^ 63)
      by_limit m e (inl b) h =
          let size : length (take m s) ≡ n = ap length (sym (rw b refl)) ∙ h in
          let same : m ≡ suc n = omega (arith, e, size, length-take-le m s) in
          let (short, whole) = take-short n s (ap (λ k. length (take k s)) (sym same) ∙ size) in
          (short, rw b (rw same whole), same, ground (arith, b, same))
      by_limit m e (inr b) h = absurd (ground (arith, b, e, h))

  verify_decoded-Exact :
      (info : UpstreamNarinfo) (d : Decoded) → verify_decoded web info d ≡ true → Exact info d
  unfolding verify_decoded
  verify_decoded-Exact info d h =
      let n = info.nar_info.nar_size in
      let read = limited web ((n + 1) % 2 ^ 64) d.out in
      let (quiet, size, same) =
        by_steps
          (d.failed && ltb (length d.out) ((n + 1) % 2 ^ 64) && ltb ((n + 1) % 2 ^ 64) (2 ^ 63))
          (length read == n) _ h in
      let whole = limited-whole n d.out ((nat_eq.test_iff (length read) n).0 size) in
      record {
        ended = ground (arith, quiet, whole.0, whole.2, whole.3);
        size = whole.0;
        hash =
            ap (λ r. bytes "sha256:" ++ encode_nix_base32 (web.sha256 r)) (sym whole.1)
            ∙ (list_eq.test_iff _ _).0 same;
      }

  -- What a NAR of a compression decodes to; other compressions have no decoder.
  abbrev pub decoded_as : Key → Key → Option Decoded
  decoded_as compression body =
      if compression == bytes "none"
      then some (record { out = body; failed = false })
      else if compression == bytes "bzip2"
      then some (web.bzip2 body)
      else if compression == bytes "zstd"
      then some (web.zstd body)
      else none

  -- A NAR that is, decoded, what its narinfo says.
  abbrev pub Verified : UpstreamNarinfo → Key → Type 0
  Verified info body = (d : Decoded) × ((decoded_as info.compression body ≡ some d) × Exact info d)

  pub verify_nar-Verified :
      (info : UpstreamNarinfo) (body : Key) → verify_nar web info body ≡ true → Verified info body
  unfolding verify_nar
  verify_nar-Verified info body h = by_compression _ _ _ h
    where
      by_compression :
          (a b c : Bool)
          → (if a
              then verify_decoded web info (record { out = body; failed = false })
              else if b
              then verify_decoded web info (web.bzip2 body)
              else if c
              then verify_decoded web info (web.zstd body)
              else false)
            ≡ true
          → (d : Decoded) × (((if a
                  then some (record { out = body; failed = false })
                  else if b
                  then some (web.bzip2 body)
                  else if c
                  then some (web.zstd body)
                  else none)
                ≡ some d)
              × Exact info d)
      by_compression true b c h = (_, (refl, verify_decoded-Exact info _ h))
      by_compression false true c h = (_, (refl, verify_decoded-Exact info _ h))
      by_compression false false true h = (_, (refl, verify_decoded-Exact info _ h))
      by_compression false false false h = cc
