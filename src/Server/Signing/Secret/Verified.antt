-- ===== src/Server/Signing/Secret/Verified.antt =====
-- A signature is accepted by the public key of its signer (server/signing/).
use niks.Common.{
  ℕ, String, Option, none, some, List, [], ◌∷◌, ◌++◌, Bool, true, false, if◌then◌else◌, ◌==◌,
  nat_eq, list_eq, string_eq, contains, ==_refl, ◌≡◌, refl, sym, ap, ◌∙◌, arith, Bool-cases, inl,
  inr,
}
use niks.Common.Table.{Table, lookup}
use niks.Server.Keys.{Key}
use niks.Server.Sign.{NarInfo}
use niks.Server.Signing.{
  PublicKey, Crypto, cut, generate_fingerprint, parts_signed_by, signed_by, any_signed,
  verify_narinfo,
}
use niks.Server.Signing.Secret.{
  trim_left, trim_right, trim_space, onto, SecretKey, Ed25519, parse_key, and_signature, signature,
  sign, key_of_bytes, key_of_raw, key_of_parts, decode_key,
}

cut-append : (c : ℕ) (a s : Key) → contains a c ≡ false → cut c (a ++ c ∷ s) ≡ some (a, s)
unfolding cut contains
cut-append c [] s h = rw (==_refl c) refl
cut-append c (x ∷ a) s h =
    let e : x == c ≡ false = ground (arith, h) in rw (cut-append c a s (ground (arith, h)), e) refl

cut-lacks : (c : ℕ) (s a r : Key) → cut c s ≡ some (a, r) → contains a c ≡ false
unfolding cut contains
cut-lacks c [] a r h = cc
cut-lacks c (x ∷ s) a r h = by_byte (x == c) refl (cut c s) (cut-lacks c s) h
  where
    by_byte :
        (b : Bool)
        → x == c ≡ b
        → (rest : Option (Key × Key)) → ((a r : Key) → rest ≡ some (a, r) → contains a c ≡ false)
        → if◌then◌else◌ {A = Option (Key × Key)} b
            (some ([], s))
            (elim rest [ none ↦ none | some t ↦ some (x ∷ t.0, t.1) ])
          ≡ some (a, r)
        → contains a c ≡ false
    by_byte true e rest ih h = ground (arith, h)
    by_byte false e none ih h = cc
    by_byte false e (some t) ih h = ground (arith, h, e, ih t.0 t.1 refl)

trim_left-lacks : (c : ℕ) (s : Key) → contains s c ≡ false → contains (trim_left s) c ≡ false
unfolding trim_left contains
trim_left-lacks c [] h = refl
trim_left-lacks c (x ∷ s) h = ground (arith, h, trim_left-lacks c s)

trim_right-lacks : (c : ℕ) (s : Key) → contains s c ≡ false → contains (trim_right s) c ≡ false
unfolding trim_right contains
trim_right-lacks c [] h = refl
trim_right-lacks c (x ∷ s) h =
    onto-lacks c x (trim_right s) (ground (arith, h)) (trim_right-lacks c s (ground (arith, h)))
  where
    onto-lacks :
        (c x : ℕ) (s : Key) → x == c ≡ false → contains s c ≡ false → contains (onto x s) c ≡ false
    onto-lacks c x [] h k = ground (arith, h)
    onto-lacks c x (d ∷ s) h k = ground (arith, h, k)

trim_space-lacks : (c : ℕ) (s : Key) → contains s c ≡ false → contains (trim_space s) c ≡ false
unfolding trim_space
trim_space-lacks c s h = trim_right-lacks c (trim_left s) (trim_left-lacks c s h)

any_signed-among :
    {K : Type 0} (crypto : Crypto K) (k : PublicKey K) (text sig : Key) (before after : List Key)
    → signed_by crypto k text sig ≡ true
    → any_signed crypto k text (before ++ sig ∷ after) ≡ true
unfolding any_signed
any_signed-among crypto k text sig [] after h = ground (arith, h)
any_signed-among crypto k text sig (s ∷ before) after h =
    ground (arith, any_signed-among crypto k text sig before after h)

key_of_bytes-name :
    {P : Type 0} (ed : Ed25519 P) (name raw : Key) (k : SecretKey P)
    → key_of_bytes ed name raw ≡ some k
    → k.name ≡ name
unfolding key_of_bytes
key_of_bytes-name ed name raw k h = ground (arith, h)

-- The name of a key that was read has no colon.
parse_key-lacks :
    {P : Type 0} (ed : Ed25519 P) (s : Key) (k : SecretKey P)
    → parse_key ed s ≡ some k
    → contains k.name b':' ≡ false
unfolding parse_key
parse_key-lacks ed s k h = by_parts (cut b':' s) (cut-lacks b':' s) h
  where
    by_raw :
        (name : Key) (raw : Option Key)
        → contains name b':' ≡ false
        → key_of_raw ed name raw ≡ some k
        → contains k.name b':' ≡ false
    by_raw name none l h = cc
    by_raw name (some raw) l h = ap (λ n. contains n b':') (key_of_bytes-name ed name raw k h) ∙ l

    by_parts :
        (o : Option (Key × Key))
        → ((a r : Key) → o ≡ some (a, r) → contains a b':' ≡ false)
        → key_of_parts ed o ≡ some k
        → contains k.name b':' ≡ false
    by_parts none lacks h = cc
    by_parts (some parts) lacks h = elim (Bool-cases (trim_space parts.0 == [])) [
      | inl e ↦ absurd (ground (arith, e, h))
      | inr e ↦
          by_raw (trim_space parts.0) (decode_key ed (trim_space parts.1))
            (trim_space-lacks b':' parts.0 (lacks parts.0 parts.1 refl)) (ground (arith, e, h))
    ]

module _ {P K : Type 0} (ed : Ed25519 P) (crypto : Crypto K) (of : P → K) where
  -- Base64 is read back, and a signature is that of its key.
  pub record Sound : Type 0 where
    pub decodes : (s : Key) → crypto.decode (ed.encode s) ≡ some s
    pub verifies : (p : P) (text : Key) → crypto.verify (of p) text (ed.sign p text) ≡ true

  abbrev pub public_of : SecretKey P → PublicKey K
  public_of k = record { name = k.name; key = of k.key }

  signature-signed_by :
      (k : SecretKey P) (text : Key)
      → Sound
      → contains k.name b':' ≡ false
      → signed_by crypto (public_of k) text (signature ed k text) ≡ true
  unfolding signed_by signature
  signature-signed_by k text sound h =
      ap (parts_signed_by crypto (public_of k) text)
        (cut-append b':' k.name (ed.encode (ed.sign k.key text)) h)
      ∙ rw (==_refl k.name, sound.decodes (ed.sign k.key text)) (sound.verifies k.key text)

  same_fingerprint :
      (i j : NarInfo) (text : Key)
      → i ≡ j
      → generate_fingerprint i ≡ some text
      → generate_fingerprint j ≡ some text
  same_fingerprint i j text e h = sym (ap generate_fingerprint e) ∙ h

  -- A narinfo's signature in a batch.
  abbrev pub Signed : SecretKey P → NarInfo → Option Key → Type 0
  Signed k info sig =
      (text : Key) × ((generate_fingerprint info ≡ some text) × (sig ≡ some (signature ed k text)))

  sign-lookup :
      (k : SecretKey P) (infos : Table String NarInfo) (signatures : Table String Key)
      (object_key : String) (info : NarInfo)
      → sign ed k infos ≡ some signatures
      → lookup object_key infos ≡ some info
      → Signed k info (lookup object_key signatures)
  unfolding sign lookup
  sign-lookup k [] signatures object_key info h l = absurd (ground (arith, l))
  sign-lookup k ((key, i) ∷ infos) signatures object_key info h l =
      by_parts (generate_fingerprint i) refl (sign ed k infos) (sign-lookup k infos) h l
    where
      by_parts :
          (text : Option Key)
          → generate_fingerprint i ≡ text
          → (rest : Option (Table String Key))
          → ((signatures : Table String Key) (object_key : String) (info : NarInfo)
              → rest ≡ some signatures
              → lookup object_key infos ≡ some info
              → Signed k info (lookup object_key signatures))
          → and_signature ed key k text rest ≡ some signatures
          → lookup object_key ((key, i) ∷ infos) ≡ some info
          → Signed k info (lookup object_key signatures)
      by_parts none e rest ih h l = cc
      by_parts (some text) e none ih h l = cc
      by_parts (some text) e (some signatures') ih h l = elim (Bool-cases (key == object_key)) [
        | inl b ↦
            (text, (same_fingerprint i info text (ground (arith, l, b)) e, ground (arith, h, b)))
        | inr b ↦
            let (text', (made, found)) =
              ih signatures' object_key info refl (ground (arith, l, b)) in
            (text', (made, ground (arith, h, b, found)))
      ]

  -- A narinfo that a key signs, alone or with others, is accepted by the key's public part, with
  -- whatever other signatures stand beside that one; given that the key was read by `parse_key`,
  -- base64 is read back, and Ed25519 accepts what it signed.
  pub sign-verify_narinfo :
      (s : Key) (k : SecretKey P) (infos : Table String NarInfo) (signatures : Table String Key)
      (object_key : String) (info : NarInfo)
      → Sound
      → parse_key ed s ≡ some k
      → sign ed k infos ≡ some signatures
      → lookup object_key infos ≡ some info
      → (sig : Key) × ((lookup object_key signatures ≡ some sig)
          × ((before after : List Key)
              → verify_narinfo crypto (public_of k) info (before ++ sig ∷ after) ≡ true))
  unfolding verify_narinfo
  sign-verify_narinfo s k infos signatures object_key info sound parsed signed l =
      let (text, (made, found)) = sign-lookup k infos signatures object_key info signed l in
      let accepted = signature-signed_by k text sound (parse_key-lacks ed s k parsed) in
      (
        signature ed k text,
        (
          found,
          λ before after. rw made (
              any_signed-among crypto (public_of k) text (signature ed k text) before after
                accepted),
        ),
      )
