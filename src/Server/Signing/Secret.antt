-- ===== src/Server/Signing/Secret.antt =====
-- Signing keys and what they sign (server/signing/key.go; ParsePublicKey of
-- server/signing/verify.go). White space is that of ASCII; no request is cancelled.
pub mod Verified
use niks.Common.{
  ℕ, String, Option, none, some, List, [], ◌∷◌, ◌++◌, Bool, true, false, not, ◌&&◌, ◌||◌,
  if◌then◌else◌, leb, ◌==◌, nat_eq, list_eq, length,
}
use niks.Common.Table.{Table}
use niks.Server.Keys.{Key, bytes}
use niks.Server.Sign.{NarInfo}
use niks.Server.Signing.{PublicKey, Crypto, cut, generate_fingerprint}

abbrev pub is_space : ℕ → Bool
is_space c = c == 32 || leb 9 c && leb c 13

unfoldable pub trim_left : Key → Key
trim_left [] = []
trim_left (c ∷ s) = let rest = trim_left s in if is_space c then rest else c ∷ s

abbrev pub onto : ℕ → Key → Key
onto c [] = if is_space c then [] else c ∷ []
onto c (d ∷ s) = c ∷ d ∷ s

unfoldable pub trim_right : Key → Key
trim_right [] = []
trim_right (c ∷ s) = onto c (trim_right s)

-- `strings.TrimSpace`.
unfoldable pub trim_space : Key → Key
unfolding trim_left trim_right
trim_space s = trim_right (trim_left s)

-- `Key`, for private keys of a type of the service.
pub record SecretKey (P : Type 0) : Type 0 where
  pub name : Key
  pub key : P

-- `base64` with and without padding, and `ed25519`: a private key from its seed and from its bytes,
-- the public key's bytes, and a signature.
pub record Ed25519 (P : Type 0) : Type 0 where
  pub decode : Key → Option Key
  pub decode_raw : Key → Option Key
  pub encode : Key → Key
  pub new_key_from_seed : Key → P
  pub private_key : Key → P
  pub public_key : P → Key
  pub sign : P → Key → Key

module _ {P : Type 0} (ed : Ed25519 P) where
  -- Padding may be missing.
  unfoldable pub decode_key : Key → Option Key
  decode_key text = elim (ed.decode text) [ some raw ↦ some raw | none ↦ ed.decode_raw text ]

  unfoldable pub key_of_bytes : Key → Key → Option (SecretKey P)
  key_of_bytes name raw =
      if length raw == 32
      then some (record { name = name; key = ed.new_key_from_seed raw })
      else if length raw == 64
      then some (record { name = name; key = ed.private_key raw })
      else none

  abbrev pub key_of_raw : Key → Option Key → Option (SecretKey P)
  key_of_raw name none = none
  key_of_raw name (some raw) = key_of_bytes name raw

  abbrev pub key_of_parts : Option (Key × Key) → Option (SecretKey P)
  key_of_parts none = none
  key_of_parts (some parts) =
      if trim_space parts.0 == []
      then none
      else key_of_raw (trim_space parts.0) (decode_key (trim_space parts.1))

  -- `ParseKey`.
  unfoldable pub parse_key : Key → Option (SecretKey P)
  unfolding cut trim_space decode_key key_of_bytes
  parse_key s = key_of_parts (cut b':' s)

  -- `PublicKey`, the text for Nix's configuration.
  unfoldable pub public_key_text : SecretKey P → Key
  public_key_text k = k.name ++ b':' ∷ ed.encode (ed.public_key k.key)

  -- One signature, `name:base64`.
  unfoldable pub signature : SecretKey P → Key → Key
  signature k text = k.name ++ b':' ∷ ed.encode (ed.sign k.key text)

  abbrev pub and_signature :
      String → SecretKey P → Option Key → Option (Table String Key) → Option (Table String Key)
  and_signature object_key k none rest = none
  and_signature object_key k (some text) none = none
  and_signature object_key k (some text) (some signatures) =
      some ((object_key, signature k text) ∷ signatures)

  -- `Sign`: a narinfo without a fingerprint fails the whole batch.
  unfoldable pub sign : SecretKey P → Table String NarInfo → Option (Table String Key)
  unfolding generate_fingerprint signature
  sign k [] = some []
  sign k ((object_key, info) ∷ infos) =
      and_signature object_key k (generate_fingerprint info) (sign k infos)

-- `ParsePublicKey`; `of_bytes` makes a key of 32 bytes.
unfoldable pub parse_public_key : {K : Type 0} → Crypto K → (Key → K) → Key → Option (PublicKey K)
unfolding cut trim_space
parse_public_key crypto of_bytes s = elim (cut b':' (trim_space s)) [
  | none ↦ none
  | some parts ↦ if parts.0 == [] then none else (elim (crypto.decode parts.1) [
    | none ↦ none
    | some raw ↦
        if length raw == 32 then some (record { name = parts.0; key = of_bytes raw }) else none
  ])
]
