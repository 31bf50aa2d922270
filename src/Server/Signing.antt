-- ===== src/Server/Signing.antt =====
-- What is signed of a narinfo, and checking a signature (server/signing/fingerprint.go,
-- server/signing/verify.go). Base64 and Ed25519 are a service.
pub mod Unambiguous
pub mod Secret
mod Tests
use niks.Common.{
  ℕ, Option, none, some, List, [], ◌∷◌, ◌++◌, map, Bool, true, false, not, ◌&&◌, ◌||◌,
  if◌then◌else◌, ◌==◌, nat_eq, list_eq, length,
}
use niks.Common.Decimal.{format_uint}
use niks.Common.Order.{sort}
use niks.Common.Split.{join}
use niks.Server.Keys.{Key, bytes, has_prefix}
use niks.Server.Sign.{NarInfo}

unfoldable pub all_in_store : List Key → Bool
all_in_store [] = true
all_in_store (ref ∷ refs) = has_prefix ref (bytes "/nix/store") && all_in_store refs

-- `1;<store path>;<NAR hash>;<NAR size>;<references>`.
unfoldable pub fingerprint : NarInfo → Key
unfolding join sort format_uint
fingerprint info =
    bytes "1;"
    ++ info.store_path
    ++ b';'
      ∷ (info.nar_hash
          ++ b';' ∷ (format_uint info.nar_size ++ b';' ∷ join b',' (sort info.references)))

-- `GenerateFingerprint`; `none` is an error.
unfoldable pub generate_fingerprint : NarInfo → Option Key
unfolding all_in_store fingerprint
generate_fingerprint info =
    if not (has_prefix info.store_path (bytes "/nix/store"))
    then none
    else if not (has_prefix info.nar_hash (bytes "sha256:"))
    then none
    else if not (length info.nar_hash == 59)
    then none
    else if not (all_in_store info.references)
    then none
    else some (fingerprint info)

-- `strings.Cut` at a byte.
unfoldable pub cut : ℕ → Key → Option (Key × Key)
cut c [] = none
cut c (x ∷ s) =
    let rest = cut c s in
    if x == c then some ([], s) else (elim rest [ none ↦ none | some r ↦ some (x ∷ r.0, r.1) ])

-- `PublicKey`, for keys of a type of the service.
pub record PublicKey (K : Type 0) : Type 0 where
  pub name : Key
  pub key : K

-- `base64.StdEncoding.DecodeString` and `ed25519.Verify`.
pub record Crypto (K : Type 0) : Type 0 where
  pub decode : Key → Option Key
  pub verify : K → Key → Key → Bool

module _ {K : Type 0} (crypto : Crypto K) where
  abbrev pub raw_signed_by : PublicKey K → Key → Option Key → Bool
  raw_signed_by k text none = false
  raw_signed_by k text (some raw) = crypto.verify k.key text raw

  abbrev pub parts_signed_by : PublicKey K → Key → Option (Key × Key) → Bool
  parts_signed_by k text none = false
  parts_signed_by k text (some parts) =
      if parts.0 == k.name then raw_signed_by k text (crypto.decode parts.1) else false

  -- One signature, `name:base64`: that of another key does not count.
  unfoldable pub signed_by : PublicKey K → Key → Key → Bool
  unfolding cut
  signed_by k text sig = parts_signed_by k text (cut b':' sig)

  -- The loop over the signatures.
  unfoldable pub any_signed : PublicKey K → Key → List Key → Bool
  unfolding signed_by
  any_signed k text [] = false
  any_signed k text (sig ∷ sigs) =
      let rest = any_signed k text sigs in if signed_by k text sig then true else rest

  -- `VerifyNarinfo`.
  unfoldable pub verify_narinfo : PublicKey K → NarInfo → List Key → Bool
  unfolding generate_fingerprint any_signed
  verify_narinfo k info sigs = elim (generate_fingerprint info) [
    | none ↦ false
    | some text ↦ any_signed k text sigs
  ]
