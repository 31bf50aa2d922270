-- ===== src/Server/Signing/Tests.antt =====
-- A fingerprint, and its signature by a scheme that repeats the text (server/signing/).

use niks.Common.{
  String, string_eq, ==_refl, none, some, List, [], ◌∷◌, ◌++◌, true, false, ◌==◌, list_eq, nat_eq,
  contains, ◌≡◌, ◌↔◌, refl, arith,
}
use niks.Server.Keys.{Key, bytes}
use niks.Server.Sign.{NarInfo}
use niks.Server.Signing.{fingerprint, generate_fingerprint, Crypto, PublicKey, verify_narinfo}
use niks.Common.Table.{Table, lookup}
use niks.Server.Signing.Secret.{Ed25519, SecretKey, parse_key, signature, sign}
use niks.Server.Signing.Secret.Verified.{Sound, public_of, sign-verify_narinfo}
use niks.Server.Signing.Unambiguous.{Plain, Same, generate_fingerprint-Same}

abbrev info : List Key → NarInfo
info refs = record {
  store_path = bytes "/nix/store/a-x";
  nar_hash = bytes "sha256:0123456789012345678901234567890123456789012345678901";
  nar_size = 120;
  references = refs;
}

abbrev path : Key
path = bytes "/nix/store/b-y"

abbrev path' : Key
path' = bytes "/nix/store/c-z"

abbrev text : Key
text =
    bytes "1;/nix/store/a-x;sha256:0123456789012345678901234567890123456789012345678901;120;"
    ++ bytes "/nix/store/b-y,/nix/store/c-z"

made : generate_fingerprint (info (path ∷ path' ∷ [])) ≡ some text
unfolding generate_fingerprint fingerprint
made = refl

made' : generate_fingerprint (info (path' ∷ path ∷ [])) ≡ some text
unfolding generate_fingerprint fingerprint
made' = refl

info-Plain : Plain (info (path ∷ path' ∷ []))
unfolding contains
info-Plain = record { path = refl; refs = (refl, (refl, tt)); size = omega arith }

info'-Plain : Plain (info (path' ∷ path ∷ []))
unfolding contains
info'-Plain = record { path = refl; refs = (refl, (refl, tt)); size = omega arith }

generate_fingerprint-Same_example :
    (text ≡ text) ↔ Same (info (path ∷ path' ∷ [])) (info (path' ∷ path ∷ []))
generate_fingerprint-Same_example =
    generate_fingerprint-Same (info (path ∷ path' ∷ [])) (info (path' ∷ path ∷ [])) text text
      info-Plain info'-Plain made made'

-- The scheme: a signature is the key and the text.
abbrev repeat : Crypto Key
repeat = record { decode = λ s. some s; verify = λ k t s. s == k ++ t }

abbrev public_key : PublicKey Key
public_key = record { name = bytes "c"; key = bytes "K" }

verified :
    verify_narinfo repeat public_key
      (info (path ∷ path' ∷ []))
      (bytes "d:Kx" ∷ (bytes "c:K" ++ text) ∷ [])
    ≡ true
unfolding verify_narinfo generate_fingerprint fingerprint
verified = refl

not_verified : verify_narinfo repeat public_key (info []) ((bytes "c:K" ++ text) ∷ []) ≡ false
unfolding verify_narinfo generate_fingerprint fingerprint
not_verified = refl

-- The same scheme, signing. A key is its seed.
abbrev ed : Ed25519 Key
ed = record {
  decode = λ s. some s;
  decode_raw = λ s. none;
  encode = λ s. s;
  new_key_from_seed = λ s. s;
  private_key = λ s. s;
  public_key = λ s. s;
  sign = λ k t. k ++ t;
}

abbrev secret : SecretKey Key
secret = record { name = bytes "c"; key = bytes "01234567890123456789012345678901" }

read : parse_key ed (bytes " c : 01234567890123456789012345678901") ≡ some secret
unfolding parse_key
read = refl

abbrev signatures : Table String Key
signatures = ("a", signature ed secret text) ∷ []

abbrev infos : Table String NarInfo
infos = ("a", info (path ∷ path' ∷ [])) ∷ []

signed : sign ed secret infos ≡ some signatures
unfolding sign generate_fingerprint fingerprint
signed = refl

sound : Sound ed repeat (λ k. k)
sound = record { decodes = λ s. refl; verifies = λ p t. ==_refl (p ++ t) }

sign-verify_narinfo_example :
    (sig : Key) × ((lookup "a" signatures ≡ some sig)
      × ((before after : List Key)
          → verify_narinfo repeat
              (public_of ed repeat (λ k. k) secret)
              (info (path ∷ path' ∷ []))
              (before ++ sig ∷ after)
            ≡ true))
unfolding lookup
sign-verify_narinfo_example =
    sign-verify_narinfo ed repeat (λ k. k) (bytes " c : 01234567890123456789012345678901") secret
      infos signatures "a" (info (path ∷ path' ∷ [])) sound read signed refl
