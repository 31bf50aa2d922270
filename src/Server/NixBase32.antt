-- ===== src/Server/NixBase32.antt =====
-- Nix's base 32 (api/nixbase32.go). Bytes shifted out of a byte are lost.
use Prim.Native.Nat.{bit_or, bit_and}
use niks.Common.{
  ℕ, zero, suc, ◌+◌, ◌-◌, ◌*◌, ◌/◌, ◌%◌, ◌^◌, [], ◌∷◌, ltb, if◌then◌else◌, length, ◌==◌, nat_eq,
  ◌≡◌, refl,
}
use niks.Server.Keys.{Key, bytes}

abbrev byte_at : ℕ → Key → ℕ
byte_at i [] = 0
byte_at zero (x ∷ s) = x
byte_at (suc i) (x ∷ s) = byte_at i s

-- Five bits, from bit `n * 5` of the little-endian number on.
unfoldable pub five_bits : Key → ℕ → ℕ
five_bits input n =
    let i = n * 5 / 8 in
    let j = n * 5 % 8 in
    let low = byte_at i input / 2 ^ j in
    let c =
      if ltb (i + 1) (length input)
      then bit_or low ((byte_at (i + 1) input * 2 ^ (8 - j)) % 256)
      else low in
    bit_and c 31

-- The characters for the positions below `n`, the last first.
unfoldable pub encode_below : Key → ℕ → Key
unfolding five_bits
encode_below input zero = []
encode_below input (suc n) =
    byte_at (five_bits input n) (bytes "0123456789abcdfghijklmnpqrsvwxyz") ∷ encode_below input n

-- `EncodeNixBase32`.
unfoldable pub encode_nix_base32 : Key → Key
unfolding encode_below
encode_nix_base32 input =
    if length input == 0 then [] else encode_below input ((length input * 8 - 1) / 5 + 1)

encoded : encode_nix_base32 (1 ∷ 255 ∷ 128 ∷ []) ≡ bytes "81zq1"
unfolding encode_nix_base32
encoded = refl
