-- ===== src/Common/Decimal.antt =====
-- Decimal numbers as lists of bytes: `strconv.FormatUint` and `strconv.ParseUint` at 64 bits.
use Prim.Native.Nat.{ℕ, zero, suc, ◌+◌, ◌-◌, ◌*◌, ◌/◌, ◌%◌, ◌^◌, ◌<◌}
use mathlib.Core.Path.{◌≡◌, refl, ap, ◌∙◌}
use mathlib.Core.Logic.{◌≢◌}
use mathlib.Core.Bool.{true, false, ◌||◌}
use mathlib.Core.Option.{Option, none, some}
use mathlib.Core.List.{List, [], ◌∷◌}
use native.Mathlib.Omega.{arith}
use niks.Common.Tests.{ltb, nat_beq, if◌then◌else◌}
use niks.Common.Equality.{contains, nat_eq}

-- The digits of a number, its last first; 20 of them hold a `uint64`.
unfoldable pub digits : ℕ → ℕ → List ℕ → List ℕ
digits zero n out = out
digits (suc fuel) n out =
    let out' = (48 + n % 10) ∷ out in
    let rest = digits fuel (n / 10) out' in if nat_beq (n / 10) 0 then out' else rest

unfoldable pub format_uint : ℕ → List ℕ
unfolding digits
format_uint n = digits 20 n []

-- `n * 10 + d` is refused where it does not fit.
unfoldable pub scan : List ℕ → ℕ → Option ℕ
scan [] n = some n
scan (c ∷ s) n =
    let rest = scan s (n * 10 + (c - 48)) in
    if ltb c 48 || ltb 57 c
    then none
    else if ltb (2 ^ 64 - 1) (n * 10 + (c - 48))
    then none
    else rest

unfoldable pub parse_uint : List ℕ → Option ℕ
unfolding scan
parse_uint [] = none
parse_uint (c ∷ s) = scan (c ∷ s) 0

scan_last : (n : ℕ) (out : List ℕ) → n < 2 ^ 64 → scan ((48 + n % 10) ∷ out) (n / 10) ≡ scan out n
unfolding scan
scan_last n out h = ground arith

tenth : (fuel n : ℕ) → n < 10 ^ suc fuel → n / 10 < 10 ^ fuel
tenth fuel n h = omega arith

scan-digits :
    (fuel n : ℕ) (out : List ℕ)
    → n < 10 ^ fuel
    → n < 2 ^ 64
    → scan (digits fuel n out) 0 ≡ scan out n
unfolding digits
scan-digits zero n out small h = ap (λ m. scan out m) (omega (arith, small))
scan-digits (suc fuel) n out small h = ground (
  arith,
  scan_last n out h,
  scan-digits fuel (n / 10) ((48 + n % 10) ∷ out) (tenth fuel n small) (omega (arith, h)),
)

digits-ne-nil : (fuel n c : ℕ) (out : List ℕ) → digits fuel n (c ∷ out) ≢ []
unfolding digits
digits-ne-nil zero n c out h = cc
digits-ne-nil (suc fuel) n c out h =
    ground (arith, h, digits-ne-nil fuel (n / 10) (48 + n % 10) (c ∷ out))

parse-scan : (s : List ℕ) → s ≢ [] → parse_uint s ≡ scan s 0
unfolding parse_uint
parse-scan [] h = absurd (h refl)
parse-scan (c ∷ s) h = refl

format_uint-ne-nil : (n : ℕ) → format_uint n ≢ []
unfolding format_uint digits
format_uint-ne-nil n h = ground (arith, h, digits-ne-nil 19 (n / 10) (48 + n % 10) [])

-- What fits 64 bits is read back.
pub parse_uint-format_uint : (n : ℕ) → n < 2 ^ 64 → parse_uint (format_uint n) ≡ some n
unfolding format_uint scan
parse_uint-format_uint n h =
    parse-scan (format_uint n) (format_uint-ne-nil n) ∙ scan-digits 20 n [] (omega (arith, h)) h

digits-lacks :
    (fuel n c : ℕ) (out : List ℕ)
    → ltb c 48 || ltb 57 c ≡ true
    → contains (digits fuel n out) c ≡ contains out c
unfolding digits contains
digits-lacks zero n c out h = refl
digits-lacks (suc fuel) n c out h =
    ground (arith, h, digits-lacks fuel (n / 10) c ((48 + n % 10) ∷ out) h)

pub format_uint-lacks : (n c : ℕ) → ltb c 48 || ltb 57 c ≡ true → contains (format_uint n) c ≡ false
unfolding format_uint contains
format_uint-lacks n c h = digits-lacks 20 n c [] h
