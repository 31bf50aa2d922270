-- ===== src/Auth/Glob.antt =====
-- Glob matching of claims, subjects and pin names (server/oidc/claims.go: GlobMatch), on bytes.
pub mod Matches
pub mod Correct
use niks.Common.{ℕ, zero, suc, ◌+◌, ◌*◌, Option, none, some, List, [], ◌∷◌}
use niks.Common.{Bool, true, false, ◌||◌, if◌then◌else◌, nat_beq, length, drop}

abbrev pub Bytes : Type 0
Bytes = List ℕ

-- The last loop: what is left of the pattern are stars.
unfoldable pub all_stars : Bytes → Bool
all_stars [] = true
all_stars (p ∷ ps) = let rest = all_stars ps in if nat_beq p b'*' then rest else false

-- What the loop does with the byte that `pIdx` points at: match it to the string's, note a star,
-- or go back.
pub data Move : Type 0 where
  advance note_star go_back : Move

unfoldable pub move : Bytes → ℕ → Move
move [] c = go_back
move (p ∷ ps) c =
    if nat_beq p b'?' || nat_beq p c then advance else if nat_beq p b'*' then note_star else go_back

-- The loop, on fuel; `none` means that the fuel ran out. An index stands for the bytes from it on:
-- `pat` for `pIdx`, `str` for `sIdx`, and `star` for `starIdx + 1` and `matchIdx`.
unfoldable pub glob_loop : ℕ → Bytes → Bytes → Option (Bytes × Bytes) → Option Bool
unfolding all_stars move
glob_loop zero pat str star = none
glob_loop (suc fuel) pat [] star = some (all_stars pat)
glob_loop (suc fuel) pat (c ∷ s) none = elim (move pat c) [
  | advance ↦ glob_loop fuel (drop 1 pat) s none
  | note_star ↦ glob_loop fuel (drop 1 pat) (c ∷ s) (some (drop 1 pat, c ∷ s))
  | go_back ↦ some false
]
glob_loop (suc fuel) pat (c ∷ s) (some (after, from)) = elim (move pat c) [
  | advance ↦ glob_loop fuel (drop 1 pat) s (some (after, from))
  | note_star ↦ glob_loop fuel (drop 1 pat) (c ∷ s) (some (drop 1 pat, c ∷ s))
  | go_back ↦ glob_loop fuel after (drop 1 from) (some (after, drop 1 from))
]

abbrev pub glob_fuel : Bytes → Bytes → ℕ
glob_fuel pattern str = suc (suc (length str) * suc (length pattern) + length pattern)

-- `GlobMatch`, whose first two tests are shortcuts.
unfoldable pub glob_match : Bytes → Bytes → Option Bool
unfolding glob_loop
glob_match pattern str = elim pattern [
  | [] ↦ elim str [ [] ↦ some true | c ∷ s ↦ some false ]
  | p ∷ ps ↦ elim ps [
    | [] ↦
        if nat_beq p b'*' then some true else glob_loop (glob_fuel (p ∷ []) str) (p ∷ []) str none
    | q ∷ qs ↦ glob_loop (glob_fuel (p ∷ q ∷ qs) str) (p ∷ q ∷ qs) str none
  ]
]
