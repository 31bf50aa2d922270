-- ===== src/Common/Split.antt =====
-- Texts put together around a separator, and what is found again of their parts.
use Prim.Native.Nat.{ℕ}
use mathlib.Core.Path.{◌≡◌, refl, sym, ap}
use mathlib.Core.Logic.{◌≢◌}
use mathlib.Core.Bool.{false}
use mathlib.Core.List.{List, [], ◌∷◌, ◌++◌}
use native.Mathlib.Omega.{arith}
use niks.Common.Equality.{nat_eq, contains}

-- `strings.Join`, with a separator of one byte.
unfoldable pub join : ℕ → List (List ℕ) → List ℕ
join c [] = []
join c (a ∷ []) = a
join c (a ∷ b ∷ ts) = a ++ c ∷ join c (b ∷ ts)

-- The byte is in none of the texts, and none is empty.
abbrev pub Pieces : ℕ → List (List ℕ) → Type 0
Pieces c [] = Unit {0}
Pieces c (a ∷ ts) = ((a ≢ []) × (contains a c ≡ false)) × Pieces c ts

-- Where a byte that is in neither text stands is where they end.
pub append-injective :
    (c : ℕ) (a b x y : List ℕ)
    → contains a c ≡ false
    → contains b c ≡ false
    → a ++ c ∷ x ≡ b ++ c ∷ y
    → (a ≡ b) × (x ≡ y)
unfolding contains
append-injective c [] [] x y h k e = ground arith
append-injective c [] (j ∷ b) x y h k e = absurd (ground arith)
append-injective c (i ∷ a) [] x y h k e = absurd (ground arith)
append-injective c (i ∷ a) (j ∷ b) x y h k e = ground (arith, append-injective c a b x y)

-- A text that has the byte is no text without it.
append-ne : (c : ℕ) (a b x : List ℕ) → contains b c ≡ false → a ++ c ∷ x ≢ b
unfolding contains
append-ne c [] [] x h e = cc
append-ne c [] (j ∷ b) x h e = ground arith
append-ne c (i ∷ a) [] x h e = cc
append-ne c (i ∷ a) (j ∷ b) x h e = ground (arith, append-ne c a b x)

append-ne-nil : (c : ℕ) (a x : List ℕ) → a ++ c ∷ x ≢ []
append-ne-nil c [] x e = cc
append-ne-nil c (i ∷ a) x e = cc

pub join-injective :
    (c : ℕ) (ts bs : List (List ℕ)) → Pieces c ts → Pieces c bs → join c ts ≡ join c bs → ts ≡ bs
unfolding join
join-injective c [] [] p q e = refl
join-injective c [] (b ∷ []) p q e = absurd (q.0.0 (sym e))
join-injective c [] (b ∷ b' ∷ bs) p q e = absurd (append-ne-nil c b _ (sym e))
join-injective c (a ∷ []) [] p q e = absurd (p.0.0 e)
join-injective c (a ∷ []) (b ∷ []) p q e = ap (λ t. t ∷ []) e
join-injective c (a ∷ []) (b ∷ b' ∷ bs) p q e = absurd (append-ne c b a _ p.0.1 (sym e))
join-injective c (a ∷ a' ∷ ts) [] p q e = absurd (append-ne-nil c a _ e)
join-injective c (a ∷ a' ∷ ts) (b ∷ []) p q e = absurd (append-ne c a b _ q.0.1 e)
join-injective c (a ∷ a' ∷ ts) (b ∷ b' ∷ bs) p q e =
    let (same, rest) = append-injective c a b _ _ p.0.1 q.0.1 e in
    cc (same, join-injective c (a' ∷ ts) (b' ∷ bs) p.1 q.1 rest)
