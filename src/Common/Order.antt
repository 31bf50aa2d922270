-- ===== src/Common/Order.antt =====
-- Texts in the order of their bytes (`strings.Compare`), and `sort.Strings`.
use Prim.Native.Nat.{ℕ}
use mathlib.Core.Path.{◌≡◌, refl, sym, ap, subst, ◌∙◌}
use mathlib.Core.Logic.{inl, inr, ◌↔◌}
use mathlib.Core.Bool.{Bool, true, false, ◌||◌, ◌&&◌}
use mathlib.Core.List.{List, [], ◌∷◌, foldr}
use mathlib.Core.List.Perm
use mathlib.Core.List.{Perm}
use native.Mathlib.Omega.{arith}
use niks.Common.Tests.{ltb, if◌then◌else◌, Bool-cases}
use niks.Common.Equality.{◌==◌, nat_eq, list_eq}

unfoldable pub text_le : List ℕ → List ℕ → Bool
text_le [] b = true
text_le (x ∷ a) [] = false
text_le (x ∷ a) (y ∷ b) = ltb x y || x == y && text_le a b

unfoldable pub insert : List ℕ → List (List ℕ) → List (List ℕ)
unfolding text_le
insert a [] = a ∷ []
insert a (b ∷ bs) = let rest = insert a bs in if text_le a b then a ∷ b ∷ bs else b ∷ rest

unfoldable pub sort : List (List ℕ) → List (List ℕ)
unfolding insert
sort [] = []
sort (a ∷ ts) = insert a (sort ts)

text_le-total : (a b : List ℕ) → text_le a b ≡ false → text_le b a ≡ true
unfolding text_le
text_le-total [] b h = cc
text_le-total (x ∷ a) [] h = refl
text_le-total (x ∷ a) (y ∷ b) h = ground (arith, text_le-total a b)

text_le-antisym : (a b : List ℕ) → text_le a b ≡ true → text_le b a ≡ true → a ≡ b
unfolding text_le
text_le-antisym [] [] h k = refl
text_le-antisym [] (y ∷ b) h k = cc
text_le-antisym (x ∷ a) [] h k = cc
text_le-antisym (x ∷ a) (y ∷ b) h k = ground (arith, text_le-antisym a b)

text_le_trans : (a b c : List ℕ) → text_le a b ≡ true → text_le b c ≡ true → text_le a c ≡ true
unfolding text_le
text_le_trans [] b c h k = refl
text_le_trans (x ∷ a) [] c h k = cc
text_le_trans (x ∷ a) (y ∷ b) [] h k = cc
text_le_trans (x ∷ a) (y ∷ b) (z ∷ c) h k = ground (arith, text_le_trans a b c)

-- Two texts can be inserted in either order.
insert_comm : (a b : List ℕ) (cs : List (List ℕ)) → insert a (insert b cs) ≡ insert b (insert a cs)
unfolding insert
insert_comm a b [] = ground (arith, text_le-total a b, text_le-total b a, text_le-antisym a b)
insert_comm a b (c ∷ cs) = ground (
  arith,
  insert_comm a b cs,
  text_le-total a b,
  text_le-total b a,
  text_le-antisym a b,
  text_le_trans a b c,
  text_le_trans b a c,
  text_le-total a c,
  text_le-total b c,
  text_le_trans a c b,
  text_le_trans b c a,
)

sort-foldr : (ts : List (List ℕ)) → foldr insert [] ts ≡ sort ts
unfolding sort
sort-foldr [] = refl
sort-foldr (a ∷ ts) = ap (λ bs. insert a bs) (sort-foldr ts)

insert-Perm : (a : List ℕ) (bs : List (List ℕ)) → Perm (insert a bs) (a ∷ bs)
unfolding insert
insert-Perm a [] = Perm.refl (a ∷ [])
insert-Perm a (b ∷ bs) = elim (Bool-cases (text_le a b)) [
  | inl e ↦ rw (e, insert) (Perm.refl (a ∷ b ∷ bs))
  | inr e ↦ rw (e, insert) (Perm.trans (Perm.cons b (insert-Perm a bs)) (Perm.swap a b bs))
]

pub sort-Perm : (ts : List (List ℕ)) → Perm (sort ts) ts
unfolding sort
sort-Perm [] = Perm.refl []
sort-Perm (a ∷ ts) = Perm.trans (insert-Perm a (sort ts)) (Perm.cons a (sort-Perm ts))

-- Sorting forgets the order of its texts, and nothing else.
pub sort-Perm-iff : (ts us : List (List ℕ)) → (sort ts ≡ sort us) ↔ Perm ts us
sort-Perm-iff ts us = (
  λ e. Perm.trans (Perm.symm (sort-Perm ts)) (subst (λ vs. Perm vs us) (sym e) (sort-Perm us)),
  λ p. sym (sort-foldr ts) ∙ (Perm.foldr-eq (hlevel) insert insert_comm p [] ∙ sort-foldr us),
)
