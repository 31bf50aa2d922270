-- ===== src/Common/Equality.antt =====
-- Types with a Boolean equality test, and lists read as sets by that test.
use Prim.Native.Nat.{ℕ}
use Prim.Native.String.{String}
use mathlib.Core.Path.{◌≡◌, refl}
use mathlib.Core.Logic.{◌↔◌}
use mathlib.Core.Bool.{Bool, true, false, ◌||◌, not, ◌&&◌}
use mathlib.Core.List.{List, [], ◌∷◌, ◌++◌}
use native.Mathlib.Omega.{arith}
use text.Mathlib.Text.{◌==◌ as str_eq}
use text.Mathlib.TextEquality.{eq_iff}
use niks.Common.Tests.{nat_beq, nat_beq_iff}
use niks.Common.Lists.{filterb}

pub record Eq {ℓ} (A : Type ℓ) : Type ℓ where
  pub test : A → A → Bool
  pub test_iff : (a b : A) → (test a b ≡ true) ↔ (a ≡ b)

instance abbrev pub string_eq : Eq String
string_eq = record { test_iff = eq_iff; test = str_eq }

-- `a == b` in Go, for a type whose values can be compared.
infix 50 ◌==◌
abbrev pub ◌==◌ {ℓ} : {A : Type ℓ} ⦃e : Eq A⦄ → A → A → Bool
◌==◌ ⦃e⦄ a b = e.test a b

instance abbrev pub nat_eq : Eq ℕ
nat_eq = record { test_iff = nat_beq_iff; test = nat_beq }

pub ==_refl {ℓ} : {A : Type ℓ} ⦃e : Eq A⦄ (a : A) → (a == a) ≡ true
==_refl ⦃e⦄ a = (e.test_iff a a).1 refl

module _ {ℓ} {A : Type ℓ} ⦃e : Eq A⦄ where
  unfoldable pub contains : List A → A → Bool
  contains [] a = false
  contains (x ∷ xs) a = x == a || contains xs a

  -- Keeps the first of equal elements.
  unfoldable pub dedup : List A → List A
  dedup [] = []
  dedup (x ∷ xs) = x ∷ filterb (λ y. not (x == y)) (dedup xs)

  -- Every element of `xs` is one of `ys`.
  abbrev pub subset : List A → List A → Bool
  subset [] ys = true
  subset (x ∷ xs) ys = contains ys x && subset xs ys

  pub contains-append :
      (xs ys : List A) (a : A) → contains (xs ++ ys) a ≡ (contains xs a || contains ys a)
  unfolding contains
  contains-append [] ys a = refl
  contains-append (x ∷ xs) ys a = ground (arith, contains-append xs ys a)

  pub contains-filterb :
      (p : A → Bool) (xs : List A) (a : A) → contains (filterb p xs) a ≡ (p a && contains xs a)
  unfolding contains filterb
  contains-filterb p [] a = ground arith
  contains-filterb p (x ∷ xs) a = ground (arith, contains-filterb p xs a, e.test_iff x a)

  pub contains-dedup : (xs : List A) (a : A) → contains (dedup xs) a ≡ contains xs a
  unfolding contains dedup
  contains-dedup [] a = refl
  contains-dedup (x ∷ xs) a =
      ground (arith, contains-filterb (λ (y : A). not (x == y)) (dedup xs) a, contains-dedup xs a)

  pub subset→contains :
      (xs ys : List A) (a : A) → subset xs ys ≡ true → contains xs a ≡ true → contains ys a ≡ true
  unfolding contains
  subset→contains [] ys a h m = cc
  subset→contains (x ∷ xs) ys a h m = ground (arith, subset→contains xs ys a, e.test_iff x a)

abbrev pub list_beq {ℓ} : {A : Type ℓ} ⦃e : Eq A⦄ → List A → List A → Bool
list_beq [] [] = true
list_beq [] (y ∷ ys) = false
list_beq (x ∷ xs) [] = false
list_beq (x ∷ xs) (y ∷ ys) = x == y && list_beq xs ys

pub list_beq_iff {ℓ} :
    {A : Type ℓ} ⦃e : Eq A⦄ (xs ys : List A) → (list_beq xs ys ≡ true) ↔ (xs ≡ ys)
list_beq_iff [] [] = (λ _. refl, λ _. refl)
list_beq_iff [] (y ∷ ys) = (λ h. cc, λ h. cc)
list_beq_iff (x ∷ xs) [] = (λ h. cc, λ h. cc)
list_beq_iff ⦃e⦄ (x ∷ xs) (y ∷ ys) =
    let (there, back) = list_beq_iff ⦃e = e⦄ xs ys in
    let (there_head, back_head) = e.test_iff x y in
    (λ h. ground (arith, h, there, there_head), λ h. ground (arith, h, back, back_head))

instance abbrev pub list_eq {ℓ} : {A : Type ℓ} ⦃e : Eq A⦄ → Eq (List A)
list_eq ⦃e⦄ = record { test = list_beq ⦃e = e⦄; test_iff = list_beq_iff ⦃e = e⦄ }
