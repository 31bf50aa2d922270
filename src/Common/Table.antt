-- ===== src/Common/Table.antt =====
-- A database table with a primary key, as an association list.
use mathlib.Core.Option
use niks.Common.Tests.{if◌then◌else◌, is_none}
use niks.Common.Equality.{Eq, ◌==◌, contains}
use mathlib.Core.Path.{◌≡◌, refl}
use mathlib.Core.Bool.{Bool, not}
use mathlib.Core.Option.{Option, none, some}
use mathlib.Core.List.{List, [], ◌∷◌, map}
use native.Mathlib.Omega.{arith}

abbrev pub Table {ℓ κ} : Type ℓ → Type κ → Type (ℓ ⊔ κ)
Table K V = List (K × V)

module _ {ℓ κ} {K : Type ℓ} {V : Type κ} where
  abbrev pub keys : Table K V → List K
  keys = map (λ r. r.0)

  -- `UPDATE … SET v = f k v` over all rows.
  unfoldable pub update_all : (K → V → V) → Table K V → Table K V
  update_all f [] = []
  update_all f ((k, v) ∷ m) = (k, f k v) ∷ update_all f m

  -- The keys of the rows that pass the test, in the table's order.
  unfoldable pub select_keys : (K → V → Bool) → Table K V → List K
  select_keys p [] = []
  select_keys p ((k, v) ∷ m) = let rest = select_keys p m in if p k v then k ∷ rest else rest

  -- `DELETE … WHERE p`.
  unfoldable pub delete_where : (K → V → Bool) → Table K V → Table K V
  delete_where p [] = []
  delete_where p ((k, v) ∷ m) = let rest = delete_where p m in if p k v then rest else (k, v) ∷ rest

  pub keys-update_all : (f : K → V → V) (m : Table K V) → keys (update_all f m) ≡ keys m
  unfolding update_all
  keys-update_all f [] = refl
  keys-update_all f ((k, v) ∷ m) = ground (arith, keys-update_all f m)

module _ {ℓ κ} {K : Type ℓ} {V : Type κ} ⦃e : Eq K⦄ where
  unfoldable pub lookup : K → Table K V → Option V
  lookup k [] = none
  lookup k ((j, v) ∷ m) = if j == k then some v else lookup k m

  -- `INSERT … ON CONFLICT DO UPDATE`: `f` sees the row in conflict, if there is one.
  unfoldable pub upsert : K → (Option V → V) → Table K V → Table K V
  upsert k f [] = (k, f none) ∷ []
  upsert k f ((j, v) ∷ m) = if j == k then (j, f (some v)) ∷ m else (j, v) ∷ upsert k f m

  pub lookup-upsert :
      (k j : K) (f : Option V → V) (m : Table K V)
      → lookup j (upsert k f m) ≡ (if k == j then some (f (lookup k m)) else lookup j m)
  unfolding lookup upsert
  lookup-upsert k j f [] = refl
  lookup-upsert k j f ((i, v) ∷ m) =
      ground (arith, lookup-upsert k j f m, e.test_iff i k, e.test_iff i j, e.test_iff k j)

  pub lookup-update_all :
      (f : K → V → V) (k : K) (m : Table K V)
      → lookup k (update_all f m) ≡ Option.map (f k) (lookup k m)
  unfolding lookup update_all
  lookup-update_all f k [] = refl
  lookup-update_all f k ((j, v) ∷ m) = ground (arith, lookup-update_all f k m, e.test_iff j k)

  -- Deleting by key, whatever the row holds.
  pub lookup-delete_where :
      (p : K → Bool) (k : K) (m : Table K V)
      → lookup k (delete_where (λ j v. p j) m) ≡ (if p k then none else lookup k m)
  unfolding lookup delete_where
  lookup-delete_where p k [] = ground arith
  lookup-delete_where p k ((j, v) ∷ m) = ground (arith, lookup-delete_where p k m, e.test_iff j k)

  pub contains-keys : (k : K) (m : Table K V) → contains (keys m) k ≡ not (is_none (lookup k m))
  unfolding lookup contains
  contains-keys k [] = refl
  contains-keys k ((j, v) ∷ m) = ground (arith, contains-keys k m)
