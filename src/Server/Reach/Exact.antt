-- ===== src/Server/Reach/Exact.antt =====
-- `closure_reach` (server/pg/query.sql) computes exactly the objects reachable by references.
use niks.Common.{ℕ, zero, suc, ◌+◌, ◌≤◌, String, some, List, [], ◌∷◌}
use niks.Common.{Bool, true, ◌&&◌, ◌||◌, ◌==◌, string_eq, nat_eq, ==_refl}
use niks.Common.{◌≡◌, refl, sym, ap, ◌∙◌, ◌↔◌, inl, inr, arith, Bool-cases}
use niks.Common.{contains, contains-filterb}
use niks.Common.{length, filterb, anyb, length-filterb-le}
use niks.Common.Table.{keys, lookup, contains-keys}
use niks.Server.Db.{Object}
use niks.Server.Reach.{Objects, refs_of, is_referenced, grow, rounds, closure_reach}
use native.Mathlib.Decide.{dec_lt}

-- Reachability as the query means it: the seeds that are objects, and what those refer to.
pub data Reaches (objs : Objects) (seeds : List String) : String → Type 0 where
  seed :
      {k : String} {o : Object}
      → contains seeds k ≡ true
      → lookup k objs ≡ some o
      → Reaches objs seeds k
  follow :
      {j k : String} {o : Object}
      → Reaches objs seeds j
      → contains (refs_of objs j) k ≡ true
      → lookup k objs ≡ some o
      → Reaches objs seeds k

-- A selection of the table's keys, in the table's order.
abbrev IsSelection : Objects → List String → Type 0
IsSelection objs ks = ks ≡ filterb (λ k. contains ks k) (keys objs)

filterb-congr :
    (p q : String → Bool) (xs : List String)
    → ((x : String) → contains xs x ≡ true → p x ≡ q x)
    → filterb p xs ≡ filterb q xs
unfolding filterb contains
filterb-congr p q [] h = refl
filterb-congr p q (x ∷ xs) h =
    let rest = filterb-congr p q xs (λ y m. h y (ground (arith, m))) in
    ground (arith, rest, h x, ==_refl x)

-- Any test selects the keys that it selects.
filterb-IsSelection :
    (p : String → Bool) (objs : Objects) → IsSelection objs (filterb p (keys objs))
filterb-IsSelection p objs =
    filterb-congr p _ (keys objs) λ x m. rw (contains-filterb p (keys objs) x) (ground (arith, m))

length-filterb_mono :
    (p q : String → Bool) (xs : List String)
    → ((x : String) → p x ≡ true → q x ≡ true)
    → length (filterb p xs) ≤ length (filterb q xs)
unfolding filterb
length-filterb_mono p q [] h = omega arith
length-filterb_mono p q (x ∷ xs) h = ground (arith, h x, length-filterb_mono p q xs h)

-- A larger selection that is no longer is the same.
filterb_same :
    (p q : String → Bool) (xs : List String)
    → ((x : String) → p x ≡ true → q x ≡ true)
    → length (filterb q xs) ≤ length (filterb p xs)
    → filterb p xs ≡ filterb q xs
unfolding filterb
filterb_same p q [] h l = refl
filterb_same p q (x ∷ xs) h l =
    ground (arith, h x, length-filterb_mono p q xs h, filterb_same p q xs h)

module _ (objs : Objects) where
  grow-IsSelection : (ks : List String) → IsSelection objs (grow objs ks)
  unfolding grow
  grow-IsSelection ks = filterb-IsSelection _ objs

  grows : (ks : List String) → IsSelection objs ks → length ks ≤ length (grow objs ks)
  unfolding grow
  grows ks s = omega (
    arith,
    ap length s,
    length-filterb_mono (λ k. contains ks k) (λ k. contains ks k || is_referenced objs ks k)
        (keys objs) (λ k m. rw m),
  )

  grow_same :
      (ks : List String)
      → IsSelection objs ks
      → length (grow objs ks) ≤ length ks
      → grow objs ks ≡ ks
  unfolding grow
  grow_same ks s l = sym (
      s
      ∙ filterb_same (λ k. contains ks k) _ (keys objs) (λ k m. rw m) (omega (arith, ap length s)))

  rounds_fixed : (n : ℕ) (ks : List String) → grow objs ks ≡ ks → rounds n objs ks ≡ ks
  unfolding rounds
  rounds_fixed zero ks e = refl
  rounds_fixed (suc n) ks e = rw e (rounds_fixed n ks e)

  length-grow-le : (ks : List String) → length (grow objs ks) ≤ length (keys objs)
  unfolding grow
  length-grow-le ks = length-filterb-le _ (keys objs)

  -- Rounds for the keys not yet reached are enough.
  grow-rounds :
      (n : ℕ) (ks : List String)
      → IsSelection objs ks
      → length (keys objs) ≤ n + length ks
      → grow objs (rounds n objs ks) ≡ rounds n objs ks
  unfolding rounds
  grow-rounds zero ks s l = grow_same ks s (omega (arith, length-grow-le ks))
  grow-rounds (suc n) ks s l = elim (dec_lt (length ks) (length (grow objs ks))) [
    | yes more ↦ grow-rounds n (grow objs ks) (grow-IsSelection ks) (omega arith)
    | no same ↦
        let e = grow_same ks s (omega arith) in let fixed = rounds_fixed n ks e in rw (e, fixed) e
  ]

  contains-grow :
      (ks : List String) (k : String)
      → contains (grow objs ks) k
        ≡ ((contains ks k || is_referenced objs ks k) && contains (keys objs) k)
  unfolding grow
  contains-grow ks k = contains-filterb _ (keys objs) k

  -- An object that was reached stays reached.
  rounds_keep :
      (n : ℕ) (ks : List String) (k : String)
      → contains (keys objs) k ≡ true
      → contains ks k ≡ true
      → contains (rounds n objs ks) k ≡ true
  unfolding rounds
  rounds_keep zero ks k i m = m
  rounds_keep (suc n) ks k i m = rounds_keep n (grow objs ks) k i (rw (contains-grow ks k, m, i))

length-keys : (objs : Objects) → length (keys objs) ≡ length objs
length-keys [] = refl
length-keys (r ∷ objs) = ap suc (length-keys objs)

lookup_of_contains :
    (k : String) (objs : Objects)
    → contains (keys objs) k ≡ true
    → (o : Object) × (lookup k objs ≡ some o)
lookup_of_contains k objs h = ground (arith, contains-keys k objs)

contains_of_lookup :
    (k : String) (objs : Objects) {o : Object}
    → lookup k objs ≡ some o
    → contains (keys objs) k ≡ true
contains_of_lookup k objs e = rw (contains-keys k objs, e)

is_referenced_by :
    (objs : Objects) (ks : List String) (k : String)
    → is_referenced objs ks k ≡ true
    → (j : String) × (contains ks j ≡ true) × (contains (refs_of objs j) k ≡ true)
unfolding is_referenced anyb contains
is_referenced_by objs [] k h = cc
is_referenced_by objs (j ∷ ks) k h = elim (Bool-cases (contains (refs_of objs j) k)) [
  | inl e ↦ (j, rw (==_refl j), e)
  | inr e ↦
      let (i, m, r) = is_referenced_by objs ks k (ground (arith, e)) in (i, ground (arith, m), r)
]

is_referenced_of :
    (objs : Objects) (ks : List String) (j k : String)
    → contains ks j ≡ true
    → contains (refs_of objs j) k ≡ true
    → is_referenced objs ks k ≡ true
unfolding is_referenced anyb contains
is_referenced_of objs [] j k m r = cc
is_referenced_of objs (i ∷ ks) j k m r = elim (Bool-cases (i == j)) [
  | inl e ↦ rw ((string_eq.test_iff i j).0 e, r)
  | inr e ↦ ground (arith, is_referenced_of objs ks j k)
]

module _ (objs : Objects) (seeds : List String) where
  abbrev AllReached : List String → Type 0
  AllReached ks = (k : String) → contains ks k ≡ true → Reaches objs seeds k

  grow-AllReached : (ks : List String) → AllReached ks → AllReached (grow objs ks)
  grow-AllReached ks all k m = elim (Bool-cases (contains ks k)) [
    | inl old ↦ all k old
    | inr new ↦
        let (o, e) = lookup_of_contains k objs (ground (arith, contains-grow objs ks k)) in
        let (j, held, named) =
          is_referenced_by objs ks k (ground (arith, contains-grow objs ks k)) in
        follow (all j held) named e
  ]

  rounds-AllReached : (n : ℕ) (ks : List String) → AllReached ks → AllReached (rounds n objs ks)
  unfolding rounds
  rounds-AllReached zero ks all = all
  rounds-AllReached (suc n) ks all = rounds-AllReached n (grow objs ks) (grow-AllReached ks all)

  abbrev start : List String
  start = filterb (λ k. contains seeds k) (keys objs)

  contains-start : (k : String) → contains start k ≡ (contains seeds k && contains (keys objs) k)
  contains-start k = contains-filterb _ (keys objs) k

  start-AllReached : AllReached start
  start-AllReached k m =
      let (o, e) = lookup_of_contains k objs (ground (arith, contains-start k)) in
      seed (ground (arith, contains-start k)) e

  closure_reach_fixed : grow objs (closure_reach objs seeds) ≡ closure_reach objs seeds
  unfolding closure_reach
  closure_reach_fixed =
      grow-rounds objs (length objs) start (filterb-IsSelection _ objs)
        (omega (arith, length-keys objs))

  closure_reach_complete :
      {k : String} → Reaches objs seeds k → contains (closure_reach objs seeds) k ≡ true
  unfolding closure_reach
  closure_reach_complete (seed {k} m e) =
      let i = contains_of_lookup k objs e in
      rounds_keep objs (length objs) start k i (rw (contains-start k, m, i))
  closure_reach_complete (follow {j} {k} r named e) = rw (← closure_reach_fixed) (
      rw (contains-grow objs _ k) (
        ground (
          arith,
          is_referenced_of objs (closure_reach objs seeds) j k (closure_reach_complete r) named,
          contains_of_lookup k objs e,
        )))

  -- The recursive query returns the objects that a chain of references reaches from an object
  -- among the seeds, and no others.
  pub closure_reach_exact :
      (k : String) → (contains (closure_reach objs seeds) k ≡ true) ↔ Reaches objs seeds k
  unfolding closure_reach
  closure_reach_exact k =
      (rounds-AllReached (length objs) start start-AllReached k, closure_reach_complete)
