-- ===== src/Server/Upstream/Misses.antt =====
-- The paths that no upstream had (server/upstream.go: upstreamMisses). Times are in nanoseconds.
use niks.Common.{
  ℕ, ◌+◌, ◌*◌, ◌≤◌, Option, none, some, [], ◌∷◌, Bool, false, if◌then◌else◌, ltb, leb, ◌==◌, nat_eq,
  list_eq, length, ◌≡◌, refl, sym, ap, subst, ◌∙◌, arith, Bool-cases, inl, inr,
}
use niks.Common.Table.{Table, lookup, upsert, delete_where, lookup-upsert}
use niks.Server.Keys.{Key}

abbrev pub upstream_miss_ttl : ℕ
upstream_miss_ttl = 60 * 1000000000

-- When each known miss expires.
abbrev pub Misses : Type 0
Misses = Table Key ℕ

abbrev pub before_some : ℕ → Option ℕ → Bool
before_some now none = false
before_some now (some t) = ltb now t

unfoldable pub recent : Key → ℕ → Misses → Bool
unfolding lookup
recent hash now m = before_some now (lookup hash m)

-- Entries that expired are swept from a large map.
unfoldable pub swept : ℕ → Misses → Misses
unfolding delete_where
swept now m = if leb 10000 (length m) then delete_where (λ k t. ltb t now) m else m

unfoldable pub record_miss : Key → ℕ → Misses → Misses
unfolding swept upsert
record_miss hash now m = upsert hash (λ _. now + upstream_miss_ttl) (swept now m)

-- No path stands twice.
abbrev pub Distinct : Misses → Type 0
Distinct [] = Unit
Distinct ((k, t) ∷ m) = (lookup k m ≡ none) × Distinct m

lookup-delete_where-none :
    (p : Key → ℕ → Bool) (k : Key) (m : Misses)
    → lookup k m ≡ none
    → lookup k (delete_where p m) ≡ none
unfolding lookup delete_where
lookup-delete_where-none p k [] h = refl
lookup-delete_where-none p k ((j, t) ∷ m) h = ground (arith, h, lookup-delete_where-none p k m)

before-delete_where :
    (now later : ℕ) (k : Key) (m : Misses)
    → now ≤ later
    → Distinct m
    → before_some later (lookup k (delete_where (λ k t. ltb t now) m))
      ≡ before_some later (lookup k m)
unfolding lookup delete_where
before-delete_where now later k [] h d = refl
before-delete_where now later k ((j, t) ∷ m) h d = elim (Bool-cases (j == k)) [
  | inl e ↦
      let same : lookup k m ≡ none =
        subst (λ i. lookup i m ≡ none) ((list_eq.test_iff j k).0 e) d.0 in
      ground (arith, h, e, lookup-delete_where-none (λ k t. ltb t now) k m same)
  | inr e ↦ ground (arith, e, before-delete_where now later k m h d.1)
]

before-swept :
    (now later : ℕ) (k : Key) (m : Misses)
    → now ≤ later
    → Distinct m
    → before_some later (lookup k (swept now m)) ≡ before_some later (lookup k m)
unfolding swept
before-swept now later k m h d = elim (Bool-cases (leb 10000 (length m))) [
  | inl e ↦ rw e (before-delete_where now later k m h d)
  | inr e ↦ rw e refl
]

-- After a miss is recorded, that path is a known miss until its time is over, and every other path
-- is one as before, at any later time and however many entries the sweep drops; given that no path
-- stands twice in the map.
pub recent-record_miss :
    (hash k : Key) (now later : ℕ) (m : Misses)
    → now ≤ later
    → Distinct m
    → recent k later (record_miss hash now m)
      ≡ (if hash == k then ltb later (now + upstream_miss_ttl) else recent k later m)
unfolding recent record_miss
recent-record_miss hash k now later m h d =
    let stored = lookup-upsert hash k (λ _. now + upstream_miss_ttl) (swept now m) in
    elim (Bool-cases (hash == k)) [
      | inl e ↦ ap (before_some later) stored ∙ rw e refl
      | inr e ↦ ap (before_some later) stored ∙ rw e (before-swept now later k m h d)
    ]

pub other_way : (a b : Key) → a == b ≡ false → b == a ≡ false
other_way a b h = elim (Bool-cases (b == a)) [
  | inl e ↦ absurd (ground (arith, h, (list_eq.test_iff a b).1 (sym ((list_eq.test_iff b a).0 e))))
  | inr e ↦ e
]

upsert-Distinct :
    (hash : Key) (f : Option ℕ → ℕ) (m : Misses) → Distinct m → Distinct (upsert hash f m)
unfolding upsert lookup
upsert-Distinct hash f [] d = (refl, tt)
upsert-Distinct hash f ((j, t) ∷ m) d = elim (Bool-cases (j == hash)) [
  | inl e ↦ rw e d
  | inr e ↦
      rw e (lookup-upsert hash j f m ∙ rw (other_way j hash e) d.0, upsert-Distinct hash f m d.1)
]

delete_where-Distinct : (p : Key → ℕ → Bool) (m : Misses) → Distinct m → Distinct (delete_where p m)
unfolding delete_where
delete_where-Distinct p [] d = tt
delete_where-Distinct p ((j, t) ∷ m) d = elim (Bool-cases (p j t)) [
  | inl e ↦ rw e (delete_where-Distinct p m d.1)
  | inr e ↦ rw e (lookup-delete_where-none p j m d.0, delete_where-Distinct p m d.1)
]

-- Recording keeps the paths apart.
pub record_miss-Distinct :
    (hash : Key) (now : ℕ) (m : Misses) → Distinct m → Distinct (record_miss hash now m)
unfolding record_miss swept
record_miss-Distinct hash now m d = elim (Bool-cases (leb 10000 (length m))) [
  | inl e ↦ rw e (
      upsert-Distinct hash (λ _. now + upstream_miss_ttl) _
        (delete_where-Distinct (λ k t. ltb t now) m d))
  | inr e ↦ rw e (upsert-Distinct hash (λ _. now + upstream_miss_ttl) m d)
]
