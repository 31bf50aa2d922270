-- ===== src/Hook/Queue/Refinement.antt =====
-- The queue is a first-in-first-out list of distinct paths (hook/queue.go): `enqueue` adds the new
-- ones at the back, `retry` moves a path to the back, `remove` takes paths out.
use niks.Common.{ℕ, zero, suc, ◌≤◌, ◌<◌, String, List, [], ◌∷◌, ◌++◌}
use niks.Common.{Bool, not, ◌==◌, string_eq, nat_eq}
use niks.Common.{◌≡◌, refl, sym, ap, ◌∙◌, inl, inr, arith, Bool-cases}
use niks.Common.{contains, contains-append}
use niks.Common.{length, take, drop, filterb, take-append-drop}
use niks.Hook.Queue.Fifo
use niks.Hook.Queue.{
  Row, Queue, paths_of, max_rowid, place, insert_or_ignore, enqueue, delete_paths, remove_loop,
  remove, retry_one, retry, remove_chunk,
}

-- The rowids are below a bound.
abbrev Bounded : ℕ → Queue → Type 0
Bounded n [] = Unit {0}
Bounded n (r ∷ q) = (r.rowid ≤ n) × Bounded n q

max_rowid-Bounded : (n : ℕ) (q : Queue) → max_rowid q ≤ n → Bounded n q
unfolding max_rowid
max_rowid-Bounded n [] h = tt
max_rowid-Bounded n (r ∷ q) h = (ground arith, max_rowid-Bounded n q (ground arith))

Bounded-filterb : (p : Row → Bool) (n : ℕ) (q : Queue) → Bounded n q → Bounded n (filterb p q)
unfolding filterb
Bounded-filterb p n [] b = tt
Bounded-filterb p n (r ∷ q) b = elim (Bool-cases (p r)) [
  | inl e ↦ rw (e, filterb) (b.0, Bounded-filterb p n q b.1)
  | inr e ↦ rw (e, filterb) (Bounded-filterb p n q b.1)
]

-- A row with a larger rowid than all others goes to the end.
paths-place :
    (r : Row) (q : Queue) (n : ℕ)
    → Bounded n q
    → n < r.rowid
    → paths_of (place r q) ≡ paths_of q ++ (r.store_path ∷ [])
unfolding place
paths-place r [] n b h = refl
paths-place r (x ∷ q) n b h = ground (arith, paths-place r q n b.1, b.0)

paths-filterb :
    (p : String → Bool) (q : Queue)
    → paths_of (filterb (λ r. p r.store_path) q) ≡ filterb p (paths_of q)
unfolding filterb
paths-filterb p [] = refl
paths-filterb p (r ∷ q) = ground (arith, paths-filterb p q)

paths-insert_or_ignore :
    (p : String) (q : Queue) → paths_of (insert_or_ignore p q) ≡ Fifo.add p (paths_of q)
unfolding insert_or_ignore
paths-insert_or_ignore p q = ground (
  arith,
  paths-place (record { rowid = suc (max_rowid q); store_path = p }) q (max_rowid q)
      (max_rowid-Bounded (max_rowid q) q (omega arith)),
)

-- Enqueueing adds the paths that are not queued yet at the back, in their order.
pub paths-enqueue :
    (ps : List String) (q : Queue) → paths_of (enqueue ps q) ≡ Fifo.add_all ps (paths_of q)
unfolding enqueue Fifo.add_all
paths-enqueue [] q = refl
paths-enqueue (p ∷ ps) q =
    paths-enqueue ps (insert_or_ignore p q) ∙ ap (Fifo.add_all ps) (paths-insert_or_ignore p q)

paths-retry_one : (p : String) (q : Queue) → paths_of (retry_one p q) ≡ Fifo.to_back p (paths_of q)
unfolding retry_one
paths-retry_one p q = ground (
  arith,
  paths-place (record { rowid = suc (max_rowid q); store_path = p })
      (filterb (λ (r : Row). not (r.store_path == p)) q) (max_rowid q)
      (Bounded-filterb (λ (r : Row). not (r.store_path == p)) (max_rowid q) q
        (max_rowid-Bounded (max_rowid q) q (omega arith))),
  paths-filterb (λ (j : String). not (j == p)) q,
)

-- Retrying moves each of the given paths that is queued to the back, in their order, and keeps the
-- order of the others.
pub paths-retry :
    (ps : List String) (q : Queue) → paths_of (retry ps q) ≡ Fifo.all_to_back ps (paths_of q)
unfolding retry Fifo.all_to_back
paths-retry [] q = refl
paths-retry (p ∷ ps) q =
    paths-retry ps (retry_one p q) ∙ ap (Fifo.all_to_back ps) (paths-retry_one p q)

without-append :
    (xs ys ps : List String) → Fifo.without ys (Fifo.without xs ps) ≡ Fifo.without (xs ++ ys) ps
unfolding filterb
without-append xs ys [] = refl
without-append xs ys (p ∷ ps) = ground (arith, contains-append xs ys p, without-append xs ys ps)

without-nil : (ps : List String) → Fifo.without [] ps ≡ ps
unfolding filterb contains
without-nil [] = refl
without-nil (p ∷ ps) = rw (without-nil ps)

length-drop-lt :
    (size : ℕ) (p : String) (ps : List String) → 0 < size → length (drop size (p ∷ ps)) ≤ length ps
length-drop-lt (suc n) p ps h = length-drop-le n ps
  where
    length-drop-le : (m : ℕ) (xs : List String) → length (drop m xs) ≤ length xs
    length-drop-le zero xs = omega arith
    length-drop-le (suc m) [] = omega arith
    length-drop-le (suc m) (x ∷ xs) = omega (arith, length-drop-le m xs)
length-drop-lt zero p ps h = absurd (omega arith)

paths-remove_loop :
    (fuel size : ℕ) (ps : List String) (q : Queue)
    → 0 < size
    → length ps ≤ fuel
    → paths_of (remove_loop fuel size ps q) ≡ Fifo.without ps (paths_of q)
unfolding remove_loop delete_paths
paths-remove_loop zero size [] q h l = sym (without-nil (paths_of q))
paths-remove_loop zero size (p ∷ ps) q h l = absurd (omega arith)
paths-remove_loop (suc fuel) size [] q h l = sym (without-nil (paths_of q))
paths-remove_loop (suc fuel) size (p ∷ ps) q h l =
    paths-remove_loop fuel size (drop size (p ∷ ps)) _ h (omega (arith, length-drop-lt size p ps h))
    ∙ ap (Fifo.without (drop size (p ∷ ps)))
        (paths-filterb (λ j. not (contains (take size (p ∷ ps)) j)) q)
    ∙ without-append (take size (p ∷ ps)) (drop size (p ∷ ps)) (paths_of q)
    ∙ ap (λ xs. Fifo.without xs (paths_of q)) (take-append-drop size (p ∷ ps))

-- Removing in chunks takes out all the given paths, however many, and keeps the others in order.
pub paths-remove :
    (ps : List String) (q : Queue) → paths_of (remove ps q) ≡ Fifo.without ps (paths_of q)
unfolding remove
paths-remove ps q = paths-remove_loop (length ps) remove_chunk ps q (omega arith) (omega arith)
