-- ===== src/Hook/Queue.antt =====
-- The upload queue (hook/queue.go): the table upload_queue(store_path PRIMARY KEY), kept by SQLite
-- in the order of its rowids. A failed statement rolls its transaction back and changes nothing.
pub mod Fifo
pub mod Refinement
pub mod Members
use niks.Common.{
  ℕ, zero, suc, ◌+◌, ◌-◌, ◌*◌, ◌≤◌, ◌<◌, String, Option, none, some, List, [], ◌∷◌, ◌++◌, map,
}
use niks.Common.{
  Bool, true, false, not, ◌&&◌, ◌||◌, if◌then◌else◌, ltb, leb, ◌==◌, Eq, string_eq, nat_eq, ==_refl,
}
use niks.Common.{
  ◌≡◌, refl, sym, ap, subst, ◌∙◌, ◌≢◌, ◌↔◌, ◌⊎◌, inl, inr, arith, Bool-cases, Option-cases, is_none,
}
use niks.Common.{
  contains, dedup, subset, contains-append, contains-filterb, contains-dedup, subset→contains,
}
use niks.Common.{
  length, take, drop, filterb, anyb, length-append, length-filterb-le, filterb-append,
  take-append-drop,
}

pub record Row : Type 0 where
  pub rowid : ℕ
  pub store_path : String

abbrev pub Queue : Type 0
Queue = List Row

abbrev pub paths_of : Queue → List String
paths_of = map (λ r. r.store_path)

-- `MAX(rowid)`, 0 on the empty table.
unfoldable pub max_rowid : Queue → ℕ
max_rowid [] = 0
max_rowid (r ∷ q) = let m = max_rowid q in if ltb m r.rowid then r.rowid else m

-- A row goes to its place in the order of rowids.
unfoldable pub place : Row → Queue → Queue
place r [] = r ∷ []
place r (x ∷ q) = let rest = place r q in if ltb x.rowid r.rowid then x ∷ rest else r ∷ x ∷ q

-- `INSERT OR IGNORE`. SQLite picks the rowid after the largest.
unfoldable pub insert_or_ignore : String → Queue → Queue
unfolding max_rowid place contains
insert_or_ignore p q =
    if contains (paths_of q) p
    then q
    else place (record { rowid = suc (max_rowid q); store_path = p }) q

unfoldable pub enqueue : List String → Queue → Queue
unfolding insert_or_ignore
enqueue [] q = q
enqueue (p ∷ ps) q = enqueue ps (insert_or_ignore p q)

unfoldable pub fetch_batch : ℕ → Queue → List String
fetch_batch n q = take n (paths_of q)

-- `DELETE … WHERE store_path IN (…)`.
unfoldable pub delete_paths : List String → Queue → Queue
unfolding filterb contains
delete_paths ps q = filterb (λ r. not (contains ps r.store_path)) q

abbrev pub remove_chunk : ℕ
remove_chunk = 1000

-- The loop of `Remove`, on fuel: each round takes a chunk off the paths.
unfoldable pub remove_loop : ℕ → ℕ → List String → Queue → Queue
unfolding delete_paths
remove_loop zero size ps q = q
remove_loop (suc fuel) size [] q = q
remove_loop (suc fuel) size (p ∷ ps) q =
    remove_loop fuel size (drop size (p ∷ ps)) (delete_paths (take size (p ∷ ps)) q)

-- One round takes at least one path, so as many rounds as there are paths are enough.
unfoldable pub remove : List String → Queue → Queue
unfolding remove_loop
remove ps q = remove_loop (length ps) remove_chunk ps q

-- `UPDATE … SET rowid = MAX(rowid) + 1 WHERE store_path = p`.
unfoldable pub retry_one : String → Queue → Queue
unfolding max_rowid place contains filterb
retry_one p q =
    if contains (paths_of q) p
    then place (record { rowid = suc (max_rowid q); store_path = p })
        (filterb (λ r. not (r.store_path == p)) q)
    else q

unfoldable pub retry : List String → Queue → Queue
unfolding retry_one
retry [] q = q
retry (p ∷ ps) q = retry ps (retry_one p q)
