-- ===== src/Hook/Queue/Members.antt =====
-- Paths in lists: what the queue's operations (hook/queue.go) do to membership and to length.
use niks.Common.{suc, ◌≤◌, ◌<◌, String, List, [], ◌∷◌}
use niks.Common.{true, not, ◌&&◌, ◌==◌, string_eq, nat_eq}
use niks.Common.{◌≡◌, refl, ap, ◌∙◌, arith}
use niks.Common.{contains, contains-append, contains-filterb}
use niks.Common.{length, filterb, length-append, length-filterb-le}
use niks.Hook.Queue.Fifo
use niks.Hook.Queue.{Queue, paths_of, remove, retry}
use niks.Hook.Queue.Refinement.{paths-remove, paths-retry}

pub length-paths_of : (q : Queue) → length (paths_of q) ≡ length q
length-paths_of [] = refl
length-paths_of (r ∷ q) = ap suc (length-paths_of q)

length-without_lt :
    (gone ps : List String) (p : String)
    → contains gone p ≡ true
    → contains ps p ≡ true
    → length (Fifo.without gone ps) < length ps
unfolding filterb contains
length-without_lt gone [] p g h = cc
length-without_lt gone (x ∷ ps) p g h = ground (
  arith,
  length-without_lt gone ps p g,
  length-filterb-le (λ (j : String). not (contains gone j)) ps,
  string_eq.test_iff x p,
)

length-other_lt :
    (p : String) (ps : List String)
    → contains ps p ≡ true
    → length (filterb (λ j. not (j == p)) ps) < length ps
unfolding filterb contains
length-other_lt p [] h = cc
length-other_lt p (x ∷ ps) h = ground (
  arith,
  length-other_lt p ps,
  length-filterb-le (λ (j : String). not (j == p)) ps,
  string_eq.test_iff x p,
)

length-to_back : (p : String) (ps : List String) → length (Fifo.to_back p ps) ≤ length ps
length-to_back p ps = ground (
  arith,
  length-other_lt p ps,
  length-append (filterb (λ (j : String). not (j == p)) ps) (p ∷ []),
)

contains-to_back :
    (p j : String) (ps : List String) → contains (Fifo.to_back p ps) j ≡ contains ps j
unfolding contains
contains-to_back p j ps = ground (
  arith,
  contains-append (filterb (λ (x : String). not (x == p)) ps) (p ∷ []) j,
  contains-filterb (λ (x : String). not (x == p)) ps j,
  string_eq.test_iff p j,
  string_eq.test_iff j p,
)

-- A path that is removed shortens the queue.
pub length-remove_lt :
    (gone : List String) (q : Queue) (p : String)
    → contains gone p ≡ true
    → contains (paths_of q) p ≡ true
    → length (remove gone q) < length q
length-remove_lt gone q p g h = omega (
  arith,
  ap length (paths-remove gone q),
  length-without_lt gone (paths_of q) p g h,
  length-paths_of q,
  length-paths_of (remove gone q),
)

pub length-remove-le : (gone : List String) (q : Queue) → length (remove gone q) ≤ length q
length-remove-le gone q = omega (
  arith,
  ap length (paths-remove gone q),
  length-filterb-le (λ (j : String). not (contains gone j)) (paths_of q),
  length-paths_of q,
  length-paths_of (remove gone q),
)

pub contains-remove :
    (gone : List String) (q : Queue) (j : String)
    → contains (paths_of (remove gone q)) j ≡ (not (contains gone j) && contains (paths_of q) j)
contains-remove gone q j =
    rw (paths-remove gone q) (contains-filterb (λ x. not (contains gone x)) (paths_of q) j)

length-all_to_back : (ps qs : List String) → length (Fifo.all_to_back ps qs) ≤ length qs
unfolding Fifo.all_to_back
length-all_to_back [] qs = omega arith
length-all_to_back (p ∷ ps) qs =
    omega (arith, length-all_to_back ps (Fifo.to_back p qs), length-to_back p qs)

contains-all_to_back :
    (ps qs : List String) (j : String) → contains (Fifo.all_to_back ps qs) j ≡ contains qs j
unfolding Fifo.all_to_back
contains-all_to_back [] qs j = refl
contains-all_to_back (p ∷ ps) qs j =
    contains-all_to_back ps (Fifo.to_back p qs) j ∙ contains-to_back p j qs

pub length-retry-le : (ps : List String) (q : Queue) → length (retry ps q) ≤ length q
length-retry-le ps q = omega (
  arith,
  ap length (paths-retry ps q),
  length-all_to_back ps (paths_of q),
  length-paths_of q,
  length-paths_of (retry ps q),
)

pub contains-retry :
    (ps : List String) (q : Queue) (j : String)
    → contains (paths_of (retry ps q)) j ≡ contains (paths_of q) j
contains-retry ps q j = rw (paths-retry ps q) (contains-all_to_back ps (paths_of q) j)
