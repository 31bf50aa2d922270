-- ===== src/Client/Nar/Walk/Sorted.antt =====
-- What a walk gives (client/nar.go): the tree found, each directory in the order of the format.
use mathlib.Core.List.Perm
use mathlib.Core.List.{Perm}
use niks.Common.{
  ℕ, Option, none, some, List, [], ◌∷◌, ◌++◌, Bool, true, false, ◌==◌, list_eq, nat_eq,
}
use niks.Common.{◌≡◌, refl, inl, inr, Bool-cases, arith}
use niks.Client.Nar.{Bytes, ascii, Node, Nodes, file, directory, symlink, no_nodes, node, name_of}
use niks.Client.Nar.Walk.{
  Found, Founds, regular_file, a_directory, a_symlink, unreadable, unsupported, no_found, found,
  strip_case_hack_suffix, name_le, insert, sort, collision, directory_of, child_of, walk_node,
  walk_path, walk_entries,
}

abbrev pub list_of : Nodes → List Node
list_of no_nodes = []
list_of (node n ns) = n ∷ list_of ns

-- Names in the order of their bytes, no name twice.
abbrev pub Increasing : Nodes → Type 0
Increasing no_nodes = Unit
Increasing (node n no_nodes) = Unit
Increasing (node n (node m ns)) = (name_le (name_of m) (name_of n) ≡ false) × Increasing (node m ns)

-- The node is the path found, each directory's children being those found, in increasing order.
mutual
  pub data Walked (hack : Bool) : Bytes → Bytes → Found → Node → Type 0 where
    of_file :
        {path name : Bytes} {size : ℕ} {executable : Bool}
        → Walked hack path name (regular_file size executable) (file name path size executable)
    of_link :
        {path name target : Bytes}
        → Walked hack path name (a_symlink target) (symlink name path target)
    of_directory :
        {path name : Bytes} {fs : Founds} {ms : Nodes} (ns : Nodes)
        → WalkedAll hack path fs ms
        → Perm (list_of ns) (list_of ms)
        → Increasing ns
        → Walked hack path name (a_directory fs) (directory name path ns)

  pub data WalkedAll (hack : Bool) : Bytes → Founds → Nodes → Type 0 where
    none_walked : {path : Bytes} → WalkedAll hack path no_found no_nodes
    one_walked :
        {path name : Bytes} {f : Found} {fs : Founds} {n : Node} {ns : Nodes}
        → Walked hack (path ++ ascii "/" ++ name) (strip_case_hack_suffix hack name) f n
        → WalkedAll hack path fs ns
        → WalkedAll hack path (found name f fs) (node n ns)

-- Why a path cannot be walked.
mutual
  pub data Refused (hack : Bool) : Bytes → Found → Type 0 where
    by_call : {path : Bytes} → Refused hack path unreadable
    by_kind : {path : Bytes} → Refused hack path unsupported
    by_child :
        {path : Bytes} {fs : Founds} → RefusedIn hack path fs → Refused hack path (a_directory fs)
    -- Two children that were walked have one name, and so are neighbours when sorted.
    by_collision :
        {path : Bytes} {fs : Founds} {ms : Nodes} (ns : Nodes)
        → WalkedAll hack path fs ms
        → Perm (list_of ns) (list_of ms)
        → collision ns ≡ true
        → Refused hack path (a_directory fs)

  pub data RefusedIn (hack : Bool) : Bytes → Founds → Type 0 where
    this_one :
        {path name : Bytes} {f : Found} {fs : Founds}
        → Refused hack (path ++ ascii "/" ++ name) f
        → RefusedIn hack path (found name f fs)
    a_later_one :
        {path name : Bytes} {f : Found} {fs : Founds}
        → RefusedIn hack path fs
        → RefusedIn hack path (found name f fs)

name_le-total : (a b : Bytes) → name_le a b ≡ false → name_le b a ≡ true
unfolding name_le
name_le-total [] b h = cc
name_le-total (x ∷ a) [] h = refl
name_le-total (x ∷ a) (y ∷ b) h = ground (arith, name_le-total a b)

name_le-antisym : (a b : Bytes) → name_le a b ≡ true → name_le b a ≡ true → a == b ≡ true
unfolding name_le
name_le-antisym [] [] h k = refl
name_le-antisym [] (y ∷ b) h k = cc
name_le-antisym (x ∷ a) [] h k = cc
name_le-antisym (x ∷ a) (y ∷ b) h k = ground (arith, name_le-antisym a b)

-- Neighbours in order.
abbrev Sorted : Nodes → Type 0
Sorted no_nodes = Unit
Sorted (node n no_nodes) = Unit
Sorted (node n (node m ns)) = (name_le (name_of n) (name_of m) ≡ true) × Sorted (node m ns)

insert-Sorted : (n : Node) (ns : Nodes) → Sorted ns → Sorted (insert n ns)
unfolding insert
insert-Sorted n no_nodes s = tt
insert-Sorted n (node m ns) s = elim (Bool-cases (name_le (name_of n) (name_of m))) [
  | inl e ↦ rw (e, insert) (e, s)
  | inr e ↦ rw (e, insert) (behind n m ns (name_le-total (name_of n) (name_of m) e) s)
]
  where
    behind :
        (n m : Node) (ns : Nodes)
        → name_le (name_of m) (name_of n) ≡ true
        → Sorted (node m ns)
        → Sorted (node m (insert n ns))
    behind n m no_nodes h s = (h, tt)
    behind n m (node k ns) h s = elim (Bool-cases (name_le (name_of n) (name_of k))) [
      | inl e ↦ rw (e, insert) (h, (e, s.1))
      | inr e ↦ rw (e, insert) (s.0, behind n k ns (name_le-total (name_of n) (name_of k) e) s.1)
    ]

sort-Sorted : (ns : Nodes) → Sorted (sort ns)
unfolding sort
sort-Sorted no_nodes = tt
sort-Sorted (node n ns) = insert-Sorted n (sort ns) (sort-Sorted ns)

Sorted-Increasing : (ns : Nodes) → Sorted ns → collision ns ≡ false → Increasing ns
unfolding collision
Sorted-Increasing no_nodes s c = tt
Sorted-Increasing (node n no_nodes) s c = tt
Sorted-Increasing (node n (node m ns)) s c = (
  ground (arith, c, s.0, name_le-antisym (name_of n) (name_of m)),
  Sorted-Increasing (node m ns) s.1 (ground (arith, c)),
)

insert-Perm : (n : Node) (ns : Nodes) → Perm (list_of (insert n ns)) (n ∷ list_of ns)
unfolding insert
insert-Perm n no_nodes = Perm.refl (n ∷ [])
insert-Perm n (node m ns) = elim (Bool-cases (name_le (name_of n) (name_of m))) [
  | inl e ↦ rw (e, insert) (Perm.refl (n ∷ m ∷ list_of ns))
  | inr e ↦
      rw (e, insert) (Perm.trans (Perm.cons m (insert-Perm n ns)) (Perm.swap n m (list_of ns)))
]

sort-Perm : (ns : Nodes) → Perm (list_of (sort ns)) (list_of ns)
unfolding sort
sort-Perm no_nodes = Perm.refl []
sort-Perm (node n ns) = Perm.trans (insert-Perm n (sort ns)) (Perm.cons n (sort-Perm ns))

-- A walk says what it found, or that it cannot.
abbrev pub WalkedOr : Bool → Bytes → Bytes → Found → Option Node → Type 0
WalkedOr hack path name f none = Refused hack path f
WalkedOr hack path name f (some n) = Walked hack path name f n

abbrev WalkedAllOr : Bool → Bytes → Founds → Option Nodes → Type 0
WalkedAllOr hack path fs none = RefusedIn hack path fs
WalkedAllOr hack path fs (some ns) = WalkedAll hack path fs ns

directory_of-WalkedOr :
    (hack : Bool) (path name : Bytes) (fs : Founds) (o : Option Nodes)
    → WalkedAllOr hack path fs o
    → WalkedOr hack path name (a_directory fs) (directory_of name path o)
unfolding directory_of
directory_of-WalkedOr hack path name fs none w = by_child w
directory_of-WalkedOr hack path name fs (some ns) w = elim (Bool-cases (collision (sort ns))) [
  | inl e ↦ rw (e, directory_of) (by_collision (sort ns) w (sort-Perm ns) e)
  | inr e ↦
      rw (e, directory_of)
        (of_directory (sort ns) w (sort-Perm ns) (Sorted-Increasing (sort ns) (sort-Sorted ns) e))
]

child_of-WalkedAllOr :
    (hack : Bool) (path name : Bytes) (f : Found) (fs : Founds) (o : Option Node)
    (os : Option Nodes)
    → WalkedOr hack (path ++ ascii "/" ++ name) (strip_case_hack_suffix hack name) f o
    → WalkedAllOr hack path fs os
    → WalkedAllOr hack path (found name f fs) (child_of o os)
child_of-WalkedAllOr hack path name f fs none os w ws = this_one w
child_of-WalkedAllOr hack path name f fs (some n) none w ws = a_later_one ws
child_of-WalkedAllOr hack path name f fs (some n) (some ns) w ws = one_walked w ws

mutual
  unfolding walk_node

  walk_node-WalkedOr :
      (hack : Bool) (path name : Bytes) (f : Found)
      → WalkedOr hack path name f (walk_node hack path name f)
  walk_node-WalkedOr hack path name (regular_file size executable) = of_file
  walk_node-WalkedOr hack path name (a_directory fs) =
      directory_of-WalkedOr hack path name fs (walk_entries hack path fs)
        (walk_entries-WalkedAllOr hack path fs)
  walk_node-WalkedOr hack path name (a_symlink target) = of_link
  walk_node-WalkedOr hack path name unreadable = by_call
  walk_node-WalkedOr hack path name unsupported = by_kind

  walk_entries-WalkedAllOr :
      (hack : Bool) (path : Bytes) (fs : Founds)
      → WalkedAllOr hack path fs (walk_entries hack path fs)
  walk_entries-WalkedAllOr hack path no_found = none_walked
  walk_entries-WalkedAllOr hack path (found name f fs) =
      child_of-WalkedAllOr hack path name f fs
        (walk_node hack (path ++ ascii "/" ++ name) (strip_case_hack_suffix hack name) f)
        (walk_entries hack path fs)
        (walk_node-WalkedOr hack (path ++ ascii "/" ++ name) (strip_case_hack_suffix hack name) f)
        (walk_entries-WalkedAllOr hack path fs)

-- A walk gives a node if it can: the path found, with each directory's children those found there,
-- under their stripped names, in strictly increasing order of names. It gives none only where a
-- system call fails, a path is of another kind, or two children of a directory have one name.
pub walk_path-WalkedOr :
    (hack : Bool) (path : Bytes) (f : Found) → WalkedOr hack path [] f (walk_path hack path f)
unfolding walk_path
walk_path-WalkedOr hack path f = walk_node-WalkedOr hack path [] f
