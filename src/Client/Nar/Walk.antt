-- ===== src/Client/Nar/Walk.antt =====
-- The tree of a path, from metadata only (client/nar.go: walkPath and below). What the system calls
-- say of a path is a `Found`; joined paths are those of clean paths.
pub mod Sorted
use niks.Common.{
  ℕ, zero, suc, Option, none, some, List, [], ◌∷◌, ◌++◌, Bool, true, false, ◌&&◌, ◌||◌,
  if◌then◌else◌, ltb, length, take, drop, ◌==◌, list_eq, nat_eq,
}
use niks.Client.Nar.{Bytes, ascii, Node, Nodes, file, directory, symlink, no_nodes, node, name_of}

-- A path as the system calls show it, with the entries of a directory in the order they are read.
mutual
  pub data Found : Type 0 where
    regular_file : ℕ → Bool → Found
    a_directory : Founds → Found
    a_symlink : Bytes → Found
    -- One of `Lstat`, `Info`, `ReadDir` and `Readlink` fails on it.
    unreadable : Found
    -- A socket, a device or a pipe.
    unsupported : Found

  pub data Founds : Type 0 where
    no_found : Founds
    found : Bytes → Found → Founds → Founds

-- `strings.Cut`, the part before the separator.
unfoldable pub cut_before : Bytes → Bytes → Bytes
cut_before sep [] = []
cut_before sep (b ∷ bs) =
    let rest = b ∷ cut_before sep bs in if take (length sep) (b ∷ bs) == sep then [] else rest

abbrev pub case_hack_suffix : Bytes
case_hack_suffix = ascii "~nix~case~hack~"

-- `use_case_hack` holds on macOS only.
unfoldable pub strip_case_hack_suffix : Bool → Bytes → Bytes
unfolding cut_before
strip_case_hack_suffix use_case_hack name =
    if use_case_hack then cut_before case_hack_suffix name else name

-- `strings.Compare` is not above zero.
unfoldable pub name_le : Bytes → Bytes → Bool
name_le [] b = true
name_le (x ∷ a) [] = false
name_le (x ∷ a) (y ∷ b) = ltb x y || x == y && name_le a b

unfoldable pub insert : Node → Nodes → Nodes
unfolding name_le
insert n no_nodes = node n no_nodes
insert n (node m ns) =
    let rest = insert n ns in
    if name_le (name_of n) (name_of m) then node n (node m ns) else node m rest

-- `slices.SortFunc` by name.
unfoldable pub sort : Nodes → Nodes
unfolding insert
sort no_nodes = no_nodes
sort (node n ns) = insert n (sort ns)

-- Two neighbours have one name.
unfoldable pub collision : Nodes → Bool
collision no_nodes = false
collision (node n no_nodes) = false
collision (node n (node m ns)) = name_of n == name_of m || collision (node m ns)

-- The end of `walkDirectory`: the children sorted, and refused where two have one name.
unfoldable pub directory_of : Bytes → Bytes → Option Nodes → Option Node
unfolding sort collision
directory_of name path none = none
directory_of name path (some ns) =
    if collision (sort ns) then none else some (directory name path (sort ns))

abbrev pub child_of : Option Node → Option Nodes → Option Nodes
child_of none ns = none
child_of (some n) none = none
child_of (some n) (some ns) = some (node n ns)

-- `walkNode` and the loop of `walkDirectory`, which stops at the first error.
unfoldable mutual
  unfolding directory_of strip_case_hack_suffix

  pub walk_node : Bool → Bytes → Bytes → Found → Option Node
  walk_node hack path name (regular_file size executable) = some (file name path size executable)
  walk_node hack path name (a_directory entries) =
      directory_of name path (walk_entries hack path entries)
  walk_node hack path name (a_symlink target) = some (symlink name path target)
  walk_node hack path name unreadable = none
  walk_node hack path name unsupported = none

  pub walk_entries : Bool → Bytes → Founds → Option Nodes
  walk_entries hack path no_found = some no_nodes
  walk_entries hack path (found name f fs) =
      child_of (walk_node hack (path ++ ascii "/" ++ name) (strip_case_hack_suffix hack name) f)
        (walk_entries hack path fs)

unfoldable pub walk_path : Bool → Bytes → Found → Option Node
unfolding walk_node
walk_path hack path f = walk_node hack path [] f
