-- ===== src/Client/Nar/Tests.antt =====
-- A directory with a program, a text and a link, and what is on disk for it (client/nar.go).
use niks.Common.{
  ℕ, ◌<◌, ◌^◌, Option, none, some, [], true, false, if◌then◌else◌, length, ◌==◌, list_eq, nat_eq,
  ◌≡◌, refl, sym, ap, ◌∙◌, arith, Bool-cases, inl, inr,
}
use niks.Client.Nar.{
  Bytes, le_bytes, ascii, Node, Listing, file, directory, symlink, no_nodes, node, dump_tree,
  regular_entry, directory_entry, symlink_entry, listing, no_listings,
}
use niks.Client.Nar.Format.{Tree, folder, link, regular, entry, no_entries, nar_of, read_nar}
use niks.Client.Nar.Written.Tree.{tree_of, FullReads, Dumped}
use niks.Client.Nar.Dump.{dump_tree-Dumped, read_nar-dump_tree}
use niks.Client.Nar.Walk.{
  Found, found, no_found, regular_file, a_directory, a_symlink, walk_node, walk_path,
}
use niks.Client.Nar.Walk.Sorted.{WalkedOr, walk_path-WalkedOr}

abbrev script : Bytes
script = ascii "#!/bin/sh"

-- Every file has the script's bytes.
abbrev disk : Bytes → ℕ → Option Bytes
disk path size = if size == 9 then some script else none

abbrev folder_found : Found
folder_found = a_directory (
    found (ascii "run") (regular_file 9 true)
      (found (ascii "doc") (a_symlink (ascii "run")) no_found))

abbrev folder_node : Node
folder_node = directory [] (ascii "/p") (
    node (symlink (ascii "doc") (ascii "/p/doc") (ascii "run"))
      (node (file (ascii "run") (ascii "/p/run") 9 true) no_nodes))

abbrev size_or_zero : Option Bytes → ℕ
size_or_zero none = 0
size_or_zero (some content) = length content

disk-FullReads : FullReads disk
disk-FullReads path size content e = elim (Bool-cases (size == 9)) [
  | inl h ↦ by_size size h ∙ ap size_or_zero (sym (disk_nine path size h) ∙ e)
  | inr h ↦ absurd (cc (sym (disk_other path size h) ∙ e))
]
  where
    by_size : (size : ℕ) → size == 9 ≡ true → size ≡ 9
    by_size size h = ground arith

    disk_nine : (path : Bytes) (size : ℕ) → size == 9 ≡ true → disk path size ≡ some script
    disk_nine path size h = rw h refl

    disk_other : (path : Bytes) (size : ℕ) → size == 9 ≡ false → disk path size ≡ none
    disk_other path size h = rw h refl

folder-walk : walk_node false (ascii "/p") [] folder_found ≡ some folder_node
unfolding walk_node
folder-walk = refl

abbrev folder_tree : Tree
folder_tree = folder (
    entry (ascii "doc") (link (ascii "run")) (entry (ascii "run") (regular true script) no_entries))

abbrev folder_listing : Listing
folder_listing = directory_entry (
    listing (ascii "doc") (symlink_entry (ascii "run"))
      (listing (ascii "run") (regular_entry 9 456 true) no_listings))

folder-dump : dump_tree disk folder_node ≡ some (nar_of folder_tree, folder_listing)
unfolding dump_tree nar_of
folder-dump = refl

folder-short : length (nar_of folder_tree) < 2 ^ 64
unfolding nar_of le_bytes
folder-short = omega arith

read_nar-dump_tree_example : read_nar (nar_of folder_tree) ≡ tree_of disk folder_node
read_nar-dump_tree_example =
    read_nar-dump_tree disk disk-FullReads folder_node (nar_of folder_tree) folder_listing
      folder-dump folder-short

walk_path-WalkedOr_example :
    WalkedOr false (ascii "/p") [] folder_found (walk_path false (ascii "/p") folder_found)
walk_path-WalkedOr_example = walk_path-WalkedOr false (ascii "/p") folder_found

dump_tree-Dumped_example : Dumped (tree_of disk folder_node) (dump_tree disk folder_node)
dump_tree-Dumped_example = dump_tree-Dumped disk disk-FullReads folder_node
