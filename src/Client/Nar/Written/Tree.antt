-- ===== src/Client/Nar/Written/Tree.antt =====
-- The archive and the listing of a tree (client/nar.go).
use mathlib.Core.List.{append_assoc}
use niks.Common.{ℕ, Option, none, some, [], ◌∷◌, ◌++◌, Bool, true, false, if◌then◌else◌, length}
use niks.Common.{◌≡◌, refl, sym, ap, subst, ◌∙◌, inl, inr, Bool-cases, Option-cases}
use niks.Client.Nar.{
  Bytes, ascii, encode_string, NarWriter, add64, write_static, write_contents, Node, Nodes, file,
  directory, symlink, node, no_nodes, name_of, Listing, symlink_entry, no_listings, Queue,
  should_prefetch, enqueue_prefetch, enqueue_children, write_file_contents, write_node,
  write_children,
}
use niks.Client.Nar.Format.{Tree, Entries, link, no_entries, tree_words, nar_of}
use niks.Client.Nar.Written.{write_contents-static, put}
use niks.Client.Nar.Written.Listed.{
  Listed, AllListed, at_link, nothing, Counted, put-Counted, WroteTree, WroteEntries, writes-put,
  put_nil,
}
use niks.Client.Nar.Written.Steps.{
  file_of, folder_of, entry_of, file_head, file_entry, WroteFile, file_answer-Wrote, directory_head,
  write_directory-Wrote, child_answer, child_head, write_child-Wrote, link_head, started,
  child_start,
}

module _ (read : Bytes → ℕ → Option Bytes) where
  -- The tree on disk, as far as it can be read.
  unfoldable mutual
    pub tree_of : Node → Option Tree
    tree_of (file name path size executable) = file_of executable (read path size)
    tree_of (directory name path children) = folder_of (entries_of children)
    tree_of (symlink name path target) = some (link target)

    pub entries_of : Nodes → Option Entries
    entries_of no_nodes = some no_entries
    entries_of (node n ns) = entry_of (name_of n) (tree_of n) (entries_of ns)

  abbrev pub FullReads : Type 0
  FullReads =
      (path : Bytes) (size : ℕ) (content : Bytes)
      → read path size ≡ some content
      → size ≡ length content

  abbrev pub own_queue : Bytes → ℕ → Queue
  own_queue path size = if should_prefetch size then (path, size) ∷ [] else []

  pub write_file_contents-Wrote :
      (full : FullReads) (path : Bytes) (size : ℕ) (nw : NarWriter) (q : Queue)
      → WroteFile path size nw q (read path size) (
          write_file_contents read path size nw
            ((if should_prefetch size then (path, size) ∷ [] else []) ++ q))
  unfolding write_file_contents
  write_file_contents-Wrote full path size nw q = elim (Option-cases (read path size)) [
    | inl e ↦ elim (Bool-cases (should_prefetch size)) [
      | inl p ↦ rw (e, p, write_file_contents) (rw (e, write_file_contents) refl)
      | inr p ↦ rw (e, p, write_file_contents) refl
    ]
    | inr (content, e) ↦
        let same : write_contents size content nw
            ≡ (add64 nw.offset 8, write_static (encode_string content) nw) =
          ap (λ n. write_contents n content nw) (full path size content e)
          ∙ write_contents-static content nw in
        let step = ap (λ (x : ℕ × NarWriter). some (x.0, x.1, q)) same in
        elim (Bool-cases (should_prefetch size)) [
          | inl p ↦ rw (e, p, write_file_contents) (rw (e, write_file_contents) step)
          | inr p ↦ rw (e, p, write_file_contents) step
        ]
  ]

  pub write_file-Wrote :
      (full : FullReads) (name path : Bytes) (size : ℕ) (executable : Bool) (nw : NarWriter)
      (q : Queue)
      → Counted nw
      → WroteTree nw q (tree_of (file name path size executable)) (
          file_entry size executable (
            write_file_contents read path size
              (put (file_head executable) nw)
              (own_queue path size ++ q)))
  unfolding tree_of
  write_file-Wrote full name path size executable nw q c =
      file_answer-Wrote path size executable nw q (read path size) _ c (full path size)
        (write_file_contents-Wrote full path size (put (file_head executable) nw) q)

  mutual
    unfolding write_node enqueue_prefetch tree_of tree_words

    pub write_node-Wrote :
        (full : FullReads) (n : Node) (nw : NarWriter) (q : Queue)
        → Counted nw
        → WroteTree nw q (tree_of n) (write_node read n nw (enqueue_prefetch n ++ q))
    write_node-Wrote full (file name path size true) nw q c =
        subst
          (λ (x : NarWriter). WroteTree nw q (tree_of (file name path size true)) (
            file_entry size true (write_file_contents read path size x (own_queue path size ++ q))))
          (sym (
            writes-put (ascii "type")
              (ascii "regular" ∷ ascii "executable" ∷ [] ∷ ascii "contents" ∷ []) nw))
          (write_file-Wrote full name path size true nw q c)
    write_node-Wrote full (file name path size false) nw q c =
        subst
          (λ (x : NarWriter). WroteTree nw q (tree_of (file name path size false)) (
            file_entry size false
              (write_file_contents read path size x (own_queue path size ++ q))))
          (sym (writes-put (ascii "type") (ascii "regular" ∷ ascii "contents" ∷ []) nw))
          (write_file-Wrote full name path size false nw q c)
    write_node-Wrote full (directory name path children) nw q c =
        write_directory-Wrote (entries_of children) nw q _ (
          subst
            (λ (x : NarWriter).
              WroteEntries (put directory_head nw) q (entries_of children)
                (write_children read children x (enqueue_children children ++ q)))
            (sym (writes-put (ascii "type") (ascii "directory" ∷ []) nw))
            (write_children-Wrote full children (put directory_head nw) q
              (put-Counted directory_head nw c)))
    write_node-Wrote full (symlink name path target) nw q c =
        let same = link_head target nw in
        (
          symlink_entry target,
          ap (λ (x : NarWriter). some (symlink_entry target, x, q)) same,
          at_link,
        )

    pub write_children-Wrote :
        (full : FullReads) (ns : Nodes) (nw : NarWriter) (q : Queue)
        → Counted nw
        → WroteEntries nw q (entries_of ns) (write_children read ns nw (enqueue_children ns ++ q))
    write_children-Wrote full no_nodes nw q c =
        let same = sym (put_nil nw c) in
        (
          no_listings,
          ap (λ (x : NarWriter). some (no_listings, x, q)) same,
          subst (λ (x : NarWriter). AllListed x.out no_listings no_entries) same nothing,
        )
    write_children-Wrote full (node n ns) nw q c =
        let rest = enqueue_children ns ++ q in
        let head = put (child_head (name_of n)) nw in
        let wrote =
          write_child-Wrote (name_of n) (write_children read ns) (tree_of n) (entries_of ns) nw rest
            q (write_node read n head (enqueue_prefetch n ++ rest)) c
            (write_node-Wrote full n head rest (put-Counted (child_head (name_of n)) nw c))
            (λ nw' c'. write_children-Wrote full ns nw' q c') in
        subst
          (λ (x : NarWriter × Queue).
            WroteEntries nw q (entries_of (node n ns))
              (child_answer (name_of n) (write_children read ns) (write_node read n x.0 x.1)))
          (ap (λ (x : NarWriter). (x, enqueue_prefetch n ++ rest))
              (sym (child_start (name_of n) nw))
            ∙ ap (λ (y : Queue). (started (name_of n) nw, y))
                (sym (append_assoc (enqueue_prefetch n) (enqueue_children ns) q)))
          wrote

-- What a whole dump gives: nothing where a file cannot be read, else the format's encoding of
-- the tree, with a listing that is right about it.
abbrev pub Dumped : Option Tree → Option (Bytes × Listing) → Type 0
Dumped none r = r ≡ none
Dumped (some t) r = (l : Listing) × (r ≡ some (nar_of t, l)) × Listed (nar_of t) l t
