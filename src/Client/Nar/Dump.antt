-- ===== src/Client/Nar/Dump.antt =====
-- DumpPathWithListing as a whole (client/nar.go).
use mathlib.Core.List.{append-nil}
use niks.Common.{ℕ, ◌<◌, ◌^◌, Option, none, some, [], ◌∷◌, ◌++◌, length}
use niks.Common.{◌≡◌, refl, sym, ap, subst, ◌∙◌}
use niks.Client.Nar.{
  Bytes, ascii, encode_string, NarWriter, write_static, Node, Listing, Queue, enqueue_prefetch,
  write_node, dump_tree,
}
use niks.Client.Nar.Format.{Tree, Words, tree_words, nar_words, nar_of, read_nar}
use niks.Client.Nar.Written.{put, put-append, put-one}
use niks.Client.Nar.Written.Listed.{
  Listed, put-Counted, Answer, WroteTree, writes, writes-put, put-Listed,
}
use niks.Client.Nar.Parsed.{read_nar-nar_of}
use niks.Client.Nar.Written.Tree.{tree_of, FullReads, write_node-Wrote, Dumped}

abbrev empty_writer : NarWriter
empty_writer = record { out = []; offset = 0 }

abbrev dump_head : Words
dump_head = ascii "nix-archive-1" ∷ ascii "(" ∷ []

abbrev dump_answer : Answer Listing → Option (Bytes × Listing)
dump_answer none = none
dump_answer (some (l, nw, q)) = some ((write_static (encode_string (ascii ")")) nw).out, l)

dump_answer-Dumped :
    (o : Option Tree) (r : Answer Listing)
    → WroteTree (put dump_head empty_writer) [] o r
    → Dumped o (dump_answer r)
unfolding nar_of put
dump_answer-Dumped none r w = ap dump_answer w
dump_answer-Dumped (some t) r (l, e, listed) =
    let nw = put (tree_words t) (put dump_head empty_writer) in
    let close = ascii ")" ∷ [] in
    let same : put close nw ≡ put (nar_words t) empty_writer =
      put-append (tree_words t) close (put dump_head empty_writer)
      ∙ put-append dump_head (tree_words t ++ close) empty_writer in
    let whole : put (nar_words t) empty_writer ≡ put (nar_words t) empty_writer = refl in
    (
      l,
      ap dump_answer e ∙ ap (λ (x : NarWriter). some (x.out, l)) (put-one (ascii ")") nw ∙ same),
      subst (λ (x : NarWriter). Listed x.out l t) same (put-Listed close nw listed),
    )

-- If a read gives as many bytes as it is asked for, a dump fails exactly where a file of the tree
-- cannot be read. Otherwise it writes the format's encoding of the tree, and its listing has the
-- tree's shape, the size of each file, and the offset (modulo 2^64) at which the archive has the
-- file's contents, whether a file is prefetched or streamed.
pub dump_tree-Dumped :
    (read : Bytes → ℕ → Option Bytes) (full : FullReads read) (root : Node)
    → Dumped (tree_of read root) (dump_tree read root)
unfolding dump_tree
dump_tree-Dumped read full root = dump_answer-Dumped (tree_of read root) _ (
    subst
      (λ (x : NarWriter × Queue).
        WroteTree (put dump_head empty_writer) [] (tree_of read root)
          (write_node read root x.0 x.1))
      (ap (λ (x : NarWriter). (x, enqueue_prefetch root ++ []))
          (sym (writes-put (ascii "nix-archive-1") (ascii "(" ∷ []) empty_writer))
        ∙ ap (λ (y : Queue). (writes dump_head empty_writer, y))
            (append-nil (enqueue_prefetch root)))
      (write_node-Wrote read full root (put dump_head empty_writer) []
        (put-Counted dump_head empty_writer refl)))

abbrev bytes_of : Option (Bytes × Listing) → Bytes
bytes_of none = []
bytes_of (some (bytes, l)) = bytes

read_nar-Dumped :
    (o : Option Tree) (r : Option (Bytes × Listing)) (bytes : Bytes) (l : Listing)
    → Dumped o r
    → r ≡ some (bytes, l)
    → length bytes < 2 ^ 64
    → read_nar bytes ≡ o
read_nar-Dumped none r bytes l d e h = absurd (cc (d, e))
read_nar-Dumped (some t) r bytes l (l', e', listed) e h =
    let same : nar_of t ≡ bytes = ap bytes_of (sym e' ∙ e) in
    subst (λ (b : Bytes). read_nar b ≡ some t) same
      (read_nar-nar_of t (subst (λ (b : Bytes). length b < 2 ^ 64) (sym same) h))

-- If a read gives as many bytes as it is asked for, and a dump gives an archive of less than 2^64
-- bytes, then a reader of the format takes from the archive the tree on disk.
pub read_nar-dump_tree :
    (read : Bytes → ℕ → Option Bytes) (full : FullReads read) (root : Node) (bytes : Bytes)
    (l : Listing)
    → dump_tree read root ≡ some (bytes, l)
    → length bytes < 2 ^ 64
    → read_nar bytes ≡ tree_of read root
read_nar-dump_tree read full root bytes l e h =
    read_nar-Dumped (tree_of read root) (dump_tree read root) bytes l
      (dump_tree-Dumped read full root) e h
