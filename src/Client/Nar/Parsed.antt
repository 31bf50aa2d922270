-- ===== src/Client/Nar/Parsed.antt =====
-- The format's reader takes back what its encoding puts (client/nar.go).
pub mod Bytewise
use native.Mathlib.Nat.{pow-suc}
use mathlib.Core.List.{append_assoc, append-nil}
use niks.Common.{
  ℕ, zero, suc, ◌+◌, ◌-◌, ◌%◌, ◌/◌, ◌^◌, ◌*◌, ◌<◌, ◌≤◌, Option, some, none, List, [], ◌∷◌, ◌++◌,
  Bool, true, false, ltb, length, length-append, ◌≡◌, refl, sym, ap, subst, ◌∙◌, arith,
}
use niks.Client.Nar.{Bytes, ascii, encode_string}
use niks.Client.Nar.Format.{
  Tree, Entries, regular, folder, link, no_entries, entry, Words, tree_words, entries_words,
  nar_words, encode_all, nar_of, read_tree, read_entries, read_nar_words, closed, as_nar, read_nar,
  expect, read_regular, read_link,
}
use niks.Client.Nar.Parsed.Bytewise.{read_words-encode_all}

mutual
  unfolding read_tree tree_words expect read_regular read_link

  read_tree-tree_words :
      (fuel : ℕ) (t : Tree) (rest : Words)
      → length (tree_words t) ≤ fuel
      → read_tree fuel (tree_words t ++ ascii ")" ∷ rest) ≡ some (t, ascii ")" ∷ rest)
  read_tree-tree_words zero (regular true content) rest h = absurd (omega (arith, h))
  read_tree-tree_words zero (regular false content) rest h = absurd (omega (arith, h))
  read_tree-tree_words zero (folder es) rest h = absurd (omega (arith, h))
  read_tree-tree_words zero (link target) rest h = absurd (omega (arith, h))
  read_tree-tree_words (suc fuel) (regular true content) rest h = refl
  read_tree-tree_words (suc fuel) (regular false content) rest h = refl
  read_tree-tree_words (suc fuel) (link target) rest h = refl
  read_tree-tree_words (suc fuel) (folder es) rest h =
      rw (read_entries-entries_words fuel es rest (omega (arith, h))) refl

  read_entries-entries_words :
      (fuel : ℕ) (es : Entries) (rest : Words)
      → length (entries_words es) < fuel
      → read_entries fuel (entries_words es ++ ascii ")" ∷ rest) ≡ some (es, ascii ")" ∷ rest)
  read_entries-entries_words zero es rest h = absurd (omega (arith, h))
  read_entries-entries_words (suc fuel) no_entries rest h = refl
  read_entries-entries_words (suc fuel) (entry name t es) rest h =
      let counted = length-append (tree_words t) (ascii ")" ∷ ascii ")" ∷ entries_words es) in
      rw
        (
          append_assoc (tree_words t) (ascii ")" ∷ ascii ")" ∷ entries_words es) (ascii ")" ∷ rest),
          read_tree-tree_words fuel t (ascii ")" ∷ (entries_words es ++ ascii ")" ∷ rest))
              (omega (arith, h, counted)),
          read_entries-entries_words fuel es rest (omega (arith, h, counted)),
        )
        refl

read_nar_words-nar_words : (t : Tree) → read_nar_words (nar_words t) ≡ some t
unfolding read_nar_words
read_nar_words-nar_words t = ap closed (
    read_tree-tree_words (length (tree_words t ++ ascii ")" ∷ [])) t []
      (omega (arith, length-append (tree_words t) (ascii ")" ∷ []))))

pub read_nar-nar_of : (t : Tree) → length (nar_of t) < 2 ^ 64 → read_nar (nar_of t) ≡ some t
unfolding read_nar nar_of
read_nar-nar_of t h =
    ap as_nar (read_words-encode_all (length (nar_of t)) (nar_words t) h (omega arith))
    ∙ read_nar_words-nar_words t
