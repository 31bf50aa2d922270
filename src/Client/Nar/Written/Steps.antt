-- ===== src/Client/Nar/Written/Steps.antt =====
-- What the writer's steps leave behind, from what their parts do (client/nar.go).
use mathlib.Core.List.{append_assoc}
use niks.Common.{ℕ, Option, none, some, [], ◌∷◌, ◌++◌, Bool, true, false, if◌then◌else◌, length}
use niks.Common.{◌≡◌, refl, sym, ap, subst, ◌∙◌}
use niks.Client.Nar.{
  Bytes, ascii, encode_string, NarWriter, add64, write_static, write_string, Listing, Listings,
  regular_entry, directory_entry, listing, Queue,
}
use niks.Client.Nar.Format.{
  Tree, Entries, regular, folder, link, entry, Words, tree_words, entries_words,
}
use niks.Client.Nar.Written.{write_string-static, put, put-append}
use niks.Client.Nar.Written.Listed.{
  Listed, AllListed, at_directory, also, Counted, put-Counted, Answer, WroteTree, WroteEntries,
  writes, writes-put, Listed-word, put-last, put-Listed,
}

abbrev pub file_of : Bool → Option Bytes → Option Tree
file_of executable none = none
file_of executable (some content) = some (regular executable content)

abbrev pub folder_of : Option Entries → Option Tree
folder_of none = none
folder_of (some es) = some (folder es)

abbrev pub entry_of : Bytes → Option Tree → Option Entries → Option Entries
entry_of name none os = none
entry_of name (some t) none = none
entry_of name (some t) (some es) = some (entry name t es)

abbrev pub file_head : Bool → Words
file_head executable =
    ascii "type"
    ∷ ascii "regular"
    ∷ (if executable
        then ascii "executable" ∷ [] ∷ ascii "contents" ∷ []
        else ascii "contents" ∷ [])

pub file_words :
    (executable : Bool) (content : Bytes)
    → file_head executable ++ (content ∷ []) ≡ tree_words (regular executable content)
unfolding tree_words
file_words true content = refl
file_words false content = refl

abbrev pub file_entry : ℕ → Bool → Answer ℕ → Answer Listing
file_entry size executable none = none
file_entry size executable (some (offset, nw, q)) =
    some (regular_entry size offset executable, nw, q)

-- The prefetch queue delivers the file that the writer is at.
abbrev pub WroteFile : Bytes → ℕ → NarWriter → Queue → Option Bytes → Answer ℕ → Type 0
WroteFile path size nw q none r = r ≡ none
WroteFile path size nw q (some content) r =
    r ≡ some (add64 nw.offset 8, write_static (encode_string content) nw, q)

pub file_answer-Wrote :
    (path : Bytes) (size : ℕ) (executable : Bool) (nw : NarWriter) (q : Queue) (o : Option Bytes)
    (r : Answer ℕ)
    → Counted nw
    → ((content : Bytes) → o ≡ some content → size ≡ length content)
    → WroteFile path size (put (file_head executable) nw) q o r
    → WroteTree nw q (file_of executable o) (file_entry size executable r)
file_answer-Wrote path size executable nw q none r c full w = ap (file_entry size executable) w
file_answer-Wrote path size executable nw q (some content) r c full w =
    let p = put (file_head executable) nw in
    let same : write_static (encode_string content) p
        ≡ put (tree_words (regular executable content)) nw =
      put-last (file_head executable) content nw
      ∙ ap (λ ws. put ws nw) (file_words executable content) in
    let l = regular_entry size (add64 p.offset 8) executable in
    (
      l,
      ap (file_entry size executable) w ∙ ap (λ (x : NarWriter). some (l, x, q)) same,
      subst (λ (x : NarWriter). Listed x.out l (regular executable content)) same
          (Listed-word size executable content p (full content refl)
            (put-Counted (file_head executable) nw c)),
    )

abbrev pub directory_answer : Answer Listings → Answer Listing
directory_answer none = none
directory_answer (some (ls, nw, q)) = some (directory_entry ls, nw, q)

abbrev pub directory_head : Words
directory_head = ascii "type" ∷ ascii "directory" ∷ []

pub write_directory-Wrote :
    (o : Option Entries) (nw : NarWriter) (q : Queue) (r : Answer Listings)
    → WroteEntries (put directory_head nw) q o r
    → WroteTree nw q (folder_of o) (directory_answer r)
unfolding tree_words
write_directory-Wrote none nw q r w = ap directory_answer w
write_directory-Wrote (some es) nw q r (ls, e, all) =
    let same = put-append directory_head (entries_words es) nw in
    (
      directory_entry ls,
      ap directory_answer e ∙ ap (λ (x : NarWriter). some (directory_entry ls, x, q)) same,
      at_directory (subst (λ (x : NarWriter). AllListed x.out ls es) same all),
    )

abbrev pub others_answer : Bytes → Listing → Answer Listings → Answer Listings
others_answer name l none = none
others_answer name l (some (ls, nw, q)) = some (listing name l ls, nw, q)

abbrev pub child_answer :
    Bytes → (NarWriter → Queue → Answer Listings) → Answer Listing → Answer Listings
child_answer name next none = none
child_answer name next (some (l, nw, q)) =
    others_answer name l (next (writes (ascii ")" ∷ ascii ")" ∷ []) nw) q)

abbrev pub child_head : Bytes → Words
child_head name = ascii "entry" ∷ ascii "(" ∷ ascii "name" ∷ name ∷ ascii "node" ∷ ascii "(" ∷ []

abbrev pub closing : Words
closing = ascii ")" ∷ ascii ")" ∷ []

pub entry_words :
    (name : Bytes) (t : Tree) (es : Entries)
    → ((child_head name ++ tree_words t) ++ closing) ++ entries_words es
      ≡ entries_words (entry name t es)
unfolding tree_words
entry_words name t es =
    append_assoc (child_head name ++ tree_words t) closing (entries_words es)
    ∙ append_assoc (child_head name) (tree_words t) (closing ++ entries_words es)

pub put_entry :
    (name : Bytes) (t : Tree) (es : Entries) (nw : NarWriter)
    → put (entries_words es) (put closing (put (tree_words t) (put (child_head name) nw)))
      ≡ put (entries_words (entry name t es)) nw
put_entry name t es nw =
    ap (λ x. put (entries_words es) (put closing x))
      (put-append (child_head name) (tree_words t) nw)
    ∙ ap (λ x. put (entries_words es) x) (put-append (child_head name ++ tree_words t) closing nw)
    ∙ put-append ((child_head name ++ tree_words t) ++ closing) (entries_words es) nw
    ∙ ap (λ ws. put ws nw) (entry_words name t es)

pub write_others-Wrote :
    (name : Bytes) (t : Tree) (l : Listing) (os : Option Entries) (nw : NarWriter) (q : Queue)
    (r : Answer Listings)
    → Listed (put (tree_words t) (put (child_head name) nw)).out l t
    → WroteEntries (put closing (put (tree_words t) (put (child_head name) nw))) q os r
    → WroteEntries nw q (entry_of name (some t) os) (others_answer name l r)
write_others-Wrote name t l none nw q r listed w = ap (others_answer name l) w
write_others-Wrote name t l (some es) nw q r listed (ls, e, all) =
    let nw' = put (tree_words t) (put (child_head name) nw) in
    let same = put_entry name t es nw in
    (
      listing name l ls,
      ap (others_answer name l) e ∙ ap (λ (x : NarWriter). some (listing name l ls, x, q)) same,
      subst (λ (x : NarWriter). AllListed x.out (listing name l ls) (entry name t es)) same
          (also (put-Listed (entries_words es) (put closing nw') (put-Listed closing nw' listed))
            all),
    )

-- An entry that is written makes the writer go on behind its closing parentheses.
pub write_child-Wrote :
    (name : Bytes) (next : NarWriter → Queue → Answer Listings) (o : Option Tree)
    (os : Option Entries) (nw : NarWriter) (rest q : Queue) (r : Answer Listing)
    → Counted nw
    → WroteTree (put (child_head name) nw) rest o r
    → ((nw' : NarWriter) → Counted nw' → WroteEntries nw' q os (next nw' rest))
    → WroteEntries nw q (entry_of name o os) (child_answer name next r)
write_child-Wrote name next none os nw rest q r c w later = ap (child_answer name next) w
write_child-Wrote name next (some t) os nw rest q r c (l, e, listed) later =
    let head = put (child_head name) nw in
    let nw' = put (tree_words t) head in
    let counted = put-Counted (tree_words t) head (put-Counted (child_head name) nw c) in
    let others = later (put closing nw') (put-Counted closing nw' counted) in
    let start =
      ap (child_answer name next) e
      ∙ ap (λ x. others_answer name l (next x rest))
          (writes-put (ascii ")") (ascii ")" ∷ []) nw') in
    subst (WroteEntries nw q (entry_of name (some t) os)) (sym start)
      (write_others-Wrote name t l os nw q (next (put closing nw') rest) listed others)

pub link_head :
    (target : Bytes) (nw : NarWriter)
    → write_string target (writes (ascii "type" ∷ ascii "symlink" ∷ ascii "target" ∷ []) nw)
      ≡ put (tree_words (link target)) nw
unfolding tree_words
link_head target nw =
    write_string-static target (writes (ascii "type" ∷ ascii "symlink" ∷ ascii "target" ∷ []) nw)
    ∙ writes-put (ascii "type") (ascii "symlink" ∷ ascii "target" ∷ target ∷ []) nw

abbrev pub started : Bytes → NarWriter → NarWriter
started name nw =
    writes (ascii "node" ∷ ascii "(" ∷ [])
      (write_string name (writes (ascii "entry" ∷ ascii "(" ∷ ascii "name" ∷ []) nw))

pub child_start :
    (name : Bytes) (nw : NarWriter)
    → writes
        (ascii "node" ∷ ascii "(" ∷ [])
        (write_string name (writes (ascii "entry" ∷ ascii "(" ∷ ascii "name" ∷ []) nw))
      ≡ put (child_head name) nw
child_start name nw =
    ap (λ x. writes (ascii "node" ∷ ascii "(" ∷ []) x)
      (write_string-static name (writes (ascii "entry" ∷ ascii "(" ∷ ascii "name" ∷ []) nw))
    ∙ writes-put (ascii "entry") (ascii "(" ∷ ascii "name" ∷ name ∷ ascii "node" ∷ ascii "(" ∷ [])
        nw
