-- ===== src/Client/Nar/Format.antt =====
-- The NAR format, apart from any program: a tree, its words, and their encoding. A reader for it.
use niks.Common.{
  ℕ, zero, suc, ◌+◌, ◌*◌, Option, none, some, List, [], ◌∷◌, ◌++◌, Bool, true, false, ◌&&◌, ◌||◌,
  if◌then◌else◌, ltb, length, take, drop, ◌==◌, list_eq, nat_eq,
}
use niks.Client.Nar.{Bytes, ascii, encode_string, padding}

mutual
  pub data Tree : Type 0 where
    regular : Bool → Bytes → Tree
    folder : Entries → Tree
    link : Bytes → Tree

  pub data Entries : Type 0 where
    no_entries : Entries
    entry : Bytes → Tree → Entries → Entries

abbrev pub Words : Type 0
Words = List Bytes

-- The words of a tree, the closing parenthesis not among them.
unfoldable mutual
  pub tree_words : Tree → Words
  tree_words (regular executable content) =
      ascii "type"
      ∷ ascii "regular"
      ∷ (if executable
          then ascii "executable" ∷ [] ∷ ascii "contents" ∷ content ∷ []
          else ascii "contents" ∷ content ∷ [])
  tree_words (folder entries) = ascii "type" ∷ ascii "directory" ∷ entries_words entries
  tree_words (link target) = ascii "type" ∷ ascii "symlink" ∷ ascii "target" ∷ target ∷ []

  pub entries_words : Entries → Words
  entries_words no_entries = []
  entries_words (entry name t es) =
      ascii "entry"
      ∷ ascii "("
      ∷ ascii "name"
      ∷ name
      ∷ ascii "node"
      ∷ ascii "("
      ∷ (tree_words t ++ ascii ")" ∷ ascii ")" ∷ entries_words es)

abbrev pub nar_words : Tree → Words
nar_words t = ascii "nix-archive-1" ∷ ascii "(" ∷ (tree_words t ++ ascii ")" ∷ [])

-- Each word with its length before it and zeros to a multiple of eight behind it.
unfoldable pub encode_all : Words → Bytes
unfolding encode_string
encode_all [] = []
encode_all (w ∷ ws) = encode_string w ++ encode_all ws

unfoldable pub nar_of : Tree → Bytes
unfolding encode_all tree_words
nar_of t = encode_all (nar_words t)

-- A reader of the format.
unfoldable pub from_le : Bytes → ℕ
from_le [] = 0
from_le (b ∷ bs) = b + 256 * from_le bs

unfoldable pub read_word : Bytes → Option (Bytes × Bytes)
unfolding from_le
read_word bs =
    let n = from_le (take 8 bs) in
    let body = drop 8 bs in
    if ltb (length bs) 8 || ltb (length body) (n + padding n)
    then none
    else some (take n body, drop (n + padding n) body)

unfoldable pub read_words : ℕ → Bytes → Option Words
unfolding read_word
read_words zero bs = elim bs [ [] ↦ some [] | b ∷ rest ↦ none ]
read_words (suc fuel) [] = some []
read_words (suc fuel) (b ∷ bs) = elim (read_word (b ∷ bs)) [
  | none ↦ none
  | some (w, rest) ↦ elim (read_words fuel rest) [ none ↦ none | some ws ↦ some (w ∷ ws) ]
]

-- The words behind those expected.
unfoldable pub expect : Words → Words → Option Words
expect [] ws = some ws
expect (e ∷ es) [] = none
expect (e ∷ es) (w ∷ ws) = let rest = expect es ws in if e == w then rest else none

unfoldable pub read_contents : Bool → Words → Option (Tree × Words)
unfolding expect
read_contents executable ws = elim (expect (ascii "contents" ∷ []) ws) [
  | none ↦ none
  | some rest ↦ elim rest [ [] ↦ none | content ∷ more ↦ some (regular executable content, more) ]
]

unfoldable pub read_regular : Words → Option (Tree × Words)
unfolding expect read_contents
read_regular ws = elim (expect (ascii "executable" ∷ [] ∷ []) ws) [
  | some rest ↦ read_contents true rest
  | none ↦ read_contents false ws
]

unfoldable pub read_link : Words → Option (Tree × Words)
unfolding expect
read_link ws = elim (expect (ascii "target" ∷ []) ws) [
  | none ↦ none
  | some rest ↦ elim rest [ [] ↦ none | target ∷ more ↦ some (link target, more) ]
]

-- What follows a node type, or the entries of a directory up to its closing parenthesis.
unfoldable mutual
  unfolding expect read_regular read_link

  pub read_tree : ℕ → Words → Option (Tree × Words)
  read_tree zero ws = none
  read_tree (suc fuel) ws = elim (expect (ascii "type" ∷ []) ws) [
    | none ↦ none
    | some rest ↦ elim rest [
      | [] ↦ none
      | kind ∷ more ↦
          if kind == ascii "regular"
          then read_regular more
          else if kind == ascii "symlink"
          then read_link more
          else if kind == ascii "directory"
          then (elim (read_entries fuel more) [
            | none ↦ none
            | some (es, left) ↦ some (folder es, left)
          ])
          else none
    ]
  ]

  pub read_entries : ℕ → Words → Option (Entries × Words)
  read_entries zero ws = none
  read_entries (suc fuel) ws = elim (expect (ascii "entry" ∷ ascii "(" ∷ ascii "name" ∷ []) ws) [
    | none ↦ some (no_entries, ws)
    | some rest ↦ elim rest [
      | [] ↦ none
      | name ∷ more ↦ elim (expect (ascii "node" ∷ ascii "(" ∷ []) more) [
        | none ↦ none
        | some body ↦ elim (read_tree fuel body) [
          | none ↦ none
          | some (t, left) ↦ elim (expect (ascii ")" ∷ ascii ")" ∷ []) left) [
            | none ↦ none
            | some others ↦ elim (read_entries fuel others) [
              | none ↦ none
              | some (es, end) ↦ some (entry name t es, end)
            ]
          ]
        ]
      ]
    ]
  ]

-- The closing parenthesis of the whole tree, and nothing behind it.
abbrev pub closed : Option (Tree × Words) → Option Tree
closed none = none
closed (some (t, [])) = none
closed (some (t, w ∷ [])) = if w == ascii ")" then some t else none
closed (some (t, w ∷ v ∷ more)) = none

unfoldable pub read_nar_words : Words → Option Tree
unfolding read_tree
read_nar_words (magic ∷ paren ∷ rest) =
    let t = closed (read_tree (length rest) rest) in
    if magic == ascii "nix-archive-1" && paren == ascii "(" then t else none
read_nar_words _ = none

abbrev pub as_nar : Option Words → Option Tree
as_nar none = none
as_nar (some ws) = read_nar_words ws

unfoldable pub read_nar : Bytes → Option Tree
unfolding read_words read_nar_words
read_nar bs = as_nar (read_words (length bs) bs)
