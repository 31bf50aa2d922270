-- ===== src/Client/Nar/Written/Listed.antt =====
-- A listing that is right about an archive, and words put one after the other.
use mathlib.Core.List.{append_assoc, append-nil}
use niks.Common.{ℕ, ◌%◌, ◌^◌, Option, none, some, [], ◌∷◌, ◌++◌, Bool, length, length-append, arith}
use niks.Common.{◌≡◌, sym, ap, ◌∙◌}
use niks.Client.Nar.{
  Bytes, encode_string, put_uint64, padding, zeros, NarWriter, add64, write, write_static, Listing,
  Listings, regular_entry, directory_entry, symlink_entry, no_listings, listing, Queue,
}
use niks.Client.Nar.Format.{
  Tree, Entries, regular, folder, link, no_entries, entry, Words, tree_words, entries_words,
  encode_all,
}
use niks.Client.Nar.Written.{length-le_bytes, put, put-cons, put-append, put-one}

-- The archive has each listed file at its offset.
mutual
  pub data Listed (out : Bytes) : Listing → Tree → Type 0 where
    at_offset :
        {size offset : ℕ} {executable : Bool} {content : Bytes} (before after : Bytes)
        → out ≡ before ++ (content ++ after)
        → size ≡ length content
        → offset ≡ length before % 2 ^ 64
        → Listed out (regular_entry size offset executable) (regular executable content)
    at_directory :
        {ls : Listings} {es : Entries}
        → AllListed out ls es
        → Listed out (directory_entry ls) (folder es)
    at_link : {target : Bytes} → Listed out (symlink_entry target) (link target)

  pub data AllListed (out : Bytes) : Listings → Entries → Type 0 where
    nothing : AllListed out no_listings no_entries
    also :
        {name : Bytes} {l : Listing} {ls : Listings} {t : Tree} {es : Entries}
        → Listed out l t
        → AllListed out ls es
        → AllListed out (listing name l ls) (entry name t es)

mutual
  pub Listed-append :
      (out more : Bytes) {l : Listing} {t : Tree} → Listed out l t → Listed (out ++ more) l t
  Listed-append out more (at_offset {content = content} before after e s o) =
      at_offset before (after ++ more)
        (ap (λ x. x ++ more) e
          ∙ append_assoc before (content ++ after) more
          ∙ ap (λ x. before ++ x) (append_assoc content after more))
        s o
  Listed-append out more (at_directory a) = at_directory (AllListed-append out more a)
  Listed-append out more at_link = at_link

  pub AllListed-append :
      (out more : Bytes) {ls : Listings} {es : Entries}
      → AllListed out ls es
      → AllListed (out ++ more) ls es
  AllListed-append out more nothing = nothing
  AllListed-append out more (also l a) =
      also (Listed-append out more l) (AllListed-append out more a)

-- The offset counts what was written.
abbrev pub Counted : NarWriter → Type 0
Counted nw = nw.offset ≡ length nw.out % 2 ^ 64

pub put-Counted : (ws : Words) (nw : NarWriter) → Counted nw → Counted (put ws nw)
unfolding put write_static write
put-Counted ws nw c = omega (arith, c, length-append nw.out (encode_all ws))

abbrev pub Answer : Type 0 → Type 0
Answer A = Option (A × NarWriter × Queue)

abbrev pub WroteTree : NarWriter → Queue → Option Tree → Answer Listing → Type 0
WroteTree nw q none r = r ≡ none
WroteTree nw q (some t) r =
    (l : Listing) × (r ≡ some (l, put (tree_words t) nw, q))
    × Listed (put (tree_words t) nw).out l t

abbrev pub WroteEntries : NarWriter → Queue → Option Entries → Answer Listings → Type 0
WroteEntries nw q none r = r ≡ none
WroteEntries nw q (some es) r =
    (ls : Listings) × (r ≡ some (ls, put (entries_words es) nw, q))
    × AllListed (put (entries_words es) nw).out ls es

-- Words written one by one.
abbrev pub writes : Words → NarWriter → NarWriter
writes [] nw = nw
writes (w ∷ ws) nw = writes ws (write_static (encode_string w) nw)

pub writes-put : (w : Bytes) (ws : Words) (nw : NarWriter) → writes (w ∷ ws) nw ≡ put (w ∷ ws) nw
writes-put w [] nw = put-one w nw
writes-put w (v ∷ ws) nw =
    writes-put v ws (write_static (encode_string w) nw) ∙ put-cons w (v ∷ ws) nw

pub put_nil : (nw : NarWriter) → Counted nw → put [] nw ≡ nw
unfolding put write_static write encode_all
put_nil nw c =
    ap (λ x. record { out = x; offset = add64 nw.offset 0 }) (append-nil nw.out)
    ∙ ap (λ (n : ℕ). nw_with n) (omega (arith, c))
  where
    nw_with : ℕ → NarWriter
    nw_with n = record { out = nw.out; offset = n }

pub Listed-word :
    (size : ℕ) (executable : Bool) (content : Bytes) (nw : NarWriter)
    → size ≡ length content
    → Counted nw
    → Listed
        (write_static (encode_string content) nw).out
        (regular_entry size (add64 nw.offset 8) executable)
        (regular executable content)
unfolding write_static write encode_string
Listed-word size executable content nw s c =
    at_offset (nw.out ++ put_uint64 (length content)) (zeros (padding (length content)))
      (sym (
        append_assoc nw.out (put_uint64 (length content))
          (content ++ zeros (padding (length content)))))
      s
      (omega (
        arith,
        c,
        length-append nw.out (put_uint64 (length content)),
        length-le_bytes 8 (length content),
      ))

pub put-last :
    (ws : Words) (w : Bytes) (nw : NarWriter)
    → write_static (encode_string w) (put ws nw) ≡ put (ws ++ (w ∷ [])) nw
put-last ws w nw = put-one w (put ws nw) ∙ put-append ws (w ∷ []) nw

pub put-Listed :
    (ws : Words) (nw : NarWriter) {l : Listing} {t : Tree}
    → Listed nw.out l t
    → Listed (put ws nw).out l t
unfolding put write_static write
put-Listed ws nw listed = Listed-append nw.out (encode_all ws) listed
