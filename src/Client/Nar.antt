-- ===== src/Client/Nar.antt =====
-- Serialising a store path to the NAR format (client/nar.go, client/nar_prefetch.go). The sink takes
-- all bytes that are written to it; reading a file may fail.
pub mod Format
pub mod Parsed
pub mod Walk
mod Tests
pub mod Written
pub mod Dump
use Prim.Native.Char.{code}
use niks.Common.{
  ℕ, zero, suc, ◌+◌, ◌-◌, ◌*◌, ◌/◌, ◌%◌, ◌^◌, String, Option, none, some, List, [], ◌∷◌, ◌++◌,
}
use niks.Common.{Bool, true, false, if◌then◌else◌, leb, length}

abbrev pub Bytes : Type 0
Bytes = List ℕ

-- The bytes of an ASCII text.
abbrev pub ascii : String → Bytes
ascii String.[] = []
ascii (String.◌∷◌ c s) = code c ∷ ascii s

-- The low bytes of a number, the lowest first.
unfoldable pub le_bytes : ℕ → ℕ → Bytes
le_bytes zero v = []
le_bytes (suc n) v = v % 256 ∷ le_bytes n (v / 256)

-- `binary.LittleEndian.PutUint64`.
abbrev pub put_uint64 : ℕ → Bytes
put_uint64 v = le_bytes 8 v

abbrev pub padding : ℕ → ℕ
padding n = (8 - n % 8) % 8

unfoldable pub zeros : ℕ → Bytes
zeros zero = []
zeros (suc n) = 0 ∷ zeros n

-- `encodeStaticString`.
unfoldable pub encode_string : Bytes → Bytes
unfolding zeros
encode_string s = put_uint64 (length s) ++ (s ++ zeros (padding (length s)))

-- `narWriter`, with what it has written.
pub record NarWriter : Type 0 where
  pub out : Bytes
  pub offset : ℕ

abbrev pub add64 : ℕ → ℕ → ℕ
add64 a b = (a + b) % 2 ^ 64

-- A write to the sink, with the step of the offset behind it.
unfoldable pub write : Bytes → ℕ → NarWriter → NarWriter
write content n nw = record { out = nw.out ++ content; offset = add64 nw.offset n }

unfoldable pub write_static : Bytes → NarWriter → NarWriter
unfolding write
write_static content nw = write content (length content) nw

unfoldable pub write_uint64 : ℕ → NarWriter → NarWriter
unfolding write le_bytes
write_uint64 v nw = write (put_uint64 v) 8 nw

unfoldable pub write_padding : ℕ → NarWriter → NarWriter
unfolding write zeros
write_padding n nw = elim (padding n) [ zero ↦ nw | suc p ↦ write (zeros (suc p)) (suc p) nw ]

unfoldable pub write_string : Bytes → NarWriter → NarWriter
unfolding write_uint64 write write_padding
write_string s nw = write_padding (length s) (write s (length s) (write_uint64 (length s) nw))

-- The size, the contents and the padding of a file, with the offset of the contents
-- (`writeContentsHeader`, the copy and `writeContentsFooter`).
unfoldable pub write_contents : ℕ → Bytes → NarWriter → ℕ × NarWriter
unfolding write_uint64 write write_padding
write_contents size content nw =
    let header = write_uint64 size nw in
    (header.offset, write_padding size (write content size header))

-- `narNode`.
mutual
  pub data Node : Type 0 where
    file : Bytes → Bytes → ℕ → Bool → Node
    directory : Bytes → Bytes → Nodes → Node
    symlink : Bytes → Bytes → Bytes → Node

  pub data Nodes : Type 0 where
    no_nodes : Nodes
    node : Node → Nodes → Nodes

abbrev pub name_of : Node → Bytes
name_of (file name path size executable) = name
name_of (directory name path children) = name
name_of (symlink name path target) = name

-- `NarListingEntry`.
mutual
  pub data Listing : Type 0 where
    regular_entry : ℕ → ℕ → Bool → Listing
    directory_entry : Listings → Listing
    symlink_entry : Bytes → Listing

  pub data Listings : Type 0 where
    no_listings : Listings
    listing : Bytes → Listing → Listings → Listings

abbrev pub prefetch_max_file_size : ℕ
prefetch_max_file_size = 256 * 1024

-- A file that the prefetcher was given: its path and size.
abbrev pub Queue : Type 0
Queue = List (Bytes × ℕ)

unfoldable pub should_prefetch : ℕ → Bool
should_prefetch size = leb size prefetch_max_file_size

-- `enqueuePrefetch`: the files in the order in which the prefetcher gets them.
unfoldable mutual
  unfolding should_prefetch

  pub enqueue_prefetch : Node → Queue
  enqueue_prefetch (file name path size executable) =
      if should_prefetch size then (path, size) ∷ [] else []
  enqueue_prefetch (directory name path children) = enqueue_children children
  enqueue_prefetch (symlink name path target) = []

  pub enqueue_children : Nodes → Queue
  enqueue_children no_nodes = []
  enqueue_children (node n ns) = enqueue_prefetch n ++ enqueue_children ns

-- The bytes written so far, a listing of them, and the files still in the prefetch queue.
abbrev pub Write : Type 0 → Type 0
Write A = Option (A × NarWriter × Queue)

-- `read path size`: the first `size` bytes of the file, by `io.ReadFull`.
module _ (read : Bytes → ℕ → Option Bytes) where
  -- A small file comes off the prefetch queue, another is read by the writer itself.
  unfoldable pub write_file_contents : Bytes → ℕ → NarWriter → Queue → Write ℕ
  unfolding write_contents should_prefetch
  write_file_contents path size nw q =
      if should_prefetch size
      then (elim q [
        | [] ↦ none
        | f ∷ rest ↦ elim (read f.0 f.1) [
          | none ↦ none
          | some content ↦
              some ((write_contents f.1 content nw).0, (write_contents f.1 content nw).1, rest)
        ]
      ])
      else (elim (read path size) [
        | none ↦ none
        | some content ↦
            some ((write_contents size content nw).0, (write_contents size content nw).1, q)
      ])

  unfoldable mutual
    unfolding write_file_contents write_static write_string encode_string

    pub write_node : Node → NarWriter → Queue → Write Listing
    write_node (file name path size executable) nw q =
        let head =
          write_static (encode_string (ascii "regular"))
            (write_static (encode_string (ascii "type")) nw) in
        let flagged =
          if executable
          then write_static (encode_string [])
              (write_static (encode_string (ascii "executable")) head)
          else head in
        elim (write_file_contents path size
          (write_static (encode_string (ascii "contents")) flagged) q) [
            | none ↦ none
            | some (offset, nw', q') ↦ some (regular_entry size offset executable, nw', q')
          ]
    write_node (directory name path children) nw q =
        elim (write_children children
          (write_static (encode_string (ascii "directory"))
            (write_static (encode_string (ascii "type")) nw))
          q) [ none ↦ none | some (entries, nw', q') ↦ some (directory_entry entries, nw', q') ]
    write_node (symlink name path target) nw q = some (
      symlink_entry target,
      write_string target (
          write_static (encode_string (ascii "target")) (
            write_static (encode_string (ascii "symlink"))
              (write_static (encode_string (ascii "type")) nw))),
      q,
    )

    pub write_children : Nodes → NarWriter → Queue → Write Listings
    write_children no_nodes nw q = some (no_listings, nw, q)
    write_children (node n ns) nw q =
        elim (write_node n
          (write_static (encode_string (ascii "(")) (
            write_static (encode_string (ascii "node")) (
              write_string (name_of n) (
                write_static (encode_string (ascii "name")) (
                  write_static (encode_string (ascii "("))
                    (write_static (encode_string (ascii "entry")) nw))))))
          q) [
            | none ↦ none
            | some (e, nw', q') ↦
                elim (write_children ns
                  (write_static (encode_string (ascii ")"))
                    (write_static (encode_string (ascii ")")) nw'))
                  q') [
                    | none ↦ none
                    | some (es, nw'', q'') ↦ some (listing (name_of n) e es, nw'', q'')
                  ]
          ]

  -- The write pass of `DumpPathWithListing`, with the whole prefetch queue before it.
  unfoldable pub dump_tree : Node → Option (Bytes × Listing)
  unfolding write_node enqueue_prefetch write_static encode_string
  dump_tree root =
      elim (write_node root
        (write_static (encode_string (ascii "("))
          (write_static (encode_string (ascii "nix-archive-1")) (record { out = []; offset = 0 })))
        (enqueue_prefetch root)) [
          | none ↦ none
          | some (entry, nw, q) ↦ some ((write_static (encode_string (ascii ")")) nw).out, entry)
        ]
