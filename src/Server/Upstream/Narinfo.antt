-- ===== src/Server/Upstream/Narinfo.antt =====
-- The text of a narinfo of an upstream cache (server/upstream.go: parseNarinfo, format). A text is
-- the list of its bytes; white space is that of ASCII.
pub mod Lines
pub mod RoundTrip
use niks.Common.{
  ℕ, Option, none, some, List, [], ◌∷◌, ◌++◌, map, Bool, true, false, not, ◌&&◌, ◌||◌,
  if◌then◌else◌, leb, ◌==◌, nat_eq, list_eq, contains, length, take, drop,
}
use niks.Common.Decimal.{format_uint, parse_uint}
use niks.Common.Split.{join}
use niks.Server.Keys.{Key, bytes, behind, has_prefix, nix_base32}
use niks.Server.Sign.{NarInfo}

abbrev pub nix_store_dir : Key
nix_store_dir = bytes "/nix/store/"

-- `upstreamNarinfo`.
pub record UpstreamNarinfo : Type 0 where
  pub nar_info : NarInfo
  pub url : Key
  pub nar_key : Key
  pub compression : Key
  pub deriver : Key
  pub ca : Key
  pub sigs : List Key

abbrev pub empty_narinfo : UpstreamNarinfo
empty_narinfo = record {
  nar_info = record { store_path = []; nar_hash = []; nar_size = 0; references = [] };
  url = [];
  nar_key = [];
  compression = [];
  deriver = [];
  ca = [];
  sigs = [];
}

-- `strings.TrimRight` and `strings.Split`, by one byte.
unfoldable pub trim_right : ℕ → Key → Key
trim_right c [] = []
trim_right c (x ∷ s) = elim (trim_right c s) [
  | [] ↦ if x == c then [] else x ∷ []
  | y ∷ t ↦ x ∷ y ∷ t
]

abbrev pub onto_first : ℕ → List Key → List Key
onto_first x [] = (x ∷ []) ∷ []
onto_first x (l ∷ ls) = (x ∷ l) ∷ ls

unfoldable pub split : ℕ → Key → List Key
split c [] = [] ∷ []
split c (x ∷ s) = let rest = split c s in if x == c then [] ∷ rest else onto_first x rest

-- `strings.Cut` at a text that is not empty.
unfoldable pub cut_text : Key → Key → Option (Key × Key)
cut_text sep [] = none
cut_text sep (x ∷ s) =
    let rest = cut_text sep s in
    elim (behind sep (x ∷ s)) [
      | some after ↦ some ([], after)
      | none ↦ elim rest [ none ↦ none | some r ↦ some (x ∷ r.0, r.1) ]
    ]

abbrev pub is_space : ℕ → Bool
is_space c = c == 32 || leb 9 c && leb c 13

abbrev pub flush : Key → List Key → List Key
flush [] words = words
flush (c ∷ w) words = (c ∷ w) ∷ words

-- `strings.Fields`, behind the word read so far.
unfoldable pub fields : Key → Key → List Key
fields word [] = flush word []
fields word (c ∷ s) =
    let next = fields [] s in
    let more = fields (word ++ c ∷ []) s in if is_space c then flush word next else more

unfoldable pub all_base32 : Key → Bool
unfolding nix_base32
all_base32 [] = true
all_base32 (c ∷ s) = nix_base32 c && all_base32 s

abbrev pub starts_with_dash : Key → Bool
starts_with_dash [] = false
starts_with_dash (c ∷ s) = c == b'-'

-- `isStorePathBase`: `<32-char hash>-<name>`.
unfoldable pub is_store_path_base : Key → Bool
unfolding all_base32 contains
is_store_path_base base =
    if not (leb 34 (length base)) || not (starts_with_dash (drop 32 base)) || contains base b'/'
    then false
    else all_base32 (take 32 base)

-- The references of one field; `none` is an error.
unfoldable pub parse_references : List Key → Option (List Key)
unfolding is_store_path_base
parse_references [] = some []
parse_references (ref ∷ refs) =
    let rest = parse_references refs in
    if is_store_path_base ref
    then (elim rest [ none ↦ none | some r ↦ some ((nix_store_dir ++ ref) ∷ r) ])
    else none

-- The switch over the field's name. A field of another name is left out.
unfoldable pub set_field : Key → Key → UpstreamNarinfo → Option UpstreamNarinfo
unfolding parse_uint parse_references fields
set_field name value info =
    if name == bytes "StorePath"
    then some (record info { nar_info = record info.nar_info { store_path = value } })
    else if name == bytes "URL"
    then some (record info { url = value })
    else if name == bytes "Compression"
    then some (record info { compression = value })
    else if name == bytes "NarHash"
    then some (record info { nar_info = record info.nar_info { nar_hash = value } })
    else if name == bytes "NarSize"
    then (elim (parse_uint value) [
      | none ↦ none
      | some size ↦ some (record info { nar_info = record info.nar_info { nar_size = size } })
    ])
    else if name == bytes "References"
    then (elim (parse_references (fields [] value)) [
      | none ↦ none
      | some refs ↦ some (record info {
        nar_info = record info.nar_info { references = info.nar_info.references ++ refs };
      })
    ])
    else if name == bytes "Deriver"
    then some (record info { deriver = value })
    else if name == bytes "CA"
    then some (record info { ca = value })
    else if name == bytes "Sig"
    then some (record info { sigs = info.sigs ++ value ∷ [] })
    else some info

-- The loop over the lines. Only `Sig` may come twice.
unfoldable pub parse_lines : List Key → UpstreamNarinfo → List Key → Option UpstreamNarinfo
unfolding cut_text set_field contains
parse_lines seen info [] = some info
parse_lines seen info (line ∷ lines) = elim (cut_text (bytes ": ") line) [
  | none ↦ none
  | some field ↦
      if field.0 == bytes "Sig"
      then (elim (set_field field.0 field.1 info) [
        | none ↦ none
        | some info' ↦ parse_lines seen info' lines
      ])
      else if contains seen field.0
      then none
      else (elim (set_field field.0 field.1 info) [
        | none ↦ none
        | some info' ↦ parse_lines (field.0 ∷ seen) info' lines
      ])
]

-- Without the field Nix takes bzip2.
abbrev pub with_compression : UpstreamNarinfo → UpstreamNarinfo
with_compression info =
    if info.compression == [] then record info { compression = bytes "bzip2" } else info

abbrev pub after_loop : Option UpstreamNarinfo → Option UpstreamNarinfo
after_loop none = none
after_loop (some info) = some (with_compression info)

-- `parseNarinfo`.
unfoldable pub parse_narinfo : Key → Option UpstreamNarinfo
unfolding parse_lines split trim_right
parse_narinfo text = after_loop (parse_lines [] empty_narinfo (split b'\n' (trim_right b'\n' text)))

-- `strings.TrimPrefix`.
abbrev pub trim_prefix : Key → Key → Key
trim_prefix s p = elim (behind p s) [ none ↦ s | some rest ↦ rest ]

abbrev pub line : Key → Key → Key
line name value = name ++ bytes ": " ++ value

abbrev pub optional_line : Key → Key → List Key
optional_line name [] = []
optional_line name (c ∷ value) = line name (c ∷ value) ∷ []

-- Each line with its end, `\n`.
unfoldable pub terminated : ℕ → List Key → Key
terminated c [] = []
terminated c (l ∷ ls) = l ++ c ∷ terminated c ls

-- The lines that `format` prints.
unfoldable pub narinfo_lines : UpstreamNarinfo → List Key → List Key
unfolding format_uint join
narinfo_lines info sigs =
    line (bytes "StorePath") info.nar_info.store_path
    ∷ line (bytes "URL") info.nar_key
    ∷ line (bytes "Compression") info.compression
    ∷ line (bytes "NarHash") info.nar_info.nar_hash
    ∷ line (bytes "NarSize") (format_uint info.nar_info.nar_size)
    ∷ line (bytes "References")
        (join 32 (map (λ ref. trim_prefix ref nix_store_dir) info.nar_info.references))
    ∷ (optional_line (bytes "Deriver") info.deriver
        ++ optional_line (bytes "CA") info.ca
        ++ map (line (bytes "Sig")) sigs)

unfoldable pub format : UpstreamNarinfo → List Key → Key
unfolding narinfo_lines terminated
format info sigs = terminated b'\n' (narinfo_lines info sigs)
