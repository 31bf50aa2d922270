-- ===== src/Server/Upstream/Narinfo/RoundTrip.antt =====
-- A narinfo that is served (server/upstream.go: format) is read back as it is (parseNarinfo).
use mathlib.Core.List.{append-nil, append_assoc}
use niks.Common.{
  ◌<◌, ◌^◌, some, List, [], ◌∷◌, ◌++◌, map, true, false, ◌==◌, nat_eq, list_eq, contains, ◌≡◌, ◌≢◌,
  refl, sym, ap, ◌∙◌, inl, inr, Bool-cases,
}
use niks.Common.Decimal.{parse_uint-format_uint, format_uint-lacks}
use niks.Common.Split.{join, Pieces}
use niks.Server.Keys.{Key, bytes}
use niks.Server.Sign.{NarInfo}
use niks.Server.Signing.Unambiguous.{Lack}
use niks.Server.Upstream.Narinfo.{
  UpstreamNarinfo, empty_narinfo, nix_store_dir, is_store_path_base, parse_references, fields,
  set_field, cut_text, parse_lines, parse_narinfo, terminated, line, optional_line, narinfo_lines,
  format, trim_prefix, with_compression, after_loop,
}
use niks.Server.Upstream.Narinfo.Lines.{
  Words, spaceless, fields-join, join-lacks, split-trim_right-terminated,
}

-- Names below the store's directory, not empty and without white space.
abbrev pub Bases : List Key → Type 0
Bases [] = Unit
Bases (b ∷ bs) = ((is_store_path_base b ≡ true) × (b ≢ []) × (spaceless b ≡ true)) × Bases bs

abbrev pub in_store : List Key → List Key
in_store = map (λ b. nix_store_dir ++ b)

-- A narinfo whose fields each stand on one line, to be served with these signatures.
pub record Servable (info : UpstreamNarinfo) (bases sigs : List Key) : Type 0 where
  pub store_path : contains info.nar_info.store_path b'\n' ≡ false
  pub nar_key : contains info.nar_key b'\n' ≡ false
  pub compression : contains info.compression b'\n' ≡ false
  pub compressed : info.compression ≢ []
  pub nar_hash : contains info.nar_info.nar_hash b'\n' ≡ false
  pub nar_size : info.nar_info.nar_size < 2 ^ 64
  pub references : info.nar_info.references ≡ in_store bases
  pub are_bases : Bases bases
  pub deriver : contains info.deriver b'\n' ≡ false
  pub ca : contains info.ca b'\n' ≡ false
  pub signatures : Lack b'\n' sigs

parse_references-in_store : (bs : List Key) → Bases bs → parse_references bs ≡ some (in_store bs)
unfolding parse_references
parse_references-in_store [] p = refl
parse_references-in_store (b ∷ bs) p = rw (p.0.0, parse_references-in_store bs p.1) refl

Bases-Words : (bs : List Key) → Bases bs → Words bs
Bases-Words [] p = tt
Bases-Words (b ∷ bs) p = ((p.0.1, p.0.2), Bases-Words bs p.1)

trim_in_store : (bs : List Key) → map (λ ref. trim_prefix ref nix_store_dir) (in_store bs) ≡ bs
trim_in_store [] = refl
trim_in_store (b ∷ bs) = ap (λ t. b ∷ t) (trim_in_store bs)

parse_signatures :
    (seen : List Key) (info : UpstreamNarinfo) (sigs : List Key)
    → parse_lines seen info (map (line (bytes "Sig")) sigs)
      ≡ some (record info { sigs = info.sigs ++ sigs })
unfolding parse_lines cut_text set_field
parse_signatures seen info [] =
    ap (λ s. some (record info { sigs = s })) (sym (append-nil info.sigs))
parse_signatures seen info (sig ∷ sigs) =
    parse_signatures seen (record info { sigs = info.sigs ++ sig ∷ [] }) sigs
    ∙ ap (λ s. some (record info { sigs = s })) (append_assoc info.sigs (sig ∷ []) sigs)

-- The fields before the last two, and the names read with them.
abbrev fixed : NarInfo → Key → Key → Key → Key → List Key → UpstreamNarinfo
fixed info url compression deriver ca sigs = record {
  nar_info = info;
  url = url;
  nar_key = [];
  compression = compression;
  deriver = deriver;
  ca = ca;
  sigs = sigs;
}

abbrev names : List Key
names =
    bytes "References"
    ∷ bytes "NarSize"
    ∷ bytes "NarHash"
    ∷ bytes "Compression"
    ∷ bytes "URL"
    ∷ bytes "StorePath"
    ∷ []

parse_optional :
    (info : NarInfo) (url compression deriver ca : Key) (sigs : List Key)
    → parse_lines names (fixed info url compression [] [] []) (
        optional_line (bytes "Deriver") deriver
        ++ optional_line (bytes "CA") ca
        ++ map (line (bytes "Sig")) sigs)
      ≡ some (fixed info url compression deriver ca sigs)
unfolding parse_lines cut_text set_field contains
parse_optional info url compression [] [] sigs =
    parse_signatures names (fixed info url compression [] [] []) sigs
parse_optional info url compression [] (c ∷ ca) sigs =
    parse_signatures (bytes "CA" ∷ names) (fixed info url compression [] (c ∷ ca) []) sigs
parse_optional info url compression (d ∷ deriver) [] sigs =
    parse_signatures (bytes "Deriver" ∷ names) (fixed info url compression (d ∷ deriver) [] []) sigs
parse_optional info url compression (d ∷ deriver) (c ∷ ca) sigs =
    parse_signatures (bytes "CA" ∷ bytes "Deriver" ∷ names)
      (fixed info url compression (d ∷ deriver) (c ∷ ca) []) sigs

signatures-Pieces :
    (sigs : List Key) → Lack b'\n' sigs → Pieces b'\n' (map (line (bytes "Sig")) sigs)
unfolding contains
signatures-Pieces [] l = tt
signatures-Pieces (sig ∷ sigs) l = ((λ e. cc, l.0), signatures-Pieces sigs l.1)

optional-Pieces :
    (deriver ca : Key) (ls : List Key)
    → contains deriver b'\n' ≡ false
    → contains ca b'\n' ≡ false
    → Pieces b'\n' ls
    → Pieces b'\n' (optional_line (bytes "Deriver") deriver ++ optional_line (bytes "CA") ca ++ ls)
unfolding contains
optional-Pieces [] [] ls h k p = p
optional-Pieces [] (c ∷ ca) ls h k p = ((λ e. cc, k), p)
optional-Pieces (d ∷ deriver) [] ls h k p = ((λ e. cc, h), p)
optional-Pieces (d ∷ deriver) (c ∷ ca) ls h k p = ((λ e. cc, h), ((λ e. cc, k), p))

parse_narinfo-terminated :
    (ls : List Key) (info : UpstreamNarinfo)
    → ls ≢ []
    → Pieces b'\n' ls
    → parse_lines [] empty_narinfo ls ≡ some info
    → parse_narinfo (terminated b'\n' ls) ≡ some (with_compression info)
unfolding parse_narinfo
parse_narinfo-terminated [] info h p e = absurd (h refl)
parse_narinfo-terminated (l ∷ ls) info h p e =
    ap (λ t. after_loop (parse_lines [] empty_narinfo t)) (split-trim_right-terminated b'\n' l ls p)
    ∙ ap after_loop e

with_compression-id :
    (info : UpstreamNarinfo) → info.compression ≢ [] → with_compression info ≡ info
with_compression-id info h = elim (Bool-cases (info.compression == [])) [
  | inl e ↦ absurd (h ((list_eq.test_iff info.compression []).0 e))
  | inr e ↦ rw e refl
]

module _ (info : UpstreamNarinfo) (bases sigs : List Key) (s : Servable info bases sigs) where
  narinfo_lines-ne-nil : narinfo_lines info sigs ≢ []
  unfolding narinfo_lines
  narinfo_lines-ne-nil e = cc

  references_line : map (λ ref. trim_prefix ref nix_store_dir) info.nar_info.references ≡ bases
  references_line =
      ap (map (λ ref. trim_prefix ref nix_store_dir)) s.references ∙ trim_in_store bases

  narinfo_lines-Pieces : Pieces b'\n' (narinfo_lines info sigs)
  unfolding narinfo_lines contains
  narinfo_lines-Pieces = (
    (λ e. cc, s.store_path),
    (
      (λ e. cc, s.nar_key),
      (
        (λ e. cc, s.compression),
        (
          (λ e. cc, s.nar_hash),
          (
            (λ e. cc, format_uint-lacks info.nar_info.nar_size b'\n' refl),
            (
              (
                λ e. cc,
                ap (λ ws. contains (join 32 ws) b'\n') references_line
                    ∙ join-lacks bases (Bases-Words bases s.are_bases),
              ),
              optional-Pieces info.deriver info.ca _ s.deriver s.ca
                  (signatures-Pieces sigs s.signatures),
            ),
          ),
        ),
      ),
    ),
  )

  read_references :
      parse_references
        (fields [] (join 32 (map (λ ref. trim_prefix ref nix_store_dir) info.nar_info.references)))
      ≡ some info.nar_info.references
  read_references =
      ap (λ ws. parse_references (fields [] (join 32 ws))) references_line
      ∙ ap parse_references (fields-join bases (Bases-Words bases s.are_bases))
      ∙ parse_references-in_store bases s.are_bases
      ∙ ap (λ r. some r) (sym s.references)

  parse_lines-narinfo_lines :
      parse_lines [] empty_narinfo (narinfo_lines info sigs)
      ≡ some (record info { url = info.nar_key; nar_key = []; sigs = sigs })
  unfolding parse_lines narinfo_lines cut_text set_field contains
  parse_lines-narinfo_lines =
      rw (parse_uint-format_uint info.nar_info.nar_size s.nar_size, read_references)
        (parse_optional info.nar_info info.nar_key info.compression info.deriver info.ca sigs)

  -- A narinfo whose fields each stand on one line, with a compression, a size of 64 bits and
  -- references to names in the store without white space, is read back from the text that is
  -- served: the NAR's key stands as its URL, and the signatures are those it is served with.
  pub parse_narinfo-format :
      parse_narinfo (format info sigs)
      ≡ some (record info { url = info.nar_key; nar_key = []; sigs = sigs })
  unfolding format
  parse_narinfo-format =
      parse_narinfo-terminated (narinfo_lines info sigs) _ narinfo_lines-ne-nil narinfo_lines-Pieces
        parse_lines-narinfo_lines
      ∙ ap (λ i. some i) (with_compression-id _ s.compressed)
