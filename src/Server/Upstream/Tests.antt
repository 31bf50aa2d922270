-- ===== src/Server/Upstream/Tests.antt =====
-- A narinfo served and read again (server/upstream.go).
use niks.Common.{none, some, List, [], ◌∷◌, ◌++◌, list_eq, nat_eq, contains, ◌≡◌, refl, arith}
use niks.Server.Keys.{Key, bytes}
use niks.Server.Upstream.Narinfo.{
  UpstreamNarinfo, empty_narinfo, parse_narinfo, format, is_store_path_base,
}
use niks.Server.Upstream.Narinfo.Lines.{spaceless}
use niks.Server.Upstream.Narinfo.RoundTrip.{Servable, parse_narinfo-format}

abbrev base : Key
base = bytes "0123456789abcdfghijklmnpqrsvwxyz-glibc"

abbrev narinfo : UpstreamNarinfo
narinfo = record empty_narinfo {
  nar_info = record {
    store_path = bytes "/nix/store/" ++ base;
    nar_hash = bytes "sha256:0123456789012345678901234567890123456789012345678901";
    nar_size = 120;
    references = (bytes "/nix/store/" ++ base) ∷ [];
  };
  nar_key = bytes "nar/x.nar.zst";
  compression = bytes "zstd";
  ca = bytes "fixed";
}

abbrev sigs : List Key
sigs = bytes "a:1" ∷ bytes "b:2" ∷ []

narinfo-Servable : Servable narinfo (base ∷ []) sigs
unfolding contains is_store_path_base spaceless
narinfo-Servable = record {
  store_path = refl;
  nar_key = refl;
  compression = refl;
  compressed = λ e. cc;
  nar_hash = refl;
  nar_size = omega arith;
  references = refl;
  are_bases = ((refl, (λ e. cc), refl), tt);
  deriver = refl;
  ca = refl;
  signatures = (refl, (refl, tt));
}

parse_narinfo-format_example :
    parse_narinfo (format narinfo sigs)
    ≡ some (record narinfo { url = bytes "nar/x.nar.zst"; nar_key = []; sigs = sigs })
parse_narinfo-format_example = parse_narinfo-format narinfo (base ∷ []) sigs narinfo-Servable

twice : parse_narinfo (bytes "URL: a\nURL: b\n") ≡ none
unfolding parse_narinfo
twice = refl

default :
    parse_narinfo (bytes "URL: a\nOther: b\n")
    ≡ some (record empty_narinfo { url = bytes "a"; compression = bytes "bzip2" })
unfolding parse_narinfo
default = refl
