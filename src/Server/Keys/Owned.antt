-- ===== src/Server/Keys/Owned.antt =====
-- Which keys a client may write (server/upload_key.go, against IsValidCachePath of server/proxy.go).
use niks.Common.{
  String, List, [], ◌∷◌, Bool, true, false, not, ◌&&◌, ◌||◌, ◌==◌, list_eq, nat_eq, string_eq, anyb,
  ◌≡◌, refl, sym, subst, arith,
}
use niks.Server.Keys.{
  Key, bytes, behind_many, nix_base32, matches, narinfo_re, nar_re, ls_re, log_re, realisations_re,
  is_valid_upload_key, is_server_owned, is_valid_cache_path,
}

abbrev pub object_types : List String
object_types = "narinfo" ∷ "nar" ∷ "listing" ∷ "build_log" ∷ "realisation" ∷ []

-- Some pattern fits.
abbrev fits : Key → Bool
fits key =
    matches narinfo_re key
    || matches nar_re key
    || matches ls_re key
    || matches log_re key
    || matches realisations_re key

fits_not : (key other : Key) → fits other ≡ false → key == other ≡ true → fits key ≡ false
fits_not key other h e = subst (λ k. fits k ≡ false) (sym ((list_eq.test_iff key other).0 e)) h

dots-fits : fits (bytes "..") ≡ false
unfolding matches narinfo_re nar_re ls_re log_re realisations_re behind_many anyb nix_base32
dots-fits = refl

info-fits : fits (bytes "nix-cache-info") ≡ false
unfolding matches narinfo_re nar_re ls_re log_re realisations_re behind_many anyb nix_base32
info-fits = refl

index-fits : fits (bytes "index.html") ≡ false
unfolding matches narinfo_re nar_re ls_re log_re realisations_re behind_many anyb nix_base32
index-fits = refl

-- The keys that a client may write, under one of the five types, are those that the read proxy
-- serves, but for the two files that the server writes itself.
pub upload_keys-cache_paths :
    (key : Key)
    → anyb (is_valid_upload_key key) object_types
      ≡ (is_valid_cache_path key && not (is_server_owned key))
unfolding is_valid_upload_key is_valid_cache_path anyb
upload_keys-cache_paths key = ground (
  arith,
  fits_not key (bytes "..") dots-fits,
  fits_not key (bytes "nix-cache-info") info-fits,
  fits_not key (bytes "index.html") index-fits,
)
