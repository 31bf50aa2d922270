-- ===== src/Server/Keys.antt =====
-- The keys of the cache's objects (server/upload_key.go; the patterns and IsValidCachePath of
-- server/proxy.go; api/nixbase32.go). A key is the list of its bytes.
pub mod Owned
use Prim.Native.Char.{code}
use niks.Common.{
  string_eq, ℕ, zero, suc, String, Option, none, some, List, [], ◌∷◌, ◌++◌, Bool, true, false, not,
  ◌&&◌, ◌||◌, if◌then◌else◌, leb, ◌==◌, list_eq, nat_eq, contains, anyb,
}

abbrev pub Key : Type 0
Key = List ℕ

-- What the patterns are made of.
pub data Piece : Type 0 where
  literal : Key → Piece
  -- `[…]`, once or at least once.
  one : (ℕ → Bool) → Piece
  many : (ℕ → Bool) → Piece
  -- `(…|…)?`
  optional : List Key → Piece

abbrev pub Pattern : Type 0
Pattern = List Piece

-- What stands behind a prefix.
abbrev pub behind : Key → Key → Option Key
behind [] s = some s
behind (p ∷ ps) [] = none
behind (p ∷ ps) (c ∷ cs) = let rest = behind ps cs in if p == c then rest else none

-- What can stand behind one or more of the class.
unfoldable pub behind_many : (ℕ → Bool) → Key → List Key
behind_many p [] = []
behind_many p (c ∷ cs) = let rest = behind_many p cs in if p c then cs ∷ rest else []

abbrev pub passes : (Key → Bool) → Option Key → Bool
passes f none = false
passes f (some s) = f s

-- `MatchString` of a pattern between `^` and `$`.
unfoldable pub matches : Pattern → Key → Bool
unfolding behind_many anyb
matches [] s = elim s [ [] ↦ true | c ∷ cs ↦ false ]
matches (literal w ∷ ps) s = passes (matches ps) (behind w s)
matches (one p ∷ ps) s = elim s [ [] ↦ false | c ∷ cs ↦ p c && matches ps cs ]
matches (many p ∷ ps) s = anyb (matches ps) (behind_many p s)
matches (optional ws ∷ ps) s = matches ps s || anyb (λ w. passes (matches ps) (behind w s)) ws

abbrev times : ℕ → Piece → Pattern
times zero p = []
times (suc n) p = p ∷ times n p

abbrev pub bytes : String → Key
bytes String.[] = []
bytes (String.◌∷◌ c s) = code c ∷ bytes s

abbrev between : ℕ → ℕ → ℕ → Bool
between low high c = leb low c && leb c high

abbrev digit_or_lower : ℕ → Bool
digit_or_lower c = between 48 57 c || between 97 122 c

abbrev letter_or_digit : ℕ → Bool
letter_or_digit c = digit_or_lower c || between 65 90 c

-- `NixBase32Alphabet`.
unfoldable pub nix_base32 : ℕ → Bool
unfolding contains
nix_base32 c = contains (bytes "0123456789abcdfghijklmnpqrsvwxyz") c

-- `[a-zA-Z0-9+._?=-]`.
unfoldable pub name_char : ℕ → Bool
unfolding contains
name_char c = letter_or_digit c || contains (bytes "+._?=-") c

-- `[a-zA-Z0-9._-]`, of pin names.
unfoldable pub pin_char : ℕ → Bool
unfolding contains
pin_char c = letter_or_digit c || contains (bytes "._-") c

-- `[a-zA-Z0-9+/=]`.
unfoldable pub base64_char : ℕ → Bool
unfolding contains
base64_char c = letter_or_digit c || contains (bytes "+/=") c

unfoldable pub narinfo_re : Pattern
narinfo_re = times 32 (one nix_base32) ++ literal (bytes ".narinfo") ∷ []

unfoldable pub nar_re : Pattern
nar_re =
    literal (bytes "nar/")
    ∷ (times 52 (one nix_base32)
        ++ literal (bytes ".nar") ∷ optional (bytes ".zst" ∷ bytes ".xz" ∷ bytes ".bz2" ∷ []) ∷ [])

unfoldable pub ls_re : Pattern
ls_re = times 32 (one nix_base32) ++ literal (bytes ".ls") ∷ []

unfoldable pub log_re : Pattern
log_re = literal (bytes "log/") ∷ many name_char ∷ literal (bytes ".drv") ∷ []

unfoldable pub realisations_re : Pattern
realisations_re =
    literal (bytes "realisations/")
    ∷ many digit_or_lower
    ∷ literal (bytes ":")
    ∷ many base64_char
    ∷ literal (bytes "!")
    ∷ many name_char
    ∷ literal (bytes ".doi")
    ∷ []

-- `strings.HasPrefix`, `strings.HasSuffix` and `strings.Contains`.
abbrev pub has_prefix : Key → Key → Bool
has_prefix s p = passes (λ _. true) (behind p s)

unfoldable pub has_suffix : Key → Key → Bool
has_suffix [] p = [] == p
has_suffix (c ∷ s) p = c ∷ s == p || has_suffix s p

unfoldable pub contains_text : Key → Key → Bool
contains_text [] p = has_prefix [] p
contains_text (c ∷ s) p = has_prefix (c ∷ s) p || contains_text s p

-- A leading slash, or a `..` segment next to a slash.
unfoldable pub leaves_the_cache : Key → Bool
unfolding has_suffix contains_text
leaves_the_cache key =
    has_prefix key (bytes "/")
    || has_prefix key (bytes "../")
    || has_suffix key (bytes "/..")
    || contains_text key (bytes "/../")

unfoldable pub is_valid_upload_key : Key → String → Bool
unfolding leaves_the_cache matches
is_valid_upload_key key kind =
    if key == []
    then false
    else if leaves_the_cache key
    then false
    else if kind == "narinfo"
    then matches narinfo_re key
    else if kind == "nar"
    then matches nar_re key
    else if kind == "listing"
    then matches ls_re key
    else if kind == "build_log"
    then matches log_re key
    else if kind == "realisation"
    then matches realisations_re key
    else false

abbrev pub is_server_owned : Key → Bool
is_server_owned path = path == bytes "nix-cache-info" || path == bytes "index.html"

unfoldable pub is_valid_cache_path : Key → Bool
unfolding leaves_the_cache matches
is_valid_cache_path path =
    if path == []
    then false
    else if leaves_the_cache path || path == bytes ".."
    then false
    else if is_server_owned path
    then true
    else matches narinfo_re path
      || matches nar_re path
      || matches ls_re path
      || matches log_re path
      || matches realisations_re path
