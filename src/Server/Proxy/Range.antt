-- ===== src/Server/Proxy/Range.antt =====
-- Byte ranges of a read (server/proxy.go: parseSingleRange). White space is that of ASCII; sizes are
-- below 2^63, as an `int64` is.
pub mod Bounds
use niks.Common.{
  ℕ, ◌+◌, ◌-◌, ◌^◌, Option, none, some, List, [], ◌∷◌, Bool, true, false, not, ◌||◌, if◌then◌else◌,
  ltb, leb, ◌==◌, nat_eq, list_eq, contains,
}
use niks.Common.Decimal.{parse_uint}
use niks.Server.Keys.{Key, bytes, behind}
use niks.Server.Signing.{cut}
use niks.Server.Signing.Secret.{trim_space}

-- A number as `strconv.ParseInt` gives it: not one that fits 64 bits, one below zero, or another.
pub data Parsed : Type 0 where
  no_number below_zero : Parsed
  number : ℕ → Parsed

abbrev pub positive : Option ℕ → Parsed
positive none = no_number
positive (some n) = if ltb n (2 ^ 63) then number n else no_number

abbrev pub negative : Option ℕ → Parsed
negative none = no_number
negative (some n) = if n == 0 then number 0 else if leb n (2 ^ 63) then below_zero else no_number

unfoldable pub parse_int : Key → Parsed
unfolding parse_uint
parse_int [] = no_number
parse_int (c ∷ s) =
    if c == b'-'
    then negative (parse_uint s)
    else if c == b'+'
    then positive (parse_uint s)
    else positive (parse_uint (c ∷ s))

pub record ByteRange : Type 0 where
  pub start : ℕ
  pub end : ℕ

-- `byteRange.length`.
abbrev pub range_length : ByteRange → ℕ
range_length r = r.end - r.start + 1

-- What a range header comes to: the whole object, a part of it, or a refusal.
pub data Ranged : Type 0 where
  whole unsatisfiable : Ranged
  part : ByteRange → Ranged

-- The last bytes.
abbrev pub suffix_range : ℕ → Parsed → Ranged
suffix_range size no_number = whole
suffix_range size below_zero = whole
suffix_range size (number n) =
    if n == 0
    then whole
    else part (record { start = size - (if ltb size n then size else n); end = size - 1 })

-- From `start` to the end that is given.
abbrev pub range_to : ℕ → ℕ → Parsed → Ranged
range_to size start no_number = whole
range_to size start below_zero = whole
range_to size start (number end) =
    if ltb end start
    then whole
    else part (record { start = start; end = if leb size end then size - 1 else end })

abbrev pub range_from : ℕ → Key → Parsed → Ranged
range_from size end_str no_number = whole
range_from size end_str below_zero = whole
range_from size end_str (number start) =
    if leb size start
    then unsatisfiable
    else if end_str == []
    then part (record { start = start; end = size - 1 })
    else range_to size start (parse_int end_str)

abbrev pub range_of : ℕ → Key → Key → Ranged
range_of size start_str end_str =
    if start_str == []
    then if end_str == [] then whole else suffix_range size (parse_int end_str)
    else range_from size end_str (parse_int start_str)

abbrev pub range_between : ℕ → Option (Key × Key) → Ranged
range_between size none = whole
range_between size (some ends) = range_of size (trim_space ends.0) (trim_space ends.1)

abbrev pub range_behind : ℕ → Option Key → Ranged
range_behind size none = whole
range_behind size (some spec) =
    if contains spec b',' then whole else range_between size (cut b'-' spec)

-- `parseSingleRange`.
unfoldable pub parse_single_range : Key → ℕ → Ranged
unfolding parse_int trim_space cut contains
parse_single_range spec size =
    if spec == [] || size == 0 then whole else range_behind size (behind (bytes "bytes=") spec)
