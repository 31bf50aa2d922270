-- ===== src/Server/Proxy/Range/Bounds.antt =====
-- What a range is (server/proxy.go).
use niks.Common.{
  ℕ, ◌≤◌, ◌<◌, Option, none, some, [], ◌||◌, ltb, leb, ◌==◌, nat_eq, list_eq, contains, arith,
  Bool-cases, inl, inr,
}
use niks.Server.Keys.{Key, bytes, behind}
use niks.Server.Signing.{cut}
use niks.Server.Signing.Secret.{trim_space}
use niks.Server.Proxy.Range.{
  ByteRange, Parsed, no_number, below_zero, number, parse_int, range_length, Ranged, whole,
  unsatisfiable, part, suffix_range, range_to, range_from, range_of, range_between, range_behind,
  parse_single_range,
}

-- A part lies within the object and is not empty.
pub data Within (size : ℕ) : Ranged → Type 0 where
  all_of_it : Within size whole
  none_of_it : Within size unsatisfiable
  some_of_it :
      {r : ByteRange}
      → r.start ≤ r.end
      → r.end < size
      → 0 < range_length r
      → range_length r ≤ size
      → Within size (part r)

Within-part :
    (size start end : ℕ)
    → start ≤ end
    → end < size
    → Within size (part (record { start = start; end = end }))
Within-part size start end h k = some_of_it h k (omega arith) (omega (arith, h, k))

suffix_range-Within : (size : ℕ) (n : Parsed) → 0 < size → Within size (suffix_range size n)
suffix_range-Within size no_number h = all_of_it
suffix_range-Within size below_zero h = all_of_it
suffix_range-Within size (number n) h = elim (Bool-cases (n == 0)) [
  | inl e ↦ rw e all_of_it
  | inr e ↦ rw e (elim (Bool-cases (ltb size n)) [
    | inl k ↦ rw k (Within-part size _ _ (omega (arith, h)) (omega (arith, h)))
    | inr k ↦ rw k (Within-part size _ _ (ground (arith, h, e, k)) (omega (arith, h)))
  ])
]

range_to-Within : (size start : ℕ) (n : Parsed) → start < size → Within size (range_to size start n)
range_to-Within size start no_number h = all_of_it
range_to-Within size start below_zero h = all_of_it
range_to-Within size start (number end) h = elim (Bool-cases (ltb end start)) [
  | inl e ↦ rw e all_of_it
  | inr e ↦ rw e (elim (Bool-cases (leb size end)) [
    | inl k ↦ rw k (Within-part size _ _ (omega (arith, h)) (omega (arith, h)))
    | inr k ↦ rw k (Within-part size _ _ (ground (arith, e)) (ground (arith, k)))
  ])
]

range_from-Within :
    (size : ℕ) (end_str : Key) (n : Parsed) → Within size (range_from size end_str n)
range_from-Within size end_str no_number = all_of_it
range_from-Within size end_str below_zero = all_of_it
range_from-Within size end_str (number start) = elim (Bool-cases (leb size start)) [
  | inl e ↦ rw e none_of_it
  | inr e ↦
      let h : start < size = ground (arith, e) in
      rw e (elim (Bool-cases (end_str == [])) [
        | inl k ↦ rw k (Within-part size _ _ (omega (arith, h)) (omega (arith, h)))
        | inr k ↦ rw k (range_to-Within size start (parse_int end_str) h)
      ])
]

range_of-Within :
    (size : ℕ) (start_str end_str : Key) → 0 < size → Within size (range_of size start_str end_str)
range_of-Within size start_str end_str h = elim (Bool-cases (start_str == [])) [
  | inl e ↦ rw e (elim (Bool-cases (end_str == [])) [
    | inl k ↦ rw k all_of_it
    | inr k ↦ rw k (suffix_range-Within size (parse_int end_str) h)
  ])
  | inr e ↦ rw e (range_from-Within size end_str (parse_int start_str))
]

range_behind-Within :
    (size : ℕ) (spec : Option Key) → 0 < size → Within size (range_behind size spec)
range_behind-Within size none h = all_of_it
range_behind-Within size (some spec) h = elim (Bool-cases (contains spec b',')) [
  | inl e ↦ rw e all_of_it
  | inr e ↦ rw e (between (cut b'-' spec))
]
  where
    between : (ends : Option (Key × Key)) → Within size (range_between size ends)
    between none = all_of_it
    between (some ends) = range_of-Within size (trim_space ends.0) (trim_space ends.1) h

-- Whatever the header says, a part that is served is not empty and lies within the object, so that
-- its length is positive and at most the object's.
pub parse_single_range-Within : (spec : Key) (size : ℕ) → Within size (parse_single_range spec size)
unfolding parse_single_range
parse_single_range-Within spec size = elim (Bool-cases (spec == [] || size == 0)) [
  | inl e ↦ rw e all_of_it
  | inr e ↦ rw e (range_behind-Within size (behind (bytes "bytes=") spec) (ground (arith, e)))
]
