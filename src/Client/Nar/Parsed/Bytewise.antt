-- ===== src/Client/Nar/Parsed/Bytewise.antt =====
-- Words read back from their bytes.
use native.Mathlib.Nat.{pow-suc}
use mathlib.Core.List.{append_assoc}
use niks.Common.{
  ℕ, zero, suc, ◌+◌, ◌/◌, ◌^◌, ◌<◌, ◌≤◌, Option, some, none, [], ◌∷◌, ◌++◌, ◌||◌, if◌then◌else◌,
  ltb, length, take, drop, length-append, take-append, drop-append, ◌≡◌, refl, ap, ◌∙◌, arith,
}
use niks.Client.Nar.{Bytes, le_bytes, put_uint64, padding, zeros, encode_string}
use niks.Client.Nar.Format.{Words, encode_all, from_le, read_word, read_words}
use niks.Client.Nar.Written.{length-le_bytes, length-zeros}

from_le-le_bytes : (n v : ℕ) → v < 256 ^ n → from_le (le_bytes n v) ≡ v
unfolding from_le le_bytes
from_le-le_bytes zero v h = omega (arith, h)
from_le-le_bytes (suc n) v h =
    omega (arith, from_le-le_bytes n (v / 256) (omega (arith, h, pow-suc 256 n)))

length-encode_string : (w : Bytes) → length (encode_string w) ≡ 8 + (length w + padding (length w))
unfolding encode_string
length-encode_string w = omega (
  arith,
  length-append (put_uint64 (length w)) (w ++ zeros (padding (length w))),
  length-append w (zeros (padding (length w))),
  length-le_bytes 8 (length w),
  length-zeros (padding (length w)),
)

-- The reader, after the size is known.
abbrev cut : ℕ → ℕ → Bytes → Bytes → Option (Bytes × Bytes)
cut n all bs body =
    if ltb (length bs) 8 || ltb (length body) (n + all)
    then none
    else some (take n body, drop (n + all) body)

read_word-encode_string :
    (w rest : Bytes) → length w < 2 ^ 64 → read_word (encode_string w ++ rest) ≡ some (w, rest)
unfolding read_word encode_string
read_word-encode_string w rest h =
    let n = length w in
    let pad = zeros (padding n) in
    let eight = length-le_bytes 8 n in
    let behind : (put_uint64 n ++ (w ++ pad)) ++ rest ≡ put_uint64 n ++ ((w ++ pad) ++ rest) =
      append_assoc (put_uint64 n) (w ++ pad) rest in
    let body = (w ++ pad) ++ rest in
    let size : from_le (take 8 (put_uint64 n ++ body)) ≡ n =
      ap from_le (take-append 8 (put_uint64 n) body eight) ∙ from_le-le_bytes 8 n h in
    let off : drop 8 (put_uint64 n ++ body) ≡ body = drop-append 8 (put_uint64 n) body eight in
    let padded : length (w ++ pad) ≡ n + padding n =
      omega (arith, length-append w pad, length-zeros (padding n)) in
    let whole = length-append (put_uint64 n) body in
    let long = length-append (w ++ pad) rest in
    let long_enough : 8 ≤ length (put_uint64 n ++ body) = omega (arith, whole, eight) in
    let all_there : n + padding n ≤ length body = omega (arith, padded, long) in
    let some_word : some (take n body, drop (n + padding n) body) ≡ some (w, rest) =
      ap (λ x. some (x, drop (n + padding n) body))
        (ap (take n) (append_assoc w pad rest) ∙ take-append n w (pad ++ rest) refl)
      ∙ ap (λ x. some (w, x)) (drop-append (n + padding n) (w ++ pad) rest padded) in
    ap (λ bs. cut (from_le (take 8 bs)) (padding (from_le (take 8 bs))) bs (drop 8 bs)) behind
    ∙ ap (λ x. cut x (padding x) (put_uint64 n ++ body) (drop 8 (put_uint64 n ++ body))) size
    ∙ ap (cut n (padding n) (put_uint64 n ++ body)) off
    ∙ cut_lem n (padding n) (put_uint64 n ++ body) body long_enough all_there
    ∙ some_word
  where
    cut_lem :
        (n all : ℕ) (bs body : Bytes)
        → 8 ≤ length bs
        → n + all ≤ length body
        → cut n all bs body ≡ some (take n body, drop (n + all) body)
    cut_lem n all bs body h k = ground arith

abbrev and_word : Bytes → Option Words → Option Words
and_word w none = none
and_word w (some ws) = some (w ∷ ws)

-- The rest of the words, behind one that is read.
abbrev then_words : ℕ → Option (Bytes × Bytes) → Option Words
then_words fuel none = none
then_words fuel (some (w, rest)) = and_word w (read_words fuel rest)

read_words-step :
    (fuel : ℕ) (bs : Bytes)
    → 0 < length bs
    → read_words (suc fuel) bs ≡ then_words fuel (read_word bs)
unfolding read_words
read_words-step fuel [] h = absurd (omega (arith, h))
read_words-step fuel (b ∷ bs) h = by_word (read_word (b ∷ bs))
  where
    by_word :
        (o : Option (Bytes × Bytes))
        → (elim o [
          | none ↦ none
          | some (w, rest) ↦ elim (read_words fuel rest) [ none ↦ none | some ws ↦ some (w ∷ ws) ]
        ])
          ≡ then_words fuel o
    by_word none = refl
    by_word (some (w, rest)) = by_rest (read_words fuel rest)
      where
        by_rest :
            (o : Option Words) → (elim o [ none ↦ none | some ws ↦ some (w ∷ ws) ]) ≡ and_word w o
        by_rest none = refl
        by_rest (some ws) = refl

pub read_words-encode_all :
    (fuel : ℕ) (ws : Words)
    → length (encode_all ws) < 2 ^ 64
    → length (encode_all ws) ≤ fuel
    → read_words fuel (encode_all ws) ≡ some ws
unfolding read_words encode_all
read_words-encode_all zero [] h f = refl
read_words-encode_all (suc fuel) [] h f = refl
read_words-encode_all zero (w ∷ ws) h f =
    absurd
      (omega (arith, f, length-append (encode_string w) (encode_all ws), length-encode_string w))
read_words-encode_all (suc fuel) (w ∷ ws) h f =
    let sizes = length-append (encode_string w) (encode_all ws) in
    let word = length-encode_string w in
    let later : read_words fuel (encode_all ws) ≡ some ws =
      read_words-encode_all fuel ws (omega (arith, h, sizes)) (omega (arith, f, sizes, word)) in
    read_words-step fuel (encode_string w ++ encode_all ws) (omega (arith, sizes, word))
    ∙ ap (then_words fuel)
        (read_word-encode_string w (encode_all ws) (omega (arith, h, sizes, word)))
    ∙ ap (and_word w) later
