-- ===== src/Client/Nar/Written.antt =====
-- What the writer leaves behind (client/nar.go): each of its writes puts whole words of the format.
pub mod Listed
pub mod Steps
pub mod Tree
use native.Mathlib.Nat.{pow-suc}
use mathlib.Core.List.{append_assoc, append-nil}
use niks.Common.{
  ℕ, zero, suc, ◌+◌, ◌-◌, ◌%◌, ◌^◌, List, [], ◌∷◌, ◌++◌, length, length-append, ◌≡◌, refl, sym, ap,
  ◌∙◌, arith,
}
use niks.Client.Nar.{
  Bytes, le_bytes, put_uint64, padding, zeros, encode_string, NarWriter, add64, write, write_static,
  write_uint64, write_padding, write_string, write_contents,
}
use niks.Client.Nar.Format.{Words, encode_all}

pub length-le_bytes : (n v : ℕ) → length (le_bytes n v) ≡ n
unfolding le_bytes
length-le_bytes zero v = refl
length-le_bytes (suc n) v = ap suc (length-le_bytes n _)

pub length-zeros : (n : ℕ) → length (zeros n) ≡ n
unfolding zeros
length-zeros zero = refl
length-zeros (suc n) = ap suc (length-zeros n)

abbrev writer : Bytes → ℕ → NarWriter
writer out offset = record { out = out; offset = offset }

writer_eq : {a b : Bytes} {m n : ℕ} → a ≡ b → m ≡ n → writer a m ≡ writer b n
writer_eq {a} {b} {m} {n} e f = ap (λ x. writer x m) e ∙ ap (λ x. writer b x) f

-- Two writes are one.
pub write-write :
    (a b : Bytes) (m n : ℕ) (nw : NarWriter) → write b n (write a m nw) ≡ write (a ++ b) (m + n) nw
unfolding write
write-write a b m n nw = writer_eq (append_assoc nw.out a b) (omega arith)

pub write_static-append :
    (a b : Bytes) (nw : NarWriter) → write_static b (write_static a nw) ≡ write_static (a ++ b) nw
unfolding write_static
write_static-append a b nw =
    write-write a b (length a) (length b) nw
    ∙ ap (λ n. write (a ++ b) n nw) (sym (length-append a b))

write_padding-write :
    (n k : ℕ) (a : Bytes) (nw : NarWriter)
    → write_padding n (write a k nw) ≡ write (a ++ zeros (padding n)) (k + padding n) nw
unfolding write_padding
write_padding-write n k a nw = by_padding (padding n)
  where
    by_padding :
        (p : ℕ)
        → (elim p [ zero ↦ write a k nw | suc m ↦ write (zeros (suc m)) (suc m) (write a k nw) ])
          ≡ write (a ++ zeros p) (k + p) nw
    by_padding zero =
        unfold zeros in
        ap (λ x. write x k nw) (sym (append-nil a)) ∙ ap (λ m. write (a ++ []) m nw) same
      where
        same : k ≡ k + 0
        same = omega arith
    by_padding (suc m) = write-write a (zeros (suc m)) k (suc m) nw

-- The size, the bytes and the padding of a word.
write_word :
    (s : Bytes) (nw : NarWriter)
    → write_padding (length s) (write s (length s) (write_uint64 (length s) nw))
      ≡ write_static (encode_string s) nw
unfolding write_uint64 write_static encode_string
write_word s nw =
    write_padding-write (length s) (length s) s (write (put_uint64 (length s)) 8 nw)
    ∙ write-write (put_uint64 (length s)) (s ++ zeros (padding (length s))) 8
        (length s + padding (length s)) nw
    ∙ ap (λ n. write (encode_string s) n nw)
        (omega (
          arith,
          length-append (put_uint64 (length s)) (s ++ zeros (padding (length s))),
          length-append s (zeros (padding (length s))),
          length-le_bytes 8 (length s),
          length-zeros (padding (length s)),
        ))

pub write_string-static :
    (s : Bytes) (nw : NarWriter) → write_string s nw ≡ write_static (encode_string s) nw
unfolding write_string
write_string-static s nw = write_word s nw

-- A file's contents are one more word, and their offset lies behind the size.
pub write_contents-static :
    (s : Bytes) (nw : NarWriter)
    → write_contents (length s) s nw ≡ (add64 nw.offset 8, write_static (encode_string s) nw)
unfolding write_contents
write_contents-static s nw = ap (λ x. (add64 nw.offset 8, x)) (write_word s nw)

-- Words one after the other.
unfoldable pub put : Words → NarWriter → NarWriter
unfolding write_static encode_all
put ws nw = write_static (encode_all ws) nw

pub put-cons :
    (w : Bytes) (ws : Words) (nw : NarWriter)
    → put ws (write_static (encode_string w) nw) ≡ put (w ∷ ws) nw
unfolding put encode_all
put-cons w ws nw = write_static-append (encode_string w) (encode_all ws) nw

pub encode_all-append : (a b : Words) → encode_all (a ++ b) ≡ encode_all a ++ encode_all b
unfolding encode_all
encode_all-append [] b = refl
encode_all-append (w ∷ a) b =
    ap (λ x. encode_string w ++ x) (encode_all-append a b)
    ∙ sym (append_assoc (encode_string w) (encode_all a) (encode_all b))

pub put-append : (a b : Words) (nw : NarWriter) → put b (put a nw) ≡ put (a ++ b) nw
unfolding put
put-append a b nw =
    write_static-append (encode_all a) (encode_all b) nw
    ∙ ap (λ x. write_static x nw) (sym (encode_all-append a b))

pub put-one : (w : Bytes) (nw : NarWriter) → write_static (encode_string w) nw ≡ put (w ∷ []) nw
unfolding put encode_all
put-one w nw = ap (λ x. write_static x nw) (sym (append-nil (encode_string w)))
