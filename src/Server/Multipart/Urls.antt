-- ===== src/Server/Multipart/Urls.antt =====
-- The URLs that are made for parts (server/pending_multipart.go).
use niks.Common.{
  ℕ, zero, suc, ◌+◌, ◌%◌, ◌^◌, ◌<◌, String, List, [], ◌∷◌, Bool, true, false, ◌≡◌, if◌then◌else◌,
  subst, sym, refl, ap, arith, length, nat_eq, string_eq,
}
use niks.Server.Multipart.{Bucket, Answer, success, throttled, broken, generate_part_urls, with_url}

-- As many URLs as parts, where there are any.
abbrev pub Counted : ℕ → Answer (List String) → Type 0
Counted n (success urls) = length urls ≡ n
Counted n throttled = Unit
Counted n broken = Unit

with_url-Counted :
    (n : ℕ) (url : String) (a : Answer (List String))
    → Counted n a
    → Counted (suc n) (with_url url a)
with_url-Counted n url (success urls) c = ap suc c
with_url-Counted n url throttled c = tt
with_url-Counted n url broken c = tt

-- URLs that S3 signed for one part after the other.
pub data Presigned {S : Type 0} (s3 : Bucket S) (key id : String) : ℕ → List String → Type 0 where
  presigned_all : {part : ℕ} → Presigned s3 key id part []
  presigned_part :
      {part : ℕ} {url : String} {urls : List String} (b : S)
      → (s3.presign key id part b).0 ≡ success url
      → Presigned s3 key id (part + 1) urls
      → Presigned s3 key id part (url ∷ urls)

module _ {S : Type 0} (s3 : Bucket S) where
  pub generate_part_urls-Counted :
      (key id : String) (start n : ℕ) (b : S) → Counted n (generate_part_urls s3 key id start n b).0
  unfolding generate_part_urls
  generate_part_urls-Counted key id start zero b = refl
  generate_part_urls-Counted key id start (suc n) b =
      let b' = (s3.wait b).1 in
      let presigned = s3.presign key id start b' in
      by_answer (s3.wait b).0 presigned.0
        (generate_part_urls s3 key id ((start + 1) % 2 ^ 64) n presigned.1) b' presigned.1
        (generate_part_urls-Counted key id ((start + 1) % 2 ^ 64) n presigned.1)
    where
      by_answer :
          (go : Bool) (a : Answer String) (rest : Answer (List String) × S) (b' b'' : S)
          → Counted n rest.0
          → let r : Answer (List String) × S =
              if go
              then (elim a [
                | success url ↦ (with_url url rest.0, rest.1)
                | throttled ↦ (throttled, b'')
                | broken ↦ (broken, b'')
              ])
              else (broken, b') in
            Counted (suc n) r.0
      by_answer false a rest b' b'' c = tt
      by_answer true (success url) rest b' b'' c = with_url-Counted n url rest.0 c
      by_answer true throttled rest b' b'' c = tt
      by_answer true broken rest b' b'' c = tt

  abbrev pub InOrder : String → String → ℕ → Answer (List String) → Type 0
  InOrder key id part (success urls) = Presigned s3 key id part urls
  InOrder key id part throttled = Unit
  InOrder key id part broken = Unit

  with_url-InOrder :
      (key id : String) (part : ℕ) (url : String) (b : S) (a : Answer (List String))
      → (s3.presign key id part b).0 ≡ success url
      → InOrder key id (part + 1) a
      → InOrder key id part (with_url url a)
  with_url-InOrder key id part url b (success urls) e p = presigned_part b e p
  with_url-InOrder key id part url b throttled e p = tt
  with_url-InOrder key id part url b broken e p = tt

  pub generate_part_urls-InOrder :
      (key id : String) (part n : ℕ) (b : S)
      → part + n < 2 ^ 64
      → InOrder key id part (generate_part_urls s3 key id part n b).0
  unfolding generate_part_urls
  generate_part_urls-InOrder key id part zero b h = presigned_all
  generate_part_urls-InOrder key id part (suc n) b h =
      let b' = (s3.wait b).1 in
      let next : (part + 1) % 2 ^ 64 ≡ part + 1 = omega (arith, h) in
      by_answer (s3.wait b).0 (s3.presign key id part b').0 refl (
        subst
          (λ m.
            InOrder key id (part + 1)
              (generate_part_urls s3 key id m n (s3.presign key id part b').1).0)
          (sym next)
          (generate_part_urls-InOrder key id (part + 1) n (s3.presign key id part b').1
            (omega (arith, h))))
    where
      by_answer :
          (go : Bool) (a : Answer String)
          → (s3.presign key id part (s3.wait b).1).0 ≡ a
          → let rest : Answer (List String) × S =
              generate_part_urls s3 key id
                ((part + 1) % 2 ^ 64)
                n
                (s3.presign key id part (s3.wait b).1).1 in
            let r : Answer (List String) × S =
              if go
              then (elim a [
                | success url ↦ (with_url url rest.0, rest.1)
                | throttled ↦ (throttled, (s3.presign key id part (s3.wait b).1).1)
                | broken ↦ (broken, (s3.presign key id part (s3.wait b).1).1)
              ])
              else (broken, (s3.wait b).1) in
            InOrder key id (part + 1) rest.0 → InOrder key id part r.0
      by_answer false a e p = tt
      by_answer true (success url) e p = with_url-InOrder key id part url (s3.wait b).1 _ e p
      by_answer true throttled e p = tt
      by_answer true broken e p = tt
