-- ===== src/Server/Signing/Unambiguous.antt =====
-- Fingerprints (server/signing/fingerprint.go) of different contents differ.

use mathlib.Core.List.{Perm}
use mathlib.Core.Option
use niks.Common.{
  ℕ, ◌^◌, ◌<◌, some, List, [], ◌∷◌, true, false, nat_eq, list_eq, contains, length, take, drop,
  take-append, drop-append, ◌≡◌, refl, sym, ap, ◌∙◌, ◌↔◌, ◌≢◌, arith, Bool-cases, inl, inr,
}
use niks.Common.Decimal.{format_uint, parse_uint, parse_uint-format_uint, format_uint-lacks}
use niks.Common.Order.{text_le, insert, sort, sort-Perm-iff}
use niks.Common.Split.{Pieces, append-injective, join-injective}
use niks.Server.Keys.{Key, bytes, has_prefix}
use niks.Server.Sign.{NarInfo}
use niks.Server.Signing.{fingerprint, generate_fingerprint, all_in_store}

-- The byte is in none of the texts.
abbrev pub Lack : ℕ → List Key → Type 0
Lack c [] = Unit
Lack c (t ∷ ts) = (contains t c ≡ false) × Lack c ts

-- No semicolon in the store path, no comma in a reference, and a size of 64 bits.
pub record Plain (info : NarInfo) : Type 0 where
  pub path : contains info.store_path b';' ≡ false
  pub refs : Lack b',' info.references
  pub size : info.nar_size < 2 ^ 64

-- The same contents, the references in any order.
pub record Same (i j : NarInfo) : Type 0 where
  pub path : i.store_path ≡ j.store_path
  pub hash : i.nar_hash ≡ j.nar_hash
  pub size : i.nar_size ≡ j.nar_size
  pub refs : Perm i.references j.references

in_store-ne-nil : (t : Key) → has_prefix t (bytes "/nix/store") ≡ true → t ≢ []
in_store-ne-nil [] h e = cc
in_store-ne-nil (c ∷ t) h e = cc

Lack-Pieces : (ts : List Key) → all_in_store ts ≡ true → Lack b',' ts → Pieces b',' ts
unfolding all_in_store
Lack-Pieces [] h l = tt
Lack-Pieces (t ∷ ts) h l =
    ((in_store-ne-nil t (ground (arith, h)), l.0), Lack-Pieces ts (ground (arith, h)) l.1)

insert-Pieces : (c : ℕ) (t : Key) (ts : List Key) → Pieces c (t ∷ ts) → Pieces c (insert t ts)
unfolding insert
insert-Pieces c t [] p = p
insert-Pieces c t (u ∷ ts) p = elim (Bool-cases (text_le t u)) [
  | inl e ↦ rw (e, insert) p
  | inr e ↦ rw (e, insert) (p.1.0, insert-Pieces c t ts (p.0, p.1.1))
]

sort-Pieces : (c : ℕ) (ts : List Key) → Pieces c ts → Pieces c (sort ts)
unfolding sort
sort-Pieces c [] p = tt
sort-Pieces c (t ∷ ts) p = insert-Pieces c t (sort ts) (p.0, sort-Pieces c ts p.1)

-- What a fingerprint that was made says of the contents.
abbrev Made : NarInfo → Key → Type 0
Made info text =
    (text ≡ fingerprint info) × (length info.nar_hash ≡ 59) × (all_in_store info.references ≡ true)

generate_fingerprint-Made :
    (info : NarInfo) (text : Key) → generate_fingerprint info ≡ some text → Made info text
unfolding generate_fingerprint
generate_fingerprint-Made info text h = ground (arith, h)

format_uint-injective : (n m : ℕ) → n < 2 ^ 64 → m < 2 ^ 64 → format_uint n ≡ format_uint m → n ≡ m
format_uint-injective n m hn hm e =
    Option.some-injective n m
      (sym (parse_uint-format_uint n hn) ∙ (ap parse_uint e ∙ parse_uint-format_uint m hm))

fingerprint-Same :
    (i j : NarInfo)
    → Plain i
    → Plain j
    → Made i (fingerprint i)
    → Made j (fingerprint j)
    → fingerprint i ≡ fingerprint j
    → Same i j
unfolding fingerprint
fingerprint-Same i j pi pj mi mj e =
    let (path, e1) =
      append-injective b';' i.store_path j.store_path _ _ pi.path pj.path (ap (drop 2) e) in
    let hash : i.nar_hash ≡ j.nar_hash =
      sym (take-append 59 i.nar_hash _ mi.1)
      ∙ (ap (take 59) e1 ∙ take-append 59 j.nar_hash _ mj.1) in
    let e2 =
      sym (drop-append 59 i.nar_hash _ mi.1)
      ∙ (ap (drop 59) e1 ∙ drop-append 59 j.nar_hash _ mj.1) in
    let (size, e3) =
      append-injective b';' (format_uint i.nar_size) (format_uint j.nar_size) _ _
        (format_uint-lacks i.nar_size b';' refl) (format_uint-lacks j.nar_size b';' refl)
        (ap (drop 1) e2) in
    let refs =
      join-injective b',' (sort i.references) (sort j.references)
        (sort-Pieces b',' i.references (Lack-Pieces i.references mi.2 pi.refs))
        (sort-Pieces b',' j.references (Lack-Pieces j.references mj.2 pj.refs)) e3 in
    record {
      path = path;
      hash = hash;
      size = format_uint-injective i.nar_size j.nar_size pi.size pj.size size;
      refs = (sort-Perm-iff i.references j.references).0 refs;
    }

Same-fingerprint : (i j : NarInfo) → Same i j → fingerprint i ≡ fingerprint j
unfolding fingerprint
Same-fingerprint i j s =
    cc (s.path, s.hash, s.size, (sort-Perm-iff i.references j.references).1 s.refs)

-- Two narinfos that can be signed have one fingerprint, and so one signature, exactly if they agree
-- on the store path, the hash and size of the NAR and the references up to their order; given that
-- neither store path has a semicolon, no reference a comma, and both sizes fit 64 bits.
pub generate_fingerprint-Same :
    (i j : NarInfo) (text text' : Key)
    → Plain i
    → Plain j
    → generate_fingerprint i ≡ some text
    → generate_fingerprint j ≡ some text'
    → (text ≡ text') ↔ Same i j
generate_fingerprint-Same i j text text' pi pj hi hj =
    let (ei, li, ri) = generate_fingerprint-Made i text hi in
    let (ej, lj, rj) = generate_fingerprint-Made j text' hj in
    (
      λ e. fingerprint-Same i j pi pj (refl, li, ri) (refl, lj, rj) (sym ei ∙ (e ∙ ej)),
      λ s. ei ∙ (Same-fingerprint i j s ∙ sym ej),
    )
