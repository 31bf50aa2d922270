-- ===== src/Server/Sign/Signed.antt =====
-- What is signed, and by whom (server/uploads.go).
use mathlib.Core.List.{append_assoc, append-nil}
use niks.Common.{
  ℕ, String, Option, none, some, List, [], ◌∷◌, ◌++◌, Bool, true, false, not, ◌||◌, if◌then◌else◌,
  ◌==◌, string_eq, nat_eq, contains, is_none, ◌≡◌, refl, sym, ap, subst, ◌∙◌, arith, Bool-cases,
  Option-cases, inl, inr,
}
use niks.Common.Table.{Table, keys, lookup, upsert, lookup-upsert}
use niks.Server.Keys.{Key}
use niks.Server.Db.{Db}
use niks.Server.Multipart.{answered}
use niks.Server.Sign.{
  NarInfo, Narinfos, Signatures, Signer, all_valid, no_signatures, nar_infos, and_signature,
  append_signatures, sign_each, sign_narinfos, pending_object_keys,
}

-- The signatures for a key in one answer, and in those of all signers in their order.
unfoldable pub values_of : String → Table String Key → List Key
values_of key [] = []
values_of key ((k, s) ∷ rest) =
    let others = values_of key rest in if k == key then s ∷ others else others

unfoldable pub signatures_for : String → Table String NarInfo → List (Option Signer) → List Key
unfolding values_of
signatures_for key infos [] = []
signatures_for key infos (none ∷ signers) = signatures_for key infos signers
signatures_for key infos (some signer ∷ signers) =
    let others = signatures_for key infos signers in
    elim (signer infos) [ none ↦ others | some answer ↦ values_of key answer ++ others ]

-- A key's signatures with more behind them.
abbrev grown : Option (List Key) → List Key → Option (List Key)
grown none more = none
grown (some ss) more = some (ss ++ more)

grown_none : (o : Option (List Key)) → grown o [] ≡ o
grown_none none = refl
grown_none (some ss) = ap some (append-nil ss)

grown_twice : (o : Option (List Key)) (a b : List Key) → grown (grown o a) b ≡ grown o (a ++ b)
grown_twice none a b = refl
grown_twice (some ss) a b = ap some (append_assoc ss a b)

-- One signature more, for a key that has a row.
one_more :
    (o : Option (List Key)) (s : Key) (more : List Key)
    → is_none o ≡ false
    → grown (some (and_signature s o)) more ≡ grown o (s ∷ more)
one_more none s more h = cc
one_more (some ss) s more h = ap some (append_assoc ss (s ∷ []) more)

append_signatures-grown :
    (answer : Table String Key) (all all' : Signatures) (key : String)
    → append_signatures answer all ≡ some all'
    → lookup key all' ≡ grown (lookup key all) (values_of key answer)
unfolding append_signatures values_of
append_signatures-grown [] all all' key e =
    let same : all ≡ all' = cc in ap (lookup key) (sym same) ∙ sym (grown_none (lookup key all))
append_signatures-grown ((k, s) ∷ rest) all all' key e =
    let there : is_none (lookup k all) ≡ false = ground (arith, e) in
    let next : append_signatures rest (upsert k (and_signature s) all) ≡ some all' =
      ground (arith, e, there) in
    let more = append_signatures-grown rest (upsert k (and_signature s) all) all' key next in
    let stored = lookup-upsert k key (and_signature s) all in
    elim (Bool-cases (k == key)) [
      | inl h ↦
          let same : k ≡ key = (string_eq.test_iff k key).0 h in
          let mine : lookup key (upsert k (and_signature s) all)
              ≡ some (and_signature s (lookup key all)) =
            stored ∙ rw h (ap (λ i. some (and_signature s (lookup i all))) same) in
          rw h (
            more
            ∙ ap (λ o. grown o (values_of key rest)) mine
            ∙ one_more (lookup key all) s (values_of key rest)
                (subst (λ i. is_none (lookup i all) ≡ false) same there))
      | inr h ↦
          let other : lookup key (upsert k (and_signature s) all) ≡ lookup key all =
            stored ∙ rw h refl in
          rw h (more ∙ ap (λ o. grown o (values_of key rest)) other)
    ]

all_valid-contains :
    (valid : List String) (ms : Narinfos) (key : String)
    → all_valid valid ms ≡ true
    → contains (keys ms) key ≡ true
    → contains valid key ≡ true
unfolding all_valid contains
all_valid-contains valid [] key h m = cc
all_valid-contains valid ((k, meta) ∷ ms) key h m =
    ground (arith, h, m, all_valid-contains valid ms key, string_eq.test_iff k key)

lookup-no_signatures :
    (ms : Narinfos) (key : String)
    → lookup key (no_signatures ms) ≡ (if contains (keys ms) key then some [] else none)
unfolding no_signatures lookup contains
lookup-no_signatures [] key = refl
lookup-no_signatures ((k, meta) ∷ ms) key = ground (arith, lookup-no_signatures ms key)

sign_each-grown :
    (ms : Narinfos) (signers : List (Option Signer)) (all all' : Signatures) (key : String)
    → sign_each ms signers all ≡ answered all'
    → lookup key all' ≡ grown (lookup key all) (signatures_for key (nar_infos ms) signers)
unfolding sign_each signatures_for
sign_each-grown ms [] all all' key e =
    let same : all ≡ all' = cc in ap (lookup key) (sym same) ∙ sym (grown_none (lookup key all))
sign_each-grown ms (none ∷ signers) all all' key e = cc
sign_each-grown ms (some signer ∷ signers) all all' key e =
    elim (Option-cases (signer (nar_infos ms))) [
      | inl h ↦ ground (arith, e, h)
      | inr (answer, h) ↦ elim (Option-cases (append_signatures answer all)) [
        | inl k ↦ ground (arith, e, h, k)
        | inr (next, k) ↦
            let later : sign_each ms signers next ≡ answered all' = ground (arith, e, h, k) in
            rw h (
              sign_each-grown ms signers next all' key later
              ∙ ap (λ o. grown o (signatures_for key (nar_infos ms) signers))
                  (append_signatures-grown answer all next key k)
              ∙ grown_twice (lookup key all) (values_of key answer)
                  (signatures_for key (nar_infos ms) signers))
      ]
    ]

grown_if :
    (b : Bool) (ss : List Key)
    → grown (if b then some [] else none) ss ≡ (if b then some ss else none)
grown_if true ss = refl
grown_if false ss = refl

-- A request to sign that is answered gives each narinfo of the request, and no other key, the
-- signatures that the signers made for it, in the order of the signers; and every narinfo that is
-- signed belongs to the pending closure.
pub sign_narinfos-signatures_for :
    (id : ℕ) (db : Db) (signers : List (Option Signer)) (ms : Narinfos) (sigs : Signatures)
    (key : String)
    → sign_narinfos id db signers ms ≡ answered sigs
    → (lookup key sigs ≡ (
        if contains (keys ms) key then some (signatures_for key (nar_infos ms) signers) else none))
      × ((not (contains (keys ms) key) || contains (pending_object_keys id db) key) ≡ true)
unfolding sign_narinfos
sign_narinfos-signatures_for id db signers [] sigs key e =
    let same : no_signatures [] ≡ sigs = cc in
    (ap (lookup key) (sym same) ∙ lookup-no_signatures [] key, refl)
sign_narinfos-signatures_for id db signers (m ∷ ms) sigs key e =
    let valid = pending_object_keys id db in
    let allowed : all_valid valid (m ∷ ms) ≡ true = ground (arith, e) in
    let signed : sign_each (m ∷ ms) signers (no_signatures (m ∷ ms)) ≡ answered sigs =
      ground (arith, e, allowed) in
    let infos = nar_infos (m ∷ ms) in
    (
      sign_each-grown (m ∷ ms) signers (no_signatures (m ∷ ms)) sigs key signed
          ∙ ap (λ o. grown o (signatures_for key infos signers)) (lookup-no_signatures (m ∷ ms) key)
          ∙ grown_if (contains (keys (m ∷ ms)) key) (signatures_for key infos signers),
      ground (arith, all_valid-contains valid (m ∷ ms) key, allowed),
    )
