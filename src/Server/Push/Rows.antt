-- ===== src/Server/Push/Rows.antt =====
-- What the statements of a push do to the rows of `objects` (server/pending_closure.go,
-- server/pg/functions/commit_pending_closure.sql).
use niks.Common.{ℕ, String, Option, none, some, List, [], ◌∷◌, ◌++◌, map}
use niks.Common.{Bool, true, false, not, ◌&&◌, ◌==◌, string_eq, nat_eq}
use niks.Common.{◌≡◌, refl, subst, ◌∙◌, ◌⊎◌, inl, inr, arith, Bool-cases, Option-cases, is_none}
use niks.Common.{contains, contains-append, contains-filterb, contains-dedup}
use niks.Common.{filterb, anyb}
use niks.Common.Table.{Table, lookup, upsert, lookup-upsert}
use niks.Server.Db.{Object, PendingObject, Db, is_live, lists_key}
use niks.Server.Push.{
  merge_row, fold_row, fold_objects, is_present, objects_to_upload, present_keys,
  drop_missing_from_s3, check_s3_objects_exist, needs_update, Stat, Result, ok, err,
}

abbrev pub All {ℓ κ} : {A : Type ℓ} → (A → Type κ) → List A → Type κ
All P [] = Unit
All P (x ∷ xs) = P x × All P xs

pub All-filterb {ℓ κ} :
    {A : Type ℓ} (P : A → Type κ) (p : A → Bool) (xs : List A) → All P xs → All P (filterb p xs)
unfolding filterb
All-filterb P p [] h = h
All-filterb P p (x ∷ xs) h = elim (Bool-cases (p x)) [
  | inl e ↦ rw (e, filterb) (h.0, All-filterb P p xs h.1)
  | inr e ↦ rw (e, filterb) (All-filterb P p xs h.1)
]

-- What holds of each row of `objects`: the two dates are set together, and the references are
-- those that `refs_of_key` gives the key.
pub record RowOk (refs_of_key : String → List String) (k : String) (o : Object) : Type 0 where
  pub dates : is_none o.deleted_at ≡ is_none o.first_deleted_at
  pub same_refs : (j : String) → contains o.refs j ≡ contains (refs_of_key k) j

module _ (P : String → Object → Type 0) where
  abbrev pub AllRows : Table String Object → Type 0
  AllRows objs = (k : String) (o : Object) → lookup k objs ≡ some o → P k o

  abbrev pub Fits : String → Option Object → Type 0
  Fits k none = Unit
  Fits k (some o) = P k o

  pub AllRows-Fits :
      (objs : Table String Object) (k : String) → AllRows objs → Fits k (lookup k objs)
  AllRows-Fits objs k h = elim (Option-cases (lookup k objs)) [
    | inl e ↦ rw e tt
    | inr (o, e) ↦ rw e (h k o e)
  ]

  pub upsert-AllRows :
      (k : String) (f : Option Object → Object) (objs : Table String Object)
      → ((o : Option Object) → Fits k o → P k (f o))
      → AllRows objs
      → AllRows (upsert k f objs)
  upsert-AllRows k f objs new h j o e = elim (Bool-cases (k == j)) [
    | inl same ↦
        let k≡j = (string_eq.test_iff k j).0 same in
        let row : f (lookup k objs) ≡ o = ground (arith, lookup-upsert k j f objs) in
        subst (λ i. P i o) k≡j (subst (P k) row (new _ (AllRows-Fits objs k h)))
    | inr other ↦ h j o (ground (arith, lookup-upsert k j f objs))
  ]

fold_row-cases :
    (p : PendingObject) (o : Object)
    → (fold_row p (some o) ≡ o) ⊎ (fold_row p (some o) ≡ merge_row p.refs p.size (some o))
unfolding fold_row
fold_row-cases p o = elim (Bool-cases (needs_update p o)) [
  | inl e ↦ inr (rw e)
  | inr e ↦ inl (rw e)
]

module _ (refs_of_key : String → List String) where
  abbrev Ok : String → Object → Type 0
  Ok = RowOk refs_of_key

  pub merge_row-RowOk :
      (k : String) (refs : List String) (size : Option ℕ) (o : Option Object)
      → refs ≡ refs_of_key k
      → Fits Ok k o
      → RowOk refs_of_key k (merge_row refs size o)
  unfolding merge_row
  merge_row-RowOk k refs size none e h = record { dates = refl; same_refs = λ j. rw e }
  merge_row-RowOk k refs size (some o) e h = record {
    dates = refl;
    same_refs = λ j.
        rw (contains-dedup (o.refs ++ refs) j, contains-append o.refs refs j, h.same_refs j, e)
          (ground arith);
  }

  pub fold_row-RowOk :
      (p : PendingObject) (o : Option Object)
      → p.refs ≡ refs_of_key p.key
      → Fits Ok p.key o
      → RowOk refs_of_key p.key (fold_row p o)
  unfolding fold_row
  fold_row-RowOk p none e h = merge_row-RowOk p.key p.refs p.size none e h
  fold_row-RowOk p (some o) e h = elim (fold_row-cases p o) [
    | inl same ↦ rw same h
    | inr merged ↦ rw merged (merge_row-RowOk p.key p.refs p.size (some o) e h)
  ]

  pub fold_objects-RowOk :
      (ps : List PendingObject) (objs : Table String Object)
      → All (λ p. p.refs ≡ refs_of_key p.key) ps
      → AllRows Ok objs
      → AllRows Ok (fold_objects ps objs)
  unfolding fold_objects
  fold_objects-RowOk [] objs d h = h
  fold_objects-RowOk (p ∷ ps) objs d h =
      fold_objects-RowOk ps _ d.1
        (upsert-AllRows Ok p.key (fold_row p) objs (λ o. fold_row-RowOk p o d.0) h)

pub merge_row_live :
    (refs : List String) (size : Option ℕ) (o : Option Object)
    → is_live (some (merge_row refs size o)) ≡ true
unfolding merge_row
merge_row_live refs size none = refl
merge_row_live refs size (some o) = refl

fold_row_live : (p : PendingObject) (o : Option Object) → is_live (some (fold_row p o)) ≡ true
unfolding fold_row merge_row
fold_row_live p none = refl
fold_row_live p (some o) = ground arith

-- An object that is not folded in keeps its row.
pub fold_objects_other :
    (ps : List PendingObject) (objs : Table String Object) (k : String)
    → lists_key ps k ≡ false
    → lookup k (fold_objects ps objs) ≡ lookup k objs
unfolding fold_objects anyb
fold_objects_other [] objs k h = refl
fold_objects_other (p ∷ ps) objs k h =
    fold_objects_other ps _ k (ground arith)
    ∙ ground (arith, lookup-upsert p.key k (fold_row p) objs)

-- An object that is folded in is live.
pub fold_objects_live :
    (ps : List PendingObject) (objs : Table String Object) (k : String)
    → lists_key ps k ≡ true
    → is_live (lookup k (fold_objects ps objs)) ≡ true
unfolding fold_objects anyb
fold_objects_live [] objs k h = cc
fold_objects_live (p ∷ ps) objs k h = elim (Bool-cases (lists_key ps k)) [
  | inl later ↦ fold_objects_live ps _ k later
  | inr here ↦ rw (fold_objects_other ps (upsert p.key (fold_row p) objs) k here) (
      rw (lookup-upsert p.key k (fold_row p) objs)
        (ground (arith, fold_row_live p (lookup p.key objs))))
]

pub lists_key-filterb :
    (p : String → Bool) (rows : List PendingObject) (k : String)
    → lists_key (filterb (λ r. p r.key) rows) k ≡ (lists_key rows k && p k)
unfolding filterb anyb
lists_key-filterb p [] k = refl
lists_key-filterb p (r ∷ rows) k =
    ground (arith, lists_key-filterb p rows k, string_eq.test_iff r.key k)

pub contains-map_key :
    (rows : List PendingObject) (k : String) → contains (map (λ r. r.key) rows) k ≡ lists_key rows k
unfolding contains anyb
contains-map_key [] k = refl
contains-map_key (r ∷ rows) k = ground (arith, contains-map_key rows k)

drop_missing_keeps :
    (stat : String → Stat) (ks held : List String) (k : String)
    → drop_missing_from_s3 stat ks ≡ ok held
    → contains held k ≡ true
    → contains ks k ≡ true
unfolding drop_missing_from_s3
drop_missing_keeps stat ks held k e m = go (check_s3_objects_exist stat ks) refl
  where
    go : (r : Result (List String)) → check_s3_objects_exist stat ks ≡ r → contains ks k ≡ true
    go (ok missing) q =
        ground (arith, q, e, m, contains-filterb (λ (j : String). not (contains missing j)) ks k)
    go (err x) q = ground (arith, q, e)

present_keys_present :
    (stat : String → Stat) (db : Db) (ks held : List String) (verify : Bool) (k : String)
    → present_keys stat db ks verify ≡ ok held
    → contains held k ≡ true
    → is_present (lookup k db.objects) ≡ true
unfolding present_keys
present_keys_present stat db ks held false k e m =
    ground (arith, contains-filterb (λ (j : String). is_present (lookup j db.objects)) ks k)
present_keys_present stat db ks held true k e m =
    let m' = drop_missing_keeps stat _ held k e m in
    ground (arith, m', contains-filterb (λ (j : String). is_present (lookup j db.objects)) ks k)

-- What the client is not told to upload was present.
pub objects_to_upload_present :
    (stat : String → Stat) (db : Db) (rows uploads : List PendingObject) (verify : Bool)
    (k : String)
    → objects_to_upload stat db rows verify ≡ ok uploads
    → lists_key rows k ≡ true
    → lists_key uploads k ≡ false
    → is_present (lookup k db.objects) ≡ true
unfolding objects_to_upload
objects_to_upload_present stat db rows uploads verify k e listed left =
    go (present_keys stat db (map (λ r. r.key) rows) verify) refl
  where
    go :
        (r : Result (List String))
        → present_keys stat db (map (λ x. x.key) rows) verify ≡ r
        → is_present (lookup k db.objects) ≡ true
    go (ok held) q = present_keys_present stat db _ held verify k q (
        ground (
          arith,
          q,
          e,
          listed,
          left,
          lists_key-filterb (λ (j : String). not (contains held j)) rows k,
        ))
    go (err x) q = ground (arith, q, e)
