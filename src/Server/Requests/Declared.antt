-- ===== src/Server/Requests/Declared.antt =====
-- What a created push offers was declared (server/pushes.go, server/uploads.go).
use niks.Common.{
  ℕ, String, Option, none, some, List, [], ◌∷◌, map, Bool, true, false, not, ◌&&◌, ◌||◌,
  if◌then◌else◌, ◌==◌, string_eq, nat_eq, anyb, contains, length, ◌≡◌, refl, sym, ap, subst, ◌∙◌,
  arith, Bool-cases, inl, inr,
}
use niks.Common.Table.{Table, keys, upsert}
use niks.Server.Db.{Db, PendingObject, PendingClosure, lists_key}
use niks.Server.Push.{
  ObjectWithRefs, create_pending_closure_inner, ok, err, Result, pending_row, rows_without,
  present_keys, objects_to_upload, insert_pending_closure, delete_pending_closure, has_suffix,
}
use niks.Server.Push as Push
use niks.Server.Keys.{bytes, is_valid_upload_key}
use niks.Server.Multipart.{Bucket, World, Answer, success, throttled, broken}
use niks.Server.Requests.{
  Objects, validate_objects, Offer, Created, bad_request, failed, created, create_pending_objects,
  answer_offers, create_pending_closure, valid_roots, create_push,
}
use niks.Server.Requests.Offered.{lists_key-filterb, Within, create_pending_objects-Within}

-- The object was declared under the key, with a type whose pattern the key fits.
abbrev pub is_declared : String → ObjectWithRefs → Bool
is_declared key o = o.key == key && is_valid_upload_key (bytes key) o.kind

abbrev has_key : Objects → String → Bool
has_key m key = anyb (λ r. r.1.key == key) m

no_keys : (key : String) (b : Bool) → (has_key [] key || b) ≡ true → b ≡ true
unfolding anyb
no_keys key b h = h

has_key-upsert :
    (o : ObjectWithRefs) (m : Objects) (key : String)
    → has_key (upsert o.key (λ _. o) m) key ≡ true
    → ((o.key == key) || has_key m key) ≡ true
unfolding upsert anyb
has_key-upsert o [] key h = ground (arith, h)
has_key-upsert o ((k, p) ∷ m) key h = ground (arith, h, has_key-upsert o m key)

validate_objects-declared :
    (max : ℕ) (os : List ObjectWithRefs) (m m' : Objects) (key : String)
    → validate_objects max os m ≡ some m'
    → has_key m' key ≡ true
    → (has_key m key || anyb (is_declared key) os) ≡ true
unfolding validate_objects anyb
validate_objects-declared max [] m m' key e h =
    let same : m ≡ m' = cc in
    let mine : has_key m key ≡ true = ap (λ x. has_key x key) same ∙ h in ground (arith, mine)
validate_objects-declared max (o ∷ os) m m' key e h =
    let valid : is_valid_upload_key (bytes o.key) o.kind ≡ true = ground (arith, e) in
    let next : validate_objects max os (upsert o.key (λ _. o) m) ≡ some m' = ground (arith, e) in
    let later = validate_objects-declared max os (upsert o.key (λ _. o) m) m' key next h in
    let before = has_key-upsert o m key in
    elim (Bool-cases (o.key == key)) [
      | inl k ↦
          let same : o.key ≡ key = (string_eq.test_iff o.key key).0 k in
          let fits : is_valid_upload_key (bytes key) o.kind ≡ true =
            subst (λ i. is_valid_upload_key (bytes i) o.kind ≡ true) same valid in
          ground (arith, k, fits)
      | inr k ↦ ground (arith, k, later, before)
    ]

lists_key-pending_row :
    (m : Objects) (key : String) → lists_key (map (λ r. pending_row r.1) m) key ≡ has_key m key
unfolding anyb pending_row
lists_key-pending_row [] key = refl
lists_key-pending_row (r ∷ m) key = ap (λ x. (r.1.key == key) || x) (lists_key-pending_row m key)

module _ {S : Type 0} (s3 : Bucket S) where
  -- The rows of a result are among those given.
  abbrev RowsIn : List PendingObject → Result (List PendingObject) → Type 0
  RowsIn rows (ok ups) = (key : String) → lists_key ups key ≡ true → lists_key rows key ≡ true
  RowsIn rows (err e) = Unit

  rows_without-RowsIn :
      (rows : List PendingObject) (r : Result (List String)) → RowsIn rows (rows_without rows r)
  unfolding rows_without
  rows_without-RowsIn rows (ok present) =
      λ key h. lists_key-filterb (λ r. not (contains present r.key)) rows key h
  rows_without-RowsIn rows (err e) = tt

  objects_to_upload-RowsIn :
      (stat : String → Push.Stat) (db : Db) (rows : List PendingObject) (verify_s3 : Bool)
      → RowsIn rows (objects_to_upload stat db rows verify_s3)
  unfolding objects_to_upload
  objects_to_upload-RowsIn stat db rows verify_s3 = rows_without-RowsIn rows _

  -- A created closure's uploads are among the objects.
  abbrev UploadsIn : Objects → Result (PendingClosure × List PendingObject) → Type 0
  UploadsIn m (ok x) = (key : String) → lists_key x.1 key ≡ true → has_key m key ≡ true
  UploadsIn m (err e) = Unit

  create_pending_closure_inner-UploadsIn :
      (stat : String → Push.Stat) (root : String) (roots : Option (List String)) (m : Objects)
      (verify_s3 : Bool) (now : ℕ) (db : Db)
      → UploadsIn m (create_pending_closure_inner stat root roots m verify_s3 now db).1
  unfolding create_pending_closure_inner insert_pending_closure
  create_pending_closure_inner-UploadsIn stat root roots m verify_s3 now db =
      let inserted = insert_pending_closure root roots m now db in
      by_result (has_suffix root ".narinfo")
        (objects_to_upload stat inserted.0 inserted.1.objects verify_s3) inserted.0
        (delete_pending_closure inserted.1.id inserted.0) inserted.1
        (objects_to_upload-RowsIn stat inserted.0 inserted.1.objects verify_s3)
    where
      by_result :
          (suffix : Bool) (u : Result (List PendingObject)) (db' db'' : Db) (row : PendingClosure)
          → RowsIn (map (λ r. pending_row r.1) m) u
          → let r : Db × Result (PendingClosure × List PendingObject) =
              if suffix
              then (elim u [ ok ups ↦ (db', ok (row, ups)) | err e ↦ (db'', err e) ])
              else (db, err Push.bad_closure_key) in
            UploadsIn m r.1
      by_result false u db' db'' row i = tt
      by_result true (err e) db' db'' row i = tt
      by_result true (ok ups) db' db'' row i = λ key h. sym (lists_key-pending_row m key) ∙ i key h

  -- What is created offers only objects of the map.
  abbrev Offers : (String → Bool) → Created → Type 0
  Offers p bad_request = Unit
  Offers p failed = Unit
  Offers p (created id offers) = (key : String) → contains (keys offers) key ≡ true → p key ≡ true

  answer_offers-Offers :
      (p : String → Bool) (id : ℕ) (rows : List PendingObject) (a : Answer (Table String Offer))
      → Within rows a
      → ((key : String) → lists_key rows key ≡ true → p key ≡ true)
      → Offers p (answer_offers id a)
  answer_offers-Offers p id rows (success offers) w f = λ key h. f key (w key h)
  answer_offers-Offers p id rows throttled w f = tt
  answer_offers-Offers p id rows broken w f = tt

  create_pending_closure-Offers :
      (stat : String → Push.Stat) (root : String) (roots : Option (List String)) (m : Objects)
      (verify_s3 : Bool) (now : ℕ) (w : World S)
      → Offers (has_key m) (create_pending_closure s3 stat root roots m verify_s3 now w).0
  unfolding create_pending_closure
  create_pending_closure-Offers stat root roots m verify_s3 now w =
      let inner = create_pending_closure_inner stat root roots m verify_s3 now w.db in
      by_result inner.1 inner.0
        (create_pending_closure_inner-UploadsIn stat root roots m verify_s3 now w.db)
    where
      by_result :
          (made : Result (PendingClosure × List PendingObject)) (db : Db)
          → UploadsIn m made
          → let r : Created × World S = elim made [
            | err e ↦ (failed, record w { db = db })
            | ok row ↦
                let (offers, w') =
                  create_pending_objects s3 row.0.id m row.1 (record w { db = db }) in
                (answer_offers row.0.id offers, w')
          ] in
            Offers (has_key m) r.0
      by_result (err e) db u = tt
      by_result (ok row) db u =
          answer_offers-Offers (has_key m) row.0.id row.1 _
            (create_pending_objects-Within s3 row.0.id m row.1 (record w { db = db })) u

  Offers-weaken :
      (p q : String → Bool) (c : Created)
      → ((key : String) → p key ≡ true → q key ≡ true)
      → Offers p c
      → Offers q c
  Offers-weaken p q bad_request f o = tt
  Offers-weaken p q failed f o = tt
  Offers-weaken p q (created id offers) f o = λ key h. f key (o key h)

  create_push-Offers :
      (max : ℕ) (stat : String → Push.Stat) (roots : List String) (objects : List ObjectWithRefs)
      (verify_s3 : Bool) (now : ℕ) (w : World S)
      → Offers
          (λ key. anyb (is_declared key) objects)
          (create_push s3 max stat roots objects verify_s3 now w).0
  unfolding create_push
  create_push-Offers max stat [] objects verify_s3 now w = tt
  create_push-Offers max stat (root ∷ roots) objects verify_s3 now w =
      by_objects (length objects == 0) (validate_objects max objects [])
        (λ m e key h. validate_objects-declared max objects [] m key e h)
    where
      by_objects :
          (empty : Bool) (o : Option Objects)
          → ((m : Objects)
              → o ≡ some m
              → (key : String) → has_key m key ≡ true
              → (has_key [] key || anyb (is_declared key) objects) ≡ true)
          → let r : Created × World S = if empty then (bad_request, w) else (elim o [
            | none ↦ (bad_request, w)
            | some m ↦
                if valid_roots (root ∷ roots) m
                then create_pending_closure s3 stat root (some (root ∷ roots)) m verify_s3 now w
                else (bad_request, w)
          ]) in
            Offers (λ key. anyb (is_declared key) objects) r.0
      by_objects true o f = tt
      by_objects false none f = tt
      by_objects false (some m) f = by_roots (valid_roots (root ∷ roots) m)
        where
          by_roots :
              (valid : Bool)
              → let r : Created × World S =
                  if valid
                  then create_pending_closure s3 stat root (some (root ∷ roots)) m verify_s3 now w
                  else (bad_request, w) in
                Offers (λ key. anyb (is_declared key) objects) r.0
          by_roots false = tt
          by_roots true =
              Offers-weaken (has_key m) (λ key. anyb (is_declared key) objects) _
                (λ key h. no_keys key _ (f m refl key h))
                (create_pending_closure-Offers stat root (some (root ∷ roots)) m verify_s3 now w)

  -- Whatever a created push offers, a URL or an upload in parts, is for a key that the client declared
  -- with a type whose pattern the key fits.
  pub create_push-declared :
      (max : ℕ) (stat : String → Push.Stat) (roots : List String) (objects : List ObjectWithRefs)
      (verify_s3 : Bool) (now : ℕ) (w : World S) (id : ℕ) (offers : Table String Offer)
      (key : String)
      → (create_push s3 max stat roots objects verify_s3 now w).0 ≡ created id offers
      → contains (keys offers) key ≡ true
      → anyb (is_declared key) objects ≡ true
  create_push-declared max stat roots objects verify_s3 now w id offers key e h =
      subst (Offers (λ k. anyb (is_declared k) objects)) e
        (create_push-Offers max stat roots objects verify_s3 now w) key h
