-- ===== src/Server/Uploads/Completed.antt =====
-- What the end of an upload changes (server/uploads.go).
use niks.Common.{
  is_none, ℕ, String, Option, none, some, List, [], ◌∷◌, Bool, true, false, not, if◌then◌else◌,
  ◌||◌, filterb, ◌≡◌, ◌≢◌, ◌⊎◌, refl, ap, sym, arith, length, ◌==◌, nat_eq, string_eq, Bool-cases,
  inl, inr, Option-cases, subst, anyb, ==_refl,
}
use niks.Common.Table.{lookup, lookup-upsert}
use niks.Server.Db.{Object, PendingObject, PendingClosure, Db, is_live, is_pending, lists_key}
use niks.Server.Push.{register_completed_object, merge_row}
use niks.Server.Multipart.{
  MultipartUpload, Bucket, World, Response, refused, answered, Answer, success, throttled, broken,
  find_upload, get_valid_multipart_upload, CompletedPart,
}
use niks.Server.Uploads.{
  object_exists_in_s3, complete_upload_handler, complete_multipart_upload, complete_in_s3,
  find_object, any_pending_object, register_row, get_pending_object, finish_upload, sort_parts,
  delete_upload, abort_redundant_multipart_uploads,
}
use niks.Server.Multipart.Parts.{get_valid_multipart_upload-found}
use niks.Server.Uploads.Aborted.{abort_redundant_multipart_uploads-without}

merge_row_live :
    (refs : List String) (size : Option ℕ) (o : Option Object)
    → is_live (some (merge_row refs size o)) ≡ true
unfolding merge_row
merge_row_live refs size none = refl
merge_row_live refs size (some o) = refl

-- A registered object is unmarked.
pub register_completed_object-live :
    (key : String) (refs : List String) (size : Option ℕ) (db : Db)
    → is_pending db key ≡ true
    → is_live (lookup key (register_completed_object key refs size db).objects) ≡ true
unfolding register_completed_object
register_completed_object-live key refs size db p =
    rw
      (
        p,
        register_completed_object,
        lookup-upsert key key (merge_row refs size) db.objects,
        ==_refl key,
      )
      (merge_row_live refs size (lookup key db.objects))

find_object-listed :
    (key : String) (os : List PendingObject) (o : PendingObject)
    → find_object key os ≡ some o
    → lists_key os key ≡ true
unfolding find_object anyb
find_object-listed key [] o e = cc
find_object-listed key (p ∷ os) o e = ground (arith, e, find_object-listed key os o)

any_pending_object-listed :
    (key : String) (cs : List PendingClosure) (o : PendingObject)
    → any_pending_object key cs ≡ some o
    → anyb (λ c. lists_key c.objects key) cs ≡ true
unfolding any_pending_object anyb
any_pending_object-listed key [] o e = cc
any_pending_object-listed key (c ∷ cs) o e = elim (Option-cases (find_object key c.objects)) [
  | inl h ↦ ground (arith, any_pending_object-listed key cs o, h, e)
  | inr (p, h) ↦ ground (arith, find_object-listed key c.objects p h)
]

any_pending_object-pending :
    (key : String) (db : Db) (o : PendingObject)
    → any_pending_object key db.pending_closures ≡ some o
    → is_pending db key ≡ true
unfolding is_pending
any_pending_object-pending key db o e = any_pending_object-listed key db.pending_closures o e

register_row-live :
    (key : String) (o : Option PendingObject) (db : Db)
    → (not (is_pending db key) || is_live (lookup key (register_row key o db).objects)) ≡ true
unfolding register_row
register_row-live key none db = ground (arith, register_completed_object-live key [] none db)
register_row-live key (some o) db =
    ground (arith, register_completed_object-live key o.refs o.size db)

find_upload-delete_upload :
    (key id : String) (us : List MultipartUpload) → find_upload key id (delete_upload id us) ≡ none
unfolding find_upload delete_upload filterb
find_upload-delete_upload key id [] = refl
find_upload-delete_upload key id (u ∷ us) = ground (arith, find_upload-delete_upload key id us)

find_upload-filterb :
    (p : MultipartUpload → Bool) (key id : String) (us : List MultipartUpload)
    → find_upload key id us ≡ none
    → find_upload key id (filterb p us) ≡ none
unfolding find_upload filterb
find_upload-filterb p key id [] e = refl
find_upload-filterb p key id (u ∷ us) e = ground (arith, e, find_upload-filterb p key id us)

module _ {S : Type 0} (s3 : Bucket S) where
  -- A successful answer with a live object, or another one with the tables as they were.
  abbrev pub Registers : String → World S → ℕ × World S → Type 0
  Registers key w r =
      ((r.0 ≡ 204) × (is_live (lookup key r.1.db.objects) ≡ true) × (r.1.uploads ≡ w.uploads))
      ⊎ ((r.0 ≢ 204) × (r.1.db ≡ w.db) × (r.1.uploads ≡ w.uploads))

  -- A single upload that is reported complete is answered with 204 only if its object is live in the
  -- table behind it; any other answer leaves the tables as they were.
  pub complete_upload_handler-Registers :
      (key : String) (w : World S) → Registers key w (complete_upload_handler s3 key w)
  unfolding complete_upload_handler
  complete_upload_handler-Registers key w =
      by_row (key == "") (any_pending_object key w.db.pending_closures)
        (object_exists_in_s3 s3 key w.bucket).0 (object_exists_in_s3 s3 key w.bucket).1
        (any_pending_object-pending key w.db)
    where
      by_row :
          (empty : Bool) (o : Option PendingObject) (there : Option Bool) (b : S)
          → ((p : PendingObject) → o ≡ some p → is_pending w.db key ≡ true)
          → Registers key w (
              if empty then (400, w) else (elim o [
                | none ↦ if is_live (lookup key w.db.objects) then (204, w) else (404, w)
                | some p ↦ elim there [
                  | none ↦ (500, record w { bucket = b })
                  | some present ↦
                      if present
                      then (
                        204,
                        record w {
                          db = register_completed_object key p.refs p.size w.db;
                          bucket = b;
                        },
                      )
                      else (404, record w { bucket = b })
                ]
              ]))
      by_row true o there b p = inr (λ h. ground (arith, h), refl, refl)
      by_row false none there b p = elim (Bool-cases (is_live (lookup key w.db.objects))) [
        | inl h ↦ rw h (inl (refl, h, refl))
        | inr h ↦ rw h (inr (λ k. ground (arith, k), refl, refl))
      ]
      by_row false (some o) none b p = inr (λ h. ground (arith, h), refl, refl)
      by_row false (some o) (some false) b p = inr (λ h. ground (arith, h), refl, refl)
      by_row false (some o) (some true) b p =
          inl (refl, register_completed_object-live key o.refs o.size w.db (p o refl), refl)

  -- What completing an upload does to the tables.
  abbrev pub Completes : String → String → World S → ℕ × World S → Type 0
  Completes key id w r =
      ((r.0 ≡ 204)
        × (is_none (find_upload key id w.uploads) ≡ false)
        × (find_upload key id r.1.uploads ≡ none)
        × ((not (is_pending w.db key) || is_live (lookup key r.1.db.objects)) ≡ true))
      ⊎ ((r.0 ≢ 204) × (r.1.db ≡ w.db) × (r.1.uploads ≡ w.uploads))

  finish_upload-uploads :
      (u : MultipartUpload) (key id : String) (w : World S)
      → find_upload key id (finish_upload s3 u key id w).uploads ≡ none
  unfolding finish_upload
  finish_upload-uploads u key id w =
      let w' : World S = record w {
        db = register_row key (get_pending_object u.pending_closure_id key w.db) w.db;
        uploads = delete_upload id w.uploads;
      } in
      subst (λ (us : List MultipartUpload). find_upload key id us ≡ none)
        (sym (abort_redundant_multipart_uploads-without s3 key id w'))
        (find_upload-filterb _ key id (delete_upload id w.uploads)
          (find_upload-delete_upload key id w.uploads))

  finish_upload-live :
      (u : MultipartUpload) (key id : String) (w : World S)
      → (not (is_pending w.db key) || is_live (lookup key (finish_upload s3 u key id w).db.objects))
        ≡ true
  unfolding finish_upload abort_redundant_multipart_uploads
  finish_upload-live u key id w =
      register_row-live key (get_pending_object u.pending_closure_id key w.db) w.db

  -- A refusal is never a success.
  get_valid_multipart_upload-refused :
      (key id : String) (us : List MultipartUpload) (status : ℕ)
      → get_valid_multipart_upload key id us ≡ refused status
      → status ≢ 204
  unfolding get_valid_multipart_upload
  get_valid_multipart_upload-refused key id us status e h = ground (arith, e, h)

  -- An upload in parts that is reported complete had its row, which is gone behind it, and its object
  -- is live in the table if some push has it pending; any other answer leaves the tables as they
  -- were.
  pub complete_multipart_upload-Completes :
      (key id : String) (parts : List CompletedPart) (w : World S)
      → Completes key id w (complete_multipart_upload s3 key id parts w)
  unfolding complete_multipart_upload
  complete_multipart_upload-Completes key id parts w =
      let b = (s3.wait w.bucket).1 in
      let done = complete_in_s3 s3 key id (sort_parts parts) b in
      by_answer (length parts == 0) (get_valid_multipart_upload key id w.uploads)
        (s3.wait w.bucket).0 done.0 b done.1
        (λ status. get_valid_multipart_upload-refused key id w.uploads status)
        (λ u e. (get_valid_multipart_upload-found key id w.uploads u e).0)
    where
      by_answer :
          (empty : Bool) (v : Response MultipartUpload) (go : Bool) (a : Answer (Unit {0}))
          (b b' : S)
          → ((status : ℕ) → v ≡ refused status → status ≢ 204)
          → ((u : MultipartUpload) → v ≡ answered u → find_upload key id w.uploads ≡ some u)
          → Completes key id w (
              if empty then (400, w) else (elim v [
                | refused status ↦ (status, w)
                | answered u ↦
                    if go
                    then (elim a [
                      | success _ ↦ (204, finish_upload s3 u key id (record w { bucket = b' }))
                      | throttled ↦ (429, record w { bucket = b' })
                      | broken ↦ (500, record w { bucket = b' })
                    ])
                    else (503, record w { bucket = b })
              ]))
      by_answer true v go a b b' r f = inr (λ h. ground (arith, h), refl, refl)
      by_answer false (refused status) go a b b' r f = inr (r status refl, refl, refl)
      by_answer false (answered u) false a b b' r f = inr (λ h. ground (arith, h), refl, refl)
      by_answer false (answered u) true throttled b b' r f =
          inr (λ h. ground (arith, h), refl, refl)
      by_answer false (answered u) true broken b b' r f = inr (λ h. ground (arith, h), refl, refl)
      by_answer false (answered u) true (success t) b b' r f =
          let w' : World S = record w { bucket = b' } in
          inl (
            refl,
            ap is_none (f u refl),
            finish_upload-uploads u key id w',
            finish_upload-live u key id w',
          )
