-- ===== src/Server/Uploads.antt =====
-- The end of an upload (server/uploads.go), on the tables and the bucket.
pub mod Completed
pub mod Aborted
mod Tests
use Prim.Native.Char.{code}
use niks.Common.{
  ℕ, zero, suc, ◌+◌, ◌-◌, ◌*◌, ◌/◌, ◌%◌, ◌^◌, String, Option, none, some, List, [], ◌∷◌, ◌++◌, map,
  Bool, true, false, not, ◌&&◌, ◌||◌, if◌then◌else◌, ltb, leb, ◌==◌, string_eq, nat_eq, list_eq,
  filterb, length, is_none, contains,
}
use niks.Common.Table.{lookup}
use niks.Server.Db.{Object, PendingObject, PendingClosure, Db, is_pending, is_live}
use niks.Server.Push.{find_pending, register_completed_object}
use niks.Server.Keys.{bytes, is_valid_upload_key}
use niks.Server.Multipart.{
  MultipartUpload, CompletedPart, Stat, found, no_such_key, stat_failed, Abort, aborted,
  no_such_upload, abort_failed, Answer, success, throttled, broken, Bucket, World, Response,
  refused, answered, find_upload, get_valid_multipart_upload,
}

-- `DeleteMultipartUpload`.
unfoldable pub delete_upload : String → List MultipartUpload → List MultipartUpload
unfolding filterb
delete_upload id us = filterb (λ u. not (u.upload_id == id)) us

-- `sort.Slice` by part number.
unfoldable pub insert_part : CompletedPart → List CompletedPart → List CompletedPart
insert_part p [] = p ∷ []
insert_part p (q ∷ qs) =
    let rest = insert_part p qs in if leb p.part_number q.part_number then p ∷ q ∷ qs else q ∷ rest

unfoldable pub sort_parts : List CompletedPart → List CompletedPart
unfolding insert_part
sort_parts [] = []
sort_parts (p ∷ ps) = insert_part p (sort_parts ps)

-- `GetPendingObject`: refs and size of the row of one closure.
unfoldable pub find_object : String → List PendingObject → Option PendingObject
find_object key [] = none
find_object key (o ∷ os) = let rest = find_object key os in if o.key == key then some o else rest

unfoldable pub get_pending_object : ℕ → String → Db → Option PendingObject
unfolding find_pending find_object
get_pending_object id key db = elim (find_pending id db.pending_closures) [
  | none ↦ none
  | some c ↦ find_object key c.objects
]

-- `GetPendingObjectByKey`: the row of any closure.
unfoldable pub any_pending_object : String → List PendingClosure → Option PendingObject
unfolding find_object
any_pending_object key [] = none
any_pending_object key (c ∷ cs) =
    let rest = any_pending_object key cs in
    elim (find_object key c.objects) [ none ↦ rest | some o ↦ some o ]

-- A missing row registers the object with no references and no size.
unfoldable pub register_row : String → Option PendingObject → Db → Db
unfolding register_completed_object
register_row key none db = register_completed_object key [] none db
register_row key (some o) db = register_completed_object key o.refs o.size db

-- `GetRedundantMultipartUploads`.
unfoldable pub redundant_uploads : String → String → List MultipartUpload → List String
unfolding filterb
redundant_uploads key keep us =
    map (λ u. u.upload_id) (filterb (λ u. u.object_key == key && not (u.upload_id == keep)) us)

module _ {S : Type 0} (s3 : Bucket S) where
  -- `objectExistsInS3`; `none` is an error.
  unfoldable pub object_exists_in_s3 : String → S → Option Bool × S
  object_exists_in_s3 key b =
      let (go, b') = s3.wait b in
      let (answer, b'') = s3.stat_object key b' in
      if go
      then (elim answer [
        | found ↦ (some true, b'')
        | no_such_key ↦ (some false, b'')
        | stat_failed ↦ (none, b'')
      ])
      else (none, b')

  -- `ObjectExistsHandler`.
  unfoldable pub object_exists_handler : String → S → ℕ × S
  unfolding object_exists_in_s3
  object_exists_handler key b =
      let (answer, b') = object_exists_in_s3 key b in
      if key == ""
      then (400, b)
      else (elim answer [ none ↦ (500, b') | some there ↦ if there then (204, b') else (404, b') ])

  -- The loop of `abortRedundantMultipartUploads`: a row stays if its upload cannot be aborted.
  unfoldable pub abort_each :
      String → List String → List MultipartUpload → S → List MultipartUpload × S
  unfolding delete_upload
  abort_each key [] us b = (us, b)
  abort_each key (id ∷ ids) us b =
      let (answer, b') = s3.abort_upload key id b in
      abort_each key ids
        (elim answer [
          | aborted ↦ delete_upload id us
          | no_such_upload ↦ delete_upload id us
          | abort_failed ↦ us
        ])
        b'

  unfoldable pub abort_redundant_multipart_uploads : String → String → World S → World S
  unfolding abort_each redundant_uploads
  abort_redundant_multipart_uploads key keep w =
      let (us, b) = abort_each key (redundant_uploads key keep w.uploads) w.uploads w.bucket in
      record w { uploads = us; bucket = b }

  -- `CompleteMultipartUploadHandler`, once the object is in the bucket: the object is registered,
  -- the row dropped, and other uploads of the key are aborted.
  unfoldable pub finish_upload : MultipartUpload → String → String → World S → World S
  unfolding register_row get_pending_object delete_upload abort_redundant_multipart_uploads
  finish_upload u key id w = abort_redundant_multipart_uploads key id (record w {
    db = register_row key (get_pending_object u.pending_closure_id key w.db) w.db;
    uploads = delete_upload id w.uploads;
  })

  -- The request that completes the upload: a failure counts as a success if the object is there,
  -- and the upload, which may still be open, is aborted.
  abbrev if_there : String → String → Answer (Unit {0}) → Option Bool → S → Answer (Unit {0}) × S
  if_there key id failure none b = (failure, b)
  if_there key id failure (some there) b =
      if there then (success tt, (s3.abort_upload key id b).1) else (failure, b)

  unfoldable pub complete_in_s3 : String → String → List CompletedPart → S → Answer (Unit {0}) × S
  unfolding object_exists_in_s3
  complete_in_s3 key id parts b =
      let (answer, b') = s3.complete_upload key id parts b in
      let (there, b'') = object_exists_in_s3 key b' in
      elim answer [
        | success u ↦ (success u, b')
        | throttled ↦ if_there key id throttled there b''
        | broken ↦ if_there key id broken there b''
      ]

  unfoldable pub complete_multipart_upload :
      String → String → List CompletedPart → World S → ℕ × World S
  unfolding get_valid_multipart_upload complete_in_s3 sort_parts finish_upload
  complete_multipart_upload key id parts w =
      let (go, b) = s3.wait w.bucket in
      let (answer, b') = complete_in_s3 key id (sort_parts parts) b in
      if length parts == 0 then (400, w) else (elim (get_valid_multipart_upload key id w.uploads) [
        | refused status ↦ (status, w)
        | answered u ↦
            if go
            then (elim answer [
              | success _ ↦ (204, finish_upload u key id (record w { bucket = b' }))
              | throttled ↦ (429, record w { bucket = b' })
              | broken ↦ (500, record w { bucket = b' })
            ])
            else (503, record w { bucket = b })
      ])

  -- `CompleteUploadHandler`: only a pending object that the bucket has is registered. An object
  -- that is no longer pending and present was registered by the commit.
  unfoldable pub complete_upload_handler : String → World S → ℕ × World S
  unfolding any_pending_object object_exists_in_s3 register_completed_object lookup
  complete_upload_handler key w =
      let (answer, b) = object_exists_in_s3 key w.bucket in
      if key == "" then (400, w) else (elim (any_pending_object key w.db.pending_closures) [
        | none ↦ if is_live (lookup key w.db.objects) then (204, w) else (404, w)
        | some o ↦ elim answer [
          | none ↦ (500, record w { bucket = b })
          | some there ↦
              if there
              then (
                204,
                record w { db = register_completed_object key o.refs o.size w.db; bucket = b },
              )
              else (404, record w { bucket = b })
        ]
      ])
