-- ===== src/Server/Push.antt =====
-- Pushes: the transactions of server/pending_closure.go and server/uploads.go, with the statements
-- of server/pg/query.sql and the functions of server/pg/functions that they run.
pub mod Rows
pub mod Commit
pub mod Complete
use niks.Common.{
  ℕ, zero, suc, ◌+◌, ◌-◌, ◌*◌, ◌≤◌, ◌<◌, String, Option, none, some, List, [], ◌∷◌, ◌++◌, map,
}
use niks.Common.{
  Bool, true, false, not, ◌&&◌, ◌||◌, if◌then◌else◌, ltb, leb, ◌==◌, Eq, string_eq, nat_eq, ==_refl,
}
use niks.Common.{
  ◌≡◌, refl, sym, ap, subst, ◌∙◌, ◌≢◌, ◌↔◌, ◌⊎◌, inl, inr, arith, Bool-cases, Option-cases, is_none,
}
use niks.Common.{
  contains, dedup, subset, contains-append, contains-filterb, contains-dedup, subset→contains,
}
use niks.Common.{
  length, take, drop, filterb, anyb, length-append, length-filterb-le, filterb-append,
  take-append-drop,
}
use niks.Common.{◌^◌}
use niks.Common.Table.{Table, keys, lookup, upsert}
use niks.Server.Db.{Object, PendingObject, PendingClosure, Db, is_live, is_pending}

-- `objectWithRefs`: an object that the client declares.
pub record ObjectWithRefs : Type 0 where
  pub key : String
  pub kind : String
  pub refs : List String
  pub nar_size : Option ℕ

-- The largest value of the BIGINT column.
abbrev max_int64 : ℕ
max_int64 = 2 ^ 63 - 1

unfoldable pub optional_size : Option ℕ → Option ℕ
optional_size none = none
optional_size (some n) = if ltb max_int64 n then none else some n

-- `strings.HasSuffix`.
unfoldable pub has_suffix : String → String → Bool
has_suffix String.[] t = String.[] == t
has_suffix (String.◌∷◌ c s) t = String.◌∷◌ c s == t || has_suffix s t

pub data PushError : Type 0 where
  bad_closure_key : PushError
  stat_failed : PushError
  closure_does_not_exist : PushError
  push_does_not_exist : PushError
  object_missing : String → PushError

pub data Result {ℓ} (A : Type ℓ) : Type ℓ where
  ok : A → Result A
  err : PushError → Result A

unfoldable pub pending_row : ObjectWithRefs → PendingObject
unfolding optional_size
pending_row o = record { key = o.key; refs = o.refs; size = optional_size o.nar_size }

-- `insertPendingClosure`: one transaction; `roots` is nil for the old API.
unfoldable pub insert_pending_closure :
    String → Option (List String) → Table String ObjectWithRefs → ℕ → Db → Db × PendingClosure
unfolding pending_row
insert_pending_closure key roots objects_map now db =
    (record db { pending_closures = row ∷ db.pending_closures; next_id = suc db.next_id }, row)
  where
    row : PendingClosure
    row = record {
      id = db.next_id;
      key = key;
      roots = roots;
      started_at = now;
      objects = map (λ r. pending_row r.1) objects_map;
    }

-- `GetExistingObjects`, with the column that `objectsToUpload` reads: whether the row is valid as
-- a deletion date.
abbrev pub is_present : Option Object → Bool
is_present none = false
is_present (some o) = is_none o.first_deleted_at

-- What `StatObject` answers for a key.
pub data Stat : Type 0 where
  found no_such_key failed : Stat

-- `checkS3ObjectsExist`: the keys that the bucket lacks, or an error if a request failed.
unfoldable pub check_s3_objects_exist : (String → Stat) → List String → Result (List String)
check_s3_objects_exist stat [] = ok []
check_s3_objects_exist stat (k ∷ ks) =
    let rest = check_s3_objects_exist stat ks in
    elim (stat k) [
      | found ↦ rest
      | no_such_key ↦ elim rest [ ok missing ↦ ok (k ∷ missing) | err e ↦ err e ]
      | failed ↦ err stat_failed
    ]

unfoldable pub drop_missing_from_s3 : (String → Stat) → List String → Result (List String)
unfolding check_s3_objects_exist
drop_missing_from_s3 stat present = elim (check_s3_objects_exist stat present) [
  | ok missing ↦ ok (filterb (λ k. not (contains missing k)) present)
  | err e ↦ err e
]

-- The keys that `objectsToUpload` takes for present: those the database does not consider marked,
-- and with `verifyS3` those of them that the bucket has.
unfoldable pub present_keys : (String → Stat) → Db → List String → Bool → Result (List String)
unfolding drop_missing_from_s3
present_keys stat db ks verify_s3 =
    let present = filterb (λ k. is_present (lookup k db.objects)) ks in
    if verify_s3 then drop_missing_from_s3 stat present else ok present

unfoldable pub rows_without :
    List PendingObject → Result (List String) → Result (List PendingObject)
rows_without rows (ok present) = ok (filterb (λ r. not (contains present r.key)) rows)
rows_without rows (err e) = err e

-- `objectsToUpload`: the rows whose object the client has to upload.
unfoldable pub objects_to_upload :
    (String → Stat) → Db → List PendingObject → Bool → Result (List PendingObject)
unfolding present_keys rows_without
objects_to_upload stat db rows verify_s3 =
    rows_without rows (present_keys stat db (map (λ r. r.key) rows) verify_s3)

-- `DeletePendingClosure`.
unfoldable pub delete_pending_closure : ℕ → Db → Db
delete_pending_closure id db = record db {
  pending_closures = filterb (λ c. not (c.id == id)) db.pending_closures;
}

-- `createPendingClosureInner`. The pending rows are written before the lookup, and dropped again
-- if the lookup fails.
unfoldable pub create_pending_closure_inner :
    (String → Stat)
    → String
    → Option (List String)
    → Table String ObjectWithRefs
    → Bool
    → ℕ
    → Db
    → Db × Result (PendingClosure × List PendingObject)
unfolding has_suffix insert_pending_closure objects_to_upload delete_pending_closure
create_pending_closure_inner stat key roots objects_map verify_s3 now db =
    if has_suffix key ".narinfo"
    then (let (db', row) = insert_pending_closure key roots objects_map now db in
        elim (objects_to_upload stat db' row.objects verify_s3) [
          | ok uploads ↦ (db', ok (row, uploads))
          | err e ↦ (delete_pending_closure row.id db', err e)
        ])
    else (db, err bad_closure_key)

-- `COALESCE`.
abbrev pub coalesce : Option ℕ → Option ℕ → Option ℕ
coalesce none b = b
coalesce (some a) b = some a

-- The row after a conflict: references merged, a known size kept, a tombstone taken back.
unfoldable pub merge_row : List String → Option ℕ → Option Object → Object
merge_row refs size none = record {
  refs = refs;
  size = size;
  deleted_at = none;
  first_deleted_at = none;
}
merge_row refs size (some o) = record {
  refs = dedup (o.refs ++ refs);
  size = coalesce o.size size;
  deleted_at = none;
  first_deleted_at = none;
}

-- `RegisterCompletedObject`: only while some pending row names the key.
unfoldable pub register_completed_object : String → List String → Option ℕ → Db → Db
unfolding is_pending merge_row upsert
register_completed_object key refs size db =
    if is_pending db key
    then record db { objects = upsert key (merge_row refs size) db.objects }
    else db

-- The `WHERE` of the conflict clause in commit_pending_closure.sql.
abbrev needs_update : PendingObject → Object → Bool
needs_update p o =
    not (is_none o.deleted_at)
    || not (subset p.refs o.refs)
    || is_none o.size && not (is_none p.size)

unfoldable pub fold_row : PendingObject → Option Object → Object
unfolding merge_row contains
fold_row p none = merge_row p.refs p.size none
fold_row p (some o) = if needs_update p o then merge_row p.refs p.size (some o) else o

unfoldable pub fold_objects : List PendingObject → Table String Object → Table String Object
unfolding fold_row upsert
fold_objects [] objs = objs
fold_objects (p ∷ ps) objs = fold_objects ps (upsert p.key (fold_row p) objs)

unfoldable pub find_pending : ℕ → List PendingClosure → Option PendingClosure
find_pending id [] = none
find_pending id (c ∷ cs) = if c.id == id then some c else find_pending id cs

-- `commit_pending_closure`: the new tables and the number of objects folded in.
unfoldable pub commit_pending_closure : ℕ → ℕ → Db → Result (Db × ℕ)
unfolding find_pending fold_objects upsert delete_pending_closure
commit_pending_closure id now db = elim (find_pending id db.pending_closures) [
  | none ↦ err closure_does_not_exist
  | some c ↦ ok (
    record (delete_pending_closure id db) {
      closures = upsert c.key (λ _. now) db.closures;
      objects = fold_objects c.objects db.objects;
    },
    length c.objects,
  )
]

-- The keys that the push names and does not bring itself.
abbrev pub named_refs : List PendingObject → List String
named_refs [] = []
named_refs (p ∷ ps) = p.refs ++ named_refs ps

unfoldable pub find_missing : Table String Object → List PendingObject → List String → Option String
unfolding lookup contains
find_missing objs own [] = none
find_missing objs own (k ∷ ks) =
    if contains (map (λ p. p.key) own) k || is_live (lookup k objs)
    then find_missing objs own ks
    else some k

unfoldable pub touch_closures : ℕ → List String → Table String ℕ → Table String ℕ
unfolding upsert
touch_closures now [] cs = cs
touch_closures now (k ∷ ks) cs = touch_closures now ks (upsert k (λ _. now) cs)

-- `commit_push`: fails if an object that the push relied on is gone.
unfoldable pub commit_push : ℕ → ℕ → Db → Result (Db × ℕ)
unfolding find_pending find_missing touch_closures commit_pending_closure
commit_push id now db = elim (find_pending id db.pending_closures) [
  | none ↦ err push_does_not_exist
  | some c ↦ elim c.roots [
    | none ↦ err push_does_not_exist
    | some roots ↦ elim (find_missing db.objects c.objects (roots ++ named_refs c.objects)) [
      | some k ↦ err (object_missing k)
      | none ↦
          commit_pending_closure id now
            (record db { closures = touch_closures now (dedup roots) db.closures })
    ]
  ]
]
