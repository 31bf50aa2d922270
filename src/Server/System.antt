-- ===== src/Server/System.antt =====
-- Pushes, uploads and garbage collection racing on the database and the bucket
-- (server/pending_closure.go, server/uploads.go, server/objects_model.go; the same protocol as
-- spec/pushes.qnt). Each step is one transaction, one statement or one request to S3.
pub mod Ids
pub mod Invariant
pub mod Pushes
pub mod Commits
pub mod Sweeping
pub mod Safe
use niks.Common.{
  ℕ, zero, suc, ◌+◌, ◌-◌, ◌*◌, ◌≤◌, ◌<◌, String, Option, none, some, List, [], ◌∷◌, ◌++◌, map,
}
use niks.Common.{
  Bool, true, false, not, ◌&&◌, ◌||◌, if◌then◌else◌, ltb, leb, ◌==◌, Eq, string_eq, nat_eq, ==_refl,
}
use niks.Common.{
  ◌≡◌, refl, sym, ap, subst, ◌∙◌, ◌≢◌, ◌↔◌, ◌⊎◌, inl, inr, arith, Bool-cases, Option-cases, is_none,
}
use niks.Common.{
  contains, dedup, subset, contains-append, contains-filterb, contains-dedup, subset→contains,
}
use niks.Common.{
  length, take, drop, filterb, anyb, length-append, length-filterb-le, filterb-append,
  take-append-drop,
}
use niks.Common.Table.{Table, keys, lookup}
use niks.Server.Db.{
  Object, PendingObject, PendingClosure, Db, empty_db, is_live, lists_key, is_pending,
}
use niks.Server.Push.{
  ObjectWithRefs, Stat, ok, insert_pending_closure, objects_to_upload, register_completed_object,
  find_pending, commit_push, commit_pending_closure, delete_pending_closure,
}
use niks.Server.Push.Rows.{All}
use niks.Server.Push.Commit.{is_root}
use niks.Server.Gc.{
  cleanup_pending_closures, delete_unpinned_closures, mark_stale_objects, delete_objects,
  get_keys_not_pending,
}
use niks.Server.Gc.Sweep.{lock_objects_ready}

-- The database and the bucket; for each push what its client was told to upload and has uploaded;
-- and the sweep's row locks, the keys it asks S3 to delete and those that S3 has deleted.
pub record Sys : Type 0 where
  pub db : Db
  pub bucket : String → Bool
  pub offered : ℕ → Option (List String)
  pub uploaded : ℕ → String → Bool
  pub locked : List String
  pub picked : List String
  pub gone : List String

abbrev pub initial : Sys
initial = record {
  db = empty_db;
  bucket = λ _. false;
  offered = λ _. none;
  uploaded = λ _ _. false;
  locked = [];
  picked = [];
  gone = [];
}

abbrev pub with_key : String → Bool → (String → Bool) → String → Bool
with_key k b f j = if k == j then b else f j

abbrev pub with_id {ℓ} : {A : Type ℓ} → ℕ → A → (ℕ → A) → ℕ → A
with_id i a f j = if i == j then a else f j

abbrev pub object_keys : List PendingObject → List String
object_keys = map (λ p. p.key)

module _ (refs_of_key : String → List String) (before : String → String → Bool) where
  -- What the client declares: the references that each object has, all objects under the roots,
  -- and the roots among them.
  pub record Declared (c : PendingClosure) : Type 0 where
    pub same_refs : All (λ p. p.refs ≡ refs_of_key p.key) c.objects
    pub closed :
        (k j : String)
        → lists_key c.objects k ≡ true
        → contains (refs_of_key k) j ≡ true
        → lists_key c.objects j ≡ true
    pub rooted : (k : String) → is_root c k ≡ true → lists_key c.objects k ≡ true

  pub data Step : Sys → Sys → Type 0 where
    create :
        (s : Sys) (key : String) (roots : Option (List String)) (m : Table String ObjectWithRefs)
        (now : ℕ)
        → Declared (insert_pending_closure key roots m now s.db).1
        → Step s (record s { db = (insert_pending_closure key roots m now s.db).0 })
    -- The lookup waits for rows that the sweep has locked.
    look_up :
        (s : Sys) (id : ℕ) (c : PendingClosure) (stat : String → Stat) (verify : Bool)
        (uploads : List PendingObject)
        → find_pending id s.db.pending_closures ≡ some c
        → s.offered id ≡ none
        → ((k : String) → lists_key c.objects k ≡ true → contains s.locked k ≡ false)
        → objects_to_upload stat s.db c.objects verify ≡ ok uploads
        → Step s (record s { offered = with_id id (some (object_keys uploads)) s.offered })
    -- A PUT to a presigned URL, which may outlive its push.
    upload :
        (s : Sys) (id : ℕ) (ks : List String) (k : String)
        → s.offered id ≡ some ks
        → contains ks k ≡ true
        → Step s (record s {
          bucket = with_key k true s.bucket;
          uploaded = with_id id (with_key k true (s.uploaded id)) s.uploaded;
        })
    register :
        (s : Sys) (k : String) (size : Option ℕ)
        → s.bucket k ≡ true
        → contains s.locked k ≡ false
        → Step s (record s { db = register_completed_object k (refs_of_key k) size s.db })
    -- The client completes its push once it has uploaded what it was told to.
    commit :
        (s : Sys) (id : ℕ) (c : PendingClosure) (ks : List String) (now : ℕ) (db' : Db) (n : ℕ)
        → find_pending id s.db.pending_closures ≡ some c
        → s.offered id ≡ some ks
        → ((k : String) → contains ks k ≡ true → s.uploaded id k ≡ true)
        → ((k : String) → lists_key c.objects k ≡ true → contains s.locked k ≡ false)
        → (commit_push id now s.db ≡ ok (db', n))
          ⊎ (commit_pending_closure id now s.db ≡ ok (db', n))
        → Step s (record s { db = db' })
    drop_push : (s : Sys) (id : ℕ) → Step s (record s { db = delete_pending_closure id s.db })
    clean_up :
        (s : Sys) (cutoff : ℕ) (keep : List ℕ)
        → Step s (record s { db = (cleanup_pending_closures cutoff keep s.db).0 })
    drop_closures :
        (s : Sys) (ks : List String)
        → Step s (record s { db = (delete_unpinned_closures ks s.db).0 })
    mark : (s : Sys) (now : ℕ) → Step s (record s { db = (mark_stale_objects now s.db).0 })
    lock :
        (s : Sys) (held : String → Bool) (snapshot : Db) (now grace : ℕ) (after : String)
        (limit : ℕ)
        → s.locked ≡ []
        → Step s (record s {
          locked = lock_objects_ready before held snapshot s.db now grace after limit;
        })
    recheck :
        (s : Sys)
        → s.picked ≡ []
        → Step s (record s { picked = get_keys_not_pending s.locked s.db })
    remove :
        (s : Sys) (k : String)
        → contains s.picked k ≡ true
        → Step s (record s { bucket = with_key k false s.bucket; gone = k ∷ s.gone })
    finish :
        (s : Sys) (ks : List String)
        → ((k : String) → contains ks k ≡ true → contains s.gone k ≡ true)
        → Step s (record s { db = delete_objects ks s.db; locked = []; picked = []; gone = [] })
    -- An error or the end of the process: the transaction is rolled back.
    abort : (s : Sys) → Step s (record s { locked = []; picked = []; gone = [] })

  pub data Run : Sys → Type 0 where
    start : Run initial
    next : {s t : Sys} → Run s → Step s t → Run t

  -- The keys that the given roots need, by the references that each key has.
  pub data Needs (root : String → Bool) : String → Type 0 where
    top : {k : String} → root k ≡ true → Needs root k
    sub : {j k : String} → Needs root j → contains (refs_of_key j) k ≡ true → Needs root k
