-- ===== src/Server/Gc/Sweep.antt =====
-- One batch of the sweep (server/objects_model.go: sweepBatch, isAbsent) and the loop over the
-- batches (cleanupOrphanObjects). The order of the keys is the database's: `before` stands for it.
use niks.Common.{ℕ, ◌+◌, String, Option, none, some, List, [], ◌∷◌}
use niks.Common.{Bool, true, false, not, ◌&&◌, if◌then◌else◌, string_eq, nat_eq}
use niks.Common.{length, take, filterb}
use niks.Common.Table.{keys, lookup}
use niks.Server.Db.{Db, is_pending}
use niks.Server.Gc.{is_ripe, get_keys_not_pending, delete_objects}

module _ (before : String → String → Bool) where
  unfoldable pub insert_key : String → List String → List String
  insert_key k [] = k ∷ []
  insert_key k (j ∷ ks) = let rest = insert_key k ks in if before k j then k ∷ j ∷ ks else j ∷ rest

  -- `ORDER BY key`.
  unfoldable pub sort_keys : List String → List String
  unfolding insert_key
  sort_keys [] = []
  sort_keys (k ∷ ks) = insert_key k (sort_keys ks)

  -- The `WHERE` of `LockObjectsReadyForDeletion`. The pending rows are those of the query's
  -- snapshot; the row itself is read when it is locked. `held` are the rows that a push holds.
  unfoldable pub is_ready : (String → Bool) → Db → Db → ℕ → ℕ → String → String → Bool
  unfolding is_ripe is_pending lookup
  is_ready held snapshot db now grace after k =
      before after k
      && not (is_pending snapshot k)
      && not (held k)
      && (elim (lookup k db.objects) [ none ↦ false | some o ↦ is_ripe now grace o ])

  unfoldable pub lock_objects_ready : (String → Bool) → Db → Db → ℕ → ℕ → String → ℕ → List String
  unfolding is_ready sort_keys filterb
  lock_objects_ready held snapshot db now grace after limit =
      take limit (sort_keys (filterb (is_ready held snapshot db now grace after) (keys db.objects)))

-- What `RemoveObjectsWithResult` says of a key; `silent` is no result at all.
pub data Removal : Type 0 where
  removed no_such_key failed silent : Removal

-- The switch over the result. A key with no result counts as deleted if a stat confirms that the
-- bucket lacks it.
unfoldable pub is_deleted : (String → Removal) → (String → Bool) → String → Bool
is_deleted remove absent k = elim (remove k) [
  | removed ↦ true
  | no_such_key ↦ true
  | failed ↦ false
  | silent ↦ absent k
]

abbrev is_failed : Removal → Bool
is_failed failed = true
is_failed _ = false

pub record CleanupStats : Type 0 where
  pub marked : ℕ
  pub deleted : ℕ
  pub failed : ℕ

abbrev pub deletion_batch_size : ℕ
deletion_batch_size = 1000

unfoldable pub last_of : String → List String → String
last_of d [] = d
last_of d (k ∷ ks) = last_of k ks

-- `sweepBatch` from the keys it has locked: the new tables, the counters and the key after which
-- the next batch starts; `none` when nothing is left.
unfoldable pub sweep_batch :
    (String → Removal)
    → (String → Bool)
    → List String
    → Db
    → CleanupStats
    → Db × CleanupStats × Option String
unfolding is_deleted last_of get_keys_not_pending delete_objects filterb
sweep_batch remove absent [] db stats = (db, stats, none)
sweep_batch remove absent (k ∷ ks) db stats =
    let unpending = get_keys_not_pending (k ∷ ks) db in
    let deleted = filterb (is_deleted remove absent) unpending in
    (
      delete_objects deleted db,
      record stats {
        deleted = stats.deleted + length deleted;
        failed = stats.failed + length (filterb (λ j. is_failed (remove j)) unpending);
      },
      some (last_of k ks),
    )
