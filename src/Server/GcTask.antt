-- ===== src/Server/GcTask.antt =====
-- The garbage collection as a background task (server/gc_tasks.go, server/closure.go). A time is
-- what the clock shows; the n-th reading of a run is `clock n`.
pub mod Started
pub mod Finished
use niks.Common.{ℕ, suc, ◌+◌, ◌/◌, String, Option, none, some, List, [], ◌∷◌}
use niks.Common.{Bool, true, false, ◌&&◌, if◌then◌else◌, ◌==◌, string_eq, length, ◌<>◌}

pub data TaskState : Type 0 where
  running succeeded failed : TaskState

pub data Phase : Type 0 where
  no_phase cleanup_pending_uploads cleanup_old_closures cleanup_orphan_objects vacuum_tables : Phase

pub record GcTaskParams : Type 0 where
  pub older_than : String
  pub failed_uploads_older_than : String
  pub force : Bool

pub record GcStats : Type 0 where
  pub failed_uploads_deleted : ℕ
  pub old_closures_deleted : ℕ
  pub objects_marked_for_deletion : ℕ
  pub objects_deleted_after_grace_period : ℕ
  pub objects_failed_to_delete : ℕ

abbrev pub no_stats : GcStats
no_stats = record {
  failed_uploads_deleted = 0;
  old_closures_deleted = 0;
  objects_marked_for_deletion = 0;
  objects_deleted_after_grace_period = 0;
  objects_failed_to_delete = 0;
}

pub record GcTaskStatus : Type 0 where
  pub state : TaskState
  pub phase : Phase
  pub params : GcTaskParams
  pub stats : GcStats
  pub error : String
  pub started_at : ℕ
  pub updated_at : ℕ
  pub finished_at : Option ℕ

-- The methods of `gcTask`; each holds the task's lock.
abbrev pub set_phase : Phase → ℕ → GcTaskStatus → GcTaskStatus
set_phase phase now t = record t { phase = phase; updated_at = now }

abbrev pub update_stats : GcStats → ℕ → GcTaskStatus → GcTaskStatus
update_stats stats now t = record t { stats = stats; updated_at = now }

abbrev pub succeed : GcStats → ℕ → GcTaskStatus → GcTaskStatus
succeed stats now t = record t {
  state = succeeded;
  stats = stats;
  phase = no_phase;
  updated_at = now;
  finished_at = some now;
}

abbrev pub fail : GcStats → String → ℕ → GcTaskStatus → GcTaskStatus
fail stats error now t = record t {
  state = failed;
  stats = stats;
  error = error;
  updated_at = now;
  finished_at = some now;
}

abbrev bool_beq : Bool → Bool → Bool
bool_beq true b = b
bool_beq false true = false
bool_beq false false = true

unfoldable pub same_params : GcTaskParams → GcTaskParams → Bool
same_params a b =
    a.older_than == b.older_than
    && a.failed_uploads_older_than == b.failed_uploads_older_than
    && bool_beq a.force b.force

-- `StartResult`, as its three uses build it.
pub data StartResult : Type 0 where
  active conflict is_new : GcTaskStatus → StartResult

-- `GCTaskStore.Start`: the task of the store afterwards, and the result.
unfoldable pub start : GcTaskParams → ℕ → Option GcTaskStatus → Option GcTaskStatus × StartResult
unfolding same_params
start params now task =
    let new : GcTaskStatus = record {
      state = running;
      phase = no_phase;
      params = params;
      stats = no_stats;
      error = "";
      started_at = now;
      updated_at = now;
      finished_at = none;
    } in
    elim task [
      | none ↦ (some new, is_new new)
      | some t ↦ elim t.state [
        | running ↦ if same_params t.params params then (some t, active t) else (some t, conflict t)
        | succeeded ↦ (some new, is_new new)
        | failed ↦ (some new, is_new new)
      ]
    ]

-- What `time.ParseDuration` makes of a string, in nanoseconds.
pub data Duration : Type 0 where
  positive negative : ℕ → Duration

pub data Response : Type 0 where
  bad_request : Response
  accepted conflict_response : GcTaskStatus → Response

-- The run that a request starts.
pub record GcRun : Type 0 where
  pub age : ℕ
  pub pending_age : ℕ
  pub forced : Bool

abbrev pub first_of : String → String → String
first_of a b = if a == "" then b else a

-- `CleanupClosuresOlder`, for the query values `older-than`, `failed-uploads-older-than`,
-- `pending-older-than` and `force`.
module _ (parse_duration : String → Option Duration) where
  unfoldable pub cleanup_closures_older :
      String
      → String
      → String
      → String
      → ℕ
      → Option GcTaskStatus
      → Option GcTaskStatus × Response × Option GcRun
  unfolding start
  cleanup_closures_older older_than failed_uploads pending force now task =
      let failed_uploads_older_than = first_of (first_of failed_uploads pending) "6h" in
      let refused : Option GcTaskStatus × Response × Option GcRun = (task, bad_request, none) in
      let params : GcTaskParams = record {
        older_than = older_than;
        failed_uploads_older_than = failed_uploads_older_than;
        force = force == "true";
      } in
      let (task', result) = start params now task in
      if older_than == "" then refused else (elim (parse_duration older_than) [
        | none ↦ refused
        | some d ↦ elim d [
          | negative n ↦ refused
          | positive age ↦ elim (parse_duration failed_uploads_older_than) [
            | none ↦ refused
            | some e ↦ elim e [
              | negative n ↦ refused
              | positive pending_age ↦ elim result [
                | conflict t ↦ (task', conflict_response t, none)
                | active t ↦ (task', accepted t, none)
                | is_new t ↦ (
                  task',
                  accepted t,
                  some (record { age = age; pending_age = pending_age; forced = force == "true" }),
                )
              ]
            ]
          ]
        ]
      ])

pub data Outcome {ℓ} (A : Type ℓ) : Type ℓ where
  done : A → Outcome A
  failure : String → Outcome A

pub data LockOutcome : Type 0 where
  acquired already_running : LockOutcome
  lock_failure : String → LockOutcome

pub record ObjectStats : Type 0 where
  pub marked : ℕ
  pub deleted : ℕ
  pub failed : ℕ

-- The calls of a run: the advisory lock, the three phases with what they report, and for the last
-- one the counters at each callback. `to_int32` is Go's conversion of seconds to int32.
pub record Calls : Type 0 where
  pub acquire_lock : LockOutcome
  pub cleanup_pending : ℕ → Outcome ℕ
  pub delete_closures : ℕ → Outcome ℕ
  pub cleanup_orphans : ℕ → List ObjectStats × ObjectStats × Option String
  pub to_int32 : ℕ → ℕ

abbrev pub with_objects : ObjectStats → GcStats → GcStats
with_objects o stats = record stats {
  objects_marked_for_deletion = o.marked;
  objects_deleted_after_grace_period = o.deleted;
  objects_failed_to_delete = o.failed;
}

-- The callback after marking and after each batch.
unfoldable pub report : GcStats → List ObjectStats → ℕ → (ℕ → ℕ) → GcTaskStatus → GcTaskStatus
report stats [] n clock t = t
report stats (o ∷ os) n clock t =
    report stats os (suc n) clock (update_stats (with_objects o stats) (clock n) t)

abbrev pub grace_period : Calls → GcRun → ℕ
grace_period calls run = if run.forced then 0 else calls.to_int32 (run.pending_age / 1_000_000_000)

unfoldable pub orphan_phase : Calls → GcRun → GcStats → (ℕ → ℕ) → GcTaskStatus → GcTaskStatus
unfolding report
orphan_phase calls run stats clock t =
    let (progress, o, problem) = calls.cleanup_orphans (grace_period calls run) in
    let t' = report stats progress 5 clock (set_phase cleanup_orphan_objects (clock 4) t) in
    let n = 5 + length progress in
    elim problem [
      | some e ↦
          fail (with_objects o stats) ("failed to cleanup orphan objects: " <> e) (clock n) t'
      | none ↦ succeed (with_objects o stats) (clock (suc n)) (set_phase vacuum_tables (clock n) t')
    ]

unfoldable pub closure_phase : Calls → GcRun → GcStats → (ℕ → ℕ) → GcTaskStatus → GcTaskStatus
unfolding orphan_phase
closure_phase calls run stats clock t =
    let t' = set_phase cleanup_old_closures (clock 2) t in
    elim (calls.delete_closures run.age) [
      | failure e ↦ fail stats ("failed to cleanup old closures: " <> e) (clock 3) t'
      | done n ↦
          let stats' = record stats { old_closures_deleted = n } in
          orphan_phase calls run stats' clock (update_stats stats' (clock 3) t')
    ]

unfoldable pub pending_phase : Calls → GcRun → (ℕ → ℕ) → GcTaskStatus → GcTaskStatus
unfolding closure_phase
pending_phase calls run clock t =
    let t' = set_phase cleanup_pending_uploads (clock 0) t in
    elim (calls.cleanup_pending run.pending_age) [
      | failure e ↦ fail no_stats ("failed to cleanup pending closures: " <> e) (clock 1) t'
      | done n ↦
          let stats = record no_stats { failed_uploads_deleted = n } in
          closure_phase calls run stats clock (update_stats stats (clock 1) t')
    ]

-- `runGarbageCollection`: the status it leaves.
unfoldable pub run_garbage_collection : Calls → GcRun → (ℕ → ℕ) → GcTaskStatus → GcTaskStatus
unfolding pending_phase
run_garbage_collection calls run clock t = elim calls.acquire_lock [
  | already_running ↦
      fail no_stats "another garbage collection is already running on this database" (clock 0) t
  | lock_failure e ↦ fail no_stats ("failed to acquire GC lock: " <> e) (clock 0) t
  | acquired ↦ pending_phase calls run clock t
]
