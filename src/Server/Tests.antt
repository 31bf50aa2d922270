-- ===== src/Server/Tests.antt =====
-- The server's tables and the races on a small cache: one store path with its narinfo and its NAR.
use niks.Common.{
  ℕ, String, Option, none, some, List, [], ◌∷◌, ◌++◌, Bool, true, false, not, ◌&&◌, if◌then◌else◌,
  ◌==◌, filterb, anyb, dedup, ◌+◌,
}
use niks.Common.{◌≡◌, ◌↔◌, ◌⊎◌, inl, refl, arith, contains, string_eq, is_none, nat_eq}
use niks.Common.Table.{Table, keys, lookup}
use niks.Server.Db.{
  Object, PendingObject, PendingClosure, Db, empty_db, is_live, lists_key, is_pending,
}
use niks.Server.Reach.{Objects, closure_reach}
use niks.Server.Reach.Exact.{Reaches, closure_reach_exact}
use niks.Server.Push.{
  ObjectWithRefs, found, ok, err, object_missing, insert_pending_closure, objects_to_upload,
  commit_push, find_pending, named_refs,
}
use niks.Server.Push.Complete.{commit_push_live, commit_push_missing}
use niks.Server.Gc.{mark_stale_objects}
use niks.Server.Gc.Marked.{mark_stale_objects_exact}
use niks.Server.Gc.Kept.{sweep_batch_exact}
use niks.Server.Gc.Sweep.{sweep_batch, removed, is_deleted, CleanupStats}
use niks.Server.System.{Sys, initial, with_key, with_id, Declared, Step, Run, Needs}
use niks.Server.System.Safe.{published_complete, live_stored}
use niks.Server.GcTask
use niks.Server.GcTask.{
  Duration, positive, GcRun, GcTaskParams, GcTaskStatus, Calls, done, failure, acquired, running,
  no_phase, start, cleanup_closures_older, run_garbage_collection,
}
use niks.Server.GcTask.Started.{is_running, is_started, start_exclusive}
use niks.Server.GcTask.Finished.{run_garbage_collection_ends}

abbrev row : List String → Option ℕ → Object
row refs deleted = record {
  refs = refs;
  size = none;
  deleted_at = deleted;
  first_deleted_at = deleted;
}

-- The narinfo refers to the NAR; "b" is an orphan.
abbrev objects : Objects
objects = ("a.narinfo", row ("nar/a" ∷ []) none) ∷ ("nar/a", row [] none) ∷ ("b", row [] none) ∷ []

abbrev db : Db
db = record empty_db {
  objects = objects;
  closures = ("a.narinfo", 5) ∷ [];
  pins =
      (
        "keep",
        record {
          narinfo_key = "a.narinfo";
          store_path = "/nix/store/a-x";
          created_at = 1;
          updated_at = 1;
        },
      )
      ∷ [];
}

abbrev narinfos : List String
narinfos = "a.narinfo" ∷ []

closure_reach_exact_example :
    (contains (closure_reach objects ("a.narinfo" ∷ [])) "nar/a" ≡ true)
    ↔ Reaches objects ("a.narinfo" ∷ []) "nar/a"
closure_reach_exact_example = closure_reach_exact objects ("a.narinfo" ∷ []) "nar/a"

nar_row : lookup "nar/a" db.objects ≡ some (row [] none)
unfolding lookup
nar_row = refl

mark_stale_objects_exact_example :
    (is_live (lookup "nar/a" (mark_stale_objects 9 db).0.objects) ≡ true)
    ↔ (Reaches db.objects (keys db.closures) "nar/a" ⊎ (is_pending db "nar/a" ≡ true))
mark_stale_objects_exact_example = mark_stale_objects_exact 9 db "nar/a" (row [] none) nar_row refl

abbrev orphans : List String
orphans = "b" ∷ []

abbrev no_stats : CleanupStats
no_stats = record { marked = 0; deleted = 0; failed = 0 }

sweep_batch_exact_example :
    lookup "b" (sweep_batch (λ _. removed) (λ _. false) orphans db no_stats).0.objects ≡ (
      if contains orphans "b"
        && not (is_pending db "b")
        && is_deleted (λ _. removed) (λ _. false) "b"
      then none
      else lookup "b" db.objects)
sweep_batch_exact_example = sweep_batch_exact (λ _. removed) (λ _. false) orphans db no_stats "b"

-- A push of "c.narinfo", which relies on "nar/a" and finds "b" there.
abbrev pending : List PendingObject
pending =
    record { key = "c.narinfo"; refs = "nar/a" ∷ []; size = none }
    ∷ record { key = "b"; refs = []; size = none }
    ∷ []

abbrev to_upload : List PendingObject
to_upload = record { key = "c.narinfo"; refs = "nar/a" ∷ []; size = none } ∷ []

uploads : objects_to_upload (λ _. found) db pending false ≡ ok to_upload
unfolding objects_to_upload filterb contains lookup
uploads = refl

not_offered : lists_key to_upload "b" ≡ false
unfolding anyb
not_offered = refl

declared : lists_key pending "b" ≡ true
unfolding anyb
declared = refl

abbrev push : PendingClosure
push = record {
  id = 1;
  key = "c.narinfo";
  roots = some ("c.narinfo" ∷ []);
  started_at = 2;
  objects = pending;
}

abbrev pushing : Db
pushing = record db { pending_closures = push ∷ [] }

abbrev pushed : Db
pushed = record db {
  objects = objects ++ (("c.narinfo", row ("nar/a" ∷ []) none) ∷ []);
  closures = ("a.narinfo", 5) ∷ ("c.narinfo", 9) ∷ [];
}

found_push : find_pending 1 pushing.pending_closures ≡ some push
unfolding find_pending
found_push = refl

pushed_ok : commit_push 1 9 pushing ≡ ok (pushed, 2)
unfolding commit_push filterb dedup
pushed_ok = refl

abbrev relied_on : List String
relied_on = ("c.narinfo" ∷ []) ++ named_refs pending

relies : contains relied_on "nar/a" ≡ true
unfolding contains
relies = refl

commit_push_live_example : is_live (lookup "nar/a" pushed.objects) ≡ true
commit_push_live_example =
    commit_push_live 1 9 pushing pushed 2 push ("c.narinfo" ∷ []) "nar/a" found_push refl pushed_ok
      relies

-- The NAR that the push relies on is gone.
abbrev swept : Db
swept = record pushing { objects = ("a.narinfo", row ("nar/a" ∷ []) none) ∷ [] }

swept_err : commit_push 1 9 swept ≡ err (object_missing "nar/a")
unfolding commit_push
swept_err = refl

commit_push_missing_example :
    (contains relied_on "nar/a" ≡ true)
    × (lists_key pending "nar/a" ≡ false)
    × (is_live (lookup "nar/a" swept.objects) ≡ false)
commit_push_missing_example =
    commit_push_missing 1 9 swept push ("c.narinfo" ∷ []) "nar/a" found_push refl swept_err

-- A first push of "a.narinfo", step by step.
abbrev refs_of_key : String → List String
refs_of_key k = if "a.narinfo" == k then "nar/a" ∷ [] else []

abbrev before : String → String → Bool
before j k = not (j == k)

abbrev upload_row : String → List String → String × ObjectWithRefs
upload_row k refs = (k, record { key = k; kind = "nar"; refs = refs; nar_size = none })

abbrev declared_objects : Table String ObjectWithRefs
declared_objects = upload_row "a.narinfo" ("nar/a" ∷ []) ∷ upload_row "nar/a" [] ∷ []

abbrev object_rows : List PendingObject
object_rows =
    record { key = "a.narinfo"; refs = "nar/a" ∷ []; size = none }
    ∷ record { key = "nar/a"; refs = []; size = none }
    ∷ []

abbrev first_push : PendingClosure
first_push = record {
  id = 1;
  key = "a.narinfo";
  roots = some ("a.narinfo" ∷ []);
  started_at = 1;
  objects = object_rows;
}

abbrev created : Sys
created = record initial {
  db = record empty_db { pending_closures = first_push ∷ []; next_id = 2 };
}

abbrev offered : Sys
offered = record created { offered = with_id 1 (some ("a.narinfo" ∷ "nar/a" ∷ [])) created.offered }

abbrev put : String → Sys → Sys
put k s = record s {
  bucket = with_key k true s.bucket;
  uploaded = with_id 1 (with_key k true (s.uploaded 1)) s.uploaded;
}

abbrev both_put : Sys
both_put = put "nar/a" (put "a.narinfo" offered)

abbrev committed : Sys
committed = record both_put {
  db = record empty_db {
    objects = ("a.narinfo", row ("nar/a" ∷ []) none) ∷ ("nar/a", row [] none) ∷ [];
    closures = ("a.narinfo", 3) ∷ [];
    next_id = 2;
  };
}

created-Declared : Declared refs_of_key before first_push
unfolding anyb contains
created-Declared = record {
  same_refs = (refl, (refl, tt));
  closed = λ k j h m. ground (arith, h, m);
  rooted = λ k h. ground (arith, h);
}

create_step : Step refs_of_key before initial created
unfolding insert_pending_closure
create_step =
    Step.create initial "a.narinfo" (some ("a.narinfo" ∷ [])) declared_objects 1 created-Declared

look_up_step : Step refs_of_key before created offered
unfolding find_pending objects_to_upload contains filterb lookup
look_up_step =
    Step.look_up created 1 first_push (λ _. found) false object_rows refl refl (λ k h. refl) refl

upload_step : Step refs_of_key before offered (put "a.narinfo" offered)
unfolding contains
upload_step = Step.upload offered 1 ("a.narinfo" ∷ "nar/a" ∷ []) "a.narinfo" refl refl

second_upload_step : Step refs_of_key before (put "a.narinfo" offered) both_put
unfolding contains
second_upload_step =
    Step.upload (put "a.narinfo" offered) 1 ("a.narinfo" ∷ "nar/a" ∷ []) "nar/a" refl refl

commit_step : Step refs_of_key before both_put committed
unfolding find_pending commit_push contains filterb dedup
commit_step =
    Step.commit both_put 1 first_push ("a.narinfo" ∷ "nar/a" ∷ []) 3 committed.db 2 refl refl
      (λ k h. ground (arith, h)) (λ k h. refl) (inl refl)

run : Run refs_of_key before committed
run =
    Run.next
      (Run.next (Run.next (Run.next (Run.next Run.start create_step) look_up_step) upload_step)
        second_upload_step)
      commit_step

needs : Needs refs_of_key before (contains (keys committed.db.closures)) "nar/a"
unfolding contains
needs = Needs.sub (Needs.top {k = "a.narinfo"} refl) refl

published_complete_example :
    (is_live (lookup "nar/a" committed.db.objects) ≡ true) × (committed.bucket "nar/a" ≡ true)
published_complete_example = published_complete refs_of_key before run "nar/a" needs

live_nar : is_live (lookup "nar/a" committed.db.objects) ≡ true
unfolding lookup
live_nar = refl

live_stored_example : committed.bucket "nar/a" ≡ true
live_stored_example = live_stored refs_of_key before run "nar/a" live_nar

-- A request with "1h" while nothing runs.
abbrev parse : String → Option Duration
parse s = if s == "" then none else some (positive 3_600_000_000_000)

abbrev no_force : String
no_force = ""

abbrev hour_run : GcRun
hour_run = record { age = 3_600_000_000_000; pending_age = 3_600_000_000_000; forced = false }

request_ok : (cleanup_closures_older parse "1h" "" "" "" 5 none).2 ≡ some hour_run
unfolding cleanup_closures_older
request_ok = refl

abbrev hour_params : GcTaskParams
hour_params = record { older_than = "1h"; failed_uploads_older_than = "6h"; force = false }

start_exclusive_example :
    (is_started (start hour_params 5 none).1 ≡ not (is_running none))
    × (is_running none ≡ true → (start hour_params 5 none).0 ≡ none)
    × (is_running (start hour_params 5 none).0 ≡ true)
start_exclusive_example = start_exclusive hour_params 5 none

abbrev calls : Calls
calls = record {
  acquire_lock = acquired;
  cleanup_pending = λ _. done 2;
  delete_closures = λ _. failure "timeout";
  cleanup_orphans = λ _. ([], record { marked = 0; deleted = 0; failed = 0 }, none);
  to_int32 = λ n. n;
}

abbrev new_task : GcTaskStatus
new_task = record {
  state = running;
  phase = no_phase;
  params = hour_params;
  stats = GcTask.no_stats;
  error = "";
  started_at = 5;
  updated_at = 5;
  finished_at = none;
}

run_garbage_collection_ends_example :
    (is_running (some (run_garbage_collection calls hour_run (λ n. 10 + n) new_task)) ≡ false)
    × (is_none (run_garbage_collection calls hour_run (λ n. 10 + n) new_task).finished_at ≡ false)
run_garbage_collection_ends_example =
    run_garbage_collection_ends calls hour_run (λ n. 10 + n) new_task
