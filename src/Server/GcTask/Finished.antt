-- ===== src/Server/GcTask/Finished.antt =====
-- How a collection ends (server/closure.go: runGarbageCollection).
use niks.Common.{ℕ, String, some, false, ◌≡◌, ◌⊎◌, inl, inr, refl, is_none, Option-cases}
use niks.Server.GcTask.{
  GcTaskStatus, Outcome, done, failure, LockOutcome, acquired, already_running, lock_failure,
  GcStats, Calls, GcRun, orphan_phase, closure_phase, pending_phase, run_garbage_collection,
  grace_period, no_stats, update_stats, set_phase, cleanup_old_closures, cleanup_pending_uploads,
}
use niks.Server.GcTask.Started.{is_running}

Outcome-cases :
    {A : Type 0} (o : Outcome A) → ((a : A) × (o ≡ done a)) ⊎ ((e : String) × (o ≡ failure e))
Outcome-cases (done a) = inl (a, refl)
Outcome-cases (failure e) = inr (e, refl)

LockOutcome-cases :
    (o : LockOutcome)
    → (o ≡ acquired) ⊎ (o ≡ already_running) ⊎ ((e : String) × (o ≡ lock_failure e))
LockOutcome-cases acquired = inl refl
LockOutcome-cases already_running = inr (inl refl)
LockOutcome-cases (lock_failure e) = inr (inr (e, refl))

abbrev IsOver : GcTaskStatus → Type 0
IsOver t = (is_running (some t) ≡ false) × (is_none t.finished_at ≡ false)

module _ (calls : Calls) (run : GcRun) (clock : ℕ → ℕ) where
  orphan_phase-IsOver :
      (stats : GcStats) (t : GcTaskStatus) → IsOver (orphan_phase calls run stats clock t)
  unfolding orphan_phase
  orphan_phase-IsOver stats t =
      elim (Option-cases (calls.cleanup_orphans (grace_period calls run)).2) [
        | inr (e, o) ↦ rw (o, orphan_phase) (refl, refl)
        | inl o ↦ rw (o, orphan_phase) (refl, refl)
      ]

  closure_phase-IsOver :
      (stats : GcStats) (t : GcTaskStatus) → IsOver (closure_phase calls run stats clock t)
  unfolding closure_phase
  closure_phase-IsOver stats t = elim (Outcome-cases (calls.delete_closures run.age)) [
    | inr (e, c) ↦ rw (c, closure_phase) (refl, refl)
    | inl (n, c) ↦
        let stats' : GcStats = record stats { old_closures_deleted = n } in
        rw (c, closure_phase)
          (orphan_phase-IsOver stats'
            (update_stats stats' (clock 3) (set_phase cleanup_old_closures (clock 2) t)))
  ]

  pending_phase-IsOver : (t : GcTaskStatus) → IsOver (pending_phase calls run clock t)
  unfolding pending_phase
  pending_phase-IsOver t = elim (Outcome-cases (calls.cleanup_pending run.pending_age)) [
    | inr (e, u) ↦ rw (u, pending_phase) (refl, refl)
    | inl (n, u) ↦
        let stats : GcStats = record no_stats { failed_uploads_deleted = n } in
        rw (u, pending_phase)
          (closure_phase-IsOver stats
            (update_stats stats (clock 1) (set_phase cleanup_pending_uploads (clock 0) t)))
  ]

-- Whatever its calls answer, a run leaves a task that no longer runs and has its end noted, so a
-- later request can start the next one.
pub run_garbage_collection_ends :
    (calls : Calls) (run : GcRun) (clock : ℕ → ℕ) (t : GcTaskStatus)
    → (is_running (some (run_garbage_collection calls run clock t)) ≡ false)
      × (is_none (run_garbage_collection calls run clock t).finished_at ≡ false)
unfolding run_garbage_collection
run_garbage_collection_ends calls run clock t = elim (LockOutcome-cases calls.acquire_lock) [
  | inl l ↦ rw (l, run_garbage_collection) (pending_phase-IsOver calls run clock t)
  | inr (inl l) ↦ rw (l, run_garbage_collection) (refl, refl)
  | inr (inr (e, l)) ↦ rw (l, run_garbage_collection) (refl, refl)
]
