-- ===== src/Hook/Worker/Keeps.antt =====
-- A path leaves the queue only if a push took it up or it is gone from the store
-- (hook/worker.go: settle, upload, step, drain).
use niks.Common.{ℕ, zero, suc, ◌+◌, ◌*◌, ◌<◌, String, some, List, [], ◌∷◌}
use niks.Common.{Bool, true, false, not, ◌&&◌, if◌then◌else◌, ltb, string_eq, nat_eq}
use niks.Common.{◌≡◌, inl, inr, arith, Bool-cases}
use niks.Common.{contains, contains-filterb}
use niks.Common.{length}
use niks.Common.{lt→ltb}
use niks.Hook.Queue.{Queue, paths_of, fetch_batch, remove, retry}
use niks.Hook.Queue.Members.{contains-remove, contains-retry}
use niks.Hook.Worker.{
  World, isolate, upload, step, settled, drain_loop, drain, is_empty, isolation_probes,
}
use niks.Hook.Worker.Progress.{ReportsSome, drain_ends}
use niks.Hook.Worker.Cases.{isolate_cases, upload_cases, step_cases, collected, existing}

module _ {W : Type 0} (world : World W) where
  -- A path of the batch stays queued if the push succeeds, reports more paths than it was given,
  -- and does not report that path.
  pub upload_leaves :
      (batch uploaded : List String) (q : Queue) (w : W) (p : String)
      → (world.push w batch).0 ≡ some uploaded
      → length batch < length uploaded
      → contains uploaded p ≡ false
      → contains (paths_of q) p ≡ true
      → ((upload world batch q w).0 ≡ true)
        × (contains (paths_of (upload world batch q w).1) p ≡ true)
  unfolding upload settled
  upload_leaves batch uploaded q w p e l n h = (
    rw (e, upload),
    rw (e, upload)
        (rw (lt→ltb (length batch) (length uploaded) l) (rw (contains-remove uploaded q p, n, h))),
  )

-- No push that succeeds was given the path or reports it, and the store has it.
pub record IsHeldBack {W : Type 0} (world : World W) (p : String) : Type 0 where
  pub not_given :
      (w : W) (ps uploaded : List String)
      → (world.push w ps).0 ≡ some uploaded
      → contains ps p ≡ false
  pub not_reported :
      (w : W) (ps uploaded : List String)
      → (world.push w ps).0 ≡ some uploaded
      → contains uploaded p ≡ false
  pub on_disk : (w : W) → world.on_disk w p ≡ true

module _ {W : Type 0} (world : World W) (p : String) (held : IsHeldBack world p) where
  settled_without :
      (w : W) (ps uploaded : List String)
      → (world.push w ps).0 ≡ some uploaded
      → contains (settled ps uploaded) p ≡ false
  unfolding settled
  settled_without w ps uploaded e =
      ground (arith, held.not_given w ps uploaded e, held.not_reported w ps uploaded e)

  abbrev Keeps : Queue → Bool × Queue × W → Type 0
  Keeps q r = contains (paths_of q) p ≡ true → contains (paths_of r.1) p ≡ true

  remove_keeps :
      (gone : List String) (q : Queue)
      → contains gone p ≡ false
      → contains (paths_of q) p ≡ true
      → contains (paths_of (remove gone q)) p ≡ true
  remove_keeps gone q g h = rw (contains-remove gone q p, g, h)

  retry_keeps :
      (ps : List String) (q : Queue)
      → contains (paths_of q) p ≡ true
      → contains (paths_of (retry ps q)) p ≡ true
  retry_keeps ps q h = rw (contains-retry ps q p) h

  isolate-Keeps :
      (ps done : List String) (failures : ℕ) (q : Queue) (w : W)
      → Keeps q (isolate world ps done failures q w)
  isolate-Keeps [] done failures q w = unfold isolate in (λ h. h)
  isolate-Keeps (j ∷ ps) done failures q w =
      isolate_cases world (Keeps q) j ps done failures q w (λ d. isolate-Keeps ps done failures q w)
        (λ h. h) (λ d r h. isolate-Keeps ps done (suc failures) _ _ (retry_keeps (j ∷ []) q h))
        (λ uploaded d r h.
          isolate-Keeps ps _ failures _ _
            (remove_keeps (settled (j ∷ []) uploaded) q (settled_without w (j ∷ []) uploaded r) h))

  upload-Keeps : (batch : List String) (q : Queue) (w : W) → Keeps q (upload world batch q w)
  upload-Keeps batch q w =
      upload_cases world (Keeps q) batch q w
        (λ uploaded r h.
          remove_keeps (settled batch uploaded) q (settled_without w batch uploaded r) h)
        (λ h. h) (λ h. retry_keeps batch q h) (isolate-Keeps batch [] 0 q (world.push w batch).1)

  collected_without : (n : ℕ) (q : Queue) (w : W) → contains (collected world n q w) p ≡ false
  collected_without n q w = ground (
    arith,
    contains-filterb (λ (j : String). not (world.on_disk w j)) (fetch_batch n q) p,
    held.on_disk w,
  )

  step-Keeps :
      (n : ℕ) (q : Queue) (w : W)
      → contains (paths_of q) p ≡ true
      → contains (paths_of (step world n q w).2) p ≡ true
  step-Keeps n q w =
      step_cases world (λ r. contains (paths_of q) p ≡ true → contains (paths_of r.2) p ≡ true) n q
        w (λ e h. h) (λ e x h. remove_keeps (collected world n q w) q (collected_without n q w) h)
        (λ e x h.
          upload-Keeps (existing world n q w) (remove (collected world n q w) q) w
            (remove_keeps (collected world n q w) q (collected_without n q w) h))

  -- However many rounds are allowed.
  drain_loop-Keeps :
      (fuel n stalled : ℕ) (q : Queue) (w : W) (r : Queue × W)
      → drain_loop world fuel n stalled q w ≡ some r
      → contains (paths_of q) p ≡ true
      → contains (paths_of r.0) p ≡ true
  unfolding drain_loop
  drain_loop-Keeps zero n stalled q w r e h = cc
  drain_loop-Keeps (suc fuel) n stalled q w r e h =
      let kept = step-Keeps n q w h in
      elim (Bool-cases (ltb stalled isolation_probes && not (world.cancelled w))) [
        | inr stop ↦ ground (arith, stop, e, h)
        | inl go ↦ elim (Bool-cases (is_empty (step world n q w).0)) [
          | inl last ↦ ground (arith, go, last, e, kept)
          | inr more ↦
              drain_loop-Keeps fuel n (if (step world n q w).1 then 0 else suc stalled)
                (step world n q w).2 (step world n q w).3 r (ground (arith, go, more, e)) kept
        ]
      ]

  -- If a push that succeeds reports some path that it was given, then the worker's rounds end, and a
  -- queued path that is on disk and that no successful push was given or reports is still queued.
  pub drain_keeps :
      (n : ℕ) (q : Queue) (w : W)
      → ReportsSome world
      → contains (paths_of q) p ≡ true
      → (r : Queue × W) × (drain world n q w ≡ some r) × (contains (paths_of r.0) p ≡ true)
  unfolding drain
  drain_keeps n q w reports h =
      let (r, e) = drain_ends world reports n q w in
      (r, e, drain_loop-Keeps (4 * length q + 4) n 0 q w r e h)
