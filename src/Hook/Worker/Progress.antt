-- ===== src/Hook/Worker/Progress.antt =====
-- The worker's rounds make progress (hook/worker.go: upload, step, drain).
use niks.Common.{ℕ, zero, suc, ◌+◌, ◌-◌, ◌*◌, ◌≤◌, ◌<◌, String, some, List, [], ◌∷◌, ◌++◌}
use niks.Common.{Bool, true, false, not, ◌&&◌, ltb, string_eq, nat_eq, ==_refl}
use niks.Common.{◌≡◌, refl, subst, ◌⊎◌, inl, inr, arith, Bool-cases}
use niks.Common.{contains, contains-append, contains-filterb}
use niks.Common.{length, take}
use niks.Hook.Queue.{Queue, paths_of, fetch_batch, remove, retry}
use niks.Hook.Queue.Members.{
  length-remove_lt, length-remove-le, contains-remove, length-retry-le, contains-retry,
}
use niks.Hook.Worker.{
  World, isolate, upload, step, settled, is_empty, isolation_probes, drain_loop, drain,
}
use niks.Hook.Worker.Cases.{isolate_cases, upload_cases, step_cases, collected, existing}

-- A push that succeeds reports some path that it was given. (`PushPaths` leaves out those that the
-- cache has already, unless it has them all.)
abbrev pub ReportsSome : {W : Type 0} → World W → Type 0
ReportsSome {W} world =
    (w : W) (ps uploaded : List String)
    → (world.push w ps).0 ≡ some uploaded
    → is_empty ps ≡ false
    → (p : String) × (contains ps p ≡ true) × (contains uploaded p ≡ true)

contains-take :
    (n : ℕ) (ks : List String) (j : String) → contains (take n ks) j ≡ true → contains ks j ≡ true
unfolding contains
contains-take zero ks j h = cc
contains-take (suc n) [] j h = cc
contains-take (suc n) (k ∷ ks) j h = ground (arith, contains-take n ks j)

contains_head : (p : String) (ps : List String) → contains (p ∷ ps) p ≡ true
unfolding contains
contains_head p ps = rw (==_refl p)

contains_later :
    (p j : String) (ps : List String) → contains ps j ≡ true → contains (p ∷ ps) j ≡ true
unfolding contains
contains_later p j ps h = ground (arith, h)

only_member : (j p : String) → contains (p ∷ []) j ≡ true → j ≡ p
unfolding contains
only_member j p m = ground (arith, m, string_eq.test_iff p j)

-- A list that is not empty has a member.
some_member : (ps : List String) → is_empty ps ≡ false → (p : String) × (contains ps p ≡ true)
some_member [] h = cc
some_member (p ∷ ps) h = (p, contains_head p ps)

no_member : (ps : List String) (p : String) → is_empty ps ≡ true → contains ps p ≡ false
unfolding contains
no_member [] p h = refl
no_member (x ∷ ps) p h = cc

module _ {W : Type 0} (world : World W) (reports : ReportsSome world) where
  open world use {push, cancelled, on_disk}

  settled-some :
      (w : W) (ps uploaded : List String)
      → (push w ps).0 ≡ some uploaded
      → is_empty ps ≡ false
      → (p : String) × (contains ps p ≡ true) × (contains (settled ps uploaded) p ≡ true)
  unfolding settled
  settled-some w ps uploaded e n =
      let (p, m, u) = reports w ps uploaded e n in (p, m, ground (arith, m, u))

  settled_one :
      (w : W) (p : String) (uploaded : List String)
      → (push w (p ∷ [])).0 ≡ some uploaded
      → contains (settled (p ∷ []) uploaded) p ≡ true
  settled_one w p uploaded e =
      let (j, m, u) = settled-some w (p ∷ []) uploaded e refl in
      let same : j ≡ p = only_member j p m in
      subst (λ i. contains (settled (p ∷ []) uploaded) i ≡ true) same u

  -- The queue got no longer, and shorter if the round counts as progress.
  abbrev Shorter : Queue → Bool × Queue × W → Type 0
  Shorter q r = (length r.1 ≤ length q) × (r.0 ≡ true → length r.1 < length q)

  abbrev ShorterOrDone : List String → Queue → Bool × Queue × W → Type 0
  ShorterOrDone done q r =
      (length r.1 ≤ length q) × (r.0 ≡ true → (is_empty done ≡ false) ⊎ (length r.1 < length q))

  abbrev Queued : List String → List String → Queue → Type 0
  Queued ps done q =
      (p : String) → contains ps p ≡ true → contains done p ≡ false → contains (paths_of q) p ≡ true

  isolate-ShorterOrDone :
      (ps done : List String) (failures : ℕ) (q : Queue) (w : W)
      → Queued ps done q
      → ShorterOrDone done q (isolate world ps done failures q w)
  isolate-ShorterOrDone [] done failures q w h =
      unfold isolate in (omega arith, λ e. ground (arith, e))
  isolate-ShorterOrDone (p ∷ ps) done failures q w h =
      isolate_cases world (ShorterOrDone done q) p ps done failures q w
        (λ d. isolate-ShorterOrDone ps done failures q w (λ j m n. h j (contains_later p j ps m) n))
        (omega arith, λ e. cc)
        (λ d r.
          let ih =
            isolate-ShorterOrDone ps done (suc failures) (retry (p ∷ []) q) (push w (p ∷ [])).1
              (λ j m n. rw (contains-retry (p ∷ []) q j) (h j (contains_later p j ps m) n)) in
          let l = length-retry-le (p ∷ []) q in (omega arith, λ e. ground (arith, ih.1 e, l)))
        (λ uploaded d r.
          let gone = settled (p ∷ []) uploaded in
          let ih =
            isolate-ShorterOrDone ps (gone ++ done) failures (remove gone q) (push w (p ∷ [])).1
              (λ j m n.
                rw (contains-remove gone q j) (
                  ground (arith, n, contains-append gone done j, h j (contains_later p j ps m)))) in
          let lt =
            length-remove_lt gone q p (settled_one w p uploaded r) (h p (contains_head p ps) d) in
          (omega (arith, ih.0), λ e. inr (omega (arith, ih.0, lt))))

  upload-Shorter :
      (batch : List String) (q : Queue) (w : W)
      → is_empty batch ≡ false
      → ((p : String) → contains batch p ≡ true → contains (paths_of q) p ≡ true)
      → Shorter q (upload world batch q w)
  upload-Shorter batch q w some_path h =
      upload_cases world (Shorter q) batch q w
        (λ uploaded r.
          let (p, m, u) = settled-some w batch uploaded r some_path in
          let lt = length-remove_lt (settled batch uploaded) q p u (h p m) in
          (omega (arith, lt), λ e. lt))
        (omega arith, λ e. cc) (length-retry-le batch q, λ e. cc)
        (let each = isolate-ShorterOrDone batch [] 0 q (push w batch).1 (λ p m n. h p m) in
          (each.0, λ e. ground (arith, each.1 e)))

  -- A round that fetched something and settled some of it shortens the queue; no round makes it
  -- longer.
  abbrev StepShorter : Queue → List String × Bool × Queue × W → Type 0
  StepShorter q r =
      (length r.2 ≤ length q) × (is_empty r.0 ≡ false → r.1 ≡ true → length r.2 < length q)

  contains-existing :
      (n : ℕ) (q : Queue) (w : W) (p : String)
      → contains (existing world n q w) p ≡ (on_disk w p && contains (fetch_batch n q) p)
  contains-existing n q w p = contains-filterb (on_disk w) (fetch_batch n q) p

  contains-collected :
      (n : ℕ) (q : Queue) (w : W) (p : String)
      → contains (collected world n q w) p ≡ (not (on_disk w p) && contains (fetch_batch n q) p)
  contains-collected n q w p = contains-filterb (λ j. not (on_disk w j)) (fetch_batch n q) p

  fetched_queued :
      (n : ℕ) (q : Queue) (p : String)
      → contains (fetch_batch n q) p ≡ true
      → contains (paths_of q) p ≡ true
  unfolding fetch_batch
  fetched_queued n q p m = contains-take n (paths_of q) p m

  pub step-StepShorter : (n : ℕ) (q : Queue) (w : W) → StepShorter q (step world n q w)
  step-StepShorter n q w =
      step_cases world (StepShorter q) n q w (λ e. (omega arith, λ x. cc))
        (λ e x.
          let (p, m) = some_member (fetch_batch n q) e in
          let here : contains (collected world n q w) p ≡ true = ground (
            arith,
            m,
            contains-collected n q w p,
            contains-existing n q w p,
            no_member (existing world n q w) p x,
          ) in
          let lt : length (remove (collected world n q w) q) < length q =
            length-remove_lt (collected world n q w) q p here (fetched_queued n q p m) in
          (omega (arith, lt), λ y z. lt))
        (λ e x.
          let rest : Queue = remove (collected world n q w) q in
          let le : length rest ≤ length q = length-remove-le (collected world n q w) q in
          let up : Shorter rest (upload world (existing world n q w) rest w) =
            upload-Shorter (existing world n q w) rest w x (λ p m.
              rw (contains-remove (collected world n q w) q p) (
                ground (
                  arith,
                  m,
                  contains-existing n q w p,
                  contains-collected n q w p,
                  fetched_queued n q p,
                ))) in
          (omega (arith, up.0, le), λ y z. omega (arith, up.1 z, le)))

  -- With fuel for the rounds that may come, the loop ends.
  drain_loop_ends :
      (fuel n stalled : ℕ) (q : Queue) (w : W)
      → stalled ≤ 3
      → 4 * length q + (3 - stalled) < fuel
      → (r : Queue × W) × (drain_loop world fuel n stalled q w ≡ some r)
  unfolding drain_loop
  drain_loop_ends zero n stalled q w s h = absurd (omega arith)
  drain_loop_ends (suc fuel) n stalled q w s h =
      elim (Bool-cases (ltb stalled isolation_probes && not (cancelled w))) [
        | inr stop ↦ ((q, w), rw stop)
        | inl go ↦ elim (Bool-cases (is_empty (step world n q w).0)) [
          | inl last ↦ (((step world n q w).2, (step world n q w).3), rw go (rw last))
          | inr more ↦
              let shorter = step-StepShorter n q w in
              elim (Bool-cases (step world n q w).1) [
                | inl progress ↦
                    let (r, e) =
                      drain_loop_ends fuel n 0 (step world n q w).2 (step world n q w).3
                        (omega arith) (omega (arith, shorter.1 more progress)) in
                    (r, rw go (rw more (rw progress e)))
                | inr none_settled ↦
                    let lt : stalled < 3 = ground (arith, go) in
                    let (r, e) =
                      drain_loop_ends fuel n (suc stalled) (step world n q w).2 (step world n q w).3
                        (omega (arith, lt)) (omega (arith, shorter.0, lt)) in
                    (r, rw go (rw more (rw none_settled e)))
              ]
        ]
      ]

  -- The last pass over the queue ends, whatever the pushes answer, if a push of some paths that
  -- succeeds reports at least one of them.
  pub drain_ends : (n : ℕ) (q : Queue) (w : W) → (r : Queue × W) × (drain world n q w ≡ some r)
  unfolding drain
  drain_ends n q w = drain_loop_ends (4 * length q + 4) n 0 q w (omega arith) (omega arith)
