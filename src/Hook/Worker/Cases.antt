-- ===== src/Hook/Worker/Cases.antt =====
-- The branches of the worker's functions (hook/worker.go), for a fact about their results.
use niks.Common.{ℕ, suc, String, none, some, List, [], ◌∷◌, ◌++◌}
use niks.Common.{Bool, true, false, not, ◌&&◌, leb, string_eq, nat_eq}
use niks.Common.{◌≡◌, inl, inr, Bool-cases, Option-cases}
use niks.Common.{contains}
use niks.Common.{length, filterb}
use niks.Common.{nat_beq}
use niks.Hook.Queue.{Queue, fetch_batch, remove, retry}
use niks.Hook.Worker.{World, isolate, upload, step, settled, is_empty, isolation_probes}

module _ {W : Type 0} (world : World W) where
  open world use {push, cancelled, on_disk}

  pub isolate_cases :
      (P : Bool × Queue × W → Type 0) (p : String) (ps done : List String) (failures : ℕ)
      (q : Queue) (w : W)
      → (contains done p ≡ true → P (isolate world ps done failures q w))
      → P (false, q, w)
      → (contains done p ≡ false
          → (push w (p ∷ [])).0 ≡ none
          → P (isolate world ps done (suc failures) (retry (p ∷ []) q) (push w (p ∷ [])).1))
      → ((uploaded : List String)
          → contains done p ≡ false
          → (push w (p ∷ [])).0 ≡ some uploaded
          → P (
              isolate world ps
                (settled (p ∷ []) uploaded ++ done)
                failures
                (remove (settled (p ∷ []) uploaded) q)
                (push w (p ∷ [])).1))
      → P (isolate world (p ∷ ps) done failures q w)
  unfolding isolate
  isolate_cases P p ps done failures q w skip stop failed sent =
      elim (Bool-cases (contains done p)) [
        | inl d ↦ rw (d, isolate) (skip d)
        | inr d ↦ elim (Bool-cases (is_empty done && leb isolation_probes failures)) [
          | inl f ↦ rw (d, isolate) (rw (f, isolate) stop)
          | inr f ↦ elim (Option-cases (push w (p ∷ [])).0) [
            | inl r ↦ rw (d, isolate) (rw (f, isolate) (rw (r, isolate) (failed d r)))
            | inr (uploaded, r) ↦
                rw (d, isolate) (rw (f, isolate) (rw (r, isolate) (sent uploaded d r)))
          ]
        ]
      ]

  pub upload_cases :
      (P : Bool × Queue × W → Type 0) (batch : List String) (q : Queue) (w : W)
      → ((uploaded : List String)
          → (push w batch).0 ≡ some uploaded
          → P (true, remove (settled batch uploaded) q, (push w batch).1))
      → P (false, q, (push w batch).1)
      → P (false, retry batch q, (push w batch).1)
      → P (isolate world batch [] 0 q (push w batch).1)
      → P (upload world batch q w)
  unfolding upload
  upload_cases P batch q w sent stop one each = elim (Option-cases (push w batch).0) [
    | inr (uploaded, r) ↦ rw (r, upload) (sent uploaded r)
    | inl r ↦ elim (Bool-cases (cancelled (push w batch).1)) [
      | inl c ↦ rw (r, upload) (rw (c, upload) stop)
      | inr c ↦ elim (Bool-cases (nat_beq (length batch) 1)) [
        | inl l ↦ rw (r, upload) (rw (c, upload) (rw (l, upload) one))
        | inr l ↦ rw (r, upload) (rw (c, upload) (rw (l, upload) each))
      ]
    ]
  ]

  abbrev pub collected : ℕ → Queue → W → List String
  collected n q w = filterb (λ p. not (on_disk w p)) (fetch_batch n q)

  abbrev pub existing : ℕ → Queue → W → List String
  existing n q w = filterb (on_disk w) (fetch_batch n q)

  pub step_cases :
      (P : List String × Bool × Queue × W → Type 0) (n : ℕ) (q : Queue) (w : W)
      → (is_empty (fetch_batch n q) ≡ true → P ([], true, q, w))
      → (is_empty (fetch_batch n q) ≡ false
          → is_empty (existing n q w) ≡ true
          → P (fetch_batch n q, true, remove (collected n q w) q, w))
      → (is_empty (fetch_batch n q) ≡ false
          → is_empty (existing n q w) ≡ false
          → let (progress, q', w') = upload world (existing n q w) (remove (collected n q w) q) w in
            P (fetch_batch n q, progress, q', w'))
      → P (step world n q w)
  unfolding step
  step_cases P n q w none_left none_here some_here =
      elim (Bool-cases (is_empty (fetch_batch n q))) [
        | inl e ↦ rw (e, step) (none_left e)
        | inr e ↦ elim (Bool-cases (is_empty (existing n q w))) [
          | inl x ↦ rw (e, step) (rw (x, step) (none_here e x))
          | inr x ↦ rw (e, step) (rw (x, step) (some_here e x))
        ]
      ]
