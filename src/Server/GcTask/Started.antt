-- ===== src/Server/GcTask/Started.antt =====
-- Which requests start a collection (server/gc_tasks.go: Start, server/closure.go).
use niks.Common.{
  ℕ, String, Option, none, some, Bool, true, false, not, ◌≡◌, ◌⊎◌, refl, ap, sym, ◌∙◌, arith, inl,
  inr, Option-cases, ◌==◌, string_eq, Bool-cases,
}
use niks.Server.GcTask.{
  GcTaskParams, GcTaskStatus, running, succeeded, failed, StartResult, active, conflict, is_new,
  start, Duration, positive, negative, cleanup_closures_older, GcRun, first_of,
}

abbrev pub is_running : Option GcTaskStatus → Bool
is_running t = elim t [
  | none ↦ false
  | some s ↦ elim s.state [ running ↦ true | succeeded ↦ false | failed ↦ false ]
]

abbrev pub is_started : StartResult → Bool
is_started (is_new _) = true
is_started (active _) = false
is_started (conflict _) = false

-- A new task starts exactly if none is running, and a running task stays the store's task; in
-- either case the store has a running task afterwards.
pub start_exclusive :
    (params : GcTaskParams) (now : ℕ) (task : Option GcTaskStatus)
    → (is_started (start params now task).1 ≡ not (is_running task))
      × (is_running task ≡ true → (start params now task).0 ≡ task)
      × (is_running (start params now task).0 ≡ true)
unfolding start
start_exclusive params now none = (refl, λ h. cc, refl)
start_exclusive params now (some t) = ground arith

StartResult-cases :
    (r : StartResult)
    → ((t : GcTaskStatus) × (r ≡ is_new t))
      ⊎ ((is_started r ≡ false) × ((t : GcTaskStatus) × ((r ≡ active t) ⊎ (r ≡ conflict t))))
StartResult-cases (is_new t) = inl (t, refl)
StartResult-cases (active t) = inr (refl, (t, inl refl))
StartResult-cases (conflict t) = inr (refl, (t, inr refl))

Duration-cases : (d : Duration) → ((n : ℕ) × (d ≡ positive n)) ⊎ ((n : ℕ) × (d ≡ negative n))
Duration-cases (positive n) = inl (n, refl)
Duration-cases (negative n) = inr (n, refl)

-- A request starts a run only if no collection runs on this server, both ages parse and neither is
-- negative; the run has these ages, and the store has a running task then.
pub cleanup_closures_older_run :
    (parse : String → Option Duration) (older failed_uploads pending force : String) (now : ℕ)
    (task : Option GcTaskStatus) (run : GcRun)
    → (cleanup_closures_older parse older failed_uploads pending force now task).2 ≡ some run
    → (is_running task ≡ false)
      × (is_running (cleanup_closures_older parse older failed_uploads pending force now task).0
          ≡ true)
      × (parse older ≡ some (positive run.age))
      × (parse (first_of (first_of failed_uploads pending) "6h") ≡ some (positive run.pending_age))
      × (run.forced ≡ (force == "true"))
unfolding cleanup_closures_older
cleanup_closures_older_run parse older failed_uploads pending force now task run e =
    let params : GcTaskParams = record {
      older_than = older;
      failed_uploads_older_than = first_of (first_of failed_uploads pending) "6h";
      force = force == "true";
    } in
    let (fresh, _, on) = start_exclusive params now task in
    elim (Bool-cases (older == "")) [
      | inl a ↦ absurd (ground (arith, e, a))
      | inr a ↦ elim (Option-cases (parse older)) [
        | inl b ↦ absurd (ground (arith, e, a, b))
        | inr (d, b) ↦
            elim (Option-cases (parse (first_of (first_of failed_uploads pending) "6h"))) [
              | inl c ↦ absurd (ground (arith, e, a, b, c))
              | inr (f, c) ↦ elim (Duration-cases d) [
                | inr (n, x) ↦ absurd (ground (arith, e, a, b, c, x))
                | inl (age, x) ↦ elim (Duration-cases f) [
                  | inr (n, y) ↦ absurd (ground (arith, e, a, b, c, x, y))
                  | inl (pending_age, y) ↦ elim (StartResult-cases (start params now task).1) [
                    | inr (old, (t, inl z)) ↦ absurd (ground (arith, e, a, b, c, x, y, z))
                    | inr (old, (t, inr z)) ↦ absurd (ground (arith, e, a, b, c, x, y, z))
                    | inl (t, z) ↦
                        let fresh_now : is_running task ≡ false = ground (arith, fresh, z) in
                        let same : run ≡ record {
                          age = age;
                          pending_age = pending_age;
                          forced = force == "true";
                        } =
                          ground (arith, e, a, b, c, x, y, z) in
                        (
                          fresh_now,
                          ground (arith, on, a, b, c, x, y, z),
                          b ∙ ap some (x ∙ ap (λ (r : GcRun). positive r.age) (sym same)),
                          c ∙ ap some (y ∙ ap (λ (r : GcRun). positive r.pending_age) (sym same)),
                          ap (λ (r : GcRun). r.forced) same,
                        )
                  ]
                ]
              ]
            ]
      ]
    ]
