-- ===== src/Hook/Worker.antt =====
-- The upload worker (hook/worker.go). The push, the clock's cancellation and the store are not
-- the worker's: they stand in `World`, over a state that each push may change. The statements of
-- the local database are taken to succeed.
pub mod Backoff
pub mod Cases
pub mod Progress
pub mod Keeps
use niks.Common.{
  ℕ, zero, suc, ◌+◌, ◌-◌, ◌*◌, ◌≤◌, ◌<◌, String, Option, none, some, List, [], ◌∷◌, ◌++◌, map,
}
use niks.Common.{
  Bool, true, false, not, ◌&&◌, ◌||◌, if◌then◌else◌, ltb, leb, ◌==◌, Eq, string_eq, nat_eq, ==_refl,
}
use niks.Common.{
  ◌≡◌, refl, sym, ap, subst, ◌∙◌, ◌≢◌, ◌↔◌, ◌⊎◌, inl, inr, arith, Bool-cases, Option-cases, is_none,
}
use niks.Common.{
  contains, dedup, subset, contains-append, contains-filterb, contains-dedup, subset→contains,
}
use niks.Common.{
  length, take, drop, filterb, anyb, length-append, length-filterb-le, filterb-append,
  take-append-drop,
}
use niks.Common.{nat_beq}
use niks.Hook.Queue.{Row, Queue, paths_of, fetch_batch, remove, retry}

pub record World (W : Type 0) : Type 0 where
  -- `PushFunc`: the paths that went up, or `none` for an error.
  pub push : W → List String → Option (List String) × W
  -- `ctx.Err() != nil`.
  pub cancelled : W → Bool
  -- `os.Stat` finds the path.
  pub on_disk : W → String → Bool

abbrev pub isolation_probes : ℕ
isolation_probes = 3

abbrev pub default_batch_size : ℕ
default_batch_size = 50

-- `NewWorker` replaces a batch size that is not positive.
unfoldable pub new_batch_size : ℕ → ℕ
new_batch_size zero = default_batch_size
new_batch_size (suc n) = suc n

abbrev pub is_empty {ℓ} : {A : Type ℓ} → List A → Bool
is_empty [] = true
is_empty (_ ∷ _) = false

-- What `settle` removes: the batch, or its closure if more than the batch went up.
unfoldable pub settled : List String → List String → List String
settled batch uploaded = if ltb (length batch) (length uploaded) then uploaded else batch

module _ {W : Type 0} (world : World W) where
  open world use {push, cancelled, on_disk}

  -- The loop of `upload` over a failed batch, with what was removed and the failures so far.
  unfoldable pub isolate : List String → List String → ℕ → Queue → W → Bool × Queue × W
  unfolding settled contains
  isolate [] done failures q w = (not (is_empty done), q, w)
  isolate (p ∷ ps) done failures q w =
      let (r, w') = push w (p ∷ []) in
      let skip = isolate ps done failures q w in
      let failed = isolate ps done (suc failures) (retry (p ∷ []) q) w' in
      elim (contains done p) [
        | true ↦ skip
        | false ↦ elim (is_empty done && leb isolation_probes failures) [
          | true ↦ (false, q, w)
          | false ↦ elim r [
            | none ↦ failed
            | some uploaded ↦
                let removed = settled (p ∷ []) uploaded in
                isolate ps (removed ++ done) failures (remove removed q) w'
          ]
        ]
      ]

  unfoldable pub upload : List String → Queue → W → Bool × Queue × W
  unfolding isolate
  upload batch q w =
      let (r, w') = push w batch in
      elim r [
        | some uploaded ↦ (true, remove (settled batch uploaded) q, w')
        | none ↦
            if cancelled w'
            then (false, q, w')
            else if nat_beq (length batch) 1
            then (false, retry batch q, w')
            else isolate batch [] 0 q w'
      ]

  -- One batch: the paths fetched, whether any was settled, and the new state.
  unfoldable pub step : ℕ → Queue → W → List String × Bool × Queue × W
  unfolding upload filterb
  step batch_size q w =
      let paths = fetch_batch batch_size q in
      let gced = filterb (λ p. not (on_disk w p)) paths in
      let existing = filterb (on_disk w) paths in
      let q' = remove gced q in
      let (progress, q'', w') = upload existing q' w in
      if is_empty paths
      then ([], true, q, w)
      else if is_empty existing
      then (paths, true, q', w)
      else (paths, progress, q'', w')

  -- The loop of `drain`, on fuel; `none` means that the fuel ran out.
  unfoldable pub drain_loop : ℕ → ℕ → ℕ → Queue → W → Option (Queue × W)
  unfolding step
  drain_loop zero batch_size stalled q w = none
  drain_loop (suc fuel) batch_size stalled q w =
      let (batch, progress, q', w') = step batch_size q w in
      let rest = drain_loop fuel batch_size (if progress then 0 else suc stalled) q' w' in
      if ltb stalled isolation_probes && not (cancelled w)
      then (if is_empty batch then some (q', w') else rest)
      else some (q, w)

  -- A round without progress uses up one of three probes; a round with progress gives the probes
  -- back, and shortens the queue if the pushes report some path that they were given.
  unfoldable pub drain : ℕ → Queue → W → Option (Queue × W)
  unfolding drain_loop
  drain batch_size q w = drain_loop (4 * length q + 4) batch_size 0 q w
