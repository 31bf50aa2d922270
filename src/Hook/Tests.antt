-- ===== src/Hook/Tests.antt =====
-- The queue and the worker on small inputs (hook/queue.go, hook/worker.go).
use niks.Common.{ℕ, suc, String, Option, none, some, List, [], ◌∷◌, Bool, true, false}
use niks.Common.{◌≡◌, subst, ap, refl, arith, contains, string_eq, ==_refl}
use niks.Hook.Queue.{fetch_batch, Queue, paths_of, enqueue, retry, remove}
use niks.Hook.Queue.Fifo
use niks.Hook.Queue.Refinement.{paths-enqueue, paths-retry}
use niks.Hook.Worker.{World, upload, drain, settled}
use niks.Hook.Worker.Progress.{ReportsSome, drain_ends}
use niks.Hook.Worker.Keeps.{IsHeldBack, drain_keeps, upload_leaves}

abbrev queue : Queue
queue = record { rowid = 3; store_path = "b" } ∷ record { rowid = 7; store_path = "a" } ∷ []

paths-enqueue_example :
    paths_of (enqueue ("a" ∷ "c" ∷ []) queue) ≡ Fifo.add_all ("a" ∷ "c" ∷ []) (paths_of queue)
paths-enqueue_example = paths-enqueue ("a" ∷ "c" ∷ []) queue

paths-retry_example :
    paths_of (retry ("b" ∷ []) queue) ≡ Fifo.all_to_back ("b" ∷ []) (paths_of queue)
paths-retry_example = paths-retry ("b" ∷ []) queue

-- A server that takes up what it is given, and one that is down.
abbrev good : World ℕ
good = record { push = λ w ps. (some ps, suc w); cancelled = λ _. false; on_disk = λ _ _. true }

abbrev down : World ℕ
down = record { push = λ w ps. (none, suc w); cancelled = λ _. false; on_disk = λ _ _. true }

abbrev other_paths : List String
other_paths = "c" ∷ "d" ∷ []

-- A server that reports other paths than it was given.
abbrev odd : World ℕ
odd = record {
  push = λ w ps. (some other_paths, suc w);
  cancelled = λ _. false;
  on_disk = λ _ _. true;
}

good-ReportsSome : ReportsSome good
good-ReportsSome w [] uploaded e h = cc
good-ReportsSome w (p ∷ ps) uploaded e h =
    unfold contains in (p, rw (==_refl p), given p ps uploaded e)
  where
    given :
        (p : String) (ps uploaded : List String)
        → some (p ∷ ps) ≡ some uploaded
        → contains uploaded p ≡ true
    given p ps uploaded e =
        unfold contains in
        subst (λ (xs : List String). contains xs p ≡ true) (some_inj e) (rw (==_refl p))
      where
        some_inj : some (p ∷ ps) ≡ some uploaded → (p ∷ ps) ≡ uploaded
        some_inj e = cc

drain_ends_example : (r : Queue × ℕ) × (drain good 1 queue 0 ≡ some r)
drain_ends_example = drain_ends good good-ReportsSome 1 queue 0

-- Three rounds, with the batch and each of its two paths tried in each.
abbrev after_outage : Queue
after_outage =
    record { rowid = 12; store_path = "b" } ∷ record { rowid = 13; store_path = "a" } ∷ []

drain-down : drain down 2 queue 0 ≡ some (after_outage, 9)
unfolding drain fetch_batch retry remove
drain-down = refl

-- A server that refuses every batch with "a" in it.
abbrev refused : Bool → List String → Option (List String)
refused true ps = none
refused false ps = some ps

abbrev picky : World ℕ
picky = record {
  push = λ w ps. (refused (contains ps "a") ps, suc w);
  cancelled = λ _. false;
  on_disk = λ _ _. true;
}

refused_not :
    (here : Bool) (ps uploaded : List String)
    → refused here ps ≡ some uploaded
    → (here ≡ false) × (ps ≡ uploaded)
refused_not true ps uploaded e = cc
refused_not false ps uploaded e = (refl, cc)

picky-IsHeldBack : IsHeldBack picky "a"
picky-IsHeldBack = record {
  not_given = λ w ps uploaded e. (refused_not (contains ps "a") ps uploaded e).0;
  not_reported = λ w ps uploaded e.
      let (out, same) = refused_not (contains ps "a") ps uploaded e in
      subst (λ (xs : List String). contains xs "a" ≡ false) same out;
  on_disk = λ w. refl;
}

picky-ReportsSome : ReportsSome picky
picky-ReportsSome w ps uploaded e h =
    let same : ps ≡ uploaded = (refused_not (contains ps "a") ps uploaded e).1 in
    good-ReportsSome w ps uploaded (ap some same) h

queued : contains (paths_of queue) "a" ≡ true
unfolding contains
queued = refl

-- "b" is uploaded, and "a" is left.
abbrev after_picky : Queue
after_picky = record { rowid = 11; store_path = "a" } ∷ []

drain-picky : drain picky 2 queue 0 ≡ some (after_picky, 6)
unfolding drain fetch_batch retry remove settled contains
drain-picky = refl

drain_keeps_example :
    (r : Queue × ℕ) × (drain picky 2 queue 0 ≡ some r) × (contains (paths_of r.0) "a" ≡ true)
drain_keeps_example = drain_keeps picky "a" picky-IsHeldBack 2 queue 0 picky-ReportsSome queued

not_reported : contains other_paths "a" ≡ false
unfolding contains
not_reported = refl

upload_leaves_example :
    ((upload odd ("a" ∷ []) queue 0).0 ≡ true)
    × (contains (paths_of (upload odd ("a" ∷ []) queue 0).1) "a" ≡ true)
upload_leaves_example =
    upload_leaves odd ("a" ∷ []) other_paths queue 0 "a" refl (omega arith) not_reported queued
