-- ===== src/Server/System/Safe.antt =====
-- The theorem of the races: whatever pushes and garbage collections do, in any order of their
-- transactions, what a closure needs stays in the database and in the bucket.
use niks.Common.{String, List}
use niks.Common.{Bool, true, string_eq, nat_eq}
use niks.Common.{◌≡◌}
use niks.Common.{contains}
use niks.Common.Table.{keys, lookup}
use niks.Server.Db.{is_live}
use niks.Server.Push.{}
use niks.Server.Push.Rows.{}
use niks.Server.Push.Commit.{commit-Committed}
use niks.Server.Gc.{delete_objects}
use niks.Server.Gc.Rows.{}
use niks.Server.System.Ids.{}
use niks.Server.System.{Sys, Step, Run, Needs}
use niks.Server.System.Invariant.{Inv, initial-Inv}
use niks.Server.System.Pushes.{create-Inv, look_up-Inv, upload-Inv}
use niks.Server.System.Commits.{register-Inv, commit-Inv, drop_push-Inv}
use niks.Server.System.Sweeping.{
  clean_up-Inv, drop_closures-Inv, mark-Inv, lock-Inv, recheck-Inv, remove-Inv, abort-Inv,
  delete-Inv,
}

module _ (refs_of_key : String → List String) (before : String → String → Bool) where
  Step-Inv :
      {s t : Sys}
      → Step refs_of_key before s t
      → Inv refs_of_key before s
      → Inv refs_of_key before t
  Step-Inv (Step.create s key roots m now d) v = create-Inv refs_of_key before s key roots m now d v
  Step-Inv (Step.look_up s id c stat verify uploads e n free r) v =
      look_up-Inv refs_of_key before s id c stat verify uploads e n free r v
  Step-Inv (Step.upload s id ks k e m) v = upload-Inv refs_of_key before s id ks k e m v
  Step-Inv (Step.register s k size b free) v = register-Inv refs_of_key before s k size b free v
  Step-Inv (Step.commit s id c ks now db' n e o sent free r) v =
      commit-Inv refs_of_key before s id c ks db' e o sent free
        (commit-Committed id now s.db db' n c e r) v
  Step-Inv (Step.drop_push s id) v = drop_push-Inv refs_of_key before s id v
  Step-Inv (Step.clean_up s cutoff keep) v = clean_up-Inv refs_of_key before s cutoff keep v
  Step-Inv (Step.drop_closures s ks) v = drop_closures-Inv refs_of_key before s ks v
  Step-Inv (Step.mark s now) v = mark-Inv refs_of_key before s now v
  Step-Inv (Step.lock s held snapshot now grace after limit e) v =
      lock-Inv refs_of_key before s held snapshot now grace after limit e v
  Step-Inv (Step.recheck s e) v = recheck-Inv refs_of_key before s v
  Step-Inv (Step.remove s k h) v = remove-Inv refs_of_key before s k h v
  Step-Inv (Step.finish s ks sub) v =
      abort-Inv refs_of_key before (record s { db = delete_objects ks s.db })
        (delete-Inv refs_of_key before s ks sub v)
  Step-Inv (Step.abort s) v = abort-Inv refs_of_key before s v

  pub Run-Inv : {s : Sys} → Run refs_of_key before s → Inv refs_of_key before s
  Run-Inv Run.start = initial-Inv refs_of_key before
  Run-Inv (Run.next r st) = Step-Inv st (Run-Inv r)

  -- In every state that a run of pushes, uploads and garbage collections reaches, each object that
  -- a published closure needs, directly or through references, is unmarked in the database and is
  -- in the bucket.
  pub published_complete :
      {s : Sys}
      → Run refs_of_key before s
      → (k : String) → Needs refs_of_key before (contains (keys s.db.closures)) k
      → (is_live (lookup k s.db.objects) ≡ true) × (s.bucket k ≡ true)
  published_complete r k n = let v = Run-Inv r in (v.complete k n, v.stored k (v.complete k n))

  -- In every such state, an object that the database does not mark as deleted is in the bucket.
  pub live_stored :
      {s : Sys}
      → Run refs_of_key before s
      → (k : String) → is_live (lookup k s.db.objects) ≡ true
      → s.bucket k ≡ true
  live_stored r = (Run-Inv r).stored
