-- ===== src/Server/System/Pushes.antt =====
-- The steps of a push keep the invariant (server/pending_closure.go, server/uploads.go).
use niks.Common.{ℕ, ◌<◌, String, Option, none, some, List}
use niks.Common.{Bool, true, false, string_eq, nat_eq}
use niks.Common.{◌≡◌, ◌≢◌, inl, inr, arith, Bool-cases, Option-cases}
use niks.Common.{contains}
use niks.Common.Table.{Table, lookup}
use niks.Server.Db.{PendingObject, PendingClosure, is_live, lists_key}
use niks.Server.Push.{
  ObjectWithRefs, Stat, ok, insert_pending_closure, objects_to_upload, find_pending,
}
use niks.Server.Push.Rows.{contains-map_key, objects_to_upload_present}
use niks.Server.Push.Commit.{find_pending_id}
use niks.Server.Gc.{}
use niks.Server.Gc.Rows.{}
use niks.Server.System.Ids.{All-map, All-by_id, find_pending_lt}
use niks.Server.System.{Sys, with_key, with_id, object_keys, Declared}
use niks.Server.System.Invariant.{Shielded, Inv}

module _ (refs_of_key : String → List String) (before : String → String → Bool) where
  pub create-Inv :
      (s : Sys) (key : String) (roots : Option (List String)) (m : Table String ObjectWithRefs)
      (now : ℕ)
      → Declared refs_of_key before (insert_pending_closure key roots m now s.db).1
      → Inv refs_of_key before s
      → Inv refs_of_key before (record s { db = (insert_pending_closure key roots m now s.db).0 })
  unfolding insert_pending_closure
  create-Inv s key roots m now d v = record {
    rows = v.rows;
    declared = (d, v.declared);
    ids = (omega arith, v.ids);
    unsent = v.unsent;
    fresh = λ n h. v.fresh n (omega arith);
    shielded = (λ ks k e l. absurd (ground (arith, v.fresh s.db.next_id, e)), v.shielded);
    stored = v.stored;
    swept = v.swept;
    picked_locked = v.picked_locked;
    gone_locked = v.gone_locked;
    complete = v.complete;
  }

  pub look_up-Inv :
      (s : Sys) (id : ℕ) (c : PendingClosure) (stat : String → Stat) (verify : Bool)
      (uploads : List PendingObject)
      → find_pending id s.db.pending_closures ≡ some c
      → s.offered id ≡ none
      → ((k : String) → lists_key c.objects k ≡ true → contains s.locked k ≡ false)
      → objects_to_upload stat s.db c.objects verify ≡ ok uploads
      → Inv refs_of_key before s
      → Inv refs_of_key before
          (record s { offered = with_id id (some (object_keys uploads)) s.offered })
  look_up-Inv s id c stat verify uploads e n free r v = record {
    rows = v.rows;
    declared = v.declared;
    ids = v.ids;
    unsent = λ m k h. v.unsent m k (ground (arith, h));
    fresh = λ m h. ground (arith, v.fresh m h, lt, h);
    shielded =
        All-by_id (Shielded refs_of_key before t) s.db.next_id id s.db.pending_closures c v.ids e
          own (All-map _ _ s.db.pending_closures others v.shielded);
    stored = v.stored;
    swept = v.swept;
    picked_locked = v.picked_locked;
    gone_locked = v.gone_locked;
    complete = v.complete;
  }
    where
      t : Sys
      t = record s { offered = with_id id (some (object_keys uploads)) s.offered }

      lt : id < s.db.next_id
      lt = find_pending_lt s.db.next_id id s.db.pending_closures c v.ids e

      same_id : c.id ≡ id
      same_id = find_pending_id id s.db.pending_closures c e

      present :
          (k : String)
          → lists_key c.objects k ≡ true
          → lists_key uploads k ≡ false
          → is_live (lookup k s.db.objects) ≡ true
      present k l left =
          let there = objects_to_upload_present stat s.db c.objects uploads verify k r l left in
          elim (Option-cases (lookup k s.db.objects)) [
            | inl q ↦ absurd (ground (arith, q, there))
            | inr (o, q) ↦ ground (arith, q, there, (v.rows k o q).dates)
          ]

      own : Shielded refs_of_key before t c
      own ks k eo l = (
        elim (Bool-cases (contains s.picked k)) [
          | inr no_pick ↦ no_pick
          | inl pick ↦ absurd (ground (arith, v.picked_locked k pick, free k l))
        ],
        λ left.
            v.stored k
              (present k l (ground (arith, left, eo, same_id, contains-map_key uploads k))),
        λ sent. absurd (ground (arith, sent, v.unsent c.id k, same_id, n)),
      )

      others :
          (d : PendingClosure)
          → Shielded refs_of_key before s d
          → d.id ≢ id
          → Shielded refs_of_key before t d
      others d h other ks k eo l = h ks k (ground (arith, eo, other)) l

  pub upload-Inv :
      (s : Sys) (id : ℕ) (ks : List String) (k : String)
      → s.offered id ≡ some ks
      → contains ks k ≡ true
      → Inv refs_of_key before s
      → Inv refs_of_key before (record s {
        bucket = with_key k true s.bucket;
        uploaded = with_id id (with_key k true (s.uploaded id)) s.uploaded;
      })
  upload-Inv s id ks k e m v = record {
    rows = v.rows;
    declared = v.declared;
    ids = v.ids;
    unsent = λ n j h. ground (arith, h, e, v.unsent n j);
    fresh = v.fresh;
    shielded = All-map _ _ s.db.pending_closures keep v.shielded;
    stored = λ j h. ground (arith, v.stored j h);
    swept = v.swept;
    picked_locked = v.picked_locked;
    gone_locked = v.gone_locked;
    complete = v.complete;
  }
    where
      t : Sys
      t = record s {
        bucket = with_key k true s.bucket;
        uploaded = with_id id (with_key k true (s.uploaded id)) s.uploaded;
      }

      keep :
          (c : PendingClosure) → Shielded refs_of_key before s c → Shielded refs_of_key before t c
      keep c h js j eo l =
          let (pick, kept, sent) = h js j eo l in
          (pick, λ left. ground (arith, kept left), λ up. ground (arith, up, sent))
