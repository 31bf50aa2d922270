-- ===== src/Server/Gc.antt =====
-- The garbage collector: server/closure.go, server/closure_model.go, server/pending_cleanup.go,
-- server/objects_model.go and the statements of server/pg/query.sql that they run.
pub mod Rows
pub mod Sweep
pub mod Marked
pub mod Kept
use niks.Common.{
  ℕ, zero, suc, ◌+◌, ◌-◌, ◌*◌, ◌≤◌, ◌<◌, String, Option, none, some, List, [], ◌∷◌, ◌++◌, map,
}
use niks.Common.{
  Bool, true, false, not, ◌&&◌, ◌||◌, if◌then◌else◌, ltb, leb, ◌==◌, Eq, string_eq, nat_eq, ==_refl,
}
use niks.Common.{
  ◌≡◌, refl, sym, ap, subst, ◌∙◌, ◌≢◌, ◌↔◌, ◌⊎◌, inl, inr, arith, Bool-cases, Option-cases, is_none,
}
use niks.Common.{
  contains, dedup, subset, contains-append, contains-filterb, contains-dedup, subset→contains,
}
use niks.Common.{
  length, take, drop, filterb, anyb, length-append, length-filterb-le, filterb-append,
  take-append-drop,
}
use niks.Common.Table.{Table, keys, lookup, update_all, select_keys, delete_where}
use niks.Server.Db.{Object, PendingObject, PendingClosure, Pin, Db, is_pending}
use niks.Server.Reach.{closure_reach}
use niks.Server.Push.{coalesce}

-- Closures in `keep` are left alone because one of their uploads could not be aborted.
unfoldable pub is_old : ℕ → List ℕ → PendingClosure → Bool
unfolding contains
is_old cutoff keep c = ltb c.started_at cutoff && not (contains keep c.id)

abbrev tombstone : ℕ → PendingObject → Object
tombstone cutoff p = record {
  refs = p.refs;
  size = none;
  deleted_at = some cutoff;
  first_deleted_at = some cutoff;
}

-- `INSERT … ON CONFLICT (key) DO NOTHING` of one pending object.
unfoldable pub insert_tombstone : ℕ → PendingObject → Table String Object → Table String Object
unfolding lookup
insert_tombstone cutoff p objs =
    if is_none (lookup p.key objs) then objs ++ ((p.key, tombstone cutoff p) ∷ []) else objs

unfoldable pub insert_tombstones :
    ℕ → List PendingObject → Table String Object → Table String Object
unfolding insert_tombstone
insert_tombstones cutoff [] objs = objs
insert_tombstones cutoff (p ∷ ps) objs =
    insert_tombstones cutoff ps (insert_tombstone cutoff p objs)

unfoldable pub objects_of : List PendingClosure → List PendingObject
objects_of [] = []
objects_of (c ∷ cs) = c.objects ++ objects_of cs

-- `CleanupPendingClosures`, with the number of closures deleted.
unfoldable pub cleanup_pending_closures : ℕ → List ℕ → Db → Db × ℕ
unfolding is_old insert_tombstones objects_of filterb
cleanup_pending_closures cutoff keep db =
    let old = filterb (is_old cutoff keep) db.pending_closures in
    (
      record db {
        objects = insert_tombstones cutoff (objects_of old) db.objects;
        pending_closures = filterb (λ c. not (is_old cutoff keep c)) db.pending_closures;
      },
      length old,
    )

unfoldable pub is_pinned : Db → String → Bool
unfolding anyb
is_pinned db k = anyb (λ r. r.1.narinfo_key == k) db.pins

-- `LockOldClosures`. `held` are the closures that a pin request has locked.
unfoldable pub lock_old_closures : ℕ → (String → Bool) → Db → List String
unfolding select_keys is_pinned
lock_old_closures cutoff held db =
    select_keys (λ k updated_at. ltb updated_at cutoff && not (is_pinned db k) && not (held k))
      db.closures

-- `DeleteUnpinnedClosures`, which sees the pins that committed since the lock.
unfoldable pub delete_unpinned_closures : List String → Db → Db × ℕ
unfolding delete_where select_keys is_pinned contains
delete_unpinned_closures ks db = (
  record db { closures = delete_where (λ k _. contains ks k && not (is_pinned db k)) db.closures },
  length (select_keys (λ k _. contains ks k && not (is_pinned db k)) db.closures),
)

-- `MarkStaleObjects`: what no closure reaches and no push is about to use.
unfoldable pub is_stale : Db → String → Object → Bool
unfolding closure_reach is_pending contains
is_stale db k o =
    not (contains (closure_reach db.objects (keys db.closures)) k)
    && not (is_pending db k)
    && is_none o.deleted_at

abbrev mark : ℕ → Object → Object
mark now o = record o {
  deleted_at = some now;
  first_deleted_at = coalesce o.first_deleted_at (some now);
}

unfoldable pub mark_stale_objects : ℕ → Db → Db × ℕ
unfolding is_stale update_all select_keys
mark_stale_objects now db = (
  record db { objects = update_all (λ k o. if is_stale db k o then mark now o else o) db.objects },
  length (select_keys (is_stale db) db.objects),
)

-- Past the grace period. Both dates are set, as the query asks.
unfoldable pub is_ripe : ℕ → ℕ → Object → Bool
is_ripe now grace o =
    not (is_none o.deleted_at)
    && (elim o.first_deleted_at [ none ↦ false | some t ↦ leb (t + grace) now ])

-- `DeleteObjects`.
unfoldable pub delete_objects : List String → Db → Db
unfolding delete_where contains
delete_objects ks db = record db { objects = delete_where (λ k _. contains ks k) db.objects }

-- `GetKeysNotPending`.
unfoldable pub get_keys_not_pending : List String → Db → List String
unfolding filterb is_pending lookup
get_keys_not_pending ks db =
    filterb (λ k. not (is_none (lookup k db.objects)) && not (is_pending db k)) ks
