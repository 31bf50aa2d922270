-- ===== src/Server/Push/Complete.antt =====
-- What a completed push promises (server/pg/functions/3_commit_push.sql, server/pushes.go).
use niks.Common.{ℕ, String, none, some, List, [], ◌∷◌, ◌++◌, map, true, false, ◌||◌, arith}
use niks.Common.{
  Option-cases, ◌≢◌, subst, ◌∙◌, ap, ==_refl, ◌≡◌, inl, inr, Bool-cases, contains, string_eq, dedup,
}
use niks.Common.Table.{Table, lookup}
use niks.Server.Db.{Object, PendingObject, PendingClosure, Db, is_live, lists_key}
use niks.Server.Push.{
  ok, err, find_pending, find_missing, commit_push, named_refs, object_missing, PushError,
  commit_pending_closure, touch_closures,
}
use niks.Server.Push.Rows.{fold_objects_live, fold_objects_other, contains-map_key}
use niks.Server.Push.Commit.{commit_push_tables, commit_push-Committed}

find_missing-none :
    (objs : Table String Object) (own : List PendingObject) (ks : List String) (k : String)
    → find_missing objs own ks ≡ none
    → contains ks k ≡ true
    → (lists_key own k || is_live (lookup k objs)) ≡ true
unfolding find_missing contains
find_missing-none objs own [] k e m = cc
find_missing-none objs own (j ∷ ks) k e m =
    ground
      (arith, e, m, find_missing-none objs own ks k, contains-map_key own j, string_eq.test_iff j k)

-- After a push is completed, each root and each object that one of its objects refers to is in the
-- table and unmarked, whether the push brought it or relied on it.
pub commit_push_live :
    (id now : ℕ) (db db' : Db) (n : ℕ) (c : PendingClosure) (roots : List String) (k : String)
    → find_pending id db.pending_closures ≡ some c
    → c.roots ≡ some roots
    → commit_push id now db ≡ ok (db', n)
    → contains (roots ++ named_refs c.objects) k ≡ true
    → is_live (lookup k db'.objects) ≡ true
commit_push_live id now db db' n c roots k f r e m =
    let (named, same, _, all) = commit_push_tables id now db db' n c f e in
    let here : contains (named ++ named_refs c.objects) k ≡ true = cc in
    let held = find_missing-none db.objects c.objects (named ++ named_refs c.objects) k all here in
    rw ((commit_push-Committed id now db db' n c f e).objects)
      (elim (Bool-cases (lists_key c.objects k)) [
        | inl own ↦ fold_objects_live c.objects db.objects k own
        | inr other ↦
            rw (fold_objects_other c.objects db.objects k other) (ground (arith, held, other))
      ])

find_missing-some :
    (objs : Table String Object) (own : List PendingObject) (ks : List String) (k : String)
    → find_missing objs own ks ≡ some k
    → (contains ks k ≡ true) × (lists_key own k ≡ false) × (is_live (lookup k objs) ≡ false)
unfolding find_missing contains
find_missing-some objs own [] k e = cc
find_missing-some objs own (j ∷ ks) k e =
    elim (Bool-cases (contains (map (λ p. p.key) own) j || is_live (lookup j objs))) [
      | inl h ↦
          let (m, o, l) = find_missing-some objs own ks k (ground (arith, e, h)) in
          (ground (arith, m), o, l)
      | inr h ↦
          let same : j ≡ k = ground (arith, e, h) in
          let own_j : lists_key own j ≡ false = ground (arith, h, contains-map_key own j) in
          let gone : is_live (lookup j objs) ≡ false = ground (arith, h) in
          (
            rw (same, ==_refl k),
            subst (λ i. lists_key own i ≡ false) same own_j,
            subst (λ i. is_live (lookup i objs) ≡ false) same gone,
          )
    ]

commit_pending_closure_found :
    (id now : ℕ) (db : Db) (c : PendingClosure) (e : PushError)
    → find_pending id db.pending_closures ≡ some c
    → commit_pending_closure id now db ≢ err e
unfolding commit_pending_closure
commit_pending_closure_found id now db c e f h = ground (arith, f, h)

-- Completing a push fails with a missing object only if the push names that object, does not bring
-- it, and the table lacks it or has it marked.
pub commit_push_missing :
    (id now : ℕ) (db : Db) (c : PendingClosure) (roots : List String) (k : String)
    → find_pending id db.pending_closures ≡ some c
    → c.roots ≡ some roots
    → commit_push id now db ≡ err (object_missing k)
    → (contains (roots ++ named_refs c.objects) k ≡ true)
      × (lists_key c.objects k ≡ false)
      × (is_live (lookup k db.objects) ≡ false)
unfolding commit_push
commit_push_missing id now db c roots k f r e =
    elim (Option-cases (find_missing db.objects c.objects (roots ++ named_refs c.objects))) [
      | inr (j, m) ↦
          let same : j ≡ k = ground (arith, e, f, r, m) in
          find_missing-some db.objects c.objects (roots ++ named_refs c.objects) k
            (m ∙ ap some same)
      | inl m ↦ absurd (
          commit_pending_closure_found id now
            (record db { closures = touch_closures now (dedup roots) db.closures }) c
            (object_missing k) f (ground (arith, e, f, r, m)))
    ]
