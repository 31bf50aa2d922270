-- ===== src/Server/Gc/Rows.antt =====
-- What the garbage collector's statements do to the rows of `objects` (server/pg/query.sql:
-- CleanupPendingClosures, MarkStaleObjects, DeleteObjects).
use niks.Common.{ℕ, String, none, some, List, [], ◌∷◌, ◌++◌}
use niks.Common.{not, ◌&&◌, if◌then◌else◌, ◌==◌, string_eq, nat_eq}
use niks.Common.{◌≡◌, refl, subst, ◌∙◌, inl, inr, arith, Bool-cases, Option-cases, is_none}
use niks.Common.{contains}
use mathlib.Core.Option
use niks.Common.Table.{Table, lookup, update_all, lookup-update_all, lookup-delete_where}
use niks.Server.Db.{Object, PendingObject, Db, is_live}
use niks.Server.Push.Rows.{All, RowOk, AllRows}
use niks.Server.Gc.{
  insert_tombstone, insert_tombstones, is_stale, mark_stale_objects, delete_objects, tombstone,
  mark,
}

lookup-append_one :
    (objs : Table String Object) (j k : String) (v : Object)
    → lookup k (objs ++ ((j, v) ∷ []))
      ≡ (elim (lookup k objs) [ some o ↦ some o | none ↦ if j == k then some v else none ])
unfolding lookup
lookup-append_one [] j k v = refl
lookup-append_one ((i, o) ∷ objs) j k v = ground (arith, lookup-append_one objs j k v)

lookup-insert_tombstone :
    (cutoff : ℕ) (p : PendingObject) (objs : Table String Object) (k : String)
    → lookup k (insert_tombstone cutoff p objs) ≡ (elim (lookup k objs) [
      | some o ↦ some o
      | none ↦ if p.key == k then some (tombstone cutoff p) else none
    ])
unfolding insert_tombstone
lookup-insert_tombstone cutoff p objs k =
    ground (arith, lookup-append_one objs p.key k (tombstone cutoff p), string_eq.test_iff p.key k)

-- A tombstone goes only where there is no row, so what is live stays as it is.
pub insert_tombstones_live :
    (cutoff : ℕ) (ps : List PendingObject) (objs : Table String Object) (k : String)
    → is_live (lookup k (insert_tombstones cutoff ps objs)) ≡ is_live (lookup k objs)
unfolding insert_tombstones
insert_tombstones_live cutoff [] objs k = refl
insert_tombstones_live cutoff (p ∷ ps) objs k =
    insert_tombstones_live cutoff ps (insert_tombstone cutoff p objs) k ∙ one
  where
    one : is_live (lookup k (insert_tombstone cutoff p objs)) ≡ is_live (lookup k objs)
    one = ground (arith, lookup-insert_tombstone cutoff p objs k)

module _ (refs_of_key : String → List String) where
  abbrev Ok : String → Object → Type 0
  Ok = RowOk refs_of_key

  insert_tombstone-RowOk :
      (cutoff : ℕ) (p : PendingObject) (objs : Table String Object)
      → p.refs ≡ refs_of_key p.key
      → AllRows Ok objs
      → AllRows Ok (insert_tombstone cutoff p objs)
  insert_tombstone-RowOk cutoff p objs d h k o e = elim (Option-cases (lookup k objs)) [
    | inr (o', e') ↦ h k o (ground (arith, e', e, lookup-insert_tombstone cutoff p objs k))
    | inl e' ↦
        let row : tombstone cutoff p ≡ o =
          ground (arith, e', e, lookup-insert_tombstone cutoff p objs k) in
        let same : p.key ≡ k =
          ground
            (arith, e', e, lookup-insert_tombstone cutoff p objs k, string_eq.test_iff p.key k) in
        subst (λ i. RowOk refs_of_key i o) same
          (subst (RowOk refs_of_key p.key) row (record { dates = refl; same_refs = λ j. rw d }))
  ]

  pub insert_tombstones-RowOk :
      (cutoff : ℕ) (ps : List PendingObject) (objs : Table String Object)
      → All (λ p. p.refs ≡ refs_of_key p.key) ps
      → AllRows Ok objs
      → AllRows Ok (insert_tombstones cutoff ps objs)
  unfolding insert_tombstones
  insert_tombstones-RowOk cutoff [] objs d h = h
  insert_tombstones-RowOk cutoff (p ∷ ps) objs d h =
      insert_tombstones-RowOk cutoff ps _ d.1 (insert_tombstone-RowOk cutoff p objs d.0 h)

  pub mark_stale_objects-RowOk :
      (now : ℕ) (db : Db) → AllRows Ok db.objects → AllRows Ok (mark_stale_objects now db).0.objects
  unfolding mark_stale_objects
  mark_stale_objects-RowOk now db h k o e = elim (Option-cases (lookup k db.objects)) [
    | inl e' ↦ absurd (ground (arith, e', e, after))
    | inr (o', e') ↦
        let row : marked k o' ≡ o = ground (arith, e', e, after) in
        subst (RowOk refs_of_key k) row (marked-RowOk o' (h k o' e'))
  ]
    where
      marked : String → Object → Object
      marked j x = if is_stale db j x then mark now x else x

      after : lookup k (update_all marked db.objects) ≡ Option.map (marked k) (lookup k db.objects)
      after = lookup-update_all marked k db.objects

      marked-RowOk : (x : Object) → RowOk refs_of_key k x → RowOk refs_of_key k (marked k x)
      marked-RowOk x r = elim (Bool-cases (is_stale db k x)) [
        | inl y ↦ rw y (record { dates = ground (arith, r.dates); same_refs = r.same_refs })
        | inr n ↦ rw n r
      ]

  pub delete_objects-RowOk :
      (ks : List String) (db : Db)
      → AllRows Ok db.objects
      → AllRows Ok (delete_objects ks db).objects
  unfolding delete_objects
  delete_objects-RowOk ks db h k o e =
      h k o (ground (arith, lookup-delete_where (λ (j : String). contains ks j) k db.objects))

-- Marking leaves an object live exactly if it was live and is reached or pending.
pub mark_stale_objects_live :
    (now : ℕ) (db : Db) (k : String) (o : Object)
    → lookup k db.objects ≡ some o
    → is_live (lookup k (mark_stale_objects now db).0.objects)
      ≡ (is_none o.deleted_at && not (is_stale db k o))
unfolding mark_stale_objects
mark_stale_objects_live now db k o e =
    rw (lookup-update_all (λ j x. if is_stale db j x then mark now x else x) k db.objects, e)
      (ground arith)

pub mark_stale_objects_absent :
    (now : ℕ) (db : Db) (k : String)
    → lookup k db.objects ≡ none
    → lookup k (mark_stale_objects now db).0.objects ≡ none
unfolding mark_stale_objects
mark_stale_objects_absent now db k e =
    rw (lookup-update_all (λ j x. if is_stale db j x then mark now x else x) k db.objects, e)
