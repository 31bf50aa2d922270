-- ===== src/Server/System/Commits.antt =====
-- Registering an upload and committing a push keep the invariant (server/uploads.go,
-- server/pushes.go).
use niks.Common.{ℕ, String, Option, some, List}
use niks.Common.{Bool, true, false, if◌then◌else◌, ◌==◌, string_eq, nat_eq}
use niks.Common.{◌≡◌, refl, sym, subst, ◌⊎◌, inl, inr, arith, Bool-cases}
use niks.Common.{contains}
use niks.Common.Table.{keys, lookup, lookup-upsert, upsert}
use niks.Server.Db.{Object, PendingClosure, Db, is_live, lists_key, is_pending}
use niks.Server.Push.{
  register_completed_object, find_pending, delete_pending_closure, fold_objects, merge_row,
}
use niks.Server.Push.Rows.{
  All, All-filterb, RowOk, AllRows, upsert-AllRows, merge_row-RowOk, merge_row_live,
  fold_objects-RowOk, fold_objects_other, fold_objects_live,
}
use niks.Server.Push.Commit.{Committed, is_root, find_pending_id}
use niks.Server.Gc.{}
use niks.Server.Gc.Rows.{}
use niks.Server.System.Ids.{Descending-filterb, All-find}
use niks.Server.System.{Sys, Declared, Needs}
use niks.Server.System.Invariant.{Shielded, Inv, change_db}

module _ (refs_of_key : String → List String) (before : String → String → Bool) where
  pub register-Inv :
      (s : Sys) (k : String) (size : Option ℕ)
      → s.bucket k ≡ true
      → contains s.locked k ≡ false
      → Inv refs_of_key before s
      → Inv refs_of_key before
          (record s { db = register_completed_object k (refs_of_key k) size s.db })
  unfolding register_completed_object
  register-Inv s k size stored free v = elim (Bool-cases (is_pending s.db k)) [
    | inr absent ↦ rw (absent, register_completed_object) v
    | inl pending ↦
        rw (pending, register_completed_object)
          (change_db refs_of_key before s db' v
            (upsert-AllRows (RowOk refs_of_key) k _ s.db.objects
              (λ o. merge_row-RowOk refs_of_key k (refs_of_key k) size o refl) v.rows)
            v.declared v.ids refl v.shielded
            (λ j h. elim (Bool-cases (k == j)) [
              | inl same ↦ inr (
                  subst (λ i. (s.bucket i ≡ true) × (contains s.locked i ≡ false))
                    ((string_eq.test_iff k j).0 same) (stored, free))
              | inr other ↦ inl (ground (arith, h, other, row j))
            ])
            (λ j n. ground (arith, v.complete j n, row j, merged_live (lookup k s.db.objects))))
  ]
    where
      db' : Db
      db' = record s.db { objects = upsert k (merge_row (refs_of_key k) size) s.db.objects }

      row :
          (j : String)
          → lookup j db'.objects ≡ (
              if k == j
              then some (merge_row (refs_of_key k) size (lookup k s.db.objects))
              else lookup j s.db.objects)
      row j = lookup-upsert k j (merge_row (refs_of_key k) size) s.db.objects

      merged_live : (o : Option Object) → is_live (some (merge_row (refs_of_key k) size o)) ≡ true
      merged_live o = merge_row_live (refs_of_key k) size o

  -- Both forms of commit: what the push lists is in the bucket by then.
  pub commit-Inv :
      (s : Sys) (id : ℕ) (c : PendingClosure) (ks : List String) (db' : Db)
      → find_pending id s.db.pending_closures ≡ some c
      → s.offered id ≡ some ks
      → ((k : String) → contains ks k ≡ true → s.uploaded id k ≡ true)
      → ((k : String) → lists_key c.objects k ≡ true → contains s.locked k ≡ false)
      → Committed c s.db db'
      → Inv refs_of_key before s
      → Inv refs_of_key before (record s { db = db' })
  commit-Inv s id c ks db' e o sent free d v =
      change_db refs_of_key before s db' v
        (subst (AllRows (RowOk refs_of_key)) (sym d.objects)
          (fold_objects-RowOk refs_of_key c.objects s.db.objects own.same_refs v.rows))
        (subst (All (Declared refs_of_key before)) (sym d.pending)
          (All-filterb _ _ s.db.pending_closures v.declared))
        (rw (d.pending, d.next_id) (Descending-filterb _ _ s.db.pending_closures v.ids)) d.next_id
        (subst (All (Shielded refs_of_key before s)) (sym d.pending)
          (All-filterb _ _ s.db.pending_closures v.shielded))
        (λ k h. elim (Bool-cases (lists_key c.objects k)) [
          | inl mine ↦ inr (held k mine, free k mine)
          | inr other ↦
              inl (ground (arith, h, d.objects, fold_objects_other c.objects s.db.objects k other))
        ])
        (λ k n. elim (split n) [
          | inl mine ↦ rw d.objects (fold_objects_live c.objects s.db.objects k mine)
          | inr old ↦ rw d.objects (stays k (v.complete k old))
        ])
    where
      own : Declared refs_of_key before c
      own = All-find (Declared refs_of_key before) id s.db.pending_closures c e v.declared

      same_id : c.id ≡ id
      same_id = find_pending_id id s.db.pending_closures c e

      held : (k : String) → lists_key c.objects k ≡ true → s.bucket k ≡ true
      held k mine =
          let shield =
            All-find (Shielded refs_of_key before s) id s.db.pending_closures c e v.shielded in
          let (_, kept, put) = shield ks k (rw (same_id, o)) mine in
          elim (Bool-cases (contains ks k)) [
            | inl told ↦ put (rw same_id (sent k told))
            | inr left ↦ kept left
          ]

      stays :
          (k : String)
          → is_live (lookup k s.db.objects) ≡ true
          → is_live (lookup k (fold_objects c.objects s.db.objects)) ≡ true
      stays k h = elim (Bool-cases (lists_key c.objects k)) [
        | inl mine ↦ fold_objects_live c.objects s.db.objects k mine
        | inr other ↦ rw (fold_objects_other c.objects s.db.objects k other) h
      ]

      split :
          {k : String}
          → Needs refs_of_key before (contains (keys db'.closures)) k
          → (lists_key c.objects k ≡ true)
            ⊎ Needs refs_of_key before (contains (keys s.db.closures)) k
      split (Needs.top {k} h) = elim (Bool-cases (is_root c k)) [
        | inl root ↦ inl (own.rooted k root)
        | inr older ↦ inr (Needs.top (ground (arith, older, d.published k h)))
      ]
      split (Needs.sub {j} {k} n h) = elim (split n) [
        | inl mine ↦ inl (own.closed j k mine h)
        | inr old ↦ inr (Needs.sub old h)
      ]

  pub drop_push-Inv :
      (s : Sys) (id : ℕ)
      → Inv refs_of_key before s
      → Inv refs_of_key before (record s { db = delete_pending_closure id s.db })
  unfolding delete_pending_closure
  drop_push-Inv s id v =
      change_db refs_of_key before s (delete_pending_closure id s.db) v v.rows
        (All-filterb _ _ s.db.pending_closures v.declared)
        (Descending-filterb _ _ s.db.pending_closures v.ids) refl
        (All-filterb _ _ s.db.pending_closures v.shielded) (λ k h. inl h) v.complete
