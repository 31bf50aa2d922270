-- ===== src/Server/System/Sweeping.antt =====
-- The steps of the garbage collector keep the invariant (server/pending_cleanup.go,
-- server/closure_model.go, server/objects_model.go).
use niks.Common.{ℕ, zero, suc, String, none, List, [], ◌∷◌, ◌++◌}
use niks.Common.{Bool, true, false, not, ◌&&◌, ◌||◌, if◌then◌else◌, ◌==◌, string_eq, nat_eq}
use niks.Common.{◌≡◌, refl, sym, ◌∙◌, inl, inr, arith, Bool-cases, Option-cases, is_none}
use niks.Common.{contains, contains-filterb}
use niks.Common.{take, filterb}
use niks.Common.Table.{keys, lookup, lookup-delete_where, contains-keys, delete_where}
use niks.Server.Db.{Object, PendingObject, PendingClosure, Db, is_live, lists_key, is_pending}
use niks.Server.Push.{}
use niks.Server.Push.Rows.{All, All-filterb}
use niks.Server.Gc.{
  cleanup_pending_closures, delete_unpinned_closures, mark_stale_objects, delete_objects,
  get_keys_not_pending, objects_of, is_old,
}
use niks.Server.Gc.Rows.{
  insert_tombstones_live, insert_tombstones-RowOk, mark_stale_objects-RowOk,
  mark_stale_objects_live, mark_stale_objects_absent, delete_objects-RowOk,
}
use niks.Server.Gc.Sweep.{lock_objects_ready}
use niks.Server.System.Ids.{Descending-filterb, All-map, All-map₂, listed-is_pending}
use niks.Server.System.{Sys, with_key, Needs}
use niks.Server.System.Invariant.{Shielded, Inv, Needs-mono, change_db}
use niks.Server.Reach.{refs_of}
use niks.Server.Reach.Exact.{Reaches, seed, follow, closure_reach_exact}
use niks.Server.Gc.{is_stale, is_pinned}
use niks.Server.Gc.Sweep.{is_ready, sort_keys, insert_key}

All-append :
    (P : PendingObject → Type 0) (ps qs : List PendingObject)
    → All P ps
    → All P qs
    → All P (ps ++ qs)
All-append P [] qs a b = b
All-append P (p ∷ ps) qs a b = (a.0, All-append P ps qs a.1 b)

objects_of-All :
    (P : PendingObject → Type 0) (cs : List PendingClosure)
    → All (λ c. All P c.objects) cs
    → All P (objects_of cs)
unfolding objects_of
objects_of-All P [] h = tt
objects_of-All P (c ∷ cs) h = All-append P c.objects (objects_of cs) h.0 (objects_of-All P cs h.1)

module _ (before : String → String → Bool) where
  contains-insert_key :
      (k j : String) (ks : List String)
      → contains (insert_key before k ks) j ≡ (k == j || contains ks j)
  unfolding insert_key contains
  contains-insert_key k j [] = refl
  contains-insert_key k j (i ∷ ks) = ground (arith, contains-insert_key k j ks)

  contains-sort_keys :
      (ks : List String) (j : String) → contains (sort_keys before ks) j ≡ contains ks j
  unfolding sort_keys contains
  contains-sort_keys [] j = refl
  contains-sort_keys (k ∷ ks) j =
      ground (arith, contains-insert_key k j (sort_keys before ks), contains-sort_keys ks j)

contains-take :
    (n : ℕ) (ks : List String) (j : String) → contains (take n ks) j ≡ true → contains ks j ≡ true
unfolding contains
contains-take zero ks j h = cc
contains-take (suc n) [] j h = cc
contains-take (suc n) (k ∷ ks) j h = ground (arith, contains-take n ks j)

-- What a sweep locks is not live.
lock_objects_ready_dead :
    (before : String → String → Bool) (held : String → Bool) (snapshot db : Db) (now grace : ℕ)
    (after : String) (limit : ℕ) (k : String)
    → contains (lock_objects_ready before held snapshot db now grace after limit) k ≡ true
    → is_live (lookup k db.objects) ≡ false
unfolding lock_objects_ready is_ready
lock_objects_ready_dead before held snapshot db now grace after limit k h =
    let listed = contains-take limit _ k h in
    ground (
      arith,
      listed,
      contains-sort_keys before
          (filterb (is_ready before held snapshot db now grace after) (keys db.objects)) k,
      contains-filterb (is_ready before held snapshot db now grace after) (keys db.objects) k,
    )

module _ (refs_of_key : String → List String) (before : String → String → Bool) where
  pub clean_up-Inv :
      (s : Sys) (cutoff : ℕ) (keep : List ℕ)
      → Inv refs_of_key before s
      → Inv refs_of_key before (record s { db = (cleanup_pending_closures cutoff keep s.db).0 })
  unfolding cleanup_pending_closures
  clean_up-Inv s cutoff keep v =
      change_db refs_of_key before s (cleanup_pending_closures cutoff keep s.db).0 v
        (insert_tombstones-RowOk refs_of_key cutoff _ s.db.objects
          (objects_of-All _ _ (
            All-filterb _ _ s.db.pending_closures
              (All-map _ _ s.db.pending_closures (λ c d. d.same_refs) v.declared)))
          v.rows)
        (All-filterb _ _ s.db.pending_closures v.declared)
        (Descending-filterb _ _ s.db.pending_closures v.ids) refl
        (All-filterb _ _ s.db.pending_closures v.shielded) (λ k h. inl (same k ∙ h))
        (λ k n. sym (same k) ∙ v.complete k n)
    where
      same :
          (k : String)
          → is_live (lookup k s.db.objects)
            ≡ is_live (lookup k (cleanup_pending_closures cutoff keep s.db).0.objects)
      same k = sym (
          insert_tombstones_live cutoff
            (objects_of (filterb (is_old cutoff keep) s.db.pending_closures)) s.db.objects k)

  pub drop_closures-Inv :
      (s : Sys) (ks : List String)
      → Inv refs_of_key before s
      → Inv refs_of_key before (record s { db = (delete_unpinned_closures ks s.db).0 })
  unfolding delete_unpinned_closures
  drop_closures-Inv s ks v =
      change_db refs_of_key before s (delete_unpinned_closures ks s.db).0 v v.rows v.declared v.ids
        refl v.shielded (λ k h. inl h)
        (λ k n. v.complete k (Needs-mono refs_of_key before _ _ fewer n))
    where
      fewer :
          (k : String)
          → contains (keys (delete_unpinned_closures ks s.db).0.closures) k ≡ true
          → contains (keys s.db.closures) k ≡ true
      fewer k h = ground (
        arith,
        h,
        contains-keys k s.db.closures,
        contains-keys k
            (delete_where (λ j _. contains ks j && not (is_pinned s.db j)) s.db.closures),
        lookup-delete_where (λ (j : String). contains ks j && not (is_pinned s.db j)) k
            s.db.closures,
      )

  needed-Reaches :
      (s : Sys) {k : String}
      → Inv refs_of_key before s
      → Needs refs_of_key before (contains (keys s.db.closures)) k
      → Reaches s.db.objects (keys s.db.closures) k
  unfolding refs_of
  needed-Reaches s v (Needs.top {k} h) = elim (Option-cases (lookup k s.db.objects)) [
    | inl e ↦ absurd (ground (arith, e, v.complete k (Needs.top h)))
    | inr (o, e) ↦ seed h e
  ]
  needed-Reaches s v (Needs.sub {j} {k} n h) = elim (Option-cases (lookup k s.db.objects)) [
    | inl e ↦ absurd (ground (arith, e, v.complete k (Needs.sub n h)))
    | inr (o, e) ↦ elim (Option-cases (lookup j s.db.objects)) [
      | inl e' ↦ absurd (ground (arith, e', v.complete j n))
      | inr (p, e') ↦
          follow (needed-Reaches s v n) (ground (arith, e', h, (v.rows j p e').same_refs k)) e
    ]
  ]

  -- What a closure needs is not stale.
  needed_not_stale :
      (s : Sys) (k : String) (o : Object)
      → Inv refs_of_key before s
      → Needs refs_of_key before (contains (keys s.db.closures)) k
      → is_stale s.db k o ≡ false
  unfolding is_stale
  needed_not_stale s k o v n =
      let reached =
        (closure_reach_exact s.db.objects (keys s.db.closures) k).1 (needed-Reaches s v n) in
      rw reached

  pub mark-Inv :
      (s : Sys) (now : ℕ)
      → Inv refs_of_key before s
      → Inv refs_of_key before (record s { db = (mark_stale_objects now s.db).0 })
  unfolding mark_stale_objects
  mark-Inv s now v =
      change_db refs_of_key before s (mark_stale_objects now s.db).0 v
        (mark_stale_objects-RowOk refs_of_key now s.db v.rows) v.declared v.ids refl v.shielded
        (λ k h. elim (Option-cases (lookup k s.db.objects)) [
          | inl e ↦ inl (ground (arith, h, e, mark_stale_objects_absent now s.db k e))
          | inr (o, e) ↦ inl (ground (arith, h, e, mark_stale_objects_live now s.db k o e))
        ])
        (λ k n. elim (Option-cases (lookup k s.db.objects)) [
          | inl e ↦ absurd (ground (arith, e, v.complete k n))
          | inr (o, e) ↦ ground (
            arith,
            e,
            v.complete k n,
            needed_not_stale s k o v n,
            mark_stale_objects_live now s.db k o e,
          )
        ])

  pub lock-Inv :
      (s : Sys) (held : String → Bool) (snapshot : Db) (now grace : ℕ) (after : String) (limit : ℕ)
      → s.locked ≡ []
      → Inv refs_of_key before s
      → Inv refs_of_key before
          (record s { locked = lock_objects_ready before held snapshot s.db now grace after limit })
  unfolding contains
  lock-Inv s held snapshot now grace after limit e v = record {
    rows = v.rows;
    declared = v.declared;
    ids = v.ids;
    unsent = v.unsent;
    fresh = v.fresh;
    shielded = v.shielded;
    stored = v.stored;
    swept = lock_objects_ready_dead before held snapshot s.db now grace after limit;
    picked_locked = λ k h. absurd (ground (arith, e, v.picked_locked k h));
    gone_locked = λ k h. absurd (ground (arith, e, v.gone_locked k h));
    complete = v.complete;
  }

  -- The recheck leaves out what some push lists by now.
  pub recheck-Inv :
      (s : Sys)
      → Inv refs_of_key before s
      → Inv refs_of_key before (record s { picked = get_keys_not_pending s.locked s.db })
  unfolding get_keys_not_pending
  recheck-Inv s v = record {
    rows = v.rows;
    declared = v.declared;
    ids = v.ids;
    unsent = v.unsent;
    fresh = v.fresh;
    shielded = All-map₂ _ _ _ s.db.pending_closures keep (listed-is_pending s.db) v.shielded;
    stored = v.stored;
    swept = v.swept;
    picked_locked = λ k h. (picks k h).0;
    gone_locked = v.gone_locked;
    complete = v.complete;
  }
    where
      picks :
          (k : String)
          → contains (get_keys_not_pending s.locked s.db) k ≡ true
          → (contains s.locked k ≡ true) × (is_pending s.db k ≡ false)
      picks k h = ground (
        arith,
        h,
        contains-filterb
            (λ (j : String). not (is_none (lookup j s.db.objects)) && not (is_pending s.db j))
            s.locked k,
      )

      keep :
          (c : PendingClosure)
          → ((k : String) → lists_key c.objects k ≡ true → is_pending s.db k ≡ true)
          → Shielded refs_of_key before s c
          → Shielded refs_of_key before (record s { picked = get_keys_not_pending s.locked s.db }) c
      keep c pending h ks k o l = (
        elim (Bool-cases (contains (get_keys_not_pending s.locked s.db) k)) [
          | inr no_pick ↦ no_pick
          | inl pick ↦ absurd (ground (arith, pending k l, (picks k pick).1))
        ],
        (h ks k o l).1,
        (h ks k o l).2,
      )

  pub remove-Inv :
      (s : Sys) (k : String)
      → contains s.picked k ≡ true
      → Inv refs_of_key before s
      → Inv refs_of_key before (record s { bucket = with_key k false s.bucket; gone = k ∷ s.gone })
  unfolding contains
  remove-Inv s k h v = record {
    rows = v.rows;
    declared = v.declared;
    ids = v.ids;
    unsent = v.unsent;
    fresh = v.fresh;
    shielded = All-map _ _ s.db.pending_closures keep v.shielded;
    stored = λ j alive. elim (Bool-cases (k == j)) [
      | inl same ↦
          let e = (string_eq.test_iff k j).0 same in
          absurd (ground (arith, alive, e, v.swept k (v.picked_locked k h)))
      | inr other ↦ rw other (v.stored j alive)
    ];
    swept = v.swept;
    picked_locked = v.picked_locked;
    gone_locked =
        λ j g. ground (arith, g, v.gone_locked j, v.picked_locked k h, string_eq.test_iff k j);
    complete = v.complete;
  }
    where
      keep :
          (c : PendingClosure)
          → Shielded refs_of_key before s c
          → Shielded refs_of_key before
              (record s { bucket = with_key k false s.bucket; gone = k ∷ s.gone })
              c
      keep c shield ks j o l = elim (Bool-cases (k == j)) [
        | inl same ↦
            let e = (string_eq.test_iff k j).0 same in
            absurd (ground (arith, h, e, (shield ks j o l).0))
        | inr other ↦ rw other (shield ks j o l)
      ]

  pub abort-Inv :
      (s : Sys)
      → Inv refs_of_key before s
      → Inv refs_of_key before (record s { locked = []; picked = []; gone = [] })
  unfolding contains
  abort-Inv s v = record {
    rows = v.rows;
    declared = v.declared;
    ids = v.ids;
    unsent = v.unsent;
    fresh = v.fresh;
    shielded =
        All-map _ _ s.db.pending_closures (λ c h ks k o l. (refl, (h ks k o l).1, (h ks k o l).2))
          v.shielded;
    stored = v.stored;
    swept = λ k h. absurd (ground (arith, h));
    picked_locked = λ k h. h;
    gone_locked = λ k h. h;
    complete = v.complete;
  }

  -- What the sweep deletes was locked, so no closure needs it.
  pub delete-Inv :
      (s : Sys) (ks : List String)
      → ((k : String) → contains ks k ≡ true → contains s.gone k ≡ true)
      → Inv refs_of_key before s
      → Inv refs_of_key before (record s { db = delete_objects ks s.db })
  unfolding delete_objects
  delete-Inv s ks sub v =
      change_db refs_of_key before s (delete_objects ks s.db) v
        (delete_objects-RowOk refs_of_key ks s.db v.rows) v.declared v.ids refl v.shielded
        (λ k h. inl (ground (arith, h, row k)))
        (λ k n. elim (Bool-cases (contains ks k)) [
          | inl hit ↦
              absurd (ground (arith, v.complete k n, v.swept k (v.gone_locked k (sub k hit))))
          | inr miss ↦ ground (arith, v.complete k n, miss, row k)
        ])
    where
      row :
          (k : String)
          → lookup k (delete_objects ks s.db).objects
            ≡ (if contains ks k then none else lookup k s.db.objects)
      row k = lookup-delete_where (λ (j : String). contains ks j) k s.db.objects
