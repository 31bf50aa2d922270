-- ===== src/Server/System/Invariant.antt =====
-- The invariant of the races between pushes and the sweep, kept by every step of niks.Server.System
-- (server/pending_closure.go, server/uploads.go, server/objects_model.go).
use niks.Common.{ℕ, ◌≤◌, String, none, some, List, []}
use niks.Common.{Bool, true, false, string_eq, nat_eq}
use niks.Common.{◌≡◌, refl, ◌⊎◌, inl, inr, arith, Bool-cases}
use niks.Common.{contains}
use niks.Common.Table.{keys, lookup}
use niks.Server.Db.{PendingClosure, Db, is_live, lists_key}
use niks.Server.Push.{}
use niks.Server.Push.Rows.{All, RowOk, AllRows}
use niks.Server.Gc.{}
use niks.Server.Gc.Rows.{}
use niks.Server.System.Ids.{Descending}
use niks.Server.System.{Sys, initial, Declared, Needs}

module _ (refs_of_key : String → List String) (before : String → String → Bool) where
  -- Once a push has been told what to upload, the sweep does not delete what it lists, and the
  -- bucket holds what it was not told to upload and what it has uploaded.
  abbrev pub Shielded : Sys → PendingClosure → Type 0
  Shielded s c =
      (ks : List String) (k : String)
      → s.offered c.id ≡ some ks
      → lists_key c.objects k ≡ true
      → (contains s.picked k ≡ false)
        × (contains ks k ≡ false → s.bucket k ≡ true)
        × (s.uploaded c.id k ≡ true → s.bucket k ≡ true)

  pub record Inv (s : Sys) : Type 0 where
    pub rows : AllRows (RowOk refs_of_key) s.db.objects
    pub declared : All (Declared refs_of_key before) s.db.pending_closures
    pub ids : Descending s.db.next_id s.db.pending_closures
    pub unsent : (n : ℕ) (k : String) → s.offered n ≡ none → s.uploaded n k ≡ false
    pub fresh : (n : ℕ) → s.db.next_id ≤ n → s.offered n ≡ none
    pub shielded : All (Shielded s) s.db.pending_closures
    pub stored : (k : String) → is_live (lookup k s.db.objects) ≡ true → s.bucket k ≡ true
    pub swept : (k : String) → contains s.locked k ≡ true → is_live (lookup k s.db.objects) ≡ false
    pub picked_locked : (k : String) → contains s.picked k ≡ true → contains s.locked k ≡ true
    pub gone_locked : (k : String) → contains s.gone k ≡ true → contains s.locked k ≡ true
    pub complete :
        (k : String)
        → Needs refs_of_key before (contains (keys s.db.closures)) k
        → is_live (lookup k s.db.objects) ≡ true

  no_roots : {k : String} → ¬ (Needs refs_of_key before (contains []) k)
  unfolding contains
  no_roots (Needs.top h) = cc
  no_roots (Needs.sub n h) = no_roots n

  pub initial-Inv : Inv initial
  unfolding lookup contains
  initial-Inv = record {
    rows = λ k o e. cc;
    declared = tt;
    ids = tt;
    unsent = λ n k h. refl;
    fresh = λ n h. refl;
    shielded = tt;
    stored = λ k h. cc;
    swept = λ k h. refl;
    picked_locked = λ k h. h;
    gone_locked = λ k h. h;
    complete = λ k n. absurd (no_roots n);
  }

  pub Needs-mono :
      (p q : String → Bool) {k : String}
      → ((j : String) → p j ≡ true → q j ≡ true)
      → Needs refs_of_key before p k
      → Needs refs_of_key before q k
  Needs-mono p q f (Needs.top h) = Needs.top (f _ h)
  Needs-mono p q f (Needs.sub n h) = Needs.sub (Needs-mono p q f n) h

  -- A transaction that leaves the sweep alone keeps the invariant if what it makes live is in the
  -- bucket and not locked, and what the closures need is live.
  pub change_db :
      (s : Sys) (db' : Db)
      → Inv s
      → AllRows (RowOk refs_of_key) db'.objects
      → All (Declared refs_of_key before) db'.pending_closures
      → Descending db'.next_id db'.pending_closures
      → db'.next_id ≡ s.db.next_id
      → All (Shielded s) db'.pending_closures
      → ((k : String)
          → is_live (lookup k db'.objects) ≡ true
          → (is_live (lookup k s.db.objects) ≡ true)
            ⊎ ((s.bucket k ≡ true) × (contains s.locked k ≡ false)))
      → ((k : String)
          → Needs refs_of_key before (contains (keys db'.closures)) k
          → is_live (lookup k db'.objects) ≡ true)
      → Inv (record s { db = db' })
  change_db s db' v rows declared ids same shielded live complete = record {
    rows = rows;
    declared = declared;
    ids = ids;
    unsent = v.unsent;
    fresh = λ n h. v.fresh n (omega arith);
    shielded = shielded;
    stored = λ k h. elim (live k h) [ inl old ↦ v.stored k old | inr new ↦ new.0 ];
    swept = λ k h. elim (Bool-cases (is_live (lookup k db'.objects))) [
      | inr dead ↦ dead
      | inl alive ↦ elim (live k alive) [
        | inl old ↦ absurd (ground (arith, old, v.swept k h))
        | inr new ↦ absurd (ground (arith, h, new.1))
      ]
    ];
    picked_locked = v.picked_locked;
    gone_locked = v.gone_locked;
    complete = complete;
  }
