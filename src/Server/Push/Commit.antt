-- ===== src/Server/Push/Commit.antt =====
-- What a commit leaves in the tables (server/pg/functions/commit_push.sql,
-- server/pg/functions/commit_pending_closure.sql).
use niks.Common.{ℕ, String, Option, none, some, List, [], ◌∷◌, ◌++◌}
use niks.Common.{Bool, true, false, not, ◌||◌, ◌==◌, string_eq, nat_eq}
use niks.Common.{◌≡◌, refl, ◌⊎◌, inl, inr, arith, Option-cases}
use niks.Common.{contains, dedup, contains-dedup}
use niks.Common.{length, filterb}
use niks.Common.Table.{Table, keys, lookup-upsert, contains-keys, upsert}
use niks.Server.Db.{PendingClosure, Db}
use niks.Server.Push.{
  ok, find_pending, find_missing, commit_push, commit_pending_closure, delete_pending_closure,
  fold_objects, touch_closures, named_refs,
}

-- The closure keys that committing the row publishes.
abbrev pub is_root : PendingClosure → String → Bool
is_root c k = c.key == k || (elim c.roots [ none ↦ false | some roots ↦ contains roots k ])

-- The tables after a commit of `c`: its objects folded in, its row gone, and no closure published
-- but its roots.
pub record Committed (c : PendingClosure) (db db' : Db) : Type 0 where
  pub objects : db'.objects ≡ fold_objects c.objects db.objects
  pub pending : db'.pending_closures ≡ filterb (λ d. not (d.id == c.id)) db.pending_closures
  pub next_id : db'.next_id ≡ db.next_id
  pub published :
      (k : String)
      → contains (keys db'.closures) k ≡ true
      → (is_root c k || contains (keys db.closures) k) ≡ true

pub contains-keys-upsert :
    (k j : String) (f : Option ℕ → ℕ) (cs : Table String ℕ)
    → contains (keys (upsert k f cs)) j ≡ (k == j || contains (keys cs) j)
contains-keys-upsert k j f cs =
    ground (arith, contains-keys j (upsert k f cs), contains-keys j cs, lookup-upsert k j f cs)

contains-keys-touch_closures :
    (now : ℕ) (ks : List String) (cs : Table String ℕ) (j : String)
    → contains (keys (touch_closures now ks cs)) j ≡ (contains ks j || contains (keys cs) j)
unfolding touch_closures contains
contains-keys-touch_closures now [] cs j = refl
contains-keys-touch_closures now (k ∷ ks) cs j = ground (
  arith,
  contains-keys-touch_closures now ks (upsert k (λ _. now) cs) j,
  contains-keys-upsert k j (λ _. now) cs,
)

pub commit_pending_closure_tables :
    (id now : ℕ) (db db' : Db) (n : ℕ) (c : PendingClosure)
    → find_pending id db.pending_closures ≡ some c
    → commit_pending_closure id now db ≡ ok (db', n)
    → (db' ≡ record (delete_pending_closure id db) {
      closures = upsert c.key (λ _. now) db.closures;
      objects = fold_objects c.objects db.objects;
    })
      × (n ≡ length c.objects)
unfolding commit_pending_closure
commit_pending_closure_tables id now db db' n c f e = ground (arith, f, e)

pub commit_push_tables :
    (id now : ℕ) (db db' : Db) (n : ℕ) (c : PendingClosure)
    → find_pending id db.pending_closures ≡ some c
    → commit_push id now db ≡ ok (db', n)
    → (roots : List String) × (c.roots ≡ some roots)
      × (commit_pending_closure id now
            (record db { closures = touch_closures now (dedup roots) db.closures })
          ≡ ok (db', n))
      × (find_missing db.objects c.objects (roots ++ named_refs c.objects) ≡ none)
unfolding commit_push
commit_push_tables id now db db' n c f e = elim (Option-cases c.roots) [
  | inl r ↦ absurd (ground (arith, f, e, r))
  | inr (roots, r) ↦
      elim (Option-cases (find_missing db.objects c.objects (roots ++ named_refs c.objects))) [
        | inl m ↦ (roots, r, ground (arith, f, e, r, m), m)
        | inr (k, m) ↦ absurd (ground (arith, f, e, r, m))
      ]
]

pub find_pending_id :
    (id : ℕ) (cs : List PendingClosure) (c : PendingClosure)
    → find_pending id cs ≡ some c
    → c.id ≡ id
unfolding find_pending
find_pending_id id [] c e = cc
find_pending_id id (d ∷ cs) c e = ground (arith, find_pending_id id cs c)

commit_pending_closure-Committed :
    (id now : ℕ) (db db' : Db) (n : ℕ) (c : PendingClosure)
    → find_pending id db.pending_closures ≡ some c
    → commit_pending_closure id now db ≡ ok (db', n)
    → Committed c db db'
unfolding delete_pending_closure
commit_pending_closure-Committed id now db db' n c f e =
    let (same, _) = commit_pending_closure_tables id now db db' n c f e in
    rw same (record {
      objects = refl;
      pending = rw (find_pending_id id db.pending_closures c f);
      next_id = refl;
      published = λ k h. ground (arith, h, contains-keys-upsert c.key k (λ _. now) db.closures);
    })

pub commit_push-Committed :
    (id now : ℕ) (db db' : Db) (n : ℕ) (c : PendingClosure)
    → find_pending id db.pending_closures ≡ some c
    → commit_push id now db ≡ ok (db', n)
    → Committed c db db'
commit_push-Committed id now db db' n c f e =
    let (roots, r, folded, _) = commit_push_tables id now db db' n c f e in
    let touched : Db = record db { closures = touch_closures now (dedup roots) db.closures } in
    let done = commit_pending_closure-Committed id now touched db' n c f folded in
    record {
      objects = done.objects;
      pending = done.pending;
      next_id = done.next_id;
      published = λ k h. ground (
        arith,
        r,
        done.published k h,
        contains-keys-touch_closures now (dedup roots) db.closures k,
        contains-dedup roots k,
      );
    }

-- Both forms of commit.
pub commit-Committed :
    (id now : ℕ) (db db' : Db) (n : ℕ) (c : PendingClosure)
    → find_pending id db.pending_closures ≡ some c
    → (commit_push id now db ≡ ok (db', n)) ⊎ (commit_pending_closure id now db ≡ ok (db', n))
    → Committed c db db'
commit-Committed id now db db' n c f (inl e) = commit_push-Committed id now db db' n c f e
commit-Committed id now db db' n c f (inr e) =
    commit_pending_closure-Committed id now db db' n c f e
