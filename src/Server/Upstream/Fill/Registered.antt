-- ===== src/Server/Upstream/Fill/Registered.antt =====
-- What a fill leaves in the tables (server/upstream.go: storeUpstreamPath).
use niks.Common.{
  ℕ, String, Option, none, some, List, map, Bool, true, false, if◌then◌else◌, nat_eq, list_eq,
  string_eq, contains, anyb, ◌⊎◌, ==_refl, ◌≡◌, refl, ap, ◌∙◌, arith, inl, inr,
}
use niks.Common.Table.{Table, keys, lookup}
use niks.Server.Db.{Db, PendingObject, PendingClosure, is_live, lists_key}
use niks.Server.Push as Push
use niks.Server.Push.{
  ok, err, Result, find_pending, create_pending_closure_inner, commit_pending_closure,
  insert_pending_closure, fold_objects, pending_row, ObjectWithRefs, objects_to_upload,
  delete_pending_closure, bad_closure_key,
}
use niks.Server.Push.Rows.{fold_objects_live}
use niks.Server.Push.Commit.{commit_pending_closure_tables, contains-keys-upsert}
use niks.Server.Keys.{Key}
use niks.Server.Sign.{Signer}
use niks.Server.Multipart.{Bucket, World}
use niks.Server.Upstream.Narinfo.{UpstreamNarinfo}
use niks.Server.Upstream.Fetch.{Upstream, Web}
use niks.Server.Upstream.Fill.{
  text, narinfo_key_of, objects_of, after_commit, committed, put_narinfo, store_narinfo, after_copy,
  after_create, store_upstream_path,
}

-- The closure is published, and its narinfo and NAR are registered and live.
pub record Registered (info : UpstreamNarinfo) (db : Db) : Type 0 where
  pub closure : contains (keys db.closures) (narinfo_key_of info.nar_info.store_path) ≡ true
  pub narinfo : is_live (lookup (narinfo_key_of info.nar_info.store_path) db.objects) ≡ true
  pub nar : is_live (lookup (text info.nar_key) db.objects) ≡ true

-- The narinfo and the NAR are among the objects.
lists_key-objects_of :
    (info : UpstreamNarinfo) (k : String)
    → (narinfo_key_of info.nar_info.store_path ≡ k) ⊎ (text info.nar_key ≡ k)
    → lists_key (map (λ r. pending_row r.1) (objects_of info)) k ≡ true
unfolding objects_of pending_row anyb
lists_key-objects_of info k (inl e) =
    ground (arith, (string_eq.test_iff (narinfo_key_of info.nar_info.store_path) k).1 e)
lists_key-objects_of info k (inr e) = ground (arith, (string_eq.test_iff (text info.nar_key) k).1 e)

-- The tables are those of a commit of the row.
abbrev pub CommittedTo : ℕ → ℕ → Db → Db → Type 0
CommittedTo id now db db' = (n : ℕ) × (commit_pending_closure id now db ≡ ok (db', n))

module _ {K S : Type 0} (s3 : Bucket S) (web : Web K S) where
  after_commit-ok :
      (w w' : World S) (b : S) (r : Result (Db × ℕ))
      → after_commit s3 web w b r ≡ (true, w')
      → (n : ℕ) × (r ≡ ok (w'.db, n))
  after_commit-ok w w' b (err e) h = absurd (ground (arith, h))
  after_commit-ok w w' b (ok result) h = (result.1, ap (λ d. ok (d, result.1)) (ap (λ p. p.1.db) h))

  committed-ok :
      (id now : ℕ) (w w' : World S) (stored : Bool × S)
      → committed s3 web id now w stored ≡ (true, w')
      → CommittedTo id now w.db w'.db
  committed-ok id now w w' (true, b) h =
      after_commit-ok w w' b (commit_pending_closure id now w.db) h
  committed-ok id now w w' (false, b) h = absurd (ground (arith, h))

  put_narinfo-ok :
      (info : UpstreamNarinfo) (id now : ℕ) (w w' : World S) (sigs : Option (List Key))
      → put_narinfo s3 web info id now w sigs ≡ (true, w')
      → CommittedTo id now w.db w'.db
  put_narinfo-ok info id now w w' none h = absurd (ground (arith, h))
  put_narinfo-ok info id now w w' (some sigs) h = committed-ok id now w w' _ h

  after_copy-ok :
      (signers : List Signer) (info : UpstreamNarinfo) (id now : ℕ) (w w' : World S)
      (copied : Bool × S)
      → after_copy s3 web signers info id now w copied ≡ (true, w')
      → CommittedTo id now w.db w'.db
  unfolding store_narinfo
  after_copy-ok signers info id now w w' (true, b) h =
      put_narinfo-ok info id now (record w { bucket = b }) w' _ h
  after_copy-ok signers info id now w w' (false, b) h = absurd (ground (arith, h))

  -- The row that was made: under its id in the tables, with the objects that were given.
  abbrev IsRow :
      String
      → Table String ObjectWithRefs
      → Db × Result (PendingClosure × List PendingObject)
      → Type 0
  IsRow key objects_map (db, err e) = Unit
  IsRow key objects_map (db, ok row) =
      (find_pending row.0.id db.pending_closures ≡ some row.0)
      × (row.0.key ≡ key)
      × (row.0.objects ≡ map (λ r. pending_row r.1) objects_map)

  create_pending_closure_inner-IsRow :
      (stat : String → Push.Stat) (key : String) (objects_map : Table String ObjectWithRefs)
      (now : ℕ) (db : Db)
      → IsRow key objects_map (create_pending_closure_inner stat key none objects_map true now db)
  unfolding create_pending_closure_inner insert_pending_closure find_pending
  create_pending_closure_inner-IsRow stat key objects_map now db =
      by_result (Push.has_suffix key ".narinfo") (
        objects_to_upload stat (insert_pending_closure key none objects_map now db).0
          (insert_pending_closure key none objects_map now db).1.objects true)
    where
      made : Db × PendingClosure
      made = insert_pending_closure key none objects_map now db

      by_result :
          (b : Bool) (r : Result (List PendingObject))
          → IsRow key objects_map (
              if b
              then (elim r [
                | ok uploads ↦ (made.0, ok (made.1, uploads))
                | err e ↦ (delete_pending_closure made.1.id made.0, err e)
              ])
              else (db, err bad_closure_key))
      by_result true (ok uploads) = (rw (==_refl db.next_id) refl, refl, refl)
      by_result true (err e) = tt
      by_result false r = tt

  -- Committing the row publishes the closure and leaves its objects live.
  IsRow-Registered :
      (info : UpstreamNarinfo) (now : ℕ) (db db' : Db) (row : PendingClosure)
      → find_pending row.id db.pending_closures ≡ some row
      → row.key ≡ narinfo_key_of info.nar_info.store_path
      → row.objects ≡ map (λ r. pending_row r.1) (objects_of info)
      → CommittedTo row.id now db db'
      → Registered info db'
  IsRow-Registered info now db db' row f k e (n, c) =
      let (same, _) = commit_pending_closure_tables row.id now db db' n row f c in
      let nk = narinfo_key_of info.nar_info.store_path in
      record {
        closure =
            ap (λ d. contains (keys d.closures) nk) same
            ∙ (contains-keys-upsert row.key nk (λ _. now) db.closures
                ∙ rw k (ground (arith, ==_refl nk)));
        narinfo =
            ap (λ d. is_live (lookup nk d.objects)) same
            ∙ fold_objects_live row.objects db.objects nk
                (ap (λ os. lists_key os nk) e ∙ lists_key-objects_of info nk (inl refl));
        nar =
            ap (λ d. is_live (lookup (text info.nar_key) d.objects)) same
            ∙ fold_objects_live row.objects db.objects (text info.nar_key) (
                ap (λ os. lists_key os (text info.nar_key)) e
                ∙ lists_key-objects_of info (text info.nar_key) (inr refl));
      }

  -- A path that was stored is published as a closure, its narinfo and its NAR registered and not
  -- marked for deletion.
  pub store_upstream_path-Registered :
      (stat : String → Push.Stat) (signers : List Signer) (upstream : Upstream K)
      (info : UpstreamNarinfo) (now : ℕ) (w w' : World S)
      → store_upstream_path s3 web stat signers upstream info now w ≡ (true, w')
      → Registered info w'.db
  unfolding store_upstream_path
  store_upstream_path-Registered stat signers upstream info now w w' h =
      by_made _
        (create_pending_closure_inner-IsRow stat (narinfo_key_of info.nar_info.store_path)
          (objects_of info) now w.db)
        h
    where
      by_made :
          (made : Db × Result (PendingClosure × List PendingObject))
          → IsRow (narinfo_key_of info.nar_info.store_path) (objects_of info) made
          → after_create s3 web signers upstream info now w made ≡ (true, w')
          → Registered info w'.db
      by_made (db, err e) i h = absurd (ground (arith, h))
      by_made (db, ok row) i h =
          IsRow-Registered info now db w'.db row.0 i.0 i.1 i.2
            (after_copy-ok signers info row.0.id now (record w { db = db }) w' _ h)
