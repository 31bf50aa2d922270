-- ===== src/Server/Pins/Kept.antt =====
-- What a pin protects (server/pins.go, against DeleteUnpinnedClosures of server/pg/query.sql).
use niks.Common.{
  ◌||◌, ℕ, String, Option, none, some, List, [], ◌∷◌, Bool, true, false, not, ◌&&◌, if◌then◌else◌,
  ltb, ◌==◌, ==_refl, string_eq, nat_eq, anyb, contains, length, is_none, ◌≡◌, ap, ◌∙◌, arith,
}
use niks.Common.Table.{Table, keys, lookup, upsert, contains-keys}
use niks.Server.Db.{Db, Pin}
use niks.Server.Gc.{delete_unpinned_closures, is_pinned}
use niks.Server.Gc.Kept.{delete_unpinned_closures_exact}
use niks.Server.Keys.{bytes, matches}
use niks.Auth.Access.{Service, Principal, may_write_pin}
use niks.Server.Pins.{
  PinCalls, pin_name_regex, store_path_to_narinfo_key, pin_row, upsert_pin, create_pin,
}

pin_row-key :
    (key store_path : String) (now : ℕ) (o : Option Pin)
    → (pin_row key store_path now o).narinfo_key == key ≡ true
pin_row-key key store_path now none = ==_refl key
pin_row-key key store_path now (some p) = ==_refl key

upsert-pinned :
    (name key store_path : String) (now : ℕ) (pins : Table String Pin)
    → anyb (λ r. r.1.narinfo_key == key) (upsert name (pin_row key store_path now) pins) ≡ true
unfolding upsert anyb
upsert-pinned name key store_path now [] = ground (arith, pin_row-key key store_path now none)
upsert-pinned name key store_path now ((n, p) ∷ pins) =
    ground
      (arith, pin_row-key key store_path now (some p), upsert-pinned name key store_path now pins)

upsert_pin-is_pinned :
    (name key store_path : String) (now : ℕ) (db : Db)
    → is_pinned (upsert_pin name key store_path now db) key ≡ true
unfolding upsert_pin is_pinned
upsert_pin-is_pinned name key store_path now db = upsert-pinned name key store_path now db.pins

-- The checks of a creation that succeeds.
create_pin-created :
    (service : Service) (principal : Option Principal) (calls : PinCalls) (now : ℕ)
    (name store_path key : String) (db : Db)
    → (create_pin service principal calls now name (some store_path) db).0 ≡ 204
    → store_path_to_narinfo_key store_path ≡ some key
    → (may_write_pin service principal (bytes name) ≡ true)
      × (is_none (lookup key db.closures) ≡ false)
      × ((create_pin service principal calls now name (some store_path) db).1
          ≡ upsert_pin name key store_path now db)
unfolding create_pin
create_pin-created service principal calls now name store_path key db e k =
    checks (name == "") (matches pin_name_regex (bytes name)) (ltb 256 (length (bytes name)))
      (may_write_pin service principal (bytes name)) (store_path == "") calls.began calls.searched
      (calls.written && calls.upserted && calls.committed) (store_path_to_narinfo_key store_path) e
      k
  where
    checks :
        (a b c d p began searched done : Bool) (o : Option String)
        → let r : ℕ × Db =
            if a
            then (400, db)
            else if not b
            then (400, db)
            else if c
            then (400, db)
            else if not d
            then (403, db)
            else if p
            then (400, db)
            else (elim o [
              | none ↦ (400, db)
              | some i ↦
                  if not began
                  then (500, db)
                  else if not searched || is_none (lookup i db.closures)
                  then (404, db)
                  else if done
                  then (204, upsert_pin name i store_path now db)
                  else (500, db)
            ]) in
          r.0 ≡ 204
          → o ≡ some key
          → (d ≡ true)
            × (is_none (lookup key db.closures) ≡ false)
            × (r.1 ≡ upsert_pin name key store_path now db)
    checks a b c d p began searched done o e k = ground (arith, e, k)

-- Deletions of unpinned closures, one after the other, each of the closures with some keys.
pub deletions : List (List String) → Db → Db
unfolding delete_unpinned_closures
deletions [] db = db
deletions (ks ∷ runs) db = deletions runs (delete_unpinned_closures ks db).0

deletions-kept :
    (key : String) (runs : List (List String)) (db : Db)
    → is_pinned db key ≡ true
    → contains (keys db.closures) key ≡ true
    → contains (keys (deletions runs db).closures) key ≡ true
unfolding deletions
deletions-kept key [] db p h = h
deletions-kept key (ks ∷ runs) db p h =
    deletions-kept key runs (delete_unpinned_closures ks db).0 (still_pinned ks)
      (delete_unpinned_closures_exact ks db key ∙ ground (arith, p, h))
  where
    still_pinned : (ks : List String) → is_pinned (delete_unpinned_closures ks db).0 key ≡ true
    still_pinned ks = unfold is_pinned delete_unpinned_closures in p

-- A creation of a pin that succeeds is one that `mayWritePin` allows for the request's principal,
-- and the closure that it pins was published and is kept by any number of deletions of unpinned
-- closures that are run one after the other on the tables that the creation leaves.
pub create_pin-kept :
    (service : Service) (principal : Option Principal) (calls : PinCalls) (now : ℕ)
    (name store_path key : String) (db : Db) (runs : List (List String))
    → (create_pin service principal calls now name (some store_path) db).0 ≡ 204
    → store_path_to_narinfo_key store_path ≡ some key
    → (may_write_pin service principal (bytes name) ≡ true)
      × (contains (keys db.closures) key ≡ true)
      × (contains
            (keys
              (deletions runs
                (create_pin service principal calls now name (some store_path) db).1).closures)
            key
          ≡ true)
create_pin-kept service principal calls now name store_path key db runs e k =
    let (may, there, same) =
      create_pin-created service principal calls now name store_path key db e k in
    let published : contains (keys db.closures) key ≡ true =
      ground (arith, contains-keys key db.closures, there) in
    (
      may,
      published,
      ap (λ d. contains (keys (deletions runs d).closures) key) same
          ∙ deletions-kept key runs (upsert_pin name key store_path now db)
              (upsert_pin-is_pinned name key store_path now db) (unfold upsert_pin in published),
    )
