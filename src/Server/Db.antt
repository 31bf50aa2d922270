-- ===== src/Server/Db.antt =====
-- The tables of the server (server/pg/migrations, server/pg/query.sql) and the S3 bucket beside
-- them. A timestamp is a number of seconds; NULL is `none`.
use niks.Common.{ℕ, String, Option, none, some, List, []}
use niks.Common.{Bool, ◌==◌, string_eq, nat_eq}
use niks.Common.{is_none}
use niks.Common.{anyb}
use niks.Common.Table.{Table}

-- A row of `objects`.
pub record Object : Type 0 where
  pub refs : List String
  pub size : Option ℕ
  pub deleted_at : Option ℕ
  pub first_deleted_at : Option ℕ

-- A row of `pending_objects`. The rows of a closure stand in its own row, since the foreign key
-- deletes them with it.
pub record PendingObject : Type 0 where
  pub key : String
  pub refs : List String
  pub size : Option ℕ

-- A row of `pending_closures`; `roots` is NULL for a request of the old API.
pub record PendingClosure : Type 0 where
  pub id : ℕ
  pub key : String
  pub roots : Option (List String)
  pub started_at : ℕ
  pub objects : List PendingObject

-- A row of `pins`, without its name.
pub record Pin : Type 0 where
  pub narinfo_key : String
  pub store_path : String
  pub created_at : ℕ
  pub updated_at : ℕ

pub record Db : Type 0 where
  pub objects : Table String Object
  pub pending_closures : List PendingClosure
  pub closures : Table String ℕ
  pub pins : Table String Pin
  pub next_id : ℕ

abbrev pub empty_db : Db
empty_db = record { objects = []; pending_closures = []; closures = []; pins = []; next_id = 1 }

-- The objects that are not marked for deletion.
abbrev pub is_live : Option Object → Bool
is_live o = elim o [ none ↦ Bool.false | some r ↦ is_none r.deleted_at ]

abbrev pub lists_key : List PendingObject → String → Bool
lists_key os k = anyb (λ o. o.key == k) os

-- `EXISTS (SELECT 1 FROM pending_objects WHERE key = k)`.
unfoldable pub is_pending : Db → String → Bool
unfolding anyb
is_pending db k = anyb (λ c. lists_key c.objects k) db.pending_closures
