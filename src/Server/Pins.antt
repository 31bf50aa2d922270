-- ===== src/Server/Pins.antt =====
-- Pins (server/pins.go). How the calls of a creation end is a parameter, its body is decoded by
-- encoding/json, and its transaction is one step that a failed commit leaves undone; the statements
-- of a removal succeed.
pub mod Kept
mod Tests
use Prim.Native.Char.{code}
use niks.Common.{
  ℕ, String, ◌<>◌, Option, none, some, List, [], ◌∷◌, Bool, true, false, not, ◌&&◌, ◌||◌,
  if◌then◌else◌, ltb, ◌==◌, string_eq, nat_eq, length, is_none,
}
use niks.Auth.Access.{Service, Principal, may_write_pin}
use niks.Common.Table.{Table, lookup, upsert, delete_where}
use niks.Server.Db.{Db, Pin}
use niks.Server.Keys.{bytes, Key, Pattern, many, matches, pin_char}

-- `pinNameRegex`.
unfoldable pub pin_name_regex : Pattern
pin_name_regex = many pin_char ∷ []

abbrev pub has_slash : String → Bool
has_slash String.[] = false
has_slash (String.◌∷◌ c s) = code c == 47 || has_slash s

-- What stands behind the last slash.
abbrev pub base_of : String → String
base_of String.[] = String.[]
base_of (String.◌∷◌ c s) =
    let rest = base_of s in if has_slash s then rest else if code c == 47 then s else String.◌∷◌ c s

abbrev pub with_char : Option String → (String → String) → Option String
with_char none f = none
with_char (some s) f = some (f s)

-- `strings.Cut` at a dash, the part before it.
abbrev pub before_dash : String → Option String
before_dash String.[] = none
before_dash (String.◌∷◌ c s) =
    let rest = with_char (before_dash s) (λ t. String.◌∷◌ c t) in
    if code c == 45 then some "" else rest

unfoldable pub store_path_to_narinfo_key : String → Option String
store_path_to_narinfo_key store_path = elim (before_dash (base_of store_path)) [
  | none ↦ none
  | some hash ↦ if hash == "" then none else some (hash <> ".narinfo")
]

-- `UpsertPin`.
abbrev pub pin_row : String → String → ℕ → Option Pin → Pin
pin_row key store_path now none = record {
  narinfo_key = key;
  store_path = store_path;
  created_at = now;
  updated_at = now;
}
pin_row key store_path now (some p) = record {
  narinfo_key = key;
  store_path = store_path;
  created_at = p.created_at;
  updated_at = now;
}

unfoldable pub upsert_pin : String → String → String → ℕ → Db → Db
unfolding upsert
upsert_pin name key store_path now db = record db {
  pins = upsert name (pin_row key store_path now) db.pins;
}

-- Which calls of a creation succeed: the start of its transaction, the search for the closure's row,
-- the write to the bucket, the write of the pin's row, and the commit.
pub record PinCalls : Type 0 where
  pub began : Bool
  pub searched : Bool
  pub written : Bool
  pub upserted : Bool
  pub committed : Bool

-- `CreatePinHandler`, for a request with this principal in its context; `body` is the store path in
-- its body, `none` for one that is not decoded.
unfoldable pub create_pin :
    Service → Option Principal → PinCalls → ℕ → String → Option String → Db → ℕ × Db
unfolding matches pin_name_regex may_write_pin store_path_to_narinfo_key upsert_pin lookup
create_pin service principal calls now name body db =
    if name == ""
    then (400, db)
    else if not (matches pin_name_regex (bytes name))
    then (400, db)
    else if ltb 256 (length (bytes name))
    then (400, db)
    else if not (may_write_pin service principal (bytes name))
    then (403, db)
    else (elim body [
      | none ↦ (400, db)
      | some store_path ↦
          if store_path == "" then (400, db) else (elim (store_path_to_narinfo_key store_path) [
            | none ↦ (400, db)
            | some key ↦
                if not calls.began
                then (500, db)
                else if not calls.searched || is_none (lookup key db.closures)
                then (404, db)
                else if calls.written && calls.upserted && calls.committed
                then (204, upsert_pin name key store_path now db)
                else (500, db)
          ])
    ])

-- `DeletePinHandler`; a failed removal from the bucket is only logged.
unfoldable pub delete_pin : String → Db → ℕ × Db
unfolding delete_where lookup
delete_pin name db =
    if name == ""
    then (400, db)
    else if is_none (lookup name db.pins)
    then (404, db)
    else (204, record db { pins = delete_where (λ n p. n == name) db.pins })
