-- ===== src/Server/Pins/Tests.antt =====
-- A published store path that gets pinned (server/pins.go).
use niks.Common.{ℕ, Option, some, false, [], ◌∷◌, true, contains, string_eq, ◌≡◌, refl}
use niks.Common.Table.{keys}
use niks.Server.Db.{Db, empty_db}
use niks.Server.Keys.{pin_char, bytes}
use niks.Auth.Glob.{glob_match}
use niks.Auth.Claims.{write}
use niks.Auth.Access.{Provider, Service, Principal, may_write_pin}
use niks.Server.Pins.{PinCalls, create_pin, store_path_to_narinfo_key}
use niks.Server.Pins.Kept.{deletions, create_pin-kept}

abbrev db : Db
db = record empty_db { closures = ("abc.narinfo", 1) ∷ [] }

-- A provider whose one rule allows any pin whose name starts with an "r", and so reserves it.
abbrev provider : Provider
provider = record {
  issuer = [];
  audience = [];
  bound_claims = [];
  bound_subject = [];
  scopes = [];
  pins = [];
  rules =
      record { bound_claims = []; bound_subject = []; scopes = write ∷ []; pins = bytes "r*" ∷ [] }
      ∷ [];
}

abbrev service : Service
service = record {
  native_mtls = false;
  mtls_proxy_header = [];
  mtls_subject_header = [];
  mtls_bound_subjects = [];
  mtls_bound_subjects_read = [];
  api_token = [];
  providers = some (provider ∷ []);
}

abbrev principal : Principal
principal = record { scopes = write ∷ []; pins = bytes "r*" ∷ [] }

abbrev all_succeed : PinCalls
all_succeed = record {
  began = true;
  searched = true;
  written = true;
  upserted = true;
  committed = true;
}

abbrev create : Option Principal → ℕ × Db
create p = create_pin service p all_succeed 7 "release" (some "/nix/store/abc-hello") db

pinned : (create (some principal)).0 ≡ 204
unfolding create_pin pin_char glob_match
pinned = refl

refused : (create (some (record principal { pins = [] }))).0 ≡ 403
unfolding create_pin pin_char glob_match
refused = refl

key_of : store_path_to_narinfo_key "/nix/store/abc-hello" ≡ some "abc.narinfo"
unfolding store_path_to_narinfo_key
key_of = refl

create_pin-kept_example :
    (may_write_pin service (some principal) (bytes "release") ≡ true)
    × (contains (keys db.closures) "abc.narinfo" ≡ true)
    × (contains
          (keys
            (deletions
              (("abc.narinfo" ∷ []) ∷ ("abc.narinfo" ∷ []) ∷ [])
              (create (some principal)).1).closures)
          "abc.narinfo"
        ≡ true)
create_pin-kept_example =
    create_pin-kept service (some principal) all_succeed 7 "release" "/nix/store/abc-hello"
      "abc.narinfo" db (("abc.narinfo" ∷ []) ∷ ("abc.narinfo" ∷ []) ∷ []) pinned key_of
