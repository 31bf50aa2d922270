-- ===== src/Auth/Tests.antt =====
-- Rules, patterns and access checks on a small configuration.
use niks.Common.{
  Option, none, some, List, [], ◌∷◌, Bool, true, false, ◌&&◌, anyb, contains, nat_eq, list_eq,
  arith,
}
use niks.Common.{◌≡◌, ◌↔◌, ◌⊎◌, refl}
use niks.Auth.Glob.{Bytes, glob_match}
use niks.Auth.Glob.Matches.{Matches}
use niks.Auth.Glob.Correct.{glob_match_total, glob_match_sound, glob_match_exact, glob_match_misses}
use niks.Auth.Claims.{
  scope_eq, read, write, admin, Rule, Value, Fields, text, field, no_fields, match_rules, granted,
  accepts,
}
use niks.Auth.Claims.Granted.{is_matched, granted_scopes, match_rules_scopes}
use niks.Auth.Access.{
  Request, Provider, Service, Principal, require_scope, may_write_pin, allowed, reserves_pin,
}
use niks.Auth.Access.Sound.{IsAdmin, ByRule, require_scope_sound, reserved_pin_sound}

-- "v*" and "v1".
abbrev version_pattern : Bytes
version_pattern = b'v' ∷ b'*' ∷ []

abbrev version : Bytes
version = b'v' ∷ b'1' ∷ []

version_matches : glob_match version_pattern version ≡ some true
unfolding glob_match
version_matches = refl

no_star : contains version b'*' ≡ false
unfolding contains
no_star = refl

glob_match_total_example : (b : Bool) × (glob_match version_pattern version ≡ some b)
glob_match_total_example = glob_match_total version_pattern version

glob_match_sound_example : Matches version_pattern version
glob_match_sound_example = glob_match_sound version_pattern version version_matches

glob_match_exact_example :
    (glob_match version_pattern version ≡ some true) ↔ Matches version_pattern version
glob_match_exact_example = glob_match_exact version_pattern version no_star

glob_match_misses_example :
    (glob_match (b'*' ∷ b'a' ∷ []) (b'*' ∷ b'b' ∷ b'a' ∷ []) ≡ some false)
    × Matches (b'*' ∷ b'a' ∷ []) (b'*' ∷ b'b' ∷ b'a' ∷ [])
glob_match_misses_example =
    glob_match_misses b'a' b'b' (λ e. absurd (omega arith)) (λ e. absurd (omega arith))
      (λ e. absurd (omega arith))

-- A rule for the subject "ci", which may write and owns the pins "v*".
abbrev ci : Bytes
ci = b'c' ∷ b'i' ∷ []

abbrev ci_rule : Rule
ci_rule = record {
  bound_claims = [];
  bound_subject = ci ∷ [];
  scopes = write ∷ [];
  pins = version_pattern ∷ [];
}

abbrev ci_claims : Fields
ci_claims = field (b's' ∷ b'u' ∷ b'b' ∷ []) (text ci) no_fields

abbrev no_sprint : Value → Bytes
no_sprint _ = []

abbrev rules : List Rule
rules = ci_rule ∷ []

abbrev pins : List Bytes
pins = version_pattern ∷ []

match_rules_scopes_example :
    contains (granted_scopes no_sprint ci_claims (match_rules no_sprint ci_claims rules)) write
    ≡ anyb (λ r. is_matched no_sprint ci_claims r && contains r.scopes write) rules
match_rules_scopes_example = match_rules_scopes no_sprint ci_claims rules write

ci_granted : match_rules no_sprint ci_claims rules ≡ granted (write ∷ []) pins
unfolding match_rules glob_match
ci_granted = refl

abbrev provider : Provider
provider = record {
  issuer = b'i' ∷ [];
  audience = b'a' ∷ [];
  bound_claims = [];
  bound_subject = [];
  scopes = [];
  pins = [];
  rules = rules;
}

abbrev service : Service
service = record {
  native_mtls = false;
  mtls_proxy_header = [];
  mtls_subject_header = [];
  mtls_bound_subjects = [];
  mtls_bound_subjects_read = [];
  api_token = [];
  providers = some (provider ∷ []);
}

-- The token "t", which the provider verifies.
abbrev verify : Provider → Bytes → Option (Option Fields)
verify p [] = none
verify p (c ∷ token) = some (some ci_claims)

abbrev request : Request
request = record { peer_subject = none; header = λ _. []; basic_password = some (b't' ∷ []) }

abbrev principal : Principal
principal = record { scopes = write ∷ read ∷ []; pins = pins }

let_in : require_scope verify no_sprint service write request ≡ allowed (some principal)
unfolding require_scope glob_match
let_in = refl

require_scope_sound_example :
    IsAdmin verify no_sprint service request
    ⊎ ByRule verify no_sprint service request (λ u. contains u.scopes write)
require_scope_sound_example =
    require_scope_sound verify no_sprint service write request (some principal) (λ e. cc) let_in

reserved : reserves_pin (provider ∷ []) version ≡ true
unfolding reserves_pin glob_match
reserved = refl

may_write : may_write_pin service (some principal) version ≡ true
unfolding may_write_pin glob_match
may_write = refl

reserved_pin_sound_example :
    IsAdmin verify no_sprint service request
    ⊎ ByRule verify no_sprint service request (λ u. contains u.scopes admin)
    ⊎ ((j : Bytes) × (accepts j version ≡ true)
        × ByRule verify no_sprint service request (λ u. contains u.pins j))
reserved_pin_sound_example =
    reserved_pin_sound verify no_sprint service request (some principal) (provider ∷ []) version
      let_in refl reserved may_write
