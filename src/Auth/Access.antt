-- ===== src/Auth/Access.antt =====
-- Access checks of the server (server/auth.go, server/mtls.go, server/oidc/validator.go). What a
-- request carries is read off it beforehand: headers by `r.Header.Get`, the password of Basic
-- authentication by net/http, the subject of the verified client certificate by crypto/tls.
pub mod Sound
use niks.Common.{Option, none, some, List, [], ◌∷◌, ◌++◌, ℕ}
use niks.Common.{
  Bool, true, false, not, ◌&&◌, ◌||◌, if◌then◌else◌, ◌==◌, list_eq, nat_eq, anyb, contains,
}
use niks.Common.Table.{Table}
use niks.Auth.Glob.{Bytes}
use niks.Auth.Claims.{
  Scope, scope_eq, read, write, admin, Rule, Value, Fields, Match, granted, no_rule_matched,
  match_rules, glob_match_any,
}

pub record Request : Type 0 where
  pub peer_subject : Option Bytes
  pub header : Bytes → Bytes
  pub basic_password : Option Bytes

-- `ProviderConfig`, the fields that decide about access.
pub record Provider : Type 0 where
  pub issuer : Bytes
  pub audience : Bytes
  pub bound_claims : Table Bytes (List Bytes)
  pub bound_subject : List Bytes
  pub scopes : List Scope
  pub pins : List Bytes
  pub rules : List Rule

-- `effectiveRules`.
unfoldable pub effective_rules : Provider → List Rule
effective_rules p = elim p.rules [
  | r ∷ rs ↦ r ∷ rs
  | [] ↦
      record {
        bound_claims = p.bound_claims;
        bound_subject = p.bound_subject;
        scopes = elim p.scopes [ [] ↦ write ∷ [] | s ∷ ss ↦ s ∷ ss ];
        pins = p.pins;
      }
      ∷ []
]

-- `Service`, the fields that decide about access; `providers` is `none` without OIDC.
pub record Service : Type 0 where
  pub native_mtls : Bool
  pub mtls_proxy_header : Bytes
  pub mtls_subject_header : Bytes
  pub mtls_bound_subjects : List Bytes
  pub mtls_bound_subjects_read : List Bytes
  pub api_token : Bytes
  pub providers : Option (List Provider)

pub record Principal : Type 0 where
  pub scopes : List Scope
  pub pins : List Bytes

abbrev pub admin_principal : Principal
admin_principal = record { scopes = read ∷ write ∷ admin ∷ []; pins = [] }

unfoldable pub grants_scope : List Provider → Scope → Bool
unfolding effective_rules anyb contains
grants_scope providers s =
    anyb (λ p. anyb (λ (r : Rule). contains r.scopes s) (effective_rules p)) providers

unfoldable pub reserves_pin : List Provider → Bytes → Bool
unfolding effective_rules anyb glob_match_any
reserves_pin providers name =
    anyb (λ p. anyb (λ (r : Rule). glob_match_any r.pins name) (effective_rules p)) providers

abbrev is_empty_list {ℓ} : {A : Type ℓ} → List A → Bool
is_empty_list [] = true
is_empty_list (_ ∷ _) = false

abbrev success : Bytes
success = b'S' ∷ b'U' ∷ b'C' ∷ b'C' ∷ b'E' ∷ b'S' ∷ b'S' ∷ []

unfoldable pub mtls_subject : Service → Request → Option Bytes
mtls_subject s r =
    if s.native_mtls
    then r.peer_subject
    else if is_empty_list s.mtls_proxy_header || not (r.header s.mtls_proxy_header == success)
    then none
    else some (r.header s.mtls_subject_header)

unfoldable pub mtls_check : Service → Request → List Bytes → Bool
unfolding mtls_subject glob_match_any
mtls_check s r bound_subjects = elim (mtls_subject s r) [
  | none ↦ false
  | some subject ↦
      if is_empty_list bound_subjects
      then true
      else if is_empty_list subject
      then false
      else glob_match_any bound_subjects subject
]

-- `strings.CutPrefix`.
unfoldable pub cut_prefix : Bytes → Bytes → Option Bytes
cut_prefix [] s = some s
cut_prefix (c ∷ p) [] = none
cut_prefix (c ∷ p) (d ∷ s) = let rest = cut_prefix p s in if c == d then rest else none

abbrev bearer : Bytes
bearer = b'B' ∷ b'e' ∷ b'a' ∷ b'r' ∷ b'e' ∷ b'r' ∷ b' ' ∷ []

abbrev authorization : Bytes
authorization =
    b'A' ∷ b'u' ∷ b't' ∷ b'h' ∷ b'o' ∷ b'r' ∷ b'i' ∷ b'z' ∷ b'a' ∷ b't' ∷ b'i' ∷ b'o' ∷ b'n' ∷ []

unfoldable pub request_token : Request → Bytes
unfolding cut_prefix
request_token r = elim (cut_prefix bearer (r.header authorization)) [
  | some token ↦ token
  | none ↦ elim r.basic_password [ some password ↦ password | none ↦ [] ]
]

unfoldable pub read_gated : Service → Bool
unfolding grants_scope
read_gated s =
    not (is_empty_list s.mtls_bound_subjects_read)
    || (elim s.providers [ none ↦ false | some ps ↦ grants_scope ps read ])

pub data Access : Type 0 where
  unauthorized forbidden : Access
  allowed : Option Principal → Access

-- What go-oidc answers: `none` if it cannot verify the token for the provider, else the claims,
-- if they can be decoded.
module _ (verify : Provider → Bytes → Option (Option Fields)) (sprint : Value → Bytes) where
  unfoldable pub validate_token : List Provider → Bytes → Option Principal
  unfolding effective_rules match_rules
  validate_token [] token = none
  validate_token (p ∷ ps) token =
      let rest = validate_token ps token in
      elim (verify p token) [
        | none ↦ rest
        | some decoded ↦ elim decoded [
          | none ↦ none
          | some claims ↦ elim (match_rules sprint claims (effective_rules p)) [
            | granted scopes pins ↦ some (record { scopes = scopes; pins = pins })
            | no_rule_matched e ↦ none
          ]
        ]
      ]

  -- Anyone who may upload or administer may also read.
  unfoldable pub with_read : Principal → Principal
  unfolding contains
  with_read p = if contains p.scopes read then p else record p { scopes = p.scopes ++ (read ∷ []) }

  unfoldable pub authenticate : Service → Request → Option Principal
  unfolding mtls_check request_token validate_token with_read
  authenticate s r =
      let token = request_token r in
      if mtls_check s r s.mtls_bound_subjects
      then some admin_principal
      else if not (is_empty_list s.mtls_bound_subjects_read)
          && mtls_check s r s.mtls_bound_subjects_read
      then some (record { scopes = read ∷ []; pins = [] })
      else if is_empty_list token
      then none
      else if not (is_empty_list s.api_token) && token == s.api_token
      then some admin_principal
      else (elim s.providers [
        | none ↦ none
        | some ps ↦ elim (validate_token ps token) [ none ↦ none | some p ↦ some (with_read p) ]
      ])

  -- `RequireScope`: whether the handler runs, and with which principal in its context.
  unfoldable pub require_scope : Service → Scope → Request → Access
  unfolding read_gated authenticate contains
  require_scope s scope r =
      if scope == read && not (read_gated s) then allowed none else (elim (authenticate s r) [
        | none ↦ unauthorized
        | some p ↦ if contains p.scopes scope then allowed (some p) else forbidden
      ])

-- `mayWritePin`, for the principal in the request's context.
unfoldable pub may_write_pin : Service → Option Principal → Bytes → Bool
unfolding reserves_pin contains glob_match_any
may_write_pin s principal name = elim s.providers [
  | none ↦ true
  | some ps ↦
      if reserves_pin ps name
      then (elim principal [
        | none ↦ false
        | some p ↦ contains p.scopes admin || glob_match_any p.pins name
      ])
      else true
]
