-- ===== src/Auth/Claims.antt =====
-- Which scopes a verified token gets (server/oidc/claims.go, server/oidc/config.go). Strings are
-- lists of bytes; a map is a list of entries, in the order in which the code goes over it.
pub mod Granted
use niks.Common.{ℕ, Option, none, some, List, [], ◌∷◌, ◌++◌}
use niks.Common.{Bool, true, false, not, ◌&&◌, ◌||◌, if◌then◌else◌, ◌==◌, Eq, nat_eq, list_eq}
use niks.Common.{◌≡◌, refl, ◌↔◌, contains, anyb, nat_beq}
use niks.Common.Table.{Table, lookup}
use niks.Auth.Glob.{Bytes, glob_match}

pub data Scope : Type 0 where
  read write admin : Scope

abbrev pub scope_beq : Scope → Scope → Bool
scope_beq read read = true
scope_beq write write = true
scope_beq admin admin = true
scope_beq _ _ = false

pub scope_beq_iff : (a b : Scope) → (scope_beq a b ≡ true) ↔ (a ≡ b)
scope_beq_iff read read = (λ _. refl, λ _. refl)
scope_beq_iff read write = (λ h. cc, λ h. cc)
scope_beq_iff read admin = (λ h. cc, λ h. cc)
scope_beq_iff write read = (λ h. cc, λ h. cc)
scope_beq_iff write write = (λ _. refl, λ _. refl)
scope_beq_iff write admin = (λ h. cc, λ h. cc)
scope_beq_iff admin read = (λ h. cc, λ h. cc)
scope_beq_iff admin write = (λ h. cc, λ h. cc)
scope_beq_iff admin admin = (λ _. refl, λ _. refl)

instance abbrev pub scope_eq : Eq Scope
scope_eq = record { test = scope_beq; test_iff = scope_beq_iff }

pub record Rule : Type 0 where
  pub bound_claims : Table Bytes (List Bytes)
  pub bound_subject : List Bytes
  pub scopes : List Scope
  pub pins : List Bytes

-- A claim's value, as JSON is decoded to `any`; `scalar` is a number, a Boolean or null.
mutual
  pub data Value : Type 0 where
    text : Bytes → Value
    array : Values → Value
    strings : List Bytes → Value
    object : Fields → Value
    scalar : ℕ → Value

  pub data Values : Type 0 where
    no_values : Values
    value : Value → Values → Values

  pub data Fields : Type 0 where
    no_fields : Fields
    field : Bytes → Value → Fields → Fields

unfoldable pub find_field : Bytes → Fields → Option Value
find_field k no_fields = none
find_field k (field j v fs) = let rest = find_field k fs in if j == k then some v else rest

unfoldable pub prepend : ℕ → List Bytes → List Bytes
prepend c [] = (c ∷ []) ∷ []
prepend c (p ∷ ps) = (c ∷ p) ∷ ps

-- `strings.Split` by one byte.
unfoldable pub split_on : ℕ → Bytes → List Bytes
unfolding prepend
split_on d [] = [] ∷ []
split_on d (c ∷ s) = let rest = split_on d s in if nat_beq c d then [] ∷ rest else prepend c rest

-- The loop of `getClaim` over the parts of a dotted name.
unfoldable pub get_nested : Value → List Bytes → Option Value
unfolding find_field
get_nested current [] = some current
get_nested (object fs) (part ∷ parts) = elim (find_field part fs) [
  | none ↦ none
  | some v ↦ get_nested v parts
]
get_nested _ (part ∷ parts) = none

unfoldable pub get_claim : Fields → Bytes → Option Value
unfolding find_field split_on get_nested
get_claim claims name = elim (find_field name claims) [
  | some v ↦ some v
  | none ↦ elim (split_on b'.' name) [
    | [] ↦ none
    | part ∷ parts ↦ elim parts [
      | [] ↦ none
      | next ∷ more ↦ get_nested (object claims) (part ∷ next ∷ more)
    ]
  ]
]

unfoldable pub texts : Values → List Bytes
texts no_values = []
texts (value (text s) vs) = s ∷ texts vs
texts (value _ vs) = texts vs

-- The loop of GlobMatch ends, so there is an answer (`glob_match_total`).
abbrev pub accepts : Bytes → Bytes → Bool
accepts pattern s = elim (glob_match pattern s) [ none ↦ false | some b ↦ b ]

-- `GlobMatchAny`.
unfoldable pub glob_match_any : List Bytes → Bytes → Bool
unfolding anyb
glob_match_any patterns s = anyb (λ p. accepts p s) patterns

pub data Mismatch : Type 0 where
  claim_not_found : Bytes → Mismatch
  claim_has_no_value : Bytes → Mismatch
  claim_not_allowed : Bytes → Mismatch
  missing_sub : Mismatch
  subject_not_allowed : Bytes → Mismatch

-- The subject claim as the code reads it: "" unless it is a string.
unfoldable pub subject_of : Fields → Bytes
unfolding find_field
subject_of claims = elim (find_field (b's' ∷ b'u' ∷ b'b' ∷ []) claims) [
  | none ↦ []
  | some v ↦ elim v [ text s ↦ s | _ ↦ [] ]
]

unfoldable pub validate_bound_subject : Fields → List Bytes → Option Mismatch
unfolding subject_of glob_match_any
validate_bound_subject claims [] = none
validate_bound_subject claims (p ∷ ps) = elim (subject_of claims) [
  | [] ↦ some missing_sub
  | c ∷ s ↦ if glob_match_any (p ∷ ps) (c ∷ s) then none else some (subject_not_allowed (c ∷ s))
]

-- The scopes of a rule that are not granted yet go behind the others.
unfoldable pub add_scopes : List Scope → List Scope → List Scope
unfolding contains
add_scopes scopes [] = scopes
add_scopes scopes (s ∷ ss) =
    add_scopes (if contains scopes s then scopes else scopes ++ (s ∷ [])) ss

pub data Match : Type 0 where
  granted : List Scope → List Bytes → Match
  no_rule_matched : Option Mismatch → Match

-- The end of `matchRules`.
unfoldable pub match_result : List Scope → List Bytes → Option Mismatch → Match
match_result [] pins first = no_rule_matched first
match_result (s ∷ ss) pins first = granted (s ∷ ss) pins

-- `sprint` is `fmt.Sprintf("%v", v)`.
module _ (sprint : Value → Bytes) where
  unfoldable pub normalize_to_string_slice : Value → List Bytes
  unfolding texts
  normalize_to_string_slice (text s) = s ∷ []
  normalize_to_string_slice (array vs) = texts vs
  normalize_to_string_slice (strings ss) = ss
  normalize_to_string_slice v = sprint v ∷ []

  unfoldable pub validate_bound_claims : Fields → Table Bytes (List Bytes) → Option Mismatch
  unfolding get_claim normalize_to_string_slice glob_match_any anyb
  validate_bound_claims claims [] = none
  validate_bound_claims claims ((name, patterns) ∷ bound) =
      let rest = validate_bound_claims claims bound in
      elim (get_claim claims name) [
        | none ↦ some (claim_not_found name)
        | some v ↦ elim (normalize_to_string_slice v) [
          | [] ↦ some (claim_has_no_value name)
          | s ∷ ss ↦
              if anyb (glob_match_any patterns) (s ∷ ss)
              then rest
              else some (claim_not_allowed name)
        ]
      ]

  unfoldable pub rule_mismatch : Fields → Rule → Option Mismatch
  unfolding validate_bound_claims validate_bound_subject
  rule_mismatch claims r = elim (validate_bound_claims claims r.bound_claims) [
    | some e ↦ some e
    | none ↦ validate_bound_subject claims r.bound_subject
  ]

  -- The loop of `matchRules`, with the scopes, pins and first error so far.
  unfoldable pub match_loop :
      Fields
      → List Rule
      → List Scope
      → List Bytes
      → Option Mismatch
      → List Scope × List Bytes × Option Mismatch
  unfolding rule_mismatch add_scopes
  match_loop claims [] scopes pins first = (scopes, pins, first)
  match_loop claims (r ∷ rs) scopes pins first =
      let matched = match_loop claims rs (add_scopes scopes r.scopes) (pins ++ r.pins) first in
      elim (rule_mismatch claims r) [
        | none ↦ matched
        | some e ↦ match_loop claims rs scopes pins (elim first [ none ↦ some e | some f ↦ some f ])
      ]

  unfoldable pub match_rules : Fields → List Rule → Match
  unfolding match_loop match_result
  match_rules claims rules =
      let (scopes, pins, first) = match_loop claims rules [] [] none in
      match_result scopes pins first
