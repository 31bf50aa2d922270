-- ===== src/Auth/Claims/Granted.antt =====
-- What a token is granted by the rules that it matches (server/oidc/claims.go: matchRules).
use niks.Common.{
  List, [], ◌∷◌, ◌++◌, Option, none, Bool, ◌&&◌, ◌||◌, if◌then◌else◌, list_eq, nat_eq,
}
use niks.Common.{
  ◌≡◌, refl, ap, sym, ◌∙◌, arith, contains, anyb, is_none, contains-append, Option-cases, inl, inr,
}
use niks.Auth.Glob.{Bytes}
use niks.Auth.Claims.{
  Scope, scope_eq, Rule, Value, Fields, Mismatch, rule_mismatch, add_scopes, match_loop,
  match_rules, match_result, Match, granted, no_rule_matched,
}

-- Over all rules that the claims match.
module _ (sprint : Value → Bytes) (claims : Fields) where
  abbrev pub is_matched : Rule → Bool
  is_matched r = is_none (rule_mismatch sprint claims r)

  contains-add_scopes :
      (scopes new : List Scope) (s : Scope)
      → contains (add_scopes scopes new) s ≡ (contains scopes s || contains new s)
  unfolding add_scopes contains
  contains-add_scopes scopes [] s = ground arith
  contains-add_scopes scopes (t ∷ new) s =
      contains-add_scopes (if contains scopes t then scopes else scopes ++ (t ∷ [])) new s
      ∙ ground (arith, contains-append scopes (t ∷ []) s, scope_eq.test_iff t s)

  match_loop_scopes :
      (rules : List Rule) (scopes : List Scope) (pins : List Bytes) (first : Option Mismatch)
      (s : Scope)
      → contains (match_loop sprint claims rules scopes pins first).0 s
        ≡ (contains scopes s || anyb (λ r. is_matched r && contains r.scopes s) rules)
  unfolding match_loop anyb
  match_loop_scopes [] scopes pins first s = ground arith
  match_loop_scopes (r ∷ rules) scopes pins first s =
      elim (Option-cases (rule_mismatch sprint claims r)) [
        | inl e ↦
            rw (e, match_loop)
              (match_loop_scopes rules (add_scopes scopes r.scopes) (pins ++ r.pins) first s
                ∙ ground (arith, contains-add_scopes scopes r.scopes s))
        | inr (m, e) ↦ rw (e, match_loop) (match_loop_scopes rules scopes pins _ s)
      ]

  match_loop_pins :
      (rules : List Rule) (scopes : List Scope) (pins : List Bytes) (first : Option Mismatch)
      (p : Bytes)
      → contains (match_loop sprint claims rules scopes pins first).1 p
        ≡ (contains pins p || anyb (λ r. is_matched r && contains r.pins p) rules)
  unfolding match_loop anyb
  match_loop_pins [] scopes pins first p = ground arith
  match_loop_pins (r ∷ rules) scopes pins first p =
      elim (Option-cases (rule_mismatch sprint claims r)) [
        | inl e ↦
            rw (e, match_loop)
              (match_loop_pins rules (add_scopes scopes r.scopes) (pins ++ r.pins) first p
                ∙ ground (arith, contains-append pins r.pins p))
        | inr (m, e) ↦ rw (e, match_loop) (match_loop_pins rules scopes pins _ p)
      ]

  abbrev pub granted_scopes : Match → List Scope
  granted_scopes (granted scopes pins) = scopes
  granted_scopes (no_rule_matched e) = []

  match_result_scopes :
      (scopes : List Scope) (pins : List Bytes) (first : Option Mismatch)
      → granted_scopes (match_result scopes pins first) ≡ scopes
  unfolding match_result
  match_result_scopes [] pins first = refl
  match_result_scopes (s ∷ ss) pins first = refl

  match_result_pins :
      (found : List Scope) (held : List Bytes) (first : Option Mismatch) (scopes : List Scope)
      (pins : List Bytes)
      → match_result found held first ≡ granted scopes pins
      → held ≡ pins
  unfolding match_result
  match_result_pins [] held first scopes pins e = cc
  match_result_pins (s ∷ ss) held first scopes pins e = cc

  -- A token has a scope exactly if some rule that its claims match lists the scope; with no such
  -- rule the token is refused.
  pub match_rules_scopes :
      (rules : List Rule) (s : Scope)
      → contains (granted_scopes (match_rules sprint claims rules)) s
        ≡ anyb (λ r. is_matched r && contains r.scopes s) rules
  unfolding match_rules contains
  match_rules_scopes rules s =
      ap (λ ss. contains ss s) (match_result_scopes _ _ _) ∙ match_loop_scopes rules [] [] none s

  -- The pin patterns of an accepted token are those of the rules that its claims match.
  pub match_rules_pins :
      (rules : List Rule) (scopes : List Scope) (pins : List Bytes) (p : Bytes)
      → match_rules sprint claims rules ≡ granted scopes pins
      → contains pins p ≡ anyb (λ r. is_matched r && contains r.pins p) rules
  unfolding match_rules contains
  match_rules_pins rules scopes pins p e =
      ap (λ ps. contains ps p) (sym (match_result_pins _ _ _ scopes pins e))
      ∙ match_loop_pins rules [] [] none p
