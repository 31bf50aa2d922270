-- ===== src/Auth/Access/Sound.antt =====
-- Why a request is let in (server/auth.go: authenticate, RequireScope, mayWritePin).
use niks.Common.{
  Option, none, some, List, [], ◌∷◌, Bool, true, false, not, ◌&&◌, ◌||◌, if◌then◌else◌, ◌==◌,
}
use niks.Common.{
  ==_refl, list_eq, nat_eq, anyb, contains, contains-append, ◌≡◌, ◌≢◌, refl, sym, ap, ◌∙◌, ◌⊎◌, inl,
  inr, arith, Bool-cases, Option-cases,
}
use niks.Auth.Glob.{Bytes}
use niks.Auth.Claims.{
  Scope, scope_eq, read, write, admin, Rule, Value, Fields, Match, granted, no_rule_matched,
  match_rules, glob_match_any, accepts,
}
use niks.Auth.Claims.Granted.{is_matched, granted_scopes, match_rules_scopes, match_rules_pins}
use niks.Auth.Access.{
  Request, Provider, Service, Principal, admin_principal, effective_rules, mtls_check,
  request_token, validate_token, with_read, authenticate, require_scope, may_write_pin, allowed,
  reserves_pin, is_empty_list,
}

abbrev pub AnyOf : {A : Type 0} → (A → Type 0) → List A → Type 0
AnyOf P [] = ⊥
AnyOf P (x ∷ xs) = P x ⊎ AnyOf P xs

-- The chain of tests in `authenticate`.
first_of :
    (c d t a : Bool) (x y : Principal) (rest : Option Principal) {p : Principal}
    → (if c then some x else if d then some y else if t then none else if a then some x else rest)
      ≡ some p
    → ((c ≡ true) × (p ≡ x)) ⊎ (p ≡ y) ⊎ ((a ≡ true) × (p ≡ x)) ⊎ (rest ≡ some p)
first_of true d t a x y rest e = inl (refl, cc)
first_of false true t a x y rest e = inr (inl cc)
first_of false false true a x y rest e = cc
first_of false false false true x y rest e = inr (inr (inl (refl, cc)))
first_of false false false false x y rest e = inr (inr (inr e))

both : (a b : Bool) → (a && b) ≡ true → (a ≡ true) × (b ≡ true)
both true b h = (refl, h)
both false b h = cc

false_of : (a : Bool) → not a ≡ true → a ≡ false
false_of true h = cc
false_of false h = refl

module _ (verify : Provider → Bytes → Option (Option Fields)) (sprint : Value → Bytes) where
  -- A provider whose verified claims match a rule that passes the test.
  abbrev pub RuleOf : Bytes → (Rule → Bool) → Provider → Type 0
  RuleOf token test p =
      (claims : Fields) × (verify p token ≡ some (some claims))
      × (anyb (λ r. is_matched sprint claims r && test r) (effective_rules p) ≡ true)

  -- Each scope and each pin pattern of a token comes from a matching rule.
  abbrev Backed : List Provider → Bytes → Principal → Type 0
  Backed ps token q =
      ((s : Scope)
        → contains q.scopes s ≡ true
        → AnyOf (RuleOf token (λ r. contains r.scopes s)) ps)
      × ((j : Bytes) → contains q.pins j ≡ true → AnyOf (RuleOf token (λ r. contains r.pins j)) ps)

  Match-cases :
      (m : Match)
      → ((ss : List Scope) × (js : List Bytes) × (m ≡ granted ss js))
        ⊎ ((e : _) × (m ≡ no_rule_matched e))
  Match-cases (granted ss js) = inl (ss, js, refl)
  Match-cases (no_rule_matched e) = inr (e, refl)

  validate_token-Backed :
      (ps : List Provider) (token : Bytes) (q : Principal)
      → validate_token verify sprint ps token ≡ some q
      → Backed ps token q
  unfolding validate_token
  validate_token-Backed [] token q e = cc
  validate_token-Backed (p ∷ ps) token q e = elim (Option-cases (verify p token)) [
    | inl v ↦
        let (ss, js) = validate_token-Backed ps token q (ground (arith, e, v)) in
        (λ s m. inr (ss s m), λ j m. inr (js j m))
    | inr (decoded, v) ↦ elim (Option-cases decoded) [
      | inl d ↦ absurd (ground (arith, e, v, d))
      | inr (claims, d) ↦ elim (Match-cases (match_rules sprint claims (effective_rules p))) [
        | inr (x, m) ↦ absurd (ground (arith, e, v, d, m))
        | inl (ss, js, m) ↦
            let made : q ≡ record { scopes = ss; pins = js } = ground (arith, e, v, d, m) in
            let held : verify p token ≡ some (some claims) = cc in
            (
              λ s h. inl (
                claims,
                held,
                sym (match_rules_scopes sprint claims (effective_rules p) s)
                    ∙ ap (λ x. contains (granted_scopes sprint claims x) s) m
                    ∙ ap (λ (x : Principal). contains x.scopes s) (sym made)
                    ∙ h,
              ),
              λ j h. inl (
                claims,
                held,
                sym (match_rules_pins sprint claims (effective_rules p) ss js j m)
                    ∙ ap (λ (x : Principal). contains x.pins j) (sym made)
                    ∙ h,
              ),
            )
      ]
    ]
  ]

  -- The four ways to be somebody.
  abbrev IsToken : Service → Request → Type 0
  IsToken s r = (request_token r ≡ s.api_token) × (is_empty_list s.api_token ≡ false)

  abbrev Known : Service → Request → Principal → Type 0
  Known s r p =
      ((mtls_check s r s.mtls_bound_subjects ≡ true) × (p ≡ admin_principal))
      ⊎ (p ≡ record { scopes = read ∷ []; pins = [] })
      ⊎ (IsToken s r × (p ≡ admin_principal))
      ⊎ ((ps : List Provider) × (q : Principal) × (s.providers ≡ some ps)
          × (validate_token verify sprint ps (request_token r) ≡ some q)
          × (p ≡ with_read verify sprint q))

  authenticate-Known :
      (s : Service) (r : Request) (p : Principal)
      → authenticate verify sprint s r ≡ some p
      → Known s r p
  unfolding authenticate
  authenticate-Known s r p e =
      elim (first_of (mtls_check s r s.mtls_bound_subjects)
        (not (is_empty_list s.mtls_bound_subjects_read)
          && mtls_check s r s.mtls_bound_subjects_read)
        (is_empty_list (request_token r))
        (not (is_empty_list s.api_token) && request_token r == s.api_token) _ _ _ e) [
          | inl c ↦ inl c
          | inr (inl d) ↦ inr (inl d)
          | inr (inr (inl a)) ↦
              let (some_token, same) =
                both (not (is_empty_list s.api_token)) (request_token r == s.api_token) a.0 in
              inr (
                inr (
                  inl (
                    (
                      (list_eq.test_iff (request_token r) s.api_token).0 same,
                      false_of (is_empty_list s.api_token) some_token,
                    ),
                    a.1,
                  )))
          | inr (inr (inr x)) ↦ elim (Option-cases s.providers) [
            | inl n ↦ absurd (ground (arith, x, n))
            | inr (ps, f) ↦
                elim (Option-cases (validate_token verify sprint ps (request_token r))) [
                  | inl n ↦ absurd (ground (arith, x, f, n))
                  | inr (q, v) ↦ inr (inr (inr (ps, q, f, v, ground (arith, x, f, v))))
                ]
          ]
        ]

  contains-with_read :
      (q : Principal) (s : Scope)
      → contains (with_read verify sprint q).scopes s ≡ true
      → s ≢ read
      → contains q.scopes s ≡ true
  unfolding with_read contains
  contains-with_read q s h n =
      ground (arith, h, n, contains-append q.scopes (read ∷ []) s, scope_eq.test_iff read s)

  pins-with_read : (q : Principal) → (with_read verify sprint q).pins ≡ q.pins
  unfolding with_read
  pins-with_read q = ground arith

  -- Full rights by certificate or by the server's own token.
  abbrev pub IsAdmin : Service → Request → Type 0
  IsAdmin s r =
      (mtls_check s r s.mtls_bound_subjects ≡ true)
      ⊎ ((request_token r ≡ s.api_token) × (is_empty_list s.api_token ≡ false))

  -- A rule of some provider that the request's verified token matches.
  abbrev pub ByRule : Service → Request → (Rule → Bool) → Type 0
  ByRule s r test =
      (ps : List Provider) × (s.providers ≡ some ps) × AnyOf (RuleOf (request_token r) test) ps

  require_scope-Known :
      (s : Service) (scope : Scope) (r : Request) (q : Option Principal)
      → scope ≢ read
      → require_scope verify sprint s scope r ≡ allowed q
      → (p : Principal) × (q ≡ some p) × Known s r p × (contains p.scopes scope ≡ true)
  unfolding require_scope
  require_scope-Known s scope r q n e =
      let other : (scope == read) ≡ false = ground (arith, n, scope_eq.test_iff scope read) in
      elim (Option-cases (authenticate verify sprint s r)) [
        | inl a ↦ absurd (ground (arith, e, other, a))
        | inr (p, a) ↦ elim (Bool-cases (contains p.scopes scope)) [
          | inl h ↦ (p, ground (arith, e, other, a, h), authenticate-Known s r p a, h)
          | inr h ↦ absurd (ground (arith, e, other, a, h))
        ]
      ]

  granted_by :
      (s : Service) (r : Request) (p : Principal) (scope : Scope)
      → scope ≢ read
      → Known s r p
      → contains p.scopes scope ≡ true
      → IsAdmin s r ⊎ ByRule s r (λ u. contains u.scopes scope)
  unfolding contains
  granted_by s r p scope n (inl c) h = inl (inl c.0)
  granted_by s r p scope n (inr (inl d)) h =
      absurd (n (ground (arith, h, d, scope_eq.test_iff read scope)))
  granted_by s r p scope n (inr (inr (inl a))) h = inl (inr a.0)
  granted_by s r p scope n (inr (inr (inr (ps, q, f, v, w)))) h = inr (
    ps,
    f,
    (validate_token-Backed ps (request_token r) q v).0 scope (
        contains-with_read q scope (ap (λ (x : Principal). contains x.scopes scope) (sym w) ∙ h) n),
  )

  -- A handler behind the write or the admin scope runs only for a request with a client
  -- certificate that the server accepts, with the server's own token, or with a token that some
  -- provider verified and whose claims match a rule that lists the scope.
  pub require_scope_sound :
      (s : Service) (scope : Scope) (r : Request) (q : Option Principal)
      → scope ≢ read
      → require_scope verify sprint s scope r ≡ allowed q
      → IsAdmin s r ⊎ ByRule s r (λ u. contains u.scopes scope)
  require_scope_sound s scope r q n e =
      let (p, _, known, h) = require_scope-Known s scope r q n e in granted_by s r p scope n known h

  glob_match_any_by :
      (pins : List Bytes) (name : Bytes)
      → glob_match_any pins name ≡ true
      → (j : Bytes) × (contains pins j ≡ true) × (accepts j name ≡ true)
  unfolding glob_match_any anyb contains
  glob_match_any_by [] name h = cc
  glob_match_any_by (j ∷ pins) name h = elim (Bool-cases (accepts j name)) [
    | inl m ↦ (j, rw (==_refl j), m)
    | inr m ↦
        let (i, c, x) = glob_match_any_by pins name (ground (arith, h, m)) in
        (i, ground (arith, c), x)
  ]

  pin_by :
      (s : Service) (r : Request) (p : Principal) (name : Bytes)
      → Known s r p
      → glob_match_any p.pins name ≡ true
      → IsAdmin s r ⊎ ((j : Bytes) × (accepts j name ≡ true) × ByRule s r (λ u. contains u.pins j))
  unfolding glob_match_any anyb
  pin_by s r p name (inl c) h = inl (inl c.0)
  pin_by s r p name (inr (inl d)) h = absurd (ground (arith, h, d))
  pin_by s r p name (inr (inr (inl a))) h = inl (inr a.0)
  pin_by s r p name (inr (inr (inr (ps, q, f, v, w)))) h =
      let (j, c, m) = glob_match_any_by p.pins name h in
      let given : contains q.pins j ≡ true =
        ap (λ x. contains x j) (sym (pins-with_read q))
        ∙ ap (λ (x : Principal). contains x.pins j) (sym w)
        ∙ c in
      inr (j, m, (ps, f, (validate_token-Backed ps (request_token r) q v).1 j given))

  -- A request that passes the write check may set a reserved pin only if it is an administrator's,
  -- by certificate, by the server's own token or by a rule, or if its token matches a rule with a
  -- pin pattern that accepts the name.
  pub reserved_pin_sound :
      (s : Service) (r : Request) (q : Option Principal) (ps : List Provider) (name : Bytes)
      → require_scope verify sprint s write r ≡ allowed q
      → s.providers ≡ some ps
      → reserves_pin ps name ≡ true
      → may_write_pin s q name ≡ true
      → IsAdmin s r
        ⊎ ByRule s r (λ u. contains u.scopes admin)
        ⊎ ((j : Bytes) × (accepts j name ≡ true) × ByRule s r (λ u. contains u.pins j))
  unfolding may_write_pin
  reserved_pin_sound s r q ps name e f reserved may =
      let (p, here, known, _) = require_scope-Known s write r q (λ x. cc) e in
      let test : (contains p.scopes admin || glob_match_any p.pins name) ≡ true =
        ground (arith, may, f, reserved, here) in
      elim (Bool-cases (contains p.scopes admin)) [
        | inl a ↦ elim (granted_by s r p admin (λ x. cc) known a) [
          | inl x ↦ inl x
          | inr y ↦ inr (inl y)
        ]
        | inr a ↦ elim (pin_by s r p name known (ground (arith, test, a))) [
          | inl x ↦ inl x
          | inr y ↦ inr (inr y)
        ]
      ]
