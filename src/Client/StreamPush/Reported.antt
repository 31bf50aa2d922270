-- ===== src/Client/StreamPush/Reported.antt =====
-- What is reported of each path (client/streampush.go: upload, uploadRequest).
use niks.Common.{ℕ, suc, String, none, List, [], ◌∷◌, map, true, ◌&&◌, ◌||◌, leb, nat_beq, length}
use niks.Common.{
  ◌≡◌, ◌≢◌, refl, ap, inl, inr, Bool-cases, Option-cases, contains, string_eq, ==_refl, subst,
}
use niks.Client.StreamPush.{
  StreamPusher, StreamResult, StreamStatus, status_ok, status_error, failed, result, isolate,
  upload, stream_isolation_probes,
}

abbrev pub reported : List StreamResult → List String
reported = map (λ r. r.path)

module _ {W : Type 0} (s : StreamPusher W) where
  path-result : (id : ℕ) (status : StreamStatus) (m p : String) → (result s id status m p).path ≡ p
  unfolding result
  path-result id status_ok m p = refl
  path-result id status_error m p = refl

  reported-result :
      (id : ℕ) (status : StreamStatus) (m : String) (ps : List String)
      → reported (map (result s id status m) ps) ≡ ps
  reported-result id st m [] = refl
  reported-result id st m (p ∷ ps) = rw (path-result id st m p, reported-result id st m ps)

  reported-failed : (e : String) (ps : List String) → reported (map (failed e) ps) ≡ ps
  reported-failed e [] = refl
  reported-failed e (p ∷ ps) = ap (λ xs. p ∷ xs) (reported-failed e ps)

  reported-isolate :
      (e : String) (ps : List String) (succeeded failures : ℕ) (w : W)
      → reported (isolate s e ps succeeded failures w).0 ≡ ps
  unfolding isolate
  reported-isolate e [] succeeded failures w = refl
  reported-isolate e (p ∷ ps) succeeded failures w =
      elim (Bool-cases (nat_beq succeeded 0 && leb stream_isolation_probes failures)) [
        | inl stop ↦ rw (stop, isolate) (ap (λ xs. p ∷ xs) (reported-failed e ps))
        | inr go ↦ elim (Option-cases (s.push w (p ∷ [])).0) [
          | inr (x, a) ↦
              rw (go, isolate)
                (rw (a, isolate)
                  (ap (λ xs. p ∷ xs)
                    (reported-isolate e ps succeeded (suc failures) (s.push w (p ∷ [])).1)))
          | inl a ↦
              rw (go, isolate)
                (rw (a, isolate)
                  (rw (path-result 0 status_ok "" p) (
                    ap (λ xs. p ∷ xs)
                      (reported-isolate e ps (suc succeeded) failures (s.push w (p ∷ [])).1))))
        ]
      ]

  -- Uploading a batch reports each of its paths once, in their order, whatever the pushes answer.
  pub reported-upload : (batch : List String) (w : W) → reported (upload s batch w).0 ≡ batch
  unfolding upload
  reported-upload batch w = elim (Option-cases (s.push w batch).0) [
    | inl a ↦ rw (a, upload) (reported-result 0 status_ok "" batch)
    | inr (e, a) ↦ elim (Bool-cases (nat_beq (length batch) 1 || s.cancelled (s.push w batch).1)) [
      | inl c ↦ rw (a, upload) (rw (c, upload) (reported-failed e batch))
      | inr c ↦ rw (a, upload) (rw (c, upload) (reported-isolate e batch 0 0 (s.push w batch).1))
    ]
  ]

only_path : (j p : String) → j ≡ p → contains (j ∷ []) p ≡ true
unfolding contains
only_path j p h = rw (h, ==_refl p)

-- Every push of the path fails.
abbrev pub Refused : {W : Type 0} → StreamPusher W → String → Type 0
Refused {W} s p = (w : W) (ps : List String) → contains ps p ≡ true → (s.push w ps).0 ≢ none

-- The results of the path are errors.
abbrev pub OnlyErrors : String → List StreamResult → Type 0
OnlyErrors p [] = Unit {0}
OnlyErrors p (r ∷ rs) = (r.path ≡ p → r.status ≡ status_error) × OnlyErrors p rs

OnlyErrors-failed : (e p : String) (ps : List String) → OnlyErrors p (map (failed e) ps)
OnlyErrors-failed e p [] = tt
OnlyErrors-failed e p (j ∷ ps) = (λ h. refl, OnlyErrors-failed e p ps)

module _ {W : Type 0} (s : StreamPusher W) (p : String) (refused : Refused s p) where
  isolate-OnlyErrors :
      (e : String) (ps : List String) (succeeded failures : ℕ) (w : W)
      → OnlyErrors p (isolate s e ps succeeded failures w).0
  unfolding isolate
  isolate-OnlyErrors e [] succeeded failures w = tt
  isolate-OnlyErrors e (j ∷ ps) succeeded failures w =
      elim (Bool-cases (nat_beq succeeded 0 && leb stream_isolation_probes failures)) [
        | inl stop ↦ rw (stop, isolate) (λ h. refl, OnlyErrors-failed e p ps)
        | inr go ↦ elim (Option-cases (s.push w (j ∷ [])).0) [
          | inr (x, a) ↦
              rw (go, isolate)
                (rw (a, isolate)
                  (
                    λ h. refl,
                    isolate-OnlyErrors e ps succeeded (suc failures) (s.push w (j ∷ [])).1,
                  ))
          | inl a ↦
              rw (go, isolate)
                (rw (a, isolate)
                  (
                    λ h. absurd (
                        refused w (j ∷ [])
                          (only_path j p
                            (subst (λ (x : String). x ≡ p) (path-result s 0 status_ok "" j) h))
                          a),
                    isolate-OnlyErrors e ps (suc succeeded) failures (s.push w (j ∷ [])).1,
                  ))
        ]
      ]

  -- A path of the batch that no push takes is reported as failed and never as cached.
  pub upload-OnlyErrors :
      (batch : List String) (w : W) → contains batch p ≡ true → OnlyErrors p (upload s batch w).0
  unfolding upload
  upload-OnlyErrors batch w m = elim (Option-cases (s.push w batch).0) [
    | inl a ↦ absurd (refused w batch m a)
    | inr (e, a) ↦ elim (Bool-cases (nat_beq (length batch) 1 || s.cancelled (s.push w batch).1)) [
      | inl c ↦ rw (a, upload) (rw (c, upload) (OnlyErrors-failed e p batch))
      | inr c ↦ rw (a, upload) (rw (c, upload) (isolate-OnlyErrors e batch 0 0 (s.push w batch).1))
    ]
  ]
