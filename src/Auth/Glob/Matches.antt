-- ===== src/Auth/Glob/Matches.antt =====
-- What a glob pattern means, apart from any algorithm (server/oidc/claims.go).
use niks.Common.{ℕ, [], ◌∷◌, ◌≡◌, ◌≢◌, refl, sym, subst, ◌⊎◌, inl, inr, arith, true, drop}
use niks.Auth.Glob.{Bytes, move, advance, note_star, go_back, all_stars}

-- `?` stands for one byte, `*` for any number of bytes, each byte for itself.
pub data Matches : Bytes → Bytes → Type 0 where
  stop : Matches [] []
  any_byte : {c : ℕ} {p s : Bytes} → Matches p s → Matches (b'?' ∷ p) (c ∷ s)
  same : {c : ℕ} {p s : Bytes} → Matches p s → Matches (c ∷ p) (c ∷ s)
  star_done : {p s : Bytes} → Matches p s → Matches (b'*' ∷ p) s
  star_more : {c : ℕ} {p s : Bytes} → Matches (b'*' ∷ p) s → Matches (b'*' ∷ p) (c ∷ s)

-- `Suffix t s`: `t` is what is left of `s` behind some of its bytes.
pub data Suffix : Bytes → Bytes → Type 0 where
  here : {s : Bytes} → Suffix s s
  later : {c : ℕ} {t s : Bytes} → Suffix t s → Suffix t (c ∷ s)

pub star_inv :
    {q : ℕ} {ps s : Bytes} → Matches (q ∷ ps) s → q ≡ b'*' → (u : Bytes) × Suffix u s × Matches ps u
star_inv (any_byte m) e = absurd (omega arith)
star_inv (same m) e = (_, later here, m)
star_inv (star_done m) e = (_, here, m)
star_inv (star_more m) e = let (u, l, r) = star_inv m e in (u, later l, r)

pub head_inv :
    {q : ℕ} {ps s : Bytes}
    → Matches (q ∷ ps) s
    → q ≢ b'*'
    → (y : ℕ) × (t : Bytes) × (s ≡ y ∷ t) × Matches ps t × ((q ≡ b'?') ⊎ (q ≡ y))
head_inv (any_byte m) n = (_, _, refl, m, inl refl)
head_inv (same m) n = (_, _, refl, m, inr refl)
head_inv (star_done m) n = absurd (n refl)
head_inv (star_more m) n = absurd (n refl)

-- A star takes up what lies before the suffix.
pub star_Suffix : {p t s : Bytes} → Suffix t s → Matches p t → Matches (b'*' ∷ p) s
star_Suffix here m = star_done m
star_Suffix (later l) m = star_more (star_Suffix l m)

pub Suffix_tail : {c : ℕ} {t s : Bytes} → Suffix (c ∷ t) s → Suffix t s
Suffix_tail here = later here
Suffix_tail (later l) = later (Suffix_tail l)

pub Suffix_trans : {t u s : Bytes} → Suffix t u → Suffix u s → Suffix t s
Suffix_trans l here = l
Suffix_trans l (later m) = later (Suffix_trans l m)

pub Suffix_nil : {t s : Bytes} → Suffix t s → s ≡ [] → t ≡ []
Suffix_nil here e = e
Suffix_nil (later l) e = cc

-- Each move, read off and on the relation.
pub advance_Matches :
    (pat : Bytes) (c : ℕ) (s : Bytes)
    → move pat c ≡ advance
    → Matches (drop 1 pat) s
    → Matches pat (c ∷ s)
unfolding move
advance_Matches [] c s e m = cc
advance_Matches (p ∷ ps) c s e m =
    let h : (p ≡ b'?') ⊎ (p ≡ c) = ground (arith, e) in
    elim h [
      | inl q ↦ subst (λ (x : ℕ). Matches (x ∷ ps) (c ∷ s)) (sym q) (any_byte m)
      | inr q ↦ subst (λ (x : ℕ). Matches (x ∷ ps) (c ∷ s)) (sym q) (same m)
    ]

pub note_star_Matches :
    (pat : Bytes) (c : ℕ) {s t : Bytes}
    → move pat c ≡ note_star
    → Suffix t s
    → Matches (drop 1 pat) t
    → Matches pat s
unfolding move
note_star_Matches [] c e l m = cc
note_star_Matches (p ∷ ps) c {s} e l m =
    let h : p ≡ b'*' = ground (arith, e) in
    subst (λ (x : ℕ). Matches (x ∷ ps) s) (sym h) (star_Suffix l m)

pub advance_inv :
    (pat : Bytes) (c : ℕ) {t : Bytes}
    → move pat c ≡ advance
    → c ≢ b'*'
    → Matches pat t
    → (y : ℕ) × (u : Bytes) × (t ≡ y ∷ u) × Matches (drop 1 pat) u
unfolding move
advance_inv [] c e n m = cc
advance_inv (p ∷ ps) c e n m =
    let (y, u, split, rest, _) = head_inv m (λ q. n (ground (arith, e, q))) in (y, u, split, rest)

pub note_star_inv :
    (pat : Bytes) (c : ℕ) {s : Bytes}
    → move pat c ≡ note_star
    → Matches pat s
    → (u : Bytes) × Suffix u s × Matches (drop 1 pat) u
unfolding move
note_star_inv [] c e m = cc
note_star_inv (p ∷ ps) c e m = star_inv m (ground (arith, e))

pub nothing-Matches : {s : Bytes} {c : ℕ} {t : Bytes} → Matches [] s → s ≢ c ∷ t
nothing-Matches stop e = cc

pub go_back_inv : (pat : Bytes) (c : ℕ) (s : Bytes) → move pat c ≡ go_back → ¬ Matches pat (c ∷ s)
unfolding move
go_back_inv [] c s e m = nothing-Matches m refl
go_back_inv (p ∷ ps) c s e m =
    let (y, u, split, rest, h) = head_inv m (λ q. ground (arith, e, q)) in
    let q : c ≡ y = cc in ground (arith, e, h, q)

pub all_stars-Matches : (pat : Bytes) → all_stars pat ≡ true → Matches pat []
unfolding all_stars
all_stars-Matches [] e = stop
all_stars-Matches (p ∷ ps) e =
    let h : p ≡ b'*' = ground (arith, e) in
    subst (λ (x : ℕ). Matches (x ∷ ps) []) (sym h)
      (star_done (all_stars-Matches ps (ground (arith, e))))

pub all_stars_complete : {pat s : Bytes} → Matches pat s → s ≡ [] → all_stars pat ≡ true
unfolding all_stars
all_stars_complete stop e = refl
all_stars_complete (any_byte m) e = cc
all_stars_complete (same m) e = cc
all_stars_complete (star_done m) e = all_stars_complete m e
all_stars_complete (star_more m) e = cc
