-- ===== src/Auth/Glob/Correct.antt =====
-- GlobMatch (server/oidc/claims.go) against the meaning of patterns.
use niks.Common.{ℕ, zero, suc, ◌+◌, ◌*◌, ◌≤◌, ◌<◌, Option, none, some, [], ◌∷◌}
use niks.Common.{Bool, true, false, nat_beq, length, drop, contains, nat_eq, arith}
use niks.Common.{◌≡◌, ◌≢◌, ◌↔◌, refl, sym, ap, subst, ◌∙◌, ◌⊎◌, inl, inr, Bool-cases}
use native.Mathlib.Nat.{suc-mul, mul-le-mul_right}
use niks.Auth.Glob.{
  Bytes, move, Move, advance, note_star, go_back, all_stars, glob_loop, glob_match, glob_fuel,
}
use niks.Auth.Glob.Matches.{
  Matches, same, star_done, star_more, Suffix, here, later, Suffix_tail, Suffix_trans, Suffix_nil,
  advance_Matches, note_star_Matches, advance_inv, note_star_inv, go_back_inv, all_stars-Matches,
  all_stars_complete, nothing-Matches,
}

Move-cases : (m : Move) → (m ≡ advance) ⊎ (m ≡ note_star) ⊎ (m ≡ go_back)
Move-cases advance = inl refl
Move-cases note_star = inr (inl refl)
Move-cases go_back = inr (inr refl)

-- Going back to the star succeeds: what follows the star matches a later suffix.
abbrev Retried : Bytes → Bytes → Type 0
Retried after from = (t : Bytes) × Suffix t (drop 1 from) × Matches after t

abbrev Fallback : Option (Bytes × Bytes) → Type 0
Fallback none = ⊥
Fallback (some (after, from)) = Retried after from

Retried-Matches :
    (after : Bytes) (c : ℕ) (s : Bytes)
    → Matches after (c ∷ s) ⊎ Retried after (c ∷ s)
    → (t : Bytes) × Suffix t (c ∷ s) × Matches after t
Retried-Matches after c s (inl m) = (c ∷ s, here, m)
Retried-Matches after c s (inr (t, l, m)) = (t, later l, m)

Suffix_drop : {t : Bytes} (from : Bytes) → Suffix t (drop 1 from) → Suffix t from
Suffix_drop [] l = l
Suffix_drop (c ∷ from) l = later l

retry_again :
    (after from : Bytes)
    → Matches after (drop 1 from) ⊎ Retried after (drop 1 from)
    → Retried after from
retry_again after from (inl m) = (drop 1 from, here, m)
retry_again after from (inr (t, l, m)) = (t, Suffix_drop (drop 1 from) l, m)

glob_loop_sound :
    (fuel : ℕ) (pat str : Bytes) (star : Option (Bytes × Bytes))
    → glob_loop fuel pat str star ≡ some true
    → Matches pat str ⊎ Fallback star
unfolding glob_loop
glob_loop_sound zero pat str star e = cc
glob_loop_sound (suc fuel) pat [] star e = inl (all_stars-Matches pat (ground (arith, e)))
glob_loop_sound (suc fuel) pat (c ∷ s) none e = elim (Move-cases (move pat c)) [
  | inl m ↦ elim (glob_loop_sound fuel (drop 1 pat) s none (ground (arith, e, m))) [
    | inl r ↦ inl (advance_Matches pat c s m r)
    | inr f ↦ inr f
  ]
  | inr (inl m) ↦
      let r =
        glob_loop_sound fuel (drop 1 pat) (c ∷ s) (some (drop 1 pat, c ∷ s))
          (ground (arith, e, m)) in
      let (t, l, x) = Retried-Matches (drop 1 pat) c s r in inl (note_star_Matches pat c m l x)
  | inr (inr m) ↦ absurd (ground (arith, e, m))
]
glob_loop_sound (suc fuel) pat (c ∷ s) (some (after, from)) e = elim (Move-cases (move pat c)) [
  | inl m ↦ elim (glob_loop_sound fuel (drop 1 pat) s (some (after, from)) (ground (arith, e, m))) [
    | inl r ↦ inl (advance_Matches pat c s m r)
    | inr f ↦ inr f
  ]
  | inr (inl m) ↦
      let r =
        glob_loop_sound fuel (drop 1 pat) (c ∷ s) (some (drop 1 pat, c ∷ s))
          (ground (arith, e, m)) in
      let (t, l, x) = Retried-Matches (drop 1 pat) c s r in inl (note_star_Matches pat c m l x)
  | inr (inr m) ↦ inr (
      retry_again after from (
        glob_loop_sound fuel after (drop 1 from) (some (after, drop 1 from))
          (ground (arith, e, m))))
]

-- The part of the pattern since the star has matched: a way to match from the star on is a way
-- to match from here on.
abbrev Since : Bytes → Bytes → Option (Bytes × Bytes) → Type 0
Since pat str none = Unit {0}
Since pat str (some (after, from)) =
    (t : Bytes)
    → Suffix t (drop 1 from)
    → Matches after t
    → (u : Bytes) × Suffix u str × Matches pat u

abbrev NoStar : Bytes → Option (Bytes × Bytes) → Type 0
NoStar str none = contains str b'*' ≡ false
NoStar str (some (after, from)) = (contains str b'*' ≡ false) × (contains from b'*' ≡ false)

not_star : (c : ℕ) (s : Bytes) → contains (c ∷ s) b'*' ≡ false → c ≢ b'*'
unfolding contains
not_star c s h e = ground (arith, h, e)

tail-NoStar : (c : ℕ) (s : Bytes) → contains (c ∷ s) b'*' ≡ false → contains s b'*' ≡ false
unfolding contains
tail-NoStar c s h = ground (arith, h)

drop-NoStar : (s : Bytes) → contains s b'*' ≡ false → contains (drop 1 s) b'*' ≡ false
drop-NoStar [] h = h
drop-NoStar (c ∷ s) h = tail-NoStar c s h

-- A byte of the string taken off both.
advance_since :
    (pat : Bytes) (c : ℕ) (s : Bytes) {u : Bytes}
    → move pat c ≡ advance
    → c ≢ b'*'
    → Suffix u (c ∷ s)
    → Matches pat u
    → (v : Bytes) × Suffix v s × Matches (drop 1 pat) v
advance_since pat c s m n l x =
    let (y, v, split, rest) = advance_inv pat c m n x in (v, tail_of y v split l, rest)
  where
    tail_of : (y : ℕ) (v : Bytes) {u : Bytes} → u ≡ y ∷ v → Suffix u (c ∷ s) → Suffix v s
    tail_of y v e here = subst (λ (x : Bytes). Suffix v x) (ap (drop 1) (sym e)) here
    tail_of y v e (later k) = Suffix_tail (subst (λ (x : Bytes). Suffix x s) e k)

advance_here :
    (pat : Bytes) (c : ℕ) (s : Bytes)
    → move pat c ≡ advance
    → c ≢ b'*'
    → Matches pat (c ∷ s)
    → Matches (drop 1 pat) s
advance_here pat c s m n x =
    let (y, v, split, rest) = advance_inv pat c m n x in
    subst (λ (x : Bytes). Matches (drop 1 pat) x) (ap (drop 1) (sym split)) rest

-- A way to match from a new star on, as the loop sees it.
at_star :
    (after : Bytes) (c : ℕ) (s : Bytes)
    → (u : Bytes) × Suffix u (c ∷ s) × Matches after u
    → Matches after (c ∷ s) ⊎ Retried after (c ∷ s)
at_star after c s (u, l, x) = split l x
  where
    split :
        {u : Bytes}
        → Suffix u (c ∷ s)
        → Matches after u
        → Matches after (c ∷ s) ⊎ Retried after (c ∷ s)
    split here x = inl x
    split (later k) x = inr (_, k, x)

at_next :
    (after from : Bytes)
    → Retried after from
    → Matches after (drop 1 from) ⊎ Retried after (drop 1 from)
at_next after from (u, l, x) = split (drop 1 from) l x
  where
    split :
        {u : Bytes} (s : Bytes) → Suffix u s → Matches after u → Matches after s ⊎ Retried after s
    split s here x = inl x
    split (c ∷ s) (later k) x = inr (_, k, x)

-- On strings without stars, the loop does not miss a match.
glob_loop_complete :
    (fuel : ℕ) (pat str : Bytes) (star : Option (Bytes × Bytes))
    → glob_loop fuel pat str star ≡ some false
    → NoStar str star
    → Since pat str star
    → ¬ (Matches pat str ⊎ Fallback star)
unfolding glob_loop
glob_loop_complete zero pat str star e n i h = cc
glob_loop_complete (suc fuel) pat [] star e n i (inl m) =
    let a = all_stars_complete m refl in ground (arith, e, a)
glob_loop_complete (suc fuel) pat [] none e n i (inr f) = f
glob_loop_complete (suc fuel) pat [] (some (after, from)) e n i (inr (t, l, x)) =
    let (u, k, m) = i t l x in
    let a = all_stars_complete m (Suffix_nil k refl) in ground (arith, e, a)
glob_loop_complete (suc fuel) pat (c ∷ s) none e n i (inr f) = f
glob_loop_complete (suc fuel) pat (c ∷ s) none e n i (inl x) = elim (Move-cases (move pat c)) [
  | inl m ↦
      glob_loop_complete fuel (drop 1 pat) s none (ground (arith, e, m)) (tail-NoStar c s n) tt
        (inl (advance_here pat c s m (not_star c s n) x))
  | inr (inl m) ↦
      glob_loop_complete fuel (drop 1 pat) (c ∷ s) (some (drop 1 pat, c ∷ s)) (ground (arith, e, m))
        (n, n) (λ t l y. (t, later l, y)) (at_star (drop 1 pat) c s (note_star_inv pat c m x))
  | inr (inr m) ↦ go_back_inv pat c s m x
]
glob_loop_complete (suc fuel) pat (c ∷ s) (some (after, from)) e n i h =
    elim (Move-cases (move pat c)) [
      | inl m ↦
          let ih =
            glob_loop_complete fuel (drop 1 pat) s (some (after, from)) (ground (arith, e, m))
              (tail-NoStar c s n.0, n.1)
              (λ t l y.
                let (u, k, x) = i t l y in advance_since pat c s m (not_star c s n.0) k x) in
          elim h [
            | inl x ↦ ih (inl (advance_here pat c s m (not_star c s n.0) x))
            | inr f ↦ ih (inr f)
          ]
      | inr (inl m) ↦
          let found : Matches pat (c ∷ s) ⊎ Retried after from
              → (u : Bytes) × Suffix u (c ∷ s) × Matches (drop 1 pat) u =
            λ g. elim g [
              | inl x ↦ note_star_inv pat c m x
              | inr f ↦
                  let (u, k, x) = i f.0 f.1 f.2 in
                  let (v, l, y) = note_star_inv pat c m x in (v, Suffix_trans l k, y)
            ] in
          glob_loop_complete fuel (drop 1 pat) (c ∷ s) (some (drop 1 pat, c ∷ s))
            (ground (arith, e, m)) (n.0, n.0) (λ t l y. (t, later l, y))
            (at_star (drop 1 pat) c s (found h))
      | inr (inr m) ↦
          let n' = drop-NoStar from n.1 in
          elim h [
            | inl x ↦ go_back_inv pat c s m x
            | inr f ↦
                glob_loop_complete fuel after (drop 1 from) (some (after, drop 1 from))
                  (ground (arith, e, m)) (n', n') (λ t l y. (t, Suffix_drop (drop 1 from) l, y))
                  (at_next after from f)
          ]
    ]

-- A bound on the rounds that are left: for each byte the whole pattern, and what is left of it.
module _ (size : ℕ) where
  abbrev Enough : ℕ → Bytes → Bytes → Option (Bytes × Bytes) → Type 0
  Enough fuel pat str none = length str * suc size + length pat < fuel
  Enough fuel pat str (some (after, from)) =
      (length from * suc size + length pat < fuel)
      × (length str ≤ length from)
      × (length after ≤ size)

  length-drop : (s : Bytes) → length (drop 1 s) ≤ length s
  length-drop [] = omega arith
  length-drop (c ∷ s) = omega arith

  advance-length :
      (pat : Bytes) (c : ℕ) → move pat c ≢ go_back → suc (length (drop 1 pat)) ≡ length pat
  unfolding move
  advance-length [] c e = absurd (e refl)
  advance-length (p ∷ ps) c e = refl

  glob_loop_total :
      (fuel : ℕ) (pat str : Bytes) (star : Option (Bytes × Bytes))
      → length pat ≤ size
      → Enough fuel pat str star
      → (b : Bool) × (glob_loop fuel pat str star ≡ some b)
  unfolding glob_loop
  glob_loop_total zero pat str none l h = absurd (omega arith)
  glob_loop_total zero pat str (some (after, from)) l h = absurd (omega (arith, h.0))
  glob_loop_total (suc fuel) pat [] star l h = (all_stars pat, refl)
  glob_loop_total (suc fuel) pat (c ∷ s) none l h = elim (Move-cases (move pat c)) [
    | inl m ↦
        let less = advance-length pat c (rw m (λ e. cc)) in
        let (b, e) =
          glob_loop_total fuel (drop 1 pat) s none (omega (arith, less))
            (omega (arith, less, suc-mul (length s) (suc size))) in
        (b, rw (m, glob_loop) e)
    | inr (inl m) ↦
        let less = advance-length pat c (rw m (λ e. cc)) in
        let (b, e) =
          glob_loop_total fuel (drop 1 pat) (c ∷ s) (some (drop 1 pat, c ∷ s)) (omega (arith, less))
            (omega (arith, less), omega arith, omega (arith, less)) in
        (b, rw (m, glob_loop) e)
    | inr (inr m) ↦ (false, rw (m, glob_loop))
  ]
  glob_loop_total (suc fuel) pat (c ∷ s) (some (after, [])) l h = absurd (omega (arith, h.1))
  glob_loop_total (suc fuel) pat (c ∷ s) (some (after, d ∷ from)) l h =
      elim (Move-cases (move pat c)) [
        | inl m ↦
            let less = advance-length pat c (rw m (λ e. cc)) in
            let (b, e) =
              glob_loop_total fuel (drop 1 pat) s (some (after, d ∷ from)) (omega (arith, less))
                (omega (arith, less, h.0), omega (arith, h.1), h.2) in
            (b, rw (m, glob_loop) e)
        | inr (inl m) ↦
            let less = advance-length pat c (rw m (λ e. cc)) in
            let more : length (c ∷ s) * suc size ≤ length (d ∷ from) * suc size =
              mul_le (length s) (length from) (omega (arith, h.1)) in
            let (b, e) =
              glob_loop_total fuel (drop 1 pat) (c ∷ s) (some (drop 1 pat, c ∷ s))
                (omega (arith, less))
                (omega (arith, less, more, h.0), omega arith, omega (arith, less)) in
            (b, rw (m, glob_loop) e)
        | inr (inr m) ↦
            let (b, e) =
              glob_loop_total fuel after from (some (after, from)) h.2
                (omega (arith, h.0, h.2, suc-mul (length from) (suc size)), omega arith, h.2) in
            (b, rw (m, glob_loop) e)
      ]
    where
      mul_le : (a b : ℕ) → a ≤ b → suc a * suc size ≤ suc b * suc size
      mul_le a b i = mul-le-mul_right (suc size) (omega arith)

any_Matches : (s : Bytes) → Matches (b'*' ∷ []) s
any_Matches [] = star_done Matches.stop
any_Matches (c ∷ s) = star_more (any_Matches s)

-- What both shortcuts and the loop give, for a fact about the answer.
glob_match_cases :
    (P : Bytes → Option Bool → Type 0) (s : Bytes)
    → (s ≡ [] → P [] (some true))
    → ((c : ℕ) (t : Bytes) → s ≡ c ∷ t → P [] (some false))
    → P (b'*' ∷ []) (some true)
    → ((p : Bytes) → P p (glob_loop (glob_fuel p s) p s none))
    → (p : Bytes) → P p (glob_match p s)
unfolding glob_match
glob_match_cases P [] empty some_byte any each [] = empty refl
glob_match_cases P (c ∷ t) empty some_byte any each [] = some_byte c t refl
glob_match_cases P s empty some_byte any each (p ∷ []) = elim (Bool-cases (nat_beq p b'*')) [
  | inl e ↦
      let star : b'*' ≡ p = ground (arith, e) in
      rw (e, glob_match) (subst (λ (x : ℕ). P (x ∷ []) (some true)) star any)
  | inr e ↦ rw (e, glob_match) (each (p ∷ []))
]
glob_match_cases P s empty some_byte any each (p ∷ q ∷ qs) = each (p ∷ q ∷ qs)

-- GlobMatch always ends with an answer: its loop has a bound.
pub glob_match_total : (p s : Bytes) → (b : Bool) × (glob_match p s ≡ some b)
glob_match_total p s =
    glob_match_cases (λ p r. (b : Bool) × (r ≡ some b)) s (λ _. (true, refl))
      (λ _ _ _. (false, refl)) (true, refl)
      (λ p. glob_loop_total (length p) (glob_fuel p s) p s none (omega arith) (omega arith)) p

-- A string that GlobMatch accepts is one that the pattern means.
pub glob_match_sound : (p s : Bytes) → glob_match p s ≡ some true → Matches p s
glob_match_sound p s =
    glob_match_cases (λ p r. r ≡ some true → Matches p s) s
      (λ h e. subst (λ (x : Bytes). Matches [] x) (sym h) Matches.stop) (λ c t h e. cc)
      (λ e. any_Matches s)
      (λ p e. elim (glob_loop_sound (glob_fuel p s) p s none e) [ inl m ↦ m | inr f ↦ absurd f ]) p

-- On a string that has no star itself, GlobMatch accepts exactly what the pattern means.
pub glob_match_exact :
    (p s : Bytes) → contains s b'*' ≡ false → (glob_match p s ≡ some true) ↔ Matches p s
glob_match_exact p s n = (glob_match_sound p s, complete)
  where
    complete : Matches p s → glob_match p s ≡ some true
    complete m =
        let (b, answer) = glob_match_total p s in
        elim (Bool-cases b) [
          | inl e ↦ answer ∙ ap some e
          | inr e ↦ absurd (
              glob_match_cases (λ p r. Matches p s → r ≢ some false) s (λ _ _ e. cc)
                (λ c t h m e. nothing-Matches m h) (λ _ e. cc)
                (λ p m e. glob_loop_complete (glob_fuel p s) p s none e n tt (inl m)) p m
                (answer ∙ ap some e))
        ]

move_other : (x c : ℕ) (ps : Bytes) → x ≢ b'?' → x ≢ b'*' → c ≢ x → move (x ∷ ps) c ≡ go_back
unfolding move
move_other x c ps q s d = ground (arith, q, s, d)

refuses :
    (fuel x c : ℕ) (ps s : Bytes)
    → move (x ∷ ps) c ≡ go_back
    → glob_loop (suc fuel) (x ∷ ps) (c ∷ s) none ≡ some false
unfolding glob_loop
refuses fuel x c ps s m = rw (m, glob_loop) refl

-- A star in the string takes up the pattern's star as a plain byte: for bytes x other than `?` and
-- `*` and c other than x, GlobMatch refuses the string "*cx" to the pattern "*x", which means it.
pub glob_match_misses :
    (x c : ℕ)
    → x ≢ b'?'
    → x ≢ b'*'
    → c ≢ x
    → (glob_match (b'*' ∷ x ∷ []) (b'*' ∷ c ∷ x ∷ []) ≡ some false)
      × Matches (b'*' ∷ x ∷ []) (b'*' ∷ c ∷ x ∷ [])
unfolding glob_match glob_loop move
glob_match_misses x c q s d = (
  refuses 10 x c [] (x ∷ []) (move_other x c [] q s d),
  star_more (star_more (star_done (same Matches.stop))),
)
