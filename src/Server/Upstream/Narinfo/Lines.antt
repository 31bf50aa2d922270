-- ===== src/Server/Upstream/Narinfo/Lines.antt =====
-- The lines of a narinfo and the words of a line, read back from the text (server/upstream.go).
use mathlib.Core.List.{append-nil, append_assoc}
use niks.Common.{
  ℕ, List, [], ◌∷◌, ◌++◌, Bool, true, false, not, ◌&&◌, if◌then◌else◌, ◌==◌, nat_eq, list_eq,
  contains, contains-append, ==_refl, ◌≡◌, ◌≢◌, refl, sym, ap, ◌∙◌, arith,
}
use niks.Common.Split.{join, Pieces}
use niks.Server.Keys.{Key}
use niks.Server.Upstream.Narinfo.{trim_right, split, terminated, fields, flush, is_space}

trim_right-cons :
    (c x : ℕ) (s : Key) → trim_right c s ≢ [] → trim_right c (x ∷ s) ≡ x ∷ trim_right c s
unfolding trim_right
trim_right-cons c x s h = by_rest (trim_right c s) h
  where
    by_rest :
        (r : Key)
        → r ≢ []
        → (elim r [ [] ↦ if x == c then [] else x ∷ [] | y ∷ t ↦ x ∷ y ∷ t ]) ≡ x ∷ r
    by_rest [] h = absurd (h refl)
    by_rest (y ∷ t) h = refl

-- Only a text's end is trimmed.
trim_right-append :
    (c : ℕ) (a s : Key) → trim_right c s ≢ [] → trim_right c (a ++ s) ≡ a ++ trim_right c s
trim_right-append c [] s h = refl
trim_right-append c (x ∷ a) s h =
    let rest = trim_right-append c a s h in
    trim_right-cons c x (a ++ s) (λ e. append-ne-nil a (trim_right c s) h (sym rest ∙ e))
    ∙ ap (λ t. x ∷ t) rest
  where
    append-ne-nil : (a s : Key) → s ≢ [] → a ++ s ≢ []
    append-ne-nil [] s h e = h e
    append-ne-nil (x ∷ a) s h e = cc

trim_right-end : (c : ℕ) (a : Key) → contains a c ≡ false → trim_right c (a ++ c ∷ []) ≡ a
unfolding trim_right contains
trim_right-end c [] h = ground arith
trim_right-end c (x ∷ []) h = ground (arith, h)
trim_right-end c (x ∷ y ∷ a) h = rw (trim_right-end c (y ∷ a) (ground (arith, h))) refl

join-ne-nil : (c : ℕ) (l : Key) (ls : List Key) → l ≢ [] → join c (l ∷ ls) ≢ []
unfolding join
join-ne-nil c l [] h e = h e
join-ne-nil c [] (m ∷ ms) h e = h refl
join-ne-nil c (x ∷ l) (m ∷ ms) h e = cc

-- A text of lines without its last end of line.
trim_right-terminated :
    (c : ℕ) (l : Key) (ls : List Key)
    → Pieces c (l ∷ ls)
    → trim_right c (terminated c (l ∷ ls)) ≡ join c (l ∷ ls)
unfolding terminated join
trim_right-terminated c l [] p = trim_right-end c l p.0.1
trim_right-terminated c l (m ∷ ms) p =
    let rest = trim_right-terminated c m ms p.1 in
    let some_rest : trim_right c (terminated c (m ∷ ms)) ≢ [] =
      λ e. join-ne-nil c m ms p.1.0.0 (sym rest ∙ e) in
    let tail = trim_right-cons c c (terminated c (m ∷ ms)) some_rest in
    trim_right-append c l (c ∷ terminated c (m ∷ ms)) (λ e. cc (tail, e))
    ∙ ap (λ t. l ++ t) (tail ∙ ap (λ t. c ∷ t) rest)

split-one : (c : ℕ) (l : Key) → contains l c ≡ false → split c l ≡ l ∷ []
unfolding split contains
split-one c [] h = refl
split-one c (x ∷ l) h =
    let e : x == c ≡ false = ground (arith, h) in rw (split-one c l (ground (arith, h)), e) refl

split-append : (c : ℕ) (l s : Key) → contains l c ≡ false → split c (l ++ c ∷ s) ≡ l ∷ split c s
unfolding split contains
split-append c [] s h = rw (==_refl c) refl
split-append c (x ∷ l) s h =
    let e : x == c ≡ false = ground (arith, h) in
    rw (split-append c l s (ground (arith, h)), e) refl

split-join :
    (c : ℕ) (l : Key) (ls : List Key) → Pieces c (l ∷ ls) → split c (join c (l ∷ ls)) ≡ l ∷ ls
unfolding join
split-join c l [] p = split-one c l p.0.1
split-join c l (m ∷ ms) p =
    split-append c l (join c (m ∷ ms)) p.0.1 ∙ ap (λ t. l ∷ t) (split-join c m ms p.1)

-- Lines are found again in their text.
pub split-trim_right-terminated :
    (c : ℕ) (l : Key) (ls : List Key)
    → Pieces c (l ∷ ls)
    → split c (trim_right c (terminated c (l ∷ ls))) ≡ l ∷ ls
split-trim_right-terminated c l ls p =
    ap (split c) (trim_right-terminated c l ls p) ∙ split-join c l ls p

-- No white space.
unfoldable pub spaceless : Key → Bool
spaceless [] = true
spaceless (c ∷ s) = not (is_space c) && spaceless s

fields-append :
    (word a s : Key)
    → spaceless a ≡ true
    → fields word (a ++ 32 ∷ s) ≡ flush (word ++ a) (fields [] s)
unfolding fields spaceless
fields-append word [] s h = rw (append-nil word) refl
fields-append word (x ∷ a) s h =
    let e : is_space x ≡ false = ground (arith, h) in
    rw (e) (fields-append (word ++ x ∷ []) a s (ground (arith, h)))
    ∙ ap (λ w. flush w (fields [] s)) (append_assoc word (x ∷ []) a)

fields-one : (word a : Key) → spaceless a ≡ true → fields word a ≡ flush (word ++ a) []
unfolding fields spaceless
fields-one word [] h = rw (append-nil word) refl
fields-one word (x ∷ a) h =
    let e : is_space x ≡ false = ground (arith, h) in
    rw (e) (fields-one (word ++ x ∷ []) a (ground (arith, h)))
    ∙ ap (λ w. flush w []) (append_assoc word (x ∷ []) a)

-- Words, not empty and without white space.
abbrev pub Words : List Key → Type 0
Words [] = Unit
Words (w ∷ ws) = ((w ≢ []) × (spaceless w ≡ true)) × Words ws

flush-word : (w : Key) (ws : List Key) → w ≢ [] → flush w ws ≡ w ∷ ws
flush-word [] ws h = absurd (h refl)
flush-word (c ∷ w) ws h = refl

-- Words are found again in the text that a space joins them to.
pub fields-join : (ws : List Key) → Words ws → fields [] (join 32 ws) ≡ ws
unfolding join fields
fields-join [] p = refl
fields-join (w ∷ []) p = fields-one [] w p.0.1 ∙ flush-word w [] p.0.0
fields-join (w ∷ v ∷ ws) p =
    fields-append [] w (join 32 (v ∷ ws)) p.0.1
    ∙ flush-word w _ p.0.0
    ∙ ap (λ t. w ∷ t) (fields-join (v ∷ ws) p.1)

spaceless-lacks : (w : Key) → spaceless w ≡ true → contains w b'\n' ≡ false
unfolding spaceless contains
spaceless-lacks [] h = refl
spaceless-lacks (c ∷ w) h = ground (arith, spaceless-lacks w)

-- Words joined stand on one line.
pub join-lacks : (ws : List Key) → Words ws → contains (join 32 ws) b'\n' ≡ false
unfolding join contains
join-lacks [] p = refl
join-lacks (w ∷ []) p = spaceless-lacks w p.0.1
join-lacks (w ∷ v ∷ ws) p =
    contains-append w (32 ∷ join 32 (v ∷ ws)) b'\n'
    ∙ ground (arith, spaceless-lacks w p.0.1, join-lacks (v ∷ ws) p.1)
