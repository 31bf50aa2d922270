-- ===== src/Server/System/Ids.antt =====
-- The rows of `pending_closures` by their ids (server/pg/query.sql).
use niks.Common.{ℕ, ◌≤◌, ◌<◌, String, some, List, [], ◌∷◌}
use niks.Common.{Bool, true, ◌==◌, string_eq, nat_eq}
use niks.Common.{◌≡◌, subst, ◌≢◌, inl, inr, arith, Bool-cases}
use niks.Common.{filterb, anyb}
use niks.Server.Db.{PendingClosure, Db, lists_key, is_pending}
use niks.Server.Push.{find_pending}
use niks.Server.Push.Rows.{All}

-- Ids fall along the list and stay under the next one.
abbrev pub Descending : ℕ → List PendingClosure → Type 0
Descending n [] = Unit {0}
Descending n (c ∷ cs) = (c.id < n) × Descending c.id cs

pub Descending-mono :
    {m n : ℕ} (cs : List PendingClosure) → m ≤ n → Descending m cs → Descending n cs
Descending-mono [] h d = tt
Descending-mono (c ∷ cs) h d = (omega arith, d.1)

pub Descending-filterb :
    (p : PendingClosure → Bool) (n : ℕ) (cs : List PendingClosure)
    → Descending n cs
    → Descending n (filterb p cs)
unfolding filterb
Descending-filterb p n [] d = tt
Descending-filterb p n (c ∷ cs) d = elim (Bool-cases (p c)) [
  | inl e ↦ rw (e, filterb) (d.0, Descending-filterb p c.id cs d.1)
  | inr e ↦ rw (e, filterb) (Descending-mono _ (omega arith) (Descending-filterb p c.id cs d.1))
]

pub All-map {ℓ κ μ} :
    {A : Type ℓ} (P : A → Type κ) (Q : A → Type μ) (xs : List A)
    → ((x : A) → P x → Q x)
    → All P xs
    → All Q xs
All-map P Q [] f h = tt
All-map P Q (x ∷ xs) f h = (f x h.0, All-map P Q xs f h.1)

pub All-find {ℓ} :
    (P : PendingClosure → Type ℓ) (id : ℕ) (cs : List PendingClosure) (c : PendingClosure)
    → find_pending id cs ≡ some c
    → All P cs
    → P c
unfolding find_pending
All-find P id [] c e h = cc
All-find P id (d ∷ cs) c e h = elim (Bool-cases (d.id == id)) [
  | inl y ↦ subst P (ground (arith, y, e)) h.0
  | inr n ↦ All-find P id cs c (ground (arith, n, e)) h.1
]

-- To prove a fact of every push, prove it of the one with the id, and of those with another.
pub All-by_id :
    (P : PendingClosure → Type 0) (n id : ℕ) (cs : List PendingClosure) (c : PendingClosure)
    → Descending n cs
    → find_pending id cs ≡ some c
    → P c
    → All (λ d. d.id ≢ id → P d) cs
    → All P cs
unfolding find_pending
All-by_id P n id [] c d e h f = tt
All-by_id P n id (x ∷ cs) c d e h f = elim (Bool-cases (x.id == id)) [
  | inl y ↦ (subst P (ground (arith, y, e)) h, skip x.id cs d.1 f.1 (ground (arith, y)))
  | inr m ↦ (f.0 (ground (arith, m)), All-by_id P x.id id cs c d.1 (ground (arith, m, e)) h f.1)
]
  where
    skip :
        (m : ℕ) (ds : List PendingClosure)
        → Descending m ds
        → All (λ d. d.id ≢ id → P d) ds
        → m ≤ id
        → All P ds
    skip m [] k g l = tt
    skip m (d ∷ ds) k g l = (g.0 (omega arith), skip d.id ds k.1 g.1 (omega arith))

All-swap {ℓ κ μ} :
    {A : Type ℓ} {K : Type κ} (P : K → A → Type μ) (xs : List A)
    → ((k : K) → All (P k) xs)
    → All (λ x. (k : K) → P k x) xs
All-swap P [] h = tt
All-swap P (x ∷ xs) h = (λ k. (h k).0, All-swap P xs (λ k. (h k).1))

pub All-map₂ {ℓ κ μ ν} :
    {A : Type ℓ} (P : A → Type κ) (Q : A → Type μ) (R : A → Type ν) (xs : List A)
    → ((x : A) → P x → Q x → R x)
    → All P xs
    → All Q xs
    → All R xs
All-map₂ P Q R [] f h g = tt
All-map₂ P Q R (x ∷ xs) f h g = (f x h.0 g.0, All-map₂ P Q R xs f h.1 g.1)

listed :
    (p : PendingClosure → Bool) (cs : List PendingClosure)
    → All (λ c. p c ≡ true → anyb p cs ≡ true) cs
unfolding anyb
listed p [] = tt
listed p (c ∷ cs) = (λ e. rw (e, anyb), All-map _ _ cs (λ d h e. ground (arith, h e)) (listed p cs))

-- What a push lists is pending.
pub listed-is_pending :
    (db : Db)
    → All
        (λ c. (k : String) → lists_key c.objects k ≡ true → is_pending db k ≡ true)
        db.pending_closures
unfolding is_pending
listed-is_pending db =
    All-swap _ db.pending_closures (λ k. listed (λ c. lists_key c.objects k) db.pending_closures)

pub find_pending_lt :
    (n id : ℕ) (cs : List PendingClosure) (c : PendingClosure)
    → Descending n cs
    → find_pending id cs ≡ some c
    → id < n
unfolding find_pending
find_pending_lt n id [] c d e = cc
find_pending_lt n id (x ∷ cs) c d e = ground (arith, find_pending_lt x.id id cs c d.1)
