-- ===== src/Hook/Worker/Backoff.antt =====
-- The worker's delay between rounds without progress (hook/worker.go: nextBackoff), in nanoseconds.
use niks.Common.{ℕ, zero, suc, ◌*◌, ◌<◌}
use niks.Common.{if◌then◌else◌, ltb, string_eq, nat_eq}
use niks.Common.{◌≡◌, refl, ap, ◌∙◌, arith}
use native.Mathlib.Nat.{pow-suc}
use niks.Common.{◌^◌, min, nat_beq}

abbrev pub initial_backoff : ℕ
initial_backoff = 1_000_000_000

abbrev pub max_backoff : ℕ
max_backoff = 900_000_000_000

unfoldable pub next_backoff : ℕ → ℕ
next_backoff current =
    if nat_beq current 0
    then initial_backoff
    else (let next = current * 2 in if ltb max_backoff next then max_backoff else next)

-- The delay after some rounds without progress.
unfoldable pub backoff_after : ℕ → ℕ
unfolding next_backoff
backoff_after zero = 0
backoff_after (suc n) = next_backoff (backoff_after n)

two_pow_pos : (n : ℕ) → 0 < 2 ^ n
two_pow_pos zero = omega arith
two_pow_pos (suc n) = omega (arith, pow-suc 2 n, two_pow_pos n)

next_backoff-min : (x : ℕ) → 0 < x → next_backoff x ≡ min (x * 2) max_backoff
unfolding next_backoff
next_backoff-min x h = ground arith

doubled :
    (x : ℕ)
    → min (min (initial_backoff * x) max_backoff * 2) max_backoff
      ≡ min (initial_backoff * (2 * x)) max_backoff
doubled x = omega arith

-- The delay doubles from one second and stays at fifteen minutes.
pub backoff_after-min : (n : ℕ) → backoff_after (suc n) ≡ min (initial_backoff * 2 ^ n) max_backoff
unfolding backoff_after
backoff_after-min zero = unfold next_backoff in refl
backoff_after-min (suc n) =
    ap next_backoff (backoff_after-min n)
    ∙ next_backoff-min (min (initial_backoff * 2 ^ n) max_backoff) (omega (arith, two_pow_pos n))
    ∙ doubled (2 ^ n)
    ∙ omega (arith, pow-suc 2 n)
