-- ===== src/Process/Supervisor/Backoff.antt =====
-- internal/process/supervisor.go: `backoffDelay`, the pause before an automatic retry.
use Prim.Native.Nat.{min}
use native.Mathlib.Nat.{two-pow-succ}
use herd_wake.Prelude.{ℕ, zero, suc, ◌*◌, ◌^◌, ◌≤◌, ◌≡◌, ltb, leb, if◌then◌else◌, arith}

abbrev pub second : ℕ
second = 1_000_000_000

abbrev pub backoff_base : ℕ
backoff_base = second

abbrev pub backoff_max : ℕ
backoff_max = 30 * second

-- the loop, with its rounds left
pub doubled : (rounds d : ℕ) → ℕ
doubled zero d = if ltb backoff_max d then backoff_max else d
doubled (suc rounds) d =
    let rest = doubled rounds (d * 2) in if leb backoff_max (d * 2) then backoff_max else rest

unfoldable pub backoff_delay : ℕ → ℕ
unfolding doubled
backoff_delay zero = 0
backoff_delay (suc failures) = doubled failures backoff_base

pow-pos : (n : ℕ) → 1 ≤ 2 ^ n
pow-pos zero = omega arith
pow-pos (suc n) = omega (arith, two-pow-succ n, pow-pos n)

pub pow-suc_mul : (n d : ℕ) → 2 ^ suc n * d ≡ 2 ^ n * (d * 2)
pow-suc_mul n d = rw (two-pow-succ n) (omega arith)

pub le-pow_mul : (n d : ℕ) → d ≤ 2 ^ n * d
le-pow_mul n d = grind (arith, pow-pos n)

-- The loop is the capped power.
doubled-min : (rounds d : ℕ) → doubled rounds d ≡ min backoff_max (2 ^ rounds * d)
unfolding doubled
doubled-min zero d = ground arith
doubled-min (suc rounds) d =
    ground (arith, doubled-min rounds (d * 2), pow-suc_mul rounds d, le-pow_mul rounds (d * 2))

-- After the n-th consecutive failure (n ≥ 1) the pause is one second doubled n - 1 times, and never
-- more than thirty seconds.
pub backoff_delay-min :
    (failures : ℕ) → backoff_delay (suc failures) ≡ min backoff_max (2 ^ failures * backoff_base)
unfolding backoff_delay
backoff_delay-min failures = doubled-min failures backoff_base
