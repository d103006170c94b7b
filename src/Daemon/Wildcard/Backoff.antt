-- ===== src/Daemon/Wildcard/Backoff.antt =====
-- internal/daemon/wildcard.go: `resolveBackoff`, the pause behind a label that could not be resolved.
use Prim.Native.Nat.{min}
use herd_wake.Prelude.{ℕ, zero, suc, ◌-◌, ◌*◌, ◌^◌, ◌≡◌, sym, ◌∙◌, ltb, if◌then◌else◌, arith}
use herd_wake.Process.Supervisor.Backoff.{
  second, backoff_delay, backoff_delay-min, pow-suc_mul, le-pow_mul,
}

abbrev pub resolve_backoff_base : ℕ
resolve_backoff_base = second

abbrev pub resolve_backoff_max : ℕ
resolve_backoff_max = 30 * second

-- the loop, with its rounds left
unfoldable pub resolve_doubled : (rounds d : ℕ) → ℕ
resolve_doubled zero d = min d resolve_backoff_max
resolve_doubled (suc rounds) d =
    let rest = resolve_doubled rounds (d * 2) in
    if ltb d resolve_backoff_max then rest else min d resolve_backoff_max

-- `resolveBackoff`
unfoldable pub resolve_backoff : ℕ → ℕ
resolve_backoff n = resolve_doubled (n - 1) resolve_backoff_base

resolve_doubled-min :
    (rounds d : ℕ) → resolve_doubled rounds d ≡ min resolve_backoff_max (2 ^ rounds * d)
unfolding resolve_doubled
resolve_doubled-min zero d = ground arith
resolve_doubled-min (suc rounds) d =
    ground
      (arith, resolve_doubled-min rounds (d * 2), pow-suc_mul rounds d, le-pow_mul (suc rounds) d)

-- After the n-th consecutive failure (n ≥ 1) a label pauses as long as a project does after its n-th
-- failed start, though the two loops test the limit at different places.
pub resolve_backoff-backoff_delay : (n : ℕ) → resolve_backoff (suc n) ≡ backoff_delay (suc n)
unfolding resolve_backoff
resolve_backoff-backoff_delay n =
    let rounds : suc n - 1 ≡ n = omega arith in
    rw rounds (resolve_doubled-min n second ∙ sym (backoff_delay-min n))
