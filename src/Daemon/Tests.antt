-- ===== src/Daemon/Tests.antt =====
-- Runs of the models of internal/daemon, and the theorems at concrete inputs.
use herd_wake.Prelude.{
  ℕ, ◌≤◌, ◌≡◌, ◌⊎◌, refl, false, List, [], ◌∷◌, none, true, codes, length, equal, All,
}
use herd_wake.Prelude.Int.{pos}
use herd_wake.Process.Supervisor.Types.{State, running, stopped}
use herd_wake.Idle.Tracker.{Tracker, begin_stop}
use herd_wake.Daemon.Budget.{
  Proj, Request, start_called, neither, refused, CapacityError, is_always_on, requests_in_flight,
  victim, try_reserve, count_running, count_entry, claim, first_victim, eviction_order,
  block_reason,
}
use herd_wake.Daemon.Budget.Caps.{reserve_within_caps}
use herd_wake.Daemon.Budget.Attempts.{neither_evicts_three}
use herd_wake.Daemon.Budget.Victims.{Evictable, Spared, victim_least_active}
use herd_wake.Daemon.Budget.Evictions.{NamesAll, reserve_stops-Evictable}

abbrev tracker : ℕ → Tracker
tracker last = record {
  inflight = pos 0;
  persistent = pos 0;
  last_activity = last;
  gate = none;
  closed = [];
  lease_until = 0;
}

abbrev idle_proj : ℕ → State → ℕ → Proj
idle_proj id state last = record {
  id = id;
  name = id ∷ [];
  always_on = false;
  dynamic = false;
  entry = none;
  state = state;
  started_at = 1;
  tracker = tracker last;
}

abbrev newcomer : Proj
newcomer = idle_proj 0 stopped 0

abbrev request : ℕ → Request
request cap = record { project = newcomer; cap = cap; entry_cap = 0; gate = 0; now = 100 }

-- Two run under a cap of two: the one active longest ago goes.
abbrev two : List Proj
two = newcomer ∷ idle_proj 1 running 30 ∷ idle_proj 2 running 20 ∷ []

two_starts : (try_reserve (request 2) two).answer ≡ start_called
unfolding try_reserve count_running count_entry eviction_order block_reason begin_stop equal
two_starts = refl

reserve_within_caps_example :
    let after = claim 0 (try_reserve (request 2) two).states in
    (◌≡◌ {A = ℕ} 2 0 ⊎ (count_running after ≤ 2)) × (◌≡◌ {A = ℕ} 0 0 ⊎ (count_entry none after ≤ 0))
unfolding equal
reserve_within_caps_example = reserve_within_caps (request 2) two refl refl two_starts

two_victim :
    first_victim (eviction_order two) 0 100
    ≡ victim (idle_proj 2 running 20) (begin_stop (tracker 20) 0 100).0
unfolding first_victim eviction_order block_reason begin_stop
two_victim = refl

victim_least_active_example :
    Evictable 100 (idle_proj 2 running 20) × All (Spared 0 100 (idle_proj 2 running 20)) two
victim_least_active_example =
    victim_least_active two 0 100 (idle_proj 2 running 20) (begin_stop (tracker 20) 0 100).0
      two_victim

-- One of two projects serves a request and the other is always_on, with room for two: the newcomer is
-- refused.
abbrev busy : List Proj
busy =
    newcomer
    ∷ record (idle_proj 1 running 30) {
      name = codes "shop";
      tracker = record (tracker 30) { inflight = pos 1 };
    }
    ∷ record (idle_proj 2 running 20) { name = codes "blog"; always_on = true }
    ∷ []

-- the refusal names both
busy_blockers :
    (e : CapacityError) × ((try_reserve (request 2) busy).answer ≡ refused e)
    × (e.blockers
        ≡ record { name = codes "blog"; reason = is_always_on }
          ∷ record { name = codes "shop"; reason = requests_in_flight (pos 1) }
          ∷ [])
unfolding try_reserve count_running count_entry eviction_order block_reason begin_stop equal
busy_blockers = (_, refl, refl)

reserve_stops-Evictable_example :
    All (Evictable 100) (try_reserve (request 2) busy).evicted
    × NamesAll
        (request 2)
        (try_reserve (request 2) busy).answer
        (try_reserve (request 2) busy).states
reserve_stops-Evictable_example = reserve_stops-Evictable (request 2) busy

-- Four idle projects run when the cap is lowered to two: all three that must go are stopped, and yet
-- the start is neither made nor refused.
abbrev four : List Proj
four =
    newcomer
    ∷ idle_proj 1 running 30
    ∷ idle_proj 2 running 20
    ∷ idle_proj 3 running 40
    ∷ idle_proj 4 running 10
    ∷ []

four_neither : (try_reserve (request 2) four).answer ≡ neither
unfolding try_reserve count_running count_entry eviction_order block_reason begin_stop equal
four_neither = refl

four_room : count_running (try_reserve (request 2) four).states ≡ 1
unfolding try_reserve count_running count_entry eviction_order block_reason begin_stop equal
four_room = refl

neither_evicts_three_example : length (try_reserve (request 2) four).evicted ≡ 3
neither_evicts_three_example = neither_evicts_three (request 2) four four_neither
