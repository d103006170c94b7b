-- ===== src/Idle/Tests.antt =====
-- Runs of the models of internal/idle, and the theorems at concrete inputs.
use herd_wake.Prelude.{
  ℕ, ◌+◌, ◌*◌, ◌/◌, ◌≤◌, ◌<◌, ◌≡◌, refl, true, false, arith, List, [], ◌∷◌, none,
}
use herd_wake.Prelude.Int.{pos}
use herd_wake.Process.Supervisor.Types.{running}
use herd_wake.Idle.Tracker.{Tracker, begin_stop, request_began, deadline, parked, arm, lease_until}
use herd_wake.Idle.Monitor.{
  Monitor, new_monitor, Moment, tick, Idle, distance, interval_nearest, min_poll_interval,
  max_poll_interval, wake_slack, tick_stops-Idle, next_tick_stops, Tick,
}
use herd_wake.Idle.Handshake.{
  quiet, Event, plain, momentary, counted, held, stopping, arrives, acts, reads_gate, tries_to_stop,
  loads_inflight, loads_persistent, loads_lease, run, step, act_at, try_stop, load_inflight,
  load_persistent, load_lease, begin,
}
use herd_wake.Idle.Handshake.Blocked.{in_flights, kept_opens}
use herd_wake.Idle.Handshake.Safety.{counters_exact, stopping-AllBehind, AllBehind}

-- A request that comes while the gate is up, before and after the counters are read.
abbrev race : List Event
race =
    tries_to_stop
    ∷ loads_inflight
    ∷ arrives plain
    ∷ loads_persistent
    ∷ loads_lease 100
    ∷ acts 0 reads_gate
    ∷ arrives momentary
    ∷ []

race_stops : (run quiet race).stopper ≡ stopping 0
unfolding run step quiet begin request_began try_stop load_inflight load_persistent load_lease
    act_at arm lease_until
race_stops = refl

race_handlers :
    (run quiet race).handlers
    ≡ record { kind = momentary; phase = counted } ∷ record { kind = plain; phase = held 0 } ∷ []
unfolding run step quiet begin request_began try_stop load_inflight load_persistent load_lease
    act_at arm lease_until
race_handlers = refl

counters_exact_example :
    ((run quiet race).tracker.inflight ≡ pos (in_flights (run quiet race).handlers))
    × ((run quiet race).tracker.persistent ≡ pos (kept_opens (run quiet race).handlers))
counters_exact_example = counters_exact race

stopping-AllBehind_example : AllBehind 0 (run quiet race).handlers
stopping-AllBehind_example = stopping-AllBehind race 0 race_stops

abbrev minute : ℕ
minute = 60_000_000_000

-- a timeout of a tenth of a second, whose tenth is too short
interval_nearest_example :
    (min_poll_interval ≤ (new_monitor 100_000_000).interval)
    × ((new_monitor 100_000_000).interval ≤ max_poll_interval)
    × (distance (new_monitor 100_000_000).interval (100_000_000 / 10)
        ≤ distance 1_000_000_000 (100_000_000 / 10))
interval_nearest_example = interval_nearest 100_000_000 1_000_000_000 (omega arith) (omega arith)

-- A project that started at 1 and served its last request at 2, seen twenty minutes later.
abbrev served : Tracker
served = record {
  inflight = pos 0;
  persistent = pos 0;
  last_activity = 2;
  gate = none;
  closed = [];
  lease_until = 0;
}

abbrev later : Moment
later = record {
  now = 20 * minute;
  tracker = served;
  snap = record {
    state = running;
    pid = 4711;
    started_at = 1;
    last_exit = [];
    last_error = none;
    next_retry_at = 0;
  };
}

abbrev monitor : Monitor
monitor = record { timeout = 15 * minute; interval = max_poll_interval }

tick-later : (tick monitor running later served 0 (20 * minute) later).stops ≡ true
unfolding tick deadline parked begin_stop
tick-later = refl

tick_stops-Idle_example : Idle monitor served (20 * minute) later
tick_stops-Idle_example =
    tick_stops-Idle monitor running later served 0 (20 * minute) later tick-later

-- the same project, seen a minute after its start
abbrev early : Moment
early = record later { now = minute }

abbrev early_tick : Tick
early_tick = tick monitor running early served 0 minute early

abbrev wake : Moment
wake = record early { now = minute + early_tick.sleep }

early_is_free : parked served minute ≡ false
unfolding parked lease_until
early_is_free = refl

early_is_early : minute < deadline served 1 (15 * minute)
unfolding deadline
early_is_early = omega arith

next_tick_stops_example :
    (early_tick.stops ≡ false)
    × (wake.now ≡ deadline served 1 (15 * minute) + wake_slack)
    × ((tick monitor running wake served 0 wake.now wake).stops ≡ true)
next_tick_stops_example =
    next_tick_stops monitor early served 0 minute early refl early_is_free refl early_is_early
