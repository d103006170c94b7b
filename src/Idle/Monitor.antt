-- ===== src/Idle/Monitor.antt =====
-- internal/idle/monitor.go. One `tick` reads the project and its tracker at several moments, between
-- which others act: each read has its own argument. Times are nanoseconds; log lines are left out.
use herd_wake.Prelude.{
  ℕ, ◌+◌, ◌-◌, ◌/◌, ◌≤◌, ◌<◌, ◌≡◌, Bool, true, false, none, ◌&&◌, not, ltb, ◌==◌, if◌then◌else◌,
  arith,
}
use herd_wake.Prelude.Int.{is_positive}
use herd_wake.Process.Supervisor.Types.{State, running, Snapshot}
use herd_wake.Idle.Tracker.{Tracker, parked, deadline, begin_stop, arm, lease_until}

abbrev pub min_poll_interval : ℕ
min_poll_interval = 25_000_000

abbrev pub max_poll_interval : ℕ
max_poll_interval = 5_000_000_000

abbrev pub wake_slack : ℕ
wake_slack = 10_000_000

pub record Monitor : Type 0 where
  pub timeout : ℕ
  pub interval : ℕ

unfoldable pub new_monitor : (timeout : ℕ) → Monitor
new_monitor timeout =
    let at_least =
      if ltb (timeout / 10) min_poll_interval then min_poll_interval else timeout / 10 in
    record {
      timeout = timeout;
      interval = if ltb max_poll_interval at_least then max_poll_interval else at_least;
    }

-- What a tick sees at one moment.
pub record Moment : Type 0 where
  pub now : ℕ
  pub tracker : Tracker
  pub snap : Snapshot

-- How long to sleep, and whether `proc.Stop` was called.
pub record Tick : Type 0 where
  pub sleep : ℕ
  pub stops : Bool

abbrev pub is_running : State → Bool
is_running running = true
is_running _ = false

abbrev pub up : Snapshot → Bool
up s = is_running s.state && not (s.started_at == 0)

-- behind `BeginStop`, until `release`
unfoldable pub under_gate : Monitor → Moment → Tick
under_gate m x =
    let due = deadline x.tracker x.snap.started_at m.timeout in
    if not (up x.snap)
    then record { sleep = m.interval; stops = false }
    else if ltb x.now due
    then record { sleep = due - x.now + wake_slack; stops = false }
    else record { sleep = m.interval; stops = true }

-- `first` is what the first checks see, `t` at `stop_now` what `BeginStop` sees, with the new gate
-- `g`, and `second` what is read behind the gate.
unfoldable pub tick :
    Monitor
    → (lock_free : State) → (first : Moment) → (t : Tracker) → (g stop_now : ℕ) → (second : Moment)
    → Tick
unfolding under_gate
tick m lock_free first t g stop_now second =
    let due = deadline first.tracker first.snap.started_at m.timeout in
    if not (is_running lock_free)
    then record { sleep = m.interval; stops = false }
    else if parked first.tracker first.now
    then record { sleep = m.interval; stops = false }
    else if not (up first.snap)
    then record { sleep = m.interval; stops = false }
    else if ltb first.now due
    then record { sleep = due - first.now + wake_slack; stops = false }
    else if (begin_stop t g stop_now).1
    then under_gate m second
    else record { sleep = m.interval; stops = false }

-- how far apart two durations are
abbrev pub distance : ℕ → ℕ → ℕ
distance a b = (a - b) + (b - a)

-- The polling interval is between 25 milliseconds and 5 seconds, and no duration between them is nearer
-- to a tenth of the timeout.
pub interval_nearest :
    (timeout other : ℕ)
    → min_poll_interval ≤ other
    → other ≤ max_poll_interval
    → let i = (new_monitor timeout).interval in
      (min_poll_interval ≤ i)
      × (i ≤ max_poll_interval)
      × (distance i (timeout / 10) ≤ distance other (timeout / 10))
unfolding new_monitor
interval_nearest timeout other low high = ground arith

-- What a tick that stops the project has established.
pub record Idle (m : Monitor) (t : Tracker) (stop_now : ℕ) (x : Moment) : Type 0 where
  pub running_now : x.snap.state ≡ running
  pub full_window : x.snap.started_at + m.timeout ≤ x.now
  pub window_since_activity : x.tracker.last_activity + m.timeout ≤ x.now
  pub none_in_flight : is_positive t.inflight ≡ false
  pub none_persistent : is_positive t.persistent ≡ false
  pub no_lease : t.lease_until ≤ stop_now

begin_stop_quiet :
    (t : Tracker) (g now : ℕ)
    → (begin_stop t g now).1 ≡ true
    → (is_positive t.inflight ≡ false) × (is_positive t.persistent ≡ false) × (t.lease_until ≤ now)
unfolding begin_stop
begin_stop_quiet t g now e = ground arith

under_gate_idle :
    (m : Monitor) (x : Moment)
    → (under_gate m x).stops ≡ true
    → (x.snap.state ≡ running)
      × (x.snap.started_at + m.timeout ≤ x.now)
      × (x.tracker.last_activity + m.timeout ≤ x.now)
unfolding under_gate deadline
under_gate_idle m x e = ground arith

tick_path :
    (m : Monitor) (lock_free : State) (first : Moment) (t : Tracker) (g stop_now : ℕ)
    (second : Moment)
    → (tick m lock_free first t g stop_now second).stops ≡ true
    → ((begin_stop t g stop_now).1 ≡ true) × ((under_gate m second).stops ≡ true)
unfolding tick
tick_path m lock_free first t g stop_now second e = ground arith

-- A tick stops a project only if it runs, a full timeout has passed since its process started and
-- since its last activity, and, with the gate up, nothing was in flight, no protected connection was
-- open and no lease was in force.
pub tick_stops-Idle :
    (m : Monitor) (lock_free : State) (first : Moment) (t : Tracker) (g stop_now : ℕ)
    (second : Moment)
    → (tick m lock_free first t g stop_now second).stops ≡ true
    → Idle m t stop_now second
unfolding tick
tick_stops-Idle m lock_free first t g stop_now second e =
    let (let_through, stops) = tick_path m lock_free first t g stop_now second e in
    let (flight, persistent, leased) = begin_stop_quiet t g stop_now let_through in
    let (runs, since_start, since_activity) = under_gate_idle m second stops in
    record {
      running_now = runs;
      full_window = since_start;
      window_since_activity = since_activity;
      none_in_flight = flight;
      none_persistent = persistent;
      no_lease = leased;
    }

-- Where a tick finds the project running and its tracker neither parked nor gated, before the idle
-- deadline, it does not stop the project and sleeps until ten milliseconds past that deadline; and a
-- tick at that moment, if the project still runs and nothing has touched its tracker, stops it.
pub next_tick_stops :
    (m : Monitor) (x : Moment) (t : Tracker) (g stop_now : ℕ) (second : Moment)
    → up x.snap ≡ true
    → parked x.tracker x.now ≡ false
    → x.tracker.gate ≡ none
    → x.now < deadline x.tracker x.snap.started_at m.timeout
    → let r = tick m running x t g stop_now second in
      let wake = record x { now = x.now + r.sleep } in
      (r.stops ≡ false)
      × (wake.now ≡ deadline x.tracker x.snap.started_at m.timeout + wake_slack)
      × ((tick m running wake wake.tracker g wake.now wake).stops ≡ true)
unfolding tick under_gate begin_stop arm parked lease_until
next_tick_stops m x t g stop_now second runs free no_gate early = ground arith
