-- ===== src/Process/System.antt =====
-- internal/process/supervisor.go: a supervisor with its goroutines. An event is one critical section
-- that runs, with what the clock and the operating system answer there; a list of events is an
-- interleaving of callers, readiness probes, exit handlers, stops and output pumps.
pub mod Invariant
pub mod Answers
pub mod Retirement
pub mod Outcomes
use herd_wake.Prelude.{
  ℕ, zero, suc, ◌+◌, Bool, true, false, not, ◌&&◌, List, [], ◌∷◌, Option, none, some, ◌==◌,
  if◌then◌else◌, Bytes, get_elem?,
}
use herd_wake.Config.Project.{Project}
use herd_wake.Process.Supervisor.Types.{
  Signal, sigkill, Outcome, Cmd, Supervisor, Effect, send, kill, launch, finish_later, send_later,
  new_supervisor, signal_group, notify,
}
use herd_wake.Process.Supervisor.Start.{
  Host, ensure_started, ensure_started_on_demand, retire, probe_ready, probe_timeout,
}
use herd_wake.Process.Supervisor.Stop.{stop_async, declare_stopped}
use herd_wake.Process.Supervisor.Exit.{handle_exit}

-- A `finishStop` goroutine; `forced` once the graceful window is over.
pub record Job : Type 0 where
  pub pgid : ℕ
  pub channel : ℕ
  pub child : Option Cmd
  pub forced : Bool

-- `requests`, `spawns` and `stop_calls` number the channels and commands made so far; `waits` are
-- the goroutines in `cmd.Wait`, and `drains` the exit handlers that wait for the output pump.
pub record System : Type 0 where
  pub sup : Supervisor
  pub requests : ℕ
  pub spawns : ℕ
  pub stop_calls : ℕ
  pub waits : List Cmd
  pub jobs : List Job
  pub drains : List (List ℕ × Outcome)
  pub sent : List (ℕ × Outcome)
  pub groups : List ℕ
  pub signals : List (ℕ × Signal)
  pub closed : List ℕ

unfoldable pub boot : Project → System
boot p = record {
  sup = new_supervisor p;
  requests = 0;
  spawns = 0;
  stop_calls = 0;
  waits = [];
  jobs = [];
  drains = [];
  sent = [];
  groups = [];
  signals = [];
  closed = [];
}

unfoldable pub perform : System → Effect → System
perform y (send channel o) = record y { sent = (channel, o) ∷ y.sent }
perform y (kill pgid sig) = record y { signals = (pgid, sig) ∷ y.signals }
perform y (launch c) = record y { waits = c ∷ y.waits; groups = c.pid ∷ y.groups }
perform y (finish_later pgid channel child) =
    let job : Job = record { pgid = pgid; channel = channel; child = child; forced = false } in
    record y { jobs = job ∷ y.jobs }
perform y (send_later ws o) = record y { drains = (ws, o) ∷ y.drains }

unfoldable pub perform_all : System → List Effect → System
unfolding perform
perform_all y [] = y
perform_all y (e ∷ es) = perform_all (perform y e) es

pub data Event : Type 0 where
  starts : Host → (now : ℕ) → Event
  wakes : Host → (now : ℕ) → Event
  retires : Event
  stops : Event
  probe_succeeds : Cmd → Event
  startup_times_out : Cmd → Event
  exits : Cmd → (now : ℕ) → Option (Bytes × Bool) → Option Bytes → Event
  pump_drained : (drain : ℕ) → Event
  group_gone : (channel : ℕ) → Event
  window_over : (channel : ℕ) → Event

unfoldable pub waiting : ℕ → List Cmd → Bool
waiting id [] = false
waiting id (c ∷ cs) = if c.id == id then true else waiting id cs

pub reap : ℕ → List Cmd → List Cmd
reap id [] = []
reap id (c ∷ cs) = if c.id == id then cs else c ∷ reap id cs

-- `procDone` is closed
abbrev pub reaped : Option Cmd → List Cmd → Bool
reaped none cs = true
reaped (some c) cs = not (waiting c.id cs)

pub find_job : ℕ → List Job → Option Job
find_job channel [] = none
find_job channel (j ∷ js) = if j.channel == channel then some j else find_job channel js

pub drop_job : ℕ → List Job → List Job
drop_job channel [] = []
drop_job channel (j ∷ js) = if j.channel == channel then js else j ∷ drop_job channel js

pub force_job : ℕ → List Job → List Job
force_job channel [] = []
force_job channel (j ∷ js) =
    if j.channel == channel then record j { forced = true } ∷ js else j ∷ force_job channel js

pub drop_at : ℕ → List (List ℕ × Outcome) → List (List ℕ × Outcome)
drop_at k [] = []
drop_at zero (d ∷ ds) = ds
drop_at (suc k) (d ∷ ds) = d ∷ drop_at k ds

-- The end of `finishStop`.
abbrev pub finish : System → Job → Bool → System
finish y j forced = record y {
  sup = declare_stopped y.sup forced;
  jobs = drop_job j.channel y.jobs;
  closed = j.channel ∷ y.closed;
}

-- The deadline of `awaitGroupExit`: after the first the group is killed, after the second the
-- project is declared stopped all the same.
abbrev pub escalate : System → Job → System
escalate y j =
    if j.forced
    then finish y j true
    else perform_all (record y { jobs = force_job j.channel y.jobs }) (signal_group j.pgid sigkill)

-- An event that cannot happen in a state changes nothing.
unfoldable pub step : System → Event → System
unfolding perform_all waiting reap find_job drop_job force_job drop_at
step y (starts host now) =
    let (s, effects) = ensure_started y.sup host now y.spawns y.requests in
    perform_all (record y { sup = s; requests = suc y.requests; spawns = suc y.spawns }) effects
step y (wakes host now) =
    let (s, effects) = ensure_started_on_demand y.sup host now y.spawns y.requests in
    perform_all (record y { sup = s; requests = suc y.requests; spawns = suc y.spawns }) effects
step y retires = record y { sup = retire y.sup }
step y stops =
    let (s, effects, wait) = stop_async y.sup y.stop_calls in
    perform_all (record y { sup = s; stop_calls = suc y.stop_calls }) effects
step y (probe_succeeds c) =
    let (s, effects) = probe_ready y.sup c in perform_all (record y { sup = s }) effects
step y (startup_times_out c) =
    let (s, effects) = probe_timeout y.sup c in perform_all (record y { sup = s }) effects
step y (exits c now process_state wait_err) =
    if waiting c.id y.waits
    then (let (s, effects) = handle_exit y.sup c now process_state wait_err in
        perform_all (record y { sup = s; waits = reap c.id y.waits }) effects)
    else y
step y (pump_drained k) = elim (get_elem? y.drains k) [
  | none ↦ y
  | some (ws, o) ↦ perform_all (record y { drains = drop_at k y.drains }) (notify ws o)
]
step y (group_gone channel) = elim (find_job channel y.jobs) [
  | none ↦ y
  | some j ↦ if reaped j.child y.waits then finish y j j.forced else y
]
step y (window_over channel) = elim (find_job channel y.jobs) [ none ↦ y | some j ↦ escalate y j ]

unfoldable pub run : System → List Event → System
run y [] = y
run y (e ∷ es) = run (step y e) es
