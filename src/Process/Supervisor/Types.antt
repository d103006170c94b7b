-- ===== src/Process/Supervisor/Types.antt =====
-- internal/process/supervisor.go: the states, the errors and the fields of a `Supervisor`. Times are
-- nanoseconds, and 0 is the zero time. An error is kept as the value that its text is made from.
use herd_wake.Prelude.{ℕ, zero, suc, Bool, false, List, [], ◌∷◌, Option, none, some, Bytes}
use herd_wake.Config.Project.{Project}

pub data State : Type 0 where
  stopped starting running stopping failed : State

pub data Signal : Type 0 where
  sigterm sigint sigquit sighup sigusr1 sigusr2 sigkill : Signal

-- Why a start failed, or why the process is gone.
pub data Failure : Type 0 where
  child_env log_file output_pipe start_command : Bytes → Failure
  stopped_while_starting : Failure
  exited_during_startup : Bytes → Failure
  not_ready_in_time : Failure
  exited_unexpectedly : Bytes → Failure

-- What a channel of `EnsureStarted` yields: `ready` is the nil error.
pub data Outcome : Type 0 where
  ready : Outcome
  start_failed : Failure → Outcome
  is_stopping : Outcome
  was_retired : Outcome
  backoff : (retry_at : ℕ) (reason : Option Failure) → Outcome

-- An `exec.Cmd` that was started. Its address is `id`; its process leads the group `pid`.
pub record Cmd : Type 0 where
  pub id : ℕ
  pub pid : ℕ

-- `waiters` and `stop_done` hold channels, by number.
pub record Supervisor : Type 0 where
  pub project : Project
  pub atomic_state : State
  pub state : State
  pub cmd : Option Cmd
  pub pgid : ℕ
  pub spawned_at : ℕ
  pub last_exit : Bytes
  pub last_err : Option Failure
  pub abort_err : Option Failure
  pub stop_done : ℕ
  pub waiters : List ℕ
  pub consecutive_failures : ℕ
  pub next_retry_at : ℕ
  pub retired : Bool

-- What a critical section does besides: a value on a channel, a signal to a group, the goroutines
-- of a spawned command, the goroutine of a stop, and the values that wait for the output pump.
pub data Effect : Type 0 where
  send : (channel : ℕ) → Outcome → Effect
  kill : (pgid : ℕ) → Signal → Effect
  launch : Cmd → Effect
  finish_later : (pgid channel : ℕ) → Option Cmd → Effect
  send_later : List ℕ → Outcome → Effect

pub record Snapshot : Type 0 where
  pub state : State
  pub pid : ℕ
  pub started_at : ℕ
  pub last_exit : Bytes
  pub last_error : Option Failure
  pub next_retry_at : ℕ

unfoldable pub new_supervisor : Project → Supervisor
new_supervisor p = record {
  project = p;
  atomic_state = stopped;
  state = stopped;
  cmd = none;
  pgid = 0;
  spawned_at = 0;
  last_exit = [];
  last_err = none;
  abort_err = none;
  stop_done = 0;
  waiters = [];
  consecutive_failures = 0;
  next_retry_at = 0;
  retired = false;
}

-- `setStateLocked`
abbrev pub set_state : Supervisor → State → Supervisor
set_state s state = record s { state = state; atomic_state = state }

pub snapshot : Supervisor → Snapshot
snapshot s = elim s.cmd [
  | none ↦ record {
    state = s.state;
    pid = 0;
    started_at = 0;
    last_exit = s.last_exit;
    last_error = s.last_err;
    next_retry_at = s.next_retry_at;
  }
  | some c ↦ record {
    state = s.state;
    pid = c.pid;
    started_at = s.spawned_at;
    last_exit = s.last_exit;
    last_error = s.last_err;
    next_retry_at = s.next_retry_at;
  }
]

-- `notifyWaitersLocked`: what is sent; the caller empties the list.
abbrev pub notify : List ℕ → Outcome → List Effect
notify [] o = []
notify (w ∷ ws) o = send w o ∷ notify ws o

-- `signalGroup`
abbrev pub signal_group : ℕ → Signal → List Effect
signal_group zero sig = []
signal_group (suc n) sig = kill (suc n) sig ∷ []
