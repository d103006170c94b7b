-- ===== src/Process/Supervisor/Exit.antt =====
-- internal/process/supervisor.go: `handleExit`, where an exit becomes a change of state.
use herd_wake.Prelude.{
  ℕ, Bool, false, List, [], ◌∷◌, ◌++◌, Option, none, some, if◌then◌else◌, Bytes, codes,
}
use herd_wake.Process.Supervisor.Types.{
  State, stopped, starting, running, failed, sigkill, Failure, exited_during_startup,
  exited_unexpectedly, start_failed, Cmd, Supervisor, Effect, send_later, set_state, signal_group,
}
use herd_wake.Process.Supervisor.Start.{owns, record_start_failure}

-- `describeExit`: the first argument is `cmd.ProcessState`, its text and `Success()`.
unfoldable pub describe_exit : Option (Bytes × Bool) → Option Bytes → Bytes × Bool
describe_exit (some (text, success)) wait_err = (text, success)
describe_exit none (some e) = (e, false)
describe_exit none none = (codes "exited", false)

abbrev exit_reason : Option Failure → Bytes → Failure
exit_reason (some why) desc = why
exit_reason none desc = exited_during_startup desc

-- The command is gone: what every branch clears.
abbrev pub clear_cmd : Supervisor → Bytes → Supervisor
clear_cmd s desc = record s { cmd = none; pgid = 0; spawned_at = 0; last_exit = desc }

unfoldable pub exit_in : State → Supervisor → ℕ → Bytes → Bool → Supervisor × List Effect
exit_in starting s now desc clean =
    let why = exit_reason s.abort_err desc in
    (
      record (record_start_failure (set_state (clear_cmd s desc) failed) now) {
        abort_err = none;
        last_err = some why;
        waiters = [];
      },
      signal_group s.pgid sigkill ++ send_later s.waiters (start_failed why) ∷ [],
    )
exit_in running s now desc clean = (
  if clean
      then record (set_state (clear_cmd s desc) stopped) { last_err = none }
      else record (set_state (clear_cmd s desc) failed) {
        last_err = some (exited_unexpectedly desc);
      },
  signal_group s.pgid sigkill,
)
exit_in _ s now desc clean = (clear_cmd s desc, [])

-- `handleExit`: the guard is for a respawn that came before a very late exit.
unfoldable pub handle_exit :
    Supervisor → Cmd → ℕ → Option (Bytes × Bool) → Option Bytes → Supervisor × List Effect
unfolding exit_in describe_exit
handle_exit s c now process_state wait_err =
    let (desc, clean) = describe_exit process_state wait_err in
    if owns s c then exit_in s.state s now desc clean else (s, [])
