-- ===== src/Process/Supervisor/Stop.antt =====
-- internal/process/supervisor.go: `StopAsync` and the last section of `finishStop`.
use herd_wake.Prelude.{ℕ, Bool, List, [], ◌∷◌, ◌++◌, none, some, if◌then◌else◌, Bytes, codes, equal}
use herd_wake.Process.Supervisor.Types.{
  State, stopped, starting, running, stopping, failed, Signal, sigterm, sigint, sigquit, sighup,
  sigusr1, sigusr2, sigkill, stopped_while_starting, start_failed, Supervisor, Effect, finish_later,
  set_state, notify, signal_group,
}

-- `signalsByName` and `shutdownSignal`
unfoldable pub shutdown_signal : Bytes → Signal
unfolding equal
shutdown_signal name =
    if equal name (codes "SIGTERM")
    then sigterm
    else if equal name (codes "SIGINT")
    then sigint
    else if equal name (codes "SIGQUIT")
    then sigquit
    else if equal name (codes "SIGHUP")
    then sighup
    else if equal name (codes "SIGUSR1")
    then sigusr1
    else if equal name (codes "SIGUSR2")
    then sigusr2
    else if equal name (codes "SIGKILL")
    then sigkill
    else sigterm

-- The channel that `StopAsync` returns: one that is closed already, or the one of a stop.
pub data StopWait : Type 0 where
  closed : StopWait
  join : ℕ → StopWait

abbrev begin_stop : Supervisor → ℕ → Supervisor × List Effect × StopWait
begin_stop s channel = (
  record (set_state s stopping) { stop_done = channel },
  signal_group s.pgid (shutdown_signal s.project.shutdown_signal)
      ++ finish_later s.pgid channel s.cmd ∷ [],
  join channel,
)

-- a stop of a starting project answers those who wait for it first
abbrev begin_abort : Supervisor → ℕ → Supervisor × List Effect × StopWait
begin_abort s channel =
    let aborted = record s { abort_err = some stopped_while_starting; waiters = [] } in
    let (s', effects, wait) = begin_stop aborted channel in
    (s', notify s.waiters (start_failed stopped_while_starting) ++ effects, wait)

unfoldable pub stop_in : State → Supervisor → ℕ → Supervisor × List Effect × StopWait
stop_in stopped s channel = (s, [], closed)
stop_in failed s channel = (s, [], closed)
stop_in stopping s channel = (s, [], join s.stop_done)
stop_in starting s channel = begin_abort s channel
stop_in running s channel = begin_stop s channel

-- `StopAsync`: `channel` is the new channel, for a caller that owns the shutdown.
abbrev pub stop_async : Supervisor → ℕ → Supervisor × List Effect × StopWait
stop_async s = stop_in s.state s

abbrev pub force_kill_note : Bytes
force_kill_note = codes "process group force-killed"

-- the critical section of `finishStop`
unfoldable pub declare_stopped : Supervisor → Bool → Supervisor
declare_stopped s forced = record (set_state s stopped) {
  last_err = none;
  last_exit =
      if forced
      then elim s.last_exit [
        | [] ↦ force_kill_note
        | c ∷ cs ↦ (c ∷ cs) ++ codes "; " ++ force_kill_note
      ]
      else s.last_exit;
}
