-- ===== src/Process/Supervisor/Start.antt =====
-- internal/process/supervisor.go: `EnsureStarted`, `EnsureStartedOnDemand`, `Retire`,
-- `spawnLocked` and the readiness probe. The calls that one section makes of the clock are one
-- `now`; what the operating system answers is `Host`; log lines are left out.
use herd_wake.Prelude.{
  ℕ, ◌+◌, Bool, true, false, ◌&&◌, List, [], ◌∷◌, ◌++◌, Option, none, some, ltb, ◌==◌,
  if◌then◌else◌, Bytes, ◌≡◌, refl, ◌⊎◌, inl, inr,
}
use herd_wake.Process.Supervisor.Types.{
  State, starting, running, stopping, failed, sigkill, Failure, child_env, log_file, output_pipe,
  start_command, not_ready_in_time, ready, start_failed, is_stopping, was_retired, backoff, Cmd,
  Supervisor, Effect, send, launch, set_state, notify, signal_group,
}
use herd_wake.Process.Supervisor.Backoff.{backoff_delay}

pub data Launched : Type 0 where
  refused : Bytes → Launched
  pid_of : ℕ → Launched

-- The answers to one spawn: the error of `envfile.ChildEnv`, `openLogFile` and `os.Pipe`, if any,
-- and of `cmd.Start`.
pub record Host : Type 0 where
  pub env_error : Option Bytes
  pub log_error : Option Bytes
  pub pipe_error : Option Bytes
  pub started : Launched

pub data Spawned : Type 0 where
  error : Failure → Spawned
  process : ℕ → Spawned

spawn_result : Host → Spawned
spawn_result h = elim h.env_error [
  | some e ↦ error (child_env e)
  | none ↦ elim h.log_error [
    | some e ↦ error (log_file e)
    | none ↦ elim h.pipe_error [
      | some e ↦ error (output_pipe e)
      | none ↦ elim h.started [ refused e ↦ error (start_command e) | pid_of n ↦ process n ]
    ]
  ]
]

-- the new process of a successful `spawnLocked`
abbrev pub adopt : Supervisor → Cmd → ℕ → Supervisor
adopt s c now = record s {
  state = starting;
  atomic_state = starting;
  cmd = some c;
  pgid = c.pid;
  spawned_at = now;
  last_err = none;
  last_exit = [];
  abort_err = none;
}

-- `recordStartFailureLocked`
abbrev pub record_start_failure : Supervisor → ℕ → Supervisor
record_start_failure s now = record s {
  consecutive_failures = s.consecutive_failures + 1;
  next_retry_at = now + backoff_delay (s.consecutive_failures + 1);
}

abbrev pub fail_start : Supervisor → ℕ → Failure → Supervisor
fail_start s now why =
    record_start_failure (record (set_state s failed) { last_err = some why }) now

-- `spawnLocked` and what `ensureStartedLocked` makes of its result
unfoldable pub spawn_or_fail : Supervisor → Host → (now id done : ℕ) → Supervisor × List Effect
unfolding spawn_result
spawn_or_fail s host now id done = elim (spawn_result host) [
  | error why ↦ (fail_start s now why, send done (start_failed why) ∷ [])
  | process pid ↦
      let c : Cmd = record { id = id; pid = pid } in
      (record (adopt s c now) { waiters = s.waiters ++ done ∷ [] }, launch c ∷ [])
]

-- A spawn fails, or gives a starting project with its caller.
pub spawn_cases :
    (s : Supervisor) (host : Host) (now id done : ℕ)
    → ((why : Failure) × (spawn_or_fail s host now id done
          ≡ (fail_start s now why, send done (start_failed why) ∷ [])))
      ⊎ ((pid : ℕ) × (spawn_or_fail s host now id done ≡ (
        record (adopt s (record { id = id; pid = pid }) now) { waiters = s.waiters ++ done ∷ [] },
        launch (record { id = id; pid = pid }) ∷ [],
      )))
unfolding spawn_or_fail
spawn_cases s host now id done = go (spawn_result host) refl
  where
    go :
        (r : Spawned)
        → spawn_result host ≡ r
        → ((why : Failure) × (spawn_or_fail s host now id done
              ≡ (fail_start s now why, send done (start_failed why) ∷ [])))
          ⊎ ((pid : ℕ) × (spawn_or_fail s host now id done ≡ (
            record (adopt s (record { id = id; pid = pid }) now) {
              waiters = s.waiters ++ done ∷ [];
            },
            launch (record { id = id; pid = pid }) ∷ [],
          )))
    go (error why) e = inl (why, rw (e, spawn_or_fail))
    go (process pid) e = inr (pid, rw (e, spawn_or_fail))

unfoldable pub ensure_in : State → Supervisor → Host → (now id done : ℕ) → Supervisor × List Effect
unfolding spawn_or_fail
ensure_in running s host now id done = (s, send done ready ∷ [])
ensure_in starting s host now id done = (record s { waiters = s.waiters ++ done ∷ [] }, [])
ensure_in stopping s host now id done = (s, send done is_stopping ∷ [])
ensure_in _ s host now id done =
    if s.retired then (s, send done was_retired ∷ []) else spawn_or_fail s host now id done

-- `ensureStartedLocked`: `done` is the new channel, `id` the address of a new command.
abbrev pub ensure_started_locked : Supervisor → Host → (now id done : ℕ) → Supervisor × List Effect
ensure_started_locked s = ensure_in s.state s

unfoldable pub ensure_started : Supervisor → Host → (now id done : ℕ) → Supervisor × List Effect
unfolding ensure_in
ensure_started s = ensure_started_locked (record s { consecutive_failures = 0; next_retry_at = 0 })

abbrev pub is_failed : State → Bool
is_failed failed = true
is_failed _ = false

unfoldable pub ensure_started_on_demand :
    Supervisor → Host → (now id done : ℕ) → Supervisor × List Effect
unfolding ensure_in
ensure_started_on_demand s host now id done =
    if is_failed s.state && ltb now s.next_retry_at
    then (s, send done (backoff s.next_retry_at s.last_err) ∷ [])
    else ensure_started_locked s host now id done

unfoldable pub retire : Supervisor → Supervisor
retire s = record s { retired = true }

-- `s.cmd == cmd`
abbrev pub owns : Supervisor → Cmd → Bool
owns s c = elim s.cmd [ none ↦ false | some d ↦ d.id == c.id ]

abbrev pub is_starting : State → Bool
is_starting starting = true
is_starting _ = false

-- `probeReadiness`, when a probe has succeeded
unfoldable pub probe_ready : Supervisor → Cmd → Supervisor × List Effect
probe_ready s c =
    if is_starting s.state && owns s c
    then (
      record (set_state s running) { consecutive_failures = 0; next_retry_at = 0; waiters = [] },
      notify s.waiters ready,
    )
    else (s, [])

-- `probeReadiness`, when the startup timeout has passed
unfoldable pub probe_timeout : Supervisor → Cmd → Supervisor × List Effect
probe_timeout s c =
    if is_starting s.state && owns s c
    then (record s { abort_err = some not_ready_in_time }, signal_group s.pgid sigkill)
    else (s, [])
