-- ===== src/Process/System/Invariant.antt =====
-- What holds of a supervisor whenever its lock is free, whatever has happened: the statement,
-- and what effects do to the goroutines.
pub mod Sections
pub mod Steps
use herd_wake.Prelude.{
  ℕ, zero, suc, ◌+◌, ◌<◌, ◌≡◌, ◌≢◌, refl, sym, ap, ◌∙◌, ◌⊎◌, inl, inr, Bool, true, false, ◌&&◌,
  List, [], ◌∷◌, ◌++◌, Option, none, some, ltb, ◌==◌, if◌then◌else◌, arith, Bytes, get_elem?,
  Bool-cases, Option-cases, length,
}
use herd_wake.Config.Project.{Project}
use herd_wake.Process.Supervisor.Types.{
  State, stopped, starting, running, stopping, failed, Signal, sigkill, Outcome, Cmd, Supervisor,
  Effect, send, kill, launch, finish_later, send_later, new_supervisor, signal_group, notify,
}
use herd_wake.Process.Supervisor.Start.{
  Host, spawn_or_fail, ensure_in, ensure_started, ensure_started_on_demand, retire, probe_ready,
  probe_timeout, owns, spawn_cases, is_failed, is_starting,
}
use herd_wake.Process.Supervisor.Stop.{
  StopWait, stop_async, stop_in, declare_stopped, shutdown_signal,
}
use herd_wake.Process.Supervisor.Exit.{exit_in, handle_exit, describe_exit}
use herd_wake.Process.System.{
  System, Event, Job, perform, perform_all, step, run, boot, starts, wakes, retires, stops,
  probe_succeeds, startup_times_out, exits, pump_drained, group_gone, window_over, waiting, reap,
  find_job, drop_job, force_job, escalate, finish, drop_at, reaped,
}

-- A starting or running project has its process, in a group of its own, with an exit handler
-- waiting for it.
abbrev pub Live : State → Option Cmd → ℕ → List Cmd → Type 0
Live starting child pgid ws =
    (c : Cmd) × (child ≡ some c) × (pgid ≡ c.pid) × (waiting c.id ws ≡ true)
Live running child pgid ws =
    (c : Cmd) × (child ≡ some c) × (pgid ≡ c.pid) × (waiting c.id ws ≡ true)
Live _ child pgid ws = Unit

-- Only a starting project has callers waiting for it.
abbrev pub Waiting : State → List ℕ → Type 0
Waiting starting ws = Unit
Waiting _ ws = ws ≡ []

-- One goroutine finishes the stop of a stopping project, and closes the channel of that stop.
abbrev pub Stopping : State → ℕ → List Job → Type 0
Stopping stopping channel js = (j : Job) × (js ≡ j ∷ []) × (j.channel ≡ channel)
Stopping _ channel js = js ≡ []

pub record Coherent (s : Supervisor) (ws : List Cmd) (js : List Job) : Type 0 where
  pub mirror : s.atomic_state ≡ s.state
  pub live : Live s.state s.cmd s.pgid ws
  pub callers : Waiting s.state s.waiters
  pub stops : Stopping s.state s.stop_done js

-- What effects do to the goroutines.
abbrev pub launched : List Effect → List Cmd → List Cmd
launched [] ws = ws
launched (launch c ∷ es) ws = launched es (c ∷ ws)
launched (_ ∷ es) ws = launched es ws

abbrev pub begun : List Effect → List Job → List Job
begun [] js = js
begun (finish_later p k c ∷ es) js =
    begun es (record { pgid = p; channel = k; child = c; forced = false } ∷ js)
begun (_ ∷ es) js = begun es js

abbrev pub Keeps : Supervisor × List Effect → List Cmd → List Job → Type 0
Keeps (s, es) ws js = Coherent s (launched es ws) (begun es js)

abbrev pub section : Supervisor × List Effect × StopWait → Supervisor × List Effect
section (s, es, wait) = (s, es)

abbrev pub CoherentSystem : System → Type 0
CoherentSystem y = Coherent y.sup y.waits y.jobs

pub perform_all-Coherent :
    (es : List Effect) (y : System)
    → Keeps (y.sup, es) y.waits y.jobs
    → CoherentSystem (perform_all y es)
unfolding perform_all
perform_all-Coherent [] y h = h
perform_all-Coherent (send c o ∷ es) y h = perform_all-Coherent es (perform y (send c o)) h
perform_all-Coherent (kill p s ∷ es) y h = perform_all-Coherent es (perform y (kill p s)) h
perform_all-Coherent (launch c ∷ es) y h = perform_all-Coherent es (perform y (launch c)) h
perform_all-Coherent (finish_later p c d ∷ es) y h =
    perform_all-Coherent es (perform y (finish_later p c d)) h
perform_all-Coherent (send_later ws o ∷ es) y h =
    perform_all-Coherent es (perform y (send_later ws o)) h

pub launched-append :
    (es fs : List Effect) (ws : List Cmd) → launched (es ++ fs) ws ≡ launched fs (launched es ws)
launched-append [] fs ws = refl
launched-append (send _ _ ∷ es) fs ws = launched-append es fs ws
launched-append (kill _ _ ∷ es) fs ws = launched-append es fs ws
launched-append (launch c ∷ es) fs ws = launched-append es fs (c ∷ ws)
launched-append (finish_later _ _ _ ∷ es) fs ws = launched-append es fs ws
launched-append (send_later _ _ ∷ es) fs ws = launched-append es fs ws

pub begun-append :
    (es fs : List Effect) (js : List Job) → begun (es ++ fs) js ≡ begun fs (begun es js)
begun-append [] fs js = refl
begun-append (send _ _ ∷ es) fs js = begun-append es fs js
begun-append (kill _ _ ∷ es) fs js = begun-append es fs js
begun-append (launch c ∷ es) fs js = begun-append es fs js
begun-append (finish_later _ _ _ ∷ es) fs js = begun-append es fs _
begun-append (send_later _ _ ∷ es) fs js = begun-append es fs js

pub launched-notify : (ns : List ℕ) (o : Outcome) (ws : List Cmd) → launched (notify ns o) ws ≡ ws
launched-notify [] o ws = refl
launched-notify (n ∷ ns) o ws = launched-notify ns o ws

pub begun-notify : (ns : List ℕ) (o : Outcome) (js : List Job) → begun (notify ns o) js ≡ js
begun-notify [] o js = refl
begun-notify (n ∷ ns) o js = begun-notify ns o js

pub launched-signal_group :
    (p : ℕ) (sig : Signal) (ws : List Cmd) → launched (signal_group p sig) ws ≡ ws
launched-signal_group zero sig ws = refl
launched-signal_group (suc p) sig ws = refl

pub begun-signal_group : (p : ℕ) (sig : Signal) (js : List Job) → begun (signal_group p sig) js ≡ js
begun-signal_group zero sig js = refl
begun-signal_group (suc p) sig js = refl

pub ruleset effect_laws = (
  launched-append, begun-append, launched-notify, begun-notify, launched-signal_group,
  begun-signal_group,
)
