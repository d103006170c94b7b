-- ===== src/Process/System/Retirement.antt =====
-- A retired supervisor never starts a process again.
use herd_wake.Prelude.{
  ℕ, zero, suc, ◌≡◌, refl, ◌∙◌, Bool, true, false, List, [], ◌∷◌, ◌++◌, Option, arith, Bytes,
  get_elem?, Bool-cases, Option-cases, inl, inr,
}
use herd_wake.Process.Supervisor.Types.{
  State, starting, running, stopping, Signal, Outcome, Cmd, Supervisor, Effect, send, kill, launch,
  finish_later, send_later, signal_group, notify, sigkill,
}
use herd_wake.Process.Supervisor.Start.{
  Host, ensure_in, ensure_started, ensure_started_on_demand, retire, probe_ready, probe_timeout,
}
use herd_wake.Process.Supervisor.Stop.{StopWait, stop_in, stop_async, declare_stopped}
use herd_wake.Process.Supervisor.Exit.{exit_in, handle_exit, describe_exit}
use herd_wake.Process.System.{
  System, Event, Job, perform, perform_all, step, run, starts, wakes, retires, stops,
  probe_succeeds, startup_times_out, exits, pump_drained, group_gone, window_over, waiting, reap,
  find_job, force_job, drop_at, escalate,
}

-- No effect starts a process.
abbrev pub Spawnless : List Effect → Type 0
Spawnless [] = Unit
Spawnless (launch c ∷ es) = ⊥
Spawnless (_ ∷ es) = Spawnless es

Spawnless-append : (es fs : List Effect) → Spawnless es → Spawnless fs → Spawnless (es ++ fs)
Spawnless-append [] fs h k = k
Spawnless-append (send _ _ ∷ es) fs h k = Spawnless-append es fs h k
Spawnless-append (kill _ _ ∷ es) fs h k = Spawnless-append es fs h k
Spawnless-append (launch c ∷ es) fs h k = absurd h
Spawnless-append (finish_later _ _ _ ∷ es) fs h k = Spawnless-append es fs h k
Spawnless-append (send_later _ _ ∷ es) fs h k = Spawnless-append es fs h k

Spawnless-notify : (ws : List ℕ) (o : Outcome) → Spawnless (notify ws o)
Spawnless-notify [] o = tt
Spawnless-notify (w ∷ ws) o = Spawnless-notify ws o

Spawnless-signal_group : (p : ℕ) (sig : Signal) → Spawnless (signal_group p sig)
Spawnless-signal_group zero sig = tt
Spawnless-signal_group (suc p) sig = tt

-- The supervisor stays retired, and the processes started so far stay the same.
record Quiet (gs : List ℕ) (z : System) : Type 0 where
  retired : z.sup.retired ≡ true
  groups : z.groups ≡ gs

Quiet-perform_all :
    (es : List Effect) (y : List ℕ) (z : System)
    → Spawnless es
    → Quiet y z
    → Quiet y (perform_all z es)
unfolding perform_all
Quiet-perform_all [] y z s h = h
Quiet-perform_all (send c o ∷ es) y z s h =
    Quiet-perform_all es y (perform z (send c o)) s
      (record { retired = h.retired; groups = h.groups })
Quiet-perform_all (kill p sig ∷ es) y z s h =
    Quiet-perform_all es y (perform z (kill p sig)) s
      (record { retired = h.retired; groups = h.groups })
Quiet-perform_all (launch c ∷ es) y z s h = absurd s
Quiet-perform_all (finish_later p c d ∷ es) y z s h =
    Quiet-perform_all es y (perform z (finish_later p c d)) s
      (record { retired = h.retired; groups = h.groups })
Quiet-perform_all (send_later ws o ∷ es) y z s h =
    Quiet-perform_all es y (perform z (send_later ws o)) s
      (record { retired = h.retired; groups = h.groups })

abbrev Refuses : Supervisor × List Effect → Type 0
Refuses (s, es) = Spawnless es × (s.retired ≡ true)

ensure_in-Refuses :
    (st : State) (s : Supervisor) (host : Host) (now id done : ℕ)
    → s.retired ≡ true
    → Refuses (ensure_in st s host now id done)
unfolding ensure_in
ensure_in-Refuses running s host now id done h = (tt, h)
ensure_in-Refuses starting s host now id done h = (tt, h)
ensure_in-Refuses stopping s host now id done h = (tt, h)
ensure_in-Refuses _ s host now id done h = ground arith

on_demand-Refuses :
    (s : Supervisor) (host : Host) (now id done : ℕ)
    → s.retired ≡ true
    → Refuses (ensure_started_on_demand s host now id done)
unfolding ensure_started_on_demand
on_demand-Refuses s host now id done h =
    ground (arith, ensure_in-Refuses s.state s host now id done h)

probe_ready-Refuses : (s : Supervisor) (c : Cmd) → s.retired ≡ true → Refuses (probe_ready s c)
unfolding probe_ready
probe_ready-Refuses s c h = ground (arith, Spawnless-notify s.waiters Outcome.ready)

probe_timeout-Refuses : (s : Supervisor) (c : Cmd) → s.retired ≡ true → Refuses (probe_timeout s c)
unfolding probe_timeout
probe_timeout-Refuses s c h = ground (arith, Spawnless-signal_group s.pgid sigkill)

exit_in-Refuses :
    (st : State) (s : Supervisor) (now : ℕ) (desc : Bytes) (clean : Bool)
    → s.retired ≡ true
    → Refuses (exit_in st s now desc clean)
unfolding exit_in
exit_in-Refuses starting s now desc clean h =
    (Spawnless-append (signal_group s.pgid sigkill) _ (Spawnless-signal_group s.pgid sigkill) tt, h)
exit_in-Refuses running s now desc true h = (Spawnless-signal_group s.pgid sigkill, h)
exit_in-Refuses running s now desc false h = (Spawnless-signal_group s.pgid sigkill, h)
exit_in-Refuses _ s now desc clean h = (tt, h)

handle_exit-Refuses :
    (s : Supervisor) (c : Cmd) (now : ℕ) (ps : Option (Bytes × Bool)) (e : Option Bytes)
    → s.retired ≡ true
    → Refuses (handle_exit s c now ps e)
unfolding handle_exit
handle_exit-Refuses s c now ps e h =
    let (desc, clean) = describe_exit ps e in
    ground (arith, exit_in-Refuses s.state s now desc clean h)

abbrev section : Supervisor × List Effect × StopWait → Supervisor × List Effect
section (s, es, wait) = (s, es)

stop_in-Refuses :
    (st : State) (s : Supervisor) (channel : ℕ)
    → s.retired ≡ true
    → Refuses (section (stop_in st s channel))
unfolding stop_in
stop_in-Refuses starting s channel h = (
  Spawnless-append (notify s.waiters _) _ (Spawnless-notify s.waiters _)
      (Spawnless-append (signal_group s.pgid _) _ (Spawnless-signal_group s.pgid _) tt),
  h,
)
stop_in-Refuses running s channel h =
    (Spawnless-append (signal_group s.pgid _) _ (Spawnless-signal_group s.pgid _) tt, h)
stop_in-Refuses _ s channel h = (tt, h)

Quiet-section :
    (y : System) (s : Supervisor) (es : List Effect)
    → Refuses (s, es)
    → Quiet y.groups (perform_all (record y { sup = s }) es)
Quiet-section y s es (quiet, h) =
    Quiet-perform_all es y.groups (record y { sup = s }) quiet
      (record { retired = h; groups = refl })

escalate-Quiet : (y : System) (j : Job) → y.sup.retired ≡ true → Quiet y.groups (escalate y j)
unfolding declare_stopped
escalate-Quiet y j h = elim (Bool-cases j.forced) [
  | inl over ↦ rw over (record { retired = h; groups = refl })
  | inr within ↦ rw within (
      Quiet-section (record y { jobs = force_job j.channel y.jobs }) y.sup
        (signal_group j.pgid sigkill) (Spawnless-signal_group j.pgid sigkill, h))
]

step-Quiet : (y : System) (e : Event) → y.sup.retired ≡ true → Quiet y.groups (step y e)
unfolding step
step-Quiet y (starts host now) h =
    unfold ensure_started in
    let s0 = record y.sup { consecutive_failures = 0; next_retry_at = 0 } in
    let (s, es) = ensure_in y.sup.state s0 host now y.spawns y.requests in
    Quiet-section (record y { requests = suc y.requests; spawns = suc y.spawns }) s es
      (ensure_in-Refuses y.sup.state s0 host now y.spawns y.requests h)
step-Quiet y (wakes host now) h =
    let (s, es) = ensure_started_on_demand y.sup host now y.spawns y.requests in
    Quiet-section (record y { requests = suc y.requests; spawns = suc y.spawns }) s es
      (on_demand-Refuses y.sup host now y.spawns y.requests h)
step-Quiet y retires h = unfold retire in record { retired = refl; groups = refl }
step-Quiet y stops h =
    let (s, es, wait) = stop_async y.sup y.stop_calls in
    Quiet-section (record y { stop_calls = suc y.stop_calls }) s es
      (stop_in-Refuses y.sup.state y.sup y.stop_calls h)
step-Quiet y (probe_succeeds c) h =
    let (s, es) = probe_ready y.sup c in Quiet-section y s es (probe_ready-Refuses y.sup c h)
step-Quiet y (startup_times_out c) h =
    let (s, es) = probe_timeout y.sup c in Quiet-section y s es (probe_timeout-Refuses y.sup c h)
step-Quiet y (exits c now ps e) h = elim (Bool-cases (waiting c.id y.waits)) [
  | inl waits ↦
      let (s, es) = handle_exit y.sup c now ps e in
      rw (waits, step)
        (Quiet-section (record y { waits = reap c.id y.waits }) s es
          (handle_exit-Refuses y.sup c now ps e h))
  | inr gone ↦ rw (gone, step) (record { retired = h; groups = refl })
]
step-Quiet y (pump_drained n) h = elim (Option-cases (get_elem? y.drains n)) [
  | inl e ↦ rw (e, step) (record { retired = h; groups = refl })
  | inr ((ws, o), e) ↦
      rw (e, step)
        (Quiet-section (record y { drains = drop_at n y.drains }) y.sup (notify ws o)
          (Spawnless-notify ws o, h))
]
step-Quiet y (group_gone channel) h = unfold declare_stopped in ground arith
step-Quiet y (window_over channel) h = elim (Option-cases (find_job channel y.jobs)) [
  | inl e ↦ rw (e, step) (record { retired = h; groups = refl })
  | inr (j, e) ↦ rw (e, step) (escalate-Quiet y j h)
]

-- Once a supervisor is retired, no event starts a process, in whatever state it was retired and
-- whatever is still going on.
pub retired-run :
    (y : System) (es : List Event)
    → y.sup.retired ≡ true
    → ((run y es).groups ≡ y.groups) × ((run y es).sup.retired ≡ true)
unfolding run
retired-run y [] h = (refl, h)
retired-run y (e ∷ es) h =
    let q = step-Quiet y e h in
    let (same, still) = retired-run (step y e) es q.retired in (same ∙ q.groups, still)
