-- ===== src/Process/System/Invariant/Steps.antt =====
-- Each event keeps the lifecycle coherent, and so does each history.
use herd_wake.Prelude.{
  ℕ, suc, ◌≡◌, refl, ap, ◌∙◌, inl, inr, Bool, true, false, List, [], ◌∷◌, some, if◌then◌else◌,
  arith, get_elem?, Bool-cases, Option-cases,
}
use herd_wake.Config.Project.{Project}
use herd_wake.Process.Supervisor.Types.{
  State, stopped, starting, running, stopping, failed, sigkill, Supervisor, Effect, new_supervisor,
  signal_group, notify,
}
use herd_wake.Process.Supervisor.Start.{
  ensure_started, ensure_started_on_demand, retire, probe_ready, probe_timeout,
}
use herd_wake.Process.Supervisor.Stop.{stop_async, declare_stopped}
use herd_wake.Process.Supervisor.Exit.{handle_exit}
use herd_wake.Process.System.{
  System, Event, Job, perform_all, step, run, boot, starts, wakes, retires, stops, probe_succeeds,
  startup_times_out, exits, pump_drained, group_gone, window_over, waiting, reap, find_job,
  drop_job, force_job, escalate, finish, drop_at, reaped,
}
use herd_wake.Process.System.Invariant.{
  Stopping, Keeps, CoherentSystem, perform_all-Coherent, effect_laws,
}
use herd_wake.Process.System.Invariant.Sections.{
  ensure_started-Coherent, handle_exit-Coherent, on_demand-Coherent, probe_ready-Coherent,
  probe_timeout-Coherent, stop_in-Coherent,
}

-- A stop is found only for a stopping project, and is the only one.
found_job :
    (st : State) (stop_done channel : ℕ) (js : List Job) (j : Job)
    → find_job channel js ≡ some j
    → Stopping st stop_done js
    → (st ≡ stopping) × (js ≡ j ∷ []) × (j.channel ≡ stop_done) × (j.channel ≡ channel)
unfolding find_job
found_job stopping stop_done channel js j e (k, only, mine) = ground arith
found_job stopped stop_done channel js j e none_left = ground arith
found_job starting stop_done channel js j e none_left = ground arith
found_job running stop_done channel js j e none_left = ground arith
found_job failed stop_done channel js j e none_left = ground arith

drop_only : (j : Job) → drop_job j.channel (j ∷ []) ≡ []
unfolding drop_job
drop_only j = ground arith

force_only : (j : Job) → force_job j.channel (j ∷ []) ≡ record j { forced = true } ∷ []
unfolding force_job
force_only j = ground arith

finish-Coherent :
    (y : System) (channel : ℕ) (j : Job) (forced : Bool)
    → find_job channel y.jobs ≡ some j
    → CoherentSystem y
    → CoherentSystem (finish y j forced)
unfolding declare_stopped
finish-Coherent y channel j forced e h =
    let (st, only, mine, asked) =
      found_job y.sup.state y.sup.stop_done channel y.jobs j e h.stops in
    record {
      mirror = refl;
      live = tt;
      callers = rw st at h.callers;
      stops = ap (drop_job j.channel) only ∙ drop_only j;
    }

escalate-Coherent :
    (y : System) (channel : ℕ) (j : Job)
    → find_job channel y.jobs ≡ some j
    → CoherentSystem y
    → CoherentSystem (escalate y j)
escalate-Coherent y channel j e h =
    let (st, only, mine, asked) =
      found_job y.sup.state y.sup.stop_done channel y.jobs j e h.stops in
    elim (Bool-cases j.forced) [
      | inl over ↦ simp over (finish-Coherent y channel j true e h)
      | inr within ↦ simp within (
          perform_all-Coherent (signal_group j.pgid sigkill)
            (record y { jobs = force_job j.channel y.jobs })
            (simp effect_laws (record {
              mirror = h.mirror;
              live = h.live;
              callers = h.callers;
              stops =
                  rw st (
                    record j { forced = true },
                    ap (force_job j.channel) only ∙ force_only j,
                    mine,
                  );
            })))
    ]

section-Coherent :
    (y : System) (s : Supervisor) (es : List Effect)
    → Keeps (s, es) y.waits y.jobs
    → CoherentSystem (perform_all (record y { sup = s }) es)
section-Coherent y s es h = perform_all-Coherent es (record y { sup = s }) h

gone_or_not :
    (b : Bool) (y z : System)
    → CoherentSystem y
    → CoherentSystem z
    → CoherentSystem (if b then y else z)
gone_or_not true y z h k = h
gone_or_not false y z h k = k

-- Every critical section keeps the lifecycle coherent.
pub step-Coherent : (y : System) (e : Event) → CoherentSystem y → CoherentSystem (step y e)
unfolding step
step-Coherent y (starts host now) h =
    let (s, es) = ensure_started y.sup host now y.spawns y.requests in
    section-Coherent (record y { requests = suc y.requests; spawns = suc y.spawns }) s es
      (ensure_started-Coherent y.sup host now y.spawns y.requests y.waits y.jobs h)
step-Coherent y (wakes host now) h =
    let (s, es) = ensure_started_on_demand y.sup host now y.spawns y.requests in
    section-Coherent (record y { requests = suc y.requests; spawns = suc y.spawns }) s es
      (on_demand-Coherent y.sup host now y.spawns y.requests y.waits y.jobs h)
step-Coherent y retires h =
    unfold retire in
    record { mirror = h.mirror; live = h.live; callers = h.callers; stops = h.stops }
step-Coherent y stops h =
    let (s, es, wait) = stop_async y.sup y.stop_calls in
    section-Coherent (record y { stop_calls = suc y.stop_calls }) s es
      (stop_in-Coherent y.sup.state y.sup y.stop_calls y.waits y.jobs refl h)
step-Coherent y (probe_succeeds c) h =
    let (s, es) = probe_ready y.sup c in
    section-Coherent y s es (probe_ready-Coherent y.sup c y.waits y.jobs h)
step-Coherent y (startup_times_out c) h =
    let (s, es) = probe_timeout y.sup c in
    section-Coherent y s es (probe_timeout-Coherent y.sup c y.waits y.jobs h)
step-Coherent y (exits c now ps e) h = elim (Bool-cases (waiting c.id y.waits)) [
  | inl waits ↦
      let (s, es) = handle_exit y.sup c now ps e in
      rw (waits, step)
        (section-Coherent (record y { waits = reap c.id y.waits }) s es
          (handle_exit-Coherent y.sup c now ps e y.waits y.jobs h))
  | inr gone ↦ rw (gone, step) h
]
step-Coherent y (pump_drained n) h = elim (Option-cases (get_elem? y.drains n)) [
  | inl e ↦ rw (e, step) h
  | inr ((ws, o), e) ↦
      rw (e, step)
        (perform_all-Coherent (notify ws o) (record y { drains = drop_at n y.drains })
          (simp effect_laws
            (record { mirror = h.mirror; live = h.live; callers = h.callers; stops = h.stops })))
]
step-Coherent y (group_gone channel) h = elim (Option-cases (find_job channel y.jobs)) [
  | inl e ↦ rw (e, step) h
  | inr (j, e) ↦
      rw (e, step)
        (gone_or_not (reaped j.child y.waits) (finish y j j.forced) y
          (finish-Coherent y channel j j.forced e h) h)
]
step-Coherent y (window_over channel) h = elim (Option-cases (find_job channel y.jobs)) [
  | inl e ↦ rw (e, step) h
  | inr (j, e) ↦ rw (e, step) (escalate-Coherent y channel j e h)
]

pub run-Coherent : (es : List Event) (y : System) → CoherentSystem y → CoherentSystem (run y es)
unfolding run
run-Coherent [] y h = h
run-Coherent (e ∷ es) y h = run-Coherent es (step y e) (step-Coherent y e h)

pub boot-Coherent : (p : Project) → CoherentSystem (boot p)
unfolding boot new_supervisor
boot-Coherent p = record { mirror = refl; live = tt; callers = refl; stops = refl }
