-- ===== src/Process/System/Invariant/Sections.antt =====
-- Each critical section keeps the lifecycle coherent.
use herd_wake.Prelude.{
  ℕ, ◌≡◌, ◌≢◌, refl, ap, inl, inr, Bool, true, false, ◌&&◌, List, [], ◌∷◌, Option, none, some, ltb,
  ◌==◌, arith, Bytes, Bool-cases,
}
use herd_wake.Process.Supervisor.Types.{
  State, stopped, starting, running, stopping, failed, Cmd, Supervisor,
}
use herd_wake.Process.Supervisor.Start.{
  Host, spawn_or_fail, ensure_in, ensure_started, ensure_started_on_demand, probe_ready,
  probe_timeout, owns, spawn_cases, is_failed, is_starting,
}
use herd_wake.Process.Supervisor.Stop.{stop_in}
use herd_wake.Process.Supervisor.Exit.{exit_in, handle_exit, describe_exit}
use herd_wake.Process.System.{Job, waiting, reap}
use herd_wake.Process.System.Invariant.{Live, Coherent, Keeps, section, effect_laws}

pub waiting_new : (c : Cmd) (ws : List Cmd) → waiting c.id (c ∷ ws) ≡ true
unfolding waiting
waiting_new c ws = ground arith

pub waiting-reap :
    (id other : ℕ) (ws : List Cmd)
    → id ≢ other
    → waiting id ws ≡ true
    → waiting id (reap other ws) ≡ true
unfolding waiting reap
waiting-reap id other [] ne h = h
waiting-reap id other (c ∷ ws) ne h = ground (arith, waiting-reap id other ws ne)

pub spawn_or_fail-Coherent :
    (s : Supervisor) (host : Host) (now id done : ℕ) (ws : List Cmd) (js : List Job)
    → js ≡ []
    → s.waiters ≡ []
    → Keeps (spawn_or_fail s host now id done) ws js
spawn_or_fail-Coherent s host now id done ws js h k = elim (spawn_cases s host now id done) [
  | inl (why, e) ↦ rw e (record { mirror = refl; live = tt; callers = k; stops = h })
  | inr (pid, e) ↦ rw e (record {
    mirror = refl;
    live =
        (record { id = id; pid = pid }, refl, refl, waiting_new (record { id = id; pid = pid }) ws);
    callers = tt;
    stops = h;
  })
]

pub ensure_in-Coherent :
    (st : State) (s : Supervisor) (host : Host) (now id done : ℕ) (ws : List Cmd) (js : List Job)
    → s.state ≡ st
    → Coherent s ws js
    → Keeps (ensure_in st s host now id done) ws js
unfolding ensure_in
ensure_in-Coherent running s host now id done ws js e h = h
ensure_in-Coherent stopping s host now id done ws js e h = h
ensure_in-Coherent starting s host now id done ws js e h = record {
  mirror = h.mirror;
  live = h.live;
  callers = rw e tt;
  stops = h.stops;
}
ensure_in-Coherent stopped s host now id done ws js e h = elim (Bool-cases s.retired) [
  | inl gone ↦ simp gone h
  | inr fresh ↦
      simp fresh
        (spawn_or_fail-Coherent s host now id done ws js (rw e at h.stops) (rw e at h.callers))
]
ensure_in-Coherent failed s host now id done ws js e h = elim (Bool-cases s.retired) [
  | inl gone ↦ simp gone h
  | inr fresh ↦
      simp fresh
        (spawn_or_fail-Coherent s host now id done ws js (rw e at h.stops) (rw e at h.callers))
]

pub ensure_started-Coherent :
    (s : Supervisor) (host : Host) (now id done : ℕ) (ws : List Cmd) (js : List Job)
    → Coherent s ws js
    → Keeps (ensure_started s host now id done) ws js
unfolding ensure_started
ensure_started-Coherent s host now id done ws js h =
    ensure_in-Coherent s.state (record s { consecutive_failures = 0; next_retry_at = 0 }) host now
      id done ws js refl
      (record { mirror = h.mirror; live = h.live; callers = h.callers; stops = h.stops })

pub on_demand-Coherent :
    (s : Supervisor) (host : Host) (now id done : ℕ) (ws : List Cmd) (js : List Job)
    → Coherent s ws js
    → Keeps (ensure_started_on_demand s host now id done) ws js
unfolding ensure_started_on_demand
on_demand-Coherent s host now id done ws js h =
    elim (Bool-cases (is_failed s.state && ltb now s.next_retry_at)) [
      | inl held ↦ rw held h
      | inr free ↦ rw free (ensure_in-Coherent s.state s host now id done ws js refl h)
    ]

-- `probe_ready` and `probe_timeout` act only on a starting project.
pub starting_here :
    (s : Supervisor) (c : Cmd) → (is_starting s.state && owns s c) ≡ true → s.state ≡ starting
starting_here s c e = ground arith

pub probe_ready-Coherent :
    (s : Supervisor) (c : Cmd) (ws : List Cmd) (js : List Job)
    → Coherent s ws js
    → Keeps (probe_ready s c) ws js
unfolding probe_ready
probe_ready-Coherent s c ws js h = elim (Bool-cases (is_starting s.state && owns s c)) [
  | inl here ↦
      rw (here, probe_ready)
        (simp effect_laws (record {
          mirror = refl;
          live = rw (starting_here s c here) at h.live;
          callers = refl;
          stops = rw (starting_here s c here) at h.stops;
        }))
  | inr late ↦ rw (late, probe_ready) h
]

pub probe_timeout-Coherent :
    (s : Supervisor) (c : Cmd) (ws : List Cmd) (js : List Job)
    → Coherent s ws js
    → Keeps (probe_timeout s c) ws js
unfolding probe_timeout
probe_timeout-Coherent s c ws js h = elim (Bool-cases (is_starting s.state && owns s c)) [
  | inl here ↦
      rw (here, probe_timeout)
        (simp effect_laws
          (record { mirror = h.mirror; live = h.live; callers = h.callers; stops = h.stops }))
  | inr late ↦ rw (late, probe_timeout) h
]

pub exit_in-Coherent :
    (st : State) (s : Supervisor) (now : ℕ) (desc : Bytes) (clean : Bool) (ws vs : List Cmd)
    (js : List Job)
    → s.state ≡ st
    → Coherent s ws js
    → Keeps (exit_in st s now desc clean) vs js
unfolding exit_in
exit_in-Coherent starting s now desc clean ws vs js e h =
    simp effect_laws (record { mirror = refl; live = tt; callers = refl; stops = rw e at h.stops })
exit_in-Coherent running s now desc true ws vs js e h =
    simp effect_laws
      (record { mirror = refl; live = tt; callers = rw e at h.callers; stops = rw e at h.stops })
exit_in-Coherent running s now desc false ws vs js e h =
    simp effect_laws
      (record { mirror = refl; live = tt; callers = rw e at h.callers; stops = rw e at h.stops })
exit_in-Coherent stopping s now desc clean ws vs js e h = record {
  mirror = h.mirror;
  live = rw e tt;
  callers = h.callers;
  stops = h.stops;
}
exit_in-Coherent stopped s now desc clean ws vs js e h = record {
  mirror = h.mirror;
  live = rw e tt;
  callers = h.callers;
  stops = h.stops;
}
exit_in-Coherent failed s now desc clean ws vs js e h = record {
  mirror = h.mirror;
  live = rw e tt;
  callers = h.callers;
  stops = h.stops;
}

pub other_cmd :
    (child : Option Cmd) (d c : Cmd)
    → child ≡ some d
    → (elim child [ none ↦ false | some d ↦ d.id == c.id ]) ≡ false
    → d.id ≢ c.id
other_cmd child d c e ne = ground arith

Live-reap :
    (st : State) (child : Option Cmd) (c : Cmd) (pgid : ℕ) (ws : List Cmd)
    → (elim child [ none ↦ false | some d ↦ d.id == c.id ]) ≡ false
    → Live st child pgid ws
    → Live st child pgid (reap c.id ws)
Live-reap starting child c pgid ws ne (d, e, p, w) =
    (d, e, p, waiting-reap d.id c.id ws (other_cmd child d c e ne) w)
Live-reap running child c pgid ws ne (d, e, p, w) =
    (d, e, p, waiting-reap d.id c.id ws (other_cmd child d c e ne) w)
Live-reap _ child c pgid ws ne h = tt

pub handle_exit-Coherent :
    (s : Supervisor) (c : Cmd) (now : ℕ) (ps : Option (Bytes × Bool)) (e : Option Bytes)
    (ws : List Cmd) (js : List Job)
    → Coherent s ws js
    → Keeps (handle_exit s c now ps e) (reap c.id ws) js
unfolding handle_exit
handle_exit-Coherent s c now ps e ws js h = elim (Bool-cases (owns s c)) [
  | inl mine ↦
      let (desc, clean) = describe_exit ps e in
      rw (mine, handle_exit) (exit_in-Coherent s.state s now desc clean ws (reap c.id ws) js refl h)
  | inr other ↦
      rw (other, handle_exit)
        (record {
          mirror = h.mirror;
          live = Live-reap s.state s.cmd c s.pgid ws other h.live;
          callers = h.callers;
          stops = h.stops;
        })
]

abbrev pub new_job : Supervisor → ℕ → Job
new_job s channel = record { pgid = s.pgid; channel = channel; child = s.cmd; forced = false }

pub stop_in-Coherent :
    (st : State) (s : Supervisor) (channel : ℕ) (ws : List Cmd) (js : List Job)
    → s.state ≡ st
    → Coherent s ws js
    → Keeps (section (stop_in st s channel)) ws js
unfolding stop_in
stop_in-Coherent starting s channel ws js e h = simp effect_laws (record {
  mirror = refl;
  live = tt;
  callers = refl;
  stops = (new_job s channel, ap (◌∷◌ (new_job s channel)) (rw e at h.stops), refl);
})
stop_in-Coherent running s channel ws js e h = simp effect_laws (record {
  mirror = refl;
  live = tt;
  callers = rw e at h.callers;
  stops = (new_job s channel, ap (◌∷◌ (new_job s channel)) (rw e at h.stops), refl);
})
stop_in-Coherent stopped s channel ws js e h = h
stop_in-Coherent stopping s channel ws js e h = h
stop_in-Coherent failed s channel ws js e h = h
