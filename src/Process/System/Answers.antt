-- ===== src/Process/System/Answers.antt =====
-- Every channel that a caller of `EnsureStarted` holds gets exactly one value.
use herd_wake.Prelude.{
  ℕ, zero, suc, ◌+◌, ◌≡◌, refl, ap, inl, inr, Bool, true, false, List, [], ◌∷◌, ◌++◌, Option, none,
  some, ltb, ◌==◌, if◌then◌else◌, arith, Bytes, get_elem?, Bool-cases, Option-cases,
}
use herd_wake.Process.Supervisor.Types.{
  stopped_while_starting, start_failed, State, stopped, starting, running, stopping, failed, Signal,
  Outcome, Cmd, Supervisor, Effect, send, kill, launch, finish_later, send_later, signal_group,
  notify,
}
use herd_wake.Process.Supervisor.Start.{
  Host, spawn_or_fail, ensure_in, ensure_started, ensure_started_on_demand, retire, probe_ready,
  probe_timeout,
}
use herd_wake.Process.Supervisor.Stop.{
  StopWait, shutdown_signal, stop_async, stop_in, declare_stopped,
}
use herd_wake.Process.Supervisor.Exit.{exit_in, handle_exit, describe_exit}
use herd_wake.Process.System.{
  System, Event, Job, perform, perform_all, step, run, drop_at, starts, wakes, retires, stops,
  probe_succeeds, startup_times_out, exits, pump_drained, group_gone, window_over, waiting, reap,
  find_job, force_job, escalate,
}

abbrev pub hit : (channel k : ℕ) → ℕ
hit channel k = if k == channel then 1 else 0

-- How often a channel stands among waiters, ...
abbrev pub count : ℕ → List ℕ → ℕ
count channel [] = 0
count channel (w ∷ ws) = hit channel w + count channel ws

-- ... among values already sent, ...
abbrev pub sent_to : ℕ → List (ℕ × Outcome) → ℕ
sent_to channel [] = 0
sent_to channel ((w, o) ∷ ws) = hit channel w + sent_to channel ws

-- ... among those that an exit handler will send, ...
abbrev pub due_to : ℕ → List (List ℕ × Outcome) → ℕ
due_to channel [] = 0
due_to channel ((ws, o) ∷ ds) = count channel ws + due_to channel ds

-- ... and among the effects of a section.
abbrev answers : ℕ → List Effect → ℕ
answers channel [] = 0
answers channel (send k o ∷ es) = hit channel k + answers channel es
answers channel (send_later ws o ∷ es) = count channel ws + answers channel es
answers channel (_ ∷ es) = answers channel es

-- The values that a channel has got or is still owed.
abbrev pub owed : ℕ → System → ℕ
owed channel y = sent_to channel y.sent + due_to channel y.drains + count channel y.sup.waiters

count-append : (k : ℕ) (xs ys : List ℕ) → count k (xs ++ ys) ≡ count k xs + count k ys
count-append k [] ys = omega arith
count-append k (x ∷ xs) ys = omega (arith, count-append k xs ys)

answers-append : (k : ℕ) (xs ys : List Effect) → answers k (xs ++ ys) ≡ answers k xs + answers k ys
answers-append k [] ys = omega arith
answers-append k (send _ _ ∷ xs) ys = omega (arith, answers-append k xs ys)
answers-append k (kill _ _ ∷ xs) ys = answers-append k xs ys
answers-append k (launch _ ∷ xs) ys = answers-append k xs ys
answers-append k (finish_later _ _ _ ∷ xs) ys = answers-append k xs ys
answers-append k (send_later _ _ ∷ xs) ys = omega (arith, answers-append k xs ys)

answers-notify : (k : ℕ) (ws : List ℕ) (o : Outcome) → answers k (notify ws o) ≡ count k ws
answers-notify k [] o = refl
answers-notify k (w ∷ ws) o = omega (arith, answers-notify k ws o)

answers-signal_group : (k pgid : ℕ) (sig : Signal) → answers k (signal_group pgid sig) ≡ 0
answers-signal_group k zero sig = refl
answers-signal_group k (suc n) sig = refl

owed-perform_all :
    (k : ℕ) (es : List Effect) (y : System) → owed k (perform_all y es) ≡ owed k y + answers k es
unfolding perform_all
owed-perform_all k [] y = omega arith
owed-perform_all k (send c o ∷ es) y = omega (arith, owed-perform_all k es (perform y (send c o)))
owed-perform_all k (kill p s ∷ es) y = owed-perform_all k es (perform y (kill p s))
owed-perform_all k (launch c ∷ es) y = owed-perform_all k es (perform y (launch c))
owed-perform_all k (finish_later p c d ∷ es) y =
    owed-perform_all k es (perform y (finish_later p c d))
owed-perform_all k (send_later ws o ∷ es) y =
    omega (arith, owed-perform_all k es (perform y (send_later ws o)))

-- A section hands the waiters that it takes off the list over to its effects.
abbrev Balanced : ℕ → ℕ → Supervisor → Supervisor × List Effect → Type 0
Balanced k new s (s', es) = count k s'.waiters + answers k es ≡ count k s.waiters + new

spawn_or_fail-Balanced :
    (k : ℕ) (s : Supervisor) (host : Host) (now id done : ℕ)
    → Balanced k (hit k done) s (spawn_or_fail s host now id done)
unfolding spawn_or_fail
spawn_or_fail-Balanced k s host now id done = ground (arith, count-append k s.waiters (done ∷ []))

ensure_in-Balanced :
    (k : ℕ) (st : State) (s : Supervisor) (host : Host) (now id done : ℕ)
    → Balanced k (hit k done) s (ensure_in st s host now id done)
unfolding ensure_in
ensure_in-Balanced k starting s host now id done =
    ground (arith, count-append k s.waiters (done ∷ []))
ensure_in-Balanced k _ s host now id done =
    ground (arith, spawn_or_fail-Balanced k s host now id done)

ensure_started-Balanced :
    (k : ℕ) (s : Supervisor) (host : Host) (now id done : ℕ)
    → Balanced k (hit k done) s (ensure_started s host now id done)
unfolding ensure_started
ensure_started-Balanced k s host now id done =
    ensure_in-Balanced k s.state (record s { consecutive_failures = 0; next_retry_at = 0 }) host now
      id done

on_demand-Balanced :
    (k : ℕ) (s : Supervisor) (host : Host) (now id done : ℕ)
    → Balanced k (hit k done) s (ensure_started_on_demand s host now id done)
unfolding ensure_started_on_demand
on_demand-Balanced k s host now id done =
    ground (arith, ensure_in-Balanced k s.state s host now id done)

probe_ready-Balanced : (k : ℕ) (s : Supervisor) (c : Cmd) → Balanced k 0 s (probe_ready s c)
unfolding probe_ready
probe_ready-Balanced k s c = ground (arith, answers-notify k s.waiters Outcome.ready)

probe_timeout-Balanced : (k : ℕ) (s : Supervisor) (c : Cmd) → Balanced k 0 s (probe_timeout s c)
unfolding probe_timeout
probe_timeout-Balanced k s c = ground (arith, answers-signal_group k s.pgid Signal.sigkill)

exit_in-Balanced :
    (k : ℕ) (st : State) (s : Supervisor) (now : ℕ) (desc : Bytes) (clean : Bool)
    → Balanced k 0 s (exit_in st s now desc clean)
unfolding exit_in
exit_in-Balanced k starting s now desc clean = omega (
  arith,
  answers-append k (signal_group s.pgid Signal.sigkill) _,
  answers-signal_group k s.pgid Signal.sigkill,
)
exit_in-Balanced k running s now desc true =
    omega (arith, answers-signal_group k s.pgid Signal.sigkill)
exit_in-Balanced k running s now desc false =
    omega (arith, answers-signal_group k s.pgid Signal.sigkill)
exit_in-Balanced k stopping s now desc clean = omega arith
exit_in-Balanced k stopped s now desc clean = omega arith
exit_in-Balanced k failed s now desc clean = omega arith

handle_exit-Balanced :
    (k : ℕ) (s : Supervisor) (c : Cmd) (now : ℕ) (ps : Option (Bytes × Bool)) (e : Option Bytes)
    → Balanced k 0 s (handle_exit s c now ps e)
unfolding handle_exit
handle_exit-Balanced k s c now ps e =
    let (desc, clean) = describe_exit ps e in
    ground (arith, exit_in-Balanced k s.state s now desc clean)

abbrev section : Supervisor × List Effect × StopWait → Supervisor × List Effect
section (s, es, wait) = (s, es)

stop_in-Balanced :
    (k : ℕ) (st : State) (s : Supervisor) (channel : ℕ)
    → Balanced k 0 s (section (stop_in st s channel))
unfolding stop_in
stop_in-Balanced k starting s channel =
    let sig = shutdown_signal s.project.shutdown_signal in
    let told : Outcome = start_failed stopped_while_starting in
    omega (
      arith,
      answers-append k (notify s.waiters told)
          (signal_group s.pgid sig ++ finish_later s.pgid channel s.cmd ∷ []),
      answers-append k (signal_group s.pgid sig) (finish_later s.pgid channel s.cmd ∷ []),
      answers-signal_group k s.pgid sig,
      answers-notify k s.waiters told,
    )
stop_in-Balanced k running s channel =
    let sig = shutdown_signal s.project.shutdown_signal in
    omega (
      arith,
      answers-append k (signal_group s.pgid sig) (finish_later s.pgid channel s.cmd ∷ []),
      answers-signal_group k s.pgid sig,
    )
stop_in-Balanced k _ s channel = omega arith

drop_at-due :
    (k n : ℕ) (ds : List (List ℕ × Outcome)) {ws : List ℕ} {o : Outcome}
    → get_elem? ds n ≡ some (ws, o)
    → due_to k (drop_at n ds) + count k ws ≡ due_to k ds
unfolding drop_at
drop_at-due k n [] e = cc
drop_at-due k zero ((vs, p) ∷ ds) e =
    ground (arith, ap {B = ℕ} (λ x. elim x [ none ↦ 0 | some (us, q) ↦ count k us ]) e)
drop_at-due k (suc n) ((vs, p) ∷ ds) e = omega (arith, drop_at-due k n ds e)

-- What a section does to the account of a channel.
owed_section :
    (k new : ℕ) (y : System) (s : Supervisor) (es : List Effect)
    → Balanced k new y.sup (s, es)
    → owed k (perform_all (record y { sup = s }) es) ≡ owed k y + new
owed_section k new y s es b = omega (arith, owed-perform_all k es (record y { sup = s }))

escalate-owed : (k : ℕ) (y : System) (j : Job) → owed k (escalate y j) ≡ owed k y
unfolding declare_stopped
escalate-owed k y j = elim (Bool-cases j.forced) [
  | inl over ↦ rw over refl
  | inr within ↦ rw within (
      omega (
        arith,
        owed-perform_all k (signal_group j.pgid Signal.sigkill)
            (record y { jobs = force_job j.channel y.jobs }),
        answers-signal_group k j.pgid Signal.sigkill,
      ))
]

-- Every channel made so far is owed one value in all.
abbrev pub hits_below : ℕ → ℕ → ℕ
hits_below k n = if ltb k n then 1 else 0

-- The channel that an event makes, if any.
abbrev issued : ℕ → System → Event → ℕ
issued k y (starts host now) = hit k y.requests
issued k y (wakes host now) = hit k y.requests
issued k y _ = 0

step-owed : (k : ℕ) (y : System) (e : Event) → owed k (step y e) ≡ owed k y + issued k y e
unfolding step
step-owed k y (starts host now) =
    let (s, es) = ensure_started y.sup host now y.spawns y.requests in
    owed_section k _ (record y { requests = suc y.requests; spawns = suc y.spawns }) s es
      (ensure_started-Balanced k y.sup host now y.spawns y.requests)
step-owed k y (wakes host now) =
    let (s, es) = ensure_started_on_demand y.sup host now y.spawns y.requests in
    owed_section k _ (record y { requests = suc y.requests; spawns = suc y.spawns }) s es
      (on_demand-Balanced k y.sup host now y.spawns y.requests)
step-owed k y retires = unfold retire in omega arith
step-owed k y stops =
    let (s, es, wait) = stop_async y.sup y.stop_calls in
    owed_section k 0 (record y { stop_calls = suc y.stop_calls }) s es
      (stop_in-Balanced k y.sup.state y.sup y.stop_calls)
step-owed k y (probe_succeeds c) =
    let (s, es) = probe_ready y.sup c in owed_section k 0 y s es (probe_ready-Balanced k y.sup c)
step-owed k y (startup_times_out c) =
    let (s, es) = probe_timeout y.sup c in
    owed_section k 0 y s es (probe_timeout-Balanced k y.sup c)
step-owed k y (exits c now ps e) = elim (Bool-cases (waiting c.id y.waits)) [
  | inl waits ↦
      let (s, es) = handle_exit y.sup c now ps e in
      rw waits (
        owed_section k 0 (record y { waits = reap c.id y.waits }) s es
          (handle_exit-Balanced k y.sup c now ps e))
  | inr gone ↦ rw gone (omega arith)
]
step-owed k y (pump_drained n) = elim (Option-cases (get_elem? y.drains n)) [
  | inl e ↦ rw (e, step) (omega arith)
  | inr ((ws, o), e) ↦
      rw (e, step)
        (omega (
          arith,
          owed-perform_all k (notify ws o) (record y { drains = drop_at n y.drains }),
          answers-notify k ws o,
          drop_at-due k n y.drains e,
        ))
]
step-owed k y (group_gone channel) = unfold declare_stopped in ground arith
step-owed k y (window_over channel) = elim (Option-cases (find_job channel y.jobs)) [
  | inl e ↦ rw (e, step) (omega arith)
  | inr (j, e) ↦ rw (e, step) (omega (arith, escalate-owed k y j))
]

requests-perform_all : (es : List Effect) (y : System) → (perform_all y es).requests ≡ y.requests
unfolding perform_all
requests-perform_all [] y = refl
requests-perform_all (send c o ∷ es) y = requests-perform_all es (perform y (send c o))
requests-perform_all (kill p s ∷ es) y = requests-perform_all es (perform y (kill p s))
requests-perform_all (launch c ∷ es) y = requests-perform_all es (perform y (launch c))
requests-perform_all (finish_later p c d ∷ es) y =
    requests-perform_all es (perform y (finish_later p c d))
requests-perform_all (send_later ws o ∷ es) y =
    requests-perform_all es (perform y (send_later ws o))

abbrev makes_channel : Event → ℕ
makes_channel (starts host now) = 1
makes_channel (wakes host now) = 1
makes_channel _ = 0

step-requests : (y : System) (e : Event) → (step y e).requests ≡ y.requests + makes_channel e
unfolding step
step-requests y (starts host now) = omega (arith, requests-perform_all _ _)
step-requests y _ = grind (arith, requests-perform_all)

-- However callers, probes, exits, stops and pumps interleave, each channel that was handed out is
-- owed one value: it has got it, or it stands among the waiters or in one exit handler's list.
pub run-owed :
    (k : ℕ) (es : List Event) (y : System)
    → owed k y ≡ hits_below k y.requests
    → owed k (run y es) ≡ hits_below k (run y es).requests
unfolding run
run-owed k [] y h = h
run-owed k (e ∷ es) y h = run-owed k es (step y e) (next e (step-owed k y e) (step-requests y e))
  where
    next :
        (e : Event)
        → owed k (step y e) ≡ owed k y + issued k y e
        → (step y e).requests ≡ y.requests + makes_channel e
        → owed k (step y e) ≡ hits_below k (step y e).requests
    next (starts host now) a b = rw (a, b, h) (ground arith)
    next (wakes host now) a b = rw (a, b, h) (ground arith)
    next _ a b = rw (a, b, h) (ground arith)
