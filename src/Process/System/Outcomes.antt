-- ===== src/Process/System/Outcomes.antt =====
-- What the callers of a supervisor can rely on, in every history.
use herd_wake.Prelude.{
  ℕ, zero, suc, ◌≤◌, ◌<◌, ◌≡◌, ◌≢◌, refl, ap, inl, inr, true, false, List, [], ◌∷◌, none, arith,
  Bool-cases,
}
use herd_wake.Config.Project.{Project}
use herd_wake.Process.Supervisor.Types.{
  State, stopped, starting, running, stopping, failed, new_supervisor, Signal, signal_group,
  sigkill,
}
use herd_wake.Process.Supervisor.Stop.{declare_stopped}
use herd_wake.Process.System.{
  System, Event, Job, step, run, boot, window_over, perform_all, find_job, force_job,
}
use herd_wake.Process.System.Invariant.{Coherent, Waiting}
use herd_wake.Process.System.Invariant.Steps.{run-Coherent, boot-Coherent}
use herd_wake.Process.System.Answers.{sent_to, owed, run-owed, due_to, count, hits_below}

-- In every history the lock-free state agrees with the locked one, only a starting project has
-- callers waiting, a starting or running project has its own live process with an exit handler, and
-- a project is stopping exactly while one `finishStop` runs, which will close that stop's channel.
pub run-boot-Coherent :
    (p : Project) (es : List Event)
    → Coherent (run (boot p) es).sup (run (boot p) es).waits (run (boot p) es).jobs
run-boot-Coherent p es = run-Coherent es (boot p) (boot-Coherent p)

owed-boot : (k : ℕ) (p : Project) → owed k (boot p) ≡ hits_below k (boot p).requests
unfolding boot new_supervisor
owed-boot k p = ground arith

-- In every history no channel of `EnsureStarted` or `EnsureStartedOnDemand` gets a second value, so
-- that a send on it, which has room for one, never blocks.
pub sent_at_most_once :
    (p : Project) (es : List Event) (k : ℕ) → sent_to k (run (boot p) es).sent ≤ 1
sent_at_most_once p es k = ground (arith, run-owed k es (boot p) (owed-boot k p))

callers_done : (st : State) (ws : List ℕ) → st ≢ starting → Waiting st ws → ws ≡ []
callers_done starting ws ne h = absurd (ne refl)
callers_done stopped ws ne h = h
callers_done running ws ne h = h
callers_done stopping ws ne h = h
callers_done failed ws ne h = h

-- In every history, once the project is not starting and no exit handler still waits for the output
-- pump, each channel that was handed out has got exactly one value.
pub sent_exactly_once :
    (p : Project) (es : List Event) (k : ℕ)
    → k < (run (boot p) es).requests
    → (run (boot p) es).sup.state ≢ starting
    → (run (boot p) es).drains ≡ []
    → sent_to k (run (boot p) es).sent ≡ 1
sent_exactly_once p es k made settled drained =
    let y = run (boot p) es in
    ground (
      arith,
      run-owed k es (boot p) (owed-boot k p),
      ap (due_to k) drained,
      ap (count k)
          (callers_done y.sup.state y.sup.waiters settled (run-boot-Coherent p es).callers),
    )

-- A signal changes neither the supervisor nor the stops.
signal_only :
    (pgid : ℕ) (sig : Signal) (y : System)
    → (y' : System) × (perform_all y (signal_group pgid sig) ≡ y')
      × (y'.sup ≡ y.sup)
      × (y'.jobs ≡ y.jobs)
unfolding perform_all
signal_only zero sig y = (_, refl, refl, refl)
signal_only (suc n) sig y = (_, refl, refl, refl)

first_deadline :
    (y : System) (j : Job) (channel : ℕ)
    → y.jobs ≡ j ∷ []
    → j.channel ≡ channel
    → j.forced ≡ false
    → ((step y (window_over channel)).sup ≡ y.sup)
      × ((step y (window_over channel)).jobs ≡ record j { forced = true } ∷ [])
unfolding step
first_deadline y j channel only mine fresh =
    let (y', e, s, js) =
      signal_only j.pgid sigkill (record y { jobs = force_job j.channel y.jobs }) in
    ground arith

last_deadline :
    (y : System) (j : Job) (channel : ℕ)
    → y.jobs ≡ j ∷ []
    → j.channel ≡ channel
    → j.forced ≡ true
    → ((step y (window_over channel)).sup.state ≡ stopped)
      × ((step y (window_over channel)).jobs ≡ [])
      × ((step y (window_over channel)).closed ≡ channel ∷ y.closed)
unfolding step declare_stopped
last_deadline y j channel only mine over = ground arith

no_deadline : (y : System) (channel : ℕ) → y.jobs ≡ [] → step y (window_over channel) ≡ y
unfolding step
no_deadline y channel e = rw (none_found y.jobs e, step)
  where
    none_found : (js : List Job) → js ≡ [] → find_job channel js ≡ none
    none_found js e = rw e refl

-- Two deadlines from here end the stop of `channel`.
abbrev pub Ends : System → ℕ → Type 0
Ends y ch =
    let z = run y (window_over ch ∷ window_over ch ∷ []) in
    (z.sup.state ≡ stopped) × (z.jobs ≡ []) × ((rest : List ℕ) × (z.closed ≡ ch ∷ rest))

two_deadlines :
    (y : System) (j : Job) (channel : ℕ) → y.jobs ≡ j ∷ [] → j.channel ≡ channel → Ends y channel
unfolding run
two_deadlines y j channel only mine = elim (Bool-cases j.forced) [
  | inl over ↦
      let (st, js, cl) = last_deadline y j channel only mine over in
      rw (no_deadline (step y (window_over channel)) channel js) (st, js, (y.closed, cl))
  | inr fresh ↦
      let (s, js) = first_deadline y j channel only mine fresh in
      let (st, done, cl) =
        last_deadline (step y (window_over channel)) (record j { forced = true }) channel js mine
          refl in
      (st, done, ((step y (window_over channel)).closed, cl))
]

-- Whatever the history that led to a stop, its two deadlines end it, dead or alive: the second to
-- pass leaves the project stopped and the channel of the stop closed.
pub stop-Ends :
    (p : Project) (es : List Event)
    → (run (boot p) es).sup.state ≡ stopping
    → Ends (run (boot p) es) (run (boot p) es).sup.stop_done
stop-Ends p es st =
    let (j, only, mine) = rw st at (run-boot-Coherent p es).stops in
    two_deadlines (run (boot p) es) j (run (boot p) es).sup.stop_done only mine
