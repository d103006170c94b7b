-- ===== src/Process/Tests.antt =====
-- Runs of the models of internal/process, and the theorems at concrete inputs.
use herd_wake.Prelude.{
  ◌*◌, ◌≤◌, ◌<◌, ◌≡◌, ◌≢◌, refl, true, false, List, [], ◌∷◌, none, some, Bytes, codes, arith,
}
use herd_wake.Prelude.Int.{pos}
use herd_wake.Config.Sample.{dashboard}
use herd_wake.Process.Ring.{RingBuffer, new_ring_buffer, append_all, last}
use herd_wake.Process.Ring.Refine.{last-append_all}
use herd_wake.Process.Supervisor.Types.{starting, stopping, failed, Cmd, new_supervisor, ready}
use herd_wake.Process.Supervisor.Backoff.{backoff_delay, second, backoff_delay-min}
use herd_wake.Process.Supervisor.Start.{Host, pid_of, retire, ensure_started_on_demand, probe_ready}
use herd_wake.Process.Supervisor.Stop.{stop_in}
use herd_wake.Process.Supervisor.Exit.{handle_exit}
use herd_wake.Process.System.{
  Event, wakes, retires, stops, probe_succeeds, exits, pump_drained, boot, step, run,
}
use herd_wake.Process.System.Invariant.{Coherent}
use herd_wake.Process.System.Outcomes.{
  run-boot-Coherent, sent_at_most_once, sent_exactly_once, stop-Ends, Ends,
}
use herd_wake.Process.System.Answers.{sent_to}
use herd_wake.Process.System.Retirement.{retired-run}

abbrev words : List Bytes
words = codes "a" ∷ codes "b" ∷ codes "c" ∷ codes "d" ∷ []

-- Three lines fit: the oldest of four is gone.
last-append_all_example :
    (r : RingBuffer) × (append_all (new_ring_buffer 3) words ≡ some r)
    × (last r (pos 2) ≡ some (codes "c" ∷ codes "d" ∷ []))
last-append_all_example = last-append_all 3 words (pos 2) (omega arith)

backoff_delay-min_example : backoff_delay 4 ≡ 8 * second
backoff_delay-min_example = backoff_delay-min 3

abbrev healthy : Host
healthy = record { env_error = none; log_error = none; pipe_error = none; started = pid_of 4711 }

abbrev child : Cmd
child = record { id = 0; pid = 4711 }

-- Two visitors wake the project, it gets ready, and a stop begins.
abbrev visit : List Event
visit = wakes healthy 5 ∷ wakes healthy 6 ∷ probe_succeeds child ∷ stops ∷ []

abbrev crash : List Event
crash =
    wakes healthy 5
    ∷ wakes healthy 6
    ∷ exits child 9 (some (codes "exit status 1", false)) none
    ∷ pump_drained 0
    ∷ []

visit_stops : (run (boot dashboard) visit).sup.state ≡ stopping
unfolding run boot step new_supervisor ensure_started_on_demand probe_ready stop_in
visit_stops = refl

visit_answers : (run (boot dashboard) visit).sent ≡ (1, ready) ∷ (0, ready) ∷ []
unfolding run boot step new_supervisor ensure_started_on_demand probe_ready stop_in
visit_answers = refl

run-boot-Coherent_example :
    Coherent
      (run (boot dashboard) visit).sup
      (run (boot dashboard) visit).waits
      (run (boot dashboard) visit).jobs
run-boot-Coherent_example = run-boot-Coherent dashboard visit

sent_at_most_once_example : sent_to 0 (run (boot dashboard) crash).sent ≤ 1
sent_at_most_once_example = sent_at_most_once dashboard crash 0

crash_failed : (run (boot dashboard) crash).sup.state ≡ failed
unfolding run boot step new_supervisor ensure_started_on_demand handle_exit
crash_failed = refl

crash_settled : (run (boot dashboard) crash).sup.state ≢ starting
crash_settled e = cc (crash_failed, e)

crash_made : 1 < (run (boot dashboard) crash).requests
unfolding run boot step new_supervisor ensure_started_on_demand handle_exit
crash_made = omega arith

crash_drained : (run (boot dashboard) crash).drains ≡ []
unfolding run boot step new_supervisor ensure_started_on_demand handle_exit
crash_drained = refl

sent_exactly_once_example : sent_to 1 (run (boot dashboard) crash).sent ≡ 1
sent_exactly_once_example =
    sent_exactly_once dashboard crash 1 crash_made crash_settled crash_drained

stop-Ends_example : Ends (run (boot dashboard) visit) (run (boot dashboard) visit).sup.stop_done
stop-Ends_example = stop-Ends dashboard visit visit_stops

-- Retired while starting: the crash that follows is not followed by a new process.
abbrev retiring : List Event
retiring = wakes healthy 5 ∷ retires ∷ []

retiring_retired : (run (boot dashboard) retiring).sup.retired ≡ true
unfolding run boot step new_supervisor ensure_started_on_demand retire
retiring_retired = refl

retired-run_example :
    ((run (run (boot dashboard) retiring) crash).groups ≡ (run (boot dashboard) retiring).groups)
    × ((run (run (boot dashboard) retiring) crash).sup.retired ≡ true)
retired-run_example = retired-run (run (boot dashboard) retiring) crash retiring_retired
