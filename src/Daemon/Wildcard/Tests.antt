-- ===== src/Daemon/Wildcard/Tests.antt =====
-- Tests of internal/daemon/wildcard.go: labels that are resolved beside a project of the configuration.
use herd_wake.Prelude.{◌≤◌, List, [], ◌∷◌, none, some, codes, equal, ◌≡◌, refl}
use herd_wake.Prelude.Int.{pos}
use herd_wake.Config.Project.{Project}
use herd_wake.Config.Sample.{dashboard, machine, webapp}
use herd_wake.Config.Discovery.{dynamic_project}
use herd_wake.Config.Hostname.{equal_int}
use herd_wake.Config.Discovery.{is_wildcard, supervisor_port}
use herd_wake.Config.Defaults.{add_ℕ}
use herd_wake.Daemon.Wildcard.{
  prepare, with_name, with_port, with_unowned, find_state, discover_port, range_port, lowest_free,
  span, port_owner, state_owner, entry_owner, perform, perform_all, materialise, then_register,
  register, place, Table, Event, resolves, drops, settled,
}
use herd_wake.Daemon.Wildcard.Discover.{FoundPort, discover_port-FoundPort}
use herd_wake.Daemon.Wildcard.Apart.{PortsApart, perform_all-PortsApart}
use herd_wake.Daemon.Wildcard.Rivals.{register_both, rivals_share}
use herd_wake.Daemon.Wildcard.Backoff.{
  resolve_backoff, resolve_doubled, resolve_backoff-backoff_delay,
}
use herd_wake.Process.Supervisor.Backoff.{backoff_delay}
use herd_wake.Daemon.Wildcard.Resolve.{
  Turn, request, finish, unavailable, turns, turn, enter, leave_call, has_label, pausing,
  failure_of, note, forget, end_one, without, new_resolver,
}
use herd_wake.Daemon.Wildcard.Single.{resolutions, one_resolution}

-- a project of the configuration that has the first port of the entry's range
abbrev neighbour : Project
neighbour = record dashboard { application_port = pos 42000 }

abbrev yard : Table
yard = record {
  states = record { project = neighbour; entry = none } ∷ [];
  entries = record { entry = webapp; members = 0; routes = [] } ∷ [];
}

abbrev visits : List Event
visits =
    resolves (codes "webapp") (codes "feat") (codes "/home/dev/trees/feat") none none
    ∷ resolves (codes "webapp") (codes "gone") (codes "/home/dev/trees/gone")
        (some (codes "no directory")) none
    ∷ resolves (codes "webapp") (codes "voice") (codes "/home/dev/trees/voice") none none
    ∷ drops (codes "feat") (codes "feat.webapp.test") (codes "webapp")
    ∷ []

feat_port : lowest_free 1000 (pos 42000) (codes "feat") yard ≡ some (pos 42001)
unfolding lowest_free port_owner state_owner entry_owner add_ℕ equal equal_int supervisor_port
    is_wildcard
feat_port = refl

discover_port-FoundPort_example :
    FoundPort yard
      (codes "feat")
      (pos 42000)
      (pos 42999)
      (discover_port webapp none (codes "feat") yard)
discover_port-FoundPort_example =
    discover_port-FoundPort webapp none (codes "feat") yard (pos 42000) (pos 42999) [] refl refl

yard-PortsApart : PortsApart yard.entries yard.states
unfolding equal_int supervisor_port is_wildcard equal
yard-PortsApart = (tt, (refl, tt), tt)

perform_all-PortsApart_example :
    PortsApart (perform_all machine visits yard).entries (perform_all machine visits yard).states
perform_all-PortsApart_example = perform_all-PortsApart machine visits yard yard-PortsApart

abbrev feat : Project
feat = dynamic_project machine webapp (codes "feat") (codes "/home/dev/trees/feat") (pos 42001)

abbrev voice : Project
voice = dynamic_project machine webapp (codes "voice") (codes "/home/dev/trees/voice") (pos 42001)

feat_made :
    prepare machine webapp (codes "feat") (codes "/home/dev/trees/feat") none none yard
    ≡ settled feat
unfolding equal equal_int is_wildcard supervisor_port add_ℕ prepare with_name with_port with_unowned
    find_state discover_port range_port lowest_free span port_owner state_owner entry_owner perform
    perform_all materialise then_register register place
feat_made = refl

voice_made :
    prepare machine webapp (codes "voice") (codes "/home/dev/trees/voice") none none yard
    ≡ settled voice
unfolding equal equal_int is_wildcard supervisor_port add_ℕ prepare with_name with_port with_unowned
    find_state discover_port range_port lowest_free span port_owner state_owner entry_owner perform
    perform_all materialise then_register register place
voice_made = refl

rivals_share_example :
    (feat.application_port ≡ voice.application_port)
    × ((register_both webapp feat voice yard).states
        ≡ record { project = voice; entry = some (codes "webapp") }
          ∷ record { project = feat; entry = some (codes "webapp") }
          ∷ yard.states)
rivals_share_example =
    rivals_share machine webapp yard (codes "feat") (codes "voice") (codes "/home/dev/trees/feat")
      (codes "/home/dev/trees/voice") none none feat voice refl (unfold equal in refl) feat_made
      voice_made

resolve_backoff-backoff_delay_example : resolve_backoff 6 ≡ backoff_delay 6
resolve_backoff-backoff_delay_example = resolve_backoff-backoff_delay 5

-- a label that is asked for again while it is resolved, and again behind the failure
abbrev visits_feat : List Turn
visits_feat =
    request (codes "feat") 1
    ∷ request (codes "voice") 2
    ∷ request (codes "feat") 3
    ∷ finish (codes "feat") unavailable 4
    ∷ request (codes "feat") 5
    ∷ []

feat_pauses : (turns visits_feat new_resolver).running ≡ codes "voice" ∷ []
unfolding turns turn enter leave_call has_label pausing failure_of note forget end_one without
    resolve_backoff resolve_doubled equal
feat_pauses = refl

one_resolution_example : resolutions (codes "feat") (turns visits_feat new_resolver).running ≤ 1
one_resolution_example = one_resolution visits_feat (codes "feat")
