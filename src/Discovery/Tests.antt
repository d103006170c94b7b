-- ===== src/Discovery/Tests.antt =====
-- Tests of the models of internal/discovery: runs at concrete inputs.
use herd_wake.Prelude.{false, List, [], ◌∷◌, none, some, codes, equal, ◌≡◌, refl, All}
use herd_wake.Prelude.Int.{pos}
use herd_wake.Config.Project.{Project}
use herd_wake.Config.Discovery.{supervisor_port}
use herd_wake.Config.Sample.{dashboard, webapp}
use herd_wake.Herd.{site_from_url, site_of_host, site_name, last_dot}
use herd_wake.Config.Hostname.{equal_int}
use herd_wake.Discovery.Build.{Used, find_project}
use herd_wake.Discovery.HerdActions.{
  herd_actions, proxy_command, unproxy_command, proxy_actions, proxy_one, unproxy_actions,
  unproxy_one, unproxy_action, unproxy_site, proxy_with, unproxy_with, proxy_over, unproxy_over,
  run_herd, herd_quiet, herd_enabled,
}
use herd_wake.Discovery.Entry.{build_all, final_of}
use herd_wake.Discovery.WildcardSync.{listener_of, retire_wildcards}
use herd_wake.Discovery.Sync.{used_by_projects, used_by_entries, sync}
use herd_wake.Discovery.DryRunEntry.{HasNoEffect}
use herd_wake.Discovery.DryRun.{sync-dry}
use herd_wake.Discovery.Retired.{Stays, fails, retire_wildcards-kept}
use herd_wake.Discovery.Commands.{AllWarranted, herd_actions-Warranted}
use herd_wake.Discovery.Sample.{
  trees, two_trees, registered, configured_projects, configured_entries, web, silent, old_project,
  gone_entry, listener_gone, dry_of_old, herd_behind, named_web, nothing_there, failing_herd,
}

abbrev first_sync : List Project
first_sync = final_of (build_all [] web none trees silent [] two_trees []).0

-- the two ports of each of two projects
abbrev AllDiffer : (p q : Project) → Type 0
AllDiffer p q =
    (equal_int p.supervisor_port q.supervisor_port ≡ false)
    × (equal_int p.supervisor_port q.application_port ≡ false)
    × (equal_int p.application_port q.supervisor_port ≡ false)
    × (equal_int p.application_port q.application_port ≡ false)

abbrev first_used : Used
first_used = used_by_entries configured_entries (used_by_projects configured_projects [])

-- the configuration behind the first sync, with the two projects that it wrote
abbrev loaded_a : Project
loaded_a = record registered { public_url = codes "https://a.test" }

abbrev loaded_b : Project
loaded_b = record loaded_a {
  name = codes "b";
  public_url = codes "https://b.test";
  supervisor_port = pos 7201;
  application_port = pos 17201;
}

abbrev loaded_projects : List Project
loaded_projects = dashboard ∷ loaded_a ∷ loaded_b ∷ []

herd_actions-Warranted_example :
    AllWarranted herd_behind named_web
      (dashboard ∷ [])
      (old_project ∷ [])
      []
      (herd_actions herd_behind named_web none (dashboard ∷ []) (old_project ∷ []) []).1
herd_actions-Warranted_example =
    herd_actions-Warranted herd_behind named_web (dashboard ∷ []) (old_project ∷ []) none []

-- its commands: the proxy of the dashboard, and the end of the old one
two_commands :
    (herd_actions herd_behind named_web none (dashboard ∷ []) (old_project ∷ []) []).1
    ≡ proxy_command (codes "dashboard") (pos 7101) ∷ unproxy_command (codes "old") ∷ []
unfolding herd_actions proxy_actions proxy_one unproxy_actions unproxy_one unproxy_action
    unproxy_site proxy_with unproxy_with proxy_over unproxy_over run_herd herd_quiet herd_enabled
    find_project site_from_url site_of_host site_name last_dot herd_wake.Config.Defaults.to_lower
    herd_wake.Config.Defaults.is_ascii herd_wake.Config.Defaults.lower_ascii
    herd_wake.Config.Hostname.equal_int equal
two_commands = refl

-- the same sync again makes no proxy, and removes none
no_command :
    (herd_actions herd_behind named_web none
      (dashboard ∷ [])
      (old_project ∷ [])
      (proxy_command (codes "dashboard") (pos 7101) ∷ unproxy_command (codes "old") ∷ [])).1
    ≡ []
unfolding herd_actions proxy_actions proxy_one unproxy_actions unproxy_one unproxy_action
    unproxy_site proxy_with unproxy_with proxy_over unproxy_over run_herd herd_quiet herd_enabled
    find_project site_from_url site_of_host site_name last_dot herd_wake.Config.Defaults.to_lower
    herd_wake.Config.Defaults.is_ascii herd_wake.Config.Defaults.lower_ascii
    herd_wake.Config.Hostname.equal_int equal
no_command = refl

sync-dry_example :
    All HasNoEffect
      (sync (λ ran. dry_of_old) web [] nothing_there (webapp ∷ trees ∷ []) gone_entry).0
sync-dry_example =
    sync-dry (λ ran. dry_of_old) web (λ ran. refl) [] nothing_there (webapp ∷ trees ∷ []) gone_entry

gone_listener : listener_of (codes "gone") gone_entry.wildcards ≡ some listener_gone
unfolding listener_of equal
gone_listener = refl

gone-Stays : Stays (λ ran. failing_herd) web listener_gone
unfolding site_from_url site_of_host site_name last_dot herd_wake.Config.Defaults.to_lower
    herd_wake.Config.Defaults.is_ascii herd_wake.Config.Defaults.lower_ascii
gone-Stays = record {
  host = codes "a.test";
  site = codes "a";
  sited = refl;
  remains = λ ran. fails refl refl refl;
}

retire_wildcards-kept_example :
    listener_of
      (codes "gone")
      (retire_wildcards (λ ran. failing_herd) web [] gone_entry.wildcards [] gone_entry).1.wildcards
    ≡ some listener_gone
retire_wildcards-kept_example =
    retire_wildcards-kept (λ ran. failing_herd) web [] gone_entry.wildcards [] gone_entry
      (codes "gone") listener_gone gone_listener gone-Stays
