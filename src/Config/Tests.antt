-- ===== src/Config/Tests.antt =====
-- Tests of internal/config: the checks on small configurations.
use herd_wake.Prelude.{
  true, false, [], ◌∷◌, none, some, codes, equal, ◌≡◌, refl, All, arith, ◌↔◌, concat, split,
}
use herd_wake.Prelude.Int.{pos}
use herd_wake.Config.Project.{Project}
use herd_wake.Config.Sample.{dashboard, machine, webapp}
use herd_wake.Config.Hostname.{
  label_tail, all_labels, is_valid_port, equal_int, is_http_url, is_loopback_host, is_dns_label,
  is_hostname,
}
use herd_wake.Config.Discovery.{
  after_prefix, cut_suffix, is_wildcard, label_host, label_url, replace_name, supervisor_port,
  host_label, dynamic_project,
}
use herd_wake.Config.Validate.{
  validate_project, command_errors, directory_errors, env_file_error, env_file_errors, file_errors,
  found_errors, host_errors, is_among, listen_errors, negative_errors, port_errors,
  readiness_errors, same_port_errors, signal_errors, strategy_errors, url_errors,
}
use herd_wake.Config.ValidateDiscovery.{
  validate_entry, name_errors, mode_errors, entry_directory_errors, repository_errors,
  require_errors, mode_setting_errors, wildcard_errors, base_errors, holds_text, above,
  exclude_errors, probe, probe_errors, proxy_errors, range_errors, shared_port_errors,
  template_errors, unused_errors,
}
use herd_wake.Config.ValidateConfig.{
  Config, validate_config, projects_check, claim_project, claim_host, claim_port, conflict,
  claim_at, host_owner, claim_entry, entries_claims, discovery_errors, entry_number, seen_at,
  seen_errors, budget_errors,
}
use herd_wake.Prelude.Space.{trim_space, trim_back, trim_left, reversed}
use herd_wake.Config.Defaults.{
  add_ℕ, apply_defaults, default_hold_wait, default_readiness_url, digits_from, expand_all,
  expand_home, home_rest, is_ascii, lower_ascii, lower_host, port_digits, to_lower,
}
use herd_wake.Config.Exclusive.{validate_config_exclusive, project_ports}
use herd_wake.Config.Rounds.{Apart}
use herd_wake.Config.EntryPorts.{EntriesFree}
use herd_wake.Config.Labels.{host_label_iff}
use herd_wake.Config.Materialised.{dynamic_project-Open}
use herd_wake.Config.Template.{Open}

abbrev huddle : Project
huddle = record dashboard { name = codes "huddle"; host = codes "huddle.example.com" }

abbrev voice : Project
voice = record dashboard {
  name = codes "voice";
  host = codes "voice.example.com";
  application_port = pos 17102;
}

abbrev shared : Config
shared = record {
  projects = huddle ∷ voice ∷ [];
  max_running = pos 0;
  discovery = some webapp ∷ [];
}

webapp_label : host_label webapp (codes "feat.webapp.test") ≡ some (codes "feat")
unfolding host_label cut_suffix equal is_dns_label label_tail
webapp_label = refl

deeper_label : host_label webapp (codes "www.feat.webapp.test") ≡ none
unfolding host_label cut_suffix equal is_dns_label label_tail
deeper_label = refl

host_label_iff_example : (host_label webapp (codes "feat.webapp.test") ≡ some (codes "feat")) ↔ (
    (codes "feat.webapp.test" ≡ label_host webapp (codes "feat"))
    × (is_dns_label (codes "feat") ≡ true))
host_label_iff_example = host_label_iff webapp (codes "feat.webapp.test") (codes "feat")

entry_valid : validate_entry machine (codes "webapp") webapp ≡ []
unfolding equal concat split trim_space trim_back trim_left reversed label_tail all_labels
    is_valid_port equal_int is_http_url is_loopback_host is_dns_label is_hostname add_ℕ
    apply_defaults default_hold_wait default_readiness_url digits_from expand_all expand_home
    home_rest is_ascii lower_ascii lower_host port_digits to_lower after_prefix is_wildcard
    label_host label_url replace_name validate_project command_errors directory_errors
    env_file_error env_file_errors file_errors found_errors host_errors is_among listen_errors
    negative_errors port_errors readiness_errors same_port_errors signal_errors strategy_errors
    url_errors validate_entry name_errors mode_errors entry_directory_errors repository_errors
    require_errors mode_setting_errors wildcard_errors base_errors holds_text above exclude_errors
    probe probe_errors proxy_errors range_errors shared_port_errors template_errors unused_errors
entry_valid = refl

shared_valid : validate_config machine false shared ≡ []
unfolding equal concat split trim_space trim_back trim_left reversed label_tail all_labels
    is_valid_port equal_int is_http_url is_loopback_host is_dns_label is_hostname add_ℕ
    apply_defaults default_hold_wait default_readiness_url digits_from expand_all expand_home
    home_rest is_ascii lower_ascii lower_host port_digits to_lower after_prefix is_wildcard
    label_host label_url replace_name supervisor_port validate_project command_errors
    directory_errors env_file_error env_file_errors file_errors found_errors host_errors is_among
    listen_errors negative_errors port_errors readiness_errors same_port_errors signal_errors
    strategy_errors url_errors validate_entry name_errors mode_errors entry_directory_errors
    repository_errors require_errors mode_setting_errors wildcard_errors base_errors holds_text
    above exclude_errors probe probe_errors proxy_errors range_errors shared_port_errors
    template_errors unused_errors validate_config projects_check claim_project claim_host claim_port
    conflict claim_at host_owner claim_entry entries_claims discovery_errors entry_number seen_at
    seen_errors budget_errors
shared_valid = refl

validate_config_exclusive_example :
    Apart (huddle ∷ voice ∷ [])
    × EntriesFree (project_ports (huddle ∷ voice ∷ [])) (some webapp ∷ [])
validate_config_exclusive_example = validate_config_exclusive machine false shared shared_valid

dynamic_project-Open_example : All Open (
    validate_project machine false
      (dynamic_project machine webapp (codes "feat") (codes "/home/dev/trees/feat") (pos 42000)))
dynamic_project-Open_example =
    dynamic_project-Open machine false webapp (codes "webapp") (codes "feat")
      (codes "/home/dev/trees/feat") (pos 42000) entry_valid (unfold is_wildcard equal in refl)
      (unfold is_dns_label label_tail in refl) (unfold label_host in omega arith)
