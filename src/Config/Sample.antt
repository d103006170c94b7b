-- ===== src/Config/Sample.antt =====
-- Data for the tests: a project with the values of config.sample.yaml's first entry, in short, a
-- wildcard entry, and a machine.
use herd_wake.Prelude.{true, false, [], ◌∷◌, none, some, codes, equal}
use herd_wake.Config.Hostname.{Platform, directory}
use herd_wake.Config.Discovery.{Discovery}
use herd_wake.Prelude.Int.{pos}
use herd_wake.Config.Project.{Project}

abbrev pub dashboard : Project
dashboard = record {
  name = codes "dashboard";
  source = codes "config.yaml";
  public_url = codes "https://dashboard.test";
  supervisor_port = pos 7101;
  application_port = pos 17101;
  working_directory = codes "/home/dev/dashboard";
  command = codes "npm run dev";
  readiness_strategy = codes "http";
  readiness_url = codes "http://127.0.0.1:17101/";
  startup_timeout_seconds = pos 60;
  idle_timeout_minutes = pos 15;
  idle_timeout_seconds = pos 0;
  listen_host = codes "127.0.0.1";
  allow_non_loopback = false;
  shutdown_signal = codes "SIGTERM";
  shutdown_timeout_seconds = pos 10;
  websockets_keep_alive = some true;
  diagnostic_logs = some true;
  log_retention_days = pos 7;
  hold_max_wait_seconds = pos 65;
  hold_max_requests = pos 100;
  host = [];
  env = none;
  env_file = [];
  node_path = [];
  always_on = false;
  rewrite_host = false;
}

-- a machine where each path is a directory and each URL has a host
abbrev pub machine : Platform
machine = record {
  stat = λ path. directory;
  parse_url = λ url. some (codes "https", codes "x");
  loopback_ip = equal (codes "127.0.0.1");
  home = none;
  join = λ a b. a;
  glob = λ pattern name. some false;
  lower_unicode = λ s. s;
}

-- what a template leaves out
abbrev pub blank : Project
blank = record {
  name = [];
  source = [];
  public_url = [];
  supervisor_port = pos 41000;
  application_port = pos 0;
  working_directory = [];
  command = codes "npm run dev";
  readiness_strategy = [];
  readiness_url = [];
  startup_timeout_seconds = pos 0;
  idle_timeout_minutes = pos 0;
  idle_timeout_seconds = pos 0;
  listen_host = [];
  allow_non_loopback = false;
  shutdown_signal = [];
  shutdown_timeout_seconds = pos 0;
  websockets_keep_alive = none;
  diagnostic_logs = none;
  log_retention_days = pos 0;
  hold_max_wait_seconds = pos 0;
  hold_max_requests = pos 0;
  host = [];
  env = none;
  env_file = [];
  node_path = [];
  always_on = false;
  rewrite_host = false;
}

abbrev pub webapp : Discovery
webapp = record {
  name = codes "webapp";
  mode = codes "wildcard";
  base_domain = codes "webapp.test";
  directory = codes "/home/dev/trees";
  repository = [];
  require_files = [];
  url_template = [];
  port_command = [];
  application_port_range = pos 42000 ∷ pos 42999 ∷ [];
  supervisor_port_range = [];
  herd = none;
  exclude = some [];
  max_running = pos 2;
  template = blank;
}
