-- ===== src/Discovery/Sample.antt =====
-- Data for the tests of internal/discovery.
use herd_wake.Prelude.{
  true, false, List, [], ◌∷◌, Option, none, some, Bytes, codes, equal, if◌then◌else◌,
}
use herd_wake.Prelude.Int.{ℤ, pos}
use herd_wake.Config.Project.{Project}
use herd_wake.Config.Discovery.{Discovery}
use herd_wake.Config.Sample.{machine, dashboard, blank, webapp}
use herd_wake.Herd.{Web, Target, no_site, proxies_to, listed}
use herd_wake.Discovery.Scan.{Candidate}
use herd_wake.Discovery.Build.{Cli}
use herd_wake.Discovery.HerdActions.{SyncOptions, HerdCommand, proxy_command, unproxy_command}
use herd_wake.Discovery.Entry.{missing}
use herd_wake.Discovery.WildcardSync.{Listener, SyncState}
use herd_wake.Discovery.Sync.{Site}

abbrev pub trees : Discovery
trees = record {
  name = codes "trees";
  mode = codes "proxy";
  base_domain = [];
  directory = codes "/home/dev/trees";
  repository = [];
  require_files = [];
  url_template = codes "https://{name}.test";
  port_command = [];
  application_port_range = pos 17200 ∷ pos 17209 ∷ [];
  supervisor_port_range = pos 7200 ∷ pos 7209 ∷ [];
  herd = none;
  exclude = none;
  max_running = pos 0;
  template = blank;
}

abbrev pub two_trees : List Candidate
two_trees =
    record { name = codes "a"; dir = codes "/home/dev/trees/a" }
    ∷ record { name = codes "b"; dir = codes "/home/dev/trees/b" }
    ∷ []

-- a machine where each URL has the host a.test
abbrev pub web : Web
web = record {
  platform = machine;
  hostname = λ url. some (codes "a.test");
  url_port = λ url. some [];
  is_ip = λ host. false;
  json_strings = λ text left. (false, left);
  json_items = λ text. none;
}

abbrev pub silent : (dir : Bytes) → Option ℤ
silent dir = none

-- a Herd without sites
abbrev pub empty_herd : Cli
empty_herd = record {
  paths = listed [];
  links = listed [];
  target = λ host. no_site;
  proxy = λ site port. true;
  unproxy = λ site. true;
}

abbrev pub quiet : SyncOptions
quiet = record { cli = some empty_herd; unavailable = false; darwin = true; dry_run = false }

abbrev pub render_nothing : List Project → Option Bytes
render_nothing ps = some (codes "projects: {}")

-- the entry has the project dashboard, and had another, whose proxy is in place
abbrev pub old_project : Project
old_project = record dashboard {
  name = codes "old";
  public_url = codes "https://old.test";
  supervisor_port = pos 7111;
}

abbrev pub herd_of_old : SyncOptions
herd_of_old = record {
  cli = some record {
    paths = listed [];
    links = listed [];
    target = λ host. proxies_to (pos 7111);
    proxy = λ site port. true;
    unproxy = λ site. true;
  };
  unavailable = false;
  darwin = true;
  dry_run = false;
}

abbrev pub listener_gone : Listener
listener_gone = record { base_domain = codes "a.test"; port = pos 7111 }

abbrev pub gone_entry : SyncState
gone_entry = record { wildcards = (codes "gone", listener_gone) ∷ []; proxy_notes = [] }

abbrev pub dry_of_old : SyncOptions
dry_of_old = record herd_of_old { dry_run = true }

abbrev pub nothing_there : Discovery → Site
nothing_there d = record {
  printed = silent;
  render = render_nothing;
  writes = true;
  file = missing;
  current = missing;
  decoded = some [];
  scanned = some (two_trees, []);
  stale = false;
}

-- the site file proxies to the registered port, and the command that removes the proxy fails
abbrev pub failing_herd : SyncOptions
failing_herd = record {
  cli = some record {
    paths = listed [];
    links = listed [];
    target = λ host. proxies_to (pos 7111);
    proxy = λ site port. true;
    unproxy = λ site. false;
  };
  unavailable = false;
  darwin = true;
  dry_run = false;
}

-- a configuration where the first tree was registered before
abbrev pub registered : Project
registered = record dashboard {
  name = codes "a";
  source = codes "projects.d/trees.yaml";
  supervisor_port = pos 7200;
  application_port = pos 17200;
}

abbrev pub configured_projects : List Project
configured_projects = dashboard ∷ registered ∷ []

abbrev pub configured_entries : List Discovery
configured_entries = webapp ∷ trees ∷ []

-- a machine where old.test is its own host
abbrev pub named_web : Web
named_web = record web {
  hostname = λ url.
      if equal url (codes "https://old.test")
      then some (codes "old.test")
      else some (codes "dashboard.test");
}

-- the site file of a site behind commands, from what it is before them
abbrev pub target_behind : (site : Bytes) → (ran : List HerdCommand) → Target → Target
target_behind site [] t = t
target_behind site (proxy_command s port ∷ cs) t =
    target_behind site cs (if equal s site then proxies_to port else t)
target_behind site (unproxy_command s ∷ cs) t =
    target_behind site cs (if equal s site then no_site else t)

-- a Herd whose site file of old.test proxies to 7111, by the commands that it was given
abbrev pub herd_behind : (ran : List HerdCommand) → SyncOptions
herd_behind ran = record quiet {
  cli = some (record empty_herd {
    target = λ host.
        if equal host (codes "old.test")
        then target_behind (codes "old") ran (proxies_to (pos 7111))
        else target_behind (codes "dashboard") ran no_site;
  });
}
