-- ===== src/Discovery/HerdActions.antt =====
-- internal/discovery/discovery.go: what a sync does with Herd's proxies. An action says what was done
-- for a project; `ran` are the commands `herd proxy` and `herd unproxy` that were run, in order. The
-- commands that only list, `herd paths` and `herd links`, are not among them.
use herd_wake.Prelude.{
  Bool, true, false, not, ◌&&◌, List, [], ◌∷◌, ◌++◌, Option, none, some, if◌then◌else◌, Bytes,
}
use herd_wake.Prelude.Int.{ℤ, pos}
use herd_wake.Config.Project.{Project}
use herd_wake.Config.Hostname.{equal_int}
use herd_wake.Herd.{Web, Target, no_site, unknown_site, proxies_to, site_from_url}
use herd_wake.Discovery.Build.{Cli, find_project}

-- `Options`, without what it says to the user
pub record SyncOptions : Type 0 where
  pub cli : Option Cli
  pub unavailable : Bool
  pub darwin : Bool
  pub dry_run : Bool

pub data Status : Type 0 where
  done already_so dry manual refused_site : Status

pub data HerdCommand : Type 0 where
  proxy_command : (site : Bytes) → (port : ℤ) → HerdCommand
  unproxy_command : (site : Bytes) → HerdCommand

pub record HerdAction : Type 0 where
  pub site : Bytes
  pub project : Bytes
  pub port : ℤ
  pub status : Status

-- an action, and the commands that it ran
abbrev pub Ran : Type 0
Ran = Status × List HerdCommand

abbrev pub is_unset : Option Bool → Bool
is_unset none = true
is_unset (some b) = false

abbrev pub has_cli : Option Cli → Bool
has_cli none = false
has_cli (some c) = true

-- `herdQuiet`
unfoldable pub herd_quiet : SyncOptions → (setting : Option Bool) → Bool
herd_quiet o setting = not (has_cli o.cli) && (o.unavailable && (not o.darwin && is_unset setting))

-- `HerdEnabled`
unfoldable pub herd_enabled : (setting : Option Bool) → Bool
herd_enabled none = true
herd_enabled (some b) = b

-- `runHerd`; `succeeds` is what the command answers
unfoldable pub run_herd : SyncOptions → HerdCommand → (succeeds : Bool) → Ran
run_herd o command succeeds =
    if o.dry_run
    then (dry, [])
    else if succeeds
    then (done, command ∷ [])
    else (manual, command ∷ [])

module _ (o : SyncOptions) where
  -- the innermost `switch` of the first loop
  unfoldable pub proxy_over : Cli → (site : Bytes) → (port : ℤ) → Target → Ran
  proxy_over cli site port unknown_site = (manual, [])
  proxy_over cli site port no_site = run_herd o (proxy_command site port) (cli.proxy site port)
  proxy_over cli site port (proxies_to current) =
      if equal_int current port
      then (already_so, [])
      else if equal_int current (pos 0)
      then (manual, [])
      else run_herd o (proxy_command site port) (cli.proxy site port)

  unfoldable pub proxy_with : (enabled : Bool) → Option Cli → (host site : Bytes) → (port : ℤ) → Ran
  proxy_with false cli host site port = (manual, [])
  proxy_with true none host site port = (manual, [])
  proxy_with true (some cli) host site port = proxy_over cli site port (cli.target host)

  -- the same for a proxy that is removed
  unfoldable pub unproxy_over : Cli → (site : Bytes) → (port : ℤ) → Target → Ran
  unproxy_over cli site port unknown_site = (manual, [])
  unproxy_over cli site port no_site = (already_so, [])
  unproxy_over cli site port (proxies_to current) =
      if not (equal_int current port)
      then (already_so, [])
      else run_herd o (unproxy_command site) (cli.unproxy site)

  unfoldable pub unproxy_with :
      (enabled : Bool) → Option Cli → (host site : Bytes) → (port : ℤ) → Ran
  unproxy_with false cli host site port = (manual, [])
  unproxy_with true none host site port = (manual, [])
  unproxy_with true (some cli) host site port = unproxy_over cli site port (cli.target host)

  module _ (w : Web) where
    -- `unproxyAction`
    unfoldable pub unproxy_site :
        (enabled : Bool) → Project → Option (Bytes × Bytes) → HerdAction × List HerdCommand
    unproxy_site enabled p none =
        (record { site = []; project = p.name; port = p.supervisor_port; status = already_so }, [])
    unproxy_site enabled p (some (host, site)) =
        let r = unproxy_with enabled o.cli host site p.supervisor_port in
        (record { site = site; project = p.name; port = p.supervisor_port; status = r.0 }, r.1)

    unfoldable pub unproxy_action : (enabled : Bool) → Project → HerdAction × List HerdCommand
    unproxy_action enabled p = unproxy_site enabled p (site_from_url w p.public_url)

abbrev pub Actions : Type 0
Actions = List HerdAction × List HerdCommand

-- one project of the first loop
unfoldable pub proxy_one :
    SyncOptions → (enabled : Bool) → Project → Option (Bytes × Bytes) → Actions
proxy_one o enabled p none = ([], [])
proxy_one o enabled p (some (host, site)) =
    let r = proxy_with o enabled o.cli host site p.supervisor_port in
    (record { site = site; project = p.name; port = p.supervisor_port; status = r.0 } ∷ [], r.1)

-- one project of the second loop; `kept` is the project of its name that the entry has now
unfoldable pub unproxy_one :
    SyncOptions → Web → (enabled : Bool) → Project → (kept : Option Project) → Actions
unproxy_one o w enabled p (some kept) = ([], [])
unproxy_one o w enabled p none = let a = unproxy_action o w enabled p in (a.0 ∷ [], a.1)

-- `after` is what a sync meets, by the commands that were run before: each command changes the site files
-- that the look-up of the next reads.
module _ (after : (ran : List HerdCommand) → SyncOptions) (w : Web) where
  -- the first loop
  unfoldable pub proxy_actions :
      (enabled : Bool) → (final : List Project) → (before : List HerdCommand) → Actions
  proxy_actions enabled [] before = ([], [])
  proxy_actions enabled (p ∷ ps) before =
      let r = proxy_one (after before) enabled p (site_from_url w p.public_url) in
      let rest = proxy_actions enabled ps (before ++ r.1) in (r.0 ++ rest.0, r.1 ++ rest.1)

  -- the second loop
  unfoldable pub unproxy_actions :
      (enabled : Bool) → (final existing : List Project) → (before : List HerdCommand) → Actions
  unproxy_actions enabled final [] before = ([], [])
  unproxy_actions enabled final (p ∷ ps) before =
      let r = unproxy_one (after before) w enabled p (find_project p.name final) in
      let rest = unproxy_actions enabled final ps (before ++ r.1) in (r.0 ++ rest.0, r.1 ++ rest.1)

  -- `herdActions`
  unfoldable pub herd_actions :
      (setting : Option Bool)
      → (final existing : List Project) → (before : List HerdCommand) → Actions
  herd_actions setting final existing before =
      if herd_quiet (after before) setting
      then ([], [])
      else let a = proxy_actions (herd_enabled setting) final before in
        let b = unproxy_actions (herd_enabled setting) final existing (before ++ a.1) in
        (a.0 ++ b.0, a.1 ++ b.1)
