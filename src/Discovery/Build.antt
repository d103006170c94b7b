-- ===== src/Discovery/Build.antt =====
-- internal/discovery/discovery.go: `build`, the project of one candidate, with the ports that a sync
-- hands out. The map `used` is a list of ports with their owners, the newest entry first; a port that
-- is not in it has the empty owner.
use herd_wake.Prelude.{
  ℕ, zero, suc, Bool, not, ◌&&◌, List, [], ◌∷◌, ◌++◌, Option, none, some, if◌then◌else◌, Bytes,
  codes, equal, is_empty,
}
use herd_wake.Prelude.Int.{ℤ, pos}
use herd_wake.Config.Project.{Project}
use herd_wake.Config.Hostname.{equal_int}
use herd_wake.Config.Defaults.{add_ℕ}
use herd_wake.Config.Discovery.{Discovery, label_url, copy_env}
use herd_wake.Daemon.Wildcard.{span}
use herd_wake.Discovery.Scan.{Candidate}
use herd_wake.Herd.{
  Web, Target, no_site, unknown_site, proxies_to, Listing, Conflict, no_conflict, check_failed,
  conflicts, Shadowed, site_conflict, site_from_url,
}

abbrev pub Used : Type 0
Used = List (ℤ × Bytes)

-- `s.used[port]`
unfoldable pub owner_of : ℤ → Used → Bytes
owner_of port [] = []
owner_of port ((q, name) ∷ used) = if equal_int q port then name else owner_of port used

-- `delete(s.used, port)`
unfoldable pub forget_port : ℤ → Used → Used
forget_port port [] = []
forget_port port ((q, name) ∷ used) =
    let rest = forget_port port used in if equal_int q port then rest else (q, name) ∷ rest

-- `release`
unfoldable pub release : ℤ → (name : Bytes) → Used → Used
release port name used = if equal (owner_of port used) name then forget_port port used else used

-- the loop of `allocate`, over the ports of a range that are left
unfoldable pub first_unused : (left : ℕ) → (port : ℤ) → Used → Option ℤ
first_unused zero port used = none
first_unused (suc left) port used =
    let higher = first_unused left (add_ℕ port 1) used in
    if is_empty (owner_of port used) then some port else higher

unfoldable pub allocate : (range : List ℤ) → Used → Option ℤ
allocate [] used = none
allocate (low ∷ []) used = none
allocate (low ∷ high ∷ []) used = first_unused (span low high) low used
allocate (low ∷ high ∷ more ∷ rest) used = none

-- The Herd command line, as a sync meets it: its listings, what `ProxyTarget` says of a host, and
-- whether `herd proxy` and `herd unproxy` succeed for a site.
pub record Cli : Type 0 where
  pub paths : Listing
  pub links : Listing
  pub target : (host : Bytes) → Target
  pub proxy : (site : Bytes) → (port : ℤ) → Bool
  pub unproxy : (site : Bytes) → Bool

-- why a candidate is skipped
pub data Obstacle : Type 0 where
  defined_in : (source : Bytes) → Obstacle
  herd_unchecked file_unreadable not_a_proxy supervisor_exhausted application_exhausted : Obstacle
  shadows : Shadowed → Obstacle
  command_failed port_is_supervisor : Obstacle
  port_used_by : (port : ℤ) → (owner : Bytes) → Obstacle

-- a project, or the obstacle, with whether the previous registration is kept
pub data Built : Type 0 where
  generated : Project → Built
  skipped : Obstacle → Built
  kept : Project → Obstacle → Built

-- `Source`
abbrev pub managed_source : Discovery → Bytes
managed_source d = codes "projects.d/" ++ (d.name ++ codes ".yaml")

unfoldable pub find_project : (name : Bytes) → List Project → Option Project
find_project name [] = none
find_project name (p ∷ ps) = if equal p.name name then some p else find_project name ps

-- the source of another definition of the name
abbrev pub other_source : (source : Bytes) → Option Project → Option Bytes
other_source source none = none
other_source source (some p) = if equal p.source source then none else some p.source

abbrev pub of_target : Target → Option Obstacle
of_target no_site = none
of_target unknown_site = some file_unreadable
of_target (proxies_to port) = if equal_int port (pos 0) then some not_a_proxy else none

abbrev pub of_conflict : Conflict → (target : Target) → Option Obstacle
of_conflict check_failed target = some herd_unchecked
of_conflict (conflicts why) target = some (shadows why)
of_conflict no_conflict target = of_target target

-- `herdConflict`
unfoldable pub herd_conflict : Web → Cli → (url : Bytes) → Option Obstacle
herd_conflict w cli url = elim (site_from_url w url) [
  | none ↦ none
  | some (host, site) ↦
      of_conflict (site_conflict w.platform cli.paths cli.links site) (cli.target host)
]

-- The check of the site, of a candidate without a previous registration.
abbrev pub site_obstacle :
    Web → Option Cli → (url : Bytes) → (previous : Option Project) → Option Obstacle
site_obstacle w none url previous = none
site_obstacle w (some cli) url (some p) = none
site_obstacle w (some cli) url none = herd_conflict w cli url

-- `skipWith(true, …)` and `skipWith(false, …)`, the ports given back apart
abbrev pub keep : Option Project → Obstacle → Built
keep none why = skipped why
keep (some p) why = kept p why

unfoldable pub release_all : List ℤ → (name : Bytes) → Used → Used
release_all [] name used = used
release_all (port ∷ ports) name used = release_all ports name (release port name used)

module _ (d : Discovery) (c : Candidate) where
  -- the copy of the template, with its generated fields but the ports
  abbrev pub drafted : Project
  drafted =
      let template = d.template in
      record template {
        name = c.name;
        public_url = label_url d c.name;
        working_directory = c.dir;
        env = copy_env template.env;
      }

  -- with the port that the command printed
  unfoldable pub with_printed :
      Project
      → (previous : Option Project) → (allocated : List ℤ) → Used
      → (port : ℤ) → Built × Used
  with_printed p previous allocated used port =
      if not (is_empty (owner_of port used)) && not (equal (owner_of port used) c.name)
      then (
        keep previous (port_used_by port (owner_of port used)),
        release_all allocated c.name used,
      )
      else if equal_int port p.supervisor_port
      then (keep previous port_is_supervisor, release_all allocated c.name used)
      else (generated (record p { application_port = port }), (port, c.name) ∷ used)

  unfoldable pub by_command :
      Project
      → (previous : Option Project) → (allocated : List ℤ) → Used
      → (printed : Option ℤ) → Built × Used
  by_command p previous allocated used none =
      (keep previous command_failed, release_all allocated c.name used)
  by_command p previous allocated used (some port) = with_printed p previous allocated used port

  -- from a range
  unfoldable pub with_allocated : Project → (allocated : List ℤ) → Used → Option ℤ → Built × Used
  with_allocated p allocated used none =
      (skipped application_exhausted, release_all allocated c.name used)
  with_allocated p allocated used (some port) =
      (generated (record p { application_port = port }), (port, c.name) ∷ used)

  unfoldable pub by_range :
      Project → (previous : Option Project) → (allocated : List ℤ) → Used → Built × Used
  by_range p (some r) allocated used =
      (generated (record p { application_port = r.application_port }), used)
  by_range p none allocated used =
      with_allocated p allocated used (allocate d.application_port_range used)

  -- behind the supervisor port
  unfoldable pub with_supervisor :
      (previous : Option Project) (allocated : List ℤ)
      → Used
      → (printed : Option ℤ) → (port : ℤ) → Built × Used
  with_supervisor previous allocated used printed port =
      let draft = drafted in
      let p = record draft { supervisor_port = port } in
      if not (is_empty d.port_command)
      then by_command p previous allocated used printed
      else by_range p previous allocated used

  unfoldable pub supervised : (printed : Option ℤ) → Used → Option ℤ → Built × Used
  supervised printed used none = (skipped supervisor_exhausted, used)
  supervised printed used (some port) =
      with_supervisor none (port ∷ []) ((port, c.name) ∷ used) printed port

  unfoldable pub by_previous :
      (printed : Option ℤ) → (previous : Option Project) → Used → Built × Used
  by_previous printed (some r) used = with_supervisor (some r) [] used printed r.supervisor_port
  by_previous printed none used = supervised printed used (allocate d.supervisor_port_range used)

  -- behind the check of the site
  unfoldable pub unless_site :
      (printed : Option ℤ) → (previous : Option Project) → Used → Option Obstacle → Built × Used
  unless_site printed previous used (some why) = (skipped why, used)
  unless_site printed previous used none = by_previous printed previous used

  unfoldable pub unless_taken :
      Web
      → Option Cli
      → (printed : Option ℤ) → (previous : Option Project) → Used
      → Option Bytes
      → Built × Used
  unless_taken w cli printed previous used (some source) = (skipped (defined_in source), used)
  unless_taken w cli printed previous used none =
      unless_site printed previous used (site_obstacle w cli (label_url d c.name) previous)

  -- `build`; `printed` is what `port_command` prints in the candidate's directory
  unfoldable pub build :
      (projects : List Project)
      → Web
      → Option Cli
      → (printed : Option ℤ) → (previous : Option Project) → Used
      → Built × Used
  build projects w cli printed previous used =
      unless_taken w cli printed previous used
        (other_source (managed_source d) (find_project c.name projects))
