-- ===== src/Daemon/Wildcard.antt =====
-- internal/daemon/wildcard.go: `materialise`, which makes a project for a label that is seen first, and
-- `dropDynamic`. The maps `states`, `entries` and the routes of an entry's listener are association
-- lists. What the rules for candidates say of the label, and the port that `port_command` prints, are
-- arguments. `materialise` reads the table in `prepare` and writes it in `register`; other goroutines
-- may come between.
use herd_wake.Prelude.{
  ℕ, zero, suc, ◌+◌, ◌-◌, Bool, true, false, ◌||◌, not, List, [], ◌∷◌, Option, none, some,
  if◌then◌else◌, Bytes, codes, equal, is_empty,
}
use herd_wake.Prelude.Int.{ℤ, pos, negsuc}
use herd_wake.Config.Project.{Project}
use herd_wake.Config.Hostname.{Platform, equal_int}
use herd_wake.Config.Defaults.{add_ℕ}
use herd_wake.Config.Discovery.{Discovery, supervisor_port, dynamic_project}
pub mod Ports
pub mod Ranges
pub mod Discover
pub mod Prepared
pub mod Apart
pub mod Rivals
pub mod Backoff
pub mod Resolve
pub mod Single
mod Tests

-- `projectState`; the entry of a dynamic project, by its name
pub record Live : Type 0 where
  pub project : Project
  pub entry : Option Bytes

-- `entryState`, with the members and the routes of its listener, from hosts to names of projects
pub record EntryState : Type 0 where
  pub entry : Discovery
  pub members : ℕ
  pub routes : List (Bytes × Bytes)

pub record Table : Type 0 where
  pub states : List Live
  pub entries : List EntryState

-- who holds a port
pub data PortOwner : Type 0 where
  supervisor_of application_of entry_of : Bytes → PortOwner

unfoldable pub state_owner : (port : ℤ) → (except : Bytes) → List Live → Option PortOwner
state_owner port except [] = none
state_owner port except (s ∷ ss) =
    let rest = state_owner port except ss in
    let p = s.project in
    if equal p.name except
    then rest
    else if equal_int port p.supervisor_port
    then some (supervisor_of p.name)
    else if equal_int port p.application_port
    then some (application_of p.name)
    else rest

unfoldable pub entry_owner : (port : ℤ) → List EntryState → Option PortOwner
entry_owner port [] = none
entry_owner port (e ∷ es) =
    let rest = entry_owner port es in
    if equal_int (supervisor_port e.entry) port then some (entry_of e.entry.name) else rest

abbrev pub first_owner : Option PortOwner → Option PortOwner → Option PortOwner
first_owner (some owner) later = some owner
first_owner none later = later

-- `portOwner`
unfoldable pub port_owner : (port : ℤ) → (except : Bytes) → Table → Option PortOwner
port_owner port except t =
    first_owner (state_owner port except t.states) (entry_owner port t.entries)

-- how many ports a range has
unfoldable pub span : (low high : ℤ) → ℕ
span (pos a) (pos b) = suc b - a
span (pos a) (negsuc b) = 0
span (negsuc a) (pos b) = suc (suc (a + b))
span (negsuc a) (negsuc b) = suc a - b

-- a port that nobody has, or what the loop finds further up
abbrev pub free_or : ℤ → Option PortOwner → Option ℤ → Option ℤ
free_or port none higher = some port
free_or port (some owner) higher = higher

-- the loop of `discoverPort`, over the ports of a range that are left
unfoldable pub lowest_free : (left : ℕ) → (port : ℤ) → (label : Bytes) → Table → Option ℤ
lowest_free zero port label t = none
lowest_free (suc left) port label t =
    free_or port (port_owner port label t) (lowest_free left (add_ℕ port 1) label t)

-- Why a label is not served. A range without two ports is the panic of an index.
pub data Refusal : Type 0 where
  no_worktree : (reason : Bytes) → Refusal
  name_taken command_failed exhausted panic : Refusal
  port_taken : (port : ℤ) → PortOwner → Refusal

pub data Settled (A : Type 0) : Type 0 where
  refused : Refusal → Settled A
  settled : A → Settled A

abbrev pub or_exhausted : Option ℤ → Settled ℤ
or_exhausted none = refused exhausted
or_exhausted (some port) = settled port

-- `discoverPort` without a `port_command`
unfoldable pub range_port : (range : List ℤ) → (label : Bytes) → Table → Settled ℤ
range_port [] label t = refused panic
range_port (low ∷ []) label t = refused panic
range_port (low ∷ high ∷ more) label t = or_exhausted (lowest_free (span low high) low label t)

-- `discoverPort`; `printed` is what `port_command` prints
unfoldable pub discover_port :
    Discovery → (printed : Option ℤ) → (label : Bytes) → Table → Settled ℤ
discover_port d printed label t =
    if not (is_empty d.port_command)
    then elim printed [ none ↦ refused command_failed | some port ↦ settled port ]
    else range_port d.application_port_range label t

unfoldable pub find_state : (name : Bytes) → List Live → Option Live
find_state name [] = none
find_state name (s ∷ ss) = if equal s.project.name name then some s else find_state name ss

unfoldable pub find_entry : (name : Bytes) → List EntryState → Option EntryState
find_entry name [] = none
find_entry name (e ∷ es) = if equal name e.entry.name then some e else find_entry name es

-- a change of the entry of a name
unfoldable pub on_entry :
    (name : Bytes) → (EntryState → EntryState) → List EntryState → List EntryState
on_entry name change [] = []
on_entry name change (e ∷ es) =
    let rest = on_entry name change es in
    if equal name e.entry.name then change e ∷ es else e ∷ rest

unfoldable pub drop_route : (host : Bytes) → List (Bytes × Bytes) → List (Bytes × Bytes)
drop_route host [] = []
drop_route host ((h, n) ∷ routes) =
    let rest = drop_route host routes in if equal host h then rest else (h, n) ∷ rest

-- `members++` and `setHost`
unfoldable pub join_entry : (host name : Bytes) → EntryState → EntryState
join_entry host name e = record e {
  members = suc e.members;
  routes = (host, name) ∷ drop_route host e.routes;
}

-- `detach` without `keep`: `removeHost` and `members--`
unfoldable pub leave_entry : (host : Bytes) → EntryState → EntryState
leave_entry host e = record e { members = e.members - 1; routes = drop_route host e.routes }

-- behind the second look-up of the name
unfoldable pub place : (d : Discovery) → Project → Table → Option Live → Settled Table
place d p t (some other) = refused name_taken
place d p t none = settled record {
  states = record { project = p; entry = some d.name } ∷ t.states;
  entries = on_entry d.name (join_entry p.host p.name) t.entries;
}

-- the end of `materialise`, under the lock
unfoldable pub register : (d : Discovery) → Project → Table → Settled Table
register d p t = place d p t (find_state p.name t.states)

unfoldable pub drop_state : (name : Bytes) → List Live → List Live
drop_state name [] = []
drop_state name (s ∷ ss) =
    let rest = drop_state name ss in if equal s.project.name name then rest else s ∷ rest

-- `dropDynamic`, once the process is gone
unfoldable pub drop_dynamic : (name host entry : Bytes) → Table → Table
drop_dynamic name host entry t = record {
  states = drop_state name t.states;
  entries = on_entry entry (leave_entry host) t.entries;
}

module _ (o : Platform) where
  module _ (d : Discovery) (label dir : Bytes) where
    unfoldable pub with_unowned : (port : ℤ) → Option PortOwner → Settled Project
    with_unowned port (some owner) = refused (port_taken port owner)
    with_unowned port none = settled (dynamic_project o d label dir port)

    unfoldable pub with_port : Settled ℤ → Table → Settled Project
    with_port (refused why) t = refused why
    with_port (settled port) t = with_unowned port (port_owner port label t)

    -- behind the look-up of the name
    unfoldable pub with_name : (printed : Option ℤ) → Option Live → Table → Settled Project
    with_name printed (some other) t = refused name_taken
    with_name printed none t = with_port (discover_port d printed label t) t

    -- `materialise` up to the project that it registers; `rules` is what `discovery.Check` says
    unfoldable pub prepare : (rules : Option Bytes) → (printed : Option ℤ) → Table → Settled Project
    prepare (some reason) printed t = refused (no_worktree reason)
    prepare none printed t = with_name printed (find_state label t.states) t

  unfoldable pub then_register : (d : Discovery) → Settled Project → Table → Settled Table
  then_register d (refused why) t = refused why
  then_register d (settled p) t = register d p t

  -- `materialise` with nothing between its reading and its writing
  unfoldable pub materialise :
      (d : Discovery) (label dir : Bytes) (rules : Option Bytes) (printed : Option ℤ)
      → Table
      → Settled Table
  materialise d label dir rules printed t = then_register d (prepare d label dir rules printed t) t

-- What happens to the table: a label of an entry is resolved, or a dynamic project dropped.
pub data Event : Type 0 where
  resolves : (entry label dir : Bytes) (rules : Option Bytes) (printed : Option ℤ) → Event
  drops : (name host entry : Bytes) → Event

-- a refusal leaves the table as it is
abbrev pub table_behind : Table → Settled Table → Table
table_behind t (refused why) = t
table_behind t (settled t') = t'

unfoldable pub perform : Platform → Event → Table → Table
perform o (resolves entry label dir rules printed) t = elim (find_entry entry t.entries) [
  | none ↦ t
  | some e ↦ table_behind t (materialise o e.entry label dir rules printed t)
]
perform o (drops name host entry) t = drop_dynamic name host entry t

unfoldable pub perform_all : Platform → List Event → Table → Table
perform_all o [] t = t
perform_all o (e ∷ es) t = perform_all o es (perform o e t)
