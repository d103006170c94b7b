-- ===== src/Daemon/Listeners.antt =====
-- internal/daemon: the table of projects, the listeners with their routers, and what puts a project on a
-- listener and takes it off (daemon.go, router.go, state.go, wildcard.go). Supervisors, trackers and
-- switches are known by numbers. An address is the pair that `net.JoinHostPort` joins, and a listener is
-- known by its address, since the system has one listener at an address. Whether the system gives an
-- address is an argument, `listens`, of the number of the attempt.
use herd_wake.Prelude.{
  ℕ, ◌+◌, ◌-◌, ◌==◌, Bool, true, false, ◌&&◌, List, [], ◌∷◌, Option, none, some, if◌then◌else◌,
  Bytes, equal, is_empty,
}
use herd_wake.Prelude.Int.{ℤ}
use herd_wake.Config.Project.{Project}
use herd_wake.Config.Hostname.{equal_int}
use herd_wake.Config.Discovery.{Discovery, entry_listen_host, supervisor_port}

pub record Addr : Type 0 where
  pub host : Bytes
  pub port : ℤ

abbrev pub same_addr : Addr → Addr → Bool
same_addr a b = equal a.host b.host && equal_int a.port b.port

-- `binding`, with the table of its router: the switches by host, and the one for all hosts. `members` counts
-- the projects that were attached and not detached since.
pub record Binding : Type 0 where
  pub addr : Addr
  pub members : ℕ
  pub owner : Option Bytes
  pub hosts : List (Bytes × ℕ)
  pub catch_all : Option ℕ

-- `projectState`; `entry` is the wildcard entry of a dynamic project
pub record ProjectState : Type 0 where
  pub project : Project
  pub proc : ℕ
  pub tracker : ℕ
  pub sw : ℕ
  pub bind : Option Addr
  pub entry : Option Bytes

-- `entryState`
pub record EntryRecord : Type 0 where
  pub definition : Discovery
  pub cap : ℤ

abbrev pub States : Type 0
States = List (Bytes × ProjectState)

abbrev pub Entries : Type 0
Entries = List (Bytes × EntryRecord)

-- The supervisors that were retired, and those with a monitor or a start of their own; a switch that is
-- suspended has no handler; `next` is a number that nothing has.
pub record DaemonState : Type 0 where
  pub states : States
  pub entries : Entries
  pub bindings : List Binding
  pub switches : List (ℕ × Option ℕ)
  pub max_running : ℤ
  pub retired : List ℕ
  pub active : List ℕ
  pub next : ℕ

-- maps
module _ {A : Type 0} where
  unfoldable pub lookup : (name : Bytes) → List (Bytes × A) → Option A
  lookup name [] = none
  lookup name ((m, a) ∷ rest) = if equal m name then some a else lookup name rest

  unfoldable pub delete : (name : Bytes) → List (Bytes × A) → List (Bytes × A)
  delete name [] = []
  delete name ((m, a) ∷ rest) =
      let others = delete name rest in if equal m name then others else (m, a) ∷ others

  abbrev pub put : (name : Bytes) → A → List (Bytes × A) → List (Bytes × A)
  put name a m = (name, a) ∷ delete name m

abbrev pub set_switch : (sw : ℕ) → Option ℕ → DaemonState → DaemonState
set_switch sw handler w = record w { switches = (sw, handler) ∷ w.switches }

-- `Suspend` and `Install`: the newest value of a switch is its slot
abbrev pub suspend : (sw : ℕ) → DaemonState → DaemonState
suspend sw w = set_switch sw none w

abbrev pub install : (sw proc : ℕ) → DaemonState → DaemonState
install sw proc w = set_switch sw (some proc) w

-- `listenAddr` and `entryAddr`
abbrev pub listen_addr : Project → Addr
listen_addr p = record { host = p.listen_host; port = p.supervisor_port }

abbrev pub entry_addr : Discovery → Addr
entry_addr d = record { host = entry_listen_host d; port = supervisor_port d }

unfoldable pub has_binding : Addr → List Binding → Bool
has_binding a [] = false
has_binding a (b ∷ bs) = if same_addr b.addr a then true else has_binding a bs

unfoldable pub on_binding : Addr → (Binding → Binding) → List Binding → List Binding
on_binding a change [] = []
on_binding a change (b ∷ bs) =
    let rest = on_binding a change bs in if same_addr b.addr a then change b ∷ bs else b ∷ rest

-- a listener whose last member is gone, unless an entry owns it
abbrev pub is_closing : Binding → Bool
is_closing b = (b.members == 0) && elim b.owner [ none ↦ true | some entry ↦ false ]

unfoldable pub close_empty : Addr → List Binding → List Binding
close_empty a [] = []
close_empty a (b ∷ bs) =
    let rest = close_empty a bs in
    if same_addr b.addr a then (if is_closing b then bs else b ∷ bs) else b ∷ rest

-- `setHost` and `setCatchAll`
abbrev pub with_route : (host : Bytes) → (sw : ℕ) → Binding → Binding
with_route host sw b =
    if is_empty host
    then record b { members = b.members + 1; catch_all = some sw }
    else record b { members = b.members + 1; hosts = put host sw b.hosts }

-- `removeHost` and `setCatchAll(nil)`
abbrev pub without_route : (host : Bytes) → Binding → Binding
without_route host b =
    if is_empty host
    then record b { members = b.members - 1; catch_all = none }
    else record b { members = b.members - 1; hosts = delete host b.hosts }

-- a listener without projects
abbrev pub new_binding : Addr → (owner : Option Bytes) → Binding
new_binding a owner = record { addr = a; members = 0; owner = owner; hosts = []; catch_all = none }

-- the routing of a request whose host was read: a switch, or none where the resolver or a 404 answers
unfoldable pub route : Binding → (host : Bytes) → Option ℕ
route b host = elim b.catch_all [ some sw ↦ some sw | none ↦ lookup host b.hosts ]

-- behind the listener
abbrev pub join : ProjectState → DaemonState → DaemonState
join st w =
    let a = listen_addr st.project in
    record w {
      bindings = on_binding a (with_route st.project.host st.sw) w.bindings;
      states = put st.project.name (record st { bind = some a }) w.states;
    }

module _ (listens : (attempt : ℕ) → Addr → Bool) where
  -- `attach`, none where the address is not given
  unfoldable pub attach : ProjectState → DaemonState → Option DaemonState
  attach st w =
      let a = listen_addr st.project in
      if has_binding a w.bindings
      then some (join st w)
      else if listens w.next a
      then some (join st (record w { bindings = new_binding a none ∷ w.bindings }))
      else none

  -- `bindEntry`
  unfoldable pub bind_entry : EntryRecord → DaemonState → Option DaemonState
  bind_entry e w =
      let a = entry_addr e.definition in
      if listens w.next a
      then some record w {
        bindings = new_binding a (some e.definition.name) ∷ w.bindings;
        entries = put e.definition.name e w.entries;
        next = w.next + 1;
      }
      else none

-- `detach`
unfoldable pub leave : Project → Option Addr → DaemonState → DaemonState
leave p none w = w
leave p (some a) w = record w {
  bindings = close_empty a (on_binding a (without_route p.host) w.bindings);
}

unfoldable pub detach : ProjectState → (keep : Bool) → DaemonState → DaemonState
detach st true w = suspend st.sw w
detach st false w = leave st.project st.bind w

unfoldable pub without_number : ℕ → List ℕ → List ℕ
without_number n [] = []
without_number n (m ∷ ms) = let rest = without_number n ms in if m == n then rest else m ∷ rest

-- `retire`
unfoldable pub retire : ProjectState → (keep : Bool) → DaemonState → DaemonState
retire st keep w =
    let d = detach st keep w in
    record d { active = without_number st.proc d.active; retired = st.proc ∷ d.retired }

-- `unbindEntry`
unfoldable pub drop_binding : Addr → List Binding → List Binding
drop_binding a [] = []
drop_binding a (b ∷ bs) =
    let rest = drop_binding a bs in if same_addr b.addr a then bs else b ∷ rest

unfoldable pub unbind_entry : EntryRecord → DaemonState → DaemonState
unbind_entry e w = record w {
  bindings = drop_binding (entry_addr e.definition) w.bindings;
  entries = delete e.definition.name w.entries;
}
