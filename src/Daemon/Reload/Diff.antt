-- ===== src/Daemon/Reload/Diff.antt =====
-- internal/daemon/reload.go: how `Reload` compares a configuration with the table, and the errors that it
-- reports.
use herd_wake.Prelude.{
  Bool, true, false, ◌&&◌, not, List, [], ◌∷◌, ◌++◌, Option, none, some, if◌then◌else◌, Bytes,
  equal,
}
use herd_wake.Prelude.Int.{ℤ}
use herd_wake.Config.Project.{Project}
use herd_wake.Config.Discovery.{Discovery, is_wildcard}
use herd_wake.Config.Equivalent.{equivalent, equivalent_entry}
use herd_wake.Discovery.Build.{find_project}
use herd_wake.Daemon.Listeners.{
  same_addr, ProjectState, EntryRecord, States, Entries, lookup, listen_addr,
}

-- What `config.Load` returns; the projects in the order of their names.
pub record Loaded : Type 0 where
  pub projects : List Project
  pub discovery : List Discovery
  pub max_running : ℤ

-- what a reload reports under errors
pub data ReloadError : Type 0 where
  not_added not_changed not_restored entry_not_bound : (name : Bytes) → ReloadError

-- where a project of the configuration stands to the table
pub data Standing : Type 0 where
  is_new is_same is_other : Standing

abbrev pub is_dynamic : ProjectState → Bool
is_dynamic st = elim st.entry [ none ↦ false | some entry ↦ true ]

abbrev pub standing : Option ProjectState → Project → Standing
standing none p = is_new
standing (some st) p = if not (is_dynamic st) && equivalent st.project p then is_same else is_other

abbrev pub same_standing : Standing → Standing → Bool
same_standing is_new is_new = true
same_standing is_same is_same = true
same_standing is_other is_other = true
same_standing _ _ = false

-- the projects that are added, changed or unchanged
unfoldable pub in_standing : Standing → (current : States) → List Project → List Project
in_standing k current [] = []
in_standing k current (p ∷ ps) =
    let rest = in_standing k current ps in
    if same_standing k (standing (lookup p.name current) p) then p ∷ rest else rest

abbrev pub is_absent : Option Project → Bool
is_absent none = true
is_absent (some p) = false

-- the static projects that the configuration has no more
unfoldable pub removed_from : Loaded → States → List ProjectState
removed_from c [] = []
removed_from c ((name, st) ∷ sts) =
    let rest = removed_from c sts in
    if is_absent (find_project name c.projects) && not (is_dynamic st) then st ∷ rest else rest

-- `wanted`
unfoldable pub wanted : (name : Bytes) → List Discovery → Option Discovery
wanted name [] = none
wanted name (e ∷ es) = if is_wildcard e && equal e.name name then some e else wanted name es

abbrev pub is_kept_entry : EntryRecord → Option Discovery → Bool
is_kept_entry r none = false
is_kept_entry r (some e) = equivalent_entry r.definition e

-- the entries that are removed or changed, and those that are not
unfoldable pub gone_entries : Loaded → Entries → List EntryRecord
gone_entries c [] = []
gone_entries c ((name, r) ∷ rs) =
    let rest = gone_entries c rs in
    if is_kept_entry r (wanted name c.discovery) then rest else r ∷ rest

-- the wildcard entries that are added or changed
abbrev pub needs_binding : Option EntryRecord → Discovery → Bool
needs_binding none e = true
needs_binding (some r) e = not (equivalent_entry r.definition e)

unfoldable pub new_entries : (current : Entries) → List Discovery → List Discovery
new_entries current [] = []
new_entries current (e ∷ es) =
    let rest = new_entries current es in
    if is_wildcard e && needs_binding (lookup e.name current) e then e ∷ rest else rest

abbrev pub is_entry : (name : Bytes) → Option Bytes → Bool
is_entry name none = false
is_entry name (some entry) = equal entry name

-- the dynamic projects of an entry that no project of the configuration takes over
unfoldable pub dynamic_of : (entry : Bytes) → (changed : List Project) → States → List ProjectState
dynamic_of entry changed [] = []
dynamic_of entry changed ((name, st) ∷ sts) =
    let rest = dynamic_of entry changed sts in
    if is_entry entry st.entry && is_absent (find_project name changed) then st ∷ rest else rest

unfoldable pub dynamic_of_all :
    List EntryRecord → (changed : List Project) → States → List ProjectState
dynamic_of_all [] changed sts = []
dynamic_of_all (r ∷ rs) changed sts =
    dynamic_of r.definition.name changed sts ++ dynamic_of_all rs changed sts

-- `sameRoute`
abbrev pub same_route : Project → Project → Bool
same_route a b = same_addr (listen_addr a) (listen_addr b) && equal a.host b.host

-- whether a changed project keeps its route
abbrev pub keeps_route : ProjectState → Project → Bool
keeps_route st p = not (is_dynamic st) && same_route st.project p
