-- ===== src/Daemon/Reload.antt =====
-- internal/daemon/reload.go: `Reload` behind a configuration that loads. The projects that are retired
-- at the same time are retired one after the other here, and entries are bound in the order of the
-- configuration.
pub mod Diff
pub mod Others
pub mod Unchanged
pub mod Justified
pub mod Left
pub mod Table
mod Tests
use herd_wake.Prelude.{
  ℕ, ◌+◌, Bool, true, false, ◌&&◌, not, List, [], ◌∷◌, ◌++◌, Option, none, some, if◌then◌else◌,
  Bytes, equal,
}
use herd_wake.Prelude.Int.{ℤ}
use herd_wake.Config.Project.{Project}
use herd_wake.Config.Discovery.{Discovery, is_wildcard}
use herd_wake.Config.Equivalent.{equivalent, equivalent_entry}
use herd_wake.Discovery.Build.{find_project}
use herd_wake.Daemon.Listeners.{
  Addr, same_addr, ProjectState, EntryRecord, States, Entries, DaemonState, lookup, delete, put,
  suspend, install, listen_addr, attach, bind_entry, retire, unbind_entry,
}
use herd_wake.Daemon.Reload.Diff.{
  Loaded, ReloadError, Standing, is_dynamic, standing, same_standing, in_standing, is_absent,
  removed_from, wanted, is_kept_entry, gone_entries, needs_binding, new_entries, is_entry,
  dynamic_of, dynamic_of_all, same_route, keeps_route, not_added, not_changed, not_restored,
  entry_not_bound, is_new, is_same, is_other,
}

-- the projects leave the table
unfoldable pub delete_all : List ProjectState → States → States
delete_all [] sts = sts
delete_all (st ∷ rest) sts = delete_all rest (delete st.project.name sts)

unfoldable pub retire_all : List ProjectState → DaemonState → DaemonState
retire_all [] w = w
retire_all (st ∷ rest) w = retire_all rest (retire st false w)

-- `retire` of the changed projects
abbrev pub retire_old : Option ProjectState → Project → DaemonState → DaemonState
retire_old none p w = w
retire_old (some st) p w = retire st (keeps_route st p) w

unfoldable pub retire_changed : (current : States) → List Project → DaemonState → DaemonState
retire_changed current [] w = w
retire_changed current (p ∷ ps) w =
    retire_changed current ps (retire_old (lookup p.name current) p w)

unfoldable pub unbind_all : List EntryRecord → DaemonState → DaemonState
unbind_all [] w = w
unbind_all (r ∷ rs) w = unbind_all rs (unbind_entry r w)

-- `applyBudget`, on the entries that are left
abbrev pub capped : EntryRecord → Option Discovery → EntryRecord
capped r none = r
capped r (some e) = if equivalent_entry r.definition e then record r { cap = e.max_running } else r

unfoldable pub apply_caps : Loaded → Entries → Entries
apply_caps c [] = []
apply_caps c ((name, r) ∷ rs) = (name, capped r (wanted name c.discovery)) ∷ apply_caps c rs

abbrev pub apply_budget : Loaded → DaemonState → DaemonState
apply_budget c w = record w { max_running = c.max_running; entries = apply_caps c w.entries }

-- `newProjectState`, with the number of a supervisor and of a switch
abbrev pub new_state : Project → (tracker next : ℕ) → ProjectState
new_state p tracker next = record {
  project = p;
  proc = next;
  tracker = tracker;
  sw = next + 1;
  bind = none;
  entry = none;
}

abbrev pub numbered : DaemonState → DaemonState
numbered w = record w { next = w.next + 3 }

-- `activate`
abbrev pub activated : (proc : ℕ) → Option DaemonState → Option DaemonState
activated proc none = none
activated proc (some w) = some record w { active = proc ∷ w.active }

abbrev pub or_failed :
    DaemonState → ReloadError → Option DaemonState → DaemonState × List ReloadError
or_failed w e none = (w, e ∷ [])
or_failed w e (some d) = (d, [])

-- the previous registration, where the new address is not given
unfoldable pub restored :
    (name : Bytes) → DaemonState → Option DaemonState → DaemonState × List ReloadError
restored name w (some d) = (d, not_changed name ∷ [])
restored name w none =
    (record w { states = delete name w.states }, not_changed name ∷ not_restored name ∷ [])

-- up to the end of the teardown
unfoldable pub tear_down : Loaded → DaemonState → DaemonState
tear_down c w =
    let changed = in_standing is_other w.states c.projects in
    let removed = removed_from c w.states in
    let gone = gone_entries c w.entries in
    let dropped = dynamic_of_all gone changed w.states in
    let detached = record w { states = delete_all dropped (delete_all removed w.states) } in
    unbind_all gone (
      retire_all dropped
        (retire_changed w.states changed (retire_all removed (apply_budget c detached))))

module _ (listens : (attempt : ℕ) → Addr → Bool) where
  -- `commission` without and with a route that is taken over
  unfoldable pub commission : ProjectState → DaemonState → Option DaemonState
  commission st w = activated st.proc (attach listens st (install st.sw st.proc w))

  unfoldable pub take_over : ProjectState → (old : ProjectState) → DaemonState → DaemonState
  take_over st old w =
      let d = install old.sw st.proc w in
      record d {
        states = put st.project.name (record st { sw = old.sw; bind = old.bind }) w.states;
        active = st.proc ∷ w.active;
      }

  -- one project that is added
  unfoldable pub add_project : Project → DaemonState → DaemonState × List ReloadError
  add_project p w =
      or_failed (numbered w) (not_added p.name)
        (commission (new_state p (w.next + 2) w.next) (numbered w))

  unfoldable pub add_all : List Project → DaemonState → DaemonState × List ReloadError
  add_all [] w = (w, [])
  add_all (p ∷ ps) w =
      let r = add_project p w in let rest = add_all ps r.0 in (rest.0, r.1 ++ rest.1)

  abbrev pub restore : ProjectState → Project → DaemonState → DaemonState × List ReloadError
  restore old p w =
      restored p.name (numbered w)
        (commission (new_state old.project old.tracker w.next) (numbered w))

  abbrev pub or_restored :
      ProjectState → Project → DaemonState → Option DaemonState → DaemonState × List ReloadError
  or_restored old p w (some d) = (d, [])
  or_restored old p w none = restore old p w

  -- one project that is changed
  unfoldable pub change_project :
      Option ProjectState → Project → DaemonState → DaemonState × List ReloadError
  change_project none p w = (w, [])
  change_project (some old) p w =
      let st = new_state p old.tracker w.next in
      if keeps_route old p
      then (take_over st old (numbered w), [])
      else or_restored old p (numbered w) (commission st (numbered w))

  unfoldable pub change_all :
      (current : States) → List Project → DaemonState → DaemonState × List ReloadError
  change_all current [] w = (w, [])
  change_all current (p ∷ ps) w =
      let r = change_project (lookup p.name current) p w in
      let rest = change_all current ps r.0 in (rest.0, r.1 ++ rest.1)

  unfoldable pub bind_all : List Discovery → DaemonState → DaemonState × List ReloadError
  bind_all [] w = (w, [])
  bind_all (e ∷ es) w =
      let r =
        or_failed w (entry_not_bound e.name)
          (bind_entry listens (record { definition = e; cap = e.max_running }) w) in
      let rest = bind_all es r.0 in (rest.0, r.1 ++ rest.1)

  -- `Reload`
  unfoldable pub reload : Loaded → DaemonState → DaemonState × List ReloadError
  reload c w =
      let a = add_all (in_standing is_new w.states c.projects) (tear_down c w) in
      let b = change_all w.states (in_standing is_other w.states c.projects) a.0 in
      let e = bind_all (new_entries w.entries c.discovery) b.0 in (e.0, a.1 ++ (b.1 ++ e.1))
