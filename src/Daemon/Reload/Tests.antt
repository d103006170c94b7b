-- ===== src/Daemon/Reload/Tests.antt =====
-- Tests of the model of internal/daemon/reload.go: a reload that moves one project's definition and adds
-- another project.
use herd_wake.Prelude.{ℕ, Bool, true, [], ◌∷◌, none, some, codes, equal, ◌≡◌, refl}
use herd_wake.Prelude.Int.{pos}
use herd_wake.Config.Project.{Project}
use herd_wake.Config.Sample.{dashboard}
use herd_wake.Config.Equivalent.{equivalent}
use herd_wake.Discovery.Build.{find_project}
use herd_wake.Daemon.Listeners.{
  Addr, ProjectState, DaemonState, lookup, delete, listen_addr, attach, has_binding,
}
use herd_wake.Daemon.Reload.{
  reload, tear_down, add_all, add_project, change_all, bind_all, delete_all, retire_all,
  retire_changed, unbind_all, commission, apply_caps,
}
use herd_wake.Daemon.Reload.Diff.{
  Loaded, new_entries, in_standing, removed_from, gone_entries, dynamic_of_all,
}
use herd_wake.Daemon.Reload.Unchanged.{IsUnchanged, reload-unchanged}
use herd_wake.Daemon.Reload.Table.{IsJustified, reload-Justified}

abbrev running : ProjectState
running = record {
  project = dashboard;
  proc = 0;
  tracker = 1;
  sw = 2;
  bind = some (listen_addr dashboard);
  entry = none;
}

abbrev before : DaemonState
before = record {
  states = (codes "dashboard", running) ∷ [];
  entries = [];
  bindings =
      record {
        addr = listen_addr dashboard;
        members = 1;
        owner = none;
        hosts = [];
        catch_all = some 2;
      }
      ∷ [];
  switches = (2, some 0) ∷ [];
  max_running = pos 0;
  retired = [];
  active = 0 ∷ [];
  next = 3;
}

abbrev moved : Project
moved = record dashboard { source = codes "projects.d/dashboard.yaml" }

abbrev docs : Project
docs = record dashboard {
  name = codes "docs";
  supervisor_port = pos 7102;
  application_port = pos 17102;
}

abbrev two_projects : Loaded
two_projects = record { projects = moved ∷ docs ∷ []; discovery = []; max_running = pos 3 }

abbrev always : (attempt : ℕ) → Addr → Bool
always attempt a = true

dashboard-IsUnchanged : IsUnchanged two_projects before.states (codes "dashboard") running
unfolding lookup find_project equal equivalent herd_wake.Config.Hostname.equal_int
dashboard-IsUnchanged = record {
  listed = refl;
  only = ((λ e. refl), tt);
  static = refl;
  wanted = refl;
  same = ((λ e. refl), ((λ e. cc e), tt));
}

reload-unchanged_example :
    lookup (codes "dashboard") (reload always two_projects before).0.states ≡ some running
reload-unchanged_example =
    reload-unchanged two_projects (codes "dashboard") running always before (refl, tt)
      dashboard-IsUnchanged

-- the record of the project that is added
abbrev added : ProjectState
added = record {
  project = docs;
  proc = 3;
  tracker = 5;
  sw = 4;
  bind = some (listen_addr docs);
  entry = none;
}

docs_added : lookup (codes "docs") (reload always two_projects before).0.states ≡ some added
unfolding lookup reload tear_down add_all add_project change_all bind_all new_entries in_standing
    removed_from gone_entries dynamic_of_all delete_all retire_all retire_changed unbind_all
    commission attach has_binding equal find_project equivalent apply_caps delete
    herd_wake.Config.Hostname.equal_int
docs_added = refl

reload-Justified_example : IsJustified always two_projects before (codes "docs") added
reload-Justified_example =
    reload-Justified always two_projects before (refl, tt) (codes "docs") added docs_added
