-- ===== src/Discovery/SyncAgain.antt =====
-- internal/discovery/discovery.go: a sync of an entry behind one that changes nothing outside.
use mathlib.Core.List.{Memᴰ}
use herd_wake.Prelude.{false, List, [], none, some, ◌≡◌}
use herd_wake.Config.Project.{Project}
use herd_wake.Config.Discovery.{Discovery}
use herd_wake.Discovery.Build.{find_project}
use herd_wake.Discovery.Entry.{EntryResult, sort_projects}

-- The configuration has the project under its name, with its two ports.
pub record IsLoaded (after : List Project) (p : Project) : Type 0 where
  pub loaded : Project
  pub there : Memᴰ loaded after
  pub called : loaded.name ≡ p.name
  pub supervisor : loaded.supervisor_port ≡ p.supervisor_port
  pub application : loaded.application_port ≡ p.application_port

-- What a result says that has no change.
pub record HasNoChange (file : List Project) (r : EntryResult) : Type 0 where
  pub none_added : r.added ≡ []
  pub none_updated : r.updated ≡ []
  pub all_unchanged : r.unchanged ≡ sort_projects file
  pub none_removed : r.removed ≡ []
  pub same_file : r.changed ≡ false
  pub no_content : r.content ≡ none
  pub no_fault : r.fault ≡ none

abbrev IsListed : List Project → Project → Type 0
IsListed file p = (q : Project) × (find_project p.name file ≡ some q)
