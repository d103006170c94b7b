-- ===== src/Discovery/Sync.antt =====
-- internal/discovery/discovery.go: `Sync`, over the entries of a configuration. What the file system
-- and `port_command` answer is a function of the entry, and what Herd answers of the commands that were
-- run before.
use herd_wake.Prelude.{Bool, List, [], ◌∷◌, ◌++◌, Option, if◌then◌else◌, Bytes}
use herd_wake.Prelude.Int.{ℤ}
use herd_wake.Config.Project.{Project}
use herd_wake.Config.Discovery.{Discovery, is_wildcard, supervisor_port, dynamic_source}
use herd_wake.Herd.{Web}
use herd_wake.Discovery.Scan.{Candidate, Skip}
use herd_wake.Discovery.Build.{Used}
use herd_wake.Discovery.HerdActions.{SyncOptions, HerdCommand}
use herd_wake.Discovery.Entry.{FileRead, EntryResult, sync_entry}
use herd_wake.Discovery.WildcardSync.{SyncState, WildcardResult, sync_wildcard, retire_wildcards}

-- the ports of the configuration's projects, and of its wildcard entries
unfoldable pub used_by_projects : List Project → Used → Used
used_by_projects [] used = used
used_by_projects (p ∷ ps) used =
    used_by_projects ps ((p.application_port, p.name) ∷ (p.supervisor_port, p.name) ∷ used)

unfoldable pub used_by_entries : List Discovery → Used → Used
used_by_entries [] used = used
used_by_entries (d ∷ ds) used =
    if is_wildcard d
    then used_by_entries ds ((supervisor_port d, dynamic_source d) ∷ used)
    else used_by_entries ds used

-- what a sync meets at an entry
pub record Site : Type 0 where
  pub printed : (dir : Bytes) → Option ℤ
  pub render : List Project → Option Bytes
  pub writes : Bool
  pub file : FileRead
  pub current : FileRead
  pub decoded : Option (List Project)
  pub scanned : Option (List Candidate × List Skip)
  pub stale : Bool

pub data SyncResult : Type 0 where
  proxy_entry : EntryResult → SyncResult
  wildcard_entry : WildcardResult → SyncResult

abbrev pub ran_in : SyncResult → List HerdCommand
ran_in (proxy_entry r) = r.ran
ran_in (wildcard_entry r) = r.ran

abbrev pub wildcard_results : List WildcardResult → List SyncResult
wildcard_results [] = []
wildcard_results (r ∷ rs) = wildcard_entry r ∷ wildcard_results rs

-- what goes from one entry to the next
pub record SyncRun : Type 0 where
  pub used : Used
  pub state : SyncState
  pub ran : List HerdCommand

module _ (after : (ran : List HerdCommand) → SyncOptions) (w : Web) (projects : List Project)
    (site : Discovery → Site) where
  unfoldable pub sync_one : Discovery → SyncRun → SyncResult × SyncRun
  sync_one d s =
      let here = site d in
      let a = sync_wildcard (after s.ran) w.platform here.stale d s.state in
      let b =
        sync_entry after s.ran w d here.writes projects here.printed here.render here.file
          here.current here.decoded here.scanned s.used in
      if is_wildcard d
      then (wildcard_entry a.0, record s { state = a.1; ran = s.ran ++ a.0.ran })
      else (proxy_entry b.0, record s { used = b.1; ran = s.ran ++ b.0.ran })

  unfoldable pub sync_each : List Discovery → SyncRun → List SyncResult × SyncRun
  sync_each [] s = ([], s)
  sync_each (d ∷ ds) s =
      let r = sync_one d s in let rest = sync_each ds r.1 in (r.0 ∷ rest.0, rest.1)

  abbrev pub start_run : List Discovery → SyncState → SyncRun
  start_run ds st = record {
    used = used_by_entries ds (used_by_projects projects []);
    state = st;
    ran = [];
  }

  -- `Sync`, with the state that it saves where it is no dry run
  unfoldable pub sync : List Discovery → SyncState → List SyncResult × SyncState
  sync ds st =
      let r = sync_each ds (start_run ds st) in
      let gone = retire_wildcards after w ds st.wildcards r.1.ran r.1.state in
      (r.0 ++ wildcard_results gone.0, gone.1)
