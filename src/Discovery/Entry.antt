-- ===== src/Discovery/Entry.antt =====
-- internal/discovery/discovery.go: `syncEntry`, which brings the managed file of a proxy-mode entry up
-- to date. What the file system, the YAML encoder and the commands answer are arguments. The maps of
-- projects are lists by name.
use herd_wake.Prelude.{
  Bool, true, false, ◌||◌, List, [], ◌∷◌, Option, none, some, if◌then◌else◌, Bytes, codes, equal,
  is_empty, at_most,
}
use herd_wake.Prelude.Int.{ℤ}
use herd_wake.Prelude.Space.{trim_space}
use herd_wake.Config.Project.{Project}
use herd_wake.Config.Discovery.{Discovery, after_prefix}
use herd_wake.Config.Equivalent.{equivalent}
use herd_wake.Herd.{Web}
use herd_wake.Discovery.Scan.{Candidate, Skip}
use herd_wake.Discovery.Build.{
  Used, Obstacle, Built, generated, skipped, kept, Cli, find_project, build,
}
use herd_wake.Discovery.HerdActions.{SyncOptions, HerdAction, HerdCommand, herd_actions}

-- `managedMarker`
abbrev pub managed_marker : Bytes
managed_marker = codes "# Managed by herd-wake sync"

-- What `os.ReadFile` says of the managed file.
pub data FileRead : Type 0 where
  missing failing : FileRead
  file_text : Bytes → FileRead

abbrev pub has_marker : Bytes → Bool
has_marker text = elim (after_prefix managed_marker text) [ none ↦ false | some rest ↦ true ]

-- `IsManagedFile`, none where the file cannot be read
unfoldable pub is_managed : FileRead → Option Bool
is_managed missing = some true
is_managed failing = none
is_managed (file_text text) = some (is_empty (trim_space text) || has_marker (trim_space text))

module _ (projects : List Project) (w : Web) (cli : Option Cli) (d : Discovery)
    (printed : (dir : Bytes) → Option ℤ) (existing : List Project) where
  -- the loop over the candidates, with what is built for each, and the ports behind it
  unfoldable pub build_all : List Candidate → Used → List (Candidate × Built) × Used
  build_all [] used = ([], used)
  build_all (c ∷ cs) used =
      let r = build d c projects w cli (printed c.dir) (find_project c.name existing) used in
      let rest = build_all cs r.1 in ((c, r.0) ∷ rest.0, rest.1)

-- the map `final`
unfoldable pub final_of : List (Candidate × Built) → List Project
final_of [] = []
final_of ((c, generated p) ∷ rest) = p ∷ final_of rest
final_of ((c, skipped why) ∷ rest) = final_of rest
final_of ((c, kept p why) ∷ rest) = p ∷ final_of rest

unfoldable pub obstacles_of : List (Candidate × Built) → List (Bytes × Obstacle)
obstacles_of [] = []
obstacles_of ((c, generated p) ∷ rest) = obstacles_of rest
obstacles_of ((c, skipped why) ∷ rest) = (c.name, why) ∷ obstacles_of rest
obstacles_of ((c, kept p why) ∷ rest) = (c.name, why) ∷ obstacles_of rest

-- where a project goes in the result
pub data Change : Type 0 where
  is_added is_unchanged is_updated : Change

abbrev pub change_of : (previous : Option Project) → Project → Change
change_of none p = is_added
change_of (some r) p = if equivalent r p then is_unchanged else is_updated

abbrev pub same_change : Change → Change → Bool
same_change is_added is_added = true
same_change is_unchanged is_unchanged = true
same_change is_updated is_updated = true
same_change _ _ = false

-- the projects of one list of the result; one that was kept is unchanged
unfoldable pub changes_of :
    Change → (existing : List Project) → List (Candidate × Built) → List Project
changes_of k existing [] = []
changes_of k existing ((c, skipped why) ∷ rest) = changes_of k existing rest
changes_of k existing ((c, kept p why) ∷ rest) =
    let others = changes_of k existing rest in
    if same_change k is_unchanged then p ∷ others else others
changes_of k existing ((c, generated p) ∷ rest) =
    let others = changes_of k existing rest in
    if same_change k (change_of (find_project c.name existing) p) then p ∷ others else others

unfoldable pub removed_of : (final existing : List Project) → List Project
removed_of final [] = []
removed_of final (p ∷ ps) = elim (find_project p.name final) [
  | some q ↦ removed_of final ps
  | none ↦ p ∷ removed_of final ps
]

-- `sortSummaries`
unfoldable pub insert_project : Project → List Project → List Project
insert_project p [] = p ∷ []
insert_project p (q ∷ qs) = if at_most p.name q.name then p ∷ q ∷ qs else q ∷ insert_project p qs

unfoldable pub sort_projects : List Project → List Project
sort_projects [] = []
sort_projects (p ∷ ps) = insert_project p (sort_projects ps)

pub data EntryFault : Type 0 where
  unreadable_file not_managed undecodable unscannable unrendered unwritten : EntryFault

-- `EntryResult`, with the projects in place of their summaries, and the content of the managed file,
-- none where it is left as it is
pub record EntryResult : Type 0 where
  pub added : List Project
  pub updated : List Project
  pub unchanged : List Project
  pub removed : List Project
  pub rules : List Skip
  pub obstacles : List (Bytes × Obstacle)
  pub changed : Bool
  pub content : Option Bytes
  pub herd : List HerdAction
  pub ran : List HerdCommand
  pub fault : Option EntryFault

abbrev pub empty_result : EntryResult
empty_result = record {
  added = [];
  updated = [];
  unchanged = [];
  removed = [];
  rules = [];
  obstacles = [];
  changed = false;
  content = none;
  herd = [];
  ran = [];
  fault = none;
}

abbrev pub fault_in : EntryResult → EntryFault → EntryResult
fault_in r e = record r { fault = some e }

-- `bytes.Equal` with what was read
abbrev pub same_text : FileRead → Bytes → Bool
same_text (file_text old) new = equal old new
same_text missing new = is_empty new
same_text failing new = false

-- `before` are the commands that earlier entries ran, and `after` is what the sync meets behind commands.
module _ (after : (ran : List HerdCommand) → SyncOptions) (before : List HerdCommand) (w : Web)
    (d : Discovery) (writes : Bool) where
  -- behind the loop: the file is written, and Herd told
  unfoldable pub finish_entry : (r : EntryResult) (final existing : List Project) → EntryResult
  finish_entry r final existing =
      let actions = herd_actions after w d.herd final existing before in
      record r { herd = actions.0; ran = actions.1 }

  unfoldable pub write_entry :
      (r : EntryResult) (final existing : List Project) → FileRead → (text : Bytes) → EntryResult
  write_entry r final existing current text =
      if same_text current text
      then finish_entry r final existing
      else if (after before).dry_run
      then finish_entry (record r { changed = true }) final existing
      else if writes
      then finish_entry (record r { changed = true; content = some text }) final existing
      else fault_in (record r { changed = true }) unwritten

  unfoldable pub render_entry :
      (r : EntryResult) (final existing : List Project) → FileRead → Option Bytes → EntryResult
  render_entry r final existing current none = fault_in r unrendered
  render_entry r final existing failing (some text) = fault_in r unreadable_file
  render_entry r final existing current (some text) = write_entry r final existing current text

  unfoldable pub listed_entry :
      (existing : List Project) → List Skip → List (Candidate × Built) → EntryResult
  listed_entry existing skips built =
      let start = empty_result in
      record start {
        added = changes_of is_added existing built;
        updated = changes_of is_updated existing built;
        unchanged = sort_projects (changes_of is_unchanged existing built);
        removed = removed_of (final_of built) existing;
        rules = skips;
        obstacles = obstacles_of built;
      }

  module _ (projects : List Project) (printed : (dir : Bytes) → Option ℤ)
      (render : List Project → Option Bytes) (file current : FileRead) where
    -- behind the scan
    unfoldable pub sync_candidates :
        (existing : List Project) → List Candidate → List Skip → Used → EntryResult × Used
    sync_candidates existing candidates skips used =
        let built = build_all projects w (after before).cli d printed existing candidates used in
        (
          render_entry (listed_entry existing skips built.0) (final_of built.0) existing current
              (render (final_of built.0)),
          built.1,
        )

    unfoldable pub sync_scanned :
        (existing : List Project) → Option (List Candidate × List Skip) → Used → EntryResult × Used
    sync_scanned existing none used = (fault_in empty_result unscannable, used)
    sync_scanned existing (some (candidates, skips)) used =
        sync_candidates existing candidates skips used

    -- `decoded` is what `DecodeFragment` reads, none where it fails
    unfoldable pub sync_decoded :
        (decoded : Option (List Project))
        → Option (List Candidate × List Skip)
        → Used
        → EntryResult × Used
    sync_decoded none scanned used = (fault_in empty_result undecodable, used)
    sync_decoded (some existing) scanned used = sync_scanned existing scanned used

    -- behind the check of the file
    unfoldable pub sync_managed :
        (managed : Option Bool)
        → (decoded : Option (List Project)) → (scanned : Option (List Candidate × List Skip)) → Used
        → EntryResult × Used
    sync_managed none decoded scanned used = (fault_in empty_result unreadable_file, used)
    sync_managed (some false) decoded scanned used = (fault_in empty_result not_managed, used)
    sync_managed (some true) decoded scanned used = sync_decoded decoded scanned used

    -- `syncEntry`
    unfoldable pub sync_entry :
        (decoded : Option (List Project))
        → (scanned : Option (List Candidate × List Skip)) → Used
        → EntryResult × Used
    sync_entry decoded scanned used = sync_managed (is_managed file) decoded scanned used
