-- ===== src/Discovery/Remove.antt =====
-- internal/discovery/remove.go: `Remove`, which takes one project out of its file under projects.d. What
-- the file system, the YAML library and Herd answer are arguments; the file is read twice, once for its
-- marker and once for its header.
use herd_wake.Prelude.{
  Bool, true, false, List, [], ◌∷◌, ◌++◌, Option, none, some, ◌==◌, if◌then◌else◌, Bytes, codes,
  equal, split,
}
use herd_wake.Prelude.Space.{trim_space}
use herd_wake.Config.Project.{Project}
use herd_wake.Config.Discovery.{Discovery, after_prefix}
use herd_wake.Herd.{Web}
use herd_wake.Discovery.Build.{find_project, managed_source}
use herd_wake.Discovery.HerdActions.{
  SyncOptions, HerdAction, HerdCommand, herd_quiet, unproxy_action,
}
use herd_wake.Discovery.Entry.{FileRead, missing, failing, file_text, managed_marker, has_marker}

pub data RemoveFault : Type 0 where
  no_such_project main_config undecodable unreadable unrendered unwritten : RemoveFault

-- `RemoveResult`, with the content that the file gets
pub record RemoveResult : Type 0 where
  pub source : Bytes
  pub managed : Bool
  pub content : Bytes
  pub herd : Option HerdAction
  pub ran : List HerdCommand

pub data Removal : Type 0 where
  not_removed : RemoveFault → Removal
  removed : RemoveResult → Removal

-- `delete(projects, name)`
unfoldable pub without_project : (name : Bytes) → List Project → List Project
without_project name [] = []
without_project name (p ∷ ps) =
    let rest = without_project name ps in if equal p.name name then rest else p ∷ rest

-- `hasManagedMarker`, none where the file cannot be read
unfoldable pub marker_in : FileRead → Option Bool
marker_in missing = none
marker_in failing = none
marker_in (file_text text) = some (has_marker (trim_space text))

abbrev pub is_comment : Bytes → Bool
is_comment [] = false
is_comment (c ∷ s) = c == b'#'

-- the comment lines up to another line
unfoldable pub comment_lines : (lines : List Bytes) → Bytes
comment_lines [] = []
comment_lines (l ∷ ls) =
    let rest = comment_lines ls in if is_comment l then l ++ (b'\n' ∷ rest) else []

-- `existingHeader`; the dash of the short header has three bytes
unfoldable pub existing_header : FileRead → Bytes
existing_header missing =
    managed_marker ++ (b' ' ∷ 226 ∷ 128 ∷ 148 ∷ (codes " do not edit." ++ (b'\n' ∷ [])))
existing_header failing =
    managed_marker ++ (b' ' ∷ 226 ∷ 128 ∷ 148 ∷ (codes " do not edit." ++ (b'\n' ∷ [])))
existing_header (file_text text) = comment_lines (split b'\n' text)

-- `herdSettingFor`
unfoldable pub herd_setting_for : List Discovery → Project → Option Bool
herd_setting_for [] p = none
herd_setting_for (d ∷ ds) p =
    if equal (managed_source d) p.source then d.herd else herd_setting_for ds p

module _ (o : SyncOptions) (w : Web) (keep_herd : Bool) (ds : List Discovery) (p : Project) where
  -- behind the write
  unfoldable pub unproxy_removed : (r : RemoveResult) → RemoveResult
  unproxy_removed r =
      let s = record o { dry_run = false } in
      let a = unproxy_action s w true p in
      if keep_herd
      then r
      else if herd_quiet s (herd_setting_for ds p)
      then r
      else record r { herd = some a.0; ran = a.1 }

  unfoldable pub write_removed : (writes managed : Bool) → Option Bytes → Removal
  write_removed writes managed none = not_removed unrendered
  write_removed writes managed (some text) =
      if writes
      then removed (
          unproxy_removed
            record { source = p.source; managed = managed; content = text; herd = none; ran = [] })
      else not_removed unwritten

  module _ (render : (header : Bytes) → List Project → Option Bytes) (writes : Bool)
      (file again : FileRead) where
    unfoldable pub remove_marked : List Project → (managed : Option Bool) → Removal
    remove_marked ps none = not_removed unreadable
    remove_marked ps (some managed) =
        write_removed writes managed (render (if managed then existing_header again else []) ps)

    unfoldable pub remove_decoded : (decoded : Option (List Project)) → Removal
    remove_decoded none = not_removed undecodable
    remove_decoded (some ps) = remove_marked (without_project p.name ps) (marker_in file)

    unfoldable pub remove_from : (decoded : Option (List Project)) → (rel : Option Bytes) → Removal
    remove_from decoded none = not_removed main_config
    remove_from decoded (some rel) = remove_decoded decoded

module _ (o : SyncOptions) (w : Web) (keep_herd : Bool) (ds : List Discovery)
    (render : (header : Bytes) → List Project → Option Bytes) (writes : Bool)
    (file again : FileRead) (decoded : Option (List Project)) where
  unfoldable pub remove_found : Option Project → Removal
  remove_found none = not_removed no_such_project
  remove_found (some p) =
      remove_from o w keep_herd ds p render writes file again decoded
        (after_prefix (codes "projects.d/") p.source)

  -- `Remove`
  unfoldable pub remove : List Project → (name : Bytes) → Removal
  remove projects name = remove_found (find_project name projects)
