-- ===== src/Discovery/Scan.antt =====
-- internal/discovery/scan.go: which subdirectories of an entry's directory become projects.
use herd_wake.Prelude.{
  Bool, true, false, not, List, [], ◌∷◌, ◌++◌, Option, none, some, if◌then◌else◌, Bytes, codes,
  is_empty, at_most,
}
use herd_wake.Prelude.Space.{trim_space}
use herd_wake.Config.Hostname.{Platform, Found, absent, directory, is_dns_label}
use herd_wake.Config.EnvFiles.{is_abs}
use herd_wake.Config.Discovery.{Discovery, after_prefix}

-- The file system besides `Platform`: `filepath.EvalSymlinks`; the lines that a scanner reads of a
-- file, none where it cannot be opened; the names that `os.ReadDir` lists.
pub record Disk : Type 0 where
  pub platform : Platform
  pub eval_symlinks : Bytes → Option Bytes
  pub lines_of : Bytes → Option (List Bytes)
  pub read_dir : Bytes → Option (List Bytes)

-- The rule that a subdirectory fails.
pub data Rule : Type 0 where
  not_a_label excluded_name no_directory not_a_directory no_git : Rule
  standalone no_gitdir stale_worktree foreign_worktree : Rule
  missing_required : List Bytes → Rule

-- whether a scan stays silent about it
abbrev pub is_silent : Rule → Bool
is_silent excluded_name = true
is_silent no_directory = true
is_silent not_a_directory = true
is_silent no_git = true
is_silent _ = false

-- `readGitdir`: the first line that names a directory
unfoldable pub gitdir_in : List Bytes → Option Bytes
gitdir_in [] = none
gitdir_in (line ∷ rest) = elim (after_prefix (codes "gitdir:") (trim_space line)) [
  | none ↦ gitdir_in rest
  | some text ↦
      let later = gitdir_in rest in
      if is_empty (trim_space text) then later else some (trim_space text)
]

abbrev pub or_path : Option Bytes → Bytes → Bytes
or_path none path = path
or_path (some p) path = p

abbrev pub is_found : Found → Bool
is_found absent = false
is_found _ = true

module _ (k : Disk) where
  -- `Excluded`
  unfoldable pub is_excluded : (patterns : List Bytes) → (name : Bytes) → Bool
  is_excluded [] name = false
  is_excluded (p ∷ ps) name = elim (k.platform.glob p name) [
    | none ↦ is_excluded ps name
    | some matches ↦ let rest = is_excluded ps name in if matches then true else rest
  ]

  abbrev pub excludes : Discovery → List Bytes
  excludes d = elim d.exclude [ none ↦ [] | some patterns ↦ patterns ]

  -- `newInspector`
  unfoldable pub worktrees_dir : (repository : Bytes) → Bytes
  worktrees_dir repository =
      let root = or_path (k.eval_symlinks repository) repository in
      let dir = k.platform.join (k.platform.join root (codes ".git")) (codes "worktrees") in
      or_path (k.eval_symlinks dir) dir

  unfoldable pub missing_files : (dir : Bytes) → (files : List Bytes) → List Bytes
  missing_files dir [] = []
  missing_files dir (f ∷ fs) =
      let rest = missing_files dir fs in
      if is_found (k.platform.stat (k.platform.join dir f)) then rest else f ∷ rest

  -- where the `.git` file of a worktree leads
  unfoldable pub points_to : (d : Discovery) → (resolved : Option Bytes) → Option Rule
  points_to d none = some stale_worktree
  points_to d (some path) = elim (after_prefix (worktrees_dir d.repository ++ b'/' ∷ []) path) [
    | none ↦ some foreign_worktree
    | some rest ↦ none
  ]

  unfoldable pub gitdir_rule :
      (d : Discovery) → (dir : Bytes) → (gitdir : Option Bytes) → Option Rule
  gitdir_rule d dir none = some no_gitdir
  gitdir_rule d dir (some gitdir) =
      points_to d (k.eval_symlinks (if is_abs gitdir then gitdir else k.platform.join dir gitdir))

  -- `readGitdir`
  unfoldable pub read_gitdir : (path : Bytes) → Option Bytes
  read_gitdir path = elim (k.lines_of path) [ none ↦ none | some lines ↦ gitdir_in lines ]

  -- the repository filter, of an entry that sets it
  unfoldable pub repository_rule : (d : Discovery) → (dir : Bytes) → (git : Found) → Option Rule
  repository_rule d dir directory = some standalone
  repository_rule d dir _ = gitdir_rule d dir (read_gitdir (k.platform.join dir (codes ".git")))

  unfoldable pub files_rule : (missing : List Bytes) → (name : Bytes) → Option Rule
  files_rule (f ∷ fs) name = some (missing_required (f ∷ fs))
  files_rule [] name = if is_dns_label name then none else some not_a_label

  -- behind the repository filter
  unfoldable pub then_files : Discovery → (dir name : Bytes) → Option Rule → Option Rule
  then_files d dir name (some rule) = some rule
  then_files d dir name none = files_rule (missing_files dir d.require_files) name

  unfoldable pub git_rule : Discovery → (dir name : Bytes) → (git : Found) → Option Rule
  git_rule d dir name absent = some no_git
  git_rule d dir name git =
      then_files d dir name (if is_empty d.repository then none else repository_rule d dir git)

  unfoldable pub directory_rule : Discovery → (dir name : Bytes) → Found → Option Rule
  directory_rule d dir name absent = some no_directory
  directory_rule d dir name directory =
      git_rule d dir name (k.platform.stat (k.platform.join dir (codes ".git")))
  directory_rule d dir name _ = some not_a_directory

  -- `inspect`: the rule that a name fails
  unfoldable pub inspect : Discovery → (name : Bytes) → Option Rule
  inspect d name =
      if is_excluded (excludes d) name
      then some excluded_name
      else directory_rule d (k.platform.join d.directory name) name
          (k.platform.stat (k.platform.join d.directory name))

  -- `Check`; the directory is that of the name below the entry's
  unfoldable pub check : Discovery → (label : Bytes) → Option Rule
  check d label = if not (is_dns_label label) then some not_a_label else inspect d label

-- `candidate`, and a subdirectory that is skipped with the rule that it failed
pub record Candidate : Type 0 where
  pub name : Bytes
  pub dir : Bytes

pub record Skip : Type 0 where
  pub name : Bytes
  pub dir : Bytes
  pub rule : Rule

-- `sort.Slice`; the names of a directory are different.
unfoldable pub insert_candidate : Candidate → List Candidate → List Candidate
insert_candidate c [] = c ∷ []
insert_candidate c (e ∷ es) =
    if at_most c.name e.name then c ∷ e ∷ es else e ∷ insert_candidate c es

unfoldable pub insert_skip : Skip → List Skip → List Skip
insert_skip c [] = c ∷ []
insert_skip c (e ∷ es) = if at_most c.name e.name then c ∷ e ∷ es else e ∷ insert_skip c es

unfoldable pub sort_candidates : List Candidate → List Candidate
sort_candidates [] = []
sort_candidates (c ∷ cs) = insert_candidate c (sort_candidates cs)

unfoldable pub sort_skips : List Skip → List Skip
sort_skips [] = []
sort_skips (c ∷ cs) = insert_skip c (sort_skips cs)

module _ (k : Disk) (d : Discovery) where
  -- the loop of `scan`
  unfoldable pub candidates_in : List Bytes → List Candidate
  candidates_in [] = []
  candidates_in (name ∷ names) = elim (inspect k d name) [
    | none ↦ record { name = name; dir = k.platform.join d.directory name } ∷ candidates_in names
    | some rule ↦ candidates_in names
  ]

  unfoldable pub skips_in : List Bytes → List Skip
  skips_in [] = []
  skips_in (name ∷ names) = elim (inspect k d name) [
    | none ↦ skips_in names
    | some rule ↦
        let rest = skips_in names in
        if is_silent rule
        then rest
        else record { name = name; dir = k.platform.join d.directory name; rule = rule } ∷ rest
  ]

  -- `scan`
  unfoldable pub scan : Option (List Candidate × List Skip)
  scan = elim (k.read_dir d.directory) [
    | none ↦ none
    | some names ↦ some (sort_candidates (candidates_in names), sort_skips (skips_in names))
  ]
