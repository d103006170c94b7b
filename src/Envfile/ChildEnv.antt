-- ===== src/Envfile/ChildEnv.antt =====
-- internal/envfile/envfile.go: `ChildEnv`, the environment of a child process, and `Display`. What the
-- operating system answers is the record `Machine`.
use herd_wake.Prelude.{
  ℕ, Bool, true, false, ◌&&◌, ◌||◌, List, [], ◌∷◌, ◌++◌, leb, ◌==◌, ◌-◌, if◌then◌else◌, Bytes,
  codes, at_most,
}
use herd_wake.Config.Project.{Project, env_entries}
use herd_wake.Config.EnvFiles.{env_file_refs}
use herd_wake.Envfile.Parse.{Var}
use herd_wake.Envfile.Load.{Read, LoadFault, Loaded, loaded, not_loaded, load}

-- `os.Environ`, `os.Getenv("PATH")`, whether `os.Stat` finds a directory, `filepath.Dir`,
-- `filepath.Join`, `os.ReadFile`, and whether `permissionWarning` warns of a file.
pub record Machine : Type 0 where
  pub environ : List Bytes
  pub search_path : Bytes
  pub is_dir : Bytes → Bool
  pub parent : Bytes → Bytes
  pub join : Bytes → Bytes → Bytes
  pub read : Bytes → Read
  pub shared : Bytes → Bool

pub data Child : Type 0 where
  child : (environment warnings : List Bytes) → Child
  no_child : LoadFault → (warnings : List Bytes) → Child

-- `name + "=" + value`
abbrev pub entry : Bytes → Bytes → Bytes
entry n v = n ++ b'=' ∷ v

unfoldable pub var_entries : List Var → List Bytes
var_entries [] = []
var_entries (v ∷ vars) = entry v.name v.value ∷ var_entries vars

unfoldable pub inline_entries : List (Bytes × Bytes) → List Bytes
inline_entries [] = []
inline_entries ((k, v) ∷ m) = entry k v ∷ inline_entries m

-- the keys in sorted order, each with its value
unfoldable pub insert_key : Bytes × Bytes → List (Bytes × Bytes) → List (Bytes × Bytes)
unfolding at_most
insert_key kv [] = kv ∷ []
insert_key (k, v) ((l, w) ∷ m) =
    if at_most k l then (k, v) ∷ (l, w) ∷ m else (l, w) ∷ insert_key (k, v) m

unfoldable pub sorted_env : List (Bytes × Bytes) → List (Bytes × Bytes)
unfolding insert_key
sorted_env [] = []
sorted_env (kv ∷ m) = insert_key kv (sorted_env m)

module _ (m : Machine) where
  -- the directory that `node_path` puts in front of PATH
  abbrev pub node_dir : Bytes → Bytes
  node_dir path = if m.is_dir path then path else m.parent path

  abbrev pub path_entry : Bytes → List Bytes
  path_entry [] = []
  path_entry (c ∷ s) = entry (codes "PATH") (node_dir (c ∷ s) ++ b':' ∷ m.search_path) ∷ []

  abbrev pub with_vars : Project → Loaded → Child
  with_vars p (not_loaded e warnings) = no_child e warnings
  with_vars p (loaded vars warnings) =
      child
        (m.environ
          ++ (path_entry p.node_path
              ++ (var_entries vars ++ inline_entries (sorted_env (env_entries p.env)))))
        warnings

  unfoldable pub child_env : Project → (dir : Bytes) → Child
  unfolding load sorted_env var_entries inline_entries env_file_refs
  child_env p dir = with_vars p (load m.read m.shared (env_file_refs m.join p dir))

-- The simple case folding of `(?i)`, as far as the letters of the pattern have it: small letters,
-- U+017F (long s) for S and U+212A (Kelvin) for K.
unfoldable pub upper : ℕ → ℕ
upper c = if leb 97 c && leb c 122 then c - 32 else c

unfoldable pub is_long_s : (c d : ℕ) → Bool
is_long_s c d = c == 197 && d == 191

unfoldable pub is_kelvin : (c d e : ℕ) → Bool
is_kelvin c d e = c == 226 && d == 132 && e == 170

unfoldable pub fold_case : Bytes → Bytes
fold_case [] = []
fold_case (c ∷ []) = upper c ∷ []
fold_case (c ∷ d ∷ []) =
    let rest = fold_case (d ∷ []) in if is_long_s c d then b'S' ∷ [] else upper c ∷ rest
fold_case (c ∷ d ∷ e ∷ s) =
    let rest = fold_case (d ∷ e ∷ s) in
    let rest2 = fold_case (e ∷ s) in
    let rest3 = fold_case s in
    if is_long_s c d then b'S' ∷ rest2 else if is_kelvin c d e then b'K' ∷ rest3 else upper c ∷ rest

unfoldable pub is_prefix : Bytes → Bytes → Bool
is_prefix [] s = true
is_prefix (c ∷ p) [] = false
is_prefix (c ∷ p) (d ∷ s) = (c == d) && is_prefix p s

unfoldable pub occurs : Bytes → Bytes → Bool
occurs p [] = is_prefix p []
occurs p (c ∷ s) = is_prefix p (c ∷ s) || occurs p s

abbrev pub secret_words : List Bytes
secret_words =
    codes "PASSWORD"
    ∷ codes "SECRET"
    ∷ codes "TOKEN"
    ∷ codes "KEY"
    ∷ codes "LOGIN"
    ∷ codes "DSN"
    ∷ codes "URL"
    ∷ []

unfoldable pub any_occurs : List Bytes → Bytes → Bool
any_occurs [] s = false
any_occurs (w ∷ ws) s = occurs w s || any_occurs ws s

unfoldable pub sensitive : (name : Bytes) → Bool
sensitive name = any_occurs secret_words (fold_case name)

abbrev pub redacted : Bytes
redacted = codes "[redacted]"

unfoldable pub display : (name value : Bytes) → Bytes
display name value = if sensitive name then redacted else value
