-- ===== src/Envfile/Load.antt =====
-- internal/envfile/envfile.go: the list of variables under `override`, within one file (`Parse`) and
-- across files (`Load`). What the file system answers for a reference is an argument.
use herd_wake.Prelude.{
  ℕ, Bool, List, [], ◌∷◌, ◌++◌, Option, none, some, if◌then◌else◌, Bytes, equal,
}
use herd_wake.Envfile.Parse.{Var, Fault, Parsed, vars_of, bad_line, parse, override}
use herd_wake.Config.EnvFiles.{EnvFileRef}

-- What `os.ReadFile` answers: the bytes, or an error, which may be that the file does not exist.
pub data Read : Type 0 where
  bytes : Bytes → Read
  not_exist : Read
  failed : Read

pub data LoadFault : Type 0 where
  unreadable : (path : Bytes) → LoadFault
  malformed : (path : Bytes) (number : ℕ) → Fault → LoadFault

pub data Loaded : Type 0 where
  loaded : List Var → (warnings : List Bytes) → Loaded
  not_loaded : LoadFault → (warnings : List Bytes) → Loaded

unfoldable pub override_all : List Var → List Var → List Var
unfolding override
override_all vars [] = vars
override_all vars (v ∷ vs) = override_all (override vars v) vs

-- What one name is bound to.
unfoldable pub value_of : Bytes → List Var → Option Bytes
unfolding equal
value_of n [] = none
value_of n (v ∷ vars) = if equal v.name n then some v.value else value_of n vars

-- what `Load` makes of a file's text
unfoldable pub load_text :
    Parsed → EnvFileRef → List Var → List Bytes → (next : List Var → List Bytes → Loaded) → Loaded
unfolding override_all
load_text (bad_line n e) ref vars warnings next = not_loaded (malformed ref.path n e) warnings
load_text (vars_of parsed) ref vars warnings next = next (override_all vars parsed) warnings

-- `os.ReadFile` and `permissionWarning` are the arguments `read` and `shared`.
module _ (read : Bytes → Read) (shared : Bytes → Bool) where
  abbrev pub warned : Bytes → List Bytes → List Bytes
  warned path warnings = if shared path then warnings ++ path ∷ [] else warnings

  -- the loop of `Load`; `load_one` is its body, and `next` the rounds that follow
  unfoldable pub load_one :
      Read → EnvFileRef → List Var → List Bytes → (next : List Var → List Bytes → Loaded) → Loaded
  unfolding load_text
  load_one not_exist ref vars warnings next =
      if ref.optional then next vars warnings else not_loaded (unreadable ref.path) warnings
  load_one failed ref vars warnings next = not_loaded (unreadable ref.path) warnings
  load_one (bytes text) ref vars warnings next =
      load_text (parse text) ref vars (warned ref.path warnings) next

  unfoldable pub load_onto : List Var → List Bytes → List EnvFileRef → Loaded
  unfolding load_one
  load_onto vars warnings [] = loaded vars warnings
  load_onto vars warnings (ref ∷ refs) =
      load_one (read ref.path) ref vars warnings (λ vs ws. load_onto vs ws refs)

  unfoldable pub load : List EnvFileRef → Loaded
  unfolding load_onto
  load = load_onto [] []
