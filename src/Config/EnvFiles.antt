-- ===== src/Config/EnvFiles.antt =====
-- internal/config/envfiles.go: what a project's `env_file` entries stand for.
use herd_wake.Prelude.{Bool, true, false, List, [], ◌∷◌, ◌==◌, if◌then◌else◌, Bytes}
use herd_wake.Config.Project.{Project}

pub record EnvFileRef : Type 0 where
  pub path : Bytes
  pub optional : Bool

-- `filepath.IsAbs`
abbrev pub is_abs : Bytes → Bool
is_abs [] = false
is_abs (c ∷ s) = c == b'/'

-- `filepath.Join` is the argument `join`.
unfoldable pub refs_of :
    (join : Bytes → Bytes → Bytes) → (dir : Bytes) → List Bytes → List EnvFileRef
refs_of join dir [] = []
refs_of join dir (entry ∷ entries) =
    (if is_abs entry
      then record { path = entry; optional = false }
      else record { path = join dir entry; optional = true })
    ∷ refs_of join dir entries

unfoldable pub env_file_refs :
    (join : Bytes → Bytes → Bytes) → Project → (dir : Bytes) → List EnvFileRef
unfolding refs_of
env_file_refs join p dir = refs_of join dir p.env_file
