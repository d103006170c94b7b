-- ===== src/Envfile/Precedence.antt =====
-- internal/envfile/envfile.go: what `Load` returns, and which value a variable has in a child process.
use herd_wake.Prelude.{
  Bool, List, [], ◌∷◌, Option, none, some, if◌then◌else◌, Bytes, ◌≡◌, refl, sym, ◌∙◌, Bool-cases,
  inl, inr,
}
use herd_wake.Config.Project.{Project, env_entries}
use herd_wake.Config.EnvFiles.{EnvFileRef, env_file_refs}
use herd_wake.Envfile.Parse.{Var, Parsed, vars_of, bad_line, parse}
use herd_wake.Envfile.Load.{
  Read, bytes, not_exist, failed, LoadFault, unreadable, malformed, Loaded, loaded, not_loaded,
  value_of, override_all, load, load_one, load_onto, load_text, warned,
}
use herd_wake.Envfile.Override.{
  Distinct, or_else, or_else-none, value_of-override_all, override_all-Distinct,
}
use herd_wake.Envfile.Names.{Named, Clean, parse-Clean, override_all-Named}
use herd_wake.Envfile.ChildEnv.{Machine, Child, child, no_child, path_entry, with_vars, child_env}
use herd_wake.Envfile.Entries.{
  value_in, inline_value, Keys, or_else_assoc, value_in-append, value_in-vars, value_in-sorted_env,
}

-- What one file has for a name, and what is wrong with it.
abbrev pub parsed_value : Bytes → Parsed → Option Bytes
parsed_value n (vars_of vars) = value_of n vars
parsed_value n (bad_line k e) = none

abbrev pub read_value : Bytes → Read → Option Bytes
read_value n (bytes text) = parsed_value n (parse text)
read_value n not_exist = none
read_value n failed = none

abbrev pub parse_fault : EnvFileRef → Parsed → Option LoadFault
parse_fault ref (vars_of vars) = none
parse_fault ref (bad_line k e) = some (malformed ref.path k e)

abbrev pub read_fault : EnvFileRef → Read → Option LoadFault
read_fault ref (bytes text) = parse_fault ref (parse text)
read_fault ref not_exist = if ref.optional then none else some (unreadable ref.path)
read_fault ref failed = some (unreadable ref.path)

abbrev pub first_of_faults : Option LoadFault → Option LoadFault → Option LoadFault
first_of_faults none f = f
first_of_faults (some e) f = some e

module _ (read : Bytes → Read) where
  -- The value in the last file that has one, and the first fault.
  abbrev pub last_value : Bytes → List EnvFileRef → Option Bytes
  last_value n [] = none
  last_value n (ref ∷ refs) = or_else (last_value n refs) (read_value n (read ref.path))

  abbrev pub first_fault : List EnvFileRef → Option LoadFault
  first_fault [] = none
  first_fault (ref ∷ refs) = first_of_faults (read_fault ref (read ref.path)) (first_fault refs)

-- A result of `Load`: against the fault and the values that it is to have.
abbrev Meets : Loaded → Option LoadFault → (Bytes → Option Bytes) → Type 0
Meets (loaded vars ws) f values =
    (f ≡ none) × ((n : Bytes) → value_of n vars ≡ values n) × Named vars × Distinct vars
Meets (not_loaded e ws) f values = f ≡ some e

same_values :
    (r : Loaded) (g : Option LoadFault) (u v : Bytes → Option Bytes)
    → ((n : Bytes) → u n ≡ v n)
    → Meets r g u
    → Meets r g v
same_values (loaded vs ws) g u v e (a, b, c, k) = (a, λ n. b n ∙ e n, c, k)
same_values (not_loaded x ws) g u v e m = m

module _ (next : List Var → List Bytes → Loaded) (f : Option LoadFault)
    (later : Bytes → Option Bytes)
    (rest : (vars : List Var) (ws : List Bytes)
      → Named vars
      → Distinct vars
      → Meets (next vars ws) f (λ n. or_else (later n) (value_of n vars)))
    (ref : EnvFileRef) (vars : List Var) (h : Named vars) (d : Distinct vars) where
  text-Meets :
      (p : Parsed) (ws : List Bytes)
      → Clean p
      → Meets
          (load_text p ref vars ws next)
          (first_of_faults (parse_fault ref p) f)
          (λ n. or_else (or_else (later n) (parsed_value n p)) (value_of n vars))
  unfolding load_text
  text-Meets (bad_line k e) ws c = refl
  text-Meets (vars_of vs) ws c =
      same_values (next (override_all vars vs) ws) f _ _
        (λ n.
          rw (value_of-override_all n vars vs d c.1)
            (sym (or_else_assoc (later n) (value_of n vs) (value_of n vars))))
        (rest (override_all vars vs) ws (override_all-Named vars vs h c.0)
          (override_all-Distinct vars vs d))

  skip-Meets :
      (r : Loaded)
      → Meets r f (λ n. or_else (later n) (value_of n vars))
      → Meets r f (λ n. or_else (or_else (later n) none) (value_of n vars))
  skip-Meets r m = same_values r f _ _ (λ n. sym (or_else_assoc (later n) none (value_of n vars))) m

  read-Meets :
      (read : Bytes → Read) (shared : Bytes → Bool) (r : Read) (ws : List Bytes)
      → Meets
          (load_one read shared r ref vars ws next)
          (first_of_faults (read_fault ref r) f)
          (λ n. or_else (or_else (later n) (read_value n r)) (value_of n vars))
  unfolding load_one
  read-Meets read shared (bytes text) ws =
      text-Meets (parse text) (warned read shared ref.path ws) (parse-Clean text)
  read-Meets read shared not_exist ws = elim (Bool-cases ref.optional) [
    | inl skipped ↦ rw skipped (skip-Meets (next vars ws) (rest vars ws h d))
    | inr required ↦ rw required refl
  ]
  read-Meets read shared failed ws = refl

module _ (read : Bytes → Read) (shared : Bytes → Bool) where
  load_onto-Meets :
      (vars : List Var) (ws : List Bytes) (refs : List EnvFileRef)
      → Named vars
      → Distinct vars
      → Meets
          (load_onto read shared vars ws refs)
          (first_fault read refs)
          (λ n. or_else (last_value read n refs) (value_of n vars))
  unfolding load_onto
  load_onto-Meets vars ws [] h d = (refl, λ n. refl, h, d)
  load_onto-Meets vars ws (ref ∷ refs) h d =
      read-Meets (λ vs us. load_onto read shared vs us refs) (first_fault read refs)
        (λ n. last_value read n refs) (λ vs us g e. load_onto-Meets vs us refs g e) ref vars h d
        read shared (read ref.path) ws

  -- `Load` fails with the first fault among its files, or returns for each name the value of the
  -- last file that has one, every name being a shell identifier that stands there once.
  pub load-Meets :
      (refs : List EnvFileRef)
      → Meets (load read shared refs) (first_fault read refs) (λ n. last_value read n refs)
  unfolding load value_of
  load-Meets refs =
      same_values (load read shared refs) (first_fault read refs) _ _
        (λ n. or_else-none (last_value read n refs)) (load_onto-Meets [] [] refs tt tt)

-- The environment of a child, or the fault that keeps it from starting.
abbrev pub Precedes : Machine → Project → (dir : Bytes) → Child → Type 0
Precedes m p dir (child environment ws) =
    let refs = env_file_refs m.join p dir in
    (first_fault m.read refs ≡ none)
    × ((n : Bytes)
        → value_in n environment
          ≡ or_else (inline_value n (env_entries p.env)) (
              or_else (last_value m.read n refs)
                (or_else (value_in n (path_entry m p.node_path)) (value_in n m.environ))))
Precedes m p dir (no_child e ws) = first_fault m.read (env_file_refs m.join p dir) ≡ some e

module _ (m : Machine) (p : Project) (dir : Bytes) (keys : Keys (env_entries p.env)) where
  with_vars-Precedes :
      (r : Loaded)
      → Meets r
          (first_fault m.read (env_file_refs m.join p dir))
          (λ n. last_value m.read n (env_file_refs m.join p dir))
      → Precedes m p dir (with_vars m p r)
  with_vars-Precedes (not_loaded e ws) h = h
  with_vars-Precedes (loaded vars ws) (f, values, h, d) = (
    f,
    λ n. simp (
      value_in-append,
      or_else_assoc,
      value_in-sorted_env n (env_entries p.env) keys,
      value_in-vars n vars h d,
      values n,
    ),
  )

  -- A child process gets for each name the inline value, else the one of the last env file that has
  -- one, else, for PATH, the one that `node_path` makes, else the daemon's own; or it is refused with
  -- the first fault among its files.
  pub child_env-Precedes : Precedes m p dir (child_env m p dir)
  unfolding child_env
  child_env-Precedes =
      with_vars-Precedes (load m.read m.shared (env_file_refs m.join p dir))
        (load-Meets m.read m.shared (env_file_refs m.join p dir))
