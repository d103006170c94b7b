-- ===== src/Discovery/Made.antt =====
-- internal/discovery/discovery.go: the fields of a project that `build` generates, and what `build`
-- makes of a candidate that it generated the same project for before.
use herd_wake.Prelude.{
  true, false, not, ◌&&◌, List, [], ◌∷◌, Option, none, some, if◌then◌else◌, Bytes, equal,
  equal_refl, is_empty, ◌≡◌, refl, sym, ap, Bool-cases, inl, inr,
}
use herd_wake.Prelude.Int.{ℤ}
use herd_wake.Config.Project.{Project}
use herd_wake.Config.Hostname.{equal_int}
use herd_wake.Config.Discovery.{Discovery}
use herd_wake.Herd.{Web}
use herd_wake.Discovery.Scan.{Candidate}
use herd_wake.Discovery.Build.{
  Used, owner_of, allocate, Cli, Obstacle, Built, generated, skipped, kept, keep, drafted,
  with_printed, by_command, with_allocated, by_range, with_supervisor, supervised, by_previous,
  unless_site, unless_taken, build, other_source, managed_source, find_project,
}
use herd_wake.Discovery.Owned.{Owns}

module _ (d : Discovery) (c : Candidate) where
  -- the template's copy with two ports
  abbrev pub copy_with : (sup app : ℤ) → Project
  copy_with sup app =
      let draft = drafted d c in record draft { supervisor_port = sup; application_port = app }

  -- A copy of the template with two ports, the second one that the command printed where there is one.
  pub record IsCopy (printed : Option ℤ) (p : Project) : Type 0 where
    pub copy : p ≡ copy_with p.supervisor_port p.application_port
    pub command : is_empty d.port_command ≡ false → printed ≡ some p.application_port

  abbrev pub Made : (printed : Option ℤ) → Built → Type 0
  Made printed (generated p) = IsCopy printed p
  Made printed (skipped why) = Unit
  Made printed (kept p why) = Unit

  keep-Made :
      (printed : Option ℤ) (previous : Option Project) (why : Obstacle)
      → Made printed (keep previous why)
  keep-Made printed none why = tt
  keep-Made printed (some r) why = tt

  with_printed-Made :
      (sup app : ℤ) (previous : Option Project) (allocated : List ℤ) (used : Used) (port : ℤ)
      → Made (some port) (with_printed d c (copy_with sup app) previous allocated used port).0
  unfolding with_printed
  with_printed-Made sup app previous allocated used port =
      elim (Bool-cases
        (not (is_empty (owner_of port used)) && not (equal (owner_of port used) c.name))) [
          | inl y ↦ rw y (keep-Made (some port) previous _)
          | inr n ↦ rw n (elim (Bool-cases (equal_int port sup)) [
            | inl y ↦ rw y (keep-Made (some port) previous _)
            | inr z ↦ rw z (record { copy = refl; command = λ e. refl })
          ])
        ]

  by_command-Made :
      (sup app : ℤ) (previous : Option Project) (allocated : List ℤ) (used : Used)
      (printed : Option ℤ)
      → Made printed (by_command d c (copy_with sup app) previous allocated used printed).0
  unfolding by_command
  by_command-Made sup app previous allocated used none = keep-Made none previous _
  by_command-Made sup app previous allocated used (some port) =
      with_printed-Made sup app previous allocated used port

  with_allocated-Made :
      (sup app : ℤ) (allocated : List ℤ) (used : Used) (printed x : Option ℤ)
      → is_empty d.port_command ≡ true
      → Made printed (with_allocated d c (copy_with sup app) allocated used x).0
  unfolding with_allocated
  with_allocated-Made sup app allocated used printed none e = tt
  with_allocated-Made sup app allocated used printed (some port) e = record {
    copy = refl;
    command = λ n. cc (e, n);
  }

  by_range-Made :
      (sup app : ℤ) (previous : Option Project) (allocated : List ℤ) (used : Used)
      (printed : Option ℤ)
      → is_empty d.port_command ≡ true
      → Made printed (by_range d c (copy_with sup app) previous allocated used).0
  unfolding by_range
  by_range-Made sup app (some r) allocated used printed e = record {
    copy = refl;
    command = λ n. cc (e, n);
  }
  by_range-Made sup app none allocated used printed e =
      with_allocated-Made sup app allocated used printed (allocate d.application_port_range used) e

  with_supervisor-Made :
      (previous : Option Project) (allocated : List ℤ) (used : Used) (printed : Option ℤ) (port : ℤ)
      → Made printed (with_supervisor d c previous allocated used printed port).0
  unfolding with_supervisor
  with_supervisor-Made previous allocated used printed port =
      elim (Bool-cases (is_empty d.port_command)) [
        | inl y ↦
            rw y (by_range-Made port d.template.application_port previous allocated used printed y)
        | inr n ↦
            rw n (by_command-Made port d.template.application_port previous allocated used printed)
      ]

  supervised-Made :
      (printed : Option ℤ) (used : Used) (x : Option ℤ)
      → Made printed (supervised d c printed used x).0
  unfolding supervised
  supervised-Made printed used none = tt
  supervised-Made printed used (some port) =
      with_supervisor-Made none (port ∷ []) ((port, c.name) ∷ used) printed port

  by_previous-Made :
      (printed : Option ℤ) (previous : Option Project) (used : Used)
      → Made printed (by_previous d c printed previous used).0
  unfolding by_previous
  by_previous-Made printed (some r) used =
      with_supervisor-Made (some r) [] used printed r.supervisor_port
  by_previous-Made printed none used =
      supervised-Made printed used (allocate d.supervisor_port_range used)

  unless_site-Made :
      (printed : Option ℤ) (previous : Option Project) (used : Used) (x : Option Obstacle)
      → Made printed (unless_site d c printed previous used x).0
  unfolding unless_site
  unless_site-Made printed previous used none = by_previous-Made printed previous used
  unless_site-Made printed previous used (some why) = tt

  unless_taken-Made :
      (w : Web) (cli : Option Cli) (printed : Option ℤ) (previous : Option Project) (used : Used)
      (x : Option Bytes)
      → Made printed (unless_taken d c w cli printed previous used x).0
  unfolding unless_taken
  unless_taken-Made w cli printed previous used none = unless_site-Made printed previous used _
  unless_taken-Made w cli printed previous used (some source) = tt

  pub build-Made :
      (projects : List Project) (w : Web) (cli : Option Cli) (printed : Option ℤ)
      (previous : Option Project) (used : Used)
      → Made printed (build d c projects w cli printed previous used).0
  unfolding build
  build-Made projects w cli printed previous used = unless_taken-Made w cli printed previous used _

  -- the ports behind a project that is generated again
  abbrev pub used_again : Project → Used → Used
  used_again p used =
      if not (is_empty d.port_command) then (p.application_port, c.name) ∷ used else used

  command_again :
      (printed : Option ℤ) (p : Project) (used : Used)
      → IsCopy printed p
      → p.name ≡ c.name
      → Owns used p
      → is_empty d.port_command ≡ false
      → by_command d c
          (copy_with p.supervisor_port d.template.application_port)
          (some p)
          []
          used
          printed
        ≡ (generated p, (p.application_port, c.name) ∷ used)
  unfolding by_command with_printed
  command_again printed p used k called o e =
      let mine : equal (owner_of p.application_port used) c.name ≡ true =
        rw (o.application, called) (equal_refl c.name) in
      rw (k.command e, mine, o.differ)
        (elim (Bool-cases (is_empty (owner_of p.application_port used))) [
          | inl y ↦ rw y (ap (λ x. (generated x, (p.application_port, c.name) ∷ used)) (sym k.copy))
          | inr n ↦ rw n (ap (λ x. (generated x, (p.application_port, c.name) ∷ used)) (sym k.copy))
        ])

  again :
      (printed : Option ℤ) (p : Project) (used : Used)
      → IsCopy printed p
      → p.name ≡ c.name
      → Owns used p
      → with_supervisor d c (some p) [] used printed p.supervisor_port
        ≡ (generated p, used_again p used)
  unfolding with_supervisor by_range
  again printed p used k called o = elim (Bool-cases (is_empty d.port_command)) [
    | inl y ↦ rw y (ap (λ x. (generated x, used)) (sym k.copy))
    | inr n ↦ rw n (command_again printed p used k called o n)
  ]

  -- The same project again.
  pub build-again :
      (projects : List Project) (w : Web) (cli : Option Cli) (printed : Option ℤ) (p : Project)
      (used : Used)
      → IsCopy printed p
      → p.name ≡ c.name
      → Owns used p
      → other_source (managed_source d) (find_project c.name projects) ≡ none
      → build d c projects w cli printed (some p) used ≡ (generated p, used_again p used)
  unfolding build unless_taken unless_site by_previous
  build-again projects w none printed p used k called o h = rw h (again printed p used k called o)
  build-again projects w (some x) printed p used k called o h =
      rw h (again printed p used k called o)
