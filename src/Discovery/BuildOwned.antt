-- ===== src/Discovery/BuildOwned.antt =====
-- internal/discovery/discovery.go: what `build` does to the ports.
use herd_wake.Prelude.{
  true, false, List, [], ◌∷◌, Option, none, some, Bytes, equal, is_empty, ◌≡◌, refl, sym, ap, ◌∙◌,
  Bool-cases, inl, inr, some-eq,
}
use herd_wake.Prelude.Int.{ℤ}
use herd_wake.Config.Project.{Project}
use herd_wake.Config.Hostname.{equal_int}
use herd_wake.Config.Ports.{equal_int_lem}
use herd_wake.Config.Discovery.{Discovery}
use herd_wake.Herd.{Web}
use herd_wake.Discovery.Scan.{Candidate}
use herd_wake.Discovery.Build.{
  Used, owner_of, release_all, allocate, Cli, Obstacle, Built, generated, skipped, kept, keep,
  with_printed, by_command, with_allocated, by_range, with_supervisor, supervised, by_previous,
  unless_site, unless_taken, build,
}
use herd_wake.Discovery.Owned.{
  Owns, Spares, IsFree, given-Spares, release_all-Spares, Spares-trans, allocate-free,
  owner_of-given, owner_of-kept,
}

-- A previous registration of the name has its ports.
abbrev pub Held : (name : Bytes) → Used → Option Project → Type 0
Held name used none = Unit
Held name used (some r) = (r.name ≡ name) × Owns used r

-- What comes out of `build`: the ports of others are spared, and the project that is generated or
-- kept has the name and its ports.
abbrev pub Registered : (name : Bytes) → Used → Built → Type 0
Registered name used (generated p) = (p.name ≡ name) × Owns used p
Registered name used (skipped why) = Unit
Registered name used (kept p why) = (p.name ≡ name) × Owns used p

pub record Sound (name : Bytes) (used : Used) (r : Built × Used) : Type 0 where
  pub spares : Spares name used r.1
  pub registered : Registered name r.1 r.0

-- The ports that were allocated, of a candidate whose previous registration has its own.
abbrev Fresh : (previous : Option Project) → (allocated : List ℤ) → Type 0
Fresh none allocated = Unit
Fresh (some r) allocated = allocated ≡ []

module _ (d : Discovery) (c : Candidate) (is_named : is_empty c.name ≡ false) where
  keep-Sound :
      (previous : Option Project) (allocated : List ℤ) (used : Used) (why : Obstacle)
      → Held c.name used previous
      → Fresh previous allocated
      → Sound c.name used (keep previous why, release_all allocated c.name used)
  unfolding release_all
  keep-Sound none allocated used why h f = record {
    spares = release_all-Spares c.name allocated used;
    registered = tt;
  }
  keep-Sound (some r) allocated used why h f =
      rw f record { spares = λ port other e n m. e; registered = h }

  given-Sound :
      (p : Project) (port : ℤ) (used : Used)
      → p.name ≡ c.name
      → owner_of p.supervisor_port used ≡ c.name
      → IsFree c.name port used
      → equal_int port p.supervisor_port ≡ false
      → Sound c.name used (generated (record p { application_port = port }), (port, c.name) ∷ used)
  given-Sound p port used called sup free apart = record {
    spares = given-Spares c.name port used free;
    registered = (
      called,
      record {
        supervisor = owner_of-kept port p.supervisor_port c.name used sup ∙ sym called;
        application = owner_of-given port c.name used ∙ sym called;
        differ = apart;
      },
    );
  }

  with_printed-Sound :
      (p : Project) (previous : Option Project) (allocated : List ℤ) (used : Used) (port : ℤ)
      → p.name ≡ c.name
      → owner_of p.supervisor_port used ≡ c.name
      → Held c.name used previous
      → Fresh previous allocated
      → Sound c.name used (with_printed d c p previous allocated used port)
  unfolding with_printed
  with_printed-Sound p previous allocated used port called sup h f =
      elim (Bool-cases (is_empty (owner_of port used))) [
        | inl e ↦ rw e (elim (Bool-cases (equal_int port p.supervisor_port)) [
          | inl y ↦ rw y (keep-Sound previous allocated used _ h f)
          | inr z ↦ rw z (given-Sound p port used called sup (inl e) z)
        ])
        | inr m ↦ rw m (elim (Bool-cases (equal (owner_of port used) c.name)) [
          | inr o ↦ rw o (keep-Sound previous allocated used _ h f)
          | inl e ↦ rw e (elim (Bool-cases (equal_int port p.supervisor_port)) [
            | inl y ↦ rw y (keep-Sound previous allocated used _ h f)
            | inr z ↦ rw z (given-Sound p port used called sup (inr e) z)
          ])
        ])
      ]

  by_command-Sound :
      (p : Project) (previous : Option Project) (allocated : List ℤ) (used : Used)
      (printed : Option ℤ)
      → p.name ≡ c.name
      → owner_of p.supervisor_port used ≡ c.name
      → Held c.name used previous
      → Fresh previous allocated
      → Sound c.name used (by_command d c p previous allocated used printed)
  unfolding by_command
  by_command-Sound p previous allocated used none called sup h f =
      keep-Sound previous allocated used _ h f
  by_command-Sound p previous allocated used (some port) called sup h f =
      with_printed-Sound p previous allocated used port called sup h f

  -- A port that nobody has is not one that the candidate has.
  free_apart :
      (port sup : ℤ) (used : Used)
      → is_empty (owner_of port used) ≡ true
      → owner_of sup used ≡ c.name
      → equal_int port sup ≡ false
  free_apart port sup used free owned = elim (Bool-cases (equal_int port sup)) [
    | inr z ↦ z
    | inl y ↦ let same = equal_int_lem port sup y in cc (free, owned, same, is_named)
  ]

  with_allocated-Sound :
      (p : Project) (allocated : List ℤ) (used : Used) (x : Option ℤ)
      → allocate d.application_port_range used ≡ x
      → p.name ≡ c.name
      → owner_of p.supervisor_port used ≡ c.name
      → Sound c.name used (with_allocated d c p allocated used x)
  unfolding with_allocated
  with_allocated-Sound p allocated used none e called sup = record {
    spares = release_all-Spares c.name allocated used;
    registered = tt;
  }
  with_allocated-Sound p allocated used (some port) e called sup =
      let free = allocate-free d.application_port_range used port e in
      given-Sound p port used called sup (inl free)
        (free_apart port p.supervisor_port used free sup)

  by_range-Sound :
      (p : Project) (previous : Option Project) (allocated : List ℤ) (used : Used)
      → p.name ≡ c.name
      → owner_of p.supervisor_port used ≡ c.name
      → Held c.name used previous
      → ((r : Project) → previous ≡ some r → p.supervisor_port ≡ r.supervisor_port)
      → Sound c.name used (by_range d c p previous allocated used)
  unfolding by_range
  by_range-Sound p none allocated used called sup h same =
      with_allocated-Sound p allocated used (allocate d.application_port_range used) refl called sup
  by_range-Sound p (some r) allocated used called sup (name, o) same = record {
    spares = λ port other e n m. e;
    registered = (
      called,
      record {
        supervisor = sup ∙ sym called;
        application = o.application ∙ (name ∙ sym called);
        differ = rw (same r refl) o.differ;
      },
    );
  }

  with_supervisor-Sound :
      (previous : Option Project) (allocated : List ℤ) (used : Used) (printed : Option ℤ) (port : ℤ)
      → owner_of port used ≡ c.name
      → Held c.name used previous
      → Fresh previous allocated
      → ((r : Project) → previous ≡ some r → port ≡ r.supervisor_port)
      → Sound c.name used (with_supervisor d c previous allocated used printed port)
  unfolding with_supervisor
  with_supervisor-Sound previous allocated used printed port sup h f same =
      elim (Bool-cases (is_empty d.port_command)) [
        | inl y ↦ rw y (by_range-Sound _ previous allocated used refl sup h same)
        | inr n ↦ rw n (by_command-Sound _ previous allocated used printed refl sup h f)
      ]

  supervised-Sound :
      (printed : Option ℤ) (used : Used) (x : Option ℤ)
      → allocate d.supervisor_port_range used ≡ x
      → Sound c.name used (supervised d c printed used x)
  unfolding supervised
  supervised-Sound printed used none e = record { spares = λ port other e n m. e; registered = tt }
  supervised-Sound printed used (some port) e =
      let free = allocate-free d.supervisor_port_range used port e in
      let given = (port, c.name) ∷ used in
      let rest =
        with_supervisor-Sound none (port ∷ []) given printed port (owner_of-given port c.name used)
          tt tt (λ r e. cc e) in
      record {
        spares =
            Spares-trans c.name used given _ (given-Spares c.name port used (inl free)) rest.spares;
        registered = rest.registered;
      }

  by_previous-Sound :
      (printed : Option ℤ) (previous : Option Project) (used : Used)
      → Held c.name used previous
      → Sound c.name used (by_previous d c printed previous used)
  unfolding by_previous
  by_previous-Sound printed none used h = supervised-Sound printed used _ refl
  by_previous-Sound printed (some r) used h =
      with_supervisor-Sound (some r) [] used printed r.supervisor_port (h.1.supervisor ∙ h.0) h refl
        (λ q e. ap (λ x. x.supervisor_port) (some-eq e))

  skipped-Sound : (used : Used) (why : Obstacle) → Sound c.name used (skipped why, used)
  skipped-Sound used why = record { spares = λ port other e n m. e; registered = tt }

  unless_site-Sound :
      (printed : Option ℤ) (previous : Option Project) (used : Used) (x : Option Obstacle)
      → Held c.name used previous
      → Sound c.name used (unless_site d c printed previous used x)
  unfolding unless_site
  unless_site-Sound printed previous used (some why) h = skipped-Sound used why
  unless_site-Sound printed previous used none h = by_previous-Sound printed previous used h

  unless_taken-Sound :
      (w : Web) (cli : Option Cli) (printed : Option ℤ) (previous : Option Project) (used : Used)
      (x : Option Bytes)
      → Held c.name used previous
      → Sound c.name used (unless_taken d c w cli printed previous used x)
  unfolding unless_taken
  unless_taken-Sound w cli printed previous used (some source) h = skipped-Sound used _
  unless_taken-Sound w cli printed previous used none h =
      unless_site-Sound printed previous used _ h

  pub build-Sound :
      (projects : List Project) (w : Web) (cli : Option Cli) (printed : Option ℤ)
      (previous : Option Project) (used : Used)
      → Held c.name used previous
      → Sound c.name used (build d c projects w cli printed previous used)
  unfolding build
  build-Sound projects w cli printed previous used h =
      unless_taken-Sound w cli printed previous used _ h
