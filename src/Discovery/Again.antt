-- ===== src/Discovery/Again.antt =====
-- internal/discovery/discovery.go: the loop of `syncEntry` over candidates whose projects were generated
-- before.
use herd_wake.Prelude.{
  true, false, List, [], ◌∷◌, Option, none, some, Bytes, equal, equal_refl, is_empty, ◌≡◌, refl,
  sym, ap, ◌∙◌, Bool-cases, inl, inr, All, All-map,
}
use herd_wake.Prelude.Int.{ℤ}
use herd_wake.Config.Project.{Project}
use herd_wake.Config.Hostname.{equal_int}
use herd_wake.Config.Ports.{equal_int_lem}
use herd_wake.Config.Discovery.{Discovery}
use herd_wake.Herd.{Web}
use herd_wake.Discovery.Scan.{Candidate}
use herd_wake.Discovery.Build.{
  Used, owner_of, Cli, Built, generated, skipped, kept, build, find_project, other_source,
  managed_source,
}
use herd_wake.Discovery.Entry.{build_all, final_of, obstacles_of}
use herd_wake.Discovery.Owned.{Owns}
use herd_wake.Discovery.BuildOwned.{Registered}
use herd_wake.Discovery.Made.{IsCopy, Made, build-Made, build-again, used_again}
use herd_wake.Discovery.Registry.{
  NoneCalled, DistinctNames, Ready, Ready-next, step-Sound, other_way,
}

abbrev pub Outcome : Type 0
Outcome = Candidate × Built

abbrev pub names_of : List Outcome → List Candidate
names_of [] = []
names_of ((c, b) ∷ rest) = c ∷ names_of rest

-- A port that is given to its owner again.
same_owners :
    (port q : ℤ) (name : Bytes) (used : Used)
    → owner_of port used ≡ name
    → owner_of q ((port, name) ∷ used) ≡ owner_of q used
unfolding owner_of
same_owners port q name used h = elim (Bool-cases (equal_int port q)) [
  | inl y ↦ rw y (sym h ∙ ap (λ x. owner_of x used) (equal_int_lem port q y))
  | inr z ↦ rw z refl
]

abbrev generated_project : Built → (otherwise : Project) → Project
generated_project (generated p) q = p
generated_project (skipped why) q = q
generated_project (kept p why) q = q

pub generated-eq : {p q : Project} → generated p ≡ generated q → p ≡ q
generated-eq {p} {q} e = ap (λ b. generated_project b p) e

module _ (d : Discovery) (printed : (dir : Bytes) → Option ℤ) where
  -- A candidate for which a copy of the template was generated.
  pub record IsGenerated (o : Outcome) (p : Project) : Type 0 where
    pub outcome : o.1 ≡ generated p
    pub called : p.name ≡ o.0.name
    pub copy : IsCopy d o.0 (printed o.0.dir) p

  -- It is in the file, and its ports are its own.
  pub record IsSettled (file : List Project) (used : Used) (o : Outcome) (p : Project)
      : Type 0 where
    pub made : IsGenerated o p
    pub listed : find_project o.0.name file ≡ some p
    pub owns : Owns used p

  abbrev pub Settled : (file : List Project) → Used → Outcome → Type 0
  Settled file used o = (p : Project) × IsSettled file used o p

  Owns-again :
      (c : Candidate) (p q : Project) (used : Used)
      → p.name ≡ c.name
      → Owns used p
      → Owns used q
      → Owns (used_again d c p used) q
  Owns-again c p q used called o v = elim (Bool-cases (is_empty d.port_command)) [
    | inl y ↦ rw y v
    | inr n ↦ rw n record {
      supervisor = same_owners _ _ c.name used (o.application ∙ called) ∙ v.supervisor;
      application = same_owners _ _ c.name used (o.application ∙ called) ∙ v.application;
      differ = v.differ;
    }
  ]

  module _ (projects : List Project) (w : Web) (cli : Option Cli) (file : List Project) where
    -- The configuration has no project of the name but from the entry's managed file.
    abbrev pub IsFreeName : Candidate → Type 0
    IsFreeName c = other_source (managed_source d) (find_project c.name projects) ≡ none

    first_again :
        (o : Outcome) (p : Project) (used : Used)
        → IsSettled file used o p
        → IsFreeName o.0
        → build d o.0 projects w cli (printed o.0.dir) (find_project o.0.name file) used
          ≡ (o.1, used_again d o.0 p used)
    first_again o p used k free =
        rw (k.listed, k.made.outcome)
          (build-again d o.0 projects w cli (printed o.0.dir) p used k.made.copy k.made.called
            k.owns free)

    pub build_all-again :
        (bs : List Outcome) (used : Used)
        → All (Settled file used) bs
        → All IsFreeName (names_of bs)
        → (build_all projects w cli d printed file (names_of bs) used).0 ≡ bs
    unfolding build_all
    build_all-again [] used h free = refl
    build_all-again ((c, b) ∷ bs) used ((p, k), h) free =
        let first = first_again (c, b) p used k free.0 in
        let rest =
          build_all-again bs (used_again d c p used)
            (All-map (Settled file used) (Settled file (used_again d c p used))
              (λ o (q, j). (
                q,
                record {
                  made = j.made;
                  listed = j.listed;
                  owns = Owns-again c p q used k.made.called k.owns j.owns;
                },
              ))
              bs h)
            free.1 in
        rw first (ap (λ x. (c, b) ∷ x) rest)

  -- The loop that comes first.
  module _ (projects : List Project) (w : Web) (cli : Option Cli) (existing : List Project) where
    abbrev first_run : List Candidate → Used → List Outcome × Used
    first_run cs used = build_all projects w cli d printed existing cs used

    pub names-build_all : (cs : List Candidate) (used : Used) → names_of (first_run cs used).0 ≡ cs
    unfolding build_all
    names-build_all [] used = refl
    names-build_all (c ∷ cs) used = ap (λ x. c ∷ x) (names-build_all cs _)

    IsGenerated-of :
        (c : Candidate) (b : Built) (after : Used) (rest : List Outcome)
        → Registered c.name after b
        → Made d c (printed c.dir) b
        → obstacles_of ((c, b) ∷ rest) ≡ []
        → ((p : Project) × IsGenerated (c, b) p) × (obstacles_of rest ≡ [])
    unfolding obstacles_of
    IsGenerated-of c (generated p) after rest r m h =
        ((p, record { outcome = refl; called = r.0; copy = m }), h)
    IsGenerated-of c (skipped why) after rest r m h = cc h
    IsGenerated-of c (kept p why) after rest r m h = cc h

    pub build_all-IsGenerated :
        (cs : List Candidate) (used : Used)
        → Ready existing cs used
        → obstacles_of (first_run cs used).0 ≡ []
        → All (λ o. (p : Project) × IsGenerated o p) (first_run cs used).0
    unfolding build_all
    build_all-IsGenerated [] used ready h = tt
    build_all-IsGenerated (c ∷ cs) used ready h =
        let next = build d c projects w cli (printed c.dir) (find_project c.name existing) used in
        let made =
          build-Made d c projects w cli (printed c.dir) (find_project c.name existing) used in
        let sound = step-Sound projects w cli d printed existing c cs used ready in
        let r = IsGenerated-of c next.0 next.1 (first_run cs next.1).0 sound.registered made h in
        (
          r.0,
          build_all-IsGenerated cs next.1
              (Ready-next projects w cli d printed existing c cs used ready) r.1,
        )

  listed_behind :
      (p : Project) (name : Bytes) (file : List Project) (used : Used) (bs : List Outcome)
      → p.name ≡ name
      → NoneCalled name (names_of bs)
      → All (Settled file used) bs
      → All (Settled (p ∷ file) used) bs
  unfolding find_project
  listed_behind p name file used [] called n h = tt
  listed_behind p name file used ((c, b) ∷ bs) called n ((q, k), h) =
      let other : equal p.name c.name ≡ false = rw called (other_way c.name name n.0) in
      (
        (q, record { made = k.made; listed = rw other k.listed; owns = k.owns }),
        listed_behind p name file used bs called n.1 h,
      )

  -- What was generated is settled in the list of what was generated.
  pub generated-Settled :
      (bs : List Outcome) (used : Used)
      → All (λ o. (p : Project) × IsGenerated o p) bs
      → All (Owns used) (final_of bs)
      → DistinctNames (names_of bs)
      → All (Settled (final_of bs) used) bs
  unfolding final_of find_project
  generated-Settled [] used g o n = tt
  generated-Settled ((c, skipped why) ∷ bs) used ((p, k), g) o n = cc k.outcome
  generated-Settled ((c, kept q why) ∷ bs) used ((p, k), g) o n = cc k.outcome
  generated-Settled ((c, generated q) ∷ bs) used ((p, k), g) o n =
      let same = generated-eq k.outcome in
      let called : q.name ≡ c.name = ap (λ x. x.name) same ∙ k.called in
      let found : equal q.name c.name ≡ true = rw called (equal_refl c.name) in
      (
        (p, record { made = k; listed = rw (found, same) refl; owns = rw same at o.0 }),
        listed_behind q c.name (final_of bs) used bs called n.0
            (generated-Settled bs used g o.1 n.1),
      )
