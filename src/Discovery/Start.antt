-- ===== src/Discovery/Start.antt =====
-- internal/discovery/discovery.go: the ports that `Sync` starts with.
use mathlib.Core.List.{Memᴰ}
use herd_wake.Prelude.{
  true, false, List, [], ◌∷◌, Option, none, some, Bytes, equal_iff, is_empty, ◌≡◌, ◌≢◌, refl, sym,
  ◌∙◌, Bool-cases, inl, inr, All, All-map,
}
use herd_wake.Prelude.Int.{ℤ}
use herd_wake.Config.Project.{Project}
use herd_wake.Config.Hostname.{equal_int}
use herd_wake.Config.Ports.{equal_int_lem}
use herd_wake.Config.Discovery.{Discovery, is_wildcard, supervisor_port, dynamic_source}
use herd_wake.Discovery.Scan.{Candidate}
use herd_wake.Discovery.Build.{Used, owner_of, find_project}
use herd_wake.Discovery.Sync.{used_by_projects, used_by_entries}
use herd_wake.Discovery.Owned.{find_project-Mem, Owns, owner_of-given, owner_of-kept}
use herd_wake.Discovery.BuildOwned.{Held}
use herd_wake.Discovery.Registry.{DistinctNames, Ready, NoSharedPort, PortsApart}

owner_of-other :
    (port q : ℤ) (name : Bytes) (used : Used)
    → port ≢ q
    → owner_of q ((port, name) ∷ used) ≡ owner_of q used
unfolding owner_of
owner_of-other port q name used n = elim (Bool-cases (equal_int port q)) [
  | inl y ↦ absurd (n (equal_int_lem port q y))
  | inr z ↦ rw z refl
]

-- A port that none of the projects has.
abbrev Untouched : ℤ → List Project → Type 0
Untouched q = All (λ (p : Project). (p.supervisor_port ≢ q) × (p.application_port ≢ q))

owner_of-used_by_projects :
    (q : ℤ) (ps : List Project) (used : Used)
    → Untouched q ps
    → owner_of q (used_by_projects ps used) ≡ owner_of q used
unfolding used_by_projects
owner_of-used_by_projects q [] used h = refl
owner_of-used_by_projects q (p ∷ ps) used h =
    owner_of-used_by_projects q ps _ h.1
    ∙ (owner_of-other p.application_port q p.name _ h.0.1
        ∙ owner_of-other p.supervisor_port q p.name used h.0.0)

-- No wildcard entry has the port.
abbrev pub NoEntryPort : ℤ → List Discovery → Type 0
NoEntryPort q = All (λ (d : Discovery). is_wildcard d ≡ true → supervisor_port d ≢ q)

owner_of-used_by_entries :
    (q : ℤ) (ds : List Discovery) (used : Used)
    → NoEntryPort q ds
    → owner_of q (used_by_entries ds used) ≡ owner_of q used
unfolding used_by_entries
owner_of-used_by_entries q [] used h = refl
owner_of-used_by_entries q (d ∷ ds) used h = elim (Bool-cases (is_wildcard d)) [
  | inl y ↦ rw y (
      owner_of-used_by_entries q ds _ h.1
      ∙ owner_of-other (supervisor_port d) q (dynamic_source d) used (h.0 y))
  | inr n ↦ rw n (owner_of-used_by_entries q ds used h.1)
]

-- The ports of a configuration: no two projects share one, the two of a project differ, and none is that of a
-- wildcard entry.
pub record PortsDistinct (ps : List Project) (ds : List Discovery) : Type 0 where
  pub apart : PortsApart ps
  pub differ : All (λ (p : Project). equal_int p.application_port p.supervisor_port ≡ false) ps
  pub no_entry :
      All (λ (p : Project). NoEntryPort p.supervisor_port ds × NoEntryPort p.application_port ds) ps

used_by_projects-Owns :
    (ps : List Project) (used : Used) (p : Project)
    → Memᴰ p ps
    → PortsApart ps
    → All (λ (p : Project). equal_int p.application_port p.supervisor_port ≡ false) ps
    → Owns (used_by_projects ps used) p
unfolding used_by_projects
used_by_projects-Owns [] used p m a d = elim m [ ]
used_by_projects-Owns (q ∷ ps) used p (Memᴰ.tail m) a d = used_by_projects-Owns ps _ p m a.1 d.1
used_by_projects-Owns (q ∷ ps) used p (Memᴰ.head e) a d =
    let given = (q.application_port, q.name) ∷ (q.supervisor_port, q.name) ∷ used in
    let sup =
      All-map (NoSharedPort q)
        (λ (r : Project).
          (r.supervisor_port ≢ q.supervisor_port) × (r.application_port ≢ q.supervisor_port))
        (λ r n. ((λ x. n.sup_sup (sym x)), (λ x. n.sup_app (sym x)))) ps a.0 in
    let app =
      All-map (NoSharedPort q)
        (λ (r : Project).
          (r.supervisor_port ≢ q.application_port) × (r.application_port ≢ q.application_port))
        (λ r n. ((λ x. n.app_sup (sym x)), (λ x. n.app_app (sym x)))) ps a.0 in
    let mine : Owns (used_by_projects ps given) q = record {
      supervisor =
          owner_of-used_by_projects q.supervisor_port ps given sup
          ∙ owner_of-kept q.application_port q.supervisor_port q.name _
              (owner_of-given q.supervisor_port q.name used);
      application =
          owner_of-used_by_projects q.application_port ps given app
          ∙ owner_of-given q.application_port q.name _;
      differ = d.0;
    } in
    rw e mine

-- Each project of such a configuration has its ports when a sync starts.
pub start-Owns :
    (ps : List Project) (ds : List Discovery) (p : Project)
    → PortsDistinct ps ds
    → Memᴰ p ps
    → Owns (used_by_entries ds (used_by_projects ps [])) p
start-Owns ps ds p h m =
    let o = used_by_projects-Owns ps [] p m h.apart h.differ in
    let free = All-Mem ps p h.no_entry m in
    record {
      supervisor = owner_of-used_by_entries p.supervisor_port ds _ free.0 ∙ o.supervisor;
      application = owner_of-used_by_entries p.application_port ds _ free.1 ∙ o.application;
      differ = o.differ;
    }
  where
    All-Mem :
        (qs : List Project) (q : Project)
        → All
            (λ (p : Project). NoEntryPort p.supervisor_port ds × NoEntryPort p.application_port ds)
            qs
        → Memᴰ q qs
        → NoEntryPort q.supervisor_port ds × NoEntryPort q.application_port ds
    All-Mem [] q h m = elim m [ ]
    All-Mem (r ∷ qs) q h (Memᴰ.head e) = rw e h.0
    All-Mem (r ∷ qs) q h (Memᴰ.tail m) = All-Mem qs q h.1 m

module _ (ps : List Project) (ds : List Discovery) (existing : List Project) where
  -- What the loop over the candidates needs holds when a sync starts, where the projects of the managed file are
  -- projects of the configuration.
  pub start-Ready :
      (cs : List Candidate)
      → PortsDistinct ps ds
      → ((p : Project) → Memᴰ p existing → Memᴰ p ps)
      → All (λ (c : Candidate). is_empty c.name ≡ false) cs
      → DistinctNames cs
      → Ready existing cs (used_by_entries ds (used_by_projects ps []))
  start-Ready cs h sub named distinct = record {
    named = named;
    distinct = distinct;
    held = held_by cs;
  }
    where
      held_of :
          (name : Bytes) (x : Option Project)
          → find_project name existing ≡ x
          → Held name (used_by_entries ds (used_by_projects ps [])) x
      held_of name none e = tt
      held_of name (some p) e =
          let found = find_project-Mem name existing p e in
          ((equal_iff p.name name).0 found.1, start-Owns ps ds p h (sub p found.0))

      held_by :
          (rest : List Candidate)
          → All
              (λ (c : Candidate).
                Held c.name
                  (used_by_entries ds (used_by_projects ps []))
                  (find_project c.name existing))
              rest
      held_by [] = tt
      held_by (c ∷ rest) = (held_of c.name (find_project c.name existing) refl, held_by rest)
