-- ===== src/Discovery/Registry.antt =====
-- internal/discovery/discovery.go: the loop of `syncEntry` over the candidates, and the ports of the
-- projects behind it.
use herd_wake.Prelude.{
  false, List, [], ◌∷◌, Option, none, some, Bytes, equal, equal_iff, equal_refl, Bool-cases, inl,
  inr, is_empty, ◌≡◌, ◌≢◌, sym, ap, All,
}
use herd_wake.Prelude.Int.{ℤ}
use herd_wake.Config.Project.{Project}
use herd_wake.Config.Discovery.{Discovery}
use herd_wake.Herd.{Web}
use herd_wake.Discovery.Scan.{Candidate}
use herd_wake.Discovery.Build.{Used, Cli, Built, build, find_project}
use herd_wake.Discovery.Entry.{build_all}
use herd_wake.Discovery.Owned.{Owns, Owns-Spares}
use herd_wake.Discovery.BuildOwned.{Held, Sound, build-Sound}

-- No candidate has the name.
abbrev pub NoneCalled : Bytes → List Candidate → Type 0
NoneCalled name = All (λ (c : Candidate). equal c.name name ≡ false)

abbrev pub DistinctNames : List Candidate → Type 0
DistinctNames [] = Unit
DistinctNames (c ∷ cs) = NoneCalled c.name cs × DistinctNames cs

-- The candidates have names, no two the same, and each previous registration has its ports.
pub record Ready (existing : List Project) (cs : List Candidate) (used : Used) : Type 0 where
  pub named : All (λ (c : Candidate). is_empty c.name ≡ false) cs
  pub distinct : DistinctNames cs
  pub held : All (λ (c : Candidate). Held c.name used (find_project c.name existing)) cs

-- No port of one is a port of the other.
pub record NoSharedPort (p q : Project) : Type 0 where
  pub sup_sup : p.supervisor_port ≢ q.supervisor_port
  pub sup_app : p.supervisor_port ≢ q.application_port
  pub app_sup : p.application_port ≢ q.supervisor_port
  pub app_app : p.application_port ≢ q.application_port

abbrev pub PortsApart : List Project → Type 0
PortsApart [] = Unit
PortsApart (p ∷ ps) = All (NoSharedPort p) ps × PortsApart ps

names_differ : (a b : Bytes) → equal a b ≡ false → a ≢ b
names_differ a b n e = cc (n, sym (ap (λ x. equal a x) e), equal_refl a)

pub other_way : (a b : Bytes) → equal a b ≡ false → equal b a ≡ false
other_way a b n = elim (Bool-cases (equal b a)) [
  | inr z ↦ z
  | inl y ↦ let same = (equal_iff b a).0 y in absurd (names_differ a b n (sym same))
]

Held-Owns :
    (name : Bytes) (used after : Used) (r : Option Project)
    → ((p : Project) → p.name ≡ name → Owns used p → Owns after p)
    → Held name used r
    → Held name after r
Held-Owns name used after none f h = tt
Held-Owns name used after (some p) f h = (h.0, f p h.0 h.1)

module _ (projects : List Project) (w : Web) (cli : Option Cli) (d : Discovery)
    (printed : (dir : Bytes) → Option ℤ) (existing : List Project) where
  abbrev step : Candidate → Used → Built × Used
  step c used = build d c projects w cli (printed c.dir) (find_project c.name existing) used

  abbrev all_built : List Candidate → Used → List (Candidate × Built) × Used
  all_built cs used = build_all projects w cli d printed existing cs used

  pub step-Sound :
      (c : Candidate) (cs : List Candidate) (used : Used)
      → Ready existing (c ∷ cs) used
      → Sound c.name used (step c used)
  step-Sound c cs used ready =
      build-Sound d c ready.named.0 projects w cli (printed c.dir) (find_project c.name existing)
        used ready.held.0

  -- What others have they still have behind one candidate.
  step-Owns :
      (c : Candidate) (cs : List Candidate) (used : Used) (p : Project)
      → Ready existing (c ∷ cs) used
      → is_empty p.name ≡ false
      → equal p.name c.name ≡ false
      → Owns used p
      → Owns (step c used).1 p
  step-Owns c cs used p ready e n o =
      Owns-Spares c.name used (step c used).1 p (step-Sound c cs used ready).spares e n o

  Held-behind :
      (c : Candidate) (cs rest : List Candidate) (used : Used)
      → Ready existing (c ∷ cs) used
      → All (λ (x : Candidate). is_empty x.name ≡ false) rest
      → NoneCalled c.name rest
      → All (λ (x : Candidate). Held x.name used (find_project x.name existing)) rest
      → All (λ (x : Candidate). Held x.name (step c used).1 (find_project x.name existing)) rest
  Held-behind c cs [] used ready e n h = tt
  Held-behind c cs (x ∷ rest) used ready e n h = (
    Held-Owns x.name used _ (find_project x.name existing)
        (λ p called. step-Owns c cs used p ready (rw called e.0) (rw called n.0)) h.0,
    Held-behind c cs rest used ready e.1 n.1 h.1,
  )

  pub Ready-next :
      (c : Candidate) (cs : List Candidate) (used : Used)
      → Ready existing (c ∷ cs) used
      → Ready existing cs (step c used).1
  Ready-next c cs used ready = record {
    named = ready.named.1;
    distinct = ready.distinct.1;
    held = Held-behind c cs cs used ready ready.named.1 ready.distinct.0 ready.held.1;
  }

  -- A project of another name has its ports behind all candidates too.
  pub build_all-kept :
      (cs : List Candidate) (used : Used) (p : Project)
      → Ready existing cs used
      → is_empty p.name ≡ false
      → NoneCalled p.name cs
      → Owns used p
      → Owns (all_built cs used).1 p
  unfolding build_all
  build_all-kept [] used p ready e n o = o
  build_all-kept (c ∷ cs) used p ready e n o =
      build_all-kept cs (step c used).1 p (Ready-next c cs used ready) e n.1
        (step-Owns c cs used p ready e (other_way _ _ n.0) o)
