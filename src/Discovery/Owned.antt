-- ===== src/Discovery/Owned.antt =====
-- internal/discovery/discovery.go: who owns the ports of a project behind `build`.
use mathlib.Core.List.{Memᴰ}
use herd_wake.Prelude.{
  ℕ, zero, suc, true, false, List, [], ◌∷◌, some, Bytes, equal, is_empty, ◌≡◌, refl, sym, ◌∙◌,
  Bool-cases, inl, inr, ◌⊎◌, some-eq,
}
use herd_wake.Prelude.Int.{ℤ}
use herd_wake.Config.Project.{Project}
use herd_wake.Config.Hostname.{equal_int}
use herd_wake.Config.Defaults.{add_ℕ}
use herd_wake.Config.Ports.{equal_int_lem, equal_int_refl}
use herd_wake.Discovery.Build.{
  find_project, Used, owner_of, forget_port, release, release_all, first_unused, allocate,
}

-- A project has both its ports, and they are two.
pub record Owns (used : Used) (p : Project) : Type 0 where
  pub supervisor : owner_of p.supervisor_port used ≡ p.name
  pub application : owner_of p.application_port used ≡ p.name
  pub differ : equal_int p.application_port p.supervisor_port ≡ false

-- The ports of owners other than `name` stay theirs.
abbrev pub Spares : (name : Bytes) → (used after : Used) → Type 0
Spares name used after =
    (port : ℤ) (other : Bytes)
    → owner_of port used ≡ other
    → is_empty other ≡ false
    → equal other name ≡ false
    → owner_of port after ≡ other

pub Spares-trans :
    (name : Bytes) (a b c : Used) → Spares name a b → Spares name b c → Spares name a c
Spares-trans name a b c f g port other h e n = g port other (f port other h e n) e n

pub Owns-Spares :
    (name : Bytes) (used after : Used) (p : Project)
    → Spares name used after
    → is_empty p.name ≡ false
    → equal p.name name ≡ false
    → Owns used p
    → Owns after p
Owns-Spares name used after p s e n o = record {
  supervisor = s p.supervisor_port p.name o.supervisor e n;
  application = s p.application_port p.name o.application e n;
  differ = o.differ;
}

abbrev pub IsFree : (name : Bytes) → (port : ℤ) → Used → Type 0
IsFree name port used =
    (is_empty (owner_of port used) ≡ true) ⊎ (equal (owner_of port used) name ≡ true)

free_clash :
    (name other : Bytes) (port : ℤ) (used : Used)
    → owner_of port used ≡ other
    → is_empty other ≡ false
    → equal other name ≡ false
    → IsFree name port used
    → ⊥
free_clash name other port used h e n (inl f) = cc (f, e, h)
free_clash name other port used h e n (inr f) = cc (f, n, h)

-- A port that nobody or `name` has may be given to it.
pub given-Spares :
    (name : Bytes) (port : ℤ) (used : Used)
    → IsFree name port used
    → Spares name used ((port, name) ∷ used)
unfolding owner_of
given-Spares name port used free q other h e n = elim (Bool-cases (equal_int port q)) [
  | inr z ↦ rw z h
  | inl y ↦
      let same = equal_int_lem port q y in
      absurd (free_clash name other port used (rw same h) e n free)
]

owner_of-forget_port :
    (port q : ℤ) (used : Used)
    → equal_int port q ≡ false
    → owner_of q (forget_port port used) ≡ owner_of q used
unfolding owner_of forget_port
owner_of-forget_port port q [] z = refl
owner_of-forget_port port q ((r, name) ∷ used) z = elim (Bool-cases (equal_int r port)) [
  | inl y ↦
      let same = equal_int_lem r port y in
      let other : equal_int r q ≡ false = rw same z in
      rw (y, other) (owner_of-forget_port port q used z)
  | inr x ↦ elim (Bool-cases (equal_int r q)) [
    | inl y ↦ rw (x, y) refl
    | inr w ↦ rw (x, w) (owner_of-forget_port port q used z)
  ]
]

pub release-Spares :
    (name : Bytes) (port : ℤ) (used : Used) → Spares name used (release port name used)
unfolding release
release-Spares name port used q other h e n = elim (Bool-cases (equal (owner_of port used) name)) [
  | inr z ↦ rw z h
  | inl y ↦ elim (Bool-cases (equal_int port q)) [
    | inr z ↦ rw y (owner_of-forget_port port q used z ∙ h)
    | inl x ↦
        let same = equal_int_lem port q x in
        absurd (free_clash name other port used (rw same h) e n (inr y))
  ]
]

pub release_all-Spares :
    (name : Bytes) (ports : List ℤ) (used : Used) → Spares name used (release_all ports name used)
unfolding release_all
release_all-Spares name [] used = λ port other h e n. h
release_all-Spares name (port ∷ ports) used =
    Spares-trans name used (release port name used)
      (release_all ports name (release port name used)) (release-Spares name port used)
      (release_all-Spares name ports (release port name used))

pub first_unused-free :
    (left : ℕ) (low : ℤ) (used : Used) (port : ℤ)
    → first_unused left low used ≡ some port
    → is_empty (owner_of port used) ≡ true
unfolding first_unused
first_unused-free zero low used port h = cc h
first_unused-free (suc left) low used port h = elim (Bool-cases (is_empty (owner_of low used))) [
  | inl y ↦ let taken : some low ≡ some port = rw y at h in rw (sym (some-eq taken)) y
  | inr n ↦ first_unused-free left (add_ℕ low 1) used port (rw n at h)
]

pub allocate-free :
    (range : List ℤ) (used : Used) (port : ℤ)
    → allocate range used ≡ some port
    → is_empty (owner_of port used) ≡ true
unfolding allocate
allocate-free [] used port h = cc h
allocate-free (low ∷ []) used port h = cc h
allocate-free (low ∷ high ∷ []) used port h = first_unused-free _ low used port h
allocate-free (low ∷ high ∷ more ∷ rest) used port h = cc h

pub owner_of-given :
    (port : ℤ) (name : Bytes) (used : Used) → owner_of port ((port, name) ∷ used) ≡ name
unfolding owner_of
owner_of-given port name used = rw (equal_int_refl port) refl

-- Another port keeps its owner, and so does the port of `name` itself.
pub owner_of-kept :
    (port q : ℤ) (name : Bytes) (used : Used)
    → owner_of q used ≡ name
    → owner_of q ((port, name) ∷ used) ≡ name
unfolding owner_of
owner_of-kept port q name used h = elim (Bool-cases (equal_int port q)) [
  | inl y ↦ rw y refl
  | inr z ↦ rw z h
]

pub find_project-Mem :
    (name : Bytes) (ps : List Project) (p : Project)
    → find_project name ps ≡ some p
    → Memᴰ p ps × (equal p.name name ≡ true)
unfolding find_project
find_project-Mem name [] p h = cc h
find_project-Mem name (q ∷ ps) p h = elim (Bool-cases (equal q.name name)) [
  | inl y ↦ let same = some-eq (rw y at h) in (Memᴰ.head (sym same), rw (sym same) y)
  | inr n ↦ let r = find_project-Mem name ps p (rw n at h) in (Memᴰ.tail r.0, r.1)
]
