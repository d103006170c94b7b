-- ===== src/Daemon/Wildcard/Apart.antt =====
-- internal/daemon/wildcard.go: no two servers share a port.
use herd_wake.Prelude.{
  false, List, [], ◌∷◌, Option, none, some, All, Bytes, equal, ◌≡◌, refl, sym, ap, ◌∙◌, Bool-cases,
  Option-cases, inl, inr, some-eq,
}
use herd_wake.Prelude.Int.{ℤ}
use herd_wake.Config.Project.{Project}
use herd_wake.Config.Hostname.{Platform, equal_int}
use herd_wake.Config.Discovery.{Discovery, supervisor_port}
use herd_wake.Daemon.Wildcard.Prepared.{Prepared, prepare-Prepared}
use herd_wake.Daemon.Wildcard.{
  Live, EntryState, Table, PortOwner, state_owner, entry_owner, port_owner, refused, Settled,
  settled, find_state, find_entry, on_entry, join_entry, leave_entry, register, drop_state,
  drop_dynamic, first_owner, place, then_register, table_behind, Event, resolves, drops, perform,
  perform_all, prepare, materialise,
}

-- One server's application port is neither port of the other project, nor is the other's its
-- supervisor port.
pub record Clear (p q : Project) : Type 0 where
  pub app_sup : equal_int p.application_port q.supervisor_port ≡ false
  pub app_app : equal_int p.application_port q.application_port ≡ false
  pub sup_app : equal_int p.supervisor_port q.application_port ≡ false

abbrev pub Unlistened : List EntryState → Project → Type 0
Unlistened es p = All (λ e. equal_int (supervisor_port e.entry) p.application_port ≡ false) es

-- No application port is another port of a project, nor the port of a wildcard entry.
abbrev pub PortsApart : List EntryState → List Live → Type 0
PortsApart es [] = Unit
PortsApart es (s ∷ ss) =
    All (λ r. Clear s.project r.project) ss × Unlistened es s.project × PortsApart es ss

record Unowned (port : ℤ) (s : Live) : Type 0 where
  sup : equal_int port s.project.supervisor_port ≡ false
  app : equal_int port s.project.application_port ≡ false

-- What it means for `portOwner` to find nobody, where no project has the label's name.
state_owner-Unowned :
    (port : ℤ) (label : Bytes) (ss : List Live)
    → find_state label ss ≡ none
    → state_owner port label ss ≡ none
    → All (Unowned port) ss
unfolding find_state state_owner
state_owner-Unowned port label [] f h = tt
state_owner-Unowned port label (s ∷ ss) f h = elim (Bool-cases (equal s.project.name label)) [
  | inl same ↦ cc (rw same at f)
  | inr other ↦ elim (Bool-cases (equal_int port s.project.supervisor_port)) [
    | inl y ↦ cc (rw (other, y) at h)
    | inr sup ↦ elim (Bool-cases (equal_int port s.project.application_port)) [
      | inl y ↦ cc (rw (other, sup, y) at h)
      | inr app ↦ (
        record { sup = sup; app = app },
        state_owner-Unowned port label ss (rw other at f) (rw (other, sup, app) at h),
      )
    ]
  ]
]

entry_owner-none :
    (port : ℤ) (es : List EntryState)
    → entry_owner port es ≡ none
    → All (λ e. equal_int (supervisor_port e.entry) port ≡ false) es
unfolding entry_owner
entry_owner-none port [] h = tt
entry_owner-none port (e ∷ es) h = elim (Bool-cases (equal_int (supervisor_port e.entry) port)) [
  | inl y ↦ cc (rw y at h)
  | inr n ↦ (n, entry_owner-none port es (rw n at h))
]

found_entry :
    (name : Bytes) (e : EntryState) (es : List EntryState) (p : Project)
    → find_entry name es ≡ some e
    → Unlistened es p
    → equal_int (supervisor_port e.entry) p.application_port ≡ false
unfolding find_entry
found_entry name e [] p f l = cc f
found_entry name e (x ∷ es) p f (n, l) = elim (Bool-cases (equal name x.entry.name)) [
  | inl y ↦ let same : some x ≡ some e = rw y at f in rw (sym (some-eq same)) n
  | inr z ↦ found_entry name e es p (rw z at f) l
]

-- What registers beside projects whose ports are apart, with a port that nobody has.
fresh_project-Clear :
    (port : ℤ) (p : Project) (ss : List Live) (es : List EntryState) (e : EntryState)
    → p.application_port ≡ port
    → p.supervisor_port ≡ supervisor_port e.entry
    → (name : Bytes) → find_entry name es ≡ some e
    → All (Unowned port) ss
    → PortsApart es ss
    → All (λ r. Clear p r.project) ss
fresh_project-Clear port p [] es e a s name f u h = tt
fresh_project-Clear port p (r ∷ ss) es e a s name f (o, u) (c, l, h) = (
  record {
    app_sup = rw a o.sup;
    app_app = rw a o.app;
    sup_app = rw s (found_entry name e es r.project f l);
  },
  fresh_project-Clear port p ss es e a s name f u h,
)

module _ (name : Bytes) (change : EntryState → EntryState)
    (keeps : (e : EntryState) → (change e).entry ≡ e.entry) where
  on_entry-Unlistened :
      (es : List EntryState) (p : Project)
      → Unlistened es p
      → Unlistened (on_entry name change es) p
  unfolding on_entry
  on_entry-Unlistened [] p h = tt
  on_entry-Unlistened (e ∷ es) p (n, h) = elim (Bool-cases (equal name e.entry.name)) [
    | inl y ↦ rw y (rw (keeps e) n, h)
    | inr z ↦ rw z (n, on_entry-Unlistened es p h)
  ]

  on_entry-PortsApart :
      (es : List EntryState) (ss : List Live)
      → PortsApart es ss
      → PortsApart (on_entry name change es) ss
  on_entry-PortsApart es [] h = tt
  on_entry-PortsApart es (s ∷ ss) (c, l, h) =
      (c, on_entry-Unlistened es s.project l, on_entry-PortsApart es ss h)

drop_state-All :
    (name : Bytes) (P : Live → Type 0) (ss : List Live) → All P ss → All P (drop_state name ss)
unfolding drop_state
drop_state-All name P [] h = tt
drop_state-All name P (s ∷ ss) (p, h) = elim (Bool-cases (equal s.project.name name)) [
  | inl y ↦ rw y (drop_state-All name P ss h)
  | inr z ↦ rw z (p, drop_state-All name P ss h)
]

drop_state-PortsApart :
    (name : Bytes) (es : List EntryState) (ss : List Live)
    → PortsApart es ss
    → PortsApart es (drop_state name ss)
unfolding drop_state
drop_state-PortsApart name es [] h = tt
drop_state-PortsApart name es (s ∷ ss) (c, l, h) = elim (Bool-cases (equal s.project.name name)) [
  | inl y ↦ rw y (drop_state-PortsApart name es ss h)
  | inr z ↦ rw z (drop_state-All name _ ss c, l, drop_state-PortsApart name es ss h)
]

port_owner-none :
    (port : ℤ) (label : Bytes) (t : Table)
    → port_owner port label t ≡ none
    → (state_owner port label t.states ≡ none) × (entry_owner port t.entries ≡ none)
unfolding port_owner
port_owner-none port label t h = first_none (state_owner port label t.states) h
  where
    first_none :
        (x : Option PortOwner)
        → first_owner x (entry_owner port t.entries) ≡ none
        → (x ≡ none) × (entry_owner port t.entries ≡ none)
    first_none none e = (refl, e)
    first_none (some owner) e = cc e

place-PortsApart :
    (d : Discovery) (label : Bytes) (t : Table) (p : Project) (name : Bytes) (e : EntryState)
    → find_entry name t.entries ≡ some e
    → e.entry ≡ d
    → Prepared d label t p
    → PortsApart t.entries t.states
    → (x : Option Live)
    → PortsApart (table_behind t (place d p t x)).entries (table_behind t (place d p t x)).states
unfolding place join_entry
place-PortsApart d label t p name e f same k h (some other) = h
place-PortsApart d label t p name e f same k h none =
    let owners = port_owner-none p.application_port label t k.free in
    let clear =
      fresh_project-Clear p.application_port p t.states t.entries e refl
        (k.shared ∙ ap supervisor_port (sym same)) name f
        (state_owner-Unowned p.application_port label t.states k.absent owners.0) h in
    (
      clear,
      on_entry-Unlistened d.name (join_entry p.host p.name) (λ e. refl) t.entries p
          (entry_owner-none p.application_port t.entries owners.1),
      on_entry-PortsApart d.name (join_entry p.host p.name) (λ e. refl) t.entries t.states h,
    )

module _ (o : Platform) where
  then_register-PortsApart :
      (d : Discovery) (label dir : Bytes) (rules : Option Bytes) (printed : Option ℤ) (t : Table)
      (name : Bytes) (e : EntryState)
      → find_entry name t.entries ≡ some e
      → e.entry ≡ d
      → PortsApart t.entries t.states
      → (x : Settled Project) → prepare o d label dir rules printed t ≡ x
      → PortsApart
          (table_behind t (then_register o d x t)).entries
          (table_behind t (then_register o d x t)).states
  unfolding then_register register
  then_register-PortsApart d label dir rules printed t name e f same h (refused why) x = h
  then_register-PortsApart d label dir rules printed t name e f same h (settled p) x =
      place-PortsApart d label t p name e f same
        (prepare-Prepared o d label dir t p rules printed x) h (find_state p.name t.states)

  perform-PortsApart :
      (v : Event) (t : Table)
      → PortsApart t.entries t.states
      → PortsApart (perform o v t).entries (perform o v t).states
  unfolding perform materialise drop_dynamic leave_entry
  perform-PortsApart (resolves entry label dir rules printed) t h =
      elim (Option-cases (find_entry entry t.entries)) [
        | inl none_there ↦ rw (none_there, perform) h
        | inr (e, there) ↦
            rw (there, perform)
              (then_register-PortsApart e.entry label dir rules printed t entry e there refl h
                (prepare o e.entry label dir rules printed t) refl)
      ]
  perform-PortsApart (drops name host entry) t h =
      on_entry-PortsApart entry (leave_entry host) (λ e. refl) t.entries (drop_state name t.states)
        (drop_state-PortsApart name t.entries t.states h)

  -- As long as no two labels are resolved at the same time, the table keeps this: no application port
  -- is the application port or the supervisor port of another project, nor the port of a wildcard
  -- entry, whatever port_command prints and whatever labels are resolved and dropped.
  pub perform_all-PortsApart :
      (events : List Event) (t : Table)
      → PortsApart t.entries t.states
      → PortsApart (perform_all o events t).entries (perform_all o events t).states
  unfolding perform_all
  perform_all-PortsApart [] t h = h
  perform_all-PortsApart (v ∷ vs) t h =
      perform_all-PortsApart vs (perform o v t) (perform-PortsApart v t h)
