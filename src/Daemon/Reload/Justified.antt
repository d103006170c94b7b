-- ===== src/Daemon/Reload/Justified.antt =====
-- internal/daemon/reload.go: why each project is in the table behind a reload.
use mathlib.Core.List.{Memᴰ}
use herd_wake.Prelude.{
  ℕ, ◌+◌, Bool, true, false, List, [], ◌∷◌, Option, none, some, Bytes, equal, equal_iff, ◌≡◌, ◌∙◌,
  refl, sym, ap, ◌≢◌, Bool-cases, inl, inr, some-eq,
}
use herd_wake.Config.Project.{Project}
use herd_wake.Daemon.Listeners.{
  Addr, ProjectState, States, DaemonState, lookup, delete, put, listen_addr, has_binding, attach,
}
use herd_wake.Daemon.Reload.{
  new_state, numbered, commission, take_over, or_failed, add_project, add_all, restored,
  or_restored, change_project, change_all,
}
use herd_wake.Daemon.Reload.Diff.{ReloadError, keeps_route}
use herd_wake.Daemon.Reload.Others.{
  Keyed, lookup-Keyed, lookup-put, lookup-delete, commission-states,
}

-- A record for a project of the list, or for the previous definition of one whose new address the system did
-- not give.
pub data IsReplaced (listens : (attempt : ℕ) → Addr → Bool) (before : States) (ps : List Project)
    (name : Bytes) (st : ProjectState) : Type 0 where
  configured :
      {p : Project}
      → Memᴰ p ps
      → p.name ≡ name
      → st.project ≡ p
      → IsReplaced listens before ps name st
  previous :
      {p : Project} {old : ProjectState} {attempt : ℕ}
      → Memᴰ p ps
      → p.name ≡ name
      → listens attempt (listen_addr p) ≡ false
      → lookup name before ≡ some old
      → st.project ≡ old.project
      → IsReplaced listens before ps name st

lookup-put_same :
    (m name : Bytes) (s st : ProjectState) (sts : States)
    → equal m name ≡ true
    → lookup name (put m s sts) ≡ some st
    → s ≡ st
unfolding lookup
lookup-put_same m name s st sts e h = some-eq (rw e at h)

pub lookup-deleted : (name : Bytes) (sts : States) → lookup name (delete name sts) ≡ none
unfolding lookup delete
lookup-deleted name [] = refl
lookup-deleted name ((m, s) ∷ sts) = elim (Bool-cases (equal m name)) [
  | inl y ↦ rw y (lookup-deleted name sts)
  | inr z ↦ rw (z, lookup, z) (lookup-deleted name sts)
]

-- What stands at a name is as it was, or replaced.
abbrev pub Holds : (P : ProjectState → Type 0) → (name : Bytes) → States → Type 0
Holds P name sts = (st : ProjectState) → lookup name sts ≡ some st → P st

module _ (listens : (attempt : ℕ) → Addr → Bool) (before : States) (keyed : Keyed before)
    (P : Bytes → ProjectState → Type 0) where
  -- A record that was put in the table, at its own name and at others.
  put-Holds :
      (name m : Bytes) (s : ProjectState) (sts : States)
      → (m ≡ name → P name s)
      → (equal m name ≡ false → Holds (P name) name sts)
      → Holds (P name) name (put m s sts)
  put-Holds name m s sts f g = λ st h. elim (Bool-cases (equal m name)) [
    | inl y ↦ rw (sym (lookup-put_same m name s st sts y h)) (f ((equal_iff m name).0 y))
    | inr n ↦ g n st (sym (lookup-put m name s sts n) ∙ h)
  ]

  commission-Holds :
      (name : Bytes) (s : ProjectState) (w d : DaemonState)
      → commission listens s w ≡ some d
      → (s.project.name ≡ name → (st : ProjectState) → st.project ≡ s.project → P name st)
      → (equal s.project.name name ≡ false → Holds (P name) name w.states)
      → Holds (P name) name d.states
  commission-Holds name s w d e f g =
      rw (commission-states listens s w d e)
        (put-Holds name s.project.name _ w.states (λ c. f c _ refl) g)

  or_failed-Holds :
      (name : Bytes) (w : DaemonState) (e : ReloadError) (x : Option DaemonState)
      → Holds (P name) name w.states
      → ((d : DaemonState) → x ≡ some d → Holds (P name) name d.states)
      → Holds (P name) name (or_failed w e x).0.states
  or_failed-Holds name w e none h f = h
  or_failed-Holds name w e (some d) h f = f d refl

  -- Projects that are added.
  pub add_all-Holds :
      (name : Bytes) (ps : List Project) (w : DaemonState)
      → ((p : Project)
          → Memᴰ p ps
          → p.name ≡ name
          → (st : ProjectState) → st.project ≡ p
          → P name st)
      → Holds (P name) name w.states
      → Holds (P name) name (add_all listens ps w).0.states
  unfolding add_all add_project
  add_all-Holds name [] w f h = h
  add_all-Holds name (p ∷ ps) w f h =
      add_all-Holds name ps (add_project listens p w).0 (λ q m. f q (Memᴰ.tail m))
        (or_failed-Holds name (numbered w) _ _ h (λ d e.
          commission-Holds name (new_state p (w.next + 2) w.next) (numbered w) d e
            (f p (Memᴰ.head refl)) (λ n. h)))

  restored-Holds :
      (name m : Bytes) (w : DaemonState) (x : Option DaemonState)
      → (equal m name ≡ false → Holds (P name) name w.states)
      → ((d : DaemonState) → x ≡ some d → Holds (P name) name d.states)
      → Holds (P name) name (restored m w x).0.states
  unfolding restored
  restored-Holds name m w (some d) h f = f d refl
  restored-Holds name m w none h f = λ st e. elim (Bool-cases (equal m name)) [
    | inl y ↦
        let called = (equal_iff m name).0 y in
        cc
          (sym (ap (λ x. lookup name (delete x w.states)) called ∙ lookup-deleted name w.states), e)
    | inr n ↦ h n st (sym (lookup-delete m name w.states n) ∙ e)
  ]

  commission-fails :
      (s : ProjectState) (w : DaemonState)
      → commission listens s w ≡ none
      → listens w.next (listen_addr s.project) ≡ false
  unfolding commission attach
  commission-fails s w h = elim (Bool-cases (has_binding (listen_addr s.project) w.bindings)) [
    | inl y ↦ cc (rw y at h)
    | inr n ↦ elim (Bool-cases (listens w.next (listen_addr s.project))) [
      | inl y ↦ cc (rw (n, y) at h)
      | inr z ↦ z
    ]
  ]

  -- One project that is changed; `old` is its record before.
  module _ (name : Bytes) (p : Project) (old : ProjectState) (called : old.project.name ≡ p.name)
      (f : p.name ≡ name → (st : ProjectState) → st.project ≡ p → P name st)
      (g : p.name ≡ name
        → (attempt : ℕ) → listens attempt (listen_addr p) ≡ false
        → (st : ProjectState) → st.project ≡ old.project
        → P name st) where
    or_restored-Holds :
        (w : DaemonState) (x : Option DaemonState)
        → (equal p.name name ≡ false → Holds (P name) name w.states)
        → (x ≡ none → (attempt : ℕ) × (listens attempt (listen_addr p) ≡ false))
        → ((d : DaemonState) → x ≡ some d → Holds (P name) name d.states)
        → Holds (P name) name (or_restored listens old p w x).0.states
    or_restored-Holds w (some d) h fails k = k d refl
    or_restored-Holds w none h fails k =
        let failed = fails refl in
        restored-Holds name p.name (numbered w) _ h (λ d e.
          commission-Holds name (new_state old.project old.tracker w.next) (numbered w) d e
            (λ same. g (sym called ∙ same) failed.0 failed.1) (λ n. h (rw (sym called) n)))

    change_project-Holds :
        (w : DaemonState)
        → (equal p.name name ≡ false → Holds (P name) name w.states)
        → Holds (P name) name (change_project listens (some old) p w).0.states
    unfolding change_project take_over
    change_project-Holds w h = elim (Bool-cases (keeps_route old p)) [
      | inl y ↦ rw y (put-Holds name p.name _ w.states (λ c. f c _ refl) h)
      | inr z ↦ rw z (
          or_restored-Holds (numbered w) _ h
            (λ e. (_, commission-fails (new_state p old.tracker w.next) (numbered w) e))
            (λ d e. commission-Holds name (new_state p old.tracker w.next) (numbered w) d e f h))
    ]

  -- The projects that are changed: each has a record before.
  module _ (name : Bytes) (all : List Project)
      (f : (p : Project)
        → Memᴰ p all
        → p.name ≡ name
        → (st : ProjectState) → st.project ≡ p
        → P name st)
      (g : (p : Project) (old : ProjectState)
        → Memᴰ p all
        → p.name ≡ name
        → lookup p.name before ≡ some old
        → (attempt : ℕ) → listens attempt (listen_addr p) ≡ false
        → (st : ProjectState) → st.project ≡ old.project
        → P name st) where
    change_next-Holds :
        (p : Project) (x : Option ProjectState) (w : DaemonState)
        → Memᴰ p all
        → lookup p.name before ≡ x
        → x ≢ none
        → (equal p.name name ≡ false → Holds (P name) name w.states)
        → Holds (P name) name (change_project listens x p w).0.states
    change_next-Holds p none w m e n h = absurd (n refl)
    change_next-Holds p (some old) w m e n h =
        change_project-Holds name p old (lookup-Keyed p.name before old keyed e) (f p m)
          (λ c. g p old m c e) w h

    pub change_all-Holds :
        (ps : List Project) (w : DaemonState)
        → ((p : Project) → Memᴰ p ps → Memᴰ p all × (lookup p.name before ≢ none))
        → Holds (P name) name w.states
        → Holds (P name) name (change_all listens before ps w).0.states
    unfolding change_all
    change_all-Holds [] w k h = h
    change_all-Holds (p ∷ ps) w k h =
        let here = k p (Memᴰ.head refl) in
        change_all-Holds ps _ (λ q m. k q (Memᴰ.tail m))
          (change_next-Holds p (lookup p.name before) w here.0 refl here.1 (λ n. h))

    -- At the name of one of them, whatever stood there.
    pub change_all-replaced :
        (ps : List Project) (w : DaemonState) (p : Project)
        → ((q : Project) → Memᴰ q ps → Memᴰ q all × (lookup q.name before ≢ none))
        → Memᴰ p ps
        → equal p.name name ≡ true
        → Holds (P name) name (change_all listens before ps w).0.states
    unfolding change_all
    change_all-replaced [] w p k m c = elim m [ ]
    change_all-replaced (q ∷ ps) w p k (Memᴰ.head e) c =
        let here = k q (Memᴰ.head refl) in
        change_all-Holds ps _ (λ r m. k r (Memᴰ.tail m))
          (change_next-Holds q (lookup q.name before) w here.0 refl here.1 (λ n. cc (e, n, c)))
    change_all-replaced (q ∷ ps) w p k (Memᴰ.tail m) c =
        change_all-replaced ps _ p (λ r j. k r (Memᴰ.tail j)) m c
