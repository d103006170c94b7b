-- ===== src/Daemon/Reload/Others.antt =====
-- internal/daemon/reload.go: what the steps of a reload leave of the projects of other names.
use herd_wake.Prelude.{
  ℕ, ◌+◌, Bool, true, false, List, [], ◌∷◌, Option, none, some, Bytes, equal, equal_iff, ◌≡◌, ◌∙◌,
  refl, sym, ap, Bool-cases, inl, inr, some-eq, All,
}
use herd_wake.Config.Project.{Project}
use herd_wake.Config.Discovery.{Discovery}
use herd_wake.Daemon.Listeners.{
  Addr, ProjectState, EntryRecord, States, DaemonState, lookup, delete, put, listen_addr, attach,
  bind_entry, leave, detach, retire, unbind_entry, has_binding, entry_addr,
}
use herd_wake.Daemon.Reload.{
  delete_all, retire_all, retire_old, retire_changed, unbind_all, new_state, numbered, commission,
  take_over, or_failed, add_project, add_all, restored, or_restored, change_project, change_all,
  bind_all,
}
use herd_wake.Daemon.Reload.Diff.{ReloadError, keeps_route}

-- Each record stands under the name of its project.
abbrev pub Keyed : States → Type 0
Keyed = All (λ (x : Bytes × ProjectState). x.1.project.name ≡ x.0)

pub lookup-Keyed :
    (name : Bytes) (sts : States) (st : ProjectState)
    → Keyed sts
    → lookup name sts ≡ some st
    → st.project.name ≡ name
unfolding lookup
lookup-Keyed name [] st k h = cc h
lookup-Keyed name ((m, s) ∷ sts) st k h = elim (Bool-cases (equal m name)) [
  | inl y ↦
      let found : some s ≡ some st = rw y at h in
      let same = some-eq found in rw⁻¹ same (k.0 ∙ (equal_iff m name).0 y)
  | inr n ↦ lookup-Keyed name sts st k.1 (rw n at h)
]

pub lookup-delete :
    (m name : Bytes) (sts : States)
    → equal m name ≡ false
    → lookup name (delete m sts) ≡ lookup name sts
unfolding lookup delete
lookup-delete m name [] n = refl
lookup-delete m name ((k, s) ∷ sts) n = elim (Bool-cases (equal k m)) [
  | inl y ↦
      let same = (equal_iff k m).0 y in
      let other : equal k name ≡ false = rw same n in rw (y, other) (lookup-delete m name sts n)
  | inr z ↦ elim (Bool-cases (equal k name)) [
    | inl y ↦ rw (z, y) refl
    | inr x ↦ rw (z, x) (lookup-delete m name sts n)
  ]
]

pub lookup-put :
    (m name : Bytes) (st : ProjectState) (sts : States)
    → equal m name ≡ false
    → lookup name (put m st sts) ≡ lookup name sts
unfolding lookup
lookup-put m name st sts n = rw n (lookup-delete m name sts n)

pub lookup-delete_all :
    (name : Bytes) (rs : List ProjectState) (sts : States)
    → All (λ (r : ProjectState). equal r.project.name name ≡ false) rs
    → lookup name (delete_all rs sts) ≡ lookup name sts
unfolding delete_all
lookup-delete_all name [] sts h = refl
lookup-delete_all name (r ∷ rs) sts h =
    lookup-delete_all name rs (delete r.project.name sts) h.1
    ∙ lookup-delete r.project.name name sts h.0

-- Teardown of listeners leaves the table.
leave-states : (p : Project) (x : Option Addr) (w : DaemonState) → (leave p x w).states ≡ w.states
unfolding leave
leave-states p none w = refl
leave-states p (some a) w = refl

retire-states :
    (st : ProjectState) (keep : Bool) (w : DaemonState) → (retire st keep w).states ≡ w.states
unfolding retire detach
retire-states st true w = refl
retire-states st false w = leave-states st.project st.bind w

pub retire_all-states :
    (rs : List ProjectState) (w : DaemonState) → (retire_all rs w).states ≡ w.states
unfolding retire_all
retire_all-states [] w = refl
retire_all-states (r ∷ rs) w = retire_all-states rs (retire r false w) ∙ retire-states r false w

retire_old-states :
    (x : Option ProjectState) (p : Project) (w : DaemonState) → (retire_old x p w).states ≡ w.states
retire_old-states none p w = refl
retire_old-states (some st) p w = retire-states st (keeps_route st p) w

pub retire_changed-states :
    (current : States) (ps : List Project) (w : DaemonState)
    → (retire_changed current ps w).states ≡ w.states
unfolding retire_changed
retire_changed-states current [] w = refl
retire_changed-states current (p ∷ ps) w =
    retire_changed-states current ps _ ∙ retire_old-states (lookup p.name current) p w

pub unbind_all-states :
    (rs : List EntryRecord) (w : DaemonState) → (unbind_all rs w).states ≡ w.states
unfolding unbind_all unbind_entry
unbind_all-states [] w = refl
unbind_all-states (r ∷ rs) w = unbind_all-states rs (unbind_entry r w)

module _ (listens : (attempt : ℕ) → Addr → Bool) where
  -- Behind a commission the table has the project, on its listener.
  pub commission-states :
      (st : ProjectState) (w d : DaemonState)
      → commission listens st w ≡ some d
      → d.states ≡ put st.project.name (record st { bind = some (listen_addr st.project) }) w.states
  unfolding commission attach
  commission-states st w d h = elim (Bool-cases (has_binding (listen_addr st.project) w.bindings)) [
    | inl y ↦ ap (λ x. x.states) (sym (some-eq (rw y at h)))
    | inr n ↦ elim (Bool-cases (listens w.next (listen_addr st.project))) [
      | inl y ↦ ap (λ x. x.states) (sym (some-eq (rw (n, y) at h)))
      | inr z ↦ cc (rw (n, z) at h)
    ]
  ]

  bind_entry-states :
      (e : EntryRecord) (w d : DaemonState) → bind_entry listens e w ≡ some d → d.states ≡ w.states
  unfolding bind_entry
  bind_entry-states e w d h = elim (Bool-cases (listens w.next (entry_addr e.definition))) [
    | inl y ↦ ap (λ x. x.states) (sym (some-eq (rw y at h)))
    | inr z ↦ cc (rw z at h)
  ]

  or_failed-lookup :
      (name : Bytes) (w : DaemonState) (e : ReloadError) (x : Option DaemonState)
      → ((d : DaemonState) → x ≡ some d → lookup name d.states ≡ lookup name w.states)
      → lookup name (or_failed w e x).0.states ≡ lookup name w.states
  or_failed-lookup name w e none f = refl
  or_failed-lookup name w e (some d) f = f d refl

  commission-lookup :
      (name : Bytes) (st : ProjectState) (w d : DaemonState)
      → equal st.project.name name ≡ false
      → commission listens st w ≡ some d
      → lookup name d.states ≡ lookup name w.states
  commission-lookup name st w d n h =
      ap (lookup name) (commission-states st w d h) ∙ lookup-put st.project.name name _ w.states n

  add_project-others :
      (name : Bytes) (p : Project) (w : DaemonState)
      → equal p.name name ≡ false
      → lookup name (add_project listens p w).0.states ≡ lookup name w.states
  unfolding add_project
  add_project-others name p w n =
      or_failed-lookup name (numbered w) _ _
        (λ d h. commission-lookup name (new_state p (w.next + 2) w.next) (numbered w) d n h)

  pub add_all-others :
      (name : Bytes) (ps : List Project) (w : DaemonState)
      → All (λ (p : Project). equal p.name name ≡ false) ps
      → lookup name (add_all listens ps w).0.states ≡ lookup name w.states
  unfolding add_all
  add_all-others name [] w h = refl
  add_all-others name (p ∷ ps) w h =
      add_all-others name ps (add_project listens p w).0 h.1 ∙ add_project-others name p w h.0

  restored-lookup :
      (name m : Bytes) (w : DaemonState) (x : Option DaemonState)
      → equal m name ≡ false
      → ((d : DaemonState) → x ≡ some d → lookup name d.states ≡ lookup name w.states)
      → lookup name (restored m w x).0.states ≡ lookup name w.states
  unfolding restored
  restored-lookup name m w none n f = lookup-delete m name w.states n
  restored-lookup name m w (some d) n f = f d refl

  or_restored-lookup :
      (name : Bytes) (old : ProjectState) (p : Project) (w : DaemonState) (x : Option DaemonState)
      → equal p.name name ≡ false
      → equal old.project.name name ≡ false
      → ((d : DaemonState) → x ≡ some d → lookup name d.states ≡ lookup name w.states)
      → lookup name (or_restored listens old p w x).0.states ≡ lookup name w.states
  or_restored-lookup name old p w (some d) n o f = f d refl
  or_restored-lookup name old p w none n o f =
      restored-lookup name p.name (numbered w) _ n (λ d h.
        commission-lookup name (new_state old.project old.tracker w.next) (numbered w) d o h)

  change_project-others :
      (name : Bytes) (x : Option ProjectState) (p : Project) (w : DaemonState)
      → ((old : ProjectState) → x ≡ some old → old.project.name ≡ p.name)
      → equal p.name name ≡ false
      → lookup name (change_project listens x p w).0.states ≡ lookup name w.states
  unfolding change_project take_over
  change_project-others name none p w k n = refl
  change_project-others name (some old) p w k n = elim (Bool-cases (keeps_route old p)) [
    | inl y ↦ rw y (lookup-put p.name name _ w.states n)
    | inr z ↦
        let o : equal old.project.name name ≡ false = rw (k old refl) n in
        rw z (
          or_restored-lookup name old p (numbered w) _ n o
            (λ d h. commission-lookup name (new_state p old.tracker w.next) (numbered w) d n h))
  ]

  pub change_all-others :
      (name : Bytes) (current : States) (ps : List Project) (w : DaemonState)
      → Keyed current
      → All (λ (p : Project). equal p.name name ≡ false) ps
      → lookup name (change_all listens current ps w).0.states ≡ lookup name w.states
  unfolding change_all
  change_all-others name current [] w k h = refl
  change_all-others name current (p ∷ ps) w k h =
      change_all-others name current ps _ k h.1
      ∙ change_project-others name (lookup p.name current) p w
          (λ old e. lookup-Keyed p.name current old k e) h.0

  or_failed-states :
      (w : DaemonState) (e : ReloadError) (x : Option DaemonState)
      → ((d : DaemonState) → x ≡ some d → d.states ≡ w.states)
      → (or_failed w e x).0.states ≡ w.states
  or_failed-states w e none f = refl
  or_failed-states w e (some d) f = f d refl

  pub bind_all-states :
      (es : List Discovery) (w : DaemonState) → (bind_all listens es w).0.states ≡ w.states
  unfolding bind_all
  bind_all-states [] w = refl
  bind_all-states (e ∷ es) w =
      bind_all-states es _
      ∙ or_failed-states w _ _
          (λ d h. bind_entry-states (record { definition = e; cap = e.max_running }) w d h)
