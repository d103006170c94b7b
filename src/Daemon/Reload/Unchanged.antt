-- ===== src/Daemon/Reload/Unchanged.antt =====
-- internal/daemon/reload.go: the projects that a reload leaves alone.
use herd_wake.Prelude.{
  ℕ, Bool, true, false, ◌&&◌, not, List, [], ◌∷◌, none, some, Bytes, equal, equal_iff, ◌≡◌, ◌∙◌,
  refl, ap, Bool-cases, inl, inr, All, All-append,
}
use herd_wake.Config.Project.{Project}
use herd_wake.Config.Equivalent.{equivalent}
use herd_wake.Discovery.Build.{find_project}
use herd_wake.Daemon.Listeners.{Addr, ProjectState, EntryRecord, States, DaemonState, lookup}
use herd_wake.Daemon.Reload.{delete_all, tear_down, add_all, change_all, reload}
use herd_wake.Daemon.Reload.Diff.{
  Loaded, Standing, is_new, is_same, is_other, is_dynamic, standing, same_standing, in_standing,
  is_absent, removed_from, is_entry, dynamic_of, dynamic_of_all, gone_entries, new_entries,
}
use herd_wake.Daemon.Reload.Others.{
  Keyed, lookup-delete_all, retire_all-states, retire_changed-states, unbind_all-states,
  add_all-others, change_all-others, bind_all-states,
}

-- The table has one record of the name, that of a static project, and the configuration has the name,
-- for an equivalent project.
pub record IsUnchanged (c : Loaded) (sts : States) (name : Bytes) (st : ProjectState) : Type 0 where
  pub listed : lookup name sts ≡ some st
  pub only : All (λ (x : Bytes × ProjectState). equal x.0 name ≡ true → x.1 ≡ st) sts
  pub static : st.entry ≡ none
  pub wanted : is_absent (find_project name c.projects) ≡ false
  pub same :
      All (λ (p : Project). equal p.name name ≡ true → equivalent st.project p ≡ true) c.projects

-- No project has the name.
abbrev NoneNamed : Bytes → List Project → Type 0
NoneNamed name = All (λ (p : Project). equal p.name name ≡ false)

abbrev NoRecord : Bytes → List ProjectState → Type 0
NoRecord name = All (λ (r : ProjectState). equal r.project.name name ≡ false)

module _ (c : Loaded) (name : Bytes) (st : ProjectState) where
  standing-static :
      (p : Project)
      → st.entry ≡ none
      → equivalent st.project p ≡ true
      → standing (some st) p ≡ is_same
  standing-static p e h = simp (e, h, is_dynamic)

  in_standing-others :
      (k : Standing) (sts : States) (ps : List Project)
      → same_standing k is_same ≡ false
      → lookup name sts ≡ some st
      → st.entry ≡ none
      → All (λ (p : Project). equal p.name name ≡ true → equivalent st.project p ≡ true) ps
      → NoneNamed name (in_standing k sts ps)
  unfolding in_standing
  in_standing-others k sts [] d l e h = tt
  in_standing-others k sts (p ∷ ps) d l e h = elim (Bool-cases (equal p.name name)) [
    | inl y ↦
        let called = (equal_iff p.name name).0 y in
        let found : lookup p.name sts ≡ some st = ap (λ x. lookup x sts) called ∙ l in
        rw (found, standing-static p e (h.0 y), d) (in_standing-others k sts ps d l e h.1)
    | inr n ↦ elim (Bool-cases (same_standing k (standing (lookup p.name sts) p))) [
      | inl y ↦ rw y ((n, in_standing-others k sts ps d l e h.1))
      | inr z ↦ rw z (in_standing-others k sts ps d l e h.1)
    ]
  ]

  removed_from-others :
      (sts : States)
      → Keyed sts
      → is_absent (find_project name c.projects) ≡ false
      → NoRecord name (removed_from c sts)
  unfolding removed_from
  removed_from-others [] k a = tt
  removed_from-others ((m, s) ∷ sts) k a =
      elim (Bool-cases (is_absent (find_project m c.projects) && not (is_dynamic s))) [
        | inr z ↦ rw z (removed_from-others sts k.1 a)
        | inl y ↦ elim (Bool-cases (equal m name)) [
          | inl e ↦
              let called = (equal_iff m name).0 e in
              let here : is_absent (find_project m c.projects) ≡ false = rw called a in
              absurd (cc (rw here at y))
          | inr n ↦ rw y ((rw k.0 n, removed_from-others sts k.1 a))
        ]
      ]

  dynamic_of-others :
      (entry : Bytes) (changed : List Project) (sts : States)
      → Keyed sts
      → st.entry ≡ none
      → All (λ (x : Bytes × ProjectState). equal x.0 name ≡ true → x.1 ≡ st) sts
      → NoRecord name (dynamic_of entry changed sts)
  unfolding dynamic_of
  dynamic_of-others entry changed [] k e o = tt
  dynamic_of-others entry changed ((m, s) ∷ sts) k e o = elim (Bool-cases (equal m name)) [
    | inl y ↦
        let none_of : s.entry ≡ none = ap (λ x. x.entry) (o.0 y) ∙ e in
        rw none_of (dynamic_of-others entry changed sts k.1 e o.1)
    | inr n ↦ elim (Bool-cases (is_entry entry s.entry && is_absent (find_project m changed))) [
      | inl y ↦ rw y ((rw k.0 n, dynamic_of-others entry changed sts k.1 e o.1))
      | inr z ↦ rw z (dynamic_of-others entry changed sts k.1 e o.1)
    ]
  ]

  dynamic_of_all-others :
      (rs : List EntryRecord) (changed : List Project) (sts : States)
      → Keyed sts
      → st.entry ≡ none
      → All (λ (x : Bytes × ProjectState). equal x.0 name ≡ true → x.1 ≡ st) sts
      → NoRecord name (dynamic_of_all rs changed sts)
  unfolding dynamic_of_all
  dynamic_of_all-others [] changed sts k e o = tt
  dynamic_of_all-others (r ∷ rs) changed sts k e o =
      All-append (λ (x : ProjectState). equal x.project.name name ≡ false) _ _
        (dynamic_of-others r.definition.name changed sts k e o)
        (dynamic_of_all-others rs changed sts k e o)

  tear_down-lookup :
      (w : DaemonState)
      → Keyed w.states
      → IsUnchanged c w.states name st
      → lookup name (tear_down c w).states ≡ some st
  unfolding tear_down
  tear_down-lookup w k u =
      let changed = in_standing is_other w.states c.projects in
      let removed = removed_from c w.states in
      let gone = gone_entries c w.entries in
      let dropped = dynamic_of_all gone changed w.states in
      ap (lookup name) (
        unbind_all-states gone _
        ∙ (retire_all-states dropped _
            ∙ (retire_changed-states w.states changed _ ∙ retire_all-states removed _)))
      ∙ (lookup-delete_all name dropped (delete_all removed w.states)
            (dynamic_of_all-others gone changed w.states k u.static u.only)
          ∙ (lookup-delete_all name removed w.states (removed_from-others w.states k u.wanted)
              ∙ u.listed))

  -- A static project that is in the table and, equivalent, in the configuration has the same record behind
  -- a reload, with its supervisor, its tracker, its switch and its address, whatever else changes and whatever
  -- addresses the system gives.
  pub reload-unchanged :
      (listens : (attempt : ℕ) → Addr → Bool) (w : DaemonState)
      → Keyed w.states
      → IsUnchanged c w.states name st
      → lookup name (reload listens c w).0.states ≡ some st
  unfolding reload
  reload-unchanged listens w k u =
      let added = in_standing-others is_new w.states c.projects refl u.listed u.static u.same in
      let changed = in_standing-others is_other w.states c.projects refl u.listed u.static u.same in
      let a = (add_all listens (in_standing is_new w.states c.projects) (tear_down c w)).0 in
      let b = (change_all listens w.states (in_standing is_other w.states c.projects) a).0 in
      ap (lookup name) (bind_all-states listens (new_entries w.entries c.discovery) b)
      ∙ (change_all-others listens name w.states (in_standing is_other w.states c.projects) a k
            changed
          ∙ (add_all-others listens name (in_standing is_new w.states c.projects) (tear_down c w)
                added
              ∙ tear_down-lookup w k u))
