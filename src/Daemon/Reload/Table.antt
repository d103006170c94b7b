-- ===== src/Daemon/Reload/Table.antt =====
-- internal/daemon/reload.go: the table behind a reload.
use mathlib.Core.List.{Memᴰ}
use herd_wake.Prelude.{
  ℕ, Bool, true, false, List, Option, none, some, Bytes, equal, equal_iff, ◌≡◌, ◌≢◌, ◌∙◌, refl, sym,
  ap, Bool-cases, inl, inr, some-eq,
}
use herd_wake.Config.Project.{Project}
use herd_wake.Config.Equivalent.{equivalent}
use herd_wake.Discovery.Build.{find_project}
use herd_wake.Discovery.Owned.{find_project-Mem}
use herd_wake.Daemon.Listeners.{EntryRecord, Addr, ProjectState, DaemonState, lookup, listen_addr}
use herd_wake.Daemon.Reload.{delete_all, tear_down, add_all, change_all, reload}
use herd_wake.Daemon.Reload.Diff.{
  is_entry, Loaded, is_new, is_other, is_dynamic, standing, same_standing, in_standing, is_absent,
  removed_from, dynamic_of_all, gone_entries, new_entries,
}
use herd_wake.Daemon.Reload.Others.{
  Keyed, lookup-Keyed, retire_all-states, retire_changed-states, unbind_all-states, bind_all-states,
}
use herd_wake.Daemon.Reload.Justified.{
  IsReplaced, configured, previous, Holds, add_all-Holds, change_all-Holds, change_all-replaced,
}
use herd_wake.Daemon.Reload.Left.{
  in_standing-Mem, in_standing-parts, other-recorded, delete_all-lookup, removed_from-Mem,
  find_project-in_standing, dynamic_of_all-Mem,
}

-- Why a record may be in the table: it was made by the reload, or it was there, and is that of a dynamic
-- project of no entry that is removed or changed, or of a static one that the configuration has an
-- equivalent project for.
pub data IsJustified (listens : (attempt : ℕ) → Addr → Bool) (c : Loaded) (before : DaemonState)
    (name : Bytes) (st : ProjectState) : Type 0 where
  made : IsReplaced listens before.states c.projects name st → IsJustified listens c before name st
  stays_dynamic :
      lookup name before.states ≡ some st
      → is_dynamic st ≡ true
      → ((r : EntryRecord)
          → Memᴰ r (gone_entries c before.entries)
          → is_entry r.definition.name st.entry ≡ false)
      → IsJustified listens c before name st
  stays_static :
      {p : Project}
      → lookup name before.states ≡ some st
      → Memᴰ p c.projects
      → p.name ≡ name
      → equivalent st.project p ≡ true
      → IsJustified listens c before name st

module _ (listens : (attempt : ℕ) → Addr → Bool) (c : Loaded) (w : DaemonState)
    (keyed : Keyed w.states) where
  abbrev changed_projects : List Project
  changed_projects = in_standing is_other w.states c.projects

  abbrev dropped_projects : List ProjectState
  dropped_projects = dynamic_of_all (gone_entries c w.entries) changed_projects w.states

  -- What a reload leaves in the table before it makes records.
  record IsLeft (name : Bytes) (st : ProjectState) : Type 0 where
    listed : lookup name w.states ≡ some st
    not_removed :
        (r : ProjectState) → Memᴰ r (removed_from c w.states) → equal r.project.name name ≡ false
    not_dropped : (r : ProjectState) → Memᴰ r dropped_projects → equal r.project.name name ≡ false

  tear_down-IsLeft :
      (name : Bytes) (st : ProjectState)
      → lookup name (tear_down c w).states ≡ some st
      → IsLeft name st
  unfolding tear_down
  tear_down-IsLeft name st h =
      let removed = removed_from c w.states in
      let gone = gone_entries c w.entries in
      let same = ap (lookup name) (
        unbind_all-states gone _
        ∙ (retire_all-states dropped_projects _
            ∙ (retire_changed-states w.states changed_projects _ ∙ retire_all-states removed _))) in
      let after =
        delete_all-lookup name dropped_projects (delete_all removed w.states) st (sym same ∙ h) in
      let before = delete_all-lookup name removed w.states st after.0 in
      record { listed = before.0; not_removed = before.1; not_dropped = after.1 }

  abbrev Justified : Bytes → ProjectState → Type 0
  Justified = IsJustified listens c w

  -- the records that the reload makes
  by_add :
      (name : Bytes) (p : Project)
      → Memᴰ p (in_standing is_new w.states c.projects)
      → p.name ≡ name
      → (st : ProjectState) → st.project ≡ p
      → Justified name st
  by_add name p m called st e =
      made (configured (in_standing-parts is_new w.states c.projects p m).0 called e)

  by_change :
      (name : Bytes) (p : Project)
      → Memᴰ p changed_projects
      → p.name ≡ name
      → (st : ProjectState) → st.project ≡ p
      → Justified name st
  by_change name p m called st e =
      made (configured (in_standing-parts is_other w.states c.projects p m).0 called e)

  by_restore :
      (name : Bytes) (p : Project) (old : ProjectState)
      → Memᴰ p changed_projects
      → p.name ≡ name
      → lookup p.name w.states ≡ some old
      → (attempt : ℕ) → listens attempt (listen_addr p) ≡ false
      → (st : ProjectState) → st.project ≡ old.project
      → Justified name st
  by_restore name p old m called l attempt fails st e = made (
      previous (in_standing-parts is_other w.states c.projects p m).0 called fails
        (ap (λ x. lookup x w.states) (sym called) ∙ l) e)

  listed :
      (p : Project)
      → Memᴰ p changed_projects
      → Memᴰ p changed_projects × (lookup p.name w.states ≢ none)
  listed p m = (
    m,
    other-recorded (lookup p.name w.states) p
        (in_standing-parts is_other w.states c.projects p m).1,
  )

  abbrev behind_add : DaemonState
  behind_add = (add_all listens (in_standing is_new w.states c.projects) (tear_down c w)).0

  abbrev behind_change : DaemonState
  behind_change = (change_all listens w.states changed_projects behind_add).0

  -- Where all that is left at a name is justified, so is what stands there in the end.
  kept-Justified :
      (name : Bytes)
      → Holds (Justified name) name (tear_down c w).states
      → Holds (Justified name) name behind_change.states
  kept-Justified name h =
      change_all-Holds listens w.states keyed Justified name changed_projects (by_change name)
        (by_restore name) changed_projects behind_add listed
        (add_all-Holds listens w.states keyed Justified name
          (in_standing is_new w.states c.projects) (tear_down c w) (by_add name) h)

  absent-Justified :
      (name : Bytes)
      → find_project name c.projects ≡ none
      → Holds (Justified name) name (tear_down c w).states
  absent-Justified name a st h =
      let r = tear_down-IsLeft name st h in
      let called =
        (equal_iff st.project.name name).1 (lookup-Keyed name w.states st keyed r.listed) in
      elim (Bool-cases (is_dynamic st)) [
        | inl y ↦ stays_dynamic r.listed y (λ e m.
            elim (Bool-cases (is_entry e.definition.name st.entry)) [
              | inr n ↦ n
              | inl own ↦
                  let none_changed = find_project-in_standing is_other w.states name c.projects a in
                  let member =
                    dynamic_of_all-Mem (gone_entries c w.entries) e name changed_projects w.states
                      st m r.listed own none_changed in
                  let apart = r.not_dropped st member in absurd (cc (apart, called))
            ])
        | inr z ↦
            let apart =
              r.not_removed st (removed_from-Mem c name w.states st r.listed (ap is_absent a) z) in
            absurd (cc (apart, called))
      ]

  -- Of a project that the configuration has, and its record before.
  present-Justified :
      (name : Bytes) (p : Project) (x : Option ProjectState)
      → find_project name c.projects ≡ some p
      → lookup name w.states ≡ x
      → Holds (Justified name) name behind_change.states
  present-Justified name p none f l =
      kept-Justified name (λ st h. let r = tear_down-IsLeft name st h in cc (l, r.listed))
  present-Justified name p (some s) f l =
      let found = find_project-Mem name c.projects p f in
      let called = (equal_iff p.name name).0 found.1 in
      let at_name : lookup p.name w.states ≡ some s = ap (λ x. lookup x w.states) called ∙ l in
      elim (Bool-cases (is_dynamic s)) [
        | inl y ↦ other_name found.0 called at_name (simp y)
        | inr n ↦ elim (Bool-cases (equivalent s.project p)) [
          | inl y ↦ kept-Justified name (λ st h.
              let r = tear_down-IsLeft name st h in
              let same : s ≡ st = some-eq (sym l ∙ r.listed) in
              stays_static r.listed found.0 called
                (ap (λ x. equivalent x.project p) (sym same) ∙ y))
          | inr z ↦ other_name found.0 called at_name (simp (n, z))
        ]
      ]
    where
      other_name :
          Memᴰ p c.projects
          → p.name ≡ name
          → lookup p.name w.states ≡ some s
          → same_standing is_other (standing (some s) p) ≡ true
          → Holds (Justified name) name behind_change.states
      other_name m called at_name o =
          let here : same_standing is_other (standing (lookup p.name w.states) p) ≡ true =
            rw at_name o in
          change_all-replaced listens w.states keyed Justified name changed_projects
            (by_change name) (by_restore name) changed_projects behind_add p listed
            (in_standing-Mem is_other w.states c.projects p m here)
            ((equal_iff p.name name).1 called)

  both-Justified :
      (name : Bytes) (x : Option Project)
      → find_project name c.projects ≡ x
      → Holds (Justified name) name behind_change.states
  both-Justified name none f = kept-Justified name (absent-Justified name f)
  both-Justified name (some p) f = present-Justified name p (lookup name w.states) f refl

  -- Each record in the table behind a reload, whatever addresses the system gives: the reload made it for a
  -- project of the configuration, or for the previous definition of one whose new address was not given; or it
  -- was there before, and is that of a dynamic project of no entry that is removed or changed, or of a static
  -- one that the configuration has an equivalent project for.
  pub reload-Justified :
      (name : Bytes) (st : ProjectState)
      → lookup name (reload listens c w).0.states ≡ some st
      → IsJustified listens c w name st
  unfolding reload
  reload-Justified name st h = both-Justified name (find_project name c.projects) refl st (
      sym (
        ap (lookup name)
          (bind_all-states listens (new_entries w.entries c.discovery) behind_change))
      ∙ h)
