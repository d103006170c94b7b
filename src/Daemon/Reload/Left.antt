-- ===== src/Daemon/Reload/Left.antt =====
-- internal/daemon/reload.go: what a reload takes out of the table, and what it leaves.
use mathlib.Core.List.{Memᴰ}
use herd_wake.Prelude.{
  true, false, ◌&&◌, not, List, [], ◌∷◌, ◌++◌, Option, none, some, Bytes, equal, equal_iff, ◌≡◌,
  ◌≢◌, ◌∙◌, refl, sym, ap, Bool-cases, inl, inr, some-eq,
}
use herd_wake.Config.Project.{Project}
use herd_wake.Discovery.Build.{find_project}
use herd_wake.Daemon.Listeners.{EntryRecord, ProjectState, States, lookup, delete}
use herd_wake.Daemon.Reload.{delete_all}
use herd_wake.Daemon.Reload.Diff.{
  Loaded, Standing, is_other, is_dynamic, standing, same_standing, in_standing, is_absent,
  removed_from, is_entry, is_absent, dynamic_of, dynamic_of_all,
}
use herd_wake.Daemon.Reload.Others.{lookup-delete}
use herd_wake.Daemon.Reload.Justified.{lookup-deleted}

pub in_standing-Mem :
    (k : Standing) (current : States) (ps : List Project) (p : Project)
    → Memᴰ p ps
    → same_standing k (standing (lookup p.name current) p) ≡ true
    → Memᴰ p (in_standing k current ps)
unfolding in_standing
in_standing-Mem k current [] p m h = elim m [ ]
in_standing-Mem k current (q ∷ ps) p (Memᴰ.head e) h =
    let here : same_standing k (standing (lookup q.name current) q) ≡ true =
      ap (λ x. same_standing k (standing (lookup x.name current) x)) (sym e) ∙ h in
    rw here (Memᴰ.head e)
in_standing-Mem k current (q ∷ ps) p (Memᴰ.tail m) h =
    elim (Bool-cases (same_standing k (standing (lookup q.name current) q))) [
      | inl y ↦ rw y (Memᴰ.tail (in_standing-Mem k current ps p m h))
      | inr n ↦ rw n (in_standing-Mem k current ps p m h)
    ]

pub in_standing-parts :
    (k : Standing) (current : States) (ps : List Project) (p : Project)
    → Memᴰ p (in_standing k current ps)
    → Memᴰ p ps × (same_standing k (standing (lookup p.name current) p) ≡ true)
unfolding in_standing
in_standing-parts k current [] p m = elim m [ ]
in_standing-parts k current (q ∷ ps) p m =
    elim (Bool-cases (same_standing k (standing (lookup q.name current) q))) [
      | inl y ↦ first y (in_standing-parts k current ps p) (rw y at m)
      | inr n ↦ let r = in_standing-parts k current ps p (rw n at m) in (Memᴰ.tail r.0, r.1)
    ]
  where
    first :
        same_standing k (standing (lookup q.name current) q) ≡ true
        → (Memᴰ p (in_standing k current ps)
            → Memᴰ p ps × (same_standing k (standing (lookup p.name current) p) ≡ true))
        → Memᴰ p (q ∷ in_standing k current ps)
        → Memᴰ p (q ∷ ps) × (same_standing k (standing (lookup p.name current) p) ≡ true)
    first y f (Memᴰ.head e) =
        (Memᴰ.head e, ap (λ x. same_standing k (standing (lookup x.name current) x)) e ∙ y)
    first y f (Memᴰ.tail j) = let r = f j in (Memᴰ.tail r.0, r.1)

-- A project that is changed has a record before.
pub other-recorded :
    (x : Option ProjectState) (p : Project)
    → same_standing is_other (standing x p) ≡ true
    → x ≢ none
other-recorded none p h e = cc h
other-recorded (some st) p h e = cc e

pub deleted-lookup :
    (m name : Bytes) (sts : States) (st : ProjectState)
    → lookup name (delete m sts) ≡ some st
    → (equal m name ≡ false) × (lookup name sts ≡ some st)
deleted-lookup m name sts st h = elim (Bool-cases (equal m name)) [
  | inl y ↦
      let called = (equal_iff m name).0 y in
      cc (sym (ap (λ x. lookup name (delete x sts)) called ∙ lookup-deleted name sts), h)
  | inr n ↦ (n, sym (lookup-delete m name sts n) ∙ h)
]

-- What is left behind deletions was there, under another name than the deleted ones.
pub delete_all-lookup :
    (name : Bytes) (rs : List ProjectState) (sts : States) (st : ProjectState)
    → lookup name (delete_all rs sts) ≡ some st
    → (lookup name sts ≡ some st)
      × ((r : ProjectState) → Memᴰ r rs → equal r.project.name name ≡ false)
unfolding delete_all
delete_all-lookup name [] sts st h = (h, λ r m. elim m [ ])
delete_all-lookup name (q ∷ rs) sts st h =
    let rest = delete_all-lookup name rs (delete q.project.name sts) st h in
    let here = deleted-lookup q.project.name name sts st rest.0 in (here.1, other here.0 rest.1)
  where
    other :
        equal q.project.name name ≡ false
        → ((r : ProjectState) → Memᴰ r rs → equal r.project.name name ≡ false)
        → (r : ProjectState) → Memᴰ r (q ∷ rs)
        → equal r.project.name name ≡ false
    other n f r (Memᴰ.head e) = rw e n
    other n f r (Memᴰ.tail m) = f r m

pub removed_from-Mem :
    (c : Loaded) (name : Bytes) (sts : States) (st : ProjectState)
    → lookup name sts ≡ some st
    → is_absent (find_project name c.projects) ≡ true
    → is_dynamic st ≡ false
    → Memᴰ st (removed_from c sts)
unfolding lookup removed_from
removed_from-Mem c name [] st h a d = cc h
removed_from-Mem c name ((m, s) ∷ sts) st h a d = elim (Bool-cases (equal m name)) [
  | inl y ↦
      let same : s ≡ st = some-eq (rw y at h) in
      let called = (equal_iff m name).0 y in
      let absent : is_absent (find_project m c.projects) ≡ true = rw called a in
      let static : is_dynamic s ≡ false = ap (λ x. is_dynamic x) same ∙ d in
      simp (absent, static) (Memᴰ.head (sym same))
  | inr n ↦
      let rest = removed_from-Mem c name sts st (rw n at h) a d in
      elim (Bool-cases (is_absent (find_project m c.projects) && not (is_dynamic s))) [
        | inl y ↦ rw y (Memᴰ.tail rest)
        | inr z ↦ rw z rest
      ]
]

-- Nothing of the name is among the projects that are changed where the configuration has none of it.
pub find_project-in_standing :
    (k : Standing) (current : States) (name : Bytes) (ps : List Project)
    → find_project name ps ≡ none
    → find_project name (in_standing k current ps) ≡ none
unfolding find_project in_standing
find_project-in_standing k current name [] h = refl
find_project-in_standing k current name (p ∷ ps) h = elim (Bool-cases (equal p.name name)) [
  | inl y ↦ cc (rw y at h)
  | inr n ↦
      let rest = find_project-in_standing k current name ps (rw n at h) in
      elim (Bool-cases (same_standing k (standing (lookup p.name current) p))) [
        | inl y ↦ rw (y, find_project, n) rest
        | inr z ↦ rw z rest
      ]
]

pub dynamic_of-Mem :
    (entry name : Bytes) (changed : List Project) (sts : States) (st : ProjectState)
    → lookup name sts ≡ some st
    → is_entry entry st.entry ≡ true
    → find_project name changed ≡ none
    → Memᴰ st (dynamic_of entry changed sts)
unfolding lookup dynamic_of
dynamic_of-Mem entry name changed [] st h e f = cc h
dynamic_of-Mem entry name changed ((m, s) ∷ sts) st h e f = elim (Bool-cases (equal m name)) [
  | inl y ↦
      let same : s ≡ st = some-eq (rw y at h) in
      let called = (equal_iff m name).0 y in
      let own : is_entry entry s.entry ≡ true = ap (λ x. is_entry entry x.entry) same ∙ e in
      let free : find_project m changed ≡ none = ap (λ x. find_project x changed) called ∙ f in
      simp (own, free) (Memᴰ.head (sym same))
  | inr n ↦
      let rest = dynamic_of-Mem entry name changed sts st (rw n at h) e f in
      elim (Bool-cases (is_entry entry s.entry && is_absent (find_project m changed))) [
        | inl y ↦ rw y (Memᴰ.tail rest)
        | inr z ↦ rw z rest
      ]
]

Mem-left : {A : Type 0} {a : A} (xs ys : List A) → Memᴰ a xs → Memᴰ a (xs ++ ys)
Mem-left [] ys m = elim m [ ]
Mem-left (x ∷ xs) ys (Memᴰ.head e) = Memᴰ.head e
Mem-left (x ∷ xs) ys (Memᴰ.tail m) = Memᴰ.tail (Mem-left xs ys m)

Mem-right : {A : Type 0} {a : A} (xs ys : List A) → Memᴰ a ys → Memᴰ a (xs ++ ys)
Mem-right [] ys m = m
Mem-right (x ∷ xs) ys m = Memᴰ.tail (Mem-right xs ys m)

pub dynamic_of_all-Mem :
    (rs : List EntryRecord) (r : EntryRecord) (name : Bytes) (changed : List Project) (sts : States)
    (st : ProjectState)
    → Memᴰ r rs
    → lookup name sts ≡ some st
    → is_entry r.definition.name st.entry ≡ true
    → find_project name changed ≡ none
    → Memᴰ st (dynamic_of_all rs changed sts)
unfolding dynamic_of_all
dynamic_of_all-Mem [] r name changed sts st m h e f = elim m [ ]
dynamic_of_all-Mem (q ∷ rs) r name changed sts st (Memᴰ.head same) h e f =
    let own : is_entry q.definition.name st.entry ≡ true =
      ap (λ x. is_entry x.definition.name st.entry) (sym same) ∙ e in
    Mem-left _ _ (dynamic_of-Mem q.definition.name name changed sts st h own f)
dynamic_of_all-Mem (q ∷ rs) r name changed sts st (Memᴰ.tail m) h e f =
    Mem-right (dynamic_of q.definition.name changed sts) _
      (dynamic_of_all-Mem rs r name changed sts st m h e f)
