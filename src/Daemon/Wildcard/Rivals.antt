-- ===== src/Daemon/Wildcard/Rivals.antt =====
-- internal/daemon/wildcard.go: two labels of one entry that are resolved at the same time.
use herd_wake.Prelude.{
  ℕ, zero, suc, true, false, List, [], ◌∷◌, Option, none, some, Bytes, equal, is_empty, ◌≡◌, refl,
  sym, ap, ◌∙◌, Bool-cases, inl, inr,
}
use herd_wake.Prelude.Int.{ℤ}
use herd_wake.Config.Project.{Project}
use herd_wake.Config.Hostname.{Platform}
use herd_wake.Config.Defaults.{add_ℕ}
use herd_wake.Config.Discovery.{Discovery}
use herd_wake.Daemon.Wildcard.{
  Live, Table, state_owner, entry_owner, port_owner, lowest_free, discover_port, first_owner,
  free_or, range_port, or_exhausted, span, settled, find_state, place, register, table_behind,
  prepare,
}
use herd_wake.Daemon.Wildcard.Prepared.{prepare-Prepared, prepare_port, settled-eq}

state_owner_absent :
    (port : ℤ) (l m : Bytes) (ss : List Live)
    → find_state l ss ≡ none
    → find_state m ss ≡ none
    → state_owner port l ss ≡ state_owner port m ss
unfolding find_state state_owner
state_owner_absent port l m [] f g = refl
state_owner_absent port l m (s ∷ ss) f g = elim (Bool-cases (equal s.project.name l)) [
  | inl y ↦ cc (rw y at f)
  | inr a ↦ elim (Bool-cases (equal s.project.name m)) [
    | inl y ↦ cc (rw y at g)
    | inr b ↦ rw (a, b, state_owner_absent port l m ss (rw a at f) (rw b at g)) refl
  ]
]

module _ (l m : Bytes) (t : Table) (f : find_state l t.states ≡ none)
    (g : find_state m t.states ≡ none) where
  port_owner_absent : (port : ℤ) → port_owner port l t ≡ port_owner port m t
  unfolding port_owner
  port_owner_absent port =
      ap (λ x. first_owner x (entry_owner port t.entries))
        (state_owner_absent port l m t.states f g)

  lowest_free_absent : (n : ℕ) (low : ℤ) → lowest_free n low l t ≡ lowest_free n low m t
  unfolding lowest_free
  lowest_free_absent zero low = refl
  lowest_free_absent (suc n) low =
      ap (λ x. free_or low x (lowest_free n (add_ℕ low 1) l t)) (port_owner_absent low)
      ∙ ap (free_or low (port_owner low m t)) (lowest_free_absent n (add_ℕ low 1))

  range_port_absent : (r : List ℤ) → range_port r l t ≡ range_port r m t
  unfolding range_port
  range_port_absent [] = refl
  range_port_absent (low ∷ []) = refl
  range_port_absent (low ∷ high ∷ more) = ap or_exhausted (lowest_free_absent (span low high) low)

  discover_port_absent :
      (d : Discovery) (printed other : Option ℤ)
      → is_empty d.port_command ≡ true
      → discover_port d printed l t ≡ discover_port d other m t
  unfolding discover_port
  discover_port_absent d printed other e = rw e (range_port_absent d.application_port_range)

place_states :
    (d : Discovery) (p : Project) (t : Table) (x : Option Live)
    → x ≡ none
    → (table_behind t (place d p t x)).states
      ≡ record { project = p; entry = some d.name } ∷ t.states
unfolding place
place_states d p t none e = refl
place_states d p t (some other) e = cc e

absent_behind :
    (name : Bytes) (s : Live) (ss : List Live)
    → equal s.project.name name ≡ false
    → find_state name ss ≡ none
    → find_state name (s ∷ ss) ≡ none
unfolding find_state
absent_behind name s ss e f = rw e f

pub register_both : Discovery → (first second : Project) → Table → Table
register_both d p q t =
    let t1 = table_behind t (register d p t) in table_behind t1 (register d q t1)

-- Where a wildcard entry has no port_command, and two different labels of it read the same table and
-- are both let through before either is registered, both get the same application port, and both are
-- registered with it.
pub rivals_share :
    (o : Platform) (d : Discovery) (t : Table) (label rival dir rival_dir : Bytes)
    (printed other : Option ℤ) (p q : Project)
    → is_empty d.port_command ≡ true
    → equal label rival ≡ false
    → prepare o d label dir none printed t ≡ settled p
    → prepare o d rival rival_dir none other t ≡ settled q
    → (p.application_port ≡ q.application_port)
      × ((register_both d p q t).states
          ≡ record { project = q; entry = some d.name }
            ∷ record { project = p; entry = some d.name }
            ∷ t.states)
unfolding register_both register
rivals_share o d t label rival dir rival_dir printed other p q e apart h k =
    let P = prepare-Prepared o d label dir t p none printed h in
    let Q = prepare-Prepared o d rival rival_dir t q none other k in
    let same = discover_port_absent label rival t P.absent Q.absent d printed other e in
    let first = place_states d p t (find_state p.name t.states) (rw P.called P.absent) in
    let t1 = table_behind t (register d p t) in
    let apart' : equal p.name q.name ≡ false = rw (P.called, Q.called) apart in
    let gone : find_state q.name t.states ≡ none = rw Q.called Q.absent in
    let absent : find_state q.name t1.states ≡ none =
      ap (find_state q.name) first
      ∙ absent_behind q.name (record { project = p; entry = some d.name }) t.states apart' gone in
    (
      settled-eq (
          sym (prepare_port o d label dir t p printed h)
          ∙ (same ∙ prepare_port o d rival rival_dir t q other k)),
      place_states d q t1 (find_state q.name t1.states) absent
          ∙ ap (λ ss. record { project = q; entry = some d.name } ∷ ss) first,
    )
