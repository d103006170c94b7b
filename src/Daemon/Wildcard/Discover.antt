-- ===== src/Daemon/Wildcard/Discover.antt =====
-- internal/daemon/wildcard.go: the application port that `discoverPort` finds for a label in the range
-- of its entry.
use herd_wake.Prelude.{
  ◌<◌, suc, true, false, List, [], ◌∷◌, Option, none, some, Bytes, equal, is_empty, ◌≡◌, ◌≢◌, refl,
  sym, ap, ◌∙◌, inl, inr, Bool-cases, All, arith,
}
use herd_wake.Prelude.Int.{ℤ}
use herd_wake.Config.Hostname.{equal_int}
use herd_wake.Config.Ports.{equal_int_lem, equal_int_refl}
use herd_wake.Config.Defaults.{add_ℕ}
use herd_wake.Config.Discovery.{Discovery, supervisor_port}
use herd_wake.Daemon.Wildcard.{
  Live, EntryState, Table, PortOwner, state_owner, entry_owner, first_owner, port_owner, span,
  exhausted, Settled, refused, settled, or_exhausted, range_port, discover_port,
}
use herd_wake.Daemon.Wildcard.Ports.{Lowest, Searched, lowest_free-Searched}
use herd_wake.Daemon.Wildcard.Ranges.{AtMost, span_reaches, span_within, span-add_ℕ}

-- A live project other than the label's own has neither of its ports there.
abbrev pub LeavesOpen : (port : ℤ) → (label : Bytes) → Live → Type 0
LeavesOpen port label s =
    equal s.project.name label ≡ false
    → (port ≢ s.project.supervisor_port) × (port ≢ s.project.application_port)

-- No other live project has the port, and no wildcard entry listens on it.
pub record IsOpen (t : Table) (label : Bytes) (port : ℤ) : Type 0 where
  pub to_projects : All (LeavesOpen port label) t.states
  pub to_entries : All (λ (e : EntryState). supervisor_port e.entry ≢ port) t.entries

-- What is found in a range: its lowest open port, or that none is open.
abbrev pub FoundPort : Table → (label : Bytes) → (low high : ℤ) → Settled ℤ → Type 0
FoundPort t label low high (settled port) =
    AtMost low port
    × AtMost port high
    × IsOpen t label port
    × ((q : ℤ) → AtMost low q → AtMost q port → q ≢ port → ¬ IsOpen t label q)
FoundPort t label low high (refused exhausted) =
    (q : ℤ) → AtMost low q → AtMost q high → ¬ IsOpen t label q
FoundPort t label low high (refused _) = ⊥

unequal : (a b : ℤ) → equal_int a b ≡ false → a ≢ b
unequal a b h e = cc (h, ap (λ x. equal_int a x) e, equal_int_refl a)

unequal_test : (a b : ℤ) → a ≢ b → equal_int a b ≡ false
unequal_test a b n = elim (Bool-cases (equal_int a b)) [
  | inl y ↦ absurd (n (equal_int_lem a b y))
  | inr z ↦ z
]

state_owner-LeavesOpen :
    (port : ℤ) (label : Bytes) (ss : List Live)
    → state_owner port label ss ≡ none
    → All (LeavesOpen port label) ss
unfolding state_owner
state_owner-LeavesOpen port label [] h = tt
state_owner-LeavesOpen port label (s ∷ ss) h = elim (Bool-cases (equal s.project.name label)) [
  | inl own ↦ ((λ n. cc (own, n)), state_owner-LeavesOpen port label ss (rw own at h))
  | inr other ↦ elim (Bool-cases (equal_int port s.project.supervisor_port)) [
    | inl y ↦ cc (rw (other, y) at h)
    | inr sup ↦ elim (Bool-cases (equal_int port s.project.application_port)) [
      | inl y ↦ cc (rw (other, sup, y) at h)
      | inr app ↦ (
        (λ n. (unequal _ _ sup, unequal _ _ app)),
        state_owner-LeavesOpen port label ss (rw (other, sup, app) at h),
      )
    ]
  ]
]

LeavesOpen-state_owner :
    (port : ℤ) (label : Bytes) (ss : List Live)
    → All (LeavesOpen port label) ss
    → state_owner port label ss ≡ none
unfolding state_owner
LeavesOpen-state_owner port label [] h = refl
LeavesOpen-state_owner port label (s ∷ ss) h = elim (Bool-cases (equal s.project.name label)) [
  | inl own ↦ rw own (LeavesOpen-state_owner port label ss h.1)
  | inr other ↦
      let apart = h.0 other in
      rw (other, unequal_test _ _ apart.0, unequal_test _ _ apart.1)
        (LeavesOpen-state_owner port label ss h.1)
]

entry_owner-open :
    (port : ℤ) (es : List EntryState)
    → entry_owner port es ≡ none
    → All (λ (e : EntryState). supervisor_port e.entry ≢ port) es
unfolding entry_owner
entry_owner-open port [] h = tt
entry_owner-open port (e ∷ es) h = elim (Bool-cases (equal_int (supervisor_port e.entry) port)) [
  | inl y ↦ cc (rw y at h)
  | inr z ↦ (unequal _ _ z, entry_owner-open port es (rw z at h))
]

open-entry_owner :
    (port : ℤ) (es : List EntryState)
    → All (λ (e : EntryState). supervisor_port e.entry ≢ port) es
    → entry_owner port es ≡ none
unfolding entry_owner
open-entry_owner port [] h = refl
open-entry_owner port (e ∷ es) h = rw (unequal_test _ _ h.0) (open-entry_owner port es h.1)

both_none : (a b : Option PortOwner) → first_owner a b ≡ none → (a ≡ none) × (b ≡ none)
both_none none b h = (refl, h)
both_none (some o) b h = cc h

port_owner-IsOpen :
    (port : ℤ) (label : Bytes) (t : Table) → port_owner port label t ≡ none → IsOpen t label port
unfolding port_owner
port_owner-IsOpen port label t h =
    let parts = both_none _ _ h in
    record {
      to_projects = state_owner-LeavesOpen port label t.states parts.0;
      to_entries = entry_owner-open port t.entries parts.1;
    }

IsOpen-port_owner :
    (port : ℤ) (label : Bytes) (t : Table) → IsOpen t label port → port_owner port label t ≡ none
unfolding port_owner
IsOpen-port_owner port label t o =
    rw (LeavesOpen-state_owner port label t.states o.to_projects)
      (open-entry_owner port t.entries o.to_entries)

module _ (t : Table) (label : Bytes) (low high : ℤ) where
  all_taken :
      Searched t label low (span low high) none
      → (q : ℤ) → AtMost low q
      → AtMost q high
      → ¬ IsOpen t label q
  all_taken used q h k o =
      let (j, below, there) = span_reaches low high q h k in
      used j below (rw there at (IsOpen-port_owner q label t o))

  lower_taken :
      (port : ℤ) (l : Lowest t label low (span low high) port) (q : ℤ)
      → AtMost low q
      → AtMost q port
      → q ≢ port
      → ¬ IsOpen t label q
  lower_taken port l q h k n o =
      let (j, below, there) = span_reaches low port q h k in
      let reached : j < suc l.steps = rw (l.there, span-add_ℕ low l.steps) at below in
      let other : j ≢ l.steps = λ e. n (there ∙ (ap (add_ℕ low) e ∙ sym l.there)) in
      l.below j (omega (arith, reached, other)) (rw there at (IsOpen-port_owner q label t o))

  found_in_range :
      (r : Option ℤ)
      → Searched t label low (span low high) r
      → FoundPort t label low high (or_exhausted r)
  found_in_range none used = all_taken used
  found_in_range (some port) l =
      let within = span_within low high l.steps l.in_range in
      (
        rw (sym l.there) at within.0,
        rw (sym l.there) at within.1,
        port_owner-IsOpen port label t l.free,
        lower_taken port l,
      )

-- Where the entry has no `port_command` and its application port range starts with the bounds `low` and `high`,
-- `discoverPort` settles on the lowest port of the range, its last one included, that no live project but the
-- label's own has as its supervisor or application port and no wildcard entry listens on; and it refuses
-- the label, as the range being exhausted, only where no port of the range is like that.
pub discover_port-FoundPort :
    (d : Discovery) (printed : Option ℤ) (label : Bytes) (t : Table) (low high : ℤ) (more : List ℤ)
    → is_empty d.port_command ≡ true
    → d.application_port_range ≡ low ∷ high ∷ more
    → FoundPort t label low high (discover_port d printed label t)
unfolding discover_port range_port
discover_port-FoundPort d printed label t low high more quiet range =
    rw (quiet, range)
      (found_in_range t label low high _ (lowest_free-Searched (span low high) low label t))
