-- ===== src/Config/EntryPorts.antt =====
-- internal/config/config.go: the ports of wildcard entries in `Config.validate`.
use herd_wake.Prelude.{
  ℕ, suc, true, false, List, [], ◌∷◌, ◌++◌, Option, none, some, Bytes, All, All-map,
  append-nil_parts, concat-nil, ◌≡◌, ◌≢◌, ◌⊎◌, refl, sym, ap, Bool-cases, Option-cases, inl, inr,
  if◌then◌else◌, codes,
}
use herd_wake.Prelude.Int.{ℤ}
use mathlib.Core.Path.{subst}
use herd_wake.Config.Errors.{Field}
use herd_wake.Config.Hostname.{Platform, is_valid_port, is_zero}
use herd_wake.Config.Discovery.{Discovery, is_wildcard, supervisor_port}
use herd_wake.Config.ValidateDiscovery.{
  validate_entry, wildcard_errors, shared_port_errors, mode_setting_errors,
}
use herd_wake.Config.ValidateConfig.{
  Check, Claims, PortClaim, claim_at, claim_entry, entries_claims, discovery_errors,
}
use herd_wake.Config.Ports.{claim_at-cons, claim_at-first}

abbrev pub entry_ports : Option Discovery → List ℤ
entry_ports none = []
entry_ports (some d) = if is_wildcard d then supervisor_port d ∷ [] else []

-- An entry with a port of its own, if it has a shared listener.
abbrev pub EntryFree : List ℤ → Option Discovery → Type 0
EntryFree taken none = Unit
EntryFree taken (some d) = (is_wildcard d ≡ false) ⊎ All (λ port. supervisor_port d ≢ port) taken

abbrev pub EntriesFree : List ℤ → List (Option Discovery) → Type 0
EntriesFree taken [] = Unit
EntriesFree taken (d ∷ ds) = EntryFree taken d × EntriesFree (entry_ports d ++ taken) ds

-- The ports that are claimed.
abbrev pub Taken : Claims → ℤ → Type 0
Taken c port = (k : PortClaim) × (claim_at port c.claimed ≡ some k)

-- A wildcard entry that validates has a port.
abbrev pub EntryPort : Option Discovery → Type 0
EntryPort none = Unit
EntryPort (some d) = (is_wildcard d ≡ false) ⊎ (is_valid_port (supervisor_port d) ≡ true)

shared_port : (n : Bytes) (port : ℤ) → shared_port_errors n port ≡ [] → is_valid_port port ≡ true
unfolding shared_port_errors
shared_port n port h = elim (Bool-cases (is_zero port)) [
  | inl z ↦ cc (rw z at h)
  | inr z ↦ elim (Bool-cases (is_valid_port port)) [ inl v ↦ v | inr v ↦ cc (rw (z, v) at h) ]
]

wildcard_port :
    (n : Bytes) (d : Discovery)
    → wildcard_errors n d ≡ []
    → is_valid_port d.template.supervisor_port ≡ true
unfolding wildcard_errors
wildcard_port n d h = shared_port n d.template.supervisor_port (concat-nil _ h).1.1.0

pub setting_port :
    (o : Platform) (n : Bytes) (d : Discovery)
    → is_wildcard d ≡ true
    → mode_setting_errors o n d ≡ []
    → is_valid_port (supervisor_port d) ≡ true
unfolding mode_setting_errors supervisor_port
setting_port o n d w h = rw w (wildcard_port n d (rw w at h))

validate_entry-EntryPort :
    (o : Platform) (n : Bytes) (d : Discovery) → validate_entry o n d ≡ [] → EntryPort (some d)
unfolding validate_entry
validate_entry-EntryPort o n d h = elim (Bool-cases (is_wildcard d)) [
  | inr w ↦ inl w
  | inl w ↦ inr (setting_port o n d w (concat-nil _ h).1.1.1.1.1.0)
]

pub discovery_errors-EntryPort :
    (o : Platform) (i : ℕ) (seen : List (Bytes × ℕ)) (ds : List (Option Discovery))
    → discovery_errors o i seen ds ≡ []
    → All EntryPort ds
unfolding discovery_errors
discovery_errors-EntryPort o i seen [] h = tt
discovery_errors-EntryPort o i seen (none ∷ ds) h = cc h
discovery_errors-EntryPort o i seen (some d ∷ ds) h =
    let a = append-nil_parts _ _ h in
    let b = append-nil_parts _ _ a.1 in
    (
      validate_entry-EntryPort o _ d b.0,
      discovery_errors-EntryPort o (suc i) ((d.name, i) ∷ seen) ds b.1,
    )

-- One entry's claim without errors.
abbrev EntryRound : List ℤ → Option Discovery → Claims → Type 0
EntryRound taken d c = EntryFree taken d × All (Taken (claim_entry d c).1) (entry_ports d ++ taken)

abbrev with_entry : Discovery → Claims → Claims
with_entry d c = record c {
  claimed =
      (
        supervisor_port d,
        record {
          project = codes "discovery:" ++ d.name;
          field = Field.supervisor_port;
          host = [];
          listen_host = [];
        },
      )
      ∷ c.claimed;
}

module _ (d : Discovery) (taken : List ℤ) (c : Claims) (w : is_wildcard d ≡ true)
    (valid : is_valid_port (supervisor_port d) ≡ true) where
  claim_new :
      claim_at (supervisor_port d) c.claimed ≡ none → claim_entry (some d) c ≡ ([], with_entry d c)
  unfolding claim_entry
  claim_new new = rw (w, valid, new) refl

  claim_old :
      (k : PortClaim)
      → claim_at (supervisor_port d) c.claimed ≡ some k
      → (claim_entry (some d) c).0 ≢ []
  unfolding claim_entry
  claim_old k old h = cc (rw (w, valid, old) at h)

  new_round :
      claim_at (supervisor_port d) c.claimed ≡ none
      → All (Taken c) taken
      → EntryRound taken (some d) c
  new_round new t = (
    inr (
        All-map (Taken c) (λ port. supervisor_port d ≢ port)
          (λ port at e. cc (sym new, ap (λ x. claim_at x c.claimed) e, at.1)) taken t),
    subst (λ (x : Check). All (Taken x.1) (entry_ports (some d) ++ taken)) (sym (claim_new new))
        (rw w (
          (_, claim_at-first (supervisor_port d) _ c.claimed),
          All-map (Taken c) (Taken (with_entry d c))
              (λ port at. (at.0, claim_at-cons (supervisor_port d) port _ at.0 c.claimed new at.1))
              taken t,
        )),
  )

not_wildcard_round :
    (d : Discovery) (taken : List ℤ) (c : Claims)
    → is_wildcard d ≡ false
    → All (Taken c) taken
    → EntryRound taken (some d) c
unfolding claim_entry
not_wildcard_round d taken c w t = rw w (inl refl, t)

entry_round :
    (d : Discovery) (taken : List ℤ) (c : Claims)
    → EntryPort (some d)
    → (claim_entry (some d) c).0 ≡ []
    → All (Taken c) taken
    → EntryRound taken (some d) c
entry_round d taken c v h t = elim (Bool-cases (is_wildcard d)) [
  | inr w ↦ not_wildcard_round d taken c w t
  | inl w ↦ elim v [
    | inl no_wild ↦ cc (w, no_wild)
    | inr valid ↦ elim (Option-cases (claim_at (supervisor_port d) c.claimed)) [
      | inr (k, old) ↦ absurd (claim_old d taken c w valid k old h)
      | inl new ↦ new_round d taken c w valid new t
    ]
  ]
]

pub entries_claims-EntriesFree :
    (ds : List (Option Discovery)) (taken : List ℤ) (c : Claims)
    → All EntryPort ds
    → entries_claims ds c ≡ []
    → All (Taken c) taken
    → EntriesFree taken ds
unfolding entries_claims
entries_claims-EntriesFree [] taken c v h t = tt
entries_claims-EntriesFree (none ∷ ds) taken c v h t =
    (tt, entries_claims-EntriesFree ds taken c v.1 (unfold claim_entry in h) t)
entries_claims-EntriesFree (some d ∷ ds) taken c v h t =
    let a = append-nil_parts _ _ h in
    let r = entry_round d taken c v.0 a.0 t in
    (
      r.0,
      entries_claims-EntriesFree ds (entry_ports (some d) ++ taken) (claim_entry (some d) c).1 v.1
          a.1 r.1,
    )
