-- ===== src/Daemon/Wildcard/Prepared.antt =====
-- internal/daemon/wildcard.go: what is known of a project that `prepare` makes.
use herd_wake.Prelude.{Option, none, some, Bytes, ◌≡◌, refl, sym, ap}
use herd_wake.Prelude.Int.{ℤ}
use herd_wake.Config.Project.{Project}
use herd_wake.Config.Hostname.{Platform}
use herd_wake.Config.Defaults.{apply_defaults}
use herd_wake.Config.Discovery.{Discovery, supervisor_port, dynamic_project}
use herd_wake.Daemon.Wildcard.{
  Live, Table, PortOwner, port_owner, Settled, refused, settled, find_state, discover_port,
  with_unowned, with_port, with_name, prepare,
}

pub dynamic_ports :
    (o : Platform) (d : Discovery) (label dir : Bytes) (port : ℤ)
    → ((dynamic_project o d label dir port).application_port ≡ port)
      × ((dynamic_project o d label dir port).supervisor_port ≡ supervisor_port d)
      × ((dynamic_project o d label dir port).name ≡ label)
unfolding dynamic_project apply_defaults
dynamic_ports o d label dir port = (refl, refl, refl)

-- What is known of a project that `prepare` makes.
pub record Prepared (d : Discovery) (label : Bytes) (t : Table) (p : Project) : Type 0 where
  pub called : p.name ≡ label
  pub absent : find_state label t.states ≡ none
  pub free : port_owner p.application_port label t ≡ none
  pub shared : p.supervisor_port ≡ supervisor_port d

pub settled-eq : {A : Type 0} {a b : A} → settled a ≡ settled b → a ≡ b
settled-eq h = cc

module _ (o : Platform) (d : Discovery) (label dir : Bytes) (t : Table) (p : Project) where
  with_unowned-Prepared :
      (port : ℤ) (x : Option PortOwner)
      → find_state label t.states ≡ none
      → port_owner port label t ≡ x
      → with_unowned o d label dir port x ≡ settled p
      → Prepared d label t p
  unfolding with_unowned
  with_unowned-Prepared port (some owner) f x h = cc h
  with_unowned-Prepared port none f x h =
      let made : dynamic_project o d label dir port ≡ p = settled-eq h in
      let ports = dynamic_ports o d label dir port in
      rw (sym made) record { called = ports.2; absent = f; free = rw ports.0 x; shared = ports.1 }

  with_port-Prepared :
      (x : Settled ℤ)
      → find_state label t.states ≡ none
      → with_port o d label dir x t ≡ settled p
      → Prepared d label t p
  unfolding with_port
  with_port-Prepared (refused why) f h = cc h
  with_port-Prepared (settled port) f h =
      with_unowned-Prepared port (port_owner port label t) f refl h

  with_name-Prepared :
      (printed : Option ℤ) (x : Option Live)
      → find_state label t.states ≡ x
      → with_name o d label dir printed x t ≡ settled p
      → Prepared d label t p
  unfolding with_name
  with_name-Prepared printed (some other) f h = cc h
  with_name-Prepared printed none f h = with_port-Prepared (discover_port d printed label t) f h

  pub prepare-Prepared :
      (rules : Option Bytes) (printed : Option ℤ)
      → prepare o d label dir rules printed t ≡ settled p
      → Prepared d label t p
  unfolding prepare
  prepare-Prepared (some reason) printed h = cc h
  prepare-Prepared none printed h = with_name-Prepared printed (find_state label t.states) refl h

module _ (o : Platform) (d : Discovery) (l dir : Bytes) (t : Table) (p : Project) where
  port_unowned :
      (port : ℤ) (x : Option PortOwner)
      → with_unowned o d l dir port x ≡ settled p
      → p.application_port ≡ port
  unfolding with_unowned
  port_unowned port (some owner) h = cc h
  port_unowned port none h =
      let made : dynamic_project o d l dir port ≡ p = settled-eq h in
      rw (sym made) (dynamic_ports o d l dir port).0

  port_with : (x : Settled ℤ) → with_port o d l dir x t ≡ settled p → x ≡ settled p.application_port
  unfolding with_port
  port_with (refused why) h = cc h
  port_with (settled port) h = ap settled (sym (port_unowned port (port_owner port l t) h))

  port_named :
      (printed : Option ℤ) (x : Option Live)
      → with_name o d l dir printed x t ≡ settled p
      → discover_port d printed l t ≡ settled p.application_port
  unfolding with_name
  port_named printed (some other) h = cc h
  port_named printed none h = port_with (discover_port d printed l t) h

  pub prepare_port :
      (printed : Option ℤ)
      → prepare o d l dir none printed t ≡ settled p
      → discover_port d printed l t ≡ settled p.application_port
  unfolding prepare
  prepare_port printed h = port_named printed (find_state l t.states) h
