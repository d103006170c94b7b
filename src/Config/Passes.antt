-- ===== src/Config/Passes.antt =====
-- internal/config/config.go: a project that `Project.validate` finds nothing wrong with.
use herd_wake.Prelude.{Bool, [], concat-nil, ◌≡◌, true, Bytes, Bool-cases, inl, inr}
use herd_wake.Prelude.Int.{ℤ}
use herd_wake.Config.Project.{Project}
use herd_wake.Config.Errors.{Field}
use herd_wake.Config.Hostname.{Platform, is_valid_port, is_zero}
use herd_wake.Config.Validate.{
  validate_project, url_errors, host_errors, port_errors, same_port_errors, directory_errors,
  env_file_errors, command_errors, strategy_errors, readiness_errors, listen_errors,
  negative_errors, signal_errors, timeouts,
}

pub record Passes (o : Platform) (skip : Bool) (p : Project) : Type 0 where
  pub url : url_errors o p.name p.public_url ≡ []
  pub host : host_errors p.name p.host ≡ []
  pub supervisor_port : port_errors p.name Field.supervisor_port p.supervisor_port ≡ []
  pub application_port : port_errors p.name Field.application_port p.application_port ≡ []
  pub same_port : same_port_errors p.name p.supervisor_port p.application_port ≡ []
  pub directory : directory_errors o p.name skip p.working_directory ≡ []
  pub env_file : env_file_errors o p.name p.env_file ≡ []
  pub command : command_errors p.name p.command ≡ []
  pub strategy : strategy_errors p.name p.readiness_strategy p.readiness_url ≡ []
  pub readiness : readiness_errors o p.name p.readiness_url ≡ []
  pub listen : listen_errors o p.name p.listen_host p.allow_non_loopback ≡ []
  pub timeouts_kept : negative_errors p.name (timeouts p) ≡ []
  pub signal : signal_errors p.name p.shutdown_signal ≡ []

pub validate_project-Passes :
    (o : Platform) (skip : Bool) (p : Project) → validate_project o skip p ≡ [] → Passes o skip p
unfolding validate_project
validate_project-Passes o skip p h =
    let parts = concat-nil _ h in
    record {
      url = parts.0;
      host = parts.1.0;
      supervisor_port = parts.1.1.0;
      application_port = parts.1.1.1.0;
      same_port = parts.1.1.1.1.0;
      directory = parts.1.1.1.1.1.0;
      env_file = parts.1.1.1.1.1.1.0;
      command = parts.1.1.1.1.1.1.1.0;
      strategy = parts.1.1.1.1.1.1.1.1.0;
      readiness = parts.1.1.1.1.1.1.1.1.1.0;
      listen = parts.1.1.1.1.1.1.1.1.1.1.0;
      timeouts_kept = parts.1.1.1.1.1.1.1.1.1.1.1.0;
      signal = parts.1.1.1.1.1.1.1.1.1.1.1.1.0;
    }

port_valid :
    (n : Bytes) (f : Field) (port : ℤ) → port_errors n f port ≡ [] → is_valid_port port ≡ true
unfolding port_errors
port_valid n f port h = elim (Bool-cases (is_zero port)) [
  | inl z ↦ cc (rw z at h)
  | inr z ↦ elim (Bool-cases (is_valid_port port)) [ inl v ↦ v | inr v ↦ cc (rw (z, v) at h) ]
]

-- Both ports of a project that validates are ports.
abbrev pub HasPorts : Project → Type 0
HasPorts p = (is_valid_port p.supervisor_port ≡ true) × (is_valid_port p.application_port ≡ true)

pub validate_project-HasPorts :
    (o : Platform) (skip : Bool) (p : Project) → validate_project o skip p ≡ [] → HasPorts p
validate_project-HasPorts o skip p h =
    let v = validate_project-Passes o skip p h in
    (
      port_valid p.name Field.supervisor_port p.supervisor_port v.supervisor_port,
      port_valid p.name Field.application_port p.application_port v.application_port,
    )
