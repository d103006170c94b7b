-- ===== src/Config/Errors.antt =====
-- internal/config/config.go: `FieldError`. A message is kept as the value that its text is made from.
use herd_wake.Prelude.{Bool, true, false, List, [], ◌∷◌, Bytes}
use herd_wake.Prelude.Int.{ℤ}

pub data Field : Type 0 where
  name public_url host supervisor_port application_port working_directory env_file : Field
  command readiness_strategy readiness_url listen_host startup_timeout_seconds : Field
  idle_timeout_minutes idle_timeout_seconds shutdown_timeout_seconds log_retention_days : Field
  hold_max_wait_seconds hold_max_requests shutdown_signal mode directory repository : Field
  require_files base_domain url_template supervisor_port_range application_port_range : Field
  max_running exclude : Field

pub data Complaint : Type 0 where
  required : Complaint
  invalid : Bytes → Complaint
  invalid_port negative : ℤ → Complaint
  same_ports : ℤ → Complaint
  does_not_exist not_a_directory not_a_file not_a_repository not_relative : Bytes → Complaint
  empty_entry : Complaint
  not_loopback : Bytes → Complaint
  already_used : (by : Bytes) → Complaint
  port_used port_not_shared : (port : ℤ) → (by : Bytes) → Complaint
  listen_host_differs : (port : ℤ) → (by : Bytes) → Complaint
  not_used_in_mode not_allowed : Complaint
  wrong_length range_not_valid low_above_high : List ℤ → Complaint

pub data ErrorScope : Type 0 where
  of_project of_discovery : ErrorScope

pub record FieldError : Type 0 where
  pub project : Bytes
  pub field : Field
  pub complaint : Complaint
  pub scope : ErrorScope

-- an error under a condition
abbrev pub when {ℓ} : {A : Type ℓ} → Bool → A → List A
when true e = e ∷ []
when false e = []
