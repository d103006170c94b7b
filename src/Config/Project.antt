-- ===== src/Config/Project.antt =====
-- internal/config/config.go, the configuration of one project. A Go string is a list of bytes, an
-- `int` is an integer, `*bool` is an optional Boolean, and the map `env` is nil or an association list.
use herd_wake.Prelude.{Bool, List, [], Option, none, some, Bytes}
use herd_wake.Prelude.Int.{ℤ}

-- A map from names to values, none where it is nil.
abbrev pub Env : Type 0
Env = Option (List (Bytes × Bytes))

-- what a loop over the map goes through
abbrev pub env_entries : Env → List (Bytes × Bytes)
env_entries none = []
env_entries (some entries) = entries

pub record Project : Type 0 where
  pub name : Bytes
  pub source : Bytes
  pub public_url : Bytes
  pub supervisor_port : ℤ
  pub application_port : ℤ
  pub working_directory : Bytes
  pub command : Bytes
  pub readiness_strategy : Bytes
  pub readiness_url : Bytes
  pub startup_timeout_seconds : ℤ
  pub idle_timeout_minutes : ℤ
  pub idle_timeout_seconds : ℤ
  pub listen_host : Bytes
  pub allow_non_loopback : Bool
  pub shutdown_signal : Bytes
  pub shutdown_timeout_seconds : ℤ
  pub websockets_keep_alive : Option Bool
  pub diagnostic_logs : Option Bool
  pub log_retention_days : ℤ
  pub hold_max_wait_seconds : ℤ
  pub hold_max_requests : ℤ
  pub host : Bytes
  pub env : Env
  pub env_file : List Bytes
  pub node_path : Bytes
  pub always_on : Bool
  pub rewrite_host : Bool
