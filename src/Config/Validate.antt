-- ===== src/Config/Validate.antt =====
-- internal/config/config.go: `Project.validate`, the checks of one project, one function for each
-- group of fields.
use herd_wake.Prelude.{
  concat, Bool, false, not, ◌&&◌, ◌||◌, List, [], ◌∷◌, ◌++◌, if◌then◌else◌, Bytes, codes, equal,
  is_empty,
}
use herd_wake.Prelude.Int.{ℤ}
use herd_wake.Prelude.Space.{trim_space}
use herd_wake.Config.Project.{Project}
use herd_wake.Config.EnvFiles.{is_abs}
use herd_wake.Config.Errors.{
  Field, Complaint, required, invalid, invalid_port, negative, same_ports, does_not_exist,
  not_a_directory, not_a_file, empty_entry, not_loopback, FieldError, of_project, when,
}
use herd_wake.Config.Hostname.{
  Platform, Found, absent, directory, regular, other_file, is_hostname, is_valid_port, is_zero,
  is_negative, equal_int, is_http_url, is_loopback_host,
}

-- the map `validShutdownSignals`
abbrev pub valid_signals : List Bytes
valid_signals =
    codes "SIGTERM"
    ∷ codes "SIGINT"
    ∷ codes "SIGQUIT"
    ∷ codes "SIGHUP"
    ∷ codes "SIGUSR1"
    ∷ codes "SIGUSR2"
    ∷ codes "SIGKILL"
    ∷ []

unfoldable pub is_among : Bytes → List Bytes → Bool
is_among s [] = false
is_among s (t ∷ ts) = equal s t || is_among s ts

-- `fail`
abbrev pub fail : Bytes → Field → Complaint → FieldError
fail n f c = record { project = n; field = f; complaint = c; scope = of_project }

unfoldable pub port_errors : Bytes → Field → ℤ → List FieldError
port_errors n f port =
    if is_zero port
    then fail n f required ∷ []
    else when (not (is_valid_port port)) (fail n f (invalid_port port))

unfoldable pub same_port_errors : Bytes → (supervisor application : ℤ) → List FieldError
same_port_errors n s a =
    when (is_valid_port s && equal_int s a) (fail n Field.application_port (same_ports a))

unfoldable pub negative_errors : Bytes → List (Field × ℤ) → List FieldError
negative_errors n [] = []
negative_errors n ((f, v) ∷ rest) =
    when (is_negative v) (fail n f (negative v)) ++ negative_errors n rest

abbrev pub timeouts : Project → List (Field × ℤ)
timeouts p =
    (Field.startup_timeout_seconds, p.startup_timeout_seconds)
    ∷ (Field.idle_timeout_minutes, p.idle_timeout_minutes)
    ∷ (Field.idle_timeout_seconds, p.idle_timeout_seconds)
    ∷ (Field.shutdown_timeout_seconds, p.shutdown_timeout_seconds)
    ∷ (Field.log_retention_days, p.log_retention_days)
    ∷ (Field.hold_max_wait_seconds, p.hold_max_wait_seconds)
    ∷ (Field.hold_max_requests, p.hold_max_requests)
    ∷ []

unfoldable pub signal_errors : Bytes → (signal : Bytes) → List FieldError
signal_errors n signal =
    when (not (is_among signal valid_signals)) (fail n Field.shutdown_signal (invalid signal))

unfoldable pub host_errors : Bytes → (host : Bytes) → List FieldError
host_errors n host =
    when (not (is_empty host) && not (is_hostname host)) (fail n Field.host (invalid host))

unfoldable pub command_errors : Bytes → (command : Bytes) → List FieldError
command_errors n command = when (is_empty (trim_space command)) (fail n Field.command required)

unfoldable pub strategy_errors : Bytes → (strategy url : Bytes) → List FieldError
strategy_errors n strategy url =
    if equal strategy (codes "http")
    then when (is_empty url) (fail n Field.readiness_url required)
    else when (not (equal strategy (codes "tcp")))
        (fail n Field.readiness_strategy (invalid strategy))

-- what is wrong with a working directory
unfoldable pub found_errors : Bytes → (skip : Bool) → (path : Bytes) → Found → List FieldError
found_errors n skip path absent =
    when (not skip) (fail n Field.working_directory (does_not_exist path))
found_errors n skip path directory = []
found_errors n skip path regular = fail n Field.working_directory (not_a_directory path) ∷ []
found_errors n skip path other_file = fail n Field.working_directory (not_a_directory path) ∷ []

-- what is wrong with an absolute entry of `env_file`
unfoldable pub file_errors : Bytes → (file : Bytes) → Found → List FieldError
file_errors n file absent = fail n Field.env_file (does_not_exist file) ∷ []
file_errors n file regular = []
file_errors n file directory = fail n Field.env_file (not_a_file file) ∷ []
file_errors n file other_file = fail n Field.env_file (not_a_file file) ∷ []

module _ (o : Platform) where
  unfoldable pub url_errors : Bytes → (url : Bytes) → List FieldError
  url_errors n url =
      if is_empty url
      then fail n Field.public_url required ∷ []
      else when (not (is_http_url o url)) (fail n Field.public_url (invalid url))

  unfoldable pub directory_errors : Bytes → (skip : Bool) → (path : Bytes) → List FieldError
  directory_errors n skip path =
      if is_empty path
      then fail n Field.working_directory required ∷ []
      else found_errors n skip path (o.stat path)

  -- one entry of `env_file`
  unfoldable pub env_file_error : Bytes → (file : Bytes) → List FieldError
  env_file_error n file =
      if is_empty (trim_space file)
      then fail n Field.env_file empty_entry ∷ []
      else if not (is_abs file)
      then []
      else file_errors n file (o.stat file)

  unfoldable pub env_file_errors : Bytes → List Bytes → List FieldError
  env_file_errors n [] = []
  env_file_errors n (f ∷ fs) = env_file_error n f ++ env_file_errors n fs

  unfoldable pub readiness_errors : Bytes → (url : Bytes) → List FieldError
  readiness_errors n url =
      when (not (is_empty url) && not (is_http_url o url))
        (fail n Field.readiness_url (invalid url))

  unfoldable pub listen_errors : Bytes → (host : Bytes) → (allowed : Bool) → List FieldError
  listen_errors n host allowed =
      when (not (is_loopback_host o host) && not allowed)
        (fail n Field.listen_host (not_loopback host))

  -- `Project.validate`; `skip` is `SkipWorkingDirectoryCheck`
  unfoldable pub validate_project : (skip : Bool) → Project → List FieldError
  validate_project skip p = concat (
      url_errors p.name p.public_url
      ∷ host_errors p.name p.host
      ∷ port_errors p.name Field.supervisor_port p.supervisor_port
      ∷ port_errors p.name Field.application_port p.application_port
      ∷ same_port_errors p.name p.supervisor_port p.application_port
      ∷ directory_errors p.name skip p.working_directory
      ∷ env_file_errors p.name p.env_file
      ∷ command_errors p.name p.command
      ∷ strategy_errors p.name p.readiness_strategy p.readiness_url
      ∷ readiness_errors p.name p.readiness_url
      ∷ listen_errors p.name p.listen_host p.allow_non_loopback
      ∷ negative_errors p.name (timeouts p)
      ∷ signal_errors p.name p.shutdown_signal
      ∷ [])
