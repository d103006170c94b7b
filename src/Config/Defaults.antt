-- ===== src/Config/Defaults.antt =====
-- internal/config/config.go and paths.go: the defaults of a project's optional fields.
use herd_wake.Prelude.{
  ℕ, zero, suc, ◌+◌, ◌/◌, ◌%◌, Bool, true, ◌&&◌, List, [], ◌∷◌, ◌++◌, Option, none, some, leb, ltb,
  ◌==◌, if◌then◌else◌, Bytes, codes, equal,
}
use herd_wake.Prelude.Int.{ℤ, pos, negsuc}
use herd_wake.Prelude.Space.{trim_space}
use herd_wake.Config.Project.{Project}
use herd_wake.Config.Hostname.{Platform, is_valid_port, is_zero}

unfoldable pub is_ascii : Bytes → Bool
is_ascii [] = true
is_ascii (c ∷ s) = ltb c 128 && is_ascii s

unfoldable pub lower_ascii : Bytes → Bytes
lower_ascii [] = []
lower_ascii (c ∷ s) = (if leb 65 c && leb c 90 then c + 32 else c) ∷ lower_ascii s

-- `%d` of a natural number; the fuel bounds its digits.
unfoldable pub digits_from : (fuel : ℕ) → ℕ → Bytes
digits_from zero n = []
digits_from (suc fuel) n =
    let front = digits_from fuel (n / 10) in
    if ltb n 10 then (n + 48) ∷ [] else front ++ (n % 10 + 48) ∷ []

-- A port has at most five digits.
unfoldable pub port_digits : ℤ → Bytes
unfolding digits_from
port_digits (pos n) = digits_from 5 n
port_digits (negsuc n) = []

-- the rest of a path that starts with `~/`
unfoldable pub home_rest : Bytes → Option Bytes
home_rest [] = none
home_rest (c ∷ []) = none
home_rest (c ∷ d ∷ s) = if c == b'~' && d == b'/' then some s else none

abbrev pub or_default : Bytes → Bytes → Bytes
or_default [] d = d
or_default (c ∷ s) d = c ∷ s

abbrev pub or_number : ℤ → ℤ → ℤ
or_number n d = if is_zero n then d else n

abbrev pub or_enabled : Option Bool → Option Bool
or_enabled none = some true
or_enabled (some b) = some b

-- `+` of an integer and a natural number
unfoldable pub add_ℕ : ℤ → ℕ → ℤ
add_ℕ i zero = i
add_ℕ (pos m) (suc n) = pos (m + suc n)
add_ℕ (negsuc zero) (suc n) = pos n
add_ℕ (negsuc (suc m)) (suc n) = add_ℕ (negsuc m) n

abbrev pub default_listen_host : Bytes
default_listen_host = codes "127.0.0.1"

module _ (o : Platform) where
  -- `strings.ToLower`
  unfoldable pub to_lower : Bytes → Bytes
  to_lower s = if is_ascii s then lower_ascii s else o.lower_unicode s

  unfoldable pub expand_home : Bytes → Bytes
  unfolding equal home_rest
  expand_home path = elim o.home [
    | none ↦ path
    | some home ↦
        if equal path (codes "~")
        then home
        else elim (home_rest path) [ none ↦ path | some rest ↦ o.join home rest ]
  ]

  unfoldable pub expand_all : List Bytes → List Bytes
  unfolding expand_home
  expand_all [] = []
  expand_all (f ∷ fs) = expand_home f ∷ expand_all fs

  -- `strings.ToLower(strings.TrimSpace(p.Host))`
  unfoldable pub lower_host : Bytes → Bytes
  lower_host host = to_lower (trim_space host)

  abbrev pub default_url : (url host : Bytes) → Bytes
  default_url [] [] = []
  default_url [] (c ∷ h) = codes "https://" ++ c ∷ h
  default_url (c ∷ u) host = c ∷ u

  -- `readiness_url`, from the strategy behind its own default
  unfoldable pub default_readiness_url : (url strategy : Bytes) → (port : ℤ) → Bytes
  unfolding equal is_valid_port port_digits
  default_readiness_url (c ∷ u) strategy port = c ∷ u
  default_readiness_url [] strategy port =
      if equal strategy (codes "http") && is_valid_port port
      then codes "http://127.0.0.1:" ++ (port_digits port ++ b'/' ∷ [])
      else []

  -- `hold_max_wait_seconds`, from the start-up timeout behind its own default
  unfoldable pub default_hold_wait : (wait startup : ℤ) → ℤ
  unfolding add_ℕ
  default_hold_wait wait startup = or_number wait (add_ℕ startup 5)

  -- `applyDefaults`
  unfoldable pub apply_defaults : Project → Project
  unfolding expand_all lower_host default_readiness_url default_hold_wait
  apply_defaults p = record p {
    working_directory = expand_home p.working_directory;
    host = lower_host p.host;
    public_url = default_url p.public_url (lower_host p.host);
    listen_host = or_default p.listen_host default_listen_host;
    readiness_strategy = or_default p.readiness_strategy (codes "http");
    readiness_url =
        default_readiness_url p.readiness_url (or_default p.readiness_strategy (codes "http"))
          p.application_port;
    startup_timeout_seconds = or_number p.startup_timeout_seconds (pos 60);
    idle_timeout_minutes = or_number p.idle_timeout_minutes (pos 15);
    shutdown_signal = or_default p.shutdown_signal (codes "SIGTERM");
    shutdown_timeout_seconds = or_number p.shutdown_timeout_seconds (pos 10);
    websockets_keep_alive = or_enabled p.websockets_keep_alive;
    diagnostic_logs = or_enabled p.diagnostic_logs;
    env_file = expand_all p.env_file;
    log_retention_days = or_number p.log_retention_days (pos 7);
    hold_max_wait_seconds =
        default_hold_wait p.hold_max_wait_seconds (or_number p.startup_timeout_seconds (pos 60));
    hold_max_requests = or_number p.hold_max_requests (pos 100);
  }
