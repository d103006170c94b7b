-- ===== src/Config/Equivalent.antt =====
-- internal/config/config.go and discovery.go: `Equivalent`, by which a reload and a sync tell what has
-- changed. `reflect.DeepEqual` compares field by field; a map is nil or the list of its
-- entries by key. An empty slice and nil, which it tells apart too, are one.
use herd_wake.Prelude.{
  Bool, true, false, ◌&&◌, List, [], ◌∷◌, Option, none, some, Bytes, equal, equal_refl, ◌≡◌, refl,
}
use herd_wake.Config.Project.{Project, Env}
use herd_wake.Config.Hostname.{equal_int}
use herd_wake.Config.Discovery.{Discovery}
use herd_wake.Config.Ports.{equal_int_refl}

abbrev pub equal_bool : Bool → Bool → Bool
equal_bool true b = b
equal_bool false true = false
equal_bool false false = true

abbrev pub equal_setting : Option Bool → Option Bool → Bool
equal_setting none none = true
equal_setting none (some b) = false
equal_setting (some a) none = false
equal_setting (some a) (some b) = equal_bool a b

module _ {A : Type 0} (same : A → A → Bool) where
  abbrev pub equal_list : List A → List A → Bool
  equal_list [] [] = true
  equal_list [] (y ∷ ys) = false
  equal_list (x ∷ xs) [] = false
  equal_list (x ∷ xs) (y ∷ ys) = same x y && equal_list xs ys

abbrev pub equal_entry : Bytes × Bytes → Bytes × Bytes → Bool
equal_entry (k, v) (l, w) = equal k l && equal v w

-- nil and an empty map are not equal
abbrev pub equal_env : Env → Env → Bool
equal_env none none = true
equal_env none (some n) = false
equal_env (some m) none = false
equal_env (some m) (some n) = equal_list equal_entry m n

abbrev pub all_true : List Bool → Bool
all_true [] = true
all_true (b ∷ bs) = b && all_true bs

-- `Project.Equivalent`: every field but `source`
unfoldable pub equivalent : Project → Project → Bool
equivalent a b = all_true (
    equal a.name b.name
    ∷ equal a.public_url b.public_url
    ∷ equal_int a.supervisor_port b.supervisor_port
    ∷ equal_int a.application_port b.application_port
    ∷ equal a.working_directory b.working_directory
    ∷ equal a.command b.command
    ∷ equal a.readiness_strategy b.readiness_strategy
    ∷ equal a.readiness_url b.readiness_url
    ∷ equal_int a.startup_timeout_seconds b.startup_timeout_seconds
    ∷ equal_int a.idle_timeout_minutes b.idle_timeout_minutes
    ∷ equal_int a.idle_timeout_seconds b.idle_timeout_seconds
    ∷ equal a.listen_host b.listen_host
    ∷ equal_bool a.allow_non_loopback b.allow_non_loopback
    ∷ equal a.shutdown_signal b.shutdown_signal
    ∷ equal_int a.shutdown_timeout_seconds b.shutdown_timeout_seconds
    ∷ equal_setting a.websockets_keep_alive b.websockets_keep_alive
    ∷ equal_setting a.diagnostic_logs b.diagnostic_logs
    ∷ equal_int a.log_retention_days b.log_retention_days
    ∷ equal_int a.hold_max_wait_seconds b.hold_max_wait_seconds
    ∷ equal_int a.hold_max_requests b.hold_max_requests
    ∷ equal a.host b.host
    ∷ equal_env a.env b.env
    ∷ equal_list equal a.env_file b.env_file
    ∷ equal a.node_path b.node_path
    ∷ equal_bool a.always_on b.always_on
    ∷ equal_bool a.rewrite_host b.rewrite_host
    ∷ [])

equal_bool_refl : (b : Bool) → equal_bool b b ≡ true
equal_bool_refl true = refl
equal_bool_refl false = refl

equal_setting_refl : (o : Option Bool) → equal_setting o o ≡ true
equal_setting_refl none = refl
equal_setting_refl (some b) = equal_bool_refl b

equal_entries_refl : (m : List (Bytes × Bytes)) → equal_list equal_entry m m ≡ true
equal_entries_refl [] = refl
equal_entries_refl ((k, v) ∷ m) = rw (equal_refl k, equal_refl v) (equal_entries_refl m)

equal_env_refl : (m : Env) → equal_env m m ≡ true
equal_env_refl none = refl
equal_env_refl (some m) = equal_entries_refl m

equal_texts_refl : (l : List Bytes) → equal_list equal l l ≡ true
equal_texts_refl [] = refl
equal_texts_refl (s ∷ l) = rw (equal_refl s) (equal_texts_refl l)

pub equivalent_refl : (p : Project) → equivalent p p ≡ true
unfolding equivalent
equivalent_refl p = simp (
  equal_refl, equal_int_refl, equal_bool_refl, equal_setting_refl, equal_env_refl, equal_texts_refl,
)

abbrev pub equal_patterns : Option (List Bytes) → Option (List Bytes) → Bool
equal_patterns none none = true
equal_patterns none (some q) = false
equal_patterns (some p) none = false
equal_patterns (some p) (some q) = equal_list equal p q

-- `Discovery.Equivalent`: every field but `max_running`
unfoldable pub equivalent_entry : Discovery → Discovery → Bool
unfolding equivalent
equivalent_entry a b = all_true (
    equal a.name b.name
    ∷ equal a.mode b.mode
    ∷ equal a.base_domain b.base_domain
    ∷ equal a.directory b.directory
    ∷ equal a.repository b.repository
    ∷ equal_list equal a.require_files b.require_files
    ∷ equal a.url_template b.url_template
    ∷ equal a.port_command b.port_command
    ∷ equal_list equal_int a.application_port_range b.application_port_range
    ∷ equal_list equal_int a.supervisor_port_range b.supervisor_port_range
    ∷ equal_setting a.herd b.herd
    ∷ equal_patterns a.exclude b.exclude
    ∷ (equivalent a.template b.template && equal a.template.source b.template.source)
    ∷ [])
