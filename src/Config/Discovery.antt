-- ===== src/Config/Discovery.antt =====
-- internal/config/discovery.go: the entries of the `discovery` list, and the hosts and projects of a
-- wildcard entry.
use herd_wake.Prelude.{
  ℕ, zero, suc, Bool, List, [], ◌∷◌, ◌++◌, Option, none, some, length, ◌==◌, if◌then◌else◌, Bytes,
  codes, equal, is_empty,
}
use herd_wake.Prelude.Int.{ℤ, pos}
use herd_wake.Config.Project.{Project, Env}
use herd_wake.Config.Hostname.{Platform, is_dns_label}
use herd_wake.Config.Defaults.{
  expand_home, lower_host, or_default, apply_defaults, default_listen_host,
}

-- `exclude` is nil or a list.
pub record Discovery : Type 0 where
  pub name : Bytes
  pub mode : Bytes
  pub base_domain : Bytes
  pub directory : Bytes
  pub repository : Bytes
  pub require_files : List Bytes
  pub url_template : Bytes
  pub port_command : Bytes
  pub application_port_range : List ℤ
  pub supervisor_port_range : List ℤ
  pub herd : Option Bool
  pub exclude : Option (List Bytes)
  pub max_running : ℤ
  pub template : Project

-- `Wildcard`
unfoldable pub is_wildcard : Discovery → Bool
unfolding equal
is_wildcard d = equal d.mode (codes "wildcard")

unfoldable pub supervisor_port : Discovery → ℤ
unfolding is_wildcard
supervisor_port d = if is_wildcard d then d.template.supervisor_port else pos 0

-- `Discovery.ListenHost`
unfoldable pub entry_listen_host : Discovery → Bytes
entry_listen_host d =
    if is_empty d.template.listen_host then default_listen_host else d.template.listen_host

-- the text behind a prefix
unfoldable pub after_prefix : (prefix s : Bytes) → Option Bytes
after_prefix [] s = some s
after_prefix (c ∷ p) [] = none
after_prefix (c ∷ p) (d ∷ s) = if c == d then after_prefix p s else none

-- `strings.CutSuffix`: the text in front of the suffix
unfoldable pub cut_suffix : (s suffix : Bytes) → Option Bytes
unfolding equal
cut_suffix [] suffix = if is_empty suffix then some [] else none
cut_suffix (c ∷ s) suffix =
    if equal (c ∷ s) suffix
    then some []
    else elim (cut_suffix s suffix) [ none ↦ none | some front ↦ some (c ∷ front) ]

-- `strings.ReplaceAll(template, "{name}", label)`; the fuel is its length
unfoldable pub replace_name : (fuel : ℕ) → (template label : Bytes) → Bytes
unfolding after_prefix
replace_name zero t label = t
replace_name (suc fuel) [] label = []
replace_name (suc fuel) (c ∷ t) label =
    let kept = replace_name fuel t label in
    elim (after_prefix (codes "{name}") (c ∷ t)) [
      | none ↦ c ∷ kept
      | some rest ↦ label ++ replace_name fuel rest label
    ]

unfoldable pub label_host : Discovery → (label : Bytes) → Bytes
label_host d label = label ++ b'.' ∷ d.base_domain

unfoldable pub label_url : Discovery → (label : Bytes) → Bytes
unfolding is_wildcard label_host replace_name
label_url d label =
    if is_wildcard d
    then codes "https://" ++ label_host d label
    else replace_name (length d.url_template) d.url_template label

-- `Label`
unfoldable pub host_label : Discovery → (host : Bytes) → Option Bytes
host_label d host = elim (cut_suffix host (b'.' ∷ d.base_domain)) [
  | none ↦ none
  | some label ↦ if is_dns_label label then some label else none
]

unfoldable pub dynamic_source : Discovery → Bytes
dynamic_source d = codes "discovery:" ++ d.name

abbrev pub default_base : (base name : Bytes) → Bytes
default_base (c ∷ b) n = c ∷ b
default_base [] [] = []
default_base [] (c ∷ n) = (c ∷ n) ++ codes ".test"

-- `copyEnv`
unfoldable pub copy_env : Env → Env
copy_env none = none
copy_env (some []) = none
copy_env (some (kv ∷ m)) = some (kv ∷ m)

module _ (o : Platform) where
  -- `Discovery.Project`
  unfoldable pub dynamic_project : Discovery → (label dir : Bytes) → (port : ℤ) → Project
  unfolding apply_defaults dynamic_source label_host label_url
  dynamic_project d label dir port =
      let template = d.template in
      apply_defaults o (record template {
        name = label;
        source = dynamic_source d;
        host = label_host d label;
        public_url = label_url d label;
        working_directory = dir;
        supervisor_port = supervisor_port d;
        application_port = port;
        env = copy_env template.env;
      })

  -- `Discovery.applyDefaults`
  unfoldable pub discovery_defaults : Discovery → Discovery
  unfolding expand_home lower_host equal
  discovery_defaults d =
      let mode' = or_default d.mode (codes "proxy") in
      let wildcard = equal mode' (codes "wildcard") in
      record d {
        directory = expand_home o d.directory;
        repository = expand_home o d.repository;
        mode = mode';
        base_domain =
            if wildcard then lower_host o (default_base d.base_domain d.name) else d.base_domain;
        url_template =
            if wildcard
            then d.url_template
            else or_default d.url_template (codes "https://{name}.test");
        exclude = elim d.exclude [ none ↦ some (codes ".*" ∷ []) | some patterns ↦ some patterns ];
      }
