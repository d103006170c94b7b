-- ===== src/Config/ValidateDiscovery.antt =====
-- internal/config/discovery.go: the checks of a discovery entry.
use herd_wake.Prelude.{
  concat, Bool, true, false, not, ◌||◌, List, [], ◌∷◌, ◌++◌, none, some, ltb, if◌then◌else◌, Bytes,
  codes, equal, is_empty,
}
use herd_wake.Prelude.Int.{ℤ, pos, negsuc}
use herd_wake.Prelude.Space.{trim_space}
use herd_wake.Config.Project.{Project}
use herd_wake.Config.EnvFiles.{is_abs}
use herd_wake.Config.Errors.{
  Field, Complaint, required, invalid, invalid_port, negative, does_not_exist, not_a_directory,
  not_a_repository, not_relative, empty_entry, not_used_in_mode, not_allowed, wrong_length,
  range_not_valid, low_above_high, FieldError, of_discovery, when,
}
use herd_wake.Config.Hostname.{
  Platform, absent, directory, regular, other_file, is_hostname, is_dns_label, is_valid_port,
  is_zero, is_negative, is_http_url,
}
use herd_wake.Config.Defaults.{apply_defaults}
use herd_wake.Config.Validate.{validate_project}
use herd_wake.Config.Discovery.{Discovery, is_wildcard, label_url, after_prefix}

abbrev pub fail : Bytes → Field → Complaint → FieldError
fail n f c = record { project = n; field = f; complaint = c; scope = of_discovery }

-- `r[0] > r[1]`, for ports that are valid
unfoldable pub above : ℤ → ℤ → Bool
above (pos m) (pos n) = ltb n m
above (pos m) (negsuc n) = true
above (negsuc m) (pos n) = false
above (negsuc m) (negsuc n) = ltb m n

-- `validateRange`
unfoldable pub range_errors : Bytes → Field → List ℤ → (needed : Bool) → List FieldError
range_errors n f [] needed = when needed (fail n f required)
range_errors n f (a ∷ []) needed = fail n f (wrong_length (a ∷ [])) ∷ []
range_errors n f (a ∷ b ∷ []) needed =
    if not (is_valid_port a) || not (is_valid_port b)
    then fail n f (range_not_valid (a ∷ b ∷ [])) ∷ []
    else when (above a b) (fail n f (low_above_high (a ∷ b ∷ [])))
range_errors n f (a ∷ b ∷ c ∷ r) needed = fail n f (wrong_length (a ∷ b ∷ c ∷ r)) ∷ []

-- `strings.Contains`
unfoldable pub holds_text : (part s : Bytes) → Bool
holds_text part [] = is_empty part
holds_text part (c ∷ s) = elim (after_prefix part (c ∷ s)) [
  | some rest ↦ true
  | none ↦ holds_text part s
]

unfoldable pub name_errors : Bytes → (name : Bytes) → List FieldError
name_errors n name =
    if is_empty name
    then fail n Field.name required ∷ []
    else when (not (is_dns_label name)) (fail n Field.name (invalid name))

unfoldable pub mode_errors : Bytes → (mode : Bytes) → List FieldError
mode_errors n mode =
    when (not (equal mode (codes "proxy") || equal mode (codes "wildcard")))
      (fail n Field.mode (invalid mode))

unfoldable pub require_errors : Bytes → List Bytes → List FieldError
require_errors n [] = []
require_errors n (f ∷ fs) =
    (if is_empty (trim_space f)
      then fail n Field.require_files empty_entry ∷ []
      else when (is_abs f) (fail n Field.require_files (not_relative f)))
    ++ require_errors n fs

unfoldable pub base_errors : Bytes → (base : Bytes) → List FieldError
base_errors n base =
    if is_empty base
    then fail n Field.base_domain required ∷ []
    else when (not (is_hostname base) || not (holds_text (codes ".") base))
        (fail n Field.base_domain (invalid base))

unfoldable pub shared_port_errors : Bytes → (port : ℤ) → List FieldError
shared_port_errors n port =
    if is_zero port
    then fail n Field.supervisor_port required ∷ []
    else when (not (is_valid_port port)) (fail n Field.supervisor_port (invalid_port port))

-- the settings that a wildcard entry has no use for
unfoldable pub unused_errors : Bytes → (url_template : Bytes) → (range : List ℤ) → List FieldError
unused_errors n template range =
    when (not (is_empty template)) (fail n Field.url_template not_used_in_mode)
    ++ elim range [ [] ↦ [] | a ∷ r ↦ fail n Field.supervisor_port_range not_used_in_mode ∷ [] ]

unfoldable pub wildcard_errors : Bytes → Discovery → List FieldError
wildcard_errors n d = concat (
    base_errors n d.base_domain
    ∷ unused_errors n d.url_template d.supervisor_port_range
    ∷ shared_port_errors n d.template.supervisor_port
    ∷ [])

-- The fields of a template that are generated for each worktree.
unfoldable pub template_errors : Bytes → Project → List FieldError
template_errors n t =
    when (not (is_empty t.public_url)) (fail n Field.public_url not_allowed)
    ++ (when (not (is_empty t.host)) (fail n Field.host not_allowed)
        ++ (when (not (is_zero t.application_port)) (fail n Field.application_port not_allowed)
            ++ when (not (is_empty t.working_directory))
                (fail n Field.working_directory not_allowed)))

-- the fields that the check of the probe passes over
abbrev pub is_generated : Field → Bool
is_generated Field.public_url = true
is_generated Field.host = true
is_generated Field.supervisor_port = true
is_generated Field.application_port = true
is_generated Field.working_directory = true
is_generated Field.readiness_url = true
is_generated _ = false

unfoldable pub probe_errors : List FieldError → List FieldError
probe_errors [] = []
probe_errors (e ∷ es) =
    if is_generated e.field
    then probe_errors es
    else record e { scope = of_discovery } ∷ probe_errors es

module _ (o : Platform) where
  unfoldable pub proxy_errors : Bytes → Discovery → List FieldError
  proxy_errors n d =
      when (not (is_empty d.base_domain)) (fail n Field.base_domain not_used_in_mode)
      ++ (when (not (is_zero d.max_running)) (fail n Field.max_running not_used_in_mode)
          ++ ((if not (holds_text (codes "{name}") d.url_template)
                then fail n Field.url_template (invalid d.url_template) ∷ []
                else when (not (is_http_url o (label_url d (codes "example"))))
                    (fail n Field.url_template (invalid d.url_template)))
              ++ (range_errors n Field.supervisor_port_range d.supervisor_port_range true
                  ++ when (not (is_zero d.template.supervisor_port))
                      (fail n Field.supervisor_port not_allowed))))

  unfoldable pub entry_directory_errors : Bytes → (path : Bytes) → List FieldError
  entry_directory_errors n path =
      if is_empty path then fail n Field.directory required ∷ [] else elim (o.stat path) [
        | absent ↦ fail n Field.directory (does_not_exist path) ∷ []
        | directory ↦ []
        | regular ↦ fail n Field.directory (not_a_directory path) ∷ []
        | other_file ↦ fail n Field.directory (not_a_directory path) ∷ []
      ]

  unfoldable pub repository_errors : Bytes → (path : Bytes) → List FieldError
  repository_errors n path = if is_empty path then [] else elim (o.stat path) [
    | absent ↦ fail n Field.repository (does_not_exist path) ∷ []
    | regular ↦ fail n Field.repository (not_a_directory path) ∷ []
    | other_file ↦ fail n Field.repository (not_a_directory path) ∷ []
    | directory ↦ elim (o.stat (o.join path (codes ".git"))) [
      | absent ↦ fail n Field.repository (not_a_repository path) ∷ []
      | _ ↦ []
    ]
  ]

  unfoldable pub exclude_errors : Bytes → List Bytes → List FieldError
  exclude_errors n [] = []
  exclude_errors n (p ∷ ps) =
      elim (o.glob p []) [ none ↦ fail n Field.exclude (invalid p) ∷ [] | some matches ↦ [] ]
      ++ exclude_errors n ps

  -- the copy of the template that is checked like a project
  unfoldable pub probe : Bytes → Discovery → Project
  probe n d =
      let t = d.template in
      apply_defaults o (record t {
        name = n;
        public_url = codes "https://example.test";
        host = [];
        supervisor_port = pos 1;
        application_port = pos 2;
        working_directory = d.directory;
      })

  -- what a mode asks for
  unfoldable pub mode_setting_errors : Bytes → Discovery → List FieldError
  mode_setting_errors n d = if is_wildcard d then wildcard_errors n d else proxy_errors n d

  -- `Discovery.validate`
  unfoldable pub validate_entry : Bytes → Discovery → List FieldError
  validate_entry n d = concat (
      name_errors n d.name
      ∷ mode_errors n d.mode
      ∷ entry_directory_errors n d.directory
      ∷ repository_errors n d.repository
      ∷ require_errors n d.require_files
      ∷ mode_setting_errors n d
      ∷ range_errors n Field.application_port_range d.application_port_range
          (is_empty d.port_command)
      ∷ when (is_negative d.max_running) (fail n Field.max_running (negative d.max_running))
      ∷ exclude_errors n (elim d.exclude [ none ↦ [] | some ps ↦ ps ])
      ∷ template_errors n d.template
      ∷ probe_errors (validate_project o true (probe n d))
      ∷ [])
