-- ===== src/Config/Materialised.antt =====
-- internal/config/discovery.go: the projects of a wildcard entry that validates.
use herd_wake.Prelude.{
  Bool, true, false, not, ◌&&◌, List, [], ◌∷◌, ◌++◌, All, All-concat, All-concat_parts, concat-nil,
  length, ◌≤◌, Bytes, is_empty, arith, ◌≡◌, refl, Bool-cases, inl, inr,
}
use herd_wake.Prelude.Int.{ℤ, pos, negsuc}
use herd_wake.Config.Errors.{Field, Complaint, FieldError, when}
use herd_wake.Config.Hostname.{Platform, is_hostname, is_dns_label, is_valid_port}
use herd_wake.Config.Defaults.{apply_defaults}
use herd_wake.Config.Validate.{fail, validate_project, host_errors, port_errors}
use herd_wake.Config.Discovery.{
  Discovery, is_wildcard, label_host, dynamic_project, supervisor_port,
}
use herd_wake.Config.ValidateDiscovery.{
  validate_entry, probe, mode_setting_errors, wildcard_errors, base_errors,
}
use herd_wake.Config.EntryPorts.{setting_port}
use herd_wake.Config.Dynamic.{dotted-is_hostname, dotted-lower_host}
use herd_wake.Config.Template.{
  Open, Skipped, probe_errors-Skipped, env_moves, negative_moves, strategy_moves, command_moves,
  listen_moves, signal_moves, url_errors-Open, port_errors-Open, same_port_errors-Open,
  directory_errors-Open, readiness_errors-Open,
}

base_hostname : (n base : Bytes) → base_errors n base ≡ [] → is_hostname base ≡ true
unfolding base_errors
base_hostname n base h = elim (Bool-cases (is_empty base)) [
  | inl e ↦ cc (rw e at h)
  | inr e ↦ elim (Bool-cases (is_hostname base)) [ inl y ↦ y | inr f ↦ cc (rw (e, f) at h) ]
]

setting_base :
    (o : Platform) (n : Bytes) (d : Discovery)
    → is_wildcard d ≡ true
    → mode_setting_errors o n d ≡ []
    → is_hostname d.base_domain ≡ true
unfolding mode_setting_errors wildcard_errors
setting_base o n d w h = base_hostname n d.base_domain (concat-nil _ (rw w at h)).0

valid_port_none :
    (n : Bytes) (f : Field) (port : ℤ) → is_valid_port port ≡ true → port_errors n f port ≡ []
unfolding port_errors is_valid_port
valid_port_none n f (pos k) h = ground arith
valid_port_none n f (negsuc k) h = cc h

hostname_none : (n host : Bytes) → is_hostname host ≡ true → host_errors n host ≡ []
unfolding host_errors
hostname_none n host h = rw h (nothing (not (is_empty host)))
  where
    nothing :
        (b : Bool)
        → ◌≡◌ {A = List FieldError}
            (when (b && false) (fail n Field.host (Complaint.invalid host)))
            []
    nothing true = refl
    nothing false = refl

module _ (o : Platform) (skip : Bool) (d : Discovery) (n label dir : Bytes) (port : ℤ)
    (valid : validate_entry o n d ≡ []) (w : is_wildcard d ≡ true)
    (is_label : is_dns_label label ≡ true) (short : length (label_host d label) ≤ 253) where
  settings : mode_setting_errors o n d ≡ []
  settings = unfold validate_entry in (concat-nil _ valid).1.1.1.1.1.0

  passed : All Skipped (validate_project o true (probe o n d))
  passed =
      unfold validate_entry in probe_errors-Skipped _ (concat-nil _ valid).1.1.1.1.1.1.1.1.1.1.0

  no_host_errors : host_errors label (dynamic_project o d label dir port).host ≡ []
  unfolding dynamic_project apply_defaults label_host
  no_host_errors =
      let base = setting_base o n d w settings in
      rw (dotted-lower_host label d.base_domain is_label base o) (
        hostname_none label (label ++ b'.' ∷ d.base_domain)
          (dotted-is_hostname label d.base_domain is_label base (unfold label_host in short)))

  no_port_errors : port_errors label Field.supervisor_port (supervisor_port d) ≡ []
  no_port_errors =
      valid_port_none label Field.supervisor_port (supervisor_port d)
        (setting_port o n d w settings)

  -- Where a wildcard entry validates, the project that it makes for a DNS label whose host has at most
  -- 253 bytes fails the checks of a project, if at all, only in what is made for the worktree: its
  -- public_url, application_port, working_directory or readiness_url. It is right in its host, its
  -- supervisor port and all that comes from the template.
  pub dynamic_project-Open : All Open (validate_project o skip (dynamic_project o d label dir port))
  unfolding validate_project probe dynamic_project apply_defaults
  dynamic_project-Open =
      let g = All-concat_parts Skipped _ passed in
      All-concat Open _ (
        url_errors-Open o label _,
        (
          rw no_host_errors tt,
          (
            rw no_port_errors tt,
            (
              port_errors-Open label port,
              (
                same_port_errors-Open label (supervisor_port d) port,
                (
                  directory_errors-Open o label skip _,
                  (
                    env_moves o label n _ g.1.1.1.1.1.1.0,
                    (
                      command_moves o label n _ g.1.1.1.1.1.1.1.0,
                      (
                        strategy_moves o label n _ _ _ g.1.1.1.1.1.1.1.1.0,
                        (
                          readiness_errors-Open o label _,
                          (
                            listen_moves o label n _ _ g.1.1.1.1.1.1.1.1.1.1.0,
                            (
                              negative_moves o label n _
                                  (refl, (refl, (refl, (refl, (refl, (refl, (refl, tt)))))))
                                  g.1.1.1.1.1.1.1.1.1.1.1.0,
                              (signal_moves o label n _ g.1.1.1.1.1.1.1.1.1.1.1.1.0, tt),
                            ),
                          ),
                        ),
                      ),
                    ),
                  ),
                ),
              ),
            ),
          ),
        ),
      )
