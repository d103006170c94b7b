-- ===== src/Config/Exclusive.antt =====
-- internal/config/config.go: what holds of the ports and hosts of a configuration that validates.
use herd_wake.Prelude.{Bool, List, [], ◌∷◌, All, append-nil_parts, ◌≡◌, refl}
use herd_wake.Prelude.Int.{ℤ}
use herd_wake.Config.Project.{Project}
use herd_wake.Config.Errors.{FieldError}
use herd_wake.Config.Hostname.{Platform}
use herd_wake.Config.ValidateConfig.{
  Config, Claims, as_errors, no_claims, projects_check, validate_config,
}
use herd_wake.Config.Ports.{Recorded}
use herd_wake.Config.Rounds.{Apart, projects_check-Checked}
use herd_wake.Config.EntryPorts.{
  EntriesFree, Taken, discovery_errors-EntryPort, entries_claims-EntriesFree,
}

as_errors-nil : (es : List FieldError) → as_errors es ≡ [] → es ≡ []
as_errors-nil [] h = refl
as_errors-nil (e ∷ es) h = cc h

-- The ports of all projects.
abbrev pub project_ports : List Project → List ℤ
project_ports [] = []
project_ports (p ∷ ps) = p.supervisor_port ∷ p.application_port ∷ project_ports ps

project_ports-Taken :
    (ps : List Project) (c : Claims) → All (λ q. Recorded q c) ps → All (Taken c) (project_ports ps)
project_ports-Taken [] c h = tt
project_ports-Taken (p ∷ ps) c (r, h) =
    ((r.sup_claim, r.sup_at), ((r.app_claim, r.app_at), project_ports-Taken ps c h))

-- In a configuration that validates, any two projects are compatible: no port of one is a port of
-- the other, but that both may have the same supervisor port where both have a host, they are
-- different hosts, and their listen hosts are the same; no two projects have the same host; and the
-- port of a wildcard entry is no port of a project or of an earlier wildcard entry.
pub validate_config_exclusive :
    (o : Platform) (skip : Bool) (c : Config)
    → validate_config o skip c ≡ []
    → Apart c.projects × EntriesFree (project_ports c.projects) c.discovery
unfolding validate_config
validate_config_exclusive o skip c h =
    let a = append-nil_parts _ _ h in
    let b = append-nil_parts _ _ a.1 in
    let d = append-nil_parts _ _ b.1 in
    let k = projects_check-Checked o skip [] c.projects no_claims (as_errors-nil _ a.0) tt in
    (
      k.apart,
      entries_claims-EntriesFree c.discovery (project_ports c.projects)
          (projects_check o skip c.projects no_claims).1
          (discovery_errors-EntryPort o 0 [] c.discovery (as_errors-nil _ d.0))
          (as_errors-nil _ d.1) (project_ports-Taken c.projects _ k.recorded),
    )
