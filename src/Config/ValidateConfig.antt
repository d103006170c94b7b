-- ===== src/Config/ValidateConfig.antt =====
-- internal/config/config.go: `Config.validate`, the checks of a whole configuration. The map
-- `projects` is the list of its projects in the order of `ProjectNames`; `claimed`, `hosts` and `seen`
-- are association lists.
use herd_wake.Prelude.{
  ℕ, zero, suc, ◌+◌, Bool, true, false, not, ◌||◌, List, [], ◌∷◌, ◌++◌, Option, none, some, ltb,
  length, if◌then◌else◌, Bytes, codes, equal, is_empty,
}
use herd_wake.Prelude.Int.{ℤ, pos, negsuc}
use herd_wake.Prelude.Space.{trim_space}
use herd_wake.Config.Project.{Project}
use herd_wake.Config.Errors.{
  Field, required, already_used, port_used, port_not_shared, listen_host_differs, empty_entry,
  FieldError, when,
}
use herd_wake.Config.Hostname.{Platform, is_valid_port, equal_int}
use herd_wake.Config.Defaults.{digits_from}
use herd_wake.Config.Validate.{fail, validate_project}
use herd_wake.Config.Discovery.{Discovery, is_wildcard, supervisor_port}
use herd_wake.Config.ValidateDiscovery
use herd_wake.Config.ValidateDiscovery.{validate_entry}

-- An entry of `discovery` may be null.
pub record Config : Type 0 where
  pub projects : List Project
  pub max_running : ℤ
  pub discovery : List (Option Discovery)

-- `portClaim`; a claim's holder is a project or a wildcard entry.
pub record PortClaim : Type 0 where
  pub project : Bytes
  pub field : Field
  pub host : Bytes
  pub listen_host : Bytes

-- the maps `claimed` and `hosts`
pub record Claims : Type 0 where
  pub claimed : List (ℤ × PortClaim)
  pub hosts : List (Bytes × Bytes)

pub data ConfigError : Type 0 where
  field_error : FieldError → ConfigError
  max_running_negative : ℤ → ConfigError
  max_running_below : (cap : ℤ) → (always_on : List Bytes) → ConfigError

unfoldable pub claim_at : ℤ → List (ℤ × PortClaim) → Option PortClaim
claim_at port [] = none
claim_at port ((k, c) ∷ m) = if equal_int k port then some c else claim_at port m

unfoldable pub host_owner : Bytes → List (Bytes × Bytes) → Option Bytes
host_owner host [] = none
host_owner host ((h, n) ∷ m) = if equal h host then some n else host_owner host m

abbrev pub is_supervisor : Field → Bool
is_supervisor Field.supervisor_port = true
is_supervisor _ = false

-- A port that is claimed already: the `switch` of the loop.
unfoldable pub conflict : Project → Field → ℤ → PortClaim → List FieldError
conflict p field port prev =
    if not (is_supervisor field) || not (is_supervisor prev.field)
    then fail p.name field (port_used port prev.project) ∷ []
    else if is_empty p.host || is_empty prev.host
    then fail p.name field (port_not_shared port prev.project) ∷ []
    else when (not (equal p.listen_host prev.listen_host))
        (fail p.name Field.listen_host (listen_host_differs port prev.project))

-- What a check adds: its errors, and the maps behind it.
abbrev pub Check : Type 0
Check = List FieldError × Claims

unfoldable pub claim_port : Project → Field → ℤ → Claims → Check
claim_port p field port c =
    if not (is_valid_port port) then ([], c) else elim (claim_at port c.claimed) [
      | some prev ↦ (conflict p field port prev, c)
      | none ↦ (
        [],
        record c {
          claimed =
              (
                port,
                record {
                  project = p.name;
                  field = field;
                  host = p.host;
                  listen_host = p.listen_host;
                },
              )
              ∷ c.claimed;
        },
      )
    ]

unfoldable pub claim_host : Project → Claims → Check
claim_host p c = if is_empty p.host then ([], c) else elim (host_owner p.host c.hosts) [
  | some prev ↦ (fail p.name Field.host (already_used prev) ∷ [], c)
  | none ↦ ([], record c { hosts = (p.host, p.name) ∷ c.hosts })
]

-- the claims of one project: its host, then its two ports
unfoldable pub claim_project : Project → Claims → Check
claim_project p c =
    let (e1, c1) = claim_host p c in
    let (e2, c2) = claim_port p Field.supervisor_port p.supervisor_port c1 in
    let (e3, c3) = claim_port p Field.application_port p.application_port c2 in
    (e1 ++ (e2 ++ e3), c3)

-- the port of a wildcard entry
unfoldable pub claim_entry : Option Discovery → Claims → Check
claim_entry none c = ([], c)
claim_entry (some d) c =
    if not (is_wildcard d) || not (is_valid_port (supervisor_port d))
    then ([], c)
    else elim (claim_at (supervisor_port d) c.claimed) [
      | some prev ↦ (
        ValidateDiscovery.fail d.name Field.supervisor_port
              (port_used (supervisor_port d) prev.project)
            ∷ [],
        c,
      )
      | none ↦ (
        [],
        record c {
          claimed =
              (
                supervisor_port d,
                record {
                  project = codes "discovery:" ++ d.name;
                  field = Field.supervisor_port;
                  host = [];
                  listen_host = [];
                },
              )
              ∷ c.claimed;
        },
      )
    ]

unfoldable pub entries_claims : List (Option Discovery) → Claims → List FieldError
entries_claims [] c = []
entries_claims (d ∷ ds) c = (claim_entry d c).0 ++ entries_claims ds (claim_entry d c).1

abbrev pub always_on_names : List Project → List Bytes
always_on_names [] = []
always_on_names (p ∷ ps) = if p.always_on then p.name ∷ always_on_names ps else always_on_names ps

-- `validateBudget`
unfoldable pub budget_errors : ℤ → List Project → List ConfigError
budget_errors (negsuc n) ps = max_running_negative (negsuc n) ∷ []
budget_errors (pos zero) ps = []
budget_errors (pos (suc n)) ps =
    when (ltb (suc n) (length (always_on_names ps)))
      (max_running_below (pos (suc n)) (always_on_names ps))

-- `fmt.Sprintf("#%d", i+1)`; no list has a million entries
unfoldable pub entry_number : ℕ → Bytes
entry_number i = b'#' ∷ digits_from 6 (i + 1)

-- the index of the last earlier entry of that name
unfoldable pub seen_at : Bytes → List (Bytes × ℕ) → Option ℕ
seen_at n [] = none
seen_at n ((m, i) ∷ seen) = if equal m n then some i else seen_at n seen

-- an entry of a name that an earlier one has
unfoldable pub seen_errors : (label name : Bytes) → Option ℕ → List FieldError
seen_errors label n none = []
seen_errors label n (some prev) =
    when (not (is_empty n))
      (ValidateDiscovery.fail label Field.name (already_used (entry_number prev)))

abbrev pub as_errors : List FieldError → List ConfigError
as_errors [] = []
as_errors (e ∷ es) = field_error e ∷ as_errors es

abbrev pub no_claims : Claims
no_claims = record { claimed = []; hosts = [] }

module _ (o : Platform) where
  -- the loop over the projects, and its maps behind it
  unfoldable pub projects_check : (skip : Bool) → List Project → Claims → Check
  projects_check skip [] c = ([], c)
  projects_check skip (p ∷ ps) c =
      let (e, c') = claim_project p c in
      let (es, c'') = projects_check skip ps c' in
      (
        when (is_empty (trim_space p.name)) (fail p.name Field.name required)
            ++ (validate_project o skip p ++ (e ++ es)),
        c'',
      )

  -- `validateDiscovery`
  unfoldable pub discovery_errors :
      (index : ℕ) → (seen : List (Bytes × ℕ)) → List (Option Discovery) → List FieldError
  discovery_errors i seen [] = []
  discovery_errors i seen (none ∷ ds) =
      ValidateDiscovery.fail (entry_number i) Field.name empty_entry
      ∷ discovery_errors (suc i) seen ds
  discovery_errors i seen (some d ∷ ds) =
      let label = if is_empty d.name then entry_number i else d.name in
      seen_errors label d.name (seen_at d.name seen)
      ++ (validate_entry o label d ++ discovery_errors (suc i) ((d.name, i) ∷ seen) ds)

  -- `Config.validate`
  unfoldable pub validate_config : (skip : Bool) → Config → List ConfigError
  validate_config skip c =
      let checked = projects_check skip c.projects no_claims in
      as_errors checked.0
      ++ (budget_errors c.max_running c.projects
          ++ (as_errors (discovery_errors 0 [] c.discovery)
              ++ as_errors (entries_claims c.discovery checked.1)))
