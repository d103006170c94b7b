-- ===== src/Config/Template.antt =====
-- internal/config/discovery.go: what the check of an entry's template says of the projects made from
-- it.
use herd_wake.Prelude.{
  Bool, true, false, not, ◌&&◌, List, [], ◌∷◌, All, All-append, All-append_parts, Bytes, codes,
  equal, is_empty, ◌≡◌, refl, Bool-cases, inl, inr,
}
use herd_wake.Prelude.Int.{ℤ}
use herd_wake.Prelude.Space.{trim_space}
use herd_wake.Config.EnvFiles.{is_abs}
use herd_wake.Config.Errors.{Field, Complaint, FieldError, when}
use herd_wake.Config.Hostname.{
  Platform, Found, absent, directory, regular, other_file, is_valid_port, is_zero, is_negative,
  is_loopback_host,
}
use herd_wake.Config.Validate.{
  fail, url_errors, port_errors, same_port_errors, found_errors, directory_errors, env_file_error,
  env_file_errors, file_errors, command_errors, strategy_errors, readiness_errors, listen_errors,
  negative_errors, signal_errors,
}
use herd_wake.Config.ValidateDiscovery.{probe_errors, is_generated}

-- The fields that are made for each worktree and cannot be checked beforehand.
abbrev pub IsOpen : Field → Type 0
IsOpen Field.public_url = Unit
IsOpen Field.application_port = Unit
IsOpen Field.working_directory = Unit
IsOpen Field.readiness_url = Unit
IsOpen _ = ⊥

abbrev pub Open : FieldError → Type 0
Open e = IsOpen e.field

abbrev pub Skipped : FieldError → Type 0
Skipped e = is_generated e.field ≡ true

pub probe_errors-Skipped : (es : List FieldError) → probe_errors es ≡ [] → All Skipped es
unfolding probe_errors
probe_errors-Skipped [] h = tt
probe_errors-Skipped (e ∷ es) h = elim (Bool-cases (is_generated e.field)) [
  | inl g ↦ (g, probe_errors-Skipped es (rw g at h))
  | inr g ↦ cc (rw g at h)
]

-- An error on a field of its own that the probe does not have, the project does not have either.
when_moves :
    (b : Bool) (m n : Bytes) (f : Field) (c : Complaint)
    → is_generated f ≡ false
    → All Skipped (when b (fail n f c))
    → All Open (when b (fail m f c))
when_moves true m n f c h g = cc (h, g.0)
when_moves false m n f c h g = tt

when-Open :
    (b : Bool) (m : Bytes) (f : Field) (c : Complaint) → IsOpen f → All Open (when b (fail m f c))
when-Open true m f c h = (h, tt)
when-Open false m f c h = tt

file_moves :
    (m n file : Bytes) (x : Found)
    → All Skipped (file_errors n file x)
    → All Open (file_errors m file x)
unfolding file_errors
file_moves m n file absent g = cc (g.0)
file_moves m n file directory g = cc (g.0)
file_moves m n file regular g = tt
file_moves m n file other_file g = cc (g.0)

module _ (o : Platform) (m n : Bytes) where
  stat_moves :
      (file : Bytes) → All Skipped (env_file_error o n file) → All Open (env_file_error o m file)
  unfolding env_file_error file_errors
  stat_moves file g = elim (Bool-cases (is_empty (trim_space file))) [
    | inl e ↦ cc ((rw e at g).0)
    | inr e ↦ elim (Bool-cases (is_abs file)) [
      | inr a ↦ rw (e, a) tt
      | inl a ↦ rw (e, a) (file_moves m n file (o.stat file) (rw (e, a) at g))
    ]
  ]

  pub env_moves :
      (fs : List Bytes) → All Skipped (env_file_errors o n fs) → All Open (env_file_errors o m fs)
  unfolding env_file_errors
  env_moves [] g = tt
  env_moves (f ∷ fs) g =
      let r = All-append_parts Skipped (env_file_error o n f) (env_file_errors o n fs) g in
      All-append Open (env_file_error o m f) (env_file_errors o m fs) (stat_moves f r.0)
        (env_moves fs r.1)

  pub negative_moves :
      (l : List (Field × ℤ))
      → All (λ (x : Field × ℤ). is_generated x.0 ≡ false) l
      → All Skipped (negative_errors n l)
      → All Open (negative_errors m l)
  unfolding negative_errors
  negative_moves [] h g = tt
  negative_moves ((f, v) ∷ l) h g =
      let r =
        All-append_parts Skipped (when (is_negative v) (fail n f (Complaint.negative v)))
          (negative_errors n l) g in
      All-append Open (when (is_negative v) (fail m f (Complaint.negative v))) (negative_errors m l)
        (when_moves (is_negative v) m n f (Complaint.negative v) h.0 r.0) (negative_moves l h.1 r.1)

  pub strategy_moves :
      (strategy u v : Bytes)
      → All Skipped (strategy_errors n strategy u)
      → All Open (strategy_errors m strategy v)
  unfolding strategy_errors
  strategy_moves strategy u v g = elim (Bool-cases (equal strategy (codes "http"))) [
    | inl h ↦ rw h (when-Open (is_empty v) m Field.readiness_url Complaint.required tt)
    | inr h ↦ rw h (
        when_moves (not (equal strategy (codes "tcp"))) m n Field.readiness_strategy
          (Complaint.invalid strategy) refl (rw h at g))
  ]

  pub command_moves :
      (command : Bytes)
      → All Skipped (command_errors n command)
      → All Open (command_errors m command)
  unfolding command_errors
  command_moves command =
      when_moves (is_empty (trim_space command)) m n Field.command Complaint.required refl

  pub listen_moves :
      (host : Bytes) (allowed : Bool)
      → All Skipped (listen_errors o n host allowed)
      → All Open (listen_errors o m host allowed)
  unfolding listen_errors
  listen_moves host allowed =
      when_moves (not (is_loopback_host o host) && not allowed) m n Field.listen_host
        (Complaint.not_loopback host) refl

  pub signal_moves :
      (signal : Bytes) → All Skipped (signal_errors n signal) → All Open (signal_errors m signal)
  unfolding signal_errors
  signal_moves signal = when_moves _ m n Field.shutdown_signal (Complaint.invalid signal) refl

-- The checks of what is made for a worktree.
pub url_errors-Open : (o : Platform) (m url : Bytes) → All Open (url_errors o m url)
unfolding url_errors
url_errors-Open o m url = elim (Bool-cases (is_empty url)) [
  | inl e ↦ rw e (tt, tt)
  | inr e ↦ rw e (when-Open _ m Field.public_url (Complaint.invalid url) tt)
]

pub port_errors-Open : (m : Bytes) (port : ℤ) → All Open (port_errors m Field.application_port port)
unfolding port_errors
port_errors-Open m port = elim (Bool-cases (is_zero port)) [
  | inl e ↦ rw e (tt, tt)
  | inr e ↦ rw e (
      when-Open (not (is_valid_port port)) m Field.application_port (Complaint.invalid_port port)
        tt)
]

pub same_port_errors-Open : (m : Bytes) (s a : ℤ) → All Open (same_port_errors m s a)
unfolding same_port_errors
same_port_errors-Open m s a = when-Open _ m Field.application_port (Complaint.same_ports a) tt

pub directory_errors-Open :
    (o : Platform) (m : Bytes) (skip : Bool) (path : Bytes)
    → All Open (directory_errors o m skip path)
unfolding directory_errors found_errors
directory_errors-Open o m skip path = elim (Bool-cases (is_empty path)) [
  | inl e ↦ rw e (tt, tt)
  | inr e ↦ rw e (found (o.stat path))
]
  where
    found : (x : Found) → All Open (found_errors m skip path x)
    found absent = when-Open (not skip) m Field.working_directory (Complaint.does_not_exist path) tt
    found directory = tt
    found regular = (tt, tt)
    found other_file = (tt, tt)

pub readiness_errors-Open : (o : Platform) (m url : Bytes) → All Open (readiness_errors o m url)
unfolding readiness_errors
readiness_errors-Open o m url = when-Open _ m Field.readiness_url (Complaint.invalid url) tt
