-- ===== src/Daemon/Wildcard/Resolve.antt =====
-- internal/daemon/wildcard.go: `resolve`, which runs one resolution per label at a time. Its two
-- critical sections are the events, and the resolutions that run between them, from `materialise` to
-- the second section, are the goroutines. Times are nanoseconds. The bound on the requests that
-- wait, which is that of `holdAndForward`, is left out.
use herd_wake.Prelude.{
  ℕ, suc, ◌+◌, Bool, true, false, List, [], ◌∷◌, Option, none, some, ltb, if◌then◌else◌, Bytes,
  equal,
}
use herd_wake.Daemon.Wildcard.Backoff.{resolve_backoff}

-- `resolveFailure`, without what it says
pub record ResolveFailure : Type 0 where
  pub count : ℕ
  pub retry_at : ℕ

-- The keys of `calls`, the map `failures`, and the labels whose `materialise` is running.
pub record Resolver : Type 0 where
  pub calls : List Bytes
  pub failures : List (Bytes × ResolveFailure)
  pub running : List Bytes

pub data Verdict : Type 0 where
  served not_found unavailable : Verdict

pub data Turn : Type 0 where
  request : (label : Bytes) (now : ℕ) → Turn
  finish : (label : Bytes) → Verdict → (now : ℕ) → Turn

unfoldable pub has_label : Bytes → List Bytes → Bool
has_label l [] = false
has_label l (m ∷ ms) = if equal l m then true else has_label l ms

-- `delete(rs.calls, label)`
unfoldable pub without : Bytes → List Bytes → List Bytes
without l [] = []
without l (m ∷ ms) = let rest = without l ms in if equal l m then rest else m ∷ rest

-- one goroutine less
unfoldable pub end_one : Bytes → List Bytes → List Bytes
end_one l [] = []
end_one l (m ∷ ms) = let rest = end_one l ms in if equal l m then ms else m ∷ rest

unfoldable pub failure_of : Bytes → List (Bytes × ResolveFailure) → Option ResolveFailure
failure_of l [] = none
failure_of l ((m, f) ∷ fs) = if equal l m then some f else failure_of l fs

unfoldable pub forget : Bytes → List (Bytes × ResolveFailure) → List (Bytes × ResolveFailure)
forget l [] = []
forget l ((m, f) ∷ fs) = let rest = forget l fs in if equal l m then rest else (m, f) ∷ rest

-- whether a label is in the pause behind a failure
unfoldable pub pausing : Option ResolveFailure → (now : ℕ) → Bool
pausing none now = false
pausing (some f) now = ltb now f.retry_at

abbrev pub failed_before : Option ResolveFailure → ℕ
failed_before none = 0
failed_before (some f) = f.count

-- the first critical section
unfoldable pub enter : (label : Bytes) → (now : ℕ) → Resolver → Resolver
enter label now r =
    if has_label label r.calls
    then r
    else if pausing (failure_of label r.failures) now
    then r
    else record r { calls = label ∷ r.calls; running = label ∷ r.running }

-- what the second one does with `failures`
unfoldable pub note :
    Bytes → Verdict → (now : ℕ) → List (Bytes × ResolveFailure) → List (Bytes × ResolveFailure)
note label served now fs = forget label fs
note label not_found now fs = forget label fs
note label unavailable now fs =
    let n = suc (failed_before (failure_of label fs)) in
    (label, record { count = n; retry_at = now + resolve_backoff n }) ∷ forget label fs

-- the second critical section, of a resolution that runs
unfoldable pub leave_call : (label : Bytes) → Verdict → (now : ℕ) → Resolver → Resolver
leave_call label v now r =
    if has_label label r.running
    then record {
      calls = without label r.calls;
      failures = note label v now r.failures;
      running = end_one label r.running;
    }
    else r

unfoldable pub turn : Turn → Resolver → Resolver
turn (request label now) r = enter label now r
turn (finish label v now) r = leave_call label v now r

unfoldable pub turns : List Turn → Resolver → Resolver
turns [] r = r
turns (t ∷ ts) r = turns ts (turn t r)

abbrev pub new_resolver : Resolver
new_resolver = record { calls = []; failures = []; running = [] }
