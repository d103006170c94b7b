-- ===== src/Idle/Tracker.antt =====
-- internal/idle/tracker.go. Each function is one method. Times are nanoseconds, and 0 is the zero
-- time; the counters are signed, as in the source. A gate is the number of its channel, and
-- `closed` lists the channels that are closed.
use herd_wake.Prelude.{
  ℕ, ◌+◌, Bool, true, false, ◌||◌, not, List, [], ◌∷◌, Option, none, some, ltb, ◌==◌, if◌then◌else◌,
}
use herd_wake.Prelude.Int.{ℤ, pos, add_one, sub_one, is_positive}

pub record Tracker : Type 0 where
  pub inflight : ℤ
  pub persistent : ℤ
  pub last_activity : ℕ
  pub gate : Option ℕ
  pub closed : List ℕ
  pub lease_until : ℕ

unfoldable pub new_tracker : Tracker
new_tracker = record {
  inflight = pos 0;
  persistent = pos 0;
  last_activity = 0;
  gate = none;
  closed = [];
  lease_until = 0;
}

unfoldable pub request_began : Tracker → Tracker
request_began t = record t { inflight = add_one t.inflight }

unfoldable pub request_ended : Tracker → (now : ℕ) → Tracker
request_ended t now = record t { last_activity = now; inflight = sub_one t.inflight }

unfoldable pub persistent_opened : Tracker → Tracker
persistent_opened t = record t { persistent = add_one t.persistent }

unfoldable pub persistent_closed : Tracker → (now : ℕ) → Tracker
persistent_closed t now = record t { last_activity = now; persistent = sub_one t.persistent }

unfoldable pub lease : Tracker → (now ttl : ℕ) → Tracker × ℕ
lease t now ttl = (record t { lease_until = now + ttl }, now + ttl)

unfoldable pub release_lease : Tracker → Tracker
release_lease t = record t { lease_until = 0 }

-- `LeaseUntil`: 0 is the zero time.
unfoldable pub lease_until : Tracker → (now : ℕ) → ℕ
lease_until t now = if ltb now t.lease_until then t.lease_until else 0

unfoldable pub parked : Tracker → (now : ℕ) → Bool
unfolding lease_until
parked t now = is_positive t.inflight || is_positive t.persistent || not (lease_until t now == 0)

unfoldable pub deadline : Tracker → (started_at timeout : ℕ) → ℕ
deadline t started_at timeout =
    (if ltb started_at t.last_activity then t.last_activity else started_at) + timeout

-- `gate.CompareAndSwap(nil, g)`
unfoldable pub arm : Tracker → (g : ℕ) → Option Tracker
arm t g = elim t.gate [ none ↦ some (record t { gate = some g }) | some _ ↦ none ]

-- `gate.Store(nil)` and `close(g.done)`: the roll-back of `BeginStop`, and the `release` that it
-- returns.
unfoldable pub open_gate : Tracker → (g : ℕ) → Tracker
open_gate t g = record t { gate = none; closed = g ∷ t.closed }

-- `BeginStop` with nothing in between; `Handshake` interleaves its steps.
unfoldable pub begin_stop : Tracker → (g now : ℕ) → Tracker × Bool
unfolding arm parked open_gate
begin_stop t g now = elim (arm t g) [
  | none ↦ (t, false)
  | some armed ↦ if parked armed now then (open_gate armed g, false) else (armed, true)
]
