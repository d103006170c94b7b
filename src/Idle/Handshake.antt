-- ===== src/Idle/Handshake.antt =====
-- internal/idle/tracker.go and internal/proxy/ondemand.go: the stop gate under interleaving. Request
-- handlers count themselves and then read the gate; a stopper publishes the gate and then reads the
-- counters, one load at a time. An event is one action of one of them: a load of a counter, of the gate or
-- of the lease is one by itself; `RequestEnded` and `PersistentClosed`, which store the time and then
-- count down, are one each, as is the end of a gate, which is cleared and then has its channel closed.
pub mod Blocked
pub mod Actions
pub mod Steps
pub mod Safety
use herd_wake.Prelude.{
  ℕ, zero, suc, Bool, true, false, List, [], ◌∷◌, ◌++◌, Option, none, some, ltb, ◌==◌,
  if◌then◌else◌,
}
use herd_wake.Prelude.Int.{is_positive}
use herd_wake.Idle.Tracker.{
  Tracker, new_tracker, request_began, request_ended, persistent_opened, persistent_closed, lease,
  release_lease, lease_until, arm, open_gate,
}

-- `plain` is `ServeHTTP`, `protected` and `momentary` are `serveUpgrade` with and without
-- `wsKeepAlive`.
pub data Kind : Type 0 where
  plain protected momentary : Kind

-- Where a handler is: counted and before `StopGate`; held by a gate; past the gate (on its way to
-- the process, or in it); handed over with its count given back; or returned.
pub data Phase : Type 0 where
  counted : Phase
  held : (gate : ℕ) → Phase
  cleared : Phase
  handed_over : Phase
  returned : Phase

pub record Handler : Type 0 where
  pub kind : Kind
  pub phase : Phase

-- Where the owner of the gate is in `BeginStop`, or `stopping` once that has returned true.
pub data Stopper : Type 0 where
  off : Stopper
  armed seen_inflight seen_persistent stopping : (gate : ℕ) → Stopper

pub record World : Type 0 where
  pub tracker : Tracker
  pub handlers : List Handler
  pub stopper : Stopper
  pub next_gate : ℕ

unfoldable pub quiet : World
unfolding new_tracker
quiet = record { tracker = new_tracker; handlers = []; stopper = off; next_gate = 0 }

-- What a handler does next: `StopGate`, the wait on the gate, the end of a momentary upgrade's
-- activity as it is forwarded, or its return (also because the client went away).
pub data Action : Type 0 where
  reads_gate passes_gate : Action
  hands_over returns : (now : ℕ) → Action

pub data Event : Type 0 where
  arrives : Kind → Event
  acts : (handler : ℕ) → Action → Event
  leases : (now ttl : ℕ) → Event
  releases_lease : Event
  tries_to_stop : Event
  loads_inflight loads_persistent : Event
  loads_lease : (now : ℕ) → Event
  releases : Event

-- `RequestBegan` or `PersistentOpened`
unfoldable pub begin : Kind → Tracker → Tracker
begin plain t = request_began t
begin protected t = persistent_opened t
begin momentary t = request_began t

-- `RequestEnded` or `PersistentClosed`
unfoldable pub end : Kind → ℕ → Tracker → Tracker
end plain now t = request_ended t now
end protected now t = persistent_closed t now
end momentary now t = request_ended t now

abbrev pub member : ℕ → List ℕ → Bool
member g [] = false
member g (k ∷ ks) = if k == g then true else member g ks

abbrev pub at : Handler → Phase → Handler
at h p = record h { phase = p }

unfoldable pub hand_over : Kind → Handler → ℕ → Tracker → Handler × Tracker
hand_over momentary h now t = (at h handed_over, end momentary now t)
hand_over _ h now t = (h, t)

-- An action that a handler is not at changes nothing.
unfoldable pub act_in : Phase → Action → Handler → Tracker → Handler × Tracker
unfolding hand_over
act_in counted reads_gate h t = (elim t.gate [ none ↦ at h cleared | some g ↦ at h (held g) ], t)
act_in (held g) passes_gate h t = (if member g t.closed then at h cleared else h, t)
act_in (held g) (returns now) h t = (at h returned, end h.kind now t)
act_in cleared (hands_over now) h t = hand_over h.kind h now t
act_in cleared (returns now) h t = (at h returned, end h.kind now t)
act_in handed_over (returns now) h t = (at h returned, t)
act_in _ _ h t = (h, t)

unfoldable pub act_at : ℕ → Action → List Handler → Tracker → List Handler × Tracker
unfolding act_in
act_at i a [] t = ([], t)
act_at zero a (h ∷ hs) t = let (h', t') = act_in h.phase a h t in (h' ∷ hs, t')
act_at (suc i) a (h ∷ hs) t = let (hs', t') = act_at i a hs t in (h ∷ hs', t')

-- the roll-back of `BeginStop`, and `release`
abbrev pub give_up : World → ℕ → World
give_up w g = record w { tracker = open_gate w.tracker g; stopper = off }

-- `t.gate.CompareAndSwap(nil, g)`: whoever loses it returns false at once.
unfoldable pub try_stop : World → World
try_stop w = elim (arm w.tracker w.next_gate) [
  | none ↦ record w { next_gate = suc w.next_gate }
  | some t ↦ record w { tracker = t; stopper = armed w.next_gate; next_gate = suc w.next_gate }
]

unfoldable pub load_inflight : Stopper → World → World
load_inflight (armed g) w =
    if is_positive w.tracker.inflight then give_up w g else record w { stopper = seen_inflight g }
load_inflight _ w = w

unfoldable pub load_persistent : Stopper → World → World
load_persistent (seen_inflight g) w =
    if is_positive w.tracker.persistent
    then give_up w g
    else record w { stopper = seen_persistent g }
load_persistent _ w = w

unfoldable pub load_lease : Stopper → World → ℕ → World
load_lease (seen_persistent g) w now =
    if lease_until w.tracker now == 0 then record w { stopper = stopping g } else give_up w g
load_lease _ w now = w

unfoldable pub release : Stopper → World → World
release (stopping g) w = give_up w g
release _ w = w

unfoldable pub step : World → Event → World
step w (arrives k) = record w {
  tracker = begin k w.tracker;
  handlers = record { kind = k; phase = counted } ∷ w.handlers;
}
step w (acts i a) =
    let (hs, t) = act_at i a w.handlers w.tracker in record w { handlers = hs; tracker = t }
step w (leases now ttl) = record w { tracker = (lease w.tracker now ttl).0 }
step w releases_lease = record w { tracker = release_lease w.tracker }
step w tries_to_stop = try_stop w
step w loads_inflight = load_inflight w.stopper w
step w loads_persistent = load_persistent w.stopper w
step w (loads_lease now) = load_lease w.stopper w now
step w releases = release w.stopper w

unfoldable pub run : World → List Event → World
run w [] = w
run w (e ∷ es) = run (step w e) es
