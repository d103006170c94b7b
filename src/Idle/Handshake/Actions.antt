-- ===== src/Idle/Handshake/Actions.antt =====
-- What a handler does to counters and gate.
use herd_wake.Prelude.{ℕ, zero, suc, ◌+◌, ◌≡◌, refl, List, [], ◌∷◌, arith}
use herd_wake.Prelude.Int.{pos}
use herd_wake.Idle.Tracker.{Tracker, request_ended, persistent_closed}
use herd_wake.Idle.Handshake.{Phase, Handler, Stopper, Action, end, act_in, act_at}
use herd_wake.Idle.Handshake.Blocked.{
  in_flight, kept_open, in_flights, kept_opens, Blocked, AllBlocked, gate_of, Shut,
}

-- A handler leaves the gate as it is.
pub act_in-gate :
    (p : Phase) (a : Action) (h : Handler) (t : Tracker)
    → ((act_in p a h t).1.gate ≡ t.gate) × ((act_in p a h t).1.closed ≡ t.closed)
unfolding act_in end request_ended persistent_closed
act_in-gate p a h t = ground arith

pub act_in-inflight :
    (p : Phase) (a : Action) (h : Handler) (t : Tracker) (rest : ℕ)
    → h.phase ≡ p
    → t.inflight ≡ pos (in_flight h.kind h.phase + rest)
    → (act_in p a h t).1.inflight
      ≡ pos (in_flight (act_in p a h t).0.kind (act_in p a h t).0.phase + rest)
unfolding act_in end request_ended persistent_closed
act_in-inflight p a h t rest e c = ground arith

pub act_in-persistent :
    (p : Phase) (a : Action) (h : Handler) (t : Tracker) (rest : ℕ)
    → h.phase ≡ p
    → t.persistent ≡ pos (kept_open h.kind h.phase + rest)
    → (act_in p a h t).1.persistent
      ≡ pos (kept_open (act_in p a h t).0.kind (act_in p a h t).0.phase + rest)
unfolding act_in end request_ended persistent_closed
act_in-persistent p a h t rest e c = ground arith

pub act_in-Blocked :
    (p : Phase) (a : Action) (s : Stopper) (h : Handler) (t : Tracker)
    → h.phase ≡ p
    → t.gate ≡ gate_of s
    → (n : ℕ) → Shut (gate_of s) t.closed n
    → Blocked s h.kind h.phase
    → Blocked s (act_in p a h t).0.kind (act_in p a h t).0.phase
unfolding act_in
act_in-Blocked p a s h t e gate n shut b = ground arith

pub act_at-gate :
    (i : ℕ) (a : Action) (hs : List Handler) (t : Tracker)
    → ((act_at i a hs t).1.gate ≡ t.gate) × ((act_at i a hs t).1.closed ≡ t.closed)
unfolding act_at
act_at-gate i a [] t = (refl, refl)
act_at-gate zero a (h ∷ hs) t = act_in-gate h.phase a h t
act_at-gate (suc i) a (h ∷ hs) t = act_at-gate i a hs t

pub act_at-inflight :
    (i : ℕ) (a : Action) (hs : List Handler) (t : Tracker) (rest : ℕ)
    → t.inflight ≡ pos (in_flights hs + rest)
    → (act_at i a hs t).1.inflight ≡ pos (in_flights (act_at i a hs t).0 + rest)
unfolding act_at
act_at-inflight i a [] t rest c = c
act_at-inflight zero a (h ∷ hs) t rest c =
    ground (arith, act_in-inflight h.phase a h t (in_flights hs + rest) refl)
act_at-inflight (suc i) a (h ∷ hs) t rest c =
    ground (arith, act_at-inflight i a hs t (in_flight h.kind h.phase + rest))

pub act_at-persistent :
    (i : ℕ) (a : Action) (hs : List Handler) (t : Tracker) (rest : ℕ)
    → t.persistent ≡ pos (kept_opens hs + rest)
    → (act_at i a hs t).1.persistent ≡ pos (kept_opens (act_at i a hs t).0 + rest)
unfolding act_at
act_at-persistent i a [] t rest c = c
act_at-persistent zero a (h ∷ hs) t rest c =
    ground (arith, act_in-persistent h.phase a h t (kept_opens hs + rest) refl)
act_at-persistent (suc i) a (h ∷ hs) t rest c =
    ground (arith, act_at-persistent i a hs t (kept_open h.kind h.phase + rest))

pub act_at-Blocked :
    (i : ℕ) (a : Action) (s : Stopper) (hs : List Handler) (t : Tracker) (n : ℕ)
    → t.gate ≡ gate_of s
    → Shut (gate_of s) t.closed n
    → AllBlocked s hs
    → AllBlocked s (act_at i a hs t).0
unfolding act_at
act_at-Blocked i a s [] t n gate shut b = b
act_at-Blocked zero a s (h ∷ hs) t n gate shut b =
    (act_in-Blocked h.phase a s h t refl gate n shut b.0, b.1)
act_at-Blocked (suc i) a s (h ∷ hs) t n gate shut b =
    (b.0, act_at-Blocked i a s hs t n gate shut b.1)
