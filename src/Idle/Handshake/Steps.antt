-- ===== src/Idle/Handshake/Steps.antt =====
-- Each event keeps the handshake safe.
use herd_wake.Prelude.{
  ℕ, zero, suc, ◌≡◌, refl, sym, ap, ◌∙◌, inl, inr, false, List, [], ◌∷◌, none, some, ◌==◌, arith,
  Bool-cases,
}
use herd_wake.Prelude.Int.{ℤ, pos, is_positive}
use herd_wake.Idle.Tracker.{
  Tracker, request_began, persistent_opened, lease, release_lease, lease_until, arm, open_gate,
}
use herd_wake.Idle.Handshake.{
  Kind, plain, protected, momentary, counted, Handler, Stopper, off, armed, seen_inflight,
  seen_persistent, stopping, World, Event, arrives, acts, leases, releases_lease, tries_to_stop,
  loads_inflight, loads_persistent, loads_lease, releases, begin, give_up, try_stop, load_inflight,
  load_persistent, load_lease, release, step,
}
use herd_wake.Idle.Handshake.Blocked.{
  in_flights, kept_opens, Blocked, AllBlocked, gate_of, Shut, Safe, AllBelow-mono, fresh,
  none_in_flight, none_kept_open,
}
use herd_wake.Idle.Handshake.Actions.{
  act_at-gate, act_at-inflight, act_at-persistent, act_at-Blocked,
}

pub off_Blocked : (hs : List Handler) → AllBlocked off hs
off_Blocked [] = tt
off_Blocked (h ∷ hs) = (tt, off_Blocked hs)

pub armed_Blocked : (g : ℕ) (hs : List Handler) → AllBlocked (armed g) hs
armed_Blocked g [] = tt
armed_Blocked g (h ∷ hs) = (tt, armed_Blocked g hs)

pub give_up-Safe : (w : World) (g : ℕ) → gate_of w.stopper ≡ some g → Safe w → Safe (give_up w g)
unfolding open_gate
give_up-Safe w g e h = record {
  inflight_is = h.inflight_is;
  persistent_is = h.persistent_is;
  gate_is = refl;
  shut = tt;
  numbered = ((rw e at h.shut).1, h.numbered);
  blocked = off_Blocked w.handlers;
}

-- The owner of the gate moves on.
pub move_on :
    (w : World) (s : Stopper)
    → gate_of s ≡ gate_of w.stopper
    → AllBlocked s w.handlers
    → Safe w
    → Safe (record w { stopper = s })
move_on w s e b h = record {
  inflight_is = h.inflight_is;
  persistent_is = h.persistent_is;
  gate_is = h.gate_is ∙ sym e;
  shut = rw e h.shut;
  numbered = h.numbered;
  blocked = b;
}

pub zero_of : (z : ℤ) (n : ℕ) → z ≡ pos n → is_positive z ≡ false → n ≡ 0
zero_of z zero e p = refl
zero_of z (suc n) e p = ground arith

pub load_inflight-Safe :
    (s : Stopper) (w : World) → w.stopper ≡ s → Safe w → Safe (load_inflight s w)
unfolding load_inflight
load_inflight-Safe (armed g) w e h = elim (Bool-cases (is_positive w.tracker.inflight)) [
  | inl busy ↦ rw (busy, load_inflight) (give_up-Safe w g (ap gate_of e) h)
  | inr free ↦
      rw (free, load_inflight)
        (move_on w (seen_inflight g) (sym (ap gate_of e))
          (none_in_flight g w.handlers (zero_of _ (in_flights w.handlers) h.inflight_is free)) h)
]
load_inflight-Safe off w e h = h
load_inflight-Safe (seen_inflight g) w e h = h
load_inflight-Safe (seen_persistent g) w e h = h
load_inflight-Safe (stopping g) w e h = h

pub load_persistent-Safe :
    (s : Stopper) (w : World) → w.stopper ≡ s → Safe w → Safe (load_persistent s w)
unfolding load_persistent
load_persistent-Safe (seen_inflight g) w e h =
    elim (Bool-cases (is_positive w.tracker.persistent)) [
      | inl busy ↦ rw (busy, load_persistent) (give_up-Safe w g (ap gate_of e) h)
      | inr free ↦
          rw (free, load_persistent)
            (move_on w (seen_persistent g) (sym (ap gate_of e))
              (none_kept_open g w.handlers (zero_of _ (kept_opens w.handlers) h.persistent_is free)
                (rw e at h.blocked))
              h)
    ]
load_persistent-Safe off w e h = h
load_persistent-Safe (armed g) w e h = h
load_persistent-Safe (seen_persistent g) w e h = h
load_persistent-Safe (stopping g) w e h = h

pub load_lease-Safe :
    (s : Stopper) (w : World) (now : ℕ) → w.stopper ≡ s → Safe w → Safe (load_lease s w now)
unfolding load_lease
load_lease-Safe (seen_persistent g) w now e h = elim (Bool-cases (lease_until w.tracker now == 0)) [
  | inl free ↦
      rw (free, load_lease)
        (move_on w (stopping g) (sym (ap gate_of e)) (behind_all w.handlers (rw e at h.blocked)) h)
  | inr leased ↦ rw (leased, load_lease) (give_up-Safe w g (ap gate_of e) h)
]
  where
    behind_all :
        (hs : List Handler) → AllBlocked (seen_persistent g) hs → AllBlocked (stopping g) hs
    behind_all [] b = tt
    behind_all (x ∷ hs) b = (b.0, behind_all hs b.1)
load_lease-Safe off w now e h = h
load_lease-Safe (armed g) w now e h = h
load_lease-Safe (seen_inflight g) w now e h = h
load_lease-Safe (stopping g) w now e h = h

pub release-Safe : (s : Stopper) (w : World) → w.stopper ≡ s → Safe w → Safe (release s w)
unfolding release
release-Safe (stopping g) w e h = give_up-Safe w g (ap gate_of e) h
release-Safe off w e h = h
release-Safe (armed g) w e h = h
release-Safe (seen_inflight g) w e h = h
release-Safe (seen_persistent g) w e h = h

pub counted_Blocked : (s : Stopper) (k : Kind) → Blocked s k counted
counted_Blocked off k = tt
counted_Blocked (armed g) k = tt
counted_Blocked (seen_inflight g) plain = tt
counted_Blocked (seen_inflight g) protected = tt
counted_Blocked (seen_inflight g) momentary = tt
counted_Blocked (seen_persistent g) k = tt
counted_Blocked (stopping g) k = tt

pub next_number :
    (s : Stopper) (ks : List ℕ) (n : ℕ) → Shut (gate_of s) ks n → Shut (gate_of s) ks (suc n)
next_number off ks n h = tt
next_number (armed g) ks n h = (h.0, omega arith)
next_number (seen_inflight g) ks n h = (h.0, omega arith)
next_number (seen_persistent g) ks n h = (h.0, omega arith)
next_number (stopping g) ks n h = (h.0, omega arith)

pub arrive-Safe : (w : World) (k : Kind) → Safe w → Safe (step w (arrives k))
unfolding step begin request_began persistent_opened
arrive-Safe w plain h = record {
  inflight_is = ground (arith, h.inflight_is);
  persistent_is = ground (arith, h.persistent_is);
  gate_is = h.gate_is;
  shut = h.shut;
  numbered = h.numbered;
  blocked = (counted_Blocked w.stopper plain, h.blocked);
}
arrive-Safe w protected h = record {
  inflight_is = ground (arith, h.inflight_is);
  persistent_is = ground (arith, h.persistent_is);
  gate_is = h.gate_is;
  shut = h.shut;
  numbered = h.numbered;
  blocked = (counted_Blocked w.stopper protected, h.blocked);
}
arrive-Safe w momentary h = record {
  inflight_is = ground (arith, h.inflight_is);
  persistent_is = ground (arith, h.persistent_is);
  gate_is = h.gate_is;
  shut = h.shut;
  numbered = h.numbered;
  blocked = (counted_Blocked w.stopper momentary, h.blocked);
}

pub arm_free : (t : Tracker) (n : ℕ) → t.gate ≡ none → arm t n ≡ some (record t { gate = some n })
unfolding arm
arm_free t n e = ground arith

pub arm_taken : (t : Tracker) (n g : ℕ) → t.gate ≡ some g → arm t n ≡ none
unfolding arm
arm_taken t n g e = ground arith

-- A stopper that finds a gate changes nothing but the number of the next one.
pub lose_race : (w : World) (g : ℕ) → gate_of w.stopper ≡ some g → Safe w → Safe (try_stop w)
unfolding try_stop
lose_race w g e h =
    rw (arm_taken w.tracker w.next_gate g (h.gate_is ∙ e), try_stop)
      (record {
        inflight_is = h.inflight_is;
        persistent_is = h.persistent_is;
        gate_is = h.gate_is;
        shut = next_number w.stopper w.tracker.closed w.next_gate h.shut;
        numbered = AllBelow-mono w.next_gate w.tracker.closed h.numbered;
        blocked = h.blocked;
      })

pub try_stop-Safe : (s : Stopper) (w : World) → w.stopper ≡ s → Safe w → Safe (try_stop w)
unfolding try_stop
try_stop-Safe off w e h =
    rw (arm_free w.tracker w.next_gate (h.gate_is ∙ ap gate_of e), try_stop)
      (record {
        inflight_is = h.inflight_is;
        persistent_is = h.persistent_is;
        gate_is = refl;
        shut = (fresh w.next_gate w.tracker.closed h.numbered, omega arith);
        numbered = AllBelow-mono w.next_gate w.tracker.closed h.numbered;
        blocked = armed_Blocked w.next_gate w.handlers;
      })
try_stop-Safe (armed g) w e h = lose_race w g (ap gate_of e) h
try_stop-Safe (seen_inflight g) w e h = lose_race w g (ap gate_of e) h
try_stop-Safe (seen_persistent g) w e h = lose_race w g (ap gate_of e) h
try_stop-Safe (stopping g) w e h = lose_race w g (ap gate_of e) h

pub step-Safe : (w : World) (e : Event) → Safe w → Safe (step w e)
unfolding step
step-Safe w (arrives k) h = arrive-Safe w k h
step-Safe w (acts i a) h =
    let (gate, closed) = act_at-gate i a w.handlers w.tracker in
    record {
      inflight_is = ground (arith, act_at-inflight i a w.handlers w.tracker 0, h.inflight_is);
      persistent_is = ground (arith, act_at-persistent i a w.handlers w.tracker 0, h.persistent_is);
      gate_is = gate ∙ h.gate_is;
      shut = rw closed h.shut;
      numbered = rw closed h.numbered;
      blocked =
          act_at-Blocked i a w.stopper w.handlers w.tracker w.next_gate h.gate_is h.shut h.blocked;
    }
step-Safe w (leases now ttl) h =
    unfold lease in
    record {
      inflight_is = h.inflight_is;
      persistent_is = h.persistent_is;
      gate_is = h.gate_is;
      shut = h.shut;
      numbered = h.numbered;
      blocked = h.blocked;
    }
step-Safe w releases_lease h =
    unfold release_lease in
    record {
      inflight_is = h.inflight_is;
      persistent_is = h.persistent_is;
      gate_is = h.gate_is;
      shut = h.shut;
      numbered = h.numbered;
      blocked = h.blocked;
    }
step-Safe w tries_to_stop h = try_stop-Safe w.stopper w refl h
step-Safe w loads_inflight h = load_inflight-Safe w.stopper w refl h
step-Safe w loads_persistent h = load_persistent-Safe w.stopper w refl h
step-Safe w (loads_lease now) h = load_lease-Safe w.stopper w now refl h
step-Safe w releases h = release-Safe w.stopper w refl h
