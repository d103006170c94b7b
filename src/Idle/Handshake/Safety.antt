-- ===== src/Idle/Handshake/Safety.antt =====
-- No request reaches a process that is being stopped.
use herd_wake.Prelude.{ℕ, ◌≡◌, refl, List, [], ◌∷◌}
use herd_wake.Prelude.Int.{pos}
use herd_wake.Idle.Handshake.{Handler, stopping, World, quiet, Event, step, run}
use herd_wake.Idle.Handshake.Blocked.{in_flights, kept_opens, Behind, AllBlocked, Safe}
use herd_wake.Idle.Handshake.Steps.{step-Safe}

pub run-Safe : (w : World) (es : List Event) → Safe w → Safe (run w es)
unfolding run
run-Safe w [] h = h
run-Safe w (e ∷ es) h = run-Safe (step w e) es (step-Safe w e h)

pub quiet-Safe : Safe quiet
unfolding quiet
quiet-Safe = record {
  inflight_is = refl;
  persistent_is = refl;
  gate_is = refl;
  shut = tt;
  numbered = tt;
  blocked = tt;
}

-- In every interleaving the counters of the tracker count the handlers that have begun and neither
-- returned nor handed over: `inflight` the requests and momentary upgrades, `persistent` the
-- protected upgrades.
pub counters_exact :
    (es : List Event)
    → ((run quiet es).tracker.inflight ≡ pos (in_flights (run quiet es).handlers))
      × ((run quiet es).tracker.persistent ≡ pos (kept_opens (run quiet es).handlers))
counters_exact es = let h = run-Safe quiet es quiet-Safe in (h.inflight_is, h.persistent_is)

abbrev pub AllBehind : ℕ → List Handler → Type 0
AllBehind g [] = Unit
AllBehind g (h ∷ hs) = Behind g h.phase × AllBehind g hs

pub behind_all : (g : ℕ) (hs : List Handler) → AllBlocked (stopping g) hs → AllBehind g hs
behind_all g [] b = tt
behind_all g (h ∷ hs) b = (b.0, behind_all g hs b.1)

-- In every interleaving, while a stopper that `BeginStop` let through has not released its gate, each
-- handler that holds a count has not read the gate yet or is held by this gate, so that none of them
-- forwards to the process that is being stopped.
pub stopping-AllBehind :
    (es : List Event) (g : ℕ)
    → (run quiet es).stopper ≡ stopping g
    → AllBehind g (run quiet es).handlers
stopping-AllBehind es g e =
    behind_all g (run quiet es).handlers (rw e at (run-Safe quiet es quiet-Safe).blocked)
