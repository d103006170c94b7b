-- ===== src/Idle/Handshake/Blocked.antt =====
-- What holds of handlers, gate and counters while a stop is decided.
use herd_wake.Prelude.{ℕ, suc, ◌+◌, ◌<◌, ◌≡◌, refl, false, List, [], ◌∷◌, Option, none, some, arith}
use herd_wake.Prelude.Int.{pos}
use herd_wake.Idle.Handshake.{
  Kind, plain, protected, momentary, Phase, counted, held, cleared, handed_over, returned, Handler,
  Stopper, off, armed, seen_inflight, seen_persistent, stopping, World, member,
}

-- Whether a handler holds its count.
abbrev pub active : Phase → ℕ
active counted = 1
active (held g) = 1
active cleared = 1
active handed_over = 0
active returned = 0

abbrev pub in_flight : Kind → Phase → ℕ
in_flight plain p = active p
in_flight protected p = 0
in_flight momentary p = active p

abbrev pub kept_open : Kind → Phase → ℕ
kept_open plain p = 0
kept_open protected p = active p
kept_open momentary p = 0

abbrev pub in_flights : List Handler → ℕ
in_flights [] = 0
in_flights (h ∷ hs) = in_flight h.kind h.phase + in_flights hs

abbrev pub kept_opens : List Handler → ℕ
kept_opens [] = 0
kept_opens (h ∷ hs) = kept_open h.kind h.phase + kept_opens hs

-- The handler is not past gate `g`: it has not read it, or it is held by it, or it is done.
abbrev pub Behind : ℕ → Phase → Type 0
Behind g counted = Unit
Behind g (held k) = k ≡ g
Behind g cleared = ⊥
Behind g handed_over = Unit
Behind g returned = Unit

abbrev pub Blocked : Stopper → Kind → Phase → Type 0
Blocked off k p = Unit
Blocked (armed g) k p = Unit
Blocked (seen_inflight g) plain p = Behind g p
Blocked (seen_inflight g) protected p = Unit
Blocked (seen_inflight g) momentary p = Behind g p
Blocked (seen_persistent g) k p = Behind g p
Blocked (stopping g) k p = Behind g p

abbrev pub AllBlocked : Stopper → List Handler → Type 0
AllBlocked s [] = Unit
AllBlocked s (h ∷ hs) = Blocked s h.kind h.phase × AllBlocked s hs

abbrev pub gate_of : Stopper → Option ℕ
gate_of off = none
gate_of (armed g) = some g
gate_of (seen_inflight g) = some g
gate_of (seen_persistent g) = some g
gate_of (stopping g) = some g

-- The gate in force is open to nobody, and channels are numbered upwards.
abbrev pub Shut : Option ℕ → List ℕ → ℕ → Type 0
Shut none ks n = Unit
Shut (some g) ks n = (member g ks ≡ false) × (g < n)

abbrev pub AllBelow : ℕ → List ℕ → Type 0
AllBelow n [] = Unit
AllBelow n (k ∷ ks) = (k < n) × AllBelow n ks

pub record Safe (w : World) : Type 0 where
  pub inflight_is : w.tracker.inflight ≡ pos (in_flights w.handlers)
  pub persistent_is : w.tracker.persistent ≡ pos (kept_opens w.handlers)
  pub gate_is : w.tracker.gate ≡ gate_of w.stopper
  pub shut : Shut (gate_of w.stopper) w.tracker.closed w.next_gate
  pub numbered : AllBelow w.next_gate w.tracker.closed
  pub blocked : AllBlocked w.stopper w.handlers

pub AllBelow-mono : (n : ℕ) (ks : List ℕ) → AllBelow n ks → AllBelow (suc n) ks
AllBelow-mono n [] h = tt
AllBelow-mono n (k ∷ ks) h = (omega arith, AllBelow-mono n ks h.1)

pub fresh : (n : ℕ) (ks : List ℕ) → AllBelow n ks → member n ks ≡ false
fresh n [] h = refl
fresh n (k ∷ ks) h = ground (arith, fresh n ks h.1)

pub idle_Blocked :
    (g : ℕ) (k : Kind) (p : Phase) → in_flight k p ≡ 0 → Blocked (seen_inflight g) k p
idle_Blocked g protected p e = tt
idle_Blocked g plain p e = ground arith
idle_Blocked g momentary p e = ground arith

pub closed_Blocked :
    (g : ℕ) (k : Kind) (p : Phase) → kept_open k p ≡ 0 → Blocked (seen_inflight g) k p → Behind g p
closed_Blocked g protected p e b = ground arith
closed_Blocked g plain p e b = b
closed_Blocked g momentary p e b = b

-- Nobody is in flight, so nobody is past the gate.
pub none_in_flight :
    (g : ℕ) (hs : List Handler) → in_flights hs ≡ 0 → AllBlocked (seen_inflight g) hs
none_in_flight g [] h = tt
none_in_flight g (x ∷ hs) h =
    (idle_Blocked g x.kind x.phase (omega arith), none_in_flight g hs (omega arith))

pub none_kept_open :
    (g : ℕ) (hs : List Handler)
    → kept_opens hs ≡ 0
    → AllBlocked (seen_inflight g) hs
    → AllBlocked (seen_persistent g) hs
none_kept_open g [] h b = tt
none_kept_open g (x ∷ hs) h b =
    (closed_Blocked g x.kind x.phase (omega arith) b.0, none_kept_open g hs (omega arith) b.1)
