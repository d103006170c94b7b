-- ===== src/Daemon/Budget/Victims.antt =====
-- Whom the budget stops, and whom it names when it can stop nobody.
use herd_wake.Prelude.{
  ℕ, suc, ◌≤◌, ◌≡◌, refl, ap, ◌⊎◌, inl, inr, Bool, true, false, List, [], ◌∷◌, Option, none, some,
  leb, if◌then◌else◌, arith, Bool-cases, length, All,
}
use herd_wake.Prelude.Int.{is_positive}
use herd_wake.Process.Supervisor.Types.{running}
use herd_wake.Idle.Tracker.{Tracker, begin_stop}
use herd_wake.Daemon.Budget.{
  Reason, block, late_reason, last_active, Proj, Found, victim, nobody, count_running, holds_slot,
  first_victim, judge, eviction_order, block_reason, pool, insert,
}

-- A running project that nothing keeps.
pub record Evictable (now : ℕ) (p : Proj) : Type 0 where
  pub is_running : p.state ≡ running
  pub not_always_on : p.always_on ≡ false
  pub none_in_flight : is_positive p.tracker.inflight ≡ false
  pub none_persistent : is_positive p.tracker.persistent ≡ false
  pub no_lease : p.tracker.lease_until ≤ now
  pub no_gate : p.tracker.gate ≡ none

abbrev pub Holds : Proj → Type 0
Holds p = holds_slot p ≡ true

-- The budget could stop the project now.
abbrev pub verdict : Option Reason → Bool → Bool
verdict (some r) through = false
verdict none through = through

abbrev pub evictable_now : (g now : ℕ) → Proj → Bool
evictable_now g now p = verdict (block_reason p now) (begin_stop p.tracker g now).1

evictable_now-Evictable :
    (g now : ℕ) (p : Proj) → holds_slot p ≡ true → evictable_now g now p ≡ true → Evictable now p
unfolding block_reason begin_stop
evictable_now-Evictable g now p h e = ground arith

pub insert-All {ℓ} :
    (P : Proj → Type ℓ) (p : Proj) (ps : List Proj) → P p → All P ps → All P (insert p ps)
unfolding insert
insert-All P p [] h k = (h, k)
insert-All P p (q ∷ qs) h k = elim (Bool-cases (leb (last_active p) (last_active q))) [
  | inl le ↦ rw le (h, k)
  | inr gt ↦ rw gt (k.0, insert-All P p qs h k.1)
]

pub eviction_order-Holds : (ps : List Proj) → All Holds (eviction_order ps)
unfolding eviction_order
eviction_order-Holds [] = tt
eviction_order-Holds (p ∷ ps) = elim (Bool-cases (holds_slot p)) [
  | inl h ↦
      rw (h, eviction_order) (insert-All Holds p (eviction_order ps) h (eviction_order-Holds ps))
  | inr h ↦ rw (h, eviction_order) (eviction_order-Holds ps)
]

-- Each project of the list is as recently active as `v`, or could not be stopped.
abbrev pub Spared : (g now : ℕ) → Proj → Proj → Type 0
Spared g now v p =
    (holds_slot p ≡ false) ⊎ (evictable_now g now p ≡ false) ⊎ (last_active v ≤ last_active p)

placed {ℓ} :
    (P : Proj → Type ℓ) (p q : Proj) (qs rest : List Proj) (b : Bool)
    → (All P rest → P p × All P qs)
    → All P (if b then p ∷ q ∷ qs else q ∷ rest)
    → P p × All P (q ∷ qs)
placed P p q qs rest true f h = h
placed P p q qs rest false f h = let (a, b) = f h.1 in (a, (h.0, b))

insert-All_inv {ℓ} :
    (P : Proj → Type ℓ) (p : Proj) (ps : List Proj) → All P (insert p ps) → P p × All P ps
unfolding insert
insert-All_inv P p [] h = h
insert-All_inv P p (q ∷ qs) h =
    placed P p q qs (insert p qs) (leb (last_active p) (last_active q)) (insert-All_inv P p qs) h

abbrev pub IsSorted : List Proj → Type 0
IsSorted [] = Unit
IsSorted (p ∷ ps) = All (λ q. last_active p ≤ last_active q) ps × IsSorted ps

All-mono {ℓ κ} :
    (P : Proj → Type ℓ) (Q : Proj → Type κ) (ps : List Proj)
    → ((p : Proj) → P p → Q p)
    → All P ps
    → All Q ps
All-mono P Q [] f h = tt
All-mono P Q (p ∷ ps) f h = (f p h.0, All-mono P Q ps f h.1)

at_most : {a b : ℕ} → leb a b ≡ true → a ≤ b
at_most h = ground arith

at_least : {a b : ℕ} → leb a b ≡ false → b ≤ a
at_least h = ground arith

le_of : {a b c : ℕ} → a ≤ b → b ≤ c → a ≤ c
le_of h k = omega arith

insert-IsSorted : (p : Proj) (ps : List Proj) → IsSorted ps → IsSorted (insert p ps)
unfolding insert
insert-IsSorted p [] h = (tt, tt)
insert-IsSorted p (q ∷ qs) h = elim (Bool-cases (leb (last_active p) (last_active q))) [
  | inl le ↦ rw le ((at_most le, All-mono _ _ qs (λ r k. le_of (at_most le) k) h.0), h)
  | inr gt ↦ rw gt (
    insert-All (λ r. last_active q ≤ last_active r) p qs (at_least gt) h.0,
    insert-IsSorted p qs h.1,
  )
]

pub eviction_order-IsSorted : (ps : List Proj) → IsSorted (eviction_order ps)
unfolding eviction_order
eviction_order-IsSorted [] = tt
eviction_order-IsSorted (p ∷ ps) = elim (Bool-cases (holds_slot p)) [
  | inl h ↦
      rw (h, eviction_order) (insert-IsSorted p (eviction_order ps) (eviction_order-IsSorted ps))
  | inr h ↦ rw (h, eviction_order) (eviction_order-IsSorted ps)
]

-- What a search found, of a list of candidates.
abbrev pub FoundIn : (g now : ℕ) → List Proj → Found → Type 0
FoundIn g now ps (victim v t) =
    (evictable_now g now v ≡ true) × (holds_slot v ≡ true) × All (Spared g now v) ps
FoundIn g now ps (nobody bs) = length bs ≡ length ps

block-FoundIn :
    (g now : ℕ) (p : Proj) (r : Reason) (ps : List Proj) (f : Found)
    → evictable_now g now p ≡ false
    → FoundIn g now ps f
    → FoundIn g now (p ∷ ps) (block p r f)
block-FoundIn g now p r ps (victim v t) e h = (h.0, h.1, (inr (inl e), h.2))
block-FoundIn g now p r ps (nobody bs) e h = ap suc h

judge-FoundIn :
    (g now : ℕ) (why : Option Reason) (begun : Tracker × Bool) (late : Option Reason) (p : Proj)
    (ps : List Proj) (f : Found)
    → evictable_now g now p ≡ verdict why begun.1
    → holds_slot p ≡ true
    → All (λ q. last_active p ≤ last_active q) ps
    → FoundIn g now ps f
    → FoundIn g now (p ∷ ps) (judge why begun late p f)
unfolding judge
judge-FoundIn g now (some r) begun late p ps f e h s k = block-FoundIn g now p r ps f e k
judge-FoundIn g now none (t, false) late p ps f e h s k =
    block-FoundIn g now p (late_reason late) ps f e k
judge-FoundIn g now none (t, true) late p ps f e h s k =
    (e, h, (inr (inr (omega arith)), All-mono _ _ ps (λ q le. inr (inr le)) s))

pub first_victim-FoundIn :
    (g now : ℕ) (ps : List Proj)
    → All Holds ps
    → IsSorted ps
    → FoundIn g now ps (first_victim ps g now)
unfolding first_victim
first_victim-FoundIn g now [] h s = refl
first_victim-FoundIn g now (p ∷ ps) h s =
    judge-FoundIn g now (block_reason p now) (begin_stop p.tracker g now) (block_reason p now) p ps
      (first_victim ps g now) refl h.0 s.0 (first_victim-FoundIn g now ps h.1 s.1)

-- Who holds no slot is no candidate.
pub order-All_inv {ℓ} :
    (P : Proj → Type ℓ) (ps : List Proj)
    → ((p : Proj) → holds_slot p ≡ false → P p)
    → All P (eviction_order ps)
    → All P ps
unfolding eviction_order
order-All_inv P [] f h = tt
order-All_inv P (p ∷ ps) f h = elim (Bool-cases (holds_slot p)) [
  | inl here ↦
      let (a, b) = insert-All_inv P p (eviction_order ps) (rw (here, eviction_order) at h) in
      (a, order-All_inv P ps f b)
  | inr gone ↦ (f p gone, order-All_inv P ps f (rw (gone, eviction_order) at h))
]

-- The project that is stopped to make room is running, not always_on, has nothing in flight, no
-- protected connection, no lease and no other stop under way; and every project of the pool that
-- holds a slot and could have been stopped instead was active at least as recently.
pub victim_least_active :
    (pool : List Proj) (g now : ℕ) (v : Proj) (t : Tracker)
    → first_victim (eviction_order pool) g now ≡ victim v t
    → Evictable now v × All (Spared g now v) pool
victim_least_active pool g now v t e =
    let found = rw e at (
      first_victim-FoundIn g now (eviction_order pool) (eviction_order-Holds pool)
        (eviction_order-IsSorted pool)) in
    (
      evictable_now-Evictable g now v found.1 found.0,
      order-All_inv (Spared g now v) pool (λ p h. inl h) found.2,
    )

length-insert : (p : Proj) (ps : List Proj) → length (insert p ps) ≡ suc (length ps)
unfolding insert
length-insert p [] = refl
length-insert p (q ∷ qs) = ground (arith, length-insert p qs)

pub length-eviction_order : (ps : List Proj) → length (eviction_order ps) ≡ count_running ps
unfolding eviction_order count_running
length-eviction_order [] = refl
length-eviction_order (p ∷ ps) =
    ground (arith, length-eviction_order ps, length-insert p (eviction_order ps))
