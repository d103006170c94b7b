-- ===== src/Daemon/Budget/Blockers.antt =====
-- internal/daemon/budget.go: what a search that can stop nobody says of each project that holds a slot.
use mathlib.Core.List.{Memᴰ}
use herd_wake.Prelude.{
  ℕ, suc, ◌<◌, ◌≡◌, refl, ap, ◌∙◌, inl, inr, Bool, true, false, List, [], ◌∷◌, Option, none, some,
  arith, Bool-cases, length, All, All-map,
}
use herd_wake.Prelude.Int.{is_positive}
use herd_wake.Process.Supervisor.Types.{starting}
use herd_wake.Idle.Tracker.{Tracker, begin_stop, arm, parked, lease_until}
use herd_wake.Daemon.Budget.{
  Reason, is_always_on, still_starting, being_idle_stopped, requests_in_flight, open_web_sockets,
  leased_until, Blocker, block, Proj, Found, victim, nobody, count_running, holds_slot,
  first_victim, judge, eviction_order, block_reason,
}
use herd_wake.Daemon.Budget.Victims.{Holds, insert-All, order-All_inv, length-eviction_order}

-- A reason is true of a project.
abbrev pub Explains : (now : ℕ) → Proj → Reason → Type 0
Explains now p is_always_on = p.always_on ≡ true
Explains now p still_starting = p.state ≡ starting
Explains now p (requests_in_flight n) = (p.tracker.inflight ≡ n) × (is_positive n ≡ true)
Explains now p (open_web_sockets n) = (p.tracker.persistent ≡ n) × (is_positive n ≡ true)
Explains now p (leased_until u) = (p.tracker.lease_until ≡ u) × (now < u)
Explains now p being_idle_stopped = ¬ (p.tracker.gate ≡ none)

-- A blocker has the project's name, and a reason that is true of it.
pub record Names (now : ℕ) (p : Proj) (b : Blocker) : Type 0 where
  pub name : b.name ≡ p.name
  pub reason : Explains now p b.reason

-- The blockers are those of the projects of a pool that hold a slot: each is of one of them, each of
-- them has one, and they are as many.
pub record NamesEach (now : ℕ) (pool : List Proj) (bs : List Blocker) : Type 0 where
  pub all_true : All (λ b. (p : Proj) × Memᴰ p pool × Holds p × Names now p b) bs
  pub none_missing : All (λ p. Holds p → (b : Blocker) × Memᴰ b bs × Names now p b) pool
  pub as_many : length bs ≡ count_running pool

abbrev Paired : (now : ℕ) → List Proj → List Blocker → Type 0
Paired now [] [] = Unit
Paired now [] (b ∷ bs) = ⊥
Paired now (p ∷ ps) [] = ⊥
Paired now (p ∷ ps) (b ∷ bs) = Names now p b × Paired now ps bs

abbrev Explained : (now : ℕ) → Proj → Option Reason → Type 0
Explained now p none = Unit
Explained now p (some r) = Explains now p r

block_reason-Explained : (now : ℕ) (p : Proj) → Explained now p (block_reason p now)
unfolding block_reason lease_until
block_reason-Explained now p = ground arith

held_by_gate :
    (g now : ℕ) (p : Proj)
    → block_reason p now ≡ none
    → (begin_stop p.tracker g now).1 ≡ false
    → ¬ (p.tracker.gate ≡ none)
unfolding block_reason begin_stop arm parked lease_until
held_by_gate g now p free failed no_gate = ground arith

abbrev PairedBy : (now : ℕ) → List Proj → Found → Type 0
PairedBy now ps (victim v t) = Unit
PairedBy now ps (nobody bs) = Paired now ps bs

block-PairedBy :
    (now : ℕ) (p : Proj) (r : Reason) (ps : List Proj) (f : Found)
    → Explains now p r
    → PairedBy now ps f
    → PairedBy now (p ∷ ps) (block p r f)
block-PairedBy now p r ps (victim v t) e h = tt
block-PairedBy now p r ps (nobody bs) e h = (record { name = refl; reason = e }, h)

judge-PairedBy :
    (g now : ℕ) (why : Option Reason) (begun : Tracker × Bool) (p : Proj) (ps : List Proj)
    (f : Found)
    → block_reason p now ≡ why
    → begin_stop p.tracker g now ≡ begun
    → PairedBy now ps f
    → PairedBy now (p ∷ ps) (judge why begun why p f)
unfolding judge
judge-PairedBy g now (some r) begun p ps f e b h =
    block-PairedBy now p r ps f (rw e at (block_reason-Explained now p)) h
judge-PairedBy g now none (t, true) p ps f e b h = tt
judge-PairedBy g now none (t, false) p ps f e b h =
    block-PairedBy now p being_idle_stopped ps f (held_by_gate g now p e (ap (λ x. x.1) b)) h

first_victim-PairedBy : (g now : ℕ) (ps : List Proj) → PairedBy now ps (first_victim ps g now)
unfolding first_victim
first_victim-PairedBy g now [] = tt
first_victim-PairedBy g now (p ∷ ps) =
    judge-PairedBy g now (block_reason p now) (begin_stop p.tracker g now) p ps
      (first_victim ps g now) refl refl (first_victim-PairedBy g now ps)

length-Paired :
    (now : ℕ) (ps : List Proj) (bs : List Blocker) → Paired now ps bs → length bs ≡ length ps
length-Paired now [] [] h = refl
length-Paired now [] (b ∷ bs) h = absurd h
length-Paired now (p ∷ ps) [] h = absurd h
length-Paired now (p ∷ ps) (b ∷ bs) h = ap suc (length-Paired now ps bs h.1)

-- A property of the projects passes to their blockers, ...
Paired-blockers {ℓ} :
    (P : Proj → Type ℓ) (now : ℕ) (ps : List Proj) (bs : List Blocker)
    → Paired now ps bs
    → All P ps
    → All (λ b. (p : Proj) × P p × Names now p b) bs
Paired-blockers P now [] [] h k = tt
Paired-blockers P now [] (b ∷ bs) h k = absurd h
Paired-blockers P now (p ∷ ps) [] h k = absurd h
Paired-blockers P now (p ∷ ps) (b ∷ bs) h k = ((p, k.0, h.0), Paired-blockers P now ps bs h.1 k.1)

-- ... and each project has one.
Paired-projects :
    (now : ℕ) (ps : List Proj) (bs : List Blocker)
    → Paired now ps bs
    → All (λ p. (b : Blocker) × Memᴰ b bs × Names now p b) ps
Paired-projects now [] [] h = tt
Paired-projects now [] (b ∷ bs) h = absurd h
Paired-projects now (p ∷ ps) [] h = absurd h
Paired-projects now (p ∷ ps) (b ∷ bs) h = (
  (b, Memᴰ.head refl, h.0),
  All-map _ _ (λ q (c, m, n). (c, Memᴰ.tail m, n)) ps (Paired-projects now ps bs h.1),
)

order-All {ℓ} :
    (P : Proj → Type ℓ) (ps : List Proj) → All (λ p. Holds p → P p) ps → All P (eviction_order ps)
unfolding eviction_order
order-All P [] h = tt
order-All P (p ∷ ps) h = elim (Bool-cases (holds_slot p)) [
  | inl here ↦
      rw (here, eviction_order) (insert-All P p (eviction_order ps) (h.0 here) (order-All P ps h.1))
  | inr gone ↦ rw (gone, eviction_order) (order-All P ps h.1)
]

members : (ps : List Proj) → All (λ p. Holds p → Memᴰ p ps × Holds p) ps
members [] = tt
members (p ∷ ps) =
    ((λ h. (Memᴰ.head refl, h)), All-map _ _ (λ q f h. (Memᴰ.tail (f h).0, h)) ps (members ps))

-- A search that can stop nobody names each project of the pool that holds a slot.
pub nobody-NamesEach :
    (pool : List Proj) (g now : ℕ) (bs : List Blocker)
    → first_victim (eviction_order pool) g now ≡ nobody bs
    → NamesEach now pool bs
nobody-NamesEach pool g now bs e =
    let paired : Paired now (eviction_order pool) bs =
      rw e at (first_victim-PairedBy g now (eviction_order pool)) in
    record {
      all_true =
          All-map _ _ (λ b (p, k, n). (p, k.0, k.1, n)) bs
            (Paired-blockers (λ p. Memᴰ p pool × Holds p) now (eviction_order pool) bs paired
              (order-All (λ p. Memᴰ p pool × Holds p) pool (members pool)));
      none_missing =
          order-All_inv (λ p. Holds p → (b : Blocker) × Memᴰ b bs × Names now p b) pool
            (λ p gone here. cc (gone, here))
            (All-map _ _ (λ p n here. n) (eviction_order pool)
              (Paired-projects now (eviction_order pool) bs paired));
      as_many = length-Paired now (eviction_order pool) bs paired ∙ length-eviction_order pool;
    }
