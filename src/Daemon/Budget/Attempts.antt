-- ===== src/Daemon/Budget/Attempts.antt =====
-- The attempts of a reservation, one at a time.
use herd_wake.Prelude.{
  ap, ℕ, zero, suc, ◌+◌, ◌≡◌, refl, inl, inr, Bool, true, false, ◌&&◌, ◌||◌, not, List, [], ◌∷◌,
  Option, none, some, ◌==◌, if◌then◌else◌, arith, Bool-cases, length,
}
use herd_wake.Daemon.Budget.{
  Retry, after_evict, Proj, CapacityError, Found, victim, nobody, first_victim, eviction_order,
  stop_proj, start_called, neither, Reservation, Request, needs_global, needs_entry, pool, attempt,
  try_reserve, is_registered, eviction_attempts, capacity_error, start_now, holds_or_refuses,
}

-- An attempt that needs room searches for a victim, ...
pub attempt_more :
    (left : ℕ) (q : Request) (err : Option CapacityError) (ps gone : List Proj)
    → (needs_global q ps || needs_entry q ps) ≡ true
    → attempt (suc left) q err ps gone
      ≡ after_evict
          (first_victim (eviction_order (pool q ps)) q.gate q.now)
          (attempt left q)
          q
          err
          ps
          gone
unfolding attempt
attempt_more left q err ps gone h = rw (h, attempt)

-- ... and one that has room calls `start`.
pub attempt_room :
    (left : ℕ) (q : Request) (err : Option CapacityError) (ps gone : List Proj)
    → (needs_global q ps || needs_entry q ps) ≡ false
    → attempt (suc left) q err ps gone
      ≡ record { answer = start_called; states = ps; evicted = gone }
unfolding attempt
attempt_room left q err ps gone h = rw (h, attempt)

pub both_false : (a b : Bool) → (a || b) ≡ false → (a ≡ false) × (b ≡ false)
both_false false b h = (refl, h)
both_false true b h = cc

-- A reservation that gets to the attempts.
pub try_reserve-attempt :
    (q : Request) (ps : List Proj)
    → holds_or_refuses q.project.state ≡ false
    → (q.cap == 0 && q.entry_cap == 0) ≡ false
    → is_registered q.project ps ≡ true
    → try_reserve q ps ≡ attempt eviction_attempts q none ps []
try_reserve-attempt q ps a b c = unfold try_reserve in rw (a, b, c) refl

-- Each search that goes on either stops one project or leaves an error behind.
after_evict-neither :
    (f : Found) (retry : Retry) (q : Request) (err : Option CapacityError) (ps gone : List Proj)
    (left : ℕ)
    → ((e : Option CapacityError) (xs ys : List Proj)
        → (retry e xs ys).answer ≡ neither
        → (e ≡ none) × (length (retry e xs ys).evicted ≡ left + length ys))
    → (after_evict f retry q err ps gone).answer ≡ neither
    → (err ≡ none) × (length (after_evict f retry q err ps gone).evicted ≡ suc left + length gone)
unfolding after_evict
after_evict-neither (victim v t) retry q err ps gone left h e =
    let (fine, count) = h err (stop_proj v.id t ps) (v ∷ gone) e in (fine, omega (arith, count))
after_evict-neither (nobody []) retry q err ps gone left h e =
    let (fine, count) = h (some (capacity_error q ps [])) ps gone e in cc fine
after_evict-neither (nobody (b ∷ bs)) retry q err ps gone left h e = cc

attempt-neither :
    (left : ℕ) (q : Request) (err : Option CapacityError) (ps gone : List Proj)
    → (attempt left q err ps gone).answer ≡ neither
    → (err ≡ none) × (length (attempt left q err ps gone).evicted ≡ left + length gone)
attempt-neither zero q none ps gone e = unfold attempt in (refl, omega arith)
attempt-neither zero q (some x) ps gone e = unfold attempt in cc
attempt-neither (suc left) q err ps gone e =
    elim (Bool-cases (needs_global q ps || needs_entry q ps)) [
      | inl more ↦ rw (attempt_more left q err ps gone more) (
          after_evict-neither _ (attempt left q) q err ps gone left (attempt-neither left q)
            (rw (attempt_more left q err ps gone more) at e))
      | inr room ↦ cc (ap (λ (r : Reservation). r.answer) (attempt_room left q err ps gone room))
    ]

chosen_neither :
    (a b c : Bool) (ps : List Proj) (r : Reservation)
    → (r.answer ≡ neither → length r.evicted ≡ 3)
    → let x =
        if a then start_now ps else if b then start_now ps else if c then start_now ps else r in
      x.answer ≡ neither → length x.evicted ≡ 3
chosen_neither true b c ps r h e = cc
chosen_neither false true c ps r h e = cc
chosen_neither false false true ps r h e = cc
chosen_neither false false false ps r h e = h e

-- A reservation that returns neither a channel nor an error has stopped three projects.
pub neither_evicts_three :
    (q : Request) (ps : List Proj)
    → (try_reserve q ps).answer ≡ neither
    → length (try_reserve q ps).evicted ≡ 3
neither_evicts_three q ps =
    unfold try_reserve in
    chosen_neither (holds_or_refuses q.project.state) (q.cap == 0 && q.entry_cap == 0)
      (not (is_registered q.project ps)) ps (attempt eviction_attempts q none ps [])
      (λ e. (attempt-neither eviction_attempts q none ps [] e).1)
