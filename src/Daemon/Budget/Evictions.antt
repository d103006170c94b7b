-- ===== src/Daemon/Budget/Evictions.antt =====
-- Whom a whole reservation stops, and what its refusal names.
use herd_wake.Prelude.{
  ℕ, zero, suc, ◌≡◌, refl, inl, inr, Bool, true, false, ◌&&◌, ◌||◌, not, List, [], ◌∷◌, Option,
  none, some, ◌==◌, if◌then◌else◌, arith, Bool-cases, All,
}
use herd_wake.Daemon.Budget.Attempts.{attempt_more, attempt_room}
use herd_wake.Daemon.Budget.{
  Blocker, Retry, after_evict, Proj, CapacityError, Found, victim, nobody, first_victim,
  eviction_order, Answer, start_called, refused, neither, Reservation, Request, needs_global,
  needs_entry, pool, attempt, try_reserve, is_registered, eviction_attempts, capacity_error,
  last_error, start_now, holds_or_refuses,
}
use herd_wake.Idle.Tracker.{Tracker}
use herd_wake.Daemon.Budget.Victims.{Evictable, victim_least_active}
use herd_wake.Daemon.Budget.Blockers.{NamesEach, nobody-NamesEach}

-- A refusal names the projects that hold a slot in the pool that was searched.
abbrev pub NamesAll : Request → Answer → List Proj → Type 0
NamesAll q (refused e) ps = NamesEach q.now (pool q ps) e.blockers
NamesAll q start_called ps = Unit
NamesAll q neither ps = Unit

abbrev Sound : Request → Reservation → Type 0
Sound q r = All (Evictable q.now) r.evicted × NamesAll q r.answer r.states

-- The error of an earlier attempt is that of a search that found nobody at all among these projects.
abbrev IsLeft : Request → Option CapacityError → List Proj → Type 0
IsLeft q none ps = Unit
IsLeft q (some e) ps =
    (e.blockers ≡ []) × (first_victim (eviction_order (pool q ps)) q.gate q.now ≡ nobody [])

blockers_kept :
    (q : Request) (ps : List Proj) (bs : List Blocker) → (capacity_error q ps bs).blockers ≡ bs
blockers_kept q ps bs = ground arith

last_NamesAll :
    (q : Request) (err : Option CapacityError) (ps : List Proj)
    → IsLeft q err ps
    → NamesAll q (last_error err) ps
last_NamesAll q none ps h = tt
last_NamesAll q (some e) ps h = rw h.0 (nobody-NamesEach (pool q ps) q.gate q.now [] h.1)

-- Where somebody can be stopped, no earlier attempt failed.
earlier_failure :
    (q : Request) (err : Option CapacityError) (ps qs : List Proj) (v : Proj) (t : Tracker)
    → first_victim (eviction_order (pool q ps)) q.gate q.now ≡ victim v t
    → IsLeft q err ps
    → IsLeft q err qs
earlier_failure q none ps qs v t found h = tt
earlier_failure q (some e) ps qs v t found h = cc (found, h.1)

after_evict-Sound :
    (f : Found) (retry : Retry) (q : Request) (err : Option CapacityError) (ps gone : List Proj)
    → first_victim (eviction_order (pool q ps)) q.gate q.now ≡ f
    → ((e : Option CapacityError) (xs ys : List Proj)
        → IsLeft q e xs
        → All (Evictable q.now) ys
        → Sound q (retry e xs ys))
    → IsLeft q err ps
    → All (Evictable q.now) gone
    → Sound q (after_evict f retry q err ps gone)
unfolding after_evict
after_evict-Sound (victim v t) retry q err ps gone found h k a =
    h err _ _ (earlier_failure q err ps _ v t found k)
      ((victim_least_active (pool q ps) q.gate q.now v t found).0, a)
after_evict-Sound (nobody []) retry q err ps gone found h k a =
    h (some (capacity_error q ps [])) ps gone (blockers_kept q ps [], found) a
after_evict-Sound (nobody (b ∷ bs)) retry q err ps gone found h k a =
    (a, rw (blockers_kept q ps (b ∷ bs)) (nobody-NamesEach (pool q ps) q.gate q.now (b ∷ bs) found))

attempt-Sound :
    (left : ℕ) (q : Request) (err : Option CapacityError) (ps gone : List Proj)
    → IsLeft q err ps
    → All (Evictable q.now) gone
    → Sound q (attempt left q err ps gone)
attempt-Sound zero q err ps gone k a = unfold attempt in (a, last_NamesAll q err ps k)
attempt-Sound (suc left) q err ps gone k a =
    elim (Bool-cases (needs_global q ps || needs_entry q ps)) [
      | inl more ↦
          rw (attempt_more left q err ps gone more)
            (after_evict-Sound _ (attempt left q) q err ps gone refl (attempt-Sound left q) k a)
      | inr room ↦ rw (attempt_room left q err ps gone room) (a, tt)
    ]

chosen_Sound :
    (a b c : Bool) (q : Request) (ps : List Proj) (r : Reservation)
    → Sound q r
    → Sound q
        (if a then start_now ps else if b then start_now ps else if c then start_now ps else r)
chosen_Sound true b c q ps r h = (tt, tt)
chosen_Sound false true c q ps r h = (tt, tt)
chosen_Sound false false true q ps r h = (tt, tt)
chosen_Sound false false false q ps r h = h

-- A reservation stops only running projects that are not always_on and have nothing in flight, no
-- protected connection, no lease and no other stop under way; and where it is refused, the blockers of
-- the refusal name the projects that hold a slot in the pool it searched, each with a reason that is true
-- of it: every blocker is of such a project, every such project has a blocker, and they are as many.
pub reserve_stops-Evictable :
    (q : Request) (ps : List Proj)
    → All (Evictable q.now) (try_reserve q ps).evicted
      × NamesAll q (try_reserve q ps).answer (try_reserve q ps).states
reserve_stops-Evictable q ps =
    unfold try_reserve in
    chosen_Sound (holds_or_refuses q.project.state) (q.cap == 0 && q.entry_cap == 0)
      (not (is_registered q.project ps)) q ps (attempt eviction_attempts q none ps [])
      (attempt-Sound eviction_attempts q none ps [] tt tt)
