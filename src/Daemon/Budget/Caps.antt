-- ===== src/Daemon/Budget/Caps.antt =====
-- A start that the budget lets through stays within the caps.
use herd_wake.Prelude.{
  ℕ, zero, suc, ◌≤◌, ◌≡◌, ◌⊎◌, inl, inr, true, false, ◌&&◌, ◌||◌, List, [], ◌∷◌, Option, none, some,
  ◌==◌, arith, Bool-cases,
}
use herd_wake.Daemon.Budget.Attempts.{attempt_more, attempt_room, both_false, try_reserve-attempt}
use herd_wake.Daemon.Budget.{
  after_evict, Retry, Entry, Proj, CapacityError, Found, victim, nobody, count_running, count_entry,
  claim, start_called, Request, over, needs_global, needs_entry, attempt, try_reserve,
  is_registered, eviction_attempts, holds_or_refuses,
}

abbrev Room : Request → List Proj → Type 0
Room q ps = (needs_global q ps ≡ false) × (needs_entry q ps ≡ false)

-- Whatever answer a search leads to, the next attempts give it.
after_evict-Room :
    (f : Found) (retry : Retry) (q : Request) (err : Option CapacityError) (ps gone : List Proj)
    → ((e : Option CapacityError) (xs ys : List Proj)
        → (retry e xs ys).answer ≡ start_called
        → Room q (retry e xs ys).states)
    → (after_evict f retry q err ps gone).answer ≡ start_called
    → Room q (after_evict f retry q err ps gone).states
unfolding after_evict
after_evict-Room (victim v t) retry q err ps gone h e = h _ _ _ e
after_evict-Room (nobody []) retry q err ps gone h e = h _ _ _ e
after_evict-Room (nobody (b ∷ bs)) retry q err ps gone h e = cc

attempt-Room :
    (left : ℕ) (q : Request) (err : Option CapacityError) (ps gone : List Proj)
    → (attempt left q err ps gone).answer ≡ start_called
    → Room q (attempt left q err ps gone).states
attempt-Room zero q none ps gone e = unfold attempt in cc
attempt-Room zero q (some x) ps gone e = unfold attempt in cc
attempt-Room (suc left) q err ps gone e =
    elim (Bool-cases (needs_global q ps || needs_entry q ps)) [
      | inl more ↦ rw (attempt_more left q err ps gone more) (
          after_evict-Room _ (attempt left q) q err ps gone (attempt-Room left q)
            (rw (attempt_more left q err ps gone more) at e))
      | inr room ↦
          rw (attempt_room left q err ps gone room)
            (both_false (needs_global q ps) (needs_entry q ps) room)
    ]

count-claim : (id : ℕ) (ps : List Proj) → count_running (claim id ps) ≤ suc (count_running ps)
unfolding count_running claim
count-claim id [] = omega arith
count-claim id (p ∷ ps) = ground (arith, count-claim id ps)

count_entry-claim :
    (e : Option Entry) (id : ℕ) (ps : List Proj)
    → count_entry e (claim id ps) ≤ suc (count_entry e ps)
unfolding count_entry claim
count_entry-claim e id [] = omega arith
count_entry-claim e id (p ∷ ps) = ground (arith, count_entry-claim e id ps)

cap_kept : (limit n m : ℕ) → over limit n ≡ false → m ≤ suc n → (limit ≡ 0) ⊎ (m ≤ limit)
cap_kept limit n m h k = ground arith

-- A reservation for a stopped or failed project that is registered calls `start` only where, with
-- the project counted as starting, neither cap is exceeded: max_running (0 means unlimited) and the
-- entry's own, however many projects were running before.
pub reserve_within_caps :
    (q : Request) (ps : List Proj)
    → holds_or_refuses q.project.state ≡ false
    → is_registered q.project ps ≡ true
    → (try_reserve q ps).answer ≡ start_called
    → let after = claim q.project.id (try_reserve q ps).states in
      ((q.cap ≡ 0) ⊎ (count_running after ≤ q.cap))
      × ((q.entry_cap ≡ 0) ⊎ (count_entry q.project.entry after ≤ q.entry_cap))
reserve_within_caps q ps idle known e = elim (Bool-cases (q.cap == 0 && q.entry_cap == 0)) [
  | inl uncapped ↦ (inl (ground arith), inl (ground arith))
  | inr capped ↦
      let same = try_reserve-attempt q ps idle capped known in
      let (room, room_entry) = attempt-Room eviction_attempts q none ps [] (rw same at e) in
      let final = (attempt eviction_attempts q none ps []).states in
      rw same (
        cap_kept q.cap (count_running final) (count_running (claim q.project.id final)) room
            (count-claim q.project.id final),
        cap_kept q.entry_cap (count_entry q.project.entry final)
            (count_entry q.project.entry (claim q.project.id final)) room_entry
            (count_entry-claim q.project.entry q.project.id final),
      )
]
