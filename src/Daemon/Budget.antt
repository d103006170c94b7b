-- ===== src/Daemon/Budget.antt =====
-- internal/daemon/budget.go, the running-server budget. The budget lock is held throughout: a
-- reservation sees the projects as a list of records in name order, one `now` stands for its reads
-- of the clock, and what other goroutines change meanwhile is left out. `StopAsync` makes its project
-- stopping; the goroutine behind it and log lines are left out.
pub mod Caps
pub mod Victims
pub mod Blockers
pub mod Attempts
pub mod Evictions
use herd_wake.Prelude.{
  ℕ, zero, suc, ◌+◌, ◌-◌, Bool, true, false, ◌&&◌, ◌||◌, not, List, [], ◌∷◌, Option, none, some,
  ltb, leb, ◌==◌, if◌then◌else◌, Bytes, equal,
}
use herd_wake.Prelude.Int.{ℤ, pos, is_positive}
use herd_wake.Process.Supervisor.Types.{State, stopped, starting, running, stopping, failed}
use herd_wake.Idle.Tracker.{Tracker, lease_until, begin_stop}

-- `entryState`: a wildcard entry, by address.
pub record Entry : Type 0 where
  pub id : ℕ
  pub name : Bytes
  pub max_running : ℕ

-- `projectState`, by address, with the state and start time that its supervisor's snapshot gives.
pub record Proj : Type 0 where
  pub id : ℕ
  pub name : Bytes
  pub always_on : Bool
  pub dynamic : Bool
  pub entry : Option Entry
  pub state : State
  pub started_at : ℕ
  pub tracker : Tracker

pub data Reason : Type 0 where
  is_always_on still_starting being_idle_stopped : Reason
  requests_in_flight open_web_sockets : ℤ → Reason
  leased_until : ℕ → Reason

pub record Blocker : Type 0 where
  pub name : Bytes
  pub reason : Reason

pub data Scope : Type 0 where
  max_running : Scope
  of_entry : Bytes → Scope

pub record CapacityError : Type 0 where
  pub project : Bytes
  pub scope : Scope
  pub running : ℕ
  pub limit : ℕ
  pub blockers : List Blocker

abbrev pub takes_slot : State → Bool
takes_slot running = true
takes_slot starting = true
takes_slot _ = false

abbrev pub holds_slot : Proj → Bool
holds_slot p = takes_slot p.state

-- `entry != nil && st.entry == entry`
abbrev pub same_entry : Option Entry → Option Entry → Bool
same_entry none _ = false
same_entry (some e) none = false
same_entry (some e) (some f) = e.id == f.id

-- `countRunning`, its two results
unfoldable pub count_running : List Proj → ℕ
count_running [] = 0
count_running (p ∷ ps) = (if holds_slot p then 1 else 0) + count_running ps

unfoldable pub count_entry : Option Entry → List Proj → ℕ
count_entry e [] = 0
count_entry e (p ∷ ps) = (if holds_slot p && same_entry e p.entry then 1 else 0) + count_entry e ps

unfoldable pub entry_states : List Proj → Option Entry → List Proj
entry_states [] e = []
entry_states (p ∷ ps) e =
    let rest = entry_states ps e in if p.dynamic && same_entry e p.entry then p ∷ rest else rest

-- `candidate.lastActive`
abbrev pub last_active : Proj → ℕ
last_active p =
    if ltb p.started_at p.tracker.last_activity then p.tracker.last_activity else p.started_at

-- `sort.SliceStable`, by insertion: an equal one goes behind.
unfoldable pub insert : Proj → List Proj → List Proj
insert p [] = p ∷ []
insert p (q ∷ qs) = if leb (last_active p) (last_active q) then p ∷ q ∷ qs else q ∷ insert p qs

unfoldable pub eviction_order : List Proj → List Proj
unfolding insert
eviction_order [] = []
eviction_order (p ∷ ps) =
    let rest = eviction_order ps in if holds_slot p then insert p rest else rest

abbrev is_starting : State → Bool
is_starting starting = true
is_starting _ = false

unfoldable pub block_reason : Proj → (now : ℕ) → Option Reason
block_reason p now =
    if p.always_on
    then some is_always_on
    else if is_starting p.state
    then some still_starting
    else if is_positive p.tracker.inflight
    then some (requests_in_flight p.tracker.inflight)
    else if is_positive p.tracker.persistent
    then some (open_web_sockets p.tracker.persistent)
    else if not (lease_until p.tracker now == 0)
    then some (leased_until (lease_until p.tracker now))
    else none

-- the reason behind a `BeginStop` that failed
abbrev pub late_reason : Option Reason → Reason
late_reason none = being_idle_stopped
late_reason (some r) = r

-- What `evict` finds among the candidates: the project to stop, with its gate up, or the blockers.
pub data Found : Type 0 where
  victim : Proj → Tracker → Found
  nobody : List Blocker → Found

abbrev pub block : Proj → Reason → Found → Found
block p r (victim v t) = victim v t
block p r (nobody bs) = nobody (record { name = p.name; reason = r } ∷ bs)

-- one candidate: why it is kept, or `BeginStop`'s result, then why that failed; and the rest
unfoldable pub judge : Option Reason → Tracker × Bool → Option Reason → Proj → Found → Found
judge (some r) begun late p rest = block p r rest
judge none (t, true) late p rest = victim p t
judge none (t, false) late p rest = block p (late_reason late) rest

-- the loop of `evict`; `g` numbers the gate that it makes
unfoldable pub first_victim : List Proj → (g now : ℕ) → Found
unfolding judge
first_victim [] g now = nobody []
first_victim (p ∷ ps) g now =
    judge (block_reason p now) (begin_stop p.tracker g now) (block_reason p now) p
      (first_victim ps g now)

-- `StopAsync` of the victim
unfoldable pub stop_proj : ℕ → Tracker → List Proj → List Proj
stop_proj id t [] = []
stop_proj id t (p ∷ ps) =
    if p.id == id then record p { state = stopping; tracker = t } ∷ ps else p ∷ stop_proj id t ps

-- What `tryReserveLocked` returns: the channel of `start`, called with these projects; an error; or
-- neither, a nil channel and a nil error. `evicted` are the projects that it stopped.
pub data Answer : Type 0 where
  start_called : Answer
  refused : CapacityError → Answer
  neither : Answer

pub record Reservation : Type 0 where
  pub answer : Answer
  pub states : List Proj
  pub evicted : List Proj

pub record Request : Type 0 where
  pub project : Proj
  pub cap : ℕ
  pub entry_cap : ℕ
  pub gate : ℕ
  pub now : ℕ

abbrev pub over : (limit count : ℕ) → Bool
over limit count = ltb 0 limit && leb limit count

abbrev entry_name : Option Entry → Bytes
entry_name none = []
entry_name (some e) = e.name

abbrev pub needs_global : Request → List Proj → Bool
needs_global q ps = over q.cap (count_running ps)

abbrev pub needs_entry : Request → List Proj → Bool
needs_entry q ps = over q.entry_cap (count_entry q.project.entry ps)

abbrev pub pool : Request → List Proj → List Proj
pool q ps = if needs_entry q ps then entry_states ps q.project.entry else ps

abbrev pub capacity_error : Request → List Proj → List Blocker → CapacityError
capacity_error q ps bs =
    if needs_entry q ps
    then record {
      project = q.project.name;
      scope = of_entry (entry_name q.project.entry);
      running = count_entry q.project.entry ps;
      limit = q.entry_cap;
      blockers = bs;
    }
    else record {
      project = q.project.name;
      scope = max_running;
      running = count_running ps;
      limit = q.cap;
      blockers = bs;
    }

abbrev pub last_error : Option CapacityError → Answer
last_error none = neither
last_error (some e) = refused e

-- what an attempt makes of `evict`'s result; `retry` is the next attempt
abbrev pub Retry : Type 0
Retry = Option CapacityError → List Proj → List Proj → Reservation

unfoldable pub after_evict : Found → Retry → Request → Retry
unfolding stop_proj
after_evict (victim v t) retry q err ps gone = retry err (stop_proj v.id t ps) (v ∷ gone)
after_evict (nobody []) retry q err ps gone = retry (some (capacity_error q ps [])) ps gone
after_evict (nobody (b ∷ bs)) retry q err ps gone = record {
  answer = refused (capacity_error q ps (b ∷ bs));
  states = ps;
  evicted = gone;
}

-- the loop of `tryReserveLocked`, with its attempts left and `lastErr`
unfoldable pub attempt : (left : ℕ) → Request → Retry
unfolding first_victim after_evict
attempt zero q err ps gone = record { answer = last_error err; states = ps; evicted = gone }
attempt (suc left) q err ps gone = elim (needs_global q ps || needs_entry q ps) [
  | false ↦ record { answer = start_called; states = ps; evicted = gone }
  | true ↦
      after_evict (first_victim (eviction_order (pool q ps)) q.gate q.now) (attempt left q) q err ps
        gone
]

abbrev pub eviction_attempts : ℕ
eviction_attempts = 3

abbrev pub is_registered : Proj → List Proj → Bool
is_registered p [] = false
is_registered p (q ∷ qs) = if equal q.name p.name then q.id == p.id else is_registered p qs

abbrev pub start_now : List Proj → Reservation
start_now ps = record { answer = start_called; states = ps; evicted = [] }

abbrev pub holds_or_refuses : State → Bool
holds_or_refuses running = true
holds_or_refuses starting = true
holds_or_refuses stopping = true
holds_or_refuses _ = false

unfoldable pub try_reserve : Request → List Proj → Reservation
unfolding attempt
try_reserve q ps =
    if holds_or_refuses q.project.state
    then start_now ps
    else if q.cap == 0 && q.entry_cap == 0
    then start_now ps
    else if not (is_registered q.project ps)
    then start_now ps
    else attempt eviction_attempts q none ps []

-- What `start` does to the project while the lock is still held, if it can be started.
unfoldable pub claim : ℕ → List Proj → List Proj
claim id [] = []
claim id (p ∷ ps) = if p.id == id then record p { state = starting } ∷ ps else p ∷ claim id ps
