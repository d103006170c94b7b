-- ===== src/Proxy/Hold.antt =====
-- internal/proxy/ondemand.go: `holdAndForward`, run by any number of handlers at once. Its two atomic
-- additions to `held` and its `select` are the actions, and a list of turns is an interleaving. The
-- deferred addition comes when the function returns, for a forwarded request behind the forwarding.
use herd_wake.Prelude.{ℕ, zero, suc, ◌-◌, List, [], ◌∷◌, ltb, if◌then◌else◌}
use herd_wake.Prelude.Int.{pos, negsuc}
use herd_wake.Config.Project.{Project}

-- How a held request ends.
pub data HoldEnd : Type 0 where
  too_many start_error gave_up abandoned forwarded : HoldEnd

-- Where a handler is: before its first addition; counted, past the limit; waiting in its `select`;
-- forwarding; about to return; returned.
pub data HoldPhase : Type 0 where
  entering over_limit waiting forwarding : HoldPhase
  leaving returned : HoldEnd → HoldPhase

-- What a handler does next; in its `select`, what it receives.
pub data Action : Type 0 where
  add take_back ready start_fails wait_over client_gone forward_ends leave : Action

-- `maxHeld`
unfoldable pub max_held : Project → ℕ
max_held p = elim p.hold_max_requests [ pos zero ↦ 100 | pos (suc n) ↦ suc n | negsuc n ↦ 100 ]

pub record Desk : Type 0 where
  pub held : ℕ
  pub handlers : List HoldPhase

-- where the counter behind the first addition sends a handler
abbrev pub admit : (limit held : ℕ) → HoldPhase
admit limit held = if ltb limit held then over_limit else waiting

-- One action of a handler in some phase, and the counter behind it. An action that the phase does not
-- have does nothing.
unfoldable pub act : (limit : ℕ) → Action → HoldPhase → (held : ℕ) → HoldPhase × ℕ
act limit add entering n = (admit limit (suc n), suc n)
act limit take_back over_limit n = (returned too_many, n - 1)
act limit ready waiting n = (forwarding, n)
act limit start_fails waiting n = (leaving start_error, n)
act limit wait_over waiting n = (leaving gave_up, n)
act limit client_gone waiting n = (leaving abandoned, n)
act limit forward_ends forwarding n = (leaving forwarded, n)
act limit leave (leaving a) n = (returned a, n - 1)
act limit _ p n = (p, n)

-- An action of the handler at a position.
unfoldable pub act_at :
    (limit : ℕ) → Action → (index : ℕ) → List HoldPhase → (held : ℕ) → List HoldPhase × ℕ
unfolding act
act_at limit a i [] n = ([], n)
act_at limit a zero (p ∷ ps) n = let r = act limit a p n in (r.0 ∷ ps, r.1)
act_at limit a (suc i) (p ∷ ps) n = let r = act_at limit a i ps n in (p ∷ r.0, r.1)

unfoldable pub take_turn : (limit : ℕ) → (index : ℕ) → Action → Desk → Desk
unfolding act_at
take_turn limit i a k =
    let r = act_at limit a i k.handlers k.held in record { handlers = r.0; held = r.1 }

unfoldable pub run_turns : (limit : ℕ) → List (ℕ × Action) → Desk → Desk
unfolding take_turn
run_turns limit [] k = k
run_turns limit ((i, a) ∷ turns) k = run_turns limit turns (take_turn limit i a k)

-- a desk with requests that have just come
abbrev pub arrivals : ℕ → List HoldPhase
arrivals zero = []
arrivals (suc n) = entering ∷ arrivals n

abbrev pub opened : ℕ → Desk
opened n = record { held = 0; handlers = arrivals n }
