-- ===== src/Proxy/Tests.antt =====
-- Tests of internal/proxy: a few requests that meet at a project that is starting.
use herd_wake.Prelude.{ℕ, List, [], ◌∷◌, some, ◌≤◌, ◌≡◌, ◌↔◌, refl, get_elem?}
use herd_wake.Config.Sample.{dashboard}
use herd_wake.Proxy.Hold.{
  over_limit, returned, too_many, Action, add, take_back, ready, act, act_at, take_turn, run_turns,
  opened, max_held,
}
use herd_wake.Proxy.Held.{Bounded, tally, run_turns-opened-Bounded, refuses_iff_full}

dashboard_holds : max_held dashboard ≡ 100
unfolding max_held
dashboard_holds = refl

-- three requests where two may wait; the first is forwarded meanwhile
abbrev crowd : List (ℕ × Action)
crowd = (0, add) ∷ (1, add) ∷ (0, ready) ∷ []

crowd_refused :
    get_elem?
      (run_turns 2
        ((2, take_back) ∷ [])
        (take_turn 2 2 add (run_turns 2 crowd (opened 3)))).handlers
      2
    ≡ some (returned too_many)
unfolding run_turns take_turn act_at act
crowd_refused = refl

run_turns-opened-Bounded_example : Bounded 2 (run_turns 2 crowd (opened 3))
run_turns-opened-Bounded_example = run_turns-opened-Bounded 2 3 crowd

refuses_iff_full_example :
    (get_elem? (take_turn 2 2 add (run_turns 2 crowd (opened 3))).handlers 2 ≡ some over_limit)
    ↔ 2 ≤ tally (run_turns 2 crowd (opened 3)).handlers
refuses_iff_full_example =
    refuses_iff_full 2 3 crowd 2 (unfold run_turns take_turn act_at act in refl)
