-- ===== src/Proxy/Held.antt =====
-- internal/proxy/ondemand.go: the bound on the requests that are held.
use herd_wake.Prelude.{
  ℕ, zero, suc, ◌+◌, ◌≤◌, List, [], ◌∷◌, ltb, arith, Bool-cases, inl, inr, ltb→le, ltb→lt, ◌⊎◌, ◌↔◌,
  ap, get_elem?, some, some-eq, ◌≡◌, refl, sym,
}
use herd_wake.Proxy.Hold.{
  HoldPhase, entering, over_limit, waiting, forwarding, leaving, returned, Action, add, Desk, admit,
  act, act_at, take_turn, run_turns, arrivals, opened,
}

-- whether a handler counts in `held`, ...
abbrev pub weight : HoldPhase → ℕ
weight entering = 0
weight over_limit = 1
weight waiting = 1
weight forwarding = 1
weight (leaving a) = 1
weight (returned a) = 0

-- ... and whether it was let in
abbrev pub seat : HoldPhase → ℕ
seat entering = 0
seat over_limit = 0
seat waiting = 1
seat forwarding = 1
seat (leaving a) = 1
seat (returned a) = 0

abbrev pub tally : List HoldPhase → ℕ
tally [] = 0
tally (p ∷ ps) = weight p + tally ps

abbrev pub admitted : List HoldPhase → ℕ
admitted [] = 0
admitted (p ∷ ps) = seat p + admitted ps

seat≤weight : (p : HoldPhase) → seat p ≤ weight p
seat≤weight p = ground arith

admitted≤tally : (ps : List HoldPhase) → admitted ps ≤ tally ps
admitted≤tally [] = omega arith
admitted≤tally (p ∷ ps) = omega (arith, seat≤weight p, admitted≤tally ps)

weight-admit : (limit n : ℕ) → weight (admit limit n) ≡ 1
weight-admit limit n = elim (Bool-cases (ltb limit n)) [ inl h ↦ rw h refl | inr h ↦ rw h refl ]

seat-admit : (limit n : ℕ) → seat (admit limit n) ≡ 0 ⊎ n ≤ limit
seat-admit limit n = elim (Bool-cases (ltb limit n)) [
  | inl h ↦ inl (rw h refl)
  | inr h ↦ inr (ltb→le limit n h)
]

-- What one action keeps, where `others` handlers count besides, `seated` of them let in.
record Kept (limit others seated : ℕ) (p : HoldPhase) (r : HoldPhase × ℕ) : Type 0 where
  counts : r.1 ≡ others + weight r.0
  seats : seated + seat p ≤ limit → seated + seat r.0 ≤ limit

act-Kept :
    (limit others seated : ℕ) (a : Action) (p : HoldPhase)
    → seated ≤ others
    → Kept limit others seated p (act limit a p (others + weight p))
unfolding act
act-Kept limit others seated a p h =
    let n = suc (others + weight p) in
    let w = weight-admit limit n in
    let t = seat-admit limit n in record { counts = ground arith; seats = ground arith }

record AllKept (limit others seated : ℕ) (ps : List HoldPhase) (r : List HoldPhase × ℕ)
    : Type 0 where
  counts : r.1 ≡ others + tally r.0
  seats : seated + admitted ps ≤ limit → seated + admitted r.0 ≤ limit

act_at-AllKept :
    (limit others seated : ℕ) (a : Action) (i : ℕ) (ps : List HoldPhase)
    → seated ≤ others
    → (n : ℕ) → n ≡ others + tally ps
    → AllKept limit others seated ps (act_at limit a i ps n)
unfolding act_at
act_at-AllKept limit others seated a i [] h n e = record { counts = e; seats = λ s. s }
act_at-AllKept limit others seated a zero (p ∷ ps) h n e =
    let c = admitted≤tally ps in
    let m = others + tally ps in
    let k = act-Kept limit m (seated + admitted ps) a p (omega arith) in
    let same : n ≡ m + weight p = omega arith in
    rw same
      record { counts = omega (arith, k.counts); seats = λ s. omega (arith, k.seats (omega arith)) }
act_at-AllKept limit others seated a (suc i) (p ∷ ps) h n e =
    let c = seat≤weight p in
    let k =
      act_at-AllKept limit (others + weight p) (seated + seat p) a i ps (omega arith) n
        (omega arith) in
    record { counts = omega (arith, k.counts); seats = λ s. omega (arith, k.seats (omega arith)) }

-- The counter counts the handlers between their two additions, and no more are let in than the limit.
pub record Bounded (limit : ℕ) (k : Desk) : Type 0 where
  pub exact : k.held ≡ tally k.handlers
  pub bound : admitted k.handlers ≤ limit

take_turn-Bounded :
    (limit i : ℕ) (a : Action) (k : Desk) → Bounded limit k → Bounded limit (take_turn limit i a k)
unfolding take_turn
take_turn-Bounded limit i a k b =
    let r = act_at-AllKept limit 0 0 a i k.handlers (omega arith) k.held (omega (arith, b.exact)) in
    record {
      exact = omega (arith, r.counts);
      bound = omega (arith, r.seats (omega (arith, b.bound)));
    }

run_turns-Bounded :
    (limit : ℕ) (turns : List (ℕ × Action)) (k : Desk)
    → Bounded limit k
    → Bounded limit (run_turns limit turns k)
unfolding run_turns
run_turns-Bounded limit [] k b = b
run_turns-Bounded limit ((i, a) ∷ turns) k b =
    run_turns-Bounded limit turns (take_turn limit i a k) (take_turn-Bounded limit i a k b)

opened-Bounded : (limit n : ℕ) → Bounded limit (opened n)
opened-Bounded limit n = record {
  exact = sym (none_tallied n);
  bound = omega (arith, none_tallied n, admitted≤tally (arrivals n));
}
  where
    none_tallied : (m : ℕ) → tally (arrivals m) ≡ 0
    none_tallied zero = refl
    none_tallied (suc m) = omega (arith, none_tallied m)

-- However many requests come and however their actions interleave, `held` is the number of handlers
-- between their two additions, and at most `limit` of them are waiting for the start, forwarding
-- behind it or about to return.
pub run_turns-opened-Bounded :
    (limit n : ℕ) (turns : List (ℕ × Action)) → Bounded limit (run_turns limit turns (opened n))
run_turns-opened-Bounded limit n turns =
    run_turns-Bounded limit turns (opened n) (opened-Bounded limit n)

act_at-here :
    (limit : ℕ) (a : Action) (i : ℕ) (ps : List HoldPhase) (p : HoldPhase) (n : ℕ)
    → get_elem? ps i ≡ some p
    → get_elem? (act_at limit a i ps n).0 i ≡ some (act limit a p n).0
unfolding act_at
act_at-here limit a i [] p n h = cc h
act_at-here limit a zero (q ∷ ps) p n h = ap (λ x. some (act limit a x n).0) (some-eq h)
act_at-here limit a (suc i) (q ∷ ps) p n h = act_at-here limit a i ps p n h

admit_iff : (limit n : ℕ) → (some (admit limit (suc n)) ≡ some over_limit) ↔ limit ≤ n
admit_iff limit n = elim (Bool-cases (ltb limit (suc n))) [
  | inl h ↦ rw h (λ e. omega (arith, ltb→lt limit (suc n) h), λ l. refl)
  | inr h ↦ rw h (λ e. cc e, λ l. absurd (omega (arith, ltb→le limit (suc n) h)))
]

-- However the requests before it interleaved, a request that comes to its first addition is refused
-- exactly where at least `limit` handlers are between their two additions, those being refused
-- included.
pub refuses_iff_full :
    (limit n : ℕ) (turns : List (ℕ × Action)) (i : ℕ)
    → get_elem? (run_turns limit turns (opened n)).handlers i ≡ some entering
    → (get_elem? (take_turn limit i add (run_turns limit turns (opened n))).handlers i
        ≡ some over_limit)
      ↔ limit ≤ tally (run_turns limit turns (opened n)).handlers
unfolding take_turn act
refuses_iff_full limit n turns i h =
    let k = run_turns limit turns (opened n) in
    let b = run_turns-opened-Bounded limit n turns in
    let here = act_at-here limit add i k.handlers entering k.held h in
    rw (here, sym b.exact) (admit_iff limit k.held)
