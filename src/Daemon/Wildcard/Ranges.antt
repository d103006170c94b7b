-- ===== src/Daemon/Wildcard/Ranges.antt =====
-- internal/daemon/wildcard.go: the ports of a range, which `discoverPort` counts from its first to its
-- last.
use herd_wake.Prelude.{
  ℕ, zero, suc, ◌+◌, ◌-◌, ◌≤◌, ◌<◌, ◌≡◌, refl, ap, ◌∙◌, sym, ◌⊎◌, inl, inr, Bool-cases, leb, arith,
}
use herd_wake.Prelude.Int.{ℤ, pos, negsuc}
use herd_wake.Config.Defaults.{add_ℕ}
use herd_wake.Daemon.Wildcard.{span}

-- the order of the integers
abbrev pub AtMost : ℤ → ℤ → Type 0
AtMost (pos m) (pos n) = m ≤ n
AtMost (pos m) (negsuc n) = ⊥
AtMost (negsuc m) (pos n) = Unit
AtMost (negsuc m) (negsuc n) = n ≤ m

add_ℕ-pos : (a k : ℕ) → add_ℕ (pos a) k ≡ pos (a + k)
unfolding add_ℕ
add_ℕ-pos a zero = ap pos (omega arith)
add_ℕ-pos a (suc k) = refl

add_ℕ-negative : (m k : ℕ) → k ≤ m → add_ℕ (negsuc m) k ≡ negsuc (m - k)
unfolding add_ℕ
add_ℕ-negative m zero h = ap negsuc (omega arith)
add_ℕ-negative zero (suc k) h = absurd (omega (arith, h))
add_ℕ-negative (suc m) (suc k) h = add_ℕ-negative m k (omega (arith, h)) ∙ ap negsuc (omega arith)

add_ℕ-crossing : (m k : ℕ) → add_ℕ (negsuc m) (suc (m + k)) ≡ pos k
unfolding add_ℕ
add_ℕ-crossing zero k = ap pos (omega arith)
add_ℕ-crossing (suc m) k =
    let shifted : suc m + k ≡ suc (m + k) = omega arith in
    ap (add_ℕ (negsuc m)) shifted ∙ add_ℕ-crossing m k

-- A port between the bounds is one that the loop looks at.
pub span_reaches :
    (low high q : ℤ)
    → AtMost low q
    → AtMost q high
    → (j : ℕ) × (j < span low high) × (q ≡ add_ℕ low j)
unfolding span
span_reaches (pos a) (pos b) (pos q) h k =
    (q - a, omega (arith, h, k), ap pos (omega (arith, h)) ∙ sym (add_ℕ-pos a (q - a)))
span_reaches (pos a) (negsuc b) (pos q) h k = absurd k
span_reaches (pos a) high (negsuc q) h k = absurd h
span_reaches (negsuc a) (pos b) (pos q) h k =
    (suc (a + q), omega (arith, k), sym (add_ℕ-crossing a q))
span_reaches (negsuc a) (negsuc b) (pos q) h k = absurd k
span_reaches (negsuc a) (pos b) (negsuc q) h k = (
  a - q,
  omega (arith, h),
  ap negsuc (omega (arith, h)) ∙ sym (add_ℕ-negative a (a - q) (omega arith)),
)
span_reaches (negsuc a) (negsuc b) (negsuc q) h k = (
  a - q,
  omega (arith, h, k),
  ap negsuc (omega (arith, h)) ∙ sym (add_ℕ-negative a (a - q) (omega arith)),
)

below_or_crossing : (a j : ℕ) → (j ≤ a) ⊎ ((k : ℕ) × (j ≡ suc (a + k)))
below_or_crossing a j = elim (Bool-cases (leb j a)) [
  | inl y ↦ inl (ground arith)
  | inr n ↦ inr (j - suc a, ground arith)
]

-- What the loop looks at is between the bounds.
pub span_within :
    (low high : ℤ) (j : ℕ)
    → j < span low high
    → AtMost low (add_ℕ low j) × AtMost (add_ℕ low j) high
unfolding span
span_within (pos a) (pos b) j h = rw (add_ℕ-pos a j) (omega arith, omega (arith, h))
span_within (pos a) (negsuc b) j h = absurd (omega (arith, h))
span_within (negsuc a) (pos b) j h = elim (below_or_crossing a j) [
  | inl le ↦ rw (add_ℕ-negative a j le) (omega arith, tt)
  | inr (k, e) ↦ rw (e, add_ℕ-crossing a k) (tt, omega (arith, h, e))
]
span_within (negsuc a) (negsuc b) j h =
    rw (add_ℕ-negative a j (omega (arith, h))) (omega arith, omega (arith, h))

pub span-add_ℕ : (low : ℤ) (k : ℕ) → span low (add_ℕ low k) ≡ suc k
unfolding span
span-add_ℕ (pos a) k = rw (add_ℕ-pos a k) (omega arith)
span-add_ℕ (negsuc a) k = elim (below_or_crossing a k) [
  | inl le ↦ rw (add_ℕ-negative a k le) (omega (arith, le))
  | inr (i, e) ↦ rw (e, add_ℕ-crossing a i) refl
]
