-- ===== src/Daemon/Wildcard/Single.antt =====
-- internal/daemon/wildcard.go: that a label has one resolution at a time.
use herd_wake.Prelude.{
  ℕ, ◌+◌, ◌≤◌, false, List, [], ◌∷◌, if◌then◌else◌, Bytes, equal, equal_iff, arith, ◌≡◌, refl, ap,
  sym, Bool-cases, inl, inr,
}
use herd_wake.Daemon.Wildcard.Resolve.{
  Resolver, Verdict, Turn, request, finish, has_label, without, end_one, failure_of, pausing, enter,
  leave_call, turn, turns, new_resolver,
}

-- How many resolutions of a label run.
abbrev pub resolutions : Bytes → List Bytes → ℕ
resolutions l [] = 0
resolutions l (m ∷ ms) = (if equal l m then 1 else 0) + resolutions l ms

-- No label twice.
abbrev pub Once : List Bytes → Type 0
Once [] = Unit
Once (m ∷ ms) = (has_label m ms ≡ false) × Once ms

record Single (r : Resolver) : Type 0 where
  same : r.calls ≡ r.running
  once : Once r.running

absent-resolutions : (l : Bytes) (ms : List Bytes) → has_label l ms ≡ false → resolutions l ms ≡ 0
unfolding has_label
absent-resolutions l [] h = refl
absent-resolutions l (m ∷ ms) h = elim (Bool-cases (equal l m)) [
  | inl y ↦ cc (rw y at h)
  | inr n ↦ rw n (omega (arith, absent-resolutions l ms (rw n at h)))
]

Once-resolutions : (l : Bytes) (ms : List Bytes) → Once ms → resolutions l ms ≤ 1
Once-resolutions l [] h = omega arith
Once-resolutions l (m ∷ ms) (a, h) = elim (Bool-cases (equal l m)) [
  | inl y ↦
      let same = (equal_iff l m).0 y in
      let none_left = absent-resolutions l ms (rw same a) in rw y (omega (arith, none_left))
  | inr n ↦ rw n (omega (arith, Once-resolutions l ms h))
]

-- an absent label is not missed
absent-without : (l : Bytes) (ms : List Bytes) → has_label l ms ≡ false → without l ms ≡ ms
unfolding has_label without
absent-without l [] h = refl
absent-without l (m ∷ ms) h = elim (Bool-cases (equal l m)) [
  | inl y ↦ cc (rw y at h)
  | inr n ↦ rw n (ap (λ x. m ∷ x) (absent-without l ms (rw n at h)))
]

Once-end_one : (l : Bytes) (ms : List Bytes) → Once ms → without l ms ≡ end_one l ms
unfolding without end_one
Once-end_one l [] h = refl
Once-end_one l (m ∷ ms) (a, h) = elim (Bool-cases (equal l m)) [
  | inl y ↦ rw y (absent-without l ms (rw ((equal_iff l m).0 y) a))
  | inr n ↦ rw n (ap (λ x. m ∷ x) (Once-end_one l ms h))
]

end_one-absent :
    (k l : Bytes) (ms : List Bytes) → has_label k ms ≡ false → has_label k (end_one l ms) ≡ false
unfolding has_label end_one
end_one-absent k l [] h = refl
end_one-absent k l (m ∷ ms) h = elim (Bool-cases (equal k m)) [
  | inl y ↦ cc (rw y at h)
  | inr n ↦ elim (Bool-cases (equal l m)) [
    | inl y ↦ rw y (rw n at h)
    | inr z ↦ rw (z, n) (end_one-absent k l ms (rw n at h))
  ]
]

end_one-Once : (l : Bytes) (ms : List Bytes) → Once ms → Once (end_one l ms)
unfolding end_one
end_one-Once l [] h = tt
end_one-Once l (m ∷ ms) (a, h) = elim (Bool-cases (equal l m)) [
  | inl y ↦ rw y h
  | inr n ↦ rw n (end_one-absent m l ms a, end_one-Once l ms h)
]

enter-Single : (label : Bytes) (now : ℕ) (r : Resolver) → Single r → Single (enter label now r)
unfolding enter
enter-Single label now r s = elim (Bool-cases (has_label label r.calls)) [
  | inl y ↦ rw y s
  | inr n ↦ elim (Bool-cases (pausing (failure_of label r.failures) now)) [
    | inl y ↦ rw (n, y) s
    | inr z ↦
        rw (n, z) record { same = ap (λ x. label ∷ x) s.same; once = (rw (sym s.same) n, s.once) }
  ]
]

leave_call-Single :
    (label : Bytes) (v : Verdict) (now : ℕ) (r : Resolver)
    → Single r
    → Single (leave_call label v now r)
unfolding leave_call
leave_call-Single label v now r s = elim (Bool-cases (has_label label r.running)) [
  | inl y ↦ rw y record {
    same = rw s.same (Once-end_one label r.running s.once);
    once = end_one-Once label r.running s.once;
  }
  | inr n ↦ rw n s
]

turns-Single : (ts : List Turn) (r : Resolver) → Single r → Single (turns ts r)
unfolding turns turn
turns-Single [] r s = s
turns-Single (request label now ∷ ts) r s = turns-Single ts _ (enter-Single label now r s)
turns-Single (finish label v now ∷ ts) r s = turns-Single ts _ (leave_call-Single label v now r s)

-- In every history of requests and ends of resolutions, at most one resolution of a label runs at a
-- time.
pub one_resolution :
    (ts : List Turn) (label : Bytes) → resolutions label (turns ts new_resolver).running ≤ 1
one_resolution ts label =
    Once-resolutions label (turns ts new_resolver).running
      (turns-Single ts new_resolver (record { same = refl; once = tt })).once
