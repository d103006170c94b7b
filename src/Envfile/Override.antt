-- ===== src/Envfile/Override.antt =====
-- internal/envfile/envfile.go: what `override` does to the value of each name.
use herd_wake.Prelude.{
  false, List, [], ◌∷◌, ◌++◌, Option, none, some, if◌then◌else◌, Bytes, equal, equal_iff,
  equal_refl, arith, ◌≡◌, refl, Bool-cases, inl, inr,
}
use herd_wake.Envfile.Parse.{Var, drop_var, override}
use herd_wake.Envfile.Load.{value_of, override_all}

-- No name appears twice.
abbrev pub Distinct : List Var → Type 0
Distinct [] = Unit
Distinct (v ∷ vars) = (value_of v.name vars ≡ none) × Distinct vars

-- A value, or another where there is none.
abbrev pub or_else : Option Bytes → Option Bytes → Option Bytes
or_else (some x) y = some x
or_else none y = y

pub or_else-none : (x : Option Bytes) → or_else x none ≡ x
or_else-none none = refl
or_else-none (some x) = refl

value_of-drop_var :
    (m n : Bytes) (vars : List Var)
    → equal m n ≡ false
    → value_of n (drop_var m vars) ≡ value_of n vars
unfolding value_of drop_var
value_of-drop_var m n [] h = refl
value_of-drop_var m n (v ∷ vars) h =
    ground
      (arith, value_of-drop_var m n vars h, equal_iff v.name m, equal_iff v.name n, equal_iff m n)

equal_ne : (m n : Bytes) → equal m n ≡ false → equal n m ≡ false
equal_ne m n h = ground (arith, equal_iff m n, equal_iff n m)

drop_var_absent :
    (m n : Bytes) (vars : List Var) → value_of n vars ≡ none → value_of n (drop_var m vars) ≡ none
unfolding value_of drop_var
drop_var_absent m n [] h = refl
drop_var_absent m n (v ∷ vars) h = ground (arith, drop_var_absent m n vars)

drop_var-Distinct : (m : Bytes) (vars : List Var) → Distinct vars → Distinct (drop_var m vars)
unfolding drop_var
drop_var-Distinct m [] d = tt
drop_var-Distinct m (v ∷ vars) d = elim (Bool-cases (equal v.name m)) [
  | inl same ↦ rw same d.1
  | inr other ↦ rw other (drop_var_absent m v.name vars d.0, drop_var-Distinct m vars d.1)
]

drop_var_gone : (n : Bytes) (vars : List Var) → Distinct vars → value_of n (drop_var n vars) ≡ none
unfolding value_of drop_var
drop_var_gone n [] d = refl
drop_var_gone n (v ∷ vars) d = elim (Bool-cases (equal v.name n)) [
  | inl same ↦ rw same (rw ((equal_iff v.name n).0 same) at d.0)
  | inr other ↦ rw other (rw (other, value_of) (drop_var_gone n vars d.1))
]

value_of-append :
    (n : Bytes) (vars : List Var) (v : Var)
    → value_of n (vars ++ v ∷ [])
      ≡ or_else (value_of n vars) (if equal v.name n then some v.value else none)
unfolding value_of
value_of-append n [] v = refl
value_of-append n (w ∷ vars) v = ground (arith, value_of-append n vars v)

snoc-Distinct :
    (vars : List Var) (v : Var)
    → Distinct vars
    → value_of v.name vars ≡ none
    → Distinct (vars ++ v ∷ [])
unfolding value_of
snoc-Distinct [] v d h = (refl, tt)
snoc-Distinct (w ∷ vars) v d h = elim (Bool-cases (equal w.name v.name)) [
  | inl same ↦ cc (rw (same, value_of) at h)
  | inr other ↦ (
    rw (value_of-append w.name vars v, d.0) (rw (equal_ne w.name v.name other) refl),
    snoc-Distinct vars v d.1 (rw other at h),
  )
]

pub override-Distinct : (vars : List Var) (v : Var) → Distinct vars → Distinct (override vars v)
unfolding override
override-Distinct vars v d =
    snoc-Distinct (drop_var v.name vars) v (drop_var-Distinct v.name vars d)
      (drop_var_gone v.name vars d)

-- The variable that overrides decides its own name and no other.
pub value_of-override :
    (n : Bytes) (vars : List Var) (v : Var)
    → Distinct vars
    → value_of n (override vars v) ≡ (if equal v.name n then some v.value else value_of n vars)
unfolding override
value_of-override n vars v d = elim (Bool-cases (equal v.name n)) [
  | inl same ↦
      rw (same, value_of-append)
        (rw (← (equal_iff v.name n).0 same)
          (rw (drop_var_gone v.name vars d, equal_refl v.name) refl))
  | inr other ↦
      rw (other, value_of-append, value_of-drop_var v.name n vars other) (rw other (or_else-none _))
]

pub override_all-Distinct : (vars vs : List Var) → Distinct vars → Distinct (override_all vars vs)
unfolding override_all
override_all-Distinct vars [] d = d
override_all-Distinct vars (v ∷ vs) d =
    override_all-Distinct (override vars v) vs (override-Distinct vars v d)

-- A later list beats an earlier one.
pub value_of-override_all :
    (n : Bytes) (vars vs : List Var)
    → Distinct vars
    → Distinct vs
    → value_of n (override_all vars vs) ≡ or_else (value_of n vs) (value_of n vars)
unfolding override_all value_of
value_of-override_all n vars [] d e = refl
value_of-override_all n vars (v ∷ vs) d e = elim (Bool-cases (equal v.name n)) [
  | inl same ↦
      rw (value_of-override_all n (override vars v) vs (override-Distinct vars v d) e.1) (
        rw (value_of-override n vars v d, same) (rw (rw ((equal_iff v.name n).0 same) at e.0) refl))
  | inr other ↦
      rw (value_of-override_all n (override vars v) vs (override-Distinct vars v d) e.1)
        (rw (value_of-override n vars v d, other) refl)
]
