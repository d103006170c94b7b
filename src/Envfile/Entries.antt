-- ===== src/Envfile/Entries.antt =====
-- internal/envfile/envfile.go: the entries `NAME=value` of a child's environment. os/exec keeps the
-- last entry of each name.
use herd_wake.Prelude.{
  ℕ, true, List, [], ◌∷◌, ◌++◌, Option, none, some, if◌then◌else◌, Bytes, equal, equal_iff, at_most,
  arith, ◌≡◌, ◌≢◌, refl, sym, ◌∙◌, Bool-cases, inl, inr,
}
use herd_wake.Envfile.Parse.{Var, cut, valid_name, all_word, is_letter, is_word}
use herd_wake.Envfile.Load.{value_of}
use herd_wake.Envfile.Override.{Distinct, or_else, or_else-none}
use herd_wake.Envfile.Names.{Named}
use herd_wake.Envfile.ChildEnv.{entry, var_entries, inline_entries, insert_key, sorted_env}

-- No `=` in a name.
abbrev pub Free : Bytes → Type 0
Free [] = Unit
Free (c ∷ s) = (c ≢ b'=') × Free s

-- What an entry of an environment says of a name, and what the whole environment does.
abbrev pub said_by : Bytes → Option (Bytes × Bytes) → Option Bytes
said_by n none = none
said_by n (some (k, v)) = if equal k n then some v else none

unfoldable pub value_in : Bytes → List Bytes → Option Bytes
value_in n [] = none
value_in n (e ∷ es) = or_else (value_in n es) (said_by n (cut b'=' e))

-- What the inline map has for a name.
unfoldable pub inline_value : Bytes → List (Bytes × Bytes) → Option Bytes
unfolding equal
inline_value n [] = none
inline_value n ((k, v) ∷ m) = if equal k n then some v else inline_value n m

-- The keys of a map: no two are the same, and none has a `=`.
abbrev pub Keys : List (Bytes × Bytes) → Type 0
Keys [] = Unit
Keys ((k, v) ∷ m) = (inline_value k m ≡ none) × Free k × Keys m

pub or_else_assoc : (x y z : Option Bytes) → or_else (or_else x y) z ≡ or_else x (or_else y z)
or_else_assoc none y z = refl
or_else_assoc (some x) y z = refl

pub value_in-append :
    (n : Bytes) (es fs : List Bytes)
    → value_in n (es ++ fs) ≡ or_else (value_in n fs) (value_in n es)
unfolding value_in
value_in-append n [] fs = sym (or_else-none (value_in n fs))
value_in-append n (e ∷ es) fs =
    rw (value_in-append n es fs) (or_else_assoc (value_in n fs) (value_in n es) _)

pub cut-entry : (k v : Bytes) → Free k → cut b'=' (entry k v) ≡ some (k, v)
unfolding cut
cut-entry [] v f = refl
cut-entry (c ∷ k) v f = ground (arith, cut-entry k v f.1)

-- One entry in front of others.
value_in-entry :
    (n k v : Bytes) (es : List Bytes)
    → Free k
    → value_in n (entry k v ∷ es) ≡ or_else (value_in n es) (if equal k n then some v else none)
unfolding value_in
value_in-entry n k v es f = rw (cut-entry k v f) refl

word-ne : (c : ℕ) → is_word c ≡ true → c ≢ b'='
word-ne c h e = cc (rw e at h)

all_word-Free : (s : Bytes) → all_word s ≡ true → Free s
unfolding all_word
all_word-Free [] h = tt
all_word-Free (c ∷ s) h = elim (Bool-cases (is_word c)) [
  | inl w ↦ (word-ne c w, all_word-Free s (rw w at h))
  | inr w ↦ cc (rw w at h)
]

pub valid_name-Free : (n : Bytes) → valid_name n ≡ true → Free n
unfolding valid_name
valid_name-Free [] h = tt
valid_name-Free (c ∷ s) h = elim (Bool-cases (is_letter c)) [
  | inl l ↦ (word-ne c (rw l refl), all_word-Free s (rw l at h))
  | inr l ↦ cc (rw l at h)
]

-- The variables of the files as entries.
pub value_in-vars :
    (n : Bytes) (vars : List Var)
    → Named vars
    → Distinct vars
    → value_in n (var_entries vars) ≡ value_of n vars
unfolding value_of var_entries value_in
value_in-vars n [] h d = refl
value_in-vars n (v ∷ vars) h d =
    value_in-entry n v.name v.value (var_entries vars) (valid_name-Free v.name h.0)
    ∙ rw (value_in-vars n vars h.1 d.1) (elim (Bool-cases (equal v.name n)) [
      | inl same ↦ rw same (rw (rw ((equal_iff v.name n).0 same) at d.0) refl)
      | inr other ↦ rw other (or_else-none (value_of n vars))
    ])

-- No key has a `=`.
abbrev pub FreeKeys : List (Bytes × Bytes) → Type 0
FreeKeys [] = Unit
FreeKeys ((k, v) ∷ m) = Free k × FreeKeys m

or_else_left : (x y : Option Bytes) → or_else x y ≡ none → x ≡ none
or_else_left none y h = refl
or_else_left (some x) y h = h

insert_key-FreeKeys :
    (k v : Bytes) (m : List (Bytes × Bytes)) → Free k → FreeKeys m → FreeKeys (insert_key (k, v) m)
unfolding insert_key
insert_key-FreeKeys k v [] f g = (f, tt)
insert_key-FreeKeys k v ((l, w) ∷ m) f g = elim (Bool-cases (at_most k l)) [
  | inl first ↦ rw first (f, g)
  | inr later ↦ rw later (g.0, insert_key-FreeKeys k v m f g.1)
]

sorted_env-FreeKeys : (m : List (Bytes × Bytes)) → FreeKeys m → FreeKeys (sorted_env m)
unfolding sorted_env
sorted_env-FreeKeys [] g = tt
sorted_env-FreeKeys ((k, v) ∷ m) g =
    insert_key-FreeKeys k v (sorted_env m) g.0 (sorted_env-FreeKeys m g.1)

Keys-Free : (m : List (Bytes × Bytes)) → Keys m → FreeKeys m
Keys-Free [] ks = tt
Keys-Free ((k, v) ∷ m) ks = (ks.1, Keys-Free m ks.2)

module _ (n k v : Bytes) (f : Free k) where
  entry_first :
      (es : List Bytes)
      → value_in k es ≡ none
      → value_in n (entry k v ∷ es) ≡ (if equal k n then some v else value_in n es)
  entry_first es h = value_in-entry n k v es f ∙ elim (Bool-cases (equal k n)) [
    | inl same ↦ rw same (rw (rw ((equal_iff k n).0 same) at h) refl)
    | inr other ↦ rw other (or_else-none (value_in n es))
  ]

  value_in-insert_key :
      (m : List (Bytes × Bytes))
      → FreeKeys m
      → value_in k (inline_entries m) ≡ none
      → value_in n (inline_entries (insert_key (k, v) m))
        ≡ (if equal k n then some v else value_in n (inline_entries m))
  unfolding insert_key inline_entries value_in
  value_in-insert_key [] g h = entry_first [] refl
  value_in-insert_key ((l, w) ∷ m) g h = elim (Bool-cases (at_most k l)) [
    | inl first ↦ rw first (entry_first (entry l w ∷ inline_entries m) h)
    | inr later ↦ rw later (
        rw
          (
            value_in-entry n l w (inline_entries (insert_key (k, v) m)) g.0,
            value_in-entry n l w (inline_entries m) g.0,
            value_in-insert_key m g.1
                (or_else_left _ _ (rw (value_in-entry k l w (inline_entries m) g.0) at h)),
          )
          (elim (Bool-cases (equal k n)) [ inl same ↦ rw same refl | inr other ↦ rw other refl ]))
  ]

-- Sorting the keys changes no value.
pub value_in-sorted_env :
    (n : Bytes) (m : List (Bytes × Bytes))
    → Keys m
    → value_in n (inline_entries (sorted_env m)) ≡ inline_value n m
unfolding sorted_env inline_value value_in
value_in-sorted_env n [] ks = unfold inline_entries in refl
value_in-sorted_env n ((k, v) ∷ m) ks =
    value_in-insert_key n k v ks.1 (sorted_env m) (sorted_env-FreeKeys m (Keys-Free m ks.2))
      (value_in-sorted_env k m ks.2 ∙ ks.0)
    ∙ rw (value_in-sorted_env n m ks.2) refl
