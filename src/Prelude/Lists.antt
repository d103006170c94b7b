-- ===== src/Prelude/Lists.antt =====
-- Lists measured and indexed by native numbers, under the library's names.
use Prim.Native.Nat.{ℕ, zero, suc, ◌+◌, ◌-◌, ◌≤◌, ◌<◌}
use mathlib.Core.Path.{◌≡◌, refl, ap, ◌∙◌}
use mathlib.Core.Logic.{◌≢◌}
use mathlib.Core.List.{List, [], ◌∷◌, ◌++◌}
use mathlib.Core.Option.{Option, none, some}
use native.Mathlib.Omega.{arith}

module _ {ℓ} {A : Type ℓ} where
  abbrev pub length : List A → ℕ
  length [] = 0
  length (x ∷ xs) = suc (length xs)

  abbrev pub get_elem? : List A → ℕ → Option A
  get_elem? [] i = none
  get_elem? (x ∷ xs) zero = some x
  get_elem? (x ∷ xs) (suc i) = get_elem? xs i

  -- A write out of bounds is Go's index panic: no list.
  abbrev pub set? : List A → ℕ → A → Option (List A)
  set? [] i v = none
  set? (x ∷ xs) zero v = some (v ∷ xs)
  set? (x ∷ xs) (suc i) v = elim (set? xs i v) [ none ↦ none | some ys ↦ some (x ∷ ys) ]

  abbrev pub drop : ℕ → List A → List A
  drop zero xs = xs
  drop (suc n) [] = []
  drop (suc n) (x ∷ xs) = drop n xs

  abbrev pub replicate : ℕ → A → List A
  replicate zero a = []
  replicate (suc n) a = a ∷ replicate n a

  pub length-append : (xs ys : List A) → length (xs ++ ys) ≡ length xs + length ys
  length-append [] ys = omega arith
  length-append (x ∷ xs) ys = omega (arith, length-append xs ys)

  pub length-replicate : (n : ℕ) (a : A) → length (replicate n a) ≡ n
  length-replicate zero a = refl
  length-replicate (suc n) a = ap suc (length-replicate n a)

  pub length-drop : (n : ℕ) (xs : List A) → length (drop n xs) ≡ length xs - n
  length-drop zero xs = omega arith
  length-drop (suc n) [] = omega arith
  length-drop (suc n) (x ∷ xs) = omega (arith, length-drop n xs)

  pub get_elem?-drop :
      (n : ℕ) (xs : List A) (i : ℕ) → get_elem? (drop n xs) i ≡ get_elem? xs (n + i)
  get_elem?-drop zero xs i = ap (get_elem? xs) (omega arith)
  get_elem?-drop (suc n) [] i = refl
  get_elem?-drop (suc n) (x ∷ xs) i =
      get_elem?-drop n xs i ∙ ap (get_elem? (x ∷ xs)) {x = suc (n + i)} (omega arith)

  pub get_elem?-append_left :
      (xs ys : List A) (i : ℕ) → i < length xs → get_elem? (xs ++ ys) i ≡ get_elem? xs i
  get_elem?-append_left [] ys i h = absurd (omega arith)
  get_elem?-append_left (x ∷ xs) ys zero h = refl
  get_elem?-append_left (x ∷ xs) ys (suc i) h = get_elem?-append_left xs ys i (omega arith)

  pub get_elem?-append_end : (xs : List A) (y : A) → get_elem? (xs ++ y ∷ []) (length xs) ≡ some y
  get_elem?-append_end [] y = refl
  get_elem?-append_end (x ∷ xs) y = get_elem?-append_end xs y

-- What a write in bounds gives.
pub record Written {ℓ} {A : Type ℓ} (xs : List A) (i : ℕ) (v : A) : Type ℓ where
  pub list : List A
  pub written : set? xs i v ≡ some list
  pub same_length : length list ≡ length xs
  pub at_self : get_elem? list i ≡ some v
  pub at_ne : (j : ℕ) → j ≢ i → get_elem? list j ≡ get_elem? xs j

pub set?-Written {ℓ} : {A : Type ℓ} (xs : List A) (i : ℕ) (v : A) → i < length xs → Written xs i v
set?-Written [] i v h = absurd (omega arith)
set?-Written (x ∷ xs) zero v h = record {
  list = v ∷ xs;
  written = refl;
  same_length = refl;
  at_self = refl;
  at_ne = λ j ne. beyond j ne;
}
  where
    beyond : (j : ℕ) → j ≢ 0 → get_elem? (v ∷ xs) j ≡ get_elem? (x ∷ xs) j
    beyond zero ne = absurd (ne refl)
    beyond (suc j) ne = refl
set?-Written (x ∷ xs) (suc i) v h = below (set?-Written xs i v (omega arith))
  where
    elsewhere :
        (w : Written xs i v) (j : ℕ) → j ≢ suc i → get_elem? (x ∷ w.list) j ≡ get_elem? (x ∷ xs) j
    elsewhere w zero ne = refl
    elsewhere w (suc j) ne = w.at_ne j (λ e. ne (ap suc e))

    below : Written xs i v → Written (x ∷ xs) (suc i) v
    below w = record {
      list = x ∷ w.list;
      written = rw (w.written, set?);
      same_length = ap suc w.same_length;
      at_self = w.at_self;
      at_ne = elsewhere w;
    }

module _ {ℓ} {A : Type ℓ} where
  pub drop_all : (n : ℕ) (xs : List A) → length xs ≤ n → drop n xs ≡ []
  drop_all zero [] h = refl
  drop_all zero (x ∷ xs) h = absurd (omega arith)
  drop_all (suc n) [] h = refl
  drop_all (suc n) (x ∷ xs) h = drop_all n xs (omega arith)

  -- The first entry behind what is dropped.
  pub drop_next :
      (n : ℕ) (xs : List A)
      → n < length xs
      → (x : A) × (get_elem? xs n ≡ some x) × (drop n xs ≡ x ∷ drop (suc n) xs)
  drop_next n [] h = absurd (omega arith)
  drop_next zero (x ∷ xs) h = (x, refl, refl)
  drop_next (suc n) (x ∷ xs) h = drop_next n xs (omega arith)

-- Every entry of a list has a property.
abbrev pub All {ℓ κ} : {A : Type ℓ} → (A → Type κ) → List A → Type κ
All P [] = Unit
All P (x ∷ xs) = P x × All P xs

pub All-map {ℓ κ μ} :
    {A : Type ℓ} (P : A → Type κ) (Q : A → Type μ)
    → ((x : A) → P x → Q x)
    → (xs : List A) → All P xs
    → All Q xs
All-map P Q f [] h = tt
All-map P Q f (x ∷ xs) h = (f x h.0, All-map P Q f xs h.1)

-- Two lists that make the empty list.
pub append-nil_parts {ℓ} : {A : Type ℓ} (xs ys : List A) → (xs ++ ys) ≡ [] → (xs ≡ []) × (ys ≡ [])
append-nil_parts [] ys h = (refl, h)
append-nil_parts (x ∷ xs) ys h = cc h

-- The lists in a list, one after the other.
unfoldable pub concat {ℓ} : {A : Type ℓ} → List (List A) → List A
concat [] = []
concat (xs ∷ xss) = xs ++ concat xss

pub concat-nil {ℓ} : {A : Type ℓ} (xss : List (List A)) → concat xss ≡ [] → All (λ xs. xs ≡ []) xss
unfolding concat
concat-nil [] h = tt
concat-nil (xs ∷ xss) h =
    let parts = append-nil_parts xs (concat xss) h in (parts.0, concat-nil xss parts.1)

module _ {ℓ κ} {A : Type ℓ} (P : A → Type κ) where
  pub All-append : (xs ys : List A) → All P xs → All P ys → All P (xs ++ ys)
  All-append [] ys h g = g
  All-append (x ∷ xs) ys h g = (h.0, All-append xs ys h.1 g)

  pub All-append_parts : (xs ys : List A) → All P (xs ++ ys) → All P xs × All P ys
  All-append_parts [] ys h = (tt, h)
  All-append_parts (x ∷ xs) ys h = let r = All-append_parts xs ys h.1 in ((h.0, r.0), r.1)

  pub All-concat : (xss : List (List A)) → All (All P) xss → All P (concat xss)
  unfolding concat
  All-concat [] h = tt
  All-concat (xs ∷ xss) h = All-append xs (concat xss) h.0 (All-concat xss h.1)

  pub All-concat_parts : (xss : List (List A)) → All P (concat xss) → All (All P) xss
  unfolding concat
  All-concat_parts [] h = tt
  All-concat_parts (xs ∷ xss) h =
      let r = All-append_parts xs (concat xss) h in (r.0, All-concat_parts xss r.1)
