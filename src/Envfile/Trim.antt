-- ===== src/Envfile/Trim.antt =====
-- internal/envfile/envfile.go: lines and names that `strings.TrimSpace` leaves as they are.
use herd_wake.Prelude.{
  ℕ, true, [], ◌∷◌, ◌++◌, Bytes, arith, ◌≡◌, ◌≤◌, refl, sym, ◌∙◌, ap, append_assoc, append-nil,
  Bool-cases, inl, inr,
}
use herd_wake.Prelude.Space.{trim_left, trim_back, trim_space, reversed}
use herd_wake.Envfile.Parse.{is_letter, is_word, all_word, valid_name, trim_return}

-- A visible ASCII byte.
abbrev pub Solid : ℕ → Type 0
Solid c = (33 ≤ c) × (c ≤ 127)

-- A string that starts with one.
abbrev pub Starts : Bytes → Type 0
Starts [] = ⊥
Starts (c ∷ s) = Solid c

trim_left_same : (s : Bytes) → Starts s → trim_left s ≡ s
unfolding trim_left
trim_left_same [] h = absurd h
trim_left_same (c ∷ []) h = ground arith
trim_left_same (c ∷ d ∷ []) h = ground arith
trim_left_same (c ∷ d ∷ e ∷ s) h = ground arith

trim_back_same : (s : Bytes) → Starts s → trim_back s ≡ s
unfolding trim_back
trim_back_same [] h = absurd h
trim_back_same (c ∷ []) h = ground arith
trim_back_same (c ∷ d ∷ []) h = ground arith
trim_back_same (c ∷ d ∷ e ∷ s) h = ground arith

reversed-append : (s t : Bytes) → reversed (s ++ t) ≡ reversed t ++ reversed s
unfolding reversed
reversed-append [] t = sym (append-nil (reversed t))
reversed-append (c ∷ s) t =
    rw (reversed-append s t) (append_assoc (reversed t) (reversed s) (c ∷ []))

reversed-reversed : (s : Bytes) → reversed (reversed s) ≡ s
unfolding reversed
reversed-reversed [] = refl
reversed-reversed (c ∷ s) =
    reversed-append (reversed s) (c ∷ []) ∙ ap (λ t. c ∷ t) (reversed-reversed s)

-- Nothing is trimmed from a string with a visible byte at both ends.
pub trim_space_same : (s : Bytes) → Starts s → Starts (reversed s) → trim_space s ≡ s
unfolding trim_space
trim_space_same s h g = rw (trim_left_same s h, trim_back_same (reversed s) g) (reversed-reversed s)

pub Starts-reversed : (s : Bytes) (c : ℕ) → Solid c → Starts (reversed (s ++ c ∷ []))
unfolding reversed
Starts-reversed s c h = rw (reversed-append s (c ∷ [])) h

pub word-Solid : (c : ℕ) → is_word c ≡ true → Solid c
word-Solid c h = (ground arith, ground arith)

pub letter-word : (c : ℕ) → is_letter c ≡ true → is_word c ≡ true
letter-word c h = rw h refl

pub Starts-append : (s t : Bytes) → Starts s → Starts (s ++ t)
Starts-append [] t h = absurd h
Starts-append (c ∷ s) t h = h

word_ends : (s : Bytes) (c : ℕ) → all_word s ≡ true → Solid c → Starts (reversed (c ∷ s))
unfolding all_word reversed
word_ends [] c h g = g
word_ends (d ∷ s) c h g = Starts-append (reversed (d ∷ s)) (c ∷ []) (elim (Bool-cases (is_word d)) [
  | inl w ↦ word_ends s d (rw w at h) (word-Solid d w)
  | inr w ↦ cc (rw w at h)
])

-- A shell identifier starts and ends with a visible byte.
pub valid_name-Starts : (n : Bytes) → valid_name n ≡ true → Starts n
unfolding valid_name
valid_name-Starts [] h = cc h
valid_name-Starts (c ∷ s) h = elim (Bool-cases (is_letter c)) [
  | inl l ↦ word-Solid c (letter-word c l)
  | inr l ↦ cc (rw l at h)
]

pub trim_name : (n : Bytes) → valid_name n ≡ true → trim_space n ≡ n
unfolding valid_name
trim_name [] h = cc h
trim_name (c ∷ s) h = elim (Bool-cases (is_letter c)) [
  | inl l ↦
      trim_space_same (c ∷ s) (word-Solid c (letter-word c l))
        (word_ends s c (rw l at h) (word-Solid c (letter-word c l)))
  | inr l ↦ cc (rw l at h)
]

pub trim_return_same : (s : Bytes) (c : ℕ) → Solid c → trim_return (s ++ c ∷ []) ≡ s ++ c ∷ []
unfolding trim_return
trim_return_same [] c h = ground arith
trim_return_same (d ∷ []) c h = ap (λ t. d ∷ t) (trim_return_same [] c h)
trim_return_same (d ∷ e ∷ s) c h = ap (λ t. d ∷ t) (trim_return_same (e ∷ s) c h)
