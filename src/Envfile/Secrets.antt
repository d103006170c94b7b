-- ===== src/Envfile/Secrets.antt =====
-- internal/envfile/envfile.go: which names `Display` masks.
use herd_wake.Prelude.{
  or_true, ℕ, true, false, ◌<◌, List, [], ◌∷◌, ◌++◌, Bytes, arith, ◌≡◌, ◌⊎◌, inl, inr, refl, sym,
  ◌∙◌, ap, Bool-cases, ◌≢◌,
}
use herd_wake.Envfile.ChildEnv.{
  upper, is_long_s, is_kelvin, fold_case, is_prefix, occurs, any_occurs, secret_words, sensitive,
  redacted, display,
}

abbrev pub Ascii : Bytes → Type 0
Ascii [] = Unit
Ascii (c ∷ s) = (c < 128) × Ascii s

abbrev pub Among : Bytes → List Bytes → Type 0
Among w [] = ⊥
Among w (v ∷ vs) = (w ≡ v) ⊎ Among w vs

long_s_ascii : (a c : ℕ) → c < 128 → is_long_s a c ≡ false
unfolding is_long_s
long_s_ascii a c h = ground arith

kelvin_ascii : (a b c : ℕ) → c < 128 → is_kelvin a b c ≡ false
unfolding is_kelvin
kelvin_ascii a b c h = ground arith

kelvin_before : (a c e : ℕ) → c < 128 → is_kelvin a c e ≡ false
unfolding is_kelvin
kelvin_before a c e h = ground arith

first_ascii : (c d e : ℕ) → c < 128 → (is_long_s c d ≡ false) × (is_kelvin c d e ≡ false)
unfolding is_long_s is_kelvin
first_ascii c d e h = (ground arith, ground arith)

-- An ASCII byte is folded by itself.
fold_first : (c : ℕ) (s : Bytes) → c < 128 → fold_case (c ∷ s) ≡ upper c ∷ fold_case s
unfolding fold_case
fold_first c [] h = refl
fold_first c (d ∷ []) h = rw (first_ascii c d 0 h).0 refl
fold_first c (d ∷ e ∷ s) h = rw ((first_ascii c d e h).0, (first_ascii c d e h).1) refl

module _ (c : ℕ) (t : Bytes) (h : c < 128) where
  fold_one : (a : ℕ) (u : Bytes) → fold_case (a ∷ c ∷ u) ≡ upper a ∷ fold_case (c ∷ u)
  unfolding fold_case
  fold_one a [] = rw (long_s_ascii a c h) refl
  fold_one a (e ∷ u) = rw (long_s_ascii a c h, kelvin_before a c e h) refl

  -- What stands in front of an ASCII byte is folded by itself.
  fold_before : (s : Bytes) → fold_case (s ++ c ∷ t) ≡ fold_case s ++ fold_case (c ∷ t)
  unfolding fold_case
  fold_before [] = refl
  fold_before (a ∷ []) = fold_one a t
  fold_before (a ∷ b ∷ []) = elim (Bool-cases (is_long_s a b)) [
    | inl y ↦ rw y refl
    | inr n ↦ rw (n, kelvin_ascii a b c h) (ap (λ x. upper a ∷ x) (fold_one b t))
  ]
  fold_before (a ∷ b ∷ e ∷ s) = elim (Bool-cases (is_long_s a b)) [
    | inl y ↦ rw y (ap (λ x. b'S' ∷ x) (fold_before (e ∷ s)))
    | inr n ↦ rw n (elim (Bool-cases (is_kelvin a b e)) [
      | inl y ↦ rw y (ap (λ x. b'K' ∷ x) (fold_before s))
      | inr k ↦ rw k (ap (λ x. upper a ∷ x) (fold_before (b ∷ e ∷ s)))
    ])
  ]

fold-Ascii : (w t : Bytes) → Ascii w → fold_case (w ++ t) ≡ fold_case w ++ fold_case t
fold-Ascii [] t h = unfold fold_case in refl
fold-Ascii (c ∷ w) t h =
    rw (fold_first c (w ++ t) h.0, fold_first c w h.0) (ap (λ x. upper c ∷ x) (fold-Ascii w t h.1))

fold_around :
    (pre w post : Bytes)
    → Ascii w
    → fold_case w ≢ []
    → fold_case (pre ++ (w ++ post)) ≡ fold_case pre ++ (fold_case w ++ fold_case post)
fold_around pre [] post h e = absurd (e (unfold fold_case in refl))
fold_around pre (c ∷ w) post h e =
    fold_before c (w ++ post) h.0 pre ∙ ap (λ x. fold_case pre ++ x) (fold-Ascii (c ∷ w) post h)

is_prefix-append : (w t : Bytes) → is_prefix w (w ++ t) ≡ true
unfolding is_prefix
is_prefix-append [] t = refl
is_prefix-append (c ∷ w) t = ground (arith, is_prefix-append w t)

occurs-around : (s w t : Bytes) → occurs w (s ++ (w ++ t)) ≡ true
unfolding occurs
occurs-around [] [] [] = unfold is_prefix in refl
occurs-around [] [] (d ∷ t) = unfold is_prefix in refl
occurs-around [] (c ∷ w) t = rw (is_prefix-append (c ∷ w) t) refl
occurs-around (d ∷ s) w t = rw (occurs-around s w t) (or_true (is_prefix w (d ∷ (s ++ (w ++ t)))))

any_occurs-Among :
    (w : Bytes) (ws : List Bytes) (s : Bytes)
    → Among w ws
    → occurs w s ≡ true
    → any_occurs ws s ≡ true
unfolding any_occurs
any_occurs-Among w [] s m h = absurd m
any_occurs-Among w (v ∷ ws) s (inl e) h = rw (← e) (rw h refl)
any_occurs-Among w (v ∷ ws) s (inr m) h = rw (any_occurs-Among w ws s m h) (or_true (occurs v s))

words_nonempty : (w : Bytes) → Among w secret_words → w ≢ []
words_nonempty w m e = ground arith

name-sensitive :
    (pre word post w : Bytes)
    → Ascii word
    → fold_case word ≡ w
    → Among w secret_words
    → sensitive (pre ++ (word ++ post)) ≡ true
unfolding sensitive
name-sensitive pre word post w h e m =
    any_occurs-Among w secret_words (fold_case (pre ++ (word ++ post))) m (
      rw (fold_around pre word post h (λ n. words_nonempty w m (sym e ∙ n)), e)
        (occurs-around (fold_case pre) w (fold_case post)))

-- A value is masked if its name has one of the words PASSWORD, SECRET, TOKEN, KEY, LOGIN, DSN and
-- URL anywhere, in any mix of capital and small ASCII letters.
pub display-hides :
    (pre word post value w : Bytes)
    → Ascii word
    → fold_case word ≡ w
    → Among w secret_words
    → display (pre ++ (word ++ post)) value ≡ redacted
unfolding display
display-hides pre word post value w h e m = rw (name-sensitive pre word post w h e m) refl
