-- ===== src/Daemon/Wildcard/Ports.antt =====
-- internal/daemon/wildcard.go: the port that a range gives to a label.
use herd_wake.Prelude.{ℕ, zero, suc, ◌<◌, Option, none, some, Bytes, arith, ◌≡◌, refl, ap, ◌∙◌}
use herd_wake.Prelude.Int.{ℤ, pos, negsuc}
use herd_wake.Config.Defaults.{add_ℕ}
use herd_wake.Daemon.Wildcard.{Table, PortOwner, free_or, port_owner, lowest_free}

add_ℕ-suc : (i : ℤ) (k : ℕ) → add_ℕ (add_ℕ i 1) k ≡ add_ℕ i (suc k)
unfolding add_ℕ
add_ℕ-suc (pos m) zero = refl
add_ℕ-suc (pos m) (suc k) = ap pos (omega arith)
add_ℕ-suc (negsuc zero) zero = refl
add_ℕ-suc (negsuc zero) (suc k) = ap pos (omega arith)
add_ℕ-suc (negsuc (suc m)) k = refl

-- The ports below `count` steps from `low` are all in use.
abbrev pub AllUsed : Table → (label : Bytes) → (low : ℤ) → (count : ℕ) → Type 0
AllUsed t label low count = (j : ℕ) → j < count → ¬ (port_owner (add_ℕ low j) label t ≡ none)

-- A port of a range that is free, and no lower one is.
pub record Lowest (t : Table) (label : Bytes) (low : ℤ) (count : ℕ) (port : ℤ) : Type 0 where
  pub steps : ℕ
  pub in_range : steps < count
  pub there : port ≡ add_ℕ low steps
  pub free : port_owner port label t ≡ none
  pub below : AllUsed t label low steps

-- What a search of a range may find.
abbrev pub Searched : Table → (label : Bytes) → (low : ℤ) → (count : ℕ) → Option ℤ → Type 0
Searched t label low count none = AllUsed t label low count
Searched t label low count (some port) = Lowest t label low count port

used_suc :
    (t : Table) (label : Bytes) (low : ℤ) (n : ℕ)
    → ¬ (port_owner low label t ≡ none)
    → AllUsed t label (add_ℕ low 1) n
    → AllUsed t label low (suc n)
unfolding add_ℕ
used_suc t label low n used rest zero h e = used e
used_suc t label low n used rest (suc j) h e = rest j (omega arith) (rw (add_ℕ-suc low j) e)

-- The loop stops at the first port that nobody has.
pub lowest_free-Searched :
    (count : ℕ) (low : ℤ) (label : Bytes) (t : Table)
    → Searched t label low count (lowest_free count low label t)
unfolding lowest_free
lowest_free-Searched zero low label t = λ j h e. omega arith
lowest_free-Searched (suc n) low label t =
    choose (lowest_free-Searched n (add_ℕ low 1) label t) (port_owner low label t) refl
  where
    higher :
        (r : Option ℤ)
        → ¬ (port_owner low label t ≡ none)
        → Searched t label (add_ℕ low 1) n r
        → Searched t label low (suc n) r
    higher none used rest = used_suc t label low n used rest
    higher (some port) used l = record {
      steps = suc l.steps;
      in_range = omega (arith, l.in_range);
      there = l.there ∙ add_ℕ-suc low l.steps;
      free = l.free;
      below = used_suc t label low l.steps used l.below;
    }

    choose :
        Searched t label (add_ℕ low 1) n (lowest_free n (add_ℕ low 1) label t)
        → (o : Option PortOwner) → port_owner low label t ≡ o
        → Searched t label low (suc n) (free_or low o (lowest_free n (add_ℕ low 1) label t))
    choose rest none free = record {
      steps = 0;
      in_range = omega arith;
      there = unfold add_ℕ in refl;
      free = free;
      below = λ j h e. omega arith;
    }
    choose rest (some owner) e = higher (lowest_free n (add_ℕ low 1) label t) (λ f. cc (e, f)) rest
