-- ===== src/Prelude/Space.antt =====
-- White space as `strings.TrimSpace` has it: the Unicode white space, in UTF-8.
use Prim.Native.Nat.{ℕ}
use mathlib.Core.Bool.{Bool, ◌&&◌, ◌||◌}
use mathlib.Core.List.{[], ◌∷◌, ◌++◌}
use herd_wake.Prelude.Tests.{leb, ◌==◌, if◌then◌else◌}
use herd_wake.Prelude.Text.{Bytes}

-- the white space of one byte
abbrev pub is_blank : ℕ → Bool
is_blank c = (leb 9 c && leb c 13) || c == 32

-- U+0085 and U+00A0
abbrev is_space2 : (c d : ℕ) → Bool
is_space2 c d = c == 194 && (d == 133 || d == 160)

-- U+1680, U+2000 to U+200A, U+2028, U+2029, U+202F, U+205F and U+3000
abbrev is_space3 : (c d e : ℕ) → Bool
is_space3 c d e =
    (c == 225 && d == 154 && e == 128)
    || (c == 226 && d == 128 && ((leb 128 e && leb e 138) || e == 168 || e == 169 || e == 175))
    || (c == 226 && d == 129 && e == 159)
    || (c == 227 && d == 128 && e == 128)

-- `strings.TrimLeft` with the white space
unfoldable pub trim_left : Bytes → Bytes
trim_left [] = []
trim_left (c ∷ []) = if is_blank c then [] else c ∷ []
trim_left (c ∷ d ∷ []) =
    let rest = trim_left (d ∷ []) in
    if is_blank c then rest else if is_space2 c d then [] else c ∷ d ∷ []
trim_left (c ∷ d ∷ e ∷ s) =
    let rest = trim_left (d ∷ e ∷ s) in
    let rest2 = trim_left (e ∷ s) in
    let rest3 = trim_left s in
    if is_blank c
    then rest
    else if is_space2 c d
    then rest2
    else if is_space3 c d e
    then rest3
    else c ∷ d ∷ e ∷ s

-- The same from the end: of a string that is given from its end.
unfoldable pub trim_back : Bytes → Bytes
trim_back [] = []
trim_back (c ∷ []) = if is_blank c then [] else c ∷ []
trim_back (d ∷ c ∷ []) =
    let rest = trim_back (c ∷ []) in
    if is_blank d then rest else if is_space2 c d then [] else d ∷ c ∷ []
trim_back (e ∷ d ∷ c ∷ s) =
    let rest = trim_back (d ∷ c ∷ s) in
    let rest2 = trim_back (c ∷ s) in
    let rest3 = trim_back s in
    if is_blank e
    then rest
    else if is_space2 d e
    then rest2
    else if is_space3 c d e
    then rest3
    else e ∷ d ∷ c ∷ s

unfoldable pub reversed : Bytes → Bytes
reversed [] = []
reversed (c ∷ s) = reversed s ++ c ∷ []

unfoldable pub trim_space : Bytes → Bytes
unfolding trim_left trim_back reversed
trim_space s = reversed (trim_back (reversed (trim_left s)))
