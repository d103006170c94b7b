-- ===== src/Envfile/RoundTrip.antt =====
-- internal/envfile/envfile.go: an env file that `Parse` reads back.
use herd_wake.Prelude.{
  split, ℕ, suc, true, false, ◌||◌, List, [], ◌∷◌, ◌++◌, none, ◌==◌, if◌then◌else◌, Bytes, equal,
  equal_iff, codes, arith, ◌≡◌, ◌≢◌, refl, sym, ◌∙◌, ap, append_assoc, append-nil, Bool-cases, inl,
  inr,
}
use herd_wake.Prelude.Space.{trim_space}
use herd_wake.Envfile.Parse.{
  Var, ok, vars_of, is_word, is_letter, all_word, valid_name, cut_prefix, cut_keyword, cut_export,
  parse_double_quoted, parse_value, parse_pair, parse_line, drop_var, override, trim_return,
  is_skipped, parse_lines, trim_mark, parse,
}
use herd_wake.Envfile.Load.{value_of}
use herd_wake.Envfile.Override.{Distinct}
use herd_wake.Envfile.Names.{Named}
use herd_wake.Envfile.ChildEnv.{entry}
use herd_wake.Envfile.Entries.{cut-entry, valid_name-Free}
use herd_wake.Envfile.Trim.{
  Starts, trim_space_same, trim_return_same, trim_name, valid_name-Starts, Starts-reversed,
  letter-word,
}

-- One byte of a value between double quotes.
abbrev pub escape_byte : ℕ → Bytes
escape_byte c =
    if c == b'\n'
    then b'\\' ∷ b'n' ∷ []
    else if c == b'"' || c == b'\\'
    then b'\\' ∷ c ∷ []
    else c ∷ []

abbrev pub escaped : Bytes → Bytes
escaped [] = []
escaped (c ∷ v) = escape_byte c ++ escaped v

abbrev pub quoted : Bytes → Bytes
quoted v = escaped v ++ b'"' ∷ []

-- A variable as a line, and variables as a file.
abbrev pub line_of : Var → Bytes
line_of v = entry v.name (b'"' ∷ quoted v.value)

abbrev pub file_of : List Var → Bytes
file_of [] = []
file_of (v ∷ vars) = line_of v ++ b'\n' ∷ file_of vars

read_byte :
    (c : ℕ) (s : Bytes) (v : Bytes)
    → parse_double_quoted s ≡ ok v
    → parse_double_quoted (escape_byte c ++ s) ≡ ok (c ∷ v)
unfolding parse_double_quoted
read_byte c [] v h = ground arith
read_byte c (d ∷ s) v h = ground arith

-- Every value, whatever bytes it has, is read back from between double quotes.
read_quoted : (v : Bytes) → parse_double_quoted (quoted v) ≡ ok v
read_quoted [] = unfold parse_double_quoted in refl
read_quoted (c ∷ v) =
    rw (append_assoc (escape_byte c) (escaped v) (b'"' ∷ []))
      (read_byte c (quoted v) v (read_quoted v))

-- No line end in a list of bytes.
abbrev OneLine : Bytes → Type 0
OneLine [] = Unit
OneLine (c ∷ s) = (c ≢ b'\n') × OneLine s

OneLine-append : (s t : Bytes) → OneLine s → OneLine t → OneLine (s ++ t)
OneLine-append [] t h g = g
OneLine-append (c ∷ s) t h g = (h.0, OneLine-append s t h.1 g)

escape_byte-OneLine : (c : ℕ) → OneLine (escape_byte c)
escape_byte-OneLine c = ground arith

escaped-OneLine : (v : Bytes) → OneLine (escaped v)
escaped-OneLine [] = tt
escaped-OneLine (c ∷ v) =
    OneLine-append (escape_byte c) (escaped v) (escape_byte-OneLine c) (escaped-OneLine v)

all_word-OneLine : (s : Bytes) → all_word s ≡ true → OneLine s
unfolding all_word
all_word-OneLine [] h = tt
all_word-OneLine (c ∷ s) h = elim (Bool-cases (is_word c)) [
  | inl w ↦ (λ e. cc (rw e at w), all_word-OneLine s (rw w at h))
  | inr w ↦ cc (rw w at h)
]

name_word : (n : Bytes) → valid_name n ≡ true → all_word n ≡ true
unfolding valid_name all_word
name_word [] h = cc
name_word (c ∷ s) h = elim (Bool-cases (is_letter c)) [
  | inl l ↦ rw (letter-word c l) (rw l at h)
  | inr l ↦ cc (rw l at h)
]

line_of-OneLine : (v : Var) → valid_name v.name ≡ true → OneLine (line_of v)
line_of-OneLine v h =
    OneLine-append v.name (b'=' ∷ b'"' ∷ quoted v.value)
      (all_word-OneLine v.name (name_word v.name h))
      (
        omega arith,
        (
          omega arith,
          OneLine-append (escaped v.value) (b'"' ∷ []) (escaped-OneLine v.value) (omega arith, tt),
        ),
      )

-- A name is not taken for `export`.
no_keyword :
    (line p n s : Bytes)
    → all_word p ≡ true
    → all_word n ≡ true
    → cut_keyword line (cut_prefix p (n ++ b'=' ∷ s)) ≡ line
unfolding cut_keyword cut_prefix all_word
no_keyword line [] [] s h g = refl
no_keyword line [] (d ∷ n) s h g = ground arith
no_keyword line (c ∷ p) [] s h g = ground arith
no_keyword line (c ∷ p) (d ∷ n) s h g = ground (arith, no_keyword line p n s)

cut_export_same : (n s : Bytes) → all_word n ≡ true → cut_export (n ++ b'=' ∷ s) ≡ n ++ b'=' ∷ s
unfolding cut_export
cut_export_same n s h = no_keyword (n ++ b'=' ∷ s) (codes "export") n s (unfold all_word in refl) h

trim_quoted : (v : Bytes) → trim_space (b'"' ∷ quoted v) ≡ b'"' ∷ quoted v
trim_quoted v =
    trim_space_same (b'"' ∷ quoted v) (omega arith)
      (Starts-reversed (b'"' ∷ escaped v) b'"' (omega arith))

parse_line-line_of : (v : Var) → valid_name v.name ≡ true → parse_line (line_of v) ≡ ok v
unfolding parse_line parse_pair parse_value
parse_line-line_of v h =
    rw
      (
        cut_export_same v.name (b'"' ∷ quoted v.value) (name_word v.name h),
        cut-entry v.name (b'"' ∷ quoted v.value) (valid_name-Free v.name h),
      )
      (rw (trim_name v.name h, trim_quoted v.value) (rw h (rw (read_quoted v.value) refl)))

split_line : (l s : Bytes) → OneLine l → split b'\n' (l ++ b'\n' ∷ s) ≡ l ∷ split b'\n' s
unfolding split
split_line [] s h = refl
split_line (c ∷ l) s h = ground (arith, split_line l s h.1)

-- The lines of the file, with the empty string behind the last line end.
abbrev lines_of : List Var → List Bytes
lines_of [] = [] ∷ []
lines_of (v ∷ vars) = line_of v ∷ lines_of vars

split_file : (vars : List Var) → Named vars → split b'\n' (file_of vars) ≡ lines_of vars
split_file [] h = unfold split in refl
split_file (v ∷ vars) h =
    split_line (line_of v) (file_of vars) (line_of-OneLine v h.0)
    ∙ ap (λ ls. line_of v ∷ ls) (split_file vars h.1)

line_end : (v : Var) → line_of v ≡ (v.name ++ b'=' ∷ b'"' ∷ escaped v.value) ++ b'"' ∷ []
line_end v = sym (append_assoc v.name (b'=' ∷ b'"' ∷ escaped v.value) (b'"' ∷ []))

name-Starts : (n s : Bytes) → valid_name n ≡ true → Starts (n ++ s)
unfolding valid_name
name-Starts [] s h = cc h
name-Starts (c ∷ n) s h = valid_name-Starts (c ∷ n) h

-- What the loop of `Parse` makes of a line before it parses it.
trim_line : (v : Var) → valid_name v.name ≡ true → trim_space (trim_return (line_of v)) ≡ line_of v
trim_line v h =
    ap trim_space (
      ap trim_return (line_end v)
      ∙ trim_return_same (v.name ++ b'=' ∷ b'"' ∷ escaped v.value) b'"' (omega arith)
      ∙ sym (line_end v))
    ∙ trim_space_same (line_of v) (name-Starts v.name (b'=' ∷ b'"' ∷ quoted v.value) h) (
        rw (line_end v)
          (Starts-reversed (v.name ++ b'=' ∷ b'"' ∷ escaped v.value) b'"' (omega arith)))

line-is_skipped : (n s : Bytes) → valid_name n ≡ true → is_skipped (n ++ s) ≡ false
unfolding valid_name
line-is_skipped [] s h = cc h
line-is_skipped (c ∷ n) s h = ground arith

-- None of the names is bound yet.
abbrev Fresh : List Var → List Var → Type 0
Fresh acc [] = Unit
Fresh acc (v ∷ vars) = (value_of v.name acc ≡ none) × Fresh acc vars

drop_var-none : (n : Bytes) (vars : List Var) → value_of n vars ≡ none → drop_var n vars ≡ vars
unfolding value_of drop_var
drop_var-none n [] h = refl
drop_var-none n (v ∷ vars) h = ground (arith, drop_var-none n vars)

snoc-none :
    (n : Bytes) (acc : List Var) (v : Var)
    → value_of n acc ≡ none
    → equal v.name n ≡ false
    → value_of n (acc ++ v ∷ []) ≡ none
unfolding value_of
snoc-none n [] v h g = rw g refl
snoc-none n (w ∷ acc) v h g = ground (arith, snoc-none n acc v)

snoc-Fresh :
    (acc : List Var) (v : Var) (vars : List Var)
    → Fresh acc vars
    → value_of v.name vars ≡ none
    → Fresh (acc ++ v ∷ []) vars
unfolding value_of
snoc-Fresh acc v [] h g = tt
snoc-Fresh acc v (w ∷ vars) h g = elim (Bool-cases (equal w.name v.name)) [
  | inl same ↦ cc (rw same at g)
  | inr other ↦ (
    snoc-none w.name acc v h.0 (ground (arith, equal_iff w.name v.name, equal_iff v.name w.name)),
    snoc-Fresh acc v vars h.1 (rw other at g),
  )
]

parse_file :
    (k : ℕ) (acc vars : List Var)
    → Named vars
    → Distinct vars
    → Fresh acc vars
    → parse_lines k acc (lines_of vars) ≡ vars_of (acc ++ vars)
unfolding parse_lines override trim_space trim_return
parse_file k acc [] h d f = ap vars_of (sym (append-nil acc))
parse_file k acc (v ∷ vars) h d f =
    rw (trim_line v h.0, line-is_skipped v.name (b'=' ∷ b'"' ∷ quoted v.value) h.0)
      (rw (parse_line-line_of v h.0, drop_var-none v.name acc f.0)
        (parse_file (suc k) (acc ++ v ∷ []) vars h.1 d.1 (snoc-Fresh acc v vars f.1 d.0)
          ∙ ap vars_of (append_assoc acc (v ∷ []) vars)))

line-Starts : (v : Var) (s : Bytes) → valid_name v.name ≡ true → Starts (line_of v ++ s)
line-Starts v s h =
    rw (append_assoc v.name (b'=' ∷ b'"' ∷ quoted v.value) s)
      (name-Starts v.name ((b'=' ∷ b'"' ∷ quoted v.value) ++ s) h)

unmarked : (s : Bytes) → Starts s → trim_mark s ≡ s
unfolding trim_mark cut_prefix
unmarked [] h = absurd h
unmarked (c ∷ s) h = ground arith

no_mark : (vars : List Var) → Named vars → trim_mark (file_of vars) ≡ file_of vars
unfolding trim_mark cut_prefix
no_mark [] h = refl
no_mark (v ∷ vars) h =
    unmarked (line_of v ++ b'\n' ∷ file_of vars) (line-Starts v (b'\n' ∷ file_of vars) h.0)

all-Fresh : (vars : List Var) → Fresh [] vars
all-Fresh [] = tt
all-Fresh (v ∷ vars) = (unfold value_of in refl, all-Fresh vars)

-- `Parse` reads back any variables with shell identifiers for names, none of them twice, whatever
-- bytes their values have, from a file that has a line for each, `NAME="value"`, where the value's
-- line ends, double quotes and backslashes are escaped.
pub parse-file_of :
    (vars : List Var) → Named vars → Distinct vars → parse (file_of vars) ≡ vars_of vars
unfolding parse
parse-file_of vars h d =
    rw (no_mark vars h, split_file vars h) (parse_file 1 [] vars h d (all-Fresh vars))
