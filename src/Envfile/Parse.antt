-- ===== src/Envfile/Parse.antt =====
-- internal/envfile/envfile.go: `Parse` and what it calls. An error is kept as the value that its
-- text is made from.
use herd_wake.Prelude.{
  ℕ, suc, Bool, true, false, ◌&&◌, ◌||◌, List, [], ◌∷◌, ◌++◌, Option, none, some, leb, ◌==◌,
  if◌then◌else◌, Bytes, codes, equal, split, is_empty,
}
use herd_wake.Prelude.Space.{trim_space}

pub record Var : Type 0 where
  pub name : Bytes
  pub value : Bytes

pub data Fault : Type 0 where
  no_equals not_an_identifier unterminated_single unterminated_double trailing_text : Fault

pub data Result (A : Type 0) : Type 0 where
  ok : A → Result A
  fault : Fault → Result A

abbrev pub is_letter : ℕ → Bool
is_letter c = (leb 65 c && leb c 90) || (leb 97 c && leb c 122) || c == 95

abbrev pub is_word : ℕ → Bool
is_word c = is_letter c || (leb 48 c && leb c 57)

unfoldable pub all_word : Bytes → Bool
all_word [] = true
all_word (c ∷ s) = is_word c && all_word s

-- `validName`
unfoldable pub valid_name : Bytes → Bool
unfolding all_word
valid_name [] = false
valid_name (c ∷ s) = is_letter c && all_word s

-- `strings.CutPrefix`
unfoldable pub cut_prefix : (prefix s : Bytes) → Option Bytes
cut_prefix [] s = some s
cut_prefix (c ∷ p) [] = none
cut_prefix (c ∷ p) (d ∷ s) = if c == d then cut_prefix p s else none

-- `strings.Cut` at one byte
unfoldable pub cut : ℕ → Bytes → Option (Bytes × Bytes)
cut sep [] = none
cut sep (c ∷ s) =
    if c == sep
    then some ([], s)
    else elim (cut sep s) [ none ↦ none | some (before, after) ↦ some (c ∷ before, after) ]

-- `strings.TrimLeft` with a space and a tab
unfoldable pub skip_blanks : Bytes → Bytes
skip_blanks [] = []
skip_blanks (c ∷ s) = if c == 32 || c == 9 then skip_blanks s else c ∷ s

unfoldable pub cut_keyword : Bytes → Option Bytes → Bytes
unfolding skip_blanks
cut_keyword line none = line
cut_keyword line (some []) = line
cut_keyword line (some (c ∷ s)) = if c == 32 || c == 9 then skip_blanks (c ∷ s) else line

-- `cutExport`, and the use that `parseLine` makes of it
unfoldable pub cut_export : Bytes → Bytes
unfolding cut_prefix cut_keyword
cut_export line = cut_keyword line (cut_prefix (codes "export") line)

-- the byte behind a backslash
abbrev pub unescape : ℕ → Bytes
unescape c =
    if c == b'n' then b'\n' ∷ [] else if c == b'"' || c == b'\\' then c ∷ [] else b'\\' ∷ c ∷ []

abbrev pub prepend : Bytes → Result Bytes → Result Bytes
prepend s (ok v) = ok (s ++ v)
prepend s (fault e) = fault e

unfoldable pub parse_double_quoted : Bytes → Result Bytes
unfolding trim_space
parse_double_quoted [] = fault unterminated_double
parse_double_quoted (c ∷ []) = if c == b'"' then ok [] else fault unterminated_double
parse_double_quoted (c ∷ d ∷ s) =
    let rest = parse_double_quoted (d ∷ s) in
    let behind = parse_double_quoted s in
    if c == b'"'
    then (if is_empty (trim_space (d ∷ s)) then ok [] else fault trailing_text)
    else if c == b'\\'
    then prepend (unescape d) behind
    else prepend (c ∷ []) rest

unfoldable pub single_quoted : Option (Bytes × Bytes) → Result Bytes
unfolding trim_space
single_quoted none = fault unterminated_single
single_quoted (some (body, rest)) =
    if is_empty (trim_space rest) then ok body else fault trailing_text

unfoldable pub parse_value : Bytes → Result Bytes
unfolding cut parse_double_quoted single_quoted
parse_value [] = ok []
parse_value (c ∷ s) =
    if c == b'\''
    then single_quoted (cut b'\'' s)
    else if c == b'"'
    then parse_double_quoted s
    else ok (c ∷ s)

abbrev pub named : Bytes → Result Bytes → Result Var
named n (ok v) = ok (record { name = n; value = v })
named n (fault e) = fault e

-- what `parseLine` makes of `strings.Cut(line, "=")`
unfoldable pub parse_pair : Option (Bytes × Bytes) → Result Var
unfolding trim_space valid_name parse_value
parse_pair none = fault no_equals
parse_pair (some (name, value)) =
    if valid_name (trim_space name)
    then named (trim_space name) (parse_value (trim_space value))
    else fault not_an_identifier

unfoldable pub parse_line : Bytes → Result Var
unfolding cut_export cut parse_pair
parse_line line = parse_pair (cut b'=' (cut_export line))

unfoldable pub drop_var : Bytes → List Var → List Var
unfolding equal
drop_var n [] = []
drop_var n (v ∷ vars) = if equal v.name n then vars else v ∷ drop_var n vars

unfoldable pub override : List Var → Var → List Var
unfolding drop_var
override vars v = drop_var v.name vars ++ v ∷ []

-- `strings.TrimSuffix` of a carriage return
unfoldable pub trim_return : Bytes → Bytes
trim_return [] = []
trim_return (c ∷ []) = if c == b'\r' then [] else c ∷ []
trim_return (c ∷ d ∷ s) = c ∷ trim_return (d ∷ s)

-- `trimmed == "" || strings.HasPrefix(trimmed, "#")`
abbrev pub is_skipped : Bytes → Bool
is_skipped [] = true
is_skipped (c ∷ s) = c == b'#'

-- What `Parse` returns: the variables, or the number of the malformed line.
pub data Parsed : Type 0 where
  vars_of : List Var → Parsed
  bad_line : (number : ℕ) → Fault → Parsed

unfoldable pub parse_lines : (number : ℕ) → List Var → List Bytes → Parsed
parse_lines number vars [] = vars_of vars
parse_lines number vars (raw ∷ raws) =
    let trimmed = trim_space (trim_return raw) in
    if is_skipped trimmed then parse_lines (suc number) vars raws else elim (parse_line trimmed) [
      | ok v ↦ parse_lines (suc number) (override vars v) raws
      | fault e ↦ bad_line number e
    ]

-- the byte order mark in UTF-8
unfoldable pub trim_mark : Bytes → Bytes
unfolding cut_prefix
trim_mark s = elim (cut_prefix (239 ∷ 187 ∷ 191 ∷ []) s) [ none ↦ s | some rest ↦ rest ]

unfoldable pub parse : Bytes → Parsed
unfolding parse_lines split trim_mark trim_return trim_space parse_line override
parse data_bytes = parse_lines 1 [] (split b'\n' (trim_mark data_bytes))
