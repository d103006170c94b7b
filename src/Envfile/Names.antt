-- ===== src/Envfile/Names.antt =====
-- internal/envfile/envfile.go: the names that `Parse` and `Load` return.
use herd_wake.Prelude.{
  split, ℕ, suc, true, List, [], ◌∷◌, ◌++◌, Option, none, some, Bytes, equal, ◌≡◌, Bool-cases, inl,
  inr,
}
use herd_wake.Prelude.Space.{trim_space}
use herd_wake.Envfile.Parse.{
  Var, Result, ok, fault, Parsed, vars_of, bad_line, cut, cut_export, valid_name, parse_value,
  named, parse_pair, parse_line, parse_lines, parse, trim_mark, trim_return, is_skipped, drop_var,
  override,
}
use herd_wake.Envfile.Load.{override_all}
use herd_wake.Envfile.Override.{Distinct, override-Distinct}

-- Every name is a shell identifier.
abbrev pub Named : List Var → Type 0
Named [] = Unit
Named (v ∷ vars) = (valid_name v.name ≡ true) × Named vars

drop_var-Named : (n : Bytes) (vars : List Var) → Named vars → Named (drop_var n vars)
unfolding drop_var
drop_var-Named n [] h = tt
drop_var-Named n (v ∷ vars) h = elim (Bool-cases (equal v.name n)) [
  | inl same ↦ rw same h.1
  | inr other ↦ rw other (h.0, drop_var-Named n vars h.1)
]

snoc-Named :
    (vars : List Var) (v : Var) → Named vars → valid_name v.name ≡ true → Named (vars ++ v ∷ [])
snoc-Named [] v h e = (e, tt)
snoc-Named (w ∷ vars) v h e = (h.0, snoc-Named vars v h.1 e)

pub override-Named :
    (vars : List Var) (v : Var) → Named vars → valid_name v.name ≡ true → Named (override vars v)
unfolding override
override-Named vars v h e = snoc-Named (drop_var v.name vars) v (drop_var-Named v.name vars h) e

pub override_all-Named : (vars vs : List Var) → Named vars → Named vs → Named (override_all vars vs)
unfolding override_all
override_all-Named vars [] h g = h
override_all-Named vars (v ∷ vs) h g =
    override_all-Named (override vars v) vs (override-Named vars v h g.0) g.1

-- What `parseLine` returns, if it returns a variable.
abbrev NamesIt : Result Var → Type 0
NamesIt (ok v) = valid_name v.name ≡ true
NamesIt (fault e) = Unit

named-NamesIt : (n : Bytes) (r : Result Bytes) → valid_name n ≡ true → NamesIt (named n r)
named-NamesIt n (ok v) h = h
named-NamesIt n (fault e) h = tt

parse_pair-NamesIt : (c : Option (Bytes × Bytes)) → NamesIt (parse_pair c)
unfolding parse_pair
parse_pair-NamesIt none = tt
parse_pair-NamesIt (some (n, v)) = elim (Bool-cases (valid_name (trim_space n))) [
  | inl h ↦ rw h (named-NamesIt (trim_space n) (parse_value (trim_space v)) h)
  | inr h ↦ rw h tt
]

parse_line-NamesIt : (line : Bytes) → NamesIt (parse_line line)
unfolding parse_line
parse_line-NamesIt line = parse_pair-NamesIt (cut b'=' (cut_export line))

-- What `Parse` returns, if it returns variables.
abbrev pub Clean : Parsed → Type 0
Clean (vars_of vars) = Named vars × Distinct vars
Clean (bad_line n e) = Unit

-- the step of the loop of `Parse` behind `parseLine`
keep-Clean :
    (r : Result Var) (number : ℕ) (vars : List Var) (raws : List Bytes)
    → NamesIt r
    → Named vars
    → Distinct vars
    → ((n : ℕ) (vs : List Var) → Named vs → Distinct vs → Clean (parse_lines n vs raws))
    → Clean (elim r [
      | ok v ↦ parse_lines (suc number) (override vars v) raws
      | fault e ↦ bad_line number e
    ])
keep-Clean (ok v) number vars raws i h d all =
    all (suc number) (override vars v) (override-Named vars v h i) (override-Distinct vars v d)
keep-Clean (fault e) number vars raws i h d all = tt

parse_lines-Clean :
    (number : ℕ) (vars : List Var) (raws : List Bytes)
    → Named vars
    → Distinct vars
    → Clean (parse_lines number vars raws)
unfolding parse_lines
parse_lines-Clean number vars [] h d = (h, d)
parse_lines-Clean number vars (raw ∷ raws) h d =
    elim (Bool-cases (is_skipped (trim_space (trim_return raw)))) [
      | inl skipped ↦ rw skipped (parse_lines-Clean (suc number) vars raws h d)
      | inr kept ↦ rw kept (
          keep-Clean (parse_line (trim_space (trim_return raw))) number vars raws
            (parse_line-NamesIt (trim_space (trim_return raw))) h d
            (λ n vs. parse_lines-Clean n vs raws))
    ]

-- Whatever the bytes of a file, the variables that `Parse` returns have shell identifiers for names,
-- and no name twice.
pub parse-Clean : (text : Bytes) → Clean (parse text)
unfolding parse
parse-Clean text = parse_lines-Clean 1 [] (split b'\n' (trim_mark text)) tt tt
