-- ===== src/Envfile/Tests.antt =====
-- Runs of the models of internal/envfile, and the theorems at concrete inputs.
use herd_wake.Prelude.{
  true, false, List, [], ◌∷◌, some, ◌++◌, Bytes, codes, equal, if◌then◌else◌, ◌≡◌, refl, inl, inr,
  arith,
}
use herd_wake.Config.Project.{Project}
use herd_wake.Config.Sample.{dashboard}
use herd_wake.Envfile.Parse.{
  Var, valid_name, vars_of, bad_line, no_equals, unterminated_double, parse,
}
use herd_wake.Envfile.Load.{Read, bytes, not_exist, value_of}
use herd_wake.Envfile.Override.{Distinct}
use herd_wake.Envfile.Names.{Clean, parse-Clean}
use herd_wake.Envfile.ChildEnv.{
  Machine, child, child_env, display, redacted, sensitive, any_occurs, occurs, is_prefix, fold_case,
  upper, is_long_s, is_kelvin,
}
use herd_wake.Envfile.Entries.{inline_value}
use herd_wake.Envfile.Precedence.{Precedes, child_env-Precedes}
use herd_wake.Envfile.RoundTrip.{file_of, parse-file_of}
use herd_wake.Envfile.Secrets.{display-hides}

abbrev var : (name value : Bytes) → Var
var n v = record { name = n; value = v }

abbrev sample_text : Bytes
sample_text = codes "# shared\n export A=1 \n\nB=\"x\\ny\"\r\nA='two'\n"

-- A comment, an `export`, escapes, a carriage return, and a name that comes twice.
sample_parsed :
    parse sample_text
    ≡ vars_of (var (codes "B") (codes "x\ny") ∷ var (codes "A") (codes "two") ∷ [])
unfolding parse equal
sample_parsed = refl

bad_second : parse (codes "A=1\nnothing\n") ≡ bad_line 2 no_equals
unfolding parse equal
bad_second = refl

bad_quote : parse (codes "A=\"x\\") ≡ bad_line 1 unterminated_double
unfolding parse
bad_quote = refl

parse-Clean_example : Clean (parse sample_text)
parse-Clean_example = parse-Clean sample_text

abbrev two_vars : List Var
two_vars = var (codes "_x1") (codes "a\"b\\c\n#d ") ∷ var (codes "export") [] ∷ []

two_vars-Distinct : Distinct two_vars
unfolding value_of
two_vars-Distinct = (refl, (refl, tt))

parse-file_of_example : parse (file_of two_vars) ≡ vars_of two_vars
unfolding valid_name
parse-file_of_example = parse-file_of two_vars (refl, (refl, tt)) two_vars-Distinct

abbrev shared_file : Bytes → Read
shared_file path =
    if equal path (codes "/etc/wake.env") then bytes (codes "A=file\nPATH=x") else not_exist

abbrev machine : Machine
machine = record {
  environ = codes "A=daemon" ∷ codes "HOME=/home/dev" ∷ [];
  search_path = codes "/usr/bin";
  is_dir = λ path. false;
  parent = λ path. codes "/opt/node/bin";
  join = λ dir path. dir ++ b'/' ∷ path;
  read = shared_file;
  shared = λ path. true;
}

abbrev layered : Project
layered = record dashboard {
  env = some ((codes "B", codes "inline") ∷ []);
  env_file = codes "/etc/wake.env" ∷ codes ".env.preview" ∷ [];
  node_path = codes "/opt/node/bin/node";
}

layered_env :
    child_env machine layered (codes "/w")
    ≡ child
        (codes "A=daemon"
          ∷ codes "HOME=/home/dev"
          ∷ codes "PATH=/opt/node/bin:/usr/bin"
          ∷ codes "A=file"
          ∷ codes "PATH=x"
          ∷ codes "B=inline"
          ∷ [])
        (codes "/etc/wake.env" ∷ [])
unfolding child_env equal parse
layered_env = refl

child_env-Precedes_example :
    Precedes machine layered (codes "/w") (child_env machine layered (codes "/w"))
unfolding inline_value
child_env-Precedes_example =
    child_env-Precedes machine layered (codes "/w") (refl, (omega arith, tt), tt)

display-hides_example :
    display (codes "My_Api_" ++ (codes "Key" ++ codes "2")) (codes "hunter2") ≡ redacted
unfolding fold_case upper is_long_s is_kelvin
display-hides_example =
    display-hides (codes "My_Api_") (codes "Key") (codes "2") (codes "hunter2") (codes "KEY")
      (omega arith) refl (inr (inr (inr (inl refl))))

public_shown : display (codes "PORT") (codes "80") ≡ codes "80"
unfolding display sensitive any_occurs occurs is_prefix fold_case upper is_long_s is_kelvin
public_shown = refl

-- U+212A stands for a K.
kelvin_hidden : display (226 ∷ 132 ∷ 170 ∷ codes "ey") (codes "x") ≡ redacted
unfolding display sensitive any_occurs occurs is_prefix fold_case upper is_long_s is_kelvin
kelvin_hidden = refl
