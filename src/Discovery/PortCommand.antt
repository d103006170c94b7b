-- ===== src/Discovery/PortCommand.antt =====
-- internal/discovery/portcmd.go: the port that a `port_command` prints.
use herd_wake.Prelude.{
  ℕ, zero, suc, ◌+◌, ◌*◌, ◌-◌, Bool, not, ◌&&◌, ◌||◌, List, [], ◌∷◌, Option, none, some, leb, ◌==◌,
  if◌then◌else◌, Bytes, codes, equal, is_empty, split,
}
use herd_wake.Prelude.Int.{ℤ, pos, negsuc}
use herd_wake.Prelude.Space.{trim_space, reversed}
use herd_wake.Config.Hostname.{is_valid_port}

abbrev pub is_digit : ℕ → Bool
is_digit c = leb 48 c && leb c 57

-- the number that digits stand for, with what stands before them; none where there is another byte
unfoldable pub digits_value : (before : ℕ) → Bytes → Option ℕ
digits_value n [] = some n
digits_value n (c ∷ s) = if is_digit c then digits_value (n * 10 + (c - 48)) s else none

-- the range of an `int`
abbrev pub max_int : ℕ
max_int = 9223372036854775807

abbrev pub positive_int : Option ℕ → Option ℤ
positive_int none = none
positive_int (some n) = if leb n max_int then some (pos n) else none

abbrev pub negative_of : ℕ → ℤ
negative_of zero = pos 0
negative_of (suc n) = negsuc n

abbrev pub negative_int : Option ℕ → Option ℤ
negative_int none = none
negative_int (some n) = if leb n (max_int + 1) then some (negative_of n) else none

-- the digits of a number, at least one
abbrev pub number : Bytes → Option ℕ
number [] = none
number (c ∷ s) = digits_value 0 (c ∷ s)

-- `strconv.Atoi`
unfoldable pub atoi : Bytes → Option ℤ
atoi [] = none
atoi (c ∷ s) =
    if c == b'+'
    then positive_int (number s)
    else if c == b'-'
    then negative_int (number s)
    else positive_int (number (c ∷ s))

-- What `url.Parse` makes of a line: its scheme, its host, and `Port()`, empty where there is none.
pub record Url : Type 0 where
  pub scheme : Bytes
  pub host : Bytes
  pub port : Bytes

pub data PortResult : Type 0 where
  a_port : ℤ → PortResult
  out_of_range : ℤ → PortResult
  printed_nothing non_numeric no_port : PortResult

-- `checkPort`
unfoldable pub check_port : ℤ → PortResult
check_port port = if is_valid_port port then a_port port else out_of_range port

unfoldable pub last_line : List Bytes → Bytes
last_line [] = []
last_line (l ∷ []) = l
last_line (l ∷ m ∷ ls) = last_line (m ∷ ls)

-- the digits at the front, up to another byte
unfoldable pub leading_digits : Bytes → Bytes
leading_digits [] = []
leading_digits (c ∷ s) = if is_digit c then c ∷ leading_digits s else []

-- `trailingInteger`: the digits at the end of a trimmed text
unfoldable pub trailing_digits : Bytes → Bytes
trailing_digits s = reversed (leading_digits (reversed s))

abbrev pub checked : Option ℤ → (otherwise : PortResult) → PortResult
checked none otherwise = otherwise
checked (some port) otherwise = check_port port

abbrev pub is_web : Url → Bool
is_web u =
    (equal u.scheme (codes "http") || equal u.scheme (codes "https")) && not (is_empty u.host)

unfoldable pub url_port : Url → PortResult
url_port u =
    if is_empty u.port
    then (if equal u.scheme (codes "https") then a_port (pos 443) else a_port (pos 80))
    else checked (atoi u.port) non_numeric

-- behind a last line that is no integer
unfoldable pub from_url : Option Url → (text : Bytes) → PortResult
from_url none text = checked (atoi (trailing_digits text)) no_port
from_url (some u) text =
    if is_web u then url_port u else checked (atoi (trailing_digits text)) no_port

-- `parsePort`; `parse` is `url.Parse`
unfoldable pub parse_port : (parse : Bytes → Option Url) → (output : Bytes) → PortResult
parse_port parse output =
    let text = trim_space output in
    let line = trim_space (last_line (split b'\n' text)) in
    if is_empty text then printed_nothing else checked (atoi line) (from_url (parse line) text)
