-- ===== src/Discovery/PortBounds.antt =====
-- internal/discovery/portcmd.go: the ports that `parsePort` gives.
use herd_wake.Prelude.{
  true, false, Option, none, some, Bytes, codes, equal, is_empty, split, ◌≡◌, refl, Bool-cases, inl,
  inr,
}
use herd_wake.Prelude.Int.{ℤ}
use herd_wake.Prelude.Space.{trim_space}
use herd_wake.Config.Hostname.{is_valid_port}
use herd_wake.Discovery.PortCommand.{
  atoi, Url, PortResult, a_port, out_of_range, printed_nothing, non_numeric, no_port, check_port,
  last_line, trailing_digits, checked, is_web, url_port, from_url, parse_port,
}

-- A port, where there is one, is valid.
abbrev pub InRange : PortResult → Type 0
InRange (a_port port) = is_valid_port port ≡ true
InRange (out_of_range port) = is_valid_port port ≡ false
InRange printed_nothing = Unit
InRange non_numeric = Unit
InRange no_port = Unit

check_port-InRange : (port : ℤ) → InRange (check_port port)
unfolding check_port
check_port-InRange port = elim (Bool-cases (is_valid_port port)) [ inl y ↦ rw y y | inr z ↦ rw z z ]

checked-InRange :
    (x : Option ℤ) (otherwise : PortResult) → InRange otherwise → InRange (checked x otherwise)
checked-InRange none otherwise h = h
checked-InRange (some port) otherwise h = check_port-InRange port

url_port-InRange : (u : Url) → InRange (url_port u)
unfolding url_port is_valid_port
url_port-InRange u = elim (Bool-cases (is_empty u.port)) [
  | inr z ↦ rw z (checked-InRange (atoi u.port) non_numeric tt)
  | inl y ↦
      rw y (elim (Bool-cases (equal u.scheme (codes "https"))) [
        | inl s ↦ rw s refl
        | inr n ↦ rw n refl
      ])
]

from_url-InRange : (x : Option Url) (text : Bytes) → InRange (from_url x text)
unfolding from_url
from_url-InRange none text = checked-InRange (atoi (trailing_digits text)) no_port tt
from_url-InRange (some u) text = elim (Bool-cases (is_web u)) [
  | inl y ↦ rw y (url_port-InRange u)
  | inr z ↦ rw z (checked-InRange (atoi (trailing_digits text)) no_port tt)
]

-- Whatever a `port_command` prints, and whatever `url.Parse` makes of its last line, the port that
-- `parsePort` gives is a valid one, and a port that it refuses as out of range is not.
pub parse_port-InRange :
    (parse : Bytes → Option Url) (output : Bytes) → InRange (parse_port parse output)
unfolding parse_port
parse_port-InRange parse output = elim (Bool-cases (is_empty (trim_space output))) [
  | inl y ↦ rw y tt
  | inr z ↦
      let line = trim_space (last_line (split b'\n' (trim_space output))) in
      rw z (
        checked-InRange (atoi line) (from_url (parse line) (trim_space output))
          (from_url-InRange (parse line) (trim_space output)))
]
