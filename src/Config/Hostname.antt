-- ===== src/Config/Hostname.antt =====
-- internal/config/discovery.go and config.go: the tests on names, ports and addresses.
use herd_wake.Prelude.{
  ℕ, Bool, true, false, not, ◌&&◌, ◌||◌, List, [], ◌∷◌, Option, none, some, length, leb, ltb, ◌==◌,
  if◌then◌else◌, Bytes, codes, equal, is_empty, split,
}
use herd_wake.Prelude.Int.{ℤ, pos, negsuc}

abbrev pub edge_byte : ℕ → Bool
edge_byte c = (leb 97 c && leb c 122) || (leb 48 c && leb c 57)

abbrev pub label_byte : ℕ → Bool
label_byte c = edge_byte c || c == b'-'

-- the bytes behind the first one
unfoldable pub label_tail : Bytes → Bool
label_tail [] = true
label_tail (c ∷ []) = edge_byte c
label_tail (c ∷ d ∷ s) = label_byte c && label_tail (d ∷ s)

-- `IsDNSLabel`
unfoldable pub is_dns_label : Bytes → Bool
is_dns_label [] = false
is_dns_label (c ∷ s) = edge_byte c && (label_tail s && leb (length s) 62)

unfoldable pub all_labels : List Bytes → Bool
unfolding is_dns_label
all_labels [] = true
all_labels (l ∷ ls) = is_dns_label l && all_labels ls

-- `IsHostname`
unfoldable pub is_hostname : Bytes → Bool
is_hostname host =
    if is_empty host || ltb 253 (length host) then false else all_labels (split b'.' host)

unfoldable pub is_valid_port : ℤ → Bool
is_valid_port (pos n) = leb 1 n && leb n 65535
is_valid_port (negsuc n) = false

-- `==` on integers
unfoldable pub equal_int : ℤ → ℤ → Bool
equal_int (pos m) (pos n) = m == n
equal_int (pos m) (negsuc n) = false
equal_int (negsuc m) (pos n) = false
equal_int (negsuc m) (negsuc n) = m == n

abbrev pub is_negative : ℤ → Bool
is_negative (pos n) = false
is_negative (negsuc n) = true

abbrev pub is_zero : ℤ → Bool
is_zero (pos n) = n == 0
is_zero (negsuc n) = false

-- What `os.Stat` finds.
pub data Found : Type 0 where
  absent directory regular other_file : Found

-- What the operating system and the packages net/url, net, path and path/filepath answer: `os.Stat`;
-- the scheme and the host of `url.Parse`; whether `net.ParseIP` reads a loopback address;
-- `os.UserHomeDir`; `filepath.Join`; `path.Match`, none for a malformed pattern; and `strings.ToLower`
-- of a string that is not ASCII.
pub record Platform : Type 0 where
  pub stat : Bytes → Found
  pub parse_url : Bytes → Option (Bytes × Bytes)
  pub loopback_ip : Bytes → Bool
  pub home : Option Bytes
  pub join : Bytes → Bytes → Bytes
  pub glob : Bytes → Bytes → Option Bool
  pub lower_unicode : Bytes → Bytes

module _ (o : Platform) where
  -- `checkHTTPURL(raw) == nil`
  unfoldable pub is_http_url : Bytes → Bool
  unfolding equal
  is_http_url raw = elim (o.parse_url raw) [
    | none ↦ false
    | some (scheme, host) ↦
        (equal scheme (codes "http") || equal scheme (codes "https")) && not (is_empty host)
  ]

  unfoldable pub is_loopback_host : Bytes → Bool
  unfolding equal
  is_loopback_host host = equal host (codes "localhost") || o.loopback_ip host
