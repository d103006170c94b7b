-- ===== src/Herd.antt =====
-- internal/herd/herd.go: the Herd command line. What its commands print and what they do is an
-- argument; the answers of encoding/json and net/url are functions of the record `Web`.
pub mod Links
use herd_wake.Prelude.{
  ℕ, zero, suc, Bool, true, false, not, ◌&&◌, ◌||◌, List, [], ◌∷◌, ◌++◌, Option, none, some, ltb,
  ◌==◌, if◌then◌else◌, Bytes, codes, equal, is_empty, at_most, split, length,
}
use herd_wake.Prelude.Int.{ℤ, pos}
use herd_wake.Prelude.Space.{trim_space, reversed}
use herd_wake.Config.Hostname.{Platform, Found, directory}
use herd_wake.Config.Defaults.{to_lower}
use herd_wake.Config.Discovery.{after_prefix}
use herd_wake.Discovery.PortCommand.{atoi}

-- An item of the JSON array that `herd links` may print: a string, an object by its text fields, or
-- another value.
pub data Item : Type 0 where
  text_item : Bytes → Item
  object_item : (field : Bytes → Option Bytes) → Item
  other_item : Item

-- `Hostname()` of `url.Parse`, none where it fails; `Port()` of it, empty where there is none; whether
-- `net.ParseIP` reads an address; `json.Unmarshal` into a slice of strings, with its success and the
-- slice behind it; and into a slice of any values, none where it fails.
pub record Web : Type 0 where
  pub platform : Platform
  pub hostname : Bytes → Option Bytes
  pub url_port : Bytes → Option Bytes
  pub is_ip : Bytes → Bool
  pub json_strings : Bytes → (slice : List Bytes) → Bool × List Bytes
  pub json_items : Bytes → Option (List Item)

-- what stands before the last dot, and behind it
unfoldable pub last_dot : Bytes → Option (Bytes × Bytes)
last_dot [] = none
last_dot (c ∷ s) = elim (last_dot s) [
  | some (front, back) ↦ some (c ∷ front, back)
  | none ↦ if c == b'.' then some ([], s) else none
]

-- `SiteName`
unfoldable pub site_name : (host : Bytes) → Option Bytes
site_name host = elim (last_dot host) [
  | none ↦ none
  | some (front, back) ↦ if is_empty front || is_empty back then none else some front
]

-- `SiteFromURL`: the host, and the site's name
unfoldable pub site_of_host : Web → (host : Bytes) → Option (Bytes × Bytes)
site_of_host w host =
    if w.is_ip host
    then none
    else elim (site_name host) [ none ↦ none | some name ↦ some (host, name) ]

unfoldable pub site_from_url : Web → (url : Bytes) → Option (Bytes × Bytes)
site_from_url w url = elim (w.hostname url) [
  | none ↦ none
  | some host ↦ site_of_host w (to_lower w.platform host)
]

-- `\s` of a regular expression
abbrev pub is_re_space : ℕ → Bool
is_re_space c = c == 9 || c == 10 || c == 12 || c == 13 || c == 32

unfoldable pub skip_spaces : Bytes → Bytes
skip_spaces [] = []
skip_spaces (c ∷ s) = let rest = skip_spaces s in if is_re_space c then rest else c ∷ s

abbrev pub skip_quote : Bytes → Bytes
skip_quote [] = []
skip_quote (c ∷ s) = if c == 34 then s else c ∷ s

abbrev pub is_target_byte : ℕ → Bool
is_target_byte c = not (is_re_space c) && (not (c == b';') && not (c == 34))

-- the bytes of a target, and what stands behind them
unfoldable pub cut_target : Bytes → Bytes × Bytes
cut_target [] = ([], [])
cut_target (c ∷ s) =
    let r = cut_target s in if is_target_byte c then (c ∷ r.0, r.1) else ([], c ∷ s)

abbrev pub ends_directive : Bytes → Bool
ends_directive [] = false
ends_directive (c ∷ s) = c == b';'

-- the target of a directive whose name stands before the text
unfoldable pub directive_target : Bytes → Option Bytes
directive_target [] = none
directive_target (c ∷ s) =
    let r = cut_target (skip_quote (skip_spaces (c ∷ s))) in
    if is_re_space c && (not (is_empty r.0) && ends_directive (skip_spaces (skip_quote r.1)))
    then some r.0
    else none

-- `proxyPass.FindAllSubmatch`. The classes of the pattern exclude one another, so no byte is given
-- back; and no match begins within another, since a name is followed by white space.
unfoldable pub proxy_targets : Bytes → List Bytes
proxy_targets [] = []
proxy_targets (c ∷ s) =
    let rest = proxy_targets s in
    elim (after_prefix (codes "proxy_pass") (c ∷ s)) [
      | none ↦ rest
      | some text ↦ elim (directive_target text) [ none ↦ rest | some target ↦ target ∷ rest ]
    ]

-- What `os.ReadFile` says of a site file, and what `ProxyTarget` says of a host.
pub data SiteFile : Type 0 where
  no_file unreadable : SiteFile
  contents : Bytes → SiteFile

pub data Target : Type 0 where
  no_site unknown_site : Target
  proxies_to : (port : ℤ) → Target

unfoldable pub first_port : Web → List Bytes → ℤ
first_port w [] = pos 0
first_port w (target ∷ targets) = elim (w.url_port target) [
  | none ↦ first_port w targets
  | some text ↦ elim (atoi text) [ none ↦ first_port w targets | some port ↦ port ]
]

-- `ProxyTarget`; port 0 is a site that is no proxy
unfoldable pub proxy_target : Web → SiteFile → Target
proxy_target w no_file = no_site
proxy_target w unreadable = unknown_site
proxy_target w (contents text) = proxies_to (first_port w (proxy_targets text))

unfoldable pub has_path : Bytes → List Bytes → Bool
has_path p [] = false
has_path p (q ∷ qs) = if equal p q then true else has_path p qs

-- `strings.TrimRight(p, "/")`
unfoldable pub drop_slashes : Bytes → Bytes
drop_slashes [] = []
drop_slashes (c ∷ s) = let rest = drop_slashes s in if c == b'/' then rest else c ∷ s

abbrev pub trim_slashes : Bytes → Bytes
trim_slashes p = if ltb 1 (length p) then reversed (drop_slashes (reversed p)) else p

-- `cleanPaths`, behind the paths that were seen
unfoldable pub clean_from : (seen paths : List Bytes) → List Bytes
clean_from seen [] = []
clean_from seen (p ∷ ps) =
    let q = trim_slashes (trim_space p) in
    let skipped = clean_from seen ps in
    let kept = clean_from (q ∷ seen) ps in
    if is_empty (trim_space p) then skipped else if has_path q seen then skipped else q ∷ kept

abbrev pub clean_paths : List Bytes → List Bytes
clean_paths = clean_from []

abbrev pub starts_path : Bytes → Bool
starts_path [] = false
starts_path (c ∷ s) = c == b'/' || c == b'~'

unfoldable pub path_lines : List Bytes → List Bytes
path_lines [] = []
path_lines (l ∷ ls) =
    let rest = path_lines ls in if starts_path (trim_space l) then trim_space l ∷ rest else rest

-- the text from the first `[`
unfoldable pub from_bracket : Bytes → Option Bytes
from_bracket [] = none
from_bracket (c ∷ s) = if c == b'[' then some (c ∷ s) else from_bracket s

-- `parsePaths`
unfoldable pub parse_rest : Web → (text : Bytes) → (left : List Bytes) → Option Bytes → List Bytes
parse_rest w text left none = clean_paths (left ++ path_lines (split b'\n' text))
parse_rest w text left (some array) =
    let r = w.json_strings array left in
    if r.0 then clean_paths r.1 else clean_paths (r.1 ++ path_lines (split b'\n' text))

unfoldable pub parse_paths : Web → (output : Bytes) → List Bytes
parse_paths w output =
    let text = trim_space output in
    let r = w.json_strings text [] in
    if r.0 then clean_paths r.1 else parse_rest w text r.1 (from_bracket text)

-- why a name would shadow a site of Herd
pub data Shadowed : Type 0 where
  parked : (path : Bytes) → Shadowed
  linked : Shadowed

pub data Listing : Type 0 where
  listed : List Bytes → Listing
  list_failed : Listing

pub data Conflict : Type 0 where
  no_conflict check_failed : Conflict
  conflicts : Shadowed → Conflict

unfoldable pub is_directory : Found → Bool
is_directory directory = true
is_directory _ = false

unfoldable pub parked_in : Platform → (paths : List Bytes) → (name : Bytes) → Option Bytes
parked_in o [] name = none
parked_in o (p ∷ ps) name =
    if is_directory (o.stat (o.join p name)) then some p else parked_in o ps name

unfoldable pub link_conflict : Listing → (name : Bytes) → Conflict
link_conflict list_failed name = check_failed
link_conflict (listed links) name = if has_path name links then conflicts linked else no_conflict

-- `Conflict`
unfoldable pub site_conflict : Platform → (paths links : Listing) → (name : Bytes) → Conflict
site_conflict o list_failed links name = check_failed
site_conflict o (listed paths) links name = elim (parked_in o paths name) [
  | some path ↦ conflicts (parked path)
  | none ↦ link_conflict links name
]
