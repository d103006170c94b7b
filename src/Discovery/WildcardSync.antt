-- ===== src/Discovery/WildcardSync.antt =====
-- internal/discovery/wildcard.go: what a sync does for the wildcard entries, and for the registrations of
-- entries that are gone. The maps of the sync state are lists by name, with one entry for a name.
use herd_wake.Prelude.{
  Bool, true, false, not, ◌&&◌, ◌||◌, List, [], ◌∷◌, ◌++◌, Option, none, some, if◌then◌else◌, Bytes,
  codes, equal, at_most,
}
use herd_wake.Prelude.Int.{ℤ, pos}
use herd_wake.Config.Hostname.{Platform, equal_int}
use herd_wake.Config.Discovery.{Discovery, is_wildcard, supervisor_port}
use herd_wake.Herd.{
  Web, Target, no_site, unknown_site, proxies_to, Conflict, no_conflict, check_failed, conflicts,
  site_conflict, site_name, site_from_url,
}
use herd_wake.Discovery.Build.{Cli}
use herd_wake.Discovery.HerdActions.{
  SyncOptions, Status, done, already_so, dry, manual, refused_site, HerdCommand, proxy_command,
  HerdAction, Ran, has_cli, herd_quiet, herd_enabled, run_herd, unproxy_with,
}

-- `wildcardState`
pub record Listener : Type 0 where
  pub base_domain : Bytes
  pub port : ℤ

abbrev pub Listeners : Type 0
Listeners = List (Bytes × Listener)

-- `syncState`
pub record SyncState : Type 0 where
  pub wildcards : Listeners
  pub proxy_notes : Listeners

abbrev pub same_listener : Listener → Listener → Bool
same_listener a b = equal a.base_domain b.base_domain && equal_int a.port b.port

unfoldable pub listener_of : (name : Bytes) → Listeners → Option Listener
listener_of name [] = none
listener_of name ((m, l) ∷ ls) = if equal m name then some l else listener_of name ls

unfoldable pub without_listener : (name : Bytes) → Listeners → Listeners
without_listener name [] = []
without_listener name ((m, l) ∷ ls) =
    let rest = without_listener name ls in if equal m name then rest else (m, l) ∷ rest

abbrev pub with_listener : (name : Bytes) → Listener → Listeners → Listeners
with_listener name l ls = (name, l) ∷ without_listener name ls

abbrev pub is_listener : Option Listener → Listener → Bool
is_listener none l = false
is_listener (some k) l = same_listener k l

-- the listener of a wildcard entry
abbrev pub entry_listener : Discovery → Listener
entry_listener d = record { base_domain = d.base_domain; port = supervisor_port d }

-- an `EntryResult` of a wildcard entry: whether a managed file was left over, the action, none where Herd
-- is left out, the commands that were run, and whether the note is shown
pub record WildcardResult : Type 0 where
  pub name : Bytes
  pub listener : Listener
  pub retired : Bool
  pub is_stale : Bool
  pub action : Option HerdAction
  pub ran : List HerdCommand
  pub note : Bool

module _ (o : SyncOptions) where
  -- `proxyNote`: whether the note is shown
  unfoldable pub proxy_note : Discovery → SyncState → Bool × SyncState
  proxy_note d st =
      if has_cli o.cli || (not o.unavailable || not (herd_enabled d.herd))
      then (false, record st { proxy_notes = without_listener d.name st.proxy_notes })
      else if is_listener (listener_of d.name st.proxy_notes) (entry_listener d)
      then (false, st)
      else (
        true,
        record st { proxy_notes = with_listener d.name (entry_listener d) st.proxy_notes },
      )

  unfoldable pub claim_site : Cli → (site : Bytes) → (port : ℤ) → Conflict → Ran
  claim_site cli site port check_failed = (manual, [])
  claim_site cli site port (conflicts why) = (refused_site, [])
  claim_site cli site port no_conflict = run_herd o (proxy_command site port) (cli.proxy site port)

  unfoldable pub claim_over : Platform → Cli → (site : Bytes) → (port : ℤ) → Target → Ran
  claim_over q cli site port unknown_site = (manual, [])
  claim_over q cli site port no_site =
      claim_site cli site port (site_conflict q cli.paths cli.links site)
  claim_over q cli site port (proxies_to current) =
      if equal_int current port
      then (already_so, [])
      else if equal_int current (pos 0)
      then (refused_site, [])
      else run_herd o (proxy_command site port) (cli.proxy site port)

  unfoldable pub claim_with :
      Platform → (enabled : Bool) → Option Cli → (host site : Bytes) → (port : ℤ) → Ran
  claim_with q false cli host site port = (manual, [])
  claim_with q true none host site port = (manual, [])
  claim_with q true (some cli) host site port = claim_over q cli site port (cli.target host)

  -- whether the proxy is, or would be, in place
  abbrev pub is_in_place : Status → Bool
  is_in_place done = true
  is_in_place already_so = true
  is_in_place dry = true
  is_in_place _ = false

  -- the site's name, empty where the host has none
  abbrev pub site_or_empty : (host : Bytes) → Bytes
  site_or_empty host = elim (site_name host) [ none ↦ [] | some site ↦ site ]

  -- behind the note
  unfoldable pub claim_wildcard :
      Platform → (stale : Bool) → Discovery → Bool × SyncState → WildcardResult × SyncState
  claim_wildcard q stale d (note, st) =
      let l = entry_listener d in
      let r =
        claim_with q (herd_enabled d.herd) o.cli d.base_domain (site_or_empty d.base_domain)
          l.port in
      let status = r.0 in
      (
        record {
          name = d.name;
          listener = l;
          retired = false;
          is_stale = stale;
          action = some record {
            site = site_or_empty d.base_domain;
            project = d.name;
            port = l.port;
            status = status;
          };
          ran = r.1;
          note = note;
        },
        if is_in_place status
            then record st { wildcards = with_listener d.name l st.wildcards }
            else st,
      )

  -- `syncWildcard`
  unfoldable pub sync_wildcard :
      Platform → (stale : Bool) → Discovery → SyncState → WildcardResult × SyncState
  sync_wildcard q stale d st =
      let n = proxy_note d st in
      if herd_quiet o d.herd
      then (
        record {
          name = d.name;
          listener = entry_listener d;
          retired = false;
          is_stale = stale;
          action = none;
          ran = [];
          note = n.0;
        },
        n.1,
      )
      else claim_wildcard q stale d n

-- the wildcard entry of a name
unfoldable pub live_entry : (name : Bytes) → List Discovery → Option Discovery
live_entry name [] = none
live_entry name (d ∷ ds) = if is_wildcard d && equal d.name name then some d else live_entry name ds

abbrev pub is_live : Option Discovery → Listener → Bool
is_live none l = false
is_live (some d) l = equal d.base_domain l.base_domain

unfoldable pub live_notes : List Discovery → Listeners → Listeners
live_notes ds [] = []
live_notes ds ((name, l) ∷ ls) = elim (live_entry name ds) [
  | none ↦ live_notes ds ls
  | some d ↦ (name, l) ∷ live_notes ds ls
]

-- `sort.Strings` on the names
unfoldable pub insert_listener : Bytes × Listener → Listeners → Listeners
insert_listener e [] = e ∷ []
insert_listener e (f ∷ fs) = if at_most e.0 f.0 then e ∷ f ∷ fs else f ∷ insert_listener e fs

unfoldable pub sort_listeners : Listeners → Listeners
sort_listeners [] = []
sort_listeners (e ∷ es) = insert_listener e (sort_listeners es)

-- whether the proxy is known to be gone
abbrev pub is_gone : Status → Bool
is_gone done = true
is_gone already_so = true
is_gone _ = false

module _ (after : (ran : List HerdCommand) → SyncOptions) (w : Web) where
  -- `unproxyAction` of a registration
  abbrev pub unproxied : (o : SyncOptions) → Option (Bytes × Bytes) → Listener → Ran
  unproxied o none l = (already_so, [])
  unproxied o (some (host, site)) l = unproxy_with o true o.cli host site l.port

  unfoldable pub retire_one :
      SyncOptions → Bytes × Listener → SyncState → WildcardResult × SyncState
  retire_one o (name, l) st =
      let r = unproxied o (site_from_url w (codes "https://" ++ l.base_domain)) l in
      let status = r.0 in
      (
        record {
          name = name;
          listener = l;
          retired = true;
          is_stale = false;
          action = some record {
            site = site_or_empty o l.base_domain;
            project = name;
            port = l.port;
            status = status;
          };
          ran = r.1;
          note = false;
        },
        if is_gone status && is_listener (listener_of name st.wildcards) l
            then record st { wildcards = without_listener name st.wildcards }
            else st,
      )

  -- the loop of `retireWildcards`; `ran` are the commands that were run before
  unfoldable pub retire_all :
      List Discovery
      → (previous : Listeners) → (ran : List HerdCommand) → SyncState
      → List WildcardResult × SyncState
  retire_all ds [] ran st = ([], st)
  retire_all ds ((name, l) ∷ ls) ran st =
      let r = retire_one (after ran) (name, l) st in
      let rest = retire_all ds ls (ran ++ r.0.ran) r.1 in
      let others = retire_all ds ls ran st in
      if is_live (live_entry name ds) l then others else (r.0 ∷ rest.0, rest.1)

  -- `retireWildcards`
  unfoldable pub retire_wildcards :
      List Discovery
      → (previous : Listeners) → (ran : List HerdCommand) → SyncState
      → List WildcardResult × SyncState
  retire_wildcards ds previous ran st =
      retire_all ds (sort_listeners previous) ran
        (record st { proxy_notes = live_notes ds st.proxy_notes })
