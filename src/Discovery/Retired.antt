-- ===== src/Discovery/Retired.antt =====
-- internal/discovery/wildcard.go: the registrations that `retireWildcards` forgets, and keeps.
use herd_wake.Prelude.{
  Bool, true, false, List, [], ◌∷◌, ◌++◌, none, some, if◌then◌else◌, Bytes, codes, equal, equal_iff,
  ◌≡◌, ◌∙◌, refl, ap, ◌⊎◌, Bool-cases, inl, inr, ◌&&◌, arith,
}
use herd_wake.Prelude.Int.{ℤ}
use herd_wake.Config.Discovery.{Discovery}
use herd_wake.Config.Ports.{equal_int_lem, equal_int_refl}
use herd_wake.Herd.{Web, Target, unknown_site, proxies_to, site_from_url}
use herd_wake.Discovery.Build.{Cli}
use herd_wake.Discovery.HerdActions.{SyncOptions, HerdCommand, run_herd, unproxy_over, unproxy_with}
use herd_wake.Discovery.WildcardSync.{
  Listener, Listeners, SyncState, listener_of, without_listener, is_listener, same_listener,
  is_gone, is_live, live_entry, unproxied, retire_one, retire_all, retire_wildcards,
}

-- Herd's proxy of a site to a port stays, or may: there is no command line, the site file cannot be
-- read, or it proxies to the port and the command that removes the proxy is not run or fails.
pub data Remains (o : SyncOptions) (host site : Bytes) (port : ℤ) : Type 0 where
  no_command_line : o.cli ≡ none → Remains o host site port
  unreadable :
      {cli : Cli} → o.cli ≡ some cli → cli.target host ≡ unknown_site → Remains o host site port
  in_dry_run :
      {cli : Cli}
      → o.cli ≡ some cli
      → cli.target host ≡ proxies_to port
      → o.dry_run ≡ true
      → Remains o host site port
  fails :
      {cli : Cli}
      → o.cli ≡ some cli
      → cli.target host ≡ proxies_to port
      → cli.unproxy site ≡ false
      → Remains o host site port

listener_of-without_listener :
    (m name : Bytes) (ls : Listeners)
    → equal m name ≡ false
    → listener_of name (without_listener m ls) ≡ listener_of name ls
unfolding listener_of without_listener
listener_of-without_listener m name [] n = refl
listener_of-without_listener m name ((k, l) ∷ ls) n = elim (Bool-cases (equal k m)) [
  | inl y ↦
      let same : k ≡ m = (equal_iff k m).0 y in
      let other : equal k name ≡ false = rw same n in
      rw (y, other) (listener_of-without_listener m name ls n)
  | inr z ↦ elim (Bool-cases (equal k name)) [
    | inl y ↦ rw (z, y) refl
    | inr x ↦ rw (z, x) (listener_of-without_listener m name ls n)
  ]
]

-- Whether a registration is forgotten or not, another name keeps its own.
forgotten-kept :
    (m name : Bytes) (st : SyncState)
    → equal m name ≡ false
    → (b : Bool)
    → listener_of name
        (if b then record st { wildcards = without_listener m st.wildcards } else st).wildcards
      ≡ listener_of name st.wildcards
forgotten-kept m name st n true = listener_of-without_listener m name st.wildcards n
forgotten-kept m name st n false = refl

run_herd-dry_kept :
    (o : SyncOptions) (command : HerdCommand) (b : Bool)
    → o.dry_run ≡ true
    → is_gone (run_herd o command b).0 ≡ false
unfolding run_herd
run_herd-dry_kept o command b h = rw h refl

run_herd-failing_kept :
    (o : SyncOptions) (command : HerdCommand) → is_gone (run_herd o command false).0 ≡ false
unfolding run_herd
run_herd-failing_kept o command = elim (Bool-cases o.dry_run) [
  | inl y ↦ simp y refl
  | inr n ↦ simp n refl
]

proxied-kept :
    (o : SyncOptions) (cli : Cli) (site : Bytes) (port : ℤ)
    → (o.dry_run ≡ true) ⊎ (cli.unproxy site ≡ false)
    → is_gone (unproxy_over o cli site port (proxies_to port)).0 ≡ false
unfolding unproxy_over
proxied-kept o cli site port (inl d) = rw (equal_int_refl port) (run_herd-dry_kept o _ _ d)
proxied-kept o cli site port (inr f) = rw (equal_int_refl port, f) (run_herd-failing_kept o _)

with_target :
    (o : SyncOptions) (host site : Bytes) (port : ℤ) {cli : Cli} {t : Target}
    → o.cli ≡ some cli
    → cli.target host ≡ t
    → is_gone (unproxy_over o cli site port t).0 ≡ false
    → is_gone (unproxy_with o true o.cli host site port).0 ≡ false
unfolding unproxy_with
with_target o host site port {cli} c t h =
    ap (λ x. is_gone (unproxy_with o true x host site port).0) c
    ∙ (ap (λ x. is_gone (unproxy_over o cli site port x).0) t ∙ h)

Remains-kept :
    (o : SyncOptions) (host site : Bytes) (port : ℤ)
    → Remains o host site port
    → is_gone (unproxy_with o true o.cli host site port).0 ≡ false
unfolding unproxy_with
Remains-kept o host site port (no_command_line c) =
    ap (λ x. is_gone (unproxy_with o true x host site port).0) c
Remains-kept o host site port (unreadable c t) =
    with_target o host site port c t (unfold unproxy_over in refl)
Remains-kept o host site port (in_dry_run c t d) =
    with_target o host site port c t (proxied-kept o _ site port (inl d))
Remains-kept o host site port (fails c t f) =
    with_target o host site port c t (proxied-kept o _ site port (inr f))

left_of : (a b : Bool) → (a && b) ≡ true → a ≡ true
left_of a b h = ground arith

right_of : (a b : Bool) → (a && b) ≡ true → b ≡ true
right_of a b h = ground arith

module _ (after : (ran : List HerdCommand) → SyncOptions) (w : Web) where
  -- The domain of a listener has a site, whose proxy remains after whichever commands were run.
  pub record Stays (l : Listener) : Type 0 where
    pub host : Bytes
    pub site : Bytes
    pub sited : site_from_url w (codes "https://" ++ l.base_domain) ≡ some (host, site)
    pub remains : (ran : List HerdCommand) → Remains (after ran) host site l.port

  unproxied-kept :
      (ran : List HerdCommand) (l : Listener)
      → Stays l
      → is_gone
          (unproxied after w (after ran) (site_from_url w (codes "https://" ++ l.base_domain)) l).0
        ≡ false
  unproxied-kept ran l s =
      rw s.sited (Remains-kept (after ran) s.host s.site l.port (s.remains ran))

  -- A registration of the same name that is tried is this one, or another that is let be.
  same_name_kept :
      (ran : List HerdCommand) (k l : Listener) (name : Bytes) (st : SyncState)
      → listener_of name st.wildcards ≡ some l
      → Stays l
      → listener_of name (retire_one after w (after ran) (name, k) st).1.wildcards ≡ some l
  unfolding retire_one
  same_name_kept ran k l name st e s = elim (Bool-cases (same_listener l k)) [
    | inl y ↦
        let domain = (equal_iff l.base_domain k.base_domain).0 (left_of _ _ y) in
        let port = equal_int_lem l.port k.port (right_of _ _ y) in
        let again : Stays k = record {
          host = s.host;
          site = s.site;
          sited = rw domain at s.sited;
          remains = λ ran. (rw port at (s.remains ran));
        } in
        rw (unproxied-kept ran k again) e
    | inr n ↦ unmatched (is_gone _) n
  ]
    where
      unmatched :
          (b : Bool)
          → same_listener l k ≡ false
          → listener_of name
              (if b && is_listener (listener_of name st.wildcards) k
                then record st { wildcards = without_listener name st.wildcards }
                else st).wildcards
            ≡ some l
      unmatched b n = elim (Bool-cases b) [ inl y ↦ rw (y, e, n) e | inr z ↦ rw z e ]

  retire_one-kept :
      (ran : List HerdCommand) (m : Bytes) (k l : Listener) (name : Bytes) (st : SyncState)
      → listener_of name st.wildcards ≡ some l
      → Stays l
      → listener_of name (retire_one after w (after ran) (m, k) st).1.wildcards ≡ some l
  retire_one-kept ran m k l name st e s = elim (Bool-cases (equal m name)) [
    | inl y ↦
        let same : m ≡ name = (equal_iff m name).0 y in rw same (same_name_kept ran k l name st e s)
    | inr z ↦ unfold retire_one in forgotten-kept m name st z _ ∙ e
  ]

  retire_all-kept :
      (ds : List Discovery) (name : Bytes) (l : Listener) (ls : Listeners) (ran : List HerdCommand)
      (st : SyncState)
      → listener_of name st.wildcards ≡ some l
      → Stays l
      → listener_of name (retire_all after w ds ls ran st).1.wildcards ≡ some l
  unfolding retire_all
  retire_all-kept ds name l [] ran st e s = e
  retire_all-kept ds name l ((m, k) ∷ ls) ran st e s =
      elim (Bool-cases (is_live (live_entry m ds) k)) [
        | inl y ↦ rw y (retire_all-kept ds name l ls ran st e s)
        | inr z ↦ rw z (retire_all-kept ds name l ls _ _ (retire_one-kept ran m k l name st e s) s)
      ]

  -- A registration whose domain has a site, of which Herd's proxy remains, stays in the sync state: where,
  -- whichever commands were run, there is no command line, the site file cannot be read, or it proxies to
  -- the registered port and the sync is a dry run or the command fails; whatever `retireWildcards` does for
  -- the other registrations.
  pub retire_wildcards-kept :
      (ds : List Discovery) (previous : Listeners) (ran : List HerdCommand) (st : SyncState)
      (name : Bytes) (l : Listener)
      → listener_of name st.wildcards ≡ some l
      → Stays l
      → listener_of name (retire_wildcards after w ds previous ran st).1.wildcards ≡ some l
  unfolding retire_wildcards
  retire_wildcards-kept ds previous ran st name l e s = retire_all-kept ds name l _ ran _ e s
