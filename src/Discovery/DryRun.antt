-- ===== src/Discovery/DryRun.antt =====
-- internal/discovery: a sync that is a dry run.
use herd_wake.Prelude.{
  Bool, true, false, List, [], ◌∷◌, Option, none, some, Bytes, ◌≡◌, refl, Bool-cases, inl, inr, All,
  All-append,
}
use herd_wake.Prelude.Int.{ℤ, pos}
use herd_wake.Config.Project.{Project}
use herd_wake.Config.Hostname.{Platform, equal_int}
use herd_wake.Config.Discovery.{Discovery, is_wildcard}
use herd_wake.Herd.{
  Web, Target, no_site, unknown_site, proxies_to, Conflict, check_failed, conflicts, no_conflict,
}
use herd_wake.Discovery.Build.{Cli}
use herd_wake.Discovery.HerdActions.{SyncOptions, HerdCommand, herd_quiet, herd_enabled}
use herd_wake.Discovery.WildcardSync.{
  Listener, Listeners, SyncState, claim_site, claim_over, claim_with, claim_wildcard, sync_wildcard,
  retire_one, retire_all, retire_wildcards, unproxied, is_live, live_entry, entry_listener,
}
use herd_wake.Discovery.DryRunEntry.{HasNoEffect, run_herd-dry, unproxy_with-dry, sync_entry-dry}
use herd_wake.Discovery.Sync.{
  Site, wildcard_entry, wildcard_results, SyncRun, sync_one, sync_each, start_run, sync,
}

module _ (o : SyncOptions) (is_dry : o.dry_run ≡ true) where
  claim_site-dry :
      (cli : Cli) (site : Bytes) (port : ℤ) (x : Conflict) → (claim_site o cli site port x).1 ≡ []
  unfolding claim_site
  claim_site-dry cli site port check_failed = refl
  claim_site-dry cli site port (conflicts why) = refl
  claim_site-dry cli site port no_conflict = run_herd-dry o is_dry _ _

  claim_over-dry :
      (q : Platform) (cli : Cli) (site : Bytes) (port : ℤ) (t : Target)
      → (claim_over o q cli site port t).1 ≡ []
  unfolding claim_over
  claim_over-dry q cli site port unknown_site = refl
  claim_over-dry q cli site port no_site = claim_site-dry cli site port _
  claim_over-dry q cli site port (proxies_to current) = elim (Bool-cases (equal_int current port)) [
    | inl y ↦ rw y refl
    | inr n ↦ rw n (elim (Bool-cases (equal_int current (pos 0))) [
      | inl y ↦ rw y refl
      | inr z ↦ rw z (run_herd-dry o is_dry _ _)
    ])
  ]

  claim_with-dry :
      (q : Platform) (enabled : Bool) (cli : Option Cli) (host site : Bytes) (port : ℤ)
      → (claim_with o q enabled cli host site port).1 ≡ []
  unfolding claim_with
  claim_with-dry q false cli host site port = refl
  claim_with-dry q true none host site port = refl
  claim_with-dry q true (some cli) host site port = claim_over-dry q cli site port (cli.target host)

  sync_wildcard-dry :
      (q : Platform) (stale : Bool) (d : Discovery) (st : SyncState)
      → HasNoEffect (wildcard_entry (sync_wildcard o q stale d st).0)
  unfolding sync_wildcard claim_wildcard
  sync_wildcard-dry q stale d st = elim (Bool-cases (herd_quiet o d.herd)) [
    | inl y ↦ rw y (record { none_ran = refl; none_written = refl })
    | inr n ↦ rw n (record {
      none_ran =
          claim_with-dry q (herd_enabled d.herd) o.cli d.base_domain _ (entry_listener d).port;
      none_written = refl;
    })
  ]

module _ (after : (ran : List HerdCommand) → SyncOptions) (w : Web)
    (is_dry : (ran : List HerdCommand) → (after ran).dry_run ≡ true) where
  unproxied-dry :
      (o : SyncOptions) (x : Option (Bytes × Bytes)) (l : Listener)
      → o.dry_run ≡ true
      → (unproxied after w o x l).1 ≡ []
  unproxied-dry o none l h = refl
  unproxied-dry o (some (host, site)) l h = unproxy_with-dry o h true o.cli host site l.port

  retire_all-dry :
      (ds : List Discovery) (ls : Listeners) (ran : List HerdCommand) (st : SyncState)
      → All HasNoEffect (wildcard_results (retire_all after w ds ls ran st).0)
  unfolding retire_all retire_one
  retire_all-dry ds [] ran st = tt
  retire_all-dry ds ((name, l) ∷ ls) ran st = elim (Bool-cases (is_live (live_entry name ds) l)) [
    | inl y ↦ rw y (retire_all-dry ds ls ran st)
    | inr n ↦ rw n (
      record { none_ran = unproxied-dry (after ran) _ l (is_dry ran); none_written = refl },
      retire_all-dry ds ls _ _,
    )
  ]

  module _ (projects : List Project) (site : Discovery → Site) where
    sync_one-dry :
        (d : Discovery) (s : SyncRun) → HasNoEffect (sync_one after w projects site d s).0
    unfolding sync_one
    sync_one-dry d s = elim (Bool-cases (is_wildcard d)) [
      | inl y ↦
          rw y (sync_wildcard-dry (after s.ran) (is_dry s.ran) w.platform (site d).stale d s.state)
      | inr n ↦ rw n (
          sync_entry-dry after is_dry s.ran w d (site d).writes projects (site d).printed
            (site d).render (site d).file (site d).current (site d).decoded (site d).scanned s.used)
    ]

    sync_each-dry :
        (ds : List Discovery) (s : SyncRun)
        → All HasNoEffect (sync_each after w projects site ds s).0
    unfolding sync_each
    sync_each-dry [] s = tt
    sync_each-dry (d ∷ ds) s = (sync_one-dry d s, sync_each-dry ds _)

    -- A sync that is a dry run runs neither `herd proxy` nor `herd unproxy` (the commands that only list are
    -- not counted) and gives no managed file a new content, whatever it meets: at no entry, and at no
    -- registration that it would retire.
    pub sync-dry :
        (ds : List Discovery) (st : SyncState)
        → All HasNoEffect (sync after w projects site ds st).0
    unfolding sync retire_wildcards
    sync-dry ds st =
        All-append HasNoEffect _ _ (sync_each-dry ds (start_run after w projects site ds st))
          (retire_all-dry ds _ _ _)
