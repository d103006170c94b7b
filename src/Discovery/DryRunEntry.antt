-- ===== src/Discovery/DryRunEntry.antt =====
-- internal/discovery/discovery.go: `syncEntry` in a sync that is a dry run.
use herd_wake.Prelude.{
  Bool, true, false, List, [], ◌∷◌, Option, none, some, Bytes, ◌≡◌, refl, Bool-cases, inl, inr,
}
use herd_wake.Prelude.Int.{ℤ, pos}
use herd_wake.Config.Project.{Project}
use herd_wake.Config.Hostname.{equal_int}
use herd_wake.Config.Discovery.{Discovery}
use herd_wake.Herd.{Web, Target, no_site, unknown_site, proxies_to, site_from_url}
use herd_wake.Discovery.Scan.{Candidate, Skip}
use herd_wake.Discovery.Build.{Used, Cli, find_project}
use herd_wake.Discovery.HerdActions.{
  SyncOptions, HerdCommand, run_herd, herd_quiet, herd_enabled, proxy_over, proxy_with,
  unproxy_over, unproxy_with, unproxy_site, unproxy_action, proxy_one, unproxy_one, proxy_actions,
  unproxy_actions, herd_actions,
}
use herd_wake.Discovery.Entry.{
  FileRead, missing, failing, file_text, same_text, EntryResult, is_managed, sync_candidates,
  sync_scanned, sync_decoded, sync_managed, sync_entry, render_entry, write_entry, finish_entry,
  listed_entry, EntryFault, fault_in, empty_result,
}
use herd_wake.Discovery.Sync.{SyncResult, proxy_entry, wildcard_entry, ran_in}

-- the content that the managed file gets
abbrev pub content_in : SyncResult → Option Bytes
content_in (proxy_entry r) = r.content
content_in (wildcard_entry r) = none

-- Neither `herd proxy` nor `herd unproxy` was run, and no managed file was written.
pub record HasNoEffect (r : SyncResult) : Type 0 where
  pub none_ran : ran_in r ≡ []
  pub none_written : content_in r ≡ none

module _ (o : SyncOptions) (is_dry : o.dry_run ≡ true) where
  pub run_herd-dry :
      (command : HerdCommand) (succeeds : Bool) → (run_herd o command succeeds).1 ≡ []
  unfolding run_herd
  run_herd-dry command succeeds = rw is_dry refl

  proxy_over-dry :
      (cli : Cli) (site : Bytes) (port : ℤ) (t : Target) → (proxy_over o cli site port t).1 ≡ []
  unfolding proxy_over
  proxy_over-dry cli site port unknown_site = refl
  proxy_over-dry cli site port no_site = run_herd-dry _ _
  proxy_over-dry cli site port (proxies_to current) = elim (Bool-cases (equal_int current port)) [
    | inl y ↦ rw y refl
    | inr n ↦ rw n (elim (Bool-cases (equal_int current (pos 0))) [
      | inl y ↦ rw y refl
      | inr z ↦ rw z (run_herd-dry _ _)
    ])
  ]

  proxy_with-dry :
      (enabled : Bool) (cli : Option Cli) (host site : Bytes) (port : ℤ)
      → (proxy_with o enabled cli host site port).1 ≡ []
  unfolding proxy_with
  proxy_with-dry false cli host site port = refl
  proxy_with-dry true none host site port = refl
  proxy_with-dry true (some cli) host site port = proxy_over-dry cli site port (cli.target host)

  unproxy_over-dry :
      (cli : Cli) (site : Bytes) (port : ℤ) (t : Target) → (unproxy_over o cli site port t).1 ≡ []
  unfolding unproxy_over
  unproxy_over-dry cli site port unknown_site = refl
  unproxy_over-dry cli site port no_site = refl
  unproxy_over-dry cli site port (proxies_to current) = elim (Bool-cases (equal_int current port)) [
    | inl y ↦ rw y (run_herd-dry _ _)
    | inr n ↦ rw n refl
  ]

  pub unproxy_with-dry :
      (enabled : Bool) (cli : Option Cli) (host site : Bytes) (port : ℤ)
      → (unproxy_with o enabled cli host site port).1 ≡ []
  unfolding unproxy_with
  unproxy_with-dry false cli host site port = refl
  unproxy_with-dry true none host site port = refl
  unproxy_with-dry true (some cli) host site port = unproxy_over-dry cli site port (cli.target host)

  module _ (w : Web) where
    unproxy_site-dry :
        (enabled : Bool) (p : Project) (x : Option (Bytes × Bytes))
        → (unproxy_site o w enabled p x).1 ≡ []
    unfolding unproxy_site
    unproxy_site-dry enabled p none = refl
    unproxy_site-dry enabled p (some (host, site)) =
        unproxy_with-dry enabled o.cli host site p.supervisor_port

    unproxy_one-dry :
        (enabled : Bool) (p : Project) (x : Option Project) → (unproxy_one o w enabled p x).1 ≡ []
    unfolding unproxy_one unproxy_action
    unproxy_one-dry enabled p (some q) = refl
    unproxy_one-dry enabled p none = unproxy_site-dry enabled p (site_from_url w p.public_url)

  proxy_one-dry :
      (enabled : Bool) (p : Project) (x : Option (Bytes × Bytes)) → (proxy_one o enabled p x).1 ≡ []
  unfolding proxy_one
  proxy_one-dry enabled p none = refl
  proxy_one-dry enabled p (some (host, site)) =
      proxy_with-dry enabled o.cli host site p.supervisor_port

module _ (after : (ran : List HerdCommand) → SyncOptions)
    (is_dry : (ran : List HerdCommand) → (after ran).dry_run ≡ true) where
  module _ (w : Web) where
    proxy_actions-dry :
        (enabled : Bool) (ps : List Project) (before : List HerdCommand)
        → (proxy_actions after w enabled ps before).1 ≡ []
    unfolding proxy_actions
    proxy_actions-dry enabled [] before = refl
    proxy_actions-dry enabled (p ∷ ps) before =
        rw (proxy_one-dry (after before) (is_dry before) enabled p (site_from_url w p.public_url))
          (proxy_actions-dry enabled ps _)

    unproxy_actions-dry :
        (enabled : Bool) (final ps : List Project) (before : List HerdCommand)
        → (unproxy_actions after w enabled final ps before).1 ≡ []
    unfolding unproxy_actions
    unproxy_actions-dry enabled final [] before = refl
    unproxy_actions-dry enabled final (p ∷ ps) before =
        rw (unproxy_one-dry (after before) (is_dry before) w enabled p (find_project p.name final))
          (unproxy_actions-dry enabled final ps _)

    herd_actions-dry :
        (setting : Option Bool) (final existing : List Project) (before : List HerdCommand)
        → (herd_actions after w setting final existing before).1 ≡ []
    unfolding herd_actions
    herd_actions-dry setting final existing before =
        elim (Bool-cases (herd_quiet (after before) setting)) [
          | inl y ↦ rw y refl
          | inr n ↦
              rw (n, proxy_actions-dry (herd_enabled setting) final before)
                (unproxy_actions-dry (herd_enabled setting) final existing _)
        ]

module _ (after : (ran : List HerdCommand) → SyncOptions)
    (is_dry : (ran : List HerdCommand) → (after ran).dry_run ≡ true)
    (before : List HerdCommand) where
  finish_entry-dry :
      (w : Web) (d : Discovery) (writes : Bool) (r : EntryResult) (final existing : List Project)
      → r.content ≡ none
      → HasNoEffect (proxy_entry (finish_entry after before w d writes r final existing))
  unfolding finish_entry
  finish_entry-dry w d writes r final existing h = record {
    none_ran = herd_actions-dry after is_dry w d.herd final existing before;
    none_written = h;
  }

  write_entry-dry :
      (w : Web) (d : Discovery) (writes : Bool) (r : EntryResult) (final existing : List Project)
      (current : FileRead) (text : Bytes)
      → r.content ≡ none
      → HasNoEffect
          (proxy_entry (write_entry after before w d writes r final existing current text))
  unfolding write_entry
  write_entry-dry w d writes r final existing current text h =
      elim (Bool-cases (same_text current text)) [
        | inl y ↦ rw y (finish_entry-dry w d writes r final existing h)
        | inr n ↦
            simp (n, is_dry before)
              (finish_entry-dry w d writes (record r { changed = true }) final existing h)
      ]

  render_entry-dry :
      (w : Web) (d : Discovery) (writes : Bool) (r : EntryResult) (final existing : List Project)
      (current : FileRead) (text : Option Bytes)
      → r.content ≡ none
      → r.ran ≡ []
      → HasNoEffect
          (proxy_entry (render_entry after before w d writes r final existing current text))
  unfolding render_entry
  render_entry-dry w d writes r final existing current none h e = record {
    none_ran = e;
    none_written = h;
  }
  render_entry-dry w d writes r final existing failing (some text) h e = record {
    none_ran = e;
    none_written = h;
  }
  render_entry-dry w d writes r final existing missing (some text) h e =
      write_entry-dry w d writes r final existing missing text h
  render_entry-dry w d writes r final existing (file_text t) (some text) h e =
      write_entry-dry w d writes r final existing (file_text t) text h

  fault-dry : (e : EntryFault) → HasNoEffect (proxy_entry (fault_in empty_result e))
  fault-dry e = record { none_ran = refl; none_written = refl }

  module _ (w : Web) (d : Discovery) (writes : Bool) (projects : List Project)
      (printed : (dir : Bytes) → Option ℤ) (render : List Project → Option Bytes)
      (file current : FileRead) where
    sync_scanned-dry :
        (existing : List Project) (x : Option (List Candidate × List Skip)) (used : Used)
        → HasNoEffect (
            proxy_entry
              (sync_scanned after before w d writes projects printed render file current existing x
                used).0)
    unfolding sync_scanned sync_candidates listed_entry
    sync_scanned-dry existing none used = fault-dry _
    sync_scanned-dry existing (some (cs, skips)) used =
        render_entry-dry w d writes _ _ existing current _ refl refl

    sync_decoded-dry :
        (x : Option (List Project)) (scanned : Option (List Candidate × List Skip)) (used : Used)
        → HasNoEffect (
            proxy_entry
              (sync_decoded after before w d writes projects printed render file current x scanned
                used).0)
    unfolding sync_decoded
    sync_decoded-dry none scanned used = fault-dry _
    sync_decoded-dry (some existing) scanned used = sync_scanned-dry existing scanned used

    sync_managed-dry :
        (managed : Option Bool) (decoded : Option (List Project))
        (scanned : Option (List Candidate × List Skip)) (used : Used)
        → HasNoEffect (
            proxy_entry
              (sync_managed after before w d writes projects printed render file current managed
                decoded scanned used).0)
    unfolding sync_managed
    sync_managed-dry none decoded scanned used = fault-dry _
    sync_managed-dry (some false) decoded scanned used = fault-dry _
    sync_managed-dry (some true) decoded scanned used = sync_decoded-dry decoded scanned used

    pub sync_entry-dry :
        (decoded : Option (List Project)) (scanned : Option (List Candidate × List Skip))
        (used : Used)
        → HasNoEffect (
            proxy_entry
              (sync_entry after before w d writes projects printed render file current decoded
                scanned used).0)
    unfolding sync_entry
    sync_entry-dry decoded scanned used = sync_managed-dry (is_managed file) decoded scanned used
