-- ===== src/Discovery/Commands.antt =====
-- internal/discovery/discovery.go: what the commands of Herd that `syncEntry` runs are run for.
use mathlib.Core.List.{Memᴰ}
use herd_wake.Prelude.{
  Bool, true, false, List, [], ◌∷◌, ◌++◌, Option, none, some, Bytes, ◌≡◌, ◌∙◌, refl, ap, Bool-cases,
  inl, inr, append-nil, append_assoc,
}
use herd_wake.Prelude.Int.{ℤ, pos}
use herd_wake.Config.Project.{Project}
use herd_wake.Config.Hostname.{equal_int}
use herd_wake.Config.Ports.{equal_int_lem}
use herd_wake.Herd.{Web, Target, no_site, unknown_site, proxies_to, site_from_url}
use herd_wake.Discovery.Build.{Cli, find_project}
use herd_wake.Discovery.HerdActions.{
  SyncOptions, HerdCommand, proxy_command, unproxy_command, run_herd, herd_quiet, herd_enabled,
  proxy_over, proxy_with, unproxy_over, unproxy_with, unproxy_site, unproxy_action, proxy_one,
  proxy_actions, unproxy_one, unproxy_actions, herd_actions,
}

-- A command that a sync may run. It makes a proxy for a project of the list `final`, to its supervisor
-- port, where the site has no site file, or one that proxies to a port that is another and is not 0. It
-- removes the proxy of a project of `existing` that `final` has none of the name of, where the site file
-- proxies to that project's supervisor port.
pub data Warranted (o : SyncOptions) (w : Web) (final existing : List Project)
    : HerdCommand → Type 0 where
  makes :
      {cli : Cli} {host site : Bytes} {p : Project}
      → o.cli ≡ some cli
      → Memᴰ p final
      → site_from_url w p.public_url ≡ some (host, site)
      → cli.target host ≡ no_site
      → Warranted o w final existing (proxy_command site p.supervisor_port)
  moves :
      {cli : Cli} {host site : Bytes} {p : Project} {current : ℤ}
      → o.cli ≡ some cli
      → Memᴰ p final
      → site_from_url w p.public_url ≡ some (host, site)
      → cli.target host ≡ proxies_to current
      → equal_int current p.supervisor_port ≡ false
      → equal_int current (pos 0) ≡ false
      → Warranted o w final existing (proxy_command site p.supervisor_port)
  removes :
      {cli : Cli} {host site : Bytes} {p : Project}
      → o.cli ≡ some cli
      → Memᴰ p existing
      → find_project p.name final ≡ none
      → site_from_url w p.public_url ≡ some (host, site)
      → cli.target host ≡ proxies_to p.supervisor_port
      → Warranted o w final existing (unproxy_command site)

module _ (o : SyncOptions) (w : Web) (final existing : List Project) where
  abbrev IsFor : HerdCommand → Type 0
  IsFor = Warranted o w final existing

  -- no command, or one
  abbrev OneFor : List HerdCommand → Type 0
  OneFor [] = Unit
  OneFor (c ∷ cs) = IsFor c × (cs ≡ [])

  run_herd-IsFor :
      (command : HerdCommand) (succeeds : Bool)
      → IsFor command
      → OneFor (run_herd o command succeeds).1
  unfolding run_herd
  run_herd-IsFor command true h = elim (Bool-cases o.dry_run) [
    | inl y ↦ simp y tt
    | inr n ↦ simp n ((h, refl))
  ]
  run_herd-IsFor command false h = elim (Bool-cases o.dry_run) [
    | inl y ↦ simp y tt
    | inr n ↦ simp n ((h, refl))
  ]

  proxy_over-IsFor :
      (cli : Cli) (host site : Bytes) (p : Project) (t : Target)
      → o.cli ≡ some cli
      → Memᴰ p final
      → site_from_url w p.public_url ≡ some (host, site)
      → cli.target host ≡ t
      → OneFor (proxy_over o cli site p.supervisor_port t).1
  unfolding proxy_over
  proxy_over-IsFor cli host site p unknown_site c m s h = tt
  proxy_over-IsFor cli host site p no_site c m s h = run_herd-IsFor _ _ (makes c m s h)
  proxy_over-IsFor cli host site p (proxies_to current) c m s h =
      elim (Bool-cases (equal_int current p.supervisor_port)) [
        | inl y ↦ rw y tt
        | inr n ↦ rw n (elim (Bool-cases (equal_int current (pos 0))) [
          | inl y ↦ rw y tt
          | inr z ↦ rw z (run_herd-IsFor _ _ (moves c m s h n z))
        ])
      ]

  proxy_with-IsFor :
      (enabled : Bool) (x : Option Cli) (host site : Bytes) (p : Project)
      → o.cli ≡ x
      → Memᴰ p final
      → site_from_url w p.public_url ≡ some (host, site)
      → OneFor (proxy_with o enabled x host site p.supervisor_port).1
  unfolding proxy_with
  proxy_with-IsFor false x host site p c m s = tt
  proxy_with-IsFor true none host site p c m s = tt
  proxy_with-IsFor true (some cli) host site p c m s =
      proxy_over-IsFor cli host site p (cli.target host) c m s refl

  proxy_one-IsFor :
      (enabled : Bool) (p : Project) (x : Option (Bytes × Bytes))
      → Memᴰ p final
      → site_from_url w p.public_url ≡ x
      → OneFor (proxy_one o enabled p x).1
  unfolding proxy_one
  proxy_one-IsFor enabled p none m s = tt
  proxy_one-IsFor enabled p (some (host, site)) m s =
      proxy_with-IsFor enabled o.cli host site p refl m s

  unproxy_over-IsFor :
      (cli : Cli) (host site : Bytes) (p : Project) (t : Target)
      → o.cli ≡ some cli
      → Memᴰ p existing
      → find_project p.name final ≡ none
      → site_from_url w p.public_url ≡ some (host, site)
      → cli.target host ≡ t
      → OneFor (unproxy_over o cli site p.supervisor_port t).1
  unfolding unproxy_over
  unproxy_over-IsFor cli host site p unknown_site c m g s h = tt
  unproxy_over-IsFor cli host site p no_site c m g s h = tt
  unproxy_over-IsFor cli host site p (proxies_to current) c m g s h =
      elim (Bool-cases (equal_int current p.supervisor_port)) [
        | inl y ↦
            let same = equal_int_lem current p.supervisor_port y in
            let to : cli.target host ≡ proxies_to p.supervisor_port = h ∙ ap proxies_to same in
            rw y (run_herd-IsFor _ _ (removes c m g s to))
        | inr n ↦ rw n tt
      ]

  unproxy_with-IsFor :
      (enabled : Bool) (x : Option Cli) (host site : Bytes) (p : Project)
      → o.cli ≡ x
      → Memᴰ p existing
      → find_project p.name final ≡ none
      → site_from_url w p.public_url ≡ some (host, site)
      → OneFor (unproxy_with o enabled x host site p.supervisor_port).1
  unfolding unproxy_with
  unproxy_with-IsFor false x host site p c m g s = tt
  unproxy_with-IsFor true none host site p c m g s = tt
  unproxy_with-IsFor true (some cli) host site p c m g s =
      unproxy_over-IsFor cli host site p (cli.target host) c m g s refl

  unproxy_site-IsFor :
      (enabled : Bool) (p : Project) (x : Option (Bytes × Bytes))
      → Memᴰ p existing
      → find_project p.name final ≡ none
      → site_from_url w p.public_url ≡ x
      → OneFor (unproxy_site o w enabled p x).1
  unfolding unproxy_site
  unproxy_site-IsFor enabled p none m g s = tt
  unproxy_site-IsFor enabled p (some (host, site)) m g s =
      unproxy_with-IsFor enabled o.cli host site p refl m g s

  unproxy_one-IsFor :
      (enabled : Bool) (p : Project) (x : Option Project)
      → Memᴰ p existing
      → find_project p.name final ≡ x
      → OneFor (unproxy_one o w enabled p x).1
  unfolding unproxy_one unproxy_action
  unproxy_one-IsFor enabled p (some q) m g = tt
  unproxy_one-IsFor enabled p none m g = unproxy_site-IsFor enabled p _ m g refl

module _ (after : (ran : List HerdCommand) → SyncOptions) (w : Web)
    (final existing : List Project) where
  -- Each command of a list is warranted by what the sync meets when those before it were run.
  abbrev pub AllWarranted : (before : List HerdCommand) → List HerdCommand → Type 0
  AllWarranted before [] = Unit
  AllWarranted before (c ∷ cs) =
      Warranted (after before) w final existing c × AllWarranted (before ++ (c ∷ [])) cs

  OneFor-AllWarranted :
      (before xs : List HerdCommand)
      → OneFor (after before) w final existing xs
      → AllWarranted before xs
  OneFor-AllWarranted before [] h = tt
  OneFor-AllWarranted before (c ∷ []) h = (h.0, tt)
  OneFor-AllWarranted before (c ∷ b ∷ cs) h = cc h.1

  AllWarranted-append :
      (before xs ys : List HerdCommand)
      → AllWarranted before xs
      → AllWarranted (before ++ xs) ys
      → AllWarranted before (xs ++ ys)
  AllWarranted-append before [] ys h k = rw (append-nil) at k
  AllWarranted-append before (x ∷ xs) ys h k = (
    h.0,
    AllWarranted-append (before ++ (x ∷ [])) xs ys h.1 (rw (append_assoc before (x ∷ []) xs) k),
  )

  proxy_actions-AllWarranted :
      (enabled : Bool) (ps : List Project) (before : List HerdCommand)
      → ((p : Project) → Memᴰ p ps → Memᴰ p final)
      → AllWarranted before (proxy_actions after w enabled ps before).1
  unfolding proxy_actions
  proxy_actions-AllWarranted enabled [] before f = tt
  proxy_actions-AllWarranted enabled (p ∷ ps) before f =
      AllWarranted-append before _ _
        (OneFor-AllWarranted before _
          (proxy_one-IsFor (after before) w final existing enabled p _ (f p (Memᴰ.head refl)) refl))
        (proxy_actions-AllWarranted enabled ps _ (λ q m. f q (Memᴰ.tail m)))

  unproxy_actions-AllWarranted :
      (enabled : Bool) (ps : List Project) (before : List HerdCommand)
      → ((p : Project) → Memᴰ p ps → Memᴰ p existing)
      → AllWarranted before (unproxy_actions after w enabled final ps before).1
  unfolding unproxy_actions
  unproxy_actions-AllWarranted enabled [] before f = tt
  unproxy_actions-AllWarranted enabled (p ∷ ps) before f =
      AllWarranted-append before _ _
        (OneFor-AllWarranted before _ (
          unproxy_one-IsFor (after before) w final existing enabled p _ (f p (Memᴰ.head refl))
            refl))
        (unproxy_actions-AllWarranted enabled ps _ (λ q m. f q (Memᴰ.tail m)))

  -- Each command that makes or removes a proxy for a proxy-mode entry is warranted by the site file that
  -- Herd has when the earlier ones were run: a proxy is made for a project that the entry has now, to its
  -- supervisor port, where Herd has no site file of the name or one that proxies to another port, and it is
  -- removed for a project that the entry had and has no more, where the site file proxies to that
  -- project's port.
  pub herd_actions-Warranted :
      (setting : Option Bool) (before : List HerdCommand)
      → AllWarranted before (herd_actions after w setting final existing before).1
  unfolding herd_actions
  herd_actions-Warranted setting before = elim (Bool-cases (herd_quiet (after before) setting)) [
    | inl y ↦ rw y tt
    | inr n ↦ rw n (
        AllWarranted-append before _ _
          (proxy_actions-AllWarranted (herd_enabled setting) final before (λ q m. m))
          (unproxy_actions-AllWarranted (herd_enabled setting) existing _ (λ q m. m)))
  ]
