-- ===== src/Config/Claims.antt =====
-- internal/config/config.go: one round of the loop of `Config.validate` that makes no error.
use herd_wake.Prelude.{
  true, false, [], none, some, Bytes, is_empty, ◌≡◌, ◌≢◌, ◌⊎◌, inl, inr, refl, sym, ap, ◌∙◌,
  Bool-cases,
}
use herd_wake.Prelude.Int.{ℤ}
use herd_wake.Config.Project.{Project}
use herd_wake.Config.Errors.{Field}
use herd_wake.Config.Hostname.{is_valid_port, equal_int}
use herd_wake.Config.ValidateConfig.{
  PortClaim, Claims, claim_at, host_owner, conflict, claim_port, claim_host, is_supervisor,
}
use herd_wake.Config.Ports.{
  Grows, Recorded, Recorded-Grows, Compatible, claim_cases, claim_host_cases, claim_host-Grows,
  claim_port-Grows, claim_at-first, host_owner-first, conflict_application, conflict_shared,
  equal_int_lem, equal_int_refl,
}

module _ (p : Project) (c : Claims) (sup_valid : is_valid_port p.supervisor_port ≡ true)
    (app_valid : is_valid_port p.application_port ≡ true) where
  abbrev pub c1 : Claims
  c1 = (claim_host p c).1

  abbrev pub c2 : Claims
  c2 = (claim_port p Field.supervisor_port p.supervisor_port c1).1

  abbrev pub c3 : Claims
  c3 = (claim_port p Field.application_port p.application_port c2).1

  module _ (h1 : (claim_host p c).0 ≡ [])
      (h2 : (claim_port p Field.supervisor_port p.supervisor_port c1).0 ≡ [])
      (h3 : (claim_port p Field.application_port p.application_port c2).0 ≡ []) where
    pub g1 : Grows c c1
    g1 = claim_host-Grows p c h1

    pub g2 : Grows c1 c2
    g2 = claim_port-Grows p Field.supervisor_port p.supervisor_port c1 sup_valid h2

    pub g3 : Grows c2 c3
    g3 = claim_port-Grows p Field.application_port p.application_port c2 app_valid h3

    new_application : claim_at p.application_port c2.claimed ≡ none
    new_application =
        elim (claim_cases p Field.application_port p.application_port c2 app_valid h3) [
          | inl (new, add) ↦ new
          | inr (k, old, fits, same) ↦ absurd (conflict_application p p.application_port k fits)
        ]

    application_claim :
        (k : PortClaim) × (claim_at p.application_port c3.claimed ≡ some k)
        × (is_supervisor k.field ≡ false)
    application_claim =
        elim (claim_cases p Field.application_port p.application_port c2 app_valid h3) [
          | inl (new, add) ↦ rw add (
            record {
              project = p.name;
              field = Field.application_port;
              host = p.host;
              listen_host = p.listen_host;
            },
            claim_at-first p.application_port _ c2.claimed,
            refl,
          )
          | inr (k, old, fits, same) ↦ absurd (conflict_application p p.application_port k fits)
        ]

    supervisor_claim :
        (k : PortClaim) × (claim_at p.supervisor_port c2.claimed ≡ some k)
        × (is_supervisor k.field ≡ true)
        × (is_empty k.host ≡ is_empty p.host)
        × (k.listen_host ≡ p.listen_host)
    supervisor_claim =
        elim (claim_cases p Field.supervisor_port p.supervisor_port c1 sup_valid h2) [
          | inl (new, add) ↦ rw add (
            record {
              project = p.name;
              field = Field.supervisor_port;
              host = p.host;
              listen_host = p.listen_host;
            },
            claim_at-first p.supervisor_port _ c1.claimed,
            refl,
            refl,
            refl,
          )
          | inr (k, old, fits, same) ↦
              let s = conflict_shared p p.supervisor_port k fits in
              rw same (k, old, s.0, s.2 ∙ sym s.1, s.3)
        ]

    host_claim : (p.host ≡ []) ⊎ ((n : Bytes) × (host_owner p.host c1.hosts ≡ some n))
    host_claim = elim (claim_host_cases p c h1) [
      | inl (e, same) ↦ inl e
      | inr (full, new, add) ↦ rw add (inr (p.name, host_owner-first p.host p.name c.hosts))
    ]

    pub claims-Recorded : Recorded p c3
    claims-Recorded = record {
      app_claim = application_claim.0;
      app_at = application_claim.1;
      app_field = application_claim.2;
      sup_claim = supervisor_claim.0;
      sup_at = g3.ports _ _ supervisor_claim.1;
      sup_field = supervisor_claim.2;
      sup_host = supervisor_claim.3;
      sup_listen = supervisor_claim.4;
      named = elim host_claim [
        | inl e ↦ inl e
        | inr (n, e) ↦ inr (n, g3.names _ n (g2.names _ n e))
      ];
    }

    module _ (q : Project) (r : Recorded q c) where
      r1 : Recorded q c1
      r1 = Recorded-Grows g1 r

      r2 : Recorded q c2
      r2 = Recorded-Grows g2 r1

      app_apart : (x : ℤ) (k : PortClaim) → claim_at x c2.claimed ≡ some k → p.application_port ≢ x
      app_apart x k at e = cc (sym new_application, ap (λ y. claim_at y c2.claimed) e, at)

      sup_apart : p.supervisor_port ≢ q.application_port
      sup_apart e = elim (claim_cases p Field.supervisor_port p.supervisor_port c1 sup_valid h2) [
        | inl (new, add) ↦ cc (sym new, ap (λ y. claim_at y c1.claimed) e, r1.app_at)
        | inr (k, old, fits, same) ↦ cc (
          sym old,
          ap (λ y. claim_at y c1.claimed) e,
          r1.app_at,
          (conflict_shared p p.supervisor_port k fits).0,
          r1.app_field,
        )
      ]

      shared_or_apart :
          (p.supervisor_port ≢ q.supervisor_port)
          ⊎ ((is_empty p.host ≡ false)
              × (is_empty q.host ≡ false)
              × (p.listen_host ≡ q.listen_host))
      shared_or_apart =
          elim (claim_cases p Field.supervisor_port p.supervisor_port c1 sup_valid h2) [
            | inl (new, add) ↦ inl (λ e. cc (sym new, ap (λ y. claim_at y c1.claimed) e, r1.sup_at))
            | inr (k, old, fits, same) ↦
                elim (Bool-cases (equal_int p.supervisor_port q.supervisor_port)) [
                  | inl eq ↦ inr (both k old fits (equal_int_lem _ _ eq))
                  | inr ne ↦ inl (λ e.
                      cc (ne, ap (equal_int p.supervisor_port) e, equal_int_refl p.supervisor_port))
                ]
          ]
        where
          both :
              (k : PortClaim)
              → claim_at p.supervisor_port c1.claimed ≡ some k
              → conflict p Field.supervisor_port p.supervisor_port k ≡ []
              → p.supervisor_port ≡ q.supervisor_port
              → (is_empty p.host ≡ false)
                × (is_empty q.host ≡ false)
                × (p.listen_host ≡ q.listen_host)
          both k old fits e =
              let s = conflict_shared p p.supervisor_port k fits in
              let one : r1.sup_claim ≡ k =
                cc (sym old, ap (λ y. claim_at y c1.claimed) e, r1.sup_at) in
              (
                s.1,
                sym r1.sup_host ∙ (ap (λ (l : PortClaim). is_empty l.host) one ∙ s.2),
                sym s.3 ∙ (ap (λ (l : PortClaim). l.listen_host) (sym one) ∙ r1.sup_listen),
              )

      hosts_apart : (p.host ≡ []) ⊎ (p.host ≢ q.host)
      hosts_apart = elim (claim_host_cases p c h1) [
        | inl (e, same) ↦ inl e
        | inr (full, new, add) ↦ inr (λ e. elim r.named [
          | inl none_there ↦ cc (full, ap is_empty (e ∙ none_there))
          | inr (n, owned) ↦ cc (sym new, ap (λ y. host_owner y c.hosts) e, owned)
        ])
      ]

      pub claims-Compatible : Compatible q p
      claims-Compatible = record {
        app_app = app_apart q.application_port r2.app_claim r2.app_at;
        app_sup = app_apart q.supervisor_port r2.sup_claim r2.sup_at;
        sup_app = sup_apart;
        sup_sup = shared_or_apart;
        hosts = hosts_apart;
      }
