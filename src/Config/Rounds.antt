-- ===== src/Config/Rounds.antt =====
-- internal/config/config.go: the loop of `Config.validate` over the projects.
use herd_wake.Prelude.{Bool, List, [], ◌∷◌, All, All-map, append-nil_parts, ◌≡◌}
use herd_wake.Config.Project.{Project}
use herd_wake.Config.Hostname.{Platform}
use herd_wake.Config.ValidateConfig.{Claims, claim_project, projects_check}
use herd_wake.Config.Ports.{Grows, Grows-refl, Grows-trans, Recorded, Recorded-Grows, Compatible}
use herd_wake.Config.Claims.{claims-Recorded, claims-Compatible, g1, g2, g3}
use herd_wake.Config.Passes.{HasPorts, validate_project-HasPorts}

-- Any two of the projects.
abbrev pub Apart : List Project → Type 0
Apart [] = Unit
Apart (p ∷ ps) = All (Compatible p) ps × Apart ps

-- One project's claims without errors.
record Round (p : Project) (done : List Project) (c : Claims) : Type 0 where
  grows : Grows c (claim_project p c).1
  recorded : Recorded p (claim_project p c).1
  fits : All (λ q. Compatible q p) done

round :
    (p : Project) (done : List Project) (c : Claims)
    → HasPorts p
    → (claim_project p c).0 ≡ []
    → All (λ q. Recorded q c) done
    → Round p done c
unfolding claim_project
round p done c v h r =
    let a = append-nil_parts _ _ h in
    let b = append-nil_parts _ _ a.1 in
    record {
      grows =
          Grows-trans (g1 p c v.0 v.1 a.0 b.0 b.1)
            (Grows-trans (g2 p c v.0 v.1 a.0 b.0 b.1) (g3 p c v.0 v.1 a.0 b.0 b.1));
      recorded = claims-Recorded p c v.0 v.1 a.0 b.0 b.1;
      fits =
          All-map (λ q. Recorded q c) (λ q. Compatible q p)
            (claims-Compatible p c v.0 v.1 a.0 b.0 b.1) done r;
    }

module _ (o : Platform) (skip : Bool) where
  pub record Checked (done ps : List Project) (c : Claims) : Type 0 where
    pub against : All (λ p. All (λ q. Compatible q p) done) ps
    pub apart : Apart ps
    pub grows : Grows c (projects_check o skip ps c).1
    pub recorded : All (λ q. Recorded q (projects_check o skip ps c).1) ps

  -- One more project in front of those that were checked behind it.
  with_first :
      (p : Project) (ps done : List Project) (c : Claims)
      → Round p done c
      → Checked (p ∷ done) ps (claim_project p c).1
      → Checked done (p ∷ ps) c
  unfolding projects_check
  with_first p ps done c r k = record {
    against = (
      r.fits,
      All-map (λ x. All (λ q. Compatible q x) (p ∷ done)) (λ x. All (λ q. Compatible q x) done)
          (λ x h. h.1) ps k.against,
    );
    apart = (
      All-map (λ x. All (λ q. Compatible q x) (p ∷ done)) (Compatible p) (λ x h. h.0) ps k.against,
      k.apart,
    );
    grows = Grows-trans r.grows k.grows;
    recorded = (Recorded-Grows k.grows r.recorded, k.recorded);
  }

  pub projects_check-Checked :
      (done ps : List Project) (c : Claims)
      → (projects_check o skip ps c).0 ≡ []
      → All (λ q. Recorded q c) done
      → Checked done ps c
  unfolding projects_check
  projects_check-Checked done [] c h r = record {
    against = tt;
    apart = tt;
    grows = Grows-refl c;
    recorded = tt;
  }
  projects_check-Checked done (p ∷ ps) c h r =
      let a = append-nil_parts _ _ h in
      let b = append-nil_parts _ _ a.1 in
      let d = append-nil_parts _ _ b.1 in
      let one = round p done c (validate_project-HasPorts o skip p b.0) d.0 r in
      with_first p ps done c one (
        projects_check-Checked (p ∷ done) ps (claim_project p c).1 d.1 (
          one.recorded,
          All-map (λ q. Recorded q c) (λ q. Recorded q (claim_project p c).1)
              (λ q. Recorded-Grows one.grows) done r,
        ))
