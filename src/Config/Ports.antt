-- ===== src/Config/Ports.antt =====
-- internal/config/config.go: what the claims of `Config.validate` keep apart.
use herd_wake.Prelude.{
  Bool, true, false, not, ◌||◌, List, [], ◌∷◌, none, some, if◌then◌else◌, Bytes, equal, equal_iff,
  is_empty, arith, ◌≡◌, ◌≢◌, ◌⊎◌, inl, inr, refl, sym, ap, Bool-cases, Option-cases,
}
use herd_wake.Prelude.Int.{ℤ, pos, negsuc}
use herd_wake.Config.Project.{Project}
use herd_wake.Config.Errors.{Field, when}
use herd_wake.Config.Hostname.{is_valid_port, equal_int}
use herd_wake.Config.ValidateConfig.{
  PortClaim, Claims, claim_at, host_owner, conflict, claim_port, claim_host, is_supervisor,
}

pub equal_int_lem : (m n : ℤ) → equal_int m n ≡ true → m ≡ n
unfolding equal_int
equal_int_lem (pos m) (pos n) h = ground arith
equal_int_lem (pos m) (negsuc n) h = cc h
equal_int_lem (negsuc m) (pos n) h = cc h
equal_int_lem (negsuc m) (negsuc n) h = ground arith

pub equal_int_refl : (m : ℤ) → equal_int m m ≡ true
unfolding equal_int
equal_int_refl (pos m) = ground arith
equal_int_refl (negsuc m) = ground arith

-- The claims only grow.
pub record Grows (c d : Claims) : Type 0 where
  pub ports :
      (port : ℤ) (k : PortClaim)
      → claim_at port c.claimed ≡ some k
      → claim_at port d.claimed ≡ some k
  pub names : (h n : Bytes) → host_owner h c.hosts ≡ some n → host_owner h d.hosts ≡ some n

pub Grows-refl : (c : Claims) → Grows c c
Grows-refl c = record { ports = λ port k h. h; names = λ h n e. e }

pub Grows-trans : {c d e : Claims} → Grows c d → Grows d e → Grows c e
Grows-trans g h = record {
  ports = λ port k e. h.ports port k (g.ports port k e);
  names = λ x n e. h.names x n (g.names x n e);
}

pub claim_at-cons :
    (port x : ℤ) (k l : PortClaim) (m : List (ℤ × PortClaim))
    → claim_at port m ≡ none
    → claim_at x m ≡ some l
    → claim_at x ((port, k) ∷ m) ≡ some l
unfolding claim_at
claim_at-cons port x k l m h e = elim (Bool-cases (equal_int port x)) [
  | inl same ↦ cc (sym h, ap (λ y. claim_at y m) (equal_int_lem port x same), e)
  | inr other ↦ rw other e
]

pub claim_at-first :
    (port : ℤ) (k : PortClaim) (m : List (ℤ × PortClaim)) → claim_at port ((port, k) ∷ m) ≡ some k
unfolding claim_at
claim_at-first port k m = rw (equal_int_refl port) refl

abbrev claim_of : Project → Field → PortClaim
claim_of p f = record { project = p.name; field = f; host = p.host; listen_host = p.listen_host }

abbrev with_claim : Project → Field → ℤ → Claims → Claims
with_claim p f port c = record c { claimed = (port, claim_of p f) ∷ c.claimed }

with_claim-Grows :
    (p : Project) (f : Field) (port : ℤ) (c : Claims)
    → claim_at port c.claimed ≡ none
    → Grows c (with_claim p f port c)
with_claim-Grows p f port c h = record {
  ports = λ x l e. claim_at-cons port x (claim_of p f) l c.claimed h e;
  names = λ x n e. e;
}

-- A claim without errors: the port is new, or it is shared.
pub claim_cases :
    (p : Project) (f : Field) (port : ℤ) (c : Claims)
    → is_valid_port port ≡ true
    → (claim_port p f port c).0 ≡ []
    → ((claim_at port c.claimed ≡ none) × ((claim_port p f port c).1 ≡ with_claim p f port c))
      ⊎ ((k : PortClaim) × (claim_at port c.claimed ≡ some k)
          × (conflict p f port k ≡ [])
          × ((claim_port p f port c).1 ≡ c))
claim_cases p f port c v h = elim (Option-cases (claim_at port c.claimed)) [
  | inl new ↦ inl (new, unfold claim_port in rw (v, new) refl)
  | inr (k, old) ↦
      inr (k, old, unfold claim_port in (rw (v, old) at h), unfold claim_port in rw (v, old) refl)
]

-- What an earlier project leaves in the maps.
pub record Recorded (q : Project) (c : Claims) : Type 0 where
  pub app_claim : PortClaim
  pub app_at : claim_at q.application_port c.claimed ≡ some app_claim
  pub app_field : is_supervisor app_claim.field ≡ false
  pub sup_claim : PortClaim
  pub sup_at : claim_at q.supervisor_port c.claimed ≡ some sup_claim
  pub sup_field : is_supervisor sup_claim.field ≡ true
  pub sup_host : is_empty sup_claim.host ≡ is_empty q.host
  pub sup_listen : sup_claim.listen_host ≡ q.listen_host
  pub named : (q.host ≡ []) ⊎ ((n : Bytes) × (host_owner q.host c.hosts ≡ some n))

pub Recorded-Grows : {q : Project} {c d : Claims} → Grows c d → Recorded q c → Recorded q d
Recorded-Grows g r = record {
  app_claim = r.app_claim;
  app_at = g.ports _ r.app_claim r.app_at;
  app_field = r.app_field;
  sup_claim = r.sup_claim;
  sup_at = g.ports _ r.sup_claim r.sup_at;
  sup_field = r.sup_field;
  sup_host = r.sup_host;
  sup_listen = r.sup_listen;
  named = elim r.named [ inl e ↦ inl e | inr (n, e) ↦ inr (n, g.names _ n e) ];
}

pub conflict_application :
    (p : Project) (port : ℤ) (k : PortClaim) → conflict p Field.application_port port k ≢ []
unfolding conflict
conflict_application p port k h = cc h

shared_tests {ℓ} :
    {A : Type ℓ} (s e f l : Bool) (x y z : A)
    → (if not s then x ∷ [] else if e || f then y ∷ [] else when (not l) z) ≡ []
    → (s ≡ true) × (e ≡ false) × (f ≡ false) × (l ≡ true)
shared_tests true false false true x y z h = (refl, refl, refl, refl)
shared_tests true false false false x y z h = cc h
shared_tests true false true l x y z h = cc h
shared_tests true true f l x y z h = cc h
shared_tests false e f l x y z h = cc h

-- A port that may be shared.
pub conflict_shared :
    (p : Project) (port : ℤ) (k : PortClaim)
    → conflict p Field.supervisor_port port k ≡ []
    → (is_supervisor k.field ≡ true)
      × (is_empty p.host ≡ false)
      × (is_empty k.host ≡ false)
      × (k.listen_host ≡ p.listen_host)
unfolding conflict
conflict_shared p port k h =
    let t =
      shared_tests (is_supervisor k.field) (is_empty p.host) (is_empty k.host)
        (equal p.listen_host k.listen_host) _ _ _ h in
    (t.0, t.1, t.2, sym ((equal_iff p.listen_host k.listen_host).0 t.3))

-- Two projects of one configuration: neither gets a port of the other, but that projects with hosts
-- may share the supervisor's, at one address and under two hosts.
pub record Compatible (q p : Project) : Type 0 where
  pub app_app : p.application_port ≢ q.application_port
  pub app_sup : p.application_port ≢ q.supervisor_port
  pub sup_app : p.supervisor_port ≢ q.application_port
  pub sup_sup :
      (p.supervisor_port ≢ q.supervisor_port)
      ⊎ ((is_empty p.host ≡ false) × (is_empty q.host ≡ false) × (p.listen_host ≡ q.listen_host))
  pub hosts : (p.host ≡ []) ⊎ (p.host ≢ q.host)

is_empty-nil : (s : Bytes) → is_empty s ≡ true → s ≡ []
is_empty-nil [] h = refl
is_empty-nil (c ∷ s) h = cc h

claimed_host :
    (p : Project) (c : Claims) (n : Bytes)
    → is_empty p.host ≡ false
    → host_owner p.host c.hosts ≡ some n
    → (claim_host p c).0 ≢ []
unfolding claim_host
claimed_host p c n e old h = cc (rw (e, old) at h)

-- The claim of a host that makes no error.
pub claim_host_cases :
    (p : Project) (c : Claims)
    → (claim_host p c).0 ≡ []
    → ((p.host ≡ []) × ((claim_host p c).1 ≡ c))
      ⊎ ((is_empty p.host ≡ false)
          × (host_owner p.host c.hosts ≡ none)
          × ((claim_host p c).1 ≡ record c { hosts = (p.host, p.name) ∷ c.hosts }))
claim_host_cases p c h = elim (Bool-cases (is_empty p.host)) [
  | inl e ↦ inl (is_empty-nil p.host e, unfold claim_host in rw e refl)
  | inr e ↦ elim (Option-cases (host_owner p.host c.hosts)) [
    | inl new ↦ inr (e, new, unfold claim_host in rw (e, new) refl)
    | inr (n, old) ↦ absurd (claimed_host p c n e old h)
  ]
]

host_owner-cons :
    (x n h m : Bytes) (l : List (Bytes × Bytes))
    → host_owner x l ≡ none
    → host_owner h l ≡ some m
    → host_owner h ((x, n) ∷ l) ≡ some m
unfolding host_owner
host_owner-cons x n h m l new e = elim (Bool-cases (equal x h)) [
  | inl same ↦ cc (sym new, ap (λ y. host_owner y l) ((equal_iff x h).0 same), e)
  | inr other ↦ rw other e
]

pub host_owner-first : (x n : Bytes) (l : List (Bytes × Bytes)) → host_owner x ((x, n) ∷ l) ≡ some n
unfolding host_owner
host_owner-first x n l = rw ((equal_iff x x).1 refl) refl

pub claim_host-Grows :
    (p : Project) (c : Claims) → (claim_host p c).0 ≡ [] → Grows c (claim_host p c).1
claim_host-Grows p c h = elim (claim_host_cases p c h) [
  | inl (e, same) ↦ rw same (Grows-refl c)
  | inr (full, new, add) ↦ rw add (record {
    ports = λ port k e. e;
    names = λ x n e. host_owner-cons p.host p.name x n c.hosts new e;
  })
]

pub claim_port-Grows :
    (p : Project) (f : Field) (port : ℤ) (c : Claims)
    → is_valid_port port ≡ true
    → (claim_port p f port c).0 ≡ []
    → Grows c (claim_port p f port c).1
claim_port-Grows p f port c v h = elim (claim_cases p f port c v h) [
  | inl (new, add) ↦ rw add (with_claim-Grows p f port c new)
  | inr (k, old, ok_there, same) ↦ rw same (Grows-refl c)
]
