-- ===== src/Config/Labels.antt =====
-- internal/config/discovery.go: the hosts of a wildcard entry and the labels in them.
use herd_wake.Prelude.{
  ℕ, true, false, [], ◌∷◌, ◌++◌, none, some, length, length-append, if◌then◌else◌, Bytes, equal,
  equal_iff, equal_refl, arith, ◌≡◌, ◌↔◌, refl, sym, ap, ◌∙◌, Bool-cases, Option-cases, inl, inr,
  some-eq,
}
use herd_wake.Config.Hostname.{is_dns_label}
use herd_wake.Config.Discovery.{Discovery, cut_suffix, label_host, host_label}

cut_suffix_sound : (s suffix front : Bytes) → cut_suffix s suffix ≡ some front → s ≡ front ++ suffix
unfolding cut_suffix
cut_suffix_sound [] [] front h = cc h
cut_suffix_sound [] (d ∷ suffix) front h = cc h
cut_suffix_sound (c ∷ s) suffix front h = elim (Bool-cases (equal (c ∷ s) suffix)) [
  | inl same ↦ (equal_iff (c ∷ s) suffix).0 same ∙ ap (λ x. x ++ suffix) (some-eq (rw same at h))
  | inr other ↦ elim (Option-cases (cut_suffix s suffix)) [
    | inl gone ↦ cc (rw (other, gone) at h)
    | inr (f, e) ↦
        ap (λ x. c ∷ x) (cut_suffix_sound s suffix f e)
        ∙ ap (λ x. x ++ suffix) (some-eq (rw (other, e) at h))
  ]
]

longer : (c : ℕ) (front suffix : Bytes) → equal (c ∷ (front ++ suffix)) suffix ≡ false
longer c front suffix = elim (Bool-cases (equal (c ∷ (front ++ suffix)) suffix)) [
  | inr other ↦ other
  | inl same ↦ absurd (
      omega (
        arith,
        ap length ((equal_iff (c ∷ (front ++ suffix)) suffix).0 same),
        length-append front suffix,
      ))
]

cut_suffix_self : (suffix : Bytes) → cut_suffix suffix suffix ≡ some []
unfolding cut_suffix
cut_suffix_self [] = refl
cut_suffix_self (c ∷ s) = rw (equal_refl (c ∷ s)) refl

cut_suffix-append : (front suffix : Bytes) → cut_suffix (front ++ suffix) suffix ≡ some front
unfolding cut_suffix
cut_suffix-append [] suffix = cut_suffix_self suffix
cut_suffix-append (c ∷ front) suffix =
    rw (longer c front suffix) (rw (cut_suffix-append front suffix) refl)

label_checked :
    (label x : Bytes)
    → (if is_dns_label label then some label else none) ≡ some x
    → (label ≡ x) × (is_dns_label label ≡ true)
label_checked label x h = elim (Bool-cases (is_dns_label label)) [
  | inl yes_label ↦ (some-eq (rw yes_label at h), yes_label)
  | inr no_label ↦ cc (rw no_label at h)
]

host_label_sound :
    (d : Discovery) (host label : Bytes)
    → host_label d host ≡ some label
    → (host ≡ label_host d label) × (is_dns_label label ≡ true)
unfolding host_label label_host
host_label_sound d host label h = elim (Option-cases (cut_suffix host (b'.' ∷ d.base_domain))) [
  | inl gone ↦ cc (rw (gone, host_label) at h)
  | inr (f, e) ↦
      let r = label_checked f label (rw (e, host_label) at h) in
      (
        cut_suffix_sound host (b'.' ∷ d.base_domain) f e ∙ ap (λ x. x ++ b'.' ∷ d.base_domain) r.0,
        ap is_dns_label (sym r.0) ∙ r.1,
      )
]

host_label_complete :
    (d : Discovery) (label : Bytes)
    → is_dns_label label ≡ true
    → host_label d (label_host d label) ≡ some label
unfolding host_label label_host
host_label_complete d label h =
    rw (cut_suffix-append label (b'.' ∷ d.base_domain), host_label) (rw h refl)

-- `Label` accepts exactly the hosts that `Host` makes of DNS labels, and returns the label.
pub host_label_iff :
    (d : Discovery) (host label : Bytes)
    → (host_label d host ≡ some label) ↔ ((host ≡ label_host d label) × (is_dns_label label ≡ true))
host_label_iff d host label =
    (host_label_sound d host label, λ e. rw e.0 (host_label_complete d label e.1))
