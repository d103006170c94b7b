-- ===== src/Config/Dynamic.antt =====
-- internal/config/discovery.go: the host of a project that a wildcard entry makes is a host name, as
-- `applyDefaults` leaves it.
use herd_wake.Prelude.{
  or_true, ℕ, ◌≤◌, true, false, ◌||◌, List, [], ◌∷◌, ◌++◌, All, length, ltb, ◌==◌, if◌then◌else◌,
  Bytes, is_empty, split, le→ltb, arith, ◌≡◌, refl, Bool-cases, inl, inr,
}
use herd_wake.Prelude.Space.{trim_space, reversed}
use herd_wake.Envfile.Trim.{Solid, Starts, Starts-append, trim_space_same}
use herd_wake.Config.Hostname.{
  Platform, edge_byte, label_byte, label_tail, is_dns_label, all_labels, is_hostname,
}
use herd_wake.Config.Defaults.{is_ascii, lower_ascii, to_lower, lower_host}

-- The bytes of labels, and of host names.
abbrev LabelBytes : Bytes → Type 0
LabelBytes [] = Unit
LabelBytes (c ∷ s) = (label_byte c ≡ true) × LabelBytes s

abbrev HostBytes : Bytes → Type 0
HostBytes [] = Unit
HostBytes (c ∷ s) = ((label_byte c || c == b'.') ≡ true) × HostBytes s

edge-label : (c : ℕ) → edge_byte c ≡ true → label_byte c ≡ true
edge-label c h = rw h refl

tail_bytes : (s : Bytes) → label_tail s ≡ true → LabelBytes s
unfolding label_tail
tail_bytes [] h = tt
tail_bytes (c ∷ []) h = (edge-label c h, tt)
tail_bytes (c ∷ d ∷ s) h = elim (Bool-cases (label_byte c)) [
  | inl l ↦ (l, tail_bytes (d ∷ s) (rw l at h))
  | inr l ↦ cc (rw l at h)
]

-- What a DNS label is made of.
is_dns_label-LabelBytes : (l : Bytes) → is_dns_label l ≡ true → LabelBytes l
unfolding is_dns_label
is_dns_label-LabelBytes [] h = tt
is_dns_label-LabelBytes (c ∷ s) h = elim (Bool-cases (edge_byte c)) [
  | inr e ↦ cc (rw e at h)
  | inl e ↦ elim (Bool-cases (label_tail s)) [
    | inl t ↦ (edge-label c e, tail_bytes s t)
    | inr t ↦ cc (rw (e, t) at h)
  ]
]

all_labels_bytes : (ls : List Bytes) → all_labels ls ≡ true → All LabelBytes ls
unfolding all_labels
all_labels_bytes [] h = tt
all_labels_bytes (l ∷ ls) h = elim (Bool-cases (is_dns_label l)) [
  | inl e ↦ (is_dns_label-LabelBytes l e, all_labels_bytes ls (rw e at h))
  | inr e ↦ cc (rw e at h)
]

first_bytes :
    (c : ℕ) (ls : List Bytes)
    → All LabelBytes (elim ls [ [] ↦ (c ∷ []) ∷ [] | l ∷ r ↦ (c ∷ l) ∷ r ])
    → (label_byte c ≡ true) × All LabelBytes ls
first_bytes c [] h = (h.0.0, tt)
first_bytes c (l ∷ r) h = (h.0.0, (h.0.1, h.1))

joined_bytes :
    (c : ℕ) (s : Bytes) (ls : List Bytes)
    → (All LabelBytes ls → HostBytes s)
    → All LabelBytes
        (if c == b'.' then [] ∷ ls else elim ls [ [] ↦ (c ∷ []) ∷ [] | l ∷ r ↦ (c ∷ l) ∷ r ])
    → HostBytes (c ∷ s)
joined_bytes c s ls below h = elim (Bool-cases (c == b'.')) [
  | inl dot ↦ (rw dot (or_true (label_byte c)), below (rw dot at h).1)
  | inr other ↦ let r = first_bytes c ls (rw other at h) in (rw r.0 refl, below r.1)
]

split_bytes : (s : Bytes) → All LabelBytes (split b'.' s) → HostBytes s
unfolding split
split_bytes [] h = tt
split_bytes (c ∷ s) h = joined_bytes c s (split b'.' s) (split_bytes s) h

hostname_bytes : (s : Bytes) → is_hostname s ≡ true → HostBytes s
unfolding is_hostname
hostname_bytes s h = elim (Bool-cases (is_empty s || ltb 253 (length s))) [
  | inl e ↦ cc (rw e at h)
  | inr e ↦ split_bytes s (all_labels_bytes (split b'.' s) (rw e at h))
]

-- `strings.ToLower` changes no host name.
lower_bytes : (s : Bytes) → HostBytes s → (is_ascii s ≡ true) × (lower_ascii s ≡ s)
unfolding is_ascii lower_ascii
lower_bytes [] h = (refl, refl)
lower_bytes (c ∷ s) h = ground (arith, lower_bytes s h.1)

host_byte-Solid : (c : ℕ) → (label_byte c || c == b'.') ≡ true → Solid c
host_byte-Solid c h = (ground arith, ground arith)

host_ends : (c : ℕ) (s : Bytes) → HostBytes (c ∷ s) → Starts (reversed (c ∷ s))
unfolding reversed
host_ends c [] h = host_byte-Solid c h.0
host_ends c (d ∷ s) h = Starts-append (reversed (d ∷ s)) (c ∷ []) (host_ends d s h.1)

pub lower_host-HostBytes : (o : Platform) (s : Bytes) → HostBytes s → lower_host o s ≡ s
unfolding lower_host to_lower is_ascii lower_ascii
lower_host-HostBytes o [] h = unfold trim_space in refl
lower_host-HostBytes o (c ∷ s) h =
    rw (trim_space_same (c ∷ s) (host_byte-Solid c h.0) (host_ends c s h))
      (rw (lower_bytes (c ∷ s) h).0 (lower_bytes (c ∷ s) h).1)

no_dot : (c : ℕ) → label_byte c ≡ true → (c == b'.') ≡ false
no_dot c h = ground arith

split_label : (l s : Bytes) → LabelBytes l → split b'.' (l ++ b'.' ∷ s) ≡ l ∷ split b'.' s
unfolding split
split_label [] s h = refl
split_label (c ∷ l) s h = rw (no_dot c h.0) (rw (split_label l s h.1) refl)

dotted-HostBytes : (l s : Bytes) → LabelBytes l → HostBytes s → HostBytes (l ++ b'.' ∷ s)
dotted-HostBytes [] s h g = (refl, g)
dotted-HostBytes (c ∷ l) s h g = (rw h.0 refl, dotted-HostBytes l s h.1 g)

module _ (label base : Bytes) (is_label : is_dns_label label ≡ true)
    (is_base : is_hostname base ≡ true) where
  base_labels : all_labels (split b'.' base) ≡ true
  base_labels =
      unfold is_hostname in
      elim (Bool-cases (is_empty base || ltb 253 (length base))) [
        | inl e ↦ cc (rw e at is_base)
        | inr e ↦ rw e at is_base
      ]

  dotted-is_empty : is_empty (label ++ b'.' ∷ base) ≡ false
  dotted-is_empty = front label
    where
      front : (l : Bytes) → is_empty (l ++ b'.' ∷ base) ≡ false
      front [] = refl
      front (c ∷ l) = refl

  pub dotted-is_hostname :
      length (label ++ b'.' ∷ base) ≤ 253 → is_hostname (label ++ b'.' ∷ base) ≡ true
  unfolding is_hostname all_labels
  dotted-is_hostname short =
      rw (dotted-is_empty, le→ltb 253 (length (label ++ b'.' ∷ base)) short)
        (rw (split_label label base (is_dns_label-LabelBytes label is_label))
          (rw is_label base_labels))

  pub dotted-lower_host :
      (o : Platform) → lower_host o (label ++ b'.' ∷ base) ≡ label ++ b'.' ∷ base
  dotted-lower_host o = lower_host-HostBytes o (label ++ b'.' ∷ base) (
      dotted-HostBytes label base (is_dns_label-LabelBytes label is_label)
        (hostname_bytes base is_base))
