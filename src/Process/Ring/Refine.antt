-- ===== src/Process/Ring/Refine.antt =====
-- The buffer holds the most recent lines of everything that was appended.
use herd_wake.Prelude.{
  ℕ, zero, suc, ◌+◌, ◌-◌, ◌%◌, ◌≤◌, ◌<◌, ◌≡◌, ◌≢◌, refl, sym, ap, ◌∙◌, ◌⊎◌, inl, inr, List, [], ◌∷◌,
  ◌++◌, append_assoc, append-nil, some, ◌==◌, if◌then◌else◌, arith, length, get_elem?, drop, Bytes,
  length-append, length-replicate, drop_all, drop_next, get_elem?-append_left, get_elem?-append_end,
  Written, set?-Written, lt→ltb, le→ltb, dec_lt, ℕ_discrete,
}
use native.Mathlib.Nat.{mod-lt, mod-eq_of_lt, mod-eq-sub-mod, mod-add-mod, add-mod_right}
use Prim.Native.Nat.{min}
use herd_wake.Prelude.Int.{ℤ, pos, negsuc}
use herd_wake.Process.Ring.{RingBuffer, new_ring_buffer, append, last_count, fill, last, append_all}

-- `r`, of capacity `limit`, has seen the lines `ls` and holds the last of them.
pub record Holds (limit : ℕ) (r : RingBuffer) (ls : List Bytes) : Type 0 where
  pub size : length r.lines ≡ limit
  pub start_lt : r.start < limit
  pub count_le : r.count ≤ limit
  pub count_seen : r.count ≤ length ls
  pub not_full : r.count < limit → r.count ≡ length ls
  pub entries :
      (i : ℕ)
      → i < r.count
      → get_elem? r.lines ((r.start + i) % limit) ≡ get_elem? ls (length ls - r.count + i)

mod_wrap : (a c : ℕ) → c ≤ a → a < c + c → a % c ≡ a - c
mod_wrap a c h k = mod-eq-sub-mod h ∙ mod-eq_of_lt (omega arith)

-- An index into the ring, without the remainder.
mod_cases :
    (s i c : ℕ)
    → s < c
    → i ≤ c
    → ((s + i < c) × ((s + i) % c ≡ s + i)) ⊎ ((c ≤ s + i) × ((s + i) % c ≡ s + i - c))
mod_cases s i c h k = elim (dec_lt (s + i) c) [
  | yes p ↦ inl (p, mod-eq_of_lt p)
  | no p ↦ inr (omega arith, mod_wrap (s + i) c (omega arith) (omega arith))
]

slot_ne : (s i j c : ℕ) → s < c → i < j → j < c → (s + i) % c ≢ (s + j) % c
slot_ne s i j c h k l =
    omega (arith, mod_cases s i c h (omega arith), mod_cases s j c h (omega arith))

next_slot : (s i c : ℕ) → ((s + 1) % c + i) % c ≡ (s + (i + 1)) % c
next_slot s i c = mod-add-mod (s + 1) c i ∙ ap (λ (k : ℕ). k % c) (omega arith)

full_turn : (s c : ℕ) → s < c → (s + c) % c ≡ s
full_turn s c h = add-mod_right s c ∙ mod-eq_of_lt h

-- Entries of a list that has grown by one.
grown_old :
    (ls : List Bytes) (line : Bytes) (k j : ℕ)
    → k ≡ j
    → j < length ls
    → get_elem? (ls ++ line ∷ []) k ≡ get_elem? ls j
grown_old ls line k j e h = rw e (get_elem?-append_left ls (line ∷ []) j h)

grown_new :
    (ls : List Bytes) (line : Bytes) (k : ℕ)
    → k ≡ length ls
    → get_elem? (ls ++ line ∷ []) k ≡ some line
grown_new ls line k e = rw e (get_elem?-append_end ls line)

-- A line arrives while there is room.
store_free :
    (limit : ℕ) (r : RingBuffer) (ls : List Bytes) (line : Bytes)
    → Holds limit r ls
    → r.count < limit
    → (w : Written r.lines ((r.start + r.count) % limit) line)
    → Holds limit
        (record { lines = w.list; start = r.start; count = r.count + 1 })
        (ls ++ line ∷ [])
store_free limit r ls line h room w = record {
  size = w.same_length ∙ h.size;
  start_lt = h.start_lt;
  count_le = omega arith;
  count_seen = omega (arith, length-append ls (line ∷ []), h.count_seen);
  not_full = λ _. omega (arith, length-append ls (line ∷ []), h.not_full room);
  entries = λ i below. elim (ℕ_discrete i r.count) [
    | yes e ↦ rw e (
        w.at_self
        ∙ sym (grown_new ls line _ (omega (arith, length-append ls (line ∷ []), h.count_seen))))
    | no ne ↦
        w.at_ne _ (slot_ne r.start i r.count limit h.start_lt (omega arith) room)
        ∙ h.entries i (omega arith)
        ∙ sym (
            grown_old ls line _ (length ls - r.count + i)
              (omega (arith, length-append ls (line ∷ []), h.count_seen))
              (omega (arith, h.count_seen)))
  ];
}

-- A line arrives and pushes the oldest out.
store_full :
    (limit : ℕ) (r : RingBuffer) (ls : List Bytes) (line : Bytes)
    → Holds limit r ls
    → limit ≡ r.count
    → (w : Written r.lines r.start line)
    → Holds limit
        (record { lines = w.list; start = (r.start + 1) % length w.list; count = r.count })
        (ls ++ line ∷ [])
store_full limit r ls line h full w = record {
  size = w.same_length ∙ h.size;
  start_lt = rw size (mod-lt (r.start + 1) (omega (arith, h.start_lt)));
  count_le = h.count_le;
  count_seen = omega (arith, length-append ls (line ∷ []), h.count_seen);
  not_full = λ k. absurd (omega arith);
  entries = λ i below. elim (ℕ_discrete (i + 1) r.count) [
    | yes e ↦
        rw (size, next_slot r.start i limit, e, ← full, full_turn r.start limit h.start_lt)
          (w.at_self
            ∙ sym (grown_new ls line _ (omega (arith, length-append ls (line ∷ []), h.count_seen))))
    | no ne ↦
        rw (size, next_slot r.start i limit)
          (w.at_ne _ (λ back.
              slot_ne r.start 0 (i + 1) limit h.start_lt (omega arith) (omega arith)
                (unmoved ∙ sym back))
            ∙ h.entries (i + 1) (omega arith)
            ∙ sym (
                grown_old ls line _ (length ls - r.count + (i + 1))
                  (omega (arith, length-append ls (line ∷ []), h.count_seen))
                  (omega (arith, h.count_seen))))
  ];
}
  where
    size : length w.list ≡ limit
    size = w.same_length ∙ h.size

    unmoved : (r.start + 0) % limit ≡ r.start
    unmoved = mod-eq_of_lt (omega (arith, h.start_lt)) ∙ omega arith

-- `append` never panics on a buffer with a capacity, and the buffer then holds one more line.
pub append-Holds :
    (limit : ℕ) (r : RingBuffer) (ls : List Bytes) (line : Bytes)
    → Holds limit r ls
    → (r' : RingBuffer) × (append r line ≡ some r') × Holds limit r' (ls ++ line ∷ [])
unfolding append
append-Holds limit r ls line h = elim (dec_lt r.count limit) [
  | yes room ↦
      let at_end : (r.start + r.count) % length r.lines ≡ (r.start + r.count) % limit =
        ap (λ (k : ℕ). (r.start + r.count) % k) h.size in
      let w =
        set?-Written r.lines ((r.start + r.count) % limit) line
          (rw h.size (mod-lt (r.start + r.count) (omega (arith, h.start_lt)))) in
      (
        _,
        rw (lt→ltb r.count (length r.lines) (omega (arith, h.size)), at_end, w.written),
        store_free limit r ls line h room w,
      )
  | no full ↦
      let w = set?-Written r.lines r.start line (omega (arith, h.size, h.start_lt)) in
      (
        _,
        rw (le→ltb r.count (length r.lines) (omega (arith, h.size)), w.written),
        store_full limit r ls line h (omega (arith, h.count_le)) w,
      )
]

pub new-Holds : (limit : ℕ) → 0 < limit → Holds limit (new_ring_buffer limit) []
unfolding new_ring_buffer
new-Holds limit h = record {
  size = length-replicate limit [];
  start_lt = h;
  count_le = omega arith;
  count_seen = omega arith;
  not_full = λ _. refl;
  entries = λ i below. absurd (omega arith);
}

pub append_all-Holds :
    (limit : ℕ) (r : RingBuffer) (seen ls : List Bytes)
    → Holds limit r seen
    → (r' : RingBuffer) × (append_all r ls ≡ some r') × Holds limit r' (seen ++ ls)
unfolding append_all
append_all-Holds limit r seen [] h = (r, refl, rw append-nil h)
append_all-Holds limit r seen (line ∷ ls) h =
    let (r1, stored, h1) = append-Holds limit r seen line h in
    let (r2, rest, h2) = append_all-Holds limit r1 (seen ++ line ∷ []) ls h1 in
    (r2, rw (stored, append_all) rest, rw append_assoc at h2)

-- The loop of `Last` reads the tail of what was seen.
fill-Holds :
    (limit : ℕ) (r : RingBuffer) (ls : List Bytes) (n left i : ℕ)
    → Holds limit r ls
    → n ≤ r.count
    → i + left ≡ n
    → fill r n left i ≡ some (drop (length ls - left) ls)
unfolding fill
fill-Holds limit r ls n zero i h k e = ap some (sym (drop_all _ ls (omega arith)))
fill-Holds limit r ls n (suc left) i h k e =
    let (line, found, split) = drop_next (length ls - suc left) ls (omega (arith, h.count_seen)) in
    let slot : r.start + r.count - n + i ≡ r.start + (r.count - n + i) = omega arith in
    let at_slot : get_elem? r.lines ((r.start + r.count - n + i) % length r.lines) ≡ some line =
      rw (h.size, slot)
        (h.entries (r.count - n + i) (omega arith)
          ∙ ap (get_elem? ls) {y = length ls - suc left} (omega (arith, h.count_seen))
          ∙ found) in
    let rest : fill r n left (i + 1) ≡ some (drop (suc (length ls - suc left)) ls) =
      fill-Holds limit r ls n left (i + 1) h k (omega arith)
      ∙ ap (λ (j : ℕ). some (drop j ls)) {y = suc (length ls - suc left)}
          (omega (arith, h.count_seen)) in
    rw (at_slot, rest, split, fill)

-- How many lines `Last n` can give after `seen` lines.
abbrev pub kept : (limit seen : ℕ) → ℤ → ℕ
kept limit seen (negsuc _) = min limit seen
kept limit seen (pos n) = if n == 0 then min limit seen else min n (min limit seen)

kept_le :
    (limit : ℕ) (r : RingBuffer) (ls : List Bytes) (n : ℤ)
    → Holds limit r ls
    → kept limit (length ls) n ≤ r.count
kept_le limit r ls n h = ground (arith, h.not_full, h.count_seen, h.count_le)

last_count-kept :
    (limit : ℕ) (r : RingBuffer) (ls : List Bytes) (n : ℤ)
    → Holds limit r ls
    → last_count r n ≡ kept limit (length ls) n
unfolding last_count
last_count-kept limit r ls n h = ground (arith, h.not_full, h.count_seen, h.count_le)

-- Whatever lines arrive at a new buffer with a positive capacity, no access panics, and `Last n`
-- returns the end of the whole history, in order: the last n lines, or all that are buffered (at
-- most the capacity) where n is not positive or is more than that.
pub last-append_all :
    (limit : ℕ) (ls : List Bytes) (n : ℤ)
    → 0 < limit
    → (r : RingBuffer) × (append_all (new_ring_buffer limit) ls ≡ some r)
      × (last r n ≡ some (drop (length ls - kept limit (length ls) n) ls))
unfolding last
last-append_all limit ls n h =
    let (r, stored, held) =
      append_all-Holds limit (new_ring_buffer limit) [] ls (new-Holds limit h) in
    (
      r,
      stored,
      rw (last_count-kept limit r ls n held)
          (fill-Holds limit r ls _ _ 0 held (kept_le limit r ls n held) (omega arith)),
    )
