-- ===== src/Process/Ring.antt =====
-- internal/process/ring.go, the buffer of recent output lines. `none` is a Go panic: an index out
-- of range, or a remainder by zero (which only a buffer of capacity 0 could meet).
pub mod Refine
use herd_wake.Prelude.{
  ℕ, zero, suc, ◌+◌, ◌-◌, ◌%◌, List, [], ◌∷◌, Option, none, some, ltb, ◌==◌, ◌||◌, if◌then◌else◌,
  length, get_elem?, set?, replicate, Bytes,
}
use herd_wake.Prelude.Int.{ℤ, pos, negsuc}

pub record RingBuffer : Type 0 where
  pub lines : List Bytes
  pub start : ℕ
  pub count : ℕ

unfoldable pub new_ring_buffer : ℕ → RingBuffer
new_ring_buffer capacity = record { lines = replicate capacity []; start = 0; count = 0 }

unfoldable pub append : RingBuffer → Bytes → Option RingBuffer
append r line =
    if ltb r.count (length r.lines)
    then elim (set? r.lines ((r.start + r.count) % length r.lines) line) [
      | none ↦ none
      | some lines ↦ some (record { lines = lines; start = r.start; count = r.count + 1 })
    ]
    else elim (set? r.lines r.start line) [
      | none ↦ none
      | some lines ↦
          some (record { lines = lines; start = (r.start + 1) % length lines; count = r.count })
    ]

-- the `n` that `Last` works with
unfoldable pub last_count : RingBuffer → ℤ → ℕ
last_count r (negsuc _) = r.count
last_count r (pos n) = if n == 0 || ltb r.count n then r.count else n

-- `out[i:]`, with `left` entries still to fill
unfoldable pub fill : RingBuffer → (n left i : ℕ) → Option (List Bytes)
fill r n zero i = some []
fill r n (suc left) i = elim (get_elem? r.lines ((r.start + r.count - n + i) % length r.lines)) [
  | none ↦ none
  | some line ↦ elim (fill r n left (i + 1)) [ none ↦ none | some out ↦ some (line ∷ out) ]
]

unfoldable pub last : RingBuffer → ℤ → Option (List Bytes)
unfolding fill last_count
last r n = fill r (last_count r n) (last_count r n) 0

-- lines that arrive one after another, as `pump` feeds them
unfoldable pub append_all : RingBuffer → List Bytes → Option RingBuffer
append_all r [] = some r
append_all r (line ∷ rest) = elim (append r line) [ none ↦ none | some r' ↦ append_all r' rest ]
