-- ===== src/Memory/Heap.antt =====
-- kernel/memory/heap.cpp: the bump heap of the kernel. The three globals are the fields of Heap; zero
-- means that the heap is not set up.
pub mod Laws
use linux95_kernel.Prelude.{
  ℕ, ◌+◌, ◌-◌, ◌*◌, ◌/◌, ◌%◌, ◌^◌, Bool, true, false, ◌||◌, not, Option, none, some, ltb, leb, ◌==◌,
  if◌then◌else◌,
}

pub record Heap : Type 0 where
  pub start : ℕ
  pub current : ℕ
  pub end : ℕ

abbrev pub unset : Heap
unset = record { start = 0; current = 0; end = 0 }

-- `& ~15` clears the low four bits.
abbrev pub down_16 : ℕ → ℕ
down_16 value = value / 16 * 16

unfoldable pub align_up_16 : ℕ → ℕ
align_up_16 value = if ltb (2 ^ 64 - 1 - 15) value then 0 else down_16 (value + 15)

unfoldable pub initialize : ℕ → ℕ → Bool × Heap
unfolding align_up_16
initialize start end =
    let aligned_start = align_up_16 start in
    let aligned_end = down_16 end in
    if (aligned_start == 0) || leb aligned_end aligned_start
    then (false, unset)
    else (true, record { start = aligned_start; current = aligned_start; end = aligned_end })

-- `none` is the null pointer.
unfoldable pub allocate : Heap → ℕ → Option ℕ × Heap
allocate h bytes =
    if (bytes == 0) || (h.current == 0)
    then (none, h)
    else if ltb (2 ^ 64 - 1 - 15) bytes
    then (none, h)
    else let aligned_size = down_16 (bytes + 15) in
      if ltb ((h.end + 2 ^ 64 - h.current) % 2 ^ 64) aligned_size
      then (none, h)
      else (some h.current, record h { current = (h.current + aligned_size) % 2 ^ 64 })

unfoldable pub checkpoint : Heap → ℕ
checkpoint h = h.current

unfoldable pub rewind : Heap → ℕ → Bool × Heap
rewind h mark =
    if (h.current == 0) || ltb mark h.start || ltb h.current mark || not (mark % 16 == 0)
    then (false, h)
    else (true, record h { current = mark })

unfoldable pub used_bytes : Heap → ℕ
used_bytes h = if leb h.start h.current then h.current - h.start else 0

unfoldable pub capacity_bytes : Heap → ℕ
capacity_bytes h = if leb h.start h.end then h.end - h.start else 0
