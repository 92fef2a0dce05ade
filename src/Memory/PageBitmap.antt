-- ===== src/Memory/PageBitmap.antt =====
-- kernel/memory/page_bitmap.hpp: the class PageBitmap, one bit a page, set while the page is used.
-- `storage_` is the byte array it was given, or `none` for a null pointer. A read past the array
-- would be a fault; Invariant rules it out.
pub mod View
pub mod Invariant
pub mod Operations
pub mod Allocate
use linux95_kernel.Prelude.{
  ℕ, ◌+◌, ◌-◌, ◌/◌, ◌%◌, ◌^◌, Bool, true, false, ◌||◌, not, Option, none, some, List, ltb, leb,
  ◌==◌, if◌then◌else◌, get_or, set, length, take, drop, replicate, ◌++◌, find_from, test_bit,
  set_bit, clear_bit,
}

pub record PageBitmap : Type 0 where
  pub storage : Option (List ℕ)
  pub page_count : ℕ
  pub free_count : ℕ
  pub next_hint : ℕ

-- UINT64_MAX
abbrev pub invalid : ℕ
invalid = 2 ^ 64 - 1

abbrev pub empty : PageBitmap
empty = record { storage = none; page_count = 0; free_count = 0; next_hint = 0 }

-- The loop writes 0xFF to the first `bytes` bytes of the storage.
abbrev pub fill : List ℕ → ℕ → List ℕ
fill st bytes = replicate bytes 0xFF ++ drop bytes st

-- `page_count_ + 7` is taken modulo 2^64, as in the source.
unfoldable pub initialize : Option (List ℕ) → ℕ → PageBitmap
initialize none page_count = empty
initialize (some st) page_count =
    if page_count == 0
    then record { storage = some st; page_count = 0; free_count = 0; next_hint = 0 }
    else record {
      storage = some (fill st ((page_count + 7) % 2 ^ 64 / 8));
      page_count = page_count;
      free_count = 0;
      next_hint = 0;
    }

-- `(storage_[index >> 3] & (1u << (index & 7))) != 0`
unfoldable pub bit_at : List ℕ → ℕ → Bool
bit_at st index = test_bit (get_or st (index / 8) 0) (index % 8)

unfoldable pub is_used : PageBitmap → ℕ → Bool
is_used b index = elim b.storage [
  | none ↦ true
  | some st ↦ if leb b.page_count index then true else bit_at st index
]

unfoldable pub mark_free : PageBitmap → ℕ → Bool × PageBitmap
mark_free b index = elim b.storage [
  | none ↦ (false, b)
  | some st ↦ if leb b.page_count index || not (is_used b index) then (false, b) else (
    true,
    record b {
      storage = some (set st (index / 8) (clear_bit (get_or st (index / 8) 0) (index % 8)));
      free_count = b.free_count + 1;
      next_hint = if ltb index b.next_hint then index else b.next_hint;
    },
  )
]

-- `--free_count_` runs only for a page that is free, so the count is not zero there (Invariant).
unfoldable pub mark_used : PageBitmap → ℕ → Bool × PageBitmap
mark_used b index = elim b.storage [
  | none ↦ (false, b)
  | some st ↦ if leb b.page_count index || is_used b index then (false, b) else (
    true,
    record b {
      storage = some (set st (index / 8) (set_bit (get_or st (index / 8) 0) (index % 8)));
      free_count = b.free_count - 1;
      next_hint = if index == b.next_hint then b.next_hint + 1 else b.next_hint;
    },
  )
]

-- The body of the search: the page is taken, and the hint moves past it, round the end.
unfoldable pub claim : PageBitmap → ℕ → ℕ × PageBitmap
claim b index =
    let marked = (mark_used b index).1 in
    (
      index,
      record marked { next_hint = if leb marked.page_count (index + 1) then 0 else index + 1 },
    )

-- The two passes: from the hint to the end, then from the start to the hint.
unfoldable pub find_free : PageBitmap → Option ℕ
find_free b = elim (find_from (b.page_count - b.next_hint) b.next_hint (λ i. not (is_used b i))) [
  | some index ↦ some index
  | none ↦ find_from b.next_hint 0 (λ i. not (is_used b i))
]

abbrev pub is_null : PageBitmap → Bool
is_null b = elim b.storage [ none ↦ true | some st ↦ false ]

unfoldable pub allocate : PageBitmap → ℕ × PageBitmap
unfolding claim find_free
allocate b =
    if is_null b || b.free_count == 0
    then (invalid, b)
    else elim (find_free b) [ none ↦ (invalid, b) | some index ↦ claim b index ]
