-- ===== src/Memory/Address.antt =====
-- kernel/memory/address.hpp and the address arithmetic of kernel/memory/memory.cpp and physical.cpp,
-- on 64-bit numbers. A mask `value & ~(alignment - 1)` is written as division: the kernel passes powers
-- of two only.
use linux95_kernel.Prelude.{
  ℕ, ◌+◌, ◌-◌, ◌*◌, ◌/◌, ◌%◌, ◌^◌, ◌≤◌, ◌<◌, ◌≡◌, ◌⊎◌, Bool, ltb, ◌==◌, if◌then◌else◌, arith,
}

abbrev pub page_size : ℕ
page_size = 4096

abbrev pub uint64_max : ℕ
uint64_max = 2 ^ 64 - 1

-- 64 GiB
abbrev pub bootstrap_hhdm_limit : ℕ
bootstrap_hhdm_limit = 64 * 1024 * 1024 * 1024

abbrev pub hhdm_base : ℕ
hhdm_base = 0xFFFF_8000_0000_0000

unfoldable pub align_down : ℕ → ℕ → ℕ
align_down value alignment = if alignment == 0 then value else value / alignment * alignment

unfoldable pub align_up : ℕ → ℕ → ℕ
align_up value alignment =
    if alignment == 0
    then value
    else let mask = alignment - 1 in
      if ltb (uint64_max - mask) value
      then uint64_max / alignment * alignment
      else (value + mask) / alignment * alignment

unfoldable pub physical_to_hhdm : ℕ → ℕ
physical_to_hhdm physical = (hhdm_base + physical) % 2 ^ 64

unfoldable pub hhdm_to_physical : ℕ → ℕ
hhdm_to_physical virtual_address = (virtual_address + 2 ^ 64 - hhdm_base) % 2 ^ 64

unfoldable pub is_page_aligned : ℕ → Bool
is_page_aligned value = value % page_size == 0

-- `length > UINT64_MAX - base ? UINT64_MAX : base + length`; memory.cpp's saturating_add is the same
-- function.
unfoldable pub saturating_end : ℕ → ℕ → ℕ
saturating_end base length = if ltb (uint64_max - base) length then uint64_max else base + length

-- The conversion to the higher-half direct map is undone by its inverse, for every physical address
-- below 2^64.
pub hhdm_round_trip : (p : ℕ) → p < 2 ^ 64 → hhdm_to_physical (physical_to_hhdm p) ≡ p
unfolding physical_to_hhdm hhdm_to_physical
hhdm_round_trip p h = omega arith

-- For page-sized alignment `align_down` is the last page boundary at or below the address. `align_up`
-- is the first at or above it where one exists below 2^64, and otherwise the last page boundary of all.
pub align_page :
    (value : ℕ)
    → value < 2 ^ 64
    → (align_down value page_size % page_size ≡ 0)
      × (align_down value page_size ≤ value)
      × (value < align_down value page_size + page_size)
      × (align_up value page_size % page_size ≡ 0)
      × (align_up value page_size < 2 ^ 64)
      × (((value ≤ align_up value page_size) × (align_up value page_size < value + page_size))
          ⊎ ((2 ^ 64 - page_size < value) × (align_up value page_size ≡ 2 ^ 64 - page_size)))
unfolding align_down align_up
align_page value h = ground arith
