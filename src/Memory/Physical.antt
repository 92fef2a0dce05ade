-- ===== src/Memory/Physical.antt =====
-- kernel/memory/physical.cpp: the 4 KiB page allocator over two bitmaps, with the memory map of
-- kernel/boot_info.hpp and maximum_usable_physical_address of kernel/memory/memory.cpp.
-- The file's globals are the fields of Physical. Addresses are physical addresses below 2^64.
pub mod Invariant
pub mod Storage
pub mod Setup
pub mod Pages
pub mod History
use linux95_kernel.Prelude.{
  ℕ, zero, suc, ◌+◌, ◌-◌, ◌*◌, ◌/◌, ◌%◌, ◌^◌, Bool, true, false, ◌||◌, ◌&&◌, not, Option, none,
  some, List, [], ◌∷◌, take, ltb, leb, ◌==◌, if◌then◌else◌,
}
use linux95_kernel.Memory.Address.{
  page_size, bootstrap_hhdm_limit, uint64_max, align_up, align_down, is_page_aligned,
  saturating_end,
}
use linux95_kernel.Memory.PageBitmap
use linux95_kernel.Memory.PageBitmap.{PageBitmap, invalid, is_used, mark_free, mark_used}

pub record E820Entry : Type 0 where
  pub base : ℕ
  pub length : ℕ
  pub kind : ℕ

-- `entries` is the array that `e820_address` points to.
pub record BootInfo : Type 0 where
  pub magic : ℕ
  pub e820_count : ℕ
  pub e820_address : ℕ
  pub entries : List E820Entry

pub record Physical : Type 0 where
  pub used : PageBitmap
  pub reserved : PageBitmap
  pub page_count : ℕ
  pub bitmap_physical : ℕ
  pub bitmap_bytes : ℕ

-- kLowReservedEnd, 2 MiB
abbrev pub low_reserved_end : ℕ
low_reserved_end = 0x0020_0000

abbrev pub invalid_physical_address : ℕ
invalid_physical_address = uint64_max

unfoldable pub valid_boot_info : BootInfo → Bool
valid_boot_info info =
    (info.magic == 0x4C39_3542)
    && ltb 0 info.e820_count
    && leb info.e820_count 128
    && not (info.e820_address == 0)

abbrev pub is_usable : E820Entry → Bool
is_usable e = (e.kind == 1) && not (e.length == 0)

unfoldable pub maximum_from : ℕ → List E820Entry → ℕ
maximum_from maximum [] = maximum
maximum_from maximum (e ∷ rest) =
    let end = saturating_end e.base e.length in
    maximum_from (if is_usable e && ltb maximum end then end else maximum) rest

unfoldable pub maximum_usable_physical_address : BootInfo → ℕ
maximum_usable_physical_address info =
    if (info.e820_count == 0) || ltb 128 info.e820_count || (info.e820_address == 0)
    then 0
    else maximum_from 0 (take info.e820_count info.entries)

-- One round of mark_range_free.
abbrev pub free_index : Physical → ℕ → Physical
free_index p index = record p {
  used = (mark_free p.used index).1;
  reserved = (mark_free p.reserved index).1;
}

-- One round of reserve_range_internal.
abbrev pub reserve_index : Physical → ℕ → Physical
reserve_index p index = record p {
  used = (mark_used p.used index).1;
  reserved = (mark_used p.reserved index).1;
}

-- `for (address = start; address < end; address += kPageSize)`, on the number of rounds left.
unfoldable pub each_page : (Physical → ℕ → Physical) → ℕ → ℕ → Physical → Physical
each_page body zero address p = p
each_page body (suc rounds) address p =
    each_page body rounds (address + page_size) (body p (address / page_size))

abbrev pub rounds_to : ℕ → ℕ → ℕ
rounds_to start end = (end - start + (page_size - 1)) / page_size

unfoldable pub mark_range_free : ℕ → ℕ → Physical → Physical
mark_range_free start end p =
    if leb end start then p else each_page free_index (rounds_to start end) start p

unfoldable pub reserve_range : ℕ → ℕ → Physical → Physical
reserve_range start length p =
    if (length == 0) || (p.page_count == 0)
    then p
    else let first = align_down start page_size in
      let end = align_up (saturating_end start length) page_size in
      let managed_end = p.page_count * page_size in
      if leb managed_end first
      then p
      else let stop = if ltb managed_end end || (end == uint64_max) then managed_end else end in
        each_page reserve_index (rounds_to first stop) first p

-- The bounds that find_bitmap_storage computes for one entry.
abbrev pub storage_first : E820Entry → ℕ
storage_first e =
    let first = align_up e.base page_size in
    if ltb first low_reserved_end then low_reserved_end else first

abbrev pub storage_last : E820Entry → ℕ
storage_last e =
    let last = align_down (saturating_end e.base e.length) page_size in
    if ltb bootstrap_hhdm_limit last then bootstrap_hhdm_limit else last

unfoldable pub find_bitmap_storage : List E820Entry → ℕ → Option ℕ
find_bitmap_storage [] metadata_bytes = none
find_bitmap_storage (e ∷ rest) metadata_bytes =
    let first = storage_first e in
    let last = storage_last e in
    let later = find_bitmap_storage rest metadata_bytes in
    if not (is_usable e)
    then later
    else if (first == uint64_max) || leb last first
    then later
    else if leb metadata_bytes (last - first)
    then some first
    else later

-- The loop of initialize that frees the usable regions.
unfoldable pub free_regions : ℕ → List E820Entry → Physical → Physical
free_regions managed_end [] p = p
free_regions managed_end (e ∷ rest) p =
    let first = align_up e.base page_size in
    let last = align_down (saturating_end e.base e.length) page_size in
    let stop = if ltb managed_end last then managed_end else last in
    free_regions managed_end rest (
      if not (is_usable e) || (first == uint64_max) || leb last first || leb stop first
      then p
      else mark_range_free first stop p)

abbrev pub unset : Physical
unset = record {
  used = PageBitmap.empty;
  reserved = PageBitmap.empty;
  page_count = 0;
  bitmap_physical = 0;
  bitmap_bytes = 0;
}

-- `ram address` is the memory from a physical address on, as the direct map shows it. The bitmaps
-- keep what they held before a failed initialize.
module _ (ram : ℕ → List ℕ) where
  -- From the point where the storage for the two bitmaps is found.
  unfoldable pub build : BootInfo → ℕ → ℕ → Physical
  build info managed_end bitmap_physical =
      let page_count = managed_end / page_size in
      let bytes = (page_count + 7) / 8 in
      let one = align_up bytes page_size in
      let fresh : Physical = record {
        used = PageBitmap.initialize (some (ram bitmap_physical)) page_count;
        reserved = PageBitmap.initialize (some (ram (bitmap_physical + one))) page_count;
        page_count = page_count;
        bitmap_physical = bitmap_physical;
        bitmap_bytes = bytes;
      } in
      let freed = free_regions managed_end (take info.e820_count info.entries) fresh in
      reserve_range bitmap_physical (one * 2) (reserve_range 0 low_reserved_end freed)

  -- `one_bitmap_storage` cannot exceed the two limits tested before it is doubled, since the page
  -- count is bounded; the tests are kept.
  unfoldable pub initialize : BootInfo → Physical → Bool × Physical
  initialize info old =
      let cleared = record old { page_count = 0; bitmap_physical = 0; bitmap_bytes = 0 } in
      let maximum = maximum_usable_physical_address info in
      let managed_end = align_up maximum page_size in
      let page_count = managed_end / page_size in
      let bytes = (page_count + 7) / 8 in
      let one = align_up bytes page_size in
      let sized = record cleared { page_count = page_count; bitmap_bytes = bytes } in
      if not (valid_boot_info info)
      then (false, cleared)
      else if (maximum == 0) || ltb bootstrap_hhdm_limit maximum
      then (false, cleared)
      else if (managed_end == uint64_max) || ltb bootstrap_hhdm_limit managed_end
      then (false, cleared)
      else if (one == uint64_max) || ltb (uint64_max / 2) one
      then (false, sized)
      else elim (find_bitmap_storage (take info.e820_count info.entries) (one * 2)) [
        | none ↦ (false, sized)
        | some place ↦ let p = build info managed_end place in (ltb 0 p.used.free_count, p)
      ]

-- `for (;;)` on fuel; `none` means that the fuel ran out.
unfoldable pub allocate_loop : ℕ → Physical → Option (ℕ × Physical)
allocate_loop zero p = none
allocate_loop (suc fuel) p =
    let (index, used) = PageBitmap.allocate p.used in
    let p' = record p { used = used } in
    let again = allocate_loop fuel p' in
    if index == invalid
    then some (invalid_physical_address, p')
    else if not (is_used p.reserved index)
    then some (index * page_size, p')
    else again

unfoldable pub allocate_page : Physical → Option (ℕ × Physical)
allocate_page p = allocate_loop (p.used.free_count + 1) p

unfoldable pub free_page : Physical → ℕ → Bool × Physical
free_page p physical_address =
    let index = physical_address / page_size in
    if not (is_page_aligned physical_address) || (p.page_count == 0)
    then (false, p)
    else if leb p.page_count index || is_used p.reserved index
    then (false, p)
    else let (done, used) = mark_free p.used index in (done, record p { used = used })

unfoldable pub total_pages : Physical → ℕ
total_pages p = p.page_count

unfoldable pub free_pages : Physical → ℕ
free_pages p = p.used.free_count

unfoldable pub used_pages : Physical → ℕ
used_pages p = (p.page_count + 2 ^ 64 - p.used.free_count) % 2 ^ 64
