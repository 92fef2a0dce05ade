-- ===== src/Memory/PagingTests.antt =====
-- Page tables and user ranges at small inputs.
use mathlib.Core.Bool.{false≢true}
use linux95_kernel.Prelude.{
  ℕ, ◌+◌, ◌*◌, ◌/◌, ◌%◌, ◌-◌, ◌≢◌, ◌≡◌, ◌⊎◌, ◌↔◌, refl, ap, ◌∙◌, Bool, true, false, some, ◌==◌,
  if◌then◌else◌, arith, find_from, [], test_bit, set_bit, clear_bit,
}
use linux95_kernel.Memory.Address.{is_page_aligned}
use linux95_kernel.Memory.PageBitmap
use linux95_kernel.Memory.PageBitmap.{is_used, mark_free, mark_used}
use linux95_kernel.Memory.Paging.{
  Tables, Store, PageInfo, map_page, query_page, page_table, child_table, allocate_table, take_page,
  set_page, write_entry, zero_table,
}
use linux95_kernel.Memory.Paging.Mapping.{IsMapped, Mapped, map_page-Mapped}
use linux95_kernel.Memory.Paging.Trees.{Shape}
use linux95_kernel.Memory.Physical.{Physical, allocate_page, allocate_loop, free_index}
use linux95_kernel.Memory.Physical.Invariant.{IsSound, free_index-IsSound}
use linux95_kernel.Memory.Tests.{small, small-IsSound}
use linux95_kernel.Memory.UserSpace.{
  read, write, map_user_page, make_user_page_flags, is_canonical_user_address,
  validate_user_range_with_lookup, copy_from_user,
}
use linux95_kernel.Memory.UserSpace.Copying.{copy_from_user_lem, bytes_mapped}
use linux95_kernel.Memory.UserSpace.Mapping.{map_user_page-Mapped}
use linux95_kernel.Memory.UserSpace.Ranges.{IsAccessible, validate_user_range_lem}

-- An allocator with the free pages 3, 5 and 6.
abbrev three_free : Physical
three_free = free_index (free_index small 5) 6

three_free-IsSound : IsSound three_free
three_free-IsSound =
    free_index-IsSound (free_index small 5) 6 (free_index-IsSound small 5 small-IsSound)

-- A store whose one table, the root at page 1, is empty.
abbrev empty_store : Store
empty_store = record { tables = λ t i. 0; physical = three_free; root = 0x1000; nxe = true }

abbrev root_only : Shape
root_only = record { level = λ t. if t == 0x1000 then 4 else 0; up = λ t. (0, 0) }

root_used : is_used three_free.used 1 ≡ true
unfolding is_used mark_free mark_used PageBitmap.initialize PageBitmap.bit_at test_bit set_bit
    clear_bit
root_used = refl

root_alone : (t : ℕ) → root_only.level t ≢ 0 → t ≡ 0x1000
root_alone t in_use = ground (arith, in_use)

empty_store-IsMapped : IsMapped 0x1000 empty_store
empty_store-IsMapped = record {
  shape = root_only;
  sound = three_free-IsSound;
  tree = record {
    root_level = refl;
    child = λ t i below level lt present inner. absurd (false≢true present);
    root_small = λ i lt. refl;
    taken =
        λ t in_use. ap (λ x. is_used three_free.used (x / 4096)) (root_alone t in_use) ∙ root_used;
  };
}

abbrev kernel_page : ℕ
kernel_page = 0xFFFF_9000_0000_0000

map_run : (map_page empty_store kernel_page 0x7000 2).0 ≡ true
unfolding map_page page_table child_table allocate_table take_page set_page write_entry zero_table
    allocate_page allocate_loop PageBitmap.allocate PageBitmap.claim PageBitmap.find_free is_used
    mark_free mark_used PageBitmap.initialize PageBitmap.bit_at test_bit set_bit clear_bit find_from
    is_page_aligned
map_run = refl

map_page-Mapped_example :
    Mapped 0x1000 kernel_page 0x7000 empty_store (map_page empty_store kernel_page 0x7000 2).1
map_page-Mapped_example =
    map_page-Mapped empty_store (map_page empty_store kernel_page 0x7000 2).1 kernel_page 0x7000 2
      empty_store-IsMapped
      (ap (λ done. (done, (map_page empty_store kernel_page 0x7000 2).1)) map_run)

abbrev user_page : ℕ
user_page = 0x4000_0000_0000

map_user_run : (map_user_page empty_store 0x1000 user_page 0x7000 true false).0 ≡ true
unfolding map_user_page make_user_page_flags is_canonical_user_address page_table child_table
    allocate_table take_page set_page write_entry zero_table allocate_page allocate_loop
    PageBitmap.allocate PageBitmap.claim PageBitmap.find_free is_used mark_free mark_used
    PageBitmap.initialize PageBitmap.bit_at test_bit set_bit clear_bit find_from is_page_aligned
map_user_run = refl

map_user_page-Mapped_example :
    Mapped 0x1000 user_page 0x7000 empty_store
      (map_user_page empty_store 0x1000 user_page 0x7000 true false).1
    × (is_canonical_user_address user_page ≡ true)
map_user_page-Mapped_example =
    map_user_page-Mapped empty_store
      (map_user_page empty_store 0x1000 user_page 0x7000 true false).1 0x1000 user_page 0x7000 true
      false empty_store-IsMapped
      (ap (λ done. (done, (map_user_page empty_store 0x1000 user_page 0x7000 true false).1))
        map_user_run)

-- Pages below 64 KiB are there, and only the first can be written.
abbrev few_pages : ℕ → Bool × PageInfo
few_pages page = (
  true,
  record {
    present = page / 65536 == 0;
    user = true;
    writable = page == 0;
    executable = false;
    physical = page;
  },
)

validate_user_range_lem_example :
    (accepted : Bool) × (validate_user_range_with_lookup 0xFF0 32 write (some few_pages)
      ≡ some accepted)
    × ((accepted ≡ true) ↔ IsAccessible few_pages write 0xFF0 32)
validate_user_range_lem_example = validate_user_range_lem few_pages write 0xFF0 32 (omega arith)

-- Every page of the first 2 MiB, the last table at 0x4000 in reverse order.
abbrev user_tables : Tables
user_tables table index =
    if table == 0x1000
    then 0x2007
    else if table == 0x2000
    then 0x3007
    else if table == 0x3000
    then 0x4007
    else (511 - index) * 4096 + 7

copy_from_user_lem_example :
    ((copy_from_user user_tables (λ a. a % 256) 0x1000 0xFF0 32
        ≡ some (true, bytes_mapped user_tables (λ a. a % 256) 0x1000 0xFF0 32))
      × IsAccessible (query_page user_tables 0x1000) read 0xFF0 32)
    ⊎ ((copy_from_user user_tables (λ a. a % 256) 0x1000 0xFF0 32 ≡ some (false, []))
        × (IsAccessible (query_page user_tables 0x1000) read 0xFF0 32 → ⊥))
unfolding is_page_aligned
copy_from_user_lem_example =
    copy_from_user_lem user_tables (λ a. a % 256) 0x1000 0xFF0 32 refl (omega arith)
