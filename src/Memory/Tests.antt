-- ===== src/Memory/Tests.antt =====
-- Runs of the memory components on small inputs, and the theorems at concrete inputs.
use linux95_kernel.Prelude.{
  ℕ, ◌/◌, ◌*◌, ◌<◌, ◌≡◌, ◌≢◌, refl, ◌⊎◌, true, false, none, some, List, [], ◌∷◌, replicate,
  test_bit, set_bit, clear_bit, find_from, zero, suc, ap, arith,
}
use linux95_kernel.Memory.Address.{page_size, align_down, align_up, saturating_end}
use linux95_kernel.Memory.PageBitmap
use linux95_kernel.Memory.PageBitmap.{PageBitmap, invalid, is_used, mark_used, mark_free}
use linux95_kernel.Memory.PageBitmap.View.{AllBytes}
use linux95_kernel.Memory.PageBitmap.Invariant
use linux95_kernel.Memory.PageBitmap.Invariant.{is_used-mark_used, is_used-mark_free}
use linux95_kernel.Memory.PageBitmap.Operations.{
  mark_free-IsValid, initialize-IsValid, page_count-initialize,
}
use linux95_kernel.Memory.PageBitmap.Allocate.{Claimed, allocate-Claimed}
use linux95_kernel.Memory.Physical
use linux95_kernel.Memory.Physical.{
  E820Entry, BootInfo, Physical, invalid_physical_address, unset, low_reserved_end, build,
  reserve_range, allocate_page, free_page, free_regions,
}
use linux95_kernel.Memory.Physical.Invariant.{IsSound, free_index-IsSound}
use linux95_kernel.Memory.Physical.Setup.{managed_end_of, Ready, initialize-Ready}
use linux95_kernel.Memory.Physical.Pages.{
  HandedOut, Freed, can_free, allocate_page_lem, free_page_lem,
}
use linux95_kernel.Memory.Physical.History.{
  Request, take, give, serve_all, IsFaithful, serve_all-IsFaithful,
}
use linux95_kernel.Memory.Heap
use linux95_kernel.Memory.Heap.{Heap, allocate, checkpoint, rewind}
use linux95_kernel.Memory.Heap.Laws.{
  IsValid, allocate_all, Stacked, allocate_all-Stacked, rewind-allocate_all,
}

-- A bitmap of ten pages in two bytes, of which pages 3 and 8 are freed.
abbrev full_map : PageBitmap
full_map = PageBitmap.initialize (some (0 ∷ 0 ∷ [])) 10

abbrev one_free : PageBitmap
one_free = (mark_free full_map 3).1

abbrev two_free : PageBitmap
two_free = (mark_free one_free 8).1

full_map-IsValid : Invariant.IsValid full_map
full_map-IsValid = initialize-IsValid (0 ∷ 0 ∷ []) 10 (omega arith) (omega arith) (omega arith)

one_free-IsValid : Invariant.IsValid one_free
one_free-IsValid = mark_free-IsValid full_map 3 full_map-IsValid

two_free-IsValid : Invariant.IsValid two_free
two_free-IsValid = mark_free-IsValid one_free 8 one_free-IsValid

allocate-Claimed_example :
    ((two_free.free_count ≡ 0) × (PageBitmap.allocate two_free ≡ (invalid, two_free)))
    ⊎ ((two_free.free_count ≢ 0)
        × ((PageBitmap.allocate two_free).0 < invalid)
        × Claimed two_free (PageBitmap.allocate two_free).0 (PageBitmap.allocate two_free).1)
allocate-Claimed_example = allocate-Claimed two_free two_free-IsValid

-- The page that is found.
allocate_run : (PageBitmap.allocate two_free).0 ≡ 3
unfolding PageBitmap.allocate PageBitmap.claim PageBitmap.find_free PageBitmap.initialize is_used
    mark_used mark_free PageBitmap.bit_at test_bit find_from set_bit clear_bit
allocate_run = refl

-- An allocator of ten pages that are all reserved, and the same with page 3 freed.
abbrev pub reserved_all : Physical
reserved_all = record {
  used = full_map;
  reserved = full_map;
  page_count = 10;
  bitmap_physical = 0x1000;
  bitmap_bytes = 2;
}

reserved_all-IsSound : IsSound reserved_all
reserved_all-IsSound =
    let pages = page_count-initialize (0 ∷ 0 ∷ []) 10 (omega arith) (omega arith) (omega arith) in
    record {
      used_ok = full_map-IsValid;
      reserved_ok = full_map-IsValid;
      used_count = pages;
      reserved_count = pages;
      reserved_used = λ j h. h;
      managed = omega arith;
    }

abbrev pub small : Physical
small = Physical.free_index reserved_all 3

pub small-IsSound : IsSound small
small-IsSound = free_index-IsSound reserved_all 3 reserved_all-IsSound

allocate_page_lem_example :
    ((small.used.free_count ≡ 0) × (allocate_page small ≡ some (invalid_physical_address, small)))
    ⊎ ((i : ℕ) × (after : Physical) × (allocate_page small ≡ some (i * page_size, after))
        × HandedOut small i after)
allocate_page_lem_example = allocate_page_lem small small-IsSound

free_page_lem_example :
    ((can_free small 0x5000 ≡ true)
      × ((free_page small 0x5000).0 ≡ true)
      × Freed small (0x5000 / page_size) (free_page small 0x5000).1)
    ⊎ ((can_free small 0x5000 ≡ false) × (free_page small 0x5000 ≡ (false, small)))
free_page_lem_example = free_page_lem small small-IsSound 0x5000

abbrev requests : List Request
requests = take ∷ take ∷ give 0x3000 ∷ take ∷ []

serve_all-IsFaithful_example :
    IsFaithful (serve_all small [] requests).0 (serve_all small [] requests).1
serve_all-IsFaithful_example =
    serve_all-IsFaithful small [] requests
      (record { sound = small-IsSound; all_held = tt; distinct = tt })

-- A machine whose one usable region is the 16 KiB from 2 MiB on.
abbrev info : BootInfo
info = record {
  magic = 0x4C39_3542;
  e820_count = 1;
  e820_address = 0x9000;
  entries = record { base = 0x20_0000; length = 0x4000; kind = 1 } ∷ [];
}

abbrev ram : ℕ → List ℕ
ram address = replicate 65 0

zeros-AllBytes : (n : ℕ) → AllBytes (replicate n 0)
zeros-AllBytes zero = tt
zeros-AllBytes (suc n) = (omega arith, zeros-AllBytes n)

managed : managed_end_of info ≡ 0x20_4000
unfolding align_up Physical.maximum_usable_physical_address Physical.maximum_from
    Physical.valid_boot_info saturating_end
managed = refl

abbrev ready_state : Physical
ready_state = (Physical.initialize ram info unset).1

initialize_run : (Physical.initialize ram info unset).0 ≡ true
unfolding Physical.initialize Physical.build Physical.maximum_usable_physical_address
    Physical.maximum_from Physical.valid_boot_info Physical.find_bitmap_storage
    Physical.mark_range_free Physical.reserve_range Physical.free_regions Physical.each_page
    PageBitmap.initialize PageBitmap.bit_at is_used mark_used mark_free test_bit set_bit clear_bit
    align_up align_down saturating_end
initialize_run = refl

initialize-Ready_example : Ready info ready_state
initialize-Ready_example =
    initialize-Ready ram info unset ready_state (λ a. zeros-AllBytes 65)
      (λ a. omega (arith, managed)) (ap (λ done. (done, ready_state)) initialize_run)

-- A heap of 256 bytes at 1 MiB.
abbrev heap : Heap
heap = record { start = 0x10_0000; current = 0x10_0000; end = 0x10_0100 }

heap-IsValid : IsValid heap
heap-IsValid = record {
  not_null = omega arith;
  lower = omega arith;
  upper = omega arith;
  small = omega arith;
  start_aligned = refl;
  current_aligned = refl;
  end_aligned = refl;
}

abbrev request : ℕ
request = 40

allocate_all-Stacked_example :
    Stacked 0x10_0000
      (allocate_all heap (40 ∷ 7 ∷ 300 ∷ 16 ∷ [])).1.current
      (40 ∷ 7 ∷ 300 ∷ 16 ∷ [])
      (allocate_all heap (40 ∷ 7 ∷ 300 ∷ 16 ∷ [])).0
allocate_all-Stacked_example = allocate_all-Stacked heap (40 ∷ 7 ∷ 300 ∷ 16 ∷ []) heap-IsValid

-- Three blocks fit, and the third request does not.
allocate_all_run :
    (allocate_all heap (40 ∷ 7 ∷ 300 ∷ 16 ∷ [])).0
    ≡ some 0x10_0000 ∷ some 0x10_0030 ∷ none ∷ some 0x10_0040 ∷ []
unfolding allocate_all allocate Heap.align_up_16
allocate_all_run = refl

rewind-allocate_all_example :
    rewind (allocate_all heap (40 ∷ 7 ∷ [])).1 (checkpoint heap) ≡ (true, heap)
rewind-allocate_all_example = rewind-allocate_all heap (40 ∷ 7 ∷ []) heap-IsValid
