-- ===== src/Memory/Physical/Storage.antt =====
-- Where find_bitmap_storage puts the bitmaps, against the low memory and the memory that is managed.
use linux95_kernel.Prelude.{
  ℕ, ◌+◌, ◌/◌, ◌*◌, ◌≤◌, ◌≡◌, true, some, List, [], ◌∷◌, take, ltb, ◌&&◌, if◌then◌else◌, arith,
}
use linux95_kernel.Memory.Address.{
  page_size, align_down, align_up, saturating_end, bootstrap_hhdm_limit,
}
use linux95_kernel.Memory.Physical.{
  BootInfo, E820Entry, is_usable, valid_boot_info, low_reserved_end, maximum_from,
  maximum_usable_physical_address, find_bitmap_storage, storage_last,
}

-- The place that is found starts above the low memory and holds the bitmaps below 64 GiB.
pub find_bitmap_storage-some :
    (es : List E820Entry) (n place : ℕ)
    → find_bitmap_storage es n ≡ some place
    → (low_reserved_end ≤ place) × (place + n ≤ bootstrap_hhdm_limit)
unfolding find_bitmap_storage
find_bitmap_storage-some [] n place e = absurd (ground arith)
find_bitmap_storage-some (x ∷ es) n place e = ground (arith, find_bitmap_storage-some es n place)

maximum_from-le : (es : List E820Entry) (maximum : ℕ) → maximum ≤ maximum_from maximum es
unfolding maximum_from
maximum_from-le [] maximum = omega arith
maximum_from-le (e ∷ es) maximum =
    let end = saturating_end e.base e.length in
    let more = maximum_from-le es (if is_usable e && ltb maximum end then end else maximum) in
    ground (arith, more)

align_down-le : (value : ℕ) → align_down value page_size ≤ value
unfolding align_down
align_down-le value = ground arith

storage_last-le : (e : E820Entry) → storage_last e ≤ saturating_end e.base e.length
storage_last-le e =
    let down = align_down-le (saturating_end e.base e.length) in ground (arith, down)

-- The bitmaps end by the end of the highest usable region.
find_bitmap_storage-below :
    (es : List E820Entry) (n maximum place : ℕ)
    → find_bitmap_storage es n ≡ some place
    → place + n ≤ maximum_from maximum es
unfolding find_bitmap_storage maximum_from
find_bitmap_storage-below [] n maximum place found = absurd (ground arith)
find_bitmap_storage-below (e ∷ es) n maximum place found =
    let end = saturating_end e.base e.length in
    let raised = if is_usable e && ltb maximum end then end else maximum in
    let last = storage_last-le e in
    let above = maximum_from-le es raised in
    let later = find_bitmap_storage-below es n raised place in
    ground (arith, found, last, above, later)

-- They lie in the memory that the allocator manages, which is whole pages.
pub find_bitmap_storage-managed :
    (info : BootInfo) (n place : ℕ)
    → valid_boot_info info ≡ true
    → maximum_usable_physical_address info ≤ bootstrap_hhdm_limit
    → find_bitmap_storage (take info.e820_count info.entries) n ≡ some place
    → let managed_end = align_up (maximum_usable_physical_address info) page_size in
      (managed_end / page_size * page_size ≡ managed_end) × (place + n ≤ managed_end)
unfolding valid_boot_info maximum_usable_physical_address align_up
find_bitmap_storage-managed info n place valid bounded found =
    let below = find_bitmap_storage-below (take info.e820_count info.entries) n 0 place found in
    (ground (arith, bounded), ground (arith, valid, bounded, below))
