-- ===== src/Memory/Physical/Setup.antt =====
-- physical::initialize: what holds once the allocator is up.
use linux95_kernel.Prelude.{
  ℕ, ◌+◌, ◌*◌, ◌/◌, ◌^◌, ◌≤◌, ◌<◌, ◌≡◌, refl, ap, ◌∙◌, inl, inr, true, some, List, length, take,
  arith, Option-cases,
}
use linux95_kernel.Memory.Address.{page_size, align_up, saturating_end, bootstrap_hhdm_limit}
use linux95_kernel.Memory.PageBitmap.{PageBitmap, is_used}
use linux95_kernel.Memory.PageBitmap
use linux95_kernel.Memory.PageBitmap.View.{AllBytes}
use linux95_kernel.Memory.PageBitmap.Operations.{
  initialize-IsValid, is_used-initialize, page_count-initialize,
}
use linux95_kernel.Memory.Physical.{
  Physical, BootInfo, E820Entry, build, initialize, reserve_range, free_regions, low_reserved_end,
  maximum_usable_physical_address, find_bitmap_storage, valid_boot_info,
}
use linux95_kernel.Memory.Physical.Storage.{find_bitmap_storage-some, find_bitmap_storage-managed}
use linux95_kernel.Memory.Physical.Invariant.{
  free_regions-SamePlace, reserve_range-SamePlace, IsSound, free_regions-IsSound,
  reserve_range-IsSound, reserve_range-keeps, reserve_range-covers,
}

-- The end of the memory that the allocator manages.
abbrev pub managed_end_of : BootInfo → ℕ
managed_end_of info = align_up (maximum_usable_physical_address info) page_size

-- The bytes of the two bitmaps together.
abbrev pub metadata_of : ℕ → ℕ
metadata_of managed_end = align_up ((managed_end / page_size + 7) / 8) page_size * 2

-- Every address of the range lies in a page that is reserved.
abbrev pub AllReserved : Physical → ℕ → ℕ → Type 0
AllReserved p start end =
    (address : ℕ)
    → start ≤ address
    → address < end
    → is_used p.reserved (address / page_size) ≡ true

module _ (ram : ℕ → List ℕ) (info : BootInfo) (bytes : (a : ℕ) → AllBytes (ram a))
    (room : (a : ℕ) → managed_end_of info / page_size ≤ 8 * length (ram a)) where
  module _ (place : ℕ) (bounded : managed_end_of info ≤ bootstrap_hhdm_limit) where
    fresh : Physical
    fresh = record {
      used = PageBitmap.initialize (some (ram place)) (managed_end_of info / page_size);
      reserved =
          PageBitmap.initialize
            (some (ram (place + align_up ((managed_end_of info / page_size + 7) / 8) page_size)))
            (managed_end_of info / page_size);
      page_count = managed_end_of info / page_size;
      bitmap_physical = place;
      bitmap_bytes = (managed_end_of info / page_size + 7) / 8;
    }

    fresh-IsSound : IsSound fresh
    unfolding fresh
    fresh-IsSound =
        let n = managed_end_of info / page_size in
        let place' = place + align_up ((n + 7) / 8) page_size in
        record {
          used_ok = initialize-IsValid (ram place) n (bytes place) (room place) (omega arith);
          reserved_ok =
              initialize-IsValid (ram place') n (bytes place') (room place') (omega arith);
          used_count = page_count-initialize (ram place) n (bytes place) (room place) (omega arith);
          reserved_count =
              page_count-initialize (ram place') n (bytes place') (room place') (omega arith);
          reserved_used =
              λ j h. is_used-initialize (ram place) n (bytes place) (room place) (omega arith) j;
          managed = omega arith;
        }

    freed : Physical
    unfolding fresh
    freed = free_regions (managed_end_of info) (take info.e820_count info.entries) fresh

    freed-IsSound : IsSound freed
    unfolding freed
    freed-IsSound =
        free_regions-IsSound (managed_end_of info) (take info.e820_count info.entries) fresh
          fresh-IsSound

    build_lem :
        build ram info (managed_end_of info) place
        ≡ reserve_range place
            (metadata_of (managed_end_of info))
            (reserve_range 0 low_reserved_end freed)
    unfolding build freed
    build_lem = refl

    build-IsSound : IsSound (build ram info (managed_end_of info) place)
    build-IsSound =
        rw build_lem (
          reserve_range-IsSound _ _ _
            (reserve_range-IsSound 0 low_reserved_end freed freed-IsSound))

    build-low :
        place < 2 ^ 64 → AllReserved (build ram info (managed_end_of info) place) 0 low_reserved_end
    build-low lt address lo hi = rw build_lem (
        reserve_range-keeps place _ _ (reserve_range-IsSound 0 low_reserved_end freed freed-IsSound)
          lt _
          (reserve_range-covers 0 low_reserved_end freed freed-IsSound (omega arith) address lo
            (below address hi)))
      where
        below : (a : ℕ) → a < low_reserved_end → a < saturating_end 0 low_reserved_end
        below a h = unfold saturating_end in h

    build-metadata :
        place < 2 ^ 64
        → AllReserved
            (build ram info (managed_end_of info) place)
            place
            (saturating_end place (metadata_of (managed_end_of info)))
    build-metadata lt address lo hi = rw build_lem (
        reserve_range-covers place _ _
          (reserve_range-IsSound 0 low_reserved_end freed freed-IsSound) lt address lo hi)

    -- Where the bitmaps are, and for how many pages.
    build-kept :
        let p = build ram info (managed_end_of info) place in
        (p.page_count ≡ managed_end_of info / page_size) × (p.bitmap_physical ≡ place)
    unfolding freed fresh
    build-kept =
        let start =
          free_regions-SamePlace (managed_end_of info) (take info.e820_count info.entries) fresh in
        let low = reserve_range-SamePlace 0 low_reserved_end freed in
        let both =
          reserve_range-SamePlace place (metadata_of (managed_end_of info))
            (reserve_range 0 low_reserved_end freed) in
        rw build_lem (
          both.same_count ∙ low.same_count ∙ start.same_count,
          both.same_bitmaps ∙ low.same_bitmaps ∙ start.same_bitmaps,
        )

saturating_end-fits : (a n : ℕ) → a + n < 2 ^ 64 → saturating_end a n ≡ a + n
unfolding saturating_end
saturating_end-fits a n h = ground arith

-- The state after a successful initialize.
pub record Ready (info : BootInfo) (p : Physical) : Type 0 where
  pub sound : IsSound p
  pub some_free : 0 < p.used.free_count
  pub managed : p.page_count * page_size ≡ managed_end_of info
  pub low_reserved : AllReserved p 0 low_reserved_end
  pub above_low : low_reserved_end ≤ p.bitmap_physical
  pub bitmaps_managed : p.bitmap_physical + metadata_of (managed_end_of info) ≤ managed_end_of info
  pub bitmaps_reserved :
      AllReserved p p.bitmap_physical (p.bitmap_physical + metadata_of (managed_end_of info))

-- When initialize returns true, and the memory at any address holds bytes, enough of them for a
-- bitmap of the managed pages, the invariant holds, some page is free, and the managed pages are
-- exactly those below the end of the highest usable region, rounded up to a page. Every page below
-- 2 MiB is reserved; and the two bitmaps, at the address that the state keeps for them, lie above 2
-- MiB, end within the managed memory, and have all their pages reserved.
pub initialize-Ready :
    (ram : ℕ → List ℕ) (info : BootInfo) (old p : Physical)
    → ((a : ℕ) → AllBytes (ram a))
    → ((a : ℕ) → managed_end_of info / page_size ≤ 8 * length (ram a))
    → initialize ram info old ≡ (true, p)
    → Ready info p
unfolding initialize
initialize-Ready ram info old p bytes room e =
    elim (Option-cases (find_bitmap_storage entries (metadata_of (managed_end_of info)))) [
      | inl missing ↦ absurd (ground arith)
      | inr (place, found) ↦
          let bounded : managed_end_of info ≤ bootstrap_hhdm_limit = ground arith in
          let built : p ≡ build ram info (managed_end_of info) place = ground arith in
          let some_free : 0 < p.used.free_count = ground arith in
          let (low, high) = find_bitmap_storage-some entries _ place found in
          let valid : valid_boot_info info ≡ true = ground arith in
          let (whole, inside) =
            find_bitmap_storage-managed info (metadata_of (managed_end_of info)) place valid
              (ground arith) found in
          let kept = build-kept ram info bytes room place bounded in
          let count : p.page_count ≡ managed_end_of info / page_size =
            ap (λ q. q.page_count) built ∙ kept.0 in
          let here : p.bitmap_physical ≡ place = ap (λ q. q.bitmap_physical) built ∙ kept.1 in
          let end : saturating_end place (metadata_of (managed_end_of info))
              ≡ place + metadata_of (managed_end_of info) =
            saturating_end-fits place _ (omega arith) in
          record {
            sound = rw built (build-IsSound ram info bytes room place bounded);
            some_free = some_free;
            low_reserved = rw built (build-low ram info bytes room place bounded (omega arith));
            managed = ap (λ n. n * page_size) count ∙ whole;
            above_low = omega (arith, here, low);
            bitmaps_managed = omega (arith, here, inside);
            bitmaps_reserved = λ a lo hi. rw built (
                build-metadata ram info bytes room place bounded (omega arith) a
                  (omega (arith, here, lo)) (omega (arith, here, end, hi)));
          }
    ]
  where
    entries : List E820Entry
    entries = take info.e820_count info.entries
