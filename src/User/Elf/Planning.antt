-- ===== src/User/Elf/Planning.antt =====
-- The plan of an image that inspect_elf64 accepts: it can be made, and it has the pages of each segment.
use linux95_kernel.Prelude.{
  ℕ, ◌+◌, ◌-◌, ◌*◌, ◌/◌, ◌%◌, ◌^◌, ◌≤◌, ◌<◌, ◌≡◌, refl, true, false, some, List, [], ◌∷◌, map, ltb,
  leb, ◌==◌, arith, All, All-weaken,
}
use linux95_kernel.Memory.Address.{page_size, uint64_max, align_page}
use linux95_kernel.User.Elf.{
  ok, LoadSegment, ElfImageInfo, SegmentPagePlan, user_image_limit, checked_add, expanded,
  inspect_elf64, segment_permissions, plan_segment, plan_segments, build_load_plan,
}
use linux95_kernel.User.Elf.Ranges.{Fits, page_range}
use linux95_kernel.User.Elf.Segments.{inspect_elf64-Loadable}

-- The plan for the pages of a segment.
abbrev pub plan_of : LoadSegment → SegmentPagePlan
plan_of p =
    let (first, last) = page_range p in
    record {
      first_page = first;
      page_count = (last - first) / page_size;
      writable = (segment_permissions p.flags).0;
      executable = (segment_permissions p.flags).1;
      file_offset = p.file_offset;
      file_bytes = p.file_size;
      memory_bytes = p.memory_size;
    }

-- The pages are whole, they hold every byte of the segment, and no page is one too many.
pub record Covers (p : LoadSegment) (plan : SegmentPagePlan) : Type 0 where
  pub aligned : plan.first_page % page_size ≡ 0
  pub start : plan.first_page ≤ p.virtual_address
  pub tight_start : p.virtual_address < plan.first_page + page_size
  pub end : p.virtual_address + p.memory_size ≤ plan.first_page + plan.page_count * page_size
  pub tight_end :
      plan.first_page + plan.page_count * page_size < p.virtual_address + p.memory_size + page_size
  pub in_image : plan.first_page + plan.page_count * page_size ≤ user_image_limit

checked_add-fits : (a b : ℕ) → a + b < 2 ^ 64 → checked_add a b ≡ some (a + b)
unfolding checked_add
checked_add-fits a b fits =
    let room : ltb (uint64_max - a) b ≡ false = ground (arith, fits) in rw (room) refl

expanded-Fits : (size : ℕ) (p : LoadSegment) → Fits size p → expanded p ≡ some (page_range p)
unfolding expanded
expanded-Fits size p f =
    rw (checked_add-fits p.virtual_address p.memory_size f.no_wrap, expanded) refl

plan_segment-Fits : (size : ℕ) (p : LoadSegment) → Fits size p → plan_segment p ≡ some (plan_of p)
unfolding plan_segment
plan_segment-Fits size p f =
    let high = f.high in
    let pages = f.pages in
    let b : ((page_range p).1 == uint64_max) ≡ false = ground (arith, high) in
    let c : leb (page_range p).1 (page_range p).0 ≡ false = ground (arith, pages) in
    rw (expanded-Fits size p f, plan_segment, b, c) refl

plan_of-Covers : (size : ℕ) (p : LoadSegment) → Fits size p → Covers p (plan_of p)
plan_of-Covers size p f =
    let wrap = f.no_wrap in
    let high = f.high in
    let pages = f.pages in
    let first = align_page p.virtual_address (omega (arith, wrap)) in
    let last = align_page (p.virtual_address + p.memory_size) wrap in
    record {
      aligned = first.0;
      start = first.1;
      tight_start = first.2;
      end = ground (arith, high, pages, first, last);
      tight_end = ground (arith, high, pages, first, last);
      in_image = ground (arith, high, pages, first, last);
    }

plan_segments-All :
    (size : ℕ) (segments : List LoadSegment)
    → All (Fits size) segments
    → plan_segments segments ≡ (true, map plan_of segments)
unfolding plan_segments
plan_segments-All size [] all = refl
plan_segments-All size (p ∷ segments) all =
    rw (plan_segment-Fits size p all.0, plan_segments, plan_segments-All size segments all.1) refl

-- For an image that inspect_elf64 accepts, and room for its segments, build_load_plan succeeds with
-- one entry per segment, in order; each starts at a page boundary, covers the segment's memory with
-- whole pages, without a page too many at either end, and stays in the user image.
pub build_load_plan-ok :
    (elf : List ℕ) (size out_capacity : ℕ) (info : ElfImageInfo)
    → inspect_elf64 (some elf) size ≡ (ok, info)
    → info.segment_count ≤ out_capacity
    → (build_load_plan (some elf) size out_capacity
        ≡ (ok, info.segment_count, map plan_of info.segments))
      × All (λ p. Covers p (plan_of p)) info.segments
unfolding build_load_plan
build_load_plan-ok elf size out_capacity info inspected fits =
    let l = inspect_elf64-Loadable elf size info inspected in
    let room : ltb out_capacity info.segment_count ≡ false = ground (arith, fits) in
    let planned = plan_segments-All size info.segments l.fit in
    (
      simp (inspected, build_load_plan, room, planned),
      All-weaken (Fits size) (λ p. Covers p (plan_of p)) info.segments (plan_of-Covers size) l.fit,
    )
