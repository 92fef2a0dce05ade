-- ===== src/Memory/Physical/Invariant.antt =====
-- The allocator's invariant: the two bitmaps cover the same pages, and a reserved page is in use.
use linux95_kernel.Prelude.{
  ℕ, zero, suc, ◌+◌, ◌*◌, ◌/◌, ◌^◌, ◌≤◌, ◌<◌, ◌≡◌, refl, ◌∙◌, inl, inr, true, ◌||◌, ◌&&◌, List, [],
  ◌∷◌, ltb, leb, ◌==◌, if◌then◌else◌, arith, Bool-cases, if_both,
}
use linux95_kernel.Memory.Address.{
  page_size, align_down, align_up, align_page, saturating_end, uint64_max,
}
use linux95_kernel.Memory.PageBitmap.{is_used}
use linux95_kernel.Memory.PageBitmap.Invariant.{
  IsValid, is_used-mark_used, is_used-mark_free, page_count-mark_used, page_count-mark_free,
  is_used-lt,
}
use linux95_kernel.Memory.PageBitmap.Operations.{mark_used-IsValid, mark_free-IsValid}
use linux95_kernel.Memory.Physical.{
  Physical, E820Entry, free_index, reserve_index, each_page, rounds_to, mark_range_free,
  reserve_range, free_regions,
}

-- 64 GiB hold 2^24 pages.
pub record IsSound (p : Physical) : Type 0 where
  pub used_ok : IsValid p.used
  pub reserved_ok : IsValid p.reserved
  pub used_count : p.used.page_count ≡ p.page_count
  pub reserved_count : p.reserved.page_count ≡ p.page_count
  pub reserved_used : (j : ℕ) → is_used p.reserved j ≡ true → is_used p.used j ≡ true
  pub managed : p.page_count ≤ 2 ^ 24

pub free_index-IsSound : (p : Physical) (i : ℕ) → IsSound p → IsSound (free_index p i)
free_index-IsSound p i s = record {
  used_ok = mark_free-IsValid p.used i s.used_ok;
  reserved_ok = mark_free-IsValid p.reserved i s.reserved_ok;
  used_count = page_count-mark_free p.used i ∙ s.used_count;
  reserved_count = page_count-mark_free p.reserved i ∙ s.reserved_count;
  reserved_used = λ j h. ground (
    arith,
    s.reserved_used j,
    s.used_count,
    s.reserved_count,
    is_used-mark_free p.used i s.used_ok.backed j,
    is_used-mark_free p.reserved i s.reserved_ok.backed j,
  );
  managed = s.managed;
}

pub reserve_index-IsSound : (p : Physical) (i : ℕ) → IsSound p → IsSound (reserve_index p i)
reserve_index-IsSound p i s = record {
  used_ok = mark_used-IsValid p.used i s.used_ok;
  reserved_ok = mark_used-IsValid p.reserved i s.reserved_ok;
  used_count = page_count-mark_used p.used i ∙ s.used_count;
  reserved_count = page_count-mark_used p.reserved i ∙ s.reserved_count;
  reserved_used = λ j h. ground (
    arith,
    s.reserved_used j,
    is_used-mark_used p.used i s.used_ok.backed j,
    is_used-mark_used p.reserved i s.reserved_ok.backed j,
  );
  managed = s.managed;
}

each_page-IsSound :
    (body : Physical → ℕ → Physical)
    → ((p : Physical) (i : ℕ) → IsSound p → IsSound (body p i))
    → (rounds address : ℕ) (p : Physical) → IsSound p
    → IsSound (each_page body rounds address p)
unfolding each_page
each_page-IsSound body keep zero address p s = s
each_page-IsSound body keep (suc rounds) address p s =
    each_page-IsSound body keep rounds (address + page_size) (body p (address / page_size))
      (keep p (address / page_size) s)

-- The sweeps below change neither the number of pages nor where the bitmaps are.
pub record SamePlace (p q : Physical) : Type 0 where
  pub same_count : q.page_count ≡ p.page_count
  pub same_bitmaps : q.bitmap_physical ≡ p.bitmap_physical

abbrev unmoved : (p : Physical) → SamePlace p p
unmoved p = record { same_count = refl; same_bitmaps = refl }

each_page-SamePlace :
    (body : Physical → ℕ → Physical)
    → ((p : Physical) (i : ℕ) → SamePlace p (body p i))
    → (rounds address : ℕ) (p : Physical) → SamePlace p (each_page body rounds address p)
unfolding each_page
each_page-SamePlace body keep zero address p = unmoved p
each_page-SamePlace body keep (suc rounds) address p =
    let one = keep p (address / page_size) in
    let rest =
      each_page-SamePlace body keep rounds (address + page_size) (body p (address / page_size)) in
    record {
      same_count = rest.same_count ∙ one.same_count;
      same_bitmaps = rest.same_bitmaps ∙ one.same_bitmaps;
    }

pub mark_range_free-IsSound :
    (start end : ℕ) (p : Physical) → IsSound p → IsSound (mark_range_free start end p)
unfolding mark_range_free
mark_range_free-IsSound start end p s =
    let swept = each_page-IsSound free_index free_index-IsSound (rounds_to start end) start p s in
    elim (Bool-cases (leb end start)) [
      | inl empty ↦ rw empty s
      | inr some_pages ↦ rw some_pages swept
    ]

pub free_regions-IsSound :
    (managed_end : ℕ) (es : List E820Entry) (p : Physical)
    → IsSound p
    → IsSound (free_regions managed_end es p)
unfolding free_regions
free_regions-IsSound managed_end [] p s = s
free_regions-IsSound managed_end (e ∷ rest) p s =
    free_regions-IsSound managed_end rest _
      (if_both IsSound _ p _ s (mark_range_free-IsSound _ _ p s))

pub reserve_range-IsSound :
    (start length : ℕ) (p : Physical) → IsSound p → IsSound (reserve_range start length p)
unfolding reserve_range
reserve_range-IsSound start length p s =
    if_both IsSound _ p _ s
      (if_both IsSound _ p _ s (each_page-IsSound reserve_index reserve_index-IsSound _ _ p s))

mark_range_free-SamePlace :
    (start end : ℕ) (p : Physical) → SamePlace p (mark_range_free start end p)
unfolding mark_range_free
mark_range_free-SamePlace start end p = if_both (SamePlace p) _ p _ (unmoved p) (
    each_page-SamePlace free_index (λ q i. record { same_count = refl; same_bitmaps = refl })
      (rounds_to start end) start p)

pub free_regions-SamePlace :
    (managed_end : ℕ) (es : List E820Entry) (p : Physical)
    → SamePlace p (free_regions managed_end es p)
unfolding free_regions
free_regions-SamePlace managed_end [] p = unmoved p
free_regions-SamePlace managed_end (e ∷ rest) p =
    let one = if_both (SamePlace p) _ p _ (unmoved p) (mark_range_free-SamePlace _ _ p) in
    let later = free_regions-SamePlace managed_end rest _ in
    record {
      same_count = later.same_count ∙ one.same_count;
      same_bitmaps = later.same_bitmaps ∙ one.same_bitmaps;
    }

pub reserve_range-SamePlace :
    (start length : ℕ) (p : Physical) → SamePlace p (reserve_range start length p)
unfolding reserve_range
reserve_range-SamePlace start length p = if_both (SamePlace p) _ p _ (unmoved p) (
    if_both (SamePlace p) _ p _ (unmoved p) (
      each_page-SamePlace reserve_index (λ q i. record { same_count = refl; same_bitmaps = refl }) _
        _ p))

-- A sweep of reserve_index reserves exactly the pages that it passes.
each_page-reserved :
    (rounds address : ℕ) (p : Physical)
    → IsSound p
    → (j : ℕ)
    → is_used (each_page reserve_index rounds address p).reserved j ≡ (
        (leb (address / page_size) j && ltb j (address / page_size + rounds))
        || is_used p.reserved j)
unfolding each_page
each_page-reserved zero address p s j = ground arith
each_page-reserved (suc rounds) address p s j = ground (
  arith,
  each_page-reserved rounds (address + page_size) (reserve_index p (address / page_size))
      (reserve_index-IsSound p (address / page_size) s) j,
  is_used-mark_used p.reserved (address / page_size) s.reserved_ok.backed j,
)

module _ (start length : ℕ) (p : Physical) (s : IsSound p) (lt : start < 2 ^ 64) where
  -- A reserved page stays reserved.
  pub reserve_range-keeps :
      (j : ℕ)
      → is_used p.reserved j ≡ true
      → is_used (reserve_range start length p).reserved j ≡ true
  unfolding reserve_range
  reserve_range-keeps j h =
      let first = align_down start page_size in
      let end = align_up (saturating_end start length) page_size in
      let managed_end = p.page_count * page_size in
      let stop = if ltb managed_end end || (end == uint64_max) then managed_end else end in
      ground (arith, each_page-reserved (rounds_to first stop) first p s j)

  -- The sweep of reserve_range passes every managed page that the range touches.
  reserve_range-inside :
      (address : ℕ)
      → start ≤ address
      → address < saturating_end start length
      → address / page_size < p.page_count
      → is_used (reserve_range start length p).reserved (address / page_size) ≡ true
  unfolding reserve_range saturating_end
  reserve_range-inside address lo hi within =
      let first = align_down start page_size in
      let end = align_up (saturating_end start length) page_size in
      let managed_end = p.page_count * page_size in
      let stop = if ltb managed_end end || (end == uint64_max) then managed_end else end in
      let swept = each_page-reserved (rounds_to first stop) first p s (address / page_size) in
      let sat : saturating_end start length < 2 ^ 64 = ground arith in
      ground
        (arith, swept, align_page start lt, align_page (saturating_end start length) sat, s.managed)

  -- On a state that keeps the invariant, and for a start below 2^64, every page that the range
  -- touches is reserved after reserve_range.
  pub reserve_range-covers :
      (address : ℕ)
      → start ≤ address
      → address < saturating_end start length
      → is_used (reserve_range start length p).reserved (address / page_size) ≡ true
  reserve_range-covers address lo hi = elim (Bool-cases (leb p.page_count (address / page_size))) [
    | inr within ↦ reserve_range-inside address lo hi (ground arith)
    | inl out ↦
        reserve_range-keeps (address / page_size)
          (elim (Bool-cases (is_used p.reserved (address / page_size))) [
            | inl used ↦ used
            | inr free ↦
                absurd (
                  ground
                    (arith, is_used-lt p.reserved (address / page_size) free, s.reserved_count))
          ])
  ]
