-- ===== src/Memory/Physical/Pages.antt =====
-- allocate_page and free_page: the page that is handed out, and the page that comes back.
use linux95_kernel.Prelude.{
  ℕ, suc, ◌+◌, ◌*◌, ◌/◌, ◌%◌, ◌<◌, ◌≡◌, refl, ◌∙◌, inl, inr, ◌⊎◌, Bool, true, false, ◌||◌, ◌&&◌,
  not, some, ltb, ◌==◌, arith, Bool-cases,
}
use native.Mathlib.Numerals.{add-one}
use linux95_kernel.Memory.Address.{page_size, is_page_aligned}
use linux95_kernel.Memory.PageBitmap.{PageBitmap, invalid, is_used, mark_free}
use linux95_kernel.Memory.PageBitmap
use linux95_kernel.Memory.PageBitmap.Invariant.{
  is_used-mark_free, mark_free_result, mark_free_refused, free_count-mark_free,
  page_count-mark_free,
}
use linux95_kernel.Memory.PageBitmap.Operations.{mark_free-IsValid}
use linux95_kernel.Memory.PageBitmap.Allocate.{Claimed, allocate-Claimed}
use linux95_kernel.Memory.Physical.{
  Physical, invalid_physical_address, allocate_loop, allocate_page, free_page,
}
use linux95_kernel.Memory.Physical.Invariant.{IsSound}

-- A page is available if it is in range, not in use and so not reserved.
abbrev pub is_available : Physical → ℕ → Bool
is_available p i = not (is_used p.used i)

-- Page `i` has been handed out: nothing else changed.
pub record HandedOut (p : Physical) (i : ℕ) (after : Physical) : Type 0 where
  pub in_range : i < p.page_count
  pub not_reserved : is_used p.reserved i ≡ false
  pub was_free : is_used p.used i ≡ false
  pub taken : (j : ℕ) → is_used after.used j ≡ ((i == j) || is_used p.used j)
  pub same_reserved : after.reserved ≡ p.reserved
  pub one_fewer : after.used.free_count + 1 ≡ p.used.free_count
  pub sound : IsSound after

-- Page `i` has come back: nothing else changed.
pub record Freed (p : Physical) (i : ℕ) (after : Physical) : Type 0 where
  pub in_range : i < p.page_count
  pub not_reserved : is_used p.reserved i ≡ false
  pub was_used : is_used p.used i ≡ true
  pub given_back : (j : ℕ) → is_used after.used j ≡ (not (i == j) && is_used p.used j)
  pub same_reserved : after.reserved ≡ p.reserved
  pub one_more : after.used.free_count ≡ p.used.free_count + 1
  pub sound : IsSound after

-- The addresses that a caller may give back.
pub can_free : Physical → ℕ → Bool
can_free p address =
    let index = address / page_size in
    (address % page_size == 0)
    && ltb index p.page_count
    && is_used p.used index
    && not (is_used p.reserved index)

pub can_free-aligned : (p : Physical) (a : ℕ) → can_free p a ≡ true → a % page_size ≡ 0
unfolding can_free
can_free-aligned p a h = ground arith

module _ (p : Physical) (s : IsSound p) where
  taken_page-IsSound :
      (i : ℕ) (used : PageBitmap) → Claimed p.used i used → IsSound (record p { used = used })
  taken_page-IsSound i used c = record {
    used_ok = c.valid;
    reserved_ok = s.reserved_ok;
    used_count = c.same_pages ∙ s.used_count;
    reserved_count = s.reserved_count;
    reserved_used = λ j h. ground (arith, c.taken j, s.reserved_used j);
    managed = s.managed;
  }

  loop_full :
      (fuel : ℕ)
      → PageBitmap.allocate p.used ≡ (invalid, p.used)
      → allocate_loop (suc fuel) p ≡ some (invalid_physical_address, p)
  unfolding allocate_loop
  loop_full fuel e = rw e

  loop_hit :
      (fuel : ℕ)
      → (PageBitmap.allocate p.used).0 < invalid
      → is_used p.reserved (PageBitmap.allocate p.used).0 ≡ false
      → allocate_loop (suc fuel) p
        ≡ some (
          (PageBitmap.allocate p.used).0 * page_size,
          record p { used = (PageBitmap.allocate p.used).1 },
        )
  unfolding allocate_loop
  loop_hit fuel lt free = ground arith

  taken_page-HandedOut :
      (i : ℕ) (used : PageBitmap) → Claimed p.used i used → HandedOut p i (record p { used = used })
  taken_page-HandedOut i used c = record {
    in_range = omega (arith, c.in_range, s.used_count);
    not_reserved = ground (arith, c.was_free, s.reserved_used i);
    was_free = c.was_free;
    taken = c.taken;
    same_reserved = refl;
    one_fewer = c.one_fewer;
    sound = taken_page-IsSound i used c;
  }

  -- On a state that keeps the invariant: with no free page allocate_page reports the invalid
  -- address and changes nothing; otherwise it hands out a page that was free and not reserved, and
  -- takes that page and no other. Its loop ends within the fuel.
  pub allocate_page_lem :
      ((p.used.free_count ≡ 0) × (allocate_page p ≡ some (invalid_physical_address, p)))
      ⊎ ((i : ℕ) × (after : Physical) × (allocate_page p ≡ some (i * page_size, after))
          × HandedOut p i after)
  unfolding allocate_page
  allocate_page_lem = elim (allocate-Claimed p.used s.used_ok) [
    | inl (zero_free, e) ↦ inl (zero_free, rw add-one (loop_full p.used.free_count e))
    | inr (some_free, lt, c) ↦
        let handed =
          taken_page-HandedOut (PageBitmap.allocate p.used).0 (PageBitmap.allocate p.used).1 c in
        inr (
          (PageBitmap.allocate p.used).0,
          record p { used = (PageBitmap.allocate p.used).1 },
          rw add-one (loop_hit p.used.free_count lt handed.not_reserved),
          handed,
        )
  ]

  free_page_keeps :
      (index : ℕ)
      → is_used p.reserved index ≡ false
      → IsSound (record p { used = (mark_free p.used index).1 })
  free_page_keeps index kept = record {
    used_ok = mark_free-IsValid p.used index s.used_ok;
    reserved_ok = s.reserved_ok;
    used_count = page_count-mark_free p.used index ∙ s.used_count;
    reserved_count = s.reserved_count;
    reserved_used = λ j h. elim (Bool-cases (index == j)) [
      | inl same ↦
          let e : index ≡ j = ground arith in
          let clash : is_used p.reserved j ≡ false = rw (← e) kept in absurd (ground arith)
      | inr ne ↦
          ground (arith, s.reserved_used j h, is_used-mark_free p.used index s.used_ok.backed j)
    ];
    managed = s.managed;
  }

  -- free_page keeps the invariant, whatever the address.
  pub free_page-IsSound : (address : ℕ) → IsSound (free_page p address).1
  unfolding free_page
  free_page-IsSound address = elim (Bool-cases (is_used p.reserved (address / page_size))) [
    | inl kept ↦ ground (arith, s)
    | inr free ↦ ground (arith, s, free_page_keeps (address / page_size) free)
  ]

  given_page-Freed :
      (i : ℕ)
      → i < p.page_count
      → is_used p.used i ≡ true
      → is_used p.reserved i ≡ false
      → Freed p i (record p { used = (mark_free p.used i).1 })
  given_page-Freed i lt used kept = record {
    in_range = lt;
    not_reserved = kept;
    was_used = used;
    given_back = λ j. ground (arith, is_used-mark_free p.used i s.used_ok.backed j, s.used_count);
    same_reserved = refl;
    one_more = ground (arith, free_count-mark_free p.used i s.used_ok.backed, s.used_count);
    sound = free_page_keeps i kept;
  }

  can_free-Freed :
      (address : ℕ)
      → can_free p address ≡ true
      → (free_page p address
          ≡ (true, record p { used = (mark_free p.used (address / page_size)).1 }))
        × Freed p
            (address / page_size)
            (record p { used = (mark_free p.used (address / page_size)).1 })
  unfolding can_free free_page is_page_aligned
  can_free-Freed address can = (
    ground (arith, mark_free_result p.used (address / page_size) s.used_ok.backed, s.used_count),
    given_page-Freed (address / page_size) (ground arith) (ground arith) (ground arith),
  )

  free_page_refused : (address : ℕ) → can_free p address ≡ false → free_page p address ≡ (false, p)
  unfolding can_free free_page is_page_aligned
  free_page_refused address cannot = ground (arith, mark_free_refused p.used (address / page_size))

  -- On a state that keeps the invariant, free_page succeeds exactly for the page-aligned address of
  -- a managed page that is in use and not reserved (so not for a page that is free already); then
  -- that page alone becomes free and one more free page is counted. Any other call fails and
  -- changes nothing.
  pub free_page_lem :
      (address : ℕ)
      → ((can_free p address ≡ true)
          × ((free_page p address).0 ≡ true)
          × Freed p (address / page_size) (free_page p address).1)
        ⊎ ((can_free p address ≡ false) × (free_page p address ≡ (false, p)))
  free_page_lem address = elim (Bool-cases (can_free p address)) [
    | inl can ↦ let (run, freed) = can_free-Freed address can in rw run (inl (can, refl, freed))
    | inr cannot ↦ inr (cannot, free_page_refused address cannot)
  ]
