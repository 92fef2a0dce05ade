-- ===== src/Memory/PageBitmap/Allocate.antt =====
-- PageBitmap::allocate: the two passes find a free page whenever there is one.
use linux95_kernel.Prelude.{
  ℕ, ◌+◌, ◌-◌, ◌<◌, ◌≡◌, refl, ◌≢◌, inl, inr, ◌⊎◌, true, false, ◌||◌, not, none, some, ltb, leb,
  ◌==◌, if◌then◌else◌, arith, Bool-cases, Option-cases, find_from, find_from-some, find_from-none,
  count_below-pos, count_below-le, ◌∙◌,
}
use linux95_kernel.Memory.PageBitmap.{
  PageBitmap, invalid, is_used, is_null, mark_used, claim, find_free, allocate,
}
use linux95_kernel.Memory.PageBitmap.Invariant.{
  IsValid, free_pages, is_used-mark_used, page_count-mark_used, free_count-mark_used, is_used-lt,
}
use linux95_kernel.Memory.PageBitmap.Operations.{mark_used-IsValid, count_below-none}

-- The hint plays no part in which pages are used.
pub is_used-hint : (b : PageBitmap) (h j : ℕ) → is_used (record b { next_hint = h }) j ≡ is_used b j
unfolding is_used
is_used-hint b h j = refl

free_pages-hint : (b : PageBitmap) (h : ℕ) → free_pages (record b { next_hint = h }) ≡ free_pages b
unfolding is_used
free_pages-hint b h = refl

-- What a successful call leaves behind: page `i`, free before, is the one that changed.
pub record Claimed (b : PageBitmap) (i : ℕ) (after : PageBitmap) : Type 0 where
  pub was_free : is_used b i ≡ false
  pub in_range : i < b.page_count
  pub taken : (j : ℕ) → is_used after j ≡ ((i == j) || is_used b j)
  pub one_fewer : after.free_count + 1 ≡ b.free_count
  pub same_pages : after.page_count ≡ b.page_count
  pub valid : IsValid after

module _ (b : PageBitmap) (v : IsValid b) where
  claim-hint :
      (i : ℕ)
      → (claim b i).1 ≡ record (mark_used b i).1 {
        next_hint = if leb (mark_used b i).1.page_count (i + 1) then 0 else i + 1;
      }
  unfolding claim
  claim-hint i = refl

  claim-IsValid : (i : ℕ) → i < b.page_count → IsValid (claim b i).1
  unfolding claim
  claim-IsValid i lt =
      let kept = mark_used-IsValid b i v in
      let hint : ℕ = if leb (mark_used b i).1.page_count (i + 1) then 0 else i + 1 in
      record {
        backed = kept.backed;
        counted = omega (arith, kept.counted, free_pages-hint (mark_used b i).1 hint);
        hint_in = ground (arith, page_count-mark_used b i);
        small = kept.small;
      }

  claim-Claimed : (i : ℕ) → is_used b i ≡ false → Claimed b i (claim b i).1
  unfolding claim
  claim-Claimed i free =
      let lt : i < b.page_count = is_used-lt b i free in
      let hint : ℕ = if leb (mark_used b i).1.page_count (i + 1) then 0 else i + 1 in
      record {
        was_free = free;
        in_range = lt;
        taken = λ j. is_used-hint (mark_used b i).1 hint j ∙ is_used-mark_used b i v.backed j;
        one_fewer = ground (
          arith,
          free_count-mark_used b i,
          count_below-pos b.page_count (λ j. not (is_used b j)) i lt (ground arith),
          v.counted,
        );
        same_pages = page_count-mark_used b i;
        valid = claim-IsValid i lt;
      }

  find_free-free : (i : ℕ) → find_free b ≡ some i → is_used b i ≡ false
  unfolding find_free
  find_free-free i e =
      elim (Option-cases
        (find_from (b.page_count - b.next_hint) b.next_hint (λ i. not (is_used b i)))) [
          | inl missed ↦
              let hit = find_from-some b.next_hint 0 (λ i. not (is_used b i)) i (ground arith) in
              ground (arith, hit.2)
          | inr (r, found) ↦
              let hit = find_from-some _ _ (λ i. not (is_used b i)) r found in
              let same : r ≡ i = ground arith in rw (← same) (ground (arith, hit.2))
        ]

  -- If both passes miss, every page is used.
  find_free-none : find_free b ≡ none → (i : ℕ) → is_used b i ≡ true
  unfolding find_free
  find_free-none e i = elim (Bool-cases (ltb i b.page_count)) [
    | inr out ↦ elim (Bool-cases (is_used b i)) [
      | inl used ↦ used
      | inr free ↦ absurd (ground (arith, is_used-lt b i free))
    ]
    | inl lt ↦
        elim (Option-cases
          (find_from (b.page_count - b.next_hint) b.next_hint (λ i. not (is_used b i)))) [
            | inr (r, found) ↦ absurd (ground arith)
            | inl missed ↦ elim (Bool-cases (ltb i b.next_hint)) [
              | inl low ↦ ground (
                arith,
                find_from-none b.next_hint 0 (λ i. not (is_used b i)) (ground arith) i (omega arith)
                    (ground arith),
              )
              | inr high ↦ ground (
                arith,
                find_from-none (b.page_count - b.next_hint) b.next_hint (λ i. not (is_used b i))
                    missed i (ground arith) (ground (arith, v.hint_in)),
              )
            ]
          ]
  ]

  not_null : b.free_count ≢ 0 → is_null b ≡ false
  not_null some_free = elim (Option-cases b.storage) [
    | inr (st, e) ↦ ground arith
    | inl e ↦
        let none_at_all : b.page_count ≡ 0 = ground (arith, v.backed) in
        absurd (omega (arith, v.counted, count_below-le b.page_count (λ j. not (is_used b j))))
  ]

  -- On a valid bitmap `allocate` fails, and changes nothing, when the count of free pages is zero.
  -- Otherwise it returns a page that was free, marks that page and no other, counts one free page
  -- fewer, and keeps the bitmap valid.
  pub allocate-Claimed :
      ((b.free_count ≡ 0) × (allocate b ≡ (invalid, b)))
      ⊎ ((b.free_count ≢ 0) × ((allocate b).0 < invalid) × Claimed b (allocate b).0 (allocate b).1)
  unfolding allocate
  allocate-Claimed = elim (Bool-cases (b.free_count == 0)) [
    | inl full ↦ inl (ground arith, ground arith)
    | inr room ↦ elim (Option-cases (find_free b)) [
      | inl missed ↦ absurd (
          ground (
            arith,
            v.counted,
            count_below-none b.page_count (λ j. not (is_used b j))
                λ j lt. ground (arith, find_free-none missed j),
          ))
      | inr (i, found) ↦
          let c = claim-Claimed i (find_free-free i found) in
          let live = not_null (ground arith) in
          rw (found, allocate, live, room)
            (inr (ground arith, ground (arith, c.in_range, v.small), c))
    ]
  ]
