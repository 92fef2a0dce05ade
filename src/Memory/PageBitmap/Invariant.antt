-- ===== src/Memory/PageBitmap/Invariant.antt =====
-- The representation invariant of PageBitmap, and the effect of marking one page on every page.
use linux95_kernel.Prelude.{
  ℕ, ◌+◌, ◌-◌, ◌*◌, ◌/◌, ◌%◌, ◌^◌, ◌≤◌, ◌<◌, ◌≡◌, inl, inr, false, ◌&&◌, ◌||◌, not, Option, none,
  some, List, ltb, ◌==◌, if◌then◌else◌, length, length-set, get_or, arith, Bool-cases, Option-cases,
  count_below, set_bit, clear_bit,
}
use linux95_kernel.Memory.PageBitmap.{PageBitmap, is_used, mark_used, mark_free}
use linux95_kernel.Memory.PageBitmap.View.{
  AllBytes, bit_at-set_bit, bit_at-clear_bit, set_bit-AllBytes, clear_bit-AllBytes,
}

-- The storage holds a bit for each page.
abbrev pub IsBacked : Option (List ℕ) → ℕ → Type 0
IsBacked none n = n ≡ 0
IsBacked (some st) n = AllBytes st × (n ≤ 8 * length st)

-- The number of pages whose bit is clear.
abbrev pub free_pages : PageBitmap → ℕ
free_pages b = count_below b.page_count (λ i. not (is_used b i))

pub record IsValid (b : PageBitmap) : Type 0 where
  pub backed : IsBacked b.storage b.page_count
  pub counted : b.free_count ≡ free_pages b
  pub hint_in : b.next_hint ≤ b.page_count
  pub small : b.page_count < 2 ^ 64

module _ (b : PageBitmap) (i : ℕ) where
  -- Marking a page used changes that page only.
  pub is_used-mark_used :
      IsBacked b.storage b.page_count
      → (j : ℕ) → is_used (mark_used b i).1 j ≡ ((i == j) || is_used b j)
  unfolding is_used mark_used
  is_used-mark_used v j = elim (Option-cases b.storage) [
    | inl null ↦ ground arith
    | inr (st, e) ↦ elim (Bool-cases (ltb i b.page_count)) [
      | inl lt ↦
          let backed : AllBytes st × (b.page_count ≤ 8 * length st) = ground arith in
          ground (arith, bit_at-set_bit st i backed.0 (ground arith) j)
      | inr ge ↦ ground arith
    ]
  ]

  -- Marking a page free changes that page only, and only if there is such a page.
  pub is_used-mark_free :
      IsBacked b.storage b.page_count
      → (j : ℕ)
      → is_used (mark_free b i).1 j
        ≡ (if (i == j) && ltb i b.page_count then false else is_used b j)
  unfolding is_used mark_free
  is_used-mark_free v j = elim (Option-cases b.storage) [
    | inl null ↦ ground arith
    | inr (st, e) ↦ elim (Bool-cases (ltb i b.page_count)) [
      | inl lt ↦
          let backed : AllBytes st × (b.page_count ≤ 8 * length st) = ground arith in
          ground (arith, bit_at-clear_bit st i backed.0 (ground arith) j)
      | inr ge ↦ ground arith
    ]
  ]

  pub mark_used-IsBacked :
      IsBacked b.storage b.page_count
      → IsBacked (mark_used b i).1.storage (mark_used b i).1.page_count
  unfolding mark_used is_used
  mark_used-IsBacked v = elim (Option-cases b.storage) [
    | inl null ↦ ground arith
    | inr (st, e) ↦ elim (Bool-cases (ltb i b.page_count)) [
      | inl lt ↦
          let backed : AllBytes st × (b.page_count ≤ 8 * length st) = ground arith in
          ground (
            arith,
            set_bit-AllBytes st i backed.0 (ground arith),
            length-set st (i / 8) (set_bit (get_or st (i / 8) 0) (i % 8)),
          )
      | inr ge ↦ ground arith
    ]
  ]

  pub mark_free-IsBacked :
      IsBacked b.storage b.page_count
      → IsBacked (mark_free b i).1.storage (mark_free b i).1.page_count
  unfolding mark_free is_used
  mark_free-IsBacked v = elim (Option-cases b.storage) [
    | inl null ↦ ground arith
    | inr (st, e) ↦ elim (Bool-cases (ltb i b.page_count)) [
      | inl lt ↦
          let backed : AllBytes st × (b.page_count ≤ 8 * length st) = ground arith in
          ground (
            arith,
            clear_bit-AllBytes st i backed.0 (ground arith),
            length-set st (i / 8) (clear_bit (get_or st (i / 8) 0) (i % 8)),
          )
      | inr ge ↦ ground arith
    ]
  ]

  pub page_count-mark_used : (mark_used b i).1.page_count ≡ b.page_count
  unfolding mark_used is_used
  page_count-mark_used = ground arith

  pub page_count-mark_free : (mark_free b i).1.page_count ≡ b.page_count
  unfolding mark_free is_used
  page_count-mark_free = ground arith

  -- What the two calls return.
  pub mark_used_result : (mark_used b i).0 ≡ not (is_used b i)
  unfolding mark_used is_used
  mark_used_result = ground arith

  pub mark_free_result :
      IsBacked b.storage b.page_count → (mark_free b i).0 ≡ (ltb i b.page_count && is_used b i)
  unfolding mark_free is_used
  mark_free_result v = ground arith

  pub mark_free_refused : is_used b i ≡ false → mark_free b i ≡ (false, b)
  unfolding mark_free
  mark_free_refused h = ground arith

  pub free_count-mark_used :
      (mark_used b i).1.free_count ≡ (if is_used b i then b.free_count else b.free_count - 1)
  unfolding mark_used is_used
  free_count-mark_used = ground arith

  pub free_count-mark_free :
      IsBacked b.storage b.page_count
      → (mark_free b i).1.free_count
        ≡ (if ltb i b.page_count && is_used b i then b.free_count + 1 else b.free_count)
  unfolding mark_free is_used
  free_count-mark_free v = ground arith

  pub next_hint-mark_used : b.next_hint ≤ b.page_count → (mark_used b i).1.next_hint ≤ b.page_count
  unfolding mark_used is_used
  next_hint-mark_used h = ground arith

  pub next_hint-mark_free : b.next_hint ≤ b.page_count → (mark_free b i).1.next_hint ≤ b.page_count
  unfolding mark_free is_used
  next_hint-mark_free h = ground arith

  pub is_used-lt : is_used b i ≡ false → i < b.page_count
  unfolding is_used
  is_used-lt h = ground arith
