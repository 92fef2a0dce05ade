-- ===== src/Memory/PageBitmap/Operations.antt =====
-- Each operation of PageBitmap keeps the representation invariant.
use linux95_kernel.Prelude.{
  ℕ, zero, suc, ◌+◌, ◌*◌, ◌/◌, ◌%◌, ◌^◌, ◌≤◌, ◌<◌, ◌≡◌, refl, inl, inr, Bool, true, false, ◌&&◌,
  not, some, List, [], ◌∷◌, ◌++◌, ltb, leb, ◌==◌, get_or, length, replicate, drop, length-append,
  length-replicate, length-drop, arith, Bool-cases, count_below, count_below-on, count_below-ext,
  test_bit_full,
}
use linux95_kernel.Memory.PageBitmap.{PageBitmap, initialize, bit_at, is_used, mark_used, mark_free}
use linux95_kernel.Memory.PageBitmap.View.{AllBytes}
use linux95_kernel.Memory.PageBitmap.Invariant.{
  IsValid, IsBacked, free_pages, is_used-mark_used, is_used-mark_free, mark_used-IsBacked,
  mark_free-IsBacked, page_count-mark_used, page_count-mark_free, free_count-mark_used,
  free_count-mark_free, next_hint-mark_used, next_hint-mark_free, is_used-lt,
}

abbrev is_free : PageBitmap → ℕ → Bool
is_free b i = not (is_used b i)

module _ (b : PageBitmap) (i : ℕ) (v : IsValid b) where
  -- Taking a free page makes one free page fewer.
  pub free_pages-mark_used : is_used b i ≡ false → free_pages b ≡ free_pages (mark_used b i).1 + 1
  free_pages-mark_used free =
      let after = (mark_used b i).1 in
      rw (page_count-mark_used b i) (
        count_below-on b.page_count (is_free after) (is_free b) i (is_used-lt b i free)
          (ground (arith, is_used-mark_used b i v.backed i)) (ground arith)
          (λ j lt ne. ground (arith, is_used-mark_used b i v.backed j)))

  pub free_pages-mark_used_same : is_used b i ≡ true → free_pages (mark_used b i).1 ≡ free_pages b
  free_pages-mark_used_same used = rw (page_count-mark_used b i) (
      count_below-ext b.page_count (is_free (mark_used b i).1) (is_free b) (λ j lt.
        elim (Bool-cases (i == j)) [
          | inl same ↦
              let e : i ≡ j = ground arith in
              let used' : is_used b j ≡ true = rw (← e) used in
              ground (arith, is_used-mark_used b i v.backed j)
          | inr ne ↦ ground (arith, is_used-mark_used b i v.backed j)
        ]))

  -- mark_used keeps a bitmap valid, whatever the page: the storage holds bytes and covers the
  -- pages, the free count is the number of clear bits, and the hint is in range.
  pub mark_used-IsValid : IsValid (mark_used b i).1
  mark_used-IsValid = record {
    backed = mark_used-IsBacked b i v.backed;
    counted = elim (Bool-cases (is_used b i)) [
      | inl used ↦
          ground (arith, free_count-mark_used b i, free_pages-mark_used_same used, v.counted)
      | inr free ↦ ground (arith, free_count-mark_used b i, free_pages-mark_used free, v.counted)
    ];
    hint_in = rw (page_count-mark_used b i) (next_hint-mark_used b i v.hint_in);
    small = rw (page_count-mark_used b i) v.small;
  }

  -- Giving a used page back makes one free page more.
  pub free_pages-mark_free :
      is_used b i ≡ true → i < b.page_count → free_pages (mark_free b i).1 ≡ free_pages b + 1
  free_pages-mark_free used lt =
      let after = (mark_free b i).1 in
      rw (page_count-mark_free b i) (
        count_below-on b.page_count (is_free b) (is_free after) i lt (ground arith)
          (ground (arith, is_used-mark_free b i v.backed i))
          (λ j lt ne. ground (arith, is_used-mark_free b i v.backed j)))

  pub free_pages-mark_free_same :
      (ltb i b.page_count && is_used b i) ≡ false → free_pages (mark_free b i).1 ≡ free_pages b
  free_pages-mark_free_same keeps = rw (page_count-mark_free b i) (
      count_below-ext b.page_count (is_free (mark_free b i).1) (is_free b) (λ j lt.
        elim (Bool-cases (i == j)) [
          | inl same ↦
              let e : i ≡ j = ground arith in
              let keeps' : (ltb j b.page_count && is_used b j) ≡ false = rw (← e) keeps in
              ground (arith, is_used-mark_free b i v.backed j)
          | inr ne ↦ ground (arith, is_used-mark_free b i v.backed j)
        ]))

  -- mark_free keeps a bitmap valid, whatever the page: the storage holds bytes and covers the
  -- pages, the free count is the number of clear bits, and the hint is in range.
  pub mark_free-IsValid : IsValid (mark_free b i).1
  mark_free-IsValid = record {
    backed = mark_free-IsBacked b i v.backed;
    counted = elim (Bool-cases (ltb i b.page_count && is_used b i)) [
      | inl frees ↦ ground (
        arith,
        free_count-mark_free b i v.backed,
        free_pages-mark_free (ground arith) (ground arith),
        v.counted,
      )
      | inr keeps ↦
          ground
            (arith, free_count-mark_free b i v.backed, free_pages-mark_free_same keeps, v.counted)
    ];
    hint_in = rw (page_count-mark_free b i) (next_hint-mark_free b i v.hint_in);
    small = rw (page_count-mark_free b i) v.small;
  }

AllBytes-fill : (n : ℕ) (st : List ℕ) → AllBytes st → AllBytes (replicate n 0xFF ++ st)
AllBytes-fill zero st h = h
AllBytes-fill (suc n) st h = (omega arith, AllBytes-fill n st h)

AllBytes-drop : (n : ℕ) (st : List ℕ) → AllBytes st → AllBytes (drop n st)
AllBytes-drop zero st h = h
AllBytes-drop (suc n) [] h = tt
AllBytes-drop (suc n) (x ∷ st) h = AllBytes-drop n st h.1

get_or-fill : (n k : ℕ) (st : List ℕ) → k < n → get_or (replicate n 0xFF ++ st) k 0 ≡ 0xFF
get_or-fill zero k st h = absurd (omega arith)
get_or-fill (suc n) zero st h = refl
get_or-fill (suc n) (suc k) st h = get_or-fill n k st (omega arith)

pub count_below-none :
    (n : ℕ) (p : ℕ → Bool) → ((j : ℕ) → j < n → p j ≡ false) → count_below n p ≡ 0
unfolding count_below
count_below-none zero p h = refl
count_below-none (suc n) p h =
    ground (arith, h n (omega arith), count_below-none n p (λ j lt. h j (omega arith)))

module _ (st : List ℕ) (n : ℕ) (bytes : AllBytes st) (room : n ≤ 8 * length st)
    (small : n + 7 < 2 ^ 64) where
  -- Every page is used at the start.
  pub is_used-initialize : (j : ℕ) → is_used (initialize (some st) n) j ≡ true
  unfolding is_used initialize bit_at
  is_used-initialize j = elim (Bool-cases (n == 0)) [
    | inl e ↦ ground arith
    | inr ne ↦ elim (Bool-cases (leb n j)) [
      | inl out ↦ ground arith
      | inr lt ↦ ground (
        arith,
        get_or-fill ((n + 7) % 2 ^ 64 / 8) (j / 8) (drop ((n + 7) % 2 ^ 64 / 8) st) (ground arith),
        test_bit_full (j % 8) (omega arith),
      )
    ]
  ]

  pub page_count-initialize : (initialize (some st) n).page_count ≡ n
  unfolding initialize
  page_count-initialize = ground arith

  initialize-IsBacked :
      IsBacked (initialize (some st) n).storage (initialize (some st) n).page_count
  unfolding initialize
  initialize-IsBacked = elim (Bool-cases (n == 0)) [
    | inl e ↦ ground arith
    | inr ne ↦
        let bytes_used : ℕ = (n + 7) % 2 ^ 64 / 8 in
        rw ne (
          AllBytes-fill bytes_used (drop bytes_used st) (AllBytes-drop bytes_used st bytes),
          omega (
            arith,
            length-append (replicate {A = ℕ} bytes_used 0xFF) (drop bytes_used st),
            length-replicate {A = ℕ} bytes_used 0xFF,
            length-drop bytes_used st,
          ),
        )
  ]

  hint-initialize :
      ((initialize (some st) n).next_hint ≡ 0) × ((initialize (some st) n).free_count ≡ 0)
  unfolding initialize
  hint-initialize = ground arith

  pub initialize-IsValid : IsValid (initialize (some st) n)
  initialize-IsValid = record {
    backed = initialize-IsBacked;
    counted = omega (
      arith,
      hint-initialize,
      count_below-none (initialize (some st) n).page_count (is_free (initialize (some st) n))
          (λ j lt. ground (arith, is_used-initialize j)),
    );
    hint_in = omega (arith, hint-initialize);
    small = omega (arith, page_count-initialize);
  }
