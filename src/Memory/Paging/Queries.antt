-- ===== src/Memory/Paging/Queries.antt =====
-- query_page against translate: the address and the present flag, at one address and over its page.
use linux95_kernel.Prelude.{
  ℕ, ◌+◌, ◌%◌, ◌^◌, ◌<◌, ◌≡◌, refl, sym, ap, ◌∙◌, Bool, true, false, ◌&&◌, not, if◌then◌else◌,
  arith,
}
use mathlib.Core.Bool.{false≢true}
use linux95_kernel.Memory.Address.{is_page_aligned}
use linux95_kernel.Memory.Paging.{
  Tables, PageInfo, no_page, invalid_address, translate, query_page, is_present, is_huge, is_user,
  is_writable, is_no_execute, address_of, one_gib_address_of, two_mib_address_of, pml4_index,
  pdpt_index, pd_index, pt_index,
}

-- The choices that a walk makes, whatever it finds at its ends.
abbrev ending : {A : Type 0} → Bool → Bool → Bool → Bool → Bool → Bool → A → A → A → A → A
ending p4 p3 h3 p2 h2 p1 missing huge large small =
    if not p4
    then missing
    else if not p3
    then missing
    else if h3
    then huge
    else if not p2
    then missing
    else if h2
    then large
    else if not p1
    then missing
    else small

ending_near :
    (p4 p3 h3 p2 h2 p1 : Bool) (missing a b c x y z i : ℕ)
    → ending p4 p3 h3 p2 h2 p1 false true true true ≡ true
    → ending p4 p3 h3 p2 h2 p1 missing (a + (x + i)) (b + (y + i)) (c + (z + i))
      ≡ ending p4 p3 h3 p2 h2 p1 missing (a + x) (b + y) (c + z) + i
ending_near false p3 h3 p2 h2 p1 missing a b c x y z i present = absurd (false≢true present)
ending_near true false h3 p2 h2 p1 missing a b c x y z i present = absurd (false≢true present)
ending_near true true true p2 h2 p1 missing a b c x y z i present = omega arith
ending_near true true false false h2 p1 missing a b c x y z i present = absurd (false≢true present)
ending_near true true false true true p1 missing a b c x y z i present = omega arith
ending_near true true false true false false missing a b c x y z i present =
    absurd (false≢true present)
ending_near true true false true false true missing a b c x y z i present = omega arith

ending_map :
    {A B : Type 0} (f : A → B) (p4 p3 h3 p2 h2 p1 : Bool) (missing huge large small : A)
    → f (ending p4 p3 h3 p2 h2 p1 missing huge large small)
      ≡ ending p4 p3 h3 p2 h2 p1 (f missing) (f huge) (f large) (f small)
ending_map f false p3 h3 p2 h2 p1 missing huge large small = refl
ending_map f true false h3 p2 h2 p1 missing huge large small = refl
ending_map f true true true p2 h2 p1 missing huge large small = refl
ending_map f true true false false h2 p1 missing huge large small = refl
ending_map f true true false true true p1 missing huge large small = refl
ending_map f true true false true false false missing huge large small = refl
ending_map f true true false true false true missing huge large small = refl

-- Where something is there, what is found in its absence does not matter.
ending_there :
    (p4 p3 h3 p2 h2 p1 : Bool) (missing missing' huge large small : ℕ)
    → ending p4 p3 h3 p2 h2 p1 false true true true ≡ true
    → ending p4 p3 h3 p2 h2 p1 missing huge large small
      ≡ ending p4 p3 h3 p2 h2 p1 missing' huge large small
ending_there false p3 h3 p2 h2 p1 missing missing' huge large small present =
    absurd (false≢true present)
ending_there true false h3 p2 h2 p1 missing missing' huge large small present =
    absurd (false≢true present)
ending_there true true true p2 h2 p1 missing missing' huge large small present = refl
ending_there true true false false h2 p1 missing missing' huge large small present =
    absurd (false≢true present)
ending_there true true false true true p1 missing missing' huge large small present = refl
ending_there true true false true false false missing missing' huge large small present =
    absurd (false≢true present)
ending_there true true false true false true missing missing' huge large small present = refl

module _ (tables : Tables) (root : ℕ) (aligned : is_page_aligned root ≡ true) where
  -- The entries that a walk meets, by their bits.
  abbrev e4 : ℕ → ℕ
  e4 va = tables root (pml4_index va)

  abbrev e3 : ℕ → ℕ
  e3 va = tables (address_of (e4 va)) (pdpt_index va)

  abbrev e2 : ℕ → ℕ
  e2 va = tables (address_of (e3 va)) (pd_index va)

  abbrev e1 : ℕ → ℕ
  e1 va = tables (address_of (e2 va)) (pt_index va)

  abbrev end_of : {A : Type 0} → ℕ → A → A → A → A → A
  end_of va =
      ending (is_present (e4 va)) (is_present (e3 va)) (is_huge (e3 va)) (is_present (e2 va))
        (is_huge (e2 va)) (is_present (e1 va))

  -- What is found at the three ends: the rights of all entries on the way, and the address.
  abbrev huge_info : ℕ → PageInfo
  huge_info va = record {
    present = true;
    user = is_user (e4 va) && is_user (e3 va);
    writable = is_writable (e4 va) && is_writable (e3 va);
    executable = not (is_no_execute (e4 va)) && not (is_no_execute (e3 va));
    physical = one_gib_address_of (e3 va) + va % 2 ^ 30;
  }

  abbrev large_info : ℕ → PageInfo
  large_info va = record {
    present = true;
    user = is_user (e4 va) && is_user (e3 va) && is_user (e2 va);
    writable = is_writable (e4 va) && is_writable (e3 va) && is_writable (e2 va);
    executable =
        not (is_no_execute (e4 va)) && not (is_no_execute (e3 va)) && not (is_no_execute (e2 va));
    physical = two_mib_address_of (e2 va) + va % 2 ^ 21;
  }

  abbrev small_info : ℕ → PageInfo
  small_info va = record {
    present = true;
    user = is_user (e4 va) && is_user (e3 va) && is_user (e2 va) && is_user (e1 va);
    writable =
        is_writable (e4 va) && is_writable (e3 va) && is_writable (e2 va) && is_writable (e1 va);
    executable =
        not (is_no_execute (e4 va))
        && not (is_no_execute (e3 va))
        && not (is_no_execute (e2 va))
        && not (is_no_execute (e1 va));
    physical = address_of (e1 va) + va % 2 ^ 12;
  }

  query_page_lem :
      (va : ℕ)
      → query_page tables root va
        ≡ end_of va (true, no_page) (true, huge_info va) (true, large_info va) (true, small_info va)
  unfolding query_page
  query_page_lem va = rw aligned refl

  query_map :
      {B : Type 0} (f : Bool × PageInfo → B) (va : ℕ)
      → f (query_page tables root va)
        ≡ end_of va
            (f (true, no_page))
            (f (true, huge_info va))
            (f (true, large_info va))
            (f (true, small_info va))
  query_map f va =
      ap f (query_page_lem va)
      ∙ ending_map f (is_present (e4 va)) (is_present (e3 va)) (is_huge (e3 va))
          (is_present (e2 va)) (is_huge (e2 va)) (is_present (e1 va)) (true, no_page)
          (true, huge_info va) (true, large_info va) (true, small_info va)

  abbrev pub HasPage : ℕ → Type 0
  HasPage va = (query_page tables root va).1.present ≡ true

  pub found : (va : ℕ) → (query_page tables root va).0 ≡ true
  unfolding query_page
  found va = ground (arith, aligned)

  present-HasPage : (va : ℕ) → HasPage va → end_of va false true true true ≡ true
  present-HasPage va present = sym (query_map (λ r. r.1.present) va) ∙ present

  pub physical_translate :
      (va : ℕ) → HasPage va → (query_page tables root va).1.physical ≡ translate tables root va
  unfolding translate
  physical_translate va present =
      query_map (λ r. r.1.physical) va
      ∙ ending_there (is_present (e4 va)) (is_present (e3 va)) (is_huge (e3 va))
          (is_present (e2 va)) (is_huge (e2 va)) (is_present (e1 va)) 0 invalid_address
          (one_gib_address_of (e3 va) + va % 2 ^ 30) (two_mib_address_of (e2 va) + va % 2 ^ 21)
          (address_of (e1 va) + va % 2 ^ 12) (present-HasPage va present)

  pub translate_near :
      (va i : ℕ)
      → HasPage va
      → va % 4096 + i < 4096
      → translate tables root (va + i) ≡ translate tables root va + i
  unfolding translate
  translate_near va i present near =
      let i4 : pml4_index (va + i) ≡ pml4_index va = omega (arith, near) in
      let i3 : pdpt_index (va + i) ≡ pdpt_index va = omega (arith, near) in
      let i2 : pd_index (va + i) ≡ pd_index va = omega (arith, near) in
      let i1 : pt_index (va + i) ≡ pt_index va = omega (arith, near) in
      let o30 : (va + i) % 2 ^ 30 ≡ va % 2 ^ 30 + i = omega (arith, near) in
      let o21 : (va + i) % 2 ^ 21 ≡ va % 2 ^ 21 + i = omega (arith, near) in
      let o12 : (va + i) % 2 ^ 12 ≡ va % 2 ^ 12 + i = omega (arith, near) in
      rw (i4, i3, i2, i1, o30, o21, o12)
        (ending_near (is_present (e4 va)) (is_present (e3 va)) (is_huge (e3 va))
          (is_present (e2 va)) (is_huge (e2 va)) (is_present (e1 va)) invalid_address
          (one_gib_address_of (e3 va)) (two_mib_address_of (e2 va)) (address_of (e1 va))
          (va % 2 ^ 30) (va % 2 ^ 21) (va % 2 ^ 12) i (present-HasPage va present))

  pub present_near :
      (va i : ℕ)
      → va % 4096 + i < 4096
      → (query_page tables root (va + i)).1.present ≡ (query_page tables root va).1.present
  present_near va i near =
      let i4 : pml4_index (va + i) ≡ pml4_index va = omega (arith, near) in
      let i3 : pdpt_index (va + i) ≡ pdpt_index va = omega (arith, near) in
      let i2 : pd_index (va + i) ≡ pd_index va = omega (arith, near) in
      let i1 : pt_index (va + i) ≡ pt_index va = omega (arith, near) in
      let same : end_of (va + i) false true true true ≡ end_of va false true true true =
        rw (i4, i3, i2, i1) refl in
      query_map (λ r. r.1.present) (va + i) ∙ same ∙ sym (query_map (λ r. r.1.present) va)
