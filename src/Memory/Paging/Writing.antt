-- ===== src/Memory/Paging/Writing.antt =====
-- The write of a page's entry: which translations it changes.
use linux95_kernel.Prelude.{
  ℕ, zero, suc, ◌+◌, ◌*◌, ◌/◌, ◌%◌, ◌^◌, ◌<◌, ◌≡◌, ◌≢◌, refl, sym, ap, ◌∙◌, inl, inr, Bool, true,
  false, ◌&&◌, ◌==◌, if◌then◌else◌, arith, Bool-cases,
}
use mathlib.Core.Bool.{false≢true}
use linux95_kernel.Memory.Paging.{
  Tables, Store, invalid_address, is_present, is_huge, address_of, write_entry, pml4_index,
  pdpt_index, pd_index, pt_index,
}
use linux95_kernel.Memory.Paging.Stepping.{Reached, in_use}
use linux95_kernel.Memory.Paging.Trees.{IsTree, Leads-above_table, agrees, walk-Leads}
use linux95_kernel.Memory.Paging.Walks.{index_at, is_leaf, page_at, walk}

-- The number of the page of an address.
abbrev pub page_number : ℕ → ℕ
page_number va = va / 4096 % 2 ^ 36

page_digits :
    (va : ℕ)
    → page_number va
      ≡ pml4_index va * 2 ^ 27 + (pdpt_index va * 2 ^ 18 + (pd_index va * 2 ^ 9 + pt_index va))
page_digits va = omega arith

digits_same :
    (a b c d a' b' c' d' : ℕ)
    → b < 512
    → c < 512
    → d < 512
    → b' < 512
    → c' < 512
    → d' < 512
    → a' * 2 ^ 27 + (b' * 2 ^ 18 + (c' * 2 ^ 9 + d')) ≡ a * 2 ^ 27 + (b * 2 ^ 18 + (c * 2 ^ 9 + d))
    → (a' ≡ a) × (b' ≡ b) × (c' ≡ c) × (d' ≡ d)
digits_same a b c d a' b' c' d' lb lc ld lb' lc' ld' e =
    (omega arith, omega arith, omega arith, omega arith)

digits_sum :
    (a b c d a' b' c' d' : ℕ)
    → (a' ≡ a) × (b' ≡ b) × (c' ≡ c) × (d' ≡ d)
    → a' * 2 ^ 27 + (b' * 2 ^ 18 + (c' * 2 ^ 9 + d')) ≡ a * 2 ^ 27 + (b * 2 ^ 18 + (c * 2 ^ 9 + d))
digits_sum a b c d a' b' c' d' (ea, eb, ec, ed) = omega (arith, ea, eb, ec, ed)

tests_iff : (a b : Bool) → (a ≡ true → b ≡ true) → (b ≡ true → a ≡ true) → a ≡ b
tests_iff a b there back = ground (arith, there, back)

four_tests :
    (a b c d a' b' c' d' : ℕ)
    → ((a' == a) && ((b' == b) && ((c' == c) && true)) && (d' == d)) ≡ true
    → (a' ≡ a) × (b' ≡ b) × (c' ≡ c) × (d' ≡ d)
four_tests a b c d a' b' c' d' h =
    (ground (arith, h), ground (arith, h), ground (arith, h), ground (arith, h))

four_tests_hold :
    (a b c d a' b' c' d' : ℕ)
    → (a' ≡ a) × (b' ≡ b) × (c' ≡ c) × (d' ≡ d)
    → ((a' == a) && ((b' == b) && ((c' == c) && true)) && (d' == d)) ≡ true
four_tests_hold a b c d a' b' c' d' (ea, eb, ec, ed) = ground (arith, ea, eb, ec, ed)

-- The same four entries are the same page.
same_page :
    (va va' : ℕ)
    → (agrees va va' 1 3 && (pt_index va' == pt_index va)) ≡ (page_number va' == page_number va)
unfolding index_at
same_page va va' =
    tests_iff (agrees va va' 1 3 && (pt_index va' == pt_index va))
      (page_number va' == page_number va)
      (λ h.
        let same =
          four_tests (pml4_index va) (pdpt_index va) (pd_index va) (pt_index va) (pml4_index va')
            (pdpt_index va') (pd_index va') (pt_index va') h in
        let e : page_number va' ≡ page_number va =
          page_digits va'
          ∙ digits_sum (pml4_index va) (pdpt_index va) (pd_index va) (pt_index va) (pml4_index va')
              (pdpt_index va') (pd_index va') (pt_index va') same
          ∙ sym (page_digits va) in
        ground (arith, e))
      (λ h.
        let e : page_number va' ≡ page_number va = ground (arith, h) in
        four_tests_hold (pml4_index va) (pdpt_index va) (pd_index va) (pt_index va) (pml4_index va')
          (pdpt_index va') (pd_index va') (pt_index va')
          (digits_same (pml4_index va) (pdpt_index va) (pd_index va) (pt_index va) (pml4_index va')
            (pdpt_index va') (pd_index va') (pt_index va') (omega arith) (omega arith) (omega arith)
            (omega arith) (omega arith) (omega arith) (sym (page_digits va') ∙ e ∙ page_digits va)))

first_true : (a b : Bool) → (a && b) ≡ true → a ≡ true
first_true a b h = ground arith

agrees_self : (va : ℕ) → agrees va va 1 3 ≡ true
agrees_self va =
    let e = same_page va va in
    first_true (agrees va va 1 3) (pt_index va == pt_index va) (e ∙ ground arith)

written_cases :
    (way last : Bool) (new old page from_new from_old : ℕ)
    → new ≡ (if way then from_new else old)
    → old ≡ (if way then from_old else old)
    → from_new ≡ (if last then page else from_old)
    → new ≡ (if way && last then page else old)
written_cases false last new old page from_new from_old n o f = n
written_cases true false new old page from_new from_old n o f = n ∙ f ∙ sym o
written_cases true true new old page from_new from_old n o f = n ∙ f

module _ (s : Store) (root va pt entry : ℕ) (r : Reached va 1 3 pt root s)
    (absent : is_present (s.tables pt (pt_index va)) ≡ false)
    (present : is_present entry ≡ true) where
  abbrev written : Tables
  written = write_entry s.tables pt (pt_index va) entry

  written_elsewhere : (t j : ℕ) → r.shape.level t ≢ 0 → t ≢ pt → written t j ≡ s.tables t j
  unfolding write_entry
  written_elsewhere t j used ne = ground (arith, ne)

  written_there : written pt (pt_index va) ≡ entry
  unfolding write_entry
  written_there = ground arith

  written_other : (j : ℕ) → j ≢ pt_index va → written pt j ≡ s.tables pt j
  unfolding write_entry
  written_other j ne = ground (arith, ne)

  last_level : r.shape.level pt ≡ 1
  last_level =
      (Leads-above_table root s.tables (in_use s) r.shape r.tree va pt 1 3 root r.tree.root_level
        r.way).1

  root_used : r.shape.level root ≢ 0
  root_used = λ e. omega (arith, r.tree.root_level, e)

  root_not_pt : root ≢ pt
  root_not_pt = λ e. omega (arith, r.tree.root_level, last_level, ap r.shape.level e)

  written_child :
      (t j below : ℕ)
      → r.shape.level t ≡ suc below
      → j < 512
      → is_present (written t j) ≡ true
      → is_leaf below (written t j) ≡ false
      → (r.shape.level (address_of (written t j)) ≡ below)
        × (r.shape.up (address_of (written t j)) ≡ (t, j))
  unfolding is_leaf
  written_child t j zero level lt there inner = absurd (false≢true (sym inner))
  written_child t j (suc below) level lt there inner =
      let same : written t j ≡ s.tables t j =
        written_elsewhere t j (omega (arith, level))
          (λ e. omega (arith, level, last_level, ap r.shape.level e)) in
      rw same (
        r.tree.child t j (suc below) level lt (ap is_present (sym same) ∙ there)
          (ap is_huge (sym same) ∙ inner))

  pub written-IsTree : IsTree root written (in_use s) r.shape
  written-IsTree = record {
    root_level = r.tree.root_level;
    child = written_child;
    root_small = λ j lt.
        ap is_huge (written_elsewhere root j root_used root_not_pt) ∙ r.tree.root_small j lt;
    taken = r.tree.taken;
  }

  from_pt :
      (va' : ℕ)
      → walk written 1 pt va' ≡ (
          if pt_index va' == pt_index va
          then address_of entry + va' % 4096
          else walk s.tables 1 pt va')
  unfolding walk is_leaf page_at index_at
  from_pt va' = elim (Bool-cases (pt_index va' == pt_index va)) [
    | inl here ↦
        let e : pt_index va' ≡ pt_index va = ground arith in
        rw (here, e, written_there, present) refl
    | inr there ↦
        let ne : pt_index va' ≢ pt_index va = ground arith in
        rw (there, written_other (pt_index va') ne) refl
  ]

  -- The translations after the entry is written, and before.
  pub walk-written :
      (va' : ℕ)
      → walk written 4 root va' ≡ (
          if page_number va' == page_number va
          then address_of entry + va' % 4096
          else walk s.tables 4 root va')
  walk-written va' =
      let new =
        walk-Leads root s.tables (in_use s) r.shape r.tree written pt written_elsewhere va va' 1 3
          root r.tree.root_level r.way in
      let old =
        walk-Leads root s.tables (in_use s) r.shape r.tree s.tables pt (λ t j l ne. refl) va va' 1 3
          root r.tree.root_level r.way in
      let end = from_pt va' in
      rw⁻¹ (same_page va va') (
        written_cases (agrees va va' 1 3) (pt_index va' == pt_index va) (walk written 4 root va')
          (walk s.tables 4 root va') (address_of entry + va' % 4096) (walk written 1 pt va')
          (walk s.tables 1 pt va') new old end)

  nothing_there : walk s.tables 1 pt va ≡ invalid_address
  unfolding walk index_at
  nothing_there = rw absent refl

  pub unmapped : walk s.tables 4 root va ≡ invalid_address
  unmapped =
      let old =
        walk-Leads root s.tables (in_use s) r.shape r.tree s.tables pt (λ t j l ne. refl) va va 1 3
          root r.tree.root_level r.way in
      (rw (agrees_self va) at old) ∙ nothing_there
