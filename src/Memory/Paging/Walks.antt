-- ===== src/Memory/Paging/Walks.antt =====
-- The walk through the tables, level by level: what `translate` unrolls. Level 4 is the root's.
use linux95_kernel.Prelude.{
  ℕ, zero, suc, ◌+◌, ◌%◌, ◌^◌, ◌<◌, ◌≡◌, refl, Bool, true, false, not, ◌==◌, if◌then◌else◌, arith,
}
use linux95_kernel.Memory.Paging.{
  Tables, invalid_address, is_present, is_huge, address_of, one_gib_address_of, two_mib_address_of,
  pml4_index, pdpt_index, pd_index, pt_index, translate,
}

unfoldable pub index_at : ℕ → ℕ → ℕ
index_at level va =
    if level == 1
    then pt_index va
    else if level == 2
    then pd_index va
    else if level == 3
    then pdpt_index va
    else pml4_index va

-- Where the walk ends: an entry of the last level, or one for a large page. `below` is the level below.
unfoldable pub is_leaf : ℕ → ℕ → Bool
is_leaf zero entry = true
is_leaf (suc below) entry = is_huge entry

unfoldable pub page_at : ℕ → ℕ → ℕ → ℕ
page_at below entry va =
    if below == 1
    then two_mib_address_of entry + va % 2 ^ 21
    else if below == 2
    then one_gib_address_of entry + va % 2 ^ 30
    else address_of entry + va % 2 ^ 12

-- From the table `table` of a level on.
unfoldable pub walk : Tables → ℕ → ℕ → ℕ → ℕ
walk tables zero table va = invalid_address
walk tables (suc below) table va =
    let entry = tables table (index_at (suc below) va) in
    let rest = walk tables below (address_of entry) va in
    if not (is_present entry)
    then invalid_address
    else if is_leaf below entry
    then page_at below entry va
    else rest

pub index_at-lt : (level va : ℕ) → index_at level va < 512
unfolding index_at
index_at-lt level va = ground arith

-- translate is the walk from the root, where the root has no entry for a large page.
pub translate-walk :
    (tables : Tables) (root va : ℕ)
    → is_huge (tables root (pml4_index va)) ≡ false
    → translate tables root va ≡ walk tables 4 root va
unfolding translate walk index_at is_leaf page_at
translate-walk tables root va small = rw small refl
