-- ===== src/Memory/Paging.antt =====
-- kernel/memory/paging.cpp and paging.hpp: the four-level page tables. The store gives the entry with an
-- index in the table at a physical address; tables start at page boundaries, so two tables never overlap,
-- and the kernel reaches them through the direct map. `root` is what root_physical() reads from CR3 and
-- `nxe` the bit of EFER. Bits of an entry are quotients and remainders, and `|` of numbers without a
-- common bit is an addition. The invalidation of the processor's cache of translations leaves the store
-- as it is.
pub mod Walks
pub mod Queries
pub mod Trees
pub mod Creating
pub mod Stepping
pub mod Writing
pub mod Mapping
use linux95_kernel.Prelude.{
  ℕ, zero, suc, ◌+◌, ◌-◌, ◌*◌, ◌/◌, ◌%◌, ◌^◌, Bool, true, false, ◌||◌, ◌&&◌, not, none, some, ◌==◌,
  if◌then◌else◌,
}
use linux95_kernel.Memory.Address.{uint64_max, is_page_aligned}
use linux95_kernel.Memory.Physical.{Physical, invalid_physical_address, allocate_page, free_page}

abbrev pub Tables : Type 0
Tables = ℕ → ℕ → ℕ

pub record Store : Type 0 where
  pub tables : Tables
  pub physical : Physical
  pub root : ℕ
  pub nxe : Bool

pub record PageInfo : Type 0 where
  pub present : Bool
  pub user : Bool
  pub writable : Bool
  pub executable : Bool
  pub physical : ℕ

-- kInvalidAddress
abbrev pub invalid_address : ℕ
invalid_address = uint64_max

abbrev pub is_present : ℕ → Bool
is_present entry = entry % 2 == 1

abbrev pub is_writable : ℕ → Bool
is_writable entry = entry / 2 % 2 == 1

abbrev pub is_user : ℕ → Bool
is_user entry = entry / 4 % 2 == 1

abbrev pub is_huge : ℕ → Bool
is_huge entry = entry / 128 % 2 == 1

abbrev pub is_no_execute : ℕ → Bool
is_no_execute entry = entry / 2 ^ 63 % 2 == 1

-- `entry & kAddressMask`, and the masks of pages of 1 GiB and of 2 MiB.
abbrev pub address_of : ℕ → ℕ
address_of entry = entry % 2 ^ 52 / 4096 * 4096

abbrev pub one_gib_address_of : ℕ → ℕ
one_gib_address_of entry = entry % 2 ^ 52 / 2 ^ 30 * 2 ^ 30

abbrev pub two_mib_address_of : ℕ → ℕ
two_mib_address_of entry = entry % 2 ^ 52 / 2 ^ 21 * 2 ^ 21

abbrev pub pml4_index : ℕ → ℕ
pml4_index va = va / 2 ^ 39 % 512

abbrev pub pdpt_index : ℕ → ℕ
pdpt_index va = va / 2 ^ 30 % 512

abbrev pub pd_index : ℕ → ℕ
pd_index va = va / 2 ^ 21 % 512

abbrev pub pt_index : ℕ → ℕ
pt_index va = va / 2 ^ 12 % 512

-- `table[index] = entry`
unfoldable pub write_entry : Tables → ℕ → ℕ → ℕ → Tables
write_entry tables table index entry table' index' =
    if (table' == table) && (index' == index) then entry else tables table' index'

-- The loop that clears the entries of a new table.
unfoldable pub zero_table : Tables → ℕ → Tables
zero_table tables table table' index' = if table' == table then 0 else tables table' index'

-- The allocator's answer. Its loop always ends, so there is no answer without a page or a refusal.
unfoldable pub take_page : Physical → ℕ × Physical
take_page p = elim (allocate_page p) [ none ↦ (invalid_physical_address, p) | some answer ↦ answer ]

unfoldable pub allocate_table : Store → ℕ × Store
allocate_table s =
    let (physical_address, physical) = take_page s.physical in
    if physical_address == invalid_physical_address
    then (invalid_address, record s { physical = physical })
    else (
      physical_address,
      record s { physical = physical; tables = zero_table s.tables physical_address },
    )

-- child_table, and `child` of kernel/memory/user_space.cpp: `flags` are the bits of a new entry, whose
-- table starts at a page boundary.
unfoldable pub child_table : ℕ → Store → ℕ → ℕ → Bool → ℕ × Store
child_table flags s table index create =
    let entry = s.tables table index in
    let (child, s') = allocate_table s in
    if is_present entry
    then (if is_huge entry then (invalid_address, s) else (address_of entry, s))
    else if not create
    then (invalid_address, s)
    else if child == invalid_address
    then (invalid_address, s')
    else (child, record s' { tables = write_entry s'.tables table index (child + flags) })

-- The three steps from the root to the table of a page, which map_page and map_user_page share.
unfoldable pub page_table : ℕ → Store → ℕ → ℕ → ℕ × Store
page_table flags s root va =
    let (pdpt, s1) = child_table flags s root (pml4_index va) true in
    let (pd, s2) = child_table flags s1 pdpt (pdpt_index va) true in
    let (pt, s3) = child_table flags s2 pd (pd_index va) true in
    if pdpt == invalid_address
    then (invalid_address, s1)
    else if pd == invalid_address
    then (invalid_address, s2)
    else (pt, s3)

-- The entry for a page, with `bits` besides its address, unless the page has one.
unfoldable pub set_page : Store → ℕ → ℕ → ℕ → ℕ → Bool × Store
set_page s pt va physical_address bits =
    if is_present (s.tables pt (pt_index va)) then (false, s) else (
      true,
      record s {
        tables = write_entry s.tables pt (pt_index va) (address_of physical_address + bits);
      },
    )

-- kPagePresent | kPageWritable
abbrev pub kernel_flags : ℕ
kernel_flags = 3

-- `flags & allowed`: writable, user, global and no-execute.
abbrev pub allowed_flags : ℕ → ℕ
allowed_flags flags =
    flags / 2 % 2 * 2 + flags / 4 % 2 * 4 + flags / 2 ^ 8 % 2 * 2 ^ 8 + flags / 2 ^ 63 % 2 * 2 ^ 63

unfoldable pub map_page : Store → ℕ → ℕ → ℕ → Bool × Store
map_page s virtual_address physical_address flags =
    let (pt, s') = page_table kernel_flags s s.root virtual_address in
    if not (is_page_aligned virtual_address)
      || not (is_page_aligned physical_address)
      || is_no_execute flags && not s.nxe
    then (false, s)
    else if pt == invalid_address
    then (false, s')
    else set_page s' pt virtual_address physical_address (allowed_flags flags + 1)

unfoldable pub translate : Tables → ℕ → ℕ → ℕ
translate tables root va =
    let pml4e = tables root (pml4_index va) in
    let pdpte = tables (address_of pml4e) (pdpt_index va) in
    let pde = tables (address_of pdpte) (pd_index va) in
    let pte = tables (address_of pde) (pt_index va) in
    if not (is_present pml4e)
    then invalid_address
    else if not (is_present pdpte)
    then invalid_address
    else if is_huge pdpte
    then one_gib_address_of pdpte + va % 2 ^ 30
    else if not (is_present pde)
    then invalid_address
    else if is_huge pde
    then two_mib_address_of pde + va % 2 ^ 21
    else if not (is_present pte)
    then invalid_address
    else address_of pte + va % 2 ^ 12

unfoldable pub is_mapped : Tables → ℕ → ℕ → Bool
is_mapped tables root va = not (translate tables root va == invalid_address)

abbrev pub no_page : PageInfo
no_page = record {
  present = false;
  user = false;
  writable = false;
  executable = false;
  physical = 0;
}

-- The result, and `out`.
unfoldable pub query_page : Tables → ℕ → ℕ → Bool × PageInfo
query_page tables root va =
    let pml4e = tables root (pml4_index va) in
    let user = is_user pml4e in
    let writable = is_writable pml4e in
    let executable = not (is_no_execute pml4e) in
    let pdpte = tables (address_of pml4e) (pdpt_index va) in
    let user' = user && is_user pdpte in
    let writable' = writable && is_writable pdpte in
    let executable' = executable && not (is_no_execute pdpte) in
    let pde = tables (address_of pdpte) (pd_index va) in
    let user'' = user' && is_user pde in
    let writable'' = writable' && is_writable pde in
    let executable'' = executable' && not (is_no_execute pde) in
    let pte = tables (address_of pde) (pt_index va) in
    if not (is_page_aligned root)
    then (false, no_page)
    else if not (is_present pml4e)
    then (true, no_page)
    else if not (is_present pdpte)
    then (true, no_page)
    else if is_huge pdpte
    then (
      true,
      record {
        present = true;
        user = user';
        writable = writable';
        executable = executable';
        physical = one_gib_address_of pdpte + va % 2 ^ 30;
      },
    )
    else if not (is_present pde)
    then (true, no_page)
    else if is_huge pde
    then (
      true,
      record {
        present = true;
        user = user'';
        writable = writable'';
        executable = executable'';
        physical = two_mib_address_of pde + va % 2 ^ 21;
      },
    )
    else if not (is_present pte)
    then (true, no_page)
    else (
      true,
      record {
        present = true;
        user = user'' && is_user pte;
        writable = writable'' && is_writable pte;
        executable = executable'' && not (is_no_execute pte);
        physical = address_of pte + va % 2 ^ 12;
      },
    )

-- table_empty, on the number of entries left to look at.
unfoldable pub empty_from : Tables → ℕ → ℕ → ℕ → Bool
empty_from tables table zero index = true
empty_from tables table (suc left) index =
    if is_present (tables table index) then false else empty_from tables table left (index + 1)

abbrev pub table_empty : Tables → ℕ → Bool
table_empty tables table = empty_from tables table 512 0

-- What follows the removal of an entry: a table that has none left is taken out of its parent and freed.
-- The first result says whether the loop goes on with the parent, the second is false where free_page
-- refuses the page.
unfoldable pub release_empty : Store → ℕ → ℕ → ℕ → Bool × Bool × Store
release_empty s table parent index =
    let tables = write_entry s.tables parent index 0 in
    let (freed, physical) = free_page s.physical table in
    if table_empty s.tables table
    then (freed, freed, record s { physical = physical; tables = tables })
    else (false, true, s)

unfoldable pub unmap_page : Store → ℕ → Bool × Store
unmap_page s va =
    let pml4e = s.tables s.root (pml4_index va) in
    let pdpt = address_of pml4e in
    let pdpte = s.tables pdpt (pdpt_index va) in
    let pd = address_of pdpte in
    let pde = s.tables pd (pd_index va) in
    let pt = address_of pde in
    let s1 = record s { tables = write_entry s.tables pt (pt_index va) 0 } in
    let (up, done, s2) = release_empty s1 pt pd (pd_index va) in
    let (up', done', s3) = release_empty s2 pd pdpt (pdpt_index va) in
    let (up'', done'', s4) = release_empty s3 pdpt s.root (pml4_index va) in
    if not (is_page_aligned va)
    then (false, s)
    else if not (is_present pml4e) || is_huge pml4e
    then (false, s)
    else if not (is_present pdpte) || is_huge pdpte
    then (false, s)
    else if not (is_present pde) || is_huge pde
    then (false, s)
    else if not (is_present (s.tables pt (pt_index va)))
    then (false, s)
    else if not up
    then (done, s2)
    else if not up'
    then (done', s3)
    else (done'', s4)
