-- ===== src/Memory/UserSpace.antt =====
-- kernel/memory/user_space.cpp and user_space.hpp: address spaces of user processes, and the checks before
-- the kernel touches user memory. Page tables and the store are those of Memory.Paging.
pub mod Mapping
pub mod Ranges
pub mod Copying
use linux95_kernel.Prelude.{
  ℕ, zero, suc, ◌+◌, ◌-◌, ◌*◌, ◌/◌, ◌%◌, ◌^◌, Bool, true, false, ◌||◌, ◌&&◌, not, Option, none,
  some, List, [], ◌∷◌, ◌++◌, ltb, leb, ◌==◌, if◌then◌else◌,
}
use linux95_kernel.Memory.Address.{page_size, uint64_max, is_page_aligned}
use linux95_kernel.Memory.Physical.{free_page}
use linux95_kernel.Memory.Paging.{
  Tables, Store, PageInfo, invalid_address, is_present, is_huge, is_user, address_of, write_entry,
  allocate_table, page_table, set_page, query_page, pml4_index,
}

pub data UserAccess : Type 0 where
  read write execute : UserAccess

abbrev pub user_image_base : ℕ
user_image_base = 0x0000_4000_0000_0000

abbrev pub user_stack_top : ℕ
user_stack_top = 0x0000_7FFF_FFF0_0000

-- The flags: present, user, and as asked for. `none` where the processor cannot forbid execution.
unfoldable pub make_user_page_flags : Bool → Bool → Bool → Option ℕ
make_user_page_flags writable executable nxe_enabled =
    if not executable && not nxe_enabled
    then none
    else some (1 + 4 + (if writable then 2 else 0) + (if executable then 0 else 2 ^ 63))

unfoldable pub is_canonical_user_address : ℕ → Bool
is_canonical_user_address address = ltb address 0x0000_8000_0000_0000

unfoldable pub user_range_arithmetic_valid : ℕ → ℕ → Bool
user_range_arithmetic_valid address length =
    is_canonical_user_address address
    && ((length == 0)
        || leb address (uint64_max - length)
          && is_canonical_user_address ((address + length + (2 ^ 64 - 1)) % 2 ^ 64))

-- The first page and the last.
unfoldable pub user_page_span : ℕ → ℕ → ℕ × ℕ
user_page_span address length =
    let first = address / 4096 * 4096 in
    (first, if length == 0 then first else (address + length + (2 ^ 64 - 1)) % 2 ^ 64 / 4096 * 4096)

unfoldable pub user_page_access_allowed : PageInfo → UserAccess → Bool
user_page_access_allowed page read = page.present && page.user
user_page_access_allowed page write = page.present && page.user && page.writable
user_page_access_allowed page execute = page.present && page.user && page.executable

-- kPagePresent | kPageWritable | kPageUser
abbrev pub user_flags : ℕ
user_flags = 7

abbrev pub kernel_entry : ℕ → ℕ
kernel_entry entry = if is_user entry then entry - 4 else entry

-- `root` is the field root_physical of the address space.
unfoldable pub map_user_page : Store → ℕ → ℕ → ℕ → Bool → Bool → Bool × Store
map_user_page s root virtual_address physical_address writable executable =
    let (pt, s') = page_table user_flags s root virtual_address in
    if (root == invalid_address)
      || not (is_page_aligned virtual_address)
      || not (is_page_aligned physical_address)
      || not (is_canonical_user_address virtual_address)
    then (false, s)
    else elim (make_user_page_flags writable executable s.nxe) [
      | none ↦ (false, s)
      | some flags ↦
          if pt == invalid_address
          then (false, s')
          else set_page s' pt virtual_address physical_address flags
    ]

-- The loop that copies the kernel's entries, `destination[i] = source[i] & ~kUserBit`.
unfoldable pub copy_entries : Tables → ℕ → ℕ → Tables
copy_entries tables source destination table index =
    if table == destination then kernel_entry (tables source index) else tables table index

-- The result, root_physical, and the store. `s.root` is the current root.
unfoldable pub create_user_address_space : Store → Bool × ℕ × Store
create_user_address_space s =
    let (root, s1) = allocate_table s in
    let copied = copy_entries s1.tables s1.root root in
    let image_slot = pml4_index user_image_base in
    let stack_slot = pml4_index user_stack_top in
    let (freed, physical) = free_page s1.physical root in
    if root == invalid_address
    then (false, invalid_address, s1)
    else if is_present (s1.tables s1.root image_slot) || is_present (s1.tables s1.root stack_slot)
    then (false, invalid_address, record s1 { tables = copied; physical = physical })
    else (
      true,
      root,
      record s1 { tables = write_entry (write_entry copied root image_slot 0) root stack_slot 0 },
    )

-- The loop over the entries of a table that is released, on the number of entries left.
unfoldable pub release_entries : (Store → ℕ → Store) → ℕ → ℕ → ℕ → Store → Store
release_entries release table zero index s = s
release_entries release table (suc left) index s =
    let entry = s.tables table index in
    release_entries release table left (index + 1)
      (if is_present entry && not (is_huge entry) then release s (address_of entry) else s)

abbrev pub freed : Store → ℕ → Store
freed s physical_address = record s { physical = (free_page s.physical physical_address).1 }

-- The first argument is the level less one.
unfoldable pub release_table : ℕ → Store → ℕ → Store
release_table zero s physical_address =
    if (physical_address == 0) || (physical_address == invalid_address)
    then s
    else freed s physical_address
release_table (suc below) s physical_address =
    if (physical_address == 0) || (physical_address == invalid_address)
    then s
    else freed (release_entries (release_table below) physical_address 512 0 s) physical_address

unfoldable pub destroy_user_address_space : Store → ℕ → ℕ × Store
destroy_user_address_space s root =
    let image_slot = pml4_index user_image_base in
    let stack_slot = pml4_index user_stack_top in
    let image_entry = s.tables root image_slot in
    let stack_entry = s.tables root stack_slot in
    let s1 = if is_present image_entry then release_table 2 s (address_of image_entry) else s in
    let s2 =
      if is_present stack_entry && not (stack_slot == image_slot)
      then release_table 2 s1 (address_of stack_entry)
      else s1 in
    if (root == invalid_address) || (root == 0) then (root, s) else (invalid_address, freed s2 root)

-- The loop over the pages, on fuel; `none` means that the fuel ran out.
unfoldable pub validate_pages : (ℕ → Bool × PageInfo) → UserAccess → ℕ → ℕ → ℕ → Option Bool
validate_pages lookup access zero page last = none
validate_pages lookup access (suc fuel) page last =
    let rest = validate_pages lookup access fuel ((page + page_size) % 2 ^ 64) last in
    let (found, info) = lookup page in
    if not found || not (user_page_access_allowed info access)
    then some false
    else if page == last
    then some true
    else rest

-- `lookup` with its context; a null pointer is `none`.
unfoldable pub validate_user_range_with_lookup :
    ℕ → ℕ → UserAccess → Option (ℕ → Bool × PageInfo) → Option Bool
validate_user_range_with_lookup address length access none = some false
validate_user_range_with_lookup address length access (some lookup) =
    let (first, last) = user_page_span address length in
    let pages = validate_pages lookup access ((last - first) / page_size + 1) first last in
    if not (user_range_arithmetic_valid address length)
    then some false
    else if length == 0
    then some true
    else pages

unfoldable pub validate_user_range : Tables → ℕ → ℕ → ℕ → UserAccess → Option Bool
validate_user_range tables root address length access =
    validate_user_range_with_lookup address length access (some (query_page tables root))

-- `for (i = 0; i < n; ++i) destination[i] = source[i]`, the source at a physical address.
unfoldable pub bytes_at : (ℕ → ℕ) → ℕ → ℕ → List ℕ
bytes_at memory physical_address zero = []
bytes_at memory physical_address (suc n) =
    memory physical_address ∷ bytes_at memory (physical_address + 1) n

-- The loop over the chunks, on fuel: the result and the bytes written to the destination. A round copies
-- at least one byte, so `remaining` rounds are enough.
unfoldable pub copy_chunks : Tables → (ℕ → ℕ) → ℕ → ℕ → ℕ → ℕ → Bool × List ℕ
copy_chunks tables memory root zero source remaining = (remaining == 0, [])
copy_chunks tables memory root (suc fuel) source remaining =
    let (found, info) = query_page tables root source in
    let offset = source % page_size in
    let chunk = if ltb remaining (page_size - offset) then remaining else page_size - offset in
    let (done, rest) = copy_chunks tables memory root fuel (source + chunk) (remaining - chunk) in
    if remaining == 0
    then (true, [])
    else if not found
    then (false, [])
    else (done, bytes_at memory info.physical chunk ++ rest)

-- The result, and the bytes written. `none` where the range check runs out of fuel.
unfoldable pub copy_from_user : Tables → (ℕ → ℕ) → ℕ → ℕ → ℕ → Option (Bool × List ℕ)
copy_from_user tables memory root source_user length =
    elim (validate_user_range tables root source_user length read) [
      | none ↦ none
      | some true ↦ some (copy_chunks tables memory root length source_user length)
      | some false ↦ some (false, [])
    ]
