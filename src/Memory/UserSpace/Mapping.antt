-- ===== src/Memory/UserSpace/Mapping.antt =====
-- map_user_page: what it maps into a user's address space, and that it maps nothing else.
use linux95_kernel.Prelude.{ℕ, ◌≡◌, ◌≢◌, refl, Bool, true, some, arith, inl, inr, Option-cases}
use linux95_kernel.Memory.Paging.{Store, invalid_address, page_table, set_page}
use linux95_kernel.Memory.Paging.Mapping.{IsMapped, Mapped, IsPageBits, map_steps}
use linux95_kernel.Memory.UserSpace.{
  make_user_page_flags, map_user_page, user_flags, is_canonical_user_address,
}

flags-IsPageBits :
    (writable executable nxe : Bool) (flags : ℕ)
    → make_user_page_flags writable executable nxe ≡ some flags
    → IsPageBits flags
unfolding make_user_page_flags
flags-IsPageBits writable executable nxe flags made = (ground (arith, made), ground (arith, made))

map_user_page_parts :
    (s s' : Store) (root va physical_address : ℕ) (writable executable : Bool)
    → map_user_page s root va physical_address writable executable ≡ (true, s')
    → let r = page_table user_flags s root va in
      (r.0 ≢ invalid_address)
      × (is_canonical_user_address va ≡ true)
      × (flags : ℕ) × (make_user_page_flags writable executable s.nxe ≡ some flags)
      × (set_page r.1 r.0 va physical_address flags ≡ (true, s'))
unfolding map_user_page
map_user_page_parts s s' root va physical_address writable executable made =
    elim (Option-cases (make_user_page_flags writable executable s.nxe)) [
      | inl refused ↦ absurd (ground (arith, made, refused))
      | inr (flags, e) ↦
          (ground (arith, made, e), ground (arith, made, e), flags, e, ground (arith, made, e))
    ]

-- When the page tables of the address space form a tree below its root, in pages that the allocator
-- counts as used, and map_user_page succeeds: the address is one of the lower half, its page had no
-- translation before, afterwards it translates to the physical page, every other address translates
-- as before, and the tables and the allocator are again as they must be.
pub map_user_page-Mapped :
    (s s' : Store) (root va physical_address : ℕ) (writable executable : Bool)
    → IsMapped root s
    → map_user_page s root va physical_address writable executable ≡ (true, s')
    → Mapped root va physical_address s s' × (is_canonical_user_address va ≡ true)
map_user_page-Mapped s s' root va physical_address writable executable v made =
    let (valid, canonical, flags, bits, set) =
      map_user_page_parts s s' root va physical_address writable executable made in
    let r = page_table user_flags s root va in
    (
      map_steps user_flags flags root va physical_address r.0 s r.1 s' refl
          (flags-IsPageBits writable executable s.nxe flags bits) v refl valid set,
      canonical,
    )
