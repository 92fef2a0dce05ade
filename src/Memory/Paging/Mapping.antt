-- ===== src/Memory/Paging/Mapping.antt =====
-- map_page: what it maps, and that it maps nothing else.
use linux95_kernel.Prelude.{
  ℕ, ◌+◌, ◌%◌, ◌^◌, ◌<◌, ◌≡◌, ◌≢◌, refl, sym, ◌∙◌, Bool, true, false, ◌==◌, if◌then◌else◌, arith,
}
use mathlib.Core.Path.{ap₂}
use linux95_kernel.Memory.Physical.Invariant.{IsSound}
use linux95_kernel.Memory.Paging.{
  Tables, Store, invalid_address, is_present, address_of, write_entry, page_table, set_page,
  map_page, translate, allowed_flags, kernel_flags, pml4_index, pt_index,
}
use linux95_kernel.Memory.Paging.Creating.{table_flags}
use linux95_kernel.Memory.Paging.Stepping.{Reached, page_table-Stepped, in_use}
use linux95_kernel.Memory.Paging.Trees.{Shape, IsTree}
use linux95_kernel.Memory.Paging.Walks.{walk, translate-walk}
use linux95_kernel.Memory.Paging.Writing.{page_number, written-IsTree, walk-written, unmapped}

-- The page tables of a store as the theorems need them.
pub record IsMapped (root : ℕ) (s : Store) : Type 0 where
  pub shape : Shape
  pub sound : IsSound s.physical
  pub tree : IsTree root s.tables (in_use s) shape

-- A page has been mapped: it was not before, and no other translation has changed.
pub record Mapped (root va physical_address : ℕ) (s s' : Store) : Type 0 where
  pub kept : IsMapped root s'
  pub was_free : translate s.tables root va ≡ invalid_address
  pub translation :
      (va' : ℕ)
      → translate s'.tables root va' ≡ (
          if page_number va' == page_number va
          then address_of physical_address + va' % 4096
          else translate s.tables root va')

-- The bits of an entry that are not its address: present, and none of the address.
abbrev pub IsPageBits : ℕ → Type 0
IsPageBits bits = (bits % 2 ≡ 1) × (bits % 2 ^ 52 < 4096)

start-Reached : (va root : ℕ) (s : Store) → IsMapped root s → Reached va 4 0 root root s
start-Reached va root s v = record {
  shape = v.shape;
  sound = v.sound;
  tree = v.tree;
  way = refl;
  depth = refl;
}

-- The steps and the write that map_page and map_user_page make.
address_bits :
    (physical_address bits : ℕ)
    → IsPageBits bits
    → address_of (address_of physical_address + bits) ≡ address_of physical_address
address_bits physical_address bits fit = omega (arith, fit.1)

tree_translate :
    (root : ℕ) (tables : Tables) (used : ℕ → Bool) (g : Shape) (va : ℕ)
    → IsTree root tables used g
    → translate tables root va ≡ walk tables 4 root va
tree_translate root tables used g va v =
    translate-walk tables root va (v.root_small (pml4_index va) (omega arith))

pub map_steps :
    (flags bits root va physical_address pt : ℕ) (s s1 s' : Store)
    → table_flags flags ≡ true
    → IsPageBits bits
    → IsMapped root s
    → page_table flags s root va ≡ (pt, s1)
    → pt ≢ invalid_address
    → set_page s1 pt va physical_address bits ≡ (true, s')
    → Mapped root va physical_address s s'
unfolding set_page
map_steps flags bits root va physical_address pt s s1 s' good fit v made valid set =
    let t = page_table-Stepped flags s s1 root va pt good (start-Reached va root s v) made valid in
    let absent : is_present (s1.tables pt (pt_index va)) ≡ false = ground (arith, set) in
    let entry = address_of physical_address + bits in
    let present : is_present entry ≡ true = ground (arith, fit) in
    let at : address_of entry ≡ address_of physical_address =
      address_bits physical_address bits fit in
    let result : s' ≡ record s1 { tables = write_entry s1.tables pt (pt_index va) entry } =
      ground (arith, set) in
    let tree = written-IsTree s1 root va pt entry t.reached absent present in
    let before : (va' : ℕ) → walk s1.tables 4 root va' ≡ translate s.tables root va' =
      λ va'. t.same va' ∙ sym (tree_translate root s.tables (in_use s) v.shape va' v.tree) in
    rw result (record {
      kept = record { shape = t.reached.shape; sound = t.reached.sound; tree = tree };
      was_free = sym (before va) ∙ unmapped s1 root va pt entry t.reached absent present;
      translation = λ va'.
          tree_translate root (write_entry s1.tables pt (pt_index va) entry) (in_use s1)
            t.reached.shape va' tree
          ∙ walk-written s1 root va pt entry t.reached absent present va'
          ∙ ap₂ (λ a b. if page_number va' == page_number va then a + va' % 4096 else b) at
              (before va');
    })

allowed-IsPageBits : (flags : ℕ) → IsPageBits (allowed_flags flags + 1)
allowed-IsPageBits flags = (omega arith, omega arith)

map_page_parts :
    (s s' : Store) (va physical_address flags : ℕ)
    → map_page s va physical_address flags ≡ (true, s')
    → let r = page_table kernel_flags s s.root va in
      (r.0 ≢ invalid_address)
      × (set_page r.1 r.0 va physical_address (allowed_flags flags + 1) ≡ (true, s'))
unfolding map_page
map_page_parts s s' va physical_address flags made = (ground (arith, made), ground (arith, made))

-- When the page tables form a tree below the root, in pages that the allocator counts as used, and
-- map_page succeeds: the page had no translation before; afterwards its addresses translate to the
-- physical page with their offset, every other address of the 48 bits translates as before, and the
-- tables and the allocator are again as they must be.
pub map_page-Mapped :
    (s s' : Store) (va physical_address flags : ℕ)
    → IsMapped s.root s
    → map_page s va physical_address flags ≡ (true, s')
    → Mapped s.root va physical_address s s'
map_page-Mapped s s' va physical_address flags v made =
    let (valid, set) = map_page_parts s s' va physical_address flags made in
    let r = page_table kernel_flags s s.root va in
    map_steps kernel_flags (allowed_flags flags + 1) s.root va physical_address r.0 s r.1 s' refl
      (allowed-IsPageBits flags) v refl valid set
