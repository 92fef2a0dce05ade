-- ===== src/Memory/Heap/Laws.antt =====
-- The heap hands out disjoint blocks, and a checkpoint takes back all that came after it.
use linux95_kernel.Prelude.{
  ℕ, ◌+◌, ◌-◌, ◌%◌, ◌^◌, ◌≤◌, ◌<◌, ◌≡◌, ◌⊎◌, inl, inr, true, false, ◌&&◌, Option, none, some, List,
  [], ◌∷◌, ltb, leb, arith, Bool-cases,
}
use linux95_kernel.Memory.Heap.{Heap, unset, initialize, allocate, checkpoint, rewind, used_bytes}

-- A heap that is set up.
pub record IsValid (h : Heap) : Type 0 where
  pub not_null : 0 < h.start
  pub lower : h.start ≤ h.current
  pub upper : h.current ≤ h.end
  pub small : h.end < 2 ^ 64
  pub start_aligned : h.start % 16 ≡ 0
  pub current_aligned : h.current % 16 ≡ 0
  pub end_aligned : h.end % 16 ≡ 0

-- Either initialize succeeds, and the heap is valid, empty and within the bounds; or it fails, leaves the
-- heap unset, and the start is zero or fewer than 31 bytes lie between the bounds.
pub initialize-IsValid :
    (start end : ℕ)
    → start < 2 ^ 64
    → end < 2 ^ 64
    → (((initialize start end).0 ≡ true)
        × IsValid (initialize start end).1
        × (used_bytes (initialize start end).1 ≡ 0)
        × (start ≤ (initialize start end).1.start)
        × ((initialize start end).1.end ≤ end))
      ⊎ (((initialize start end).0 ≡ false)
          × ((initialize start end).1 ≡ unset)
          × ((start ≡ 0) ⊎ (end < start + 31)))
unfolding initialize used_bytes
initialize-IsValid start end hs he = ground arith

-- What a block of `bytes` bytes from address `a` on is worth.
pub record Block (h : Heap) (bytes a : ℕ) (after : Heap) : Type 0 where
  pub at_current : a ≡ h.current
  pub aligned : a % 16 ≡ 0
  pub in_heap : (h.start ≤ a) × (a + bytes ≤ h.end)
  pub room : (a + bytes ≤ after.current) × (after.current < a + bytes + 16)
  pub same_bounds : (after.start ≡ h.start) × (after.end ≡ h.end)
  pub valid : IsValid after

-- On a valid heap `allocate` fails, changing nothing, for zero bytes and for more than is left; and
-- otherwise returns a 16-byte aligned block inside the heap that starts where the last one ended.
pub allocate_lem :
    (h : Heap) (bytes : ℕ)
    → IsValid h
    → (((allocate h bytes).0 ≡ none)
        × ((allocate h bytes).1 ≡ h)
        × ((bytes ≡ 0) ⊎ (h.end < h.current + bytes)))
      ⊎ ((a : ℕ) × ((allocate h bytes).0 ≡ some a) × Block h bytes a (allocate h bytes).1)
unfolding allocate
allocate_lem h bytes v = elim (Bool-cases (ltb 0 bytes && leb bytes (h.end - h.current))) [
  | inl fits ↦ inr (h.current, ground arith, ground arith)
  | inr refused ↦ inl (ground arith, ground arith, ground arith)
]

-- A caller's allocations in order, with what each returned.
unfoldable pub allocate_all : Heap → List ℕ → List (Option ℕ) × Heap
allocate_all h [] = ([], h)
allocate_all h (bytes ∷ rest) =
    let (block, h') = allocate h bytes in
    let (blocks, h'') = allocate_all h' rest in (block ∷ blocks, h'')

-- The blocks of the given sizes lie one above the other between `lo` and `hi`, each 16-byte aligned.
abbrev pub Stacked : ℕ → ℕ → List ℕ → List (Option ℕ) → Type 0
Stacked lo hi [] blocks = lo ≤ hi
Stacked lo hi (bytes ∷ sizes) [] = ⊥
Stacked lo hi (bytes ∷ sizes) (none ∷ blocks) = Stacked lo hi sizes blocks
Stacked lo hi (bytes ∷ sizes) (some a ∷ blocks) =
    (lo ≤ a) × (a % 16 ≡ 0) × Stacked (a + bytes) hi sizes blocks

Stacked-lower :
    (lo lo' hi : ℕ) (sizes : List ℕ) (blocks : List (Option ℕ))
    → lo ≤ lo'
    → Stacked lo' hi sizes blocks
    → Stacked lo hi sizes blocks
Stacked-lower lo lo' hi [] blocks le s = omega arith
Stacked-lower lo lo' hi (b ∷ sizes) [] le s = s
Stacked-lower lo lo' hi (b ∷ sizes) (none ∷ blocks) le s = Stacked-lower lo lo' hi sizes blocks le s
Stacked-lower lo lo' hi (b ∷ sizes) (some a ∷ blocks) le s = (omega arith, s.1, s.2)

-- What any run of allocations keeps.
pub record Grown (h after : Heap) : Type 0 where
  pub valid : IsValid after
  pub same_start : after.start ≡ h.start
  pub same_end : after.end ≡ h.end
  pub above : h.current ≤ after.current

pub allocate_all-Grown : (h : Heap) (sizes : List ℕ) → IsValid h → Grown h (allocate_all h sizes).1
unfolding allocate_all
allocate_all-Grown h [] v = ground (arith, v)
allocate_all-Grown h (bytes ∷ rest) v = elim (allocate_lem h bytes v) [
  | inl (e, same, why) ↦ let later = allocate_all-Grown h rest v in rw same later
  | inr (a, e, block) ↦
      let later = allocate_all-Grown (allocate h bytes).1 rest block.valid in
      record {
        valid = later.valid;
        same_start = omega (arith, later.same_start, block.same_bounds);
        same_end = omega (arith, later.same_end, block.same_bounds);
        above = omega (arith, later.above, block.room, block.at_current);
      }
]

-- On a valid heap the blocks of any sequence of allocations do not overlap: they are 16-byte aligned and
-- lie one above the other from the heap's current position to its new one.
pub allocate_all-Stacked :
    (h : Heap) (sizes : List ℕ)
    → IsValid h
    → Stacked h.current (allocate_all h sizes).1.current sizes (allocate_all h sizes).0
unfolding allocate_all
allocate_all-Stacked h [] v = omega arith
allocate_all-Stacked h (bytes ∷ rest) v = elim (allocate_lem h bytes v) [
  | inl (e, same, why) ↦ let later = allocate_all-Stacked h rest v in rw (e, same) later
  | inr (a, e, block) ↦
      let later = allocate_all-Stacked (allocate h bytes).1 rest block.valid in
      rw e (
        omega (arith, block.at_current),
        block.aligned,
        Stacked-lower (a + bytes) (allocate h bytes).1.current _ rest _ (omega (arith, block.room))
            later,
      )
]

-- A checkpoint taken on a valid heap can be rewound to after any sequence of allocations, and gives back
-- the heap exactly as it was.
pub rewind-allocate_all :
    (h : Heap) (sizes : List ℕ)
    → IsValid h
    → rewind (allocate_all h sizes).1 (checkpoint h) ≡ (true, h)
unfolding rewind checkpoint
rewind-allocate_all h sizes v =
    let grown = allocate_all-Grown h sizes v in
    ground (arith, grown.valid, grown.same_start, grown.same_end, grown.above)
