-- ===== src/Memory/Paging/Stepping.antt =====
-- The steps from the root to the table of a page, which make the tables that are missing.
use linux95_kernel.Prelude.{
  ℕ, suc, ◌*◌, ◌/◌, ◌^◌, ◌<◌, ◌≡◌, ◌≢◌, ◌⊎◌, refl, sym, ap, ◌∙◌, inl, inr, Bool, true, false, some,
  ◌==◌, arith, Bool-cases,
}
use mathlib.Core.Bool.{false≢true}
use mathlib.Core.Path.{subst}
use linux95_kernel.Memory.Address.{page_size}
use linux95_kernel.Memory.PageBitmap.{is_used}
use linux95_kernel.Memory.Physical.{Physical, invalid_physical_address, allocate_page}
use linux95_kernel.Memory.Physical.Invariant.{IsSound}
use linux95_kernel.Memory.Physical.Pages.{HandedOut, allocate_page_lem}
use linux95_kernel.Memory.Paging.{
  Store, invalid_address, is_present, is_huge, address_of, take_page, allocate_table, child_table,
  page_table, pml4_index, pdpt_index, pd_index,
}
use linux95_kernel.Memory.Paging.Creating.{
  table_flags, grown, grown_shape, grown-IsTree, walk_grown, Leads-grown,
}
use linux95_kernel.Memory.Paging.Trees.{
  Shape, IsTree, Leads, above, Leads-extend, Leads-above_table, above_shift,
}
use linux95_kernel.Memory.Paging.Walks.{index_at, is_leaf, walk, index_at-lt}

abbrev pub in_use : Store → ℕ → Bool
in_use s i = is_used s.physical.used i

-- The walk to `va` passes through the table `w` of level `m`, and the tables are as they must be.
pub record Reached (va m k w root : ℕ) (s : Store) : Type 0 where
  pub shape : Shape
  pub sound : IsSound s.physical
  pub tree : IsTree root s.tables (in_use s) shape
  pub way : Leads s.tables va w m k root
  pub depth : above m k ≡ 4

taken_as : (p : Physical) (r : ℕ × Physical) → allocate_page p ≡ some r → take_page p ≡ r
unfolding take_page
taken_as p r e = rw (e, take_page) refl

-- A new table is a page that was free.
new_page :
    (p : Physical)
    → IsSound p
    → (take_page p).0 ≢ invalid_physical_address
    → (i : ℕ) × ((take_page p).0 ≡ i * page_size) × HandedOut p i (take_page p).1
new_page p sound valid = elim (allocate_page_lem p sound) [
  | inl (zero_free, e) ↦ absurd (valid (ap (λ r. r.0) (taken_as p (invalid_physical_address, p) e)))
  | inr (i, after, e, handed) ↦
      let taken = taken_as p (i * page_size, after) e in
      (i, ap (λ r. r.0) taken, subst (HandedOut p i) (sym (ap (λ r. r.1) taken)) handed)
]

child_table_cases :
    (flags : ℕ) (s s' : Store) (w i c : ℕ)
    → child_table flags s w i true ≡ (c, s')
    → c ≢ invalid_address
    → ((is_present (s.tables w i) ≡ true)
        × (is_huge (s.tables w i) ≡ false)
        × (c ≡ address_of (s.tables w i))
        × (s' ≡ s))
      ⊎ ((is_present (s.tables w i) ≡ false)
          × (c ≡ (take_page s.physical).0)
          × (s' ≡ record s {
            physical = (take_page s.physical).1;
            tables = grown s.tables c w i flags;
          }))
unfolding child_table allocate_table
child_table_cases flags s s' w i c made valid = ground (arith, made, valid)

-- What one step down gives: the way goes on to the child, and no translation has changed.
pub record Stepped (va m k c root : ℕ) (s s' : Store) : Type 0 where
  pub reached : Reached va m k c root s'
  pub same : (va' : ℕ) → walk s'.tables 4 root va' ≡ walk s.tables 4 root va'

module _ (va m k w root flags : ℕ) (s : Store) (r : Reached va (suc (suc m)) k w root s)
    (good : table_flags flags ≡ true) where
  abbrev here : ℕ
  here = index_at (suc (suc m)) va

  level_here : r.shape.level w ≡ suc (suc m)
  level_here =
      (Leads-above_table root s.tables (in_use s) r.shape r.tree va w (suc (suc m)) k root
        (r.tree.root_level ∙ sym r.depth) r.way).1

  deeper : above (suc m) (suc k) ≡ 4
  deeper = sym (above_shift (suc m) k) ∙ r.depth

  Stepped-old :
      is_present (s.tables w here) ≡ true
      → is_huge (s.tables w here) ≡ false
      → Stepped va (suc m) (suc k) (address_of (s.tables w here)) root s s
  unfolding is_leaf
  Stepped-old present inner = record {
    reached = record {
      shape = r.shape;
      sound = r.sound;
      tree = r.tree;
      way = Leads-extend s.tables va w (suc m) k root r.way present inner;
      depth = deeper;
    };
    same = λ va'. refl;
  }

  module _ (i : ℕ) (after : Physical) (handed : HandedOut s.physical i after)
      (absent : is_present (s.tables w here) ≡ false) where
    fresh : r.shape.level (i * page_size) ≡ 0
    fresh = elim (Bool-cases (r.shape.level (i * page_size) == 0)) [
      | inl none ↦ ground arith
      | inr some_level ↦
          let t = r.tree.taken (i * page_size) (ground arith) in
          let e : i * page_size / 4096 ≡ i = omega arith in
          absurd (false≢true (sym handed.was_free ∙ (rw e at t)))
    ]

    small_page : i * page_size < 2 ^ 52
    small_page = omega (arith, handed.in_range, r.sound.managed)

    Stepped-new :
        Stepped va
          (suc m)
          (suc k)
          (i * page_size)
          root
          s
          (record s { physical = after; tables = grown s.tables (i * page_size) w here flags })
    Stepped-new =
        let a = i * page_size in
        let index = index_at-lt (suc (suc m)) va in
        let more : (t : ℕ) → in_use s t ≡ true → is_used after.used t ≡ true =
          λ t used. let e = handed.taken t in ground (arith, e, used) in
        let at : a / 4096 ≡ i = omega arith in
        let new : is_used after.used (a / 4096) ≡ true =
          let e = handed.taken i in rw at (ground (arith, e)) in
        let tree =
          grown-IsTree root s.tables (in_use s) r.shape r.tree a w here m flags fresh (omega arith)
            small_page level_here index absent good (is_used after.used) more new in
        record {
          reached = record {
            shape = grown_shape r.shape a w here (suc m);
            sound = handed.sound;
            tree = tree;
            way =
                Leads-grown root s.tables (in_use s) r.shape r.tree a w here m flags fresh
                  (omega arith) small_page level_here index absent good va k r.depth r.way refl;
            depth = deeper;
          };
          same = λ va'.
              walk_grown root s.tables (in_use s) r.shape r.tree a w here m flags fresh
                (omega arith) small_page level_here index absent good va k va' r.depth r.way;
        }

  -- child_table, where it succeeds.
  child_table-Stepped :
      (c : ℕ) (s' : Store)
      → child_table flags s w here true ≡ (c, s')
      → c ≢ invalid_address
      → Stepped va (suc m) (suc k) c root s s'
  child_table-Stepped c s' made valid = elim (child_table_cases flags s s' w here c made valid) [
    | inl (present, inner, at, same) ↦ rw (at, same) (Stepped-old present inner)
    | inr (absent, at, result) ↦
        let (i, page, handed) = new_page s.physical r.sound (λ e. valid (at ∙ e)) in
        let there = at ∙ page in
        rw (result, there) (Stepped-new i (take_page s.physical).1 handed absent)
  ]

-- The three steps to the table of a page.
page_table_parts :
    (flags : ℕ) (s s' : Store) (root va pt : ℕ)
    → page_table flags s root va ≡ (pt, s')
    → pt ≢ invalid_address
    → let r1 = child_table flags s root (pml4_index va) true in
      let r2 = child_table flags r1.1 r1.0 (pdpt_index va) true in
      let r3 = child_table flags r2.1 r2.0 (pd_index va) true in
      (r1.0 ≢ invalid_address) × (r2.0 ≢ invalid_address) × (r3 ≡ (pt, s'))
unfolding page_table
page_table_parts flags s s' root va pt made valid =
    (ground (arith, made, valid), ground (arith, made, valid), ground (arith, made, valid))

pub page_table-Stepped :
    (flags : ℕ) (s s' : Store) (root va pt : ℕ)
    → table_flags flags ≡ true
    → Reached va 4 0 root root s
    → page_table flags s root va ≡ (pt, s')
    → pt ≢ invalid_address
    → Stepped va 1 3 pt root s s'
unfolding index_at
page_table-Stepped flags s s' root va pt good r made valid =
    let (some1, some2, last) = page_table_parts flags s s' root va pt made valid in
    let r1 = child_table flags s root (pml4_index va) true in
    let r2 = child_table flags r1.1 r1.0 (pdpt_index va) true in
    let first : Stepped va 3 1 r1.0 root s r1.1 =
      child_table-Stepped va 2 0 root root flags s r good r1.0 r1.1 refl some1 in
    let second : Stepped va 2 2 r2.0 root r1.1 r2.1 =
      child_table-Stepped va 1 1 r1.0 root flags r1.1 first.reached good r2.0 r2.1 refl some2 in
    let third : Stepped va 1 3 pt root r2.1 s' =
      child_table-Stepped va 0 2 r2.0 root flags r2.1 second.reached good pt s' last valid in
    record {
      reached = third.reached;
      same = λ va'. third.same va' ∙ second.same va' ∙ first.same va';
    }
