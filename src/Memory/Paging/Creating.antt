-- ===== src/Memory/Paging/Creating.antt =====
-- The step that makes a missing table: the tables still form a tree, and nothing is mapped by it.
use linux95_kernel.Prelude.{
  ℕ, zero, suc, ◌+◌, ◌/◌, ◌%◌, ◌^◌, ◌<◌, ◌≡◌, ◌≢◌, ◌⊎◌, refl, sym, ap, ◌∙◌, inl, inr, Bool, true,
  false, ◌&&◌, ltb, ◌==◌, if◌then◌else◌, arith, Bool-cases,
}
use mathlib.Core.Bool.{false≢true}
use mathlib.Core.Path.{subst}
use linux95_kernel.Memory.Paging.{
  Tables, invalid_address, is_present, is_huge, address_of, write_entry, zero_table,
}
use linux95_kernel.Memory.Paging.Trees.{
  Shape, IsTree, Leads, above, above_lem, Off, agrees, walk-Off, walk-Leads, Leads-kept,
  Leads-extend,
}
use linux95_kernel.Memory.Paging.Walks.{index_at, is_leaf, walk, index_at-lt}

-- The tables with a new one at `a`, to which the entry of `w` with index `i` points.
abbrev pub grown : Tables → ℕ → ℕ → ℕ → ℕ → Tables
grown tables a w i flags = write_entry (zero_table tables a) w i (a + flags)

abbrev pub grown_shape : Shape → ℕ → ℕ → ℕ → ℕ → Shape
grown_shape g a w i level = record {
  level = λ t. if t == a then level else g.level t;
  up = λ t. if t == a then (w, i) else g.up t;
}

-- The bits of a new entry: present, for no large page, and below the address.
abbrev pub table_flags : ℕ → Bool
table_flags flags = (flags % 2 == 1) && ltb flags 128

module _ (root : ℕ) (tables : Tables) (used : ℕ → Bool) (g : Shape) (v : IsTree root tables used g)
    (a w i m flags : ℕ) (fresh : g.level a ≡ 0) (aligned : a % 4096 ≡ 0) (low : a < 2 ^ 52)
    (level : g.level w ≡ suc (suc m)) (index : i < 512) (absent : is_present (tables w i) ≡ false)
    (good : table_flags flags ≡ true) where
  abbrev tables' : Tables
  tables' = grown tables a w i flags

  entry_there : tables' w i ≡ a + flags
  unfolding write_entry
  entry_there = ground arith

  entry_other : (j : ℕ) → j ≢ i → tables' w j ≡ tables w j
  unfolding write_entry zero_table
  entry_other j ne = ground (arith, level, fresh)

  new_table : (j : ℕ) → tables' a j ≡ 0
  unfolding write_entry zero_table
  new_table j = ground (arith, level, fresh)

  elsewhere : (t j : ℕ) → g.level t ≢ 0 → t ≢ w → tables' t j ≡ tables t j
  unfolding write_entry zero_table
  elsewhere t j in_use ne = ground (arith, fresh, in_use, ne)

  entry_bits :
      (is_present (a + flags) ≡ true) × (is_huge (a + flags) ≡ false) × (address_of (a + flags) ≡ a)
  entry_bits = (ground arith, ground arith, ground arith)

  entry_inner : is_leaf (suc m) (a + flags) ≡ false
  unfolding is_leaf
  entry_inner = entry_bits.1

  g' : Shape
  g' = grown_shape g a w i (suc m)

  level_old : (t : ℕ) → g.level t ≢ 0 → g'.level t ≡ g.level t
  unfolding g'
  level_old t in_use = ground (arith, fresh, in_use)

  level_new : g'.level a ≡ suc m
  unfolding g'
  level_new = ground arith

  up_old : (t : ℕ) → g.level t ≢ 0 → g'.up t ≡ g.up t
  unfolding g'
  up_old t in_use = let ne : (t == a) ≡ false = ground (arith, fresh, in_use) in rw ne refl

  up_new : g'.up a ≡ (w, i)
  unfolding g'
  up_new = let same : (a == a) ≡ true = ground arith in rw same refl

  level_cases : (t n : ℕ) → g'.level t ≡ suc n → (t ≡ a) ⊎ ((g.level t ≡ suc n) × (t ≢ a))
  unfolding g'
  level_cases t n e = ground (arith, e)

  -- The new entry's child, and every other's.
  child_new :
      (t j below : ℕ)
      → t ≡ w
      → j ≡ i
      → g.level t ≡ suc below
      → (g'.level (address_of (tables' t j)) ≡ below) × (g'.up (address_of (tables' t j)) ≡ (t, j))
  child_new t j below at at' l =
      let n : suc m ≡ below = omega (arith, l, level, ap g.level at) in
      rw (at, at', entry_there, entry_bits.2) (level_new ∙ n, up_new)

  child_old :
      (t j below : ℕ)
      → g.level t ≡ suc below
      → j < 512
      → tables' t j ≡ tables t j
      → is_present (tables t j) ≡ true
      → is_leaf below (tables t j) ≡ false
      → (g'.level (address_of (tables' t j)) ≡ below) × (g'.up (address_of (tables' t j)) ≡ (t, j))
  unfolding is_leaf
  child_old t j zero l lt same present inner = absurd (false≢true (sym inner))
  child_old t j (suc below) l lt same present inner =
      let c = v.child t j (suc below) l lt present inner in
      let in_use : g.level (address_of (tables t j)) ≢ 0 = λ e. omega (arith, c.0, e) in
      rw same (
        level_old (address_of (tables t j)) in_use ∙ c.0,
        up_old (address_of (tables t j)) in_use ∙ c.1,
      )

  same_entry : (t j : ℕ) → t ≢ a → ((t == w) && (j == i)) ≡ false → tables' t j ≡ tables t j
  unfolding write_entry zero_table
  same_entry t j ne other = ground (arith, ne, other)

  child_grown :
      (t j below : ℕ)
      → g'.level t ≡ suc below
      → j < 512
      → is_present (tables' t j) ≡ true
      → is_leaf below (tables' t j) ≡ false
      → (g'.level (address_of (tables' t j)) ≡ below) × (g'.up (address_of (tables' t j)) ≡ (t, j))
  child_grown t j below l lt present inner = elim (level_cases t below l) [
    | inl new ↦
        let e : tables' t j ≡ 0 = ap (λ x. tables' x j) new ∙ new_table j in
        absurd (false≢true (sym (ap is_present e) ∙ present))
    | inr (old, ne) ↦ elim (Bool-cases ((t == w) && (j == i))) [
      | inl here ↦ child_new t j below (ground arith) (ground arith) old
      | inr there ↦
          let same : tables' t j ≡ tables t j = same_entry t j ne there in
          child_old t j below old lt same (ap is_present (sym same) ∙ present)
            (ap (is_leaf below) (sym same) ∙ inner)
    ]
  ]

  root_in_use : g.level root ≢ 0
  root_in_use = λ e. omega (arith, v.root_level, e)

  root_small_grown : (j : ℕ) → j < 512 → is_huge (tables' root j) ≡ false
  root_small_grown j lt = elim (Bool-cases ((root == w) && (j == i))) [
    | inl here ↦
        let at : root ≡ w = ground arith in
        let at' : j ≡ i = ground arith in rw (at, at', entry_there) entry_bits.1
    | inr there ↦
        rw (same_entry root j (λ e. omega (arith, fresh, ap g.level e, v.root_level)) there)
          (v.root_small j lt)
  ]

  in_use_cases : (t : ℕ) → g'.level t ≢ 0 → (t ≡ a) ⊎ (g.level t ≢ 0)
  unfolding g'
  in_use_cases t in_use = ground (arith, in_use)

  pub grown-IsTree :
      (used' : ℕ → Bool)
      → ((t : ℕ) → used t ≡ true → used' t ≡ true)
      → used' (a / 4096) ≡ true
      → IsTree root tables' used' (grown_shape g a w i (suc m))
  unfolding g'
  grown-IsTree used' more new = record {
    root_level = level_old root root_in_use ∙ v.root_level;
    child = child_grown;
    root_small = root_small_grown;
    taken = λ t in_use. elim (in_use_cases t in_use) [
      | inl at ↦ ap (λ x. used' (x / 4096)) at ∙ new
      | inr old ↦ more (t / 4096) (v.taken t old)
    ];
  }

  empty_walk : (n va : ℕ) → walk tables' (suc n) a va ≡ invalid_address
  unfolding walk
  empty_walk n va = rw (new_table (index_at (suc n) va)) refl

  lower-Off : (c : ℕ) → g.level c ≡ suc m → Off root tables used g v w c
  lower-Off c l k at = let a = above_lem (g.level w) k in absurd (omega (arith, a, at, l, level))

  same_below :
      (va j : ℕ)
      → j < 512
      → j ≡ index_at (suc (suc m)) va
      → j ≢ i
      → walk tables' (suc (suc m)) w va ≡ walk tables (suc (suc m)) w va
  unfolding walk
  same_below va j lt at ne =
      let entry = entry_other j ne in
      elim (Bool-cases (is_present (tables w j))) [
        | inr no_entry ↦ rw⁻¹ at (rw (entry, no_entry) refl)
        | inl present ↦ elim (Bool-cases (is_leaf (suc m) (tables w j))) [
          | inl leaf ↦ rw⁻¹ at (rw (entry, present, leaf) refl)
          | inr inner ↦
              let c = v.child w j (suc m) level lt present inner in
              rw⁻¹ at (
                rw (entry, present, inner)
                  (walk-Off root tables used g v tables' w elsewhere (suc m)
                    (address_of (tables w j)) va c.0 (lower-Off (address_of (tables w j)) c.0)))
        ]
      ]

  -- From `w` on no walk ends anywhere else than before.
  walk_from_w : (va : ℕ) → walk tables' (suc (suc m)) w va ≡ walk tables (suc (suc m)) w va
  unfolding walk is_leaf
  walk_from_w va = elim (Bool-cases (index_at (suc (suc m)) va == i)) [
    | inl here ↦
        let at : index_at (suc (suc m)) va ≡ i = ground arith in
        rw (at, entry_there, entry_bits.0, entry_bits.1, entry_bits.2, absent) (empty_walk m va)
    | inr there ↦
        let ne : index_at (suc (suc m)) va ≢ i = ground arith in
        same_below va (index_at (suc (suc m)) va) (index_at-lt (suc (suc m)) va) refl ne
  ]

  -- Nor from the root, when some walk passes through `w`.
  pub walk_grown :
      (va k va' : ℕ)
      → above (suc (suc m)) k ≡ 4
      → Leads tables va w (suc (suc m)) k root
      → walk tables' 4 root va' ≡ walk tables 4 root va'
  walk_grown va k va' top way =
      let top_level = v.root_level ∙ sym top in
      let new =
        walk-Leads root tables used g v tables' w elsewhere va va' (suc (suc m)) k root top_level
          way in
      let old =
        walk-Leads root tables used g v tables w (λ t j l ne. refl) va va' (suc (suc m)) k root
          top_level way in
      subst (λ n. walk tables' n root va' ≡ walk tables n root va') top
        (elim (Bool-cases (agrees va va' (suc (suc m)) k)) [
          | inl same ↦ (rw same at new) ∙ walk_from_w va' ∙ sym (rw same at old)
          | inr other ↦ rw other at new
        ])

  -- The way to the new table.
  pub Leads-grown :
      (va k : ℕ)
      → above (suc (suc m)) k ≡ 4
      → Leads tables va w (suc (suc m)) k root
      → index_at (suc (suc m)) va ≡ i
      → Leads tables' va a (suc m) (suc k) root
  Leads-grown va k top way at =
      let kept =
        Leads-kept root tables used g v tables' w elsewhere va (suc (suc m)) k root
          (v.root_level ∙ sym top) way in
      let entry : tables' w (index_at (suc (suc m)) va) ≡ a + flags = rw at entry_there in
      subst (λ c. Leads tables' va c (suc m) (suc k) root) (ap address_of entry ∙ entry_bits.2)
        (Leads-extend tables' va w (suc m) k root kept (ap is_present entry ∙ entry_bits.0)
          (ap (is_leaf (suc m)) entry ∙ entry_inner))
