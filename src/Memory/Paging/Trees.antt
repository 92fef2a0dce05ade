-- ===== src/Memory/Paging/Trees.antt =====
-- Tables that form a tree below the root, and what a write to one of them can change.
use linux95_kernel.Prelude.{
  ℕ, zero, suc, ◌+◌, ◌/◌, ◌<◌, ◌≡◌, ◌≢◌, refl, sym, ap, ◌∙◌, inl, inr, Bool, true, false, ◌&&◌,
  ◌==◌, if◌then◌else◌, arith, Bool-cases,
}
use mathlib.Core.Path.{subst}
use linux95_kernel.Memory.Paging.{Tables, is_present, is_huge, address_of}
use linux95_kernel.Memory.Paging.Walks.{index_at, is_leaf, walk, index_at-lt}

-- What the tables are for: the level of a table in use (0 for any other page), and the table and index
-- of the one entry that points to it.
pub record Shape : Type 0 where
  pub level : ℕ → ℕ
  pub up : ℕ → ℕ × ℕ

pub record IsTree (root : ℕ) (tables : Tables) (used : ℕ → Bool) (g : Shape) : Type 0 where
  pub root_level : g.level root ≡ 4
  pub child :
      (t i below : ℕ)
      → g.level t ≡ suc below
      → i < 512
      → is_present (tables t i) ≡ true
      → is_leaf below (tables t i) ≡ false
      → (g.level (address_of (tables t i)) ≡ below) × (g.up (address_of (tables t i)) ≡ (t, i))
  pub root_small : (i : ℕ) → i < 512 → is_huge (tables root i) ≡ false
  pub taken : (t : ℕ) → g.level t ≢ 0 → used (t / 4096) ≡ true

-- The table `k` steps above `w`.
abbrev pub above_table : Shape → ℕ → ℕ → ℕ
above_table g zero w = w
above_table g (suc k) w = (g.up (above_table g k w)).0

-- `k` levels above the level `m`.
abbrev pub above : ℕ → ℕ → ℕ
above m zero = m
above m (suc k) = suc (above m k)

pub above_lem : (m k : ℕ) → above m k ≡ m + k
above_lem m zero = omega arith
above_lem m (suc k) = let rest = above_lem m k in omega (arith, rest)

-- The walk to `va` from a table passes through `w`, of level `m`, after `k` steps.
abbrev pub Leads : Tables → ℕ → ℕ → ℕ → ℕ → ℕ → Type 0
Leads tables va w m zero t = t ≡ w
Leads tables va w m (suc k) t =
    let entry = tables t (index_at (suc (above m k)) va) in
    (is_present entry ≡ true)
    × (is_leaf (above m k) entry ≡ false)
    × Leads tables va w m k (address_of entry)

-- Whether `va'` takes the entries that `va` takes on its way down `k` levels to the level `m`.
abbrev pub agrees : ℕ → ℕ → ℕ → ℕ → Bool
agrees va va' m zero = true
agrees va va' m (suc k) =
    (index_at (suc (above m k)) va' == index_at (suc (above m k)) va) && agrees va va' m k

pub above_shift : (m k : ℕ) → above (suc m) k ≡ suc (above m k)
above_shift m zero = refl
above_shift m (suc k) = ap suc (above_shift m k)

-- One step further down.
pub Leads-extend :
    (tables : Tables) (va w m k t : ℕ)
    → Leads tables va w (suc m) k t
    → is_present (tables w (index_at (suc m) va)) ≡ true
    → is_leaf m (tables w (index_at (suc m) va)) ≡ false
    → Leads tables va (address_of (tables w (index_at (suc m) va))) m (suc k) t
Leads-extend tables va w m zero t at present inner = rw at (present, inner, refl)
Leads-extend tables va w m (suc k) t (here, on, rest) present inner =
    let c = address_of (tables w (index_at (suc m) va)) in
    subst
      (λ n.
        (is_present (tables t (index_at (suc n) va)) ≡ true)
        × (is_leaf n (tables t (index_at (suc n) va)) ≡ false)
        × Leads tables va c m (suc k) (address_of (tables t (index_at (suc n) va))))
      (above_shift m k)
      (
        here,
        on,
        Leads-extend tables va w m k (address_of (tables t (index_at (suc (above (suc m) k)) va)))
            rest present inner,
      )

module _ (root : ℕ) (tables : Tables) (used : ℕ → Bool) (g : Shape)
    (v : IsTree root tables used g) where
  -- No walk from `t` on passes through `w`.
  abbrev pub Off : ℕ → ℕ → Type 0
  Off w t = (k : ℕ) → g.level t ≡ above (g.level w) k → above_table g k w ≢ t

  pub Leads-above_table :
      (va w m k t : ℕ)
      → g.level t ≡ above m k
      → Leads tables va w m k t
      → (above_table g k w ≡ t) × (g.level w ≡ m)
  Leads-above_table va w m zero t level there = (sym there, ap g.level (sym there) ∙ level)
  Leads-above_table va w m (suc k) t level (present, inner, rest) =
      let i = index_at (suc (above m k)) va in
      let c = v.child t i (above m k) level (index_at-lt (suc (above m k)) va) present inner in
      let there = Leads-above_table va w m k (address_of (tables t i)) c.0 rest in
      (ap (λ x. (g.up x).0) there.0 ∙ ap (λ r. r.0) c.1, there.1)

  module _ (tables' : Tables) (w : ℕ)
      (elsewhere : (t i : ℕ) → g.level t ≢ 0 → t ≢ w → tables' t i ≡ tables t i) where
    -- Below a table from which no walk reaches `w` nothing has changed.
    pub walk-Off : (n t va : ℕ) → g.level t ≡ n → Off w t → walk tables' n t va ≡ walk tables n t va
    unfolding walk
    walk-Off zero t va level off = refl
    walk-Off (suc below) t va level off =
        let i = index_at (suc below) va in
        let same : tables' t i ≡ tables t i =
          elsewhere t i (omega (arith, level)) (λ e. off 0 (ap g.level e) (sym e)) in
        elim (Bool-cases (is_present (tables t i))) [
          | inr absent ↦ rw (same, absent) refl
          | inl present ↦ elim (Bool-cases (is_leaf below (tables t i))) [
            | inl leaf ↦ rw (same, present, leaf) refl
            | inr inner ↦
                let c = v.child t i below level (index_at-lt (suc below) va) present inner in
                let off' : Off w (address_of (tables t i)) = λ k at there.
                  off (suc k) (level ∙ ap suc (sym c.0 ∙ at))
                    (ap (λ x. (g.up x).0) there ∙ ap (λ r. r.0) c.1) in
                rw (same, present, inner) (walk-Off below (address_of (tables t i)) va c.0 off')
          ]
        ]

    pub Leads-kept :
        (va m k t : ℕ) → g.level t ≡ above m k → Leads tables va w m k t → Leads tables' va w m k t
    Leads-kept va m zero t level way = way
    Leads-kept va m (suc k) t level (present, inner, rest) =
        let i = index_at (suc (above m k)) va in
        let c = v.child t i (above m k) level (index_at-lt (suc (above m k)) va) present inner in
        let way = Leads-above_table va w m k (address_of (tables t i)) c.0 rest in
        let a = above_lem m k in
        let here = way.1 in
        let apart : t ≢ w = λ e. let at = ap g.level e in omega (arith, a, here, level, at) in
        let same : tables' t i ≡ tables t i = elsewhere t i (omega (arith, level)) apart in
        rw same (present, inner, Leads-kept va m k (address_of (tables t i)) c.0 rest)

    -- Another child of a table on the way is off the way.
    sibling-Off :
        (va m k t i' : ℕ)
        → g.level t ≡ suc (above m k)
        → i' < 512
        → is_present (tables t i') ≡ true
        → is_leaf (above m k) (tables t i') ≡ false
        → i' ≢ index_at (suc (above m k)) va
        → Leads tables va w m (suc k) t
        → Off w (address_of (tables t i'))
    sibling-Off va m k t i' level lt present' inner' other (present, inner, rest) k' at there =
        let i = index_at (suc (above m k)) va in
        let c = v.child t i (above m k) level (index_at-lt (suc (above m k)) va) present inner in
        let c' = v.child t i' (above m k) level lt present' inner' in
        let way = Leads-above_table va w m k (address_of (tables t i)) c.0 rest in
        let a = above_lem m k in
        let a' = above_lem (g.level w) k' in
        let here = way.1 in
        let there' = c'.0 in
        let same_k : k' ≡ k = omega (arith, a, a', here, there', at) in
        let same : address_of (tables t i) ≡ address_of (tables t i') =
          sym way.0 ∙ ap (λ n. above_table g n w) (sym same_k) ∙ there in
        other (ap (λ r. r.1) (sym c'.1 ∙ ap g.up (sym same) ∙ c.1))

    -- Above `w`: an address that takes the same way goes on from `w`, for any other nothing has changed.
    pub walk-Leads :
        (va va' m k t : ℕ)
        → g.level t ≡ above m k
        → Leads tables va w m k t
        → walk tables' (above m k) t va'
          ≡ (if agrees va va' m k then walk tables' m w va' else walk tables (above m k) t va')
    unfolding walk
    walk-Leads va va' m zero t level there = ap (λ x. walk tables' m x va') there
    walk-Leads va va' m (suc k) t level (present, inner, rest) =
        let i = index_at (suc (above m k)) va in
        let i' = index_at (suc (above m k)) va' in
        let c = v.child t i (above m k) level (index_at-lt (suc (above m k)) va) present inner in
        let lt = index_at-lt (suc (above m k)) va' in
        let way = Leads-above_table va w m k (address_of (tables t i)) c.0 rest in
        let a = above_lem m k in
        let here = way.1 in
        let apart : t ≢ w = λ e. let at = ap g.level e in omega (arith, a, here, level, at) in
        let same : tables' t i' ≡ tables t i' = elsewhere t i' (omega (arith, level)) apart in
        elim (Bool-cases (i' == i)) [
          | inl taken ↦
              let e : i' ≡ i = ground arith in
              let below = walk-Leads va va' m k (address_of (tables t i)) c.0 rest in
              rw (same, taken, e, present, inner) below
          | inr not_taken ↦
              let ne : i' ≢ i = ground arith in
              elim (Bool-cases (is_present (tables t i'))) [
                | inr absent ↦ rw (same, not_taken, absent) refl
                | inl present' ↦ elim (Bool-cases (is_leaf (above m k) (tables t i'))) [
                  | inl leaf ↦ rw (same, not_taken, present', leaf) refl
                  | inr inner' ↦
                      let c' = v.child t i' (above m k) level lt present' inner' in
                      let off =
                        sibling-Off va m k t i' level lt present' inner' ne
                          (present, inner, rest) in
                      rw (same, not_taken, present', inner')
                        (walk-Off (above m k) (address_of (tables t i')) va' c'.0 off)
                ]
              ]
        ]
