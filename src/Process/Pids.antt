-- ===== src/Process/Pids.antt =====
-- Process ids: every live process has its own, and is found by it.
use linux95_kernel.Prelude.{
  ℕ, zero, suc, ◌+◌, ◌%◌, ◌^◌, ◌≤◌, ◌<◌, ◌≡◌, ◌≢◌, refl, ap, sym, ◌∙◌, inl, inr, ◌⊎◌, Bool, true,
  false, ◌&&◌, not, none, some, List, [], ◌∷◌, ltb, ◌==◌, get_or, set, length, length-set,
  replicate, find_from, find_from-some, find_from-none, find_from-hit, arith, Bool-cases,
  Option-cases,
}
use mathlib.Core.Bool.{false≢true}
use mathlib.Core.Path.{subst}
use linux95_kernel.Process.{
  Table, Process, created, capacity, slot, blank, is_unused, initialize, allocate, find, release,
}

pub slot-set_self :
    (xs : List Process) (i : ℕ) (p : Process) → i < length xs → get_or (set xs i p) i blank ≡ p
slot-set_self [] i p h = absurd (omega arith)
slot-set_self (x ∷ xs) zero p h = refl
slot-set_self (x ∷ xs) (suc i) p h = slot-set_self xs i p (omega arith)

pub slot-set_ne :
    (xs : List Process) (i j : ℕ) (p : Process)
    → i ≢ j
    → get_or (set xs i p) j blank ≡ get_or xs j blank
slot-set_ne [] i j p h = refl
slot-set_ne (x ∷ xs) zero zero p h = absurd (h refl)
slot-set_ne (x ∷ xs) zero (suc j) p h = refl
slot-set_ne (x ∷ xs) (suc i) zero p h = refl
slot-set_ne (x ∷ xs) (suc i) (suc j) p h = slot-set_ne xs i j p (λ e. h (ap suc e))

slot-out : (xs : List Process) (i : ℕ) → length xs ≤ i → get_or xs i blank ≡ blank
slot-out [] i h = refl
slot-out (x ∷ xs) zero h = absurd (omega arith)
slot-out (x ∷ xs) (suc i) h = slot-out xs i (omega arith)

abbrev pub is_live : Table → ℕ → Bool
is_live t i = not (is_unused (slot t i).state)

-- The table has 16 slots; live processes have distinct ids, which are below the next one.
pub record IsValid (t : Table) : Type 0 where
  pub size : length t.slots ≡ capacity
  pub below : (i : ℕ) → is_live t i ≡ true → (0 < (slot t i).pid) × ((slot t i).pid < t.next_pid)
  pub distinct :
      (i j : ℕ) → is_live t i ≡ true → is_live t j ≡ true → (slot t i).pid ≡ (slot t j).pid → i ≡ j
  pub next_pos : 0 < t.next_pid

pub slot-beyond : (t : Table) (j : ℕ) → IsValid t → capacity ≤ j → slot t j ≡ blank
slot-beyond t j v h = slot-out t.slots j (omega (arith, v.size))

-- The slot that a successful allocate returns, and what it leaves there.
pub record Allocated (t : Table) (i : ℕ) (after : Table) : Type 0 where
  pub in_range : i < capacity
  pub was_unused : is_live t i ≡ false
  pub lowest : (j : ℕ) → j < i → is_live t j ≡ true
  pub fresh : slot after i ≡ record blank { pid = t.next_pid; state = created }
  pub others : (j : ℕ) → i ≢ j → slot after j ≡ slot t j
  pub valid : IsValid after

module _ (t : Table) (v : IsValid t) where
  -- On a valid table the id of a live process finds its slot.
  pub find_live : (i : ℕ) → i < capacity → is_live t i ≡ true → find t (slot t i).pid ≡ some i
  unfolding find
  find_live i lt live =
      let test =
        λ (k : ℕ). not (is_unused (slot t k).state) && ((slot t k).pid == (slot t i).pid) in
      let (r, e) = find_from-hit capacity 0 test i (omega arith) (omega arith) (ground arith) in
      let hit = find_from-some capacity 0 test r e in
      let same : r ≡ i = v.distinct r i (ground (arith, hit.2)) live (ground (arith, hit.2)) in
      e ∙ ap some same

  -- What `find` returns on a valid table is the slot of a live process with that id.
  pub find-some :
      (pid i : ℕ)
      → find t pid ≡ some i
      → (i < capacity) × (is_live t i ≡ true) × ((slot t i).pid ≡ pid)
  unfolding find
  find-some pid i e =
      let test = λ (k : ℕ). not (is_unused (slot t k).state) && ((slot t k).pid == pid) in
      let hit = find_from-some capacity 0 test i e in
      (omega (arith, hit.1), ground (arith, hit.2), ground (arith, hit.2))

  taken : (i : ℕ) → Table
  taken i = record t {
    slots = set t.slots i (record blank { pid = t.next_pid; state = created });
    next_pid = (t.next_pid + 1) % 2 ^ 32;
  }

  module _ (i : ℕ) (room : i < capacity) (free : is_live t i ≡ false)
      (no_wrap : t.next_pid + 1 < 2 ^ 32) where
    taken_here : slot (taken i) i ≡ record blank { pid = t.next_pid; state = created }
    unfolding taken
    taken_here = slot-set_self t.slots i _ (omega (arith, v.size))

    taken_there : (j : ℕ) → i ≢ j → slot (taken i) j ≡ slot t j
    unfolding taken
    taken_there j ne = slot-set_ne t.slots i j _ ne

    taken_next : (taken i).next_pid ≡ t.next_pid + 1
    unfolding taken
    taken_next = omega arith

    -- Of the slots other than the new one, all is as before.
    taken_pid :
        (j : ℕ)
        → is_live (taken i) j ≡ true
        → ((i ≡ j) × ((slot (taken i) j).pid ≡ t.next_pid))
          ⊎ ((i ≢ j) × ((slot (taken i) j).pid ≡ (slot t j).pid) × (is_live t j ≡ true))
    taken_pid j live = elim (Bool-cases (i == j)) [
      | inl same ↦
          let e : i ≡ j = ground arith in
          inl (e, subst (λ k. (slot (taken i) k).pid ≡ t.next_pid) e (ap (λ p. p.pid) taken_here))
      | inr differ ↦
          let ne : i ≢ j = ground arith in
          let kept = taken_there j ne in
          let live' : is_live t j ≡ true = rw (← kept) live in inr (ne, ap (λ p. p.pid) kept, live')
    ]

    taken-distinct :
        (j k : ℕ)
        → is_live (taken i) j ≡ true
        → is_live (taken i) k ≡ true
        → (slot (taken i) j).pid ≡ (slot (taken i) k).pid
        → j ≡ k
    taken-distinct j k lj lk e = elim (taken_pid j lj) [
      | inl (ej, pj) ↦ elim (taken_pid k lk) [
        | inl (ek, pk) ↦ sym ej ∙ ek
        | inr (nk, pk, old) ↦ absurd (omega (arith, v.below k old))
      ]
      | inr (nj, pj, old) ↦ elim (taken_pid k lk) [
        | inl (ek, pk) ↦ absurd (omega (arith, v.below j old))
        | inr (nk, pk, old') ↦ v.distinct j k old old' (sym pj ∙ e ∙ pk)
      ]
    ]

    taken-below :
        (j : ℕ)
        → is_live (taken i) j ≡ true
        → (0 < (slot (taken i) j).pid) × ((slot (taken i) j).pid < (taken i).next_pid)
    taken-below j live = elim (taken_pid j live) [
      | inl (e, p) ↦ omega (arith, v.next_pos, taken_next)
      | inr (ne, p, old) ↦ omega (arith, v.below j old, taken_next)
    ]

    taken-size : length (taken i).slots ≡ capacity
    unfolding taken
    taken-size = length-set t.slots i _ ∙ v.size

    taken-Allocated : ((j : ℕ) → j < i → is_live t j ≡ true) → Allocated t i (taken i)
    taken-Allocated lowest = record {
      in_range = room;
      was_unused = free;
      lowest = lowest;
      fresh = taken_here;
      others = taken_there;
      valid = record {
        size = taken-size;
        below = taken-below;
        distinct = taken-distinct;
        next_pos = omega (arith, taken_next);
      };
    }

  -- On a valid table, while process ids have not run out, `allocate` either takes the lowest unused
  -- slot for a blank process in state Created with a new id, leaves every other slot as it was and
  -- keeps the ids distinct; or, when all 16 slots are live, fails and changes nothing.
  pub allocate-Allocated :
      t.next_pid + 1 < 2 ^ 32
      → ((i : ℕ) × ((allocate t).0 ≡ some i) × Allocated t i (allocate t).1)
        ⊎ ((allocate t ≡ (none, t)) × ((j : ℕ) → j < capacity → is_live t j ≡ true))
  unfolding allocate taken
  allocate-Allocated no_wrap =
      elim (Option-cases (find_from capacity 0 (λ i. is_unused (slot t i).state))) [
        | inl full ↦ inr (
          rw (full, allocate),
          λ j lt. ground (
            arith,
            find_from-none capacity 0 (λ i. is_unused (slot t i).state) full j (omega arith)
                (omega arith),
          ),
        )
        | inr (i, e) ↦
            let hit = find_from-some capacity 0 (λ i. is_unused (slot t i).state) i e in
            rw (e, allocate)
              (inl (
                i,
                refl,
                taken-Allocated i (omega (arith, hit.1)) (ground (arith, hit.2)) no_wrap
                    (λ j lt. ground (arith, hit.3 j (omega arith) lt)),
              ))
      ]

  release_there : (i j : ℕ) → i ≢ j → slot (release t i) j ≡ slot t j
  unfolding release
  release_there i j ne = slot-set_ne t.slots i j blank ne

  release-size : (i : ℕ) → length (release t i).slots ≡ capacity
  unfolding release
  release-size i = length-set t.slots i blank ∙ v.size

  release-next : (i : ℕ) → (release t i).next_pid ≡ t.next_pid
  unfolding release
  release-next i = refl

  release_here : (i : ℕ) → slot (release t i) i ≡ blank
  unfolding release
  release_here i = elim (Bool-cases (ltb i capacity)) [
    | inl lt ↦ slot-set_self t.slots i blank (ground (arith, v.size))
    | inr ge ↦ slot-out (set t.slots i blank) i (ground (arith, v.size, length-set t.slots i blank))
  ]

  release-live :
      (i j : ℕ)
      → is_live (release t i) j ≡ true
      → (slot (release t i) j ≡ slot t j) × (is_live t j ≡ true)
  release-live i j live = elim (Bool-cases (i == j)) [
    | inl same ↦
        let e : i ≡ j = ground arith in
        let gone : slot (release t i) j ≡ blank =
          subst (λ k. slot (release t i) k ≡ blank) e (release_here i) in
        let dead : false ≡ true = rw gone at live in absurd (false≢true dead)
    | inr differ ↦ let kept = release_there i j (ground arith) in (kept, rw kept at live)
  ]

  -- On a valid table `release` empties its slot, leaves the others as they were and keeps the table
  -- valid.
  pub release_lem :
      (i : ℕ)
      → (slot (release t i) i ≡ blank)
        × ((j : ℕ) → i ≢ j → slot (release t i) j ≡ slot t j)
        × IsValid (release t i)
  release_lem i = (
    release_here i,
    release_there i,
    record {
      size = release-size i;
      below =
          λ j live. let (e, old) = release-live i j live in rw (e, release-next i) (v.below j old);
      distinct = λ j k lj lk same.
          let (ej, oj) = release-live i j lj in
          let (ek, ok) = release-live i k lk in
          v.distinct j k oj ok (ap (λ p. p.pid) (sym ej) ∙ same ∙ ap (λ p. p.pid) ek);
      next_pos = rw (release-next i) v.next_pos;
    },
  )

pub initialize-slot : (i : ℕ) → slot initialize i ≡ blank
unfolding initialize
initialize-slot i = get_or-replicate capacity i
  where
    get_or-replicate : (n i : ℕ) → get_or (replicate n blank) i blank ≡ blank
    get_or-replicate zero i = refl
    get_or-replicate (suc n) zero = refl
    get_or-replicate (suc n) (suc i) = get_or-replicate n i

-- The table is valid at the start.
pub initialize-IsValid : IsValid initialize
initialize-IsValid = record {
  size = unfold initialize in refl;
  below = λ i live. absurd (false≢true (rw initialize-slot at live));
  distinct = λ i j live lj e. absurd (false≢true (rw initialize-slot at live));
  next_pos = unfold initialize in omega arith;
}
