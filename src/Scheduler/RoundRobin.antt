-- ===== src/Scheduler/RoundRobin.antt =====
-- choose_next: the first ready process after the one that ran last, in the cyclic order of the table.
use linux95_kernel.Prelude.{
  ℕ, ◌+◌, ◌-◌, ◌%◌, ◌≤◌, ◌<◌, ◌≡◌, ◌≢◌, inl, inr, Bool, true, false, Option, none, some, List, [],
  ◌∷◌, length, ◌↔◌, ltb, ◌==◌, if◌then◌else◌, get_or, arith, Bool-cases, Option-cases, find_from,
  find_from-some, find_from-none,
}
use linux95_kernel.Process.{Process, capacity, blank, is_ready}
use linux95_kernel.Scheduler.{after, choose_next}

abbrev pub ready_at : List Process → ℕ → Bool
ready_at slots i = is_ready (get_or slots i blank).state

abbrev pub start_of : Option ℕ → ℕ
start_of previous = after previous % capacity

-- How many slots after the start slot `s` lies, going round the table.
abbrev pub distance : Option ℕ → ℕ → ℕ
distance previous s = (s + capacity - start_of previous) % capacity

module _ (slots : List Process) (previous : Option ℕ) where
  test : ℕ → Bool
  test offset = ready_at slots ((start_of previous + offset) % capacity)

  choose-some :
      (r : ℕ)
      → choose_next slots capacity previous ≡ some r
      → (o : ℕ) × (o < capacity)
        × (r ≡ (start_of previous + o) % capacity)
        × (test o ≡ true)
        × ((k : ℕ) → k < o → test k ≡ false)
  unfolding choose_next test
  choose-some r e = elim (Option-cases (find_from capacity 0 test)) [
    | inl missed ↦ absurd (ground arith)
    | inr (o, found) ↦
        let hit = find_from-some capacity 0 test o found in
        (o, omega (arith, hit.1), ground arith, hit.2, λ k lt. hit.3 k (omega arith) lt)
  ]

  -- The slot that choose_next chooses from a table of 16 is in range and ready, and no ready slot
  -- is nearer to the start, the slot after the previous one, in the cyclic order.
  pub choose_next-nearest :
      (r : ℕ)
      → choose_next slots capacity previous ≡ some r
      → (r < capacity)
        × (ready_at slots r ≡ true)
        × ((s : ℕ)
            → s < capacity
            → ready_at slots s ≡ true
            → distance previous r ≤ distance previous s)
  unfolding test
  choose_next-nearest r e =
      let (o, lt, at, hit, before) = choose-some r e in
      (
        omega arith,
        rw at hit,
        λ s small is. elim (Bool-cases (ltb (distance previous s) o)) [
          | inr not_before ↦ ground arith
          | inl nearer ↦
              let k = distance previous s in
              let here : (start_of previous + k) % capacity ≡ s = omega arith in
              let miss : ready_at slots s ≡ false = rw (← here) (before k (ground arith)) in
              absurd (ground arith)
        ],
      )

  -- On a table of 16 slots choose_next finds nothing exactly when no process is ready.
  pub choose_next-none :
      choose_next slots capacity previous ≡ none
      ↔ ((s : ℕ) → s < capacity → ready_at slots s ≡ false)
  unfolding choose_next test
  choose_next-none = (
    λ e s small.
        let k = distance previous s in
        let here : (start_of previous + k) % capacity ≡ s = omega arith in
        rw (← here) (find_from-none capacity 0 test (ground arith) k (omega arith) (omega arith)),
    λ all. elim (Option-cases (find_from capacity 0 test)) [
      | inl missed ↦ ground arith
      | inr (o, found) ↦
          let hit = find_from-some capacity 0 test o found in
          let miss = all ((start_of previous + o) % capacity) (omega arith) in
          absurd (ground (arith, hit.2))
    ],
  )

  choose_next-nearer :
      (s r : ℕ)
      → s < capacity
      → ready_at slots s ≡ true
      → choose_next slots capacity previous ≡ some r
      → r ≢ s
      → distance (some r) s < distance previous s
  choose_next-nearer s r small is e ne =
      let (lt, hit, nearest) = choose_next-nearest r e in omega (arith, nearest s small is)

  choose_next-hit :
      (s : ℕ)
      → s < capacity
      → ready_at slots s ≡ true
      → (r : ℕ) × (choose_next slots capacity previous ≡ some r)
  choose_next-hit s small is = elim (Option-cases (choose_next slots capacity previous)) [
    | inl missed ↦ let miss = choose_next-none.0 missed s small in absurd (ground arith)
    | inr found ↦ found
  ]

-- Successive choices over the tables that the scheduler finds, until slot `s` is chosen.
unfoldable pub is_chosen : Option ℕ → List (List Process) → ℕ → Bool
is_chosen previous [] s = false
is_chosen previous (slots ∷ rest) s = elim (choose_next slots capacity previous) [
  | none ↦ false
  | some r ↦ if r == s then true else is_chosen (some r) rest s
]

abbrev pub AllReady : ℕ → List (List Process) → Type 0
AllReady s [] = Unit {0}
AllReady s (slots ∷ rest) = (ready_at slots s ≡ true) × AllReady s rest

is_chosen-within :
    (previous : Option ℕ) (tables : List (List Process)) (s : ℕ)
    → s < capacity
    → AllReady s tables
    → distance previous s < length tables
    → is_chosen previous tables s ≡ true
unfolding is_chosen
is_chosen-within previous [] s small all lt = absurd (omega arith)
is_chosen-within previous (slots ∷ rest) s small all lt =
    let (r, e) = choose_next-hit slots previous s small all.0 in
    elim (Bool-cases (r == s)) [
      | inl same ↦ rw (e, is_chosen, same)
      | inr differ ↦
          let nearer = choose_next-nearer slots previous s r small all.0 e (ground arith) in
          rw (e, is_chosen, differ) (is_chosen-within (some r) rest s small all.1 (omega arith))
    ]

-- No starvation: whatever the other processes do, a process in one of the 16 slots that is ready at
-- each of 16 or more successive choices is chosen, wherever the scheduler stands.
pub round_robin_bound :
    (previous : Option ℕ) (tables : List (List Process)) (s : ℕ)
    → s < capacity
    → AllReady s tables
    → capacity ≤ length tables
    → is_chosen previous tables s ≡ true
round_robin_bound previous tables s small all long =
    is_chosen-within previous tables s small all (omega arith)
