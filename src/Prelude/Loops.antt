-- ===== src/Prelude/Loops.antt =====
-- The counted loops of the kernel: the search `for (i = a; i < b; ++i) if (p(i)) return i;`, and the
-- number of indices that pass a test.
use Prim.Native.Nat.{ℕ, zero, suc, ◌+◌, ◌≤◌, ◌<◌}
use mathlib.Core.Path.{◌≡◌, refl}
use mathlib.Core.Logic.{◌≢◌, inl, inr}
use mathlib.Core.Bool.{Bool, true, false}
use mathlib.Core.Option.{Option, none, some}
use native.Mathlib.Omega.{arith}
use linux95_kernel.Prelude.Tests.{◌==◌, if◌then◌else◌, Bool-cases, Option-cases}

-- The first of the `rounds` indices from `i` on that passes the test.
unfoldable pub find_from : ℕ → ℕ → (ℕ → Bool) → Option ℕ
find_from zero i p = none
find_from (suc rounds) i p = let rest = find_from rounds (i + 1) p in if p i then some i else rest

pub find_from-some :
    (rounds i : ℕ) (p : ℕ → Bool) (r : ℕ)
    → find_from rounds i p ≡ some r
    → (i ≤ r) × (r < i + rounds) × (p r ≡ true) × ((j : ℕ) → i ≤ j → j < r → p j ≡ false)
unfolding find_from
find_from-some zero i p r e = absurd (ground arith)
find_from-some (suc rounds) i p r e = elim (Bool-cases (p i)) [
  | inl hit ↦
      let same : i ≡ r = ground arith in
      (omega arith, omega arith, rw (← same) hit, λ j lo hi. absurd (omega arith))
  | inr miss ↦
      let (lo, hi, hit, before) = find_from-some rounds (i + 1) p r (ground arith) in
      (omega arith, omega arith, hit, λ j a b. earlier before j a b miss)
]
  where
    earlier :
        ((j : ℕ) → i + 1 ≤ j → j < r → p j ≡ false)
        → (j : ℕ) → i ≤ j
        → j < r
        → p i ≡ false
        → p j ≡ false
    earlier before j a b miss = elim (Bool-cases (i == j)) [
      | inl e ↦ let e' : i ≡ j = ground arith in rw (← e') miss
      | inr ne ↦ before j (ground arith) b
    ]

pub find_from-none :
    (rounds i : ℕ) (p : ℕ → Bool)
    → find_from rounds i p ≡ none
    → (j : ℕ) → i ≤ j
    → j < i + rounds
    → p j ≡ false
unfolding find_from
find_from-none zero i p e j a b = absurd (omega arith)
find_from-none (suc rounds) i p e j a b = elim (Bool-cases (p i)) [
  | inl hit ↦ absurd (ground arith)
  | inr miss ↦ elim (Bool-cases (i == j)) [
    | inl same ↦ let e' : i ≡ j = ground arith in rw (← e') miss
    | inr ne ↦ find_from-none rounds (i + 1) p (ground arith) j (ground arith) (omega arith)
  ]
]

-- An index in range that passes makes the search succeed.
pub find_from-hit :
    (rounds i : ℕ) (p : ℕ → Bool) (j : ℕ)
    → i ≤ j
    → j < i + rounds
    → p j ≡ true
    → (r : ℕ) × (find_from rounds i p ≡ some r)
find_from-hit rounds i p j a b h = elim (Option-cases (find_from rounds i p)) [
  | inl e ↦ let miss = find_from-none rounds i p e j a b in absurd (ground arith)
  | inr found ↦ found
]

-- Two tests that agree on the range give the same search.
pub find_from-ext :
    (rounds i : ℕ) (p q : ℕ → Bool)
    → ((j : ℕ) → i ≤ j → j < i + rounds → p j ≡ q j)
    → find_from rounds i p ≡ find_from rounds i q
unfolding find_from
find_from-ext zero i p q h = refl
find_from-ext (suc rounds) i p q h =
    let rest : find_from rounds (i + 1) p ≡ find_from rounds (i + 1) q =
      find_from-ext rounds (i + 1) p q (λ j a b. h j (omega arith) (omega arith)) in
    ground (arith, rest, h i (omega arith) (omega arith))

-- How many indices below `n` pass the test.
unfoldable pub count_below : ℕ → (ℕ → Bool) → ℕ
count_below zero p = 0
count_below (suc n) p = (if p n then 1 else 0) + count_below n p

pub count_below-le : (n : ℕ) (p : ℕ → Bool) → count_below n p ≤ n
unfolding count_below
count_below-le zero p = omega arith
count_below-le (suc n) p = ground (arith, count_below-le n p)

pub count_below-ext :
    (n : ℕ) (p q : ℕ → Bool) → ((j : ℕ) → j < n → p j ≡ q j) → count_below n p ≡ count_below n q
unfolding count_below
count_below-ext zero p q h = refl
count_below-ext (suc n) p q h =
    ground (arith, h n (omega arith), count_below-ext n p q (λ j b. h j (omega arith)))

-- Turning one index on adds one.
pub count_below-on :
    (n : ℕ) (p q : ℕ → Bool) (i : ℕ)
    → i < n
    → p i ≡ false
    → q i ≡ true
    → ((j : ℕ) → j < n → j ≢ i → q j ≡ p j)
    → count_below n q ≡ count_below n p + 1
unfolding count_below
count_below-on zero p q i lt off on same = absurd (omega arith)
count_below-on (suc n) p q i lt off on same = elim (Bool-cases (n == i)) [
  | inl e ↦
      let e' : n ≡ i = ground arith in
      let low : count_below n q ≡ count_below n p =
        count_below-ext n q p (λ j b. same j (omega arith) (λ s. absurd (omega arith))) in
      let a : p n ≡ false = rw e' off in let b : q n ≡ true = rw e' on in ground (arith, low, a, b)
  | inr ne ↦
      let low : count_below n q ≡ count_below n p + 1 =
        count_below-on n p q i (ground arith) off on (λ j b. same j (omega arith)) in
      let a : q n ≡ p n = same n (omega arith) (ground arith) in ground (arith, low, a)
]

-- No index passes exactly when the count is zero.
pub count_below-zero : (n : ℕ) (p : ℕ → Bool) → count_below n p ≡ 0 → (j : ℕ) → j < n → p j ≡ false
unfolding count_below
count_below-zero zero p e j b = absurd (omega arith)
count_below-zero (suc n) p e j b = elim (Bool-cases (n == j)) [
  | inl same ↦ let e' : n ≡ j = ground arith in rw (← e') (ground arith)
  | inr ne ↦ count_below-zero n p (ground arith) j (ground arith)
]

pub count_below-pos : (n : ℕ) (p : ℕ → Bool) (j : ℕ) → j < n → p j ≡ true → 0 < count_below n p
unfolding count_below
count_below-pos zero p j b h = absurd (omega arith)
count_below-pos (suc n) p j b h = elim (Bool-cases (n == j)) [
  | inl same ↦ let e' : n ≡ j = ground arith in let h' : p n ≡ true = rw e' h in ground arith
  | inr ne ↦ ground (arith, count_below-pos n p j (ground arith) h)
]
