-- ===== src/Net/Checksum/Folding.antt =====
-- The folding of the carries: it ends, and what it leaves is the sum modulo 65535.
use linux95_kernel.Prelude.{
  ℕ, zero, suc, ◌+◌, ◌-◌, ◌/◌, ◌%◌, ◌^◌, ◌≤◌, ◌<◌, ◌≡◌, ◌≢◌, refl, sym, ◌∙◌, inl, inr, ltb, ◌==◌,
  arith, Bool-cases,
}
use linux95_kernel.Net.Checksum.{fold_carries, passes, finish}

fold_small : (fuel sum : ℕ) → sum < 65536 → fold_carries fuel sum ≡ sum
unfolding fold_carries
fold_small zero sum small = refl
fold_small (suc fuel) sum small = ground arith

fold_once :
    (fuel sum : ℕ)
    → 65536 ≤ sum
    → fold_carries (suc fuel) sum ≡ fold_carries fuel (sum % 65536 + sum / 65536)
unfolding fold_carries
fold_once fuel sum big = ground arith

-- A word that stands for the sum: the same modulo 65535, and zero only for zero.
pub record Folded (sum r : ℕ) : Type 0 where
  pub small : r < 65536
  pub same : r % 65535 ≡ sum % 65535
  pub zero_only : r ≡ 0 → sum ≡ 0
  pub zero_kept : sum ≡ 0 → r ≡ 0

again : (sum r : ℕ) → 65536 ≤ sum → Folded (sum % 65536 + sum / 65536) r → Folded sum r
again sum r big f =
    let s = f.small in
    let e = f.same in
    record {
      small = s;
      same = omega (arith, e);
      zero_only = λ z. let n = f.zero_only z in omega (arith, n, big);
      zero_kept = λ z. absurd (omega (arith, z, big));
    }

Folded-small : (fuel sum : ℕ) → sum < 65536 → Folded sum (fold_carries fuel sum)
Folded-small fuel sum small =
    rw (fold_small fuel sum small)
      (record { small = small; same = refl; zero_only = λ z. z; zero_kept = λ z. z })

module _ (more sum : ℕ) where
  Folded-one : sum < 131072 - 1 → Folded sum (fold_carries (suc more) sum)
  Folded-one bound = elim (Bool-cases (ltb sum 65536)) [
    | inl small ↦ Folded-small (suc more) sum (ground arith)
    | inr big ↦
        let large : 65536 ≤ sum = ground arith in
        rw (fold_once more sum large) (
          again sum (fold_carries more (sum % 65536 + sum / 65536)) large
            (Folded-small more (sum % 65536 + sum / 65536) (omega arith)))
  ]

-- However many passes above two are allowed.
fold_carries_lem : (more sum : ℕ) → sum < 2 ^ 32 → Folded sum (fold_carries (suc (suc more)) sum)
fold_carries_lem more sum bound = elim (Bool-cases (ltb sum 65536)) [
  | inl small ↦ Folded-small (suc (suc more)) sum (ground arith)
  | inr big ↦
      let large : 65536 ≤ sum = ground arith in
      rw (fold_once (suc more) sum large) (
        again sum (fold_carries (suc more) (sum % 65536 + sum / 65536)) large
          (Folded-one more (sum % 65536 + sum / 65536) (omega arith)))
]

Folded-unique : (sum r r' : ℕ) → Folded sum r → Folded sum r' → r ≡ r'
Folded-unique sum r r' f f' =
    let s = f.small in
    let s' = f'.small in
    let e = f.same in
    let e' = f'.same in
    elim (Bool-cases (sum == 0)) [
      | inl none ↦ let z : sum ≡ 0 = ground arith in f.zero_kept z ∙ sym (f'.zero_kept z)
      | inr some ↦
          let z : sum ≢ 0 = ground arith in
          let nz : r ≢ 0 = λ e. z (f.zero_only e) in
          let nz' : r' ≢ 0 = λ e. z (f'.zero_only e) in omega (arith, s, s', e, e', nz, nz')
    ]

-- For a sum of 32 bits, any number of passes from two on gives what two passes give, and after them
-- no carry is left: the loop ends within two rounds.
pub fold_carries_ends :
    (fuel sum : ℕ)
    → passes ≤ fuel
    → sum < 2 ^ 32
    → (fold_carries fuel sum ≡ fold_carries passes sum) × (fold_carries fuel sum / 65536 ≡ 0)
fold_carries_ends zero sum enough bound = absurd (omega arith)
fold_carries_ends (suc zero) sum enough bound = absurd (omega arith)
fold_carries_ends (suc (suc more)) sum enough bound =
    let f = fold_carries_lem more sum bound in
    let small = f.small in
    (
      Folded-unique sum (fold_carries (suc (suc more)) sum) (fold_carries passes sum) f
          (fold_carries_lem 0 sum bound),
      omega (arith, small),
    )

pub finish-zero : (sum : ℕ) → sum < 2 ^ 32 → sum % 65535 ≡ 0 → sum ≢ 0 → finish sum ≡ 0
unfolding finish
finish-zero sum bound none some =
    let f = fold_carries_lem 0 sum bound in
    let small = f.small in
    let same = f.same in
    let nonzero : fold_carries passes sum ≢ 0 = λ z. some (f.zero_only z) in
    omega (arith, small, same, none, nonzero)

pub finish_zero_only : (sum : ℕ) → sum < 2 ^ 32 → finish sum ≡ 0 → (sum % 65535 ≡ 0) × (sum ≢ 0)
unfolding finish
finish_zero_only sum bound ended =
    let f = fold_carries_lem 0 sum bound in
    let small = f.small in
    let same = f.same in
    (omega (arith, small, same, ended), λ z. let r = f.zero_kept z in omega (arith, r, ended))

-- A sum with its own checksum added folds to all ones.
pub finish-patch : (sum : ℕ) → sum + 65535 < 2 ^ 32 → finish (sum + finish sum) ≡ 0
unfolding finish
finish-patch sum bound =
    let f = fold_carries_lem 0 sum (omega arith) in
    let small = f.small in
    let same = f.same in
    finish-zero (sum + finish sum) (omega arith) (omega (arith, small, same))
      (λ z. let s : sum ≡ 0 = omega (arith, z) in let r = f.zero_kept s in omega (arith, z, r))

pub finish-bound : (sum : ℕ) → finish sum < 65536
unfolding finish
finish-bound sum = omega arith
