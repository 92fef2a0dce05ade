-- ===== src/Prelude/Cells.antt =====
-- Lists of a known length, cell by cell: a property of every list of at least `n` cells is shown for the
-- list that `n` variables and a rest make up.
use Prim.Native.Nat.{ℕ, zero, suc, ◌≤◌}
use mathlib.Core.Path.{◌≡◌}
use mathlib.Core.List.{List, [], ◌∷◌}
use native.Mathlib.Omega.{arith}
use linux95_kernel.Prelude.Lists.{length}

-- `P` of n cells before any rest.
abbrev pub ForCells {κ} : {A : Type 0} → ℕ → (List A → Type κ) → Type κ
ForCells {A = A} zero P = (rest : List A) → P rest
ForCells {A = A} (suc n) P = (x : A) → ForCells n (λ xs. P (x ∷ xs))

-- `P` of exactly n cells.
abbrev pub ForExactly {κ} : {A : Type 0} → ℕ → (List A → Type κ) → Type κ
ForExactly zero P = P []
ForExactly {A = A} (suc n) P = (x : A) → ForExactly n (λ xs. P (x ∷ xs))

pub by_cells {κ} :
    {A : Type 0} (n : ℕ) (P : List A → Type κ) (xs : List A) → n ≤ length xs → ForCells n P → P xs
by_cells zero P xs le all = all xs
by_cells (suc n) P [] le all = absurd (omega arith)
by_cells (suc n) P (x ∷ xs) le all = by_cells n (λ ys. P (x ∷ ys)) xs (omega arith) (all x)

pub by_exactly {κ} :
    {A : Type 0} (n : ℕ) (P : List A → Type κ) (xs : List A) → length xs ≡ n → ForExactly n P → P xs
by_exactly zero P [] e all = all
by_exactly zero P (x ∷ xs) e all = absurd (omega arith)
by_exactly (suc n) P [] e all = absurd (omega arith)
by_exactly (suc n) P (x ∷ xs) e all = by_exactly n (λ ys. P (x ∷ ys)) xs (omega arith) (all x)
