-- ===== src/Prelude/Bits.antt =====
-- One bit of a byte: the masks `1u << k` of the kernel, checked over all bytes.
use Prim.Native.Nat.{ℕ, zero, suc, ◌-◌, ◌^◌, ◌<◌, bit_and, bit_or}
use mathlib.Core.Path.{◌≡◌, refl}
use mathlib.Core.Bool.{Bool, true, false, ◌&&◌, ◌||◌, not}
use native.Mathlib.Omega.{arith}
use linux95_kernel.Prelude.Tests.{ltb, ◌==◌}

-- `(byte & (1u << k)) != 0`
unfoldable pub test_bit : ℕ → ℕ → Bool
test_bit byte k = not (bit_and byte (2 ^ k) == 0)

-- `byte | (1u << k)`
unfoldable pub set_bit : ℕ → ℕ → ℕ
set_bit byte k = bit_or byte (2 ^ k)

-- `byte & (uint8_t)~(1u << k)`
unfoldable pub clear_bit : ℕ → ℕ → ℕ
clear_bit byte k = bit_and byte (255 - 2 ^ k)

-- The test passes at every number below `n`.
pub passes_below : (ℕ → Bool) → ℕ → Bool
passes_below test zero = true
passes_below test (suc n) = passes_below test n && test n

pub passes_below-at :
    (test : ℕ → Bool) (n x : ℕ) → x < n → passes_below test n ≡ true → test x ≡ true
unfolding passes_below
passes_below-at test zero x lt all = absurd (omega arith)
passes_below-at test (suc n) x lt all = ground (arith, passes_below-at test n x)

abbrev same_bool : Bool → Bool → Bool
same_bool true b = b
same_bool false b = not b

same_bool-eq : (a b : Bool) → same_bool a b ≡ true → a ≡ b
same_bool-eq a b h = ground arith

abbrev set_ok : ℕ → ℕ → ℕ → Bool
set_ok b k j = same_bool (test_bit (set_bit b k) j) ((k == j) || test_bit b j)

abbrev clear_ok : ℕ → ℕ → ℕ → Bool
clear_ok b k j = same_bool (test_bit (clear_bit b k) j) (not (k == j) && test_bit b j)

set_table : passes_below (λ b. passes_below (λ k. passes_below (set_ok b k) 8) 8) 256 ≡ true
unfolding passes_below test_bit set_bit
set_table = refl

clear_table : passes_below (λ b. passes_below (λ k. passes_below (clear_ok b k) 8) 8) 256 ≡ true
unfolding passes_below test_bit clear_bit
clear_table = refl

bound_table :
    passes_below (λ b. passes_below (λ k. ltb (set_bit b k) 256 && ltb (clear_bit b k) 256) 8) 256
    ≡ true
unfolding passes_below set_bit clear_bit
bound_table = refl

module _ (b k : ℕ) (hb : b < 256) (hk : k < 8) where
  pub test_bit-set_bit : (j : ℕ) → j < 8 → test_bit (set_bit b k) j ≡ ((k == j) || test_bit b j)
  test_bit-set_bit j hj = same_bool-eq _ _ (
      passes_below-at (set_ok b k) 8 j hj
        (passes_below-at _ 8 k hk (passes_below-at _ 256 b hb set_table)))

  pub test_bit-clear_bit :
      (j : ℕ) → j < 8 → test_bit (clear_bit b k) j ≡ (not (k == j) && test_bit b j)
  test_bit-clear_bit j hj = same_bool-eq _ _ (
      passes_below-at (clear_ok b k) 8 j hj
        (passes_below-at _ 8 k hk (passes_below-at _ 256 b hb clear_table)))

  pub bit-lt : (set_bit b k < 256) × (clear_bit b k < 256)
  bit-lt =
      let both =
        passes_below-at (λ k. ltb (set_bit b k) 256 && ltb (clear_bit b k) 256) 8 k hk
          (passes_below-at _ 256 b hb bound_table) in
      (ground arith, ground arith)

test_bit_full_table : passes_below (test_bit 255) 8 ≡ true
unfolding passes_below test_bit
test_bit_full_table = refl

-- Every bit of 0xFF is set.
pub test_bit_full : (j : ℕ) → j < 8 → test_bit 255 j ≡ true
test_bit_full j h = passes_below-at (test_bit 255) 8 j h test_bit_full_table
