-- ===== src/Prelude/Integers.antt =====
-- Signed numbers over the native ℕ, and the reading of a machine word as one.
use Prim.Native.Nat.{ℕ, ◌-◌, ◌^◌}
use linux95_kernel.Prelude.Tests.{ltb, if◌then◌else◌}

-- `negsuc n` is -1 - n.
pub data ℤ : Type 0 where
  pos : ℕ → ℤ
  negsuc : ℕ → ℤ

-- static_cast<int16_t> of a 16-bit word.
unfoldable pub to_int16 : ℕ → ℤ
to_int16 w = if ltb w (2 ^ 15) then pos w else negsuc (2 ^ 16 - 1 - w)
