-- ===== src/Prelude.antt =====
-- The names that every part of the development shares: those of the libraries, passed on, and the
-- tests, lists, loops and bit masks that stand for the C++ the kernel is written in.
mod Tests
mod Lists
mod Loops
mod Bits
mod Integers
mod Cells
mod Every
pub use Tests.*
pub use Lists.*
unfoldable pub use Loops.*
unfoldable pub use Bits.*
unfoldable pub use Integers.*
pub use Cells.*
pub use Every.*
pub use Prim.Native.Nat.{ℕ, zero, suc, ◌+◌, ◌-◌, ◌*◌, ◌/◌, ◌%◌, ◌^◌, ◌≤◌, ◌<◌}
pub use mathlib.Core.Path.{◌≡◌, refl, sym, ap, ◌∙◌}
pub use mathlib.Core.Logic.{◌≢◌, ◌↔◌, ◌⊎◌, inl, inr}
pub use mathlib.Core.Bool.{Bool, true, false, ◌&&◌, ◌||◌, not}
pub use mathlib.Core.Option.{Option, none, some}
pub use mathlib.Core.List.{List, [], ◌∷◌, ◌++◌, map, append_assoc}
pub use native.Mathlib.Omega.{arith}
