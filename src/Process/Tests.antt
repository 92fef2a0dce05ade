-- ===== src/Process/Tests.antt =====
-- The process table at small inputs.
use mathlib.Core.Bool.{false≢true}
use linux95_kernel.Prelude.{
  ℕ, ◌<◌, ◌≡◌, refl, ◌⊎◌, inl, inr, true, Option, none, some, ◌==◌, if◌then◌else◌, find_from, arith,
}
use linux95_kernel.Process.{
  Table, slot, capacity, blank, is_exited, initialize, allocate, ReapOperations, reap_exited,
}
use linux95_kernel.Process.Pids.{
  IsValid, is_live, Allocated, allocate-Allocated, initialize-IsValid,
}
use linux95_kernel.Process.Reap.{reap_exited_lem}

-- A table in which one process has been allocated, in slot 0 and with id 1.
abbrev one : Table
one = (allocate initialize).1

one-IsValid : IsValid one
one-IsValid =
    elim (allocate-Allocated initialize initialize-IsValid (unfold initialize in omega arith)) [
      | inl (i, e, a) ↦ a.valid
      | inr (e, full) ↦ absurd (false≢true (unfold initialize in full 0 (omega arith)))
    ]

allocate-Allocated_example :
    ((i : ℕ) × ((allocate initialize).0 ≡ some i) × Allocated initialize i (allocate initialize).1)
    ⊎ ((allocate initialize ≡ (none, initialize))
        × ((j : ℕ) → j < capacity → is_live initialize j ≡ true))
allocate-Allocated_example =
    allocate-Allocated initialize initialize-IsValid (unfold initialize in omega arith)

allocate_run : (allocate initialize).0 ≡ some 0
unfolding allocate initialize find_from
allocate_run = refl

-- Every fourth page is mapped, each to the physical page of the same address.
abbrev lookup : ℕ → Option ℕ
lookup address = if address == 0x8000 then some 0x70_0000 else none

abbrev operations : ReapOperations
operations = record {
  lookup_user_page = some (λ root address. lookup address);
  release_physical_page = true;
  destroy_address_space = true;
  kernel_stack_physical = some (λ base. base);
}

reap_exited_lem_example :
    ((j : ℕ)
      → j < capacity
      → slot (reap_exited operations one).1 j
        ≡ (if is_exited (slot one j).state then blank else slot one j))
    × IsValid (reap_exited operations one).1
reap_exited_lem_example = reap_exited_lem operations one one-IsValid
