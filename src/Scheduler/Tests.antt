-- ===== src/Scheduler/Tests.antt =====
-- The scheduler with one ready process.
use mathlib.Core.Bool.{false≢true}
use linux95_kernel.Prelude.{
  ℕ, ◌≤◌, ◌<◌, ◌≡◌, ◌≢◌, ◌∙◌, ap, refl, inl, inr, true, false, none, some, List, [], ◌∷◌, ◌==◌,
  find_from, Bool-cases, replicate, zero, suc, arith,
}
use mathlib.Core.Path.{subst}
use linux95_kernel.Process.{
  Table, Process, Registers, ReapOperations, slot, put, capacity, blank, created, ready, is_running,
  initialize, allocate,
}
use linux95_kernel.Process.Pids.{
  IsValid, allocate-Allocated, initialize-IsValid, initialize-slot, slot-set_ne,
}
use linux95_kernel.Scheduler.{
  Machine, yielded, int80, UserMemory, choose_next, on_trap, enter, run_once,
}
use linux95_kernel.Scheduler.RoundRobin.{
  ready_at, distance, choose_next-nearest, is_chosen, AllReady, round_robin_bound,
}
use linux95_kernel.Scheduler.Hosted.{Replaces, put-IsValid, slot-put, running_at, After}
use linux95_kernel.Scheduler.Traps.{on_trap-After}
use linux95_kernel.Scheduler.Host.{AtHost, Ran, enter-Inside, run_once_lem}

abbrev created_one : Table
created_one = (allocate initialize).1

created_one-IsValid : IsValid created_one
created_one-IsValid =
    elim (allocate-Allocated initialize initialize-IsValid (unfold initialize in omega arith)) [
      | inl (i, e, a) ↦ a.valid
      | inr (e, full) ↦ absurd (false≢true (unfold initialize in full 0 (omega arith)))
    ]

abbrev ready_process : Process
ready_process = record blank {
  pid = 1;
  state = ready;
  page_table_physical = 0x9000;
  kernel_stack_top = 0x8000;
}

-- Slot 0 holds a ready process.
abbrev table : Table
table = put created_one 0 ready_process

replaces : Replaces created_one 0 ready_process
replaces = record {
  in_range = omega arith;
  was_live = unfold allocate initialize find_from in refl;
  same_pid = unfold allocate initialize find_from in refl;
  live = refl;
}

table-IsValid : IsValid table
table-IsValid = put-IsValid created_one 0 ready_process created_one-IsValid replaces

kept : (j : ℕ) → 0 ≢ j → slot created_one j ≡ slot initialize j
unfolding allocate initialize find_from
kept j ne = slot-set_ne initialize.slots 0 j (record blank { pid = 1; state = created }) ne

table-idle : (j : ℕ) → running_at table j ≡ false
table-idle j = elim (Bool-cases (0 == j)) [
  | inl e ↦
      let e' : 0 ≡ j = ground arith in
      subst (λ k. running_at table k ≡ false) e'
        (ap (λ x. is_running x.state)
          (slot-put created_one 0 ready_process created_one-IsValid replaces))
  | inr ne ↦
      ap (λ x. is_running x.state) (slot-set_ne created_one.slots 0 j ready_process (ground arith))
      ∙ elsewhere j (ground arith)
]
  where
    elsewhere : (j : ℕ) → 0 ≢ j → running_at created_one j ≡ false
    elsewhere j ne = ap (λ x. is_running x.state) (kept j ne ∙ initialize-slot j)

abbrev machine : Machine
machine = record {
  table = table;
  previous_slot = none;
  quantum = 0;
  current = none;
  last_reason = yielded;
  cr3 = 0x1000;
  rflags = 0x202;
  host_cr3 = 0;
  host_rflags = 0;
  kernel_stack_top = 0;
  tss_rsp0 = 0;
  effects = [];
}

machine-AtHost : AtHost machine
machine-AtHost = record { valid = table-IsValid; idle = table-idle; current = refl }

abbrev memory : UserMemory
memory = record {
  validate_user_range = λ root start n. true;
  copy_from_user = λ root start n. true;
}

abbrev operations : ReapOperations
operations = record {
  lookup_user_page = none;
  release_physical_page = true;
  destroy_address_space = true;
  kernel_stack_physical = none;
}

-- The process yields by `int 0x80`.
abbrev yield_frame : Registers
yield_frame = record blank.context.registers { rax = 1 }

run_once_lem_example :
    let (outcome, ran, after) = run_once memory operations (int80 yield_frame ∷ []) machine in
    Ran machine outcome ran after
run_once_lem_example =
    run_once_lem memory operations (int80 yield_frame ∷ []) machine machine-AtHost

on_trap-After_example :
    After 0x1000 0x202 0
      (on_trap memory (int80 yield_frame) (enter 0 machine)).0
      (on_trap memory (int80 yield_frame) (enter 0 machine)).1
on_trap-After_example = on_trap-After memory 0x1000 0x202 0 (enter 0 machine) (int80 yield_frame) (
    enter-Inside machine machine-AtHost 0 (omega arith)
      (unfold allocate initialize find_from in refl))

chosen : choose_next table.slots capacity none ≡ some 0
unfolding choose_next allocate initialize find_from
chosen = refl

choose_next-nearest_example :
    (0 < capacity)
    × (ready_at table.slots 0 ≡ true)
    × ((s : ℕ) → s < capacity → ready_at table.slots s ≡ true → distance none 0 ≤ distance none s)
choose_next-nearest_example = choose_next-nearest table.slots none 0 chosen

abbrev sixteen : List (List Process)
sixteen = replicate 16 table.slots

tables-AllReady : (n : ℕ) → AllReady 0 (replicate n table.slots)
unfolding allocate initialize find_from
tables-AllReady zero = tt
tables-AllReady (suc n) = (refl, tables-AllReady n)

round_robin_bound_example : is_chosen (some 5) sixteen 0 ≡ true
round_robin_bound_example =
    round_robin_bound (some 5) sixteen 0 (omega arith) (tables-AllReady 16) (omega arith)
