-- ===== src/Scheduler.antt =====
-- kernel/process/scheduler.cpp and the system calls of kernel/syscall/syscall.cpp: one processor that
-- runs the host (the desktop) and, inside run_once, one user process until a trap returns to the host.
-- `int previous_slot` is an Option, `none` for -1. current_process is a slot of the table or `none`.
-- What the user process does is the list of its traps, in order. The debug messages and the one-shot
-- flags that only they read are left out.
pub mod RoundRobin
pub mod Hosted
pub mod Traps
pub mod Host
mod Tests
use Prim.Native.Nat.{bit_and, bit_or}
use linux95_kernel.Prelude.{
  ℕ, zero, suc, ◌+◌, ◌-◌, ◌*◌, ◌/◌, ◌%◌, ◌^◌, Bool, true, false, ◌&&◌, ◌||◌, not, Option, none,
  some, List, [], ◌∷◌, ◌++◌, ltb, leb, ◌==◌, if◌then◌else◌, get_or, set, length, find_from,
}
use linux95_kernel.Process.{
  Table, Process, State, ready, running, exited, ReturnKind, iret, sysret, Registers, UserContext,
  InterruptFrame, ReapOperations, Effect, blank, slot, put, capacity, is_ready, is_running,
  is_exited, captured, capture_interrupt_context, mark_exited, reap_exited,
}

pub data HostReason : Type 0 where
  yielded exits faults preempts : HostReason

-- kUserQuantumTicks
abbrev pub user_quantum_ticks : ℕ
user_quantum_ticks = 5

-- The scheduler's globals, the processor state that it saves and restores, and what was released.
pub record Machine : Type 0 where
  pub table : Table
  pub previous_slot : Option ℕ
  pub quantum : ℕ
  pub current : Option ℕ
  pub last_reason : HostReason
  pub cr3 : ℕ
  pub rflags : ℕ
  pub host_cr3 : ℕ
  pub host_rflags : ℕ
  pub kernel_stack_top : ℕ
  pub tss_rsp0 : ℕ
  pub effects : List Effect

-- `static_cast<size_t>(previous_slot + 1)`
abbrev pub after : Option ℕ → ℕ
after none = 0
after (some s) = s + 1

-- `none` is the result -1. The table is not null.
unfoldable pub choose_next : List Process → ℕ → Option ℕ → Option ℕ
choose_next slots count previous_slot =
    if count == 0
    then none
    else let start = after previous_slot % count in
      elim (find_from count 0
        (λ offset. is_ready (get_or slots ((start + offset) % count) blank).state)) [
          | none ↦ none
          | some offset ↦ some ((start + offset) % count)
        ]

unfoldable pub reset_user_quantum : Machine → Machine
reset_user_quantum m = record m { quantum = user_quantum_ticks }

unfoldable pub on_timer_tick : Bool → Machine → Bool × Machine
on_timer_tick from_user m =
    if not from_user || (m.quantum == 0)
    then (false, m)
    else let left = m.quantum - 1 in (left == 0, record m { quantum = left })

-- syscall::set_cpu_process
abbrev pub set_cpu_process : Option ℕ → ℕ → Machine → Machine
set_cpu_process process top m = record m { current = process; kernel_stack_top = top }

unfoldable pub valid_sysret_target : ℕ → ℕ → Bool
valid_sysret_target rip rsp = ltb rip 0x0000_8000_0000_0000 && ltb rsp 0x0000_8000_0000_0000

unfoldable pub valid_sysret_context : UserContext → Bool
valid_sysret_context c = valid_sysret_target c.registers.rip c.registers.rsp

-- A process that yielded by `syscall` and whose context `sysret` cannot return to.
unfoldable pub cannot_return : UserContext → Bool
cannot_return c = elim c.return_kind [ iret ↦ false | sysret ↦ not (valid_sysret_context c) ]

unfoldable pub sanitize_user_rflags : ℕ → ℕ
sanitize_user_rflags flags = bit_or (bit_and flags 0x0020_08D5) 0x202

-- Control returns to run_once; the machine is what the host then finds.
unfoldable pub return_to_host : HostReason → Machine → Machine
return_to_host reason m =
    set_cpu_process none 0 (record m { last_reason = reason; cr3 = m.host_cr3 })

-- A pointer to a table slot passes the checks on the address; what is left are those on the process.
unfoldable pub validated_current_process : Machine → Option ℕ
validated_current_process m = elim m.current [
  | none ↦ none
  | some s ↦
      let p = slot m.table s in
      if (p.pid == 0)
        || not (is_running p.state)
        || (p.page_table_physical == 0)
        || (p.kernel_stack_top == 0)
      then none
      else some s
]

abbrev pub update : ℕ → (Process → Process) → Machine → Machine
update s f m = record m { table = put m.table s (f (slot m.table s)) }

-- `int64_t` results of system calls, as 64-bit patterns.
abbrev pub negative : ℕ → ℕ
negative n = 2 ^ 64 - n

pub data Action : Type 0 where
  return_to_user yield_to_host exit_to_host : Action

-- What ends a stretch of user code. A frame is the registers that the entry stub saved; `saved_user_rsp`
-- is the word that the stub stores in CpuLocalState, `cr2` the register that a page fault sets.
pub data Trap : Type 0 where
  timer : InterruptFrame → Trap
  fault : (frame : InterruptFrame) (cr2 : ℕ) → Trap
  int80 : Registers → Trap
  syscall : (frame : Registers) (saved_user_rsp : ℕ) → Trap

-- `halted` stands for panic::halt, panic::exception, and for a bridge that finds no current process.
pub data Outcome : Type 0 where
  resumed hosted halted : Outcome

-- The user memory that a write system call reads: kernel/memory/user_space.cpp.
pub record UserMemory : Type 0 where
  pub validate_user_range : ℕ → ℕ → ℕ → Bool
  pub copy_from_user : ℕ → ℕ → ℕ → Bool

module _ (mem : UserMemory) where
  unfoldable pub safe_write : Process → Registers → ℕ
  safe_write p frame =
      if not (frame.rdi == 1) && not (frame.rdi == 2)
      then negative 9
      else if ltb 4096 frame.rdx
      then negative 22
      else if not (mem.validate_user_range p.page_table_physical frame.rsi frame.rdx)
      then negative 14
      else if not (mem.copy_from_user p.page_table_physical frame.rsi frame.rdx)
      then negative 14
      else frame.rdx

  -- dispatch and dispatch_control: the value, the action and the process afterwards.
  unfoldable pub dispatch : Process → Registers → ℕ × Action × Process
  dispatch p frame =
      if frame.rax == 0
      then (safe_write p frame, return_to_user, p)
      else if frame.rax == 1
      then (0, yield_to_host, p)
      else if frame.rax == 2
      then (0, exit_to_host, mark_exited p frame.rdi)
      else (negative 38, return_to_user, p)

  -- int80_bridge, with the current process in slot `s`.
  unfoldable pub int80_at : Registers → ℕ → Machine → Outcome × Machine
  int80_at saved s m =
      let frame = record saved { rflags = sanitize_user_rflags saved.rflags } in
      let (value, action, p) = dispatch (slot m.table s) frame in
      let c = captured (record frame { rax = value }) iret in
      elim action [
        | return_to_user ↦ (resumed, update s (λ _. p) m)
        | yield_to_host ↦ (
          hosted,
          return_to_host yielded (update s (λ _. record p { context = c; state = ready }) m),
        )
        | exit_to_host ↦ (hosted, return_to_host exits (update s (λ _. record p { context = c }) m))
      ]

  unfoldable pub int80_bridge : Registers → Machine → Outcome × Machine
  int80_bridge frame m = elim m.current [ none ↦ (halted, m) | some s ↦ int80_at frame s m ]

  -- syscall_bridge, with the current process in slot `s`.
  unfoldable pub syscall_at : Registers → ℕ → ℕ → Machine → Outcome × Machine
  syscall_at saved saved_user_rsp s m =
      let frame = record saved { rflags = sanitize_user_rflags saved.r11 } in
      let (value, action, p) = dispatch (slot m.table s) frame in
      let c = captured (record frame { rax = value }) sysret in
      elim action [
        | return_to_user ↦
            if valid_sysret_target frame.rcx saved_user_rsp
            then (resumed, update s (λ _. p) m)
            else (hosted, return_to_host faults (update s (λ _. mark_exited p (negative 14)) m))
        | yield_to_host ↦
            if valid_sysret_context c
            then (
              hosted,
              return_to_host yielded (update s (λ _. record p { context = c; state = ready }) m),
            )
            else (
              hosted,
              return_to_host faults
                  (update s (λ _. mark_exited (record p { context = c }) (negative 14)) m),
            )
        | exit_to_host ↦ (hosted, return_to_host exits (update s (λ _. record p { context = c }) m))
      ]

  unfoldable pub syscall_bridge : Registers → ℕ → Machine → Outcome × Machine
  syscall_bridge frame saved_user_rsp m = elim m.current [
    | none ↦ (halted, m)
    | some s ↦ syscall_at frame saved_user_rsp s m
  ]

abbrev pub from_user : Registers → Bool
from_user r = r.cs % 4 == 3

unfoldable pub handle_user_preempt : InterruptFrame → Machine → Outcome × Machine
handle_user_preempt frame m =
    if not (from_user frame.registers) then (halted, m) else elim (validated_current_process m) [
      | none ↦ (halted, m)
      | some s ↦ (
        hosted,
        return_to_host preempts
            (update s (λ p. record (capture_interrupt_context p frame) { state = ready }) m),
      )
    ]

-- A fault that no process can be blamed for goes on to panic::exception.
unfoldable pub handle_user_fault : InterruptFrame → ℕ → Machine → Outcome × Machine
handle_user_fault frame cr2 m =
    let vector = frame.vector % 256 in
    if not (from_user frame.registers) || (vector == 2) || (vector == 8) || (vector == 18)
    then (halted, m)
    else elim (validated_current_process m) [
      | none ↦ (halted, m)
      | some s ↦ (
        hosted,
        return_to_host faults (
            update s
              (λ p.
                mark_exited
                  (capture_interrupt_context
                    (record p {
                      fault_vector = vector;
                      fault_error_code = frame.error_code;
                      fault_address = if vector == 14 then cr2 else 0;
                    })
                    frame)
                  ((2 ^ 64 - vector) % 2 ^ 64))
              m),
      )
    ]

-- Up to process_resume_user. `cli` clears bit 9 of RFLAGS.
unfoldable pub enter : ℕ → Machine → Machine
enter s m =
    let p = slot m.table s in
    let clean = record p.context {
      registers = record p.context.registers {
        rflags = sanitize_user_rflags p.context.registers.rflags;
      };
    } in
    record (reset_user_quantum m) {
      table = put m.table s (record p { state = running; context = clean });
      previous_slot = some s;
      host_cr3 = m.cr3;
      host_rflags = m.rflags;
      rflags = bit_and m.rflags (2 ^ 64 - 1 - 2 ^ 9);
      cr3 = p.page_table_physical;
      tss_rsp0 = p.kernel_stack_top;
      current = some s;
      kernel_stack_top = p.kernel_stack_top;
    }

module _ (ops : ReapOperations) where
  -- process::reap_exited with the processor state that it clears first.
  unfoldable pub reap : Machine → Machine
  reap m =
      let (released_now, t) = reap_exited ops m.table in
      record m {
        table = t;
        current = none;
        kernel_stack_top = 0;
        tss_rsp0 = 0;
        effects = m.effects ++ released_now;
      }

  -- From the return of process_save_host on.
  unfoldable pub leave : ℕ → Machine → Machine
  leave s m =
      let m' = record m { rflags = m.host_rflags } in
      if is_exited (slot m'.table s).state then reap m' else m'

module _ (mem : UserMemory) where
  -- interrupt_dispatch for the timer and the exceptions, and the two system call entries.
  unfoldable pub on_trap : Trap → Machine → Outcome × Machine
  on_trap (timer frame) m =
      let (expired, m') = on_timer_tick (from_user frame.registers) m in
      if expired then handle_user_preempt frame m' else (resumed, m')
  on_trap (fault frame cr2) m = handle_user_fault frame cr2 m
  on_trap (int80 frame) m = int80_bridge mem frame m
  on_trap (syscall frame saved_user_rsp) m = syscall_bridge mem frame saved_user_rsp m

  -- The user process runs until a trap does not resume it; `resumed` means that the traps ran out.
  unfoldable pub run_user : List Trap → Machine → Outcome × Machine
  run_user [] m = (resumed, m)
  run_user (t ∷ traps) m =
      let (outcome, m') = on_trap t m in
      elim outcome [ resumed ↦ run_user traps m' | hosted ↦ (hosted, m') | halted ↦ (halted, m') ]

  module _ (ops : ReapOperations) where
    -- The host goes on only if the trap returned to it.
    unfoldable pub finish : ℕ → Outcome → Machine → Outcome × Bool × Machine
    finish s resumed m = (resumed, true, m)
    finish s hosted m = (hosted, true, leave ops s m)
    finish s halted m = (halted, true, m)

    -- run_once returns false only if no process is ready. The outcome is `hosted` when it returns.
    unfoldable pub run_once : List Trap → Machine → Outcome × Bool × Machine
    run_once traps m = elim (choose_next m.table.slots capacity m.previous_slot) [
      | none ↦ (hosted, false, m)
      | some s ↦
          if cannot_return (slot m.table s).context
          then (
            hosted,
            true,
            reap ops
                (update s (λ p. mark_exited p (negative 14)) (record m { previous_slot = some s })),
          )
          else let (outcome, m') = run_user traps (enter s m) in finish s outcome m'
    ]
