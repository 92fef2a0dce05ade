-- ===== src/Scheduler/Traps.antt =====
-- Every trap that a user process makes keeps the machine's invariant.
use linux95_kernel.Prelude.{
  ℕ, ◌%◌, ◌≡◌, refl, ap, inl, inr, ◌⊎◌, Bool, true, ◌||◌, not, none, some, List, [], ◌∷◌, ◌==◌,
  arith, Bool-cases,
}
use mathlib.Core.Path.{subst}
use linux95_kernel.Process.{
  Process, sysret, Registers, InterruptFrame, slot, is_unused, captured, capture_interrupt_context,
  mark_exited,
}
use linux95_kernel.Scheduler.{
  Machine, yielded, exits, faults, preempts, Trap, timer, fault, int80, syscall, Outcome, resumed,
  hosted, halted, return_to_user, yield_to_host, exit_to_host, UserMemory, dispatch, int80_at,
  int80_bridge, syscall_at, syscall_bridge, handle_user_preempt, handle_user_fault, on_trap,
  on_timer_tick, from_user, validated_current_process, run_user, sanitize_user_rflags,
  valid_sysret_target, valid_sysret_context,
}
use linux95_kernel.Scheduler.Hosted.{Inside, After, return-Outside, resume-Inside}

-- A system call returns to the user or yields and leaves the process as it was, or it is Exit,
-- which marks the process exited with the code in rdi.
pub dispatch_cases :
    (mem : UserMemory) (p : Process) (f : Registers)
    → (((dispatch mem p f).1 ≡ return_to_user) × ((dispatch mem p f).2 ≡ p))
      ⊎ (((dispatch mem p f).1 ≡ yield_to_host) × ((dispatch mem p f).2 ≡ p))
      ⊎ (((dispatch mem p f).1 ≡ exit_to_host) × ((dispatch mem p f).2 ≡ mark_exited p f.rdi))
unfolding dispatch
dispatch_cases mem p f = ground arith

module _ (cr3 rflags s : ℕ) (m : Machine) (in_user : Inside cr3 rflags s m) where
  live_here : not (is_unused (slot m.table s).state) ≡ true
  live_here = ap (λ x. not (is_unused x)) in_user.here

  module _ (mem : UserMemory) where
    int80_at-After :
        (f : Registers) → After cr3 rflags s (int80_at mem f s m).0 (int80_at mem f s m).1
    unfolding int80_at
    int80_at-After saved =
        let frame : Registers = record saved { rflags = sanitize_user_rflags saved.rflags } in
        elim (dispatch_cases mem (slot m.table s) frame) [
          | inl (a, e) ↦ rw (a, e, int80_at) (resume-Inside cr3 rflags s m in_user)
          | inr (inl (a, e)) ↦
              rw (a, e, int80_at) (return-Outside cr3 rflags s m in_user yielded _ refl refl refl)
          | inr (inr (a, e)) ↦
              rw (a, e, int80_at)
                (unfold mark_exited in return-Outside cr3 rflags s m in_user exits _ refl refl refl)
        ]

    int80_bridge-at : (f : Registers) → int80_bridge mem f m ≡ int80_at mem f s m
    unfolding int80_bridge
    int80_bridge-at f = ground (arith, in_user.current)

    syscall_at-After :
        (f : Registers) (rsp : ℕ)
        → After cr3 rflags s (syscall_at mem f rsp s m).0 (syscall_at mem f rsp s m).1
    unfolding mark_exited syscall_at
    syscall_at-After saved rsp =
        let frame : Registers = record saved { rflags = sanitize_user_rflags saved.r11 } in
        elim (dispatch_cases mem (slot m.table s) frame) [
          | inl (a, e) ↦ elim (Bool-cases (valid_sysret_target saved.rcx rsp)) [
            | inl target ↦ rw (a, e, syscall_at, target) (resume-Inside cr3 rflags s m in_user)
            | inr bad ↦
                rw (a, e, syscall_at, bad)
                  (return-Outside cr3 rflags s m in_user faults _ refl refl refl)
          ]
          | inr (inl (a, e)) ↦
              let value = (dispatch mem (slot m.table s) frame).0 in
              elim (Bool-cases
                (valid_sysret_context (captured (record frame { rax = value }) sysret))) [
                  | inl target ↦
                      rw (a, e, syscall_at, target)
                        (return-Outside cr3 rflags s m in_user yielded _ refl refl refl)
                  | inr bad ↦
                      rw (a, e, syscall_at, bad)
                        (return-Outside cr3 rflags s m in_user faults _ refl refl refl)
                ]
          | inr (inr (a, e)) ↦
              rw (a, e, syscall_at) (return-Outside cr3 rflags s m in_user exits _ refl refl refl)
        ]

    syscall_bridge-at :
        (f : Registers) (rsp : ℕ) → syscall_bridge mem f rsp m ≡ syscall_at mem f rsp s m
    unfolding syscall_bridge
    syscall_bridge-at f rsp = ground (arith, in_user.current)

  -- The process that the handlers accept is the one that runs.
  validated-here : (validated_current_process m ≡ none) ⊎ (validated_current_process m ≡ some s)
  unfolding validated_current_process
  validated-here = ground (arith, in_user.current)

  preempt-After :
      (f : InterruptFrame)
      → After cr3 rflags s (handle_user_preempt f m).0 (handle_user_preempt f m).1
  unfolding handle_user_preempt capture_interrupt_context
  preempt-After f = elim (Bool-cases (from_user f.registers)) [
    | inr kernel ↦ rw kernel tt
    | inl user ↦ elim validated-here [
      | inl lost ↦ rw (user, lost) tt
      | inr found ↦
          rw (user, found) (return-Outside cr3 rflags s m in_user preempts _ refl refl refl)
    ]
  ]

  fault-After :
      (f : InterruptFrame) (cr2 : ℕ)
      → After cr3 rflags s (handle_user_fault f cr2 m).0 (handle_user_fault f cr2 m).1
  unfolding handle_user_fault capture_interrupt_context mark_exited
  fault-After f cr2 =
      let vector = f.vector % 256 in
      elim (Bool-cases
        (not (from_user f.registers) || (vector == 2) || (vector == 8) || (vector == 18))) [
          | inl fatal ↦ rw fatal tt
          | inr user ↦ elim validated-here [
            | inl lost ↦ rw (user, lost) tt
            | inr found ↦
                rw (user, found) (return-Outside cr3 rflags s m in_user faults _ refl refl refl)
          ]
        ]

  tick-Inside : (b : Bool) → Inside cr3 rflags s (on_timer_tick b m).1
  unfolding on_timer_tick
  tick-Inside b = elim (Bool-cases (not b || (m.quantum == 0))) [
    | inl idle ↦ rw idle in_user
    | inr ticks ↦ rw ticks (record {
      valid = in_user.valid;
      in_range = in_user.in_range;
      here = in_user.here;
      alone = in_user.alone;
      current = in_user.current;
      kept_cr3 = in_user.kept_cr3;
      kept_rflags = in_user.kept_rflags;
    })
  ]

-- While the process in one slot runs, each trap that it makes (a timer tick, a fault, or a system
-- call by either entry) either resumes it, and it is still the only one running and the current
-- one, with the host's saved registers kept; or returns to the host, with a valid table, nobody
-- running, no current process and the host's address space restored; or halts the kernel, of which
-- nothing is said.
pub on_trap-After :
    (mem : UserMemory) (cr3 rflags s : ℕ) (m : Machine) (t : Trap)
    → Inside cr3 rflags s m
    → After cr3 rflags s (on_trap mem t m).0 (on_trap mem t m).1
unfolding on_trap
on_trap-After mem cr3 rflags s m (timer f) v =
    let ticked = tick-Inside cr3 rflags s m v (from_user f.registers) in
    elim (Bool-cases (on_timer_tick (from_user f.registers) m).0) [
      | inl expired ↦ rw expired (preempt-After cr3 rflags s _ ticked f)
      | inr runs ↦ rw runs ticked
    ]
on_trap-After mem cr3 rflags s m (fault f cr2) v = fault-After cr3 rflags s m v f cr2
on_trap-After mem cr3 rflags s m (int80 f) v =
    rw (int80_bridge-at cr3 rflags s m v mem f) (int80_at-After cr3 rflags s m v mem f)
on_trap-After mem cr3 rflags s m (syscall f rsp) v =
    rw (syscall_bridge-at cr3 rflags s m v mem f rsp) (syscall_at-After cr3 rflags s m v mem f rsp)

pub run_user-After :
    (mem : UserMemory) (cr3 rflags s : ℕ) (traps : List Trap) (m : Machine)
    → Inside cr3 rflags s m
    → After cr3 rflags s (run_user mem traps m).0 (run_user mem traps m).1
unfolding run_user
run_user-After mem cr3 rflags s [] m v = v
run_user-After mem cr3 rflags s (t ∷ traps) m v =
    go (on_trap mem t m).0 refl (run_user-After mem cr3 rflags s traps (on_trap mem t m).1)
  where
    go :
        (o : Outcome)
        → (on_trap mem t m).0 ≡ o
        → (Inside cr3 rflags s (on_trap mem t m).1
            → After cr3 rflags s
                (run_user mem traps (on_trap mem t m).1).0
                (run_user mem traps (on_trap mem t m).1).1)
        → After cr3 rflags s (run_user mem (t ∷ traps) m).0 (run_user mem (t ∷ traps) m).1
    go resumed e later =
        rw (e, run_user)
          (later (
            subst (λ o. After cr3 rflags s o (on_trap mem t m).1) e
              (on_trap-After mem cr3 rflags s m t v)))
    go hosted e later =
        rw (e, run_user)
          (subst (λ o. After cr3 rflags s o (on_trap mem t m).1) e
            (on_trap-After mem cr3 rflags s m t v))
    go halted e later = rw (e, run_user) tt
