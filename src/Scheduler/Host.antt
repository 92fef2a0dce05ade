-- ===== src/Scheduler/Host.antt =====
-- run_once: what the host finds when it returns.
use linux95_kernel.Prelude.{
  ℕ, ◌<◌, ◌≡◌, refl, ap, ◌∙◌, inl, inr, Bool, true, false, not, none, some, List, ltb, ◌==◌, arith,
  Bool-cases, Option-cases,
}
use mathlib.Core.Path.{subst}
use linux95_kernel.Process.{
  Process, State, running, exited, ReapOperations, UserContext, is_ready, slot, put, capacity,
  is_unused, is_running, is_exited, mark_exited, reap_exited,
}
use linux95_kernel.Process.Pids.{IsValid, slot-set_ne, slot-beyond}
use linux95_kernel.Process.Reap.{reap_exited_lem}
use linux95_kernel.Scheduler.{
  cannot_return, finish, Machine, Trap, Outcome, resumed, hosted, halted, UserMemory, choose_next,
  run_user, run_once, reap, enter, leave, update, reset_user_quantum, sanitize_user_rflags,
  negative,
}
use linux95_kernel.Scheduler.RoundRobin.{choose_next-nearest}
use linux95_kernel.Scheduler.Traps.{run_user-After}
use linux95_kernel.Scheduler.Hosted.{
  Inside, Outside, After, Replaces, slot-put, put-IsValid, running_at,
}

-- In the host, between calls of run_once.
pub record AtHost (m : Machine) : Type 0 where
  pub valid : IsValid m.table
  pub idle : (j : ℕ) → running_at m.table j ≡ false
  pub current : m.current ≡ none

ready_live : (x : State) → is_ready x ≡ true → not (is_unused x) ≡ true
ready_live x h = ground arith

module _ (m : Machine) (v : AtHost m) (s : ℕ) (small : s < capacity)
    (is : is_ready (slot m.table s).state ≡ true) where
  pub enter-Inside : Inside m.cr3 m.rflags s (enter s m)
  unfolding enter reset_user_quantum
  enter-Inside =
      let p = slot m.table s in
      let clean : UserContext = record p.context {
        registers = record p.context.registers {
          rflags = sanitize_user_rflags p.context.registers.rflags;
        };
      } in
      let q : Process = record p { state = running; context = clean } in
      let r : Replaces m.table s q = record {
        in_range = small;
        was_live = ready_live _ is;
        same_pid = refl;
        live = refl;
      } in
      record {
        valid = put-IsValid m.table s q v.valid r;
        in_range = small;
        here = ap (λ x. x.state) (slot-put m.table s q v.valid r);
        alone =
            λ j ne. ap (λ x. is_running x.state) (slot-set_ne m.table.slots s j q ne) ∙ v.idle j;
        current = refl;
        kept_cr3 = refl;
        kept_rflags = refl;
      }

-- Reaping, and the end of run_once, from a machine that is back in the host.
Outside-rflags :
    (cr3 rflags : ℕ) (m : Machine)
    → Outside cr3 rflags m
    → Outside cr3 rflags (record m { rflags = m.host_rflags })
Outside-rflags cr3 rflags m v = record {
  valid = v.valid;
  idle = v.idle;
  current = v.current;
  same_cr3 = v.same_cr3;
  kept_rflags = v.kept_rflags;
}

module _ (ops : ReapOperations) (cr3 rflags : ℕ) (m : Machine) (v : Outside cr3 rflags m) where
  -- What run_once gives back to the host.
  reap-AtHost : AtHost (reap ops m)
  unfolding reap
  reap-AtHost =
      let (slots, valid) = reap_exited_lem ops m.table v.valid in
      record {
        valid = valid;
        idle = λ j. elim (Bool-cases (ltb j capacity)) [
          | inl lt ↦ ground (arith, slots j (ground arith), v.idle j)
          | inr out ↦ ground (arith, slot-beyond (reap_exited ops m.table).1 j valid (ground arith))
        ];
        current = refl;
      }

  reap-registers : ((reap ops m).cr3 ≡ m.cr3) × ((reap ops m).rflags ≡ m.rflags)
  unfolding reap
  reap-registers = (refl, refl)

leave-AtHost :
    (ops : ReapOperations) (cr3 rflags s : ℕ) (m : Machine)
    → Outside cr3 rflags m
    → AtHost (leave ops s m) × ((leave ops s m).cr3 ≡ cr3) × ((leave ops s m).rflags ≡ rflags)
unfolding leave
leave-AtHost ops cr3 rflags s m v =
    let restored : Machine = record m { rflags = m.host_rflags } in
    let v' = Outside-rflags cr3 rflags m v in
    elim (Bool-cases (is_exited (slot m.table s).state)) [
      | inl gone ↦ rw gone (
        reap-AtHost ops cr3 rflags restored v',
        (reap-registers ops cr3 rflags restored v').0 ∙ v.same_cr3,
        (reap-registers ops cr3 rflags restored v').1 ∙ v.kept_rflags,
      )
      | inr there ↦ rw there (
        record { valid = v.valid; idle = v.idle; current = v.current },
        v.same_cr3,
        v.kept_rflags,
      )
    ]

-- What one call of run_once leads to.
abbrev pub Ran : Machine → Outcome → Bool → Machine → Type 0
Ran m hosted false after = after ≡ m
Ran m hosted true after = AtHost after × (after.cr3 ≡ m.cr3) × (after.rflags ≡ m.rflags)
Ran m resumed b after = (s : ℕ) × Inside m.cr3 m.rflags s after
Ran m halted b after = Unit {0}

finish-Ran :
    (mem : UserMemory) (ops : ReapOperations) (s : ℕ) (m : Machine) (o : Outcome) (m' : Machine)
    → After m.cr3 m.rflags s o m'
    → let (outcome, ran, after) = finish mem ops s o m' in Ran m outcome ran after
unfolding finish
finish-Ran mem ops s m resumed m' v = (s, v)
finish-Ran mem ops s m hosted m' v = leave-AtHost ops m.cr3 m.rflags s m' v
finish-Ran mem ops s m halted m' v = tt

-- A process that cannot be returned to is marked exited without running.
broken-Outside :
    (m : Machine) (s code : ℕ)
    → AtHost m
    → s < capacity
    → is_ready (slot m.table s).state ≡ true
    → Outside m.cr3 m.host_rflags
        (update s (λ p. mark_exited p code) (record m { previous_slot = some s }))
unfolding mark_exited
broken-Outside m s code v small is =
    let q : Process = record (slot m.table s) { exit_code = code; state = exited } in
    let r : Replaces m.table s q = record {
      in_range = small;
      was_live = ready_live _ is;
      same_pid = refl;
      live = refl;
    } in
    record {
      valid = put-IsValid m.table s q v.valid r;
      idle = λ j. elim (Bool-cases (s == j)) [
        | inl e ↦
            let e' : s ≡ j = ground arith in
            subst (λ k. running_at (put m.table s q) k ≡ false) e'
              (ap (λ x. is_running x.state) (slot-put m.table s q v.valid r))
        | inr ne ↦
            ap (λ x. is_running x.state) (slot-set_ne m.table.slots s j q (ground arith)) ∙ v.idle j
      ];
      current = v.current;
      same_cr3 = refl;
      kept_rflags = refl;
    }

-- From a host state (a valid process table, nobody running, no current process), whatever traps the
-- user process makes and whatever user memory it can read: if run_once returns true, the state is
-- such a host state again, and the address space and flags are what they were before; if it returns
-- false, nothing has changed; and while the process still runs, it alone is in state Running.
-- Nothing is said of a trap that the kernel halts on.
pub run_once_lem :
    (mem : UserMemory) (ops : ReapOperations) (traps : List Trap) (m : Machine)
    → AtHost m
    → let (outcome, ran, after) = run_once mem ops traps m in Ran m outcome ran after
unfolding run_once
run_once_lem mem ops traps m v =
    elim (Option-cases (choose_next m.table.slots capacity m.previous_slot)) [
      | inl nobody ↦ rw (nobody, run_once) refl
      | inr (s, chosen) ↦
          let (small, is, nearest) = choose_next-nearest m.table.slots m.previous_slot s chosen in
          elim (Bool-cases (cannot_return (slot m.table s).context)) [
            | inl broken ↦
                let out = broken-Outside m s (negative 14) v small is in
                let reaped = reap-AtHost ops m.cr3 m.host_rflags _ out in
                let kept = reap-registers ops m.cr3 m.host_rflags _ out in
                rw (chosen, run_once, broken) (reaped, kept.0, kept.1)
            | inr fine ↦
                let ended =
                  run_user-After mem m.cr3 m.rflags s traps (enter s m)
                    (enter-Inside m v s small is) in
                rw (chosen, run_once, fine)
                  (finish-Ran mem ops s m (run_user mem traps (enter s m)).0
                    (run_user mem traps (enter s m)).1 ended)
          ]
    ]
