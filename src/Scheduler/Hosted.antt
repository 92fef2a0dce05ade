-- ===== src/Scheduler/Hosted.antt =====
-- What run_once leaves behind when it is back in the host, whatever the user process does.
use linux95_kernel.Prelude.{
  ℕ, ◌<◌, ◌≡◌, ◌≢◌, refl, ap, sym, ◌∙◌, inl, inr, Bool, true, false, not, none, some, ◌==◌,
  length-set, arith, Bool-cases,
}
use mathlib.Core.Path.{subst}
use linux95_kernel.Process.{Table, Process, running, slot, put, capacity, is_unused, is_running}
use linux95_kernel.Process.Pids.{IsValid, is_live, slot-set_self, slot-set_ne}
use linux95_kernel.Scheduler.{
  Machine, HostReason, Outcome, resumed, hosted, halted, return_to_host, update,
}

-- A process may take the place of the one in slot `s`: it has its id, and is not unused.
pub record Replaces (t : Table) (s : ℕ) (p : Process) : Type 0 where
  pub in_range : s < capacity
  pub was_live : is_live t s ≡ true
  pub same_pid : p.pid ≡ (slot t s).pid
  pub live : not (is_unused p.state) ≡ true

module _ (t : Table) (s : ℕ) (p : Process) (v : IsValid t) (r : Replaces t s p) where
  pub slot-put : slot (put t s p) s ≡ p
  slot-put = slot-set_self t.slots s p (omega (arith, r.in_range, v.size))

  put-same :
      (j : ℕ)
      → is_live (put t s p) j ≡ true
      → (is_live t j ≡ true) × ((slot (put t s p) j).pid ≡ (slot t j).pid)
  put-same j live = elim (Bool-cases (s == j)) [
    | inl same ↦
        let e : s ≡ j = ground arith in
        subst (λ k. (is_live t k ≡ true) × ((slot (put t s p) k).pid ≡ (slot t k).pid)) e
          (r.was_live, ap (λ q. q.pid) slot-put ∙ r.same_pid)
    | inr differ ↦
        let kept = slot-set_ne t.slots s j p (ground arith) in
        (rw kept at live, ap (λ q. q.pid) kept)
  ]

  pub put-IsValid : IsValid (put t s p)
  put-IsValid = record {
    size = length-set t.slots s p ∙ v.size;
    below = λ j live. let (old, e) = put-same j live in rw e (v.below j old);
    distinct = λ j k lj lk e.
        let (oj, ej) = put-same j lj in
        let (ok, ek) = put-same k lk in v.distinct j k oj ok (sym ej ∙ e ∙ ek);
    next_pos = v.next_pos;
  }

abbrev pub running_at : Table → ℕ → Bool
running_at t i = is_running (slot t i).state

-- While a user process runs: it alone is in state Running, in slot `s`, which the processor's local
-- state names, and the host's registers are kept.
pub record Inside (cr3 rflags s : ℕ) (m : Machine) : Type 0 where
  pub valid : IsValid m.table
  pub in_range : s < capacity
  pub here : (slot m.table s).state ≡ running
  pub alone : (j : ℕ) → s ≢ j → running_at m.table j ≡ false
  pub current : m.current ≡ some s
  pub kept_cr3 : m.host_cr3 ≡ cr3
  pub kept_rflags : m.host_rflags ≡ rflags

-- In the host: no process is in state Running, the processor's local state names none, and the address
-- space is the host's.
pub record Outside (cr3 rflags : ℕ) (m : Machine) : Type 0 where
  pub valid : IsValid m.table
  pub idle : (j : ℕ) → running_at m.table j ≡ false
  pub current : m.current ≡ none
  pub same_cr3 : m.cr3 ≡ cr3
  pub kept_rflags : m.host_rflags ≡ rflags

module _ (cr3 rflags s : ℕ) (m : Machine) (in_user : Inside cr3 rflags s m) where
  was_live : is_live m.table s ≡ true
  was_live = ap (λ x. not (is_unused x)) in_user.here

  -- Returning to the host, with the process no longer running.
  pub return-Outside :
      (reason : HostReason) (p : Process)
      → p.pid ≡ (slot m.table s).pid
      → not (is_unused p.state) ≡ true
      → is_running p.state ≡ false
      → Outside cr3 rflags (return_to_host reason (update s (λ _. p) m))
  unfolding return_to_host
  return-Outside reason p same live stopped =
      let r : Replaces m.table s p = record {
        in_range = in_user.in_range;
        was_live = was_live;
        same_pid = same;
        live = live;
      } in
      record {
        valid = put-IsValid m.table s p in_user.valid r;
        idle = λ j. elim (Bool-cases (s == j)) [
          | inl e ↦
              let e' : s ≡ j = ground arith in
              subst (λ k. running_at (put m.table s p) k ≡ false) e'
                (ap (λ q. is_running q.state) (slot-put m.table s p in_user.valid r) ∙ stopped)
          | inr ne ↦
              ap (λ q. is_running q.state) (slot-set_ne m.table.slots s j p (ground arith))
              ∙ in_user.alone j (ground arith)
        ];
        current = refl;
        same_cr3 = in_user.kept_cr3;
        kept_rflags = in_user.kept_rflags;
      }

  -- A trap that leaves the process as it was.
  pub resume-Inside : Inside cr3 rflags s (update s (λ p. p) m)
  resume-Inside =
      let r : Replaces m.table s (slot m.table s) = record {
        in_range = in_user.in_range;
        was_live = was_live;
        same_pid = refl;
        live = was_live;
      } in
      record {
        valid = put-IsValid m.table s (slot m.table s) in_user.valid r;
        in_range = in_user.in_range;
        here =
            ap (λ q. q.state) (slot-put m.table s (slot m.table s) in_user.valid r) ∙ in_user.here;
        alone = λ j ne.
            ap (λ q. is_running q.state) (slot-set_ne m.table.slots s j (slot m.table s) ne)
            ∙ in_user.alone j ne;
        current = in_user.current;
        kept_cr3 = in_user.kept_cr3;
        kept_rflags = in_user.kept_rflags;
      }

-- What holds of the machine after a trap, by its outcome.
abbrev pub After : ℕ → ℕ → ℕ → Outcome → Machine → Type 0
After cr3 rflags s resumed m = Inside cr3 rflags s m
After cr3 rflags s hosted m = Outside cr3 rflags m
After cr3 rflags s halted m = Unit {0}
