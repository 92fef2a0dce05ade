-- ===== src/Input/Fifo.antt =====
-- What a queue promises: a first-in first-out list of at most `cap` events, oldest first, that drops
-- what arrives while it is full and answers a read while it is empty with a default event. And what the
-- two queues of the kernel share: the events that an array holds from a running index on.
use linux95_kernel.Prelude.{
  ℕ, zero, suc, ◌+◌, ◌<◌, ◌≡◌, ◌≢◌, refl, ap, ◌∙◌, List, [], ◌∷◌, ◌++◌, ◌==◌, if◌then◌else◌, get_or,
  set, length, arith, get_or-set_self, get_or-set_ne,
}
use mathlib.Core.Path.{ap₂}

pub data Op (A : Type 0) : Type 0 where
  put : A → Op A
  get : Op A

module _ {A : Type 0} (cap : ℕ) (default : A) where
  unfoldable pub push : A → List A → List A
  push x q = if length q == cap then q else q ++ (x ∷ [])

  unfoldable pub pop : List A → A × List A
  pop [] = (default, [])
  pop (x ∷ q) = (x, q)

  -- The events that the reads of a sequence of operations give.
  unfoldable pub run : List (Op A) → List A → List A
  run [] q = []
  run (put x ∷ ops) q = run ops (push x q)
  run (get ∷ ops) q = let (x, q') = pop q in x ∷ run ops q'

module _ {A : Type 0} (default : A) (index : ℕ → ℕ) where
  -- The `n` events from the running index `at` on; `index` says where in the array each stands.
  abbrev pub held : List A → ℕ → ℕ → List A
  held events at zero = []
  held events at (suc n) = get_or events (index at) default ∷ held events (at + 1) n

  pub length-held : (events : List A) (at n : ℕ) → length (held events at n) ≡ n
  length-held events at zero = refl
  length-held events at (suc n) = ap suc (length-held events (at + 1) n)

  pub held-set_other :
      (events : List A) (at n i : ℕ) (x : A)
      → ((k : ℕ) → k < n → i ≢ index (at + k))
      → held (set events i x) at n ≡ held events at n
  held-set_other events at zero i x apart = refl
  held-set_other events at (suc n) i x apart =
      let start : at + 0 ≡ at = omega arith in
      ap₂ ◌∷◌ (get_or-set_ne events i (index at) x default (rw start at (apart 0 (omega arith)))) (
        held-set_other events (at + 1) n i x λ k lt.
          let next : at + 1 + k ≡ at + suc k = omega arith in rw next (apart (suc k) (omega arith)))

  pub held-last :
      (events : List A) (at n : ℕ)
      → held events at (suc n) ≡ held events at n ++ (get_or events (index (at + n)) default ∷ [])
  held-last events at zero = let start : at + 0 ≡ at = omega arith in rw start
  held-last events at (suc n) =
      let next : at + 1 + n ≡ at + suc n = omega arith in
      ap (◌∷◌ (get_or events (index at) default)) (held-last events (at + 1) n ∙ rw next)

  pub held_shift :
      (events : List A) (at at' n : ℕ)
      → ((k : ℕ) → index (at + k) ≡ index (at' + k))
      → held events at n ≡ held events at' n
  held_shift events at at' zero same = refl
  held_shift events at at' (suc n) same =
      let a : at + 0 ≡ at = omega arith in
      let b : at' + 0 ≡ at' = omega arith in
      let here : index at ≡ index at' = rw (a, b) at (same 0) in
      ap₂ ◌∷◌ (ap (λ i. get_or events i default) here) (
        held_shift events (at + 1) (at' + 1) n λ k.
          let c : at + 1 + k ≡ at + suc k = omega arith in
          let d : at' + 1 + k ≡ at' + suc k = omega arith in rw (c, d) (same (suc k)))

  -- An event that is written where the last one goes.
  pub held-set_last :
      (events : List A) (at n i : ℕ) (x : A)
      → i ≡ index (at + n)
      → i < length events
      → ((k : ℕ) → k < n → i ≢ index (at + k))
      → held (set events i x) at (suc n) ≡ held events at n ++ (x ∷ [])
  held-set_last events at n i x e lt apart =
      held-last (set events i x) at n
      ∙ ap₂ (λ xs y. xs ++ (y ∷ [])) (held-set_other events at n i x apart)
          (ap (λ j. get_or (set events i x) j default) (omega (arith, e))
            ∙ get_or-set_self events i x default lt)

-- A queue with a state of its own: what its operations keep, and the events that its state stands for.
module _ {A S : Type 0} (cap : ℕ) (default : A) (insert : S → A → S) (take_out : S → A × S) where
  unfoldable pub replies : List (Op A) → S → List A
  replies [] s = []
  replies (put x ∷ ops) s = replies ops (insert s x)
  replies (get ∷ ops) s = (take_out s).0 ∷ replies ops (take_out s).1

  module _ (Keeps : S → Type 0) (contents : S → List A) where
    pub replies_refine :
        ((s : S) (x : A) → Keeps s → Keeps (insert s x))
        → ((s : S) → Keeps s → Keeps (take_out s).1)
        → ((s : S) (x : A) → Keeps s → contents (insert s x) ≡ push cap default x (contents s))
        → ((s : S)
            → Keeps s
            → ((take_out s).0, contents (take_out s).1) ≡ pop cap default (contents s))
        → (ops : List (Op A)) (s : S) → Keeps s
        → replies ops s ≡ run cap default ops (contents s)
    unfolding replies run
    replies_refine kept_in kept_out in_refines out_refines [] s v = refl
    replies_refine kept_in kept_out in_refines out_refines (put x ∷ ops) s v =
        replies_refine kept_in kept_out in_refines out_refines ops (insert s x) (kept_in s x v)
        ∙ ap (run cap default ops) (in_refines s x v)
    replies_refine kept_in kept_out in_refines out_refines (get ∷ ops) s v =
        ap (◌∷◌ (take_out s).0)
          (replies_refine kept_in kept_out in_refines out_refines ops (take_out s).1 (kept_out s v))
        ∙ ap (λ r. r.0 ∷ run cap default ops r.1) (out_refines s v)
