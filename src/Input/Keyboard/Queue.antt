-- ===== src/Input/Keyboard/Queue.antt =====
-- The keyboard queue is a first-in first-out list of 128 events, also where its counters wrap around.
use linux95_kernel.Prelude.{
  ℕ, suc, ◌+◌, ◌-◌, ◌%◌, ◌^◌, ◌≤◌, ◌<◌, ◌≡◌, ◌≢◌, refl, ap, inl, inr, false, List, ◌==◌, get_or,
  length, length-set, arith, Bool-cases,
}
use linux95_kernel.Input.Fifo
use linux95_kernel.Input.Fifo.{
  Op, put, get, held, length-held, held-set_last, held_shift, replies, replies_refine,
}
use linux95_kernel.Input.Keyboard.{
  KeyEvent, EventQueue, queue_capacity, no_event, queued, push, pop,
}

pub record IsValid (q : EventQueue) : Type 0 where
  pub size : length q.events ≡ queue_capacity
  pub head_small : q.head < 2 ^ 32
  pub tail_small : q.tail < 2 ^ 32
  pub bounded : queued q ≤ queue_capacity

abbrev pub place : ℕ → ℕ
place at = at % 128

-- The events of the queue, oldest first.
abbrev pub contents : EventQueue → List KeyEvent
contents q = held no_event place q.events q.tail (queued q)

module _ (q : EventQueue) (v : IsValid q) where
  push-IsValid : (event : KeyEvent) → IsValid (push q event).1
  unfolding push
  push-IsValid event = ground (arith, v, length-set q.events (q.head % 128) event)

  pop-IsValid : IsValid (pop q).1
  unfolding pop
  pop-IsValid = ground (arith, v)

  length-contents : length (contents q) ≡ queued q
  length-contents = length-held no_event place q.events q.tail (queued q)

  push_refines :
      (event : KeyEvent)
      → contents (push q event).1 ≡ Fifo.push queue_capacity no_event event (contents q)
  unfolding push Fifo.push
  push_refines event = elim (Bool-cases (queued q == queue_capacity)) [
    | inl full ↦ rw (length-contents, full, push, Fifo.push) refl
    | inr room ↦
        let bound = v.bounded in
        let h = v.head_small in
        let t = v.tail_small in
        let ne : queued q ≢ queue_capacity = grind (room, arith) in
        let next : ((q.head + 1) % 2 ^ 32 + 2 ^ 32 - q.tail) % 2 ^ 32 ≡ suc (queued q) =
          omega (arith, bound, h, t, ne) in
        let here : q.head % 128 ≡ (q.tail + queued q) % 128 = omega (arith, bound, h, t, ne) in
        let small : q.head % 128 < length q.events = omega (arith, v.size) in
        rw (length-contents, room, push, Fifo.push, next)
          (held-set_last no_event place q.events q.tail (queued q) (q.head % 128) event here small
            λ k lt. omega (arith, bound, h, t, ne, lt))
  ]

  pop_refines_more :
      (n : ℕ)
      → queued q ≡ suc n
      → (q.head == q.tail) ≡ false
      → ((pop q).0, contents (pop q).1) ≡ Fifo.pop queue_capacity no_event (contents q)
  unfolding pop Fifo.pop
  pop_refines_more n more ne =
      let h = v.head_small in
      let t = v.tail_small in
      let left : (q.head + 2 ^ 32 - (q.tail + 1) % 2 ^ 32) % 2 ^ 32 ≡ n =
        omega (arith, h, t, more) in
      rw (ne, pop, left, more, Fifo.pop)
        (ap (λ es. (get_or q.events (q.tail % 128) no_event, es))
          (held_shift no_event place q.events ((q.tail + 1) % 2 ^ 32) (q.tail + 1) n
            λ k. omega arith))

  -- A read, and what it leaves in the queue.
  pop_refines : ((pop q).0, contents (pop q).1) ≡ Fifo.pop queue_capacity no_event (contents q)
  unfolding pop Fifo.pop
  pop_refines = elim (Bool-cases (q.head == q.tail)) [
    | inl empty ↦
        let h = v.head_small in
        let same : q.head ≡ q.tail = grind (empty, arith) in
        let none_left : queued q ≡ 0 = omega (arith, same, h) in
        rw (empty, pop, none_left, Fifo.pop) refl
    | inr held_some ↦
        let h = v.head_small in
        let t = v.tail_small in
        let ne : q.head ≢ q.tail = grind (held_some, arith) in
        pop_refines_more (queued q - 1) (omega (arith, h, t, ne)) held_some
  ]

-- From any state of the keyboard queue with its 128 slots and 32-bit counters at most 128 apart,
-- also where the counters wrap around: any sequence of arrivals and reads gives the same answers as
-- a first-in first-out list of at most 128 events that drops what arrives while it is full.
pub run_refines :
    (ops : List (Op KeyEvent)) (q : EventQueue)
    → IsValid q
    → replies queue_capacity no_event (λ q event. (push q event).1) pop ops q
      ≡ Fifo.run queue_capacity no_event ops (contents q)
run_refines ops q v =
    replies_refine queue_capacity no_event (λ q event. (push q event).1) pop IsValid contents
      (λ q event v. push-IsValid q v event) pop-IsValid (λ q event v. push_refines q v event)
      pop_refines ops q v
