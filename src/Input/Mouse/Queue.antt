-- ===== src/Input/Mouse/Queue.antt =====
-- The mouse queue is a first-in first-out list of 64 events.
use linux95_kernel.Prelude.{
  ℕ, suc, ◌+◌, ◌-◌, ◌%◌, ◌^◌, ◌≤◌, ◌<◌, ◌≡◌, ◌≢◌, refl, inl, inr, false, List, ◌==◌, get_or, length,
  length-set, arith, Bool-cases,
}
use mathlib.Core.Path.{ap₂}
use linux95_kernel.Input.Fifo
use linux95_kernel.Input.Fifo.{
  Op, held, length-held, held-set_last, held_shift, replies, replies_refine,
}
use linux95_kernel.Input.Mouse.{
  MouseEvent, Events, event_capacity, no_event, push_event, read_event,
}

pub record IsValid (q : Events) : Type 0 where
  pub size : length q.events ≡ event_capacity
  pub tail_small : q.tail < event_capacity
  pub bounded : q.count ≤ event_capacity
  pub head_at : q.head ≡ (q.tail + q.count) % event_capacity

abbrev pub place : ℕ → ℕ
place at = at % 64

-- The events of the queue, oldest first.
abbrev pub contents : Events → List MouseEvent
contents q = held no_event place q.events q.tail q.count

module _ (q : Events) (v : IsValid q) where
  pub push-IsValid : (event : MouseEvent) → IsValid (push_event q event)
  unfolding push_event
  push-IsValid event = ground (arith, v, length-set q.events q.head event)

  pub pop-IsValid : IsValid (read_event q).1
  unfolding read_event
  pop-IsValid = ground (arith, v)

  length-contents : length (contents q) ≡ q.count
  length-contents = length-held no_event place q.events q.tail q.count

  pub push_refines :
      (event : MouseEvent)
      → contents (push_event q event) ≡ Fifo.push event_capacity no_event event (contents q)
  unfolding push_event Fifo.push
  push_refines event = elim (Bool-cases (q.count == event_capacity)) [
    | inl full ↦ rw (length-contents, full, push_event, Fifo.push) refl
    | inr room ↦
        let bound = v.bounded in
        let here = v.head_at in
        let ne : q.count ≢ event_capacity = grind (room, arith) in
        let next : (q.count + 1) % 2 ^ 8 ≡ suc q.count = omega (arith, bound) in
        let small : q.head < length q.events = omega (arith, v.size, here) in
        rw (length-contents, room, push_event, Fifo.push, next)
          (held-set_last no_event place q.events q.tail q.count q.head event here small
            λ k lt. omega (arith, bound, here, ne, lt))
  ]

  pop_refines_more :
      (n : ℕ)
      → q.count ≡ suc n
      → (q.count == 0) ≡ false
      → ((read_event q).0, contents (read_event q).1)
        ≡ Fifo.pop event_capacity no_event (contents q)
  unfolding read_event Fifo.pop
  pop_refines_more n more ne =
      let t = v.tail_small in
      let bound = v.bounded in
      let same : q.tail ≡ q.tail % 64 = omega (arith, t) in
      let left : (q.count + 2 ^ 8 - 1) % 2 ^ 8 ≡ n = omega (arith, more, bound) in
      rw (ne, read_event, left, more, Fifo.pop)
        (ap₂ (λ at es. (get_or q.events at no_event, es)) same
          (held_shift no_event place q.events ((q.tail + 1) % 64 % 2 ^ 8) (q.tail + 1) n
            λ k. omega arith))

  -- A read, and what it leaves in the queue.
  pub pop_refines :
      ((read_event q).0, contents (read_event q).1) ≡ Fifo.pop event_capacity no_event (contents q)
  unfolding read_event Fifo.pop
  pop_refines = elim (Bool-cases (q.count == 0)) [
    | inl empty ↦
        let none_left : q.count ≡ 0 = grind (empty, arith) in
        rw (empty, read_event, none_left, Fifo.pop) refl
    | inr held_some ↦
        let ne : q.count ≢ 0 = grind (held_some, arith) in
        pop_refines_more (q.count - 1) (omega (arith, ne)) held_some
  ]

-- From any state of the mouse queue whose head is its count behind its tail: any sequence of
-- arrivals and reads gives the same answers as a first-in first-out list of at most 64 events that
-- drops what arrives while it is full.
pub events_refine :
    (ops : List (Op MouseEvent)) (q : Events)
    → IsValid q
    → replies event_capacity no_event push_event read_event ops q
      ≡ Fifo.run event_capacity no_event ops (contents q)
events_refine ops q v =
    replies_refine event_capacity no_event push_event read_event IsValid contents
      (λ q event v. push-IsValid q v event) pop-IsValid (λ q event v. push_refines q v event)
      pop_refines ops q v
