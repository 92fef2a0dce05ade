-- ===== src/Input/Tests.antt =====
-- The two queues and the two decoders at small inputs.
use linux95_kernel.Prelude.{
  ◌∷◌, [], ◌≡◌, refl, true, false, some, List, replicate, arith, ◌||◌, if◌then◌else◌, test_bit, pos,
  negsuc,
}
use linux95_kernel.Input.Fifo
use linux95_kernel.Input.Fifo.{Op, put, get, replies}
use linux95_kernel.Input.Keyboard
use linux95_kernel.Input.Keyboard.{
  KeyEvent, EventQueue, Decoder, queue_capacity, character, delete, feed,
}
use linux95_kernel.Input.Keyboard.Decoding.{feed_mirrors, event_of}
use linux95_kernel.Input.Keyboard.Queue
use linux95_kernel.Input.Keyboard.Queue.{run_refines}
use linux95_kernel.Input.Mouse
use linux95_kernel.Input.Mouse.{MouseEvent, Events, event_capacity, push_event, read_event, on_irq}
use linux95_kernel.Input.Mouse.Packets
use linux95_kernel.Input.Mouse.Packets.{packet_lem}
use linux95_kernel.Input.Mouse.Queue.{events_refine, contents}

-- The letter a.
abbrev letter : KeyEvent
letter = record { key = character; byte = 97; ctrl = false; shift = false; pressed = true }

-- An empty queue whose counters are about to wrap around.
abbrev late_queue : EventQueue
late_queue = record {
  events = replicate 128 Keyboard.no_event;
  head = 4294967295;
  tail = 4294967295;
}

late_queue-IsValid : Queue.IsValid late_queue
late_queue-IsValid = record {
  size = refl;
  head_small = omega arith;
  tail_small = omega arith;
  bounded = omega arith;
}

abbrev key_ops : List (Op KeyEvent)
key_ops = put letter ∷ put (record letter { byte = 98 }) ∷ get ∷ get ∷ get ∷ []

run_refines_example :
    replies queue_capacity Keyboard.no_event
      (λ q event. (Keyboard.push q event).1)
      Keyboard.pop
      key_ops
      late_queue
    ≡ Fifo.run queue_capacity Keyboard.no_event key_ops (Queue.contents late_queue)
run_refines_example = run_refines key_ops late_queue late_queue-IsValid

wrapped_run :
    Fifo.run queue_capacity Keyboard.no_event key_ops []
    ≡ letter ∷ record letter { byte = 98 } ∷ Keyboard.no_event ∷ []
unfolding Fifo.run Fifo.push Fifo.pop
wrapped_run = refl

abbrev pressed_e0 : Decoder
pressed_e0 = record Keyboard.reset { extended = true; right_ctrl = true }

feed_mirrors_example :
    (feed pressed_e0 0x53
      ≡ (some (event_of pressed_e0 0x53 true), record pressed_e0 { extended = false }))
    × (feed pressed_e0 0xD3
        ≡ (some (event_of pressed_e0 0x53 false), record pressed_e0 { extended = false }))
feed_mirrors_example = feed_mirrors pressed_e0 0x53 (omega arith) (omega arith) refl

abbrev no_mouse_events : Events
no_mouse_events = record { events = replicate 64 Mouse.no_event; head = 63; tail = 63; count = 0 }

no_mouse_events-IsValid : Mouse.Queue.IsValid no_mouse_events
no_mouse_events-IsValid = record {
  size = refl;
  tail_small = omega arith;
  bounded = omega arith;
  head_at = refl;
}

abbrev mouse_ops : List (Op MouseEvent)
mouse_ops =
    put (record Mouse.no_event { dx = pos 3 })
    ∷ put (record Mouse.no_event { left = true })
    ∷ get
    ∷ get
    ∷ []

events_refine_example :
    replies event_capacity Mouse.no_event push_event read_event mouse_ops no_mouse_events
    ≡ Fifo.run event_capacity Mouse.no_event mouse_ops (contents no_mouse_events)
events_refine_example = events_refine mouse_ops no_mouse_events no_mouse_events-IsValid

abbrev idle_mouse : Mouse.Mouse
idle_mouse = record {
  decoder = record { packet0 = 8; packet1 = 1; packet2 = 1; index = 0 };
  queue = no_mouse_events;
}

packet_lem_example :
    let m' = on_irq (on_irq (on_irq idle_mouse 0x19) 0xFE) 5 in
    (m'.decoder.index ≡ 0)
    × (contents m'.queue ≡ (
        if test_bit 0x19 6 || test_bit 0x19 7
        then contents no_mouse_events
        else Fifo.push event_capacity Mouse.no_event
            (Packets.event_of 0x19 0xFE 5)
            (contents no_mouse_events)))
unfolding test_bit
packet_lem_example =
    packet_lem idle_mouse 0x19 0xFE 5 refl (omega arith) refl (omega arith) (omega arith)
      no_mouse_events-IsValid

-- Two to the left, five up, the left button.
packet_run :
    Packets.event_of 0x19 0xFE 5
    ≡ record { dx = negsuc 1; dy = pos 5; left = true; right = false; middle = false }
unfolding test_bit
packet_run = refl
