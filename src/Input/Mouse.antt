-- ===== src/Input/Mouse.antt =====
-- kernel/arch/mouse_helpers.hpp: the class PacketDecoder, which turns the bytes of a PS/2 mouse into
-- events; and kernel/arch/mouse.cpp: the queue of 64 events and the interrupt handler that fills it.
-- `byte` is what io::inb(0x60) reads.
pub mod Queue
pub mod Packets
use linux95_kernel.Prelude.{
  ℕ, zero, suc, ◌+◌, ◌-◌, ◌%◌, ◌^◌, Bool, true, false, ◌||◌, not, Option, none, some, List, [], ◌∷◌,
  ◌==◌, if◌then◌else◌, get_or, set, test_bit, ℤ, pos, to_int16,
}

pub record MouseEvent : Type 0 where
  pub dx : ℤ
  pub dy : ℤ
  pub left : Bool
  pub right : Bool
  pub middle : Bool

abbrev pub no_event : MouseEvent
no_event = record { dx = pos 0; dy = pos 0; left = false; right = false; middle = false }

-- `packet0` to `packet2` are packet_[0] to packet_[2].
pub record PacketDecoder : Type 0 where
  pub packet0 : ℕ
  pub packet1 : ℕ
  pub packet2 : ℕ
  pub index : ℕ

unfoldable pub reset : PacketDecoder → PacketDecoder
reset d = record { packet0 = 0; packet1 = 0; packet2 = 0; index = 0 }

-- The bits that `| 0xFF00` sets stand above a byte, so it is an addition.
unfoldable pub decode_axis : ℕ → Bool → ℤ
decode_axis raw negative = if negative then to_int16 (raw + 0xFF00) else to_int16 raw

unfoldable pub feed : PacketDecoder → ℕ → Option MouseEvent × PacketDecoder
feed d byte =
    if d.index == 0
    then if byte == 0xFA
      then (none, d)
      else if not (test_bit byte 3)
      then (none, d)
      else (none, record d { packet0 = byte; index = 1 })
    else if d.index == 1
    then (none, record d { packet1 = byte; index = 2 })
    else let d' = record d { packet2 = byte; index = 0 } in
      let flags = d.packet0 in
      if test_bit flags 6 || test_bit flags 7 then (none, d') else (
        some (record {
          dx = decode_axis d.packet1 (test_bit flags 4);
          dy = decode_axis byte (test_bit flags 5);
          left = test_bit flags 0;
          right = test_bit flags 1;
          middle = test_bit flags 2;
        }),
        d',
      )

-- kEventCapacity
abbrev pub event_capacity : ℕ
event_capacity = 64

-- g_events, g_head, g_tail and g_count, three uint8_t.
pub record Events : Type 0 where
  pub events : List MouseEvent
  pub head : ℕ
  pub tail : ℕ
  pub count : ℕ

unfoldable pub reset_queue : Events → Events
reset_queue q = record q { head = 0; tail = 0; count = 0 }

unfoldable pub push_event : Events → MouseEvent → Events
push_event q event = if q.count == event_capacity then q else record q {
  events = set q.events q.head event;
  head = (q.head + 1) % event_capacity % 2 ^ 8;
  count = (q.count + 1) % 2 ^ 8;
}

unfoldable pub has_event : Events → Bool
has_event q = not (q.count == 0)

unfoldable pub read_event : Events → MouseEvent × Events
read_event q = if q.count == 0 then (no_event, q) else (
  get_or q.events q.tail no_event,
  record q { tail = (q.tail + 1) % event_capacity % 2 ^ 8; count = (q.count + 2 ^ 8 - 1) % 2 ^ 8 },
)

-- g_decoder and the queue.
pub record Mouse : Type 0 where
  pub decoder : PacketDecoder
  pub queue : Events

unfoldable pub on_irq : Mouse → ℕ → Mouse
on_irq m byte =
    let (event, d) = feed m.decoder byte in
    elim event [
      | none ↦ record { decoder = d; queue = m.queue }
      | some e ↦ record { decoder = d; queue = push_event m.queue e }
    ]
