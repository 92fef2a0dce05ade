-- ===== src/Input/Mouse/Packets.antt =====
-- A packet of three bytes reaches the queue as one event, and the decoder is idle again.
use linux95_kernel.Prelude.{
  ℕ, ◌-◌, ◌<◌, ◌≡◌, ◌≢◌, refl, ap, ◌∙◌, inl, inr, Bool, true, false, ◌||◌, none, some, ◌==◌,
  if◌then◌else◌, test_bit, arith, Bool-cases, ℤ, pos, negsuc, to_int16,
}
use linux95_kernel.Input.Fifo
use linux95_kernel.Input.Mouse.{
  MouseEvent, Events, event_capacity, no_event, push_event, Mouse, on_irq, feed, decode_axis,
}
use linux95_kernel.Input.Mouse.Queue.{IsValid, contents, push_refines}

-- The displacement that nine bits in two's complement give: the sign bit counts for -256.
abbrev pub nine_bit : ℕ → Bool → ℤ
nine_bit raw sign = if sign then negsuc (255 - raw) else pos raw

pub decode_axis_lem : (raw : ℕ) (sign : Bool) → raw < 256 → decode_axis raw sign ≡ nine_bit raw sign
unfolding decode_axis to_int16
decode_axis_lem raw sign lt = ground arith

-- The event that a packet describes.
abbrev pub event_of : ℕ → ℕ → ℕ → MouseEvent
event_of flags x y = record {
  dx = nine_bit x (test_bit flags 4);
  dy = nine_bit y (test_bit flags 5);
  left = test_bit flags 0;
  right = test_bit flags 1;
  middle = test_bit flags 2;
}

abbrev mouse_at : ℕ → ℕ → ℕ → ℕ → Events → Mouse
mouse_at a b c index q = record {
  decoder = record { packet0 = a; packet1 = b; packet2 = c; index = index };
  queue = q;
}

module _ (flags x y a b c : ℕ) (q : Events) where
  -- The three bytes of a packet, one by one.
  header_step :
      flags ≢ 0xFA
      → test_bit flags 3 ≡ true
      → on_irq (mouse_at a b c 0 q) flags ≡ mouse_at flags b c 1 q
  unfolding on_irq feed
  header_step not_ack sync =
      let ack : (flags == 0xFA) ≡ false = ground (arith, not_ack) in
      let fed : feed (mouse_at a b c 0 q).decoder flags ≡ (none, (mouse_at flags b c 1 q).decoder) =
        rw (ack, sync, feed) refl in
      simp (fed, on_irq)

  x_step : on_irq (mouse_at flags b c 1 q) x ≡ mouse_at flags x c 2 q
  unfolding on_irq feed
  x_step = refl

  y_step :
      x < 256
      → y < 256
      → on_irq (mouse_at flags x c 2 q) y
        ≡ mouse_at flags x y 0
            (if test_bit flags 6 || test_bit flags 7 then q else push_event q (event_of flags x y))
  unfolding on_irq feed
  y_step x_byte y_byte =
      let dx = decode_axis_lem x (test_bit flags 4) x_byte in
      let dy = decode_axis_lem y (test_bit flags 5) y_byte in
      elim (Bool-cases (test_bit flags 6 || test_bit flags 7)) [
        | inl overflow ↦
            let fed : feed (mouse_at flags x c 2 q).decoder y
                ≡ (none, (mouse_at flags x y 0 q).decoder) =
              rw (overflow, feed) refl in
            rw (fed, overflow, on_irq) refl
        | inr fine ↦
            let fed : feed (mouse_at flags x c 2 q).decoder y
                ≡ (some (event_of flags x y), (mouse_at flags x y 0 q).decoder) =
              rw (fine, dx, dy, feed) refl in
            rw (fed, fine, on_irq) refl
      ]

  packet_queue :
      IsValid q
      → contents
          (if test_bit flags 6 || test_bit flags 7 then q else push_event q (event_of flags x y))
        ≡ (if test_bit flags 6 || test_bit flags 7
            then contents q
            else Fifo.push event_capacity no_event (event_of flags x y) (contents q))
  packet_queue v = elim (Bool-cases (test_bit flags 6 || test_bit flags 7)) [
    | inl overflow ↦ rw overflow refl
    | inr fine ↦ rw fine (push_refines q v (event_of flags x y))
  ]

-- From an idle decoder and a valid queue, three interrupts whose first byte has bit 3 set and is no
-- acknowledgement leave the decoder idle. If neither overflow bit is set they queue one event,
-- whose displacements are the nine-bit numbers of the packet and whose buttons are its bits; else
-- they queue nothing.
pub packet_lem :
    (m : Mouse) (flags x y : ℕ)
    → m.decoder.index ≡ 0
    → flags ≢ 0xFA
    → test_bit flags 3 ≡ true
    → x < 256
    → y < 256
    → IsValid m.queue
    → let m' = on_irq (on_irq (on_irq m flags) x) y in
      (m'.decoder.index ≡ 0)
      × (contents m'.queue ≡ (
          if test_bit flags 6 || test_bit flags 7
          then contents m.queue
          else Fifo.push event_capacity no_event (event_of flags x y) (contents m.queue)))
packet_lem m flags x y idle not_ack sync x_byte y_byte v =
    let d = m.decoder in
    let q = m.queue in
    let three : on_irq (on_irq (on_irq (mouse_at d.packet0 d.packet1 d.packet2 0 q) flags) x) y
        ≡ mouse_at flags x y 0 (
            if test_bit flags 6 || test_bit flags 7 then q else push_event q (event_of flags x y)) =
      ap (λ s. on_irq (on_irq s x) y)
        (header_step flags x y d.packet0 d.packet1 d.packet2 q not_ack sync)
      ∙ ap (λ s. on_irq s y) (x_step flags x y d.packet0 d.packet1 d.packet2 q)
      ∙ y_step flags x y d.packet0 d.packet1 d.packet2 q x_byte y_byte in
    let all =
      ap (λ i. on_irq (on_irq (on_irq (mouse_at d.packet0 d.packet1 d.packet2 i q) flags) x) y) idle
      ∙ three in
    (
      ap (λ s. s.decoder.index) all,
      ap (λ s. contents s.queue) all ∙ packet_queue flags x y d.packet0 d.packet1 d.packet2 q v,
    )
