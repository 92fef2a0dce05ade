-- ===== src/Input/Keyboard.antt =====
-- kernel/arch/keyboard_helpers.hpp: the class Set1Decoder, which turns scan codes into key events, and the
-- class EventQueue between the keyboard interrupt and the reader. A scan code is a byte, so the masks
-- 0x80 and 0x7F are a comparison with 128 and a remainder.
pub mod Queue
pub mod Decoding
use linux95_kernel.Prelude.{
  ℕ, ◌+◌, ◌-◌, ◌%◌, ◌^◌, Bool, true, false, ◌&&◌, ◌||◌, not, Option, none, some, List, [], ◌∷◌, ltb,
  leb, ◌==◌, if◌then◌else◌, get_or, set, replicate,
}

pub data KeyCode : Type 0 where
  unknown character enter backspace arrow_left arrow_right arrow_up arrow_down escape delete :
      KeyCode

-- `byte` is the field `character`.
pub record KeyEvent : Type 0 where
  pub key : KeyCode
  pub byte : ℕ
  pub ctrl : Bool
  pub shift : Bool
  pub pressed : Bool

-- KeyEvent{}
abbrev pub no_event : KeyEvent
no_event = record { key = unknown; byte = 0; ctrl = false; shift = false; pressed = false }

pub record Decoder : Type 0 where
  pub extended : Bool
  pub left_shift : Bool
  pub right_shift : Bool
  pub left_ctrl : Bool
  pub right_ctrl : Bool

abbrev pub reset : Decoder
reset = record {
  extended = false;
  left_shift = false;
  right_shift = false;
  left_ctrl = false;
  right_ctrl = false;
}

abbrev pub unshifted : List ℕ
unshifted =
    0 ∷ 0 ∷ 49 ∷ 50 ∷ 51 ∷ 52 ∷ 53 ∷ 54 ∷ 55 ∷ 56 ∷ 57 ∷ 48 ∷ 45 ∷ 61 ∷ 0 ∷ 0 ∷ 113 ∷ 119 ∷ 101
    ∷ 114 ∷ 116 ∷ 121 ∷ 117 ∷ 105 ∷ 111 ∷ 112 ∷ 91 ∷ 93 ∷ 0 ∷ 0 ∷ 97 ∷ 115 ∷ 100 ∷ 102 ∷ 103 ∷ 104
    ∷ 106 ∷ 107 ∷ 108 ∷ 59 ∷ 39 ∷ 96 ∷ 0 ∷ 92 ∷ 122 ∷ 120 ∷ 99 ∷ 118 ∷ 98 ∷ 110 ∷ 109 ∷ 44 ∷ 46 ∷ 47
    ∷ 0 ∷ 0 ∷ 0 ∷ 32 ∷ []

abbrev pub shifted : List ℕ
shifted =
    0 ∷ 0 ∷ 33 ∷ 64 ∷ 35 ∷ 36 ∷ 37 ∷ 94 ∷ 38 ∷ 42 ∷ 40 ∷ 41 ∷ 95 ∷ 43 ∷ 0 ∷ 0 ∷ 81 ∷ 87 ∷ 69 ∷ 82
    ∷ 84 ∷ 89 ∷ 85 ∷ 73 ∷ 79 ∷ 80 ∷ 123 ∷ 125 ∷ 0 ∷ 0 ∷ 65 ∷ 83 ∷ 68 ∷ 70 ∷ 71 ∷ 72 ∷ 74 ∷ 75 ∷ 76
    ∷ 58 ∷ 34 ∷ 126 ∷ 0 ∷ 124 ∷ 90 ∷ 88 ∷ 67 ∷ 86 ∷ 66 ∷ 78 ∷ 77 ∷ 60 ∷ 62 ∷ 63 ∷ 0 ∷ 0 ∷ 0 ∷ 32
    ∷ []

unfoldable pub translate : ℕ → Bool → ℕ
translate code shift =
    let value = get_or unshifted code 0 in
    if leb 0x3A code
    then 0
    else if not shift || (value == 0)
    then value
    else if not (get_or shifted code 0 == 0)
    then get_or shifted code 0
    else value

-- The key of a code that follows 0xE0.
unfoldable pub extended_key : ℕ → KeyCode
extended_key code =
    if code == 0x53
    then delete
    else if code == 0x4B
    then arrow_left
    else if code == 0x4D
    then arrow_right
    else if code == 0x48
    then arrow_up
    else if code == 0x50
    then arrow_down
    else unknown

-- The key and the character of any other code.
unfoldable pub plain_key : ℕ → Bool → KeyCode × ℕ
plain_key code shift =
    if code == 0x01
    then (escape, 0)
    else if code == 0x1C
    then (enter, 0)
    else if code == 0x0E
    then (backspace, 0)
    else let value = translate code shift in (if value == 0 then unknown else character, value)

-- The event, if the scan code completes one.
unfoldable pub feed : Decoder → ℕ → Option KeyEvent × Decoder
feed d scancode =
    let pressed = ltb scancode 0x80 in
    let code = scancode % 0x80 in
    let d' = record d { extended = false } in
    let shift = d.left_shift || d.right_shift in
    if scancode == 0xE0
    then (none, record d { extended = true })
    else if not d.extended && (code == 0x2A)
    then (none, record d' { left_shift = pressed })
    else if not d.extended && (code == 0x36)
    then (none, record d' { right_shift = pressed })
    else if code == 0x1D
    then (
      none,
      if d.extended then record d' { right_ctrl = pressed } else record d' { left_ctrl = pressed },
    )
    else let (key, byte) = if d.extended then (extended_key code, 0) else plain_key code shift in
      (
        some (record {
          key = key;
          byte = byte;
          ctrl = d.left_ctrl || d.right_ctrl;
          shift = shift;
          pressed = pressed;
        }),
        d',
      )

-- kCapacity
abbrev pub queue_capacity : ℕ
queue_capacity = 128

-- `head` and `tail` are uint32_t counters that wrap around.
pub record EventQueue : Type 0 where
  pub events : List KeyEvent
  pub head : ℕ
  pub tail : ℕ

abbrev pub queued : EventQueue → ℕ
queued q = (q.head + 2 ^ 32 - q.tail) % 2 ^ 32

unfoldable pub push : EventQueue → KeyEvent → Bool × EventQueue
push q event = if queued q == queue_capacity then (false, q) else (
  true,
  record q { events = set q.events (q.head % queue_capacity) event; head = (q.head + 1) % 2 ^ 32 },
)

unfoldable pub is_empty : EventQueue → Bool
is_empty q = q.head == q.tail

unfoldable pub clear : EventQueue → EventQueue
clear q = record q { head = 0; tail = 0 }

unfoldable pub pop : EventQueue → KeyEvent × EventQueue
pop q = if q.head == q.tail then (no_event, q) else (
  get_or q.events (q.tail % queue_capacity) no_event,
  record q { tail = (q.tail + 1) % 2 ^ 32 },
)

unfoldable pub decode_and_queue : Decoder → EventQueue → ℕ → Decoder × EventQueue
decode_and_queue d q scancode =
    let (event, d') = feed d scancode in elim event [ none ↦ (d', q) | some e ↦ (d', (push q e).1) ]
