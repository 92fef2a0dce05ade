-- ===== src/Input/Keyboard/Decoding.antt =====
-- The keyboard decoder: what the release of a key gives, against its press.
use linux95_kernel.Prelude.{
  ℕ, ◌+◌, ◌%◌, ◌<◌, ◌≡◌, ◌≢◌, refl, ap, ◌∙◌, Bool, true, false, ◌||◌, ◌&&◌, not, Option, some, ltb,
  ◌==◌, if◌then◌else◌, arith,
}
use linux95_kernel.Input.Keyboard.{KeyEvent, Decoder, feed, extended_key, plain_key}

-- The key, the character, and the modifiers, for a code below 0x80 that is no modifier.
abbrev pub event_of : Decoder → ℕ → Bool → KeyEvent
event_of d code pressed =
    let shift = d.left_shift || d.right_shift in
    let (key, byte) = if d.extended then (extended_key code, 0) else plain_key code shift in
    record {
      key = key;
      byte = byte;
      ctrl = d.left_ctrl || d.right_ctrl;
      shift = shift;
      pressed = pressed;
    }

abbrev pub is_modifier : Decoder → ℕ → Bool
is_modifier d code = not d.extended && ((code == 0x2A) || (code == 0x36)) || (code == 0x1D)

first_false : (a b : Bool) → (a || b) ≡ false → (a ≡ false) × (b ≡ false)
first_false a b h = ground arith

feed_at :
    (d : Decoder) (code s : ℕ)
    → is_modifier d code ≡ false
    → s % 128 ≡ code
    → s ≢ 0xE0
    → feed d s ≡ (some (event_of d code (ltb s 128)), record d { extended = false })
unfolding feed
feed_at d code s not_modifier e not_prefix =
    let prefix : (s == 0xE0) ≡ false = ground (arith, not_prefix) in
    let left : (not d.extended && (code == 0x2A)) ≡ false = ground (arith, not_modifier) in
    let right : (not d.extended && (code == 0x36)) ≡ false = ground (arith, not_modifier) in
    let ctrl : (code == 0x1D) ≡ false = ground (arith, not_modifier) in
    rw (e, prefix, left, right, ctrl) refl

-- For a code below 0x80 that is no modifier in the decoder's state and not 0x60, the press and the
-- release, which adds 0x80, give the same key, character and modifiers, differ in the flag
-- `pressed`, and leave the decoder in the same state.
pub feed_mirrors :
    (d : Decoder) (code : ℕ)
    → code < 128
    → code ≢ 0x60
    → is_modifier d code ≡ false
    → (feed d code ≡ (some (event_of d code true), record d { extended = false }))
      × (feed d (code + 128) ≡ (some (event_of d code false), record d { extended = false }))
feed_mirrors d code byte_code not_prefix not_modifier =
    let low : ltb code 128 ≡ true = ground arith in
    let high : ltb (code + 128) 128 ≡ false = ground arith in
    let give : Bool → Option KeyEvent × Decoder =
      λ b. (some (event_of d code b), record d { extended = false }) in
    (
      feed_at d code code not_modifier (omega arith) (omega arith) ∙ ap give low,
      feed_at d code (code + 128) not_modifier (omega arith) (omega (arith, not_prefix))
          ∙ ap give high,
    )
