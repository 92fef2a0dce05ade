-- ===== src/Input.antt =====
-- kernel/arch/keyboard* and mouse*: the decoders of the bytes that the devices send, and the two queues
-- between their interrupts and the desktop.
pub mod Fifo
pub mod Keyboard
pub mod Mouse
mod Tests
