-- ===== src/User.antt =====
-- kernel/user: what the kernel checks of a program before it runs.
pub mod Elf
mod Tests
