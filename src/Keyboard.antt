-- ===== src/Keyboard.antt =====
-- kernel/drivers/keyboard.c: scan codes to keys, and the ring buffer of keys.
pub mod Defs
pub mod Ring
mod Queue
mod Keys
mod Handler
mod Tests
