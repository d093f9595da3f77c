-- ===== src/Str.antt =====
-- kernel/string.c: memory and string functions.
pub mod Defs
pub mod Move
mod Text
mod Tests
