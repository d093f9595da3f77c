-- ===== src/Mouse.antt =====
-- kernel/drivers/mouse.c: the packets of the mouse and the cursor.
pub mod Defs
pub mod Cursor
mod Position
mod Tests
