-- ===== src/Console.antt =====
-- kernel/console.c and kernel/font8x16.h: the text console on the framebuffer, and `kprintf`.
mod Font
mod Defs
mod Glyph
mod Scroll
mod Picture
mod Guard
mod Screen
mod Refine
mod Typing
mod Putchar
mod Session
mod Clear
mod Printf
mod Digits
mod Tests
