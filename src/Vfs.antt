-- ===== src/Vfs.antt =====
-- kernel/fs/vfs.c: the in-memory file system, a table of vnodes and a table of descriptors.
pub mod Defs
pub mod Ops
pub mod Inv
pub mod InvOps
pub mod Calls
mod ReadBack
mod Effects
mod Tests
