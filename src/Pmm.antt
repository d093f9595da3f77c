-- ===== src/Pmm.antt =====
-- kernel/mm/pmm.c: the physical memory manager, a bitmap with one bit to a page (1 = free).
-- The bitmap is the list of its 64-bit words. `pmm_lock` is held across each operation, so an
-- operation is one step of the state. A pointer is its address, and NULL is 0.
pub mod Defs
mod Popcount
pub mod Bitmap
pub mod Alloc
mod Range
mod Boot
mod BootSpec
mod Placement
mod BootState
mod Spec
mod Tests
