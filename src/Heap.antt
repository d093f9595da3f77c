-- ===== src/Heap.antt =====
-- kernel/mm/heap.c: the kernel heap.
mod Defs
mod FreeList
mod Insert
mod Laws
mod Tests
