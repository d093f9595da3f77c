-- ===== src/Sync.antt =====
-- kernel/sync.c and kernel/sync.h: spinlock, mutex and semaphore.
mod Defs
mod Exclusion
mod Count
mod Tests
