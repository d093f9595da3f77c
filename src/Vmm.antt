-- ===== src/Vmm.antt =====
-- kernel/mm/vmm.c: the page tables.
mod Defs
mod Entry
mod Tree
mod Walk
mod Extends
mod Route
mod Map
mod Space
mod Tests
