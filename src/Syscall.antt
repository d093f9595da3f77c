-- ===== src/Syscall.antt =====
-- kernel/syscall.c: the system calls, on top of the other parts.
mod Defs
mod Safe
mod Tests
