-- ===== src/Timer.antt =====
-- kernel/drivers/timer.c: the tick counter and the guard of preemption.
mod Defs
mod Guard
mod Tests
