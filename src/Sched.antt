-- ===== src/Sched.antt =====
-- kernel/sched/task.c: the table of tasks and the scheduler.
pub mod Defs
pub mod Ops
mod Pick
mod Refresh
pub mod Inv
pub mod Calls
mod Leave
mod Stack
mod Tests
