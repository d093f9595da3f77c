-- ===== src/Sched/Tests.antt =====
-- Runs of the scheduler, and its theorems at concrete states.
use micro_os.Base.{ℕ, ◌<◌, ◌≡◌, ◌≢◌, refl, List, [], ◌∷◌, arith}
use micro_os.Sched.Defs.{
  Sched, task_at, each, wake, notify, reap, reap_from, cleanup_dead_tasks, find_ready, pick_from,
  refresh, pick_next,
}
use micro_os.Sched.Ops.{
  sched_init, reusable, pick_slot, new_task, do_task_create, stop, start, switch_to, sched_yield,
  sched_sleep, sched_exit,
}
use micro_os.Sched.Refresh.{SameFrame, Refreshed, refresh-Refreshed}
use micro_os.Sched.Inv.{IsValid, Yielded, sched_yield-Yielded}
use micro_os.Sched.Calls.{
  Call, yields, sleeps, exits, creates, signals, exec, exec_all, exec_all-IsValid,
}
use micro_os.Sched.Leave.{sched_exit-current}

-- A task of high and one of normal priority, and the first yield of the idle task.
abbrev script : List Call
script = creates 65536 4194304 1 1 ∷ creates 131072 4198400 2 0 ∷ yields 1 ∷ []

booted : Sched
booted = exec_all 4096 (sched_init 0 4096) script

booted-IsValid : IsValid booted
unfolding booted
booted-IsValid = exec_all-IsValid 4096 0 script

-- The task of high priority runs first; when it sleeps, the other one runs.
booted_current : booted.current ≡ 2
unfolding booted exec_all exec do_task_create pick_slot reusable new_task sched_yield pick_next
    refresh cleanup_dead_tasks reap_from reap each wake notify pick_from find_ready switch_to stop
    start sched_init
booted_current = refl

asleep_current : (exec_all 4096 booted (sleeps 1 10 ∷ [])).current ≡ 1
unfolding booted exec_all exec do_task_create pick_slot reusable new_task sched_yield sched_sleep
    pick_next refresh cleanup_dead_tasks reap_from reap each wake notify pick_from find_ready
    switch_to stop start sched_init
asleep_current = refl

refresh-Refreshed_example :
    SameFrame booted (refresh booted 5)
    × ((j : ℕ)
        → j < booted.task_count
        → Refreshed 5 (task_at booted j) (task_at (refresh booted 5) j))
refresh-Refreshed_example = refresh-Refreshed booted 5

sched_yield-Yielded_example : Yielded booted 5 (sched_yield 4096 booted 5)
sched_yield-Yielded_example = sched_yield-Yielded 4096 booted 5 booted-IsValid

exec_all-IsValid_example :
    IsValid (exec_all 4096 (sched_init 0 4096) (exits 3 1 ∷ signals 1 9 ∷ []))
exec_all-IsValid_example = exec_all-IsValid 4096 0 (exits 3 1 ∷ signals 1 9 ∷ [])

booted_busy : booted.current ≢ 0
booted_busy e = omega (arith, booted_current, e)

sched_exit-current_example : (sched_exit 4096 booted 5 1).current ≢ booted.current
sched_exit-current_example = sched_exit-current 4096 booted 5 1 booted-IsValid booted_busy
