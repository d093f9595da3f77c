-- ===== src/Sched/Leave.antt =====
-- A task that exits or sleeps gives the processor up.
use micro_os.Base.{
  ℕ, ◌+◌, ◌%◌, ◌^◌, ◌<◌, ◌≡◌, ◌≢◌, inl, inr, refl, sym, subst, ◌∙◌, true, false, get_or-set_self,
  arith,
}
use micro_os.Sched.Defs.{
  sleeping, dead, Task, Sched, zero_task, task_at, is_ready, is_dead, refresh,
}
use micro_os.Sched.Ops.{sched_yield, update_current, sched_sleep, sched_exit}
use micro_os.Sched.Refresh.{refresh-Refreshed}
use micro_os.Sched.Inv.{IsValid, sched_yield-Yielded}
use micro_os.Sched.Calls.{update_current-IsValid}

-- The idle task aside, a task that is not ready once the sleepers are woken is not chosen.
leaves :
    (pml4 : ℕ) (s : Sched) (now : ℕ)
    → IsValid s
    → s.current ≢ 0
    → is_ready (task_at (refresh s now) s.current).state ≡ false
    → (sched_yield pml4 s now).current ≢ s.current
leaves pml4 s now v busy idle e = elim (sched_yield-Yielded pml4 s now v).picked [
  | inl best ↦
      let is : is_ready (task_at (refresh s now) s.current).state ≡ true =
        subst (λ k. is_ready (task_at (refresh s now) k).state ≡ true) e best.is_ready_now in
      ground (arith, is, idle)
  | inr (zero_chosen, _) ↦ busy (sym e ∙ zero_chosen)
]

updated_at :
    (s : Sched) (f : Task → Task)
    → IsValid s
    → task_at (update_current s f) s.current ≡ f (task_at s s.current)
updated_at s f v =
    get_or-set_self s.tasks s.current _ zero_task (omega (arith, v.size, v.bounded, v.inside))

-- A state that is neither ready, nor sleeping, nor blocked is not ready after the wake-ups.
dead-refresh :
    (s : Sched) (now i : ℕ)
    → i < s.task_count
    → is_dead (task_at s i).state ≡ true
    → is_dead (task_at (refresh s now) i).state ≡ true
dead-refresh s now i i_in is =
    let (_, tasks) = refresh-Refreshed s now in
    let e = (tasks i i_in).others (ground (arith, is)) (ground (arith, is)) in ground (arith, is, e)

-- `sched_exit`, called by any task but the idle one, switches to another task.
pub sched_exit-current :
    (pml4 : ℕ) (s : Sched) (now code : ℕ)
    → IsValid s
    → s.current ≢ 0
    → (sched_exit pml4 s now code).current ≢ s.current
unfolding sched_exit
sched_exit-current pml4 s now code v busy =
    let die : Task → Task = λ t. record t { exit_code = code; state = dead } in
    let s1 = update_current s die in
    let is : is_dead (task_at s1 s.current).state ≡ true = rw (updated_at s die v) refl in
    let is' = dead-refresh s1 now s.current v.inside is in
    leaves pml4 s1 now (update_current-IsValid s die v) busy (ground (arith, is'))

-- A sleep whose deadline is later than the clock, by any task but the idle one, switches to
-- another task.
pub sched_sleep-current :
    (pml4 : ℕ) (s : Sched) (now ticks : ℕ)
    → IsValid s
    → s.current ≢ 0
    → now < (now + ticks) % 2 ^ 64
    → (sched_sleep pml4 s now ticks).current ≢ s.current
unfolding sched_sleep
sched_sleep-current pml4 s now ticks v busy later =
    let doze : Task → Task =
      λ t. record t { state = sleeping; wake_tick = (now + ticks) % 2 ^ 64 } in
    let s1 = update_current s doze in
    let at = updated_at s doze v in
    let (_, tasks) = refresh-Refreshed s1 now in
    let e = (tasks s.current v.inside).asleep (rw at refl) (rw at later) in
    let still : is_ready (task_at s1 s.current).state ≡ false = rw at refl in
    leaves pml4 s1 now (update_current-IsValid s doze v) busy (rw e still)
