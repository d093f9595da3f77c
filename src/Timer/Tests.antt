-- ===== src/Timer/Tests.antt =====
-- The timer's theorems at concrete states.
use micro_os.Base.{◌+◌, ◌%◌, ◌^◌, ◌≡◌, refl, true, false}
use micro_os.Timer.Defs.{Timer, timer_init, timer_enable_preemption, timer_enter, timer_leave}
use micro_os.Timer.Guard.{ticks_of, ticks_of_lem}

abbrev armed : Timer
armed = record { ticks = 41; sched_active = true; in_schedule = false }

armed_calls : (timer_enter armed).0 ≡ true
unfolding timer_enter
armed_calls = refl

-- The first of three ticks calls the scheduler, the next two do not.
one_call : (ticks_of 3 (timer_enable_preemption timer_init)).0 ≡ 1
unfolding ticks_of timer_enter timer_enable_preemption timer_init
one_call = refl

ticks_of_lem_example :
    let (calls, t') = ticks_of 5 (timer_enter armed).1 in
    (calls ≡ 0) × (t'.ticks ≡ (41 + 1 + 5) % 2 ^ 64) × ((timer_enter (timer_leave t')).0 ≡ true)
ticks_of_lem_example = ticks_of_lem 5 armed armed_calls
