-- ===== src/Timer/Guard.antt =====
-- What the guard of preemption lets through.
use micro_os.Base.{
  ℕ, zero, suc, ◌+◌, ◌*◌, ◌/◌, ◌%◌, ◌^◌, ◌<◌, ◌≡◌, ◌∙◌, inl, inr, refl, true, false, ◌==◌,
  if◌then◌else◌, Bool-cases, arith,
}
use micro_os.Timer.Defs.{Timer, timer_enter, timer_leave, divisor}

-- `n` ticks, and how many of them called the scheduler.
unfoldable pub ticks_of : ℕ → Timer → ℕ × Timer
ticks_of zero t = (0, t)
ticks_of (suc n) t =
    let (called, t') = timer_enter t in
    let (calls, end) = ticks_of n t' in (if called then calls + 1 else calls, end)

enter_counts : (t : Timer) → (timer_enter t).1.ticks ≡ (t.ticks + 1) % 2 ^ 64
unfolding timer_enter
enter_counts t = ground arith

enter_held :
    (t : Timer)
    → t.in_schedule ≡ true
    → ((timer_enter t).0 ≡ false) × ((timer_enter t).1.in_schedule ≡ true)
unfolding timer_enter
enter_held t held = (ground arith, ground arith)

held_ticks :
    (n : ℕ) (t : Timer)
    → t.in_schedule ≡ true
    → t.ticks < 2 ^ 64
    → ((ticks_of n t).0 ≡ 0)
      × ((ticks_of n t).1.ticks ≡ (t.ticks + n) % 2 ^ 64)
      × ((ticks_of n t).1.in_schedule ≡ true)
unfolding ticks_of
held_ticks zero t held small = (refl, omega arith, held)
held_ticks (suc n) t held small =
    let (quiet, held') = enter_held t held in
    let counted = enter_counts t in
    let (none_called, sum, still) = held_ticks n (timer_enter t).1 held' (omega (arith, counted)) in
    (rw (quiet, none_called) refl, omega (arith, sum, counted), still)

entered : (t : Timer) → (timer_enter t).0 ≡ true → (timer_enter t).1.in_schedule ≡ true
unfolding timer_enter
entered t calls = ground arith

enter_active : (t : Timer) → (timer_enter t).1.sched_active ≡ t.sched_active
unfolding timer_enter
enter_active t = ground arith

enter_calls : (t : Timer) → (timer_enter t).0 ≡ true → t.sched_active ≡ true
unfolding timer_enter
enter_calls t calls = ground arith

ticks_active : (n : ℕ) (t : Timer) → (ticks_of n t).1.sched_active ≡ t.sched_active
unfolding ticks_of
ticks_active zero t = refl
ticks_active (suc n) t = ticks_active n (timer_enter t).1 ∙ enter_active t

leave_calls : (t : Timer) → t.sched_active ≡ true → (timer_enter (timer_leave t)).0 ≡ true
unfolding timer_enter timer_leave
leave_calls t on = ground arith

-- A handler that calls the scheduler closes the guard: the `n` ticks that come before it returns
-- are counted, its own with them, and none of them calls the scheduler; its return opens the guard,
-- so that the tick after it calls the scheduler again.
pub ticks_of_lem :
    (n : ℕ) (t : Timer)
    → (timer_enter t).0 ≡ true
    → let (calls, t') = ticks_of n (timer_enter t).1 in
      (calls ≡ 0)
      × (t'.ticks ≡ (t.ticks + 1 + n) % 2 ^ 64)
      × ((timer_enter (timer_leave t')).0 ≡ true)
ticks_of_lem n t calls =
    let counted = enter_counts t in
    let (quiet, sum, _) =
      held_ticks n (timer_enter t).1 (entered t calls) (omega (arith, counted)) in
    (
      quiet,
      omega (arith, sum, counted),
      leave_calls _ (ticks_active n (timer_enter t).1 ∙ (enter_active t ∙ enter_calls t calls)),
    )

-- The divisor is a positive 16-bit number, and the two bytes written in order make it up.
pub divisor_lem :
    (hz : ℕ)
    → (0 < divisor hz)
      × (divisor hz < 2 ^ 16)
      × (divisor hz / 2 ^ 8 % 2 ^ 8 * 2 ^ 8 + divisor hz % 2 ^ 8 ≡ divisor hz)
unfolding divisor
divisor_lem hz = bounds (1193182 / hz % 2 ^ 16) (omega arith)
  where
    bounds :
        (d : ℕ)
        → d < 2 ^ 16
        → let v = if d == 0 then 1 else d in
          (0 < v) × (v < 2 ^ 16) × (v / 2 ^ 8 % 2 ^ 8 * 2 ^ 8 + v % 2 ^ 8 ≡ v)
    bounds d h = elim (Bool-cases (d == 0)) [
      | inl is ↦ rw is (omega arith, omega arith, omega arith)
      | inr not_zero ↦ rw not_zero (ground arith, h, omega arith)
    ]
