-- ===== src/Timer/Defs.antt =====
-- The state of kernel/drivers/timer.c.
-- The handler is two steps: up to the call of `sched_schedule`, which may switch to another task,
-- and what follows it when the interrupted task runs again.
use micro_os.Base.{
  ℕ, ◌+◌, ◌/◌, ◌%◌, ◌^◌, Bool, true, false, ◌&&◌, not, List, [], ◌∷◌, ◌==◌, if◌then◌else◌,
}
use Prim.Native.Nat.{bit_and}

pub record Timer : Type 0 where
  pub ticks : ℕ
  pub sched_active : Bool
  pub in_schedule : Bool

unfoldable pub timer_init : Timer
timer_init = record { ticks = 0; sched_active = false; in_schedule = false }

unfoldable pub timer_enable_preemption : Timer → Timer
timer_enable_preemption t = record t { sched_active = true }

-- Whether the handler calls `sched_schedule`.
unfoldable pub timer_enter : Timer → Bool × Timer
timer_enter t =
    let t' = record t { ticks = (t.ticks + 1) % 2 ^ 64 } in
    if t.sched_active && not t.in_schedule
    then (true, record t' { in_schedule = true })
    else (false, t')

unfoldable pub timer_leave : Timer → Timer
timer_leave t = record t { in_schedule = false }

-- The divisor that `timer_init` programs for a frequency, which is not 0.
unfoldable pub divisor : ℕ → ℕ
divisor frequency_hz = let d = 1193182 / frequency_hz % 2 ^ 16 in if d == 0 then 1 else d

-- The bytes written to the ports, in order; `mask` is what port 0x21 reads.
unfoldable pub port_writes : ℕ → ℕ → List (ℕ × ℕ)
port_writes frequency_hz mask =
    let d = divisor frequency_hz in
    (0x43, 0x34) ∷ (0x40, d % 2 ^ 8) ∷ (0x40, d / 2 ^ 8 % 2 ^ 8) ∷ (0x21, bit_and mask 0xFE) ∷ []
