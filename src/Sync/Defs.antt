-- ===== src/Sync/Defs.antt =====
-- The locks of kernel/sync.c and kernel/sync.h.
-- Each pass under the guard is one step. A call that has to wait sleeps and tries again, which is
-- a later step of the same task; a wait queue is the list of its first `wait_count` entries.
use micro_os.Base.{
  ℕ, ◌+◌, ◌-◌, Bool, true, false, not, Option, none, some, List, [], ◌∷◌, ◌++◌, ltb, if◌then◌else◌,
  length,
}

-- `Spinlock`; the flags are those of the processor when the lock was taken.
pub record Spinlock : Type 0 where
  pub lock : Bool
  pub flags : ℕ

abbrev pub spin_init : Spinlock
spin_init = record { lock = false; flags = 0 }

-- `__sync_lock_test_and_set` in one round of `spin_lock`: whether the lock was free.
unfoldable pub spin_lock_round : Spinlock → ℕ → Bool × Spinlock
spin_lock_round s flags =
    if s.lock then (false, s) else (true, record { lock = true; flags = flags })

-- The lock released, and the flags that are put back.
unfoldable pub spin_unlock : Spinlock → Spinlock × ℕ
spin_unlock s = (record s { lock = false }, s.flags)

-- Whether the lock was taken, the lock, and the flags after the call: `masked` with interrupts off.
unfoldable pub spin_try_lock : Spinlock → ℕ → ℕ → Bool × Spinlock × ℕ
spin_try_lock s flags masked =
    if s.lock then (false, s, flags) else (true, record { lock = true; flags = flags }, masked)

-- `MUTEX_WAIT_QUEUE_SIZE` and `SEM_WAIT_QUEUE_SIZE`.
abbrev pub wait_queue_size : ℕ
wait_queue_size = 16

-- Adds a task at the end of a queue that has room.
unfoldable pub enqueue : List ℕ → ℕ → List ℕ
enqueue q task = if ltb (length q) wait_queue_size then q ++ (task ∷ []) else q

-- Shifts a queue down by one.
unfoldable pub dequeue : List ℕ → List ℕ
dequeue [] = []
dequeue (t ∷ ts) = ts

-- `Mutex`; the owner is `none` for -1.
pub record Mutex : Type 0 where
  pub locked : Bool
  pub owner : Option ℕ
  pub wait_queue : List ℕ

unfoldable pub mutex_init : Mutex
mutex_init = record { locked = false; owner = none; wait_queue = [] }

-- One pass of the loop of `mutex_lock`: whether it returns; else the task sleeps for a tick.
unfoldable pub mutex_lock_round : Mutex → ℕ → Bool × Mutex
mutex_lock_round m task =
    if not m.locked
    then (true, record m { locked = true; owner = some task })
    else (false, record m { wait_queue = enqueue m.wait_queue task })

unfoldable pub mutex_unlock : Mutex → Mutex
mutex_unlock m = record { locked = false; owner = none; wait_queue = dequeue m.wait_queue }

unfoldable pub mutex_try_lock : Mutex → ℕ → Bool × Mutex
mutex_try_lock m task =
    if not m.locked then (true, record m { locked = true; owner = some task }) else (false, m)

-- `Semaphore`. The count is an `int`, never negative once it starts so, as a wait needs a unit.
pub record Semaphore : Type 0 where
  pub count : ℕ
  pub wait_queue : List ℕ

unfoldable pub sem_init : ℕ → Semaphore
sem_init initial = record { count = initial; wait_queue = [] }

-- One pass of the loop of `sem_wait`.
unfoldable pub sem_wait_round : Semaphore → ℕ → Bool × Semaphore
sem_wait_round s task =
    if ltb 0 s.count
    then (true, record s { count = s.count - 1 })
    else (false, record s { wait_queue = enqueue s.wait_queue task })

abbrev pub int_max : ℕ
int_max = 2147483647

-- `none` where `s->count++` overflows the `int`, which is undefined.
unfoldable pub sem_signal : Semaphore → Option Semaphore
sem_signal s =
    if ltb s.count int_max
    then some (record { count = s.count + 1; wait_queue = dequeue s.wait_queue })
    else none

unfoldable pub sem_try_wait : Semaphore → Bool × Semaphore
sem_try_wait s = if ltb 0 s.count then (true, record s { count = s.count - 1 }) else (false, s)
