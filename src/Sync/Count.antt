-- ===== src/Sync/Count.antt =====
-- The units of a semaphore over any sequence of calls.
use micro_os.Base.{
  ℕ, ◌+◌, ◌≤◌, ◌≡◌, inl, inr, refl, Bool, true, false, Option, some, ◌>>=◌, List, [], ◌∷◌, ltb,
  Bool-cases, arith,
}
use micro_os.Sync.Defs.{Semaphore, dequeue, int_max, sem_wait_round, sem_signal, sem_try_wait}

-- A pass of `sem_wait` by a task, a `sem_try_wait`, or a `sem_signal`.
pub data Call : Type 0 where
  waits : ℕ → Call
  tries : Call
  signals : Call

abbrev pub add_if : Bool → ℕ → ℕ
add_if true n = n + 1
add_if false n = n

-- A call: whether it took a unit, and the semaphore after it; `none` where it is undefined.
unfoldable pub exec : Semaphore → Call → Option (Bool × Semaphore)
exec s (waits task) = some (sem_wait_round s task)
exec s tries = some (sem_try_wait s)
exec s signals = sem_signal s >>= λ s'. some (false, s')

-- The number of calls that took a unit, and the semaphore after them.
unfoldable pub run : Semaphore → List Call → Option (ℕ × Semaphore)
run s [] = some (0, s)
run s (c ∷ cs) = do (got, s') ← exec s c; (n, end) ← run s' cs; some (add_if got n, end)

unfoldable pub signal_count : List Call → ℕ
signal_count [] = 0
signal_count (waits task ∷ cs) = signal_count cs
signal_count (tries ∷ cs) = signal_count cs
signal_count (signals ∷ cs) = signal_count cs + 1

wait_balance :
    (s : Semaphore) (task : ℕ)
    → let (got, s') = sem_wait_round s task in add_if got s'.count ≡ s.count
unfolding sem_wait_round
wait_balance s task = elim (Bool-cases (ltb 0 s.count)) [
  | inl some_left ↦ rw some_left (ground arith)
  | inr none_left ↦ rw none_left refl
]

try_balance : (s : Semaphore) → let (got, s') = sem_try_wait s in add_if got s'.count ≡ s.count
unfolding sem_try_wait
try_balance s = elim (Bool-cases (ltb 0 s.count)) [
  | inl some_left ↦ rw some_left (ground arith)
  | inr none_left ↦ rw none_left refl
]

-- The units that a call adds.
abbrev units : Call → ℕ
units (waits task) = 0
units tries = 0
units signals = 1

-- A call that does not overflow returns, and the units balance.
exec-balance :
    (c : Call) (s : Semaphore)
    → s.count + units c ≤ int_max
    → (r : Bool × Semaphore) × (exec s c ≡ some r) × (add_if r.0 r.1.count ≡ s.count + units c)
unfolding exec sem_signal
exec-balance (waits task) s room = (sem_wait_round s task, refl, omega (arith, wait_balance s task))
exec-balance tries s room = (sem_try_wait s, refl, omega (arith, try_balance s))
exec-balance signals s room =
    let fits : ltb s.count int_max ≡ true = ground arith in
    (
      (false, record { count = s.count + 1; wait_queue = dequeue s.wait_queue }),
      rw (fits, ◌>>=◌) refl,
      refl,
    )

signal_count-cons : (c : Call) (cs : List Call) → signal_count (c ∷ cs) ≡ units c + signal_count cs
unfolding signal_count
signal_count-cons (waits task) cs = omega arith
signal_count-cons tries cs = omega arith
signal_count-cons signals cs = omega arith

count-le-add_if : (got : Bool) (n : ℕ) → n ≤ add_if got n
count-le-add_if true n = omega arith
count-le-add_if false n = omega arith

move_if : (got : Bool) (n c k s : ℕ) → n + k ≡ c + s → add_if got n + k ≡ add_if got c + s
move_if true n c k s h = omega (arith, h)
move_if false n c k s h = h

-- Over any sequence of calls, where the units at first and the signals together fit an `int`: no
-- signal overflows the count, and the units taken and the units left are the units at first and the
-- signals, so a unit is never lost and never given out twice.
pub run_balance :
    (cs : List Call) (s : Semaphore)
    → s.count + signal_count cs ≤ int_max
    → (r : ℕ × Semaphore) × (run s cs ≡ some r) × (r.0 + r.1.count ≡ s.count + signal_count cs)
unfolding run
run_balance [] s room =
    let none_left : signal_count [] ≡ 0 = unfold signal_count in refl in
    ((0, s), refl, omega (arith, none_left))
run_balance (c ∷ cs) s room =
    let sum = signal_count-cons c cs in
    let ((got, s'), done, kept) = exec-balance c s (omega (arith, sum)) in
    let ((n, end), rest, balance) =
      run_balance cs s' (omega (arith, sum, kept, count-le-add_if got s'.count)) in
    let moved = move_if got n s'.count end.count (signal_count cs) balance in
    ((add_if got n, end), rw (done, rest, ◌>>=◌) refl, omega (arith, moved, kept, sum))
