-- ===== src/Sync/Tests.antt =====
-- Runs of the mutex and the semaphore, and their theorems at concrete states.
use micro_os.Base.{ℕ, ◌+◌, ◌≡◌, refl, true, some, List, [], ◌∷◌, arith}
use micro_os.Sync.Defs.{
  Mutex, mutex_init, mutex_lock_round, mutex_unlock, mutex_try_lock, enqueue, dequeue, Semaphore,
  sem_wait_round, sem_signal, sem_try_wait,
}
use micro_os.Sync.Exclusion.{without, Step, Reaches, Exclusive, Reaches-Exclusive}
use micro_os.Sync.Count.{Call, waits, tries, signals, exec, run, signal_count, run_balance}

abbrev held : Mutex
held = record { locked = true; owner = some 5; wait_queue = [] }

abbrev queued : Mutex
queued = record { locked = true; owner = some 5; wait_queue = 7 ∷ [] }

-- Task 5 takes the mutex, and task 7 has to wait.
queued-Reaches : Reaches queued (5 ∷ [])
unfolding mutex_init mutex_lock_round enqueue
queued-Reaches =
    Reaches.goes held queued (5 ∷ []) (5 ∷ [])
      (Reaches.goes mutex_init held [] (5 ∷ []) Reaches.starts
        (Step.locks mutex_init held [] 5 refl))
      (Step.sleeps held queued (5 ∷ []) 7 refl)

-- Task 5 unlocks, and task 7 takes the mutex.
abbrev handed : Mutex
handed = record { locked = true; owner = some 7; wait_queue = [] }

handed-Reaches : Reaches handed (7 ∷ [])
unfolding mutex_init mutex_unlock mutex_try_lock dequeue without
handed-Reaches =
    Reaches.goes mutex_init handed [] (7 ∷ [])
      (Reaches.goes queued mutex_init (5 ∷ []) [] queued-Reaches
        (Step.unlocks queued mutex_init (5 ∷ []) 5 refl refl))
      (Step.tries mutex_init handed [] 7 refl)

Reaches-Exclusive_example : Exclusive handed (7 ∷ [])
Reaches-Exclusive_example = Reaches-Exclusive handed (7 ∷ []) handed-Reaches

abbrev one_unit : Semaphore
one_unit = record { count = 1; wait_queue = [] }

abbrev script : List Call
script = waits 1 ∷ waits 2 ∷ signals ∷ tries ∷ []

run_balance_example :
    (r : ℕ × Semaphore) × (run one_unit script ≡ some r)
    × (r.0 + r.1.count ≡ 1 + signal_count script)
unfolding signal_count
run_balance_example = run_balance script one_unit (omega arith)

-- The second task waits, and the unit that is given back goes to the third call.
script_taken : run one_unit script ≡ some (2, record { count = 0; wait_queue = [] })
unfolding run exec sem_wait_round sem_signal sem_try_wait enqueue dequeue
script_taken = refl
