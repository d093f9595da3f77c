-- ===== src/Sched/Refresh.antt =====
-- What `pick_next` does to the table before it chooses: sleepers and waiters wake, stacks are freed.
use micro_os.Base.{
  ℕ, zero, suc, ◌+◌, ◌-◌, ◌<◌, ◌≤◌, ◌≡◌, ◌⊎◌, inl, inr, refl, sym, ◌∙◌, true, false, ◌&&◌, ◌||◌,
  not, List, [], ◌∷◌, ◌==◌, leb, length, length-set, get_or, set, Bool-cases, arith,
}
use micro_os.Sched.Defs.{
  ready, Task, Sched, zero_task, task_at, is_sleeping, is_blocked, is_dead, each, wake, notify,
  reap, reap_from, cleanup_dead_tasks, refresh,
}

-- A task that `cleanup_dead_tasks` leaves: only a blocked task's state changes, to ready.
pub record Cleaned (t t' : Task) : Type 0 where
  pub id : t'.id ≡ t.id
  pub priority : t'.priority ≡ t.priority
  pub wake_tick : t'.wake_tick ≡ t.wake_tick
  pub state : (t'.state ≡ t.state) ⊎ ((is_blocked t.state ≡ true) × (t'.state ≡ ready))

untouched : (t : Task) → Cleaned t t
untouched t = record { id = refl; priority = refl; wake_tick = refl; state = inl refl }

clean_twice : {t u w : Task} → Cleaned t u → Cleaned u w → Cleaned t w
clean_twice a b = record {
  id = b.id ∙ a.id;
  priority = b.priority ∙ a.priority;
  wake_tick = b.wake_tick ∙ a.wake_tick;
  state = ground (arith, a.state, b.state);
}

notify-Cleaned : (d t : Task) → Cleaned t (notify d t)
unfolding notify
notify-Cleaned d t = elim (Bool-cases (is_blocked t.state && (t.wait_for_id == d.id))) [
  | inl hit ↦
      rw hit
        (record { id = refl; priority = refl; wake_tick = refl; state = inr (ground arith, refl) })
  | inr miss ↦ rw miss (untouched t)
]

module _ (R : Task → Task → Type 0) (f : Task → Task) (step : (t : Task) → R t (f t))
    (self : (t : Task) → R t t) where
  each_keeps :
      (n : ℕ) (ts : List Task) (j : ℕ)
      → R (get_or ts j zero_task) (get_or (each n f ts) j zero_task)
  unfolding each
  each_keeps zero ts j = self _
  each_keeps (suc n) [] j = self _
  each_keeps (suc n) (t ∷ ts) zero = step t
  each_keeps (suc n) (t ∷ ts) (suc j) = each_keeps n ts j

  set_keeps :
      (ts : List Task) (i j : ℕ)
      → R (get_or ts j zero_task) (get_or (set ts i (f (get_or ts i zero_task))) j zero_task)
  set_keeps [] i j = self _
  set_keeps (t ∷ ts) zero zero = step t
  set_keeps (t ∷ ts) zero (suc j) = self _
  set_keeps (t ∷ ts) (suc i) zero = self _
  set_keeps (t ∷ ts) (suc i) (suc j) = set_keeps ts i j

each_at :
    (f : Task → Task)
    → f zero_task ≡ zero_task
    → (n : ℕ) (ts : List Task) (j : ℕ) → j < n
    → get_or (each n f ts) j zero_task ≡ f (get_or ts j zero_task)
unfolding each
each_at f e zero ts j h = elim h [ ]
each_at f e (suc n) [] j h = sym e
each_at f e (suc n) (t ∷ ts) zero h = refl
each_at f e (suc n) (t ∷ ts) (suc j) h = each_at f e n ts j (omega arith)

length-each : (n : ℕ) (f : Task → Task) (ts : List Task) → length (each n f ts) ≡ length ts
unfolding each
length-each zero f ts = refl
length-each (suc n) f [] = refl
length-each (suc n) f (t ∷ ts) = omega (arith, length-each n f ts)

-- The table's size, the running task and the counters are left alone.
pub record SameFrame (s s' : Sched) : Type 0 where
  pub size : length s'.tasks ≡ length s.tasks
  pub count : s'.task_count ≡ s.task_count
  pub current : s'.current ≡ s.current
  pub next_id : s'.next_id ≡ s.next_id

abbrev CleanedAll : Sched → Sched → Type 0
CleanedAll s s' = SameFrame s s' × ((j : ℕ) → Cleaned (task_at s j) (task_at s' j))

no_stack : Task → Task
no_stack t = record t { stack_base = 0 }

no_stack-Cleaned : (t : Task) → Cleaned t (no_stack t)
unfolding no_stack
no_stack-Cleaned t = record { id = refl; priority = refl; wake_tick = refl; state = inl refl }

reap-Cleaned : (s : Sched) (i : ℕ) → CleanedAll s (reap s i)
unfolding reap no_stack
reap-Cleaned s i = elim (Bool-cases (not (is_dead (task_at s i).state) || (i == s.current))) [
  | inl skip ↦
      rw skip
        (record { size = refl; count = refl; current = refl; next_id = refl }, λ j. untouched _)
  | inr go ↦
      let woken = each s.task_count (notify (task_at s i)) s.tasks in
      rw go (
        record {
          size = length-set woken i _ ∙ length-each s.task_count (notify (task_at s i)) s.tasks;
          count = refl;
          current = refl;
          next_id = refl;
        },
        λ j.
            clean_twice
              (each_keeps Cleaned (notify (task_at s i)) (notify-Cleaned (task_at s i)) untouched
                s.task_count s.tasks j)
              (set_keeps Cleaned no_stack no_stack-Cleaned untouched woken i j),
      )
]

same_twice : {s u w : Sched} → SameFrame s u → SameFrame u w → SameFrame s w
same_twice a b = record {
  size = b.size ∙ a.size;
  count = b.count ∙ a.count;
  current = b.current ∙ a.current;
  next_id = b.next_id ∙ a.next_id;
}

reap_from-Cleaned : (left : ℕ) (s : Sched) (i : ℕ) → CleanedAll s (reap_from s left i)
unfolding reap_from
reap_from-Cleaned zero s i =
    (record { size = refl; count = refl; current = refl; next_id = refl }, λ j. untouched _)
reap_from-Cleaned (suc left) s i =
    let (frame, tasks) = reap-Cleaned s i in
    let (frame', tasks') = reap_from-Cleaned left (reap s i) (i + 1) in
    (same_twice frame frame', λ j. clean_twice (tasks j) (tasks' j))

-- A task as `pick_next` leaves it: its identity is kept; a sleeper whose time has come is ready,
-- any other sleeper still sleeps; a blocked task may be ready; every other state is kept.
pub record Refreshed (now : ℕ) (t t' : Task) : Type 0 where
  pub id : t'.id ≡ t.id
  pub priority : t'.priority ≡ t.priority
  pub due : is_sleeping t.state ≡ true → t.wake_tick ≤ now → t'.state ≡ ready
  pub asleep : is_sleeping t.state ≡ true → now < t.wake_tick → t'.state ≡ t.state
  pub blocked_on : is_blocked t.state ≡ true → (t'.state ≡ t.state) ⊎ (t'.state ≡ ready)
  pub others : is_sleeping t.state ≡ false → is_blocked t.state ≡ false → t'.state ≡ t.state

wake-Refreshed : (now : ℕ) (t t' : Task) → Cleaned (wake now t) t' → Refreshed now t t'
unfolding wake
wake-Refreshed now t t' c = elim (Bool-cases (is_sleeping t.state && leb t.wake_tick now)) [
  | inl hit ↦
      let c' : Cleaned (record t { state = ready }) t' = rw hit at c in
      record {
        id = c'.id;
        priority = c'.priority;
        due = λ a b. ground (arith, c'.state);
        asleep = λ a b. ground (arith, hit);
        blocked_on = λ a. ground (arith, hit);
        others = λ a b. ground (arith, hit);
      }
  | inr miss ↦
      let c' : Cleaned t t' = rw miss at c in
      record {
        id = c'.id;
        priority = c'.priority;
        due = λ a b. ground (arith, miss);
        asleep = λ a b. ground (arith, c'.state);
        blocked_on = λ a. ground (arith, c'.state);
        others = λ a b. ground (arith, c'.state);
      }
]

-- `pick_next` wakes every sleeper whose deadline has passed and no other, and never changes the
-- state of a ready, a running or a dead task.
pub refresh-Refreshed :
    (s : Sched) (now : ℕ)
    → SameFrame s (refresh s now)
      × ((j : ℕ) → j < s.task_count → Refreshed now (task_at s j) (task_at (refresh s now) j))
unfolding refresh cleanup_dead_tasks
refresh-Refreshed s now =
    let s1 : Sched = record s { tasks = each s.task_count (wake now) s.tasks } in
    let (frame, tasks) = reap_from-Cleaned (s.task_count - 1) s1 1 in
    (
      record {
        size = frame.size ∙ length-each s.task_count (wake now) s.tasks;
        count = frame.count;
        current = frame.current;
        next_id = frame.next_id;
      },
      λ j h.
          let at = each_at (wake now) (unfold wake in refl) s.task_count s.tasks j h in
          wake-Refreshed now (task_at s j) _ (rw at at (tasks j)),
    )
