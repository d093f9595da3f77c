-- ===== src/Sched/Inv.antt =====
-- The invariant of the task table, and what a switch does.
use micro_os.Base.{
  ℕ, ◌<◌, ◌≤◌, ◌≡◌, ◌≢◌, ◌⊎◌, inl, inr, refl, sym, ◌∙◌, true, false, List, ◌==◌, leb, length,
  length-set, get_or, get_or-set_self, get_or-set_ne, set, Bool-cases, arith,
}
use micro_os.Sched.Defs.{
  max_tasks, running, Task, Sched, zero_task, task_at, is_running, is_sleeping, is_blocked, refresh,
  pick_next, pick_from, num_priorities,
}
use micro_os.Sched.Ops.{sched_init, stop, start, switch_to, sched_yield}
use micro_os.Sched.Pick.{Picked, pick_from-Picked_all}
use micro_os.Sched.Refresh.{Refreshed, refresh-Refreshed}

-- The running task is in the table, and no other task is marked RUNNING.
pub record IsValid (s : Sched) : Type 0 where
  pub size : length s.tasks ≡ max_tasks
  pub bounded : s.task_count ≤ max_tasks
  pub inside : s.current < s.task_count
  pub alone : (j : ℕ) → j < s.task_count → is_running (task_at s j).state ≡ true → j ≡ s.current

pub sched_init-IsValid : (name pml4 : ℕ) → IsValid (sched_init name pml4)
unfolding sched_init
sched_init-IsValid name pml4 = record {
  size = refl;
  bounded = omega arith;
  inside = omega arith;
  alone = λ j h is. omega arith;
}

-- `pick_next` makes no task RUNNING.
pub Refreshed-is_running :
    (now : ℕ) (t t' : Task)
    → Refreshed now t t'
    → is_running t'.state ≡ true
    → is_running t.state ≡ true
Refreshed-is_running now t t' r is = elim (Bool-cases (is_sleeping t.state)) [
  | inl asleep ↦ elim (Bool-cases (leb t.wake_tick now)) [
    | inl due ↦ let e = r.due asleep (ground arith) in ground arith
    | inr early ↦ let e = r.asleep asleep (ground arith) in ground arith
  ]
  | inr awake ↦ elim (Bool-cases (is_blocked t.state)) [
    | inl waits ↦ let e = r.blocked_on waits in ground arith
    | inr free ↦ let e = r.others awake free in ground arith
  ]
]

pub refresh-IsValid : (s : Sched) (now : ℕ) → IsValid s → IsValid (refresh s now)
refresh-IsValid s now v =
    let (frame, tasks) = refresh-Refreshed s now in
    record {
      size = frame.size ∙ v.size;
      bounded = omega (arith, frame.count, v.bounded);
      inside = omega (arith, frame.count, frame.current, v.inside);
      alone = λ j h is.
          let in_table : j < s.task_count = omega (arith, frame.count) in
          let was = v.alone j in_table (Refreshed-is_running now _ _ (tasks j in_table) is) in
          omega (arith, frame.current);
    }

-- The target of a switch is inside the table.
Picked-in_table : (s : Sched) (r : ℕ) → IsValid s → Picked s r → r < s.task_count
Picked-in_table s r v (inl best) = best.in_table
Picked-in_table s r v (inr (e, _)) = omega (arith, v.inside)

stop-is_running : (t : Task) → is_running (stop t).state ≡ false
unfolding stop
stop-is_running t = elim (Bool-cases (is_running t.state)) [
  | inl was ↦ rw was refl
  | inr was_not ↦ rw was_not was_not
]

-- The table of a switch: `stop` at one slot, then `start` at another; `z` stands for no task.
module _ (z : Task) (ts : List Task) (prev next : ℕ) (prev_in : prev < length ts)
    (next_in : next < length ts) where
  halfway : List Task
  halfway = set ts prev (stop (get_or ts prev z))

  switched : List Task
  switched = set halfway next (start (get_or halfway next z))

  length-halfway : length halfway ≡ length ts
  unfolding halfway
  length-halfway = length-set ts prev _

  length-switched : length switched ≡ length ts
  unfolding switched
  length-switched = length-set halfway next _ ∙ length-halfway

  after_switch : get_or switched next z ≡ start (get_or halfway next z)
  unfolding switched
  after_switch = get_or-set_self halfway next _ z (omega (arith, length-halfway))

  switched_else : (j : ℕ) → next ≢ j → get_or switched j z ≡ get_or halfway j z
  unfolding switched
  switched_else j h = get_or-set_ne halfway next j _ z h

  halfway_prev : get_or halfway prev z ≡ stop (get_or ts prev z)
  unfolding halfway
  halfway_prev = get_or-set_self ts prev _ z prev_in

  halfway_else : (j : ℕ) → prev ≢ j → get_or halfway j z ≡ get_or ts j z
  unfolding halfway
  halfway_else j h = get_or-set_ne ts prev j _ z h

  next_runs : (get_or switched next z).state ≡ running
  next_runs = rw after_switch (unfold start in refl)

  -- A task that a switch leaves running is its target, or was running and is not the one it left.
  switched-is_running :
      (j : ℕ)
      → is_running (get_or switched j z).state ≡ true
      → (j ≡ next) ⊎ ((j ≢ prev) × (is_running (get_or ts j z).state ≡ true))
  switched-is_running j h = elim (Bool-cases (next == j)) [
    | inl e ↦ inl (ground arith)
    | inr other ↦
        let h' = rw (switched_else j (ground arith)) at h in
        elim (Bool-cases (prev == j)) [
          | inl e ↦
              let e' : prev ≡ j = ground arith in
              let runs : is_running (stop (get_or ts prev z)).state ≡ true =
                rw (sym halfway_prev, e') h' in
              let idle = stop-is_running (get_or ts prev z) in absurd (ground (arith, runs, idle))
          | inr past ↦ inr (λ e. ground arith, rw (halfway_else j (ground arith)) at h')
        ]
  ]

-- A switch away from the running task makes its target the running task, and the only one.
pub switch_to-IsValid :
    (pml4 : ℕ) (s : Sched) (next : ℕ)
    → IsValid s
    → next < s.task_count
    → IsValid (switch_to pml4 s next) × ((task_at (switch_to pml4 s next) next).state ≡ running)
unfolding switch_to halfway switched
switch_to-IsValid pml4 s next v h =
    let prev_in : s.current < length s.tasks = omega (arith, v.inside, v.bounded, v.size) in
    let next_in : next < length s.tasks = omega (arith, v.bounded, v.size) in
    let others = switched-is_running zero_task s.tasks s.current next prev_in next_in in
    (
      record {
        size = length-switched zero_task s.tasks s.current next prev_in next_in ∙ v.size;
        bounded = v.bounded;
        inside = h;
        alone = λ j j_in is. elim (others j is) [
          | inl e ↦ e
          | inr (past, was) ↦ absurd (past (v.alone j j_in was))
        ];
      },
      next_runs zero_task s.tasks s.current next prev_in next_in,
    )

switch_to-current : (pml4 : ℕ) (s : Sched) (next : ℕ) → (switch_to pml4 s next).current ≡ next
unfolding switch_to
switch_to-current pml4 s next = refl

-- What `sched_yield` makes of the table `s` at the time `now`.
pub record Yielded (s : Sched) (now : ℕ) (s' : Sched) : Type 0 where
  pub valid : IsValid s'
  pub picked : Picked (refresh s now) s'.current
  pub runs : s'.current ≢ s.current → (task_at s' s'.current).state ≡ running
  pub stays : s'.current ≡ s.current → s' ≡ refresh s now

-- From a valid table, `sched_yield` leaves a valid one whose current task is the choice of
-- `pick_next`: a ready task of the best priority, the first in the round from the task that yields,
-- or the idle task where none is ready. If another task than the one that yields is chosen, it is
-- now the running task; else only the wake-ups of `pick_next` have changed the table.
pub sched_yield-Yielded :
    (pml4 : ℕ) (s : Sched) (now : ℕ) → IsValid s → Yielded s now (sched_yield pml4 s now)
unfolding sched_yield pick_next
sched_yield-Yielded pml4 s now v =
    let vr = refresh-IsValid s now v in
    let next = pick_from (refresh s now) num_priorities 0 in
    let picked = pick_from-Picked_all (refresh s now) vr.inside in
    let (frame, _) = refresh-Refreshed s now in
    elim (Bool-cases (next == (refresh s now).current)) [
      | inl same ↦
          let e : next ≡ (refresh s now).current = ground arith in
          rw same (record {
            valid = vr;
            picked = rw e at picked;
            runs = λ h. absurd (h frame.current);
            stays = λ h. refl;
          })
      | inr other ↦
          let in_table = Picked-in_table (refresh s now) next vr picked in
          let (valid, runs) = switch_to-IsValid pml4 (refresh s now) next vr in_table in
          let at = switch_to-current pml4 (refresh s now) next in
          rw other (record {
            valid = valid;
            picked = rw at picked;
            runs = λ h. rw at runs;
            stays = λ h. absurd (ground (arith, at, h, frame.current));
          })
    ]
