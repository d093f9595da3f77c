-- ===== src/Sched/Calls.antt =====
-- The calls of kernel/sched/task.c as a sequence: each keeps the table valid.
use micro_os.Base.{
  OnSome, ℕ, zero, suc, ◌+◌, ◌-◌, ◌%◌, ◌^◌, ◌<◌, ◌≤◌, ◌≡◌, ◌≢◌, inl, inr, refl, sym, ◌∙◌, true,
  false, ◌&&◌, ◌||◌, Option, none, some, List, [], ◌∷◌, ◌==◌, ltb, leb, if◌then◌else◌, length,
  length-set, get_or, get_or-set_self, get_or-set_ne, set, Bool-cases, Option-cases, arith,
}
use micro_os.Sched.Defs.{
  max_tasks, sig_max, sleeping, blocked, dead, Task, Sched, zero_task, task_at, set_task,
  is_running, is_dead,
}
use micro_os.Sched.Ops.{
  sched_init, reusable, pick_slot, new_task, do_task_create, sched_yield, update_current,
  sched_sleep, find_from, sched_find_task, sched_wait, Wait, exited, waiting, not_found, sched_exit,
  deliver, sched_send_signal,
}
use micro_os.Sched.Inv.{IsValid, sched_init-IsValid, sched_yield-Yielded}

-- After a task that does not run is put in slot `i`, the running tasks are in the other slots.
put_idle :
    (z : Task) (ts : List Task) (i j : ℕ) (t : Task)
    → is_running t.state ≡ false
    → i < length ts
    → is_running (get_or (set ts i t) j z).state ≡ true
    → (i ≢ j) × (is_running (get_or ts j z).state ≡ true)
put_idle z ts i j t idle i_in is = elim (Bool-cases (i == j)) [
  | inl e ↦
      let e' : i ≡ j = ground arith in
      let at : get_or (set ts i t) j z ≡ t = rw (sym e') (get_or-set_self ts i t z i_in) in
      absurd (ground (arith, (rw at at is), idle))
  | inr other ↦ (ground arith, rw (get_or-set_ne ts i j t z (ground arith)) at is)
]

-- Writing a task that does not run at slot `i`, in a table that may grow by this slot.
put-IsValid :
    (s : Sched) (i n id : ℕ) (t : Task)
    → IsValid s
    → is_running t.state ≡ false
    → i < max_tasks
    → s.task_count ≤ n
    → n ≤ max_tasks
    → ((j : ℕ) → j < n → i ≢ j → j < s.task_count)
    → IsValid (record s { tasks = set s.tasks i t; task_count = n; next_id = id })
put-IsValid s i n id t v idle i_in lo hi only = record {
  size = length-set s.tasks i t ∙ v.size;
  bounded = hi;
  inside = omega (arith, v.inside);
  alone = λ j j_in is.
      let (other, was) = put_idle zero_task s.tasks i j t idle (omega (arith, v.size)) is in
      v.alone j (only j j_in other) was;
}

set_task-IsValid :
    (s : Sched) (i : ℕ) (t : Task)
    → IsValid s
    → is_running t.state ≡ false
    → i < max_tasks
    → IsValid (set_task s i t)
set_task-IsValid s i t v idle i_in =
    put-IsValid s i s.task_count s.next_id t v idle i_in (omega arith) v.bounded
      (λ j j_in other. j_in)

pub update_current-IsValid :
    (s : Sched) (f : Task → Task) → IsValid s → IsValid (update_current s f)
update_current-IsValid s f v = record {
  size = length-set s.tasks s.current _ ∙ v.size;
  bounded = v.bounded;
  inside = v.inside;
  alone = λ j j_in is. elim (Bool-cases (s.current == j)) [
    | inl e ↦ ground arith
    | inr other ↦
        v.alone j j_in (rw (get_or-set_ne s.tasks s.current j _ zero_task (ground arith)) at is)
  ];
}

widen :
    (left i : ℕ) (o : Option ℕ)
    → OnSome (λ k. k < i + 1 + left) o
    → OnSome (λ k. k < i + suc left) o
widen left i none h = tt
widen left i (some k) h = omega arith

reusable-in_table : (s : Sched) (left i : ℕ) → OnSome (λ k. k < i + left) (reusable s left i)
unfolding reusable
reusable-in_table s zero i = tt
reusable-in_table s (suc left) i =
    elim (Bool-cases (is_dead (task_at s i).state && ((task_at s i).stack_base == 0))) [
      | inl free ↦ rw free (omega arith)
      | inr taken ↦
          rw taken (widen left i (reusable s left (i + 1)) (reusable-in_table s left (i + 1)))
    ]

pick_slot-in_table :
    (s : Sched) → IsValid s → OnSome (λ k. (k < max_tasks) × (k ≤ s.task_count)) (pick_slot s)
unfolding pick_slot
pick_slot-in_table s v = elim (Option-cases (reusable s (s.task_count - 1) 1)) [
  | inl nothing ↦ rw (nothing, pick_slot) (fresh s.task_count)
  | inr (k, found) ↦
      let low = rw found at (reusable-in_table s (s.task_count - 1) 1) in
      rw (found, pick_slot) (omega (arith, v.bounded, v.inside, low), omega (arith, v.inside, low))
]
  where
    fresh :
        (n : ℕ) → OnSome (λ k. (k < max_tasks) × (k ≤ n)) (if leb max_tasks n then none else some n)
    fresh n = elim (Bool-cases (leb max_tasks n)) [
      | inl full ↦ rw full tt
      | inr room ↦ rw room (ground arith, omega arith)
    ]

pub do_task_create-IsValid :
    (s : Sched) (base name entry priority : ℕ)
    → IsValid s
    → IsValid (do_task_create s base name entry priority).1
unfolding do_task_create new_task
do_task_create-IsValid s base name entry priority v = elim (Option-cases (pick_slot s)) [
  | inl full ↦ rw (full, do_task_create) v
  | inr (slot, found) ↦
      let (slot_in, slot_le) = rw found at (pick_slot-in_table s v) in
      elim (Bool-cases (base == 0)) [
        | inl no_memory ↦
            rw (found, do_task_create, no_memory) (set_task-IsValid s slot zero_task v refl slot_in)
        | inr stack ↦
            rw (found, do_task_create, stack)
              (put-IsValid s slot _ _ _ v refl slot_in (ground arith) (ground (arith, v.bounded))
                (λ j j_in other. ground arith))
      ]
]

-- A signal makes no task RUNNING.
deliver-is_running :
    (sig : ℕ) (t : Task) → is_running (deliver sig t).state ≡ true → is_running t.state ≡ true
unfolding deliver
deliver-is_running sig t is = ground arith

-- Changing the task at slot `i` in a way that makes no task RUNNING.
change-IsValid :
    (s : Sched) (i : ℕ) (f : Task → Task)
    → IsValid s
    → ((t : Task) → is_running (f t).state ≡ true → is_running t.state ≡ true)
    → i < max_tasks
    → IsValid (set_task s i (f (task_at s i)))
change-IsValid s i f v keeps i_in = elim (Bool-cases (is_running (f (task_at s i)).state)) [
  | inr idle ↦ set_task-IsValid s i (f (task_at s i)) v idle i_in
  | inl runs ↦ record {
    size = length-set s.tasks i _ ∙ v.size;
    bounded = v.bounded;
    inside = v.inside;
    alone = λ j j_in is. elim (Bool-cases (i == j)) [
      | inl e ↦
          let e' : i ≡ j = ground arith in v.alone j j_in (rw (sym e') (keeps (task_at s i) runs))
      | inr other ↦ v.alone j j_in (rw (get_or-set_ne s.tasks i j _ zero_task (ground arith)) at is)
    ];
  }
]

find_from-in_table :
    (s : Sched) (id left i : ℕ) → OnSome (λ k. k < i + left) (find_from s id left i)
unfolding find_from
find_from-in_table s id zero i = tt
find_from-in_table s id (suc left) i = elim (Bool-cases ((task_at s i).id == id)) [
  | inl hit ↦ rw hit (omega arith)
  | inr miss ↦
      rw miss (widen left i (find_from s id left (i + 1)) (find_from-in_table s id left (i + 1)))
]

pub sched_send_signal-IsValid :
    (s : Sched) (id sig : ℕ) → IsValid s → IsValid (sched_send_signal s id sig).1
unfolding sched_send_signal sched_find_task
sched_send_signal-IsValid s id sig v = elim (Bool-cases (ltb sig 1 || leb sig_max sig)) [
  | inl bad ↦ rw (sched_send_signal, bad) v
  | inr good ↦ elim (Option-cases (find_from s id s.task_count 0)) [
    | inl nothing ↦ rw (sched_send_signal, good, sched_find_task, nothing) v
    | inr (i, found) ↦
        let i_in = rw found at (find_from-in_table s id s.task_count 0) in
        elim (Bool-cases (is_dead (task_at s i).state)) [
          | inl is ↦ rw (sched_send_signal, good, sched_find_task, found, is) v
          | inr alive ↦
              rw (sched_send_signal, good, sched_find_task, found, alive)
                (change-IsValid s i (deliver sig) v (deliver-is_running sig)
                  (omega (arith, v.bounded)))
        ]
  ]
]

-- A call of the scheduler. `base` is what `kmalloc` returns, `now` the tick count.
pub data Call : Type 0 where
  yields : ℕ → Call
  sleeps : ℕ → ℕ → Call
  waits : ℕ → ℕ → Call
  exits : ℕ → ℕ → Call
  creates : ℕ → ℕ → ℕ → ℕ → Call
  signals : ℕ → ℕ → Call

-- The table after `sched_wait`; where it returns at once, nothing changes.
unfoldable pub after_wait : Sched → Wait → Sched
after_wait s (exited code) = s
after_wait s (waiting s') = s'
after_wait s not_found = s

unfoldable pub exec : ℕ → Sched → Call → Sched
exec pml4 s (yields now) = sched_yield pml4 s now
exec pml4 s (sleeps now ticks) = sched_sleep pml4 s now ticks
exec pml4 s (waits now id) = after_wait s (sched_wait pml4 s now id)
exec pml4 s (exits now code) = sched_exit pml4 s now code
exec pml4 s (creates base name entry priority) = (do_task_create s base name entry priority).1
exec pml4 s (signals id sig) = (sched_send_signal s id sig).1

unfoldable pub exec_all : ℕ → Sched → List Call → Sched
exec_all pml4 s [] = s
exec_all pml4 s (c ∷ cs) = exec_all pml4 (exec pml4 s c) cs

pub sched_wait-IsValid :
    (pml4 : ℕ) (s : Sched) (now id : ℕ)
    → IsValid s
    → IsValid (after_wait s (sched_wait pml4 s now id))
unfolding sched_wait after_wait
sched_wait-IsValid pml4 s now id v = elim (Option-cases (sched_find_task s id)) [
  | inl nothing ↦ rw (sched_wait, nothing) v
  | inr (i, found) ↦ elim (Bool-cases (is_dead (task_at s i).state)) [
    | inl is ↦ rw (sched_wait, found, is) v
    | inr alive ↦
        rw (sched_wait, found, alive)
          ((sched_yield-Yielded pml4 _ now (
            update_current-IsValid s (λ t. record t { state = blocked; wait_for_id = id })
              v)).valid)
  ]
]

pub exec-IsValid : (pml4 : ℕ) (s : Sched) (c : Call) → IsValid s → IsValid (exec pml4 s c)
unfolding exec sched_sleep sched_exit
exec-IsValid pml4 s (yields now) v = (sched_yield-Yielded pml4 s now v).valid
exec-IsValid pml4 s (sleeps now ticks) v =
    let v' =
      update_current-IsValid s
        (λ t. record t { state = sleeping; wake_tick = (now + ticks) % 2 ^ 64 }) v in
    (sched_yield-Yielded pml4 _ now v').valid
exec-IsValid pml4 s (waits now id) v = sched_wait-IsValid pml4 s now id v
exec-IsValid pml4 s (exits now code) v =
    let v' = update_current-IsValid s (λ t. record t { exit_code = code; state = dead }) v in
    (sched_yield-Yielded pml4 _ now v').valid
exec-IsValid pml4 s (creates base name entry priority) v =
    do_task_create-IsValid s base name entry priority v
exec-IsValid pml4 s (signals id sig) v = sched_send_signal-IsValid s id sig v

exec_all_from-IsValid :
    (pml4 : ℕ) (cs : List Call) (s : Sched) → IsValid s → IsValid (exec_all pml4 s cs)
unfolding exec_all
exec_all_from-IsValid pml4 [] s v = v
exec_all_from-IsValid pml4 (c ∷ cs) s v =
    exec_all_from-IsValid pml4 cs (exec pml4 s c) (exec-IsValid pml4 s c v)

-- After `sched_init` and any calls of the scheduler, the running task is in the table, and no
-- other task of the table is marked RUNNING.
pub exec_all-IsValid :
    (pml4 idle_name : ℕ) (cs : List Call) → IsValid (exec_all pml4 (sched_init idle_name pml4) cs)
exec_all-IsValid pml4 idle_name cs =
    exec_all_from-IsValid pml4 cs (sched_init idle_name pml4) (sched_init-IsValid idle_name pml4)
