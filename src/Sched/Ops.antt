-- ===== src/Sched/Ops.antt =====
-- The operations of kernel/sched/task.c.
-- A switch away from the running task is the change of `current`; what the task does once it is
-- switched back in is the next step of its caller. `vmm_get_kernel_pml4()` and what `kmalloc`
-- returns are arguments.
use Prim.Native.Nat.{bit_or}
use micro_os.Base.{
  ℕ, zero, suc, ◌+◌, ◌-◌, ◌*◌, ◌%◌, ◌^◌, Bool, false, ◌&&◌, ◌||◌, not, Option, none, some, List, [],
  ◌∷◌, ◌==◌, ltb, leb, if◌then◌else◌, get_or, replicate,
}
use micro_os.Sched.Defs.{
  stack_size, max_tasks, num_priorities, priority_normal, priority_idle, sig_max, ready, running,
  sleeping, blocked, dead, Task, zero_ctx, zero_task, Sched, task_at, set_task, is_running,
  is_sleeping, is_blocked, is_dead, pick_next,
}

unfoldable pub sched_init : ℕ → ℕ → Sched
sched_init idle_name kernel_pml4 = record {
  tasks =
      record zero_task { state = running; name = idle_name; priority = priority_idle }
      ∷ replicate (max_tasks - 1) zero_task;
  task_count = 1;
  current = 0;
  next_id = 1;
  rsp0 = 0;
  cr3 = kernel_pml4;
}

-- A slot of a dead task whose stack is freed, from slot `i` on.
unfoldable pub reusable : Sched → ℕ → ℕ → Option ℕ
reusable s zero i = none
reusable s (suc left) i =
    let rest = reusable s left (i + 1) in
    if is_dead (task_at s i).state && ((task_at s i).stack_base == 0) then some i else rest

unfoldable pub pick_slot : Sched → Option ℕ
pick_slot s = elim (reusable s (s.task_count - 1) 1) [
  | some i ↦ some i
  | none ↦ if leb max_tasks s.task_count then none else some s.task_count
]

-- The words that `do_task_create` stores on the new stack, and the stack pointer it starts from.
unfoldable pub stack_top : ℕ → ℕ
stack_top base = (base + stack_size) - (base + stack_size) % 16

unfoldable pub initial_rsp : ℕ → ℕ
initial_rsp base = stack_top base - 8 - 8 - 7 * 8

unfoldable pub initial_stack : ℕ → ℕ → ℕ → List (ℕ × ℕ)
initial_stack base entry trampoline =
    (stack_top base - 8, trampoline)
    ∷ (stack_top base - 8 - 8, entry)
    ∷ (initial_rsp base, 0)
    ∷ (initial_rsp base + 8, 0)
    ∷ (initial_rsp base + 16, 0)
    ∷ (initial_rsp base + 24, 0)
    ∷ (initial_rsp base + 32, 0)
    ∷ (initial_rsp base + 40, 0)
    ∷ (initial_rsp base + 48, 0x202)
    ∷ []

-- The task that is put in a slot; what the slot held before stays in the other fields.
unfoldable pub new_task : Sched → Task → ℕ → ℕ → ℕ → ℕ → Task
new_task s old base name entry priority = record old {
  stack_base = base;
  id = s.next_id;
  state = ready;
  name = name;
  priority = priority;
  exit_code = 0;
  parent_id = (task_at s s.current).id;
  wait_for_id = 0;
  pending_slot = none;
  ctx = record zero_ctx { rsp = initial_rsp base; rip = entry; rflags = 0x202 };
}

-- The slot of the new task, or NULL. `base` is what `kmalloc` returns for the stack.
unfoldable pub do_task_create : Sched → ℕ → ℕ → ℕ → ℕ → Option ℕ × Sched
do_task_create s base name entry priority = elim (pick_slot s) [
  | none ↦ (none, s)
  | some slot ↦
      if base == 0
      then (none, set_task s slot zero_task)
      else (let s1 = record s {
        task_count = if leb s.task_count slot then slot + 1 else s.task_count;
        next_id = (s.next_id + 1) % 2 ^ 64;
      } in
          (some slot, set_task s1 slot (new_task s (task_at s slot) base name entry priority)))
]

unfoldable pub task_create : Sched → ℕ → ℕ → ℕ → Option ℕ × Sched
task_create s base name entry = do_task_create s base name entry priority_normal

-- A negative priority, which the code raises to 0, is not a number here.
unfoldable pub task_create_prio : Sched → ℕ → ℕ → ℕ → ℕ → Option ℕ × Sched
task_create_prio s base name entry priority =
    do_task_create s base name entry
      (if leb num_priorities priority then num_priorities - 1 else priority)

-- The registers that a switch from `prev` to `next` loads.
unfoldable pub load_rsp0 : Sched → Task → ℕ
load_rsp0 s t = if t.is_user && not (t.stack_base == 0) then t.stack_base + stack_size else s.rsp0

unfoldable pub load_cr3 : ℕ → Sched → Task → Task → ℕ
load_cr3 kernel_pml4 s prev next =
    if not (next.pml4 == 0) then next.pml4 else if not (prev.pml4 == 0) then kernel_pml4 else s.cr3

-- `if (prev->state == TASK_RUNNING) prev->state = TASK_READY;`
unfoldable pub stop : Task → Task
stop t = if is_running t.state then record t { state = ready } else t

unfoldable pub start : Task → Task
start t = record t { state = running }

-- The part of `sched_yield` that switches to another task.
unfoldable pub switch_to : ℕ → Sched → ℕ → Sched
switch_to kernel_pml4 s next =
    let prev = s.current in
    let s1 = set_task s prev (stop (task_at s prev)) in
    let s2 = set_task s1 next (start (task_at s1 next)) in
    record s2 {
      current = next;
      rsp0 = load_rsp0 s2 (task_at s2 next);
      cr3 = load_cr3 kernel_pml4 s2 (task_at s2 prev) (task_at s2 next);
    }

unfoldable pub sched_yield : ℕ → Sched → ℕ → Sched
sched_yield kernel_pml4 s now =
    let (next, s') = pick_next s now in
    if next == s'.current then s' else switch_to kernel_pml4 s' next

unfoldable pub sched_schedule : ℕ → Sched → ℕ → Sched
sched_schedule kernel_pml4 s now = sched_yield kernel_pml4 s now

abbrev pub update_current : Sched → (Task → Task) → Sched
update_current s f = set_task s s.current (f (task_at s s.current))

unfoldable pub sched_sleep : ℕ → Sched → ℕ → ℕ → Sched
sched_sleep kernel_pml4 s now ticks =
    sched_yield kernel_pml4
      (update_current s (λ t. record t { state = sleeping; wake_tick = (now + ticks) % 2 ^ 64 }))
      now

-- The first slot with that id, from slot `i` on.
unfoldable pub find_from : Sched → ℕ → ℕ → ℕ → Option ℕ
find_from s id zero i = none
find_from s id (suc left) i =
    let rest = find_from s id left (i + 1) in if (task_at s i).id == id then some i else rest

unfoldable pub sched_find_task : Sched → ℕ → Option ℕ
sched_find_task s id = find_from s id s.task_count 0

-- What `sched_wait` does before it returns: an exit code at once, or a switch, after which the
-- code is read from the caller's task, or -1.
pub data Wait : Type 0 where
  exited : ℕ → Wait
  waiting : Sched → Wait
  not_found : Wait

unfoldable pub sched_wait : ℕ → Sched → ℕ → ℕ → Wait
sched_wait kernel_pml4 s now id = elim (sched_find_task s id) [
  | none ↦ not_found
  | some i ↦
      if is_dead (task_at s i).state
      then exited (task_at s i).exit_code
      else waiting (
          sched_yield kernel_pml4
            (update_current s (λ t. record t { state = blocked; wait_for_id = id })) now)
]

unfoldable pub sched_exit : ℕ → Sched → ℕ → ℕ → Sched
sched_exit kernel_pml4 s now code =
    sched_yield kernel_pml4 (update_current s (λ t. record t { exit_code = code; state = dead }))
      now

unfoldable pub task_exit_trampoline : ℕ → Sched → ℕ → Sched
task_exit_trampoline kernel_pml4 s now =
    sched_yield kernel_pml4 (update_current s (λ t. record t { state = dead; exit_code = 0 })) now

unfoldable pub any_from : Sched → ℕ → ℕ → ℕ → Bool
any_from s prio zero i = false
any_from s prio (suc left) i =
    (((task_at s i).priority == prio) && not (is_dead (task_at s i).state))
    || any_from s prio left (i + 1)

unfoldable pub sched_any_priority : Sched → ℕ → Bool
sched_any_priority s prio = any_from s prio (s.task_count - 1) 1

-- What a signal does to its task; `none` where the signal is dropped.
unfoldable pub deliver : ℕ → Task → Task
deliver sig t =
    let handler = get_or t.sig_handlers sig 0 in
    if sig == 9
    then record t { exit_code = 128 + sig; state = dead }
    else if sig == 19
    then record t { state = blocked }
    else if handler == 1
    then t
    else if handler == 0
    then (if sig == 17 then t else record t { exit_code = 128 + sig; state = dead })
    else record t {
      sig_pending = bit_or t.sig_pending (2 ^ sig);
      state = if is_sleeping t.state || is_blocked t.state then ready else t.state;
    }

-- The result of `sched_send_signal`: 0, -1 or -2.
pub data Sent : Type 0 where
  sent no_task already_dead : Sent

unfoldable pub sched_send_signal : Sched → ℕ → ℕ → Sent × Sched
sched_send_signal s id sig =
    if ltb sig 1 || leb sig_max sig then (no_task, s) else elim (sched_find_task s id) [
      | none ↦ (no_task, s)
      | some i ↦
          if is_dead (task_at s i).state
          then (already_dead, s)
          else (sent, set_task s i (deliver sig (task_at s i)))
    ]
