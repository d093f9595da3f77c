-- ===== src/Sched/Defs.antt =====
-- The task table of kernel/sched/task.c and the choice of the next task.
-- Pointers are addresses and NULL is 0. `timer_ticks()` is the argument `now`.
use micro_os.Base.{
  ℕ, zero, suc, ◌+◌, ◌-◌, ◌*◌, ◌%◌, Bool, true, false, ◌&&◌, ◌||◌, not, Option, none, some, List,
  [], ◌∷◌, ◌==◌, leb, if◌then◌else◌, get_or, set, replicate,
}

abbrev pub stack_size : ℕ
stack_size = 4096 * 4

abbrev pub max_tasks : ℕ
max_tasks = 64

abbrev pub num_priorities : ℕ
num_priorities = 4

abbrev pub priority_normal : ℕ
priority_normal = 1

abbrev pub priority_idle : ℕ
priority_idle = 3

-- `SIG_MAX_TASK`.
abbrev pub sig_max : ℕ
sig_max = 20

-- `TaskState`.
pub data TaskState : Type 0 where
  ready running sleeping blocked dead : TaskState

-- `TaskContext`.
pub record Context : Type 0 where
  pub rsp : ℕ
  pub rip : ℕ
  pub rbx : ℕ
  pub rbp : ℕ
  pub r12 : ℕ
  pub r13 : ℕ
  pub r14 : ℕ
  pub r15 : ℕ
  pub rflags : ℕ

-- `Task`; `exit_code` is the `int`'s bit pattern.
pub record Task : Type 0 where
  pub ctx : Context
  pub id : ℕ
  pub state : TaskState
  pub wake_tick : ℕ
  pub stack_base : ℕ
  pub name : ℕ
  pub priority : ℕ
  pub exit_code : ℕ
  pub parent_id : ℕ
  pub wait_for_id : ℕ
  pub is_user : Bool
  pub sig_pending : ℕ
  pub sig_handlers : List ℕ
  pub pml4 : ℕ
  pub pending_slot : Option ℕ

abbrev pub zero_ctx : Context
zero_ctx = record {
  rsp = 0;
  rip = 0;
  rbx = 0;
  rbp = 0;
  r12 = 0;
  r13 = 0;
  r14 = 0;
  r15 = 0;
  rflags = 0;
}

-- `memset(t, 0, sizeof(Task))`: state 0 is READY and priority 0 is the highest.
abbrev pub zero_task : Task
zero_task = record {
  ctx = zero_ctx;
  id = 0;
  state = ready;
  wake_tick = 0;
  stack_base = 0;
  name = 0;
  priority = 0;
  exit_code = 0;
  parent_id = 0;
  wait_for_id = 0;
  is_user = false;
  sig_pending = 0;
  sig_handlers = replicate sig_max 0;
  pml4 = 0;
  pending_slot = some 0;
}

-- The static variables, with the two registers that a switch loads: RSP0 of the TSS, and CR3.
pub record Sched : Type 0 where
  pub tasks : List Task
  pub task_count : ℕ
  pub current : ℕ
  pub next_id : ℕ
  pub rsp0 : ℕ
  pub cr3 : ℕ

abbrev pub task_at : Sched → ℕ → Task
task_at s i = get_or s.tasks i zero_task

abbrev pub set_task : Sched → ℕ → Task → Sched
set_task s i t = record s { tasks = set s.tasks i t }

abbrev pub is_ready : TaskState → Bool
is_ready ready = true
is_ready _ = false

abbrev pub is_running : TaskState → Bool
is_running running = true
is_running _ = false

abbrev pub is_sleeping : TaskState → Bool
is_sleeping sleeping = true
is_sleeping _ = false

abbrev pub is_blocked : TaskState → Bool
is_blocked blocked = true
is_blocked _ = false

abbrev pub is_dead : TaskState → Bool
is_dead dead = true
is_dead _ = false

-- Applies `f` to the first `n` tasks: the body of a loop that changes each task by itself.
unfoldable pub each : ℕ → (Task → Task) → List Task → List Task
each zero f ts = ts
each (suc n) f [] = []
each (suc n) f (t ∷ ts) = f t ∷ each n f ts

-- `if (state == TASK_SLEEPING && now >= wake_tick) state = TASK_READY;`
unfoldable pub wake : ℕ → Task → Task
wake now t = if is_sleeping t.state && leb t.wake_tick now then record t { state = ready } else t

-- Wakes a task that waits for the dead task `d`.
unfoldable pub notify : Task → Task → Task
notify d t =
    if is_blocked t.state && (t.wait_for_id == d.id)
    then record t { state = ready; exit_code = d.exit_code; wait_for_id = 0 }
    else t

-- The body of the loop of `cleanup_dead_tasks` at slot `i`.
unfoldable pub reap : Sched → ℕ → Sched
reap s i =
    let d = task_at s i in
    if not (is_dead d.state) || (i == s.current)
    then s
    else (let s1 = record s { tasks = each s.task_count (notify d) s.tasks } in
        set_task s1 i (record (task_at s1 i) { stack_base = 0 }))

unfoldable pub reap_from : Sched → ℕ → ℕ → Sched
reap_from s zero i = s
reap_from s (suc left) i = reap_from (reap s i) left (i + 1)

unfoldable pub cleanup_dead_tasks : Sched → Sched
cleanup_dead_tasks s = reap_from s (s.task_count - 1) 1

-- The inner loop of `pick_next`: from `current + i` on, `left` slots.
unfoldable pub find_ready : Sched → ℕ → ℕ → ℕ → Option ℕ
find_ready s prio zero i = none
find_ready s prio (suc left) i =
    let idx = (s.current + i) % s.task_count in
    let rest = find_ready s prio left (i + 1) in
    if is_ready (task_at s idx).state && ((task_at s idx).priority == prio) then some idx else rest

-- The outer loop, from priority `prio` on; 0 is the idle task.
unfoldable pub pick_from : Sched → ℕ → ℕ → ℕ
pick_from s zero prio = 0
pick_from s (suc left) prio =
    let rest = pick_from s left (prio + 1) in
    elim (find_ready s prio s.task_count 1) [ some idx ↦ idx | none ↦ rest ]

-- The table as `pick_next` leaves it.
unfoldable pub refresh : Sched → ℕ → Sched
refresh s now = cleanup_dead_tasks (record s { tasks = each s.task_count (wake now) s.tasks })

unfoldable pub pick_next : Sched → ℕ → ℕ × Sched
pick_next s now = let s' = refresh s now in (pick_from s' num_priorities 0, s')
