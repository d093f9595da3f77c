-- ===== src/Syscall/Defs.antt =====
-- The system calls of kernel/syscall.c and syscall.h.
-- An argument is a 64-bit word, negative from 2 ^ 63 on. What the user's memory holds, the tick, the
-- kernel's page table and what `kmalloc` returns are in `Env`.
use micro_os.Base.{
  ℕ, zero, suc, ◌+◌, ◌-◌, ◌%◌, ◌^◌, Bool, not, ◌&&◌, ◌||◌, Option, none, some, List, [], ◌∷◌, ◌++◌,
  ◌==◌, ltb, leb, if◌then◌else◌, length, min,
}
use micro_os.Vfs.Defs.{Vfs, Name}
use micro_os.Vfs.Ops.{VfsStat, vfs_open, vfs_close, vfs_read, vfs_write, vfs_stat}
use micro_os.Sched.Defs.{Sched, task_at}
use micro_os.Sched.Ops.{
  Wait, exited, waiting, not_found, Sent, sent, no_task, already_dead, sched_yield, sched_sleep,
  sched_wait, sched_exit, sched_send_signal,
}
use micro_os.Keyboard.Defs.{Keyboard, keyboard_getchar}

abbrev pub user_addr_limit : ℕ
user_addr_limit = 0x0000800000000000

abbrev pub syscall_max_len : ℕ
syscall_max_len = 65536

-- `sizeof(VfsStat)`
abbrev pub stat_size : ℕ
stat_size = 80

pub record System : Type 0 where
  pub vfs : Vfs
  pub sched : Sched
  pub keyboard : Keyboard
  pub console : List ℕ

pub record Env : Type 0 where
  pub memory : ℕ → ℕ
  pub text : ℕ → Name
  pub now : ℕ
  pub pml4 : ℕ
  pub fresh : Option (List ℕ)

-- What a call writes to the user's memory.
pub data Out : Type 0 where
  nothing : Out
  bytes : ℕ → List ℕ → Out
  stat : ℕ → VfsStat → Out

-- What it returns, `none` for -1 and `minus_two` for -2, or that the task waits.
pub data Result : Type 0 where
  returns : Option ℕ → Result
  minus_two waits : Result

abbrev pub Answer : Type 0
Answer = Result × Out × System

abbrev pub failed : System → Answer
failed s = (returns none, nothing, s)

abbrev pub is_negative : ℕ → Bool
is_negative x = leb (2 ^ 63) x

unfoldable pub uptr_valid : ℕ → ℕ → Bool
uptr_valid addr len = ltb addr user_addr_limit && leb len (user_addr_limit - addr)

-- The bytes from an address on.
unfoldable pub load_bytes : (ℕ → ℕ) → ℕ → ℕ → List ℕ
load_bytes m addr zero = []
load_bytes m addr (suc n) = m addr ∷ load_bytes m (addr + 1) n

unfoldable pub sys_exit : Env → System → ℕ → Answer
sys_exit e s code = (
  returns (some 0),
  nothing,
  record s { sched = sched_exit e.pml4 s.sched e.now (code % 2 ^ 32) },
)

abbrev pub wrote : System → Option ℕ × Vfs → Answer
wrote s (count, v) = (returns count, nothing, record s { vfs = v })

unfoldable pub sys_write : Env → System → ℕ → ℕ → ℕ → Answer
sys_write e s fd addr len =
    let n = min len syscall_max_len in
    let buf = load_bytes e.memory addr n in
    if is_negative len
    then failed s
    else if not (uptr_valid addr n)
    then failed s
    else if (fd == 1) || (fd == 2)
    then (returns (some n), nothing, record s { console = s.console ++ buf })
    else wrote s (vfs_write s.vfs (fd % 2 ^ 32) buf n)

-- A key of the buffer, if it is a character.
abbrev pub read_key : System → ℕ → Option ℕ × Keyboard → Answer
read_key s addr (none, k) = (waits, nothing, s)
read_key s addr (some key, k) =
    if ltb key 128
    then (returns (some 1), bytes addr (key ∷ []), record s { keyboard = k })
    else (returns (some 0), nothing, record s { keyboard = k })

abbrev pub read_file : System → ℕ → Option (List ℕ) × Vfs → Answer
read_file s addr (none, v) = (returns none, nothing, record s { vfs = v })
read_file s addr (some b, v) = (returns (some (length b)), bytes addr b, record s { vfs = v })

unfoldable pub sys_read : Env → System → ℕ → ℕ → ℕ → Answer
sys_read e s fd addr len =
    let n = min len syscall_max_len in
    if is_negative len || (len == 0)
    then failed s
    else if not (uptr_valid addr n)
    then failed s
    else if fd == 0
    then read_key s addr (keyboard_getchar s.keyboard)
    else read_file s addr (vfs_read s.vfs (fd % 2 ^ 32) n)

unfoldable pub sys_yield : Env → System → Answer
sys_yield e s = (returns (some 0), nothing, record s { sched = sched_yield e.pml4 s.sched e.now })

unfoldable pub sys_getpid : System → Answer
sys_getpid s = (returns (some (task_at s.sched s.sched.current).id), nothing, s)

unfoldable pub sys_sleep : Env → System → ℕ → Answer
sys_sleep e s ticks =
    if is_negative ticks || (ticks == 0)
    then (returns (some 0), nothing, s)
    else (returns (some 0), nothing, record s { sched = sched_sleep e.pml4 s.sched e.now ticks })

unfoldable pub sys_open : Env → System → ℕ → ℕ → Answer
sys_open e s path create =
    if not (uptr_valid path 1)
    then failed s
    else wrote s (vfs_open s.vfs (e.text path) (not (create == 0)) e.fresh)

unfoldable pub sys_close : System → ℕ → Answer
sys_close s fd = wrote s (vfs_close s.vfs (fd % 2 ^ 32))

abbrev pub give_stat : System → ℕ → Option VfsStat → Answer
give_stat s addr none = failed s
give_stat s addr (some st) = (returns (some 0), stat addr st, s)

unfoldable pub sys_stat : Env → System → ℕ → ℕ → Answer
sys_stat e s path addr =
    if not (uptr_valid path 1)
    then failed s
    else if not (uptr_valid addr stat_size)
    then failed s
    else give_stat s addr (vfs_stat s.vfs (e.text path))

unfoldable pub sys_getppid : System → Answer
sys_getppid s = (returns (some (task_at s.sched s.sched.current).parent_id), nothing, s)

abbrev pub waited : System → Wait → Answer
waited s (exited code) = (returns (some code), nothing, s)
waited s (waiting t) = (waits, nothing, record s { sched = t })
waited s not_found = failed s

unfoldable pub sys_waitpid : Env → System → ℕ → Answer
sys_waitpid e s pid =
    if is_negative pid || (pid == 0)
    then failed s
    else waited s (sched_wait e.pml4 s.sched e.now pid)

abbrev pub signalled : System → Sent × Sched → Answer
signalled s (sent, t) = (returns (some 0), nothing, record s { sched = t })
signalled s (no_task, t) = (returns none, nothing, record s { sched = t })
signalled s (already_dead, t) = (minus_two, nothing, record s { sched = t })

unfoldable pub sys_kill : System → ℕ → ℕ → Answer
sys_kill s pid sig =
    if is_negative pid || (pid == 0)
    then failed s
    else signalled s (sched_send_signal s.sched pid (sig % 2 ^ 32))

-- The table: 9 and 13 have no entry.
unfoldable pub syscall_dispatch : Env → System → ℕ → ℕ → ℕ → ℕ → Answer
syscall_dispatch e s num a0 a1 a2 =
    if num == 0
    then sys_exit e s a0
    else if num == 1
    then sys_write e s a0 a1 a2
    else if num == 2
    then sys_read e s a0 a1 a2
    else if num == 3
    then sys_yield e s
    else if num == 4
    then sys_getpid s
    else if num == 5
    then sys_sleep e s a0
    else if num == 6
    then sys_open e s a0 a1
    else if num == 7
    then sys_close s a0
    else if num == 8
    then sys_stat e s a0 a1
    else if num == 10
    then sys_getppid s
    else if num == 11
    then sys_waitpid e s a0
    else if num == 12
    then sys_kill s a0 a1
    else failed s
