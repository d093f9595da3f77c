-- ===== src/Syscall/Safe.antt =====
-- A system call keeps every part valid, and writes to the user's half of the address space only.
use micro_os.Base.{
  ℕ, ◌+◌, ◌-◌, ◌%◌, ◌^◌, ◌≤◌, ◌≡◌, inl, inr, Bool, true, false, not, ◌||◌, Option, none, some, List,
  [], ◌∷◌, ◌==◌, ltb, if◌then◌else◌, length, length-take, drop, min, Bool-cases, arith,
}
use micro_os.Vfs.Defs.{Vfs, vnode_at, fd_at}
use micro_os.Vfs.Ops.{VfsStat, vfs_read, vfs_stat, read_at, bad_fd}
use micro_os.Vfs.Inv as VfsInv
use micro_os.Vfs.InvOps.{
  FreshOk, vfs_open-IsValid, vfs_close-IsValid, vfs_read-IsValid, vfs_write-IsValid,
}
use micro_os.Sched.Defs.{Sched}
use micro_os.Sched.Ops.{
  Wait, exited, waiting, not_found, Sent, sent, no_task, already_dead, sched_wait,
  sched_send_signal,
}
use micro_os.Sched.Inv as SchedInv
use micro_os.Sched.Calls.{
  yields, sleeps, exits, exec, exec-IsValid, after_wait, sched_wait-IsValid,
  sched_send_signal-IsValid,
}
use micro_os.Keyboard.Defs.{Keyboard, keyboard_getchar}
use micro_os.Keyboard.Ring as KeyRing
use micro_os.Keyboard.Ring.{queued, Taken, keyboard_getchar-Taken}
use micro_os.Syscall.Defs.{
  user_addr_limit, stat_size, syscall_max_len, System, Env, Out, nothing, bytes, stat, Answer,
  is_negative, uptr_valid, load_bytes, sys_exit, sys_write, read_key, read_file, sys_read,
  sys_yield, sys_getpid, sys_sleep, sys_open, sys_close, give_stat, sys_stat, sys_getppid, waited,
  sys_waitpid, signalled, sys_kill, syscall_dispatch,
}

-- Every part is valid.
pub record IsSound (s : System) : Type 0 where
  pub vfs : VfsInv.IsValid s.vfs
  pub sched : SchedInv.IsValid s.sched
  pub keyboard : KeyRing.IsValid s.keyboard

-- What is written lies in the user's half of the address space.
abbrev pub IsUser : Out → Type 0
IsUser nothing = Unit {0}
IsUser (bytes a b) = a + length b ≤ user_addr_limit
IsUser (stat a st) = a + stat_size ≤ user_addr_limit

abbrev pub Safe : Answer → Type 0
Safe (r, o, s) = IsUser o × IsSound s

in_vfs : (s : System) (v : Vfs) → IsSound s → VfsInv.IsValid v → IsSound (record s { vfs = v })
in_vfs s v ok h = record { vfs = h; sched = ok.sched; keyboard = ok.keyboard }

in_sched :
    (s : System) (t : Sched) → IsSound s → SchedInv.IsValid t → IsSound (record s { sched = t })
in_sched s t ok h = record { vfs = ok.vfs; sched = h; keyboard = ok.keyboard }

abbrev Short : ℕ → Option (List ℕ) → Type 0
Short count none = Unit {0}
Short count (some b) = length b ≤ count

read_at-short :
    (v : Vfs) (fd count : ℕ) (o : Option (List ℕ)) → length (read_at v fd count o).0 ≤ count
unfolding read_at
read_at-short v fd count none = omega arith
read_at-short v fd count (some b) =
    let offset = (fd_at v fd).offset in
    let size = (vnode_at v (fd_at v fd).vnode).size in
    let avail : ℕ = if ltb offset size then size - offset else 0 in
    let n : ℕ = if ltb avail count then avail else count in
    let small : n ≤ count = ground arith in omega (arith, length-take n (drop offset b), small)

-- A read returns no more than it is asked for.
vfs_read-Short : (v : Vfs) (fd count : ℕ) → Short count (vfs_read v fd count).0
unfolding vfs_read
vfs_read-Short v fd count = elim (Bool-cases (bad_fd v fd)) [
  | inl bad ↦ rw bad tt
  | inr good ↦ rw good (read_at-short v fd count (vnode_at v (fd_at v fd).vnode).contents)
]

uptr_valid_lem : (a n : ℕ) → uptr_valid a n ≡ true → a + n ≤ user_addr_limit
unfolding uptr_valid
uptr_valid_lem a n h = ground arith

module _ (e : Env) (s : System) (ok : IsSound s) where
  sys_exit-Safe : (code : ℕ) → Safe (sys_exit e s code)
  unfolding sys_exit exec
  sys_exit-Safe code =
      (tt, in_sched s _ ok (exec-IsValid e.pml4 s.sched (exits e.now (code % 2 ^ 32)) ok.sched))

  sys_yield-Safe : Safe (sys_yield e s)
  unfolding sys_yield exec
  sys_yield-Safe = (tt, in_sched s _ ok (exec-IsValid e.pml4 s.sched (yields e.now) ok.sched))

  sys_sleep-Safe : (ticks : ℕ) → Safe (sys_sleep e s ticks)
  unfolding sys_sleep exec
  sys_sleep-Safe ticks = elim (Bool-cases (is_negative ticks || (ticks == 0))) [
    | inl stay ↦ rw stay (tt, ok)
    | inr go ↦
        rw go (tt, in_sched s _ ok (exec-IsValid e.pml4 s.sched (sleeps e.now ticks) ok.sched))
  ]

  sys_write-Safe : (fd addr len : ℕ) → Safe (sys_write e s fd addr len)
  unfolding sys_write
  sys_write-Safe fd addr len = elim (Bool-cases (is_negative len)) [
    | inl neg ↦ rw neg (tt, ok)
    | inr pos ↦ elim (Bool-cases (uptr_valid addr (min len syscall_max_len))) [
      | inr bad ↦ rw (pos, bad) (tt, ok)
      | inl good ↦ elim (Bool-cases ((fd == 1) || (fd == 2))) [
        | inl screen ↦
            rw (pos, good, screen)
              (tt, record { vfs = ok.vfs; sched = ok.sched; keyboard = ok.keyboard })
        | inr file ↦
            rw (pos, good, file)
              (
                tt,
                in_vfs s _ ok (
                    vfs_write-IsValid s.vfs (fd % 2 ^ 32)
                      (load_bytes e.memory addr (min len syscall_max_len)) (min len syscall_max_len)
                      ok.vfs),
              )
      ]
    ]
  ]

  read_key-Safe :
      (addr : ℕ) (q : List ℕ) (r : Option ℕ × Keyboard)
      → Taken s.keyboard q r
      → addr + 1 ≤ user_addr_limit
      → Safe (read_key s addr r)
  read_key-Safe addr q (none, k) t h = (tt, ok)
  read_key-Safe addr [] (some key, k) (no_key, same) h = absurd (cc no_key)
  read_key-Safe addr (c ∷ q) (some key, k) (found, p) h = elim (Bool-cases (ltb key 128)) [
    | inl char ↦ rw char (h, record { vfs = ok.vfs; sched = ok.sched; keyboard = p.valid })
    | inr special ↦ rw special (tt, record { vfs = ok.vfs; sched = ok.sched; keyboard = p.valid })
  ]

  read_file-Safe :
      (addr count : ℕ) (r : Option (List ℕ) × Vfs)
      → VfsInv.IsValid r.1
      → Short count r.0
      → addr + count ≤ user_addr_limit
      → Safe (read_file s addr r)
  read_file-Safe addr count (none, v) valid short h = (tt, in_vfs s v ok valid)
  read_file-Safe addr count (some b, v) valid short h =
      (omega (arith, short, h), in_vfs s v ok valid)

  sys_read-Safe : (fd addr len : ℕ) → Safe (sys_read e s fd addr len)
  unfolding sys_read
  sys_read-Safe fd addr len = elim (Bool-cases (is_negative len || (len == 0))) [
    | inl neg ↦ rw neg (tt, ok)
    | inr pos ↦ elim (Bool-cases (uptr_valid addr (min len syscall_max_len))) [
      | inr bad ↦ rw (pos, bad) (tt, ok)
      | inl good ↦
          let room = uptr_valid_lem addr (min len syscall_max_len) good in
          let some_len : (len == 0) ≡ false = ground (arith, pos) in
          let first : addr + 1 ≤ user_addr_limit = ground (arith, room, some_len) in
          elim (Bool-cases (fd == 0)) [
            | inl keys ↦
                rw (pos, good, keys)
                  (read_key-Safe addr (queued s.keyboard) (keyboard_getchar s.keyboard)
                    (keyboard_getchar-Taken s.keyboard ok.keyboard) first)
            | inr file ↦
                rw (pos, good, file)
                  (read_file-Safe addr (min len syscall_max_len)
                    (vfs_read s.vfs (fd % 2 ^ 32) (min len syscall_max_len))
                    (vfs_read-IsValid s.vfs (fd % 2 ^ 32) (min len syscall_max_len) ok.vfs)
                    (vfs_read-Short s.vfs (fd % 2 ^ 32) (min len syscall_max_len)) room)
          ]
    ]
  ]

  sys_open-Safe : (path create : ℕ) → FreshOk e.fresh → Safe (sys_open e s path create)
  unfolding sys_open
  sys_open-Safe path create fresh = elim (Bool-cases (uptr_valid path 1)) [
    | inr bad ↦ rw bad (tt, ok)
    | inl good ↦ rw good (
      tt,
      in_vfs s _ ok (vfs_open-IsValid s.vfs (e.text path) (not (create == 0)) e.fresh ok.vfs fresh),
    )
  ]

  sys_close-Safe : (fd : ℕ) → Safe (sys_close s fd)
  unfolding sys_close
  sys_close-Safe fd = (tt, in_vfs s _ ok (vfs_close-IsValid s.vfs (fd % 2 ^ 32) ok.vfs))

  give_stat-Safe :
      (addr : ℕ) (o : Option VfsStat)
      → addr + stat_size ≤ user_addr_limit
      → Safe (give_stat s addr o)
  give_stat-Safe addr none h = (tt, ok)
  give_stat-Safe addr (some st) h = (h, ok)

  sys_stat-Safe : (path addr : ℕ) → Safe (sys_stat e s path addr)
  unfolding sys_stat
  sys_stat-Safe path addr = elim (Bool-cases (uptr_valid path 1)) [
    | inr bad ↦ rw bad (tt, ok)
    | inl good ↦ elim (Bool-cases (uptr_valid addr stat_size)) [
      | inr outside ↦ rw (good, outside) (tt, ok)
      | inl inside ↦
          rw (good, inside)
            (give_stat-Safe addr (vfs_stat s.vfs (e.text path))
              (uptr_valid_lem addr stat_size inside))
    ]
  ]

  waited-Safe : (w : Wait) → SchedInv.IsValid (after_wait s.sched w) → Safe (waited s w)
  unfolding after_wait
  waited-Safe (exited code) h = (tt, ok)
  waited-Safe (waiting t) h = (tt, in_sched s t ok h)
  waited-Safe not_found h = (tt, ok)

  sys_waitpid-Safe : (pid : ℕ) → Safe (sys_waitpid e s pid)
  unfolding sys_waitpid
  sys_waitpid-Safe pid = elim (Bool-cases (is_negative pid || (pid == 0))) [
    | inl bad ↦ rw bad (tt, ok)
    | inr good ↦ rw good (
        waited-Safe (sched_wait e.pml4 s.sched e.now pid)
          (sched_wait-IsValid e.pml4 s.sched e.now pid ok.sched))
  ]

  signalled-Safe : (r : Sent × Sched) → SchedInv.IsValid r.1 → Safe (signalled s r)
  signalled-Safe (sent, t) h = (tt, in_sched s t ok h)
  signalled-Safe (no_task, t) h = (tt, in_sched s t ok h)
  signalled-Safe (already_dead, t) h = (tt, in_sched s t ok h)

  sys_kill-Safe : (pid sig : ℕ) → Safe (sys_kill s pid sig)
  unfolding sys_kill
  sys_kill-Safe pid sig = elim (Bool-cases (is_negative pid || (pid == 0))) [
    | inl bad ↦ rw bad (tt, ok)
    | inr good ↦ rw good (
        signalled-Safe (sched_send_signal s.sched pid (sig % 2 ^ 32))
          (sched_send_signal-IsValid s.sched pid (sig % 2 ^ 32) ok.sched))
  ]

-- One entry of the table, or the rest of it.
choose : (b : Bool) (x y : Answer) → Safe x → Safe y → Safe (if b then x else y)
choose true x y hx hy = hx
choose false x y hx hy = hy

-- Whatever the number and the arguments, a system call keeps the file system, the scheduler and the
-- keyboard valid, and all that it writes to memory lies in the user's half of the address space.
pub syscall_dispatch-Safe :
    (e : Env) (s : System) (num a0 a1 a2 : ℕ)
    → IsSound s
    → FreshOk e.fresh
    → Safe (syscall_dispatch e s num a0 a1 a2)
unfolding syscall_dispatch sys_getpid sys_getppid
syscall_dispatch-Safe e s num a0 a1 a2 ok fresh = choose (num == 0) _ _ (sys_exit-Safe e s ok a0) (
    choose (num == 1) _ _ (sys_write-Safe e s ok a0 a1 a2) (
      choose (num == 2) _ _ (sys_read-Safe e s ok a0 a1 a2) (
        choose (num == 3) _ _ (sys_yield-Safe e s ok) (
          choose (num == 4) _ _ (tt, ok)
            (choose (num == 5) _ _ (sys_sleep-Safe e s ok a0) (
              choose (num == 6) _ _ (sys_open-Safe e s ok a0 a1 fresh) (
                choose (num == 7) _ _ (sys_close-Safe e s ok a0) (
                  choose (num == 8) _ _ (sys_stat-Safe e s ok a0 a1) (
                    choose (num == 10) _ _ (tt, ok)
                      (choose (num == 11) _ _ (sys_waitpid-Safe e s ok a0)
                        (choose (num == 12) _ _ (sys_kill-Safe e s ok a0 a1) (tt, ok))))))))))))
