-- ===== src/Syscall/Tests.antt =====
-- Runs of the system calls, and their theorem at a concrete state.
use micro_os.Base.{ℕ, ◌≡◌, refl, true, false, none, [], ◌∷◌, replicate, length-replicate, arith}
use micro_os.Vfs.Ops.{vfs_init}
use micro_os.Vfs.Inv.{vfs_init-IsValid}
use micro_os.Sched.Ops.{sched_init}
use micro_os.Sched.Inv.{sched_init-IsValid}
use micro_os.Keyboard.Defs.{Keyboard, keyboard_getchar}
use micro_os.Syscall.Defs.{System, Env, bytes, returns, uptr_valid, sys_read, syscall_dispatch}
use micro_os.Syscall.Safe.{IsSound, Safe, syscall_dispatch-Safe}

-- One key, 'a', is waiting.
abbrev keys : Keyboard
keys = record {
  kbd_buffer = 97 ∷ replicate 255 0;
  kbd_read = 0;
  kbd_write = 1;
  shift_held = false;
  caps_on = false;
  ctrl_held = false;
  alt_held = false;
  numlock_on = true;
  extended = false;
}

abbrev booted : System
booted = record { vfs = vfs_init; sched = sched_init 105 4096; keyboard = keys; console = [] }

booted-IsSound : IsSound booted
booted-IsSound = record {
  vfs = vfs_init-IsValid;
  sched = sched_init-IsValid 105 4096;
  keyboard = record {
    size = omega (arith, length-replicate {A = ℕ} 255 0);
    read = omega arith;
    write = omega arith;
  };
}

abbrev env : Env
env = record { memory = λ a. 104; text = λ a. 47 ∷ []; now = 10; pml4 = 4096; fresh = none }

-- `read(0, 0x400000, 8)` gives the key, and `read` at the limit of the address space fails.
reads_key : (syscall_dispatch env booted 2 0 0x400000 8).1 ≡ bytes 0x400000 (97 ∷ [])
unfolding syscall_dispatch sys_read uptr_valid keyboard_getchar
reads_key = refl

past_limit : (syscall_dispatch env booted 2 0 0x7ffffffffffc 8).0 ≡ returns none
unfolding syscall_dispatch sys_read uptr_valid keyboard_getchar
past_limit = refl

syscall_dispatch-Safe_example : Safe (syscall_dispatch env booted 2 0 0x400000 8)
syscall_dispatch-Safe_example = syscall_dispatch-Safe env booted 2 0 0x400000 8 booted-IsSound tt
