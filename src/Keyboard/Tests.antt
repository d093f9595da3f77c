-- ===== src/Keyboard/Tests.antt =====
-- Runs of the keyboard driver, and its theorems at concrete states.
use micro_os.Base.{ℕ, ◌≡◌, refl, true, false, [], ◌∷◌, replicate, length-replicate, arith}
use micro_os.Keyboard.Defs.{Keyboard, kbd_buffer_size, keyboard_handler, char_of, with_ctrl}
use micro_os.Keyboard.Ring.{IsValid, queued}
use micro_os.Keyboard.Queue.{push, take, ask, flush, run, queue_run, run-queue_run}
use micro_os.Keyboard.Keys.{with_ctrl-char_of}
use micro_os.Keyboard.Handler.{Handled, keyboard_handler-Handled}

-- The state after `keyboard_init`.
abbrev idle_keys : Keyboard
idle_keys = record {
  kbd_buffer = replicate kbd_buffer_size 0;
  kbd_read = 0;
  kbd_write = 0;
  shift_held = false;
  caps_on = false;
  ctrl_held = false;
  alt_held = false;
  numlock_on = true;
  extended = false;
}

idle_keys-IsValid : IsValid idle_keys
idle_keys-IsValid = record {
  size = length-replicate {A = ℕ} kbd_buffer_size 0;
  read = omega arith;
  write = omega arith;
}

run-queue_run_example :
    run idle_keys (push 97 ∷ push 98 ∷ ask ∷ take ∷ flush ∷ take ∷ [])
    ≡ queue_run (queued idle_keys) (push 97 ∷ push 98 ∷ ask ∷ take ∷ flush ∷ take ∷ [])
run-queue_run_example =
    run-queue_run idle_keys (push 97 ∷ push 98 ∷ ask ∷ take ∷ flush ∷ take ∷ []) idle_keys-IsValid

keyboard_handler-Handled_example : Handled idle_keys false (keyboard_handler idle_keys 0x1E)
keyboard_handler-Handled_example = keyboard_handler-Handled idle_keys 0x1E idle_keys-IsValid

with_ctrl-char_of_example : with_ctrl false (char_of true false 0x1E) ≡ 65
with_ctrl-char_of_example = with_ctrl-char_of true false false 0x1E (omega arith) refl
