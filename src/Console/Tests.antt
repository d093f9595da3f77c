-- ===== src/Console/Tests.antt =====
-- Runs of the console, and its theorems at a concrete screen.
use micro_os.Base.{◌≡◌, ◌≤◌, inl, length, refl, true, false, some, none, ℕ, List, [], ◌∷◌, arith}
use micro_os.Mouse.Defs.{Mouse, draw_cursor, erase_cursor, mouse_hide_cursor, mouse_show_cursor}
use micro_os.Console.Defs.{
  Framebuffer, Console, console_clear, cursor_guard_enter, cursor_guard_leave,
}
use micro_os.Console.Screen.{typed, typed_all, Fits, Shows}
use micro_os.Console.Clear.{empty, console_clear-Shows}
use micro_os.Console.Session.{key, irq, begin, end, session, Running, session-Shows, typed_in}
use micro_os.Console.Printf.{
  word, kprintf, format, advance, convert, emit_padded, int_to_buf, uint_to_buf, digits, backwards,
}
use micro_os.Console.Digits.{
  spelled, spelled-uint_to_buf, length-uint_to_buf, read_back, read_back-int_to_buf, escaped,
  kprintf-escaped,
}

-- Two rows of two characters, with the pointer in the first.
abbrev pointer : Mouse
pointer = record {
  mouse_px = 3;
  mouse_py = 4;
  btn_left = false;
  btn_right = false;
  btn_middle = false;
  last_dx = 0;
  last_dy = 0;
  screen_w = 16;
  screen_h = 32;
  packet = 0 ∷ 0 ∷ 0 ∷ [];
  packet_idx = 0;
  saved_under = λ k. 0;
  saved_cx = 0;
  saved_cy = 0;
  cursor_visible = false;
  pixels = λ a. a;
  pitch = 16;
}

abbrev small_fb : Framebuffer
small_fb = record { width = 16; height = 32; pitch = 64 }

abbrev start : Console
start = record {
  mouse_ready = true;
  cursor_hidden_depth = 0;
  g_fb = small_fb;
  g_stride = 16;
  g_cols = 2;
  g_rows = 2;
  g_cx = 1;
  g_cy = 1;
  mouse = pointer;
}

start-Fits : Fits small_fb 16 2 2 16 16
start-Fits = omega arith

cleared : Shows (console_clear start) empty
cleared =
    console_clear-Shows start start-Fits
      (record { not_ready = λ e. refl; hidden = λ e. refl; at_pointer = λ e. absurd (cc e) })
      (omega arith)

cleared-Running : Running 2 2 0 (console_clear start) empty
unfolding console_clear cursor_guard_enter cursor_guard_leave mouse_hide_cursor mouse_show_cursor
    draw_cursor erase_cursor
cleared-Running = record {
  shows = cleared;
  size = (refl, refl);
  inside = (omega arith, omega arith);
  ready = refl;
  level = refl;
  few = omega arith;
}

session-Shows_example :
    (let events =
        key b'A'
        ∷ begin
        ∷ irq 32 0x18
        ∷ key b'B'
        ∷ irq 32 5
        ∷ irq 32 7
        ∷ end
        ∷ irq 32 8
        ∷ key 10
        ∷ key b'C'
        ∷ [] in
      Shows (session (console_clear start) events) (typed_all 2 2 empty (typed_in events)))
session-Shows_example =
    session-Shows
      (key b'A'
        ∷ begin
        ∷ irq 32 0x18
        ∷ key b'B'
        ∷ irq 32 5
        ∷ irq 32 7
        ∷ end
        ∷ irq 32 8
        ∷ key 10
        ∷ key b'C'
        ∷ [])
      2 2 0 (console_clear start) empty cleared-Running (omega arith)

-- The terminal scrolled: `C` is in the last row.
last_row :
    (let t = typed_all 2 2 empty (b'A' ∷ b'B' ∷ 10 ∷ b'C' ∷ []) in
      (t.cells 0 1 ≡ b'C') × (t.cells 0 0 ≡ b' '))
unfolding typed_all typed
last_row = (refl, refl)

console_clear-Shows_example : Shows (console_clear start) empty
console_clear-Shows_example =
    console_clear-Shows start start-Fits
      (record { not_ready = λ e. refl; hidden = λ e. refl; at_pointer = λ e. absurd (cc e) })
      (omega arith)

spelled-uint_to_buf_example : spelled 16 0 (uint_to_buf 48879 16) ≡ 48879
spelled-uint_to_buf_example = spelled-uint_to_buf 48879 16 (omega arith) (omega arith) (omega arith)

read_back-int_to_buf_example :
    (s : List ℕ) × (int_to_buf 18446744073709551574 ≡ some s) × (read_back s ≡ (true, 42))
read_back-int_to_buf_example = read_back-int_to_buf 18446744073709551574 (omega arith) (omega arith)

kprintf-escaped_example : kprintf (escaped (b'5' ∷ b'%' ∷ [])) [] ≡ some (b'5' ∷ b'%' ∷ [])
kprintf-escaped_example = kprintf-escaped (b'5' ∷ b'%' ∷ [])

-- `kprintf("%-4x|%3d", 255, -1)`
padded :
    kprintf
      (b'%' ∷ b'-' ∷ b'4' ∷ b'x' ∷ b'|' ∷ b'%' ∷ b'3' ∷ b'd' ∷ [])
      (word 255 ∷ word 4294967295 ∷ [])
    ≡ some (b'f' ∷ b'f' ∷ b' ' ∷ b' ' ∷ b'|' ∷ b' ' ∷ b'-' ∷ b'1' ∷ [])
unfolding kprintf format advance convert emit_padded int_to_buf uint_to_buf digits backwards
padded = refl

-- A percent sign at the end of the format is read past.
lone_percent : kprintf (b'a' ∷ b'%' ∷ []) [] ≡ none
unfolding kprintf format advance
lone_percent = refl

length-uint_to_buf_example :
    (1 ≤ length (uint_to_buf 18446744073709551615 10))
    × (length (uint_to_buf 18446744073709551615 10) ≤ 20)
length-uint_to_buf_example = length-uint_to_buf 18446744073709551615 10 (inl refl) (omega arith)
