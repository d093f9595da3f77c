-- ===== src/Mouse/Tests.antt =====
-- Runs of the mouse driver, and its theorems at a concrete state.
use micro_os.Base.{◌≡◌, refl, true, false, [], ◌∷◌, arith}
use micro_os.Mouse.Defs.{Mouse, mouse_handler, handle_packet, draw_cursor, erase_cursor}
use micro_os.Mouse.Cursor.{erase_cursor-draw_cursor}
use micro_os.Mouse.Position.{IsValid, handle_all, handle_all-IsValid}

abbrev centre : Mouse
centre = record {
  mouse_px = 320;
  mouse_py = 240;
  btn_left = false;
  btn_right = false;
  btn_middle = false;
  last_dx = 0;
  last_dy = 0;
  screen_w = 640;
  screen_h = 480;
  packet = 0 ∷ 0 ∷ 0 ∷ [];
  packet_idx = 0;
  saved_under = λ k. 0;
  saved_cx = 0;
  saved_cy = 0;
  cursor_visible = false;
  pixels = λ a. a;
  pitch = 640;
}

centre-IsValid : IsValid centre
centre-IsValid = record { on_x = omega arith; on_y = omega arith; next = omega arith; size = refl }

-- The pointer moves by 5 to the right and by 3 down, while the console writes.
moved :
    let s = handle_all centre ((32, 0x28, true) ∷ (32, 5, true) ∷ (32, 253, true) ∷ []) in
    (s.mouse_px ≡ 325) × (s.mouse_py ≡ 243)
unfolding handle_all mouse_handler handle_packet
moved = (refl, refl)

handle_all-IsValid_example :
    IsValid (handle_all centre ((32, 0x18, true) ∷ (32, 5, true) ∷ (32, 7, true) ∷ []))
handle_all-IsValid_example =
    handle_all-IsValid ((32, 0x18, true) ∷ (32, 5, true) ∷ (32, 7, true) ∷ []) centre centre-IsValid

erase_cursor-draw_cursor_example :
    (erase_cursor (draw_cursor centre 636 475)).pixels 304640 ≡ 304640
erase_cursor-draw_cursor_example = erase_cursor-draw_cursor centre 636 475 (omega arith) 304640
