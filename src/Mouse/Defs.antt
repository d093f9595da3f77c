-- ===== src/Mouse/Defs.antt =====
-- The mouse driver of kernel/drivers/mouse.c.
-- The bytes of the ports are arguments. The framebuffer is a function from the index of a pixel, and
-- so are the saved pixels. Positions are never negative: the subtraction that stops at 0 is the
-- clamp, and the tests for a negative pixel are left out. `last_dx` and `last_dy` are the bytes
-- that the code reads as `int8_t`.
use micro_os.Base.{
  ℕ, zero, suc, ◌+◌, ◌-◌, ◌*◌, ◌/◌, ◌%◌, Bool, true, false, not, ◌&&◌, List, [], ◌∷◌, ◌==◌, ltb,
  leb, if◌then◌else◌, get_or, set,
}

abbrev pub cursor_w : ℕ
cursor_w = 8

abbrev pub cursor_h : ℕ
cursor_h = 12

abbrev pub cursor_bitmap : List ℕ
cursor_bitmap =
    2 ∷ 0 ∷ 0 ∷ 0 ∷ 0 ∷ 0 ∷ 0 ∷ 0 ∷ 2 ∷ 2 ∷ 0 ∷ 0 ∷ 0 ∷ 0 ∷ 0 ∷ 0 ∷ 2 ∷ 1 ∷ 2 ∷ 0 ∷ 0 ∷ 0 ∷ 0 ∷ 0
    ∷ 2 ∷ 1 ∷ 1 ∷ 2 ∷ 0 ∷ 0 ∷ 0 ∷ 0 ∷ 2 ∷ 1 ∷ 1 ∷ 1 ∷ 2 ∷ 0 ∷ 0 ∷ 0 ∷ 2 ∷ 1 ∷ 1 ∷ 1 ∷ 1 ∷ 2 ∷ 0 ∷ 0
    ∷ 2 ∷ 1 ∷ 1 ∷ 1 ∷ 1 ∷ 1 ∷ 2 ∷ 0 ∷ 2 ∷ 1 ∷ 1 ∷ 1 ∷ 1 ∷ 1 ∷ 1 ∷ 2 ∷ 2 ∷ 1 ∷ 1 ∷ 1 ∷ 1 ∷ 2 ∷ 2 ∷ 0
    ∷ 2 ∷ 1 ∷ 2 ∷ 2 ∷ 1 ∷ 2 ∷ 0 ∷ 0 ∷ 2 ∷ 2 ∷ 0 ∷ 0 ∷ 2 ∷ 1 ∷ 2 ∷ 0 ∷ 0 ∷ 0 ∷ 0 ∷ 0 ∷ 0 ∷ 2 ∷ 0 ∷ 0
    ∷ []

abbrev pub Pixels : Type 0
Pixels = ℕ → ℕ

pub record Mouse : Type 0 where
  pub mouse_px : ℕ
  pub mouse_py : ℕ
  pub btn_left : Bool
  pub btn_right : Bool
  pub btn_middle : Bool
  pub last_dx : ℕ
  pub last_dy : ℕ
  pub screen_w : ℕ
  pub screen_h : ℕ
  pub packet : List ℕ
  pub packet_idx : ℕ
  pub saved_under : Pixels
  pub saved_cx : ℕ
  pub saved_cy : ℕ
  pub cursor_visible : Bool
  pub pixels : Pixels
  pub pitch : ℕ

abbrev pub put : Pixels → ℕ → ℕ → Pixels
put p a v b = if b == a then v else p b

-- Cell `k` of the cursor is in row `k / 8` and column `k % 8`.
-- A pointer that starts on the screen never has a negative coordinate (`clamp`), so there is no test
-- for `px < 0` or `py < 0`.
abbrev pub on_screen : Mouse → ℕ → ℕ → ℕ → Bool
on_screen s cx cy k = ltb (cx + k % cursor_w) s.screen_w && ltb (cy + k / cursor_w) s.screen_h

-- `py * pitch + px`, which is not reduced to 32 bits: it is only used for a pixel on the screen, and
-- a framebuffer has fewer pixels.
abbrev pub pixel_of : Mouse → ℕ → ℕ → ℕ → ℕ
pixel_of s cx cy k = (cy + k / cursor_w) * s.pitch + (cx + k % cursor_w)

abbrev pub shape : ℕ → ℕ
shape k = get_or cursor_bitmap k 0

abbrev pub paint : Pixels → ℕ → ℕ → Pixels
paint p a v = if v == 1 then put p a 0x00FFFFFF else if v == 2 then put p a 0 else p

-- One round of the two loops of `draw_cursor`: the pixels saved and the pixels on the screen.
unfoldable pub draw_cell : Mouse → ℕ → ℕ → ℕ → Pixels × Pixels → Pixels × Pixels
draw_cell s cx cy k (saved, p) =
    if not (on_screen s cx cy k)
    then (put saved k 0, p)
    else (put saved k (p (pixel_of s cx cy k)), paint p (pixel_of s cx cy k) (shape k))

-- The two loops as one over the cells, `left` of them from cell `k` on.
unfoldable pub draw_from : Mouse → ℕ → ℕ → ℕ → ℕ → Pixels × Pixels → Pixels × Pixels
draw_from s cx cy zero k st = st
draw_from s cx cy (suc left) k st = draw_from s cx cy left (k + 1) (draw_cell s cx cy k st)

unfoldable pub draw_cursor : Mouse → ℕ → ℕ → Mouse
draw_cursor s cx cy =
    let (saved, p) = draw_from s cx cy (cursor_w * cursor_h) 0 (s.saved_under, s.pixels) in
    record s {
      saved_under = saved;
      pixels = p;
      saved_cx = cx;
      saved_cy = cy;
      cursor_visible = true;
    }

unfoldable pub erase_cell : Mouse → ℕ → Pixels → Pixels
erase_cell s k p =
    if not (on_screen s s.saved_cx s.saved_cy k)
    then p
    else if shape k == 0
    then p
    else put p (pixel_of s s.saved_cx s.saved_cy k) (s.saved_under k)

unfoldable pub erase_from : Mouse → ℕ → ℕ → Pixels → Pixels
erase_from s zero k p = p
erase_from s (suc left) k p = erase_from s left (k + 1) (erase_cell s k p)

unfoldable pub erase_cursor : Mouse → Mouse
erase_cursor s =
    if not s.cursor_visible
    then s
    else record s { pixels = erase_from s (cursor_w * cursor_h) 0 s.pixels; cursor_visible = false }

-- A flag of the packet's first byte.
abbrev pub flag : ℕ → ℕ → Bool
flag flags bit = flags / bit % 2 == 1

abbrev pub clamp : ℕ → ℕ → ℕ
clamp x size = if leb size x then size - 1 else x

-- The position along an axis after `+ (delta - 256)` or `+ delta`, and after the subtraction of it.
abbrev pub forward : ℕ → ℕ → Bool → ℕ
forward x delta negative = if negative then x + delta - 256 else x + delta

abbrev pub backward : ℕ → ℕ → Bool → ℕ
backward x delta negative = if negative then x + 256 - delta else x - delta

abbrev pub redraw : Mouse → Bool → Mouse
redraw s writing = if writing then s else draw_cursor (erase_cursor s) s.mouse_px s.mouse_py

-- A full packet.
unfoldable pub handle_packet : Mouse → Bool → ℕ → ℕ → ℕ → Mouse
handle_packet s writing flags x y =
    if not (flags / 64 == 0)
    then s
    else if not (flag flags 8)
    then s
    else redraw
        (record s {
          btn_left = flag flags 1;
          btn_right = flag flags 2;
          btn_middle = flag flags 4;
          last_dx = x;
          last_dy = y;
          mouse_px = clamp (forward s.mouse_px x (flag flags 16)) s.screen_w;
          mouse_py = clamp (backward s.mouse_py y (flag flags 32)) s.screen_h;
        })
        writing

-- `writing` is `console_is_writing()`.
unfoldable pub mouse_handler : Mouse → ℕ → ℕ → Bool → Mouse
mouse_handler s status byte writing =
    let packet = set s.packet s.packet_idx byte in
    let s1 = record s { packet = packet; packet_idx = s.packet_idx + 1 } in
    if not (flag status 32)
    then s
    else if ltb (s.packet_idx + 1) 3
    then s1
    else handle_packet (record s1 { packet_idx = 0 }) writing (get_or packet 0 0)
        (get_or packet 1 0) (get_or packet 2 0)

-- The state that `mouse_init` sets, on a screen of `w` by `h` pixels.
unfoldable pub mouse_init : Mouse → ℕ → ℕ → Mouse
mouse_init s w h =
    let s1 = record s {
      screen_w = w;
      screen_h = h;
      mouse_px = w / 2;
      mouse_py = h / 2;
      btn_left = false;
      btn_right = false;
      btn_middle = false;
      last_dx = 0;
      last_dy = 0;
      packet_idx = 0;
      cursor_visible = false;
    } in
    draw_cursor s1 s1.mouse_px s1.mouse_py

unfoldable pub mouse_hide_cursor : Mouse → Mouse
mouse_hide_cursor s = erase_cursor s

unfoldable pub mouse_show_cursor : Mouse → Mouse
mouse_show_cursor s = if not s.cursor_visible then draw_cursor s s.mouse_px s.mouse_py else s
