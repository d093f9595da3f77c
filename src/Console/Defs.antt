-- ===== src/Console/Defs.antt =====
-- The text console of kernel/console.c.
-- The framebuffer is the one that the mouse driver draws on: a function from the index of a 32-bit
-- pixel. Counts of bytes are whole pixels here, as rows are made of pixels. The fields are
-- `uint32_t`, so their sums and products wrap; `cursor_hidden_depth` is the bit pattern of an `int`.
use micro_os.Base.{
  ℕ, zero, suc, ◌+◌, ◌-◌, ◌*◌, ◌/◌, ◌%◌, Bool, true, false, not, ◌&&◌, ◌||◌, List, [], ◌∷◌, ◌==◌,
  ltb, leb, if◌then◌else◌,
}
use micro_os.Str.Defs.{memset, memcpy}
use micro_os.Mouse.Defs.{Pixels, Mouse, put, mouse_hide_cursor, mouse_show_cursor}
use micro_os.Console.Font.{font8x16}

abbrev pub u32 : ℕ
u32 = 4294967296

abbrev pub fg_color : ℕ
fg_color = 0x00CCCCCC

abbrev pub bg_color : ℕ
bg_color = 0

pub record Framebuffer : Type 0 where
  pub width : ℕ
  pub height : ℕ
  pub pitch : ℕ

pub record Console : Type 0 where
  pub mouse_ready : Bool
  pub cursor_hidden_depth : ℕ
  pub g_fb : Framebuffer
  pub g_stride : ℕ
  pub g_cols : ℕ
  pub g_rows : ℕ
  pub g_cx : ℕ
  pub g_cy : ℕ
  pub mouse : Mouse

abbrev pub with_pixels : Console → Pixels → Console
with_pixels s p = record s { mouse = record s.mouse { pixels = p } }

-- `colors[(bits >> k) & 1]`, with `2 ^ k` for the shift.
abbrev pub color_of : ℕ → ℕ → ℕ
color_of bits power = if bits / power % 2 == 1 then fg_color else bg_color

-- The eight stores through `row_ptr`.
unfoldable pub draw_row : Pixels → ℕ → ℕ → Pixels
draw_row p a bits =
    let p0 = put p a (color_of bits 128) in
    let p1 = put p0 (a + 1) (color_of bits 64) in
    let p2 = put p1 (a + 2) (color_of bits 32) in
    let p3 = put p2 (a + 3) (color_of bits 16) in
    let p4 = put p3 (a + 4) (color_of bits 8) in
    let p5 = put p4 (a + 5) (color_of bits 4) in
    let p6 = put p5 (a + 6) (color_of bits 2) in put p6 (a + 7) (color_of bits 1)

-- The rows of a glyph from `y` on, `left` of them; `a` is `row_ptr`.
unfoldable pub draw_rows : (ℕ → ℕ) → ℕ → ℕ → ℕ → ℕ → Pixels → Pixels
draw_rows glyph stride zero y a p = p
draw_rows glyph stride (suc left) y a p =
    draw_rows glyph stride left (y + 1) (a + stride) (draw_row p a (glyph y))

unfoldable pub draw_char : ℕ → ℕ → ℕ → ℕ → Pixels → Pixels
draw_char stride col row c p =
    let x0 = col * 8 % u32 in
    let y0 = row * 16 % u32 in draw_rows (font8x16 (c % 256)) stride 16 0 (y0 * stride % u32 + x0) p

unfoldable pub scroll_up : Framebuffer → Pixels → Pixels
scroll_up fb p =
    let copy_bytes = (fb.height + u32 - 16) % u32 * fb.pitch % u32 in
    let text_bytes = 16 * fb.pitch % u32 in
    memset (memcpy p 0 (text_bytes / 4) (copy_bytes / 4)) (copy_bytes / 4) 0 (text_bytes / 4)

unfoldable pub cursor_guard_enter : Console → Console
cursor_guard_enter s =
    let deeper = record s { cursor_hidden_depth = (s.cursor_hidden_depth + 1) % u32 } in
    if not s.mouse_ready
    then s
    else if s.cursor_hidden_depth == 0
    then record deeper { mouse = mouse_hide_cursor s.mouse }
    else deeper

unfoldable pub cursor_guard_leave : Console → Console
cursor_guard_leave s =
    let depth = (s.cursor_hidden_depth + u32 - 1) % u32 in
    let out = record s { cursor_hidden_depth = depth } in
    if not s.mouse_ready
    then s
    else if depth == 0
    then record out { mouse = mouse_show_cursor s.mouse }
    else out

-- The `int32_t` with the bits of a `uint32_t`, plus 2 ^ 31: so the order of the first is that of these.
abbrev pub int32_above : ℕ → ℕ
int32_above a = (a + 2147483648) % u32

unfoldable pub char_overlaps_cursor : Console → ℕ → ℕ → Bool
char_overlaps_cursor s col row =
    let cx = s.mouse.mouse_px + 2147483648 in
    let cy = s.mouse.mouse_py + 2147483648 in
    let x0 = int32_above (col * 8 % u32) in
    let y0 = int32_above (row * 16 % u32) in
    if not s.mouse_ready
    then false
    else not (leb (x0 + 8) cx || leb (cx + 8) x0 || leb (y0 + 16) cy || leb (cy + 12) y0)

unfoldable pub console_clear : Console → Console
console_clear s =
    let s1 = cursor_guard_enter s in
    let words = s1.g_fb.height * s1.g_fb.pitch % u32 / 4 in
    cursor_guard_leave
      (record (with_pixels s1 (memset s1.mouse.pixels 0 0 words)) { g_cx = 0; g_cy = 0 })

-- `fb->base` is where the pixels of the mouse driver are, whose `pitch` is `console_get_pitch() / 4`.
unfoldable pub console_init : Console → Framebuffer → Console
console_init s fb = console_clear (record s {
  g_fb = fb;
  g_stride = fb.pitch / 4;
  g_cols = fb.width / 8;
  g_rows = fb.height / 16;
  g_cx = 0;
  g_cy = 0;
  mouse = record s.mouse { pitch = fb.pitch / 4 };
})

-- A character at the cursor, which is hidden meanwhile where it overlaps.
unfoldable pub draw_guarded : Console → ℕ → Console
draw_guarded s c =
    let need_hide = char_overlaps_cursor s s.g_cx s.g_cy in
    let s1 = if need_hide then cursor_guard_enter s else s in
    let s2 = with_pixels s1 (draw_char s1.g_stride s1.g_cx s1.g_cy c s1.mouse.pixels) in
    if need_hide then cursor_guard_leave s2 else s2

unfoldable pub step_back : Console → Console
step_back s =
    if ltb 0 s.g_cx
    then record s { g_cx = s.g_cx - 1 }
    else if ltb 0 s.g_cy
    then record s { g_cy = s.g_cy - 1; g_cx = (s.g_cols + u32 - 1) % u32 }
    else s

-- The branches of `console_putchar` on the character.
unfoldable pub put_by_kind : Console → ℕ → Console
put_by_kind s c =
    if c == 10
    then record s { g_cx = 0; g_cy = (s.g_cy + 1) % u32 }
    else if c == 13
    then record s { g_cx = 0 }
    else if c == 8
    then draw_guarded (step_back s) b' '
    else if c == 9
    then record s { g_cx = (s.g_cx + 4) % u32 / 4 * 4 }
    else let s1 = draw_guarded s c in record s1 { g_cx = (s1.g_cx + 1) % u32 }

unfoldable pub wrap_line : Console → Console
wrap_line s = if leb s.g_cols s.g_cx then record s { g_cx = 0; g_cy = (s.g_cy + 1) % u32 } else s

unfoldable pub scroll_guarded : Console → Console
scroll_guarded s =
    let s1 = cursor_guard_enter s in
    cursor_guard_leave (with_pixels s1 (scroll_up s1.g_fb s1.mouse.pixels))

unfoldable pub wrap_page : Console → Console
wrap_page s =
    let s1 = scroll_guarded s in
    if leb s.g_rows s.g_cy then record s1 { g_cy = (s1.g_rows + u32 - 1) % u32 } else s

unfoldable pub console_putchar : Console → ℕ → Console
console_putchar s c = wrap_page (wrap_line (put_by_kind s c))

unfoldable pub console_set_mouse_ready : Console → Console
console_set_mouse_ready s = record s { mouse_ready = true }

unfoldable pub console_is_writing : Console → Bool
console_is_writing s = ltb 0 s.cursor_hidden_depth && ltb s.cursor_hidden_depth 2147483648

unfoldable pub console_begin_batch : Console → Console
console_begin_batch s = cursor_guard_enter s

unfoldable pub console_end_batch : Console → Console
console_end_batch s = cursor_guard_leave s

-- The characters before the NUL.
unfoldable pub console_write : Console → List ℕ → Console
console_write s [] = s
console_write s (c ∷ text) = console_write (console_putchar s c) text
