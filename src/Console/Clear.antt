-- ===== src/Console/Clear.antt =====
-- `console_clear` and `console_init` leave an empty terminal.
use micro_os.Base.{
  ℕ, ◌+◌, ◌-◌, ◌*◌, ◌/◌, ◌%◌, ◌<◌, ◌≡◌, ◌∙◌, subst, refl, sym, ap, Bool, true, false, ◌&&◌, ltb,
  if◌then◌else◌, arith,
}
use micro_os.Str.Defs.{memset}
use micro_os.Mouse.Defs.{Pixels}
use micro_os.Console.Font.{font8x16}
use micro_os.Console.Defs.{
  u32, Framebuffer, Console, with_pixels, console_clear, console_init, cursor_guard_leave,
}
use micro_os.Console.Glyph.{dot}
use micro_os.Console.Scroll.{clear_lem}
use micro_os.Console.Picture.{picture}
use micro_os.Console.Guard.{
  IsCoherent, redrawn, worked, top, guarded, guarded_lem, enter_lem, picture-redrawn,
  redrawn-Coherent,
}
use micro_os.Console.Screen.{Terminal, pixel_at, Fits, Shows, tall, blank_dot}
use micro_os.Console.Refine.{redrawn_pitch, redrawn_width}

abbrev pub empty : Terminal
empty = record { cells = λ i j. b' '; cx = 0; cy = 0 }

blank_pixel : (cols rows x y : ℕ) → pixel_at cols rows empty.cells x y ≡ 0
blank_pixel cols rows x y = by (ltb (x / 8) cols && ltb (y / 16) rows)
  where
    by : (b : Bool) → (if b then dot (font8x16 (b' ' % 256) (y % 16)) (x % 8) else 0) ≡ 0
    by true = blank_dot (y % 16) (x % 8)
    by false = refl

abbrev zeros : Console → Pixels → Pixels
zeros s p = memset p 0 0 (s.g_fb.height * s.g_fb.pitch % u32 / 4)

clear_guarded :
    (s : Console)
    → IsCoherent s
    → s.cursor_hidden_depth < u32 - 1
    → console_clear s
      ≡ record s { mouse = redrawn (top s) (worked (zeros s) s.mouse); g_cx = 0; g_cy = 0 }
unfolding console_clear guarded
clear_guarded s h small =
    ap
      (λ (s1 : Console).
        cursor_guard_leave
          (record (with_pixels s1
            (memset s1.mouse.pixels 0 0 (s1.g_fb.height * s1.g_fb.pitch % u32 / 4))) {
              g_cx = 0;
              g_cy = 0;
            }))
      (enter_lem s h)
    ∙ sym (
        ap (λ (s1 : Console). cursor_guard_leave (with_pixels s1 (zeros s s1.mouse.pixels)))
          (enter_lem (record s { g_cx = 0; g_cy = 0 }) h))
    ∙ guarded_lem (zeros s) (record s { g_cx = 0; g_cy = 0 }) h small

-- On a screen that fits, with a coherent mouse cursor, shown or not, and a depth that does not wrap,
-- `console_clear` leaves an empty terminal with its cursor in the first cell.
pub console_clear-Shows :
    (s : Console)
    → Fits s.g_fb s.g_stride s.g_cols s.g_rows s.mouse.pitch s.mouse.screen_w
    → IsCoherent s
    → s.cursor_hidden_depth < u32 - 1
    → Shows (console_clear s) empty
console_clear-Shows s f h small =
    subst (λ u. Shows u empty) (sym (clear_guarded s h small))
      (record {
        fits = record {
          rows_of_pixels = f.rows_of_pixels;
          wide = f.wide;
          size = f.size;
          columns = f.columns;
          lines = f.lines;
          some_column = f.some_column;
          some_line = f.some_line;
          mouse_pitch = redrawn_pitch (top s) _ ∙ f.mouse_pitch;
          mouse_width =
              omega (arith, redrawn_width (top s) (worked (zeros s) s.mouse), f.mouse_width);
        };
        depth = small;
        coherent = redrawn-Coherent (zeros s) s.mouse_ready s.cursor_hidden_depth s.mouse;
        column = refl;
        line = refl;
        pixels = λ x y hx hy.
            picture-redrawn (zeros s) (top s) s.mouse (omega (arith, f.mouse_width, f.mouse_pitch))
              (y * s.g_stride + x)
            ∙ clear_lem s.g_fb s.g_stride f.rows_of_pixels (tall f) f.size
                (omega (arith, hx, f.wide)) (picture s.mouse) x y (omega (arith, hx, f.wide)) hy
            ∙ sym (blank_pixel s.g_cols s.g_rows x y);
      })

-- At the start, before the mouse is set up.
pub console_init-Shows :
    (s : Console) (fb : Framebuffer)
    → Fits fb (fb.pitch / 4) (fb.width / 8) (fb.height / 16) (fb.pitch / 4) s.mouse.screen_w
    → s.mouse.cursor_visible ≡ false
    → s.cursor_hidden_depth < u32 - 1
    → Shows (console_init s fb) empty
unfolding console_init
console_init-Shows s fb f unseen small =
    console_clear-Shows
      (record s {
        g_fb = fb;
        g_stride = fb.pitch / 4;
        g_cols = fb.width / 8;
        g_rows = fb.height / 16;
        g_cx = 0;
        g_cy = 0;
        mouse = record s.mouse { pitch = fb.pitch / 4 };
      })
      f
      (record {
        not_ready = λ _. unseen;
        hidden = λ _. unseen;
        at_pointer = λ seen. absurd (cc (seen, unseen));
      })
      small
