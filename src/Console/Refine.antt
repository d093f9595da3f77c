-- ===== src/Console/Refine.antt =====
-- The console shows a terminal: what each step of `console_putchar` keeps.
use micro_os.Base.{
  ℕ, ◌+◌, ◌*◌, ◌/◌, ◌%◌, ◌<◌, ◌≤◌, ◌≡◌, ◌∙◌, subst, inl, inr, refl, sym, ap, Bool, true, false, not,
  ◌&&◌, ◌==◌, ltb, leb, if◌then◌else◌, Bool-cases, if_true, if_false, arith,
}
use micro_os.Mouse.Defs.{Pixels, Mouse, draw_cursor}
use micro_os.Console.Font.{font8x16}
use micro_os.Console.Defs.{
  u32, int32_above, Console, with_pixels, draw_char, char_overlaps_cursor, draw_guarded,
  cursor_guard_enter, cursor_guard_leave,
}
use micro_os.Console.Glyph.{dot, draw_char-hit, draw_char-miss}
use micro_os.Console.Picture.{picture, picture_apart, overlaps}
use micro_os.Console.Guard.{
  IsCoherent, Coherent, top, redrawn, worked, guarded, guarded_lem, enter_lem, picture-redrawn,
  redrawn-Coherent,
}
use micro_os.Console.Screen.{
  Cells, Terminal, place, pixel_at, Shows, wide_cell, small_cell, corner_small,
}

-- A new place of the cursor.
pub moved_to :
    (s : Console) (t : Terminal) (x y x' y' : ℕ)
    → Shows s t
    → x ≡ x'
    → y ≡ y'
    → Shows (record s { g_cx = x; g_cy = y }) (record t { cx = x'; cy = y' })
moved_to s t x y x' y' h p q = record {
  fits = h.fits;
  depth = h.depth;
  coherent = h.coherent;
  column = p;
  line = q;
  pixels = h.pixels;
}

-- A new picture, under the same cursor.
redrawn_as :
    (s : Console) (t : Terminal) (cells : Cells) (m : Mouse)
    → Shows s t
    → m.pitch ≡ s.mouse.pitch
    → m.screen_w ≡ s.mouse.screen_w
    → Coherent s.mouse_ready s.cursor_hidden_depth m
    → ((x y : ℕ)
        → x < s.g_fb.width
        → y < s.g_fb.height
        → picture m (y * s.g_stride + x) ≡ pixel_at s.g_cols s.g_rows cells x y)
    → Shows (record s { mouse = m }) (record t { cells = cells })
redrawn_as s t cells m h same_pitch same_width ok shown = record {
  fits = record {
    rows_of_pixels = h.fits.rows_of_pixels;
    wide = h.fits.wide;
    size = h.fits.size;
    columns = h.fits.columns;
    lines = h.fits.lines;
    some_column = h.fits.some_column;
    some_line = h.fits.some_line;
    mouse_pitch = same_pitch ∙ h.fits.mouse_pitch;
    mouse_width = omega (arith, same_width, h.fits.mouse_width);
  };
  depth = h.depth;
  coherent = ok;
  column = h.column;
  line = h.line;
  pixels = shown;
}

pub redrawn_pitch : (b : Bool) (m : Mouse) → (redrawn b m).pitch ≡ m.pitch
unfolding draw_cursor
redrawn_pitch true m = refl
redrawn_pitch false m = refl

pub redrawn_width : (b : Bool) (m : Mouse) → (redrawn b m).screen_w ≡ m.screen_w
unfolding draw_cursor
redrawn_width true m = refl
redrawn_width false m = refl

narrow : (s : Console) (t : Terminal) → Shows s t → s.mouse.screen_w ≤ s.mouse.pitch
narrow s t h = let f = h.fits in omega (arith, f.mouse_width, f.mouse_pitch)

-- An operation on the framebuffer that makes one terminal's picture out of another's, under the guards.
pub guarded-Shows :
    (f : Pixels → Pixels) (s : Console) (t : Terminal) (cells : Cells)
    → Shows s t
    → ((x y : ℕ)
        → x < s.g_fb.width
        → y < s.g_fb.height
        → f (picture s.mouse) (y * s.g_stride + x) ≡ pixel_at s.g_cols s.g_rows cells x y)
    → Shows (guarded f s) (record t { cells = cells })
guarded-Shows f s t cells h does =
    subst (λ u. Shows u (record t { cells = cells })) (sym (guarded_lem f s h.coherent h.depth))
      (redrawn_as s t cells (redrawn (top s) (worked f s.mouse)) h (redrawn_pitch (top s) _)
        (redrawn_width (top s) _) (redrawn-Coherent f s.mouse_ready s.cursor_hidden_depth s.mouse)
        (λ x y hx hy.
          picture-redrawn f (top s) s.mouse (narrow s t h) (y * s.g_stride + x) ∙ does x y hx hy))

-- The pixels of a character drawn in a cell.
draw_char-pixels :
    (s : Console) (t : Terminal) (c col row x y : ℕ)
    → Shows s t
    → col < s.g_cols
    → row < s.g_rows
    → x < s.g_fb.width
    → y < s.g_fb.height
    → draw_char s.g_stride col row c (picture s.mouse) (y * s.g_stride + x)
      ≡ pixel_at s.g_cols s.g_rows (λ i j. if i == col && j == row then c else t.cells i j) x y
draw_char-pixels s t c col row x y h hcol hrow hx hy =
    let wide = wide_cell h.fits col hcol in
    let small = small_cell h.fits row hrow in
    elim (Bool-cases (x / 8 == col && y / 16 == row)) [
      | inl on ↦
          let inside : (ltb (x / 8) s.g_cols && ltb (y / 16) s.g_rows) ≡ true =
            ground (arith, on, hcol, hrow) in
          draw_char-hit s.g_stride col row wide small c x y (picture s.mouse) on
          ∙ ap (λ k. dot (font8x16 (k % 256) (y % 16)) (x % 8))
              (sym (if_true (x / 8 == col && y / 16 == row) c (t.cells (x / 8) (y / 16)) on))
          ∙ sym (if_true _ _ 0 inside)
      | inr off ↦
          draw_char-miss s.g_stride col row wide small c x y (picture s.mouse)
            (omega (arith, hx, h.fits.wide)) off
          ∙ h.pixels x y hx hy
          ∙ ap
              (λ k.
                if ltb (x / 8) s.g_cols && ltb (y / 16) s.g_rows
                then dot (font8x16 (k % 256) (y % 16)) (x % 8)
                else 0)
              (sym (if_false (x / 8 == col && y / 16 == row) c (t.cells (x / 8) (y / 16)) off))
    ]

-- The comparisons of `int32_t` numbers are those of the numbers, where the corner is one.
plain_corner :
    (a p n m : ℕ)
    → a < 2147483648
    → (leb (int32_above (a % u32) + n) (p + 2147483648) ≡ leb (a + n) p)
      × (leb (p + 2147483648 + m) (int32_above (a % u32)) ≡ leb (p + m) a)
plain_corner a p n m h = (ground arith, ground arith)

-- The cursor on the screen lies beside the cell, if the test says so.
beside :
    (s : Console) (t : Terminal) (col row : ℕ)
    → Shows s t
    → col < s.g_cols
    → row < s.g_rows
    → char_overlaps_cursor s col row ≡ false
    → s.mouse.cursor_visible ≡ true
    → overlaps col row s.mouse.saved_cx s.mouse.saved_cy ≡ false
unfolding char_overlaps_cursor
beside s t col row h hcol hrow clear seen =
    let (px, py) = h.coherent.at_pointer seen in
    let (x_small, y_small) = corner_small h.fits col row hcol hrow in
    let (right, left) = plain_corner (col * 8) s.mouse.mouse_px 8 8 x_small in
    let (below, above) = plain_corner (row * 16) s.mouse.mouse_py 16 12 y_small in
    elim (Bool-cases s.mouse_ready) [
      | inr unready ↦ absurd (cc (seen, h.coherent.not_ready unready))
      | inl ready ↦
          ap (λ k. overlaps col row k s.mouse.saved_cy) px
          ∙ ap (λ k. overlaps col row s.mouse.mouse_px k) py
          ∙ sym (rw (right, left, below, above) refl)
          ∙ sym (if_false (not s.mouse_ready) false _ (ap not ready))
          ∙ clear
    ]

abbrev draw_at : Console → ℕ → Console
draw_at s c = with_pixels s (draw_char s.g_stride s.g_cx s.g_cy c s.mouse.pixels)

draw_guarded-hiding :
    (s : Console) (c : ℕ)
    → IsCoherent s
    → char_overlaps_cursor s s.g_cx s.g_cy ≡ true
    → draw_guarded s c ≡ guarded (draw_char s.g_stride s.g_cx s.g_cy c) s
unfolding draw_guarded guarded
draw_guarded-hiding s c h overlap =
    ap
      (λ b.
        let s1 = if b then cursor_guard_enter s else s in
        if b then cursor_guard_leave (draw_at s1 c) else draw_at s1 c)
      overlap
    ∙ ap (λ s1. cursor_guard_leave (draw_at s1 c)) (enter_lem s h)
    ∙ ap
        (λ (s1 : Console).
          cursor_guard_leave
            (with_pixels s1 (draw_char s.g_stride s.g_cx s.g_cy c s1.mouse.pixels)))
        (sym (enter_lem s h))

draw_guarded-plain :
    (s : Console) (c : ℕ)
    → char_overlaps_cursor s s.g_cx s.g_cy ≡ false
    → draw_guarded s c ≡ draw_at s c
unfolding draw_guarded
draw_guarded-plain s c clear =
    ap
      (λ b.
        let s1 = if b then cursor_guard_enter s else s in
        if b then cursor_guard_leave (draw_at s1 c) else draw_at s1 c)
      clear

-- A character at the cursor of the terminal, wherever the mouse cursor is.
pub draw_guarded-Shows :
    (s : Console) (t : Terminal) (c : ℕ)
    → Shows s t
    → s.g_cx < s.g_cols
    → s.g_cy < s.g_rows
    → Shows (draw_guarded s c) (place c t)
draw_guarded-Shows s t c h hcol hrow =
    let cells = λ (i j : ℕ). if i == s.g_cx && j == s.g_cy then c else t.cells i j in
    let at = draw_char-pixels s t c s.g_cx s.g_cy in
    subst (λ k. Shows (draw_guarded s c) (record t { cells = k }))
      (λ n i j. if i == h.column n && j == h.line n then c else t.cells i j)
      (elim (Bool-cases (char_overlaps_cursor s s.g_cx s.g_cy)) [
        | inl overlap ↦
            subst (λ u. Shows u (record t { cells = cells }))
              (sym (draw_guarded-hiding s c h.coherent overlap))
              (guarded-Shows (draw_char s.g_stride s.g_cx s.g_cy c) s t cells h
                (λ x y hx hy. at x y h hcol hrow hx hy))
        | inr clear ↦
            subst (λ u. Shows u (record t { cells = cells })) (sym (draw_guarded-plain s c clear))
              (redrawn_as s t cells
                (record s.mouse { pixels = draw_char s.g_stride s.g_cx s.g_cy c s.mouse.pixels }) h
                refl refl
                (record {
                  not_ready = h.coherent.not_ready;
                  hidden = h.coherent.hidden;
                  at_pointer = h.coherent.at_pointer;
                })
                (λ x y hx hy.
                  picture_apart s.g_stride s.g_cx s.g_cy (wide_cell h.fits s.g_cx hcol)
                    (small_cell h.fits s.g_cy hrow) s.mouse h.fits.mouse_pitch h.fits.mouse_width c
                    (beside s t s.g_cx s.g_cy h hcol hrow clear) (y * s.g_stride + x)
                  ∙ at x y h hcol hrow hx hy))
      ])

-- What no step changes: the dimensions, and whether and how deep the guards are entered.
abbrev pub Steady : Console → Console → Type 0
Steady s s' =
    (s'.g_cols ≡ s.g_cols)
    × (s'.g_rows ≡ s.g_rows)
    × (s'.mouse_ready ≡ s.mouse_ready)
    × (s'.cursor_hidden_depth ≡ s.cursor_hidden_depth)

-- Drawing leaves the cursor of the text where it is, too.
abbrev pub Stays : Console → Console → Type 0
Stays s s' = Steady s s' × (s'.g_cx ≡ s.g_cx) × (s'.g_cy ≡ s.g_cy)

pub guarded-Stays :
    (f : Pixels → Pixels) (s : Console) (t : Terminal) → Shows s t → Stays s (guarded f s)
guarded-Stays f s t h =
    subst (Stays s) (sym (guarded_lem f s h.coherent h.depth))
      ((refl, refl, refl, refl), refl, refl)

pub draw_guarded-Stays :
    (s : Console) (t : Terminal) (c : ℕ) → Shows s t → Stays s (draw_guarded s c)
draw_guarded-Stays s t c h = elim (Bool-cases (char_overlaps_cursor s s.g_cx s.g_cy)) [
  | inl overlap ↦
      subst (Stays s) (sym (draw_guarded-hiding s c h.coherent overlap))
        (guarded-Stays (draw_char s.g_stride s.g_cx s.g_cy c) s t h)
  | inr clear ↦
      subst (Stays s) (sym (draw_guarded-plain s c clear)) ((refl, refl, refl, refl), refl, refl)
]
