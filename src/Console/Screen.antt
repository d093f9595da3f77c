-- ===== src/Console/Screen.antt =====
-- A terminal of characters, and when the picture on the framebuffer shows it.
use micro_os.Base.{
  ℕ, ◌+◌, ◌-◌, ◌*◌, ◌/◌, ◌%◌, ◌^◌, ◌<◌, ◌≤◌, ◌≡◌, ◌∙◌, subst, ap, ◌&&◌, List, [], ◌∷◌, ◌==◌, ltb,
  leb, if◌then◌else◌, arith,
}
use micro_os.Console.Font.{font8x16}
use micro_os.Console.Defs.{u32, fg_color, bg_color, color_of, Framebuffer, Console}
use native.Mathlib.Nat.{zero-div}
use micro_os.Console.Glyph.{dot}
use micro_os.Console.Picture.{picture}
use micro_os.Console.Guard.{IsCoherent}

abbrev pub Cells : Type 0
Cells = ℕ → ℕ → ℕ

-- The character in each column and row, and the place of the next one.
pub record Terminal : Type 0 where
  pub cells : Cells
  pub cx : ℕ
  pub cy : ℕ

abbrev pub place : ℕ → Terminal → Terminal
place c t = record t { cells = λ i j. if i == t.cx && j == t.cy then c else t.cells i j }

abbrev pub back : ℕ → Terminal → Terminal
back cols t =
    if ltb 0 t.cx
    then record t { cx = t.cx - 1 }
    else if ltb 0 t.cy
    then record t { cx = cols - 1; cy = t.cy - 1 }
    else t

-- A new line, a return, a backspace that blanks, a tab to the next multiple of four, or a character.
abbrev pub typed_kind : ℕ → ℕ → Terminal → Terminal
typed_kind cols c t =
    if c == 10
    then record t { cx = 0; cy = t.cy + 1 }
    else if c == 13
    then record t { cx = 0 }
    else if c == 8
    then place b' ' (back cols t)
    else if c == 9
    then record t { cx = (t.cx + 4) / 4 * 4 }
    else record (place c t) { cx = t.cx + 1 }

abbrev pub wrapped : ℕ → Terminal → Terminal
wrapped cols t = if leb cols t.cx then record t { cx = 0; cy = t.cy + 1 } else t

-- Below the last row all rows move up by one, and the last becomes blank.
abbrev pub scrolled : ℕ → Terminal → Terminal
scrolled rows t =
    if leb rows t.cy
    then record t {
      cells = λ i j. if ltb (j + 1) rows then t.cells i (j + 1) else b' ';
      cy = rows - 1;
    }
    else t

unfoldable pub typed : ℕ → ℕ → Terminal → ℕ → Terminal
typed cols rows t c = scrolled rows (wrapped cols (typed_kind cols c t))

unfoldable pub typed_all : ℕ → ℕ → Terminal → List ℕ → Terminal
typed_all cols rows t [] = t
typed_all cols rows t (c ∷ text) = typed_all cols rows (typed cols rows t c) text

-- The colour of a pixel of the terminal; what is right of its last column and below its last row is black.
abbrev pub pixel_at : ℕ → ℕ → Cells → ℕ → ℕ → ℕ
pixel_at cols rows cells x y =
    if ltb (x / 8) cols && ltb (y / 16) rows
    then dot (font8x16 (cells (x / 8) (y / 16) % 256) (y % 16)) (x % 8)
    else 0

-- The framebuffer and the mouse driver agree on the size of the screen, on which a cell has room.
pub record Fits (fb : Framebuffer) (stride cols rows pitch screen_w : ℕ) : Type 0 where
  pub rows_of_pixels : fb.pitch ≡ stride * 4
  pub wide : fb.width ≤ stride
  pub size : fb.height * fb.pitch < u32
  pub columns : cols ≡ fb.width / 8
  pub lines : rows ≡ fb.height / 16
  pub some_column : 1 ≤ cols
  pub some_line : 1 ≤ rows
  pub mouse_pitch : pitch ≡ stride
  pub mouse_width : screen_w ≤ stride

pub record Shows (s : Console) (t : Terminal) : Type 0 where
  pub fits : Fits s.g_fb s.g_stride s.g_cols s.g_rows s.mouse.pitch s.mouse.screen_w
  pub depth : s.cursor_hidden_depth < u32 - 1
  pub coherent : IsCoherent s
  pub column : s.g_cx ≡ t.cx
  pub line : s.g_cy ≡ t.cy
  pub pixels :
      (x y : ℕ)
      → x < s.g_fb.width
      → y < s.g_fb.height
      → picture s.mouse (y * s.g_stride + x) ≡ pixel_at s.g_cols s.g_rows t.cells x y

abbrev pub IsInside : ℕ → ℕ → Terminal → Type 0
IsInside cols rows t = (t.cx < cols) × (t.cy < rows)

-- The bounds that keep the indices and the cursor from wrapping.
module _ {fb : Framebuffer} {stride cols rows pitch screen_w : ℕ}
    (f : Fits fb stride cols rows pitch screen_w) where
  pub tall : 16 ≤ fb.height
  tall = omega (arith, f.lines, f.some_line)

  pub wide_cell : (col : ℕ) → col < cols → col * 8 + 8 ≤ stride
  wide_cell col h = omega (arith, f.columns, f.wide)

  pub pixels_small : 4 * (fb.height * stride) < u32
  pixels_small =
      subst (λ t. t < u32) (ap (λ t. fb.height * t) f.rows_of_pixels ∙ four fb.height stride) f.size
    where
      four : (a b : ℕ) → a * (b * 4) ≡ 4 * (a * b)
      four a b = grind arith

  pub small_cell : (row : ℕ) → row < rows → (row * 16 + 16) * stride < u32
  small_cell row h =
      omega (arith, above (row * 16 + 16) fb.height stride (omega (arith, f.lines)), pixels_small)
    where
      above : (a b c : ℕ) → a ≤ b → a * c ≤ b * c
      above a b c h = grind arith

  pub few_columns : cols + 4 < u32
  few_columns = omega (arith, above fb.height stride tall, pixels_small, f.columns, f.wide)
    where
      above : (a c : ℕ) → 16 ≤ a → 16 * c ≤ a * c
      above a c h = grind arith

  pub few_lines : rows + 1 < u32
  few_lines = omega (
    arith,
    grow fb.height stride (omega (arith, wide_cell 0 f.some_column)),
    pixels_small,
    f.lines,
  )
    where
      grow : (a c : ℕ) → 1 ≤ c → a ≤ a * c
      grow a c h = grind arith

  -- The corner of a cell is an `int32_t`.
  pub corner_small :
      (col row : ℕ) → col < cols → row < rows → (col * 8 < 2147483648) × (row * 16 < 2147483648)
  corner_small col row h k = (
    omega (arith, wide_cell col h, above fb.height stride tall, pixels_small),
    omega (
      arith,
      grow fb.height stride (omega (arith, wide_cell 0 f.some_column)),
      pixels_small,
      f.lines,
    ),
  )
    where
      above : (a c : ℕ) → 16 ≤ a → 16 * c ≤ a * c
      above a c h = grind arith

      grow : (a c : ℕ) → 1 ≤ c → a ≤ a * c
      grow a c h = grind arith

-- A space draws no pixel.
pub blank_dot : (y x : ℕ) → dot (font8x16 32 y) x ≡ 0
unfolding dot font8x16
blank_dot y x =
    ap (λ t. color_of (t % 256) (2 ^ (7 - x))) (zero-div (2 ^ (8 * (15 - y))))
    ∙ ap (λ t. if t % 2 == 1 then fg_color else bg_color) (zero-div (2 ^ (7 - x)))
