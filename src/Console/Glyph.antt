-- ===== src/Console/Glyph.antt =====
-- What `draw_char` and `scroll_up` do to each pixel.
use micro_os.Base.{
  ℕ, zero, suc, ◌+◌, ◌-◌, ◌*◌, ◌/◌, ◌%◌, ◌^◌, ◌<◌, ◌≤◌, ◌≡◌, ◌⊎◌, ◌∙◌, inl, inr, refl, sym, ap,
  true, false, ◌&&◌, ◌==◌, ltb, leb, Bool-cases, arith,
}
use micro_os.Mouse.Defs.{Pixels}
use micro_os.Mouse.Cursor.{rows_unique}
use micro_os.Console.Font.{font8x16}
use micro_os.Console.Defs.{u32, color_of, draw_row, draw_rows, draw_char}

-- The colour of column `x` of a glyph's row.
unfoldable pub dot : ℕ → ℕ → ℕ
dot bits x = color_of bits (2 ^ (7 - x))

draw_row-hit : (p : Pixels) (a bits x : ℕ) → x < 8 → draw_row p a bits (a + x) ≡ dot bits x
unfolding draw_row dot
draw_row-hit p a bits zero h = ground arith
draw_row-hit p a bits (suc zero) h = ground arith
draw_row-hit p a bits (suc (suc zero)) h = ground arith
draw_row-hit p a bits (suc (suc (suc zero))) h = ground arith
draw_row-hit p a bits (suc (suc (suc (suc zero)))) h = ground arith
draw_row-hit p a bits (suc (suc (suc (suc (suc zero))))) h = ground arith
draw_row-hit p a bits (suc (suc (suc (suc (suc (suc zero)))))) h = ground arith
draw_row-hit p a bits (suc (suc (suc (suc (suc (suc (suc zero))))))) h = ground arith
draw_row-hit p a bits (suc (suc (suc (suc (suc (suc (suc (suc x)))))))) h = absurd (omega arith)

draw_row-miss :
    (p : Pixels) (a bits b : ℕ) → (leb a b && ltb b (a + 8)) ≡ false → draw_row p a bits b ≡ p b
unfolding draw_row
draw_row-miss p a bits b h = ground arith

-- A pixel below the row of `a` is drawn by no later row.
draw_rows-before :
    (g : ℕ → ℕ) (stride left y a : ℕ) (p : Pixels) (b : ℕ)
    → b < a
    → draw_rows g stride left y a p b ≡ p b
unfolding draw_rows
draw_rows-before g stride zero y a p b h = refl
draw_rows-before g stride (suc left) y a p b h =
    draw_rows-before g stride left (y + 1) (a + stride) (draw_row p a (g y)) b (omega arith)
    ∙ draw_row-miss p a (g y) b (ground arith)

-- Row `j` and column `x` of the drawn glyph.
draw_rows-hit :
    (g : ℕ → ℕ) (stride left y a : ℕ) (p : Pixels) (j x : ℕ)
    → 8 ≤ stride
    → j < left
    → x < 8
    → draw_rows g stride left y a p (a + (j * stride + x)) ≡ dot (g (y + j)) x
unfolding draw_rows
draw_rows-hit g stride zero y a p j x wide below h = absurd (omega arith)
draw_rows-hit g stride (suc left) y a p zero x wide below h =
    draw_rows-before g stride left (y + 1) (a + stride) (draw_row p a (g y)) (a + (0 * stride + x))
      (omega arith)
    ∙ ap (λ t. draw_row p a (g y) t) (omega arith)
    ∙ draw_row-hit p a (g y) x h
    ∙ ap (λ t. dot (g t) x) (omega arith)
draw_rows-hit g stride (suc left) y a p (suc j) x wide below h =
    ap (λ t. draw_rows g stride left (y + 1) (a + stride) (draw_row p a (g y)) t)
      (omega (arith, step j stride))
    ∙ draw_rows-hit g stride left (y + 1) (a + stride) (draw_row p a (g y)) j x wide (omega arith) h
    ∙ ap (λ t. dot (g t) x) (omega arith)
  where
    step : (j stride : ℕ) → suc j * stride ≡ stride + j * stride
    step j stride = grind arith

-- A pixel of the glyph, or one that it leaves as it was.
abbrev pub Hit : ℕ → ℕ → ℕ → ℕ → Type 0
Hit stride left a b = (j : ℕ) × (x : ℕ) × (j < left) × (x < 8) × (b ≡ a + (j * stride + x))

Hit-next : (stride left a b : ℕ) → Hit stride left (a + stride) b → Hit stride (suc left) a b
Hit-next stride left a b (j, x, hj, hx, e) = (suc j, x, omega arith, hx, omega (arith, e))

Hit-first : (stride left a b : ℕ) → (leb a b && ltb b (a + 8)) ≡ true → Hit stride (suc left) a b
Hit-first stride left a b h = (0, b - a, omega arith, ground arith, ground arith)

-- A pixel is drawn in the same colour on every picture, or keeps the colour that it has.
draw_rows_split :
    (g : ℕ → ℕ) (stride left y a b : ℕ)
    → Hit stride left a b ⊎ ((p : Pixels) → draw_rows g stride left y a p b ≡ p b)
unfolding draw_rows
draw_rows_split g stride zero y a b = inr (λ p. refl)
draw_rows_split g stride (suc left) y a b = elim (Bool-cases (leb a b && ltb b (a + 8))) [
  | inl first ↦ inl (Hit-first stride left a b first)
  | inr apart ↦ elim (draw_rows_split g stride left (y + 1) (a + stride) b) [
    | inl later ↦ inl (Hit-next stride left a b later)
    | inr none ↦ inr (λ p. none (draw_row p a (g y)) ∙ draw_row-miss p a (g y) b apart)
  ]
]

-- A cell that lies in the framebuffer, so that no index wraps.
module _ (stride col row : ℕ) (wide : col * 8 + 8 ≤ stride)
    (small : (row * 16 + 16) * stride < u32) where
  below_page : row * 16 * stride + 16 * stride < u32
  below_page = omega (arith, spread (row * 16) 16 stride, small)
    where
      spread : (a b c : ℕ) → (a + b) * c ≡ a * c + b * c
      spread a b c = grind arith

  row_small : row * 16 < u32
  row_small = omega (arith, grow (row * 16) stride (omega (arith, wide)), below_page)
    where
      grow : (a c : ℕ) → 1 ≤ c → a ≤ a * c
      grow a c h = grind arith

  cell_base : row * 16 % u32 * stride % u32 + col * 8 % u32 ≡ row * 16 * stride + col * 8
  cell_base =
      let y0 : row * 16 % u32 ≡ row * 16 = omega (arith, row_small) in
      let x0 : col * 8 % u32 ≡ col * 8 = omega (arith, wide, below_page) in
      rw (y0, x0) (omega (arith, wide, below_page))

  -- The pixel of row `j` and column `i` of the cell.
  cell_pixel :
      (i j : ℕ)
      → (row * 16 + j) * stride + (col * 8 + i) ≡ row * 16 * stride + col * 8 + (j * stride + i)
  cell_pixel i j = spread (row * 16) j stride (col * 8) i
    where
      spread : (a b c d e : ℕ) → (a + b) * c + (d + e) ≡ a * c + d + (b * c + e)
      spread a b c d e = grind arith

  pub draw_char-miss :
      (c x y : ℕ) (p : Pixels)
      → x < stride
      → (x / 8 == col && y / 16 == row) ≡ false
      → draw_char stride col row c p (y * stride + x) ≡ p (y * stride + x)
  unfolding draw_char
  draw_char-miss c x y p hx off =
      rw cell_base
        (elim (draw_rows_split (font8x16 (c % 256)) stride 16 0 (row * 16 * stride + col * 8)
          (y * stride + x)) [
            | inr kept ↦ kept p
            | inl (j, i, hj, hi, at) ↦
                let (ey, ex) =
                  rows_unique stride y (row * 16 + j) x (col * 8 + i) hx (omega (arith, wide, hi))
                    (at ∙ sym (cell_pixel i j)) in
                absurd (ground (arith, off, ex, ey, hj, hi))
          ])

  pub draw_char-hit :
      (c x y : ℕ) (p : Pixels)
      → (x / 8 == col && y / 16 == row) ≡ true
      → draw_char stride col row c p (y * stride + x) ≡ dot (font8x16 (c % 256) (y % 16)) (x % 8)
  unfolding draw_char
  draw_char-hit c x y p on =
      let ey : row * 16 + y % 16 ≡ y = ground (arith, on) in
      let ex : col * 8 + x % 8 ≡ x = ground (arith, on) in
      rw cell_base (
        ap (λ t. draw_rows (font8x16 (c % 256)) stride 16 0 (row * 16 * stride + col * 8) p t)
          (ap (λ t. t * stride + x) (sym ey)
            ∙ ap (λ t. (row * 16 + y % 16) * stride + t) (sym ex)
            ∙ cell_pixel (x % 8) (y % 16))
        ∙ draw_rows-hit (font8x16 (c % 256)) stride 16 0 (row * 16 * stride + col * 8) p (y % 16)
            (x % 8) (omega (arith, wide)) (omega arith) (omega arith)
        ∙ ap (λ t. dot (font8x16 (c % 256) t) (x % 8)) (omega arith))

  -- A pixel that the cell's character does not draw, in any picture, or a pixel of the cell.
  pub draw_char_split :
      (c a : ℕ)
      → ((p : Pixels) → draw_char stride col row c p a ≡ p a)
        ⊎ ((i : ℕ) × (j : ℕ) × (i < 8) × (j < 16) × (a ≡ (row * 16 + j) * stride + (col * 8 + i)))
  unfolding draw_char
  draw_char_split c a =
      rw cell_base
        (elim (draw_rows_split (font8x16 (c % 256)) stride 16 0 (row * 16 * stride + col * 8) a) [
          | inr kept ↦ inl kept
          | inl (j, i, hj, hi, at) ↦ inr (i, j, hi, hj, at ∙ sym (cell_pixel i j))
        ])

  -- What is drawn at a pixel depends on that pixel alone.
  pub draw_char_local :
      (c a : ℕ) (p q : Pixels)
      → p a ≡ q a
      → draw_char stride col row c p a ≡ draw_char stride col row c q a
  draw_char_local c a p q same = elim (draw_char_split c a) [
    | inl kept ↦ kept p ∙ same ∙ sym (kept q)
    | inr (i, j, hi, hj, at) ↦
        let cell : (((col * 8 + i) / 8 == col) && ((row * 16 + j) / 16 == row)) ≡ true =
          ground (arith, hi, hj) in
        rw at (
          draw_char-hit c (col * 8 + i) (row * 16 + j) p cell
          ∙ sym (draw_char-hit c (col * 8 + i) (row * 16 + j) q cell))
  ]
