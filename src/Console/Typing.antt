-- ===== src/Console/Typing.antt =====
-- `console_putchar` implements the terminal, and the mouse changes nothing of what it shows.
use micro_os.Base.{
  ℕ, ◌+◌, ◌-◌, ◌/◌, ◌%◌, ◌≤◌, ◌≡◌, ◌∙◌, subst, inl, inr, refl, sym, ap, Bool, true, false, ◌&&◌,
  ltb, leb, if◌then◌else◌, Bool-cases, ltb→lt, if_true, if_false, arith,
}
use micro_os.Console.Font.{font8x16}
use micro_os.Console.Defs.{
  u32, Console, with_pixels, scroll_up, cursor_guard_leave, step_back, wrap_line, scroll_guarded,
  wrap_page,
}
use micro_os.Console.Glyph.{dot}
use micro_os.Console.Scroll.{scroll_up_lem}
use micro_os.Console.Picture.{picture}
use micro_os.Console.Guard.{guarded, enter_lem}
use micro_os.Console.Screen.{
  Cells, Terminal, back, wrapped, scrolled, pixel_at, Shows, IsInside, tall, few_columns, few_lines,
  blank_dot,
}
use micro_os.Console.Refine.{moved_to, Steady, Stays, guarded-Stays, guarded-Shows}

pub both : {s s' : Console} {t t' : Terminal} → s ≡ s' → t ≡ t' → Shows s' t' → Shows s t
both {s} {s'} {t} {t'} p q h = subst (λ u. Shows u t) (sym p) (subst (Shows s') (sym q) h)

pub step_back-Shows :
    (s : Console) (t : Terminal)
    → Shows s t
    → IsInside s.g_cols s.g_rows t
    → Shows (step_back s) (back s.g_cols t)
unfolding step_back
step_back-Shows s t h ok = elim (Bool-cases (ltb 0 t.cx)) [
  | inl right ↦
      both (if_true (ltb 0 s.g_cx) _ _ (ap (ltb 0) h.column ∙ right))
        (if_true (ltb 0 t.cx) _ _ right)
        (moved_to s t (s.g_cx - 1) s.g_cy (t.cx - 1) t.cy h (ap (λ k. k - 1) h.column) h.line)
  | inr first ↦ elim (Bool-cases (ltb 0 t.cy)) [
    | inl below ↦
        both
          (if_false (ltb 0 s.g_cx) _ _ (ap (ltb 0) h.column ∙ first)
            ∙ if_true (ltb 0 s.g_cy) _ _ (ap (ltb 0) h.line ∙ below))
          (if_false (ltb 0 t.cx) _ _ first ∙ if_true (ltb 0 t.cy) _ _ below)
          (moved_to s t ((s.g_cols + u32 - 1) % u32) (s.g_cy - 1) (s.g_cols - 1) (t.cy - 1) h
            (omega (arith, few_columns h.fits, h.fits.some_column)) (ap (λ k. k - 1) h.line))
    | inr corner ↦
        both
          (if_false (ltb 0 s.g_cx) _ _ (ap (ltb 0) h.column ∙ first)
            ∙ if_false (ltb 0 s.g_cy) _ _ (ap (ltb 0) h.line ∙ corner))
          (if_false (ltb 0 t.cx) _ _ first ∙ if_false (ltb 0 t.cy) _ _ corner) h
  ]
]

pub back-IsInside :
    (cols rows : ℕ) (t : Terminal) → IsInside cols rows t → IsInside cols rows (back cols t)
back-IsInside cols rows t h = ground arith

abbrev scrolled_cells : ℕ → Cells → Cells
scrolled_cells rows cells i j = if ltb (j + 1) rows then cells i (j + 1) else b' '

-- A row of pixels after the scrolling is the one sixteen rows below, or blank.
pixel_at-scrolled :
    (cols height : ℕ) (cells : Cells) (x y : ℕ)
    → (if ltb (y + 16) height then pixel_at cols (height / 16) cells x (y + 16) else 0)
      ≡ pixel_at cols (height / 16) (scrolled_cells (height / 16) cells) x y
pixel_at-scrolled cols height cells x y =
    let row : (y + 16) / 16 ≡ y / 16 + 1 = omega arith in
    let line : (y + 16) % 16 ≡ y % 16 = omega arith in
    elim (Bool-cases (ltb (x / 8) cols && ltb (y / 16 + 1) (height / 16))) [
      | inl inside ↦
          if_true (ltb (y + 16) height) _ 0 (ground (arith, inside))
          ∙ if_true _ _ 0 (ap (λ k. ltb (x / 8) cols && ltb k (height / 16)) row ∙ inside)
          ∙ ap (λ k. dot (font8x16 (cells (x / 8) k % 256) ((y + 16) % 16)) (x % 8)) row
          ∙ ap (λ k. dot (font8x16 (cells (x / 8) (y / 16 + 1) % 256) k) (x % 8)) line
          ∙ ap (λ k. dot (font8x16 (k % 256) (y % 16)) (x % 8))
              (sym (if_true (ltb (y / 16 + 1) (height / 16)) _ b' ' (ground (arith, inside))))
          ∙ sym (
              if_true (ltb (x / 8) cols && ltb (y / 16) (height / 16)) _ 0 (ground (arith, inside)))
      | inr below ↦
          either (ltb (y + 16) height)
            (if_false _ _ 0 (ap (λ k. ltb (x / 8) cols && ltb k (height / 16)) row ∙ below))
          ∙ sym (blank_row below)
    ]
  where
    either : (b : Bool) {v : ℕ} → v ≡ 0 → (if b then v else 0) ≡ 0
    either true h = h
    either false h = refl

    blank_row :
        (ltb (x / 8) cols && ltb (y / 16 + 1) (height / 16)) ≡ false
        → pixel_at cols (height / 16) (scrolled_cells (height / 16) cells) x y ≡ 0
    blank_row below = elim (Bool-cases (ltb (x / 8) cols && ltb (y / 16) (height / 16))) [
      | inr outside ↦ if_false _ _ 0 outside
      | inl last ↦
          if_true _ _ 0 last
          ∙ ap (λ k. dot (font8x16 (k % 256) (y % 16)) (x % 8))
              (if_false (ltb (y / 16 + 1) (height / 16)) _ b' ' (ground (arith, below, last)))
          ∙ blank_dot (y % 16) (x % 8)
    ]

scroll_guarded-is :
    (s : Console) (t : Terminal) → Shows s t → scroll_guarded s ≡ guarded (scroll_up s.g_fb) s
unfolding scroll_guarded guarded
scroll_guarded-is s t h =
    ap (λ s1. cursor_guard_leave (with_pixels s1 (scroll_up s1.g_fb s1.mouse.pixels)))
      (enter_lem s h.coherent)
    ∙ ap (λ (s1 : Console). cursor_guard_leave (with_pixels s1 (scroll_up s.g_fb s1.mouse.pixels)))
        (sym (enter_lem s h.coherent))

scroll_guarded-Shows :
    (s : Console) (t : Terminal)
    → Shows s t
    → Shows (scroll_guarded s) (record t { cells = scrolled_cells s.g_rows t.cells })
scroll_guarded-Shows s t h =
    subst (λ u. Shows u (record t { cells = scrolled_cells s.g_rows t.cells }))
      (sym (scroll_guarded-is s t h))
      (guarded-Shows (scroll_up s.g_fb) s t (scrolled_cells s.g_rows t.cells) h (λ x y hx hy.
        scroll_up_lem s.g_fb s.g_stride h.fits.rows_of_pixels (tall h.fits) h.fits.size
          (omega (arith, hx, h.fits.wide)) (picture s.mouse) x y (omega (arith, hx, h.fits.wide)) hy
        ∙ when (ltb (y + 16) s.g_fb.height) (λ on. h.pixels x (y + 16) hx (ltb→lt _ _ on))
        ∙ subst
            (λ r.
              (if ltb (y + 16) s.g_fb.height then pixel_at s.g_cols r t.cells x (y + 16) else 0)
              ≡ pixel_at s.g_cols r (scrolled_cells r t.cells) x y)
            (sym h.fits.lines) (pixel_at-scrolled s.g_cols s.g_fb.height t.cells x y)))
  where
    when : (b : Bool) {v w : ℕ} → (b ≡ true → v ≡ w) → (if b then v else 0) ≡ (if b then w else 0)
    when true e = e refl
    when false e = refl

pub wrap_line-Shows :
    (s : Console) (t : Terminal)
    → Shows s t
    → t.cy ≤ s.g_rows
    → Shows (wrap_line s) (wrapped s.g_cols t)
unfolding wrap_line
wrap_line-Shows s t h low = elim (Bool-cases (leb s.g_cols t.cx)) [
  | inl full ↦
      both (if_true (leb s.g_cols s.g_cx) _ _ (ap (leb s.g_cols) h.column ∙ full))
        (if_true (leb s.g_cols t.cx) _ _ full)
        (moved_to s t 0 ((s.g_cy + 1) % u32) 0 (t.cy + 1) h refl
          (omega (arith, low, few_lines h.fits, h.line)))
  | inr room ↦
      both (if_false (leb s.g_cols s.g_cx) _ _ (ap (leb s.g_cols) h.column ∙ room))
        (if_false (leb s.g_cols t.cx) _ _ room) h
]

pub wrap_page-Shows :
    (s : Console) (t : Terminal) → Shows s t → Shows (wrap_page s) (scrolled s.g_rows t)
unfolding wrap_page
wrap_page-Shows s t h = elim (Bool-cases (leb s.g_rows t.cy)) [
  | inl over ↦
      let size : Stays s (scroll_guarded s) =
        subst (Stays s) (sym (scroll_guarded-is s t h)) (guarded-Stays (scroll_up s.g_fb) s t h) in
      both (if_true (leb s.g_rows s.g_cy) _ _ (ap (leb s.g_rows) h.line ∙ over))
        (if_true (leb s.g_rows t.cy) _ _ over)
        (moved_to (scroll_guarded s) (record t { cells = scrolled_cells s.g_rows t.cells })
          (scroll_guarded s).g_cx (((scroll_guarded s).g_rows + u32 - 1) % u32) t.cx (s.g_rows - 1)
          (scroll_guarded-Shows s t h) (size.1 ∙ h.column)
          (omega (arith, size.0.1, few_lines h.fits, h.fits.some_line)))
  | inr room ↦
      both (if_false (leb s.g_rows s.g_cy) _ _ (ap (leb s.g_rows) h.line ∙ room))
        (if_false (leb s.g_rows t.cy) _ _ room) h
]

at_end : (s : Console) {u v : Console} → u ≡ v → Steady s v → Steady s u
at_end s e k = subst (Steady s) (sym e) k

pub step_back-Steady : (s : Console) → Steady s (step_back s)
unfolding step_back
step_back-Steady s = elim (Bool-cases (ltb 0 s.g_cx)) [
  | inl right ↦ at_end s (if_true (ltb 0 s.g_cx) _ _ right) (refl, refl, refl, refl)
  | inr first ↦ elim (Bool-cases (ltb 0 s.g_cy)) [
    | inl below ↦
        at_end s (if_false (ltb 0 s.g_cx) _ _ first ∙ if_true (ltb 0 s.g_cy) _ _ below)
          (refl, refl, refl, refl)
    | inr corner ↦
        at_end s (if_false (ltb 0 s.g_cx) _ _ first ∙ if_false (ltb 0 s.g_cy) _ _ corner)
          (refl, refl, refl, refl)
  ]
]

pub wrap_line-Steady : (s : Console) → Steady s (wrap_line s)
unfolding wrap_line
wrap_line-Steady s = elim (Bool-cases (leb s.g_cols s.g_cx)) [
  | inl full ↦ at_end s (if_true (leb s.g_cols s.g_cx) _ _ full) (refl, refl, refl, refl)
  | inr room ↦ at_end s (if_false (leb s.g_cols s.g_cx) _ _ room) (refl, refl, refl, refl)
]

pub wrap_page-Steady : (s : Console) (t : Terminal) → Shows s t → Steady s (wrap_page s)
unfolding wrap_page
wrap_page-Steady s t h = elim (Bool-cases (leb s.g_rows s.g_cy)) [
  | inl over ↦
      at_end s (if_true (leb s.g_rows s.g_cy) _ _ over)
        (subst (Stays s) (sym (scroll_guarded-is s t h)) (guarded-Stays (scroll_up s.g_fb) s t h)).0
  | inr room ↦ at_end s (if_false (leb s.g_rows s.g_cy) _ _ room) (refl, refl, refl, refl)
]
