-- ===== src/Console/Putchar.antt =====
-- `console_putchar` and `console_write` implement the terminal.
use micro_os.Base.{
  ℕ, ◌+◌, ◌*◌, ◌/◌, ◌%◌, ◌<◌, ◌≤◌, ◌≡◌, ◌⊎◌, ◌∙◌, subst, inl, inr, refl, Bool, true, false, List,
  [], ◌∷◌, ◌==◌, if◌then◌else◌, arith,
}
use micro_os.Console.Defs.{
  u32, Console, draw_guarded, step_back, put_by_kind, wrap_line, wrap_page, console_putchar,
  console_write,
}
use micro_os.Console.Screen.{
  Terminal, place, back, typed_kind, wrapped, scrolled, typed, typed_all, Shows, IsInside,
  few_columns, few_lines,
}
use micro_os.Console.Refine.{moved_to, Steady, draw_guarded-Stays, draw_guarded-Shows}
use micro_os.Console.Typing.{
  step_back-Shows, back-IsInside, wrap_line-Shows, wrap_page-Shows, step_back-Steady,
  wrap_line-Steady, wrap_page-Steady,
}

-- The dimensions are those of `cols` and `rows`.
abbrev pub Size : ℕ → ℕ → Console → Type 0
Size cols rows s = (s.g_cols ≡ cols) × (s.g_rows ≡ rows)

-- A step of the code beside a step of the terminal.
abbrev Follows : Console → Console → Terminal → Type 0
Follows s s' t' = Shows s' t' × Steady s s'

module _ (s : Console) (t : Terminal) (h : Shows s t) (ok : IsInside s.g_cols s.g_rows t) where
  in_column : s.g_cx < s.g_cols
  in_column = omega (arith, h.column, ok.0)

  in_line : s.g_cy < s.g_rows
  in_line = omega (arith, h.line, ok.1)

  backspaced : Follows s (draw_guarded (step_back s) b' ') (place b' ' (back s.g_cols t))
  backspaced =
      let shown = step_back-Shows s t h ok in
      let (cols, rows, ready, depth) = step_back-Steady s in
      let inside = back-IsInside s.g_cols s.g_rows t ok in
      let ((cols', rows', ready', depth'), _, _) =
        draw_guarded-Stays (step_back s) (back s.g_cols t) b' ' shown in
      (
        draw_guarded-Shows (step_back s) (back s.g_cols t) b' ' shown
            (omega (arith, shown.column, inside.0, cols))
            (omega (arith, shown.line, inside.1, rows)),
        (cols' ∙ cols, rows' ∙ rows, ready' ∙ ready, depth' ∙ depth),
      )

  drawn :
      (c : ℕ)
      → Follows s
          (let s1 = draw_guarded s c in record s1 { g_cx = (s1.g_cx + 1) % u32 })
          (record (place c t) { cx = t.cx + 1 })
  drawn c =
      let shown = draw_guarded-Shows s t c h in_column in_line in
      let (steady, cx, cy) = draw_guarded-Stays s t c h in
      (
        moved_to (draw_guarded s c) (place c t) (((draw_guarded s c).g_cx + 1) % u32)
            (draw_guarded s c).g_cy (t.cx + 1) t.cy shown
            (omega (arith, cx, h.column, ok.0, few_columns h.fits)) (cy ∙ h.line),
        steady,
      )

  by_kind : (c : ℕ) → Follows s (put_by_kind s c) (typed_kind s.g_cols c t)
  unfolding put_by_kind
  by_kind c =
      branch (c == 10)
        (
          moved_to s t 0 ((s.g_cy + 1) % u32) 0 (t.cy + 1) h refl
              (omega (arith, h.line, ok.1, few_lines h.fits)),
          (refl, refl, refl, refl),
        )
        (branch (c == 13) (moved_to s t 0 s.g_cy 0 t.cy h refl h.line, (refl, refl, refl, refl))
          (branch (c == 8) backspaced (
            branch (c == 9)
              (
                moved_to s t ((s.g_cx + 4) % u32 / 4 * 4) s.g_cy ((t.cx + 4) / 4 * 4) t.cy h
                    (omega (arith, h.column, ok.0, few_columns h.fits)) h.line,
                (refl, refl, refl, refl),
              )
              (drawn c))))
    where
      branch :
          (b : Bool) {s1 s2 : Console} {t1 t2 : Terminal}
          → Follows s s1 t1
          → Follows s s2 t2
          → Follows s (if b then s1 else s2) (if b then t1 else t2)
      branch true p q = p
      branch false p q = q

-- Before the cursor is brought back it is in the last line's successor, or right of the last column.
abbrev IsNear : ℕ → ℕ → Terminal → Type 0
IsNear cols rows t = (t.cy ≤ rows) × ((t.cy < rows) ⊎ (t.cx < cols))

typed_kind-IsNear :
    (cols rows c : ℕ) (t : Terminal) → IsInside cols rows t → IsNear cols rows (typed_kind cols c t)
typed_kind-IsNear cols rows c t h =
    let back_in = back-IsInside cols rows t h in
    branch (c == 10) (record t { cx = 0; cy = t.cy + 1 }) _
      (omega (arith, h.1), inr (omega (arith, h.0)))
      (branch (c == 13) (record t { cx = 0 }) _ (omega (arith, h.1), inl h.1)
        (branch (c == 8) (place b' ' (back cols t)) _ (omega (arith, back_in.1), inl back_in.1)
          (branch (c == 9) (record t { cx = (t.cx + 4) / 4 * 4 })
            (record (place c t) { cx = t.cx + 1 }) (omega (arith, h.1), inl h.1)
            (omega (arith, h.1), inl h.1))))
  where
    branch :
        (b : Bool) (t1 t2 : Terminal)
        → IsNear cols rows t1
        → IsNear cols rows t2
        → IsNear cols rows (if b then t1 else t2)
    branch true t1 t2 p q = p
    branch false t1 t2 p q = q

wrapped-IsInside :
    (cols rows : ℕ) (t : Terminal)
    → 1 ≤ cols
    → 1 ≤ rows
    → IsNear cols rows t
    → IsInside cols rows (scrolled rows (wrapped cols t))
wrapped-IsInside cols rows t some_col some_row (below, inl low) = ground arith
wrapped-IsInside cols rows t some_col some_row (below, inr left) = ground arith

-- One character, whatever the mouse cursor covers.
pub console_putchar-Shows :
    (s : Console) (t : Terminal) (c : ℕ)
    → Shows s t
    → IsInside s.g_cols s.g_rows t
    → Shows (console_putchar s c) (typed s.g_cols s.g_rows t c)
      × Steady s (console_putchar s c)
      × IsInside s.g_cols s.g_rows (typed s.g_cols s.g_rows t c)
unfolding console_putchar typed
console_putchar-Shows s t c h ok =
    let (shown1, size1) = by_kind s t h ok c in
    let near = typed_kind-IsNear s.g_cols s.g_rows c t ok in
    let shown2 =
      wrap_line-Shows (put_by_kind s c) (typed_kind s.g_cols c t) shown1
        (omega (arith, near.0, size1.1)) in
    let size2 = wrap_line-Steady (put_by_kind s c) in
    let cols : (wrap_line (put_by_kind s c)).g_cols ≡ s.g_cols = size2.0 ∙ size1.0 in
    let rows : (wrap_line (put_by_kind s c)).g_rows ≡ s.g_rows = size2.1 ∙ size1.1 in
    let shown3 = wrap_page-Shows (wrap_line (put_by_kind s c)) _ shown2 in
    let size3 = wrap_page-Steady (wrap_line (put_by_kind s c)) _ shown2 in
    (
      subst
          (λ k.
            Shows (wrap_page (wrap_line (put_by_kind s c)))
              (scrolled s.g_rows (wrapped k (typed_kind s.g_cols c t))))
          size1.0
          (subst
            (λ k.
              Shows (wrap_page (wrap_line (put_by_kind s c)))
                (scrolled k (wrapped (put_by_kind s c).g_cols (typed_kind s.g_cols c t))))
            rows shown3),
      (size3.0 ∙ cols, size3.1 ∙ rows, size3.2 ∙ size2.2 ∙ size1.2, size3.3 ∙ size2.3 ∙ size1.3),
      wrapped-IsInside s.g_cols s.g_rows (typed_kind s.g_cols c t) h.fits.some_column
          h.fits.some_line near,
    )

-- The same with the dimensions given.
pub type_one :
    (cols rows : ℕ) (s : Console) (t : Terminal) (c : ℕ)
    → Shows s t
    → Size cols rows s
    → IsInside cols rows t
    → Shows (console_putchar s c) (typed cols rows t c)
      × Steady s (console_putchar s c)
      × IsInside cols rows (typed cols rows t c)
type_one cols rows s t c h size ok =
    let inside : IsInside s.g_cols s.g_rows t =
      (omega (arith, ok.0, size.0), omega (arith, ok.1, size.1)) in
    subst
      (λ k.
        Shows (console_putchar s c) (typed k rows t c)
        × Steady s (console_putchar s c)
        × IsInside k rows (typed k rows t c))
      size.0
      (subst
        (λ k.
          Shows (console_putchar s c) (typed s.g_cols k t c)
          × Steady s (console_putchar s c)
          × IsInside s.g_cols k (typed s.g_cols k t c))
        size.1 (console_putchar-Shows s t c h inside))

-- A text.
pub console_write-Shows :
    (text : List ℕ) (cols rows : ℕ) (s : Console) (t : Terminal)
    → Shows s t
    → Size cols rows s
    → IsInside cols rows t
    → Shows (console_write s text) (typed_all cols rows t text)
      × IsInside cols rows (typed_all cols rows t text)
unfolding console_write typed_all
console_write-Shows [] cols rows s t h size ok = (h, ok)
console_write-Shows (c ∷ text) cols rows s t h size ok =
    let (shown, steady, inside) = type_one cols rows s t c h size ok in
    console_write-Shows text cols rows (console_putchar s c) (typed cols rows t c) shown
      (steady.0 ∙ size.0, steady.1 ∙ size.1) inside
