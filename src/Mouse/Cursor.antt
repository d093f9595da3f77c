-- ===== src/Mouse/Cursor.antt =====
-- Erasing the cursor restores the pixels that drawing it covered.
use micro_os.Base.{
  ℕ, zero, suc, ◌+◌, ◌*◌, ◌/◌, ◌%◌, ◌<◌, ◌≤◌, subst, ◌≡◌, ◌≢◌, ◌⊎◌, inl, inr, refl, sym, ap, ◌∙◌,
  true, false, ◌==◌, Bool-cases, arith,
}
use micro_os.Mouse.Defs.{
  Mouse, Pixels, cursor_w, cursor_h, put, on_screen, pixel_of, shape, paint, draw_cell, draw_from,
  draw_cursor, erase_cell, erase_from, erase_cursor,
}

pub same_of : (a b : ℕ) → a == b ≡ true → a ≡ b
same_of a b h = ground arith

pub other_of : (a b : ℕ) → a == b ≡ false → a ≢ b
other_of a b h = ground arith

pub put_other : (p : Pixels) (a v b : ℕ) → b ≢ a → put p a v b ≡ p b
put_other p a v b h = ground arith

put_same : (p : Pixels) (a v b : ℕ) → b ≡ a → put p a v b ≡ v
put_same p a v b h = ground arith

paint_other : (p : Pixels) (a v b : ℕ) → b ≢ a → paint p a v b ≡ p b
paint_other p a v b h = ground arith

paint_none : (p : Pixels) (a v : ℕ) → v == 0 ≡ true → paint p a v ≡ p
paint_none p a v h = let e : v ≡ 0 = ground arith in rw e refl

-- A row and a column below the pitch are found again from the index.
pub rows_unique : (p a b x y : ℕ) → x < p → y < p → a * p + x ≡ b * p + y → (a ≡ b) × (x ≡ y)
rows_unique p zero zero x y hx hy e = (refl, omega (arith, e))
rows_unique p zero (suc b) x y hx hy e = absurd (omega (arith, e, hx))
rows_unique p (suc a) zero x y hx hy e = absurd (omega (arith, e, hy))
rows_unique p (suc a) (suc b) x y hx hy e =
    let (row, column) = rows_unique p a b x y hx hy (omega (arith, e)) in
    (omega (arith, row), column)

module _ (s : Mouse) (cx cy : ℕ) (wide : s.screen_w ≤ s.pitch) where
  -- Different cells on the screen have different pixels.
  cells_apart :
      (j k : ℕ)
      → on_screen s cx cy j ≡ true
      → on_screen s cx cy k ≡ true
      → j ≢ k
      → pixel_of s cx cy j ≢ pixel_of s cx cy k
  cells_apart j k hj hk ne e =
      let (row, column) =
        rows_unique s.pitch (cy + j / cursor_w) (cy + k / cursor_w) (cx + j % cursor_w)
          (cx + k % cursor_w) (ground (arith, hj, wide)) (ground (arith, hk, wide)) e in
      ne (omega (arith, row, column))

  -- `a` is a pixel that the cells from `lo` up to `hi` change.
  Covered : ℕ → ℕ → ℕ → Type 0
  Covered lo hi a =
      (j : ℕ) × (lo ≤ j)
      × (j < hi)
      × (on_screen s cx cy j ≡ true)
      × (shape j == 0 ≡ false)
      × (a ≡ pixel_of s cx cy j)

  -- One cell: what it saves, and the one pixel that it may change.
  record Cell (k : ℕ) (st st' : Pixels × Pixels) : Type 0 where
    kept : (j : ℕ) → j ≢ k → st'.0 j ≡ st.0 j
    saved : on_screen s cx cy k ≡ true → st'.0 k ≡ st.1 (pixel_of s cx cy k)
    changed :
        (a : ℕ)
        → (st'.1 a ≡ st.1 a)
          ⊎ ((on_screen s cx cy k ≡ true) × (shape k == 0 ≡ false) × (a ≡ pixel_of s cx cy k))

  draw_cell-Cell : (k : ℕ) (st : Pixels × Pixels) → Cell k st (draw_cell s cx cy k st)
  unfolding draw_cell
  draw_cell-Cell k (saved, p) = elim (Bool-cases (on_screen s cx cy k)) [
    | inr off ↦ rw off (record {
      kept = λ j ne. put_other saved k 0 j ne;
      saved = λ h. absurd (cc (h, off));
      changed = λ a. inl refl;
    })
    | inl on ↦ rw on (record {
      kept = λ j ne. put_other saved k _ j ne;
      saved = λ h. put_same saved k _ k refl;
      changed = λ a. elim (Bool-cases (shape k == 0)) [
        | inl blank ↦
            inl (ap (λ (q : Pixels). q a) (paint_none p (pixel_of s cx cy k) (shape k) blank))
        | inr shown ↦ elim (Bool-cases (a == pixel_of s cx cy k)) [
          | inl here ↦ inr (on, shown, same_of a _ here)
          | inr elsewhere ↦
              inl (paint_other p (pixel_of s cx cy k) (shape k) a (other_of a _ elsewhere))
        ]
      ];
    })
  ]

  -- All cells from `k` up to `k + left`.
  record Drawn (left k : ℕ) (st st' : Pixels × Pixels) : Type 0 where
    kept : (j : ℕ) → j < k → st'.0 j ≡ st.0 j
    saved :
        (j : ℕ)
        → k ≤ j
        → j < k + left
        → on_screen s cx cy j ≡ true
        → st'.0 j ≡ st.1 (pixel_of s cx cy j)
    changed : (a : ℕ) → (st'.1 a ≡ st.1 a) ⊎ Covered k (k + left) a

  draw_from-Drawn :
      (left k : ℕ) (st : Pixels × Pixels) → Drawn left k st (draw_from s cx cy left k st)
  unfolding draw_from Covered
  draw_from-Drawn zero k st = record {
    kept = λ j h. refl;
    saved = λ j lo hi on. absurd (omega (arith, lo, hi));
    changed = λ a. inl refl;
  }
  draw_from-Drawn (suc left) k st =
      let c = draw_cell-Cell k st in
      let d = draw_from-Drawn left (k + 1) (draw_cell s cx cy k st) in
      record {
        kept = λ j h. d.kept j (omega (arith, h)) ∙ c.kept j (omega (arith, h));
        saved = λ j lo hi on. elim (Bool-cases (j == k)) [
          | inl first ↦
              let e = same_of j k first in
              d.kept j (omega (arith, e))
              ∙ subst (λ i. (draw_cell s cx cy k st).0 i ≡ st.1 (pixel_of s cx cy i)) (sym e)
                  (c.saved (subst (λ i. on_screen s cx cy i ≡ true) e on))
          | inr later ↦
              let ne = other_of j k later in
              d.saved j (omega (arith, lo, ne)) (omega (arith, hi)) on
              ∙ elim (c.changed (pixel_of s cx cy j)) [
                | inl unchanged ↦ unchanged
                | inr (on_k, _, at) ↦ absurd (cells_apart j k on on_k ne at)
              ]
        ];
        changed = λ a. elim (d.changed a) [
          | inr (j, above, below, on, shown, at) ↦
              inr (j, omega (arith, above), omega (arith, below), on, shown, at)
          | inl same ↦ elim (c.changed a) [
            | inl unchanged ↦ inl (same ∙ unchanged)
            | inr (on, shown, at) ↦ inr (k, omega arith, omega arith, on, shown, at)
          ]
        ];
      }

-- Every pixel either has its old value or belongs to a cell still to be restored.
module _ (s : Mouse) (old : Pixels) where
  Pending : ℕ → ℕ → Pixels → Type 0
  Pending lo hi p =
      (a : ℕ)
      → (p a ≡ old a)
        ⊎ ((j : ℕ) × (lo ≤ j)
            × (j < hi)
            × (on_screen s s.saved_cx s.saved_cy j ≡ true)
            × (shape j == 0 ≡ false)
            × (a ≡ pixel_of s s.saved_cx s.saved_cy j))

  -- A pixel that cell `k` does not have to restore.
  pass_on :
      (k hi : ℕ) (p q : Pixels) (a : ℕ)
      → Pending k hi p
      → q a ≡ p a
      → (on_screen s s.saved_cx s.saved_cy k ≡ true
          → shape k == 0 ≡ false
          → a ≢ pixel_of s s.saved_cx s.saved_cy k)
      → (q a ≡ old a)
        ⊎ ((j : ℕ) × (k + 1 ≤ j)
            × (j < hi)
            × (on_screen s s.saved_cx s.saved_cy j ≡ true)
            × (shape j == 0 ≡ false)
            × (a ≡ pixel_of s s.saved_cx s.saved_cy j))
  unfolding Pending
  pass_on k hi p q a h same not_k = elim (h a) [
    | inl was ↦ inl (same ∙ was)
    | inr (j, lo, below, on, shown, at) ↦ elim (Bool-cases (j == k)) [
      | inl first ↦
          let e = same_of j k first in
          absurd (
            not_k (subst (λ i. on_screen s s.saved_cx s.saved_cy i ≡ true) e on)
              (subst (λ i. shape i == 0 ≡ false) e shown)
              (subst (λ i. a ≡ pixel_of s s.saved_cx s.saved_cy i) e at))
      | inr later ↦
          let ne = other_of j k later in inr (j, omega (arith, lo, ne), below, on, shown, at)
    ]
  ]

  erase_cell-Pending :
      (k hi : ℕ) (p : Pixels)
      → (on_screen s s.saved_cx s.saved_cy k ≡ true
          → s.saved_under k ≡ old (pixel_of s s.saved_cx s.saved_cy k))
      → Pending k hi p
      → Pending (k + 1) hi (erase_cell s k p)
  unfolding Pending erase_cell
  erase_cell-Pending k hi p saved h a = elim (Bool-cases (on_screen s s.saved_cx s.saved_cy k)) [
    | inr off ↦ rw off (pass_on k hi p p a h refl (λ on _ _. absurd (cc (on, off))))
    | inl on ↦ elim (Bool-cases (shape k == 0)) [
      | inl blank ↦
          rw (on, blank) (pass_on k hi p p a h refl (λ _ shown _. absurd (cc (shown, blank))))
      | inr shown ↦
          rw (on, shown)
            (elim (Bool-cases (a == pixel_of s s.saved_cx s.saved_cy k)) [
              | inl here ↦
                  let e = same_of a (pixel_of s s.saved_cx s.saved_cy k) here in
                  inl (put_same p _ (s.saved_under k) a e ∙ saved on ∙ ap old (sym e))
              | inr elsewhere ↦
                  let ne = other_of a (pixel_of s s.saved_cx s.saved_cy k) elsewhere in
                  pass_on k hi p (put p (pixel_of s s.saved_cx s.saved_cy k) (s.saved_under k)) a h
                    (put_other p _ _ a ne) (λ _ _ at. absurd (ne at))
            ])
    ]
  ]

  erase_from-old :
      (left k : ℕ) (p : Pixels)
      → ((j : ℕ)
          → k ≤ j
          → j < k + left
          → on_screen s s.saved_cx s.saved_cy j ≡ true
          → s.saved_under j ≡ old (pixel_of s s.saved_cx s.saved_cy j))
      → Pending k (k + left) p
      → (a : ℕ) → erase_from s left k p a ≡ old a
  unfolding erase_from Pending
  erase_from-old zero k p saved h a = elim (h a) [
    | inl same ↦ same
    | inr (j, lo, hi, _, _, _) ↦ absurd (omega (arith, lo, hi))
  ]
  erase_from-old (suc left) k p saved h a =
      erase_from-old left (k + 1) (erase_cell s k p)
        (λ j lo hi on. saved j (omega (arith, lo)) (omega (arith, hi)) on)
        (subst (λ n. Pending (k + 1) n (erase_cell s k p)) (omega arith)
          (erase_cell-Pending k (k + suc left) p (λ on. saved k (omega arith) (omega arith) on) h))
        a

-- With rows at least as long as the screen is wide, erasing the cursor after drawing it anywhere
-- gives every pixel the value that it had before.
pub erase_cursor-draw_cursor :
    (s : Mouse) (cx cy : ℕ)
    → s.screen_w ≤ s.pitch
    → (a : ℕ) → (erase_cursor (draw_cursor s cx cy)).pixels a ≡ s.pixels a
unfolding erase_cursor draw_cursor Pending Covered
erase_cursor-draw_cursor s cx cy wide a =
    let d = draw_from-Drawn s cx cy wide (cursor_w * cursor_h) 0 (s.saved_under, s.pixels) in
    erase_from-old (draw_cursor s cx cy) s.pixels (cursor_w * cursor_h) 0 _
      (λ j lo hi on. d.saved j lo hi on) (λ b. d.changed b) a
