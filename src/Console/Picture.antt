-- ===== src/Console/Picture.antt =====
-- The picture under the mouse cursor, and what the console's guards and drawing do to it.
use micro_os.Base.{
  ℕ, zero, suc, ◌+◌, ◌*◌, ◌/◌, ◌%◌, ◌<◌, ◌≤◌, ◌≡◌, ◌≢◌, ◌⊎◌, ◌∙◌, inl, inr, refl, sym, ap, Bool,
  true, false, not, ◌||◌, ◌==◌, leb, Bool-cases, if_true, if_false, arith,
}
use micro_os.Mouse.Defs.{
  Pixels, Mouse, on_screen, pixel_of, shape, erase_cell, erase_from, erase_cursor,
}
use micro_os.Mouse.Cursor.{rows_unique, same_of, other_of, put_other}
use micro_os.Console.Defs.{u32, draw_char}
use micro_os.Console.Glyph.{draw_char_split, draw_char_local}

-- The pixels as they are where the cursor does not cover them, and as it saved them elsewhere.
unfoldable pub picture : Mouse → Pixels
picture m = (erase_cursor m).pixels

pub erase_cursor-hidden : (m : Mouse) → m.cursor_visible ≡ false → erase_cursor m ≡ m
unfolding erase_cursor
erase_cursor-hidden m h = if_true (not m.cursor_visible) m _ (ap not h)

pub picture-hidden : (m : Mouse) → m.cursor_visible ≡ false → picture m ≡ m.pixels
unfolding picture
picture-hidden m h = ap (λ (t : Mouse). t.pixels) (erase_cursor-hidden m h)

picture-shown : (m : Mouse) → m.cursor_visible ≡ true → picture m ≡ erase_from m 96 0 m.pixels
unfolding picture erase_cursor
picture-shown m h = ap (λ (t : Mouse). t.pixels) (if_false (not m.cursor_visible) m _ (ap not h))

-- Erasing does not look at the field `pixels`, but at the pixels that it is given.
erase_from_pixels :
    (m : Mouse) (r : Pixels) (left k : ℕ) (p : Pixels)
    → erase_from (record m { pixels = r }) left k p ≡ erase_from m left k p
unfolding erase_from erase_cell
erase_from_pixels m r zero k p = refl
erase_from_pixels m r (suc left) k p = erase_from_pixels m r left (k + 1) (erase_cell m k p)

-- A pixel of the cursor's cell `j`, below `hi`.
abbrev At : Mouse → ℕ → ℕ → Type 0
At m hi a =
    (j : ℕ) × (j < hi)
    × (on_screen m m.saved_cx m.saved_cy j ≡ true)
    × (a ≡ pixel_of m m.saved_cx m.saved_cy j)

erase_cell_split :
    (m : Mouse) (k a : ℕ)
    → ((p : Pixels) → erase_cell m k p a ≡ p a)
      ⊎ ((on_screen m m.saved_cx m.saved_cy k ≡ true)
          × (a ≡ pixel_of m m.saved_cx m.saved_cy k)
          × ((p q : Pixels) → erase_cell m k p a ≡ erase_cell m k q a))
unfolding erase_cell
erase_cell_split m k a = elim (Bool-cases (on_screen m m.saved_cx m.saved_cy k)) [
  | inr off ↦ rw off (inl (λ p. refl))
  | inl on ↦ elim (Bool-cases (shape k == 0)) [
    | inl blank ↦ rw (on, blank) (inl (λ p. refl))
    | inr shown ↦ elim (Bool-cases (a == pixel_of m m.saved_cx m.saved_cy k)) [
      | inl here ↦ rw (on, shown) (inr (refl, same_of a _ here, λ p q. ground (arith, here)))
      | inr elsewhere ↦
          rw (on, shown) (inl (λ p. put_other p _ (m.saved_under k) a (other_of a _ elsewhere)))
    ]
  ]
]

-- A pixel either keeps its colour under the erasing, or gets one that is the same on any picture.
erase_from_split :
    (m : Mouse) (left k a : ℕ)
    → ((p : Pixels) → erase_from m left k p a ≡ p a)
      ⊎ (At m (k + left) a × ((p q : Pixels) → erase_from m left k p a ≡ erase_from m left k q a))
unfolding erase_from
erase_from_split m zero k a = inl (λ p. refl)
erase_from_split m (suc left) k a = elim (erase_from_split m left (k + 1) a) [
  | inr ((j, below, on, at), same) ↦
      inr ((j, omega (arith, below), on, at), λ p q. same (erase_cell m k p) (erase_cell m k q))
  | inl kept ↦ elim (erase_cell_split m k a) [
    | inl kept_k ↦ inl (λ p. kept (erase_cell m k p) ∙ kept_k p)
    | inr (on, at, same) ↦ inr (
      (k, omega arith, on, at),
      λ p q. kept (erase_cell m k p) ∙ same p q ∙ sym (kept (erase_cell m k q)),
    )
  ]
]

-- The test of `char_overlaps_cursor`, for a cursor at `cx` and `cy`.
abbrev pub overlaps : ℕ → ℕ → ℕ → ℕ → Bool
overlaps col row cx cy = not (
    leb (col * 8 + 8) cx
    || leb (cx + 8) (col * 8)
    || leb (row * 16 + 16) cy
    || leb (cy + 12) (row * 16))

module _ (stride col row : ℕ) (wide : col * 8 + 8 ≤ stride) (small : (row * 16 + 16) * stride < u32)
    (m : Mouse) (same_pitch : m.pitch ≡ stride) (screen : m.screen_w ≤ stride) where
  -- A pixel of the cursor is no pixel of a cell that does not overlap it.
  cursor_apart :
      (a i j : ℕ)
      → overlaps col row m.saved_cx m.saved_cy ≡ false
      → At m 96 a
      → i < 8
      → j < 16
      → a ≢ (row * 16 + j) * stride + (col * 8 + i)
  cursor_apart a i j apart (k, hk, on, at) hi hj e =
      let (ey, ex) =
        rows_unique stride (m.saved_cy + k / 8) (row * 16 + j) (m.saved_cx + k % 8) (col * 8 + i)
          (ground (arith, on, screen)) (omega (arith, wide, hi))
          (ap (λ t. (m.saved_cy + k / 8) * t + (m.saved_cx + k % 8)) (sym same_pitch)
            ∙ sym at
            ∙ e) in
      absurd (ground (arith, apart, ex, ey, hi, hj, hk))

  pub picture_apart :
      (c : ℕ)
      → (m.cursor_visible ≡ true → overlaps col row m.saved_cx m.saved_cy ≡ false)
      → (a : ℕ)
      → picture (record m { pixels = draw_char stride col row c m.pixels }) a
        ≡ draw_char stride col row c (picture m) a
  picture_apart c apart a = elim (Bool-cases m.cursor_visible) [
    | inr unseen ↦
        ap (λ (q : Pixels). q a)
          (picture-hidden (record m { pixels = draw_char stride col row c m.pixels }) unseen
            ∙ ap (draw_char stride col row c) (sym (picture-hidden m unseen)))
    | inl seen ↦
        ap (λ (q : Pixels). q a)
          (picture-shown (record m { pixels = draw_char stride col row c m.pixels }) seen
            ∙ erase_from_pixels m _ 96 0 _)
        ∙ elim (erase_from_split m 96 0 a) [
          | inl kept ↦
              kept (draw_char stride col row c m.pixels)
              ∙ draw_char_local stride col row wide small c a m.pixels (erase_from m 96 0 m.pixels)
                  (sym (kept m.pixels))
          | inr (at, same) ↦
              same (draw_char stride col row c m.pixels) m.pixels
              ∙ elim (draw_char_split stride col row wide small c a) [
                | inl kept ↦ sym (kept (erase_from m 96 0 m.pixels))
                | inr (i, j, hi, hj, e) ↦ absurd (cursor_apart a i j (apart seen) at hi hj e)
              ]
        ]
        ∙ ap (λ q. draw_char stride col row c q a) (sym (picture-shown m seen))
  ]
