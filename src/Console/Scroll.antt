-- ===== src/Console/Scroll.antt =====
-- What `scroll_up` and the clearing of `console_clear` do to each pixel.
use micro_os.Base.{
  ℕ, ◌+◌, ◌-◌, ◌*◌, ◌/◌, ◌%◌, ◌<◌, ◌≤◌, ◌≡◌, ◌∙◌, subst, inl, inr, sym, ap, ltb, if◌then◌else◌,
  Bool-cases, arith,
}
use micro_os.Str.Defs.{memset, memcpy}
use micro_os.Str.Move.{copy_up-moved, memset_lem}
use micro_os.Mouse.Defs.{Pixels}
use micro_os.Console.Defs.{u32, Framebuffer, scroll_up}

grow : (a c : ℕ) → 1 ≤ c → a ≤ a * c
grow a c h = grind arith

four : (a b : ℕ) → a * (b * 4) ≡ 4 * (a * b)
four a b = grind arith

take_rows : (h k stride : ℕ) → k ≤ h → (h - k) * stride + k * stride ≡ h * stride
take_rows h k stride le = sym (spread (h - k) k stride) ∙ ap (λ t. t * stride) (omega arith)
  where
    spread : (a b c : ℕ) → (a + b) * c ≡ a * c + b * c
    spread a b c = grind arith

-- A pixel of row `y` lies before row `n` exactly when `y` does.
before_row : (stride x y n : ℕ) → x < stride → ltb (y * stride + x) (n * stride) ≡ ltb y n
before_row stride x y n hx = elim (Bool-cases (ltb y n)) [
  | inl before ↦
      rw before (
        ground
          (arith, take_rows n (y + 1) stride, grow_rows (n - (y + 1)) stride, hx, one y stride))
  | inr behind ↦ rw behind (ground (arith, take_rows y n stride, grow_rows (y - n) stride))
]
  where
    grow_rows : (a c : ℕ) → 0 ≤ a * c
    grow_rows a c = omega arith

    one : (y stride : ℕ) → (y + 1) * stride ≡ y * stride + stride
    one y stride = grind arith

-- A framebuffer whose rows are `stride` pixels, at least one text row high, with byte counts that do not wrap.
module _ (fb : Framebuffer) (stride : ℕ) (rows : fb.pitch ≡ stride * 4) (tall : 16 ≤ fb.height)
    (small : fb.height * fb.pitch < u32) (some_pixel : 1 ≤ stride) where
  -- The pixels that are moved, and those of the last sixteen rows.
  copy_words : ((fb.height + u32 - 16) % u32 * fb.pitch % u32) / 4 ≡ (fb.height - 16) * stride
  copy_words =
      let h : fb.height ≤ fb.height * stride = grow fb.height stride some_pixel in
      let size : 4 * (fb.height * stride) < u32 =
        subst (λ t. t < u32) (ap (λ t. fb.height * t) rows ∙ four fb.height stride) small in
      let back : (fb.height + u32 - 16) % u32 ≡ fb.height - 16 = omega (arith, h, size, tall) in
      rw (back, rows, four (fb.height - 16) stride)
        (omega (arith, take_rows fb.height 16 stride tall, size))

  text_words : (16 * fb.pitch % u32) / 4 ≡ 16 * stride
  text_words =
      let size : 4 * (fb.height * stride) < u32 =
        subst (λ t. t < u32) (ap (λ t. fb.height * t) rows ∙ four fb.height stride) small in
      rw rows (omega (arith, take_rows fb.height 16 stride tall, size))

  pub scroll_up_lem :
      (p : Pixels) (x y : ℕ)
      → x < stride
      → y < fb.height
      → scroll_up fb p (y * stride + x)
        ≡ (if ltb (y + 16) fb.height then p ((y + 16) * stride + x) else 0)
  unfolding scroll_up memcpy
  scroll_up_lem p x y hx hy =
      let kept = before_row stride x y (fb.height - 16) hx in
      let inside = before_row stride x y fb.height hx in
      rw (copy_words, text_words)
        (memset_lem (16 * stride) _ ((fb.height - 16) * stride) 0 (y * stride + x)
          ∙ rw (take_rows fb.height 16 stride tall) (elim (Bool-cases (ltb (y + 16) fb.height)) [
            | inl up ↦ rw up (
                ground (arith, kept, up)
                ∙ copy_up-moved ((fb.height - 16) * stride) p 0 (16 * stride) (y * stride + x)
                    (omega arith)
                ∙ ground (arith, kept, up, ap p (address x y)))
            | inr last ↦ rw last (ground (arith, kept, inside, last, hy))
          ]))
    where
      address : (x y : ℕ) → 16 * stride + (y * stride + x) ≡ (y + 16) * stride + x
      address x y = grind arith

  -- Zeros for the count of bytes that `console_clear` passes to `memset`.
  pub clear_lem :
      (p : Pixels) (x y : ℕ)
      → x < stride
      → y < fb.height
      → memset p 0 0 (fb.height * fb.pitch % u32 / 4) (y * stride + x) ≡ 0
  clear_lem p x y hx hy =
      let size : 4 * (fb.height * stride) < u32 =
        subst (λ t. t < u32) (ap (λ t. fb.height * t) rows ∙ four fb.height stride) small in
      let words : fb.height * fb.pitch % u32 / 4 ≡ fb.height * stride =
        rw (rows, four fb.height stride) (omega (arith, size)) in
      rw words (
        memset_lem (fb.height * stride) p 0 0 (y * stride + x)
        ∙ ground (arith, before_row stride x y fb.height hx, hy))
