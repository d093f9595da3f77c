-- ===== src/Console/Guard.antt =====
-- Drawing between `cursor_guard_enter` and `cursor_guard_leave`.
use micro_os.Base.{
  ℕ, ◌+◌, ◌-◌, ◌%◌, ◌<◌, ◌≤◌, ◌≡◌, ◌≢◌, ◌∙◌, subst, inl, inr, refl, sym, ap, Bool, true, false, not,
  ◌&&◌, ◌==◌, if◌then◌else◌, Bool-cases, if_true, if_false, arith,
}
use micro_os.Mouse.Defs.{
  Pixels, Mouse, draw_cursor, erase_cursor, mouse_hide_cursor, mouse_show_cursor,
}
use micro_os.Mouse.Cursor.{other_of, erase_cursor-draw_cursor}
use micro_os.Console.Defs.{u32, Console, with_pixels, cursor_guard_enter, cursor_guard_leave}
use micro_os.Console.Picture.{picture, picture-hidden, erase_cursor-hidden}

-- The cursor is shown only with the mouse ready and no guard entered, and then where the pointer is.
pub record Coherent (ready : Bool) (depth : ℕ) (m : Mouse) : Type 0 where
  pub not_ready : ready ≡ false → m.cursor_visible ≡ false
  pub hidden : depth ≢ 0 → m.cursor_visible ≡ false
  pub at_pointer : m.cursor_visible ≡ true → (m.saved_cx ≡ m.mouse_px) × (m.saved_cy ≡ m.mouse_py)

abbrev pub IsCoherent : Console → Type 0
IsCoherent s = Coherent s.mouse_ready s.cursor_hidden_depth s.mouse

-- What a guard draws on its way out.
abbrev pub redrawn : Bool → Mouse → Mouse
redrawn b m = if b then draw_cursor m m.mouse_px m.mouse_py else m

abbrev pub top : Console → Bool
top s = s.mouse_ready && s.cursor_hidden_depth == 0

-- The mouse with its cursor erased.
abbrev pub hidden : Mouse → Mouse
hidden m = record m { pixels = picture m; cursor_visible = false }

pub unseen_same : (m : Mouse) → m.cursor_visible ≡ false → m ≡ hidden m
unseen_same m h = λ i. record m { pixels = sym (picture-hidden m h) i; cursor_visible = h i }

pub erase_cursor-lem : (m : Mouse) → erase_cursor m ≡ hidden m
unfolding erase_cursor picture
erase_cursor-lem m = elim (Bool-cases m.cursor_visible) [
  | inl seen ↦
      let e = if_false (not m.cursor_visible) m _ (ap not seen) in
      e ∙ sym (ap (λ (t : Mouse). record m { pixels = t.pixels; cursor_visible = false }) e)
  | inr unseen ↦ erase_cursor-hidden m unseen ∙ unseen_same m unseen
]

abbrev pub with_guard : Console → ℕ → Mouse → Console
with_guard s depth m = record s { cursor_hidden_depth = depth; mouse = m }

guard_same :
    (s : Console) {d d' : ℕ} {m m' : Mouse}
    → d ≡ d'
    → m ≡ m'
    → with_guard s d m ≡ with_guard s d' m'
guard_same s p q = λ i. with_guard s (p i) (q i)

-- One level deeper, where the mouse is ready.
abbrev pub deeper : Console → ℕ
deeper s = if s.mouse_ready then (s.cursor_hidden_depth + 1) % u32 else s.cursor_hidden_depth

pub enter_lem :
    (s : Console) → IsCoherent s → cursor_guard_enter s ≡ with_guard s (deeper s) (hidden s.mouse)
unfolding cursor_guard_enter mouse_hide_cursor
enter_lem s h = elim (Bool-cases s.mouse_ready) [
  | inr unready ↦
      if_true (not s.mouse_ready) s _ (ap not unready)
      ∙ guard_same s (sym (if_false s.mouse_ready _ _ unready))
          (unseen_same s.mouse (h.not_ready unready))
  | inl ready ↦
      if_false (not s.mouse_ready) s _ (ap not ready)
      ∙ elim (Bool-cases (s.cursor_hidden_depth == 0)) [
        | inl outer ↦
            if_true (s.cursor_hidden_depth == 0) _ _ outer
            ∙ guard_same s (sym (if_true s.mouse_ready _ _ ready)) (erase_cursor-lem s.mouse)
        | inr inner ↦
            if_false (s.cursor_hidden_depth == 0) _ _ inner
            ∙ guard_same s (sym (if_true s.mouse_ready _ _ ready))
                (unseen_same s.mouse (h.hidden (other_of _ 0 inner)))
      ]
]

-- One level up again, and whether the cursor is shown then.
abbrev pub upper : Console → ℕ
upper s = if s.mouse_ready then (s.cursor_hidden_depth + u32 - 1) % u32 else s.cursor_hidden_depth

pub leave_lem :
    (s : Console)
    → s.mouse.cursor_visible ≡ false
    → cursor_guard_leave s
      ≡ with_guard s
          (upper s)
          (redrawn (s.mouse_ready && (s.cursor_hidden_depth + u32 - 1) % u32 == 0) s.mouse)
unfolding cursor_guard_leave mouse_show_cursor
leave_lem s h = elim (Bool-cases s.mouse_ready) [
  | inr unready ↦
      if_true (not s.mouse_ready) s _ (ap not unready)
      ∙ guard_same s (sym (if_false s.mouse_ready _ _ unready)) (
          sym (
            if_false _ _ s.mouse
              (ap (λ b. b && (s.cursor_hidden_depth + u32 - 1) % u32 == 0) unready)))
  | inl ready ↦
      if_false (not s.mouse_ready) s _ (ap not ready)
      ∙ elim (Bool-cases ((s.cursor_hidden_depth + u32 - 1) % u32 == 0)) [
        | inl outer ↦
            if_true ((s.cursor_hidden_depth + u32 - 1) % u32 == 0) _ _ outer
            ∙ guard_same s (sym (if_true s.mouse_ready _ _ ready)) (
                if_true (not s.mouse.cursor_visible) _ _ (ap not h)
                ∙ sym (
                    if_true _ _ s.mouse
                      (ap (λ b. b && (s.cursor_hidden_depth + u32 - 1) % u32 == 0) ready ∙ outer)))
        | inr inner ↦
            if_false ((s.cursor_hidden_depth + u32 - 1) % u32 == 0) _ _ inner
            ∙ guard_same s (sym (if_true s.mouse_ready _ _ ready)) (
                sym (
                  if_false _ _ s.mouse
                    (ap (λ b. b && (s.cursor_hidden_depth + u32 - 1) % u32 == 0) ready ∙ inner)))
      ]
]

-- The operation `f` on the framebuffer under the guards.
unfoldable pub guarded : (Pixels → Pixels) → Console → Console
guarded f s =
    let s1 = cursor_guard_enter s in cursor_guard_leave (with_pixels s1 (f s1.mouse.pixels))

-- The mouse after the operation, with the cursor hidden.
abbrev pub worked : (Pixels → Pixels) → Mouse → Mouse
worked f m = record m { pixels = f (picture m); cursor_visible = false }

up_again : (d : ℕ) → d < u32 - 1 → ((d + 1) % u32 + u32 - 1) % u32 ≡ d
up_again d h = omega arith

depth_kept :
    (ready : Bool) (d : ℕ)
    → d < u32 - 1
    → (let inside = if ready then (d + 1) % u32 else d in
        if ready then (inside + u32 - 1) % u32 else inside)
      ≡ d
depth_kept true d h = up_again d h
depth_kept false d h = refl

top_kept :
    (ready : Bool) (d : ℕ)
    → d < u32 - 1
    → (ready && ((if ready then (d + 1) % u32 else d) + u32 - 1) % u32 == 0) ≡ (ready && d == 0)
top_kept true d h = ap (λ t. t == 0) (up_again d h)
top_kept false d h = refl

pub guarded_lem :
    (f : Pixels → Pixels) (s : Console)
    → IsCoherent s
    → s.cursor_hidden_depth < u32 - 1
    → guarded f s ≡ record s { mouse = redrawn (top s) (worked f s.mouse) }
unfolding guarded
guarded_lem f s h small =
    ap (λ t. cursor_guard_leave (with_pixels t (f t.mouse.pixels))) (enter_lem s h)
    ∙ leave_lem (with_guard s (deeper s) (worked f s.mouse)) refl
    ∙ guard_same s (depth_kept s.mouse_ready s.cursor_hidden_depth small) (
        ap (λ b. redrawn b (worked f s.mouse)) (top_kept s.mouse_ready s.cursor_hidden_depth small))

-- With the cursor shown again or not, the picture is what `f` made of it.
pub picture-redrawn :
    (f : Pixels → Pixels) (b : Bool) (m : Mouse)
    → m.screen_w ≤ m.pitch
    → (a : ℕ) → picture (redrawn b (worked f m)) a ≡ f (picture m) a
unfolding picture
picture-redrawn f true m wide a = erase_cursor-draw_cursor (worked f m) m.mouse_px m.mouse_py wide a
picture-redrawn f false m wide a = ap (λ (q : Pixels). q a) (picture-hidden (worked f m) refl)

pub redrawn-Coherent :
    (f : Pixels → Pixels) (ready : Bool) (depth : ℕ) (m : Mouse)
    → Coherent ready depth (redrawn (ready && depth == 0) (worked f m))
unfolding draw_cursor
redrawn-Coherent f false depth m = record {
  not_ready = λ _. refl;
  hidden = λ _. refl;
  at_pointer = λ h. absurd (cc h);
}
redrawn-Coherent f true depth m = elim (Bool-cases (depth == 0)) [
  | inl outer ↦ subst (Coherent true depth) (sym (if_true (depth == 0) _ _ outer)) (record {
    not_ready = λ h. absurd (cc h);
    hidden = λ h. absurd (h (ground (arith, outer)));
    at_pointer = λ h. (refl, refl);
  })
  | inr inner ↦
      subst (Coherent true depth) (sym (if_false (depth == 0) _ _ inner))
        (record { not_ready = λ _. refl; hidden = λ _. refl; at_pointer = λ h. absurd (cc h) })
]
