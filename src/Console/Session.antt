-- ===== src/Console/Session.antt =====
-- Characters, batches and interrupts of the mouse in any order: what the console shows.
use micro_os.Base.{
  ℕ, zero, suc, ◌+◌, ◌-◌, ◌*◌, ◌/◌, ◌%◌, ◌<◌, ◌≤◌, ◌≡◌, ◌≢◌, ◌∙◌, subst, refl, sym, ap, Bool, true,
  false, not, ◌&&◌, List, [], ◌∷◌, set, get_or, ◌==◌, ltb, if◌then◌else◌, if_true, arith,
}
use micro_os.Mouse.Defs.{
  Pixels, Mouse, erase_cell, erase_from, erase_cursor, draw_cursor, clamp, forward, backward, flag,
  handle_packet, mouse_handler, redraw,
}
use micro_os.Console.Defs.{
  u32, Console, console_putchar, console_begin_batch, console_end_batch, console_is_writing,
}
use micro_os.Console.Picture.{picture, picture-hidden}
use micro_os.Console.Guard.{
  Coherent, leave_lem, enter_lem, with_guard, redrawn, hidden, worked, erase_cursor-lem,
  unseen_same, picture-redrawn, redrawn-Coherent,
}
use micro_os.Console.Screen.{Terminal, typed, typed_all, Shows, IsInside}
use micro_os.Console.Putchar.{Size, type_one}

pub data Event : Type 0 where
  key : ℕ → Event
  irq : (status byte : ℕ) → Event
  begin : Event
  end : Event

-- `irq` is interrupt 12, which the processor takes between two calls.
unfoldable pub occurs : Console → Event → Console
occurs s (key c) = console_putchar s c
occurs s (irq status byte) = record s {
  mouse = mouse_handler s.mouse status byte (console_is_writing s);
}
occurs s begin = console_begin_batch s
occurs s end = console_end_batch s

unfoldable pub session : Console → List Event → Console
session s [] = s
session s (e ∷ events) = session (occurs s e) events

-- What an interrupt of the mouse leaves as it is.
pub record Keeps (ready : Bool) (depth : ℕ) (m m' : Mouse) : Type 0 where
  pub coherent : Coherent ready depth m'
  pub pitch : m'.pitch ≡ m.pitch
  pub width : m'.screen_w ≡ m.screen_w
  pub picture_same : (a : ℕ) → picture m' a ≡ picture m a

-- A mouse with another pointer, packet and buttons.
module _ (m : Mouse) (px py dx dy idx : ℕ) (l r mid : Bool) (packet : List ℕ) where
  abbrev others : Mouse
  others = record m {
    mouse_px = px;
    mouse_py = py;
    btn_left = l;
    btn_right = r;
    btn_middle = mid;
    last_dx = dx;
    last_dy = dy;
    packet = packet;
    packet_idx = idx;
  }

  erase_from_others : (left k : ℕ) (p : Pixels) → erase_from others left k p ≡ erase_from m left k p
  unfolding erase_from erase_cell
  erase_from_others zero k p = refl
  erase_from_others (suc left) k p = erase_from_others left (k + 1) (erase_cell m k p)

  picture-others : (a : ℕ) → picture others a ≡ picture m a
  unfolding picture erase_cursor
  picture-others a =
      by (not m.cursor_visible) others _ m _ refl
        (ap (λ (q : Pixels). q a) (erase_from_others 96 0 m.pixels))
    where
      by :
          (b : Bool) (m1 m2 n1 n2 : Mouse)
          → m1.pixels a ≡ n1.pixels a
          → m2.pixels a ≡ n2.pixels a
          → (if b then m1 else m2).pixels a ≡ (if b then n1 else n2).pixels a
      by true m1 m2 n1 n2 p q = p
      by false m1 m2 n1 n2 p q = q

  module _ (narrow : m.screen_w ≤ m.pitch) (depth : ℕ) (h : Coherent true depth m) where
    -- With the console writing, only the pointer moves; otherwise the cursor is drawn where it is.
    redraw-Keeps :
        (writing : Bool)
        → (writing ≡ true → depth ≢ 0)
        → (writing ≡ false → depth ≡ 0)
        → Keeps true depth m (redraw others writing)
    unfolding draw_cursor
    redraw-Keeps true busy idle = record {
      coherent = record {
        not_ready = λ e. absurd (cc e);
        hidden = h.hidden;
        at_pointer = λ seen. absurd (cc (seen, h.hidden (busy refl)));
      };
      pitch = refl;
      width = refl;
      picture_same = picture-others;
    }
    redraw-Keeps false busy idle =
        subst (Keeps true depth m) (sym (ap (λ k. draw_cursor k px py) (erase_cursor-lem others)))
          (record {
            coherent =
                subst (λ d. Coherent true d (redrawn true (worked (λ p. p) others)))
                  (sym (idle refl)) (redrawn-Coherent (λ p. p) true 0 others);
            pitch = refl;
            width = refl;
            picture_same = λ a. picture-redrawn (λ p. p) true others narrow a ∙ picture-others a;
          })

    -- Nothing on the screen changes, nor the pointer.
    still-Keeps : px ≡ m.mouse_px → py ≡ m.mouse_py → Keeps true depth m others
    still-Keeps ex ey = record {
      coherent = record {
        not_ready = h.not_ready;
        hidden = h.hidden;
        at_pointer = λ seen. let (x, y) = h.at_pointer seen in (x ∙ sym ex, y ∙ sym ey);
      };
      pitch = refl;
      width = refl;
      picture_same = picture-others;
    }

module _ (depth : ℕ) (m : Mouse) (h : Coherent true depth m) (narrow : m.screen_w ≤ m.pitch)
    (writing : Bool) (busy : writing ≡ true → depth ≢ 0) (idle : writing ≡ false → depth ≡ 0) where
  branch :
      (b : Bool) (m1 m2 : Mouse)
      → Keeps true depth m m1
      → Keeps true depth m m2
      → Keeps true depth m (if b then m1 else m2)
  branch true m1 m2 p q = p
  branch false m1 m2 p q = q

  same : Keeps true depth m m
  same = record { coherent = h; pitch = refl; width = refl; picture_same = λ a. refl }

  mouse_handler-Keeps : (status byte : ℕ) → Keeps true depth m (mouse_handler m status byte writing)
  unfolding mouse_handler handle_packet
  mouse_handler-Keeps status byte =
      let packet = set m.packet m.packet_idx byte in
      let flags = get_or packet 0 0 in
      let still = λ (idx : ℕ).
        still-Keeps m m.mouse_px m.mouse_py m.last_dx m.last_dy idx m.btn_left m.btn_right
          m.btn_middle packet narrow depth h refl refl in
      branch (not (flag status 32)) m _ same (
        branch (ltb (m.packet_idx + 1) 3) _ _ (still (m.packet_idx + 1)) (
          branch (not (flags / 64 == 0)) _ _ (still 0) (
            branch (not (flag flags 8)) _ _ (still 0) (
              redraw-Keeps m
                (clamp (forward m.mouse_px (get_or packet 1 0) (flag flags 16)) m.screen_w)
                (clamp (backward m.mouse_py (get_or packet 2 0) (flag flags 32)) m.screen_h)
                (get_or packet 1 0) (get_or packet 2 0) 0 (flag flags 1) (flag flags 2)
                (flag flags 4) packet narrow depth h writing busy idle))))

-- Showing the cursor at the end of a batch.
shown-Keeps :
    (d : ℕ) (m : Mouse)
    → m.cursor_visible ≡ false
    → m.screen_w ≤ m.pitch
    → Keeps true d m (redrawn (true && d == 0) m)
unfolding draw_cursor
shown-Keeps d m unseen narrow =
    subst (λ k. Keeps true d m (redrawn (true && d == 0) k)) (sym (unseen_same m unseen))
      (record {
        coherent = redrawn-Coherent (λ p. p) true d m;
        pitch = either (d == 0) (λ k. k.pitch) refl;
        width = either (d == 0) (λ k. k.screen_w) refl;
        picture_same = picture-redrawn (λ p. p) (true && d == 0) m narrow;
      })
  where
    either :
        (b : Bool) (f : Mouse → ℕ)
        → f (redrawn true (worked (λ p. p) m)) ≡ f (redrawn false (worked (λ p. p) m))
        → f (redrawn b (worked (λ p. p) m)) ≡ f (redrawn false (worked (λ p. p) m))
    either true f e = e
    either false f e = refl

-- No overflow of the count of nested batches, and no end of a batch without its begin.
abbrev pub Nested : ℕ → List Event → Type 0
Nested depth [] = Unit
Nested depth (key c ∷ events) = Nested depth events
Nested depth (irq status byte ∷ events) = Nested depth events
Nested depth (begin ∷ events) = (depth + 1 < 2147483647) × Nested (depth + 1) events
Nested depth (end ∷ events) = (0 < depth) × Nested (depth - 1) events

-- The characters among the events.
abbrev pub typed_in : List Event → List ℕ
typed_in [] = []
typed_in (key c ∷ events) = c ∷ typed_in events
typed_in (irq status byte ∷ events) = typed_in events
typed_in (begin ∷ events) = typed_in events
typed_in (end ∷ events) = typed_in events

-- A state with the mouse ready that shows the terminal, in a batch of the given depth.
pub record Running (cols rows depth : ℕ) (s : Console) (t : Terminal) : Type 0 where
  pub shows : Shows s t
  pub size : Size cols rows s
  pub inside : IsInside cols rows t
  pub ready : s.mouse_ready ≡ true
  pub level : s.cursor_hidden_depth ≡ depth
  pub few : depth < 2147483647

module _ (cols rows depth : ℕ) (s : Console) (t : Terminal) (r : Running cols rows depth s t) where
  -- A change of the mouse and of the depth that keeps the picture.
  changed :
      (d : ℕ) (m : Mouse)
      → d < 2147483647
      → Keeps true d s.mouse m
      → Running cols rows d (with_guard s d m) t
  changed d m few k = record {
    shows = record {
      fits = record {
        rows_of_pixels = r.shows.fits.rows_of_pixels;
        wide = r.shows.fits.wide;
        size = r.shows.fits.size;
        columns = r.shows.fits.columns;
        lines = r.shows.fits.lines;
        some_column = r.shows.fits.some_column;
        some_line = r.shows.fits.some_line;
        mouse_pitch = k.pitch ∙ r.shows.fits.mouse_pitch;
        mouse_width = omega (arith, k.width, r.shows.fits.mouse_width);
      };
      depth = omega (arith, few);
      coherent = subst (λ b. Coherent b d m) (sym r.ready) k.coherent;
      column = r.shows.column;
      line = r.shows.line;
      pixels = λ x y hx hy. k.picture_same (y * s.g_stride + x) ∙ r.shows.pixels x y hx hy;
    };
    size = r.size;
    inside = r.inside;
    ready = r.ready;
    level = refl;
    few = few;
  }

  narrow : s.mouse.screen_w ≤ s.mouse.pitch
  narrow = let f = r.shows.fits in omega (arith, f.mouse_width, f.mouse_pitch)

  coherent : Coherent true s.cursor_hidden_depth s.mouse
  coherent = subst (λ b. Coherent b s.cursor_hidden_depth s.mouse) r.ready r.shows.coherent

  irq-Running : (status byte : ℕ) → Running cols rows depth (occurs s (irq status byte)) t
  unfolding occurs console_is_writing
  irq-Running status byte =
      subst (λ d. Running cols rows d (occurs s (irq status byte)) t) r.level
        (changed s.cursor_hidden_depth _ (omega (arith, r.few, r.level)) (
          mouse_handler-Keeps s.cursor_hidden_depth s.mouse coherent narrow (console_is_writing s)
            (λ e. ground (arith, e)) (λ e. ground (arith, e, r.few, r.level)) status byte))

  begin-Running : depth + 1 < 2147483647 → Running cols rows (depth + 1) (occurs s begin) t
  unfolding occurs console_begin_batch
  begin-Running few =
      subst (λ u. Running cols rows (depth + 1) u t) (sym (enter_lem s r.shows.coherent))
        (subst (λ d. Running cols rows (depth + 1) (with_guard s d (hidden s.mouse)) t)
          (sym (if_true s.mouse_ready _ _ r.ready ∙ omega (arith, few, r.level)))
          (changed (depth + 1) (hidden s.mouse) few (record {
            coherent = record {
              not_ready = λ _. refl;
              hidden = λ _. refl;
              at_pointer = λ e. absurd (cc e);
            };
            pitch = refl;
            width = refl;
            picture_same = λ a. ap (λ (q : Pixels). q a) (picture-hidden (hidden s.mouse) refl);
          })))

  end-Running : 0 < depth → Running cols rows (depth - 1) (occurs s end) t
  unfolding occurs console_end_batch
  end-Running some =
      let unseen : s.mouse.cursor_visible ≡ false =
        r.shows.coherent.hidden (λ e. absurd (omega (arith, e, r.level, some))) in
      let up : (s.cursor_hidden_depth + u32 - 1) % u32 ≡ depth - 1 =
        omega (arith, r.level, some, r.few) in
      subst (λ u. Running cols rows (depth - 1) u t) (sym (leave_lem s unseen))
        (subst
          (λ d.
            Running cols rows (depth - 1)
              (with_guard s d
                (redrawn (s.mouse_ready && (s.cursor_hidden_depth + u32 - 1) % u32 == 0) s.mouse))
              t)
          (sym (if_true s.mouse_ready _ _ r.ready ∙ up))
          (changed (depth - 1) _ (omega (arith, r.few)) (
            subst (λ b. Keeps true (depth - 1) s.mouse (redrawn b s.mouse))
              (sym (
                ap (λ b. b && (s.cursor_hidden_depth + u32 - 1) % u32 == 0) r.ready
                ∙ ap (λ k. k == 0) up))
              (shown-Keeps (depth - 1) s.mouse unseen narrow))))

  key-Running : (c : ℕ) → Running cols rows depth (occurs s (key c)) (typed cols rows t c)
  unfolding occurs
  key-Running c =
      let (shown, steady, inside) = type_one cols rows s t c r.shows r.size r.inside in
      record {
        shows = shown;
        size = (steady.0 ∙ r.size.0, steady.1 ∙ r.size.1);
        inside = inside;
        ready = steady.2 ∙ r.ready;
        level = steady.3 ∙ r.level;
        few = r.few;
      }

-- With the mouse ready, an entered depth within bounds and the batches nested, from a state that
-- shows a terminal with its cursor inside: in any order of characters, interrupts of the mouse and
-- batches the picture under the mouse cursor is, with the cursor of the text, that of the terminal
-- to which the characters alone were typed.
pub session-Shows :
    (events : List Event) (cols rows depth : ℕ) (s : Console) (t : Terminal)
    → Running cols rows depth s t
    → Nested depth events
    → Shows (session s events) (typed_all cols rows t (typed_in events))
unfolding session typed_all
session-Shows [] cols rows depth s t r n = r.shows
session-Shows (key c ∷ events) cols rows depth s t r n =
    session-Shows events cols rows depth (occurs s (key c)) (typed cols rows t c)
      (key-Running cols rows depth s t r c) n
session-Shows (irq status byte ∷ events) cols rows depth s t r n =
    session-Shows events cols rows depth (occurs s (irq status byte)) t
      (irq-Running cols rows depth s t r status byte) n
session-Shows (begin ∷ events) cols rows depth s t r n =
    session-Shows events cols rows (depth + 1) (occurs s begin) t
      (begin-Running cols rows depth s t r n.0) n.1
session-Shows (end ∷ events) cols rows depth s t r n =
    session-Shows events cols rows (depth - 1) (occurs s end) t
      (end-Running cols rows depth s t r n.0) n.1
