-- ===== src/Mouse/Position.antt =====
-- The pointer stays on the screen.
use micro_os.Base.{
  ℕ, ◌+◌, ◌<◌, ◌≡◌, ◌/◌, inl, inr, refl, ap, ◌∙◌, Bool, true, false, not, List, [], ◌∷◌, ◌==◌, ltb,
  if◌then◌else◌, length, length-set, Bool-cases, arith,
}
use micro_os.Mouse.Defs.{
  Mouse, flag, clamp, forward, backward, redraw, draw_cursor, erase_cursor, handle_packet,
  mouse_handler,
}

-- The pointer is on the screen, and the next byte of a packet has its place.
pub record IsValid (s : Mouse) : Type 0 where
  pub on_x : s.mouse_px < s.screen_w
  pub on_y : s.mouse_py < s.screen_h
  pub next : s.packet_idx < 3
  pub size : length s.packet ≡ 3

-- The fields that drawing leaves alone.
record Same (s s' : Mouse) : Type 0 where
  px : s'.mouse_px ≡ s.mouse_px
  py : s'.mouse_py ≡ s.mouse_py
  w : s'.screen_w ≡ s.screen_w
  h : s'.screen_h ≡ s.screen_h
  idx : s'.packet_idx ≡ s.packet_idx
  pkt : s'.packet ≡ s.packet

Same-IsValid : (s s' : Mouse) → Same s s' → IsValid s → IsValid s'
Same-IsValid s s' e v = record {
  on_x = omega (arith, e.px, e.w, v.on_x);
  on_y = omega (arith, e.py, e.h, v.on_y);
  next = omega (arith, e.idx, v.next);
  size = ap (length {A = ℕ}) e.pkt ∙ v.size;
}

after_erase : (s s1 : Mouse) (b : Bool) → Same s s1 → Same s (if not b then s else s1)
after_erase s s1 true e = e
after_erase s s1 false e = record {
  px = refl;
  py = refl;
  w = refl;
  h = refl;
  idx = refl;
  pkt = refl;
}

redraw-Same : (s : Mouse) (writing : Bool) → Same s (redraw s writing)
unfolding draw_cursor erase_cursor
redraw-Same s true = record { px = refl; py = refl; w = refl; h = refl; idx = refl; pkt = refl }
redraw-Same s false =
    let e =
      after_erase s _ s.cursor_visible
        (record { px = refl; py = refl; w = refl; h = refl; idx = refl; pkt = refl }) in
    record { px = e.px; py = e.py; w = e.w; h = e.h; idx = e.idx; pkt = e.pkt }

clamp_bound : (x size : ℕ) → 0 < size → clamp x size < size
clamp_bound x size h = ground arith

handle_packet-IsValid :
    (s : Mouse) (writing : Bool) (flags x y : ℕ)
    → IsValid s
    → IsValid (handle_packet s writing flags x y)
unfolding handle_packet
handle_packet-IsValid s writing flags x y v = elim (Bool-cases (flags / 64 == 0)) [
  | inr overflow ↦ rw overflow v
  | inl small ↦ elim (Bool-cases (flag flags 8)) [
    | inr bad ↦ rw (small, bad) v
    | inl good ↦
        rw (small, good)
          (Same-IsValid _ _ (redraw-Same _ writing) (record {
            on_x =
                clamp_bound (forward s.mouse_px x (flag flags 16)) s.screen_w
                  (omega (arith, v.on_x));
            on_y =
                clamp_bound (backward s.mouse_py y (flag flags 32)) s.screen_h
                  (omega (arith, v.on_y));
            next = v.next;
            size = v.size;
          }))
  ]
]

-- The bytes that arrive, each with the status and whether the console is writing.
unfoldable pub handle_all : Mouse → List (ℕ × ℕ × Bool) → Mouse
handle_all s [] = s
handle_all s ((status, byte, writing) ∷ bytes) =
    handle_all (mouse_handler s status byte writing) bytes

mouse_handler-IsValid :
    (s : Mouse) (status byte : ℕ) (writing : Bool)
    → IsValid s
    → IsValid (mouse_handler s status byte writing)
unfolding mouse_handler
mouse_handler-IsValid s status byte writing v =
    let n = v.next in
    let size = length-set s.packet s.packet_idx byte ∙ v.size in
    elim (Bool-cases (flag status 32)) [
      | inr other ↦ rw other v
      | inl mouse ↦ elim (Bool-cases (ltb (s.packet_idx + 1) 3)) [
        | inl part ↦
            rw (mouse, part)
              (record { on_x = v.on_x; on_y = v.on_y; next = ground (arith, part); size = size })
        | inr full ↦
            rw (mouse, full)
              (handle_packet-IsValid _ writing _ _ _
                (record { on_x = v.on_x; on_y = v.on_y; next = omega arith; size = size }))
      ]
    ]

-- Whatever bytes arrive, the pointer stays on the screen and no byte is written past the packet.
pub handle_all-IsValid :
    (bytes : List (ℕ × ℕ × Bool)) (s : Mouse) → IsValid s → IsValid (handle_all s bytes)
unfolding handle_all
handle_all-IsValid [] s v = v
handle_all-IsValid ((status, byte, writing) ∷ bytes) s v =
    handle_all-IsValid bytes (mouse_handler s status byte writing)
      (mouse_handler-IsValid s status byte writing v)
