-- ===== src/Keyboard/Handler.antt =====
-- What the handler does to the buffer.
use micro_os.Base.{
  OnSome, length, ℕ, ◌%◌, ◌<◌, ◌≡◌, ◌⊎◌, inl, inr, refl, ap, ◌∙◌, Bool, true, false, not, ◌&&◌,
  ◌||◌, Option, none, some, List, [], ◌∷◌, ◌==◌, leb, if◌then◌else◌, Bool-cases, arith,
}
use micro_os.Keyboard.Defs.{
  Keyboard, fkey_map, kbd_push, case_of, extended_keys, numpad_keys, push_if, extended_key, char_of,
  with_ctrl, type_char, press, plain_key, keyboard_handler,
}
use micro_os.Keyboard.Ring.{IsValid, queued, offer, kbd_push-Pushed}
use micro_os.Keyboard.Keys.{is_key, all_below_lem, char_test, char_keys}

-- What a scan code does to the buffer: nothing, or one key is entered.
pub record Handled (k : Keyboard) (release : Bool) (k' : Keyboard) : Type 0 where
  pub valid : IsValid k'
  pub entered :
      (queued k' ≡ queued k) ⊎ ((c : ℕ) × (is_key c ≡ true) × (queued k' ≡ offer (queued k) c))
  pub released : release ≡ true → queued k' ≡ queued k

-- A change of the flags.
flags-Handled :
    (k k' : Keyboard) (release : Bool)
    → k'.kbd_buffer ≡ k.kbd_buffer
    → k'.kbd_read ≡ k.kbd_read
    → k'.kbd_write ≡ k.kbd_write
    → IsValid k
    → Handled k release k'
unfolding queued
flags-Handled k k' release b r w v =
    let same : queued k' ≡ queued k = rw (b, r, w) refl in
    record {
      valid = record {
        size = ap (length {A = ℕ}) b ∙ v.size;
        read = rw r v.read;
        write = rw w v.write;
      };
      entered = inl same;
      released = λ h. same;
    }

push-Handled :
    (k k' : Keyboard) (c : ℕ)
    → IsValid k
    → is_key c ≡ true
    → queued k ≡ queued k'
    → Handled k' false (kbd_push k c)
push-Handled k k' c v ok same =
    let p = kbd_push-Pushed k c v in
    record {
      valid = p.valid;
      entered = inr (c, ok, p.queue ∙ ap (λ q. offer q c) same);
      released = λ h. absurd (cc h);
    }

all_keys : List (ℕ × ℕ) → Bool
all_keys [] = true
all_keys ((case, key) ∷ cases) = is_key key && all_keys cases

case_of-keys :
    (cases : List (ℕ × ℕ)) (code : ℕ)
    → all_keys cases ≡ true
    → OnSome (λ (c : ℕ). is_key c ≡ true) (case_of cases code)
unfolding all_keys case_of
case_of-keys [] code h = tt
case_of-keys ((case, key) ∷ cases) code h = elim (Bool-cases (case == code)) [
  | inl hit ↦ rw hit (ground (arith, h))
  | inr miss ↦ rw miss (case_of-keys cases code (ground (arith, h)))
]

fkey_map-keys : (code : ℕ) → fkey_map code == 0 ≡ false → is_key (fkey_map code) ≡ true
unfolding fkey_map
fkey_map-keys code h = ground arith

module _ (k : Keyboard) (v : IsValid k) (code : ℕ) (h : code < 128) where
  type_char-Handled : Handled k false (type_char k code)
  unfolding type_char char_test
  type_char-Handled =
      let t =
        all_below_lem 128 (char_test k.shift_held k.caps_on k.ctrl_held)
          (char_keys k.shift_held k.caps_on k.ctrl_held) code h in
      elim (Bool-cases (char_of k.shift_held k.caps_on code == 0)) [
        | inl nothing ↦ rw nothing (flags-Handled k k false refl refl refl v)
        | inr char ↦ rw char (
            push-Handled k k (with_ctrl k.ctrl_held (char_of k.shift_held k.caps_on code)) v
              (ground (arith, t, char)) refl)
      ]

  press-Handled : Handled k false (press k code)
  unfolding press all_keys
  press-Handled = elim (Bool-cases (code == 0x3A)) [
    | inl caps ↦ rw caps (flags-Handled k _ false refl refl refl v)
    | inr other1 ↦ elim (Bool-cases (code == 0x45)) [
      | inl num ↦ rw (other1, num) (flags-Handled k _ false refl refl refl v)
      | inr other2 ↦ elim (Bool-cases (fkey_map code == 0)) [
        | inr f_key ↦
            rw (other1, other2, f_key)
              (push-Handled k k (fkey_map code) v (fkey_map-keys code f_key) refl)
        | inl no_f ↦ elim (Bool-cases (leb 0x47 code && (leb code 0x53 && not k.numlock_on))) [
          | inr typing ↦ rw (other1, other2, no_f, typing) type_char-Handled
          | inl pad ↦
              rw (other1, other2, no_f, pad)
                (numpad (case_of numpad_keys code) (case_of-keys numpad_keys code refl))
        ]
      ]
    ]
  ]
    where
      numpad :
          (o : Option ℕ)
          → OnSome (λ (c : ℕ). is_key c ≡ true) o
          → Handled k false (elim o [ none ↦ type_char k code | some key ↦ kbd_push k key ])
      numpad none ok = type_char-Handled
      numpad (some key) ok = push-Handled k k key v ok refl

  plain_key-Handled : (release : Bool) → Handled k release (plain_key k release code)
  unfolding plain_key
  plain_key-Handled release = elim (Bool-cases ((code == 0x2A) || (code == 0x36))) [
    | inl shift ↦ rw shift (flags-Handled k _ release refl refl refl v)
    | inr other1 ↦ elim (Bool-cases (code == 0x1D)) [
      | inl ctrl ↦ rw (other1, ctrl) (flags-Handled k _ release refl refl refl v)
      | inr other2 ↦ elim (Bool-cases (code == 0x38)) [
        | inl alt ↦ rw (other1, other2, alt) (flags-Handled k _ release refl refl refl v)
        | inr other3 ↦ rw (other1, other2, other3) (by_release release)
      ]
    ]
  ]
    where
      by_release : (release : Bool) → Handled k release (if release then k else press k code)
      by_release true = flags-Handled k k true refl refl refl v
      by_release false = press-Handled

extended_key-Handled :
    (k : Keyboard) (release : Bool) (code : ℕ)
    → IsValid k
    → Handled k release (extended_key (record k { extended = false }) release code)
unfolding extended_key queued all_keys
extended_key-Handled k true code v = elim (Bool-cases (code == 0x1D)) [
  | inl ctrl ↦ rw ctrl (flags-Handled k _ true refl refl refl v)
  | inr other1 ↦ elim (Bool-cases (code == 0x38)) [
    | inl alt ↦ rw (other1, alt) (flags-Handled k _ true refl refl refl v)
    | inr other2 ↦ rw (other1, other2) (flags-Handled k _ true refl refl refl v)
  ]
]
extended_key-Handled k false code v = elim (Bool-cases (code == 0x1D)) [
  | inl ctrl ↦ rw ctrl (flags-Handled k _ false refl refl refl v)
  | inr other1 ↦ elim (Bool-cases (code == 0x38)) [
    | inl alt ↦ rw (other1, alt) (flags-Handled k _ false refl refl refl v)
    | inr other2 ↦
        rw (other1, other2)
          (pushed (case_of extended_keys code) (case_of-keys extended_keys code refl))
  ]
]
  where
    pushed :
        (o : Option ℕ)
        → OnSome (λ (c : ℕ). is_key c ≡ true) o
        → Handled k false (push_if (record k { extended = false }) o)
    pushed none ok = flags-Handled k _ false refl refl refl v
    pushed (some key) ok =
        push-Handled (record k { extended = false }) k key
          (record { size = v.size; read = v.read; write = v.write }) ok refl

-- A scan code enters at most one key, which is an ASCII character or one of the special keys and
-- not 0; the code of a release enters none; and the buffer stays valid.
pub keyboard_handler-Handled :
    (k : Keyboard) (sc : ℕ) → IsValid k → Handled k (leb 128 sc) (keyboard_handler k sc)
unfolding keyboard_handler
keyboard_handler-Handled k sc v = elim (Bool-cases (sc == 0xE0)) [
  | inl prefix ↦ rw prefix (flags-Handled k _ (leb 128 sc) refl refl refl v)
  | inr code ↦ rw code (by_prefix k.extended)
]
  where
    by_prefix :
        (extended : Bool)
        → Handled k (leb 128 sc) (
            if extended
            then extended_key (record k { extended = false }) (leb 128 sc) (sc % 128)
            else plain_key k (leb 128 sc) (sc % 128))
    by_prefix true = extended_key-Handled k (leb 128 sc) (sc % 128) v
    by_prefix false = plain_key-Handled k v (sc % 128) (omega arith) (leb 128 sc)
