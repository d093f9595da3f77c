-- ===== src/Keyboard/Defs.antt =====
-- The keyboard driver of kernel/drivers/keyboard.c and the key codes of keyboard.h.
-- The byte that the port gives is an argument of the handler.
use micro_os.Base.{
  ℕ, ◌+◌, ◌-◌, ◌%◌, Bool, true, false, not, ◌&&◌, ◌||◌, Option, none, some, List, [], ◌∷◌, ◌==◌,
  leb, if◌then◌else◌, get_or, set,
}

abbrev pub key_up : ℕ
key_up = 0x80

abbrev pub key_down : ℕ
key_down = 0x81

abbrev pub key_left : ℕ
key_left = 0x82

abbrev pub key_right : ℕ
key_right = 0x83

abbrev pub key_home : ℕ
key_home = 0x84

abbrev pub key_end : ℕ
key_end = 0x85

abbrev pub key_insert : ℕ
key_insert = 0x86

abbrev pub key_delete : ℕ
key_delete = 0x87

abbrev pub key_pgup : ℕ
key_pgup = 0x88

abbrev pub key_pgdn : ℕ
key_pgdn = 0x89

abbrev pub key_f1 : ℕ
key_f1 = 0x8A

abbrev pub key_f11 : ℕ
key_f11 = 0x94

abbrev pub key_f12 : ℕ
key_f12 = 0x95

abbrev pub kbd_buffer_size : ℕ
kbd_buffer_size = 256

pub record Keyboard : Type 0 where
  pub kbd_buffer : List ℕ
  pub kbd_read : ℕ
  pub kbd_write : ℕ
  pub shift_held : Bool
  pub caps_on : Bool
  pub ctrl_held : Bool
  pub alt_held : Bool
  pub numlock_on : Bool
  pub extended : Bool

-- The two layouts; the codes after the last entry have none.
abbrev pub scancode_map : List ℕ
scancode_map =
    0 ∷ 27 ∷ b'1' ∷ b'2' ∷ b'3' ∷ b'4' ∷ b'5' ∷ b'6' ∷ b'7' ∷ b'8' ∷ b'9' ∷ b'0' ∷ b'-' ∷ b'=' ∷ 8
    ∷ 9 ∷ b'q' ∷ b'w' ∷ b'e' ∷ b'r' ∷ b't' ∷ b'y' ∷ b'u' ∷ b'i' ∷ b'o' ∷ b'p' ∷ b'[' ∷ b']' ∷ 10 ∷ 0
    ∷ b'a' ∷ b's' ∷ b'd' ∷ b'f' ∷ b'g' ∷ b'h' ∷ b'j' ∷ b'k' ∷ b'l' ∷ b';' ∷ 39 ∷ b'`' ∷ 0 ∷ 92
    ∷ b'z' ∷ b'x' ∷ b'c' ∷ b'v' ∷ b'b' ∷ b'n' ∷ b'm' ∷ b',' ∷ b'.' ∷ b'/' ∷ 0 ∷ b'*' ∷ 0 ∷ b' ' ∷ 0
    ∷ 0 ∷ 0 ∷ 0 ∷ 0 ∷ 0 ∷ 0 ∷ 0 ∷ 0 ∷ 0 ∷ 0 ∷ 0 ∷ 0 ∷ b'7' ∷ b'8' ∷ b'9' ∷ b'-' ∷ b'4' ∷ b'5' ∷ b'6'
    ∷ b'+' ∷ b'1' ∷ b'2' ∷ b'3' ∷ b'0' ∷ b'.' ∷ []

abbrev pub scancode_map_shift : List ℕ
scancode_map_shift =
    0 ∷ 27 ∷ b'!' ∷ b'@' ∷ b'#' ∷ b'$' ∷ b'%' ∷ b'^' ∷ b'&' ∷ b'*' ∷ b'(' ∷ b')' ∷ b'_' ∷ b'+' ∷ 8
    ∷ 9 ∷ b'Q' ∷ b'W' ∷ b'E' ∷ b'R' ∷ b'T' ∷ b'Y' ∷ b'U' ∷ b'I' ∷ b'O' ∷ b'P' ∷ b'{' ∷ b'}' ∷ 10 ∷ 0
    ∷ b'A' ∷ b'S' ∷ b'D' ∷ b'F' ∷ b'G' ∷ b'H' ∷ b'J' ∷ b'K' ∷ b'L' ∷ b':' ∷ 34 ∷ b'~' ∷ 0 ∷ b'|'
    ∷ b'Z' ∷ b'X' ∷ b'C' ∷ b'V' ∷ b'B' ∷ b'N' ∷ b'M' ∷ b'<' ∷ b'>' ∷ b'?' ∷ 0 ∷ b'*' ∷ 0 ∷ b' ' ∷ 0
    ∷ 0 ∷ 0 ∷ 0 ∷ 0 ∷ 0 ∷ 0 ∷ 0 ∷ 0 ∷ 0 ∷ 0 ∷ 0 ∷ 0 ∷ b'7' ∷ b'8' ∷ b'9' ∷ b'-' ∷ b'4' ∷ b'5' ∷ b'6'
    ∷ b'+' ∷ b'1' ∷ b'2' ∷ b'3' ∷ b'0' ∷ b'.' ∷ []

-- A function key, or 0.
unfoldable pub fkey_map : ℕ → ℕ
fkey_map sc =
    if leb 0x3B sc && leb sc 0x44
    then key_f1 + (sc - 0x3B)
    else if sc == 0x57
    then key_f11
    else if sc == 0x58
    then key_f12
    else 0

unfoldable pub kbd_push : Keyboard → ℕ → Keyboard
kbd_push k c =
    let next = (k.kbd_write + 1) % kbd_buffer_size in
    if next == k.kbd_read
    then k
    else record k { kbd_buffer = set k.kbd_buffer k.kbd_write c; kbd_write = next }

abbrev pub is_lower : ℕ → Bool
is_lower c = leb b'a' c && leb c b'z'

abbrev pub is_upper : ℕ → Bool
is_upper c = leb b'A' c && leb c b'Z'

unfoldable pub is_letter : ℕ → Bool
is_letter c = is_lower c || is_upper c

unfoldable pub to_upper : ℕ → ℕ
to_upper c = if is_lower c then c - 32 else c

unfoldable pub to_lower : ℕ → ℕ
to_lower c = if is_upper c then c + 32 else c

-- A `switch` that pushes a key: the cases, and the key of `code`.
unfoldable pub case_of : List (ℕ × ℕ) → ℕ → Option ℕ
case_of [] code = none
case_of ((case, key) ∷ cases) code = if case == code then some key else case_of cases code

abbrev pub extended_keys : List (ℕ × ℕ)
extended_keys =
    (0x48, key_up)
    ∷ (0x50, key_down)
    ∷ (0x4B, key_left)
    ∷ (0x4D, key_right)
    ∷ (0x47, key_home)
    ∷ (0x4F, key_end)
    ∷ (0x49, key_pgup)
    ∷ (0x51, key_pgdn)
    ∷ (0x52, key_insert)
    ∷ (0x53, key_delete)
    ∷ (0x1C, 10)
    ∷ (0x35, b'/')
    ∷ []

abbrev pub numpad_keys : List (ℕ × ℕ)
numpad_keys =
    (0x47, key_home)
    ∷ (0x48, key_up)
    ∷ (0x49, key_pgup)
    ∷ (0x4B, key_left)
    ∷ (0x4D, key_right)
    ∷ (0x4F, key_end)
    ∷ (0x50, key_down)
    ∷ (0x51, key_pgdn)
    ∷ (0x52, key_insert)
    ∷ (0x53, key_delete)
    ∷ []

abbrev pub push_if : Keyboard → Option ℕ → Keyboard
push_if k none = k
push_if k (some key) = kbd_push k key

-- A code after the prefix 0xE0.
unfoldable pub extended_key : Keyboard → Bool → ℕ → Keyboard
extended_key k release code =
    if release
    then (if code == 0x1D
        then record k { ctrl_held = false }
        else if code == 0x38
        then record k { alt_held = false }
        else k)
    else if code == 0x1D
    then record k { ctrl_held = true }
    else if code == 0x38
    then record k { alt_held = true }
    else push_if k (case_of extended_keys code)

-- The character that a key makes, with Shift and Caps Lock; 0 for none.
unfoldable pub char_of : Bool → Bool → ℕ → ℕ
char_of shift caps code =
    let c = (if shift then get_or scancode_map_shift code 0 else get_or scancode_map code 0) in
    if caps && is_letter c then (if shift then to_lower c else to_upper c) else c

-- What Ctrl makes of it.
unfoldable pub with_ctrl : Bool → ℕ → ℕ
with_ctrl ctrl c =
    if ctrl && is_lower c then c - b'a' + 1 else if ctrl && is_upper c then c - b'A' + 1 else c

unfoldable pub type_char : Keyboard → ℕ → Keyboard
type_char k code =
    let c = char_of k.shift_held k.caps_on code in
    if c == 0 then k else kbd_push k (with_ctrl k.ctrl_held c)

-- A key pressed that is no modifier.
unfoldable pub press : Keyboard → ℕ → Keyboard
press k code =
    if code == 0x3A
    then record k { caps_on = not k.caps_on }
    else if code == 0x45
    then record k { numlock_on = not k.numlock_on }
    else if not (fkey_map code == 0)
    then kbd_push k (fkey_map code)
    else if leb 0x47 code && (leb code 0x53 && not k.numlock_on)
    then elim (case_of numpad_keys code) [ none ↦ type_char k code | some key ↦ kbd_push k key ]
    else type_char k code

unfoldable pub plain_key : Keyboard → Bool → ℕ → Keyboard
plain_key k release code =
    if (code == 0x2A) || (code == 0x36)
    then record k { shift_held = not release }
    else if code == 0x1D
    then record k { ctrl_held = not release }
    else if code == 0x38
    then record k { alt_held = not release }
    else if release
    then k
    else press k code

unfoldable pub keyboard_handler : Keyboard → ℕ → Keyboard
keyboard_handler k sc =
    if sc == 0xE0
    then record k { extended = true }
    else if k.extended
    then extended_key (record k { extended = false }) (leb 128 sc) (sc % 128)
    else plain_key k (leb 128 sc) (sc % 128)

-- The state that `keyboard_init` sets.
unfoldable pub keyboard_init : Keyboard → Keyboard
keyboard_init k = record k {
  kbd_read = 0;
  kbd_write = 0;
  shift_held = false;
  caps_on = false;
  ctrl_held = false;
  alt_held = false;
  numlock_on = true;
  extended = false;
}

unfoldable pub keyboard_has_key : Keyboard → Bool
keyboard_has_key k = not (k.kbd_read == k.kbd_write)

-- `none` while the buffer is empty, where the code waits for an interrupt.
unfoldable pub keyboard_getchar : Keyboard → Option ℕ × Keyboard
keyboard_getchar k = if k.kbd_read == k.kbd_write then (none, k) else (
  some (get_or k.kbd_buffer k.kbd_read 0),
  record k { kbd_read = (k.kbd_read + 1) % kbd_buffer_size },
)

unfoldable pub keyboard_flush : Keyboard → Keyboard
keyboard_flush k = record k { kbd_read = k.kbd_write }
