-- ===== src/Keyboard/Keys.antt =====
-- The keys that the layouts give.
use micro_os.Base.{
  ℕ, zero, suc, ◌-◌, ◌<◌, ◌≡◌, inl, inr, refl, Bool, true, false, not, ◌&&◌, ◌||◌, ◌==◌, leb,
  if◌then◌else◌, get_or, Bool-cases, arith,
}
use micro_os.Keyboard.Defs.{
  scancode_map, is_lower, is_letter, to_upper, to_lower, char_of, with_ctrl,
}

-- Every key that the driver can enter.
abbrev pub is_key : ℕ → Bool
is_key c = leb 1 c && leb c 0x95

-- The test holds for all numbers below `n`.
unfoldable pub all_below : ℕ → (ℕ → Bool) → Bool
all_below zero f = true
all_below (suc n) f = f n && all_below n f

pub all_below_lem : (n : ℕ) (f : ℕ → Bool) → all_below n f ≡ true → (i : ℕ) → i < n → f i ≡ true
unfolding all_below
all_below_lem zero f h i hi = absurd (omega arith)
all_below_lem (suc n) f h i hi = elim (Bool-cases (i == n)) [
  | inl last ↦ let e : i ≡ n = ground arith in let at : f n ≡ true = ground (arith, h) in rw e at
  | inr before ↦
      let rest : all_below n f ≡ true = ground (arith, h) in
      all_below_lem n f rest i (ground (arith, before))
]

-- A character that is no control key of Ctrl is a key.
unfoldable pub char_test : Bool → Bool → Bool → ℕ → Bool
char_test shift caps ctrl code =
    let c = char_of shift caps code in (c == 0) || is_key (with_ctrl ctrl c)

pub char_keys : (shift caps ctrl : Bool) → all_below 128 (char_test shift caps ctrl) ≡ true
unfolding all_below char_test char_of with_ctrl is_letter to_upper to_lower
char_keys true true true = refl
char_keys true true false = refl
char_keys true false true = refl
char_keys true false false = refl
char_keys false true true = refl
char_keys false true false = refl
char_keys false false true = refl
char_keys false false false = refl

-- A letter key with the letter `l` below it.
letter_test : Bool → Bool → Bool → ℕ → Bool
letter_test shift caps ctrl code =
    let l = get_or scancode_map code 0 in
    not (is_lower l)
    || (with_ctrl ctrl (char_of shift caps code) == (
        if ctrl
        then l - 96
        else if shift
        then (if caps then l else l - 32)
        else (if caps then l - 32 else l)))

letter_keys : (shift caps ctrl : Bool) → all_below 128 (letter_test shift caps ctrl) ≡ true
unfolding all_below letter_test char_of with_ctrl is_letter to_upper to_lower
letter_keys true true true = refl
letter_keys true true false = refl
letter_keys true false true = refl
letter_keys true false false = refl
letter_keys false true true = refl
letter_keys false true false = refl
letter_keys false false true = refl
letter_keys false false false = refl

-- A letter key enters its letter in lower case, in upper case if just one of Shift and Caps Lock
-- is on, and the letter's place in the alphabet while Ctrl is held, whatever the two are.
pub with_ctrl-char_of :
    (shift caps ctrl : Bool) (code : ℕ)
    → code < 128
    → is_lower (get_or scancode_map code 0) ≡ true
    → let l = get_or scancode_map code 0 in
      with_ctrl ctrl (char_of shift caps code) ≡ (
        if ctrl
        then l - 96
        else if shift
        then (if caps then l else l - 32)
        else (if caps then l - 32 else l))
unfolding letter_test
with_ctrl-char_of shift caps ctrl code h letter =
    let t = all_below_lem 128 (letter_test shift caps ctrl) (letter_keys shift caps ctrl) code h in
    ground (arith, t, letter)
