-- ===== src/Console/Digits.antt =====
-- The printed digits spell the value, and fit the buffers.
use micro_os.Base.{
  ℕ, zero, suc, ◌+◌, ◌-◌, ◌*◌, ◌/◌, ◌%◌, ◌^◌, ◌<◌, ◌≤◌, ◌≡◌, ◌≢◌, ◌⊎◌, ◌∙◌, subst, inl, inr, refl,
  sym, ap, Bool, true, false, List, [], ◌∷◌, ◌++◌, ◌>>=◌, Option, some, ◌==◌, ltb, leb,
  if◌then◌else◌, Bool-cases, if_true, if_false, length, arith,
}
use native.Mathlib.Nat.{pow-suc, pow-zero, div-lt_iff_lt-mul, div-add-mod', mod-lt}
use micro_os.Console.Printf.{
  u64, digit_char, digits, backwards, uint_to_buf, int_to_buf, plain, kprintf, format, advance,
  convert,
}

-- The value of a digit, and of a row of digits read from the left behind `n`.
abbrev pub digit_value : ℕ → ℕ
digit_value c = if leb c b'9' then c - b'0' else c - b'a' + 10

abbrev pub spelled : ℕ → ℕ → List ℕ → ℕ
spelled base n [] = n
spelled base n (c ∷ s) = spelled base (n * base + digit_value c) s

-- The value of digits of which the first is the last.
from_last : ℕ → List ℕ → ℕ
from_last base [] = 0
from_last base (c ∷ tmp) = from_last base tmp * base + digit_value c

spelled-backwards :
    (base : ℕ) (tmp out : List ℕ)
    → spelled base 0 (backwards tmp out) ≡ spelled base (from_last base tmp) out
unfolding backwards from_last
spelled-backwards base [] out = refl
spelled-backwards base (c ∷ tmp) out = spelled-backwards base tmp (c ∷ out)

digit_value-char : (d : ℕ) → d < 36 → digit_value (digit_char d) ≡ d
digit_value-char d h = ground arith

halved : (val base n : ℕ) → 2 ≤ base → val < 2 * n → val / base < n
halved val base n h lt =
    (div-lt_iff_lt-mul {k = base} {x = val} {y = n} (omega arith)).1
      (omega (arith, more n base h, lt))
  where
    more : (n base : ℕ) → 2 ≤ base → 2 * n ≤ n * base
    more n base h = grind arith

from_last-digits :
    (fuel base val : ℕ)
    → 2 ≤ base
    → base ≤ 36
    → val < 2 ^ fuel
    → from_last base (digits fuel base val) ≡ val
unfolding digits from_last
from_last-digits zero base val lo hi enough = omega arith
from_last-digits (suc fuel) base val lo hi enough = elim (Bool-cases (ltb 0 val)) [
  | inr ended ↦ ap (from_last base) (if_false _ _ [] ended) ∙ ground (arith, ended)
  | inl going ↦
      let small : val % base < base = mod-lt val (omega (arith, lo)) in
      ap (from_last base) (if_true _ _ [] going)
      ∙ ap (λ k. k * base + digit_value (digit_char (val % base)))
          (from_last-digits fuel base (val / base) lo hi
            (halved val base (2 ^ fuel) lo (omega (arith, enough, pow-suc 2 fuel))))
      ∙ ap (λ k. val / base * base + k) (digit_value-char (val % base) (omega (arith, small, hi)))
      ∙ div-add-mod' val base
]

length-digits :
    (k fuel base val : ℕ) → 2 ≤ base → val < base ^ k → length (digits fuel base val) ≤ k
unfolding digits
length-digits k zero base val lo h = omega arith
length-digits zero (suc fuel) base val lo h =
    let zero_val : ltb 0 val ≡ false = ground (arith, h, pow-zero base) in
    subst (λ (l : List ℕ). length l ≤ 0) (sym (if_false _ _ [] zero_val)) (omega arith)
length-digits (suc k) (suc fuel) base val lo h = elim (Bool-cases (ltb 0 val)) [
  | inr ended ↦ subst (λ (l : List ℕ). length l ≤ suc k) (sym (if_false _ _ [] ended)) (omega arith)
  | inl going ↦
      subst (λ (l : List ℕ). length l ≤ suc k) (sym (if_true _ _ [] going))
        (omega (arith, length-digits k fuel base (val / base) lo fewer))
]
  where
    fewer : val / base < base ^ k
    fewer =
        (div-lt_iff_lt-mul {k = base} {x = val} {y = base ^ k} (omega arith)).1
          (subst (λ t. val < t) (pow-suc base k) h)

some_digit : (fuel base val : ℕ) → val == 0 ≡ false → 1 ≤ length (digits (suc fuel) base val)
unfolding digits
some_digit fuel base val h =
    subst (λ (l : List ℕ). 1 ≤ length l) (sym (if_true (ltb 0 val) _ [] (ground (arith, h))))
      (omega arith)

length-backwards : (tmp out : List ℕ) → length (backwards tmp out) ≡ length tmp + length out
unfolding backwards
length-backwards [] out = omega arith
length-backwards (c ∷ tmp) out = omega (arith, length-backwards tmp (c ∷ out))

-- In a base from 2 to 36 the characters in the buffer spell the value again.
pub spelled-uint_to_buf :
    (val base : ℕ) → 2 ≤ base → base ≤ 36 → val < u64 → spelled base 0 (uint_to_buf val base) ≡ val
unfolding uint_to_buf
spelled-uint_to_buf val base lo hi small = elim (Bool-cases (val == 0)) [
  | inl ended ↦ ap (spelled base 0) (if_true _ _ _ ended) ∙ ground (arith, ended)
  | inr going ↦
      ap (spelled base 0) (if_false _ _ _ going)
      ∙ spelled-backwards base (digits 64 base val) []
      ∙ from_last-digits 64 base val lo hi small
]

-- In bases 10 and 16 a value of 64 bits has from 1 to 20 characters.
pub length-uint_to_buf :
    (val base : ℕ)
    → (base ≡ 10) ⊎ (base ≡ 16)
    → val < u64
    → (1 ≤ length (uint_to_buf val base)) × (length (uint_to_buf val base) ≤ 20)
unfolding uint_to_buf
length-uint_to_buf val base h small = elim (Bool-cases (val == 0)) [
  | inl ended ↦ by_length (if_true _ _ _ ended) (omega arith, omega arith)
  | inr going ↦
      by_length (if_false _ _ _ going)
        (rw (length-backwards (digits 64 base val) []) (lower going, upper))
]
  where
    by_length :
        {s s' : List ℕ}
        → s ≡ s'
        → (1 ≤ length s') × (length s' ≤ 20)
        → (1 ≤ length s) × (length s ≤ 20)
    by_length e k = subst (λ (t : List ℕ). (1 ≤ length t) × (length t ≤ 20)) (sym e) k

    lower : val == 0 ≡ false → 1 ≤ length (digits 64 base val) + 0
    lower going = omega (arith, some_digit 63 base val going)

    upper : length (digits 64 base val) + 0 ≤ 20
    upper = elim h [
      | inl e ↦
          subst (λ b. length (digits 64 b val) + 0 ≤ 20) (sym e)
            (omega (arith, length-digits 20 64 10 val (omega arith) (omega (arith, small))))
      | inr e ↦
          subst (λ b. length (digits 64 b val) + 0 ≤ 20) (sym e)
            (omega (arith, length-digits 20 64 16 val (omega arith) (omega (arith, small))))
    ]

-- The integer that a 64-bit pattern stands for, as a sign and a size.
abbrev pub read_back : List ℕ → Bool × ℕ
read_back [] = (false, 0)
read_back (c ∷ s) = if c == b'-' then (true, spelled 10 0 s) else (false, spelled 10 0 (c ∷ s))

digit_char-plain : (d : ℕ) → digit_char d == b'-' ≡ false
digit_char-plain d = ground arith

-- No character is a minus sign.
AllPlain : List ℕ → Type 0
AllPlain [] = Unit
AllPlain (c ∷ s) = (c == b'-' ≡ false) × AllPlain s

digits-AllPlain : (fuel base val : ℕ) → AllPlain (digits fuel base val)
unfolding digits AllPlain
digits-AllPlain zero base val = tt
digits-AllPlain (suc fuel) base val = elim (Bool-cases (ltb 0 val)) [
  | inr ended ↦ subst AllPlain (sym (if_false _ _ [] ended)) tt
  | inl going ↦
      subst AllPlain (sym (if_true _ _ [] going))
        (digit_char-plain (val % base), digits-AllPlain fuel base (val / base))
]

backwards-AllPlain : (tmp out : List ℕ) → AllPlain tmp → AllPlain out → AllPlain (backwards tmp out)
unfolding backwards AllPlain
backwards-AllPlain [] out h k = k
backwards-AllPlain (c ∷ tmp) out h k = backwards-AllPlain tmp (c ∷ out) h.1 (h.0, k)

uint_to_buf-AllPlain : (val base : ℕ) → AllPlain (uint_to_buf val base)
unfolding uint_to_buf AllPlain
uint_to_buf-AllPlain val base = elim (Bool-cases (val == 0)) [
  | inl ended ↦ subst AllPlain (sym (if_true _ _ _ ended)) (refl, tt)
  | inr going ↦
      subst AllPlain (sym (if_false _ _ _ going))
        (backwards-AllPlain (digits 64 base val) [] (digits-AllPlain 64 base val) tt)
]

read_back-AllPlain :
    (s : List ℕ) → 1 ≤ length s → AllPlain s → read_back s ≡ (false, spelled 10 0 s)
unfolding AllPlain
read_back-AllPlain [] long h = absurd (omega arith)
read_back-AllPlain (c ∷ s) long h = if_false _ _ _ h.0

-- What `int_to_buf` prints of a 64-bit integer other than the least one: from it the sign and the
-- size of the integer are read back.
pub read_back-int_to_buf :
    (val : ℕ)
    → val < u64
    → val ≢ 9223372036854775808
    → (s : List ℕ) × (int_to_buf val ≡ some s)
      × (read_back s ≡ (if leb 9223372036854775808 val then (true, u64 - val) else (false, val)))
unfolding int_to_buf
read_back-int_to_buf val small not_least =
    let defined : val == 9223372036854775808 ≡ false = ground arith in
    elim (Bool-cases (leb 9223372036854775808 val)) [
      | inl negative ↦ (
        b'-' ∷ uint_to_buf (u64 - val) 10,
        if_false _ _ _ defined ∙ if_true _ _ _ negative,
        ap (λ n. (true, n))
              (spelled-uint_to_buf (u64 - val) 10 (omega arith) (omega arith)
                (ground (arith, negative)))
            ∙ sym (if_true _ _ _ negative),
      )
      | inr positive ↦ (
        uint_to_buf val 10,
        if_false _ _ _ defined ∙ if_false _ _ _ positive,
        read_back-AllPlain (uint_to_buf val 10) (length-uint_to_buf val 10 (inl refl) small).0
              (uint_to_buf-AllPlain val 10)
            ∙ ap (λ n. (false, n)) (spelled-uint_to_buf val 10 (omega arith) (omega arith) small)
            ∙ sym (if_false _ _ _ positive),
      )
    ]

-- A text in which every `%` is doubled.
abbrev pub escaped : List ℕ → List ℕ
escaped [] = []
escaped (c ∷ s) = if c == b'%' then b'%' ∷ b'%' ∷ escaped s else c ∷ escaped s

-- A doubled percent sign prints one, before what the rest prints.
percent_first :
    (s rest : List ℕ)
    → format plain s [] ≡ some rest
    → format plain (b'%' ∷ b'%' ∷ s) [] ≡ some (b'%' ∷ rest)
unfolding format advance convert
percent_first s rest h =
    ap
      (λ (r : Option (List ℕ)).
        (r >>= λ rest. some ((b'%' ∷ []) ++ rest)) >>= λ rest. some ([] ++ rest))
      h

-- `kprintf` prints a text in which every percent sign is doubled as the text itself.
pub kprintf-escaped : (s : List ℕ) → kprintf (escaped s) [] ≡ some s
unfolding kprintf format advance
kprintf-escaped [] = refl
kprintf-escaped (c ∷ s) = elim (Bool-cases (c == b'%')) [
  | inl percent ↦
      ap (λ f. format plain f []) (if_true _ _ _ percent)
      ∙ percent_first (escaped s) s (kprintf-escaped s)
      ∙ ap (λ k. some (k ∷ s)) (ground (arith, percent))
  | inr other ↦
      ap (λ f. format plain f []) (if_false _ _ _ other)
      ∙ ap
          (λ r. r >>= λ (out, mode', args').
            format mode' (escaped s) args' >>= λ rest. some (out ++ rest))
          (if_false _ _ _ other)
      ∙ ap (λ r. r >>= λ rest. some (c ∷ rest)) (kprintf-escaped s)
]
