-- ===== src/Console/Printf.antt =====
-- `kprintf` of kernel/console.c and the printing of numbers.
-- A buffer is the list of the characters in it; what is printed is the list of the characters that
-- are passed to `console_putchar`. Values are the bit patterns of 64-bit words.
use micro_os.Base.{
  ℕ, zero, suc, ◌+◌, ◌-◌, ◌*◌, ◌/◌, ◌%◌, Bool, true, false, ◌&&◌, Option, none, some, List, [], ◌∷◌,
  ◌++◌, ◌>>=◌, ◌==◌, ltb, leb, if◌then◌else◌, length, replicate,
}
use micro_os.Console.Defs.{u32}

abbrev pub u64 : ℕ
u64 = 18446744073709551616

abbrev pub digit_char : ℕ → ℕ
digit_char digit = if ltb digit 10 then b'0' + digit else b'a' + digit - 10

-- The loop that fills `tmp`, the last digit first, with the rounds that it may make.
unfoldable pub digits : ℕ → ℕ → ℕ → List ℕ
digits zero base val = []
digits (suc fuel) base val =
    let rest = digits fuel base (val / base) in
    if ltb 0 val then digit_char (val % base) ∷ rest else []

-- The loop that copies `tmp` backwards.
unfoldable pub backwards : List ℕ → List ℕ → List ℕ
backwards [] out = out
backwards (c ∷ tmp) out = backwards tmp (c ∷ out)

-- A value of 64 bits has at most 64 digits in any base from 2 on.
unfoldable pub uint_to_buf : ℕ → ℕ → List ℕ
uint_to_buf val base = if val == 0 then b'0' ∷ [] else backwards (digits 64 base val) []

-- `none` for the least value, as its `-val` overflows, which is undefined.
unfoldable pub int_to_buf : ℕ → Option (List ℕ)
int_to_buf val =
    if val == 9223372036854775808
    then none
    else if leb 9223372036854775808 val
    then some (b'-' ∷ uint_to_buf (u64 - val) 10)
    else some (uint_to_buf val 10)

unfoldable pub emit_padded : List ℕ → ℕ → Bool → List ℕ
emit_padded s width left_align =
    let pad = if ltb (length s) width then width - length s else 0 in
    if left_align then s ++ replicate pad b' ' else replicate pad b' ' ++ s

-- An argument: a string, or none for a null pointer, or a word.
pub data Arg : Type 0 where
  str : Option (List ℕ) → Arg
  word : ℕ → Arg

-- The conversion characters read the next argument; reading one that is missing is undefined.
abbrev pub next_word : List Arg → Option (ℕ × List Arg)
next_word (word v ∷ args) = some (v, args)
next_word args = none

abbrev pub next_str : List Arg → Option (List ℕ × List Arg)
next_str (str (some s) ∷ args) = some (s, args)
next_str (str none ∷ args) = some (b'(' ∷ b'n' ∷ b'u' ∷ b'l' ∷ b'l' ∷ b')' ∷ [], args)
next_str args = none

-- A 32-bit argument as an `int64_t`, and as a `uint64_t`.
abbrev pub signed_arg : Bool → ℕ → ℕ
signed_arg is_long v =
    if is_long then v % u64 else if leb 2147483648 (v % u32) then v % u32 + (u64 - u32) else v % u32

abbrev pub unsigned_arg : Bool → ℕ → ℕ
unsigned_arg is_long v = if is_long then v % u64 else v % u32

-- The `switch` on the conversion character.
unfoldable pub convert : Bool → ℕ → Bool → ℕ → List Arg → Option (List ℕ × List Arg)
convert left_align width is_long c args =
    if c == b's'
    then (next_str args >>= λ (s, rest). some (emit_padded s width left_align, rest))
    else if c == b'd'
    then (next_word args >>= λ (v, rest).
        int_to_buf (signed_arg is_long v) >>= λ s. some (emit_padded s width left_align, rest))
    else if c == b'u'
    then (next_word args >>= λ (v, rest).
        some (emit_padded (uint_to_buf (unsigned_arg is_long v) 10) width left_align, rest))
    else if c == b'x'
    then (next_word args >>= λ (v, rest).
        some (emit_padded (uint_to_buf (unsigned_arg is_long v) 16) width left_align, rest))
    else if c == b'p'
    then (next_word args >>= λ (v, rest).
        some (emit_padded (b'0' ∷ b'x' ∷ uint_to_buf (v % u64) 16) width left_align, rest))
    else if c == b'c'
    then (next_word args >>= λ (v, rest). some (emit_padded (v % 256 ∷ []) width left_align, rest))
    else if c == b'%'
    then some (b'%' ∷ [], args)
    else some (b'%' ∷ c ∷ [], args)

-- Where `fmt` stands: in the text, after `%`, in the width, or after the `l`.
pub data Mode : Type 0 where
  plain : Mode
  flags : Mode
  width : (left_align : Bool) → ℕ → Mode
  long : (left_align : Bool) → ℕ → Mode

abbrev pub Step : Type 0
Step = Option (List ℕ × Mode × List Arg)

abbrev converted : Option (List ℕ × List Arg) → Step
converted r = r >>= λ (out, rest). some (out, plain, rest)

abbrev at_width : Bool → ℕ → ℕ → List Arg → Step
at_width left_align w c args =
    if leb b'0' c && leb c b'9'
    then some ([], width left_align (w * 10 + (c - b'0')), args)
    else if c == b'l'
    then some ([], long left_align w, args)
    else converted (convert left_align w false c args)

-- One character of the format.
unfoldable pub advance : Mode → ℕ → List Arg → Step
advance plain c args = if c == b'%' then some ([], flags, args) else some (c ∷ [], plain, args)
advance flags c args = if c == b'-' then some ([], width true 0, args) else at_width false 0 c args
advance (width left_align w) c args = at_width left_align w c args
advance (long left_align w) c args = converted (convert left_align w true c args)

-- `none` is a read past the end of the format, which a `%` at its end makes, or of the arguments, or
-- the overflow in `int_to_buf`.
unfoldable pub format : Mode → List ℕ → List Arg → Option (List ℕ)
format plain [] args = some []
format mode [] args = none
format mode (c ∷ fmt) args = advance mode c args >>= λ (out, mode', args').
    format mode' fmt args' >>= λ rest. some (out ++ rest)

unfoldable pub kprintf : List ℕ → List Arg → Option (List ℕ)
kprintf fmt args = format plain fmt args
