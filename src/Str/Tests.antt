-- ===== src/Str/Tests.antt =====
-- Runs of the string functions, and their theorems at concrete inputs.
use micro_os.Base.{◌≡◌, refl, some, [], ◌∷◌, arith}
use micro_os.Str.Defs.{Memory, Text, strncpy, strrchr, last_from}
use micro_os.Str.Text.{NoNul}

-- Memory in which each byte is its address.
abbrev plain : Memory
plain a = a

-- Two overlapping ranges, and the byte at 103.

abbrev ab : Text
ab = 97 ∷ 98 ∷ []

ab-NoNul : NoNul ab
unfolding NoNul
ab-NoNul = (omega arith, (omega arith, tt))

-- Two characters in a buffer of four: five bytes are written.
strncpy_short : strncpy ab 4 ≡ 97 ∷ 98 ∷ 0 ∷ 0 ∷ 0 ∷ []
unfolding strncpy
strncpy_short = refl

last_b : strrchr (98 ∷ 97 ∷ 98 ∷ []) 98 ≡ some 2
unfolding strrchr last_from
last_b = refl
