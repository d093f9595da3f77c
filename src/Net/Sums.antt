-- ===== src/Net/Sums.antt =====
-- The checksum of kernel/net/net.c, and the fields of net.h in network byte order.
use micro_os.Base.{ℕ, ◌+◌, ◌-◌, ◌*◌, ◌/◌, ◌%◌, ◌^◌, Bool, not, [], ◌∷◌, ◌==◌, get_or, take, drop}
use micro_os.Base.Loop.{while}
use micro_os.Net.State.{Bytes}

-- The words of the first loop, low byte first, and the odd byte at the end.
unfoldable pub sum_words : Bytes → ℕ
sum_words [] = 0
sum_words (a ∷ []) = a
sum_words (a ∷ b ∷ rest) = (a + 256 * b + sum_words rest) % 2 ^ 32

abbrev pub has_carry : ℕ → Bool
has_carry sum = not (sum / 2 ^ 16 == 0)

abbrev pub add_carry : ℕ → ℕ
add_carry sum = sum % 2 ^ 16 + sum / 2 ^ 16

-- The second loop, at most twice.
unfoldable pub fold : ℕ → ℕ
unfolding while
fold sum = while has_carry add_carry sum 3

-- `~sum` cut to 16 bits.
unfoldable pub ip_checksum : Bytes → ℕ
ip_checksum bytes = 2 ^ 16 - 1 - fold (sum_words bytes) % 2 ^ 16

-- A 16-bit field in network byte order, and its value at an offset.
abbrev pub htons : ℕ → Bytes
htons v = v / 256 % 256 ∷ v % 256 ∷ []

abbrev pub ntohs : Bytes → ℕ → ℕ
ntohs b o = get_or b o 0 * 256 + get_or b (o + 1) 0

-- A 16-bit field in the byte order of the machine.
abbrev pub word : ℕ → Bytes
word v = v % 256 ∷ v / 256 % 256 ∷ []

-- The `n` bytes at an offset.
abbrev pub field : Bytes → ℕ → ℕ → Bytes
field b o n = take n (drop o b)
