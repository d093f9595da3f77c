-- ===== src/Pmm/Popcount.antt =====
-- `popcount64` of kernel/mm/pmm.c: the sums by pairs, nibbles and bytes count the bits of a word.
use Prim.Native.Nat.{bit_and}
use micro_os.Base.{ℕ, zero, suc, ◌+◌, ◌-◌, ◌*◌, ◌/◌, ◌%◌, ◌^◌, ◌<◌, ◌≤◌, ◌≡◌, ap, ◌∙◌, arith}
use micro_os.Base.Bits.{bit_and_step, bit_and-zero, ones, ones-le}

unfoldable pub popcount64 : ℕ → ℕ
popcount64 x =
    let a = (x + 2 ^ 64 - bit_and (x / 2) 0x5555555555555555) % 2 ^ 64 in
    let b = (bit_and a 0x3333333333333333 + bit_and (a / 4) 0x3333333333333333) % 2 ^ 64 in
    let c = bit_and ((b + b / 16) % 2 ^ 64) 0x0F0F0F0F0F0F0F0F in
    c * 0x0101010101010101 % 2 ^ 64 / 2 ^ 56

-- The mask of `n` digits `d` in base `base`.
mask : ℕ → ℕ → ℕ → ℕ
mask d base zero = 0
mask d base (suc n) = mask d base n * base + d

and_odd : (x m : ℕ) → bit_and x (m * 2 + 1) ≡ bit_and (x / 2) m * 2 + x % 2
and_odd x m = omega (arith, bit_and_step x (m * 2 + 1), same)
  where
    same : bit_and (x / 2) ((m * 2 + 1) / 2) ≡ bit_and (x / 2) m
    same = ap (bit_and (x / 2)) (omega arith)

and_even : (x m : ℕ) → bit_and x (m * 2) ≡ bit_and (x / 2) m * 2
and_even x m = omega (arith, bit_and_step x (m * 2), same)
  where
    same : bit_and (x / 2) (m * 2 / 2) ≡ bit_and (x / 2) m
    same = ap (bit_and (x / 2)) (omega arith)

-- Two equal shifts of `x`, under a mask.
shifted : {y z : ℕ} (m : ℕ) → y ≡ z → bit_and y m ≡ bit_and z m
shifted m e = ap (λ t. bit_and t m) e

masked : (x : ℕ) {m m' : ℕ} → m ≡ m' → bit_and x m ≡ bit_and x m'
masked x e = ap (bit_and x) e

and_three_bits : (x m : ℕ) → bit_and x (m * 4 + 3) ≡ bit_and (x / 4) m * 4 + x % 4
and_three_bits x m = omega (
  arith,
  masked x {m = m * 4 + 3} {m' = (m * 2 + 1) * 2 + 1} (omega arith),
  and_odd x (m * 2 + 1),
  and_odd (x / 2) m,
  shifted {y = x / 2 / 2} {z = x / 4} m (omega arith),
)

and_four : (x m : ℕ) → bit_and x (m * 4) ≡ bit_and (x / 4) m * 4
and_four x m = omega (
  arith,
  masked x {m = m * 4} {m' = m * 2 * 2} (omega arith),
  and_even x (m * 2),
  and_even (x / 2) m,
  shifted {y = x / 2 / 2} {z = x / 4} m (omega arith),
)

and_one : (x m : ℕ) → bit_and x (m * 4 + 1) ≡ bit_and (x / 4) m * 4 + x % 2
and_one x m = omega (
  arith,
  masked x {m = m * 4 + 1} {m' = m * 2 * 2 + 1} (omega arith),
  and_odd x (m * 2),
  and_even (x / 2) m,
  shifted {y = x / 2 / 2} {z = x / 4} m (omega arith),
)

and_three : (x m : ℕ) → bit_and x (m * 16 + 3) ≡ bit_and (x / 16) m * 16 + x % 4
and_three x m = omega (
  arith,
  masked x {m = m * 16 + 3} {m' = m * 4 * 4 + 3} (omega arith),
  and_three_bits x (m * 4),
  and_four (x / 4) m,
  shifted {y = x / 4 / 4} {z = x / 16} m (omega arith),
)

and_sixteen : (x m : ℕ) → bit_and x (m * 16) ≡ bit_and (x / 16) m * 16
and_sixteen x m = omega (
  arith,
  masked x {m = m * 16} {m' = m * 4 * 4} (omega arith),
  and_four x (m * 4),
  and_four (x / 4) m,
  shifted {y = x / 4 / 4} {z = x / 16} m (omega arith),
)

and_fifteen : (x m : ℕ) → bit_and x (m * 256 + 15) ≡ bit_and (x / 256) m * 256 + x % 16
and_fifteen x m = omega (
  arith,
  masked x {m = m * 256 + 15} {m' = (m * 64 + 3) * 4 + 3} (omega arith),
  and_three_bits x (m * 64 + 3),
  masked (x / 4) {m = m * 64 + 3} {m' = m * 16 * 4 + 3} (omega arith),
  and_three_bits (x / 4) (m * 16),
  shifted {y = x / 4 / 4} {z = x / 16} (m * 16) (omega arith),
  and_sixteen (x / 16) m,
  shifted {y = x / 16 / 16} {z = x / 256} m (omega arith),
)

-- The three stages over `n` digits.
pairs : ℕ → ℕ → ℕ
pairs n x = x - bit_and (x / 2) (mask 1 4 n)

nibbles : ℕ → ℕ → ℕ
nibbles n a = bit_and a (mask 3 16 n) + bit_and (a / 4) (mask 3 16 n)

bytes : ℕ → ℕ → ℕ
bytes n b = bit_and (b + b / 16) (mask 15 256 n)

pairs_le : (n x : ℕ) → bit_and (x / 2) (mask 1 4 n) * 2 ≤ x
unfolding mask
pairs_le zero x = omega (arith, bit_and-zero (x / 2))
pairs_le (suc n) x = omega (
  arith,
  and_one (x / 2) (mask 1 4 n),
  shifted {y = x / 2 / 4} {z = x / 4 / 2} (mask 1 4 n) (omega arith),
  pairs_le n (x / 4),
)

pairs_step : (n x : ℕ) → pairs (suc n) x ≡ pairs n (x / 4) * 4 + ones 2 x
unfolding pairs mask ones
pairs_step n x = omega (
  arith,
  and_one (x / 2) (mask 1 4 n),
  shifted {y = x / 2 / 4} {z = x / 4 / 2} (mask 1 4 n) (omega arith),
  pairs_le n (x / 4),
)

-- Pairs, then nibbles: each base 16 digit counts its four bits.
by_nibble : ℕ → ℕ → ℕ
by_nibble zero x = 0
by_nibble (suc n) x = by_nibble n (x / 16) * 16 + ones 4 x

even : ℕ → ℕ
even zero = 0
even (suc n) = suc (suc (even n))

nibbles_step : (n a : ℕ) → nibbles (suc n) a ≡ nibbles n (a / 16) * 16 + a % 4 + a / 4 % 4
unfolding nibbles mask
nibbles_step n a = omega (
  arith,
  and_three a (mask 3 16 n),
  and_three (a / 4) (mask 3 16 n),
  shifted {y = a / 4 / 16} {z = a / 16 / 4} (mask 3 16 n) (omega arith),
)

nibbles-pairs : (n x : ℕ) → nibbles n (pairs (even n) x) ≡ by_nibble n x
unfolding by_nibble even
nibbles-pairs zero x =
    unfold nibbles mask in omega (arith, bit_and-zero (pairs 0 x), bit_and-zero (pairs 0 x / 4))
nibbles-pairs (suc n) x = omega (
  arith,
  split,
  digit,
  ones-le 2 x,
  ones-le 2 (x / 4),
  nibbles_step n (pairs (suc (suc (even n))) x),
  ap (nibbles n) top,
  nibbles-pairs n (x / 16),
)
  where
    split :
        pairs (suc (suc (even n))) x ≡ pairs (even n) (x / 16) * 16 + ones 2 (x / 4) * 4 + ones 2 x
    split = omega (
      arith,
      pairs_step (suc (even n)) x,
      pairs_step (even n) (x / 4),
      ap (pairs (even n)) (let e : x / 4 / 4 ≡ x / 16 = omega arith in e),
    )

    digit : ones 4 x ≡ ones 2 x + ones 2 (x / 4)
    digit = unfold ones in omega arith

    top : pairs (suc (suc (even n))) x / 16 ≡ pairs (even n) (x / 16)
    top = omega (arith, split, ones-le 2 x, ones-le 2 (x / 4))

-- Each base 256 digit counts its eight bits.
by_byte : ℕ → ℕ → ℕ
by_byte zero x = 0
by_byte (suc n) x = by_byte n (x / 256) * 256 + ones 8 x

by_nibble_low : (n x : ℕ) → by_nibble n x % 16 ≤ 4
unfolding by_nibble
by_nibble_low zero x = omega arith
by_nibble_low (suc n) x = omega (arith, ones-le 4 x)

by_nibble_le : (n x : ℕ) → by_nibble n x ≤ mask 4 16 n
unfolding by_nibble mask
by_nibble_le zero x = omega arith
by_nibble_le (suc n) x = omega (arith, ones-le 4 x, by_nibble_le n (x / 16))

bytes_step :
    (n b : ℕ)
    → bytes (suc n) b ≡ bit_and ((b + b / 16) / 256) (mask 15 256 n) * 256 + (b + b / 16) % 16
unfolding bytes mask
bytes_step n b = and_fifteen (b + b / 16) (mask 15 256 n)

bytes-by_nibble : (n x : ℕ) → bytes n (by_nibble (even n) x) ≡ by_byte n x
unfolding even by_byte
bytes-by_nibble zero x = unfold bytes mask in bit_and-zero _
bytes-by_nibble (suc n) x = omega (
  arith,
  bytes_step n b,
  split,
  digit,
  low,
  ones-le 4 x,
  ones-le 4 (x / 16),
  masked_sum,
  bytes-by_nibble n (x / 256),
)
  where
    b : ℕ
    b = by_nibble (suc (suc (even n))) x

    rest : ℕ
    rest = by_nibble (even n) (x / 256)

    split : b ≡ rest * 256 + ones 4 (x / 16) * 16 + ones 4 x
    split =
        unfold by_nibble in
        omega (arith, ap (by_nibble (even n)) (let e : x / 16 / 16 ≡ x / 256 = omega arith in e))

    digit : ones 8 x ≡ ones 4 x + ones 4 (x / 16)
    digit = unfold ones in omega arith

    low : rest % 16 ≤ 4
    low = by_nibble_low (even n) (x / 256)

    masked_sum : bit_and ((b + b / 16) / 256) (mask 15 256 n) ≡ bytes n rest
    masked_sum =
        unfold bytes in
        shifted (mask 15 256 n) (omega (arith, split, low, ones-le 4 x, ones-le 4 (x / 16)))

-- The product puts the sum of all bytes into the top byte.
top_byte :
    (a b c d e f g h : ℕ)
    → a ≤ 8
    → b ≤ 8
    → c ≤ 8
    → d ≤ 8
    → e ≤ 8
    → f ≤ 8
    → g ≤ 8
    → h ≤ 8
    → (((((((a * 256 + b) * 256 + c) * 256 + d) * 256 + e) * 256 + f) * 256 + g) * 256 + h)
        * 0x0101010101010101
        % 2 ^ 64
        / 2 ^ 56
      ≡ h + (g + (f + (e + (d + (c + (b + a))))))
top_byte a b c d e f g h pa pb pc pd pe pf pg ph = omega arith

ones_byte :
    (n x : ℕ)
    → ones (suc (suc (suc (suc (suc (suc (suc (suc n)))))))) x ≡ ones 8 x + ones n (x / 256)
unfolding ones
ones_byte n x =
    omega
      (arith, ap (ones n) (let e : x / 2 / 2 / 2 / 2 / 2 / 2 / 2 / 2 ≡ x / 256 = omega arith in e))

by_byte_total : (x : ℕ) → by_byte 8 x * 0x0101010101010101 % 2 ^ 64 / 2 ^ 56 ≡ ones 64 x
unfolding by_byte
by_byte_total x =
    let x1 : ℕ = x / 256 in
    let x2 : ℕ = x1 / 256 in
    let x3 : ℕ = x2 / 256 in
    let x4 : ℕ = x3 / 256 in
    let x5 : ℕ = x4 / 256 in
    let x6 : ℕ = x5 / 256 in
    let x7 : ℕ = x6 / 256 in
    omega (
      arith,
      top_byte (ones 8 x7) (ones 8 x6) (ones 8 x5) (ones 8 x4) (ones 8 x3) (ones 8 x2) (ones 8 x1)
          (ones 8 x) (ones-le 8 x7) (ones-le 8 x6) (ones-le 8 x5) (ones-le 8 x4) (ones-le 8 x3)
          (ones-le 8 x2) (ones-le 8 x1) (ones-le 8 x),
      ones_byte 56 x,
      ones_byte 48 x1,
      ones_byte 40 x2,
      ones_byte 32 x3,
      ones_byte 24 x4,
      ones_byte 16 x5,
      ones_byte 8 x6,
    )

stage_pairs :
    (x : ℕ)
    → x < 2 ^ 64
    → (x + 2 ^ 64 - bit_and (x / 2) 0x5555555555555555) % 2 ^ 64 ≡ pairs (even 16) x
unfolding pairs mask even
stage_pairs x h = omega (arith, pairs_le 32 x)

stage_nibbles :
    (x : ℕ)
    → let a = pairs (even 16) x in
      (bit_and a 0x3333333333333333 + bit_and (a / 4) 0x3333333333333333) % 2 ^ 64
      ≡ by_nibble (even 8) x
unfolding even
stage_nibbles x =
    let total : nibbles 16 (pairs (even 16) x) ≡ by_nibble 16 x = nibbles-pairs 16 x in
    unfold nibbles mask in omega (arith, total, by_nibble_le 16 x)

stage_bytes :
    (x : ℕ)
    → let b = by_nibble (even 8) x in
      bit_and ((b + b / 16) % 2 ^ 64) 0x0F0F0F0F0F0F0F0F ≡ by_byte 8 x
unfolding even
stage_bytes x =
    unfold bytes mask in
    shifted 0x0F0F0F0F0F0F0F0F (omega (arith, by_nibble_le 16 x)) ∙ bytes-by_nibble 8 x

-- `popcount64` returns the number of bits set, for every 64-bit word.
pub popcount64-ones : (x : ℕ) → x < 2 ^ 64 → popcount64 x ≡ ones 64 x
unfolding popcount64
popcount64-ones x h = rw (stage_pairs x h, stage_nibbles x, stage_bytes x) (by_byte_total x)
