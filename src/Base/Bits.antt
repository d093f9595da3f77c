-- ===== src/Base/Bits.antt =====
-- Bits of machine words: `x & y`, `x | y`, `1 << b` and `~x` on w-bit words, read bit by bit.
use Prim.Native.Nat.{
  ℕ, zero, suc, ◌+◌, ◌-◌, ◌*◌, ◌/◌, ◌%◌, ◌^◌, ◌≤◌, ◌<◌, min, max, bit_and, bit_or, digits,
  bit_and-bitwise, bit_or-bitwise,
}
use mathlib.Core.Logic.{◌≢◌, inl, inr}
use mathlib.Core.Path.{◌≡◌, refl, sym, ap, ◌∙◌}
use native.Mathlib.Omega.{arith}
use native.Mathlib.Nat.{pow-suc, pow-succ', pow-le-pow_right, one-le-pow, div-div-eq-div-mul}
use micro_os.Base.Decide.{◌==◌, if◌then◌else◌, Bool-cases}

-- The operation on digits that stands for both: `last` ends it, and `join` takes one digit.
module _ (last : ℕ → ℕ) (join : ℕ → ℕ → ℕ) where
  -- The result is the same for all fuel that reaches the last digit.
  fuel_irrelevant :
      (k l x y : ℕ) → (x ≤ k) × (x ≤ l) → digits last join k x y ≡ digits last join l x y
  fuel_irrelevant k l zero y h = no_digit k ∙ sym (no_digit l)
    where
      no_digit : (n : ℕ) → digits last join n zero y ≡ last y
      no_digit zero = refl
      no_digit (suc n) = refl
  fuel_irrelevant (suc k) (suc l) (suc x) y (hk, hl) =
      let half = fuel_irrelevant k l (suc x / 2) (y / 2) (omega arith, omega arith) in omega arith
  fuel_irrelevant zero l (suc x) y (hk, hl) = absurd (omega arith)
  fuel_irrelevant (suc k) zero (suc x) y (hk, hl) = absurd (omega arith)

  one_digit :
      ((y : ℕ) → last y ≡ last (y / 2) * 2 + join 0 (y % 2))
      → (x y : ℕ)
      → digits last join x x y ≡ digits last join (x / 2) (x / 2) (y / 2) * 2 + join (x % 2) (y % 2)
  one_digit end zero y = end y
  one_digit end (suc x) y =
      let half = fuel_irrelevant x (suc x / 2) (suc x / 2) (y / 2) (omega arith, omega arith) in
      omega arith

pub bit_and_step : (x y : ℕ) → bit_and x y ≡ bit_and (x / 2) (y / 2) * 2 + min (x % 2) (y % 2)
bit_and_step x y =
    rw (bit_and-bitwise x y, bit_and-bitwise (x / 2) (y / 2))
      (one_digit (λ _. zero) min (λ y. omega arith) x y)

pub bit_or_step : (x y : ℕ) → bit_or x y ≡ bit_or (x / 2) (y / 2) * 2 + max (x % 2) (y % 2)
bit_or_step x y =
    rw (bit_or-bitwise x y, bit_or-bitwise (x / 2) (y / 2))
      (one_digit (λ y. y) max (λ y. omega arith) x y)

zero-bit_and : (y : ℕ) → bit_and 0 y ≡ 0
zero-bit_and y = bit_and-bitwise 0 y

no_bits_right : (n x : ℕ) → x < n → bit_and x 0 ≡ 0
no_bits_right zero x h = absurd (omega arith)
no_bits_right (suc n) x h = elim (Bool-cases (x == 0)) [
  | inl e ↦ let e' : x ≡ 0 = ground arith in rw e' (zero-bit_and 0)
  | inr ne ↦
      let half = no_bits_right n (x / 2) (ground arith) in omega (arith, bit_and_step x 0, half)
]

pub bit_and-zero : (x : ℕ) → bit_and x 0 ≡ 0
bit_and-zero x = no_bits_right (x + 1) x (omega arith)

zero-bit_or : (y : ℕ) → bit_or 0 y ≡ y
zero-bit_or y = bit_or-bitwise 0 y

no_bits_added : (n x : ℕ) → x < n → bit_or x 0 ≡ x
no_bits_added zero x h = absurd (omega arith)
no_bits_added (suc n) x h = elim (Bool-cases (x == 0)) [
  | inl e ↦ let e' : x ≡ 0 = ground arith in rw e' (zero-bit_or 0)
  | inr ne ↦
      let half = no_bits_added n (x / 2) (ground arith) in omega (arith, bit_or_step x 0, half)
]

pub bit_or-zero : (x : ℕ) → bit_or x 0 ≡ x
bit_or-zero x = no_bits_added (x + 1) x (omega arith)

-- Bit `k` of `x`: the number 0 or 1.
unfoldable pub bit : ℕ → ℕ → ℕ
bit x zero = x % 2
bit x (suc k) = bit (x / 2) k

pub bit-le : (x k : ℕ) → bit x k ≤ 1
unfolding bit
bit-le x zero = omega arith
bit-le x (suc k) = bit-le (x / 2) k

-- The shift and mask of the C code.
pub shift-bit : (x k : ℕ) → x / 2 ^ k % 2 ≡ bit x k
unfolding bit
shift-bit x zero = omega arith
shift-bit x (suc k) = rw pow-succ' (rw (← div-div-eq-div-mul) (shift-bit (x / 2) k))

pub bit-bit_and : (a b k : ℕ) → bit (bit_and a b) k ≡ min (bit a k) (bit b k)
unfolding bit
bit-bit_and a b zero = omega (arith, bit_and_step a b)
bit-bit_and a b (suc k) =
    ap (λ t. bit t k) (omega (arith, bit_and_step a b)) ∙ bit-bit_and (a / 2) (b / 2) k

pub bit-bit_or : (a b k : ℕ) → bit (bit_or a b) k ≡ max (bit a k) (bit b k)
unfolding bit
bit-bit_or a b zero = omega (arith, bit_or_step a b)
bit-bit_or a b (suc k) =
    ap (λ t. bit t k) (omega (arith, bit_or_step a b)) ∙ bit-bit_or (a / 2) (b / 2) k

pub zero-bit : (k : ℕ) → bit 0 k ≡ 0
unfolding bit
zero-bit zero = refl
zero-bit (suc k) = zero-bit k

pub bit-pow : (b k : ℕ) → bit (2 ^ b) k ≡ (if b == k then 1 else 0)
unfolding bit
bit-pow zero zero = refl
bit-pow zero (suc k) = ground (arith, zero-bit k)
bit-pow (suc b) zero = ground (arith, pow-suc 2 b)
bit-pow (suc b) (suc k) =
    ap (λ t. bit t k) (omega (arith, pow-suc 2 b)) ∙ bit-pow b k ∙ ground arith

-- The complement of an n-bit word.
pub bit-sub : (n k x : ℕ) → k < n → x < 2 ^ n → bit (2 ^ n - 1 - x) k ≡ 1 - bit x k
unfolding bit
bit-sub zero k x h lt = elim h [ ]
bit-sub (suc n) zero x h lt = omega (arith, pow-suc 2 n)
bit-sub (suc n) (suc k) x h lt =
    ap (λ t. bit t k) (omega (arith, pow-suc 2 n))
    ∙ bit-sub n k (x / 2) (omega arith) (omega (arith, pow-suc 2 n))

-- Words with the same bits are equal.
pub eq_of_bits : (n x y : ℕ) → x < 2 ^ n → y < 2 ^ n → ((k : ℕ) → k < n → bit x k ≡ bit y k) → x ≡ y
unfolding bit
eq_of_bits zero x y hx hy same = omega arith
eq_of_bits (suc n) x y hx hy same = omega (
  arith,
  same 0 (omega arith),
  eq_of_bits n (x / 2) (y / 2) (omega (arith, pow-suc 2 n)) (omega (arith, pow-suc 2 n))
      (λ k h. same (suc k) (omega arith)),
)

pub bit_or-lt : (n a b : ℕ) → a < 2 ^ n → b < 2 ^ n → bit_or a b < 2 ^ n
bit_or-lt zero a b ha hb = let e : a ≡ 0 = omega arith in rw e (omega (arith, zero-bit_or b))
bit_or-lt (suc n) a b ha hb = omega (
  arith,
  pow-suc 2 n,
  bit_or_step a b,
  bit_or-lt n (a / 2) (b / 2) (omega (arith, pow-suc 2 n)) (omega (arith, pow-suc 2 n)),
)

pub bit_and-lt : (n a b : ℕ) → a < 2 ^ n → bit_and a b < 2 ^ n
bit_and-lt zero a b ha = let e : a ≡ 0 = omega arith in rw e (omega (arith, zero-bit_and b))
bit_and-lt (suc n) a b ha = omega (
  arith,
  pow-suc 2 n,
  bit_and_step a b,
  bit_and-lt n (a / 2) (b / 2) (omega (arith, pow-suc 2 n)),
)

-- The number of bits set among the low `n`.
unfoldable pub ones : ℕ → ℕ → ℕ
ones zero x = 0
ones (suc n) x = x % 2 + ones n (x / 2)

ones_same : (n x y : ℕ) → ((k : ℕ) → k < n → bit x k ≡ bit y k) → ones n x ≡ ones n y
unfolding bit ones
ones_same zero x y same = refl
ones_same (suc n) x y same =
    omega
      (arith, same 0 (omega arith), ones_same n (x / 2) (y / 2) (λ k h. same (suc k) (omega arith)))

-- Words that differ at bit `b` at most.
pub ones_differ :
    (n b x y : ℕ)
    → b < n
    → ((k : ℕ) → k < n → k ≢ b → bit x k ≡ bit y k)
    → ones n x + bit y b ≡ ones n y + bit x b
unfolding bit ones
ones_differ zero b x y h same = elim h [ ]
ones_differ (suc n) zero x y h same =
    omega (arith, ones_same n (x / 2) (y / 2) (λ k hk. same (suc k) (omega arith) (omega arith)))
ones_differ (suc n) (suc b) x y h same = omega (
  arith,
  same 0 (omega arith) (omega arith),
  ones_differ n b (x / 2) (y / 2) (omega arith)
      (λ k hk ne. same (suc k) (omega arith) (omega arith)),
)

pub ones-le : (n x : ℕ) → ones n x ≤ n
unfolding ones
ones-le zero x = omega arith
ones-le (suc n) x = omega (arith, ones-le n (x / 2))

-- The lowest bit set among the low `n`, or `n`: `__builtin_ctzll`.
unfoldable pub ctz : ℕ → ℕ → ℕ
ctz zero x = 0
ctz (suc n) x = if x % 2 == 1 then 0 else suc (ctz n (x / 2))

pub ctz_lem :
    (n x : ℕ)
    → x < 2 ^ n
    → x ≢ 0
    → (ctz n x < n) × (bit x (ctz n x) ≡ 1) × ((k : ℕ) → k < ctz n x → bit x k ≡ 0)
unfolding bit ctz
ctz_lem zero x lt ne = absurd (omega arith)
ctz_lem (suc n) x lt ne = elim (Bool-cases (x % 2 == 1)) [
  | inl odd ↦ rw odd (omega arith, ground arith, λ k h. absurd (omega arith))
  | inr even ↦
      let below = ctz_lem n (x / 2) (omega (arith, pow-suc 2 n)) (ground arith) in
      rw even (omega (arith, below.0), below.1, below_suc below.2 (ground arith))
]
  where
    below_suc :
        ((k : ℕ) → k < ctz n (x / 2) → bit (x / 2) k ≡ 0)
        → x % 2 ≡ 0
        → (k : ℕ) → k < suc (ctz n (x / 2))
        → bit x k ≡ 0
    below_suc ih e zero h = e
    below_suc ih e (suc k) h = ih k (omega arith)

-- Setting a bit that may be set already.
module _ (n b x : ℕ) (in_word : b < n) (small : x < 2 ^ n) where
  pub pow-lt : 2 ^ b < 2 ^ n
  pow-lt = omega (
    arith,
    pow-le-pow_right {n = 2} (omega arith) in_word,
    pow-suc 2 b,
    one-le-pow b 2 (omega arith),
  )

  pub bit-set : (k : ℕ) → bit (bit_or x (2 ^ b)) k ≡ (if b == k then 1 else bit x k)
  bit-set k = ground (arith, bit-bit_or x (2 ^ b) k, bit-pow b k, bit-le x k)

  pub bit-clear :
      (k : ℕ) → k < n → bit (bit_and x (2 ^ n - 1 - 2 ^ b)) k ≡ (if b == k then 0 else bit x k)
  bit-clear k h = ground (
    arith,
    bit-bit_and x (2 ^ n - 1 - 2 ^ b) k,
    bit-sub n k (2 ^ b) h pow-lt,
    bit-pow b k,
    bit-le x k,
  )

  pub ones-set : ones n (bit_or x (2 ^ b)) + bit x b ≡ ones n x + 1
  ones-set = ground (
    arith,
    bit-set b,
    ones_differ n b (bit_or x (2 ^ b)) x in_word (λ k h ne. ground (arith, bit-set k)),
  )

  pub ones-clear : ones n (bit_and x (2 ^ n - 1 - 2 ^ b)) + bit x b ≡ ones n x
  ones-clear = ground (
    arith,
    bit-clear b in_word,
    ones_differ n b (bit_and x (2 ^ n - 1 - 2 ^ b)) x in_word
        (λ k h ne. ground (arith, bit-clear k h)),
  )
