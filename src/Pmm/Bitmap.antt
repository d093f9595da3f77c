-- ===== src/Pmm/Bitmap.antt =====
-- The bitmap of kernel/mm/pmm.c read page by page.
use Prim.Native.Nat.{bit_and, bit_or}
use micro_os.Base.{
  ℕ, zero, suc, ◌+◌, ◌-◌, ◌*◌, ◌/◌, ◌%◌, ◌^◌, ◌<◌, ◌≤◌, ◌≡◌, true, false, List, [], ◌∷◌, ◌==◌,
  if◌then◌else◌, get_or, set, length, length-set, get_or-set, arith,
}
use micro_os.Base.Bits.{
  bit, bit-le, shift-bit, bit_or-lt, bit_and-lt, pow-lt, ones, ones-le, ones-set, ones-clear,
  bit-set, bit-clear,
}
use micro_os.Pmm.Defs.{bitmap_set, bitmap_clear, bitmap_test}

-- Every word fits in 64 bits.
abbrev pub Words : List ℕ → Type 0
Words bm = (i : ℕ) → get_or bm i 0 < 2 ^ 64

-- The number of pages marked free.
unfoldable pub total_ones : List ℕ → ℕ
total_ones [] = 0
total_ones (w ∷ bm) = ones 64 w + total_ones bm

pub total_ones-set :
    (bm : List ℕ) (i v : ℕ)
    → i < length bm
    → total_ones (set bm i v) + ones 64 (get_or bm i 0) ≡ total_ones bm + ones 64 v
unfolding total_ones
total_ones-set [] i v h = elim h [ ]
total_ones-set (w ∷ bm) zero v h = omega arith
total_ones-set (w ∷ bm) (suc i) v h = omega (arith, total_ones-set bm i v (omega arith))

pub total_ones-le : (bm : List ℕ) → total_ones bm ≤ length bm * 64
unfolding total_ones
total_ones-le [] = omega arith
total_ones-le (w ∷ bm) = omega (arith, ones-le 64 w, total_ones-le bm)

pub bitmap_test-bit :
    (bm : List ℕ) (p : ℕ) → bitmap_test bm p ≡ (bit (get_or bm (p / 64) 0) (p % 64) == 1)
unfolding bitmap_test
bitmap_test-bit bm p = ground (arith, shift-bit (get_or bm (p / 64) 0) (p % 64))

module _ (bm : List ℕ) (page : ℕ) (in_range : page < length bm * 64) (words : Words bm) where
  in_word : page % 64 < 64
  in_word = omega arith

  -- Setting a page's bit sets that bit alone.
  pub bitmap_test-set :
      (q : ℕ) → bitmap_test (bitmap_set bm page) q ≡ (if page == q then true else bitmap_test bm q)
  unfolding bitmap_set
  bitmap_test-set q =
      let w = get_or bm (page / 64) 0 in
      ground (
        arith,
        bitmap_test-bit bm q,
        bitmap_test-bit (bitmap_set bm page) q,
        get_or-set bm (page / 64) (q / 64) (bit_or w (2 ^ (page % 64))) 0,
        bit-set 64 (page % 64) w in_word (words (page / 64)) (q % 64),
      )

  pub bitmap_test-clear :
      (q : ℕ)
      → bitmap_test (bitmap_clear bm page) q ≡ (if page == q then false else bitmap_test bm q)
  unfolding bitmap_clear
  bitmap_test-clear q =
      let w = get_or bm (page / 64) 0 in
      ground (
        arith,
        bitmap_test-bit bm q,
        bitmap_test-bit (bitmap_clear bm page) q,
        get_or-set bm (page / 64) (q / 64) (bit_and w (2 ^ 64 - 1 - 2 ^ (page % 64))) 0,
        bit-clear 64 (page % 64) w in_word (words (page / 64)) (q % 64),
      )

  pub Words-set : Words (bitmap_set bm page)
  unfolding bitmap_set
  Words-set i =
      let w = get_or bm (page / 64) 0 in
      ground (
        arith,
        words i,
        get_or-set bm (page / 64) i (bit_or w (2 ^ (page % 64))) 0,
        bit_or-lt 64 w (2 ^ (page % 64)) (words (page / 64))
            (pow-lt 64 (page % 64) w in_word (words (page / 64))),
      )

  pub Words-clear : Words (bitmap_clear bm page)
  unfolding bitmap_clear
  Words-clear i =
      let w = get_or bm (page / 64) 0 in
      ground (
        arith,
        words i,
        get_or-set bm (page / 64) i (bit_and w (2 ^ 64 - 1 - 2 ^ (page % 64))) 0,
        bit_and-lt 64 w (2 ^ 64 - 1 - 2 ^ (page % 64)) (words (page / 64)),
      )

  pub total_ones-bitmap_set :
      total_ones (bitmap_set bm page) + (if bitmap_test bm page then 1 else 0) ≡ total_ones bm + 1
  unfolding bitmap_set
  total_ones-bitmap_set =
      let w = get_or bm (page / 64) 0 in
      ground (
        arith,
        bit-le w (page % 64),
        bitmap_test-bit bm page,
        total_ones-set bm (page / 64) (bit_or w (2 ^ (page % 64))) (omega arith),
        ones-set 64 (page % 64) w in_word (words (page / 64)),
      )

  pub total_ones-bitmap_clear :
      total_ones (bitmap_clear bm page) + (if bitmap_test bm page then 1 else 0) ≡ total_ones bm
  unfolding bitmap_clear
  total_ones-bitmap_clear =
      let w = get_or bm (page / 64) 0 in
      ground (
        arith,
        bit-le w (page % 64),
        bitmap_test-bit bm page,
        total_ones-set bm (page / 64) (bit_and w (2 ^ 64 - 1 - 2 ^ (page % 64))) (omega arith),
        ones-clear 64 (page % 64) w in_word (words (page / 64)),
      )

pub length-bitmap_set : (bm : List ℕ) (page : ℕ) → length (bitmap_set bm page) ≡ length bm
unfolding bitmap_set
length-bitmap_set bm page = length-set bm (page / 64) _

pub length-bitmap_clear : (bm : List ℕ) (page : ℕ) → length (bitmap_clear bm page) ≡ length bm
unfolding bitmap_clear
length-bitmap_clear bm page = length-set bm (page / 64) _
