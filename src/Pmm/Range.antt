-- ===== src/Pmm/Range.antt =====
-- `bitmap_set_range` and `bitmap_clear_range`: pages up to a word boundary, whole words, the rest.
use micro_os.Base.{
  ℕ, ◌+◌, ◌-◌, ◌*◌, ◌/◌, ◌%◌, ◌^◌, ◌<◌, ◌≤◌, ◌≡◌, refl, max, Bool, true, false, ◌&&◌, not, List,
  ◌==◌, ltb, leb, if◌then◌else◌, get_or, set, length, length-set, get_or-set, arith, Bool-cases,
  inl, inr, ◌⊎◌,
}
use micro_os.Base.Bits.{bit-sub, zero-bit, ones, ones-le}
use micro_os.Base.Loop.{while, while-ends}
use micro_os.Pmm.Defs.{bitmap_set, bitmap_clear, bitmap_test}
use micro_os.Pmm.Popcount.{popcount64, popcount64-ones}
use micro_os.Pmm.Bitmap.{
  Words, total_ones, total_ones-set, bitmap_test-bit, bitmap_test-set, bitmap_test-clear, Words-set,
  Words-clear, total_ones-bitmap_set, total_ones-bitmap_clear, length-bitmap_set,
  length-bitmap_clear,
}

-- The variables of the loops: the bitmap, `start` and `count`.
pub record Range : Type 0 where
  pub bitmap : List ℕ
  pub start : ℕ
  pub count : ℕ

-- The two functions differ in the value `v` that they write: 1 to set, 0 to clear.
unfoldable pub mark_bit : Bool → List ℕ → ℕ → List ℕ
mark_bit true bm page = bitmap_set bm page
mark_bit false bm page = bitmap_clear bm page

-- A whole word, and the number of its bits that change.
unfoldable pub mark_word : Bool → ℕ
mark_word true = 2 ^ 64 - 1
mark_word false = 0

unfoldable pub word_change : Bool → ℕ → ℕ
word_change true w = 64 - popcount64 w
word_change false w = popcount64 w

abbrev pub is : Bool → Bool → Bool
is true b = b
is false b = not b

-- `if (!bitmap_test(start)) { bitmap_set(start); count++; } start++;`
unfoldable pub bit_step : Bool → Range → Range
bit_step v s =
    if is v (bitmap_test s.bitmap s.start)
    then record s { start = s.start + 1 }
    else record { bitmap = mark_bit v s.bitmap s.start; start = s.start + 1; count = s.count + 1 }

unfoldable pub word_step : Bool → Range → Range
word_step v s =
    let idx = s.start / 64 in
    record {
      bitmap = set s.bitmap idx (mark_word v);
      start = s.start + 64;
      count = s.count + word_change v (get_or s.bitmap idx 0);
    }

-- The three loops. Each round moves `start` towards `end`, so `end` rounds are enough.
unfoldable pub mark_range : Bool → List ℕ → ℕ → ℕ → Range
mark_range v bm start end =
    let s0 : Range = record { bitmap = bm; start = start; count = 0 } in
    let head = while (λ s. ltb s.start end && not (s.start % 64 == 0)) (bit_step v) s0 (end + 1) in
    let words = while (λ s. leb (s.start + 64) end) (word_step v) head (end + 1) in
    while (λ s. ltb s.start end) (bit_step v) words (end + 1)

unfoldable pub bitmap_set_range : List ℕ → ℕ → ℕ → List ℕ × ℕ
bitmap_set_range bm start end = let s = mark_range true bm start end in (s.bitmap, s.count)

unfoldable pub bitmap_clear_range : List ℕ → ℕ → ℕ → List ℕ × ℕ
bitmap_clear_range bm start end = let s = mark_range false bm start end in (s.bitmap, s.count)

-- `s` is reached from `bm` by writing `v` to the pages from `start` to `s.start`.
record Marked (v : Bool) (bm : List ℕ) (start end : ℕ) (s : Range) : Type 0 where
  words : Words s.bitmap
  size : length s.bitmap ≡ length bm
  lo : start ≤ s.start
  hi : s.start ≤ max start end
  pages :
      (q : ℕ)
      → bitmap_test s.bitmap q ≡ (if leb start q && ltb q s.start then v else bitmap_test bm q)
  change :
      (if v then s.count + total_ones bm else s.count + total_ones s.bitmap)
      ≡ (if v then total_ones s.bitmap else total_ones bm)

module _ (bm : List ℕ) (start end : ℕ) (fits : end ≤ length bm * 64) where
  -- A round on a page that holds `v` already.
  skip-Marked :
      (v : Bool) (s : Range)
      → Marked v bm start end s
      → s.start < end
      → bitmap_test s.bitmap s.start ≡ v
      → Marked v bm start end (record s { start = s.start + 1 })
  skip-Marked v s m h e = record {
    words = m.words;
    size = m.size;
    lo = omega (arith, m.lo);
    hi = omega arith;
    pages = λ q. ground (arith, m.pages q);
    change = m.change;
  }

  mark_bit-Marked :
      (v : Bool) (s : Range)
      → Marked v bm start end s
      → s.start < end
      → Marked v bm start end (bit_step v s)
  unfolding bit_step mark_bit
  mark_bit-Marked true s m h =
      let inside : s.start < length s.bitmap * 64 = omega (arith, m.size) in
      elim (Bool-cases (bitmap_test s.bitmap s.start)) [
        | inl on ↦ rw on (skip-Marked true s m h on)
        | inr off ↦ rw off (record {
          words = Words-set s.bitmap s.start inside m.words;
          size = omega (arith, m.size, length-bitmap_set s.bitmap s.start);
          lo = omega (arith, m.lo);
          hi = omega arith;
          pages = λ q.
              ground (arith, m.lo, m.pages q, bitmap_test-set s.bitmap s.start inside m.words q);
          change = ground (arith, m.change, total_ones-bitmap_set s.bitmap s.start inside m.words);
        })
      ]
  mark_bit-Marked false s m h =
      let inside : s.start < length s.bitmap * 64 = omega (arith, m.size) in
      elim (Bool-cases (bitmap_test s.bitmap s.start)) [
        | inr off ↦ rw off (skip-Marked false s m h off)
        | inl on ↦ rw on (record {
          words = Words-clear s.bitmap s.start inside m.words;
          size = omega (arith, m.size, length-bitmap_clear s.bitmap s.start);
          lo = omega (arith, m.lo);
          hi = omega arith;
          pages = λ q.
              ground (arith, m.lo, m.pages q, bitmap_test-clear s.bitmap s.start inside m.words q);
          change =
              ground (arith, m.change, total_ones-bitmap_clear s.bitmap s.start inside m.words);
        })
      ]

  module _ (s : Range) (aligned : s.start % 64 ≡ 0) (room : s.start + 64 ≤ end) where
    word_test :
        (v : Bool) (q : ℕ)
        → s.start / 64 < length s.bitmap
        → bitmap_test (set s.bitmap (s.start / 64) (mark_word v)) q
          ≡ (if leb s.start q && ltb q (s.start + 64) then v else bitmap_test s.bitmap q)
    unfolding mark_word
    word_test true q h = ground (
      arith,
      bitmap_test-bit s.bitmap q,
      bitmap_test-bit (set s.bitmap (s.start / 64) (2 ^ 64 - 1)) q,
      get_or-set s.bitmap (s.start / 64) (q / 64) (2 ^ 64 - 1) 0 h,
      bit-sub 64 (q % 64) 0 (omega arith) (omega arith),
      zero-bit (q % 64),
    )
    word_test false q h = ground (
      arith,
      bitmap_test-bit s.bitmap q,
      bitmap_test-bit (set s.bitmap (s.start / 64) 0) q,
      get_or-set s.bitmap (s.start / 64) (q / 64) 0 0 h,
      zero-bit (q % 64),
    )

    word_Words :
        (v : Bool)
        → Words s.bitmap
        → s.start / 64 < length s.bitmap
        → Words (set s.bitmap (s.start / 64) (mark_word v))
    unfolding mark_word
    word_Words true w h i =
        ground (arith, w i, get_or-set s.bitmap (s.start / 64) i (2 ^ 64 - 1) 0 h)
    word_Words false w h i = ground (arith, w i, get_or-set s.bitmap (s.start / 64) i 0 0 h)

    word_count :
        (v : Bool)
        → Words s.bitmap
        → s.start / 64 < length s.bitmap
        → let bm' = set s.bitmap (s.start / 64) (mark_word v) in
          let c = word_change v (get_or s.bitmap (s.start / 64) 0) in
          (if v then c + total_ones s.bitmap else c + total_ones bm')
          ≡ (if v then total_ones bm' else total_ones s.bitmap)
    unfolding mark_word word_change
    word_count true w h =
        let x = get_or s.bitmap (s.start / 64) 0 in
        let full : ones 64 (2 ^ 64 - 1) ≡ 64 = unfold ones in refl in
        omega (
          arith,
          popcount64-ones x (w _),
          ones-le 64 x,
          full,
          total_ones-set s.bitmap (s.start / 64) (2 ^ 64 - 1) h,
        )
    word_count false w h =
        let x = get_or s.bitmap (s.start / 64) 0 in
        let empty : ones 64 0 ≡ 0 = unfold ones in refl in
        omega (
          arith,
          popcount64-ones x (w _),
          ones-le 64 x,
          empty,
          total_ones-set s.bitmap (s.start / 64) 0 h,
        )

    mark_word-Marked : (v : Bool) → Marked v bm start end s → Marked v bm start end (word_step v s)
    unfolding word_step
    mark_word-Marked v m =
        let inside : s.start / 64 < length s.bitmap = omega (arith, m.size) in
        record {
          words = word_Words v m.words inside;
          size = omega (arith, m.size, length-set s.bitmap (s.start / 64) (mark_word v));
          lo = omega (arith, m.lo);
          hi = omega arith;
          pages = λ q. ground (arith, m.lo, m.pages q, word_test v q inside);
          change = ground (arith, m.change, word_count v m.words inside);
        }

  start-bit_step : (v : Bool) (s : Range) → (bit_step v s).start ≡ s.start + 1
  unfolding bit_step
  start-bit_step v s = ground arith

  AlignedOrDone : Range → Type 0
  AlignedOrDone s = (s.start % 64 ≡ 0) ⊎ (end ≤ s.start)

  start-word_step : (v : Bool) (s : Range) → (word_step v s).start ≡ s.start + 64
  unfolding word_step
  start-word_step v s = refl

  word_round :
      (v : Bool) (s : Range)
      → leb (s.start + 64) end ≡ true
      → Marked v bm start end s × AlignedOrDone s
      → (Marked v bm start end (word_step v s) × AlignedOrDone (word_step v s))
        × (end - (word_step v s).start < end - s.start)
  unfolding AlignedOrDone
  word_round v s h (m, inr done) = absurd (ground arith)
  word_round v s h (m, inl aligned) =
      let room : s.start + 64 ≤ end = ground arith in
      (
        (mark_word-Marked s aligned room v m, inl (omega (arith, start-word_step v s))),
        omega (arith, start-word_step v s),
      )

  -- All three loops.
  mark_range-Marked :
      (v : Bool)
      → Words bm
      → let s = mark_range v bm start end in Marked v bm start end s × (s.start ≡ max start end)
  unfolding mark_range AlignedOrDone
  mark_range-Marked v w =
      let s0 : Range = record { bitmap = bm; start = start; count = 0 } in
      let m0 : Marked v bm start end s0 = record {
        words = w;
        size = refl;
        lo = omega arith;
        hi = omega arith;
        pages = λ q. ground arith;
        change = ground arith;
      } in
      let (stop1, m1) =
        while-ends (λ s. ltb s.start end && not (s.start % 64 == 0)) (bit_step v)
          (Marked v bm start end) (λ s. end - s.start)
          (λ s h m. (mark_bit-Marked v s m (ground arith), ground (arith, start-bit_step v s))) s0
          m0 (end + 1) (omega arith) in
      let (stop2, m2) =
        while-ends (λ s. leb (s.start + 64) end) (word_step v)
          (λ s. Marked v bm start end s × AlignedOrDone s) (λ s. end - s.start) (word_round v) _
          (m1, ground arith) (end + 1) (omega arith) in
      let (stop3, m3) =
        while-ends (λ s. ltb s.start end) (bit_step v) (Marked v bm start end) (λ s. end - s.start)
          (λ s h m. (mark_bit-Marked v s m (ground arith), ground (arith, start-bit_step v s))) _
          m2.0 (end + 1) (omega arith) in
      (m3, ground (arith, m3.lo, m3.hi))

-- `bitmap_set_range` marks free exactly the pages from `start` up to `end`, changes no other, and
-- returns how many were not free before.
pub bitmap_set_range_lem :
    (bm : List ℕ) (start end : ℕ)
    → Words bm
    → end ≤ length bm * 64
    → let (bm', count) = bitmap_set_range bm start end in
      ((q : ℕ) → bitmap_test bm' q ≡ (if leb start q && ltb q end then true else bitmap_test bm q))
      × (total_ones bm' ≡ total_ones bm + count)
      × Words bm'
      × (length bm' ≡ length bm)
unfolding bitmap_set_range
bitmap_set_range_lem bm start end w fits =
    let (m, stop) = mark_range-Marked bm start end fits true w in
    (λ q. ground (arith, m.pages q, stop), omega (arith, m.change), m.words, m.size)

-- `bitmap_clear_range` marks used exactly the pages from `start` up to `end`, changes no other,
-- and returns how many were free before.
pub bitmap_clear_range_lem :
    (bm : List ℕ) (start end : ℕ)
    → Words bm
    → end ≤ length bm * 64
    → let (bm', count) = bitmap_clear_range bm start end in
      ((q : ℕ) → bitmap_test bm' q ≡ (if leb start q && ltb q end then false else bitmap_test bm q))
      × (total_ones bm' + count ≡ total_ones bm)
      × Words bm'
      × (length bm' ≡ length bm)
unfolding bitmap_clear_range
bitmap_clear_range_lem bm start end w fits =
    let (m, stop) = mark_range-Marked bm start end fits false w in
    (λ q. ground (arith, m.pages q, stop), omega (arith, m.change), m.words, m.size)
