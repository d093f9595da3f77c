-- ===== src/Pmm/BootState.antt =====
-- The state that `pmm_init` leaves: which pages are free, and its invariant.
use micro_os.Base.{
  ℕ, zero, suc, ◌+◌, ◌*◌, ◌/◌, ◌%◌, ◌^◌, ◌<◌, ◌≤◌, ◌≡◌, ◌∙◌, refl, false, ◌&&◌, ◌||◌, not, some,
  List, [], ◌∷◌, replicate, length, length-replicate, get_or-replicate, arith, Bool-cases, inl, inr,
}
use micro_os.Base.Bits.{zero-bit, ones}
use micro_os.Pmm.Defs.{Pmm, page_size, bitmap_test}
use micro_os.Pmm.Bitmap.{Words, total_ones, total_ones-le, bitmap_test-bit}
use micro_os.Pmm.Alloc.{IsValid}
use micro_os.Pmm.Range.{bitmap_set_range, bitmap_set_range_lem, bitmap_clear_range_lem}
use micro_os.Pmm.Boot.{
  MmapEntry, is_usable, add64, start_page, end_page, find_highest, place_bitmap, mark_usable,
  reserve, bitmap_bytes, kernel_end, bitmap_end, reserve_all, init_at, pmm_init,
}
use micro_os.Pmm.BootSpec.{
  in_range, usable_page, reserved_page, NoWrap, find_highest-Covered, marked_page,
  marked_page-usable_page, cleared_page, cleared_page-reserved_page,
}
use micro_os.Pmm.Placement.{Clear, Placed, place_bitmap_lem, Placed-inside}
use mathlib.Core.Path.{ap₂}

-- A bitmap of `n` words and its counter.
record Good (n : ℕ) (st : List ℕ × ℕ) : Type 0 where
  words : Words st.0
  size : length st.0 ≡ n
  counted : st.1 ≡ total_ones st.0

module _ (n : ℕ) (fits : n * 64 < 2 ^ 64) where
  mark_one :
      (total : ℕ) (e : MmapEntry) (st : List ℕ × ℕ)
      → total ≤ n * 64
      → Good n st
      → let (bm', count) = bitmap_set_range st.0 (start_page e) (end_page total e) in
        Good n (bm', add64 st.1 count)
        × ((q : ℕ)
            → bitmap_test bm' q
              ≡ (in_range (start_page e) (end_page total e) q || bitmap_test st.0 q))
  mark_one total e st h g =
      let inside : end_page total e ≤ length st.0 * 64 = ground (arith, g.size) in
      let (pages, change, words, size) =
        bitmap_set_range_lem st.0 (start_page e) (end_page total e) g.words inside in
      let bm' = (bitmap_set_range st.0 (start_page e) (end_page total e)).0 in
      (
        record {
          words = words;
          size = omega (arith, size, g.size);
          counted = omega (arith, change, g.counted, total_ones-le bm', size, g.size);
        },
        λ q. ground (arith, pages q),
      )

  mark_usable-Good :
      (total : ℕ) (es : List MmapEntry) (st : List ℕ × ℕ)
      → total ≤ n * 64
      → Good n st
      → Good n (mark_usable total es st)
        × ((q : ℕ)
            → bitmap_test (mark_usable total es st).0 q
              ≡ (marked_page total es q || bitmap_test st.0 q))
  unfolding mark_usable marked_page
  mark_usable-Good total [] st h g = (g, λ q. refl)
  mark_usable-Good total (e ∷ es) st h g = elim (Bool-cases (is_usable e.type)) [
    | inl on ↦
        let (good, pages) = mark_one total e st h g in
        let (good', pages') = mark_usable-Good total es _ h good in
        rw (on, mark_usable) (good', λ q. ground (arith, pages q, pages' q))
    | inr off ↦ rw (off, mark_usable) (mark_usable-Good total es st h g)
  ]

  reserve-Good :
      (start end : ℕ) (st : List ℕ × ℕ)
      → end ≤ n * 64
      → Good n st
      → Good n (reserve start end st)
        × ((q : ℕ)
            → bitmap_test (reserve start end st).0 q
              ≡ (not (in_range start end q) && bitmap_test st.0 q))
  unfolding reserve
  reserve-Good start end st h g =
      let (pages, change, words, size) =
        bitmap_clear_range_lem st.0 start end g.words (omega (arith, g.size)) in
      (
        record {
          words = words;
          size = omega (arith, size, g.size);
          counted = omega (arith, change, g.counted, total_ones-le st.0, g.size);
        },
        λ q. ground (arith, pages q),
      )

total_ones-replicate : (n : ℕ) → total_ones (replicate n 0) ≡ 0
unfolding total_ones
total_ones-replicate zero = refl
total_ones-replicate (suc n) =
    let none_set : ones 64 0 ≡ 0 = unfold ones in refl in
    omega (arith, none_set, total_ones-replicate n)

empty-Good : (n : ℕ) → Good n (replicate n 0, 0) × ((q : ℕ) → bitmap_test (replicate n 0) q ≡ false)
empty-Good n = (
  record {
    words = λ i. omega (arith, get_or-replicate {A = ℕ} n i 0);
    size = length-replicate n 0;
    counted = omega (arith, total_ones-replicate n);
  },
  λ q. ground (
    arith,
    bitmap_test-bit (replicate n 0) q,
    get_or-replicate {A = ℕ} n (q / 64) 0,
    zero-bit (q % 64),
  ),
)

-- What the memory map must say: memory reaches past 1 MiB and holds the kernel and the bitmap,
-- and its pages can be numbered by 64 bits; nor does the kernel reach the last page of these.
pub record MapFits (kernel_phys kernel_size total addr : ℕ) : Type 0 where
  pub low : 0x100000 / page_size ≤ total
  pub kernel_inside : kernel_phys + kernel_size + page_size ≤ 2 ^ 64
  pub kernel : kernel_end kernel_phys kernel_size ≤ total
  pub bitmap : bitmap_end total addr ≤ total
  pub small : total + 64 < 2 ^ 64

module _ (es : List MmapEntry) (kernel_phys kernel_size total addr : ℕ)
    (f : MapFits kernel_phys kernel_size total addr) where
  words : ℕ
  words = bitmap_bytes total / 8

  enough : (words * 64 < 2 ^ 64) × (total ≤ words * 64)
  unfolding words
  enough = (omega (arith, f.small), omega arith)

  -- What `pmm_init` leaves: a page is free exactly if pass 3 marks it and no later loop clears it,
  -- and the counter counts the free pages.
  init_at-IsValid :
      let p = init_at es kernel_phys kernel_size total addr in
      IsValid p
      × ((q : ℕ)
          → bitmap_test p.bitmap q
            ≡ (marked_page total es q && not (cleared_page kernel_phys kernel_size total addr q)))
  unfolding init_at words reserve_all cleared_page
  init_at-IsValid =
      let (fits, room) = enough in
      let (g0, p0) = empty-Good words in
      let (g1, p1) = mark_usable-Good words fits total es _ room g0 in
      let (g2, p2) = reserve-Good words fits 0 (0x100000 / page_size) _ (omega (arith, f.low)) g1 in
      let (g3, p3) =
        reserve-Good words fits (kernel_phys / page_size) (kernel_end kernel_phys kernel_size) _
          (omega (arith, f.kernel)) g2 in
      let (g4, p4) =
        reserve-Good words fits (addr / page_size) (bitmap_end total addr) _
          (omega (arith, f.bitmap)) g3 in
      (
        record {
          words = g4.words;
          size = omega (arith, g4.size);
          fits = omega (arith, g4.size);
          counted = g4.counted;
        },
        λ q. ground (arith, p0 q, p1 q, p2 q, p3 q, p4 q),
      )

-- `pmm_init` on a memory map that reaches past 1 MiB and holds the kernel and the bitmap, none of
-- them in the last page of the 64-bit addresses: the bitmap lies in a usable region, page-aligned,
-- above 1 MiB and clear of the kernel; a page is free exactly if all its bytes lie in one usable
-- region and none lies in the low megabyte, in the kernel or in the bitmap; and the state is valid.
pub pmm_init_lem :
    (es : List MmapEntry) (kernel_phys kernel_size addr : ℕ)
    → NoWrap es
    → place_bitmap kernel_phys (add64 kernel_phys kernel_size) (bitmap_bytes (find_highest es 0)) es
      ≡ some addr
    → MapFits kernel_phys kernel_size (find_highest es 0) addr
    → let size = bitmap_bytes (find_highest es 0) in
      (p : Pmm) × (pmm_init es kernel_phys kernel_size ≡ some p)
      × IsValid p
      × ((q : ℕ)
          → bitmap_test p.bitmap q
            ≡ (usable_page es q && not (reserved_page kernel_phys kernel_size addr size q)))
      × Clear kernel_phys (kernel_phys + kernel_size) size addr
      × Placed kernel_phys (kernel_phys + kernel_size) size addr es
unfolding pmm_init
pmm_init_lem es kernel_phys kernel_size addr w at f =
    let total = find_highest es 0 in
    let (valid, pages) = init_at-IsValid es kernel_phys kernel_size total addr f in
    let kend : add64 kernel_phys kernel_size ≡ kernel_phys + kernel_size =
      omega (arith, f.kernel_inside) in
    let (clear, placed) =
      place_bitmap_lem kernel_phys (kernel_phys + kernel_size) (bitmap_bytes total) addr es
        (rw kend at at) w in
    let inside =
      Placed-inside kernel_phys (kernel_phys + kernel_size) (bitmap_bytes total) addr es placed w in
    let (_, covered) = find_highest-Covered es 0 w in
    (
      init_at es kernel_phys kernel_size total addr,
      rw (at, pmm_init),
      valid,
      λ q.
          pages q
          ∙ ap₂ (λ a b. a && not b) (marked_page-usable_page total es q w covered)
              (cleared_page-reserved_page kernel_phys kernel_size total addr q f.kernel_inside
                inside),
      clear,
      placed,
    )
