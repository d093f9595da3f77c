-- ===== src/Pmm/Tests.antt =====
-- Runs of the page allocator, and its theorems at concrete states.
use micro_os.Base.{
  ℕ, zero, suc, ◌+◌, ◌-◌, ◌*◌, ◌^◌, ◌≡◌, ◌≢◌, refl, true, some, List, [], ◌∷◌, ◌&&◌, not, ltb, leb,
  if◌then◌else◌, length, arith,
}
use micro_os.Base.Bits.{ones, ctz}
use micro_os.Base.Loop.{while}
use micro_os.Pmm.Defs.{
  Pmm, bitmap_test, bitmap_set, bitmap_clear, alloc_scan, pmm_alloc_page, pmm_free_page,
}
use micro_os.Pmm.Popcount.{popcount64}
use micro_os.Pmm.Bitmap.{Words, total_ones}
use micro_os.Pmm.Alloc.{IsValid, Allocated, pmm_alloc_page-Allocated, Freed, pmm_free_page-Freed}
use micro_os.Pmm.Range.{
  bit_step, word_step, mark_range, mark_bit, mark_word, word_change, bitmap_set_range,
  bitmap_set_range_lem,
}
use micro_os.Pmm.Boot.{
  MmapEntry, usable, reserved, find_highest, place_bitmap, trim, avoid_low, avoid_kernel,
  align_region, bitmap_bytes, pmm_init,
}
use micro_os.Pmm.BootSpec.{usable_page, reserved_page}
use micro_os.Pmm.BootState.{pmm_init_lem}
use micro_os.Pmm.Placement.{Clear, Placed}
use micro_os.Pmm.Spec.{alloc, free, Pages, Shows, run, spec_run, run-spec_run}

-- 128 pages, of which 2, 3 and 65 are free.
abbrev small : Pmm
small = record { bitmap = 12 ∷ 2 ∷ []; total_pages = 128; free_count = 3 }

small_words : Words small.bitmap
small_words zero = omega arith
small_words (suc zero) = omega arith
small_words (suc (suc i)) = omega arith

small-IsValid : IsValid small
unfolding total_ones ones
small-IsValid = record {
  words = small_words;
  size = omega arith;
  fits = omega arith;
  counted = refl;
}

-- Three pages are given out, then none; page 3 is freed, and is given out again.
script :
    run small (alloc ∷ alloc ∷ alloc ∷ alloc ∷ free 12288 ∷ alloc ∷ [])
    ≡ 8192 ∷ 12288 ∷ 266240 ∷ 0 ∷ 12288 ∷ []
unfolding run pmm_alloc_page alloc_scan pmm_free_page bitmap_test bitmap_set bitmap_clear ctz
script = refl

popcount : popcount64 0xF00000000000000F ≡ 8
unfolding popcount64
popcount = refl

pmm_alloc_page-Allocated_example : Allocated small (pmm_alloc_page small)
pmm_alloc_page-Allocated_example = pmm_alloc_page-Allocated small small-IsValid

pmm_free_page-Freed_example : Freed small 70 (pmm_free_page small 286720)
pmm_free_page-Freed_example = pmm_free_page-Freed small 286720 small-IsValid (omega arith)

small_alloc : (pmm_alloc_page small).0 ≢ 0
unfolding pmm_alloc_page alloc_scan ctz
small_alloc = ground arith

abbrev small_pages : Pages
small_pages q = bitmap_test small.bitmap q

small-Shows : Shows small 128 small_pages
small-Shows = record { valid = small-IsValid; end = refl; same = λ q. refl }

run-spec_run_example :
    run small (alloc ∷ free 0 ∷ alloc ∷ []) ≡ spec_run 128 small_pages (alloc ∷ free 0 ∷ alloc ∷ [])
run-spec_run_example = run-spec_run (alloc ∷ free 0 ∷ alloc ∷ []) small 128 small_pages small-Shows

-- Pages 60 to 127 are marked free: four bits, one whole word.
set_range : bitmap_set_range small.bitmap 60 128 ≡ ((15 * 2 ^ 60 + 12) ∷ (2 ^ 64 - 1) ∷ [], 67)
unfolding bitmap_set_range mark_range while bit_step word_step mark_bit mark_word word_change
    bitmap_test bitmap_set popcount64
set_range = refl

bitmap_set_range_lem_example :
    let (bm', count) = bitmap_set_range small.bitmap 60 128 in
    ((q : ℕ)
      → bitmap_test bm' q ≡ (if leb 60 q && ltb q 128 then true else bitmap_test small.bitmap q))
    × (total_ones bm' ≡ total_ones small.bitmap + count)
    × Words bm'
    × (length bm' ≡ 2)
bitmap_set_range_lem_example = bitmap_set_range_lem small.bitmap 60 128 small_words (omega arith)

-- Low memory, 4 MiB from 1 MiB on with the kernel at its start, and a hole.
abbrev map_entries : List MmapEntry
map_entries =
    record { base = 0; length = 0xa0000; type = usable }
    ∷ record { base = 0x100000; length = 0x400000; type = usable }
    ∷ record { base = 0x500000; length = 0x1000; type = reserved }
    ∷ []

placed : place_bitmap 0x100000 0x140000 168 map_entries ≡ some 0x140000
unfolding place_bitmap trim avoid_low avoid_kernel align_region
placed = refl

highest : find_highest map_entries 0 ≡ 0x501
unfolding find_highest
highest = refl

pmm_init_lem_example :
    let size = bitmap_bytes (find_highest map_entries 0) in
    (p : Pmm) × (pmm_init map_entries 0x100000 0x40000 ≡ some p)
    × IsValid p
    × ((q : ℕ)
        → bitmap_test p.bitmap q
          ≡ (usable_page map_entries q && not (reserved_page 0x100000 0x40000 0x140000 size q)))
    × Clear 0x100000 (0x100000 + 0x40000) size 0x140000
    × Placed 0x100000 (0x100000 + 0x40000) size 0x140000 map_entries
pmm_init_lem_example =
    pmm_init_lem map_entries 0x100000 0x40000 0x140000 (omega arith) (rw highest placed)
      (rw highest (omega arith))
