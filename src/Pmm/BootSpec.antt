-- ===== src/Pmm/BootSpec.antt =====
-- Which pages `pmm_init` ought to leave free, said of addresses, and that its page numbers agree.
use micro_os.Base.{
  ℕ, ◌+◌, ◌-◌, ◌*◌, ◌/◌, ◌^◌, ◌≤◌, ◌≡◌, refl, Bool, false, ◌&&◌, ◌||◌, List, [], ◌∷◌, ltb, leb,
  if◌then◌else◌, arith,
}
use micro_os.Pmm.Defs.{page_size}
use micro_os.Pmm.Boot.{
  MmapEntry, is_usable, add64, start_page, end_page, find_highest, kernel_end, bitmap_end,
  bitmap_bytes,
}

abbrev pub in_range : ℕ → ℕ → ℕ → Bool
in_range start end q = leb start q && ltb q end

-- All bytes of page `q` lie from `base` on and before `base + length`.
abbrev pub lies_in : MmapEntry → ℕ → Bool
lies_in e q = leb e.base (q * page_size) && leb ((q + 1) * page_size) (e.base + e.length)

-- A page that lies whole in a usable region.
unfoldable pub usable_page : List MmapEntry → ℕ → Bool
usable_page [] q = false
usable_page (e ∷ es) q = (is_usable e.type && lies_in e q) || usable_page es q

-- Page `q` ends behind `start` and begins before `start + size`.
abbrev pub touches : ℕ → ℕ → ℕ → Bool
touches start size q = ltb (q * page_size) (start + size) && ltb start ((q + 1) * page_size)

-- The pages that are kept: those with a byte of the low megabyte, of the kernel, or of the bitmap
-- of `size` bytes at `addr`.
unfoldable pub reserved_page : ℕ → ℕ → ℕ → ℕ → ℕ → Bool
reserved_page kernel_phys kernel_size addr size q =
    touches 0 0x100000 q || (touches kernel_phys kernel_size q || touches addr size q)

-- No region reaches into the last page of the 64-bit addresses.
abbrev pub NoWrap : List MmapEntry → Type 0
NoWrap [] = Unit {0}
NoWrap (e ∷ es) = (e.base + e.length + page_size ≤ 2 ^ 64) × NoWrap es

-- Every region ends before page `total + 1` does.
abbrev pub Covered : ℕ → List MmapEntry → Type 0
Covered total [] = Unit {0}
Covered total (e ∷ es) = ((e.base + e.length) / page_size ≤ total) × Covered total es

pub find_highest-Covered :
    (es : List MmapEntry) (highest : ℕ)
    → NoWrap es
    → (highest ≤ find_highest es highest) × Covered (find_highest es highest) es
unfolding find_highest
find_highest-Covered [] highest w = (omega arith, tt)
find_highest-Covered (e ∷ es) highest (w, ws) =
    let here = add64 e.base e.length / page_size in
    let next = if ltb highest here then here else highest in
    let (le, covered) = find_highest-Covered es next ws in
    let reached : (e.base + e.length) / page_size ≤ next = ground arith in
    let grown : highest ≤ next = ground arith in
    (omega (arith, le, grown), (omega (arith, le, reached), covered))

-- The pages that pass 3 marks, by the page numbers that the code computes.
unfoldable pub marked_page : ℕ → List MmapEntry → ℕ → Bool
marked_page total [] q = false
marked_page total (e ∷ es) q =
    (is_usable e.type && in_range (start_page e) (end_page total e) q) || marked_page total es q

whole_pages :
    (total : ℕ) (e : MmapEntry) (q : ℕ)
    → e.base + e.length + page_size ≤ 2 ^ 64
    → (e.base + e.length) / page_size ≤ total
    → in_range (start_page e) (end_page total e) q ≡ lies_in e q
whole_pages total e q w c = ground arith

pub marked_page-usable_page :
    (total : ℕ) (es : List MmapEntry) (q : ℕ)
    → NoWrap es
    → Covered total es
    → marked_page total es q ≡ usable_page es q
unfolding marked_page usable_page
marked_page-usable_page total [] q w c = refl
marked_page-usable_page total (e ∷ es) q (w, ws) (c, cs) =
    rw (whole_pages total e q w c, marked_page-usable_page total es q ws cs) refl

-- The pages that are cleared again, by the page numbers that the code computes.
unfoldable pub cleared_page : ℕ → ℕ → ℕ → ℕ → ℕ → Bool
cleared_page kernel_phys kernel_size total addr q =
    in_range 0 (0x100000 / page_size) q
    || (in_range (kernel_phys / page_size) (kernel_end kernel_phys kernel_size) q
        || in_range (addr / page_size) (bitmap_end total addr) q)

touched :
    (start size q : ℕ)
    → start + size + page_size ≤ 2 ^ 64
    → in_range (start / page_size) (add64 (add64 start size) (page_size - 1) / page_size) q
      ≡ touches start size q
touched start size q w = ground arith

low_pages : (q : ℕ) → in_range 0 (0x100000 / page_size) q ≡ touches 0 0x100000 q
low_pages q = ground arith

pub cleared_page-reserved_page :
    (kernel_phys kernel_size total addr q : ℕ)
    → kernel_phys + kernel_size + page_size ≤ 2 ^ 64
    → addr + bitmap_bytes total + page_size ≤ 2 ^ 64
    → cleared_page kernel_phys kernel_size total addr q
      ≡ reserved_page kernel_phys kernel_size addr (bitmap_bytes total) q
unfolding cleared_page reserved_page
cleared_page-reserved_page kernel_phys kernel_size total addr q k b =
    rw (low_pages q, touched kernel_phys kernel_size q k, touched addr (bitmap_bytes total) q b)
      refl
