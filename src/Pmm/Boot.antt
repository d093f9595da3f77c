-- ===== src/Pmm/Boot.antt =====
-- `pmm_init` of kernel/mm/pmm.c over the memory map of boot/bootinfo.h.
use micro_os.Base.{
  ℕ, ◌+◌, ◌-◌, ◌*◌, ◌/◌, ◌%◌, ◌^◌, Bool, true, false, ◌&&◌, not, Option, none, some, ◌>>=◌, List,
  [], ◌∷◌, ltb, leb, if◌then◌else◌, replicate,
}
use micro_os.Pmm.Defs.{Pmm, page_size}
use micro_os.Pmm.Range.{bitmap_set_range, bitmap_clear_range}

-- `MmapEntryType`.
pub data MmapEntryType : Type 0 where
  usable reserved acpi_reclaimable acpi_nvs bad_memory bootloader_reclaimable kernel framebuffer :
      MmapEntryType

pub record MmapEntry : Type 0 where
  pub base : ℕ
  pub length : ℕ
  pub type : MmapEntryType

abbrev pub is_usable : MmapEntryType → Bool
is_usable usable = true
is_usable _ = false

-- `uint64_t` sums and differences.
abbrev pub add64 : ℕ → ℕ → ℕ
add64 a b = (a + b) % 2 ^ 64

abbrev pub sub64 : ℕ → ℕ → ℕ
sub64 a b = (a + 2 ^ 64 - b) % 2 ^ 64

-- `x & ~(PAGE_SIZE - 1)`, and the same after adding `PAGE_SIZE - 1`.
abbrev pub align_down : ℕ → ℕ
align_down x = x - x % page_size

abbrev pub align_up : ℕ → ℕ
align_up x = align_down (add64 x (page_size - 1))

-- Pass 1: the end of the highest region, in pages.
unfoldable pub find_highest : List MmapEntry → ℕ → ℕ
find_highest [] highest = highest
find_highest (e ∷ es) highest =
    let end_page = add64 e.base e.length / page_size in
    find_highest es (if ltb highest end_page then end_page else highest)

-- Pass 2 trims a region, its base and length, from below; `none` is `continue`.
abbrev pub Region : Type 0
Region = ℕ × ℕ

unfoldable pub skip : ℕ → Region → Option Region
skip n (base, len) = if leb len n then none else some (add64 base n, len - n)

unfoldable pub avoid_low : Region → Option Region
unfolding skip
avoid_low (base, len) =
    if ltb base 0x100000 then skip (0x100000 - base) (base, len) else some (base, len)

unfoldable pub avoid_kernel : ℕ → ℕ → Region → Option Region
unfolding skip
avoid_kernel kernel_phys kend (base, len) =
    if ltb base kend && ltb kernel_phys (add64 base len)
    then skip (kend - base) (base, len)
    else some (base, len)

unfoldable pub align_region : Region → Option Region
unfolding skip
align_region (base, len) =
    let aligned = align_up base in
    let diff = sub64 aligned base in if leb len diff then none else some (aligned, len - diff)

unfoldable pub trim : ℕ → ℕ → MmapEntry → Option Region
trim kernel_phys kend e = do
  r ← avoid_low (e.base, e.length)
  r ← avoid_kernel kernel_phys kend r
  align_region r

-- Where the bitmap goes: the first usable region with room for it.
unfoldable pub place_bitmap : ℕ → ℕ → ℕ → List MmapEntry → Option ℕ
place_bitmap kernel_phys kend bitmap_size [] = none
place_bitmap kernel_phys kend bitmap_size (e ∷ es) =
    let rest = place_bitmap kernel_phys kend bitmap_size es in
    if not (is_usable e.type) then rest else elim (trim kernel_phys kend e) [
      | none ↦ rest
      | some (base, len) ↦ if leb bitmap_size len then some base else rest
    ]

-- The pages that pass 3 takes from a region: those that lie in it whole.
abbrev pub start_page : MmapEntry → ℕ
start_page e = align_up e.base / page_size

abbrev pub end_page : ℕ → MmapEntry → ℕ
end_page total_pages e =
    let last = align_down (add64 e.base e.length) / page_size in
    if ltb total_pages last then total_pages else last

-- Pass 3.
unfoldable pub mark_usable : ℕ → List MmapEntry → List ℕ × ℕ → List ℕ × ℕ
mark_usable total_pages [] st = st
mark_usable total_pages (e ∷ es) (bm, free_count) =
    let (bm', count) = bitmap_set_range bm (start_page e) (end_page total_pages e) in
    mark_usable total_pages es
      (if is_usable e.type then (bm', add64 free_count count) else (bm, free_count))

-- `free_count -= bitmap_clear_range(start, end)`
unfoldable pub reserve : ℕ → ℕ → List ℕ × ℕ → List ℕ × ℕ
reserve start end (bm, free_count) =
    let (bm', count) = bitmap_clear_range bm start end in (bm', sub64 free_count count)

abbrev pub bitmap_bytes : ℕ → ℕ
bitmap_bytes total_pages = (total_pages + 63) / 64 * 8

-- The three reserved ranges of pages: up to 1 MiB, the kernel, and the bitmap.
abbrev pub kernel_end : ℕ → ℕ → ℕ
kernel_end kernel_phys kernel_size =
    add64 (add64 kernel_phys kernel_size) (page_size - 1) / page_size

abbrev pub bitmap_end : ℕ → ℕ → ℕ
bitmap_end total_pages addr =
    add64 (add64 addr (bitmap_bytes total_pages)) (page_size - 1) / page_size

unfoldable pub reserve_all : ℕ → ℕ → ℕ → ℕ → List ℕ × ℕ → List ℕ × ℕ
reserve_all kernel_phys kernel_size total_pages addr st =
    reserve (addr / page_size) (bitmap_end total_pages addr) (
      reserve (kernel_phys / page_size) (kernel_end kernel_phys kernel_size)
        (reserve 0 (0x100000 / page_size) st))

unfoldable pub init_at : List MmapEntry → ℕ → ℕ → ℕ → ℕ → Pmm
init_at es kernel_phys kernel_size total_pages addr =
    let empty = replicate (bitmap_bytes total_pages / 8) 0 in
    let (bm, free_count) =
      reserve_all kernel_phys kernel_size total_pages addr
        (mark_usable total_pages es (empty, 0)) in
    record { bitmap = bm; total_pages = total_pages; free_count = free_count }

-- `none` where no region holds the bitmap, which `pmm_init` leaves NULL.
unfoldable pub pmm_init : List MmapEntry → ℕ → ℕ → Option Pmm
pmm_init es kernel_phys kernel_size =
    let total_pages = find_highest es 0 in
    elim (place_bitmap kernel_phys (add64 kernel_phys kernel_size) (bitmap_bytes total_pages) es) [
      | none ↦ none
      | some addr ↦ some (init_at es kernel_phys kernel_size total_pages addr)
    ]
