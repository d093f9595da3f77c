-- ===== src/Pmm/Defs.antt =====
-- The state of kernel/mm/pmm.c, its bit operations, and `pmm_alloc_page`, `pmm_free_page`.
use Prim.Native.Nat.{bit_and, bit_or}
use micro_os.Base.{
  ℕ, zero, suc, ◌+◌, ◌-◌, ◌*◌, ◌/◌, ◌%◌, ◌^◌, Bool, Option, none, some, List, ◌==◌, ltb, leb,
  if◌then◌else◌, get_or, set,
}
use micro_os.Base.Bits.{ctz}

abbrev pub page_size : ℕ
page_size = 4096

-- `PMM_MAX_PAGE`: the pages below 4 GiB.
abbrev pub max_page : ℕ
max_page = 0x100000000 / page_size

-- The static variables.
pub record Pmm : Type 0 where
  pub bitmap : List ℕ
  pub total_pages : ℕ
  pub free_count : ℕ

unfoldable pub bitmap_set : List ℕ → ℕ → List ℕ
bitmap_set bm page = set bm (page / 64) (bit_or (get_or bm (page / 64) 0) (2 ^ (page % 64)))

-- `~x` on a 64-bit word is `2 ^ 64 - 1 - x`.
unfoldable pub bitmap_clear : List ℕ → ℕ → List ℕ
bitmap_clear bm page =
    set bm (page / 64) (bit_and (get_or bm (page / 64) 0) (2 ^ 64 - 1 - 2 ^ (page % 64)))

unfoldable pub bitmap_test : List ℕ → ℕ → Bool
bitmap_test bm page = get_or bm (page / 64) 0 / 2 ^ (page % 64) % 2 == 1

-- The loop of `pmm_alloc_page` from word `i` on, with `left` words to go: the page found.
unfoldable pub alloc_scan : List ℕ → ℕ → ℕ → ℕ → Option ℕ
alloc_scan bm limit zero i = none
alloc_scan bm limit (suc left) i =
    let rest = alloc_scan bm limit left (i + 1) in
    let page = i * 64 + ctz 64 (get_or bm i 0) in
    if get_or bm i 0 == 0 then rest else if leb limit page then none else some page

-- `max_page` of `pmm_alloc_page`.
abbrev pub alloc_limit : ℕ → ℕ
alloc_limit total_pages = if ltb total_pages max_page then total_pages else max_page

unfoldable pub take_page : Pmm → Option ℕ → ℕ × Pmm
take_page p none = (0, p)
take_page p (some page) = (
  page * page_size,
  record p {
    bitmap = bitmap_clear p.bitmap page;
    free_count = (p.free_count + 2 ^ 64 - 1) % 2 ^ 64;
  },
)

unfoldable pub pmm_alloc_page : Pmm → ℕ × Pmm
unfolding take_page
pmm_alloc_page p =
    take_page p
      (alloc_scan p.bitmap (alloc_limit p.total_pages) ((alloc_limit p.total_pages + 63) / 64) 0)

unfoldable pub pmm_free_page : Pmm → ℕ → Pmm
pmm_free_page p addr =
    let page = addr / page_size in
    if leb p.total_pages page
    then p
    else if bitmap_test p.bitmap page
    then p
    else record p { bitmap = bitmap_set p.bitmap page; free_count = (p.free_count + 1) % 2 ^ 64 }

unfoldable pub pmm_free_pages : Pmm → ℕ
pmm_free_pages p = p.free_count

unfoldable pub pmm_total_pages : Pmm → ℕ
pmm_total_pages p = p.total_pages
