-- ===== src/Heap/Defs.antt =====
-- The free list of kernel/mm/heap.c and its operations.
-- A free block is its address and size; the list keeps the order of its links. The two words of an
-- allocated block's header are outside the state: `kmalloc` returns the size that it writes there,
-- and `kfree` takes the two words that it reads. The pages come from the page allocator.
-- Addresses are far enough below 2^64 that the sums of an address and a size do not wrap.
use micro_os.Base.{
  ℕ, zero, suc, ◌+◌, ◌-◌, ◌*◌, ◌/◌, ◌%◌, ◌^◌, Bool, ◌||◌, not, Option, none, some, List, [], ◌∷◌,
  ◌==◌, ltb, leb, if◌then◌else◌,
}
use micro_os.Pmm.Defs.{page_size, Pmm, pmm_alloc_page, pmm_free_page}
use Prim.Native.Nat.{bit_and}

-- `HEADER_SIZE`.
abbrev pub header_size : ℕ
header_size = 16

-- `MIN_BLOCK`, the size of a `FreeBlock`.
abbrev pub min_block : ℕ
min_block = 16

abbrev pub heap_pages : ℕ
heap_pages = 64

-- `HEAP_CANARY(sz)`: the complement of a 64-bit word.
abbrev pub canary : ℕ → ℕ
canary size = 2 ^ 64 - 1 - size

-- `FreeBlock`.
pub record Block : Type 0 where
  pub addr : ℕ
  pub size : ℕ

pub record Heap : Type 0 where
  pub free_list : List Block
  pub heap_start : ℕ
  pub heap_end : ℕ

-- `pmm_alloc_page` for pages `i`, `i + 1`, … after `base`, up to `left` of them, while they are
-- contiguous; a page elsewhere is given back. The number of pages in a row, `i` at first.
unfoldable pub contiguous : Pmm → ℕ → ℕ → ℕ → ℕ × Pmm
contiguous p base i zero = (i, p)
contiguous p base i (suc left) =
    let (page, p') = pmm_alloc_page p in
    let more = contiguous p' base (i + 1) left in
    if page == 0
    then (i, p')
    else if not (page == base + i * page_size)
    then (i, pmm_free_page p' page)
    else more

-- The bounds are set only if all the pages are contiguous.
unfoldable pub heap_init : Heap → Pmm → Heap × Pmm
heap_init h p =
    let (base, p') = pmm_alloc_page p in
    if base == 0
    then (h, p')
    else (let (got, p'') = contiguous p' base 1 (heap_pages - 1) in
        let blocks = record { addr = base; size = got * page_size } ∷ [] in
        if got == heap_pages
        then (
          record { free_list = blocks; heap_start = base; heap_end = base + got * page_size },
          p'',
        )
        else (record h { free_list = blocks }, p''))

-- The bytes that `kmalloc` looks for: 16-aligned, with the header.
unfoldable pub needed_for : ℕ → ℕ
needed_for size =
    let needed = (((size + 15) % 2 ^ 64) / 16 * 16 + header_size) % 2 ^ 64 in
    if ltb needed min_block then min_block else needed

-- The block cut from a free block that is large enough, and what is left of the free block.
unfoldable pub split : ℕ → Block → List Block → Block × List Block
split needed b bs =
    if leb (needed + min_block + 16) b.size
    then (
      record b { size = needed },
      record { addr = b.addr + needed; size = b.size - needed } ∷ bs,
    )
    else (b, bs)

abbrev pub keep : Block → Option (Block × List Block) → Option (Block × List Block)
keep b none = none
keep b (some (got, left)) = some (got, b ∷ left)

-- The first block that is large enough.
unfoldable pub first_fit : ℕ → List Block → Option (Block × List Block)
first_fit needed [] = none
first_fit needed (b ∷ bs) =
    let rest = first_fit needed bs in
    if leb needed b.size then some (split needed b bs) else keep b rest

-- A block before its list, joined with the next block if they touch.
unfoldable pub merge_next : Block → List Block → List Block
merge_next b [] = b ∷ []
merge_next b (c ∷ cs) =
    if b.addr + b.size == c.addr then record b { size = b.size + c.size } ∷ cs else b ∷ c ∷ cs

-- Insertion in address order behind `p`, and the two joins.
unfoldable pub insert_after : Block → Block → List Block → List Block
insert_after p b [] = merge_next p (merge_next b [])
insert_after p b (c ∷ cs) =
    let rest = insert_after c b cs in
    if ltb c.addr b.addr then p ∷ rest else merge_next p (merge_next b (c ∷ cs))

unfoldable pub insert : Block → List Block → List Block
insert b [] = merge_next b []
insert b (c ∷ cs) = if ltb c.addr b.addr then insert_after c b cs else merge_next b (c ∷ cs)

-- The heap with `got` pages more from `base` on.
unfoldable pub add_region : Heap → ℕ → ℕ → Heap
add_region h base got =
    let new_end = base + got * page_size in
    record {
      free_list = insert (record { addr = base; size = got * page_size }) h.free_list;
      heap_start = if ltb base h.heap_start then base else h.heap_start;
      heap_end = if ltb h.heap_end new_end then new_end else h.heap_end;
    }

abbrev pub pages_for : ℕ → ℕ
pages_for needed =
    let pages = ((needed + (page_size - 1)) % 2 ^ 64) / page_size in
    if ltb pages 4 then 4 else pages

-- `none` if there is no page left.
unfoldable pub grow : Heap → Pmm → ℕ → Option Heap × Pmm
grow h p needed =
    let (base, p') = pmm_alloc_page p in
    if base == 0
    then (none, p')
    else (let (got, p'') = contiguous p' base 1 (pages_for needed - 1) in
        (some (add_region h base got), p''))

-- An allocation: the block taken and the heap without it.
abbrev pub take_block : Heap → ℕ → Option (Block × Heap)
take_block h needed = elim (first_fit needed h.free_list) [
  | none ↦ none
  | some (b, left) ↦ some (b, record h { free_list = left })
]

abbrev pub second_try : Heap → ℕ → Option Heap × Pmm → Option Block × Heap × Pmm
second_try h needed (none, p) = (none, h, p)
second_try h needed (some grown, p) = elim (take_block grown needed) [
  | none ↦ (none, grown, p)
  | some (b, h') ↦ (some b, h', p)
]

-- The block whose header `kmalloc` writes; the pointer it returns is 16 bytes after its start.
unfoldable pub kmalloc : Heap → Pmm → ℕ → Option Block × Heap × Pmm
kmalloc h p size = if size == 0 then (none, h, p) else elim (take_block h (needed_for size)) [
  | some (b, h') ↦ (some b, h', p)
  | none ↦ second_try h (needed_for size) (grow h p (needed_for size))
]

-- The address that `kmalloc_aligned` returns for the pointer `raw`, which it stores 8 bytes before.
unfoldable pub aligned_addr : ℕ → ℕ → ℕ
aligned_addr raw align = (raw + 8 + align - 1) / align * align

-- `size == 0 || align == 0 || align is no power of two`, or too large.
unfoldable pub bad_request : ℕ → ℕ → Bool
bad_request size align =
    (size == 0)
    || (align == 0)
    || not (bit_and align (align - 1) == 0)
    || ltb (2 ^ 64 - 1 - align - 8) size

unfoldable pub kmalloc_aligned : Heap → Pmm → ℕ → ℕ → Option ℕ × Heap × Pmm
kmalloc_aligned h p size align =
    if bad_request size align
    then (none, h, p)
    else (let (got, h', p') = kmalloc h p (size + align + 8) in
        (
          elim got [ none ↦ none | some b ↦ some (aligned_addr (b.addr + header_size) align) ],
          h',
          p',
        ))

-- `size` and `check` are the two words in the header of the block at `blk`.
unfoldable pub free_block : Heap → ℕ → ℕ → ℕ → Heap
free_block h blk size check =
    if not (check == canary size)
    then h
    else if ltb blk h.heap_start || ltb h.heap_end ((blk + size) % 2 ^ 64)
    then h
    else record h { free_list = insert (record { addr = blk; size = size }) h.free_list }

unfoldable pub kfree : Heap → ℕ → ℕ → ℕ → Heap
kfree h ptr size check = if ptr == 0 then h else free_block h (ptr - header_size) size check
