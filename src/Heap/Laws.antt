-- ===== src/Heap/Laws.antt =====
-- `kmalloc` from the free list, and `kfree` of what it gave.
use native.Mathlib.Nat.{mod-add-div', mod-lt, mul-mod_left}
use micro_os.Base.{
  ℕ, ◌+◌, ◌-◌, ◌/◌, ◌%◌, ◌^◌, ◌<◌, ◌≤◌, ◌≡◌, ◌≢◌, inl, inr, refl, true, false, ◌||◌, none, some,
  List, ◌==◌, Option-cases, arith,
}
use micro_os.Pmm.Defs.{Pmm}
use micro_os.Heap.Defs.{Block, Heap, header_size, needed_for, first_fit, kmalloc, aligned_addr}
use micro_os.Heap.FreeList.{in_block, covers, Sorted, Apart, Parts, first_fit-Fitted}

-- The size asked for is below 2^64 - 48, so that rounding it up does not wrap.
needed_for_lem :
    (size : ℕ)
    → size < 2 ^ 64 - 48
    → (size + header_size ≤ needed_for size) × (needed_for size ≤ size + 31)
unfolding needed_for
needed_for_lem size h = ground arith

-- The free list is sorted from the start of the heap on, and ends in the heap.
pub record IsValid (h : Heap) : Type 0 where
  pub sorted : Sorted h.heap_start h.free_list
  pub inside : (a : ℕ) → covers h.free_list a ≡ true → a < h.heap_end
  pub bounded : h.heap_end < 2 ^ 64

-- An allocation of `size` bytes from the free list: the block is in the heap and large enough, and
-- it has exactly the bytes that are no longer free.
pub record Served (h : Heap) (size : ℕ) (b : Block) (h' : Heap) : Type 0 where
  pub valid : IsValid h'
  pub enough : size + header_size ≤ b.size
  pub in_heap : h.heap_start ≤ b.addr
  pub ends : b.addr + b.size ≤ h.heap_end
  pub bytes : (a : ℕ) → covers h.free_list a ≡ (in_block b a || covers h'.free_list a)
  pub apart : Apart b h'.free_list
  pub same_start : h'.heap_start ≡ h.heap_start
  pub same_end : h'.heap_end ≡ h.heap_end

Parts-Served :
    (h : Heap) (size : ℕ) (b : Block) (left : List Block)
    → IsValid h
    → 0 < size
    → size < 2 ^ 64 - 48
    → Parts h.heap_start (needed_for size) h.free_list b left
    → Served h size b (record h { free_list = left })
Parts-Served h size b left v some_size small parts =
    let (room, _) = needed_for_lem size small in
    let last = parts.bytes (b.addr + b.size - 1) in
    let last_in = v.inside (b.addr + b.size - 1) in
    record {
      valid = record {
        sorted = parts.sorted;
        inside = λ a is. let e = parts.bytes a in v.inside a (ground (arith, e));
        bounded = v.bounded;
      };
      enough = omega (arith, parts.enough);
      in_heap = parts.above;
      ends = omega (arith, last_in (ground (arith, last, parts.enough)), parts.enough);
      bytes = parts.bytes;
      apart = parts.apart;
      same_start = refl;
      same_end = refl;
    }

-- `kmalloc` of a size that some free block can hold gives such a block without asking for pages.
pub kmalloc-Served :
    (h : Heap) (p : Pmm) (size : ℕ)
    → IsValid h
    → 0 < size
    → size < 2 ^ 64 - 48
    → first_fit (needed_for size) h.free_list ≢ none
    → (b : Block) × (h' : Heap) × (kmalloc h p size ≡ (some b, h', p)) × Served h size b h'
unfolding kmalloc
kmalloc-Served h p size v some_size small fits =
    elim (Option-cases (first_fit (needed_for size) h.free_list)) [
      | inl nothing ↦ absurd (fits nothing)
      | inr ((b, left), found) ↦
          let parts =
            rw found at (first_fit-Fitted (needed_for size) h.heap_start h.free_list v.sorted) in
          let nonzero : size == 0 ≡ false = ground arith in
          (
            b,
            record h { free_list = left },
            rw (nonzero, found) refl,
            Parts-Served h size b left v some_size small parts,
          )
    ]

-- The address that `kmalloc_aligned` returns is a multiple of the alignment, and it leaves 8 bytes
-- before it, and `size` bytes after it, in the `size + align + 8` bytes that it asked for.
pub aligned_addr_lem :
    (raw size align : ℕ)
    → 0 < align
    → (aligned_addr raw align % align ≡ 0)
      × (raw + 8 ≤ aligned_addr raw align)
      × (aligned_addr raw align + size ≤ raw + (size + align + 8))
unfolding aligned_addr
aligned_addr_lem raw size align h =
    let top = raw + 8 + align - 1 in
    let whole = mod-add-div' top align in
    let part = mod-lt top h in
    (mul-mod_left (top / align) align, omega (arith, whole, part), omega (arith, whole, part))
