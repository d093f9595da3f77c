-- ===== src/Vmm/Defs.antt =====
-- The page tables of kernel/mm/vmm.c.
-- Memory is a function from the address of an 8-byte word to the word. The tables of the kernel
-- image are at the addresses given; the others come from the page allocator. Flushing the
-- translation cache has no effect on the state.
use Prim.Native.Nat.{bit_or}
use micro_os.Base.{
  ℕ, zero, suc, ◌+◌, ◌-◌, ◌*◌, ◌/◌, ◌%◌, ◌^◌, Bool, true, false, ◌&&◌, not, Option, none, some,
  ◌==◌, ltb, leb, if◌then◌else◌,
}
use micro_os.Pmm.Defs.{page_size, Pmm, pmm_alloc_page}

abbrev pub pte_present : ℕ
pte_present = 1

abbrev pub pte_writable : ℕ
pte_writable = 2

abbrev pub pte_user : ℕ
pte_user = 4

abbrev pub pte_huge : ℕ
pte_huge = 128

abbrev pub huge_size : ℕ
huge_size = 0x200000

-- `e & PTE_PRESENT`, `e & PTE_USER` and `e & PTE_HUGE`, as tests.
abbrev pub is_present : ℕ → Bool
is_present e = e % 2 == 1

abbrev pub is_user : ℕ → Bool
is_user e = e / 4 % 2 == 1

abbrev pub is_huge : ℕ → Bool
is_huge e = e / 128 % 2 == 1

-- `e & PTE_ADDR_MASK`: bits 12 to 51.
abbrev pub addr_of : ℕ → ℕ
addr_of e = e % 2 ^ 52 / 4096 * 4096

abbrev pub Memory : Type 0
Memory = ℕ → ℕ

-- The memory, the page allocator, the kernel's root table, and CR3.
pub record Vmm : Type 0 where
  pub mem : Memory
  pub pmm : Pmm
  pub pml4 : ℕ
  pub cr3 : ℕ

abbrev pub put_word : Memory → ℕ → ℕ → Memory
put_word m p e a = if a == p then e else m a

-- `memset(table, 0, n)`
abbrev pub zero_words : Memory → ℕ → ℕ → Memory
zero_words m p n a = if leb p a && ltb a (p + n) then 0 else m a

abbrev pub set_word : Vmm → ℕ → ℕ → Vmm
set_word v p e = record v { mem = put_word v.mem p e }

-- `&table[idx]`
abbrev pub slot : ℕ → ℕ → ℕ
slot table idx = table + 8 * idx

-- The page for a new table, cleared; the address is 0 where there is none.
unfoldable pub alloc_table : Vmm → ℕ × Vmm
alloc_table v =
    let (page, p) = pmm_alloc_page v.pmm in
    if page == 0
    then (0, record v { pmm = p })
    else (page, record v { pmm = p; mem = zero_words v.mem page page_size })

abbrev pub pml4_index : ℕ → ℕ
pml4_index virt = virt / 2 ^ 39 % 512

abbrev pub pdpt_index : ℕ → ℕ
pdpt_index virt = virt / 2 ^ 30 % 512

abbrev pub pd_index : ℕ → ℕ
pd_index virt = virt / 2 ^ 21 % 512

abbrev pub pt_index : ℕ → ℕ
pt_index virt = virt / 2 ^ 12 % 512

-- The flags of an intermediate entry.
abbrev pub inter_flags : ℕ → ℕ
inter_flags flags = if is_user flags then 7 else 3

-- From one table to the next through entry `idx`, which is made or widened if `create` is set.
unfoldable pub descend : Vmm → ℕ → ℕ → Bool → ℕ → Option ℕ × Vmm
unfolding alloc_table
descend v table idx create inter =
    let e = v.mem (slot table idx) in
    if not (is_present e)
    then (if not create
        then (none, v)
        else (let (next, v') = alloc_table v in
            if next == 0
            then (none, v')
            else (let e' = bit_or next inter in
                (some (addr_of e'), set_word v' (slot table idx) e'))))
    else if create
    then (some (addr_of (bit_or e inter)), set_word v (slot table idx) (bit_or e inter))
    else (some (addr_of e), v)

abbrev pub and_then : Option ℕ × Vmm → (ℕ → Vmm → Option ℕ × Vmm) → Option ℕ × Vmm
and_then (none, v) f = (none, v)
and_then (some t, v) f = f t v

-- From a page directory to the page table; a 2 MiB page ends the walk.
unfoldable pub descend_pd : Vmm → ℕ → ℕ → Bool → ℕ → Option ℕ × Vmm
descend_pd v table idx create inter =
    if is_huge (v.mem (slot table idx)) then (none, v) else descend v table idx create inter

-- The address of the page table entry for `virt`.
unfoldable pub walk_in : Vmm → ℕ → ℕ → Bool → ℕ → Option ℕ × Vmm
walk_in v root virt create flags =
    let inter = inter_flags flags in
    and_then (descend v root (pml4_index virt) create inter) λ t3 v3.
      and_then (descend v3 t3 (pdpt_index virt) create inter) λ t2 v2.
        and_then (descend_pd v2 t2 (pd_index virt) create inter)
          λ t1 v1. (some (slot t1 (pt_index virt)), v1)

unfoldable pub walk : Vmm → ℕ → Bool → ℕ → Option ℕ × Vmm
walk v virt create flags = walk_in v v.pml4 virt create flags

-- `(phys & PTE_ADDR_MASK) | flags | PTE_PRESENT`
abbrev pub leaf : ℕ → ℕ → ℕ
leaf phys flags = bit_or (bit_or (addr_of phys) flags) pte_present

abbrev pub write_entry : Option ℕ × Vmm → ℕ → Vmm
write_entry (none, v) e = v
write_entry (some p, v) e = set_word v p e

unfoldable pub vmm_map_page : Vmm → ℕ → ℕ → ℕ → Vmm
vmm_map_page v virt phys flags = write_entry (walk v virt true flags) (leaf phys flags)

unfoldable pub vmm_unmap_page : Vmm → ℕ → Vmm
vmm_unmap_page v virt = write_entry (walk v virt false 0) 0

unfoldable pub vmm_map_page_in : Vmm → ℕ → ℕ → ℕ → ℕ → Vmm
vmm_map_page_in v root virt phys flags =
    write_entry (walk_in v root virt true flags) (leaf phys flags)

-- The three tables of the kernel image; the four page directories follow one another.
pub record Image : Type 0 where
  pub init_pml4 : ℕ
  pub init_pdpt : ℕ
  pub init_pd : ℕ

abbrev pub pd_table : Image → ℕ → ℕ
pd_table im i = im.init_pd + i * page_size

-- The inner loop of `vmm_init`: entries `j`, `j + 1`, … of page directory `i`.
unfoldable pub fill_pd : Image → ℕ → ℕ → ℕ → Memory → Memory
fill_pd im i zero j m = m
fill_pd im i (suc left) j m =
    fill_pd im i left (j + 1)
      (put_word m (slot (pd_table im i) j) (bit_or (i * (512 * huge_size) + j * huge_size) 131))

-- The outer loop from page directory `i` on.
unfoldable pub fill_pdpt : Image → ℕ → ℕ → Memory → Memory
fill_pdpt im zero i m = m
fill_pdpt im (suc left) i m =
    let m1 = zero_words m (pd_table im i) page_size in
    let m2 = put_word m1 (slot im.init_pdpt i) (bit_or (pd_table im i) 3) in
    fill_pdpt im left (i + 1) (fill_pd im i 512 0 m2)

unfoldable pub vmm_init : Image → Memory → Pmm → Vmm
vmm_init im m p =
    let m1 = zero_words (zero_words m im.init_pml4 page_size) im.init_pdpt page_size in
    let m2 = put_word m1 im.init_pml4 (bit_or im.init_pdpt 3) in
    record { mem = fill_pdpt im 4 0 m2; pmm = p; pml4 = im.init_pml4; cr3 = im.init_pml4 }

unfoldable pub vmm_mark_huge_user : Vmm → ℕ → Vmm
vmm_mark_huge_user v virt =
    let pdpt = addr_of (v.mem (slot v.pml4 (pml4_index virt))) in
    let pd = addr_of (v.mem (slot pdpt (pdpt_index virt))) in
    let e = v.mem (slot pd (pd_index virt)) in
    if is_huge e then set_word v (slot pd (pd_index virt)) (bit_or e pte_user) else v

-- `new_pml4[i] = pml4[i]` for `left` entries from `i` on.
unfoldable pub clone_entries : Memory → ℕ → ℕ → ℕ → ℕ → Memory
clone_entries m from to zero i = m
clone_entries m from to (suc left) i =
    clone_entries (put_word m (slot to i) (m (slot from i))) from to left (i + 1)

unfoldable pub vmm_create_address_space : Vmm → Option ℕ × Vmm
vmm_create_address_space v =
    let (root, v') = alloc_table v in
    if root == 0
    then (none, v')
    else (let m1 = zero_words v'.mem root (256 * 8) in
        let m2 = put_word m1 root (m1 v'.pml4) in
        (some root, record v' { mem = clone_entries m2 v'.pml4 root 256 256 }))

unfoldable pub vmm_switch_address_space : Vmm → ℕ → Vmm
vmm_switch_address_space v target = record v { cr3 = target }

-- The table behind entry `idx`, made if it is missing; `none` where there is no page for it. The
-- second `memset` of the new table changes nothing.
unfoldable pub ensure_table : Vmm → ℕ → ℕ → Option ℕ × Vmm
unfolding alloc_table
ensure_table v table idx =
    let e = v.mem (slot table idx) in
    if is_present e
    then (some (addr_of e), v)
    else (let (next, v') = alloc_table v in
        if next == 0
        then (none, v')
        else (some (addr_of (bit_or next 3)), set_word v' (slot table idx) (bit_or next 3)))

abbrev pub map_at : ℕ → Option ℕ × Vmm → Bool × Vmm
map_at addr (none, v) = (false, v)
map_at addr (some pd, v) = (true, set_word v (slot pd (pd_index addr)) (bit_or addr 155))

-- One round of `vmm_map_mmio`; `false` is the early return.
unfoldable pub map_huge : Vmm → ℕ → Bool × Vmm
map_huge v addr = map_at addr (
    and_then (ensure_table v v.pml4 (pml4_index addr))
      λ pdpt v3. ensure_table v3 pdpt (pdpt_index addr))

unfoldable pub map_huge_from : Vmm → ℕ → ℕ → Vmm
map_huge_from v zero addr = v
map_huge_from v (suc left) addr =
    let (go_on, v') = map_huge v addr in
    let rest = map_huge_from v' left (addr + huge_size) in if go_on then rest else v'

-- The rounds from `start` up to `end`.
abbrev pub mmio_start : ℕ → ℕ
mmio_start phys = phys / huge_size * huge_size

abbrev pub mmio_end : ℕ → ℕ → ℕ
mmio_end phys size = (phys + size + (huge_size - 1)) % 2 ^ 64 / huge_size * huge_size

unfoldable pub vmm_map_mmio : Vmm → ℕ → ℕ → Vmm
vmm_map_mmio v phys size =
    map_huge_from v ((mmio_end phys size - mmio_start phys) / huge_size) (mmio_start phys)
