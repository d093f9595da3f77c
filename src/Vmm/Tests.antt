-- ===== src/Vmm/Tests.antt =====
-- Runs of the page tables, and their theorems at a concrete state.
use micro_os.Base.{
  ℕ, zero, suc, ◌*◌, ◌≡◌, ◌⊎◌, inl, inr, refl, ap, true, false, none, some, [], ◌∷◌, ◌==◌,
  Bool-cases, if◌then◌else◌, arith,
}
use micro_os.Base.Bits.{ones, ctz}
use micro_os.Pmm.Defs.{Pmm, bitmap_test, bitmap_clear, alloc_scan, pmm_alloc_page}
use micro_os.Pmm.Bitmap.{Words, total_ones}
use micro_os.Pmm.Alloc
use micro_os.Vmm.Defs.{
  Vmm, leaf, descend, descend_pd, walk, walk_in, vmm_map_page, vmm_unmap_page, vmm_map_page_in,
  vmm_create_address_space,
}
use micro_os.Vmm.Tree.{IsTree}
use micro_os.Vmm.Map.{Mapped, NotMapped, vmm_map_page_in-Mapped, vmm_unmap_page-vmm_map_page}
use micro_os.Vmm.Space.{Created, vmm_create_address_space-Created}

-- Pages 2, 3 and 4 of 64 are free.
abbrev pool : Pmm
pool = record { bitmap = 28 ∷ []; total_pages = 64; free_count = 3 }

pool_words : Words pool.bitmap
pool_words zero = omega arith
pool_words (suc i) = omega arith

pool-IsValid : Alloc.IsValid pool
unfolding total_ones ones
pool-IsValid = record { words = pool_words; size = omega arith; fits = omega arith; counted = refl }

-- One empty table, the root, in page 1.
abbrev fresh_tables : Vmm
fresh_tables = record { mem = λ a. 0; pmm = pool; pml4 = 4096; cr3 = 4096 }

abbrev only_root : ℕ → ℕ
only_root t = if t == 4096 then 4 else 0

used_1 : bitmap_test pool.bitmap 1 ≡ false
unfolding bitmap_test
used_1 = refl

free_page-only_root : (q : ℕ) → bitmap_test pool.bitmap q ≡ true → only_root (q * 4096) ≡ 0
free_page-only_root q h = elim (Bool-cases (q == 1)) [
  | inl one ↦
      let e : q ≡ 1 = ground arith in
      absurd (ground (arith, h, used_1, ap (λ i. bitmap_test pool.bitmap i) e))
  | inr other ↦ ground arith
]

fresh_tables-IsTree : IsTree only_root fresh_tables
unfolding bitmap_test
fresh_tables-IsTree = record {
  aligned = λ t h. ground arith;
  small = λ t h. ground arith;
  child = λ t i k lt hi pr nh. absurd (cc pr);
  apart = free_page-only_root;
  first_used = refl;
  pages = pool-IsValid;
}

vmm_map_page_in-Mapped_example :
    Mapped only_root fresh_tables 4096 0x40000000
      (leaf 0x7000 6)
      (vmm_map_page_in fresh_tables 4096 0x40000000 0x7000 6)
    ⊎ (((walk_in fresh_tables 4096 0x40000000 true 6).0 ≡ none)
        × NotMapped only_root fresh_tables 0x40000000
            (vmm_map_page_in fresh_tables 4096 0x40000000 0x7000 6))
vmm_map_page_in-Mapped_example =
    vmm_map_page_in-Mapped only_root fresh_tables 4096 0x40000000 0x7000 6 fresh_tables-IsTree refl

walk_reaches : (walk fresh_tables 0x40000000 true 6).0 ≡ some 16384
unfolding walk walk_in descend pmm_alloc_page alloc_scan ctz bitmap_clear descend_pd
walk_reaches = refl

vmm_unmap_page-vmm_map_page_example :
    Mapped only_root fresh_tables 4096 0x40000000 0
      (vmm_unmap_page (vmm_map_page fresh_tables 0x40000000 0x7000 6) 0x40000000)
vmm_unmap_page-vmm_map_page_example =
    vmm_unmap_page-vmm_map_page only_root fresh_tables 0x40000000 0x7000 6 fresh_tables-IsTree refl
      (λ e. absurd (cc (e, walk_reaches)))

vmm_create_address_space-Created_example :
    Created only_root fresh_tables (vmm_create_address_space fresh_tables)
vmm_create_address_space-Created_example =
    vmm_create_address_space-Created only_root fresh_tables fresh_tables-IsTree refl
