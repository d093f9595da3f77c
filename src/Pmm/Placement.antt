-- ===== src/Pmm/Placement.antt =====
-- Where `pmm_init` places the bitmap.
use micro_os.Base.{
  ℕ, ◌+◌, ◌%◌, ◌^◌, ◌<◌, ◌≤◌, ◌≡◌, true, some, List, [], ◌∷◌, leb, arith, Bool-cases, inl, inr, ◌⊎◌,
  Option-cases, >>=-eq-some,
}
use micro_os.Pmm.Defs.{page_size}
use micro_os.Pmm.Boot.{
  skip, avoid_low, avoid_kernel, align_region, trim, MmapEntry, is_usable, place_bitmap,
}
use micro_os.Pmm.BootSpec.{NoWrap}

-- Where the bitmap may lie: page-aligned, above 1 MiB, clear of the kernel, inside a usable region.
abbrev pub Placed : ℕ → ℕ → ℕ → ℕ → List MmapEntry → Type 0
Placed kernel_phys kend size addr [] = ⊥
Placed kernel_phys kend size addr (e ∷ es) =
    ((e.base ≤ addr) × (addr + size ≤ e.base + e.length) × (is_usable e.type ≡ true))
    ⊎ Placed kernel_phys kend size addr es

abbrev pub Clear : ℕ → ℕ → ℕ → ℕ → Type 0
Clear kernel_phys kend size addr =
    (addr % page_size ≡ 0) × (0x100000 ≤ addr) × ((kend ≤ addr) ⊎ (addr + size ≤ kernel_phys))

module _ (kernel_phys kend : ℕ) where
  avoid_low_lem :
      (base len b l : ℕ)
      → avoid_low (base, len) ≡ some (b, l)
      → base + len < 2 ^ 64
      → (0x100000 ≤ b) × (base ≤ b) × (b + l ≡ base + len)
  unfolding avoid_low skip
  avoid_low_lem base len b l h w = ground arith

  avoid_kernel_lem :
      (base len b l : ℕ)
      → avoid_kernel kernel_phys kend (base, len) ≡ some (b, l)
      → base + len < 2 ^ 64
      → (base ≤ b) × (b + l ≡ base + len) × ((kend ≤ b) ⊎ (b + l ≤ kernel_phys))
  unfolding avoid_kernel skip
  avoid_kernel_lem base len b l h w = ground arith

  align_region_lem :
      (base len b l : ℕ)
      → align_region (base, len) ≡ some (b, l)
      → base + len < 2 ^ 64
      → (b % page_size ≡ 0) × (base ≤ b) × (b + l ≡ base + len)
  unfolding align_region
  align_region_lem base len b l h w = ground arith

  trim_lem :
      (e : MmapEntry) (b l : ℕ)
      → trim kernel_phys kend e ≡ some (b, l)
      → e.base + e.length < 2 ^ 64
      → Clear kernel_phys kend l b × (e.base ≤ b) × (b + l ≡ e.base + e.length)
  unfolding trim
  trim_lem e b l h w =
      let ((b1, l1), h1, k1) = >>=-eq-some (avoid_low (e.base, e.length)) _ h in
      let ((b2, l2), h2, k2) = >>=-eq-some (avoid_kernel kernel_phys kend (b1, l1)) _ k1 in
      let low = avoid_low_lem e.base e.length b1 l1 h1 w in
      let kernel = avoid_kernel_lem b1 l1 b2 l2 h2 (omega (arith, low)) in
      let aligned = align_region_lem b2 l2 b l k2 (omega (arith, low, kernel)) in
      grind (arith, low, kernel, aligned)

  -- What a later region gives is good for the whole map.
  later :
      (size addr : ℕ) (e : MmapEntry) (es : List MmapEntry)
      → Clear kernel_phys kend size addr × Placed kernel_phys kend size addr es
      → Clear kernel_phys kend size addr × Placed kernel_phys kend size addr (e ∷ es)
  later size addr e es (clear, placed) = (clear, inr placed)

  pub place_bitmap_lem :
      (size addr : ℕ) (es : List MmapEntry)
      → place_bitmap kernel_phys kend size es ≡ some addr
      → NoWrap es
      → Clear kernel_phys kend size addr × Placed kernel_phys kend size addr es
  unfolding place_bitmap
  place_bitmap_lem size addr [] h w = absurd (cc)
  place_bitmap_lem size addr (e ∷ es) h w = elim (Bool-cases (is_usable e.type)) [
    | inr off ↦ later size addr e es (place_bitmap_lem size addr es (ground arith) w.1)
    | inl on ↦ elim (Option-cases (trim kernel_phys kend e)) [
      | inl out ↦ later size addr e es (place_bitmap_lem size addr es (ground arith) w.1)
      | inr ((b, l), fit) ↦ elim (Bool-cases (leb size l)) [
        | inr short ↦ later size addr e es (place_bitmap_lem size addr es (ground arith) w.1)
        | inl room ↦
            let at : b ≡ addr = ground arith in
            let good = trim_lem e b l fit (omega (arith, w.0)) in
            let covered : size ≤ l = ground arith in
            (grind (arith, good), inl (omega (arith, good), omega (arith, good), on))
      ]
    ]
  ]

-- The bitmap ends before the last page of the 64-bit addresses.
pub Placed-inside :
    (kernel_phys kend size addr : ℕ) (es : List MmapEntry)
    → Placed kernel_phys kend size addr es
    → NoWrap es
    → addr + size + page_size ≤ 2 ^ 64
Placed-inside kernel_phys kend size addr [] p w = absurd p
Placed-inside kernel_phys kend size addr (e ∷ es) (inl (_, inside, _)) (w, ws) =
    omega (arith, inside, w)
Placed-inside kernel_phys kend size addr (e ∷ es) (inr later) (w, ws) =
    Placed-inside kernel_phys kend size addr es later ws
