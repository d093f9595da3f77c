-- ===== src/Vmm/Entry.antt =====
-- The fields of a page table entry under `|`.
use Prim.Native.Nat.{bit_or}
use micro_os.Base.{ℕ, ◌/◌, ◌%◌, ◌^◌, ◌<◌, ◌≡◌, refl, ◌∙◌, Bool, true, false, ◌==◌, arith}
use micro_os.Base.Bits.{bit_or_step, bit_or-zero}
use micro_os.Vmm.Defs.{is_present, is_user, is_huge, addr_of, inter_flags, leaf}

-- Or with a number below 8 changes the low three bits only.
bit_or-low : (e m : ℕ) → m < 8 → bit_or e m / 8 ≡ e / 8
bit_or-low e m h =
    let high : m / 2 / 2 / 2 ≡ 0 = omega arith in
    let rest : bit_or (e / 2 / 2 / 2) (m / 2 / 2 / 2) ≡ e / 2 / 2 / 2 = rw high (bit_or-zero _) in
    omega (
      arith,
      bit_or_step e m,
      bit_or_step (e / 2) (m / 2),
      bit_or_step (e / 2 / 2) (m / 2 / 2),
      rest,
    )

-- `e & PTE_WRITABLE`, as a test.
abbrev pub is_writable : ℕ → Bool
is_writable e = e / 2 % 2 == 1

-- An entry that stays present, with every bit above the low three as it was, the address among
-- them; the rights that it gives are not taken back.
pub record Keeps (e e' : ℕ) : Type 0 where
  pub present : is_present e' ≡ true
  pub high : e' / 8 ≡ e / 8
  pub writable : is_writable e ≡ true → is_writable e' ≡ true
  pub user : is_user e ≡ true → is_user e' ≡ true

pub Keeps-refl : (e : ℕ) → is_present e ≡ true → Keeps e e
Keeps-refl e p = record { present = p; high = refl; writable = λ h. h; user = λ h. h }

pub Keeps-trans : {a b c : ℕ} → Keeps a b → Keeps b c → Keeps a c
Keeps-trans f g = record {
  present = g.present;
  high = g.high ∙ f.high;
  writable = λ h. g.writable (f.writable h);
  user = λ h. g.user (f.user h);
}

pub bit_or-Keeps : (e m : ℕ) → m < 8 → m % 2 ≡ 1 → Keeps e (bit_or e m)
bit_or-Keeps e m h odd =
    let s0 = bit_or_step e m in
    let s1 = bit_or_step (e / 2) (m / 2) in
    let s2 = bit_or_step (e / 2 / 2) (m / 2 / 2) in
    record {
      present = ground (arith, s0);
      high = bit_or-low e m h;
      writable = λ w. ground (arith, s0, s1);
      user = λ u. ground (arith, s0, s1, s2);
    }

-- The flags of an intermediate entry set its present bit, and leave its address and its huge bit.
pub record Widened (e inter : ℕ) : Type 0 where
  pub present : is_present (bit_or e inter) ≡ true
  pub huge : is_huge (bit_or e inter) ≡ is_huge e
  pub addr : addr_of (bit_or e inter) ≡ addr_of e

pub bit_or-Widened : (e inter : ℕ) → inter < 8 → inter % 2 ≡ 1 → Widened e inter
bit_or-Widened e inter h odd =
    let high = bit_or-low e inter h in
    let low = bit_or_step e inter in
    let same : bit_or e inter / 128 ≡ e / 128 = omega (arith, high) in
    record { present = ground (arith, low); huge = rw same; addr = omega (arith, high) }

pub inter_flags_lem : (flags : ℕ) → (inter_flags flags < 8) × (inter_flags flags % 2 ≡ 1)
inter_flags_lem flags = ground arith

-- The address of a page-aligned number is the number.
pub addr_of-aligned : (t : ℕ) → t % 4096 ≡ 0 → t < 2 ^ 52 → addr_of t ≡ t
addr_of-aligned t h small = omega arith

pub aligned-not_huge : (t : ℕ) → t % 4096 ≡ 0 → is_huge t ≡ false
aligned-not_huge t h = ground arith

-- The entry that `vmm_map_page` writes is present.
pub leaf_present : (phys flags : ℕ) → is_present (leaf phys flags) ≡ true
leaf_present phys flags = ground (arith, bit_or_step (bit_or (addr_of phys) flags) 1)
