-- ===== src/Heap/FreeList.antt =====
-- The free list as a set of bytes: what first fit takes out, and what insertion puts in.
use micro_os.Base.{
  ℕ, ◌+◌, ◌-◌, ◌<◌, ◌≤◌, ◌≡◌, inl, inr, refl, Bool, true, false, ◌&&◌, ◌||◌, Option, none, some,
  List, [], ◌∷◌, ◌==◌, ltb, leb, Bool-cases, arith,
}
use micro_os.Heap.Defs.{min_block, Block, split, keep, first_fit, merge_next}

-- The byte at `a` lies in the block.
abbrev pub in_block : Block → ℕ → Bool
in_block b a = leb b.addr a && ltb a (b.addr + b.size)

-- The byte at `a` lies in a free block.
unfoldable pub covers : List Block → ℕ → Bool
covers [] a = false
covers (b ∷ bs) a = in_block b a || covers bs a

-- The blocks are in address order from `lo` on, none is empty, and no two overlap.
unfoldable pub Sorted : ℕ → List Block → Type 0
Sorted lo [] = Unit
Sorted lo (b ∷ bs) = (lo ≤ b.addr) × (0 < b.size) × Sorted (b.addr + b.size) bs

lower : (lo lo' : ℕ) (bs : List Block) → lo ≤ lo' → Sorted lo' bs → Sorted lo bs
unfolding Sorted
lower lo lo' [] h s = tt
lower lo lo' (b ∷ bs) h (at, some_size, rest) = (omega arith, some_size, rest)

-- No byte below a sorted list is free.
below : (lo : ℕ) (bs : List Block) (a : ℕ) → Sorted lo bs → a < lo → covers bs a ≡ false
unfolding Sorted covers
below lo [] a s h = refl
below lo (b ∷ bs) a (at, some_size, rest) h =
    let tail = below (b.addr + b.size) bs a rest (omega arith) in ground (arith, tail)

-- A block and a list that share the bytes of `bs`.
pub record Parts (lo needed : ℕ) (bs : List Block) (got : Block) (left : List Block) : Type 0 where
  pub enough : needed ≤ got.size
  pub above : lo ≤ got.addr
  pub sorted : Sorted lo left
  pub bytes : (a : ℕ) → covers bs a ≡ (in_block got a || covers left a)
  pub apart : (a : ℕ) → in_block got a ≡ true → covers left a ≡ false

split-Parts :
    (lo needed : ℕ) (b : Block) (bs : List Block)
    → Sorted lo (b ∷ bs)
    → needed ≤ b.size
    → let (got, left) = split needed b bs in Parts lo needed (b ∷ bs) got left
unfolding split Sorted covers
split-Parts lo needed b bs (at, some_size, rest) fits =
    elim (Bool-cases (leb (needed + min_block + 16) b.size)) [
      | inl cut ↦
          let room : needed + min_block + 16 ≤ b.size = ground arith in
          let over : Sorted (b.addr + needed + (b.size - needed)) bs =
            lower _ _ bs (omega arith) rest in
          rw cut (record {
            enough = omega arith;
            above = at;
            sorted = (omega arith, omega arith, over);
            bytes = λ a. ground arith;
            apart = λ a h.
                let tail = below (b.addr + b.size) bs a rest (ground arith) in ground (arith, tail);
          })
      | inr whole ↦ rw whole (record {
        enough = fits;
        above = at;
        sorted = lower _ _ bs (omega arith) rest;
        bytes = λ a. refl;
        apart = λ a h. below (b.addr + b.size) bs a rest (ground arith);
      })
    ]

-- No block of the list has `needed` bytes.
unfoldable pub NoFit : ℕ → List Block → Type 0
NoFit needed [] = Unit
NoFit needed (b ∷ bs) = (b.size < needed) × NoFit needed bs

-- What first fit returns: a part of the list, or that no block is large enough.
abbrev pub Fitted : ℕ → ℕ → List Block → Option (Block × List Block) → Type 0
Fitted lo needed bs none = NoFit needed bs
Fitted lo needed bs (some (got, left)) = Parts lo needed bs got left

behind :
    (lo needed : ℕ) (b : Block) (bs : List Block) (o : Option (Block × List Block))
    → Sorted lo (b ∷ bs)
    → b.size < needed
    → Fitted (b.addr + b.size) needed bs o
    → Fitted lo needed (b ∷ bs) (keep b o)
unfolding Sorted NoFit covers
behind lo needed b bs none s small fitted = (small, fitted)
behind lo needed b bs (some (got, left)) (at, some_size, rest) small parts = record {
  enough = parts.enough;
  above = omega (arith, parts.above);
  sorted = (at, some_size, parts.sorted);
  bytes = λ a. ground (arith, parts.bytes a);
  apart = λ a h. let tail = parts.apart a h in ground (arith, tail, parts.above);
}

-- First fit in a sorted list takes a block with the bytes asked for, and the list that is left is
-- sorted and has every other byte, and no byte of the block; it fails only if no block is large
-- enough.
pub first_fit-Fitted :
    (needed lo : ℕ) (bs : List Block) → Sorted lo bs → Fitted lo needed bs (first_fit needed bs)
unfolding first_fit Sorted NoFit
first_fit-Fitted needed lo [] s = tt
first_fit-Fitted needed lo (b ∷ bs) s = elim (Bool-cases (leb needed b.size)) [
  | inl fits ↦ rw (first_fit, fits) (split-Parts lo needed b bs s (ground arith))
  | inr small ↦
      rw (first_fit, small)
        (behind lo needed b bs (first_fit needed bs) s (ground arith)
          (first_fit-Fitted needed (b.addr + b.size) bs s.2))
]

-- The block `b` shares no byte with the list.
abbrev pub Apart : Block → List Block → Type 0
Apart b bs = (a : ℕ) → in_block b a ≡ true → covers bs a ≡ false

-- The list `out` is sorted and has the bytes of `b` and of `bs`.
pub record Joined (lo : ℕ) (b : Block) (bs : List Block) (out : List Block) : Type 0 where
  pub sorted : Sorted lo out
  pub bytes : (a : ℕ) → covers out a ≡ (in_block b a || covers bs a)

pub merge_next-Joined :
    (lo : ℕ) (b : Block) (bs : List Block)
    → lo ≤ b.addr
    → 0 < b.size
    → Sorted (b.addr + b.size) bs
    → Joined lo b bs (merge_next b bs)
unfolding merge_next Sorted covers
merge_next-Joined lo b [] at some_size s = record {
  sorted = (at, some_size, tt);
  bytes = λ a. refl;
}
merge_next-Joined lo b (c ∷ cs) at some_size s = elim (Bool-cases (b.addr + b.size == c.addr)) [
  | inl touch ↦
      let e : b.addr + b.size ≡ c.addr = ground arith in
      let rest : Sorted (b.addr + (b.size + c.size)) cs = lower _ _ cs (omega arith) s.2 in
      rw touch (record { sorted = (at, omega arith, rest); bytes = λ a. ground arith })
  | inr gap ↦ rw gap (record { sorted = (at, some_size, s); bytes = λ a. refl })
]

-- A block that starts before a list it does not meet ends before it.
pub ends_before :
    (b c : Block) (cs : List Block)
    → 0 < c.size
    → b.addr ≤ c.addr
    → Apart b (c ∷ cs)
    → b.addr + b.size ≤ c.addr
unfolding covers
ends_before b c cs some_size h apart = elim (Bool-cases (leb (b.addr + b.size) c.addr)) [
  | inl ok ↦ ground arith
  | inr over ↦ let clash = apart c.addr (ground arith) in absurd (ground (arith, clash))
]

pub starts_after :
    (b c : Block) (cs : List Block)
    → 0 < b.size
    → c.addr < b.addr
    → Apart b (c ∷ cs)
    → c.addr + c.size ≤ b.addr
unfolding covers
starts_after b c cs some_size h apart = elim (Bool-cases (leb (c.addr + c.size) b.addr)) [
  | inl ok ↦ ground arith
  | inr over ↦ let clash = apart b.addr (ground arith) in absurd (ground (arith, clash))
]
