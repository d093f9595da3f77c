-- ===== src/Heap/Insert.antt =====
-- Insertion into the free list of kernel/mm/heap.c, with the joins of touching blocks.
use micro_os.Base.{ℕ, ◌+◌, ◌<◌, ◌≤◌, inl, inr, List, [], ◌∷◌, ltb, Bool-cases, arith}
use micro_os.Heap.Defs.{Block, merge_next, insert_after, insert}
use micro_os.Heap.FreeList.{
  covers, Sorted, Apart, Joined, merge_next-Joined, ends_before, starts_after,
}

-- The rest of the list is apart from a block, if the list is.
Apart-tail : (b c : Block) (cs : List Block) → Apart b (c ∷ cs) → Apart b cs
unfolding covers
Apart-tail b c cs apart a h = let whole = apart a h in ground (arith, whole)

-- `b` is put between `p` and the list.
join_both :
    (lo : ℕ) (p b : Block) (cs : List Block)
    → lo ≤ p.addr
    → 0 < p.size
    → p.addr + p.size ≤ b.addr
    → 0 < b.size
    → Sorted (b.addr + b.size) cs
    → Joined lo p (b ∷ cs) (merge_next p (merge_next b cs))
unfolding covers
join_both lo p b cs at p_size order b_size s =
    let inner = merge_next-Joined (p.addr + p.size) b cs order b_size s in
    let outer = merge_next-Joined lo p (merge_next b cs) at p_size inner.sorted in
    record { sorted = outer.sorted; bytes = λ a. ground (arith, outer.bytes a, inner.bytes a) }

insert_after-Joined :
    (lo : ℕ) (p b : Block) (cs : List Block)
    → lo ≤ p.addr
    → 0 < p.size
    → p.addr + p.size ≤ b.addr
    → 0 < b.size
    → Sorted (p.addr + p.size) cs
    → Apart b cs
    → Joined lo p (b ∷ cs) (insert_after p b cs)
unfolding insert_after covers Sorted
insert_after-Joined lo p b [] at p_size order b_size s apart =
    join_both lo p b [] at p_size order b_size tt
insert_after-Joined lo p b (c ∷ cs) at p_size order b_size (c_at, c_size, rest) apart =
    elim (Bool-cases (ltb c.addr b.addr)) [
      | inl before ↦
          let later =
            insert_after-Joined (p.addr + p.size) c b cs c_at c_size
              (starts_after b c cs b_size (ground arith) apart) b_size rest
              (Apart-tail b c cs apart) in
          rw before (record {
            sorted = (at, p_size, later.sorted);
            bytes = λ a. let e = later.bytes a in ground (arith, e);
          })
      | inr after ↦ rw after (
          join_both lo p b (c ∷ cs) at p_size order b_size
            (ends_before b c cs c_size (ground arith) apart, c_size, rest))
    ]

-- Insertion of a block that shares no byte with a sorted list gives a sorted list of non-empty
-- blocks that do not overlap, with the bytes of the block and of the list and no other.
pub insert-Joined :
    (lo : ℕ) (b : Block) (bs : List Block)
    → lo ≤ b.addr
    → 0 < b.size
    → Sorted lo bs
    → Apart b bs
    → Joined lo b bs (insert b bs)
unfolding insert covers Sorted
insert-Joined lo b [] at b_size s apart = merge_next-Joined lo b [] at b_size tt
insert-Joined lo b (c ∷ cs) at b_size (c_at, c_size, rest) apart =
    elim (Bool-cases (ltb c.addr b.addr)) [
      | inl before ↦
          let later =
            insert_after-Joined lo c b cs c_at c_size
              (starts_after b c cs b_size (ground arith) apart) b_size rest
              (Apart-tail b c cs apart) in
          rw before (record {
            sorted = later.sorted;
            bytes = λ a. let e = later.bytes a in ground (arith, e);
          })
      | inr after ↦ rw after (
          merge_next-Joined lo b (c ∷ cs) at b_size
            (ends_before b c cs c_size (ground arith) apart, c_size, rest))
    ]
