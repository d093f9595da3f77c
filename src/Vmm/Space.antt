-- ===== src/Vmm/Space.antt =====
-- `vmm_create_address_space`: the root table of a process.
use micro_os.Base.{
  ℕ, zero, suc, ◌+◌, ◌*◌, ◌%◌, ◌<◌, ◌≤◌, ◌≡◌, ◌≢◌, inl, inr, refl, ap, ◌∙◌, false, ◌&&◌, ◌||◌,
  Option, none, some, ◌==◌, leb, ltb, Bool-cases, if◌then◌else◌, arith,
}
use micro_os.Pmm.Defs.{Pmm, page_size, bitmap_test, pmm_alloc_page}
use micro_os.Pmm.Alloc.{Took, Allocated, pmm_alloc_page-Allocated}
use micro_os.Vmm.Defs.{
  Vmm, Memory, slot, put_word, zero_words, alloc_table, clone_entries, vmm_create_address_space,
}
use micro_os.Vmm.Tree.{IsTree, same_slot, words_apart, put_word_eq, put_word_ne}

-- The clone of entries `i`, `i + 1`, … writes these entries of `to`, and nothing else.
clone_entries_lem :
    (left i : ℕ) (m : Memory) (from to : ℕ)
    → from % 4096 ≡ 0
    → to % 4096 ≡ 0
    → from ≢ to
    → i + left ≤ 512
    → ((j : ℕ)
        → j < 512
        → clone_entries m from to left i (slot to j)
          ≡ (if leb i j && ltb j (i + left) then m (slot from j) else m (slot to j)))
      × ((a : ℕ) → (leb to a && ltb a (to + 4096)) ≡ false → clone_entries m from to left i a ≡ m a)
unfolding clone_entries
clone_entries_lem zero i m from to fa ta ne hi = (λ j h. ground arith, λ a h. refl)
clone_entries_lem (suc left) i m from to fa ta ne hi =
    let m1 = put_word m (slot to i) (m (slot from i)) in
    let (inside, outside) = clone_entries_lem left (i + 1) m1 from to fa ta ne (omega arith) in
    (
      λ j h.
          let rest = inside j h in
          let read : m1 (slot from j) ≡ m (slot from j) =
            put_word_ne m (slot to i) (m (slot from i)) (slot from j)
              (λ e. ne (same_slot from j to i fa ta h (omega arith) e).0) in
          elim (Bool-cases (j == i)) [
            | inl here ↦
                let e : j ≡ i = ground arith in
                let wrote : m1 (slot to j) ≡ m (slot from i) =
                  put_word_eq m (slot to i) (m (slot from i)) (slot to j) (omega (arith, e)) in
                ground (arith, rest, wrote, ap (λ (t : ℕ). m (slot from t)) e)
            | inr other ↦
                let kept : m1 (slot to j) ≡ m (slot to j) =
                  put_word_ne m (slot to i) (m (slot from i)) (slot to j)
                    (λ e. absurd (ground (arith, other, e))) in
                ground (arith, rest, read, kept)
          ],
      λ a h. let rest = outside a h in ground (arith, rest),
    )

-- The new root `r`: its first entry and its upper half are those of the kernel's root, the rest is
-- empty; no word of an old table has changed, and `r` was none of them.
pub record Space (lvl : ℕ → ℕ) (v : Vmm) (r : ℕ) (v' : Vmm) : Type 0 where
  pub new : lvl r ≡ 0
  pub aligned : r % 4096 ≡ 0
  pub entries :
      (i : ℕ)
      → i < 512
      → v'.mem (slot r i) ≡ (if (i == 0) || leb 256 i then v.mem (slot v.pml4 i) else 0)
  pub others : (t i : ℕ) → 0 < lvl t → i < 512 → v'.mem (slot t i) ≡ v.mem (slot t i)
  pub root : v'.pml4 ≡ v.pml4

-- A new address space, or nothing where no page is free.
abbrev pub Created : (ℕ → ℕ) → Vmm → Option ℕ × Vmm → Type 0
Created lvl v (none, v') = v'.mem ≡ v.mem
Created lvl v (some r, v') = Space lvl v r v'

module _ (lvl : ℕ → ℕ) (v : Vmm) (tree : IsTree lvl v) (top : lvl v.pml4 ≡ 4) where
  built :
      (page : ℕ) (p' : Pmm)
      → Took v.pmm page p'
      → let r = page * page_size in
        let m0 = zero_words (zero_words v.mem r page_size) r (256 * 8) in
        let m2 = put_word m0 r (m0 v.pml4) in
        Space lvl v r (record v { pmm = p'; mem = clone_entries m2 v.pml4 r 256 256 })
  built page p' took =
      let r = page * page_size in
      let m0 = zero_words (zero_words v.mem r page_size) r (256 * 8) in
      let m2 = put_word m0 r (m0 v.pml4) in
      let free : lvl r ≡ 0 = tree.apart page took.was_free in
      let ra : r % 4096 ≡ 0 = omega arith in
      let pa = tree.aligned v.pml4 (omega (arith, top)) in
      let ne : v.pml4 ≢ r = λ e. omega (arith, free, top, ap lvl e) in
      let (inside, outside) = clone_entries_lem 256 256 m2 v.pml4 r pa ra ne (omega arith) in
      let old : (t i : ℕ) → 0 < lvl t → i < 512 → m2 (slot t i) ≡ v.mem (slot t i) = λ t i h hi.
        let away =
          words_apart t i r (tree.aligned t h) ra hi (λ e. omega (arith, free, h, ap lvl e)) in
        ground (arith, away) in
      record {
        new = free;
        aligned = ra;
        entries = λ i hi.
            let w = inside i hi in
            let copied = old v.pml4 i (omega (arith, top)) hi in
            let away = words_apart v.pml4 0 r pa ra (omega arith) ne in
            let root_word : m0 v.pml4 ≡ v.mem v.pml4 = ground (arith, away) in
            elim (Bool-cases (leb 256 i)) [
              | inl upper ↦ w ∙ ground (arith, copied)
              | inr lower ↦ elim (Bool-cases (i == 0)) [
                | inl zero_entry ↦
                    let at : slot r i ≡ r = ground arith in
                    let from : slot v.pml4 i ≡ v.pml4 = ground arith in
                    let here : m2 (slot r i) ≡ v.mem (slot v.pml4 i) =
                      rw (at, from) (ground (arith, root_word)) in
                    w ∙ ground (arith, here)
                | inr inner ↦
                    let nothing : m2 (slot r i) ≡ 0 = ground arith in w ∙ ground (arith, nothing)
              ]
            ];
        others = λ t i h hi.
            outside (slot t i)
              (words_apart t i r (tree.aligned t h) ra hi (λ e. omega (arith, free, h, ap lvl e)))
            ∙ old t i h hi;
        root = refl;
      }

  created :
      (a : ℕ × Pmm)
      → pmm_alloc_page v.pmm ≡ a
      → Allocated v.pmm a
      → Created lvl v (vmm_create_address_space v)
  unfolding vmm_create_address_space alloc_table
  created (addr, p') e (inl (nothing, same, _)) = rw (e, nothing) refl
  created (addr, p') e (inr (page, made, took, valid)) = elim (Bool-cases (page == 0)) [
    | inl zero_page ↦
        let pe : page ≡ 0 = ground arith in
        absurd
          (ground (arith, took.was_free, tree.first_used, ap (λ q. bitmap_test v.pmm.bitmap q) pe))
    | inr page_ok ↦
        let nz : page * page_size == 0 ≡ false = ground arith in
        rw (e, made, nz) (rw nz (built page p' took))
  ]

-- Where the page tables form a tree, the new root has the first entry and the upper half of the
-- kernel's root and no other entry, it was no table before, and no word of a table has changed;
-- where no page is free, no word of memory has.
pub vmm_create_address_space-Created :
    (lvl : ℕ → ℕ) (v : Vmm)
    → IsTree lvl v
    → lvl v.pml4 ≡ 4
    → Created lvl v (vmm_create_address_space v)
vmm_create_address_space-Created lvl v tree top =
    created lvl v tree top (pmm_alloc_page v.pmm) refl (pmm_alloc_page-Allocated v.pmm tree.pages)
