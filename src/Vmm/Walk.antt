-- ===== src/Vmm/Walk.antt =====
-- The walk through the four levels, and what it finds again.
use Prim.Native.Nat.{bit_or}
use micro_os.Base.{
  ℕ, suc, ◌*◌, ◌%◌, ◌<◌, ◌≡◌, inl, inr, refl, ap, Bool, true, false, Option, none, some, ◌==◌,
  Bool-cases, arith,
}
use micro_os.Pmm.Defs.{Pmm, page_size, bitmap_test, pmm_alloc_page}
use micro_os.Pmm.Alloc.{Allocated, pmm_alloc_page-Allocated}
use micro_os.Vmm.Defs.{Vmm, Memory, put_word, is_present, is_huge, slot, alloc_table, descend}
use micro_os.Vmm.Entry.{Keeps, Keeps-refl, bit_or-Keeps}
use micro_os.Vmm.Tree.{
  IsTree, Grows, Leads, put_word_eq, widen-Grows, fresh-Grows, grown, linked, entry, next, fresh,
}

-- An entry that is present keeps what it leads to, and its rights.
abbrev pub KeepsLink : Memory → Memory → ℕ → Type 0
KeepsLink m m' p = is_present (m p) ≡ true → Keeps (m p) (m' p)

-- What a step of the walk returns: the next table, or nothing, and then no word has changed.
abbrev pub Descended : (ℕ → ℕ) → Vmm → ℕ → ℕ → ℕ → Option ℕ × Vmm → Type 0
Descended lvl v table idx k (none, v') = IsTree lvl v' × (v'.mem ≡ v.mem) × (v'.pml4 ≡ v.pml4)
Descended lvl v table idx k (some next, v') =
    (lvl' : ℕ → ℕ) × Grows lvl v (slot table idx) lvl' v'
    × Leads lvl' v' table idx k next
    × KeepsLink v.mem v'.mem (slot table idx)

-- Nothing has happened to the tree.
stay-Grows : (lvl : ℕ → ℕ) (v : Vmm) (p : ℕ) → IsTree lvl v → Grows lvl v p lvl v
stay-Grows lvl v p tree = record {
  tree = tree;
  kept = λ t h. refl;
  same = λ t i h hi ne. refl;
  root = refl;
}

module _ (lvl : ℕ → ℕ) (v : Vmm) (table idx k inter : ℕ) (tree : IsTree lvl v)
    (at : lvl table ≡ suc (suc k)) (in_table : idx < 512)
    (no_huge : k ≡ 0 → is_huge (v.mem (slot table idx)) ≡ false) (low : inter < 8)
    (odd : inter % 2 ≡ 1) where
  create-Descended :
      (r : ℕ × Pmm)
      → pmm_alloc_page v.pmm ≡ r
      → Allocated v.pmm r
      → is_present (v.mem (slot table idx)) ≡ false
      → Descended lvl v table idx k (descend v table idx true inter)
  unfolding descend alloc_table linked entry next fresh
  create-Descended (addr, p') e (inl (nothing, same, _)) missing =
      rw (missing, e, nothing, same) (tree, refl, refl)
  create-Descended (addr, p') e (inr (page, made, took, valid)) missing =
      elim (Bool-cases (page == 0)) [
        | inl zero_page ↦
            let pe : page ≡ 0 = ground arith in
            absurd (
              ground
                (arith, took.was_free, tree.first_used, ap (λ q. bitmap_test v.pmm.bitmap q) pe))
        | inr page_ok ↦
            let nz : page * page_size == 0 ≡ false = ground arith in
            let (grows, leads) =
              fresh-Grows lvl v table idx k inter page p' tree at in_table low odd took valid in
            rw (missing, e, made, nz)
              (rw nz (
                grown lvl (page * page_size) k,
                grows,
                leads,
                λ there. absurd (cc (there, missing)),
              ))
      ]

  pub descend-Descended :
      (create : Bool) → Descended lvl v table idx k (descend v table idx create inter)
  unfolding descend
  descend-Descended create = elim (Bool-cases (is_present (v.mem (slot table idx)))) [
    | inl present ↦ elim (Bool-cases create) [
      | inl make ↦
          let (grows, leads) =
            widen-Grows lvl v table idx k inter tree at in_table no_huge low odd present in
          let p = slot table idx in
          let e = v.mem p in
          let written : put_word v.mem p (bit_or e inter) p ≡ bit_or e inter =
            put_word_eq v.mem p (bit_or e inter) p refl in
          rw (present, make) (lvl, grows, leads, λ _. rw written (bit_or-Keeps e inter low odd))
      | inr look ↦
          rw (present, look)
            (
              lvl,
              stay-Grows lvl v (slot table idx) tree,
              record {
                present = present;
                huge = no_huge;
                target = refl;
                level = tree.child table idx k at in_table present no_huge;
              },
              Keeps-refl (v.mem (slot table idx)),
            )
    ]
    | inr missing ↦ elim (Bool-cases create) [
      | inl make ↦ rw make (
          create-Descended (pmm_alloc_page v.pmm) refl (pmm_alloc_page-Allocated v.pmm tree.pages)
            missing)
      | inr look ↦ rw (missing, look) (tree, refl, refl)
    ]
  ]
