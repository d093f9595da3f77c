-- ===== src/Vmm/Map.antt =====
-- `vmm_map_page` and `vmm_unmap_page`: the entry for the address, and no other.
use micro_os.Base.{
  ℕ, suc, ◌<◌, ◌≡◌, ◌≢◌, ◌⊎◌, inl, inr, refl, sym, subst, ◌∙◌, true, false, Option, none, some,
  arith,
}
use micro_os.Vmm.Defs.{
  Vmm, slot, set_word, walk_in, walk, leaf, write_entry, vmm_map_page_in, vmm_map_page,
  vmm_unmap_page,
}
use micro_os.Vmm.Tree.{IsTree, put_word_eq}
use micro_os.Vmm.Extends.{Extends, Upper, Upper-keeps}
use micro_os.Vmm.Route.{Route, Walked, walk_again, walk_in-Walked, Route-upper, Route-write}

-- The tables after a page is mapped: the entry that a walk finds has the value written, and the
-- walk changes nothing; every other entry of the page tables is as it was, no table is lost, and the
-- tables above keep every link, with changes only at the indices for the address.
pub record Mapped (lvl : ℕ → ℕ) (v : Vmm) (root virt value : ℕ) (v' : Vmm) : Type 0 where
  pub lvl' : ℕ → ℕ
  pub tree : IsTree lvl' v'
  pub kept : (t : ℕ) → 0 < lvl t → lvl' t ≡ lvl t
  pub entry : ℕ
  pub route : Route lvl' v' root virt entry
  pub found : walk_in v' root virt false 0 ≡ (some entry, v')
  pub holds : v'.mem entry ≡ value
  pub others :
      (t i : ℕ) → lvl t ≡ 1 → i < 512 → slot t i ≢ entry → v'.mem (slot t i) ≡ v.mem (slot t i)
  pub upper : Upper lvl v virt v'
  pub same_root : v'.pml4 ≡ v.pml4

-- The walk stops: no page for a table, or a 2 MiB page. The page tables are as they were, and the
-- tables above keep every link.
abbrev pub NotMapped : (ℕ → ℕ) → Vmm → ℕ → Vmm → Type 0
NotMapped lvl v virt v' = (lvl' : ℕ → ℕ) × Extends lvl v virt lvl' v'

abbrev pub Written : (ℕ → ℕ) → Vmm → ℕ → ℕ → ℕ → Option ℕ × Vmm → Type 0
Written lvl v root virt value (none, v1) = NotMapped lvl v virt (write_entry (none, v1) value)
Written lvl v root virt value (some e, v1) =
    Mapped lvl v root virt value (write_entry (some e, v1) value)

write-Written :
    (lvl : ℕ → ℕ) (v : Vmm) (root virt value : ℕ) (r : Option ℕ × Vmm)
    → Walked lvl v root virt r
    → Written lvl v root virt value r
write-Written lvl v root virt value (none, v1) w = w
write-Written lvl v root virt value (some e, v1) (lvl', x, r) =
    let (g, r') = Route-write lvl' v1 root virt e value x.tree r in
    record {
      lvl' = lvl';
      tree = g.tree;
      kept = x.kept;
      entry = e;
      route = r';
      found = walk_again lvl' (set_word v1 e value) root virt e 0 r';
      holds = put_word_eq v1.mem e value e refl;
      others = λ t i h hi ne.
          g.same t i (omega (arith, x.kept t (omega (arith, h)), h)) hi ne ∙ x.leaves t i h hi;
      upper = Upper-keeps lvl v virt v1 _ x.upper (λ t i k h hi.
          let now : lvl' t ≡ suc (suc k) = x.kept t (omega (arith, h)) ∙ h in
          g.same t i (omega (arith, now)) hi
            (Route-upper lvl' v1 root virt e t i k x.tree r now hi));
      same_root = x.root;
    }

either :
    (lvl : ℕ → ℕ) (v : Vmm) (root virt value : ℕ) (r : Option ℕ × Vmm)
    → Written lvl v root virt value r
    → Mapped lvl v root virt value (write_entry r value)
      ⊎ ((r.0 ≡ none) × NotMapped lvl v virt (write_entry r value))
either lvl v root virt value (none, v1) w = inr (refl, w)
either lvl v root virt value (some e, v1) w = inl w

-- Mapping a page in the tables at `root`: where the walk reaches an entry, a later walk finds it,
-- it holds the address and the flags with the present bit, and no other entry of a page table
-- has changed; where it does not, none has. In both cases the tables still form a tree, a present
-- entry of a table above the page tables leads where it led, with the rights that it gave, and the
-- other entries there change only at the indices for the address.
pub vmm_map_page_in-Mapped :
    (lvl : ℕ → ℕ) (v : Vmm) (root virt phys flags : ℕ)
    → IsTree lvl v
    → lvl root ≡ 4
    → Mapped lvl v root virt (leaf phys flags) (vmm_map_page_in v root virt phys flags)
      ⊎ (((walk_in v root virt true flags).0 ≡ none)
          × NotMapped lvl v virt (vmm_map_page_in v root virt phys flags))
unfolding vmm_map_page_in
vmm_map_page_in-Mapped lvl v root virt phys flags tree top =
    either lvl v root virt (leaf phys flags) (walk_in v root virt true flags) (
      write-Written lvl v root virt (leaf phys flags) _
        (walk_in-Walked lvl v root virt flags true tree top))

unmapped :
    (lvl : ℕ → ℕ) (v : Vmm) (virt value : ℕ) (r : Option ℕ × Vmm)
    → r.0 ≢ none
    → lvl v.pml4 ≡ 4
    → Written lvl v v.pml4 virt value r
    → Mapped lvl v v.pml4 virt 0 (vmm_unmap_page (write_entry r value) virt)
unfolding vmm_unmap_page walk
unmapped lvl v virt value (none, v1) some_entry top w = absurd (some_entry refl)
unmapped lvl v virt value (some e, v1) some_entry top m =
    let v2 = set_word v1 e value in
    let (g, r') = Route-write m.lvl' v2 v.pml4 virt m.entry 0 m.tree m.route in
    let again : walk_in v2 v2.pml4 virt false 0 ≡ (some m.entry, v2) =
      subst (λ t. walk_in v2 t virt false 0 ≡ (some m.entry, v2)) (sym m.same_root) m.found in
    rw again (record {
      lvl' = m.lvl';
      tree = g.tree;
      kept = m.kept;
      entry = m.entry;
      route = r';
      found = walk_again m.lvl' (set_word v2 m.entry 0) v.pml4 virt m.entry 0 r';
      holds = put_word_eq v2.mem m.entry 0 m.entry refl;
      others = λ t i h hi ne.
          g.same t i (omega (arith, m.kept t (omega (arith, h)), h)) hi ne ∙ m.others t i h hi ne;
      upper = Upper-keeps lvl v virt v2 _ m.upper (λ t i k h hi.
          let now : m.lvl' t ≡ suc (suc k) = m.kept t (omega (arith, h)) ∙ h in
          g.same t i (omega (arith, now)) hi
            (Route-upper m.lvl' v2 v.pml4 virt m.entry t i k m.tree m.route now hi));
      same_root = m.same_root;
    })

-- Unmapping a page just mapped, where its walk reached an entry: a walk still finds that entry, which
-- is now 0, and every other entry of the page tables is as it was before the two calls; a present
-- entry of a table above leads where it led, with the rights that it gave, and the other entries
-- there change only at the indices for the address.
pub vmm_unmap_page-vmm_map_page :
    (lvl : ℕ → ℕ) (v : Vmm) (virt phys flags : ℕ)
    → IsTree lvl v
    → lvl v.pml4 ≡ 4
    → (walk v virt true flags).0 ≢ none
    → Mapped lvl v v.pml4 virt 0 (vmm_unmap_page (vmm_map_page v virt phys flags) virt)
unfolding vmm_map_page walk
vmm_unmap_page-vmm_map_page lvl v virt phys flags tree top reached =
    unmapped lvl v virt (leaf phys flags) (walk_in v v.pml4 virt true flags) reached top (
      write-Written lvl v v.pml4 virt (leaf phys flags) _
        (walk_in-Walked lvl v v.pml4 virt flags true tree top))
