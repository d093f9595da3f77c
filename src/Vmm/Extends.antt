-- ===== src/Vmm/Extends.antt =====
-- What the steps of a walk for an address leave alone in the tables.
use micro_os.Base.{
  ℕ, zero, suc, ◌<◌, ◌≡◌, ◌≢◌, inl, inr, refl, sym, ap, subst, ◌∙◌, ◌==◌, Bool-cases, arith,
}
use micro_os.Vmm.Defs.{Vmm, Memory, slot, pml4_index, pdpt_index, pd_index}
use micro_os.Vmm.Entry.{Keeps-refl, Keeps-trans}
use micro_os.Vmm.Tree.{IsTree, Grows, other_slot}
use micro_os.Vmm.Walk.{KeepsLink}

-- Tables of different levels share no slot.
pub apart_levels :
    (lvl : ℕ → ℕ) (v : Vmm) (t i t' i' a b : ℕ)
    → IsTree lvl v
    → lvl t ≡ suc a
    → lvl t' ≡ suc b
    → a ≢ b
    → i < 512
    → i' < 512
    → slot t i ≢ slot t' i'
apart_levels lvl v t i t' i' a b tree at bt ne hi hi' e =
    let (same, _) =
      other_slot lvl v t' i' t i tree (omega (arith, bt)) hi' (omega (arith, at)) hi e in
    ne (omega (arith, at, bt, ap lvl same))

-- The index of the entry for `virt` in a table of level `k + 2`.
abbrev pub index_at : ℕ → ℕ → ℕ
index_at zero virt = pd_index virt
index_at (suc zero) virt = pdpt_index virt
index_at (suc (suc k)) virt = pml4_index virt

-- The tables above the page tables: a present entry keeps what it leads to, and its rights, and an
-- entry has changed only at the index for `virt` of its level.
pub record Upper (lvl : ℕ → ℕ) (v : Vmm) (virt : ℕ) (v' : Vmm) : Type 0 where
  pub links : (t i k : ℕ) → lvl t ≡ suc (suc k) → i < 512 → KeepsLink v.mem v'.mem (slot t i)
  pub off :
      (t i k : ℕ)
      → lvl t ≡ suc (suc k)
      → i < 512
      → i ≢ index_at k virt
      → v'.mem (slot t i) ≡ v.mem (slot t i)

pub Upper-refl : (lvl : ℕ → ℕ) (v : Vmm) (virt : ℕ) → Upper lvl v virt v
Upper-refl lvl v virt = record {
  links = λ t i k h hi there. Keeps-refl (v.mem (slot t i)) there;
  off = λ t i k h hi ne. refl;
}

-- Later changes elsewhere keep it.
pub Upper-keeps :
    (lvl : ℕ → ℕ) (v : Vmm) (virt : ℕ) (v' v'' : Vmm)
    → Upper lvl v virt v'
    → ((t i k : ℕ) → lvl t ≡ suc (suc k) → i < 512 → v''.mem (slot t i) ≡ v'.mem (slot t i))
    → Upper lvl v virt v''
Upper-keeps lvl v virt v' v'' u same = record {
  links = λ t i k h hi there. rw (same t i k h hi) (u.links t i k h hi there);
  off = λ t i k h hi ne. same t i k h hi ∙ u.off t i k h hi ne;
}

-- Every table keeps its level, every entry of a page table its value, and every entry above what
-- `Upper` says.
pub record Extends (lvl : ℕ → ℕ) (v : Vmm) (virt : ℕ) (lvl' : ℕ → ℕ) (v' : Vmm) : Type 0 where
  pub tree : IsTree lvl' v'
  pub kept : (t : ℕ) → 0 < lvl t → lvl' t ≡ lvl t
  pub leaves : (t i : ℕ) → lvl t ≡ 1 → i < 512 → v'.mem (slot t i) ≡ v.mem (slot t i)
  pub upper : Upper lvl v virt v'
  pub root : v'.pml4 ≡ v.pml4

pub same_memory :
    (lvl0 lvl : ℕ → ℕ) (virt : ℕ) (v0 v v' : Vmm)
    → Extends lvl0 v0 virt lvl v
    → IsTree lvl v'
    → v'.mem ≡ v.mem
    → v'.pml4 ≡ v.pml4
    → Extends lvl0 v0 virt lvl v'
same_memory lvl0 lvl virt v0 v v' x tree mem root = record {
  tree = tree;
  kept = x.kept;
  leaves = λ t i h hi. ap (λ (m : Memory). m (slot t i)) mem ∙ x.leaves t i h hi;
  upper =
      Upper-keeps lvl0 v0 virt v v' x.upper (λ t i k h hi. ap (λ (m : Memory). m (slot t i)) mem);
  root = root ∙ x.root;
}

-- A step that changes the entry for `virt` of one table.
grow_upper :
    (lvl0 lvl lvl' : ℕ → ℕ) (virt : ℕ) (v0 v v' : Vmm) (table k : ℕ)
    → Extends lvl0 v0 virt lvl v
    → lvl table ≡ suc (suc k)
    → index_at k virt < 512
    → Grows lvl v (slot table (index_at k virt)) lvl' v'
    → KeepsLink v.mem v'.mem (slot table (index_at k virt))
    → Upper lvl0 v0 virt v'
grow_upper lvl0 lvl lvl' virt v0 v v' table k x at hi g link =
    let p = slot table (index_at k virt) in
    record {
      links = λ t i j h ih there.
          let now : lvl t ≡ suc (suc j) = x.kept t (omega (arith, h)) ∙ h in
          let before = x.upper.links t i j h ih there in
          elim (Bool-cases (slot t i == p)) [
            | inl hit ↦
                let e : slot t i ≡ p = ground arith in
                let step : KeepsLink v.mem v'.mem (slot t i) =
                  subst (KeepsLink v.mem v'.mem) (sym e) link in
                Keeps-trans before (step before.present)
            | inr miss ↦ rw (g.same t i (omega (arith, now)) ih (ground arith)) before
          ];
      off = λ t i j h ih ne.
          let now : lvl t ≡ suc (suc j) = x.kept t (omega (arith, h)) ∙ h in
          let elsewhere : slot t i ≢ p = λ e.
            let (te, ie) =
              other_slot lvl v table (index_at k virt) t i x.tree (omega (arith, at)) hi
                (omega (arith, now)) ih e in
            let je : j ≡ k = omega (arith, now, at, ap lvl te) in
            ne (ie ∙ sym (ap (λ (n : ℕ). index_at n virt) je)) in
          g.same t i (omega (arith, now)) ih elsewhere ∙ x.upper.off t i j h ih ne;
    }

pub grow_again :
    (lvl0 lvl lvl' : ℕ → ℕ) (virt : ℕ) (v0 v v' : Vmm) (table k : ℕ)
    → Extends lvl0 v0 virt lvl v
    → lvl table ≡ suc (suc k)
    → index_at k virt < 512
    → Grows lvl v (slot table (index_at k virt)) lvl' v'
    → KeepsLink v.mem v'.mem (slot table (index_at k virt))
    → Extends lvl0 v0 virt lvl' v'
grow_again lvl0 lvl lvl' virt v0 v v' table k x at hi g link = record {
  tree = g.tree;
  kept = λ t h. g.kept t (omega (arith, x.kept t h)) ∙ x.kept t h;
  leaves = λ t i h ih.
      let one : lvl t ≡ 1 = x.kept t (omega (arith, h)) ∙ h in
      g.same t i (omega (arith, one)) ih
        (apart_levels lvl v t i table (index_at k virt) 0 (suc k) x.tree one at (omega arith) ih hi)
      ∙ x.leaves t i h ih;
  upper = grow_upper lvl0 lvl lvl' virt v0 v v' table k x at hi g link;
  root = g.root ∙ x.root;
}
