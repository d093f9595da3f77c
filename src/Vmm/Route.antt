-- ===== src/Vmm/Route.antt =====
-- The route of the walk through the tables, and that a walk finds it again.
use micro_os.Base.{
  ℕ, suc, ◌<◌, ◌≡◌, ◌≢◌, inl, inr, refl, ◌∙◌, Bool, false, Option, none, some, Bool-cases, arith,
}
use micro_os.Vmm.Defs.{
  Vmm, is_huge, slot, set_word, descend, descend_pd, and_then, walk_in, pml4_index, pdpt_index,
  pd_index, pt_index, inter_flags,
}
use micro_os.Vmm.Entry.{inter_flags_lem}
use micro_os.Vmm.Tree.{IsTree, Grows, Leads, put_word_ne}
use micro_os.Vmm.Extends.{apart_levels, Upper-refl, Extends, same_memory, grow_again}
use micro_os.Vmm.Walk.{Descended, descend-Descended}

-- A present entry leads to the same table again, with no change.
descend_again :
    (lvl : ℕ → ℕ) (v : Vmm) (table idx k next inter : ℕ)
    → Leads lvl v table idx k next
    → descend v table idx false inter ≡ (some next, v)
unfolding descend
descend_again lvl v table idx k next inter l = rw (l.present, l.target) refl

-- The tables on the way to the entry at `e`.
pub record Route (lvl : ℕ → ℕ) (v : Vmm) (root virt e : ℕ) : Type 0 where
  pub t3 : ℕ
  pub t2 : ℕ
  pub t1 : ℕ
  pub top : lvl root ≡ 4
  pub down3 : Leads lvl v root (pml4_index virt) 2 t3
  pub down2 : Leads lvl v t3 (pdpt_index virt) 1 t2
  pub down1 : Leads lvl v t2 (pd_index virt) 0 t1
  pub here : e ≡ slot t1 (pt_index virt)

pub walk_again :
    (lvl : ℕ → ℕ) (v : Vmm) (root virt e flags : ℕ)
    → Route lvl v root virt e
    → walk_in v root virt false flags ≡ (some e, v)
unfolding walk_in descend_pd
walk_again lvl v root virt e flags r =
    rw (descend_again lvl v root (pml4_index virt) 2 r.t3 (inter_flags flags) r.down3) (
      rw (descend_again lvl v r.t3 (pdpt_index virt) 1 r.t2 (inter_flags flags) r.down2) (
        rw (r.down1.huge refl) (
          rw (descend_again lvl v r.t2 (pd_index virt) 0 r.t1 (inter_flags flags) r.down1, r.here)
            refl)))

-- A change of another slot keeps what an entry leads to.
Leads-Grows :
    (lvl lvl' : ℕ → ℕ) (v v' : Vmm) (p table idx k next : ℕ)
    → Leads lvl v table idx k next
    → Grows lvl v p lvl' v'
    → 0 < lvl table
    → idx < 512
    → slot table idx ≢ p
    → Leads lvl' v' table idx k next
Leads-Grows lvl lvl' v v' p table idx k next l g at hi ne =
    let same = g.same table idx at hi ne in
    record {
      present = rw same l.present;
      huge = λ z. rw same (l.huge z);
      target = rw same l.target;
      level = g.kept next (omega (arith, l.level)) ∙ l.level;
    }

-- What a walk returns: the entry at the end of a route, or nothing.
abbrev pub Walked : (ℕ → ℕ) → Vmm → ℕ → ℕ → Option ℕ × Vmm → Type 0
Walked lvl v root virt (none, v') = (lvl' : ℕ → ℕ) × Extends lvl v virt lvl' v'
Walked lvl v root virt (some e, v') =
    (lvl' : ℕ → ℕ) × Extends lvl v virt lvl' v' × Route lvl' v' root virt e

module _ (lvl0 : ℕ → ℕ) (v0 : Vmm) (root virt : ℕ) where
  -- The last step, from the page directory `t2`.
  walked1 :
      (lvl : ℕ → ℕ) (v : Vmm) (t3 t2 : ℕ) (r : Option ℕ × Vmm)
      → Extends lvl0 v0 virt lvl v
      → lvl root ≡ 4
      → Leads lvl v root (pml4_index virt) 2 t3
      → Leads lvl v t3 (pdpt_index virt) 1 t2
      → Descended lvl v t2 (pd_index virt) 0 r
      → Walked lvl0 v0 root virt (and_then r (λ t1 v1. (some (slot t1 (pt_index virt)), v1)))
  walked1 lvl v t3 t2 (none, v') x top d3 d2 (tree, mem, rt) =
      (lvl, same_memory lvl0 lvl virt v0 v v' x tree mem rt)
  walked1 lvl v t3 t2 (some t1, v') x top d3 d2 (lvl', g, d1, link) =
      let i4 : pml4_index virt < 512 = omega arith in
      let i3 : pdpt_index virt < 512 = omega arith in
      let i2 : pd_index virt < 512 = omega arith in
      let ne4 =
        apart_levels lvl v root (pml4_index virt) t2 (pd_index virt) 3 1 x.tree top d2.level
          (omega arith) i4 i2 in
      let ne3 =
        apart_levels lvl v t3 (pdpt_index virt) t2 (pd_index virt) 2 1 x.tree d3.level d2.level
          (omega arith) i3 i2 in
      (
        lvl',
        grow_again lvl0 lvl lvl' virt v0 v v' t2 0 x d2.level i2 g link,
        record {
          t3 = t3;
          t2 = t2;
          t1 = t1;
          top = g.kept root (omega (arith, top)) ∙ top;
          down3 =
              Leads-Grows lvl lvl' v v' (slot t2 (pd_index virt)) root (pml4_index virt) 2 t3 d3 g
                (omega (arith, top)) i4 ne4;
          down2 =
              Leads-Grows lvl lvl' v v' (slot t2 (pd_index virt)) t3 (pdpt_index virt) 1 t2 d2 g
                (omega (arith, d3.level)) i3 ne3;
          down1 = d1;
          here = refl;
        },
      )

descend_pd-Descended :
    (lvl : ℕ → ℕ) (v : Vmm) (table idx flags : ℕ) (create : Bool)
    → IsTree lvl v
    → lvl table ≡ 2
    → idx < 512
    → Descended lvl v table idx 0 (descend_pd v table idx create (inter_flags flags))
unfolding descend_pd
descend_pd-Descended lvl v table idx flags create tree at hi =
    elim (Bool-cases (is_huge (v.mem (slot table idx)))) [
      | inl big ↦ rw big (tree, refl, refl)
      | inr small ↦
          let (low, odd) = inter_flags_lem flags in
          rw small (
            descend-Descended lvl v table idx 0 (inter_flags flags) tree at hi (λ z. small) low odd
              create)
    ]

module _ (lvl0 : ℕ → ℕ) (v0 : Vmm) (root virt flags : ℕ) (create : Bool) where
  from_pdpt :
      (lvl : ℕ → ℕ) (v : Vmm) (t3 : ℕ) (r : Option ℕ × Vmm)
      → Extends lvl0 v0 virt lvl v
      → lvl root ≡ 4
      → Leads lvl v root (pml4_index virt) 2 t3
      → Descended lvl v t3 (pdpt_index virt) 1 r
      → Walked lvl0 v0 root virt (
          and_then r (λ t2 v2.
            and_then
              (descend_pd v2 t2 (pd_index virt) create (inter_flags flags))
              (λ t1 v1. (some (slot t1 (pt_index virt)), v1))))
  from_pdpt lvl v t3 (none, v') x top d3 (tree, mem, rt) =
      (lvl, same_memory lvl0 lvl virt v0 v v' x tree mem rt)
  from_pdpt lvl v t3 (some t2, v') x top d3 (lvl', g, d2, link) =
      let i4 : pml4_index virt < 512 = omega arith in
      let i3 : pdpt_index virt < 512 = omega arith in
      let ne4 =
        apart_levels lvl v root (pml4_index virt) t3 (pdpt_index virt) 3 2 x.tree top d3.level
          (omega arith) i4 i3 in
      walked1 lvl0 v0 root virt lvl' v' t3 t2 _
        (grow_again lvl0 lvl lvl' virt v0 v v' t3 1 x d3.level i3 g link)
        (g.kept root (omega (arith, top)) ∙ top)
        (Leads-Grows lvl lvl' v v' (slot t3 (pdpt_index virt)) root (pml4_index virt) 2 t3 d3 g
          (omega (arith, top)) i4 ne4)
        d2
        (descend_pd-Descended lvl' v' t2 (pd_index virt) flags create g.tree d2.level (omega arith))

  from_root :
      (lvl : ℕ → ℕ) (v : Vmm) (r : Option ℕ × Vmm)
      → Extends lvl0 v0 virt lvl v
      → lvl root ≡ 4
      → Descended lvl v root (pml4_index virt) 2 r
      → Walked lvl0 v0 root virt (
          and_then r (λ t3 v3.
            and_then (descend v3 t3 (pdpt_index virt) create (inter_flags flags)) (λ t2 v2.
              and_then
                (descend_pd v2 t2 (pd_index virt) create (inter_flags flags))
                (λ t1 v1. (some (slot t1 (pt_index virt)), v1)))))
  from_root lvl v (none, v') x top (tree, mem, rt) =
      (lvl, same_memory lvl0 lvl virt v0 v v' x tree mem rt)
  from_root lvl v (some t3, v') x top (lvl', g, d3, link) =
      let (low, odd) = inter_flags_lem flags in
      from_pdpt lvl' v' t3 _
        (grow_again lvl0 lvl lvl' virt v0 v v' root 2 x top (omega arith) g link)
        (g.kept root (omega (arith, top)) ∙ top) d3
        (descend-Descended lvl' v' t3 (pdpt_index virt) 1 (inter_flags flags) g.tree d3.level
          (omega arith) (λ z. absurd (omega (arith, z))) low odd create)

pub walk_in-Walked :
    (lvl : ℕ → ℕ) (v : Vmm) (root virt flags : ℕ) (create : Bool)
    → IsTree lvl v
    → lvl root ≡ 4
    → Walked lvl v root virt (walk_in v root virt create flags)
unfolding walk_in
walk_in-Walked lvl v root virt flags create tree top =
    let (low, odd) = inter_flags_lem flags in
    from_root lvl v root virt flags create lvl v _
      (record {
        tree = tree;
        kept = λ t h. refl;
        leaves = λ t i h hi. refl;
        upper = Upper-refl lvl v virt;
        root = refl;
      })
      top
      (descend-Descended lvl v root (pml4_index virt) 2 (inter_flags flags) tree top (omega arith)
        (λ z. absurd (omega (arith, z))) low odd create)

-- The entry that a route ends at is in a page table.
pub Route-upper :
    (lvl : ℕ → ℕ) (v : Vmm) (root virt p t i k : ℕ)
    → IsTree lvl v
    → Route lvl v root virt p
    → lvl t ≡ suc (suc k)
    → i < 512
    → slot t i ≢ p
Route-upper lvl v root virt p t i k tree r at hi = rw r.here (
    apart_levels lvl v t i r.t1 (pt_index virt) (suc k) 0 tree at r.down1.level (omega arith) hi
      (omega arith))

-- A write to the entry that a route ends at.
pub Route-write :
    (lvl : ℕ → ℕ) (v : Vmm) (root virt p e : ℕ)
    → IsTree lvl v
    → Route lvl v root virt p
    → Grows lvl v p lvl (set_word v p e) × Route lvl (set_word v p e) root virt p
Route-write lvl v root virt p e tree r =
    let i2 : pd_index virt < 512 = omega arith in
    let i3 : pdpt_index virt < 512 = omega arith in
    let i4 : pml4_index virt < 512 = omega arith in
    let other : (t i k : ℕ) → lvl t ≡ suc (suc k) → i < 512 → slot t i ≢ p =
      λ t i k at hi. Route-upper lvl v root virt p t i k tree r at hi in
    let g : Grows lvl v p lvl (set_word v p e) = record {
      tree = record {
        aligned = tree.aligned;
        small = tree.small;
        child = λ t i k at hi pr nh.
            let old = put_word_ne v.mem p e (slot t i) (other t i k at hi) in
            rw old (tree.child t i k at hi (rw old at pr) (λ z. rw old at (nh z)));
        apart = tree.apart;
        first_used = tree.first_used;
        pages = tree.pages;
      };
      kept = λ t h. refl;
      same = λ t i h hi ne. put_word_ne v.mem p e (slot t i) ne;
      root = refl;
    } in
    let keep : (t i k n : ℕ)
        → Leads lvl v t i k n
        → lvl t ≡ suc (suc k)
        → i < 512
        → Leads lvl (set_word v p e) t i k n =
      λ t i k n l at hi.
        Leads-Grows lvl lvl v (set_word v p e) p t i k n l g (omega (arith, at)) hi
          (other t i k at hi) in
    (
      g,
      record {
        t3 = r.t3;
        t2 = r.t2;
        t1 = r.t1;
        top = r.top;
        down3 = keep root (pml4_index virt) 2 r.t3 r.down3 r.top i4;
        down2 = keep r.t3 (pdpt_index virt) 1 r.t2 r.down2 r.down3.level i3;
        down1 = keep r.t2 (pd_index virt) 0 r.t1 r.down1 r.down2.level i2;
        here = r.here;
      },
    )
