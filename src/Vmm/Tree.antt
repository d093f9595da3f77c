-- ===== src/Vmm/Tree.antt =====
-- The tables in memory form levels, and a step of the walk keeps them.
use Prim.Native.Nat.{bit_or}
use micro_os.Base.{
  ℕ, suc, ◌+◌, ◌*◌, ◌%◌, ◌^◌, ◌<◌, ◌≡◌, ◌≢◌, inl, inr, refl, sym, ap, ◌∙◌, true, false, ◌&&◌, ◌==◌,
  leb, ltb, Bool-cases, if◌then◌else◌, arith,
}
use micro_os.Pmm.Defs.{Pmm, page_size, bitmap_test}
use micro_os.Pmm.Alloc
use micro_os.Pmm.Alloc.{Took, Allocated, pmm_alloc_page-Allocated}
use micro_os.Vmm.Defs.{
  Vmm, Memory, is_present, is_huge, addr_of, slot, put_word, zero_words, set_word,
}
use micro_os.Vmm.Entry.{Widened, bit_or-Widened, addr_of-aligned, aligned-not_huge}

-- `lvl` gives the level of each table, from 4 for a root to 1 for a page table, and 0 for memory
-- that is no table. A present entry of a table leads to a table one level below, except that a
-- 2 MiB page ends at level 2; no page of a table is free,
-- nor is page 0, whose address is NULL.
pub record IsTree (lvl : ℕ → ℕ) (v : Vmm) : Type 0 where
  pub aligned : (t : ℕ) → 0 < lvl t → t % 4096 ≡ 0
  pub small : (t : ℕ) → 0 < lvl t → t < 2 ^ 52
  pub child :
      (t i k : ℕ)
      → lvl t ≡ suc (suc k)
      → i < 512
      → is_present (v.mem (slot t i)) ≡ true
      → (k ≡ 0 → is_huge (v.mem (slot t i)) ≡ false)
      → lvl (addr_of (v.mem (slot t i))) ≡ suc k
  pub apart : (q : ℕ) → bitmap_test v.pmm.bitmap q ≡ true → lvl (q * page_size) ≡ 0
  pub first_used : bitmap_test v.pmm.bitmap 0 ≡ false
  pub pages : Alloc.IsValid v.pmm

-- What a step leaves alone: every table keeps its level, and every word of a table but the one at
-- `p` its value.
pub record Grows (lvl : ℕ → ℕ) (v : Vmm) (p : ℕ) (lvl' : ℕ → ℕ) (v' : Vmm) : Type 0 where
  pub tree : IsTree lvl' v'
  pub kept : (t : ℕ) → 0 < lvl t → lvl' t ≡ lvl t
  pub same : (t i : ℕ) → 0 < lvl t → i < 512 → slot t i ≢ p → v'.mem (slot t i) ≡ v.mem (slot t i)
  pub root : v'.pml4 ≡ v.pml4

-- Entry `idx` of `table` leads to `next`, one level below.
pub record Leads (lvl : ℕ → ℕ) (v : Vmm) (table idx k next : ℕ) : Type 0 where
  pub present : is_present (v.mem (slot table idx)) ≡ true
  pub huge : k ≡ 0 → is_huge (v.mem (slot table idx)) ≡ false
  pub target : addr_of (v.mem (slot table idx)) ≡ next
  pub level : lvl next ≡ suc k

pub same_slot :
    (t i t' i' : ℕ)
    → t % 4096 ≡ 0
    → t' % 4096 ≡ 0
    → i < 512
    → i' < 512
    → slot t i ≡ slot t' i'
    → (t ≡ t') × (i ≡ i')
same_slot t i t' i' a a' h h' e = (omega arith, omega arith)

pub words_apart :
    (t i n : ℕ)
    → t % 4096 ≡ 0
    → n % 4096 ≡ 0
    → i < 512
    → t ≢ n
    → (leb n (slot t i) && ltb (slot t i) (n + 4096)) ≡ false
words_apart t i n a b h ne = ground arith

pub put_word_eq : (m : Memory) (p e a : ℕ) → a ≡ p → put_word m p e a ≡ e
put_word_eq m p e a h = ground arith

pub put_word_ne : (m : Memory) (p e a : ℕ) → a ≢ p → put_word m p e a ≡ m a
put_word_ne m p e a h = ground arith

zero_words_out :
    (m : Memory) (p n a : ℕ) → (leb p a && ltb a (p + n)) ≡ false → zero_words m p n a ≡ m a
zero_words_out m p n a h = rw h

-- Two slots of tables at one address are the same slot.
pub other_slot :
    (lvl : ℕ → ℕ) (v : Vmm) (table idx t i : ℕ)
    → IsTree lvl v
    → 0 < lvl table
    → idx < 512
    → 0 < lvl t
    → i < 512
    → slot t i ≡ slot table idx
    → (t ≡ table) × (i ≡ idx)
other_slot lvl v table idx t i tree at in_table h hi e =
    same_slot t i table idx (tree.aligned t h) (tree.aligned table at) hi in_table e

module _ (lvl : ℕ → ℕ) (v : Vmm) (table idx k inter : ℕ) (tree : IsTree lvl v)
    (at : lvl table ≡ suc (suc k)) (in_table : idx < 512)
    (no_huge : k ≡ 0 → is_huge (v.mem (slot table idx)) ≡ false) (low : inter < 8)
    (odd : inter % 2 ≡ 1) where
  -- Widening a present entry.
  pub widen-Grows :
      is_present (v.mem (slot table idx)) ≡ true
      → let e' = bit_or (v.mem (slot table idx)) inter in
        let v' = set_word v (slot table idx) e' in
        Grows lvl v (slot table idx) lvl v' × Leads lvl v' table idx k (addr_of e')
  widen-Grows present =
      let p = slot table idx in
      let e = v.mem p in
      let e' = bit_or e inter in
      let w = bit_or-Widened e inter low odd in
      let down = tree.child table idx k at in_table present no_huge in
      let here : put_word v.mem p e' p ≡ e' = put_word_eq v.mem p e' p refl in
      (
        record {
          tree = record {
            aligned = tree.aligned;
            small = tree.small;
            child = λ t i j lt hi pr nh. elim (Bool-cases (slot t i == p)) [
              | inl hit ↦
                  let (te, ie) =
                    other_slot lvl v table idx t i tree (omega (arith, at)) in_table
                      (omega (arith, lt)) hi (ground arith) in
                  let je : j ≡ k = omega (arith, lt, at, ap lvl te) in
                  let at' = put_word_eq v.mem p e' (slot t i) (ground arith) in
                  rw (at', w.addr, je) down
              | inr miss ↦
                  let old = put_word_ne v.mem p e' (slot t i) (ground arith) in
                  rw old (tree.child t i j lt hi (rw old at pr) (λ z. rw old at (nh z)))
            ];
            apart = tree.apart;
            first_used = tree.first_used;
            pages = tree.pages;
          };
          kept = λ t h. refl;
          same = λ t i h hi ne. put_word_ne v.mem p e' (slot t i) ne;
          root = refl;
        },
        record {
          present = rw here w.present;
          huge = λ z. rw here (w.huge ∙ no_huge z);
          target = rw here refl;
          level = rw w.addr down;
        },
      )

absent : is_present 0 ≢ true
absent e = cc e

-- `next` becomes a table of level `k + 1`.
abbrev pub grown : (ℕ → ℕ) → ℕ → ℕ → ℕ → ℕ
grown lvl next k t = if t == next then suc k else lvl t

grown_new : (lvl : ℕ → ℕ) (next k : ℕ) → grown lvl next k next ≡ suc k
grown_new lvl next k = ground arith

grown_old : (lvl : ℕ → ℕ) (next k t : ℕ) → t ≢ next → grown lvl next k t ≡ lvl t
grown_old lvl next k t h = ground arith

module _ (lvl : ℕ → ℕ) (v : Vmm) (table idx k inter page : ℕ) (p' : Pmm) (tree : IsTree lvl v)
    (at : lvl table ≡ suc (suc k)) (in_table : idx < 512) (low : inter < 8) (odd : inter % 2 ≡ 1)
    (took : Took v.pmm page p') (valid : Alloc.IsValid p') where
  unfoldable pub next : ℕ
  next = page * page_size

  unfoldable pub fresh : Vmm
  fresh = record v { pmm = p'; mem = zero_words v.mem next page_size }

  unfoldable pub entry : ℕ
  entry = bit_or next inter

  unfoldable pub linked : Vmm
  linked = set_word fresh (slot table idx) entry

  next_free : lvl next ≡ 0
  unfolding next
  next_free = tree.apart page took.was_free

  next_aligned : next % 4096 ≡ 0
  unfolding next
  next_aligned = omega arith

  next_small : next < 2 ^ 52
  unfolding next
  next_small = ground (arith, took.in_range)

  not_next : (t : ℕ) → 0 < lvl t → t ≢ next
  not_next t h e = omega (arith, next_free, ap lvl e)

  -- The words of the old tables are not cleared, and the words of the new one are.
  old_word : (t i : ℕ) → 0 < lvl t → i < 512 → fresh.mem (slot t i) ≡ v.mem (slot t i)
  unfolding fresh
  old_word t i h hi =
      let aligned = tree.aligned t h in
      let ne = not_next t h in
      zero_words_out v.mem next page_size (slot t i)
        (words_apart t i next aligned next_aligned hi ne)

  new_word : (i : ℕ) → i < 512 → fresh.mem (slot next i) ≡ 0
  unfolding fresh
  new_word i hi =
      let inside : (leb next (slot next i) && ltb (slot next i) (next + page_size)) ≡ true =
        ground arith in
      rw inside

  entry-Widened : Widened next inter
  entry-Widened = bit_or-Widened next inter low odd

  entry_addr : addr_of entry ≡ next
  unfolding entry
  entry_addr = entry-Widened.addr ∙ addr_of-aligned next next_aligned next_small

  child_of :
      (t i j : ℕ)
      → grown lvl next k t ≡ suc (suc j)
      → i < 512
      → is_present (linked.mem (slot t i)) ≡ true
      → (j ≡ 0 → is_huge (linked.mem (slot t i)) ≡ false)
      → grown lvl next k (addr_of (linked.mem (slot t i))) ≡ suc j
  unfolding linked
  child_of t i j lt hi pr nh = elim (Bool-cases (t == next)) [
    | inl new ↦
        let te : t ≡ next = ground arith in
        let ne : slot t i ≢ slot table idx = λ e. not_next table (omega (arith, at)) (
          sym
            (same_slot t i table idx (rw te next_aligned) (tree.aligned table (omega (arith, at)))
              hi in_table e).0
          ∙ te) in
        let cleared : linked.mem (slot t i) ≡ 0 =
          put_word_ne fresh.mem (slot table idx) entry (slot t i) ne ∙ rw te (new_word i hi) in
        absurd (absent (rw cleared at pr))
    | inr old ↦
        let ne : t ≢ next = ground arith in
        let lt' : lvl t ≡ suc (suc j) = sym (grown_old lvl next k t ne) ∙ lt in
        elim (Bool-cases (slot t i == slot table idx)) [
          | inl hit ↦
              let (te, ie) =
                other_slot lvl v table idx t i tree (omega (arith, at)) in_table
                  (omega (arith, lt')) hi (ground arith) in
              let je : j ≡ k = omega (arith, lt', at, ap lvl te) in
              let here : linked.mem (slot t i) ≡ entry =
                put_word_eq fresh.mem (slot table idx) entry (slot t i) (ground arith) in
              rw (here, entry_addr, je) (grown_new lvl next k)
          | inr miss ↦
              let same : linked.mem (slot t i) ≡ v.mem (slot t i) =
                put_word_ne fresh.mem (slot table idx) entry (slot t i) (ground arith)
                ∙ old_word t i (omega (arith, lt')) hi in
              let down = tree.child t i j lt' hi (rw same at pr) (λ z. rw same at (nh z)) in
              rw same (grown_old lvl next k _ (not_next _ (omega (arith, down))) ∙ down)
        ]
  ]

  entry_present : is_present entry ≡ true
  unfolding entry
  entry_present = entry-Widened.present

  new_aligned : (t : ℕ) → 0 < grown lvl next k t → t % 4096 ≡ 0
  new_aligned t h = elim (Bool-cases (t == next)) [
    | inl new ↦ let e : t ≡ next = ground arith in rw e next_aligned
    | inr old ↦ tree.aligned t (omega (arith, grown_old lvl next k t (ground arith)))
  ]

  new_small : (t : ℕ) → 0 < grown lvl next k t → t < 2 ^ 52
  new_small t h = elim (Bool-cases (t == next)) [
    | inl new ↦ let e : t ≡ next = ground arith in rw e next_small
    | inr old ↦ tree.small t (omega (arith, grown_old lvl next k t (ground arith)))
  ]

  fresh_apart : (q : ℕ) → bitmap_test p'.bitmap q ≡ true → grown lvl next k (q * page_size) ≡ 0
  unfolding next
  fresh_apart q free = elim (Bool-cases (page == q)) [
    | inl e ↦ absurd (ground (arith, took.taken q))
    | inr ne ↦
        let was : bitmap_test v.pmm.bitmap q ≡ true = ground (arith, took.taken q) in
        grown_old lvl (page * page_size) k (q * page_size) (ground arith) ∙ tree.apart q was
  ]

  pub fresh-Grows :
      Grows lvl v (slot table idx) (grown lvl next k) linked
      × Leads (grown lvl next k) linked table idx k (addr_of entry)
  unfolding linked fresh entry
  fresh-Grows =
      let here : linked.mem (slot table idx) ≡ entry =
        put_word_eq fresh.mem (slot table idx) entry (slot table idx) refl in
      (
        record {
          tree = record {
            aligned = new_aligned;
            small = new_small;
            child = child_of;
            apart = fresh_apart;
            first_used = ground (arith, took.taken 0, tree.first_used);
            pages = valid;
          };
          kept = λ t h. grown_old lvl next k t (not_next t h);
          same = λ t i h hi ne.
              put_word_ne fresh.mem (slot table idx) entry (slot t i) ne ∙ old_word t i h hi;
          root = refl;
        },
        record {
          present = rw here entry_present;
          huge = λ z. rw here (entry-Widened.huge ∙ aligned-not_huge next next_aligned);
          target = ap addr_of here;
          level = rw entry_addr (grown_new lvl next k);
        },
      )
