-- ===== src/Vfs/Inv.antt =====
-- The invariant of the two tables: every index, buffer and name stays within its bounds.
use micro_os.Base.{
  ℕ, zero, suc, ◌-◌, ◌<◌, ◌≤◌, ◌≡◌, refl, true, Option, none, some, List, [], ◌∷◌, ◌==◌, ltb,
  length, length-append, length-set, get_or-set_keeps, get_or-replicate, All, All-append, arith,
  Bool-cases, OnSome, OnSome-bind, subst, sym, inl, inr,
}
use micro_os.Vfs.Defs.{
  max_name, max_files, max_fd, max_data, max_children, Name, directory, is_dir, VNode, FileDesc,
  Vfs, zero_vnode, zero_fd, vnode_at, fd_at, set_vnode, set_fd, free_vnode, free_fd, alloc_vnode,
  alloc_fd, add_child, remove_child, same_name, find_child, enter, resolve_from, resolve_path,
}
use micro_os.Vfs.Ops.{vfs_init}

-- A buffer has the recorded capacity, and the file fits in it.
abbrev pub BufferOk : Option (List ℕ) → ℕ → ℕ → Type 0
BufferOk none size capacity = Unit {0}
BufferOk (some bytes) size capacity = (length bytes ≡ capacity) × (size ≤ capacity)

abbrev pub IsIndex : ℕ → Type 0
IsIndex i = i < max_files

pub record NodeOk (n : VNode) : Type 0 where
  pub named : length n.name < max_name
  pub buffer : BufferOk n.contents n.size n.capacity
  pub limit : n.capacity ≤ max_data
  pub few : length n.children ≤ max_children
  pub inside : All IsIndex n.children
  pub above : OnSome IsIndex n.parent

pub record FdOk (d : FileDesc) : Type 0 where
  pub node : IsIndex d.vnode
  pub within : d.offset ≤ max_data

pub record IsValid (v : Vfs) : Type 0 where
  pub files : length v.vnodes ≡ max_files
  pub descs : length v.fds ≡ max_fd
  pub nodes : (i : ℕ) → NodeOk (vnode_at v i)
  pub opens : (i : ℕ) → FdOk (fd_at v i)

module _ {v : Vfs} (valid : IsValid v) where
  pub set_vnode-IsValid : (i : ℕ) (n : VNode) → NodeOk n → IsValid (set_vnode v i n)
  set_vnode-IsValid i n ok = record {
    files = omega (arith, length-set v.vnodes i n, valid.files);
    descs = valid.descs;
    nodes = λ j. get_or-set_keeps NodeOk v.vnodes i j n zero_vnode ok (valid.nodes j);
    opens = valid.opens;
  }

  pub set_fd-IsValid : (i : ℕ) (d : FileDesc) → FdOk d → IsValid (set_fd v i d)
  set_fd-IsValid i d ok = record {
    files = valid.files;
    descs = omega (arith, length-set v.fds i d, valid.descs);
    nodes = valid.nodes;
    opens = λ j. get_or-set_keeps FdOk v.fds i j d zero_fd ok (valid.opens j);
  }

zero_vnode-NodeOk : NodeOk zero_vnode
zero_vnode-NodeOk = record {
  named = omega arith;
  buffer = tt;
  limit = omega arith;
  few = omega arith;
  inside = tt;
  above = omega arith;
}

zero_fd-FdOk : FdOk zero_fd
zero_fd-FdOk = record { node = omega arith; within = omega arith }

root-NodeOk :
    NodeOk (record zero_vnode { name = b'/' ∷ []; type = directory; parent = none; used = true })
root-NodeOk = record {
  named = omega arith;
  buffer = tt;
  limit = omega arith;
  few = omega arith;
  inside = tt;
  above = tt;
}

-- The tables after `vfs_init` are valid.
pub vfs_init-IsValid : IsValid vfs_init
unfolding vfs_init
vfs_init-IsValid = record { files = refl; descs = refl; nodes = nodes; opens = opens }
  where
    nodes : (i : ℕ) → NodeOk (vnode_at vfs_init i)
    nodes zero = root-NodeOk
    nodes (suc i) =
        subst NodeOk (sym (get_or-replicate (max_files - 1) i zero_vnode)) zero_vnode-NodeOk

    opens : (i : ℕ) → FdOk (fd_at vfs_init i)
    opens i = subst FdOk (sym (get_or-replicate max_fd i zero_fd)) zero_fd-FdOk

free_vnode-lt : (ns : List VNode) → OnSome (λ i. i < length ns) (free_vnode ns)
unfolding free_vnode
free_vnode-lt [] = tt
free_vnode-lt (n ∷ ns) = elim (Bool-cases n.used) [
  | inl busy ↦
      rw busy (
        OnSome-bind (λ i. i < length ns) _ (free_vnode ns) _ (free_vnode-lt ns)
          (λ i h. omega arith))
  | inr idle ↦ rw idle (omega arith)
]

free_fd-lt : (ds : List FileDesc) → OnSome (λ i. i < length ds) (free_fd ds)
unfolding free_fd
free_fd-lt [] = tt
free_fd-lt (d ∷ ds) = elim (Bool-cases d.used) [
  | inl busy ↦
      rw busy
        (OnSome-bind (λ i. i < length ds) _ (free_fd ds) _ (free_fd-lt ds) (λ i h. omega arith))
  | inr idle ↦ rw idle (omega arith)
]

-- An index and tables that are valid.
abbrev pub IndexAndValid : ℕ × Vfs → Type 0
IndexAndValid (i, v) = IsIndex i × IsValid v

pub alloc_vnode-IsValid : (v : Vfs) → IsValid v → OnSome IndexAndValid (alloc_vnode v)
unfolding alloc_vnode
alloc_vnode-IsValid v valid =
    OnSome-bind (λ i. i < length v.vnodes) IndexAndValid (free_vnode v.vnodes) _
      (free_vnode-lt v.vnodes)
      (λ i h. (
        omega (arith, valid.files),
        set_vnode-IsValid valid i _ (record {
          named = omega arith;
          buffer = tt;
          limit = omega arith;
          few = omega arith;
          inside = tt;
          above = tt;
        }),
      ))

pub alloc_fd-IsValid : (v : Vfs) → IsValid v → OnSome (λ (fd, v'). IsValid v') (alloc_fd v)
unfolding alloc_fd
alloc_fd-IsValid v valid =
    OnSome-bind (λ i. i < length v.fds) (λ (fd, v'). IsValid v') (free_fd v.fds) _
      (free_fd-lt v.fds)
      (λ i h.
        set_fd-IsValid valid i _ (record { node = (valid.opens i).node; within = omega arith }))

pub add_child-NodeOk :
    (idx : ℕ) (dir : VNode) → IsIndex idx → NodeOk dir → NodeOk (add_child idx dir)
unfolding add_child
add_child-NodeOk idx dir h ok = elim (Bool-cases (ltb (length dir.children) max_children)) [
  | inl less ↦ rw less (record {
    named = ok.named;
    buffer = ok.buffer;
    limit = ok.limit;
    few = ground (arith, length-append dir.children (idx ∷ []));
    inside = All-append IsIndex dir.children (idx ∷ []) ok.inside (h, tt);
    above = ok.above;
  })
  | inr full ↦ rw full ok
]

remove_child-few : (idx : ℕ) (cs : List ℕ) → length (remove_child idx cs) ≤ length cs
unfolding remove_child
remove_child-few idx [] = omega arith
remove_child-few idx (c ∷ cs) = ground (arith, remove_child-few idx cs)

remove_child-inside : (idx : ℕ) (cs : List ℕ) → All IsIndex cs → All IsIndex (remove_child idx cs)
unfolding remove_child
remove_child-inside idx [] h = tt
remove_child-inside idx (c ∷ cs) h = elim (Bool-cases (c == idx)) [
  | inl e ↦ rw e h.1
  | inr ne ↦ rw ne (h.0, remove_child-inside idx cs h.1)
]

pub remove_child-NodeOk :
    (idx : ℕ) (n : VNode) → NodeOk n → NodeOk (record n { children = remove_child idx n.children })
remove_child-NodeOk idx n ok = record {
  named = ok.named;
  buffer = ok.buffer;
  limit = ok.limit;
  few = omega (arith, remove_child-few idx n.children, ok.few);
  inside = remove_child-inside idx n.children ok.inside;
  above = ok.above;
}

-- Every index that a path leads to is one of the table.
find_child-IsIndex :
    (v : Vfs) (cs : List ℕ) (comp : Name) → All IsIndex cs → OnSome IsIndex (find_child v cs comp)
unfolding find_child
find_child-IsIndex v [] comp h = tt
find_child-IsIndex v (c ∷ cs) comp h = elim (Bool-cases (same_name (vnode_at v c).name comp)) [
  | inl e ↦ rw e h.0
  | inr ne ↦ rw ne (find_child-IsIndex v cs comp h.1)
]

enter-IsIndex :
    (v : Vfs) (current : ℕ) (comp : Name)
    → IsValid v
    → IsIndex current
    → OnSome IsIndex (enter v current comp)
unfolding enter
enter-IsIndex v current [] valid h = h
enter-IsIndex v current (c ∷ comp) valid h = elim (Bool-cases (is_dir (vnode_at v current).type)) [
  | inl dir ↦
      rw dir
        (find_child-IsIndex v (vnode_at v current).children (c ∷ comp) (valid.nodes current).inside)
  | inr other ↦ rw other tt
]

resolve_from-IsIndex :
    (fuel : ℕ) (v : Vfs) (current : ℕ) (path : Name)
    → IsValid v
    → IsIndex current
    → OnSome IsIndex (resolve_from fuel v current path)
unfolding resolve_from
resolve_from-IsIndex zero v current path valid h = tt
resolve_from-IsIndex (suc fuel) v current [] valid h = h
resolve_from-IsIndex (suc fuel) v current (c ∷ path) valid h =
    OnSome-bind IsIndex IsIndex (enter v current _) _ (enter-IsIndex v current _ valid h)
      (λ next k. resolve_from-IsIndex fuel v next _ valid k)

pub resolve_path-IsIndex :
    (v : Vfs) (path : Name) → IsValid v → OnSome IsIndex (resolve_path v path)
unfolding resolve_path
resolve_path-IsIndex v [] valid = tt
resolve_path-IsIndex v (c ∷ path) valid = elim (Bool-cases (c == b'/')) [
  | inl slash ↦ rw slash (resolve_from-IsIndex _ v 0 path valid (omega arith))
  | inr other ↦ rw other tt
]
