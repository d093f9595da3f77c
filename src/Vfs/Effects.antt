-- ===== src/Vfs/Effects.antt =====
-- What `vfs_mkdir` and `vfs_unlink` change.
use micro_os.Base.{
  ℕ, ◌<◌, ◌≡◌, ◌≢◌, refl, ap, sym, ◌∙◌, Bool, true, false, not, ◌&&◌, ◌||◌, none, some, [], ◌∷◌,
  ◌++◌, ◌==◌, ltb, if◌then◌else◌, length, length-set, set-set, get_or, get_or-set_self,
  get_or-set_ne, set, arith,
}
use micro_os.Vfs.Defs.{
  max_children, Name, VNodeType, directory, is_dir, VNode, Vfs, zero_vnode, vnode_at, fd_at,
  set_vnode, free_vnode, alloc_vnode, add_child, remove_child, resolve_path,
}
use micro_os.Vfs.Ops.{parent_dir, make_node, vfs_mkdir, is_empty}

-- A vnode that was made: its slot, which is in use now, and its parent's children. With 32 children already, the new
-- vnode is in no directory.
pub record Made (v : Vfs) (parent idx : ℕ) (name : Name) (type : VNodeType) (v' : Vfs)
    : Type 0 where
  pub named : (vnode_at v' idx).name ≡ name
  pub typed : (vnode_at v' idx).type ≡ type
  pub taken : (vnode_at v' idx).used ≡ true
  pub no_bytes : ((vnode_at v' idx).contents ≡ none) × ((vnode_at v' idx).size ≡ 0)
  pub above : (vnode_at v' idx).parent ≡ some parent
  pub empty : (vnode_at v' idx).children ≡ []
  pub linked : (vnode_at v' parent).children ≡ (
      if ltb (length (vnode_at v parent).children) max_children
      then (vnode_at v parent).children ++ (idx ∷ [])
      else (vnode_at v parent).children)
  pub others : (i : ℕ) → i ≢ idx → i ≢ parent → vnode_at v' i ≡ vnode_at v i
  pub files : v'.fds ≡ v.fds

-- The vnode that `vfs_mkdir` fills in.
abbrev dir_node : ℕ → Name → VNode
dir_node parent name = record zero_vnode {
  name = name;
  type = directory;
  parent = some parent;
  used = true;
}

make_dir :
    (v : Vfs) (parent idx : ℕ) (name : Name)
    → free_vnode v.vnodes ≡ some idx
    → idx < length v.vnodes
    → idx ≢ parent
    → make_node v parent name directory none
      ≡ some (
        idx,
        set_vnode
            (set_vnode v idx (dir_node parent name))
            parent
            (add_child idx (vnode_at v parent)),
      )
unfolding make_node alloc_vnode
make_dir v parent idx name slot lt ne = rw slot (
    simp (get_or-set_self v.vnodes idx fresh zero_vnode lt, set-set)
      (simp (get_or-set_ne v.vnodes idx parent (dir_node parent name) zero_vnode ne)))
  where
    fresh : VNode
    fresh = record zero_vnode { parent = none; used = true }

children-add_child :
    (idx : ℕ) (dir : VNode)
    → (add_child idx dir).children ≡ (
        if ltb (length dir.children) max_children then dir.children ++ (idx ∷ []) else dir.children)
unfolding add_child
children-add_child idx dir = ground arith

module _ (v : Vfs) (path name : Name) (parent idx : ℕ) where
  -- `vfs_mkdir` of a path that does not resolve, whose parent does, with a free slot: it reports
  -- success and makes an empty directory of that name in the slot, which is in use from then on; the
  -- parent lists it if it had fewer than 32 children, and its children are unchanged otherwise; no
  -- other vnode and no descriptor changes.
  pub vfs_mkdir-Made :
      resolve_path v path ≡ none
      → parent_dir v path ≡ some (parent, name)
      → free_vnode v.vnodes ≡ some idx
      → idx < length v.vnodes
      → parent < length v.vnodes
      → idx ≢ parent
      → ((vfs_mkdir v path).0 ≡ some 0) × Made v parent idx name directory (vfs_mkdir v path).1
  unfolding vfs_mkdir
  vfs_mkdir-Made missing dir slot lt lt' ne =
      let v1 = set_vnode v idx (dir_node parent name) in
      let at : get_or (set v1.vnodes parent (add_child idx (vnode_at v parent))) idx zero_vnode
          ≡ dir_node parent name =
        get_or-set_ne v1.vnodes parent idx _ zero_vnode (λ e. ne (sym e))
        ∙ get_or-set_self v.vnodes idx _ zero_vnode lt in
      rw (missing, vfs_mkdir)
        (rw dir (
          rw (make_dir v parent idx name slot lt ne) (
            refl,
            record {
              named = ap (λ (n : VNode). n.name) at;
              typed = ap (λ (n : VNode). n.type) at;
              taken = ap (λ (n : VNode). n.used) at;
              no_bytes = (ap (λ (n : VNode). n.contents) at, ap (λ (n : VNode). n.size) at);
              above = ap (λ (n : VNode). n.parent) at;
              empty = ap (λ (n : VNode). n.children) at;
              linked =
                  ap (λ (n : VNode). n.children)
                    (get_or-set_self v1.vnodes parent _ zero_vnode
                      (omega (arith, length-set v.vnodes idx (dir_node parent name))))
                  ∙ children-add_child idx (vnode_at v parent);
              others = λ i p q.
                  get_or-set_ne v1.vnodes parent i _ zero_vnode (λ e. q (sym e))
                  ∙ get_or-set_ne v.vnodes idx i _ zero_vnode (λ e. p (sym e));
              files = refl;
            },
          )))

-- A vnode that was removed: its slot is free and its buffer gone, its parent no longer lists it,
-- exactly its descriptors are closed, and no other vnode changes.
pub record Unlinked (v : Vfs) (idx parent : ℕ) (v' : Vfs) : Type 0 where
  pub slot_free : (vnode_at v' idx).used ≡ false
  pub freed : (vnode_at v' idx).contents ≡ none
  pub delisted : (vnode_at v' parent).children ≡ remove_child idx (vnode_at v parent).children
  pub closed :
      (fd : ℕ)
      → fd_at v' fd ≡ (
          if (fd_at v fd).used && ((fd_at v fd).vnode == idx)
          then record (fd_at v fd) { used = false }
          else fd_at v fd)
  pub others : (i : ℕ) → i ≢ idx → i ≢ parent → vnode_at v' i ≡ vnode_at v i

-- The root and a directory that is not empty stay.
abbrev pub stays : Vfs → ℕ → Bool
stays v idx =
    (idx == 0) || (is_dir (vnode_at v idx).type && not (is_empty (vnode_at v idx).children))
