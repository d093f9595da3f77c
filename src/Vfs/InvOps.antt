-- ===== src/Vfs/InvOps.antt =====
-- Every public operation of kernel/fs/vfs.c keeps the tables valid.
use micro_os.Base.{
  ℕ, zero, suc, ◌+◌, ◌-◌, ◌<◌, ◌≤◌, ◌≡◌, refl, Bool, false, not, ◌&&◌, ◌||◌, Option, none, some,
  List, [], ◌∷◌, ◌++◌, ◌==◌, ltb, leb, if◌then◌else◌, length, length-append, length-take,
  length-drop, get_or, take, drop, arith, Bool-cases, Option-cases, OnSome, OnSome-bind, subst, sym,
  inl, inr,
}
use micro_os.Vfs.Defs.{
  zero_fd, max_name, max_data, Name, VNodeType, file, directory, is_dir, VNode, FileDesc, Vfs,
  vnode_at, fd_at, alloc_vnode, alloc_fd, resolve_path, resolve_parent, named, parent_of,
  split_last,
}
use micro_os.Vfs.Ops.{
  make_node, parent_dir, create_file, open_vnode, vfs_open, bad_fd, vfs_close, advance, read_at,
  vfs_read, overwrite, filled, room, write_at, vfs_write, attempt, vfs_mkdir, unlink_child,
  close_all, is_empty, unlink_node, vfs_unlink,
}
use micro_os.Vfs.Inv.{
  BufferOk, IsIndex, NodeOk, FdOk, IsValid, set_vnode-IsValid, set_fd-IsValid, IndexAndValid,
  alloc_vnode-IsValid, alloc_fd-IsValid, add_child-NodeOk, remove_child-NodeOk,
  resolve_path-IsIndex,
}

-- A parent's index and a name that fits in a vnode.
abbrev ParentOk : ℕ × Name → Type 0
ParentOk (parent, name) = IsIndex parent × (length name < max_name)

-- What `kmalloc(VFS_MAX_DATA)` returns: NULL, or that many bytes.
abbrev pub FreshOk : Option (List ℕ) → Type 0
FreshOk none = Unit {0}
FreshOk (some bytes) = length bytes ≡ max_data

parent_of-IsIndex : (v : Vfs) (before : Name) → IsValid v → OnSome IsIndex (parent_of v before)
unfolding parent_of
parent_of-IsIndex v [] valid = omega arith
parent_of-IsIndex v (c ∷ before) valid = resolve_path-IsIndex v (take 255 (c ∷ before)) valid

named-ParentOk : (v : Vfs) (before name : Name) → IsValid v → OnSome ParentOk (named v before name)
unfolding named
named-ParentOk v before [] valid = tt
named-ParentOk v before (c ∷ name) valid =
    OnSome-bind IsIndex ParentOk (parent_of v before) _ (parent_of-IsIndex v before valid)
      (λ parent h. (h, omega (arith, length-take (max_name - 1) (c ∷ name))))

resolve_parent-ParentOk :
    (v : Vfs) (path : Name) → IsValid v → OnSome ParentOk (resolve_parent v path)
unfolding resolve_parent
resolve_parent-ParentOk v [] valid = tt
resolve_parent-ParentOk v (c ∷ path) valid = elim (Bool-cases (c == b'/')) [
  | inr other ↦ rw other tt
  | inl slash ↦ rw slash (
      OnSome-bind (λ (_ : Name × Name). Unit {0}) ParentOk (split_last (c ∷ path)) _
        (anything (split_last (c ∷ path))) (λ (before, name) _. named-ParentOk v before name valid))
]
  where
    anything : (o : Option (Name × Name)) → OnSome (λ (_ : Name × Name). Unit {0}) o
    anything none = tt
    anything (some a) = tt

parent_dir-ParentOk : (v : Vfs) (path : Name) → IsValid v → OnSome ParentOk (parent_dir v path)
unfolding parent_dir
parent_dir-ParentOk v path valid =
    OnSome-bind ParentOk ParentOk (resolve_parent v path) _ (resolve_parent-ParentOk v path valid)
      (λ (parent, name) h. elim (Bool-cases (is_dir (vnode_at v parent).type)) [
        | inl dir ↦ rw dir h
        | inr other ↦ rw other tt
      ])

make_node-IsValid :
    (v : Vfs) (parent : ℕ) (name : Name) (type : VNodeType) (contents : Option (List ℕ))
    → IsValid v
    → ParentOk (parent, name)
    → FreshOk contents
    → OnSome IndexAndValid (make_node v parent name type contents)
unfolding make_node
make_node-IsValid v parent name type contents valid (h, fits) fresh =
    OnSome-bind IndexAndValid IndexAndValid (alloc_vnode v) _ (alloc_vnode-IsValid v valid)
      (λ (idx, v1) (k, valid1).
        let old = valid1.nodes idx in
        let valid2 = set_vnode-IsValid valid1 idx (node idx v1) (record {
          named = fits;
          buffer = buffer contents fresh;
          limit = limit contents;
          few = old.few;
          inside = old.inside;
          above = h;
        }) in
        (k, set_vnode-IsValid valid2 parent _ (add_child-NodeOk idx _ k (valid2.nodes parent))))
  where
    node : ℕ → Vfs → VNode
    node idx v1 = record (vnode_at v1 idx) {
      name = name;
      type = type;
      parent = some parent;
      contents = contents;
      capacity = elim contents [ none ↦ 0 | some _ ↦ max_data ];
      size = 0;
    }

    buffer :
        (o : Option (List ℕ)) → FreshOk o → BufferOk o 0 (elim o [ none ↦ 0 | some _ ↦ max_data ])
    buffer none f = tt
    buffer (some bytes) f = (f, omega arith)

    limit :
        (o : Option (List ℕ))
        → (let c : ℕ = elim o [ none ↦ 0 | some _ ↦ max_data ] in c) ≤ max_data
    limit none = omega arith
    limit (some bytes) = omega arith

attempt-IsValid {ℓ κ} :
    {A : Type ℓ} (P : A → Type κ) (v : Vfs) (o : Option A) (f : A → Option ℕ × Vfs)
    → IsValid v
    → OnSome P o
    → ((a : A) → P a → IsValid (f a).1)
    → IsValid (attempt v o f).1
attempt-IsValid P v none f valid h next = valid
attempt-IsValid P v (some a) f valid h next = next a h

open_vnode-IsValid : (v : Vfs) (idx : ℕ) → IsValid v → IsIndex idx → IsValid (open_vnode v idx).1
unfolding open_vnode
open_vnode-IsValid v idx valid h = elim (Bool-cases (is_dir (vnode_at v idx).type)) [
  | inl dir ↦ rw dir valid
  | inr other ↦ rw other (
      attempt-IsValid (λ (fd, v'). IsValid v') v (alloc_fd v) _ valid (alloc_fd-IsValid v valid)
        (λ (fd, v') ok. set_fd-IsValid ok fd _ (record { node = h; within = omega arith })))
]

create_file-IsValid :
    (v : Vfs) (path : Name) (fresh : Option (List ℕ))
    → IsValid v
    → FreshOk fresh
    → OnSome IndexAndValid (create_file v path fresh)
unfolding create_file
create_file-IsValid v path fresh valid ok =
    OnSome-bind ParentOk IndexAndValid (parent_dir v path) _ (parent_dir-ParentOk v path valid)
      (λ (parent, name) h. make_node-IsValid v parent name file fresh valid h ok)

-- `vfs_open` keeps the tables valid, whether it creates the file or not.
pub vfs_open-IsValid :
    (v : Vfs) (path : Name) (create : Bool) (fresh : Option (List ℕ))
    → IsValid v
    → FreshOk fresh
    → IsValid (vfs_open v path create fresh).1
unfolding vfs_open
vfs_open-IsValid v path create fresh valid ok = elim (Option-cases (resolve_path v path)) [
  | inr (idx, found) ↦
      rw (found, vfs_open)
        (open_vnode-IsValid v idx valid (rw found at (resolve_path-IsIndex v path valid)))
  | inl missing ↦ elim (Bool-cases create) [
    | inr keep ↦ rw (missing, vfs_open) (rw keep valid)
    | inl make ↦
        rw (missing, vfs_open)
          (rw make (
            attempt-IsValid IndexAndValid v (create_file v path fresh) _ valid
              (create_file-IsValid v path fresh valid ok)
              (λ (idx, v') (k, valid'). open_vnode-IsValid v' idx valid' k)))
  ]
]

-- `vfs_mkdir` keeps the tables valid.
pub vfs_mkdir-IsValid : (v : Vfs) (path : Name) → IsValid v → IsValid (vfs_mkdir v path).1
unfolding vfs_mkdir
vfs_mkdir-IsValid v path valid = elim (Option-cases (resolve_path v path)) [
  | inr (idx, found) ↦ rw (found, vfs_mkdir) valid
  | inl missing ↦
      rw (missing, vfs_mkdir)
        (attempt-IsValid IndexAndValid v _ _ valid
          (OnSome-bind ParentOk IndexAndValid (parent_dir v path) _
            (parent_dir-ParentOk v path valid)
            (λ (parent, name) h. make_node-IsValid v parent name directory none valid h tt))
          (λ (idx, v') (k, valid'). valid'))
]

-- `vfs_close` keeps the tables valid.
pub vfs_close-IsValid : (v : Vfs) (fd : ℕ) → IsValid v → IsValid (vfs_close v fd).1
unfolding vfs_close
vfs_close-IsValid v fd valid = elim (Bool-cases (bad_fd v fd)) [
  | inl bad ↦ rw bad valid
  | inr good ↦ rw good (
      set_fd-IsValid valid fd _
        (record { node = (valid.opens fd).node; within = (valid.opens fd).within }))
]

pub unlink_child-IsValid :
    (v : Vfs) (idx : ℕ) (parent : Option ℕ) → IsValid v → IsValid (unlink_child v idx parent)
unfolding unlink_child
unlink_child-IsValid v idx none valid = valid
unlink_child-IsValid v idx (some parent) valid =
    set_vnode-IsValid valid parent _
      (remove_child-NodeOk idx (vnode_at v parent) (valid.nodes parent))

length-close_all : (idx : ℕ) (ds : List FileDesc) → length (close_all idx ds) ≡ length ds
unfolding close_all
length-close_all idx [] = refl
length-close_all idx (d ∷ ds) = omega (arith, length-close_all idx ds)

close_all-FdOk :
    (idx : ℕ) (ds : List FileDesc)
    → ((i : ℕ) → FdOk (get_or ds i zero_fd))
    → (i : ℕ) → FdOk (get_or (close_all idx ds) i zero_fd)
unfolding close_all
close_all-FdOk idx [] h i = h i
close_all-FdOk idx (d ∷ ds) h zero = elim (Bool-cases (d.used && (d.vnode == idx))) [
  | inl hit ↦ rw hit (record { node = (h 0).node; within = (h 0).within })
  | inr miss ↦ rw miss (h 0)
]
close_all-FdOk idx (d ∷ ds) h (suc i) = close_all-FdOk idx ds (λ j. h (suc j)) i

unlink_node-IsValid : (v : Vfs) (idx : ℕ) → IsValid v → IsValid (unlink_node v idx).1
unfolding unlink_node
unlink_node-IsValid v idx valid = elim (Bool-cases (kept v idx)) [
  | inl keep ↦ rw keep valid
  | inr drop_it ↦
      let valid1 = unlink_child-IsValid v idx (vnode_at v idx).parent valid in
      let v1 = unlink_child v idx (vnode_at v idx).parent in
      let valid2 : IsValid (record v1 { fds = close_all idx v1.fds }) = record {
        files = valid1.files;
        descs = omega (arith, length-close_all idx v1.fds, valid1.descs);
        nodes = valid1.nodes;
        opens = close_all-FdOk idx v1.fds valid1.opens;
      } in
      rw drop_it (set_vnode-IsValid valid2 idx _ (emptied (vnode_at v1 idx) (valid1.nodes idx)))
]
  where
    kept : Vfs → ℕ → Bool
    kept v idx =
        (idx == 0) || (is_dir (vnode_at v idx).type && not (is_empty (vnode_at v idx).children))

    emptied : (n : VNode) → NodeOk n → NodeOk (record n { contents = none; used = false })
    emptied n ok = record {
      named = ok.named;
      buffer = tt;
      limit = ok.limit;
      few = ok.few;
      inside = ok.inside;
      above = ok.above;
    }

-- `vfs_unlink` keeps the tables valid.
pub vfs_unlink-IsValid : (v : Vfs) (path : Name) → IsValid v → IsValid (vfs_unlink v path).1
unfolding vfs_unlink
vfs_unlink-IsValid v path valid =
    attempt-IsValid IsIndex v (resolve_path v path) _ valid (resolve_path-IsIndex v path valid)
      (λ idx h. unlink_node-IsValid v idx valid)

pub buffer_of :
    (n : VNode) (bytes : List ℕ)
    → some bytes ≡ n.contents
    → NodeOk n
    → (length bytes ≡ n.capacity) × (n.size ≤ n.capacity)
buffer_of n bytes e ok = subst (λ o. BufferOk o n.size n.capacity) (sym e) ok.buffer

-- The offset of an open file stays in its buffer.
pub advance-IsValid :
    (v : Vfs) (fd count : ℕ)
    → IsValid v
    → (fd_at v fd).offset + count ≤ max_data
    → IsValid (advance v fd count)
advance-IsValid v fd count valid h =
    set_fd-IsValid valid fd _ (record { node = (valid.opens fd).node; within = omega arith })

read_at-IsValid :
    (v : Vfs) (fd count : ℕ) (contents : Option (List ℕ))
    → IsValid v
    → contents ≡ (vnode_at v (fd_at v fd).vnode).contents
    → IsValid (read_at v fd count contents).1
unfolding read_at
read_at-IsValid v fd count none valid e = valid
read_at-IsValid v fd count (some bytes) valid e =
    let node = valid.nodes (fd_at v fd).vnode in
    let fits = buffer_of (vnode_at v (fd_at v fd).vnode) bytes e node in
    advance-IsValid v fd _ valid (ground (arith, fits, node.limit, (valid.opens fd).within))

-- `vfs_read` keeps the tables valid.
pub vfs_read-IsValid : (v : Vfs) (fd count : ℕ) → IsValid v → IsValid (vfs_read v fd count).1
unfolding vfs_read
vfs_read-IsValid v fd count valid = elim (Bool-cases (bad_fd v fd)) [
  | inl bad ↦ rw bad valid
  | inr good ↦ rw good (read_at-IsValid v fd count _ valid refl)
]

-- Writing inside a buffer keeps its length.
pub length-overwrite :
    (bytes : List ℕ) (offset : ℕ) (buf : List ℕ)
    → offset + length buf ≤ length bytes
    → length (overwrite bytes offset buf) ≡ length bytes
unfolding overwrite
length-overwrite bytes offset buf h = omega (
  arith,
  length-append (take offset bytes) (buf ++ drop (offset + length buf) bytes),
  length-append buf (drop (offset + length buf) bytes),
  length-take offset bytes,
  length-drop (offset + length buf) bytes,
)

pub room_lem :
    (capacity offset count : ℕ)
    → OnSome (λ n. (n ≤ count) × (offset + n ≤ capacity)) (room capacity offset count)
unfolding room
room_lem capacity offset count =
    elim (Bool-cases (ltb capacity count || ltb (capacity - count) offset)) [
      | inr fits ↦ rw fits (omega arith, ground arith)
      | inl over ↦ rw over (elim (Bool-cases (leb capacity offset)) [
        | inl full ↦ rw full tt
        | inr part ↦ rw part (ground arith, ground arith)
      ])
    ]

filled-NodeOk :
    (node : VNode) (offset : ℕ) (buf bytes : List ℕ)
    → NodeOk node
    → BufferOk (some bytes) node.size node.capacity
    → offset + length buf ≤ node.capacity
    → NodeOk (filled node offset buf bytes)
unfolding filled
filled-NodeOk node offset buf bytes ok fits h = record {
  named = ok.named;
  buffer = (omega (arith, length-overwrite bytes offset buf, fits), ground (arith, fits, ok.limit));
  limit = ok.limit;
  few = ok.few;
  inside = ok.inside;
  above = ok.above;
}

write_at-IsValid :
    (v : Vfs) (fd : ℕ) (buf bytes : List ℕ)
    → IsValid v
    → some bytes ≡ (vnode_at v (fd_at v fd).vnode).contents
    → (fd_at v fd).offset + length buf ≤ (vnode_at v (fd_at v fd).vnode).capacity
    → IsValid (write_at v fd buf bytes).1
unfolding write_at
write_at-IsValid v fd buf bytes valid e h =
    let idx = (fd_at v fd).vnode in
    let node = vnode_at v idx in
    let ok = valid.nodes idx in
    let fits = buffer_of node bytes e ok in
    let valid1 =
      set_vnode-IsValid valid idx (filled node (fd_at v fd).offset buf bytes)
        (filled-NodeOk node (fd_at v fd).offset buf bytes ok fits h) in
    advance-IsValid _ fd (length buf) valid1 (omega (arith, h, ok.limit))

-- `vfs_write` keeps the tables valid.
pub vfs_write-IsValid :
    (v : Vfs) (fd : ℕ) (buf : List ℕ) (count : ℕ) → IsValid v → IsValid (vfs_write v fd buf count).1
unfolding vfs_write
vfs_write-IsValid v fd buf count valid = elim (Bool-cases (bad_fd v fd)) [
  | inl bad ↦ rw bad valid
  | inr good ↦ rw good (at_buffer (vnode_at v (fd_at v fd).vnode).contents refl)
]
  where
    node : VNode
    node = vnode_at v (fd_at v fd).vnode

    written :
        (bytes : List ℕ)
        → some bytes ≡ node.contents
        → (o : Option ℕ) → OnSome (λ n. (n ≤ count) × ((fd_at v fd).offset + n ≤ node.capacity)) o
        → IsValid
            (let r : Option ℕ × Vfs = elim o [
              | none ↦ (some 0, v)
              | some n ↦ if n == 0 then (some 0, v) else write_at v fd (take n buf) bytes
            ] in
              r).1
    written bytes e none h = valid
    written bytes e (some n) h = elim (Bool-cases (n == 0)) [
      | inl nothing ↦ rw nothing valid
      | inr more ↦
          rw more
            (write_at-IsValid v fd (take n buf) bytes valid e (omega (arith, h, length-take n buf)))
    ]

    at_buffer :
        (o : Option (List ℕ))
        → o ≡ node.contents
        → IsValid
            (attempt v o (λ bytes. elim (room node.capacity (fd_at v fd).offset count) [
              | none ↦ (some 0, v)
              | some n ↦ if n == 0 then (some 0, v) else write_at v fd (take n buf) bytes
            ])).1
    at_buffer none e = valid
    at_buffer (some bytes) e =
        written bytes e (room node.capacity (fd_at v fd).offset count)
          (room_lem node.capacity (fd_at v fd).offset count)
