-- ===== src/Vfs/Ops.antt =====
-- The public operations of kernel/fs/vfs.c. Each returns its result and the tables; `none` is -1.
-- What `kmalloc(VFS_MAX_DATA)` returns is the argument `fresh`: a buffer, or `none` for NULL.
use micro_os.Base.{
  ℕ, ◌+◌, ◌-◌, ◌%◌, ◌^◌, Bool, true, false, ◌&&◌, ◌||◌, not, Option, none, some, ◌>>=◌, List, [],
  ◌∷◌, ◌++◌, map, ◌==◌, ltb, leb, if◌then◌else◌, length, take, drop, replicate,
}
use micro_os.Vfs.Defs.{
  max_files, max_fd, max_data, max_children, Name, VNodeType, file, directory, is_dir, VNode,
  FileDesc, Vfs, zero_vnode, zero_fd, vnode_at, fd_at, set_vnode, set_fd, alloc_vnode, alloc_fd,
  resolve_path, resolve_parent, add_child, remove_child,
}

unfoldable pub vfs_init : Vfs
vfs_init = record {
  vnodes =
      record zero_vnode { name = b'/' ∷ []; type = directory; parent = none; used = true }
      ∷ replicate (max_files - 1) zero_vnode;
  fds = replicate max_fd zero_fd;
}

-- `return -1` where a step fails.
abbrev pub attempt {ℓ} : {A : Type ℓ} → Vfs → Option A → (A → Option ℕ × Vfs) → Option ℕ × Vfs
attempt v none f = (none, v)
attempt v (some a) f = f a

-- A new vnode, linked into its parent: the common part of `vfs_open` and `vfs_mkdir`.
unfoldable pub make_node : Vfs → ℕ → Name → VNodeType → Option (List ℕ) → Option (ℕ × Vfs)
make_node v parent name type contents = do
  (idx, v1) ← alloc_vnode v
  let node : VNode = record (vnode_at v1 idx) {
    name = name;
    type = type;
    parent = some parent;
    contents = contents;
    capacity = elim contents [ none ↦ 0 | some _ ↦ max_data ];
    size = 0;
  }
  let v2 = set_vnode v1 idx node
  some (idx, set_vnode v2 parent (add_child idx (vnode_at v2 parent)))

-- The parent that `path` names, if it is a directory.
unfoldable pub parent_dir : Vfs → Name → Option (ℕ × Name)
parent_dir v path = do
  (parent, name) ← resolve_parent v path
  if is_dir (vnode_at v parent).type then some (parent, name) else none

unfoldable pub create_file : Vfs → Name → Option (List ℕ) → Option (ℕ × Vfs)
create_file v path fresh = do (parent, name) ← parent_dir v path; make_node v parent name file fresh

-- The second half of `vfs_open`.
unfoldable pub open_vnode : Vfs → ℕ → Option ℕ × Vfs
open_vnode v idx =
    if is_dir (vnode_at v idx).type
    then (none, v)
    else attempt v (alloc_fd v)
        λ (fd, v'). (some fd, set_fd v' fd (record (fd_at v' fd) { vnode = idx; offset = 0 }))

unfoldable pub vfs_open : Vfs → Name → Bool → Option (List ℕ) → Option ℕ × Vfs
vfs_open v path create fresh = elim (resolve_path v path) [
  | some idx ↦ open_vnode v idx
  | none ↦
      if create
      then attempt v (create_file v path fresh) (λ (idx, v'). open_vnode v' idx)
      else (none, v)
]

-- `fd < 0 || fd >= VFS_MAX_FD || !fds[fd].used`
abbrev pub bad_fd : Vfs → ℕ → Bool
bad_fd v fd = leb max_fd fd || not (fd_at v fd).used

unfoldable pub vfs_close : Vfs → ℕ → Option ℕ × Vfs
vfs_close v fd =
    if bad_fd v fd then (none, v) else (some 0, set_fd v fd (record (fd_at v fd) { used = false }))

abbrev pub advance : Vfs → ℕ → ℕ → Vfs
advance v fd count =
    set_fd v fd (record (fd_at v fd) { offset = ((fd_at v fd).offset + count) % 2 ^ 64 })

-- The bytes that `vfs_read` copies to `buf`; it returns their number.
unfoldable pub read_at : Vfs → ℕ → ℕ → Option (List ℕ) → List ℕ × Vfs
read_at v fd count none = ([], v)
read_at v fd count (some bytes) =
    let offset = (fd_at v fd).offset in
    let size = (vnode_at v (fd_at v fd).vnode).size in
    let avail = if ltb offset size then size - offset else 0 in
    let n = if ltb avail count then avail else count in (take n (drop offset bytes), advance v fd n)

unfoldable pub vfs_read : Vfs → ℕ → ℕ → Option (List ℕ) × Vfs
vfs_read v fd count =
    if bad_fd v fd
    then (none, v)
    else (let (bytes, v') = read_at v fd count (vnode_at v (fd_at v fd).vnode).contents in
        (some bytes, v'))

-- `memcpy(data + offset, buf, count)`
unfoldable pub overwrite : List ℕ → ℕ → List ℕ → List ℕ
overwrite bytes offset buf = take offset bytes ++ (buf ++ drop (offset + length buf) bytes)

-- How many bytes of `count` fit; `none` is the early `return 0`.
unfoldable pub room : ℕ → ℕ → ℕ → Option ℕ
room capacity offset count =
    if ltb capacity count || ltb (capacity - count) offset
    then (if leb capacity offset then none else some (capacity - offset))
    else some count

-- The vnode after the copy, with `offset` the descriptor's old offset.
unfoldable pub filled : VNode → ℕ → List ℕ → List ℕ → VNode
filled node offset buf bytes =
    let end = (offset + length buf) % 2 ^ 64 in
    record node {
      contents = some (overwrite bytes offset buf);
      size = if ltb node.size end then end else node.size;
    }

unfoldable pub write_at : Vfs → ℕ → List ℕ → List ℕ → Option ℕ × Vfs
write_at v fd buf bytes =
    let idx = (fd_at v fd).vnode in
    let v1 = set_vnode v idx (filled (vnode_at v idx) (fd_at v fd).offset buf bytes) in
    (some (length buf), advance v1 fd (length buf))

-- `buf` holds `count` bytes at least.
unfoldable pub vfs_write : Vfs → ℕ → List ℕ → ℕ → Option ℕ × Vfs
vfs_write v fd buf count =
    let node = vnode_at v (fd_at v fd).vnode in
    if bad_fd v fd
    then (none, v)
    else attempt v node.contents λ bytes. elim (room node.capacity (fd_at v fd).offset count) [
      | none ↦ (some 0, v)
      | some n ↦ if n == 0 then (some 0, v) else write_at v fd (take n buf) bytes
    ]

pub record VfsStat : Type 0 where
  pub type : VNodeType
  pub size : ℕ
  pub name : Name

abbrev pub stat_of : VNode → VfsStat
stat_of n = record { type = n.type; size = n.size; name = n.name }

unfoldable pub vfs_stat : Vfs → Name → Option VfsStat
vfs_stat v path = do idx ← resolve_path v path; some (stat_of (vnode_at v idx))

unfoldable pub vfs_mkdir : Vfs → Name → Option ℕ × Vfs
vfs_mkdir v path = elim (resolve_path v path) [
  | some _ ↦ (none, v)
  | none ↦
      attempt v (parent_dir v path >>= λ (parent, name). make_node v parent name directory none)
        (λ (idx, v'). (some 0, v'))
]

unfoldable pub vfs_readdir : Vfs → Name → ℕ → Option (List VfsStat)
vfs_readdir v path max_entries = do
  idx ← resolve_path v path
  (if is_dir (vnode_at v idx).type
      then some (map (λ c. stat_of (vnode_at v c)) (take max_entries (vnode_at v idx).children))
      else none)

-- Takes `idx` out of the children of `parent`, if it has one.
unfoldable pub unlink_child : Vfs → ℕ → Option ℕ → Vfs
unlink_child v idx none = v
unlink_child v idx (some parent) =
    set_vnode v parent
      (record (vnode_at v parent) { children = remove_child idx (vnode_at v parent).children })

-- Closes the descriptors of `idx`.
unfoldable pub close_all : ℕ → List FileDesc → List FileDesc
close_all idx [] = []
close_all idx (d ∷ ds) =
    (if d.used && (d.vnode == idx) then record d { used = false } else d) ∷ close_all idx ds

abbrev pub is_empty : List ℕ → Bool
is_empty [] = true
is_empty (_ ∷ _) = false

unfoldable pub unlink_node : Vfs → ℕ → Option ℕ × Vfs
unlink_node v idx =
    if (idx == 0) || (is_dir (vnode_at v idx).type && not (is_empty (vnode_at v idx).children))
    then (none, v)
    else (let v1 = unlink_child v idx (vnode_at v idx).parent in
        let v2 = record v1 { fds = close_all idx v1.fds } in
        (some 0, set_vnode v2 idx (record (vnode_at v2 idx) { contents = none; used = false })))

unfoldable pub vfs_unlink : Vfs → Name → Option ℕ × Vfs
vfs_unlink v path = attempt v (resolve_path v path) (unlink_node v)

-- `new_parent != old_parent`
abbrev pub differs : ℕ → Option ℕ → Bool
differs new none = true
differs new (some old) = not (new == old)

unfoldable pub move_node : Vfs → ℕ → ℕ → Name → Option ℕ × Vfs
move_node v idx new_parent name =
    if differs new_parent (vnode_at v idx).parent
      && leb max_children (length (vnode_at v new_parent).children)
    then (none, v)
    else (let v1 = unlink_child v idx (vnode_at v idx).parent in
        let dir = vnode_at v1 new_parent in
        let v2 = set_vnode v1 new_parent (record dir { children = dir.children ++ (idx ∷ []) }) in
        (
          some 0,
          set_vnode v2 idx (record (vnode_at v2 idx) { name = name; parent = some new_parent }),
        ))

unfoldable pub rename_node : Vfs → ℕ → Name → Option ℕ × Vfs
rename_node v idx new_path = if idx == 0 then (none, v) else elim (resolve_path v new_path) [
  | some _ ↦ (none, v)
  | none ↦ attempt v (parent_dir v new_path) (λ (new_parent, name). move_node v idx new_parent name)
]

unfoldable pub vfs_rename : Vfs → Name → Name → Option ℕ × Vfs
vfs_rename v old_path new_path =
    attempt v (resolve_path v old_path) (λ idx. rename_node v idx new_path)
