-- ===== src/Vfs/Defs.antt =====
-- The tables of kernel/fs/vfs.c and its helpers: slots, paths, children.
-- A C string is the list of its bytes without the final NUL; `-1` as an index or a result is
-- `none`. A NULL path fails as the empty one does, and a negative descriptor as one past the table.
use micro_os.Base.{
  ℕ, zero, suc, ◌-◌, ◌*◌, Bool, true, false, ◌&&◌, Option, none, some, ◌>>=◌, List, [], ◌∷◌, ◌++◌,
  ◌==◌, ltb, if◌then◌else◌, length, get_or, set, take,
}

abbrev pub max_name : ℕ
max_name = 64

abbrev pub max_files : ℕ
max_files = 128

abbrev pub max_fd : ℕ
max_fd = 64

abbrev pub max_data : ℕ
max_data = 4096 * 4

abbrev pub max_children : ℕ
max_children = 32

abbrev pub Name : Type 0
Name = List ℕ

-- `VNodeType`.
pub data VNodeType : Type 0 where
  file directory : VNodeType

abbrev pub is_dir : VNodeType → Bool
is_dir file = false
is_dir directory = true

-- `contents` is `data`, the buffer of `capacity` bytes, or `none` for NULL; `children` is the
-- array's first `child_count` entries.
pub record VNode : Type 0 where
  pub name : Name
  pub type : VNodeType
  pub contents : Option (List ℕ)
  pub size : ℕ
  pub capacity : ℕ
  pub parent : Option ℕ
  pub children : List ℕ
  pub used : Bool

pub record FileDesc : Type 0 where
  pub vnode : ℕ
  pub offset : ℕ
  pub used : Bool

-- The two static tables.
pub record Vfs : Type 0 where
  pub vnodes : List VNode
  pub fds : List FileDesc

-- `memset(&vnodes[i], 0, sizeof(VNode))`; the parent index 0 is the root.
abbrev pub zero_vnode : VNode
zero_vnode = record {
  name = [];
  type = file;
  contents = none;
  size = 0;
  capacity = 0;
  parent = some 0;
  children = [];
  used = false;
}

abbrev pub zero_fd : FileDesc
zero_fd = record { vnode = 0; offset = 0; used = false }

abbrev pub vnode_at : Vfs → ℕ → VNode
vnode_at v i = get_or v.vnodes i zero_vnode

abbrev pub fd_at : Vfs → ℕ → FileDesc
fd_at v i = get_or v.fds i zero_fd

abbrev pub set_vnode : Vfs → ℕ → VNode → Vfs
set_vnode v i n = record v { vnodes = set v.vnodes i n }

abbrev pub set_fd : Vfs → ℕ → FileDesc → Vfs
set_fd v i d = record v { fds = set v.fds i d }

-- The index of the first slot that is not in use.
unfoldable pub free_vnode : List VNode → Option ℕ
free_vnode [] = none
free_vnode (n ∷ ns) = if n.used then (do i ← free_vnode ns; some (suc i)) else some 0

unfoldable pub free_fd : List FileDesc → Option ℕ
free_fd [] = none
free_fd (d ∷ ds) = if d.used then (do i ← free_fd ds; some (suc i)) else some 0

unfoldable pub alloc_vnode : Vfs → Option (ℕ × Vfs)
alloc_vnode v = do
  i ← free_vnode v.vnodes
  some (i, set_vnode v i (record zero_vnode { parent = none; used = true }))

unfoldable pub alloc_fd : Vfs → Option (ℕ × Vfs)
alloc_fd v = do
  i ← free_fd v.fds
  some (i, set_fd v i (record { vnode = (fd_at v i).vnode; offset = 0; used = true }))

-- `strcmp(a, b) == 0`.
unfoldable pub same_name : Name → Name → Bool
same_name [] [] = true
same_name [] (b ∷ bs) = false
same_name (a ∷ as') [] = false
same_name (a ∷ as') (b ∷ bs) = (a == b) && same_name as' bs

-- The next component, cut at `n` bytes, and what follows it.
unfoldable pub component : ℕ → Name → Name × Name
component zero path = ([], path)
component (suc n) [] = ([], [])
component (suc n) (c ∷ path) =
    if c == b'/' then ([], c ∷ path) else (let (comp, rest) = component n path in (c ∷ comp, rest))

-- `if (*path == '/') path++;`
unfoldable pub skip_slash : Name → Name
skip_slash [] = []
skip_slash (c ∷ path) = if c == b'/' then path else c ∷ path

-- The first child of that name.
unfoldable pub find_child : Vfs → List ℕ → Name → Option ℕ
find_child v [] comp = none
find_child v (c ∷ cs) comp =
    if same_name (vnode_at v c).name comp then some c else find_child v cs comp

-- One round of the loop of `resolve_path`, with the component taken off: the node to go on from.
unfoldable pub enter : Vfs → ℕ → Name → Option ℕ
enter v current [] = some current
enter v current (c ∷ comp) =
    if is_dir (vnode_at v current).type
    then find_child v (vnode_at v current).children (c ∷ comp)
    else none

-- The loop of `resolve_path`. A round consumes a byte of the path at least.
unfoldable pub resolve_from : ℕ → Vfs → ℕ → Name → Option ℕ
resolve_from zero v current path = none
resolve_from (suc fuel) v current [] = some current
resolve_from (suc fuel) v current (c ∷ path) =
    let (comp, rest) = component (max_name - 1) (c ∷ path) in
    enter v current comp >>= λ next. resolve_from fuel v next (skip_slash rest)

unfoldable pub resolve_path : Vfs → Name → Option ℕ
resolve_path v [] = none
resolve_path v (c ∷ path) = if c == b'/' then resolve_from (suc (length path)) v 0 path else none

-- The path before the last `/` and the name behind it.
unfoldable pub split_last : Name → Option (Name × Name)
split_last [] = none
split_last (c ∷ path) = elim (split_last path) [
  | some (before, name) ↦ some (c ∷ before, name)
  | none ↦ if c == b'/' then some ([], path) else none
]

-- The parent's index from the path before the last `/`, cut at 255 bytes.
unfoldable pub parent_of : Vfs → Name → Option ℕ
parent_of v [] = some 0
parent_of v (c ∷ before) = resolve_path v (take 255 (c ∷ before))

-- `name_out` is left as it was for an empty name, and nobody reads it then.
unfoldable pub named : Vfs → Name → Name → Option (ℕ × Name)
named v before [] = none
named v before (c ∷ name) = do
  parent ← parent_of v before
  some (parent, take (max_name - 1) (c ∷ name))

unfoldable pub resolve_parent : Vfs → Name → Option (ℕ × Name)
resolve_parent v [] = none
resolve_parent v (c ∷ path) =
    if c == b'/' then (split_last (c ∷ path) >>= λ (before, name). named v before name) else none

-- `if (pdir->child_count < 32) pdir->children[pdir->child_count++] = idx;`
unfoldable pub add_child : ℕ → VNode → VNode
add_child idx dir =
    if ltb (length dir.children) max_children
    then record dir { children = dir.children ++ (idx ∷ []) }
    else dir

-- The loop that takes `idx` out of a directory's children.
unfoldable pub remove_child : ℕ → List ℕ → List ℕ
remove_child idx [] = []
remove_child idx (c ∷ cs) = if c == idx then cs else c ∷ remove_child idx cs
