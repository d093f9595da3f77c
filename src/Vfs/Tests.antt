-- ===== src/Vfs/Tests.antt =====
-- Runs of the file system, and its theorems at concrete tables.
use micro_os.Base.{
  ℕ, ◌≡◌, refl, true, false, Option, none, some, List, [], ◌∷◌, length, length-replicate, replicate,
  arith,
}
use micro_os.Vfs.Defs.{
  max_data, Name, directory, Vfs, fd_at, free_vnode, free_fd, alloc_vnode, alloc_fd, same_name,
  component, skip_slash, find_child, enter, resolve_from, resolve_path, split_last, parent_of,
  named, resolve_parent, add_child, remove_child,
}
use micro_os.Vfs.Ops.{
  bad_fd, vfs_init, make_node, parent_dir, create_file, open_vnode, vfs_open, vfs_close, read_at,
  vfs_read, overwrite, filled, room, write_at, vfs_write, vfs_mkdir, unlink_child, move_node,
  rename_node, vfs_rename,
}
use micro_os.Vfs.Inv.{IsValid, vfs_init-IsValid}
use micro_os.Vfs.Calls.{opens, makes, closes, writes, exec_all, calls-IsValid}
use micro_os.Vfs.InvOps.{vfs_open-IsValid}
use micro_os.Vfs.ReadBack.{CanWrite, vfs_read-vfs_write}
use micro_os.Vfs.Effects.{Made, vfs_mkdir-Made}

-- "/d", "/d/f" and "/g".
abbrev path_d : Name
path_d = b'/' ∷ b'd' ∷ []

abbrev path_df : Name
path_df = b'/' ∷ b'd' ∷ b'/' ∷ b'f' ∷ []

abbrev path_g : Name
path_g = b'/' ∷ b'g' ∷ []

fresh : List ℕ
fresh = replicate max_data 0

-- The directory "/d", the file "/d/f" opened twice, and three bytes written through the first.
run : Option ℕ × Option ℕ × Option ℕ × Option (List ℕ) × Option ℕ × Option ℕ
unfolding vfs_init make_node parent_dir create_file open_vnode vfs_open vfs_close read_at vfs_read
    overwrite filled room write_at vfs_write vfs_mkdir free_vnode free_fd alloc_vnode alloc_fd
    same_name component skip_slash find_child enter resolve_from resolve_path split_last parent_of
    named resolve_parent add_child remove_child move_node rename_node vfs_rename fresh
run =
    let (_, v) = vfs_mkdir vfs_init path_d in
    let (a, v) = vfs_open v path_df true (some fresh) in
    let (b, v) = vfs_open v path_df false none in
    let (n, v) = vfs_write v 0 (1 ∷ 2 ∷ 3 ∷ []) 3 in
    let (got, v) = vfs_read v 1 100 in
    let (moved, v) = vfs_rename v path_df path_g in (a, b, n, got, moved, resolve_path v path_g)

run_lem : run ≡ (some 0, some 1, some 3, some (1 ∷ 2 ∷ 3 ∷ []), some 0, some 2)
unfolding run unlink_child
run_lem = refl

-- The file "/g", opened through descriptors 0 and 1.
opened : Vfs
opened = (vfs_open (vfs_open vfs_init path_g true (some fresh)).1 path_g false none).1

fresh-length : length fresh ≡ max_data
unfolding fresh
fresh-length = length-replicate {A = ℕ} max_data 0

opened-IsValid : IsValid opened
unfolding opened
opened-IsValid =
    vfs_open-IsValid _ path_g false none
      (vfs_open-IsValid vfs_init path_g true (some fresh) vfs_init-IsValid fresh-length) tt

opened-CanWrite : CanWrite opened 0 2 fresh
unfolding opened vfs_init make_node parent_dir create_file open_vnode vfs_open free_vnode free_fd
    alloc_vnode alloc_fd same_name component skip_slash find_child enter resolve_from resolve_path
    split_last parent_of named resolve_parent add_child
opened-CanWrite = record {
  valid = opened-IsValid;
  open_fd = refl;
  buffer = refl;
  fits = omega arith;
}

opened_twice : fd_at opened 0 ≡ fd_at opened 1
unfolding opened vfs_init make_node parent_dir create_file open_vnode vfs_open free_vnode free_fd
    alloc_vnode alloc_fd same_name component skip_slash find_child enter resolve_from resolve_path
    split_last parent_of named resolve_parent add_child
opened_twice = refl

second_open : bad_fd opened 1 ≡ false
unfolding opened vfs_init make_node parent_dir create_file open_vnode vfs_open free_vnode free_fd
    alloc_vnode alloc_fd same_name component skip_slash find_child enter resolve_from resolve_path
    split_last parent_of named resolve_parent add_child
second_open = refl

vfs_read-vfs_write_example :
    let (written, v1) = vfs_write opened 0 (7 ∷ 9 ∷ []) 2 in
    let (got, v2) = vfs_read v1 1 2 in (written ≡ some 2) × (got ≡ some (7 ∷ 9 ∷ []))
vfs_read-vfs_write_example =
    vfs_read-vfs_write opened 0 1 7 (9 ∷ []) fresh opened-CanWrite (omega arith) opened_twice
      second_open

d_missing : resolve_path vfs_init path_d ≡ none
unfolding vfs_init make_node parent_dir create_file open_vnode vfs_open free_vnode free_fd
    alloc_vnode alloc_fd same_name component skip_slash find_child enter resolve_from resolve_path
    split_last parent_of named resolve_parent add_child
d_missing = refl

d_parent : parent_dir vfs_init path_d ≡ some (0, b'd' ∷ [])
unfolding vfs_init make_node parent_dir create_file open_vnode vfs_open free_vnode free_fd
    alloc_vnode alloc_fd same_name component skip_slash find_child enter resolve_from resolve_path
    split_last parent_of named resolve_parent add_child
d_parent = refl

d_slot : free_vnode vfs_init.vnodes ≡ some 1
unfolding vfs_init make_node parent_dir create_file open_vnode vfs_open free_vnode free_fd
    alloc_vnode alloc_fd same_name component skip_slash find_child enter resolve_from resolve_path
    split_last parent_of named resolve_parent add_child
d_slot = refl

d_length : length vfs_init.vnodes ≡ 128
unfolding vfs_init
d_length = refl

vfs_mkdir-Made_example :
    ((vfs_mkdir vfs_init path_d).0 ≡ some 0)
    × Made vfs_init 0 1 (b'd' ∷ []) directory (vfs_mkdir vfs_init path_d).1
vfs_mkdir-Made_example =
    vfs_mkdir-Made vfs_init path_d (b'd' ∷ []) 0 1 d_missing d_parent d_slot
      (omega (arith, d_length)) (omega (arith, d_length)) (omega arith)

calls-IsValid_example : IsValid (
    exec_all vfs_init (
      makes path_d
      ∷ opens path_g true (some fresh) fresh-length
      ∷ writes 0 (1 ∷ 2 ∷ []) 2
      ∷ closes 0
      ∷ []))
calls-IsValid_example = calls-IsValid (
    makes path_d
    ∷ opens path_g true (some fresh) fresh-length
    ∷ writes 0 (1 ∷ 2 ∷ []) 2
    ∷ closes 0
    ∷ [])
