-- ===== src/Vfs/Calls.antt =====
-- The calls of kernel/fs/vfs.c as a sequence: each keeps the two tables valid.
use micro_os.Base.{ℕ, Bool, Option, List, [], ◌∷◌}
use micro_os.Vfs.Defs.{Name, Vfs}
use micro_os.Vfs.Ops.{vfs_init, vfs_open, vfs_mkdir, vfs_close, vfs_read, vfs_write, vfs_unlink}
use micro_os.Vfs.Inv.{IsValid, vfs_init-IsValid}
use micro_os.Vfs.InvOps.{
  FreshOk, vfs_open-IsValid, vfs_mkdir-IsValid, vfs_close-IsValid, vfs_read-IsValid,
  vfs_write-IsValid, vfs_unlink-IsValid,
}

-- `opens` has the buffer that `kmalloc` returns should the file be made.
pub data Call : Type 0 where
  opens : Name → Bool → (fresh : Option (List ℕ)) → FreshOk fresh → Call
  makes : Name → Call
  closes : ℕ → Call
  reads : ℕ → ℕ → Call
  writes : ℕ → List ℕ → ℕ → Call
  unlinks : Name → Call

unfoldable pub exec : Vfs → Call → Vfs
exec v (opens path create fresh ok) = (vfs_open v path create fresh).1
exec v (makes path) = (vfs_mkdir v path).1
exec v (closes fd) = (vfs_close v fd).1
exec v (reads fd count) = (vfs_read v fd count).1
exec v (writes fd buf count) = (vfs_write v fd buf count).1
exec v (unlinks path) = (vfs_unlink v path).1

unfoldable pub exec_all : Vfs → List Call → Vfs
exec_all v [] = v
exec_all v (c ∷ cs) = exec_all (exec v c) cs

exec-IsValid : (v : Vfs) (c : Call) → IsValid v → IsValid (exec v c)
unfolding exec
exec-IsValid v (opens path create fresh ok) valid = vfs_open-IsValid v path create fresh valid ok
exec-IsValid v (makes path) valid = vfs_mkdir-IsValid v path valid
exec-IsValid v (closes fd) valid = vfs_close-IsValid v fd valid
exec-IsValid v (reads fd count) valid = vfs_read-IsValid v fd count valid
exec-IsValid v (writes fd buf count) valid = vfs_write-IsValid v fd buf count valid
exec-IsValid v (unlinks path) valid = vfs_unlink-IsValid v path valid

exec_from-IsValid : (cs : List Call) (v : Vfs) → IsValid v → IsValid (exec_all v cs)
unfolding exec_all
exec_from-IsValid [] v valid = valid
exec_from-IsValid (c ∷ cs) v valid = exec_from-IsValid cs (exec v c) (exec-IsValid v c valid)

-- After `vfs_init` and any of these calls, every child, every parent and every descriptor's vnode is
-- an index of the table, no directory has more than 32 children, names have at most 63 bytes,
-- a file with a buffer fits in it, the buffer has the recorded capacity of at most 16384 bytes, and
-- no offset exceeds 16384.
pub calls-IsValid : (cs : List Call) → IsValid (exec_all vfs_init cs)
calls-IsValid cs = exec_from-IsValid cs vfs_init vfs_init-IsValid
