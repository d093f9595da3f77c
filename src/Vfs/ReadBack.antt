-- ===== src/Vfs/ReadBack.antt =====
-- `vfs_write` and `vfs_read`: what is written through one descriptor is read through another.
use micro_os.Base.{
  ℕ, suc, ◌+◌, ◌-◌, ◌≤◌, ◌≡◌, ◌≢◌, refl, ap, sym, ◌∙◌, false, some, List, ◌∷◌, ◌++◌, ◌==◌, ltb,
  if◌then◌else◌, length, get_or-set_self, get_or-set_ne, take, drop, drop-take-append,
  take-length-append, take-length, arith,
}
use micro_os.Vfs.Defs.{Vfs, zero_fd, zero_vnode, vnode_at, fd_at}
use micro_os.Vfs.Ops.{bad_fd, read_at, vfs_read, overwrite, filled, room, write_at, vfs_write}
use micro_os.Vfs.Inv.{IsValid}
use micro_os.Vfs.InvOps.{buffer_of}

take-drop-overwrite :
    (bytes : List ℕ) (offset : ℕ) (buf : List ℕ)
    → offset ≤ length bytes
    → take (length buf) (drop offset (overwrite bytes offset buf)) ≡ buf
unfolding overwrite
take-drop-overwrite bytes offset buf h =
    rw (drop-take-append offset bytes (buf ++ drop (offset + length buf) bytes) h)
      (take-length-append buf (drop (offset + length buf) bytes))

-- An open descriptor on a file with a buffer and room for `n` bytes at its offset.
pub record CanWrite (v : Vfs) (fd n : ℕ) (bytes : List ℕ) : Type 0 where
  pub valid : IsValid v
  pub open_fd : bad_fd v fd ≡ false
  pub buffer : (vnode_at v (fd_at v fd).vnode).contents ≡ some bytes
  pub fits : (fd_at v fd).offset + n ≤ (vnode_at v (fd_at v fd).vnode).capacity

-- With room, `vfs_write` writes all of a non-empty buffer.
pub vfs_write-all :
    (v : Vfs) (fd b : ℕ) (bs bytes : List ℕ)
    → CanWrite v fd (suc (length bs)) bytes
    → vfs_write v fd (b ∷ bs) (suc (length bs)) ≡ write_at v fd (b ∷ bs) bytes
unfolding vfs_write
vfs_write-all v fd b bs bytes c =
    let node = vnode_at v (fd_at v fd).vnode in
    let all_fit : room node.capacity (fd_at v fd).offset (suc (length bs))
        ≡ some (suc (length bs)) =
      unfold room in ground (arith, c.fits) in
    let some_bytes : (suc (length bs) == 0) ≡ false = ground arith in
    rw (c.open_fd, c.buffer, all_fit, some_bytes, take-length bs)

-- With enough bytes behind the offset, `vfs_read` returns all that is asked for.
pub vfs_read-all :
    (v : Vfs) (fd count : ℕ) (bytes : List ℕ)
    → bad_fd v fd ≡ false
    → (vnode_at v (fd_at v fd).vnode).contents ≡ some bytes
    → (fd_at v fd).offset + count ≤ (vnode_at v (fd_at v fd).vnode).size
    → (vfs_read v fd count).0 ≡ some (take count (drop (fd_at v fd).offset bytes))
unfolding vfs_read read_at
vfs_read-all v fd count bytes good e h =
    let all_there : ltb (if ltb (fd_at v fd).offset size then size - (fd_at v fd).offset else 0)
          count
        ≡ false =
      ground arith in
    rw good (rw (e, read_at) (rw all_there))
  where
    size : ℕ
    size = (vnode_at v (fd_at v fd).vnode).size

-- What `vfs_write` wrote at an offset, `vfs_read` through another descriptor of the same file at
-- the same offset returns, byte for byte.
pub vfs_read-vfs_write :
    (v : Vfs) (fd fd' b : ℕ) (bs bytes : List ℕ)
    → CanWrite v fd (suc (length bs)) bytes
    → fd ≢ fd'
    → fd_at v fd ≡ fd_at v fd'
    → bad_fd v fd' ≡ false
    → let (written, v1) = vfs_write v fd (b ∷ bs) (suc (length bs)) in
      let (got, v2) = vfs_read v1 fd' (suc (length bs)) in
      (written ≡ some (suc (length bs))) × (got ≡ some (b ∷ bs))
vfs_read-vfs_write v fd fd' b bs bytes c ne same open' =
    let buf = b ∷ bs in
    let idx = (fd_at v fd).vnode in
    let node = filled (vnode_at v idx) (fd_at v fd).offset buf bytes in
    let v1 = (write_at v fd buf bytes).1 in
    let old = c.valid.nodes idx in
    let fits = buffer_of (vnode_at v idx) bytes (sym c.buffer) old in
    let there : fd_at v1 fd' ≡ fd_at v fd' =
      unfold write_at in get_or-set_ne v.fds fd fd' _ zero_fd ne in
    let now : vnode_at v1 idx ≡ node =
      unfold write_at in
      get_or-set_self v.vnodes idx node zero_vnode
        (omega (arith, (c.valid.opens fd).node, c.valid.files)) in
    let here : fd_at v1 fd' ≡ fd_at v fd = there ∙ sym same in
    let held : (vnode_at v1 (fd_at v1 fd').vnode).contents
        ≡ some (overwrite bytes (fd_at v fd).offset buf) =
      rw (here, now) (unfold filled in refl) in
    let long : (fd_at v1 fd').offset + length buf ≤ (vnode_at v1 (fd_at v1 fd').vnode).size =
      rw (here, now) (unfold filled in ground (arith, c.fits, old.limit)) in
    rw (vfs_write-all v fd b bs bytes c) (
      unfold write_at in refl,
      vfs_read-all v1 fd' (length buf) _ (rw there open') held long
          ∙ rw here (
              ap some
                (take-drop-overwrite bytes (fd_at v fd).offset buf (omega (arith, c.fits, fits)))),
    )
