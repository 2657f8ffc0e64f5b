-- ===== src/Calls/Remove.antt =====
-- src/api/{rmdir,unlink}.c. `is_local_mountpoint` is false, and `shrink_dcache_parent`,
-- `detach_mounts` and `d_delete_notify` are empty.
use linux_vfs.Base.{
  ℕ, true, false, not, ◌||◌, Option, none, some, List, ◌==◌, if◌then◌else◌, bit_or,
}
use linux_vfs.Base.Bits.{test}
use linux_vfs.Base.Errno.{Errno, enoent, eperm, ebusy, einval, eisdir, enotempty, Result, ok, err}
use linux_vfs.Vfs.{
  Qstr, Loc, Vfs, Driver, dget, dput, inode_lock, inode_unlock, want_write, drop_write, path_put,
  update, d_is_miss,
}
use linux_vfs.Dcache.{dont_mount}
use linux_vfs.Namei.State.{
  LastType, norm, root, dot, dotdot, M, pure, ◌>>=◌, ◌>>◌, get, set_vfs, ref,
}
use linux_vfs.Namei.Lookup.{has_trailing, no_loc}
use linux_vfs.Namei.Create.{s_dead, lookup_one_qstr_excl, vfs_path_parent_lookup}
use linux_vfs.Calls.Methods.{Methods}
use linux_vfs.Calls.May.{s_swapfile, granted, bug, refused, may_delete}
use linux_vfs.Calls.Make.{call}

abbrev pub s_kernel_file : ℕ
s_kernel_file = 0x2_0000

-- `panics`: a BUG_ON, or a read through NULL.
pub data Outcome : Type 0 where
  panics : Outcome
  returns : Option Errno → Outcome

abbrev pub inode_of : ℕ → Vfs → ℕ
inode_of d s = (s.dentries d).d_inode

-- A directory that is removed.
unfoldable pub bury : ℕ → Vfs → Vfs
bury d s =
    let i = (s.dentries d).d_inode in
    let inode = record (s.inodes i) { i_flags = bit_or (s.inodes i).i_flags s_dead } in
    dont_mount (record s { inodes = update s.inodes i inode }) d

unfoldable pub unlock_after : Loc → Option Errno → M Outcome
unlock_after p r = do
  w ← get
  ref (inode_unlock (inode_of p.dentry w.vfs))
  ref (drop_write p.mnt)
  pure (returns r)

-- After the method of the file system.
unfoldable pub buried : ℕ → Option Errno → M (Option Errno)
unfolding bury
buried d (some e) = pure (some e)
buried d none = do set_vfs (bury d); pure none

module _ (ops : Methods) where
  -- `vfs_rmdir` with the victim's lock.
  unfoldable pub rmdir_locked : ℕ → ℕ → M (Option Errno)
  unfolding buried
  rmdir_locked dir d = do
    w ← get
    if test (w.vfs.inodes (inode_of d w.vfs)).i_flags s_kernel_file
        then pure (some ebusy)
        else call (λ s. ops.rmdir s dir d) >>= buried d

  -- The branch of `vfs_rmdir` that takes the lock of the victim.
  unfoldable pub remove_granted : ℕ → ℕ → M Outcome
  unfolding rmdir_locked
  remove_granted dir d = do
    ref (dget d)
    w ← get
    ref (inode_lock (inode_of d w.vfs))
    r ← rmdir_locked dir d
    w' ← get
    ref (inode_unlock (inode_of d w'.vfs))
    ref (dput d)
    pure (returns r)

  unfoldable pub vfs_rmdir : ℕ → ℕ → M Outcome
  unfolding may_delete remove_granted
  vfs_rmdir dir d = do
    w ← get
    elim (may_delete w.vfs dir d true) [
      | bug ↦ pure panics
      | refused e ↦ pure (returns (some e))
      | granted ↦
          if not (ops.has_rmdir dir) then pure (returns (some eperm)) else remove_granted dir d
    ]

  -- `__vfs_unlink` with the target's lock.
  unfoldable pub unlink_locked : ℕ → ℕ → M (Option Errno)
  unlink_locked dir d = do
    w ← get
    if test (w.vfs.inodes (inode_of d w.vfs)).i_flags s_swapfile
        then pure (some eperm)
        else call (λ s. ops.unlink s dir d) >>= λ r. elim r [
          | some e ↦ pure (some e)
          | none ↦ do set_vfs (λ s. dont_mount s d); pure none
        ]

  -- `__vfs_unlink`, which nothing calls.
  unfoldable pub vfs_unlink : ℕ → ℕ → M Outcome
  unfolding may_delete unlink_locked
  vfs_unlink dir d = do
    w ← get
    let target = inode_of d w.vfs
    elim (may_delete w.vfs dir d false) [
      | bug ↦ pure panics
      | refused e ↦ pure (returns (some e))
      | granted ↦ if not (ops.has_unlink dir) then pure (returns (some eperm)) else (do
        ref (inode_lock target)
        r ← unlink_locked dir d
        ref (inode_unlock target)
        pure (returns r))
    ]

  -- `parent_rmdir` once the entry was looked up.
  unfoldable pub rmdir_found : ℕ → ℕ → M Outcome
  unfolding vfs_rmdir
  rmdir_found parent d = do
    w ← get
    r ←
        (if inode_of d w.vfs == 0
          then pure (returns (some enoent))
          else vfs_rmdir (inode_of parent w.vfs) d)
    elim r [ panics ↦ pure panics | returns e ↦ do ref (dput d); pure (returns e) ]

-- What `rmdir` makes of a last component that is no name.
unfoldable pub check_type : LastType → Option Errno
check_type norm = none
check_type dotdot = some enotempty
check_type dot = some einval
check_type root = some ebusy

module _ (ops : Methods) (dr : Driver) (fs_root : Loc) (fuel : ℕ) where
  unfoldable pub parent_rmdir : Loc → Qstr → M Outcome
  unfolding lookup_one_qstr_excl rmdir_found unlock_after
  parent_rmdir p last = do
    ref (want_write p.mnt)
    w ← get
    ref (inode_lock (inode_of p.dentry w.vfs))
    r ← lookup_one_qstr_excl dr fs_root fuel last p.dentry 0
    elim r [
      | err e ↦ unlock_after p (some e)
      | ok d ↦ do
        r' ← rmdir_found ops p.dentry d
        elim r' [ panics ↦ pure panics | returns e ↦ unlock_after p e ]
    ]

  -- `do_rmdir` with the parent of the path.
  unfoldable pub rmdir_in : Loc → Qstr → LastType → M Outcome
  unfolding parent_rmdir check_type
  rmdir_in p last type = do
    r ← elim (check_type type) [ some e ↦ pure (returns (some e)) | none ↦ parent_rmdir p last ]
    elim r [ panics ↦ pure panics | returns e ↦ do set_vfs (path_put p); pure (returns e) ]

  unfoldable pub do_rmdir : Result (List ℕ) → M Outcome
  unfolding vfs_path_parent_lookup rmdir_in
  do_rmdir name = do
    r ← vfs_path_parent_lookup dr fs_root fuel name 0
    w ← get
    elim r [
      | err e ↦ do set_vfs (path_put no_loc); pure (returns (some e))
      | ok p ↦ rmdir_in p w.nd.last w.nd.last_type
    ]

module _ (dr : Driver) (fs_root : Loc) (fuel : ℕ) where
  -- `do_unlinkat` with the parent of the path and `ni_ret_dentry`, in which it looks the entry up.
  -- Nothing is removed.
  unfoldable pub unlink_in : Loc → ℕ → Qstr → LastType → M Outcome
  unfolding lookup_one_qstr_excl has_trailing
  unlink_in p base last norm = do
    ref (want_write p.mnt)
    if base == 0 then pure panics else (do
      r ← lookup_one_qstr_excl dr fs_root fuel last base 0
      w ← get
      e ← elim r [
        | err e ↦ pure (some e)
        | ok d ↦ do
          ref (dput d)
          pure (
              if has_trailing last || d_is_miss (w.vfs.dentries d).d_flags
              then some enoent
              else none)
      ]
      set_vfs (path_put p)
      pure (returns e))
  unlink_in p base last _ = do set_vfs (path_put p); pure (returns (some eisdir))

  -- `namei_init` sets `ni_ret_dentry` to NULL, and the lookup of the parent leaves it so.
  unfoldable pub do_unlinkat : Result (List ℕ) → M Outcome
  unfolding vfs_path_parent_lookup unlink_in
  do_unlinkat name = do
    r ← vfs_path_parent_lookup dr fs_root fuel name 0
    w ← get
    elim r [ err e ↦ pure (returns (some e)) | ok p ↦ unlink_in p 0 w.nd.last w.nd.last_type ]
