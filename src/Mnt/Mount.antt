-- ===== src/Mnt/Mount.antt =====
-- Mounting a file system: `do_new_mount_fc`, `do_new_mount` and `path_mount` of src/mnt/namespace.c, and
-- `do_mount` of src/api/mount.c. `mount_capable` and `parse_monolithic_mount_data` allow everything, and
-- `put_fs_context` and `put_filesystem` are empty; a page of data is not read.
pub mod Created
pub mod Attached
pub mod Covered
pub mod Refused
pub mod Fuel
pub mod Tests
use linux_vfs.Base.{
  ℕ, suc, Bool, true, false, not, Option, none, some, List, [], ◌∷◌, ◌==◌, if◌then◌else◌, length,
}
use linux_vfs.Base.Bits.{test}
use linux_vfs.Base.Errno.{is_no_errno, einval, enodev, Result, ok, err}
use linux_vfs.Vfs.{Loc, Vfs, Driver, mntput, dput, inode_unlock, path_put}
use linux_vfs.File.Open.Flags.{lookup_follow}
use linux_vfs.Namei.State.{Walk}
use linux_vfs.Namei.Lookup.{new_nameidata}
use linux_vfs.Namei.Open.{namei_lookup}
use linux_vfs.Mnt.Tree.{Tree, noted, lock_mount, graft_tree, put_mountpoint}
use linux_vfs.Mnt.Filesystems.{Types, skip, fs_has_subtype, dot_at, get_fs_type}
use linux_vfs.Mnt.Context.{
  Mounting, Run, done, faults, out_of_fuel, M, and_then, ◌>>=◌, ◌>>◌, return, fail, finally,
  on_error, ContextMethods, note_ref, fs_context_for_mount, vfs_parse_fs_string,
}
use linux_vfs.Mnt.Super.{with_vfs, vfs_get_tree, vfs_create_mount, set_source}
use linux_vfs.Mnt.Flags.{ms_nouser, discard_magic, mount_flags, super_flags}

-- IS_ERR of what `do_lock_mount` returns: an ERR_PTR of a value that is no error number is taken for a
-- mountpoint, and `graft_tree` reads through it.
abbrev pub is_err : Result ℕ → Mounting → Run ℕ
is_err (ok mp) s = done (ok mp) s
is_err (err e) s = if is_no_errno e then faults else done (err e) s

-- `lock_mount` of the path, which it moves.
abbrev pub locked_at : Mounting → Option (Result ℕ × Loc × Tree) → Run ℕ
locked_at s none = out_of_fuel
locked_at s (some (r, p, t)) = is_err r (record s { path = p; tree = t })

unfoldable pub lock_path : ℕ → M ℕ
lock_path fuel s = locked_at s (lock_mount fuel s.tree s.path)

-- `unlock_mount`: the mountpoint is put, and the inode of its dentry unlocked.
unfoldable pub unlock_mount : ℕ → Mounting → Mounting
unlock_mount mp s =
    let dentry = (s.tree.points mp).m_dentry in
    record s {
      tree = noted (inode_unlock (s.tree.vfs.dentries dentry).d_inode) (put_mountpoint s.tree mp);
    }

abbrev pub graft_result : Mounting → Result (Unit {0}) × Tree → Run (Unit {0})
graft_result s (r, t) = done r (record s { tree = t })

-- The flags of the mount are computed, and never stored.
unfoldable pub do_add_mount : (mnt mp mnt_flags : ℕ) → M (Unit {0})
do_add_mount mnt mp mnt_flags s = graft_result s (graft_tree s.tree mnt s.path.mnt mp)

abbrev pub put_mount : ℕ → Mounting → Mounting
put_mount mnt = note_ref (mntput mnt)

unfoldable pub add_locked : (mnt mnt_flags mp : ℕ) → M (Unit {0})
unfolding do_add_mount unlock_mount
add_locked mnt mnt_flags mp s =
    on_error (put_mount mnt) (finally (unlock_mount mp) (do_add_mount mnt mp mnt_flags s))

unfoldable pub attach_new : ℕ → (mnt_flags mnt : ℕ) → M (Unit {0})
unfolding lock_path add_locked
attach_new fuel mnt_flags mnt s =
    and_then (on_error (put_mount mnt) (lock_path fuel s)) (add_locked mnt mnt_flags)

unfoldable pub do_new_mount_fc : ℕ → (mnt_flags : ℕ) → M (Unit {0})
unfolding vfs_create_mount attach_new
do_new_mount_fc fuel mnt_flags s =
    if s.fc.root == 0 then faults else and_then (vfs_create_mount s) (attach_new fuel mnt_flags)

-- What follows the dot, which must not be empty, for a type that has subtypes.
abbrev pub nonempty : List ℕ → Result (Option (List ℕ))
nonempty [] = err einval
nonempty (c ∷ cs) = ok (some (c ∷ cs))

unfoldable pub subtype_of : Types → (type : ℕ) → List ℕ → Result (Option (List ℕ))
subtype_of types type name =
    if not (test (types.fs_flags type) fs_has_subtype)
    then ok none
    else elim (dot_at name) [ none ↦ ok none | some n ↦ nonempty (skip (suc n) name) ]

abbrev pub subtype_key : List ℕ
subtype_key = b's' ∷ b'u' ∷ b'b' ∷ b't' ∷ b'y' ∷ b'p' ∷ b'e' ∷ []

abbrev pub set_subtype : ContextMethods → Option (List ℕ) → M (Unit {0})
set_subtype k none = return tt
set_subtype k (some subtype) =
    vfs_parse_fs_string k (some subtype_key) (some subtype) (length subtype)

module _ (k : ContextMethods) (fuel sb_flags mnt_flags : ℕ) (name : Option (List ℕ)) where
  unfoldable pub mount_type : (type : ℕ) → Result (Option (List ℕ)) → M (Unit {0})
  unfolding fs_context_for_mount vfs_parse_fs_string vfs_get_tree do_new_mount_fc
  mount_type type (err e) = fail e
  mount_type type (ok subtype) = do
    fs_context_for_mount k type sb_flags
    set_subtype k subtype
    set_source k name
    vfs_get_tree k
    do_new_mount_fc fuel mnt_flags

  abbrev pub mount_found : List ℕ → Option ℕ → M (Unit {0})
  mount_found fstype none s = out_of_fuel
  mount_found fstype (some type) s =
      if type == 0 then fail enodev s else mount_type type (subtype_of s.types type fstype) s

  unfoldable pub do_new_mount : Option (List ℕ) → M (Unit {0})
  unfolding mount_type get_fs_type subtype_of
  do_new_mount none s = fail einval s
  do_new_mount (some fstype) s = mount_found fstype (get_fs_type fuel s.types fstype) s

unfoldable pub path_mount :
    ContextMethods → ℕ → (dev_name type_page : Option (List ℕ)) → (flags : ℕ) → M (Unit {0})
unfolding do_new_mount mount_flags super_flags
path_mount k fuel dev_name type_page flags s =
    let flags' = discard_magic flags in
    let old = (s.tree.vfs.mounts s.path.mnt).mnt_flags in
    if test flags' ms_nouser
    then fail einval s
    else do_new_mount k fuel (super_flags flags') (mount_flags flags' old) dev_name type_page s

abbrev pub put_path : Mounting → Mounting
put_path s = with_vfs (path_put s.path) s

module _ (k : ContextMethods) (dr : Driver) (fs_root : Loc) (fuel : ℕ) where
  -- The path that the lookup finds, which is put at the end.
  abbrev pub mount_on :
      (dev_name type_page : Option (List ℕ)) (flags : ℕ)
      → Mounting
      → Option (Result Loc × Walk)
      → Run (Unit {0})
  mount_on dev_name type_page flags s none = out_of_fuel
  mount_on dev_name type_page flags s (some (err e, w)) = fail e (with_vfs (λ _. w.vfs) s)
  mount_on dev_name type_page flags s (some (ok p, w)) =
      finally put_path
        (path_mount k fuel dev_name type_page flags (record (with_vfs (λ _. w.vfs) s) { path = p }))

  unfoldable pub do_mount :
      (dev_name : Option (List ℕ)) (dir_name : Result (List ℕ)) (type_page : Option (List ℕ))
      → (flags : ℕ) → M (Unit {0})
  unfolding path_mount namei_lookup
  do_mount dev_name dir_name type_page flags s = mount_on dev_name type_page flags s (
      namei_lookup dr fs_root fuel dir_name lookup_follow
        (record { vfs = s.tree.vfs; nd = new_nameidata }))

-- `can_umount` and `do_umount` do nothing and return 0, so that the mount stays; only the dentry of the
-- path is put.
unfoldable pub path_umount : M (Unit {0})
path_umount s = return tt (note_ref (dput s.path.dentry) s)
