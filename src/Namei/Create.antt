-- ===== src/Namei/Create.antt =====
-- The last component of a path in its parent: `lookup_dcache` of src/private/namei/namei-lookup.c,
-- `lookup_one_qstr_excl`, `__namei_create`, `namei_create`, `vfs_path_parent_lookup` and
-- `done_path_create` of src/private/namei.c. `mnt_want_write` always grants. A name comes as what
-- `getname` makes of it.
pub mod Locks
use linux_vfs.Base.{
  ℕ, Bool, true, false, not, ◌&&◌, ◌||◌, Option, none, some, List, ◌==◌, if◌then◌else◌, bit_and,
  bit_or,
}
use linux_vfs.Base.Bits.{test}
use linux_vfs.Base.Errno.{Errno, enoent, enomem, eexist, Result, ok, err}
use linux_vfs.Vfs.{
  Qstr, Loc, Vfs, dput, inode_lock, inode_unlock, want_write, drop_write, getname, putname,
  path_put, Reval, valid, stale, failed, Driver, d_is_miss,
}
use linux_vfs.Dcache.{d_alloc, d_lookup}
use linux_vfs.File.Open.Flags.{lookup_create, lookup_excl}
use linux_vfs.Namei.State.{
  LastType, norm, Nameidata, M, pure, ◌>>=◌, ◌>>◌, get, set_nd, set_vfs, ref, lookup_directory,
  lookup_reval,
}
use linux_vfs.Namei.Steps.{d_revalidate}
use linux_vfs.Namei.Lookup.{
  has_trailing, no_loc, new_nameidata, attempts, path_parentat, filename_parentat,
}

abbrev pub s_dead : ℕ
s_dead = 0x10

-- What a call leaves in its `struct nameiargs`: the result, `ni_ret_parent`, `ni_ret_dentry`.
pub record Created : Type 0 where
  pub error : Option Errno
  pub parent : Loc
  pub dentry : Option ℕ

abbrev pub refused : Errno → Created
refused e = record { error = some e; parent = no_loc; dentry = none }

abbrev inode_of : Vfs → ℕ → ℕ
inode_of s d = (s.dentries d).d_inode

-- A cached dentry after its revalidation. One that is stale is as one that is not there: the error 0
-- is NULL.
unfoldable pub revalidated : ℕ → Reval → M (Result (Option ℕ))
revalidated d valid = pure (ok (some d))
revalidated d stale = do ref (dput d); pure (ok none)
revalidated d (failed e) = do ref (dput d); pure (err e)

-- What a file system has found for a new dentry; another dentry takes its place.
unfoldable pub settle : ℕ → Result (Option ℕ) × Vfs → M (Result ℕ)
settle d (err e, s) = do set_vfs (λ _. s); ref (dput d); pure (err e)
settle d (ok (some old), s) = do set_vfs (λ _. s); ref (dput d); pure (ok old)
settle d (ok none, s) = do set_vfs (λ _. s); pure (ok d)

-- From the label `unlock` of `__namei_create` on.
unfoldable pub unlock_parent : Option Errno → Loc → M Created
unlock_parent error p = do
  w ← get
  ref (inode_unlock (inode_of w.vfs p.dentry))
  ref (drop_write p.mnt)
  set_vfs (path_put p)
  pure (record { error = error; parent = p; dentry = none })

-- What the last lookup has found; `error` is still 0 when the lookup has failed.
unfoldable pub judge : Loc → Bool → Result ℕ → M Created
unfolding unlock_parent
judge p may_create (err e) = unlock_parent none p
judge p may_create (ok d) = do
  w ← get
  if not (d_is_miss (w.vfs.dentries d).d_flags)
      then (do ref (dput d); unlock_parent (some eexist) p)
      else if not may_create
      then (do ref (dput d); unlock_parent (some enoent) p)
      else pure (record { error = none; parent = p; dentry = some d })

unfoldable pub done_path_create : Loc → Option ℕ → M (Unit {0})
done_path_create p d = do
  elim d [ none ↦ pure tt | some a ↦ ref (dput a) ]
  w ← get
  ref (inode_unlock (inode_of w.vfs p.dentry))
  ref (drop_write p.mnt)
  set_vfs (path_put p)

module _ (dr : Driver) (fs_root : Loc) (fuel : ℕ) where
  unfoldable pub lookup_dcache : Qstr → ℕ → ℕ → M (Result (Option ℕ))
  unfolding revalidated
  lookup_dcache name dir flags = do
    w ← get
    elim (d_lookup w.vfs dir name) [
      | none ↦ pure (ok none)
      | some d ↦ revalidated d (d_revalidate dr fs_root fuel w.vfs d flags)
    ]

  -- The lookup of a name that is in no cache.
  unfoldable pub lookup_new : Qstr → ℕ → ℕ → M (Result ℕ)
  unfolding settle
  lookup_new name base flags = do
    w ← get
    let dir = inode_of w.vfs base
    if test (w.vfs.inodes dir).i_flags s_dead
        then pure (err enoent)
        else elim (d_alloc w.vfs base name) [
          | none ↦ pure (err enomem)
          | some (d, s) ↦ settle d (dr.lookup s dir d flags)
        ]

  unfoldable pub uncached : Qstr → ℕ → ℕ → Result (Option ℕ) → M (Result ℕ)
  unfolding lookup_new
  uncached name base flags (err e) = pure (err e)
  uncached name base flags (ok (some d)) = pure (ok d)
  uncached name base flags (ok none) = lookup_new name base flags

  unfoldable pub lookup_one_qstr_excl : Qstr → ℕ → ℕ → M (Result ℕ)
  unfolding lookup_dcache uncached
  lookup_one_qstr_excl name base flags =
      lookup_dcache name base flags >>= λ r. uncached name base flags r

  -- `__namei_create` once the parent is known.
  unfoldable pub create_in : Loc → Qstr → LastType → ℕ → M Created
  unfolding judge lookup_one_qstr_excl has_trailing
  create_in p last norm flags = do
    let may_create = not (has_trailing last && not (test flags lookup_directory))
    ref (want_write p.mnt)
    w ← get
    ref (inode_lock (inode_of w.vfs p.dentry))
    r ← lookup_one_qstr_excl last p.dentry (
        bit_or (bit_and flags lookup_reval)
          (if may_create then bit_or lookup_create lookup_excl else 0))
    judge p may_create r
  create_in p last _ flags = do
    set_vfs (path_put p)
    pure (record { error = none; parent = p; dentry = none })

  unfoldable pub namei_create_at : List ℕ → ℕ → M Created
  unfolding create_in filename_parentat
  namei_create_at name flags = do
    r ← filename_parentat dr fs_root fuel name (bit_and flags lookup_reval)
    w ← get
    elim r [ err e ↦ pure (refused e) | ok p ↦ create_in p w.nd.last w.nd.last_type flags ]

  unfoldable pub namei_create : Result (List ℕ) → ℕ → M Created
  unfolding namei_create_at
  namei_create (err e) flags = pure (refused e)
  namei_create (ok name) flags = do
    ref getname
    set_nd (λ _. new_nameidata)
    c ← namei_create_at name flags
    ref putname
    pure c

  -- The parent of a path, with the last component in `nd->last`. The name is not put.
  unfoldable pub vfs_path_parent_lookup : Result (List ℕ) → ℕ → M (Result Loc)
  unfolding attempts path_parentat
  vfs_path_parent_lookup (err e) flags = pure (err e)
  vfs_path_parent_lookup (ok name) flags = do
    ref getname
    set_nd (λ _. new_nameidata)
    attempts dr fs_root fuel (path_parentat dr fs_root fuel name) flags
