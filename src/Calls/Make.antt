-- ===== src/Calls/Make.antt =====
-- src/api/{mkdir,mknod,symlink}.c: the calls that stand on `namei_create`.
use linux_vfs.Base.{ℕ, Option, none, some, List, if◌then◌else◌}
use linux_vfs.Base.Errno.{Errno, eperm, Result, ok, err}
use linux_vfs.Vfs.{Loc, Vfs, Driver, getname, putname}
use linux_vfs.Namei.State.{M, pure, ◌>>=◌, ◌>>◌, get, set_vfs, ref, lookup_directory}
use linux_vfs.Namei.Create.{Created, namei_create, done_path_create}
use linux_vfs.Calls.Methods.{Methods}

-- A method is called, and its state taken over.
abbrev pub call : (Vfs → Option Errno × Vfs) → M (Option Errno)
call method = do w ← get; let (r, s) = method w.vfs; set_vfs (λ _. s); pure r

-- The inode of the directory that the lookup returned.
abbrev pub dir_of : Created → Vfs → ℕ
dir_of c s = (s.dentries c.parent.dentry).d_inode

-- A pointer that may be NULL.
abbrev pub address : Option ℕ → ℕ
address none = 0
address (some p) = p

module _ (ops : Methods) where
  -- What the calls do with the place that `namei_create` returned.
  unfoldable pub mkdir_at : ℕ → Created → M (Option Errno)
  mkdir_at mode c = elim c.error [
    | some e ↦ pure (some e)
    | none ↦ call (λ s. ops.mkdir s (dir_of c s) (address c.dentry) mode)
  ]

  unfoldable pub mknod_at : ℕ → ℕ → Created → M (Option Errno)
  unfolding done_path_create
  mknod_at mode dev c = elim c.error [
    | some e ↦ pure (some e)
    | none ↦ do
      r ← call (λ s. ops.mknod s (dir_of c s) (address c.dentry) mode dev)
      done_path_create c.parent c.dentry
      pure r
  ]

  unfoldable pub symlink_at : List ℕ → Created → M (Option Errno)
  symlink_at target c = elim c.error [
    | some e ↦ pure (some e)
    | none ↦ call (λ s.
        if ops.has_symlink (dir_of c s)
        then ops.symlink s (dir_of c s) (address c.dentry) target
        else (some eperm, s))
  ]

  module _ (dr : Driver) (fs_root : Loc) (fuel : ℕ) where
    unfoldable pub vfs_mkdirat_api : Result (List ℕ) → ℕ → M (Option Errno)
    unfolding namei_create mkdir_at
    vfs_mkdirat_api name mode = do
      c ← namei_create dr fs_root fuel name lookup_directory
      mkdir_at mode c

    unfoldable pub vfs_mknodat_api : Result (List ℕ) → ℕ → ℕ → M (Option Errno)
    unfolding namei_create mknod_at
    vfs_mknodat_api name mode dev = do c ← namei_create dr fs_root fuel name 0; mknod_at mode dev c

    unfoldable pub do_symlinkat : Result (List ℕ) → Result (List ℕ) → M (Option Errno)
    unfolding namei_create symlink_at
    do_symlinkat (err e) name = pure (some e)
    do_symlinkat (ok target) name = do
      ref getname
      c ← namei_create dr fs_root fuel name 0
      r ← symlink_at target c
      ref putname
      pure r
