-- ===== src/Calls/Cwd.antt =====
-- The working directory and the root of a process: src/cwd.c, src/api/chdir.c and src/api/chroot.c. The
-- lookup starts at the root of the process, which the walk takes as a parameter.
pub mod Ledger
pub mod Tests
use linux_vfs.Base.{ℕ, Option, none, some, List, ◌==◌, if◌then◌else◌, bit_or}
use linux_vfs.Base.Errno.{Errno, Result, ok, err}
use linux_vfs.Vfs.{Loc, Vfs, Driver, path_get, path_put}
use linux_vfs.File.Open.Flags.{lookup_follow, lookup_directory}
use linux_vfs.File.Table.{
  FilePath, Filedesc, filedesc_root_set, filedesc_pwd_set, filedesc_root_get, filedesc_pwd_get,
}
use linux_vfs.Namei.State.{Walk}
use linux_vfs.Namei.Lookup.{new_nameidata}
use linux_vfs.Namei.Open.{namei_lookup}

pub record Process : Type 0 where
  pub vfs : Vfs
  pub fdp : Filedesc

abbrev pub loc_of : FilePath → Loc
loc_of p = record { mnt = p.mnt; dentry = p.dentry }

abbrev pub path_of : Loc → FilePath
path_of p = record { mnt = p.mnt; dentry = p.dentry }

-- With a reference.
unfoldable pub get_fs_root : Process → Loc × Process
unfolding filedesc_root_get
get_fs_root s =
    let root = loc_of (filedesc_root_get s.fdp) in (root, record s { vfs = path_get root s.vfs })

-- A path is put if it has a dentry.
abbrev pub put_old : Loc → Vfs → Vfs
put_old old s = if old.dentry == 0 then s else path_put old s

-- `old_root` is a variable that is never set: it holds whatever `old` is.
unfoldable pub set_fs_root : (old : Loc) → Process → Loc → Process
unfolding filedesc_root_set
set_fs_root old s path = record {
  vfs = put_old old (path_get path s.vfs);
  fdp = filedesc_root_set s.fdp (path_of path);
}

unfoldable pub set_fs_pwd : Process → Loc → Process
unfolding filedesc_pwd_get filedesc_pwd_set
set_fs_pwd s path = record {
  vfs = put_old (loc_of (filedesc_pwd_get s.fdp)) (path_get path s.vfs);
  fdp = filedesc_pwd_set s.fdp (path_of path);
}

abbrev pub with_vfs : Process → Vfs → Process
with_vfs s v = record s { vfs = v }

-- What a call does with the path that the lookup found, or returns.
abbrev pub on_found :
    Process
    → (Process → Loc → Process)
    → Option (Result Loc × Walk)
    → Option (Option Errno × Process)
on_found s use_path none = none
on_found s use_path (some (err e, w)) = some (some e, with_vfs s w.vfs)
on_found s use_path (some (ok p, w)) = some (none, use_path (with_vfs s w.vfs) p)

module _ (dr : Driver) (fuel : ℕ) where
  unfoldable pub find_directory : Result (List ℕ) → Process → Option (Result Loc × Walk)
  unfolding namei_lookup
  find_directory name s =
      namei_lookup dr (loc_of s.fdp.root) fuel name (bit_or lookup_follow lookup_directory)
        (record { vfs = s.vfs; nd = new_nameidata })

  unfoldable pub vfs_chdir_api : Result (List ℕ) → Process → Option (Option Errno × Process)
  unfolding find_directory set_fs_pwd
  vfs_chdir_api name s =
      on_found s (λ t p. let u = set_fs_pwd t p in with_vfs u (path_put p u.vfs))
        (find_directory name s)

  unfoldable pub vfs_chroot_api :
      (old : Loc) → Result (List ℕ) → Process → Option (Option Errno × Process)
  unfolding find_directory set_fs_root
  vfs_chroot_api old name s = on_found s (set_fs_root old) (find_directory name s)
