-- ===== src/Calls/Rename.antt =====
-- src/api/rename.c. Both entries are looked up; the renaming itself is not there. On success
-- `__rename` returns `error` without having set it: `unset` is what that variable holds, `none` for 0.
use linux_vfs.Base.{ℕ, Bool, true, false, not, ◌||◌, Option, some, List, ◌==◌, if◌then◌else◌}
use linux_vfs.Base.Errno.{Errno, enoent, ebusy, exdev, Result, ok, err}
use linux_vfs.Vfs.{Qstr, Loc, Driver, dput, want_write, drop_write, d_is_miss}
use linux_vfs.Namei.State.{LastType, norm, M, pure, ◌>>=◌, ◌>>◌, get, ref}
use linux_vfs.Namei.Create.{lookup_one_qstr_excl, vfs_path_parent_lookup}

abbrev lookup_rename_target : ℕ
lookup_rename_target = 0x800

-- A place in a parent directory, as the lookup of a parent gives it.
pub record Place : Type 0 where
  pub parent : Loc
  pub last : Qstr
  pub last_type : LastType

abbrev pub is_norm : LastType → Bool
is_norm norm = true
is_norm _ = false

module _ (dr : Driver) (fs_root : Loc) (fuel : ℕ) (unset : Option Errno) where
  -- `__rename`.
  unfoldable pub rename_entries : Place → Place → M (Option Errno)
  unfolding lookup_one_qstr_excl
  rename_entries old new = do
    r ← lookup_one_qstr_excl dr fs_root fuel old.last old.parent.dentry 0
    elim r [
      | err e ↦ pure (some e)
      | ok d ↦ do
        w ← get
        e ←
            (if d_is_miss (w.vfs.dentries d).d_flags then pure (some enoent) else (do
              r' ←
                  lookup_one_qstr_excl dr fs_root fuel new.last new.parent.dentry
                    lookup_rename_target
              elim r' [ err e ↦ pure (some e) | ok d' ↦ do ref (dput d'); pure unset ]))
        ref (dput d)
        pure e
    ]

  -- `do_renameat2` with both parents.
  unfoldable pub rename_in : Place → Place → M (Option Errno)
  unfolding rename_entries
  rename_in old new =
      if not (old.parent.mnt == new.parent.mnt)
      then pure (some exdev)
      else if not (is_norm old.last_type) || not (is_norm new.last_type)
      then pure (some ebusy)
      else (do
        ref (want_write old.parent.mnt)
        r ← rename_entries old new
        ref (drop_write old.parent.mnt)
        pure r)

  unfoldable pub do_renameat2 : Result (List ℕ) → Result (List ℕ) → M (Option Errno)
  unfolding vfs_path_parent_lookup rename_in
  do_renameat2 from to = do
    r ← vfs_path_parent_lookup dr fs_root fuel from 0
    w ← get
    elim r [
      | err e ↦ pure (some e)
      | ok p ↦ do
        r' ← vfs_path_parent_lookup dr fs_root fuel to lookup_rename_target
        w' ← get
        elim r' [
          | err e ↦ pure (some e)
          | ok q ↦
              rename_in (record { parent = p; last = w.nd.last; last_type = w.nd.last_type })
                (record { parent = q; last = w'.nd.last; last_type = w'.nd.last_type })
        ]
    ]
