-- ===== src/Calls/Cwd/Ledger.antt =====
-- The references that chdir and chroot take and give back.
use linux_vfs.Base.{
  ℕ, ◌+◌, ◌≡◌, refl, ◌&&◌, not, Option, none, some, List, [], ◌∷◌, ◌==◌, if◌then◌else◌, arith,
}
use linux_vfs.Base.Errno.{Errno, Result, ok, err}
use linux_vfs.Vfs.{Loc, Vfs, Driver, Ref, dget, dput}
use linux_vfs.File.Table.{FilePath, Filedesc, filedesc_pwd_get, filedesc_pwd_set, filedesc_root_set}
use linux_vfs.Namei.State.{Walk}
use linux_vfs.Calls.Cwd.{
  Process, path_of, set_fs_root, set_fs_pwd, find_directory, vfs_chdir_api, vfs_chroot_api,
}

-- How many references to the dentry `d` a trace takes, and gives back.
abbrev pub gets : ℕ → List Ref → ℕ
gets d [] = 0
gets d (dget q ∷ rest) = let n = gets d rest in if q == d then n + 1 else n
gets d (_ ∷ rest) = gets d rest

abbrev pub puts : ℕ → List Ref → ℕ
puts d [] = 0
puts d (dput q ∷ rest) = let n = puts d rest in if q == d then n + 1 else n
puts d (_ ∷ rest) = puts d rest

-- One, if a path with a dentry is at `d`.
abbrev pub one_at : ℕ → ℕ → ℕ
one_at q d = if q == d && not (q == 0) then 1 else 0

-- From `s` to `t` there are `more` references to `d` taken, and `less` given back, beyond those that cancel out.
abbrev pub Ledger : (d more less : ℕ) → Vfs → Vfs → Type 0
Ledger d more less s t =
    gets d t.trace + puts d s.trace + less ≡ gets d s.trace + puts d t.trace + more

-- What a call leaves of a process when the lookup has ended in `w`: on an error the process is as it was, and else
-- its table has changed as `update` says, with references taken and given back at each dentry.
abbrev pub EndsWith :
    (update : FilePath → Filedesc → Filedesc) (more less : Loc → ℕ → ℕ)
    → Process
    → Walk
    → Result Loc
    → Option (Option Errno × Process)
    → Type 0
EndsWith update more less s w (ok p) (some (none, t)) =
    (t.fdp ≡ update (path_of p) s.fdp) × ((d : ℕ) → Ledger d (more p d) (less p d) w.vfs t.vfs)
EndsWith update more less s w (err e) (some (some e', t)) =
    (e' ≡ e) × (t.fdp ≡ s.fdp) × (t.vfs ≡ w.vfs)
EndsWith update more less s w r out = ⊥

module _ (dr : Driver) (fuel : ℕ) where
  -- chdir, when the lookup has ended: a path that was found becomes the working directory, to which the
  -- reference of the lookup passes; the reference to the working directory of before is given back, and
  -- the root and the descriptors stay. If none was found the process stays as it is, and the error is
  -- returned.
  pub vfs_chdir_api-EndsWith :
      (name : Result (List ℕ)) (s : Process) (r : Result Loc) (w : Walk)
      → find_directory dr fuel name s ≡ some (r, w)
      → EndsWith
          (λ p fdp. record fdp { pwd = p })
          (λ p d. 0)
          (λ p d. one_at s.fdp.pwd.dentry d)
          s
          w
          r
          (vfs_chdir_api dr fuel name s)
  unfolding vfs_chdir_api set_fs_pwd filedesc_pwd_get filedesc_pwd_set
  vfs_chdir_api-EndsWith name s (err e) w f = rw (f, vfs_chdir_api) (refl, refl, refl)
  vfs_chdir_api-EndsWith name s (ok p) w f = rw (f, vfs_chdir_api) (refl, λ d. ground arith)

  -- chroot: a path that was found becomes the root, but two references to it are held then, that of the lookup
  -- and another; and what is given back is the reference to whatever the unset variable `old_root` holds.
  vfs_chroot_api-EndsWith :
      (old : Loc) (name : Result (List ℕ)) (s : Process) (r : Result Loc) (w : Walk)
      → find_directory dr fuel name s ≡ some (r, w)
      → EndsWith
          (λ p fdp. record fdp { root = p })
          (λ p d. if p.dentry == d then 1 else 0)
          (λ p d. one_at old.dentry d)
          s
          w
          r
          (vfs_chroot_api dr fuel old name s)
  unfolding vfs_chroot_api set_fs_root filedesc_root_set
  vfs_chroot_api-EndsWith old name s (err e) w f = rw (f, vfs_chroot_api) (refl, refl, refl)
  vfs_chroot_api-EndsWith old name s (ok p) w f = rw (f, vfs_chroot_api) (refl, λ d. ground arith)
