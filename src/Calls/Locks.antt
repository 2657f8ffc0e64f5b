-- ===== src/Calls/Locks.antt =====
-- The lock of the directory over the calls of src/api/{mkdir,mknod}.c.
use linux_vfs.Base.{ℕ, ◌≡◌, ◌≢◌, none, some, arith}
use linux_vfs.Vfs.{Qstr, Loc, Vfs, Driver}
use linux_vfs.Namei.State.{LastType, Walk}
use linux_vfs.Namei.Create.{Created, create_in, done_path_create}
use linux_vfs.Namei.Create.Locks.{
  Ends, IsPlain, IsFresh, Locked, Unlocked, LockedIf, create_in-LockedIf,
}
use linux_vfs.Calls.Methods.{Methods}
use linux_vfs.Calls.Make.{mkdir_at, mknod_at}
use mathlib.Core.Path.{subst}

-- A method gives back what it takes, and changes no dentry but its own.
abbrev pub GivesBack : Vfs → ℕ → Vfs → Type 0
GivesBack s d t =
    (t.trace ≡ s.trace) × ((q : ℕ) → q ≢ d → (t.dentries q).d_inode ≡ (s.dentries q).d_inode)

abbrev pub ArePlain : Methods → Type 0
ArePlain ops =
    ((s : Vfs) (dir d mode : ℕ) → GivesBack s d (ops.mkdir s dir d mode).1)
    × ((s : Vfs) (dir d mode dev : ℕ) → GivesBack s d (ops.mknod s dir d mode dev).1)

module _ (ops : Methods) (plain : ArePlain ops) (p : Loc) (dir d : ℕ) (other : p.dentry ≢ d)
    (s : Vfs) where
  abbrev place : Created
  place = record { error = none; parent = p; dentry = some d }

  mkdir_at-Locked :
      (mode : ℕ) (w : Walk)
      → Locked p dir s w.vfs
      → Ends (λ _ t. Locked p dir s t.vfs) (mkdir_at ops mode place w)
  unfolding mkdir_at
  mkdir_at-Locked mode w (locks, writes) =
      rw ((plain.0 w.vfs (w.vfs.dentries p.dentry).d_inode d mode).0) (locks, writes)

  mknod_at-Unlocked :
      (mode dev : ℕ) (w : Walk)
      → Locked p dir s w.vfs
      → (w.vfs.dentries p.dentry).d_inode ≡ dir
      → Ends (λ _ t. Unlocked s t.vfs) (mknod_at ops mode dev place w)
  unfolding mknod_at done_path_create
  mknod_at-Unlocked mode dev w (locks, writes) same =
      let (trace, inodes) = plain.1 w.vfs (w.vfs.dentries p.dentry).d_inode d mode dev in
      rw (trace, inodes p.dentry other, same)
        ((λ i. ground (arith, locks i)), λ m. ground (arith, writes m))

-- The calls after a creation that has returned the dentry `d`, which is not the parent itself:
-- `mknod` leaves every lock of an inode and every write access to a mount as it found them before
-- the creation, while `mkdir` keeps the lock of the parent's inode and one write access, whatever
-- the method of the file system answers. The methods give back the locks that they take, and change
-- no inode of a dentry but `d`; memory for a dentry is not that of the parent.
pub mknod_at-create_in :
    (dr : Driver) (ops : Methods) (fs_root : Loc) (fuel : ℕ)
    → IsPlain dr
    → ArePlain ops
    → (p : Loc) (last : Qstr) (type : LastType) (flags mode dev d : ℕ) (c : Created) (w w1 : Walk)
    → IsFresh w.vfs.heap p.dentry
    → create_in dr fs_root fuel p last type flags w ≡ some (c, w1)
    → c.dentry ≡ some d
    → p.dentry ≢ d
    → Ends (λ _ t. Unlocked w.vfs t.vfs) (mknod_at ops mode dev c w1)
      × Ends
          (λ _ t. Locked p (w.vfs.dentries p.dentry).d_inode w.vfs t.vfs)
          (mkdir_at ops mode c w1)
mknod_at-create_in dr ops fs_root fuel plain methods p last type flags mode dev d c w w1 fresh e
      found other =
    finish (subst (λ o. LockedIf o c p dir w.vfs w1.vfs) found held)
  where
    dir : ℕ
    dir = (w.vfs.dentries p.dentry).d_inode

    held : LockedIf c.dentry c p dir w.vfs w1.vfs
    held =
        subst (Ends (λ c t. LockedIf c.dentry c p dir w.vfs t.vfs)) e
          (create_in-LockedIf dr fs_root fuel p last type flags w plain fresh)

    finish :
        LockedIf (some d) c p dir w.vfs w1.vfs
        → Ends (λ _ t. Unlocked w.vfs t.vfs) (mknod_at ops mode dev c w1)
          × Ends (λ _ t. Locked p dir w.vfs t.vfs) (mkdir_at ops mode c w1)
    finish (locked, same, is) = rw is (
      mknod_at-Unlocked ops methods p dir d other w.vfs mode dev w1 locked same,
      mkdir_at-Locked ops methods p dir d other w.vfs mode w1 locked,
    )
