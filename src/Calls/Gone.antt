-- ===== src/Calls/Gone.antt =====
-- What may be removed, and what a removed directory is good for: src/private/namei-may.c,
-- src/api/rmdir.c.
use linux_vfs.Base.{
  ℕ, ◌≡◌, ◌≢◌, ◌↔◌, refl, ◌∙◌, inl, inr, Bool-cases, Bool, true, false, not, Option, none, some,
  if◌then◌else◌, arith, bit_or,
}
use mathlib.Core.Path.{subst}
use linux_vfs.Base.Bits.{test, bit, bit-or}
use linux_vfs.Base.Bits.Laws.{test-pow}
use linux_vfs.Base.Errno.{Errno, enoent, eperm, err}
use linux_vfs.Vfs.{
  Qstr, Loc, Vfs, Driver, note, dget, dput, inode_lock, inode_unlock, d_is_dir, d_is_miss,
}
use linux_vfs.Dcache.{dont_mount}
use linux_vfs.Namei.State.{Walk, M, pure}
use linux_vfs.Namei.Create.{s_dead, lookup_new}
use linux_vfs.Namei.Create.Locks.{Ends, Ends-bind, Ends-mono}
use linux_vfs.Calls.Methods.{Methods}
use linux_vfs.Calls.May.{
  Verdict, granted, bug, refused, may_delete, s_append, s_immutable, s_swapfile,
}
use linux_vfs.Calls.Remove.{
  Outcome, returns, panics, bury, buried, s_kernel_file, remove_granted, rmdir_locked, vfs_rmdir,
}

-- An entry may be removed from the directory inode `dir`.
abbrev pub Removable : Vfs → ℕ → ℕ → Bool → Type 0
Removable s dir victim isdir =
    let d = s.dentries victim in
    let flags = (s.inodes d.d_inode).i_flags in
    let dir_flags = (s.inodes dir).i_flags in
    (d_is_miss d.d_flags ≡ false)
    × (d.d_inode ≢ 0)
    × ((s.dentries d.d_parent).d_inode ≡ dir)
    × (test dir_flags s_append ≡ false)
    × (test dir_flags s_dead ≡ false)
    × (test flags s_append ≡ false)
    × (test flags s_immutable ≡ false)
    × (test flags s_swapfile ≡ false)
    × (d_is_dir d.d_flags ≡ isdir)
    × (isdir ≡ true → victim ≢ d.d_parent)

pub may_delete-Removable :
    (s : Vfs) (dir victim : ℕ) (isdir : Bool)
    → (may_delete s dir victim isdir ≡ granted) ↔ Removable s dir victim isdir
unfolding may_delete
may_delete-Removable s dir victim isdir = ground arith

test-set : (x : ℕ) → test (bit_or x s_dead) s_dead ≡ true
unfolding bit
test-set x = test-pow 4 (bit_or x s_dead) ∙ (bit-or 4 x s_dead ∙ ground arith)

abbrev IsDead : ℕ → Vfs → Type 0
IsDead d s = test (s.inodes (s.dentries d).d_inode).i_flags s_dead ≡ true

bury-IsDead : (d : ℕ) (s : Vfs) → IsDead d (bury d s)
unfolding bury dont_mount
bury-IsDead d s = ground (arith, test-set (s.inodes (s.dentries d).d_inode).i_flags)

-- With the result 0 the directory is dead.
abbrev Buried : ℕ → Option Errno → Walk → Type 0
Buried d none w = IsDead d w.vfs
Buried d (some e) w = Unit

abbrev Removed : ℕ → Outcome → Walk → Type 0
Removed d panics w = Unit
Removed d (returns r) w = Buried d r w

buried-Buried : (d : ℕ) (r : Option Errno) (w : Walk) → Ends (Buried d) (buried d r w)
unfolding buried
buried-Buried d none w = bury-IsDead d w.vfs
buried-Buried d (some e) w = tt

rmdir_locked-Buried :
    (ops : Methods) (dir d : ℕ) (w : Walk) → Ends (Buried d) (rmdir_locked ops dir d w)
unfolding rmdir_locked
rmdir_locked-Buried ops dir d w =
    elim (Bool-cases (test (w.vfs.inodes (w.vfs.dentries d).d_inode).i_flags s_kernel_file)) [
      | inl e ↦ rw e tt
      | inr e ↦
          let (r, s) = ops.rmdir w.vfs dir d in rw e (buried-Buried d r (record w { vfs = s }))
    ]

remove_granted-Removed :
    (ops : Methods) (dir d : ℕ) (w : Walk) → Ends (Removed d) (remove_granted ops dir d w)
unfolding remove_granted
remove_granted-Removed ops dir d w =
    Ends-bind (Buried d) (Removed d) (rmdir_locked ops dir d) _ w1
      (rmdir_locked-Buried ops dir d w1) dead
  where
    w1 : Walk
    w1 = record w { vfs = note (inode_lock (w.vfs.dentries d).d_inode) (note (dget d) w.vfs) }

    dead :
        (r : Option Errno) (t : Walk)
        → Buried d r t
        → Buried d r (record t {
          vfs = note (dput d) (note (inode_unlock (t.vfs.dentries d).d_inode) t.vfs);
        })
    dead none t h = h
    dead (some e) t h = tt

-- The outcome is 0 only where the entry may be removed.
abbrev Granted : Vfs → ℕ → ℕ → Outcome → Walk → Type 0
Granted s dir d (returns none) t = Removable s dir d true × IsDead d t.vfs
Granted s dir d _ t = Unit

vfs_rmdir-Granted :
    (ops : Methods) (dir d : ℕ) (w : Walk) → Ends (Granted w.vfs dir d) (vfs_rmdir ops dir d w)
unfolding vfs_rmdir
vfs_rmdir-Granted ops dir d w = go (may_delete w.vfs dir d true) refl
  where
    weaken :
        (o : Outcome) (t : Walk)
        → Removable w.vfs dir d true
        → Removed d o t
        → Granted w.vfs dir d o t
    weaken panics t may h = tt
    weaken (returns none) t may h = (may, h)
    weaken (returns (some e)) t may h = tt

    go :
        (v : Verdict)
        → may_delete w.vfs dir d true ≡ v
        → Ends (Granted w.vfs dir d) (
            elim v as (λ _. M Outcome) [
              | bug ↦ pure panics
              | refused e ↦ pure (returns (some e))
              | granted ↦
                  if not (ops.has_rmdir dir)
                  then pure (returns (some eperm))
                  else remove_granted ops dir d
            ]
              w)
    go bug e = tt
    go (refused x) e = tt
    go granted e = elim (Bool-cases (ops.has_rmdir dir)) [
      | inr none_there ↦ rw none_there tt
      | inl there ↦ rw there (
          Ends-mono (Removed d) (Granted w.vfs dir d) (remove_granted ops dir d w)
            (remove_granted-Removed ops dir d w)
            (λ o t. weaken o t ((may_delete-Removable w.vfs dir d true).0 e)))
    ]

-- When `rmdir` of the dentry `d` in the directory inode `dir` returns 0, then before the call `d`
-- was a directory with an inode, in `dir`, and no root; neither it nor `dir` was append-only, it was
-- not immutable and no swap file, and `dir` was not dead. After it, the lookup of a name that is not
-- cached fails in `d` with ENOENT and changes nothing, whatever the file system would answer.
pub lookup_new-vfs_rmdir :
    (ops : Methods) (dr : Driver) (fs_root : Loc) (fuel dir d flags : ℕ) (name : Qstr) (w t : Walk)
    → vfs_rmdir ops dir d w ≡ some (returns none, t)
    → Removable w.vfs dir d true
      × (lookup_new dr fs_root fuel name d flags t ≡ some (err enoent, t))
unfolding lookup_new
lookup_new-vfs_rmdir ops dr fs_root fuel dir d flags name w t e =
    let (may, dead) = subst (Ends (Granted w.vfs dir d)) e (vfs_rmdir-Granted ops dir d w) in
    (may, rw dead refl)
