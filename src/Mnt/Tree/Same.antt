-- ===== src/Mnt/Tree/Same.antt =====
-- What `get_mountpoint` of src/mnt/namespace.c leaves as it is.
use linux_vfs.Base.{
  ℕ, ◌≡◌, ◌≢◌, refl, Bool, true, false, Option, none, some, List, [], ◌∷◌, arith, ◌≤◌, inr,
}
use linux_vfs.Base.Bits.{test}
use linux_vfs.Base.Errno.{Errno}
use linux_vfs.Vfs.{Loc, dcache_mounted}
use linux_vfs.Dcache.{d_unlinked}
use linux_vfs.Namei.Mounts.{lookup_mnt}
use linux_vfs.Mnt.Tree.Mounted.{d_set_mounted-d_mountpoint}
use linux_vfs.Mnt.Tree.{
  Tree, d_mountpoint, returned, lookup_mountpoint, new_mountpoint, get_mountpoint,
}

-- The next allocation returns another address.
abbrev pub NotNext : List ℕ → ℕ → Type 0
NotNext [] mp = Unit {0}
NotNext (a ∷ heap) mp = mp ≢ a

-- The mounts, their hash, and the dentry of a mountpoint are the same; the mountpoint has as many
-- references or more, and no dentry has lost DCACHE_MOUNTED.
abbrev pub Same : ℕ → Tree → Tree → Type 0
Same mp t t' =
    (t'.vfs.mounts ≡ t.vfs.mounts)
    × (t'.vfs.mount_hash ≡ t.vfs.mount_hash)
    × ((t'.points mp).m_dentry ≡ (t.points mp).m_dentry)
    × ((t.points mp).m_count ≤ (t'.points mp).m_count)
    × ((d : ℕ) → d_mountpoint t.vfs d ≡ true → d_mountpoint t'.vfs d ≡ true)

pub Same-self : (mp : ℕ) (t : Tree) → Same mp t t
Same-self mp t = (refl, refl, refl, omega arith, λ d h. h)

new_mountpoint-Same :
    (t : Tree) (dentry mp : ℕ) → NotNext t.vfs.heap mp → Same mp t (new_mountpoint t dentry).1
unfolding new_mountpoint
new_mountpoint-Same t dentry mp n = go t.vfs.heap refl n
  where
    go :
        (heap : List ℕ)
        → t.vfs.heap ≡ heap
        → NotNext heap mp
        → Same mp t (new_mountpoint t dentry).1
    go [] q k = rw (q, new_mountpoint) (refl, refl, refl, omega arith, λ d h. h)
    go (a ∷ heap) q k =
        rw (q, new_mountpoint)
          (
            refl,
            refl,
            ground (arith, k),
            ground (arith, k),
            λ d h. d_set_mounted-d_mountpoint t.vfs dentry d (inr h),
          )

lookup_mountpoint-Same :
    (t : Tree) (dentry mp found : ℕ) (t' : Tree)
    → lookup_mountpoint t dentry ≡ some (found, t')
    → Same mp t t'
unfolding lookup_mountpoint
lookup_mountpoint-Same t dentry mp found t' e = ground arith

returned-Same :
    (o : Option Errno) (mp found : ℕ) (t t' : Tree)
    → Same mp t t'
    → Same mp t (returned o found t').1
returned-Same none mp found t t' h = h
returned-Same (some e) mp found t t' h = h

pub get_mountpoint-Same :
    (t : Tree) (dentry mp : ℕ) → NotNext t.vfs.heap mp → Same mp t (get_mountpoint t dentry).1
unfolding get_mountpoint
get_mountpoint-Same t dentry mp n =
    by_flags (test (t.vfs.dentries dentry).d_flags dcache_mounted) (d_unlinked t.vfs dentry)
      (lookup_mountpoint t dentry) refl refl refl
  where
    by_flags :
        (mounted unlinked : Bool) (x : Option (ℕ × Tree))
        → test (t.vfs.dentries dentry).d_flags dcache_mounted ≡ mounted
        → d_unlinked t.vfs dentry ≡ unlinked
        → lookup_mountpoint t dentry ≡ x
        → Same mp t (get_mountpoint t dentry).1
    by_flags false u x e f q = rw (e, get_mountpoint) (new_mountpoint-Same t dentry mp n)
    by_flags true true x e f q = rw (e, f, get_mountpoint) (Same-self mp t)
    by_flags true false none e f q =
        rw (e, f, q, get_mountpoint) (new_mountpoint-Same t dentry mp n)
    by_flags true false (some (found, t')) e f q =
        rw (e, f, q, get_mountpoint)
          (returned-Same (t.unset_ret dentry) mp found t t'
            (lookup_mountpoint-Same t dentry mp found t' q))

pub lookup_mnt-Same :
    (mp : ℕ) (t t' : Tree) (q : Loc) → Same mp t t' → lookup_mnt t'.vfs q ≡ lookup_mnt t.vfs q
unfolding lookup_mnt
lookup_mnt-Same mp t t' q s = rw (s.0, s.1, lookup_mnt) refl
