-- ===== src/Mnt/Tree/Kept.antt =====
-- What `do_lock_mount`, `graft_tree` and `__put_mountpoint` of src/mnt/namespace.c leave as it is.
use linux_vfs.Base.{
  ℕ, zero, suc, ◌≡◌, refl, inl, Bool, true, false, Option, none, some, List, [], ◌∷◌, ◌==◌, arith,
}
use mathlib.Core.Path.{subst}
use linux_vfs.Base.Bits.{test}
use linux_vfs.Base.Errno.{Errno, Result, ok, err}
use linux_vfs.Vfs.{Loc, inode_lock, inode_unlock, dcache_mounted, dcache_cant_mount}
use linux_vfs.Dcache.{first, d_unlinked, d_clear_mounted}
use linux_vfs.Dcache.Chains.{On, first-On}
use linux_vfs.Namei.Mounts.{lookup_mnt}
use linux_vfs.Mnt.Tree.{
  Tree, d_mountpoint, returned, mp_hash, lookup_mountpoint, new_mountpoint, get_mountpoint, noted,
  unlock_on_error, on_path, step_onto, lock_mount, put_mountpoint,
}
use linux_vfs.Mnt.Tree.Same.{NotNext, get_mountpoint-Same}
use linux_vfs.Mnt.Tree.Guarded.{Guards, get_mountpoint-Guards}
use linux_vfs.Mnt.Tree.Top.{other_address}

-- An address that is neither a mount's nor a mountpoint's.
abbrev pub IsFree : Tree → ℕ → Type 0
IsFree t a = (b : ℕ) → (On a (t.vfs.mount_hash b) → ⊥) × (On a (t.point_hash b) → ⊥)

-- The next allocations are at free addresses, which differ.
abbrev pub FreshHeap : Tree → List ℕ → Type 0
FreshHeap t [] = Unit
FreshHeap t (a ∷ heap) = IsFree t a × (On a heap → ⊥) × FreshHeap t heap

NotNext-On : (heap : List ℕ) (a : ℕ) → (On a heap → ⊥) → NotNext heap a
NotNext-On [] a h = tt
NotNext-On (b ∷ heap) a h = λ e. h (inl e)

NotNext-FreshHeap :
    (t : Tree) (heap : List ℕ) (b mp : ℕ)
    → FreshHeap t heap
    → On mp (t.point_hash b)
    → NotNext heap mp
NotNext-FreshHeap t [] b mp h o = tt
NotNext-FreshHeap t (a ∷ heap) b mp h o = λ e. (h.0 b).1 (subst (λ x. On x (t.point_hash b)) e o)

-- The next allocation is not at the address of a mountpoint that was returned.
abbrev pub GivesNext : Result ℕ × Tree → Type 0
GivesNext (ok mp, t) = NotNext t.vfs.heap mp
GivesNext (err e, t) = Unit

new_mountpoint-GivesNext :
    (t : Tree) (dentry : ℕ) → FreshHeap t t.vfs.heap → GivesNext (new_mountpoint t dentry)
unfolding new_mountpoint
new_mountpoint-GivesNext t dentry h = allocated t.vfs.heap refl h
  where
    allocated :
        (heap : List ℕ) → t.vfs.heap ≡ heap → FreshHeap t heap → GivesNext (new_mountpoint t dentry)
    allocated [] q f = rw (q, new_mountpoint) tt
    allocated (a ∷ heap) q f = rw (q, new_mountpoint) (NotNext-On heap a f.1)

found_mountpoint :
    (t : Tree) (dentry mp : ℕ) (t' : Tree)
    → FreshHeap t t.vfs.heap
    → lookup_mountpoint t dentry ≡ some (mp, t')
    → On mp (t.point_hash (mp_hash dentry)) × (t'.vfs.heap ≡ t.vfs.heap)
unfolding lookup_mountpoint
found_mountpoint t dentry mp t' h e = found (first is_here chain) refl
  where
    is_here : ℕ → Bool
    is_here p = (t.points p).m_dentry == dentry

    chain : List ℕ
    chain = t.point_hash (mp_hash dentry)

    found :
        (x : Option ℕ)
        → first is_here chain ≡ x
        → On mp (t.point_hash (mp_hash dentry)) × (t'.vfs.heap ≡ t.vfs.heap)
    found none q = absurd (ground arith)
    found (some p) q = (
      (let same : p ≡ mp = ground arith in
          subst (λ x. On x chain) same (first-On is_here chain p q).1),
      ground arith,
    )

returned-GivesNext :
    (o : Option Errno) (mp : ℕ) (t : Tree) → NotNext t.vfs.heap mp → GivesNext (returned o mp t)
returned-GivesNext none mp t h = h
returned-GivesNext (some e) mp t h = tt

pub get_mountpoint-GivesNext :
    (t : Tree) (dentry : ℕ) → FreshHeap t t.vfs.heap → GivesNext (get_mountpoint t dentry)
unfolding get_mountpoint
get_mountpoint-GivesNext t dentry h =
    by_flags (test (t.vfs.dentries dentry).d_flags dcache_mounted) (d_unlinked t.vfs dentry)
      (lookup_mountpoint t dentry) refl refl refl
  where
    by_flags :
        (mounted unlinked : Bool) (x : Option (ℕ × Tree))
        → test (t.vfs.dentries dentry).d_flags dcache_mounted ≡ mounted
        → d_unlinked t.vfs dentry ≡ unlinked
        → lookup_mountpoint t dentry ≡ x
        → GivesNext (get_mountpoint t dentry)
    by_flags false u x e f q = rw (e, get_mountpoint) (new_mountpoint-GivesNext t dentry h)
    by_flags true true x e f q = rw (e, f, get_mountpoint) tt
    by_flags true false none e f q =
        rw (e, f, q, get_mountpoint) (new_mountpoint-GivesNext t dentry h)
    by_flags true false (some (mp, t')) e f q =
        let (on, same) = found_mountpoint t dentry mp t' h q in
        rw (e, f, q, get_mountpoint)
          (returned-GivesNext (t.unset_ret dentry) mp t'
            (rw same (NotNext-FreshHeap t t.vfs.heap (mp_hash dentry) mp h on)))

-- No dentry has lost DCACHE_MOUNTED.
abbrev pub KeepsFlags : Tree → Tree → Type 0
KeepsFlags t t' = (d : ℕ) → d_mountpoint t.vfs d ≡ true → d_mountpoint t'.vfs d ≡ true

-- The mounts and their table are as before, no dentry has lost DCACHE_MOUNTED, that of the mountpoint has
-- it, and the next allocation is not at the mountpoint.
abbrev pub KeepsMounts : Tree → Option (Result ℕ × Loc × Tree) → Type 0
KeepsMounts t none = Unit
KeepsMounts t (some (r, p, t')) =
    (t'.vfs.mounts ≡ t.vfs.mounts)
    × (t'.vfs.mount_hash ≡ t.vfs.mount_hash)
    × GivesNext (r, t')
    × KeepsFlags t t'
    × Guards t (r, t')

get_mountpoint-mounts :
    (t : Tree) (dentry : ℕ)
    → ((get_mountpoint t dentry).1.vfs.mounts ≡ t.vfs.mounts)
      × ((get_mountpoint t dentry).1.vfs.mount_hash ≡ t.vfs.mount_hash)
      × KeepsFlags t (get_mountpoint t dentry).1
get_mountpoint-mounts t dentry =
    let (mp, n) = other_address t.vfs.heap in
    let same = get_mountpoint-Same t dentry mp n in (same.0, same.1, same.4)

unlocked_keeps :
    (t : Tree) (inode : ℕ) (p : Loc) (x : Result ℕ × Tree)
    → (x.1.vfs.mounts ≡ t.vfs.mounts)
    → (x.1.vfs.mount_hash ≡ t.vfs.mount_hash)
    → GivesNext x
    → KeepsFlags t x.1
    → Guards t x
    → KeepsMounts t (on_path p (unlock_on_error inode x))
unlocked_keeps t inode p (ok mp, t') same table next flags guards =
    (same, table, next, flags, guards)
unlocked_keeps t inode p (err e, t') same table next flags guards = (same, table, tt, flags, guards)

pub lock_mount-KeepsMounts :
    (fuel : ℕ) (t : Tree) (p : Loc) → FreshHeap t t.vfs.heap → KeepsMounts t (lock_mount fuel t p)
unfolding lock_mount
lock_mount-KeepsMounts zero t p h = tt
lock_mount-KeepsMounts (suc fuel) t p h =
    by_flags (test (t.vfs.dentries p.dentry).d_flags dcache_cant_mount) (lookup_mnt t.vfs p)
      (λ u r f. lock_mount-KeepsMounts fuel u r f) refl refl
  where
    inode : ℕ
    inode = (t.vfs.dentries p.dentry).d_inode

    by_flags :
        (b : Bool) (x : Option ℕ)
        → ((u : Tree) (r : Loc) → FreshHeap u u.vfs.heap → KeepsMounts u (lock_mount fuel u r))
        → test (t.vfs.dentries p.dentry).d_flags dcache_cant_mount ≡ b
        → lookup_mnt t.vfs p ≡ x
        → KeepsMounts t (lock_mount (suc fuel) t p)
    by_flags true x again z l = rw z (refl, refl, tt, λ d h. h, λ tame. refl)
    by_flags false none again z l =
        let u = noted (inode_lock inode) t in
        let (same, table, flags) = get_mountpoint-mounts u p.dentry in
        rw (z, l)
          (unlocked_keeps t inode p (get_mountpoint u p.dentry) same table
            (get_mountpoint-GivesNext u p.dentry h) flags (get_mountpoint-Guards u p.dentry))
    by_flags false (some m) again z l =
        rw (z, l)
          (again (step_onto (noted (inode_unlock inode) (noted (inode_lock inode) t)) p m)
            (record { mnt = m; dentry = (t.vfs.mounts m).mnt_root }) h)

-- Putting a mountpoint changes no mount.
put_mountpoint-mounts :
    (t : Tree) (mp : ℕ)
    → ((put_mountpoint t mp).vfs.mounts ≡ t.vfs.mounts)
      × ((put_mountpoint t mp).vfs.mount_hash ≡ t.vfs.mount_hash)
unfolding put_mountpoint d_clear_mounted
put_mountpoint-mounts t mp = ground arith

pub put_mountpoint-lookup_mnt :
    (t : Tree) (mp : ℕ) (q : Loc)
    → (lookup_mnt (put_mountpoint t mp).vfs q ≡ lookup_mnt t.vfs q)
      × ((put_mountpoint t mp).vfs.mounts ≡ t.vfs.mounts)
unfolding lookup_mnt
put_mountpoint-lookup_mnt t mp q =
    let (same, table) = put_mountpoint-mounts t mp in (rw (same, table, lookup_mnt) refl, same)
