-- ===== src/Mnt/Tree/Guarded.antt =====
-- The references to mountpoints that keep DCACHE_MOUNTED: `get_mountpoint` of src/mnt/namespace.c.
use linux_vfs.Base.{
  ℕ, ◌≤◌, ◌≡◌, refl, inl, Bool, true, false, Option, none, some, List, [], ◌∷◌, ◌==◌, arith, sym,
  eq→==,
}
use mathlib.Core.Path.{subst}
use linux_vfs.Base.Errno.{Errno, Result, ok, err, is_no_errno}
use linux_vfs.Dcache.{first, d_unlinked}
use linux_vfs.Dcache.Chains.{first-On}
use linux_vfs.Mnt.Tree.{
  Tree, mp_hash, d_mountpoint, returned, lookup_mountpoint, new_mountpoint, get_mountpoint,
}
use linux_vfs.Mnt.Tree.Mounted.{d_set_mounted-d_mountpoint}

-- The mountpoint of a dentry, in its chain.
abbrev pub mountpoint_of : Tree → ℕ → Option ℕ
mountpoint_of t d = first (λ mp. (t.points mp).m_dentry == d) (t.point_hash (mp_hash d))

-- The dentry has DCACHE_MOUNTED and a mountpoint to which there is a reference.
abbrev pub Held : Tree → (d p : ℕ) → Type 0
Held t d p =
    (d_mountpoint t.vfs d ≡ true) × (mountpoint_of t d ≡ some p) × (1 ≤ (t.points p).m_count)

-- What `get_mountpoint` leaves unset holds 0 or an error number.
abbrev pub IsTame : Tree → Type 0
IsTame t = (d : ℕ) (e : Errno) → t.unset_ret d ≡ some e → is_no_errno e ≡ false

-- The dentry of a mountpoint that was returned has DCACHE_MOUNTED, and a second reference if there was
-- one before.
abbrev pub Guards : Tree → Result ℕ × Tree → Type 0
Guards t (err e, t') = IsTame t → is_no_errno e ≡ false
Guards t (ok mp, t') =
    (d_mountpoint t'.vfs (t'.points mp).m_dentry ≡ true)
    × (1 ≤ (t'.points mp).m_count)
    × ((d p : ℕ) → Held t d p → (t'.points mp).m_dentry ≡ d → 2 ≤ (t'.points mp).m_count)

new_mountpoint-Guards :
    (t : Tree) (dentry : ℕ) → ((p : ℕ) → Held t dentry p → ⊥) → Guards t (new_mountpoint t dentry)
unfolding new_mountpoint
new_mountpoint-Guards t dentry bare = allocated t.vfs.heap refl
  where
    allocated : (heap : List ℕ) → t.vfs.heap ≡ heap → Guards t (new_mountpoint t dentry)
    allocated [] q = rw (q, new_mountpoint) (λ tame. refl)
    allocated (a ∷ heap) q =
        rw (q, new_mountpoint)
          (
            rw (eq→== a a refl) (d_set_mounted-d_mountpoint t.vfs dentry dentry (inl refl)),
            rw (eq→== a a refl) (omega arith),
            λ d p h e. absurd (bare p (subst (λ x. Held t x p) (sym (rw (eq→== a a refl) at e)) h)),
          )

returned-Guards :
    (o : Option Errno) (mp : ℕ) (t t' : Tree)
    → ((e : Errno) → o ≡ some e → IsTame t → is_no_errno e ≡ false)
    → Guards t (ok mp, t')
    → Guards t (returned o mp t')
returned-Guards none mp t t' tame h = h
returned-Guards (some e) mp t t' tame h = tame e refl

found-Guards :
    (t : Tree) (dentry found : ℕ) (t' : Tree)
    → d_mountpoint t.vfs dentry ≡ true
    → lookup_mountpoint t dentry ≡ some (found, t')
    → Guards t (ok found, t')
unfolding lookup_mountpoint
found-Guards t dentry found t' flag e = looked_up (mountpoint_of t dentry) refl
  where
    looked_up : (x : Option ℕ) → mountpoint_of t dentry ≡ x → Guards t (ok found, t')
    looked_up none q = absurd (ground arith)
    looked_up (some p) q =
        let at =
          first-On (λ mp. (t.points mp).m_dentry == dentry) (t.point_hash (mp_hash dentry)) p q in
        let same : p ≡ found = ground arith in
        (ground (arith, at, flag), ground arith, λ d p' h k. ground (arith, at, h))

pub get_mountpoint-Guards : (t : Tree) (dentry : ℕ) → Guards t (get_mountpoint t dentry)
unfolding get_mountpoint lookup_mountpoint
get_mountpoint-Guards t dentry =
    by_flags (d_mountpoint t.vfs dentry) (d_unlinked t.vfs dentry) (lookup_mountpoint t dentry) refl
      refl refl
  where
    by_flags :
        (mounted unlinked : Bool) (x : Option (ℕ × Tree))
        → d_mountpoint t.vfs dentry ≡ mounted
        → d_unlinked t.vfs dentry ≡ unlinked
        → lookup_mountpoint t dentry ≡ x
        → Guards t (get_mountpoint t dentry)
    by_flags false u x e f q =
        rw (e, get_mountpoint) (new_mountpoint-Guards t dentry (λ p h. ground (arith, h)))
    by_flags true true x e f q = rw (e, f, get_mountpoint) (λ tame. refl)
    by_flags true false none e f q =
        rw (e, f, q, get_mountpoint) (new_mountpoint-Guards t dentry (λ p h. ground (arith, h)))
    by_flags true false (some (found, t')) e f q =
        rw (e, f, q, get_mountpoint)
          (returned-Guards (t.unset_ret dentry) found t t' (λ x k tame. tame dentry x k)
            (found-Guards t dentry found t' e q))
