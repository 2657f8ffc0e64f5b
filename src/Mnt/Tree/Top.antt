-- ===== src/Mnt/Tree/Top.antt =====
-- Where `do_lock_mount` of src/mnt/namespace.c ends.
use linux_vfs.Base.{
  ℕ, zero, suc, ◌≡◌, refl, sym, ap, ◌∙◌, Bool, true, false, Option, none, some, List, [], ◌∷◌, ◌==◌,
  arith, inl, inr, Option-cases,
}
use linux_vfs.Base.Bits.{test}
use linux_vfs.Base.Errno.{Result, ok, err}
use linux_vfs.Vfs.{Loc, Ref, inode_lock, inode_unlock, dcache_cant_mount}
use linux_vfs.Dcache.{first}
use linux_vfs.Dcache.Chains.{first-On}
use linux_vfs.Mnt.Tree.Same.{NotNext, get_mountpoint-Same, lookup_mnt-Same}
use linux_vfs.Namei.Mounts.{lookup_mnt}
use linux_vfs.Mnt.Tree.{
  Tree, mp_hash, lookup_mountpoint, new_mountpoint, get_mountpoint, noted, unlock_on_error, on_path,
  step_onto, lock_mount,
}

lookup_mountpoint-dentry :
    (t : Tree) (dentry mp : ℕ) (t' : Tree)
    → lookup_mountpoint t dentry ≡ some (mp, t')
    → (t'.points mp).m_dentry ≡ dentry
unfolding lookup_mountpoint
lookup_mountpoint-dentry t dentry mp t' e = found (first is_here chain) refl e
  where
    is_here : ℕ → Bool
    is_here p = (t.points p).m_dentry == dentry

    chain : List ℕ
    chain = t.point_hash (mp_hash dentry)

    found :
        (x : Option ℕ)
        → first is_here chain ≡ x
        → lookup_mountpoint t dentry ≡ some (mp, t')
        → (t'.points mp).m_dentry ≡ dentry
    found none q e = ground arith
    found (some p) q e = ground (arith, first-On is_here chain p q)

new_mountpoint-dentry :
    (t : Tree) (dentry mp : ℕ) (t' : Tree)
    → new_mountpoint t dentry ≡ (ok mp, t')
    → (t'.points mp).m_dentry ≡ dentry
unfolding new_mountpoint
new_mountpoint-dentry t dentry mp t' e = go t.vfs.heap refl
  where
    go : (heap : List ℕ) → t.vfs.heap ≡ heap → (t'.points mp).m_dentry ≡ dentry
    go [] q = ground arith
    go (a ∷ heap) q = ground arith

get_mountpoint-dentry :
    (t : Tree) (dentry mp : ℕ) (t' : Tree)
    → get_mountpoint t dentry ≡ (ok mp, t')
    → (t'.points mp).m_dentry ≡ dentry
unfolding get_mountpoint
get_mountpoint-dentry t dentry mp t' e = looked_up (lookup_mountpoint t dentry) refl
  where
    looked_up :
        (x : Option (ℕ × Tree)) → lookup_mountpoint t dentry ≡ x → (t'.points mp).m_dentry ≡ dentry
    looked_up none q = ground (arith, new_mountpoint-dentry t dentry mp t')
    looked_up (some (found, t1)) q = elim (Option-cases (t.unset_ret dentry)) [
      | inl z ↦ ground (
        arith,
        z,
        new_mountpoint-dentry t dentry mp t',
        lookup_mountpoint-dentry t dentry found t1 q,
      )
      | inr (bad, z) ↦ ground (arith, z, new_mountpoint-dentry t dentry mp t')
    ]

pub other_address : (heap : List ℕ) → (mp : ℕ) × NotNext heap mp
other_address [] = (0, tt)
other_address (a ∷ heap) = (suc a, λ e. omega (arith, e))

pub get_mountpoint-lookup_mnt :
    (t : Tree) (dentry : ℕ) (q : Loc)
    → lookup_mnt (get_mountpoint t dentry).1.vfs q ≡ lookup_mnt t.vfs q
get_mountpoint-lookup_mnt t dentry q =
    let (mp, n) = other_address t.vfs.heap in
    lookup_mnt-Same mp t (get_mountpoint t dentry).1 q (get_mountpoint-Same t dentry mp n)

abbrev pub place : Loc → Option (Result ℕ × Loc × Tree) → Loc
place p none = p
place p (some (r, q, t)) = q

abbrev pub ends : Result ℕ × Tree → Option (Result ℕ × Loc × Tree) → Result ℕ × Tree
ends x none = x
ends x (some (r, q, t)) = (r, t)

pub still_ok :
    (inode : ℕ) (x : Result ℕ × Tree) (mp : ℕ) (t' : Tree)
    → unlock_on_error inode x ≡ (ok mp, t')
    → x ≡ (ok mp, t')
still_ok inode (ok a, t) mp t' e = e
still_ok inode (err bad, t) mp t' e = absurd (ground arith)

locked :
    (t : Tree) (p q : Loc) (mp : ℕ) (t' : Tree)
    → lookup_mnt t.vfs p ≡ none
    → get_mountpoint t p.dentry ≡ (ok mp, t')
    → p ≡ q
    → (lookup_mnt t'.vfs q ≡ none) × ((t'.points mp).m_dentry ≡ q.dentry)
locked t p q mp t' none_here e same =
    let kept = get_mountpoint-lookup_mnt t p.dentry p in
    let at : (get_mountpoint t p.dentry).1 ≡ t' = ap (λ (z : Result ℕ × Tree). z.1) e in
    (
      rw (sym same, sym at) (kept ∙ none_here),
      rw (sym same) (get_mountpoint-dentry t p.dentry mp t' e),
    )

-- A note in the trace changes no mount.
noted-lookup_mnt :
    (r : Ref) (t : Tree) (p : Loc) → lookup_mnt (noted r t).vfs p ≡ lookup_mnt t.vfs p
unfolding lookup_mnt
noted-lookup_mnt r t p = refl

abbrev inode_at : Tree → Loc → ℕ
inode_at t p = (t.vfs.dentries p.dentry).d_inode

lock_mount-here :
    (fuel : ℕ) (t : Tree) (p q : Loc) (mp : ℕ) (t' : Tree)
    → test (t.vfs.dentries p.dentry).d_flags dcache_cant_mount ≡ false
    → lookup_mnt t.vfs p ≡ none
    → lock_mount (suc fuel) t p ≡ some (ok mp, q, t')
    → (lookup_mnt t'.vfs q ≡ none) × ((t'.points mp).m_dentry ≡ q.dentry)
unfolding lock_mount
lock_mount-here fuel t p q mp t' z l e =
    let inode = inode_at t p in
    let x = get_mountpoint (noted (inode_lock inode) t) p.dentry in
    let y = unlock_on_error inode x in
    let reduced : on_path p y ≡ some (ok mp, q, t') = sym (rw (z, l, lock_mount) refl) ∙ e in
    locked (noted (inode_lock inode) t) p q mp t' (noted-lookup_mnt (inode_lock inode) t p ∙ l)
      (still_ok inode x mp t' (ap (ends y) reduced)) (ap (place p) reduced)

-- When `do_lock_mount` gives a mountpoint, nothing is mounted on the path that it leads to, and the
-- mountpoint is that of the path's dentry.
pub lock_mount-top :
    (fuel : ℕ) (t : Tree) (p q : Loc) (mp : ℕ) (t' : Tree)
    → lock_mount fuel t p ≡ some (ok mp, q, t')
    → (lookup_mnt t'.vfs q ≡ none) × ((t'.points mp).m_dentry ≡ q.dentry)
unfolding lock_mount
lock_mount-top zero t p q mp t' e = absurd (ground arith)
lock_mount-top (suc fuel) t p q mp t' e =
    by_flags (test (t.vfs.dentries p.dentry).d_flags dcache_cant_mount) (lookup_mnt t.vfs p)
      (λ u r h. lock_mount-top fuel u r q mp t' h) refl refl
  where
    by_flags :
        (b : Bool) (x : Option ℕ)
        → ((u : Tree) (r : Loc)
            → lock_mount fuel u r ≡ some (ok mp, q, t')
            → (lookup_mnt t'.vfs q ≡ none) × ((t'.points mp).m_dentry ≡ q.dentry))
        → test (t.vfs.dentries p.dentry).d_flags dcache_cant_mount ≡ b
        → lookup_mnt t.vfs p ≡ x
        → (lookup_mnt t'.vfs q ≡ none) × ((t'.points mp).m_dentry ≡ q.dentry)
    by_flags true x again z l = absurd (ground arith)
    by_flags false none again z l = lock_mount-here fuel t p q mp t' z l e
    by_flags false (some m) again z l =
        let inode = inode_at t p in
        again (step_onto (noted (inode_unlock inode) (noted (inode_lock inode) t)) p m)
          (record { mnt = m; dentry = (t.vfs.mounts m).mnt_root })
          (sym (rw (z, l, lock_mount) refl) ∙ e)
