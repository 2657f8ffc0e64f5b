-- ===== src/Mnt/Tree/Attached.antt =====
-- The lookup of mounts after `graft_tree` of src/mnt/namespace.c.
use linux_vfs.Base.{
  ℕ, ◌+◌, ◌≡◌, ◌≢◌, refl, sym, ap, ◌∙◌, Bool, true, false, ◌&&◌, some, List, ◌∷◌, ◌==◌, arith, ◌≤◌,
}
use mathlib.Core.Path.{subst}
use linux_vfs.Base.Bits.{test}
use linux_vfs.Base.Errno.{Result, ok, err}
use linux_vfs.Vfs.{Mount, Loc, update}
use linux_vfs.Dcache.{first}
use linux_vfs.Dcache.Chains.{On, first_congr}
use linux_vfs.Namei.Mounts.{m_hash, lookup_mnt}
use linux_vfs.Mnt.Tree.Same.{NotNext, get_mountpoint-Same, lookup_mnt-Same}
use linux_vfs.Mnt.Tree.{
  Tree, d_mountpoint, get_mountpoint, mnt_set_mountpoint, commit_tree, attach_on,
  attach_recursive_mnt, graft_tree,
}

committed_here :
    (t : Tree) (dest mp source : ℕ)
    → lookup_mnt
        (commit_tree (mnt_set_mountpoint t dest mp source) source).vfs
        (record { mnt = dest; dentry = (t.points mp).m_dentry })
      ≡ some source
unfolding lookup_mnt commit_tree mnt_set_mountpoint first
committed_here t dest mp source = ground arith

-- A head that fails the test changes no search in the table.
first-update :
    (test : ℕ → Bool) (x : ℕ) (table : ℕ → List ℕ) (b k : ℕ)
    → test x ≡ false
    → first test (update table b (x ∷ table b) k) ≡ first test (table k)
unfolding first
first-update test x table b k e = ground arith

-- Whether a mount stands at a place, in a table of mounts.
abbrev stands_at : (ℕ → Mount) → Loc → ℕ → Bool
stands_at mounts q m = (mounts m).mnt_parent == q.mnt && (mounts m).mnt_mountpoint == q.dentry

committed_elsewhere :
    (t : Tree) (dest mp source : ℕ) (q : Loc)
    → q ≢ record { mnt = dest; dentry = (t.points mp).m_dentry }
    → ((b : ℕ) → On source (t.vfs.mount_hash b) → ⊥)
    → lookup_mnt (commit_tree (mnt_set_mountpoint t dest mp source) source).vfs q
      ≡ lookup_mnt t.vfs q
unfolding lookup_mnt commit_tree mnt_set_mountpoint
committed_elsewhere t dest mp source q ne free =
    first-update new source t.vfs.mount_hash
      (m_hash (mounts source).mnt_parent (mounts source).mnt_mountpoint) (m_hash q.mnt q.dentry)
      miss
    ∙ same
  where
    mounts : ℕ → Mount
    mounts = update t.vfs.mounts source (record (t.vfs.mounts source) {
      mnt_mountpoint = (t.points mp).m_dentry;
      mnt_parent = dest;
      mnt_mp = mp;
    })

    new : ℕ → Bool
    new = stands_at mounts q

    miss : new source ≡ false
    miss = ground arith

    same :
        first new (t.vfs.mount_hash (m_hash q.mnt q.dentry))
        ≡ first (stands_at t.vfs.mounts q) (t.vfs.mount_hash (m_hash q.mnt q.dentry))
    same =
        first_congr new (stands_at t.vfs.mounts q) (t.vfs.mount_hash (m_hash q.mnt q.dentry)) λ d o.
          let apart : d ≢ source = λ e.
            free (m_hash q.mnt q.dentry)
              (subst (λ x. On x (t.vfs.mount_hash (m_hash q.mnt q.dentry))) e o) in
          ground (arith, apart)

attach_on-ok :
    (x : Result ℕ × Tree) (mnt p mp : ℕ) (t' : Tree)
    → attach_on x mnt p mp ≡ (ok tt, t')
    → commit_tree (mnt_set_mountpoint x.1 p mp mnt) mnt ≡ t'
attach_on-ok (err bad, t1) mnt p mp t' e = absurd (ground arith)
attach_on-ok (ok smp, t1) mnt p mp t' e = ap (λ (z : Result (Unit {0}) × Tree). z.1) e

graft_tree-ok :
    (t : Tree) (mnt p mp : ℕ) (t' : Tree)
    → graft_tree t mnt p mp ≡ (ok tt, t')
    → attach_recursive_mnt t mnt p mp ≡ (ok tt, t')
unfolding graft_tree
graft_tree-ok t mnt p mp t' e = ground arith

-- Once a mount was grafted onto a mountpoint of a parent, a walk that comes to that place finds it;
-- and if it was attached nowhere before, what a walk finds at any other place is as before. The next
-- allocation is not at the address of the mountpoint.
pub graft_tree-lookup_mnt :
    (t : Tree) (mnt p mp : ℕ) (q : Loc) (t' : Tree)
    → NotNext t.vfs.heap mp
    → ((b : ℕ) → On mnt (t.vfs.mount_hash b) → ⊥)
    → q ≢ record { mnt = p; dentry = (t.points mp).m_dentry }
    → graft_tree t mnt p mp ≡ (ok tt, t')
    → (lookup_mnt t'.vfs (record { mnt = p; dentry = (t.points mp).m_dentry }) ≡ some mnt)
      × (lookup_mnt t'.vfs q ≡ lookup_mnt t.vfs q)
unfolding attach_recursive_mnt
graft_tree-lookup_mnt t mnt p mp q t' n free ne e =
    let x = get_mountpoint t (t.vfs.mounts mnt).mnt_root in
    let shape = attach_on-ok x mnt p mp t' (graft_tree-ok t mnt p mp t' e) in
    let s = get_mountpoint-Same t (t.vfs.mounts mnt).mnt_root mp n in
    let there : lookup_mnt t'.vfs (record { mnt = p; dentry = (t.points mp).m_dentry }) ≡ some mnt =
      rw (sym shape, sym s.2) (committed_here x.1 p mp mnt) in
    let elsewhere = committed_elsewhere x.1 p mp mnt q (rw s.2 ne) (rw s.1 free) in
    (there, rw (sym shape) (elsewhere ∙ lookup_mnt-Same mp t x.1 q s))

committed-mnt_root :
    (t : Tree) (dest mp source : ℕ)
    → ((commit_tree (mnt_set_mountpoint t dest mp source) source).vfs.mounts source).mnt_root
      ≡ (t.vfs.mounts source).mnt_root
unfolding commit_tree mnt_set_mountpoint
committed-mnt_root t dest mp source = ground arith

pub graft_tree-mnt_root :
    (t : Tree) (mnt p mp : ℕ) (t' : Tree)
    → NotNext t.vfs.heap mp
    → graft_tree t mnt p mp ≡ (ok tt, t')
    → (t'.vfs.mounts mnt).mnt_root ≡ (t.vfs.mounts mnt).mnt_root
unfolding attach_recursive_mnt
graft_tree-mnt_root t mnt p mp t' n e =
    let x = get_mountpoint t (t.vfs.mounts mnt).mnt_root in
    let shape = attach_on-ok x mnt p mp t' (graft_tree-ok t mnt p mp t' e) in
    let s = get_mountpoint-Same t (t.vfs.mounts mnt).mnt_root mp n in
    let same = ap (λ (h : ℕ → Mount). (h mnt).mnt_root) s.0 in
    rw (sym shape) (committed-mnt_root x.1 p mp mnt ∙ same)

committed-count :
    (t : Tree) (dest mp source : ℕ)
    → let t' = commit_tree (mnt_set_mountpoint t dest mp source) source in
      ((t'.points mp).m_count ≡ (t.points mp).m_count + 1) × (t'.vfs.dentries ≡ t.vfs.dentries)
unfolding commit_tree mnt_set_mountpoint
committed-count t dest mp source = (ground arith, refl)

-- The mountpoint on which a mount was grafted has one more reference, at least, and no dentry has lost
-- DCACHE_MOUNTED.
pub graft_tree-count :
    (t : Tree) (mnt p mp : ℕ) (t' : Tree)
    → NotNext t.vfs.heap mp
    → graft_tree t mnt p mp ≡ (ok tt, t')
    → ((t.points mp).m_count + 1 ≤ (t'.points mp).m_count)
      × ((d : ℕ) → d_mountpoint t.vfs d ≡ true → d_mountpoint t'.vfs d ≡ true)
unfolding attach_recursive_mnt
graft_tree-count t mnt p mp t' n e =
    let x = get_mountpoint t (t.vfs.mounts mnt).mnt_root in
    let shape = attach_on-ok x mnt p mp t' (graft_tree-ok t mnt p mp t' e) in
    let s = get_mountpoint-Same t (t.vfs.mounts mnt).mnt_root mp n in
    let (count, same) = committed-count x.1 p mp mnt in
    rw (sym shape) (omega (arith, count, s.3), λ d h. rw same (s.4 d h))
