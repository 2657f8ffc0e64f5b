-- ===== src/Mnt/Mount/Attached.antt =====
-- What a mount that succeeds does to the mounts that a walk finds: `do_new_mount_fc` of
-- src/mnt/namespace.c.
use linux_vfs.Base.{
  ℕ, ◌≡◌, ◌≢◌, refl, sym, ap, ◌∙◌, inl, inr, none, some, List, ◌∷◌, ◌==◌, Bool-cases, arith, ◌≤◌,
  true,
}
use mathlib.Core.Path.{subst}
use linux_vfs.Base.Errno.{ok}
use linux_vfs.Vfs.{Mount, Loc}
use linux_vfs.Dcache.Chains.{On}
use linux_vfs.Namei.Mounts.{lookup_mnt}
use linux_vfs.Mnt.Tree.{Tree, d_mountpoint, put_mountpoint, graft_tree}
use linux_vfs.Mnt.Tree.Attached.{graft_tree-count, graft_tree-lookup_mnt, graft_tree-mnt_root}
use linux_vfs.Mnt.Tree.Same.{NotNext}
use linux_vfs.Mnt.Tree.Top.{lock_mount-top}
use linux_vfs.Mnt.Tree.Kept.{
  IsFree, KeepsFlags, FreshHeap, KeepsMounts, lock_mount-KeepsMounts, put_mountpoint-lookup_mnt,
}
use linux_vfs.Mnt.Tree.Mounted.{
  IsCovered, still_found, found, none_found, finds, put_mountpoint-d_mountpoint,
}
use linux_vfs.Mnt.Context.{Mounting, done, and_then, on_error}
use linux_vfs.Mnt.Context.Runs.{and_then-done}
use linux_vfs.Mnt.Super.{vfs_create_mount}
use linux_vfs.Mnt.Mount.{
  lock_path, unlock_mount, put_mount, add_locked, attach_new, do_new_mount_fc,
}
use linux_vfs.Mnt.Mount.Created.{
  Created, vfs_create_mount-Created, added, locked, init_mount-lookup_mnt, FreshHeap-Created,
}

pub unlock_mount-lookup_mnt :
    (mp : ℕ) (s : Mounting) (q : Loc)
    → (lookup_mnt (unlock_mount mp s).tree.vfs q ≡ lookup_mnt s.tree.vfs q)
      × ((unlock_mount mp s).tree.vfs.mounts ≡ s.tree.vfs.mounts)
unfolding unlock_mount lookup_mnt
unlock_mount-lookup_mnt mp s q = put_mountpoint-lookup_mnt s.tree mp q

pub same_mounts-lookup_mnt :
    (t u : Tree) (q : Loc)
    → u.vfs.mounts ≡ t.vfs.mounts
    → u.vfs.mount_hash ≡ t.vfs.mount_hash
    → lookup_mnt u.vfs q ≡ lookup_mnt t.vfs q
unfolding lookup_mnt
same_mounts-lookup_mnt t u q same table = rw (same, table, lookup_mnt) refl

-- The mount `m` stands on a path on which nothing stood, on a dentry with DCACHE_MOUNTED, which no dentry
-- has lost, and all else is as before.
abbrev pub OnTop : (m : ℕ) (q : Loc) (s t : Mounting) → Type 0
OnTop m q s t =
    (lookup_mnt t.tree.vfs t.path ≡ some m)
    × ((t.tree.vfs.mounts m).mnt_root ≡ (s.tree.vfs.mounts m).mnt_root)
    × (lookup_mnt s.tree.vfs t.path ≡ none)
    × (lookup_mnt t.tree.vfs q ≡ lookup_mnt s.tree.vfs q)
    × (d_mountpoint t.tree.vfs t.path.dentry ≡ true)
    × KeepsFlags s.tree t.tree

unlock_mount-OnTop :
    (m mp : ℕ) (q : Loc) (s t : Mounting)
    → 2 ≤ (t.tree.points mp).m_count
    → OnTop m q s t
    → OnTop m q s (unlock_mount mp t)
unfolding unlock_mount
unlock_mount-OnTop m mp q s t two (here, root, empty, other, flag, flags) =
    let keeps : KeepsFlags t.tree (put_mountpoint t.tree mp) =
      λ d h. put_mountpoint-d_mountpoint t.tree mp d h (λ e. two) in
    let at = unlock_mount-lookup_mnt mp t t.path in
    let elsewhere = unlock_mount-lookup_mnt mp t q in
    (
      at.0 ∙ here,
      ap (λ (h : ℕ → Mount). (h m).mnt_root) at.1 ∙ root,
      empty,
      elsewhere.0 ∙ other,
      keeps t.path.dentry flag,
      λ d h. keeps d (flags d h),
    )

grafted-OnTop :
    (m mp : ℕ) (q : Loc) (s u v : Mounting)
    → u.tree.vfs.mounts ≡ s.tree.vfs.mounts
    → u.tree.vfs.mount_hash ≡ s.tree.vfs.mount_hash
    → NotNext u.tree.vfs.heap mp
    → ((b : ℕ) → On m (s.tree.vfs.mount_hash b) → ⊥)
    → lookup_mnt u.tree.vfs u.path ≡ none
    → (u.tree.points mp).m_dentry ≡ u.path.dentry
    → graft_tree u.tree m u.path.mnt mp ≡ (ok tt, v.tree)
    → v.path ≡ u.path
    → q ≢ v.path
    → KeepsFlags s.tree u.tree
    → d_mountpoint u.tree.vfs u.path.dentry ≡ true
    → OnTop m q s v
grafted-OnTop m mp q s u v same table next free empty at g p ne flags flag =
    let here : record { mnt = u.path.mnt; dentry = (u.tree.points mp).m_dentry } ≡ v.path =
      ap (λ (d : ℕ). record { mnt = u.path.mnt; dentry = d }) at ∙ sym p in
    let (there, elsewhere) =
      graft_tree-lookup_mnt u.tree m u.path.mnt mp q v.tree next (rw table free) (rw here ne) g in
    let (more, keeps) = graft_tree-count u.tree m u.path.mnt mp v.tree next g in
    let root = graft_tree-mnt_root u.tree m u.path.mnt mp v.tree next g in
    (
      subst (λ (r : Loc). lookup_mnt v.tree.vfs r ≡ some m) here there,
      root ∙ ap (λ (h : ℕ → Mount). (h m).mnt_root) same,
      sym (same_mounts-lookup_mnt s.tree u.tree v.path same table)
          ∙ (ap (lookup_mnt u.tree.vfs) p ∙ empty),
      elsewhere ∙ same_mounts-lookup_mnt s.tree u.tree q same table,
      rw p (keeps u.path.dentry flag),
      λ d h. keeps d (flags d h),
    )

attach_new-OnTop :
    (fuel flags m : ℕ) (q : Loc) (s t : Mounting)
    → FreshHeap s.tree s.tree.vfs.heap
    → ((b : ℕ) → On m (s.tree.vfs.mount_hash b) → ⊥)
    → attach_new fuel flags m s ≡ done (ok tt) t
    → q ≢ t.path
    → OnTop m q s t
unfolding attach_new unlock_mount
attach_new-OnTop fuel flags m q s t fresh free e ne =
    let (mp, u, l, e1) =
      and_then-done (on_error (put_mount m) (lock_path fuel s)) (add_locked m flags) tt t e in
    let lock = locked fuel s m mp u l in
    let (empty, at) = lock_mount-top fuel s.tree s.path u.path mp u.tree lock in
    let (same, table, next, keeps, (flag, one, _)) : KeepsMounts s.tree
        (some (ok mp, u.path, u.tree)) =
      subst (KeepsMounts s.tree) lock (lock_mount-KeepsMounts fuel s.tree s.path fresh) in
    let (v, g, p, e2) = added u m flags mp t e1 in
    subst (OnTop m q s) e2 (
      unlock_mount-OnTop m mp q s v
        (omega (arith, one, (graft_tree-count u.tree m u.path.mnt mp v.tree next g).0))
        (grafted-OnTop m mp q s u v same table next free empty at g p
          (λ x. ne (x ∙ ap (λ (w : Mounting). w.path) e2)) keeps (rw at at flag)))

-- The mount that was made, in the state before it was attached.
pub do_new_mount_fc-OnTop :
    (fuel flags : ℕ) (q : Loc) (s t : Mounting)
    → FreshHeap s.tree s.tree.vfs.heap
    → q ≢ t.path
    → do_new_mount_fc fuel flags s ≡ done (ok tt) t
    → (m : ℕ) × (u : Mounting) × Created s m u × IsFree s.tree m × OnTop m q u t
unfolding do_new_mount_fc
do_new_mount_fc-OnTop fuel flags q s t fresh ne e = elim (Bool-cases (s.fc.root == 0)) [
  | inl z ↦ absurd (ground arith)
  | inr z ↦
      let reduced : and_then (vfs_create_mount s) (attach_new fuel flags) ≡ done (ok tt) t =
        sym (rw z refl) ∙ e in
      let (m, u, made, attached) =
        and_then-done (vfs_create_mount s) (attach_new fuel flags) tt t reduced in
      let c = vfs_create_mount-Created s m u z made in
      let (free, apart, later) = subst (FreshHeap s.tree) c.taken fresh in
      let fresh' = rw (sym c.left) at (FreshHeap-Created s u m c.rest c.table c.points later) in
      (
        m,
        u,
        c,
        free,
        attach_new-OnTop fuel flags m q u t fresh' (λ b. rw c.table (free b).0) attached ne,
      )
]

-- When a mount was made: it is the next object of the heap, its root is that of the context, and a walk,
-- which looks for a mount only on a dentry with DCACHE_MOUNTED, finds it on the path to which the mount
-- point led, on which it found nothing before; at every other place a walk finds what it found before. Every
-- mount stood on a dentry with DCACHE_MOUNTED, and the next allocations are at free addresses, which differ.
pub do_new_mount_fc-lookup_mnt :
    (fuel flags : ℕ) (q : Loc) (s t : Mounting)
    → FreshHeap s.tree s.tree.vfs.heap
    → IsCovered s.tree.vfs
    → q ≢ t.path
    → do_new_mount_fc fuel flags s ≡ done (ok tt) t
    → (m : ℕ) × (heap : List ℕ) × (s.tree.vfs.heap ≡ m ∷ heap)
      × (finds t.tree.vfs t.path ≡ some m)
      × ((t.tree.vfs.mounts m).mnt_root ≡ s.fc.root)
      × (finds s.tree.vfs t.path ≡ none)
      × (finds t.tree.vfs q ≡ finds s.tree.vfs q)
do_new_mount_fc-lookup_mnt fuel flags q s t fresh covered ne e =
    let (m, u, c, free, (here, root, empty, other, flag, keeps)) =
      do_new_mount_fc-OnTop fuel flags q s t fresh ne e in
    (
      m,
      c.rest,
      c.taken,
      found t.tree.vfs t.path m flag here,
      root ∙ c.root,
      none_found s.tree.vfs t.path (sym (init_mount-lookup_mnt s m u t.path free c) ∙ empty),
      still_found s.tree.vfs t.tree.vfs q covered (rw c.dentries at keeps q.dentry)
          (other ∙ init_mount-lookup_mnt s m u q free c),
    )
