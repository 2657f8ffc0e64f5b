-- ===== src/Mnt/Mount/Covered.antt =====
-- That a walk can find every mount, after `do_new_mount_fc` of src/mnt/namespace.c made one.
use linux_vfs.Base.{ℕ, suc, ◌≡◌, ◌≢◌, ap, ◌∙◌, inl, inr, true, false, Bool-cases, arith}
use linux_vfs.Base.Errno.{ok}
use linux_vfs.Vfs.{Vfs, Loc}
use linux_vfs.Mnt.Tree.{d_mountpoint}
use linux_vfs.Mnt.Tree.Mounted.{IsCovered}
use linux_vfs.Mnt.Tree.Kept.{FreshHeap}
use linux_vfs.Mnt.Context.{Mounting, done}
use linux_vfs.Mnt.Mount.{do_new_mount_fc}
use linux_vfs.Mnt.Mount.Created.{init_mount-lookup_mnt}
use linux_vfs.Mnt.Mount.Attached.{do_new_mount_fc-OnTop}

path_has_flag :
    (fuel flags : ℕ) (s t : Mounting)
    → FreshHeap s.tree s.tree.vfs.heap
    → do_new_mount_fc fuel flags s ≡ done (ok tt) t
    → d_mountpoint t.tree.vfs t.path.dentry ≡ true
path_has_flag fuel flags s t fresh e =
    let other : Loc = record { mnt = suc t.path.mnt; dentry = t.path.dentry } in
    let (m, u, c, free, (here, root, empty, same, flag, keeps)) =
      do_new_mount_fc-OnTop fuel flags other s t fresh
        (λ x. omega (arith, ap (λ (l : Loc). l.mnt) x)) e in
    flag

flag_before :
    (v w : Vfs) (d : ℕ)
    → (d_mountpoint v d ≡ true → d_mountpoint w d ≡ true)
    → d_mountpoint w d ≡ false
    → d_mountpoint v d ≡ false
flag_before v w d keeps z = elim (Bool-cases (d_mountpoint v d)) [
  | inl y ↦ absurd (ground (arith, keeps y, z))
  | inr y ↦ y
]

-- When every mount stands on a dentry with DCACHE_MOUNTED, so that walks find it, and a mount is made, every
-- mount does so again. The next allocations are at free addresses, which differ.
pub do_new_mount_fc-IsCovered :
    (fuel flags : ℕ) (s t : Mounting)
    → FreshHeap s.tree s.tree.vfs.heap
    → IsCovered s.tree.vfs
    → do_new_mount_fc fuel flags s ≡ done (ok tt) t
    → IsCovered t.tree.vfs
do_new_mount_fc-IsCovered fuel flags s t fresh covered e = λ q z.
    let ne : q ≢ t.path =
      λ x. let flag = path_has_flag fuel flags s t fresh e in ground (arith, flag, rw x at z) in
    let (m, u, c, free, (here, root, empty, same, flag, keeps)) =
      do_new_mount_fc-OnTop fuel flags q s t fresh ne e in
    same
    ∙ (init_mount-lookup_mnt s m u q free c
        ∙ covered q
            (flag_before s.tree.vfs t.tree.vfs q.dentry (rw c.dentries at keeps q.dentry) z))
