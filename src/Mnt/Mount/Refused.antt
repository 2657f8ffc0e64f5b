-- ===== src/Mnt/Mount/Refused.antt =====
-- What a mount that fails leaves as it was: `do_new_mount_fc` of src/mnt/namespace.c.
use linux_vfs.Base.{
  ℕ, ◌≡◌, refl, sym, ◌∙◌, inl, inr, Bool, true, false, not, ◌&&◌, Option, none, some, List, [], ◌∷◌,
  ◌==◌, if◌then◌else◌, Bool-cases, Option-cases, arith,
}
use mathlib.Core.Path.{subst}
use linux_vfs.Base.Bits.{test}
use linux_vfs.Base.Errno.{Result, ok, err, is_no_errno}
use linux_vfs.Vfs.{Loc, d_is_dir}
use linux_vfs.Namei.Mounts.{lookup_mnt}
use linux_vfs.Mnt.Tree.{
  Tree, d_mountpoint, get_mountpoint, attach_on, attach_recursive_mnt, graft_tree, lock_mount,
  sb_nouser,
}
use linux_vfs.Mnt.Tree.Mounted.{found, none_found, finds, put_mountpoint-d_mountpoint}
use linux_vfs.Mnt.Tree.Guarded.{Held}
use linux_vfs.Mnt.Tree.Same.{NotNext, Same, Same-self, get_mountpoint-Same, lookup_mnt-Same}
use linux_vfs.Mnt.Tree.Kept.{IsFree, FreshHeap, KeepsMounts, lock_mount-KeepsMounts}
use linux_vfs.Mnt.Context.{
  Mounting, Run, faults, and_then, ◌>>◌, return, modify, kzalloc, finally, on_error,
}
use linux_vfs.Mnt.Context.Errors.{
  OnError, finally-OnError, on_error-OnError, and_then-OnError, OnError-weaken,
}
use linux_vfs.Mnt.Super.{init_mount, vfs_create_mount}
use linux_vfs.Mnt.Mount.{
  locked_at, lock_path, unlock_mount, graft_result, do_add_mount, put_mount, add_locked, attach_new,
  do_new_mount_fc,
}
use linux_vfs.Mnt.Mount.Created.{
  Created, vfs_create_mount-Created, locked, init_mount-lookup_mnt, FreshHeap-Created,
}
use linux_vfs.Mnt.Mount.Attached.{unlock_mount-lookup_mnt, same_mounts-lookup_mnt}

-- A walk finds the same mounts.
abbrev SameFinds : Tree → Tree → Type 0
SameFinds t u = (q : Loc) → finds u.vfs q ≡ finds t.vfs q

abbrev pub KeepsOnError {ℓ} : {A : Type ℓ} → Tree → Run A → Type 0
KeepsOnError t r = OnError (SameFinds t) r

-- The lookups of mounts are the same, and no dentry with a mountpoint lost DCACHE_MOUNTED.
abbrev Keeps : Tree → Tree → Type 0
Keeps t u =
    ((q : Loc) → lookup_mnt u.vfs q ≡ lookup_mnt t.vfs q)
    × ((d p : ℕ) → Held t d p → d_mountpoint u.vfs d ≡ true)

abbrev Refuses : (mp : ℕ) → Tree → Result (Unit {0}) × Tree → Type 0
Refuses mp t (ok _, t') = Unit
Refuses mp t (err e, t') = Same mp t t'

attach_on-Refuses :
    (at : ℕ) (t : Tree) (x : Result ℕ × Tree) (source dest mp : ℕ)
    → Same at t x.1
    → Refuses at t (attach_on x source dest mp)
attach_on-Refuses at t (ok smp, t') source dest mp h = tt
attach_on-Refuses at t (err e, t') source dest mp h = h

Refuses-if :
    (mp : ℕ) (t : Tree) (b : Bool) (x y : Result (Unit {0}) × Tree)
    → Refuses mp t x
    → Refuses mp t y
    → Refuses mp t (if b then x else y)
Refuses-if mp t true x y h g = h
Refuses-if mp t false x y h g = g

graft_tree-Refuses :
    (t : Tree) (mnt p mp : ℕ) → NotNext t.vfs.heap mp → Refuses mp t (graft_tree t mnt p mp)
unfolding graft_tree attach_recursive_mnt
graft_tree-Refuses t mnt p mp next =
    let on_dir = d_is_dir (t.vfs.dentries (t.points mp).m_dentry).d_flags in
    let is_dir = d_is_dir (t.vfs.dentries (t.vfs.mounts mnt).mnt_root).d_flags in
    let self = Same-self mp t in
    let attached =
      attach_on-Refuses mp t (get_mountpoint t (t.vfs.mounts mnt).mnt_root) mnt p mp
        (get_mountpoint-Same t (t.vfs.mounts mnt).mnt_root mp next) in
    Refuses-if mp t (test (t.vfs.supers (t.vfs.mounts mnt).mnt_sb).s_flags sb_nouser) _ _ self (
      Refuses-if mp t (on_dir && not is_dir) _ _ self
        (Refuses-if mp t (not on_dir && is_dir) _ _ self attached))

graft_result-OnError :
    (mp : ℕ) (s : Mounting) (x : Result (Unit {0}) × Tree)
    → Refuses mp s.tree x
    → OnError (Same mp s.tree) (graft_result s x)
graft_result-OnError mp s (ok _, t) h = tt
graft_result-OnError mp s (err e, t) h = h

locked_at-OnError :
    (s : Mounting) (x : Option (Result ℕ × Loc × Tree))
    → KeepsMounts s.tree x
    → OnError (Keeps s.tree) (locked_at s x)
locked_at-OnError s none h = tt
locked_at-OnError s (some (ok mp, p, t)) h = tt
locked_at-OnError s (some (err e, p, t)) (same, table, _, flags, _) =
    elim (Bool-cases (is_no_errno e)) [
      | inl z ↦ rw z tt
      | inr z ↦ rw z (
        λ q. same_mounts-lookup_mnt s.tree t q same table,
        λ d p (h : Held s.tree d p). flags d h.0,
      )
    ]

-- The mountpoint that a failed mount got is put: one that was there before has a reference left.
unlock_mount-Keeps :
    (t u : Tree) (mp : ℕ) (p : Loc) (s : Mounting)
    → KeepsMounts t (some (ok mp, p, u))
    → Same mp u s.tree
    → Keeps t (unlock_mount mp s).tree
unfolding unlock_mount
unlock_mount-Keeps t u mp p s (same, table, _, flags, (_, _, two)) kept = (
  λ q.
      (unlock_mount-lookup_mnt mp s q).0
      ∙ (lookup_mnt-Same mp u s.tree q kept ∙ same_mounts-lookup_mnt t u q same table),
  λ d p (h : Held t d p).
      put_mountpoint-d_mountpoint s.tree mp d (kept.4 d (flags d h.0))
        (λ e. omega (arith, kept.3, two d p h (sym kept.2 ∙ e))),
)

add_locked-OnError :
    (m flags mp : ℕ) (t : Tree) (p : Loc) (s : Mounting)
    → KeepsMounts t (some (ok mp, p, s.tree))
    → OnError (Keeps t) (add_locked m flags mp s)
unfolding add_locked do_add_mount lookup_mnt
add_locked-OnError m flags mp t p s locks =
    on_error-OnError (put_mount m) (Keeps t) (Keeps t)
      (finally (unlock_mount mp) (do_add_mount m mp flags s)) (λ u k. k)
      (finally-OnError (unlock_mount mp) (Same mp s.tree) (Keeps t) (do_add_mount m mp flags s)
        (λ u k. unlock_mount-Keeps t s.tree mp p u locks k)
        (graft_result-OnError mp s (graft_tree s.tree m s.path.mnt mp)
          (graft_tree-Refuses s.tree m s.path.mnt mp locks.2)))

attach_new-OnError :
    (fuel flags m : ℕ) (s : Mounting)
    → FreshHeap s.tree s.tree.vfs.heap
    → OnError (Keeps s.tree) (attach_new fuel flags m s)
unfolding attach_new lock_path lookup_mnt
attach_new-OnError fuel flags m s fresh =
    let keeps = lock_mount-KeepsMounts fuel s.tree s.path fresh in
    and_then-OnError (Keeps s.tree) (on_error (put_mount m) (lock_path fuel s)) (add_locked m flags)
      (on_error-OnError (put_mount m) (Keeps s.tree) (Keeps s.tree) (lock_path fuel s) (λ u k. k)
        (locked_at-OnError s (lock_mount fuel s.tree s.path) keeps))
      (λ mp u l.
        add_locked-OnError m flags mp s.tree u.path u
          (subst (KeepsMounts s.tree) (locked fuel s m mp u l) keeps))

-- Every mount stands on a dentry with DCACHE_MOUNTED, whose mountpoint has a reference.
abbrev pub AreHeld : Tree → Type 0
AreHeld t = (q : Loc) (m : ℕ) → lookup_mnt t.vfs q ≡ some m → (p : ℕ) × Held t q.dentry p

Keeps-SameFinds : (t u : Tree) → AreHeld t → Keeps t u → SameFinds t u
Keeps-SameFinds t u held (same, flags) q = elim (Option-cases (lookup_mnt t.vfs q)) [
  | inl e ↦ none_found u.vfs q (same q ∙ e) ∙ sym (none_found t.vfs q e)
  | inr (m, e) ↦
      let (p, h) = held q m e in
      found u.vfs q m (flags q.dentry p h) (same q ∙ e) ∙ sym (found t.vfs q m h.0 e)
]

Created-Keeps :
    (s t : Mounting) (m : ℕ) (u : Tree)
    → IsFree s.tree m
    → Created s m t
    → Keeps t.tree u
    → Keeps s.tree u
Created-Keeps s t m u free c (same, flags) = (
  λ q. same q ∙ init_mount-lookup_mnt s m t q free c,
  λ d p (h : Held s.tree d p). flags d p (rw (c.mountpoints, c.points, c.dentries) h),
)

vfs_create_mount-KeepsOnError : (s : Mounting) → KeepsOnError s.tree (vfs_create_mount s)
unfolding vfs_create_mount
vfs_create_mount-KeepsOnError s = elim (Bool-cases (s.fc.root == 0)) [
  | inl z ↦ rw z (λ q. refl)
  | inr z ↦ rw z (allocated s.tree.vfs.heap refl)
]
  where
    allocated :
        (heap : List ℕ)
        → s.tree.vfs.heap ≡ heap
        → KeepsOnError s.tree (and_then (kzalloc s) (λ m. modify (init_mount m) >> return m))
    allocated [] e = rw e (λ q. refl)
    allocated (a ∷ heap) e = rw e tt

without_root :
    (fuel flags : ℕ) (s : Mounting)
    → (s.fc.root == 0) ≡ true
    → do_new_mount_fc fuel flags s ≡ faults
unfolding do_new_mount_fc
without_root fuel flags s z = rw z refl

pub with_root :
    (fuel flags : ℕ) (s : Mounting)
    → (s.fc.root == 0) ≡ false
    → do_new_mount_fc fuel flags s ≡ and_then (vfs_create_mount s) (attach_new fuel flags)
unfolding do_new_mount_fc
with_root fuel flags s z = rw z refl

-- A mount that fails changes nothing of what a walk finds, at any place, which looks for a mount only on a
-- dentry with DCACHE_MOUNTED. Every mount stood on such a dentry, whose mountpoint had a reference, and the
-- next allocations are at free addresses, which differ.
pub do_new_mount_fc-KeepsOnError :
    (fuel flags : ℕ) (s : Mounting)
    → FreshHeap s.tree s.tree.vfs.heap
    → AreHeld s.tree
    → KeepsOnError s.tree (do_new_mount_fc fuel flags s)
do_new_mount_fc-KeepsOnError fuel flags s fresh held = elim (Bool-cases (s.fc.root == 0)) [
  | inl z ↦ rw (without_root fuel flags s z) tt
  | inr z ↦ rw (with_root fuel flags s z) (
      and_then-OnError (SameFinds s.tree) (vfs_create_mount s) (attach_new fuel flags)
        (vfs_create_mount-KeepsOnError s)
        (λ m u made.
          let c = vfs_create_mount-Created s m u z made in
          let (free, apart, later) = subst (FreshHeap s.tree) c.taken fresh in
          OnError-weaken (Keeps u.tree) (SameFinds s.tree) (attach_new fuel flags m u)
            (λ w k. Keeps-SameFinds s.tree w held (Created-Keeps s u m w free c k))
            (attach_new-OnError fuel flags m u
              (rw (sym c.left) at (FreshHeap-Created s u m c.rest c.table c.points later)))))
]
