-- ===== src/Mnt/Mount/Created.antt =====
-- The mount that `do_new_mount_fc` of src/mnt/namespace.c makes, before it is attached, and the runs of the calls
-- that attach it.
use linux_vfs.Base.{
  ℕ, ◌≡◌, ◌≢◌, refl, sym, ap, ◌∙◌, Bool, false, ◌&&◌, Option, none, some, List, [], ◌∷◌, ◌==◌,
  arith, Bool-cases, inl, inr,
}
use mathlib.Core.Path.{subst}
use linux_vfs.Base.Errno.{Result, ok, err, is_no_errno}
use linux_vfs.Vfs.{Mount, Loc}
use linux_vfs.Dcache.{first}
use linux_vfs.Dcache.Chains.{On, first_congr}
use linux_vfs.Namei.Mounts.{m_hash, lookup_mnt}
use linux_vfs.Mnt.Tree.{Tree, lock_mount, graft_tree}
use linux_vfs.Mnt.Tree.Kept.{IsFree, FreshHeap}
use linux_vfs.Mnt.Context.{Mounting, done, finally, on_error}
use linux_vfs.Mnt.Context.Runs.{on_error-done, finally-done}
use linux_vfs.Mnt.Super.{init_mount, vfs_create_mount}
use linux_vfs.Mnt.Mount.{
  locked_at, lock_path, unlock_mount, graft_result, do_add_mount, put_mount, add_locked,
}

locked_at-done :
    (s : Mounting) (x : Option (Result ℕ × Loc × Tree)) (mp : ℕ) (t : Mounting)
    → locked_at s x ≡ done (ok mp) t
    → x ≡ some (ok mp, t.path, t.tree)
locked_at-done s none mp t e = absurd (ground arith)
locked_at-done s (some (ok a, p, u)) mp t e = ground arith
locked_at-done s (some (err bad, p, u)) mp t e = elim (Bool-cases (is_no_errno bad)) [
  | inl z ↦ absurd (ground (arith, z, rw z at e))
  | inr z ↦ absurd (ground (arith, z, rw z at e))
]

graft_result-done :
    (s : Mounting) (x : Result (Unit {0}) × Tree) (t : Mounting)
    → graft_result s x ≡ done (ok tt) t
    → (x ≡ (ok tt, t.tree)) × (t.path ≡ s.path)
graft_result-done s (r, u) t e = (ground arith, ground arith)

-- A state in which the mount `m` of the root of the context was made.
pub record Created (s : Mounting) (m : ℕ) (t : Mounting) : Type 0 where
  pub rest : List ℕ
  pub taken : s.tree.vfs.heap ≡ m ∷ rest
  pub left : t.tree.vfs.heap ≡ rest
  pub table : t.tree.vfs.mount_hash ≡ s.tree.vfs.mount_hash
  pub points : t.tree.point_hash ≡ s.tree.point_hash
  pub mountpoints : t.tree.points ≡ s.tree.points
  pub dentries : t.tree.vfs.dentries ≡ s.tree.vfs.dentries
  pub unset_ret : t.tree.unset_ret ≡ s.tree.unset_ret
  pub path : t.path ≡ s.path
  pub root : (t.tree.vfs.mounts m).mnt_root ≡ s.fc.root
  pub others : (n : ℕ) → n ≢ m → t.tree.vfs.mounts n ≡ s.tree.vfs.mounts n

abbrev consumed : Mounting → List ℕ → Mounting
consumed s heap = record s { tree = record s.tree { vfs = record s.tree.vfs { heap = heap } } }

init_mount-Created :
    (s : Mounting) (m : ℕ) (heap : List ℕ)
    → s.tree.vfs.heap ≡ m ∷ heap
    → Created s m (init_mount m (consumed s heap))
init_mount-Created s m heap q = record {
  rest = heap;
  taken = q;
  left = refl;
  table = refl;
  points = refl;
  mountpoints = refl;
  dentries = refl;
  unset_ret = refl;
  path = refl;
  root = ground arith;
  others = λ n ne. ground (arith, ne);
}

vfs_create_mount-shape :
    (s : Mounting) (a : ℕ) (heap : List ℕ)
    → (s.fc.root == 0) ≡ false
    → s.tree.vfs.heap ≡ a ∷ heap
    → vfs_create_mount s ≡ done (ok a) (init_mount a (consumed s heap))
unfolding vfs_create_mount
vfs_create_mount-shape s a heap z q = rw (z, q) refl

pub vfs_create_mount-Created :
    (s : Mounting) (m : ℕ) (t : Mounting)
    → (s.fc.root == 0) ≡ false
    → vfs_create_mount s ≡ done (ok m) t
    → Created s m t
unfolding vfs_create_mount
vfs_create_mount-Created s m t z e = allocated s.tree.vfs.heap refl
  where
    allocated : (heap : List ℕ) → s.tree.vfs.heap ≡ heap → Created s m t
    allocated [] q = absurd (ground arith)
    allocated (a ∷ heap) q =
        let shape = sym (vfs_create_mount-shape s a heap z q) ∙ e in
        let same_m : a ≡ m = ground arith in
        let same_t : init_mount a (consumed s heap) ≡ t = ground arith in
        rw (sym same_t, sym same_m) (init_mount-Created s a heap q)

pub added :
    (s : Mounting) (m flags mp : ℕ) (t : Mounting)
    → add_locked m flags mp s ≡ done (ok tt) t
    → (u : Mounting) × (graft_tree s.tree m s.path.mnt mp ≡ (ok tt, u.tree))
      × (u.path ≡ s.path)
      × (unlock_mount mp u ≡ t)
unfolding add_locked do_add_mount
added s m flags mp t e =
    let (u, grafting, unlocked) =
      finally-done (unlock_mount mp) (do_add_mount m mp flags s) (ok tt) t (
        on_error-done (put_mount m) (finally (unlock_mount mp) (do_add_mount m mp flags s)) tt t
          e) in
    let (done_it, same) = graft_result-done s (graft_tree s.tree m s.path.mnt mp) u grafting in
    (u, done_it, same, unlocked)

pub locked :
    (fuel : ℕ) (s : Mounting) (m mp : ℕ) (t : Mounting)
    → on_error (put_mount m) (lock_path fuel s) ≡ done (ok mp) t
    → lock_mount fuel s.tree s.path ≡ some (ok mp, t.path, t.tree)
unfolding lock_path
locked fuel s m mp t e =
    locked_at-done s (lock_mount fuel s.tree s.path) mp t
      (on_error-done (put_mount m) (lock_path fuel s) mp t e)

-- Making a mount changes no lookup, if its address is not that of a mount in the table.
pub init_mount-lookup_mnt :
    (s : Mounting) (m : ℕ) (t : Mounting) (q : Loc)
    → IsFree s.tree m
    → Created s m t
    → lookup_mnt t.tree.vfs q ≡ lookup_mnt s.tree.vfs q
unfolding lookup_mnt
init_mount-lookup_mnt s m t q free c =
    ap (first (stands t)) (ap (λ (h : ℕ → List ℕ). h (m_hash q.mnt q.dentry)) c.table)
    ∙ first_congr (stands t) (stands s) (s.tree.vfs.mount_hash (m_hash q.mnt q.dentry)) (λ d o.
      ap (λ (x : Mount). x.mnt_parent == q.mnt && x.mnt_mountpoint == q.dentry)
        (c.others d (apart d o)))
  where
    stands : Mounting → ℕ → Bool
    stands u n =
        (u.tree.vfs.mounts n).mnt_parent == q.mnt
        && (u.tree.vfs.mounts n).mnt_mountpoint == q.dentry

    apart : (d : ℕ) → On d (s.tree.vfs.mount_hash (m_hash q.mnt q.dentry)) → d ≢ m
    apart d o = λ e.
        (free (m_hash q.mnt q.dentry)).0
          (subst (λ x. On x (s.tree.vfs.mount_hash (m_hash q.mnt q.dentry))) e o)

pub FreshHeap-Created :
    (s t : Mounting) (m : ℕ) (heap : List ℕ)
    → t.tree.vfs.mount_hash ≡ s.tree.vfs.mount_hash
    → t.tree.point_hash ≡ s.tree.point_hash
    → FreshHeap s.tree heap
    → FreshHeap t.tree heap
FreshHeap-Created s t m [] table points h = tt
FreshHeap-Created s t m (a ∷ heap) table points (free, apart, h) =
    (λ b. rw (table, points) (free b), apart, FreshHeap-Created s t m heap table points h)
