-- ===== src/Namei/Mounts/Climb.antt =====
-- Where `choose_mountpoint_rcu` of src/private/namei/namei-dots.c ends.
use linux_vfs.Base.{
  ℕ, zero, suc, ◌≡◌, ◌≢◌, ap, Bool-cases, inl, inr, Bool, true, false, some, arith, ◌==◌,
}
use linux_vfs.Vfs.{Loc, Vfs}
use linux_vfs.Namei.Mounts.{choose_mountpoint}

-- The place that a mount covers.
abbrev below : Vfs → ℕ → Loc
below s m = record { mnt = (s.mounts m).mnt_parent; dentry = (s.mounts m).mnt_mountpoint }

abbrev covers_root : Vfs → ℕ → Bool
covers_root s m = (s.mounts m).mnt_mountpoint == (s.mounts (s.mounts m).mnt_parent).mnt_root

-- From a mount the place it covers is reached, or what is reached from the mount of that place, if
-- it is the root of that mount; never from a mount that is its own parent, and never through the
-- given root.
pub data Climb (s : Vfs) (root : Loc) : ℕ → Loc → Type 0 where
  here :
      {m : ℕ} {p : Loc}
      → (s.mounts m).mnt_parent ≢ m
      → below s m ≢ root
      → covers_root s m ≡ false
      → p ≡ below s m
      → Climb s root m p
  up :
      {m : ℕ} {p : Loc}
      → (s.mounts m).mnt_parent ≢ m
      → below s m ≢ root
      → covers_root s m ≡ true
      → Climb s root (s.mounts m).mnt_parent p
      → Climb s root m p

-- The mount point chosen for `..` at the root of a mount is one that is reached by climbing out of
-- mounts that are stacked on each other's roots, without passing the root of the walk.
pub choose_mountpoint-Climb :
    (fuel : ℕ) (s : Vfs) (m : ℕ) (root p : Loc)
    → choose_mountpoint fuel s m root ≡ some (some p)
    → Climb s root m p
unfolding choose_mountpoint
choose_mountpoint-Climb zero s m root p e = ground arith
choose_mountpoint-Climb (suc fuel) s m root p e = elim (Bool-cases (covers_root s m)) [
  | inl t ↦
      up (ground arith) outside t
        (choose_mountpoint-Climb fuel s (s.mounts m).mnt_parent root p (ground arith))
  | inr f ↦ here (ground arith) outside f (ground arith)
]
  where
    outside : below s m ≢ root
    outside q = ground (arith, ap (λ l. l.mnt) q, ap (λ l. l.dentry) q)
