-- ===== src/Mnt/Mount/Fuel.antt =====
-- That mounting comes to an end: `do_lock_mount` and `do_new_mount_fc` of src/mnt/namespace.c.
use linux_vfs.Base.{ℕ, zero, suc, ◌≡◌, ◌⊎◌, Bool, Option, none, some}
use linux_vfs.Base.Bits.{test}
use linux_vfs.Vfs.{Mount, Loc, inode_lock, inode_unlock, dcache_cant_mount}
use linux_vfs.Mnt.Tree.{Tree, noted, step_onto}
use linux_vfs.Mnt.Context.{Run, done}
use linux_vfs.Mnt.Mount.Created.{Created}

-- At most `n` mounts are stacked on a path, as the lookups find them.
abbrev pub Stacked : (Loc → Option ℕ) → (ℕ → Loc) → ℕ → Loc → Type 0
Stacked look root zero p = look p ≡ none
Stacked look root (suc n) p =
    (look p ≡ none) ⊎ ((m : ℕ) × (look p ≡ some m) × Stacked look root n (root m))

abbrev Gives {ℓ} : {A : Type ℓ} → Option A → Type 0
Gives none = ⊥
Gives (some a) = Unit

abbrev cant_mount : Tree → Loc → Bool
cant_mount t p = test (t.vfs.dentries p.dentry).d_flags dcache_cant_mount

abbrev inode_of : Tree → Loc → ℕ
inode_of t p = (t.vfs.dentries p.dentry).d_inode

abbrev locked_here : Tree → Loc → Tree
locked_here t p = noted (inode_lock (inode_of t p)) t

-- The tree when `do_lock_mount` goes on to the mount `m` on a path.
abbrev upward : Tree → Loc → ℕ → Tree
upward t p m = step_onto (noted (inode_unlock (inode_of t p)) (locked_here t p)) p m

-- A run that ends with a result.
abbrev pub Returns {ℓ} : {A : Type ℓ} → Run A → Type 0
Returns (done r s) = Unit
Returns _ = ⊥
