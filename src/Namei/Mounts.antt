-- ===== src/Namei/Mounts.antt =====
-- Crossing mount points: `__lookup_mnt` and `lookup_mnt` of src/mnt/namespace.c,
-- `__follow_mount_rcu`, `__traverse_mounts` and `handle_mounts` of src/private/namei.c, and
-- src/private/namei/namei-dots.c as far as it chooses a mount point. `mount_lock` is never written,
-- so its sequence count is 0.
pub mod Climb
pub mod Automount
use linux_vfs.Base.{
  ℕ, zero, suc, ◌+◌, ◌/◌, ◌%◌, ◌^◌, Bool, true, false, not, ◌&&◌, ◌||◌, Option, none, some, List,
  [], ◌∷◌, ◌==◌, if◌then◌else◌, is_some,
}
use linux_vfs.Base.Bits.{test}
use linux_vfs.Base.Errno.{Errno, eisdir, enoent, exdev, echild}
use linux_vfs.Vfs.{
  Dentry, Mount, Loc, Vfs, Ref, dget, dput, mntget, mntput, Driver, dcache_managed_dentry,
  dcache_manage_transit, dcache_mounted, dcache_need_automount, d_is_miss,
}
use linux_vfs.Dcache.{first}
use linux_vfs.Namei.State.{
  Nameidata, Walk, M, pure, ◌>>=◌, ◌>>◌, out_of_fuel, get, set_nd, ref, lookup_no_xdev, in_rcu,
  seq_of,
}

-- `m_hash`: 16 buckets.
unfoldable pub m_hash : ℕ → ℕ → ℕ
m_hash mnt dentry = let t = (mnt / 64 + dentry / 64) % 2 ^ 64 in (t + t / 16) % 2 ^ 64 % 16

-- `__lookup_mnt`: what is mounted on a dentry of a mount.
unfoldable pub lookup_mnt : Vfs → Loc → Option ℕ
unfolding first m_hash
lookup_mnt s p =
    first (λ m. (s.mounts m).mnt_parent == p.mnt && (s.mounts m).mnt_mountpoint == p.dentry)
      (s.mount_hash (m_hash p.mnt p.dentry))

abbrev pub top_of : Vfs → ℕ → Loc
top_of s m = record { mnt = m; dentry = (s.mounts m).mnt_root }

abbrev says_eisdir : Option Errno → Bool
says_eisdir (some eisdir) = true
says_eisdir _ = false

module _ (dr : Driver) where
  -- The loop of `__follow_mount_rcu`; the flags of the dentry are read anew where the code does.
  unfoldable pub follow_mount_loop : ℕ → Loc → M (Bool × Loc)
  follow_mount_loop zero p = out_of_fuel
  follow_mount_loop (suc fuel) p = do
    w ← get
    let flags = (w.vfs.dentries p.dentry).d_flags
    let managed = if test flags dcache_manage_transit then dr.d_manage w.vfs p else none
    let automount = pure (not (test flags dcache_need_automount), p)
    if says_eisdir managed
        then pure (true, p)
        else if not (test flags dcache_mounted)
        then automount
        else elim (lookup_mnt w.vfs p) [
          | some m ↦ do
            let q = top_of w.vfs m
            set_nd (λ nd. record nd { jumped = true; next_seq = seq_of w q.dentry })
            if not (w.nd.m_seq == 0) then pure (false, q) else follow_mount_loop fuel q
          | none ↦ if not (w.nd.m_seq == 0) then pure (false, p) else automount
        ]

  unfoldable pub follow_mount_rcu : ℕ → Loc → M (Bool × Loc)
  follow_mount_rcu fuel p = do
    w ← get
    if not (test (w.vfs.dentries p.dentry).d_flags dcache_managed_dentry)
        then pure (true, p)
        else if test w.nd.flags lookup_no_xdev
        then pure (false, p)
        else follow_mount_loop fuel p

  -- The loop of `__traverse_mounts`: the path at its end, whether a mount was crossed, and the flags.
  -- `follow_automount` does nothing and returns 0, so that its branch goes round again.
  unfoldable pub traverse_loop : ℕ → Loc → Bool → M (Loc × Bool × ℕ)
  traverse_loop zero p crossed = out_of_fuel
  traverse_loop (suc fuel) p crossed = do
    w ← get
    let flags = (w.vfs.dentries p.dentry).d_flags
    let rest =
        if test flags dcache_need_automount
        then traverse_loop fuel p crossed
        else pure (p, crossed, flags)
    if not (test flags dcache_managed_dentry)
        then pure (p, crossed, flags)
        else if test flags dcache_mounted
        then elim (lookup_mnt w.vfs p) [
          | some m ↦ do
            ref (dput p.dentry)
            (if crossed then ref (mntput p.mnt) else pure tt)
            let q = top_of w.vfs m
            ref (dget q.dentry)
            traverse_loop fuel q true
          | none ↦ rest
        ]
        else rest

  -- The error, the path and whether a mount was crossed.
  unfoldable pub traverse_mounts : ℕ → Loc → M (Option Errno × Loc × Bool)
  traverse_mounts fuel p = do
    (q, crossed, flags) ← traverse_loop fuel p false
    (if crossed && q.mnt == p.mnt then ref (mntput q.mnt) else pure tt)
    pure (if d_is_miss flags then some enoent else none, q, crossed)

  -- The part of `handle_mounts` outside RCU mode. A crossing under LOOKUP_NO_XDEV replaces the
  -- error of the traversal.
  unfoldable pub handle_mounts_ref : ℕ → Loc → M (Option Errno × Loc)
  unfolding traverse_mounts traverse_loop
  handle_mounts_ref fuel p = do
    (bad, q, crossed) ← traverse_mounts fuel p
    w ← get
    let xdev = test w.nd.flags lookup_no_xdev
    (if crossed && not xdev then set_nd (λ nd. record nd { jumped = true }) else pure tt)
    let bad' = if crossed && xdev then some exdev else bad
    (if is_some bad'
        then (do ref (dput q.dentry); (if q.mnt == p.mnt then pure tt else ref (mntput q.mnt)))
        else pure tt)
    pure (bad', q)

  -- `try_to_unlazy_next` returns false, so that RCU mode either crosses all mounts or gives up.
  unfoldable pub handle_mounts : ℕ → ℕ → M (Option Errno × Loc)
  unfolding follow_mount_rcu follow_mount_loop handle_mounts_ref
  handle_mounts fuel dentry = do
    w ← get
    let p : Loc = record { mnt = w.nd.path.mnt; dentry = dentry }
    let seq = w.nd.next_seq
    if not (in_rcu w) then handle_mounts_ref fuel p else (do
      (done, q) ← follow_mount_rcu fuel p
      if done
          then pure (none, q)
          else (do set_nd (λ nd. record nd { next_seq = seq }); pure (some echild, p)))

-- `choose_mountpoint_rcu`: from the root of a mount to the place below it, up to the given root.
unfoldable pub choose_mountpoint : ℕ → Vfs → ℕ → Loc → Option (Option Loc)
choose_mountpoint zero s m root = none
choose_mountpoint (suc fuel) s m root =
    let mp = (s.mounts m).mnt_mountpoint in
    let up = (s.mounts m).mnt_parent in
    let more = choose_mountpoint fuel s up root in
    if m == up
    then some none
    else if root.dentry == mp && root.mnt == up
    then some none
    else if not (mp == (s.mounts up).mnt_root)
    then some (some (record { mnt = up; dentry = mp }))
    else more
