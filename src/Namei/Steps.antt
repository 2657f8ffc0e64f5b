-- ===== src/Namei/Steps.antt =====
-- One component of a walk: src/private/namei/{namei-lookup,namei-dots}.c, and `step_into` and
-- `walk_component` of src/private/namei.c. `d_invalidate`, `complete_walk` and `may_lookup` are
-- empty in the source.
pub mod Uncached
use linux_vfs.Base.{
  ℕ, zero, suc, Bool, true, false, not, ◌&&◌, ◌||◌, Option, none, some, List, [], ◌∷◌, ◌==◌,
  if◌then◌else◌,
}
use linux_vfs.Base.Bits.{test}
use linux_vfs.Base.Errno.{Errno, enoent, enomem, echild, exdev, Result, ok, err}
use linux_vfs.Vfs.{
  Qstr, Dentry, Inode, Mount, Super, Loc, Vfs, Ref, dget, dput, mntget, mntput, path_put, Reval,
  valid, stale, Driver, dcache_op_revalidate, dcache_par_lookup, d_is_symlink,
}
use linux_vfs.Dcache.{d_alloc, d_lookup, d_lookup_rcu}
use linux_vfs.Namei.State.{
  LastType, norm, dotdot, Nameidata, Walk, Link, nothing, failed, M, pure, ◌>>=◌, ◌>>◌, out_of_fuel,
  get, set_nd, set_vfs, ref, lookup_follow, lookup_no_xdev, lookup_beneath, walk_trailing,
  walk_more, walk_nofollow, in_rcu, seq_of, seq_changed, same_loc,
}
use linux_vfs.Namei.Mounts.{handle_mounts, choose_mountpoint}
use linux_vfs.Namei.Links.{put_link, pick_link}

-- `path_connected`; `is_subdir` returns false.
unfoldable pub path_connected : Vfs → ℕ → Bool
path_connected s m = (s.mounts m).mnt_root == (s.supers (s.mounts m).mnt_sb).s_root

-- `..` at the root of the walk.
unfoldable pub dotdot_in_root : M (Result ℕ)
dotdot_in_root = do
  w ← get
  if test w.nd.flags lookup_beneath
      then pure (err exdev)
      else (do ref (dget w.nd.path.dentry); pure (ok w.nd.path.dentry))

-- The parent of the dentry that the walk stands on. `dget_parent` takes no reference.
unfoldable pub dotdot_parent : M (Result ℕ)
unfolding path_connected
dotdot_parent = do
  w ← get
  let parent = (w.vfs.dentries w.nd.path.dentry).d_parent
  if path_connected w.vfs w.nd.path.mnt
      then pure (ok parent)
      else (do ref (dput parent); pure (err enoent))

unfoldable pub follow_dotdot : ℕ → M (Result ℕ)
unfolding dotdot_in_root dotdot_parent choose_mountpoint
follow_dotdot fuel = do
  w ← get
  if same_loc w.nd.path w.nd.root
      then dotdot_in_root
      else if not (w.nd.path.dentry == (w.vfs.mounts w.nd.path.mnt).mnt_root)
      then dotdot_parent
      else elim (choose_mountpoint fuel w.vfs w.nd.path.mnt w.nd.root) [
        | none ↦ out_of_fuel
        | some none ↦ dotdot_in_root
        | some (some p) ↦ do
          set_vfs (path_put w.nd.path)
          set_nd (λ nd. record nd { path = p; inode = (w.vfs.dentries p.dentry).d_inode })
          if test w.nd.flags lookup_no_xdev then pure (err exdev) else dotdot_parent
      ]

module _ (dr : Driver) (fs_root : Loc) (fuel : ℕ) where
  unfoldable pub d_revalidate : Vfs → ℕ → ℕ → Reval
  d_revalidate s d flags =
      if test (s.dentries d).d_flags dcache_op_revalidate then dr.d_revalidate s d flags else valid

  -- `lookup_fast`: a dentry, none if it is not cached, or an error.
  unfoldable pub lookup_fast : M (Result (Option ℕ))
  unfolding d_revalidate
  lookup_fast = do
    w ← get
    let parent = w.nd.path.dentry
    if in_rcu w
        then elim (d_lookup_rcu w.vfs parent w.nd.last) [
          | none ↦ pure (ok none)
          | some d ↦ do
            set_nd (λ nd. record nd { next_seq = seq_of w d })
            if seq_changed w parent w.nd.seq
                then pure (err echild)
                else elim (d_revalidate w.vfs d w.nd.flags) [
                  | valid ↦ pure (ok (some d))
                  | _ ↦ pure (err echild)
                ]
        ]
        else elim (d_lookup w.vfs parent w.nd.last) [
          | none ↦ pure (ok none)
          | some d ↦ elim (d_revalidate w.vfs d w.nd.flags) [
            | valid ↦ pure (ok (some d))
            | stale ↦ do ref (dput d); pure (ok none)
            | Reval.failed e ↦ do ref (dput d); pure (err e)
          ]
        ]

  -- The `again` loop of `__lookup_slow`. `d_alloc_parallel` is `d_alloc`, which leaves the flag
  -- of a lookup in progress clear.
  unfoldable pub slow_loop : ℕ → ℕ → M (Result ℕ)
  slow_loop zero dir = out_of_fuel
  slow_loop (suc k) dir = do
    w ← get
    let again = slow_loop k dir
    elim (d_alloc w.vfs dir w.nd.last) [
      | none ↦ pure (err enomem)
      | some (d, s) ↦ do
        set_vfs (λ _. s)
        if not (test (s.dentries d).d_flags dcache_par_lookup)
            then elim (d_revalidate s d w.nd.flags) [
              | valid ↦ pure (ok d)
              | stale ↦ do ref (dput d); again
              | Reval.failed e ↦ do ref (dput d); pure (err e)
            ]
            else (let (r, s') = dr.lookup s (s.dentries dir).d_inode d w.nd.flags in
                do
                  set_vfs (λ _. s')
                  elim r [
                    | err e ↦ do ref (dput d); pure (err e)
                    | ok (some old) ↦ do ref (dput d); pure (ok old)
                    | ok none ↦ pure (ok d)
                  ])
    ]

  unfoldable pub lookup_slow : M (Result ℕ)
  unfolding slow_loop
  lookup_slow = do
    w ← get
    let dir = w.nd.path.dentry
    if test (w.vfs.inodes (w.vfs.dentries dir).d_inode).i_flags 0x10
        then pure (err enoent)
        else slow_loop fuel dir

  -- The walk moves to a place that is no link to follow.
  unfoldable pub move_to : Loc → M Link
  move_to p = do
    w ← get
    let inode = (w.vfs.dentries p.dentry).d_inode
    let arrive : M Link = (do
      set_nd (λ nd. record nd { path = p; inode = inode; seq = nd.next_seq })
      pure nothing)
    if in_rcu w
        then (if seq_changed w p.dentry w.nd.next_seq
            then pure (failed echild)
            else if inode == 0
            then pure (failed enoent)
            else arrive)
        else (do
          ref (dput w.nd.path.dentry)
          (if w.nd.path.mnt == p.mnt then pure tt else ref (mntput w.nd.path.mnt))
          arrive)

  unfoldable pub follow_to : Loc → M Link
  unfolding pick_link
  follow_to p = do
    w ← get
    let inode = (w.vfs.dentries p.dentry).d_inode
    let enter = pick_link fs_root dr p inode
    if in_rcu w
        then (if seq_changed w p.dentry w.nd.next_seq then pure (failed echild) else enter)
        else (do (if p.mnt == w.nd.path.mnt then ref (mntget p.mnt) else pure tt); enter)

  unfoldable pub step_into : ℕ → ℕ → M Link
  unfolding handle_mounts move_to follow_to
  step_into flags dentry = do
    (bad, p) ← handle_mounts dr fuel dentry
    w ← get
    elim bad [
      | some e ↦ pure (failed e)
      | none ↦
          if not (d_is_symlink (w.vfs.dentries p.dentry).d_flags)
            || (test flags walk_trailing && not (test w.nd.flags lookup_follow))
            || test flags walk_nofollow
          then move_to p
          else follow_to p
    ]

  unfoldable pub handle_dots : LastType → M Link
  unfolding follow_dotdot step_into
  handle_dots dotdot = do
    r ← follow_dotdot fuel
    elim r [ err e ↦ pure (failed e) | ok parent ↦ step_into walk_nofollow parent ]
  handle_dots _ = pure nothing

  abbrev pub leave_link : ℕ → M (Unit {0})
  leave_link flags w = elim w.nd.links [
    | [] ↦ some (tt, w)
    | _ ∷ _ ↦ if test flags walk_more then some (tt, w) else put_link w
  ]

  unfoldable pub walk_named : ℕ → M Link
  unfolding lookup_fast lookup_slow step_into put_link
  walk_named flags = do
    r ← lookup_fast
    elim r [
      | err e ↦ pure (failed e)
      | ok (some d) ↦ do leave_link flags; step_into flags d
      | ok none ↦ do
        r' ← lookup_slow
        elim r' [ err e ↦ pure (failed e) | ok d ↦ do leave_link flags; step_into flags d ]
    ]

  abbrev by_type : LastType → ℕ → M Link
  by_type norm flags = walk_named flags
  by_type t flags = do leave_link flags; handle_dots t

  unfoldable pub walk_component : ℕ → M Link
  unfolding walk_named handle_dots put_link
  walk_component flags = do w ← get; by_type w.nd.last_type flags
