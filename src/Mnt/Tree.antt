-- ===== src/Mnt/Tree.antt =====
-- Attaching a mount: src/mnt/namespace.c from `lookup_mountpoint` to `graft_tree`. The locks of
-- the namespace are empty in the source. The list `mnt_mounts` of children is the one record of the tree that is not kept: nothing
-- modelled reads it.
pub mod Mounted
pub mod Guarded
pub mod Same
pub mod Attached
pub mod Top
pub mod Kept
use linux_vfs.Base.{
  ℕ, zero, suc, ◌+◌, ◌-◌, ◌/◌, ◌%◌, ◌^◌, Bool, true, false, not, ◌&&◌, Option, none, some, List, [],
  ◌∷◌, ◌==◌, if◌then◌else◌,
}
use linux_vfs.Base.Bits.{test}
use linux_vfs.Base.Errno.{Errno, enoent, enomem, einval, enotdir, Result, ok, err}
use linux_vfs.Vfs.{
  Dentry, Mount, Super, Loc, Vfs, Ref, dget, mntget, dput, inode_lock, inode_unlock, update, note,
  path_put, dcache_mounted, dcache_cant_mount, d_is_dir,
}
use linux_vfs.Dcache.{first, d_set_mounted, d_clear_mounted, d_unlinked}
use linux_vfs.Namei.Mounts.{m_hash, lookup_mnt}

abbrev pub sb_nouser : ℕ
sb_nouser = 2 ^ 31

-- `struct mountpoint`; `m_list` are the mounts on it.
pub record Mountpoint : Type 0 where
  pub m_dentry : ℕ
  pub m_count : ℕ
  pub m_list : List ℕ

-- `unset_ret` is what the variable `ret` of `get_mountpoint` holds on entry, for a dentry; `none` for 0.
pub record Tree : Type 0 where
  pub vfs : Vfs
  pub points : ℕ → Mountpoint
  pub point_hash : ℕ → List ℕ
  pub unset_ret : ℕ → Option Errno

-- `mp_hash`: the same function as for mounts, with no second key.
abbrev pub mp_hash : ℕ → ℕ
mp_hash dentry = m_hash dentry 0

-- Whether a dentry has DCACHE_MOUNTED.
abbrev pub d_mountpoint : Vfs → ℕ → Bool
d_mountpoint s dentry = test (s.dentries dentry).d_flags dcache_mounted

abbrev with_point : Tree → ℕ → Mountpoint → Tree
with_point t mp p = record t { points = update t.points mp p }

-- With one more reference.
unfoldable pub lookup_mountpoint : Tree → ℕ → Option (ℕ × Tree)
unfolding first m_hash
lookup_mountpoint t dentry =
    elim (first (λ mp. (t.points mp).m_dentry == dentry) (t.point_hash (mp_hash dentry))) [
      | none ↦ none
      | some mp ↦
          some (mp, with_point t mp (record (t.points mp) { m_count = (t.points mp).m_count + 1 }))
    ]

-- A new mountpoint, which makes the dentry a mount point.
unfoldable pub new_mountpoint : Tree → ℕ → Result ℕ × Tree
unfolding d_set_mounted m_hash
new_mountpoint t dentry = elim t.vfs.heap [
  | [] ↦ (err enomem, t)
  | mp ∷ heap ↦
      let s = note (dget dentry) (d_set_mounted (record (t.vfs) { heap = heap }) dentry) in
      let b = mp_hash dentry in
      (
        ok mp,
        record {
          vfs = s;
          points = update t.points mp (record { m_dentry = dentry; m_count = 1; m_list = [] });
          point_hash = update t.point_hash b (mp ∷ t.point_hash b);
          unset_ret = t.unset_ret;
        },
      )
]

-- The return of a mountpoint that was there: `ret` has not been set then. On an error the callers do not
-- put the mountpoint, of which a reference was taken.
abbrev pub returned : Option Errno → ℕ → Tree → Result ℕ × Tree
returned none mp t = (ok mp, t)
returned (some e) mp t = (err e, t)

unfoldable pub get_mountpoint : Tree → ℕ → Result ℕ × Tree
unfolding lookup_mountpoint new_mountpoint d_unlinked
get_mountpoint t dentry =
    if not (d_mountpoint t.vfs dentry)
    then new_mountpoint t dentry
    else if d_unlinked t.vfs dentry
    then (err enoent, t)
    else elim (lookup_mountpoint t dentry) [
      | some (mp, t') ↦ returned (t.unset_ret dentry) mp t'
      | none ↦ new_mountpoint t dentry
    ]

abbrev pub noted : Ref → Tree → Tree
noted r t = record t { vfs = note r t.vfs }

-- The inode of the dentry stays locked if there is a mountpoint.
abbrev pub unlock_on_error : ℕ → Result ℕ × Tree → Result ℕ × Tree
unlock_on_error inode (ok mp, t) = (ok mp, t)
unlock_on_error inode (err e, t) = (err e, noted (inode_unlock inode) t)

abbrev pub on_path : Loc → Result ℕ × Tree → Option (Result ℕ × Loc × Tree)
on_path p (r, t) = some (r, p, t)

-- To the root of the mount that is on a path.
abbrev pub step_onto : Tree → Loc → ℕ → Tree
step_onto t p m = noted (dget (t.vfs.mounts m).mnt_root) (record t { vfs = path_put p t.vfs })

-- `do_lock_mount` to mount on top of a path: to the top of what is mounted there, and its mountpoint.
unfoldable pub lock_mount : ℕ → Tree → Loc → Option (Result ℕ × Loc × Tree)
unfolding get_mountpoint
lock_mount zero t p = none
lock_mount (suc fuel) t p =
    let inode = (t.vfs.dentries p.dentry).d_inode in
    let locked = noted (inode_lock inode) t in
    if test (t.vfs.dentries p.dentry).d_flags dcache_cant_mount
    then some (err enoent, p, noted (inode_unlock inode) locked)
    else elim (lookup_mnt t.vfs p) [
      | none ↦ on_path p (unlock_on_error inode (get_mountpoint locked p.dentry))
      | some m ↦
          lock_mount fuel (step_onto (noted (inode_unlock inode) locked) p m)
            (record { mnt = m; dentry = (t.vfs.mounts m).mnt_root })
    ]

-- The child stands on a mountpoint of a parent; the parent gets a reference.
unfoldable pub mnt_set_mountpoint : Tree → (parent mp child : ℕ) → Tree
mnt_set_mountpoint t parent mp child =
    let point = t.points mp in
    let s = note (mntget parent) t.vfs in
    record (with_point t mp
      (record point { m_count = point.m_count + 1; m_list = child ∷ point.m_list })) {
        vfs = record s {
          mounts = update s.mounts child (record (s.mounts child) {
            mnt_mountpoint = point.m_dentry;
            mnt_parent = parent;
            mnt_mp = mp;
          });
        };
      }

-- `commit_tree` with `__attach_mnt`: into the hash of mounts, at the head of its bucket.
unfoldable pub commit_tree : Tree → ℕ → Tree
unfolding m_hash
commit_tree t m =
    let b = m_hash (t.vfs.mounts m).mnt_parent (t.vfs.mounts m).mnt_mountpoint in
    record t {
      vfs = record (t.vfs) { mount_hash = update t.vfs.mount_hash b (m ∷ t.vfs.mount_hash b) };
    }

-- `attach_recursive_mnt` without flags: first with the mountpoint of the root of the new mount at
-- hand, which is never put.
abbrev pub attach_on : Result ℕ × Tree → (source dest mp : ℕ) → Result (Unit {0}) × Tree
attach_on (err e, t) source dest mp = (err e, t)
attach_on (ok smp, t) source dest mp =
    (ok tt, commit_tree (mnt_set_mountpoint t dest mp source) source)

unfoldable pub attach_recursive_mnt : Tree → (source dest mp : ℕ) → Result (Unit {0}) × Tree
unfolding get_mountpoint mnt_set_mountpoint commit_tree
attach_recursive_mnt t source dest mp =
    attach_on (get_mountpoint t (t.vfs.mounts source).mnt_root) source dest mp

unfoldable pub graft_tree : Tree → (mnt p mp : ℕ) → Result (Unit {0}) × Tree
unfolding attach_recursive_mnt
graft_tree t mnt p mp =
    let on_dir = d_is_dir (t.vfs.dentries (t.points mp).m_dentry).d_flags in
    let is_dir = d_is_dir (t.vfs.dentries (t.vfs.mounts mnt).mnt_root).d_flags in
    if test (t.vfs.supers (t.vfs.mounts mnt).mnt_sb).s_flags sb_nouser
    then (err einval, t)
    else if on_dir && not is_dir
    then (err enotdir, t)
    else if not on_dir && is_dir
    then (err enotdir, t)
    else attach_recursive_mnt t mnt p mp

-- `__put_mountpoint`.
unfoldable pub put_mountpoint : Tree → ℕ → Tree
unfolding d_clear_mounted m_hash
put_mountpoint t mp =
    let p = t.points mp in
    let t' = with_point t mp (record p { m_count = p.m_count - 1 }) in
    if not (p.m_count == 1) then t' else record t' {
      vfs = note (dput p.m_dentry) (d_clear_mounted t'.vfs p.m_dentry);
      point_hash = λ b. without mp (t.point_hash b);
    }
  where
    without : ℕ → List ℕ → List ℕ
    without a [] = []
    without a (x ∷ xs) = let rest = without a xs in if x == a then rest else x ∷ rest
