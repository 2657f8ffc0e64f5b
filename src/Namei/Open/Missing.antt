-- ===== src/Namei/Open/Missing.antt =====
-- `lookup_open` of src/private/namei.c at a name that is in no cache.
use linux_vfs.Base.{ℕ, suc, ◌≡◌, refl, true, false, Option, none, some}
use linux_vfs.Base.Bits.{test}
use linux_vfs.Base.Errno.{Errno, ok}
use linux_vfs.Vfs.{Loc, Vfs, Driver, note, dput, dcache_par_lookup}
use linux_vfs.Dcache.{d_alloc, d_lookup}
use linux_vfs.File.Open.{o_creat, o_excl}
use linux_vfs.Namei.State.{Walk, ◌>>=◌}
use linux_vfs.Namei.Steps.{d_revalidate}
use linux_vfs.Namei.Steps.Uncached.{d_alloc-Negative}
use linux_vfs.Namei.Create.{s_dead}
use linux_vfs.Namei.Open.{
  OpenOp, Opened, opened, not_opened, open_loop, ask_driver, open_missing, lookup_open, answer,
  create_flags, create_error,
}

-- The directory that the walk stands in is alive, and the last component is not cached in it.
abbrev pub IsMissing : Walk → Type 0
IsMissing w =
    let dir = w.nd.path.dentry in
    (test (w.vfs.inodes (w.vfs.dentries dir).d_inode).i_flags s_dead ≡ false)
    × (d_lookup w.vfs dir w.nd.last ≡ none)

par_clear : (flags : ℕ) → flags ≡ 0 → test flags dcache_par_lookup ≡ false
unfolding test
par_clear flags e = rw e refl

open_loop-new :
    (dr : Driver) (fs_root : Loc) (fuel k a dir : ℕ) (w : Walk) (s : Vfs)
    → d_alloc w.vfs dir w.nd.last ≡ some (a, s)
    → open_loop dr fs_root fuel (suc (suc k)) dir none w ≡ some (ok a, record w { vfs = s })
unfolding open_loop d_revalidate test
open_loop-new dr fs_root fuel k a dir w s new =
    rw (new, par_clear (s.dentries a).d_flags negative, ◌>>=◌, negative) refl
  where
    negative : (s.dentries a).d_flags ≡ 0
    negative = (d_alloc-Negative w.vfs dir w.nd.last new).0

-- What `lookup_open` makes of the answer of the method `create` for the dentry `a`.
abbrev pub created : ℕ → Walk → Option Errno × Vfs → Option (Opened × Walk)
created a w (none, t) = some (opened a true, record w { vfs = t })
created a w (some e, t) = some (not_opened e, record w { vfs = note (dput a) t })

answer-created : (a : ℕ) (r : Option Errno × Vfs) (w : Walk) → answer a none r w ≡ created a w r
unfolding answer
answer-created a (none, t) w = refl
answer-created a (some e, t) w = refl

open_missing-created :
    (dr : Driver) (fs_root : Loc) (fuel : ℕ) (op : OpenOp) (dir a : ℕ) (w : Walk)
    → ((w.vfs.dentries a).d_flags ≡ 0) × ((w.vfs.dentries a).d_inode ≡ 0)
    → test op.open_flag o_creat ≡ true
    → op.has_create dir ≡ true
    → open_missing dr fs_root fuel op true dir a w
      ≡ created a w (op.create w.vfs dir a op.mode (test op.open_flag o_excl))
unfolding open_missing ask_driver create_flags create_error
open_missing-created dr fs_root fuel op dir a w (flags, inode) creat has =
    rw (par_clear (w.vfs.dentries a).d_flags flags, ◌>>=◌, inode, creat, has)
      (answer-created a (op.create w.vfs dir a op.mode (test op.open_flag o_excl)) w)

-- With O_CREAT a name that is not cached in a directory that is not dead is created, if there is
-- memory for a dentry: `lookup_open` hands a new dentry to the method `create` and returns what that
-- answers, the dentry put on an error. The file system is never asked whether the name exists: its
-- `lookup`, like every other method of `dr`, has no part in the result.
pub lookup_open-created :
    (dr : Driver) (fs_root : Loc) (k a : ℕ) (op : OpenOp) (w : Walk) (s : Vfs)
    → IsMissing w
    → d_alloc w.vfs w.nd.path.dentry w.nd.last ≡ some (a, s)
    → test op.open_flag o_creat ≡ true
    → op.has_create (w.vfs.dentries w.nd.path.dentry).d_inode ≡ true
    → lookup_open dr fs_root (suc (suc k)) op true w
      ≡ created a
          (record w { vfs = s })
          (op.create s
            (w.vfs.dentries w.nd.path.dentry).d_inode
            a
            op.mode
            (test op.open_flag o_excl))
unfolding lookup_open
lookup_open-created dr fs_root k a op w s (alive, missing) new creat has =
    rw
      (
        alive,
        missing,
        ◌>>=◌,
        open_loop-new dr fs_root (suc (suc k)) k a w.nd.path.dentry w s new,
        negative.1,
      )
      (open_missing-created dr fs_root (suc (suc k)) op (w.vfs.dentries w.nd.path.dentry).d_inode a
        (record w { vfs = s }) negative creat has)
  where
    negative : ((s.dentries a).d_flags ≡ 0) × ((s.dentries a).d_inode ≡ 0)
    negative = d_alloc-Negative w.vfs w.nd.path.dentry w.nd.last new
