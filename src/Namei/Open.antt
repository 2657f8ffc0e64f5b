-- ===== src/Namei/Open.antt =====
-- Opening the last component of a path, src/private/namei.c: `lookup_open`, `open_last_lookups`,
-- `do_open`, `do_o_path`, `__namei_path_openat`, `namei_open`; `namei_lookup` and `kern_path`. Of the
-- open file only FMODE_CREATED is kept, as part of what `lookup_open` returns. A shared lock of an
-- inode is not noted; `may_o_create` allows everything, and `vfs_prepare_mode` returns its mode.
pub mod Missing
use linux_vfs.Base.{
  ℕ, zero, suc, Bool, true, false, not, ◌&&◌, ◌||◌, Option, none, some, List, ◌==◌, if◌then◌else◌,
  bit_or,
}
use linux_vfs.Base.Bits.{test, clear}
use linux_vfs.Base.Errno.{
  Errno, enoent, enomem, eacces, erofs, eisdir, echild, estale, Result, ok, err,
}
use linux_vfs.Vfs.{
  Qstr, Loc, Vfs, dput, inode_lock, inode_unlock, want_write, drop_write, getname, putname,
  path_put, valid, stale, Driver, dcache_par_lookup,
}
use linux_vfs.Vfs as Objects
use linux_vfs.Dcache.{d_alloc, d_lookup}
use linux_vfs.File.Open.{o_creat, o_excl, o_trunc, o_path}
use linux_vfs.Namei.State.{
  LastType, norm, Nameidata, Link, nothing, body, failed, M, pure, ◌>>=◌, ◌>>◌, out_of_fuel, get,
  set_nd, set_vfs, ref, lookup_rcu, lookup_follow, lookup_directory, lookup_reval, walk_trailing,
  in_rcu,
}
use linux_vfs.Namei.Links.{put_link}
use linux_vfs.Namei.Steps.{d_revalidate, lookup_fast, step_into, handle_dots, leave_link}
use linux_vfs.Namei.Walk.{link_path_walk}
use linux_vfs.Namei.Lookup.{
  has_trailing, new_nameidata, path_init, path_lookupat, terminate_walk, filename_lookup,
}
use linux_vfs.File.Open.Flags.{lookup_create, lookup_excl}
use linux_vfs.Namei.Create.{s_dead}

-- `struct open_flags`, and what it calls.
pub record OpenOp : Type 0 where
  pub open_flag : ℕ
  pub mode : ℕ
  pub intent : ℕ
  pub lookup_flags : ℕ
  pub do_open : Loc → Vfs → Option Errno × Vfs
  pub has_create : ℕ → Bool
  pub create : Vfs → ℕ → ℕ → ℕ → Bool → Option Errno × Vfs

abbrev lookup_open_flag : ℕ
lookup_open_flag = 0x100

-- O_WRONLY | O_RDWR.
abbrev o_writing : ℕ
o_writing = 3

abbrev pub inode_of : Vfs → ℕ → ℕ
inode_of s d = (s.dentries d).d_inode

-- `lookup_open` finds a dentry; the flag is FMODE_CREATED.
pub data Opened : Type 0 where
  opened : ℕ → Bool → Opened
  not_opened : Errno → Opened

-- The dentry is put, with an error.
abbrev give_up : ℕ → Errno → M Opened
give_up d e = do ref (dput d); pure (not_opened e)

-- Without write access a creation is refused.
unfoldable pub create_error : OpenOp → Bool → Option Errno
create_error op got_write = if test op.open_flag o_creat && not got_write then some erofs else none

unfoldable pub create_flags : OpenOp → Bool → ℕ
create_flags op got_write =
    if got_write
    then op.open_flag
    else clear (clear op.open_flag o_trunc) (if test op.open_flag o_creat then o_creat else 0)

-- What the method `create` has answered.
unfoldable pub answer : ℕ → Option Errno → Option Errno × Vfs → M Opened
answer d refused (some e, s) = do set_vfs (λ _. s); give_up d e
answer d none (none, s) = do set_vfs (λ _. s); pure (opened d true)
answer d (some e) (none, s) = do
  set_vfs (λ _. s)
  if inode_of s d == 0 then give_up d e else pure (opened d true)

-- `lookup_open` at a dentry with no inode, with the flags and the error of a creation that is not
-- allowed.
unfoldable pub create_negative : OpenOp → ℕ → ℕ → ℕ → Option Errno → M Opened
unfolding answer
create_negative op flags dir d refused = do
  w ← get
  if test flags o_creat
      then (if not (op.has_create dir)
          then give_up d eacces
          else answer d refused (op.create w.vfs dir d op.mode (test flags o_excl)))
      else elim refused [ none ↦ pure (opened d false) | some e ↦ give_up d e ]

-- What `do_open` needs once the walk has ended; `complete_walk` is empty.
unfoldable pub open_at : OpenOp → Loc → M (Option Errno)
open_at op p = do w ← get; let (r, s) = op.do_open p w.vfs; set_vfs (λ _. s); pure r

module _ (dr : Driver) (fs_root : Loc) (fuel : ℕ) where
  -- The loop at the start of `lookup_open`, at the dentry that was found last.
  unfoldable pub open_loop : ℕ → ℕ → Option ℕ → M (Result ℕ)
  open_loop zero dir found = out_of_fuel
  open_loop (suc k) dir none = do
    w ← get
    let again = open_loop k dir
    elim (d_alloc w.vfs dir w.nd.last) [
      | none ↦ pure (err enomem)
      | some (d, s) ↦ do set_vfs (λ _. s); again (some d)
    ]
  open_loop (suc k) dir (some d) = do
    w ← get
    let again = open_loop k dir none
    if test (w.vfs.dentries d).d_flags dcache_par_lookup
        then pure (ok d)
        else elim (d_revalidate dr fs_root fuel w.vfs d w.nd.flags) [
          | valid ↦ pure (ok d)
          | stale ↦ do ref (dput d); again
          | Objects.failed e ↦ do ref (dput d); pure (err e)
        ]

  -- A dentry that is still in lookup is looked up by the file system.
  unfoldable pub ask_driver : ℕ → ℕ → M (Result ℕ)
  ask_driver dir d = do
    w ← get
    if not (test (w.vfs.dentries d).d_flags dcache_par_lookup) then pure (ok d) else (do
      let (r, s) = dr.lookup w.vfs dir d w.nd.flags
      set_vfs (λ _. s)
      elim r [
        | err e ↦ do ref (dput d); pure (err e)
        | ok (some old) ↦ do ref (dput d); pure (ok old)
        | ok none ↦ pure (ok d)
      ])

  unfoldable pub open_missing : OpenOp → Bool → ℕ → ℕ → M Opened
  unfolding ask_driver create_negative create_flags create_error
  open_missing op got_write dir d = do
    r ← ask_driver dir d
    w ← get
    elim r [
      | err e ↦ pure (not_opened e)
      | ok d' ↦
          if not (inode_of w.vfs d' == 0)
          then pure (opened d' false)
          else create_negative op (create_flags op got_write) dir d' (create_error op got_write)
    ]

  unfoldable pub lookup_open : OpenOp → Bool → M Opened
  unfolding open_loop open_missing
  lookup_open op got_write = do
    w ← get
    let dir = w.nd.path.dentry
    if test (w.vfs.inodes (inode_of w.vfs dir)).i_flags s_dead
        then pure (not_opened enoent)
        else (do
          r ← open_loop fuel dir (d_lookup w.vfs dir w.nd.last)
          w' ← get
          elim r [
            | err e ↦ pure (not_opened e)
            | ok d ↦
                if not (inode_of w'.vfs d == 0)
                then pure (opened d false)
                else open_missing op got_write (inode_of w.vfs dir) d
          ])

  -- The label `finish_lookup`.
  unfoldable pub enter_last : ℕ → M Link
  unfolding step_into put_link
  enter_last d = do
    leave_link dr fs_root fuel 0
    link ← step_into dr fs_root fuel walk_trailing d
    elim link [
      | nothing ↦ pure nothing
      | l ↦ do
        set_nd (λ nd. record nd {
          flags = clear nd.flags (bit_or lookup_open_flag (bit_or lookup_create lookup_excl));
        })
        pure l
    ]

  -- The lookup under the lock of the directory.
  unfoldable pub open_locked : OpenOp → M Link
  unfolding lookup_open enter_last
  open_locked op = do
    w ← get
    let dir = inode_of w.vfs w.nd.path.dentry
    let creating = test op.open_flag o_creat
    let got_write = test op.open_flag (bit_or (bit_or o_creat o_trunc) o_writing)
    (if got_write then ref (want_write w.nd.path.mnt) else pure tt)
    (if creating then ref (inode_lock dir) else pure tt)
    r ← lookup_open op got_write
    w' ← get
    (if creating then ref (inode_unlock (inode_of w'.vfs w.nd.path.dentry)) else pure tt)
    (if got_write then ref (drop_write w.nd.path.mnt) else pure tt)
    elim r [
      | not_opened e ↦ pure (failed e)
      | opened d true ↦ do
        ref (dput w.nd.path.dentry)
        set_nd (λ nd. record nd { path = record { mnt = nd.path.mnt; dentry = d } })
        pure nothing
      | opened d false ↦ enter_last d
    ]

  unfoldable pub open_cached : OpenOp → M Link
  unfolding lookup_fast open_locked enter_last
  open_cached op = do
    r ← lookup_fast dr fs_root fuel
    w ← get
    elim r [
      | err e ↦ pure (failed e)
      | ok (some d) ↦ enter_last d
      | ok none ↦ if in_rcu w then pure (failed echild) else open_locked op
    ]

  abbrev by_last_type : OpenOp → LastType → M Link
  by_last_type op norm = do
    w ← get
    let trailing = has_trailing w.nd.last
    if test op.open_flag o_creat
        then (if trailing then pure (failed eisdir) else open_locked op)
        else (do
          (if trailing
              then set_nd (λ nd. record nd {
                flags = bit_or nd.flags (bit_or lookup_follow lookup_directory);
              })
              else pure tt)
          open_cached op)
  by_last_type op t = do leave_link dr fs_root fuel 0; handle_dots dr fs_root fuel t

  -- `open_last_lookups`; NULL if there is nothing to follow.
  unfoldable pub open_last_lookups : OpenOp → M Link
  unfolding has_trailing open_cached open_locked handle_dots put_link
  open_last_lookups op = do
    set_nd (λ nd. record nd { flags = bit_or nd.flags op.intent })
    w ← get
    by_last_type op w.nd.last_type

  -- The loop of `__namei_path_openat`.
  unfoldable pub openat_loop : OpenOp → ℕ → Link → M (Option Errno)
  openat_loop op zero s = out_of_fuel
  openat_loop op (suc k) s = do
    bad ← link_path_walk dr fs_root fuel s
    elim bad [
      | some e ↦ pure (some e)
      | none ↦ do
        link ← open_last_lookups op
        elim link [ nothing ↦ pure none | l ↦ openat_loop op k l ]
    ]

  unfoldable pub do_o_path : OpenOp → List ℕ → ℕ → M (Option Errno)
  unfolding path_lookupat open_at
  do_o_path op name flags = do
    r ← path_lookupat dr fs_root fuel name flags
    elim r [ err e ↦ pure (some e) | ok p ↦ do r' ← open_at op p; set_vfs (path_put p); pure r' ]

  unfoldable pub namei_path_openat : OpenOp → List ℕ → ℕ → M (Option Errno)
  unfolding do_o_path path_init openat_loop link_path_walk open_at terminate_walk
  namei_path_openat op name flags =
      if test op.open_flag o_path then do_o_path op name flags else (do
        s ← path_init dr fs_root fuel name flags
        bad ← openat_loop op fuel s
        w ← get
        r ← elim bad [ some e ↦ pure (some e) | none ↦ open_at op w.nd.path ]
        terminate_walk dr fs_root fuel
        pure r)

  -- The three attempts of `namei_open`.
  unfoldable pub open_attempts : OpenOp → List ℕ → M (Option Errno)
  unfolding namei_path_openat
  open_attempts op name = do
    r ← namei_path_openat op name (bit_or op.lookup_flags lookup_rcu)
    r' ← elim r [ some echild ↦ namei_path_openat op name op.lookup_flags | x ↦ pure x ]
    elim r' [
      | some estale ↦ namei_path_openat op name (bit_or op.lookup_flags lookup_reval)
      | x ↦ pure x
    ]

  unfoldable pub namei_open : OpenOp → Result (List ℕ) → M (Option Errno)
  unfolding open_attempts
  namei_open op (err e) = pure (some e)
  namei_open op (ok name) = do
    ref getname
    set_nd (λ _. new_nameidata)
    r ← open_attempts op name
    ref putname
    pure r

  -- `namei_lookup`, and `kern_path` with a path for `ni_ret_parent`.
  unfoldable pub namei_lookup : Result (List ℕ) → ℕ → M (Result Loc)
  unfolding filename_lookup
  namei_lookup (err e) flags = pure (err e)
  namei_lookup (ok name) flags = do
    ref getname
    set_nd (λ _. new_nameidata)
    r ← filename_lookup dr fs_root fuel name flags
    ref putname
    pure r
