-- ===== src/Namei/Links.antt =====
-- Symbolic links: the stack of links, jumps to the root, and `pick_link` of src/private/namei.c.
-- `try_to_unlazy`, `may_follow_link`, `security_inode_follow_link` and `atime_needs_update` always
-- let the walk go on, and `legitimize_path` never grabs a link; they are constants here. Delayed
-- calls belong to the file systems and are left out.
pub mod Room
pub mod Scope
use linux_vfs.Base.{
  ℕ, zero, suc, ◌+◌, ◌≤◌, Bool, true, false, not, ◌&&◌, ◌||◌, Option, none, some, List, [], ◌∷◌,
  ◌==◌, if◌then◌else◌, leb, length,
}
use linux_vfs.Base.Bits.{test}
use linux_vfs.Base.Errno.{Errno, eloop, enomem, echild, exdev, enotrecoverable, Result, ok, err}
use linux_vfs.Vfs.{Dentry, Inode, Mount, Loc, Vfs, path_get, path_put, Driver}
use linux_vfs.Namei.Hash.{slash, skip_slash}
use linux_vfs.Namei.State.{
  Nameidata, Walk, Link, nothing, body, failed, M, pure, ◌>>=◌, ◌>>◌, get, set_nd, set_vfs,
  lookup_no_symlinks, lookup_no_xdev, lookup_beneath, lookup_is_scoped, mnt_nosymfollow,
  maxsymlinks, embedded_levels, in_rcu, seq_changed,
}

-- The innermost link is left; outside RCU mode its reference is given back.
unfoldable pub put_link : M (Unit {0})
put_link w = elim w.nd.links [
  | [] ↦ some (tt, w)
  | link ∷ links ↦ some (
    tt,
    record w {
      nd = record (w.nd) { links = links };
      vfs = if in_rcu w then w.vfs else path_put link w.vfs;
    },
  )
]

-- `nd_alloc_stack`: room for MAXSYMLINKS links, if there is memory.
unfoldable pub nd_alloc_stack : M Bool
nd_alloc_stack w = elim w.vfs.heap [
  | [] ↦ some (false, w)
  | a ∷ heap ↦
      some (
        true,
        record w { nd = record (w.nd) { grown = true }; vfs = record (w.vfs) { heap = heap } },
      )
]

unfoldable pub reserve_stack : M (Option Errno)
unfolding nd_alloc_stack
reserve_stack = do
  w ← get
  set_nd (λ nd. record nd { total_link_count = nd.total_link_count + 1 })
  if leb maxsymlinks w.nd.total_link_count
      then pure (some eloop)
      else if not (length w.nd.links == embedded_levels)
      then pure none
      else if w.nd.grown
      then pure none
      else (do
        got ← nd_alloc_stack
        pure (if got then none else if in_rcu w then some echild else some enomem))

-- After a jump to the root; an empty rest is a pure jump.
unfoldable pub go_on : List ℕ → M Link
unfolding put_link
go_on [] = do put_link; pure nothing
go_on (c ∷ cs) = pure (body (c ∷ cs))

-- No place on the stack: outside RCU mode the reference to the link is given back.
unfoldable pub refuse_link : Loc → Errno → M Link
refuse_link link e = do
  w ← get
  (if in_rcu w then pure tt else set_vfs (path_put link))
  pure (failed e)

-- The text of a link, cached in the inode or from the file system; in RCU mode it is asked first
-- without the dentry.
unfoldable pub link_text : Driver → Walk → Loc → ℕ → Result (Option (List ℕ))
link_text dr w link inode = elim (w.vfs.inodes inode).i_link [
  | some text ↦ ok (some text)
  | none ↦
      if in_rcu w
      then elim (dr.get_link w.vfs 0 inode) [
        | err echild ↦ dr.get_link w.vfs link.dentry inode
        | r ↦ r
      ]
      else dr.get_link w.vfs link.dentry inode
]

-- The root of the process, from its descriptor table.
module _ (fs_root : Loc) where
  unfoldable pub set_root : M (Option Errno)
  set_root = do
    w ← get
    if test w.nd.flags lookup_is_scoped then pure (some enotrecoverable) else (do
      set_vfs (path_get fs_root)
      set_nd (λ nd. record nd {
        root = fs_root;
        root_grabbed = if in_rcu w then nd.root_grabbed else true;
      })
      pure none)

  -- To the root of the walk, once `nd->root` is known.
  unfoldable pub jump_to_root : M (Option Errno)
  jump_to_root = do
    w ← get
    let root = w.nd.root
    let inode = (w.vfs.dentries root.dentry).d_inode
    if in_rcu w
        then (do
          set_nd (λ nd. record nd { path = root; inode = inode; seq = nd.root_seq })
          if seq_changed w root.dentry w.nd.root_seq
              then pure (some echild)
              else (do set_nd (λ nd. record nd { jumped = true }); pure none))
        else (do
          set_vfs (λ s. path_get root (path_put w.nd.path s))
          set_nd (λ nd. record nd { path = root; inode = inode; jumped = true })
          pure none)

  unfoldable pub nd_jump_root : M (Option Errno)
  unfolding set_root jump_to_root
  nd_jump_root = do
    w ← get
    let away = not (w.nd.path.mnt == 0) && not (w.nd.path.mnt == w.nd.root.mnt)
    if test w.nd.flags lookup_beneath
        then pure (some exdev)
        else if test w.nd.flags lookup_no_xdev && away
        then pure (some exdev)
        else if w.nd.root.mnt == 0
        then (do bad ← set_root; elim bad [ some e ↦ pure (some e) | none ↦ jump_to_root ])
        else jump_to_root

  -- What `pick_link` does with the text of a link: an absolute one starts at the root.
  unfoldable pub enter_link : List ℕ → M Link
  unfolding put_link nd_jump_root skip_slash go_on
  enter_link [] = do put_link; pure nothing
  enter_link (c ∷ cs) = if not (c == slash) then pure (body (c ∷ cs)) else (do
    bad ← nd_jump_root
    elim bad [ some e ↦ pure (failed e) | none ↦ go_on (skip_slash cs) ])

  -- The link on the stack, and its text.
  unfoldable pub push_link : Driver → Loc → ℕ → M Link
  unfolding link_text enter_link put_link
  push_link dr link inode = do
    set_nd (λ nd. record nd { links = link ∷ nd.links })
    w ← get
    if test w.nd.flags lookup_no_symlinks || test (w.vfs.mounts link.mnt).mnt_flags mnt_nosymfollow
        then pure (failed eloop)
        else elim (link_text dr w link inode) [
          | err e ↦ pure (failed e)
          | ok none ↦ do put_link; pure nothing
          | ok (some text) ↦ enter_link text
        ]

  unfoldable pub pick_link : Driver → Loc → ℕ → M Link
  unfolding reserve_stack refuse_link push_link
  pick_link dr link inode = do
    bad ← reserve_stack
    elim bad [ some e ↦ refuse_link link e | none ↦ push_link dr link inode ]
