-- ===== src/Calls/May.antt =====
-- Whether an entry may be removed: `may_delete` of src/private/namei-may.c, with the flags of
-- include/linux/vfs/inode.h. Every user may write to every directory (`inode_permission`), and all
-- identifiers are mapped.
use linux_vfs.Base.{ℕ, Bool, not, ◌||◌, ◌==◌, if◌then◌else◌}
use linux_vfs.Base.Bits.{test}
use linux_vfs.Base.Errno.{Errno, enoent, eperm, enotdir, ebusy, eisdir}
use linux_vfs.Namei.Create.{s_dead}
use linux_vfs.Vfs.{Vfs, d_is_dir, d_is_miss}

abbrev pub s_append : ℕ
s_append = 0x4

abbrev pub s_immutable : ℕ
s_immutable = 0x8

abbrev pub s_swapfile : ℕ
s_swapfile = 0x100

-- `bug`: a BUG_ON.
pub data Verdict : Type 0 where
  granted bug : Verdict
  refused : Errno → Verdict

-- The tests on the kind of the victim.
unfoldable pub may_delete_kind : Vfs → ℕ → ℕ → Bool → Verdict
may_delete_kind s dir victim isdir =
    let d = s.dentries victim in
    let alive = if test (s.inodes dir).i_flags s_dead then refused enoent else granted in
    if isdir
    then (if not (d_is_dir d.d_flags)
        then refused enotdir
        else if victim == d.d_parent
        then refused ebusy
        else alive)
    else if d_is_dir d.d_flags
    then refused eisdir
    else alive

unfoldable pub may_delete : Vfs → ℕ → ℕ → Bool → Verdict
unfolding may_delete_kind
may_delete s dir victim isdir =
    let d = s.dentries victim in
    let flags = (s.inodes d.d_inode).i_flags in
    if d_is_miss d.d_flags
    then refused enoent
    else if d.d_inode == 0
    then bug
    else if not ((s.dentries d.d_parent).d_inode == dir)
    then bug
    else if test (s.inodes dir).i_flags s_append
    then refused eperm
    else if test flags s_append || test flags s_immutable || test flags s_swapfile
    then refused eperm
    else may_delete_kind s dir victim isdir
