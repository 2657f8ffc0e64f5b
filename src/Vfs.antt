-- ===== src/Vfs.antt =====
-- The objects of the VFS and the state that holds them: include/linux/vfs/{dentry,inode,mount}.h,
-- include/linux/vfs/private/{dcache,mount}.h. An address is a number, NULL is 0. A name is the list
-- of its bytes up to the terminating NUL, which is not part of it. The counts of references are not
-- kept in the objects here: each get and put of a reference, an inode's lock, write access to a
-- mount or a name from the user is written to `trace`, newest first.
use linux_vfs.Base.{ℕ, Bool, true, Option, List, ◌∷◌, ◌==◌, if◌then◌else◌}
use linux_vfs.Base.Errno.{Errno, Result}
use linux_vfs.Base.{bit_and}

pub record Qstr : Type 0 where
  pub hash : ℕ
  pub len : ℕ
  pub name : List ℕ

pub record Dentry : Type 0 where
  pub d_flags : ℕ
  pub d_inode : ℕ
  pub d_sb : ℕ
  pub d_name : Qstr
  pub d_parent : ℕ
  pub d_children : List ℕ
  pub d_hashed : Bool
  pub d_seq : ℕ

pub record Inode : Type 0 where
  pub i_mode : ℕ
  pub i_flags : ℕ
  pub i_sb : ℕ
  pub i_link : Option (List ℕ)

-- `struct mount`; its embedded `struct vfsmount` has the same address.
pub record Mount : Type 0 where
  pub mnt_root : ℕ
  pub mnt_sb : ℕ
  pub mnt_flags : ℕ
  pub mnt_parent : ℕ
  pub mnt_mountpoint : ℕ
  pub mnt_mp : ℕ

pub record Super : Type 0 where
  pub s_root : ℕ
  pub s_flags : ℕ
  pub s_mounts : List ℕ

pub record Loc : Type 0 where
  pub mnt : ℕ
  pub dentry : ℕ

pub data Ref : Type 0 where
  dget dput mntget mntput : ℕ → Ref
  inode_lock inode_unlock want_write drop_write : ℕ → Ref
  getname putname : Ref

-- `heap` are the addresses that the next allocations return; on the empty list they fail. `f_path` and
-- `f_mode` are of the file that is being opened.
pub record Vfs : Type 0 where
  pub dentries : ℕ → Dentry
  pub inodes : ℕ → Inode
  pub mounts : ℕ → Mount
  pub supers : ℕ → Super
  pub dcache : ℕ → List ℕ
  pub mount_hash : ℕ → List ℕ
  pub heap : List ℕ
  pub trace : List Ref
  pub f_path : Loc
  pub f_mode : ℕ

abbrev pub update {ℓ} : {A : Type ℓ} → (ℕ → A) → ℕ → A → ℕ → A
update f p v q = if q == p then v else f q

abbrev pub note : Ref → Vfs → Vfs
note r s = record s { trace = r ∷ s.trace }

abbrev pub path_get : Loc → Vfs → Vfs
path_get p s = note (dget p.dentry) (note (mntget p.mnt) s)

abbrev pub path_put : Loc → Vfs → Vfs
path_put p s = note (mntput p.mnt) (note (dput p.dentry) s)

-- The flags of a dentry that the walk reads.
abbrev pub dcache_op_hash : ℕ
dcache_op_hash = 0x1

abbrev pub dcache_op_compare : ℕ
dcache_op_compare = 0x2

abbrev pub dcache_op_revalidate : ℕ
dcache_op_revalidate = 0x4

abbrev pub dcache_cant_mount : ℕ
dcache_cant_mount = 0x100

abbrev pub dcache_mounted : ℕ
dcache_mounted = 0x8000

abbrev pub dcache_need_automount : ℕ
dcache_need_automount = 0x1_0000

abbrev pub dcache_manage_transit : ℕ
dcache_manage_transit = 0x2_0000

abbrev pub dcache_managed_dentry : ℕ
dcache_managed_dentry = 0x3_8000

abbrev pub dcache_entry_type : ℕ
dcache_entry_type = 0x38_0000

abbrev pub miss_type : ℕ
miss_type = 0

abbrev pub directory_type : ℕ
directory_type = 0x10_0000

abbrev pub autodir_type : ℕ
autodir_type = 0x18_0000

abbrev pub regular_type : ℕ
regular_type = 0x20_0000

abbrev pub special_type : ℕ
special_type = 0x28_0000

abbrev pub symlink_type : ℕ
symlink_type = 0x30_0000

abbrev pub dcache_par_lookup : ℕ
dcache_par_lookup = 0x100_0000

abbrev pub d_entry_type : ℕ → ℕ
d_entry_type flags = bit_and flags dcache_entry_type

abbrev pub d_can_lookup : ℕ → Bool
d_can_lookup flags = d_entry_type flags == directory_type

abbrev pub d_is_dir : ℕ → Bool
d_is_dir flags = if d_can_lookup flags then true else d_entry_type flags == autodir_type

abbrev pub d_is_symlink : ℕ → Bool
d_is_symlink flags = d_entry_type flags == symlink_type

abbrev pub d_is_miss : ℕ → Bool
d_is_miss flags = d_entry_type flags == miss_type

-- What `d_revalidate` returns: positive, zero, or an error.
pub data Reval : Type 0 where
  valid stale : Reval
  failed : Errno → Reval

-- The methods of the file systems, and the hash of linux/hash.h.
pub record Driver : Type 0 where
  pub hash_long : ℕ → ℕ
  pub d_hash : Vfs → ℕ → Qstr → Result Qstr
  pub d_revalidate : Vfs → ℕ → ℕ → Reval
  pub d_manage : Vfs → Loc → Option Errno
  pub lookup : Vfs → ℕ → ℕ → ℕ → Result (Option ℕ) × Vfs
  pub get_link : Vfs → ℕ → ℕ → Result (Option (List ℕ))
