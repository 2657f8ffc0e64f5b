-- ===== src/Calls/Tests.antt =====
-- The calls of src/api, and the creations of src/private/namei.c, at concrete inputs: a directory with
-- dentry 10 and inode 1, and an empty directory with dentry 13 and inode 2 in it.
use linux_vfs.Base.{
  ℕ, ◌%◌, ◌^◌, ◌≡◌, ◌↔◌, refl, true, none, some, [], ◌∷◌, ◌==◌, if◌then◌else◌, arith,
}
use linux_vfs.Base.Bits.{test}
use linux_vfs.Base.Errno.{enoent, ok, err}
use linux_vfs.Vfs.{Qstr, Dentry, Loc, Vfs, Driver, valid}
use linux_vfs.Dcache.{d_alloc, d_lookup, first, dont_mount}
use linux_vfs.Namei.State.{norm, Walk}
use linux_vfs.Namei.Lookup.{new_nameidata}
use linux_vfs.Namei.Create.{Created, lookup_new, create_in}
use linux_vfs.Namei.Create.Locks.{Ends, IsPlain, Locked, Unlocked, LockedIf, create_in-LockedIf}
use linux_vfs.Namei.Open.{OpenOp, lookup_open}
use linux_vfs.Namei.Open.Missing.{created, lookup_open-created}
use linux_vfs.Calls.Methods.{Methods}
use linux_vfs.Calls.May.{granted, may_delete}
use linux_vfs.Calls.Make.{mkdir_at, mknod_at}
use linux_vfs.Calls.Remove.{vfs_rmdir}
use linux_vfs.Calls.Locks.{ArePlain, mknod_at-create_in}
use linux_vfs.Calls.Gone.{Removable, may_delete-Removable, lookup_new-vfs_rmdir}

abbrev driver : Driver
driver = record {
  hash_long = λ h. h % 2 ^ 32;
  d_hash = λ s d q. ok q;
  d_revalidate = λ s d f. valid;
  d_manage = λ s p. none;
  lookup = λ s i d f. (ok none, s);
  get_link = λ s d i. ok none;
}

abbrev methods : Methods
methods = record {
  mkdir = λ s dir d mode. (none, s);
  mknod = λ s dir d mode dev. (none, s);
  symlink = λ s dir d target. (none, s);
  rmdir = λ s dir d. (none, s);
  unlink = λ s dir d. (none, s);
  has_symlink = λ dir. true;
  has_rmdir = λ dir. true;
  has_unlink = λ dir. true;
}

abbrev dentry_of : ℕ → Dentry
dentry_of d = record {
  d_flags = 0x10_0000;
  d_inode = if d == 10 then 1 else 2;
  d_sb = 1;
  d_name = record { hash = 0; len = 1; name = b'/' ∷ [] };
  d_parent = 10;
  d_children = [];
  d_hashed = true;
  d_seq = 0;
}

abbrev small : Vfs
small = record {
  dentries = dentry_of;
  inodes = λ i. record { i_mode = 0o4_0755; i_flags = 0; i_sb = 1; i_link = none };
  mounts = λ m. record {
    mnt_root = 10;
    mnt_sb = 1;
    mnt_flags = 0;
    mnt_parent = 5;
    mnt_mountpoint = 10;
    mnt_mp = 0;
  };
  supers = λ s. record { s_root = 10; s_flags = 0; s_mounts = [] };
  dcache = λ b. [];
  mount_hash = λ b. [];
  heap = 11 ∷ [];
  trace = [];
  f_path = record { mnt = 0; dentry = 0 };
  f_mode = 0;
}

abbrev top : Loc
top = record { mnt = 5; dentry = 10 }

abbrev fresh_name : Qstr
fresh_name = record { hash = 7; len = 1; name = b'a' ∷ [] }

abbrev here : Walk
here = record { vfs = small; nd = record new_nameidata { path = top; last = fresh_name } }

driver-IsPlain : IsPlain driver
driver-IsPlain s dir d flags = (refl, λ q ne. refl)

methods-ArePlain : ArePlain methods
methods-ArePlain =
    ((λ s dir d mode. (refl, λ q ne. refl)), λ s dir d mode dev. (refl, λ q ne. refl))

create_in-LockedIf_example :
    Ends
      (λ c t. LockedIf c.dentry c top 1 small t.vfs)
      (create_in driver top 3 top fresh_name norm 0 here)
create_in-LockedIf_example =
    create_in-LockedIf driver top 3 top fresh_name norm 0 here driver-IsPlain
      (λ e. omega (arith, e))

abbrev after_creation : Created × Walk
after_creation = elim (create_in driver top 3 top fresh_name norm 0 here) [
  | none ↦ (record { error = none; parent = top; dentry = none }, here)
  | some r ↦ r
]

mknod_at-create_in_example :
    Ends (λ _ t. Unlocked small t.vfs) (mknod_at methods 0o644 0 after_creation.0 after_creation.1)
    × Ends
        (λ _ t. Locked top 1 small t.vfs)
        (mkdir_at methods 0o644 after_creation.0 after_creation.1)
unfolding create_in test first d_lookup d_alloc
mknod_at-create_in_example =
    mknod_at-create_in driver methods top 3 driver-IsPlain methods-ArePlain top fresh_name norm 0
      0o644 0 11 after_creation.0 here after_creation.1 (λ e. omega (arith, e)) refl refl
      (λ e. omega (arith, e))

may_delete-Removable_example : (may_delete small 1 13 true ≡ granted) ↔ Removable small 1 13 true
may_delete-Removable_example = may_delete-Removable small 1 13 true

abbrev removed : Walk
removed = elim (vfs_rmdir methods 1 13 here) [ none ↦ here | some (r, w) ↦ w ]

lookup_new-vfs_rmdir_example :
    Removable small 1 13 true
    × (lookup_new driver top 3 fresh_name 13 0 removed ≡ some (err enoent, removed))
unfolding vfs_rmdir test dont_mount
lookup_new-vfs_rmdir_example =
    lookup_new-vfs_rmdir methods driver top 3 1 13 0 fresh_name here removed refl

abbrev creating : OpenOp
creating = record {
  open_flag = 0o100;
  mode = 0o644;
  intent = 0x300;
  lookup_flags = 1;
  do_open = λ p s. (none, s);
  has_create = λ dir. true;
  create = λ s dir d mode excl. (none, s);
}

abbrev allocated : Vfs
allocated = elim (d_alloc small 10 fresh_name) [ none ↦ small | some (d, s) ↦ s ]

lookup_open-created_example :
    lookup_open driver top 2 creating true here
    ≡ created 11
        (record here { vfs = allocated })
        (creating.create allocated 1 11 0o644 (test 0o100 0o200))
unfolding test first d_lookup d_alloc
lookup_open-created_example =
    lookup_open-created driver top 0 11 creating here allocated (refl, refl) refl refl refl
