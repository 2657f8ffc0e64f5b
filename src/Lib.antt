-- ===== src/Lib.antt =====
-- A VFS for small kernels, after that of Linux: path resolution, the dentry cache, mounts, open
-- files and the calls on descriptors. This library models the parts that the rest stands on, in
-- the words of the source, and proves what makes them correct.
--
-- The parts and their files, with paths from the root of the repository:
--   File/Ref          the reference count of an open file: include/linux/vfs/private/file_ref.h and
--                     __file_ref_put of src/file/file.c. A 32-bit word with its wrap-around. Ref is
--                     one thread alone, Ref/History a sequence of calls against a plain count,
--                     Ref/Threads the interleavings of several threads at each atomic access.
--   File/Open         build_open_how and build_open_flags of src/api/open.c: the flags of open(2).
--   File/Table        src/file/filedesc.c, src/file/fd.c and src/api/close.c: the table of
--                     descriptors (filedesc_slot_alloc, filedesc_slot_finstall, filedesc_file_get),
--                     and the calls that take, give back and close one, with the counts of the files.
--   File/Calls        src/api/{read,write,lseek,ioctl,fcntl}.c and do_dentry_open of src/api/open.c. The methods
--                     of a file system are the parameter FileOperations.
--   File/Getdents     filldir, iterate_dir and __getdents of src/api/readdir.c: the records of a
--                     directory in the buffer of the user.
--   Vfs               the objects (struct dentry, inode, mount, super_block, path) and the state that
--                     holds them. An address is a number, an object is the value of a function at its
--                     address; `heap` lists the addresses that allocations return. Reference counts
--                     of dentries and mounts are not kept: each get and put is written to `trace`,
--                     those of a NULL pointer included, which the code ignores. So are the exclusive
--                     locks of inodes, write access to mounts, and names from the user. The file that open is
--                     opening stands there with its path and mode.
--   Dcache            src/dentry/{dcache,d_lookup,d_alloc,d_make_root}.c: the chains of the cache, the
--                     two lookups, allocation, and the type that an inode gives to a dentry.
--   Dcache/Life       src/dentry/dentry.c: retain_dentry, dget. Life/Kill has dput and what it calls,
--                     with reference counts and the locks of dentries and inodes; Life/Safety,
--                     Life/Locks, Life/Ends, Life/Loop, Life/Rounds and Life/Shared prove what it does.
--   Namei/Hash        src/stringhash.c and hash_name of src/private/namei.c.
--   Namei/Filename    getname_flags and putname of src/private/filename.c.
--   Namei/State       struct nameidata; a walk is a state monad over the VFS and the nameidata.
--   Namei/Mounts      __follow_mount_rcu, __traverse_mounts, handle_mounts, choose_mountpoint_rcu,
--                     and __lookup_mnt of src/mnt/namespace.c.
--   Namei/Links       put_link, reserve_stack, set_root, nd_jump_root and pick_link.
--   Namei/Steps       src/private/namei/{namei-dots,namei-lookup}.c, step_into and walk_component.
--   Namei/Walk        link_path_walk.
--   Namei/Lookup      path_init, terminate_walk, path_lookupat, path_parentat and their callers
--                     __filename_lookup and __namei_parentat.
--   Namei/Create      lookup_one_qstr_excl, __namei_create and its callers, vfs_path_parent_lookup.
--   Namei/Open        lookup_open, open_last_lookups, namei_open and namei_lookup.
--   Calls             may_delete of src/private/namei-may.c, and the calls that change directories:
--                     src/api/{mkdir,mknod,symlink,rmdir,unlink,rename}.c.
--   Calls/Cwd         src/cwd.c, src/api/chdir.c and src/api/chroot.c.
--   Calls/Readlink    src/api/readlink.c; copy_to_user is the parameter CopyToUser.
--   Calls/Openat      __file_alloc, do_open and vfs_openat_api of src/api/open.c: open(2) from the flags to the
--                     descriptor.
--   Mnt/Tree          mountpoints and the attaching of a mount, from src/mnt/namespace.c.
--   Mnt/Context       src/mnt/fs_context.c: contexts and the parsing of their parameters. The state of a
--                     call of mount(2), and the monad in which the calls of Mnt are written: a run is
--                     done, or faults on an access through NULL or through an unset value, or has no fuel
--                     left.
--   Mnt/Super         src/super.c, vfs_create_mount and fc_mount of src/mnt/namespace.c, and
--                     src/mnt/kern_mount.c.
--   Mnt/Flags         the flags of mount(2): path_mount up to its call of do_new_mount.
--   Mnt/Mount         do_new_mount_fc, do_new_mount, path_mount and path_umount of src/mnt/namespace.c,
--                     and do_mount of src/api/mount.c.
--   Mnt/Pseudo        src/libfs/pseudo_fs.c.
--   Mnt/Filesystems   src/filesystems.c: the types of file systems that are registered.
--   Init              dcache_init, mnt_init and vfs_init: the tables of chains. __ilog2_u32 is a parameter.
--   Uio               src/uio/iov_iter.c: copies to and from the buffer of a user; raw_copy_to_user and
--                     raw_copy_from_user are the parameter Uaccess.
--   Base              shared names, lists over the native numbers, errors, and bits of a word.
--   Tests, File/Tests, File/Calls/Tests, Calls/Tests, Dcache/Life/Tests, Mnt/Filesystems/Tests, Mnt/Flags/Tests,
--                     Mnt/Mount/Tests, Calls/Cwd/Tests, Calls/Readlink/Tests,
--                     Calls/Openat/Tests, Init/Tests, Uio/Tests
--                     the theorems at concrete inputs, and whole lookups in a small tree.
--
-- How they interact: a lookup by name (Namei/Lookup, Namei/Walk) splits the path (Namei/Hash),
-- asks the cache for each component (Dcache), crosses mount points (Namei/Mounts), which Mnt/Tree
-- puts there, and follows links (Namei/Links). The methods of file systems (d_hash, d_revalidate,
-- d_manage, lookup, get_link) and hash_long are fields of the parameter `Driver`; where a theorem
-- needs something of them, as that a lookup gives back the locks it takes, it is a named
-- hypothesis (`IsPlain`, `ArePlain`). The root of a process is a parameter of the walk; in the
-- code it comes from the descriptor table. The calls on directories (Calls) get the parent from
-- Namei/Create, which stands on Namei/Lookup. open(2) (Calls/Openat) joins the flags (File/Open),
-- the table (File/Table), the walk (Namei/Open) and the methods of the file (File/Calls). The
-- calls on open files (File/Calls) take the file from the table (File/Table) and give it back;
-- their methods are those of the file system, which copy by Uio. A call of mount(2) (Mnt/Mount)
-- looks its directory up (Namei/Open), finds the type (Mnt/Filesystems), sets up a context
-- (Mnt/Context), gets the root from the file system (Mnt/Super), whose methods are the parameter
-- ContextMethods, and attaches the mount (Mnt/Tree). Dcache/Life keeps a state of its own, since
-- the walk only notes its references; lockref, which another repository has, is the parameter
-- `Hooks`, with `PutReturns` for what its documentation promises.
--
-- Loops: hash_name, the chains of the cache and the table of descriptors are structural recursion.
-- The loops over mounts, over stale dentries, over the components of a path and over trailing
-- links have fuel; `none` means that it ran out, and nothing else. That enough fuel exists for a
-- whole walk is not proved; do_lock_mount needs one round more than mounts are stacked on its
-- path. In Dcache/Life the moves of other threads are a finite list, and the loop on a changing
-- inode, which has no bound in the source, has one round more than they; the loop of dput takes
-- one round for each dentry on the way to the root.
--
-- Not modelled: the locks of the cache and of mounts, and memory order (RCU mode is the sequence
-- counts it compares, and the writers of dentries are no part of a walk), delayed calls, access
-- times, the checks of security modules and permissions, which are constants in the source; inodes
-- themselves, with their counts; the rest of src/libfs, and src/bdev-depend. In File/Table the
-- branch of a full table returns no descriptor, where the code leaves one unset. What an unset
-- variable holds is a field or a parameter where it is returned: unset_ret of Mnt/Tree for
-- get_mountpoint, unset of Calls/Rename for __rename. In Dcache a name longer than d_iname is
-- written past its end.
pub mod Base
pub mod File
pub mod Vfs
pub mod Dcache
pub mod Namei
pub mod Calls
pub mod Mnt
pub mod Uio
pub mod Init
pub mod Tests
