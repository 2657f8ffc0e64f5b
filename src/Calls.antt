-- ===== src/Calls.antt =====
-- The calls that change directories: src/api/{mkdir,mknod,symlink,rmdir,unlink,rename}.c. `May` holds
-- the test of src/private/namei-may.c, `Make` the calls that create, `Remove` those that remove, and
-- `Rename` the last one. The hooks of include/linux/vfs/private/security.h allow everything.
pub mod Methods
pub mod May
pub mod Make
pub mod Locks
pub mod Cwd
pub mod Readlink
pub mod Openat
pub mod Remove
pub mod Rename
pub mod Gone
pub mod Tests
