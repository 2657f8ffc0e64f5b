-- ===== src/Calls/Methods.antt =====
-- The methods of a directory inode that src/api calls, `struct inode_operations`. They get the inode
-- of the directory, the dentry and what else the call is given, and return 0 or an error.
use linux_vfs.Base.{ℕ, Bool, Option, List}
use linux_vfs.Base.Errno.{Errno}
use linux_vfs.Vfs.{Vfs}

pub record Methods : Type 0 where
  pub mkdir : Vfs → ℕ → ℕ → ℕ → Option Errno × Vfs
  pub mknod : Vfs → ℕ → ℕ → ℕ → ℕ → Option Errno × Vfs
  pub symlink : Vfs → ℕ → ℕ → List ℕ → Option Errno × Vfs
  pub rmdir : Vfs → ℕ → ℕ → Option Errno × Vfs
  pub unlink : Vfs → ℕ → ℕ → Option Errno × Vfs
  pub has_symlink : ℕ → Bool
  pub has_rmdir : ℕ → Bool
  pub has_unlink : ℕ → Bool
