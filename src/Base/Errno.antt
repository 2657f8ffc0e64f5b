-- ===== src/Base/Errno.antt =====
-- Error numbers. A C result that is `-E` on failure is `err E`, any other is `ok`.
use Prim.Native.Nat.{ℕ}
use mathlib.Core.Bool.{Bool, true, false}

-- `no_errno` is what an int that was never set holds when that is neither 0 nor the negative of an error
-- number; `other` stands for any error of a driver that the VFS has no name for.
pub data Errno : Type 0 where
  eperm enoent eio ebadf eagain enomem eacces efault enotblk ebusy eexist exdev enodev enotdir :
      Errno
  eisdir einval enotty espipe erofs enametoolong enotempty eloop eoverflow estale echild : Errno
  enotrecoverable enoparam enoioctlcmd no_errno : Errno
  other : ℕ → Errno

abbrev pub is_no_errno : Errno → Bool
is_no_errno no_errno = true
is_no_errno _ = false

pub data Result {ℓ} (A : Type ℓ) : Type ℓ where
  ok : A → Result A
  err : Errno → Result A

infixl 5 ◌>>◌ ◌>>=◌
abbrev pub ◌>>=◌ {ℓ} : {S T : Type ℓ} → Result S → (S → Result T) → Result T
err bad >>= next = err bad
ok value >>= next = next value

abbrev pub ◌>>◌ : {T : Type 0} → Result (Unit {0}) → Result T → Result T
first >> second = first >>= λ _. second

-- An early `return -E` under a test.
abbrev pub fail_if : Bool → Errno → Result (Unit {0})
fail_if true e = err e
fail_if false e = ok tt
