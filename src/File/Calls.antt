-- ===== src/File/Calls.antt =====
-- The calls on open files: src/api/{read,write,lseek,ioctl}.c, and the opening of a file by
-- do_dentry_open of src/api/open.c. The methods of a file system and the memory that they work on,
-- that of the user included, are parameters: `W` is the state of both. A method that is NULL is
-- `none`. Of struct file and struct file_operations the model has what these calls use. Positions and
-- results are the values of words that are not negative; errors are `err`.
pub mod Modes
pub mod Position
pub mod Tests
use linux_vfs.Base.{
  ℕ, zero, suc, ◌+◌, ◌%◌, ◌^◌, Bool, true, false, not, ◌&&◌, ◌||◌, Option, none, some, ◌==◌,
  if◌then◌else◌, bit_and, bit_or, ltb,
}
use linux_vfs.Base.Bits.{test, clear, set_if}
use linux_vfs.Base.Errno.{
  Errno, ebadf, einval, enodev, espipe, enotty, enoioctlcmd, Result, ok, err,
}
use linux_vfs.File.Open.Flags.{fmode_nonotify}
use linux_vfs.File.Table.{Files, fget_light, fdput}

abbrev pub fmode_read : ℕ
fmode_read = 2 ^ 0

abbrev pub fmode_write : ℕ
fmode_write = 2 ^ 1

abbrev pub fmode_lseek : ℕ
fmode_lseek = 2 ^ 2

abbrev pub fmode_can_read : ℕ
fmode_can_read = 2 ^ 17

abbrev pub fmode_can_write : ℕ
fmode_can_write = 2 ^ 18

abbrev pub fmode_opened : ℕ
fmode_opened = 2 ^ 19

-- A read or a write: of a buffer of the user and its size, from a position, which it moves.
abbrev pub Transfer : Type 0 → Type 0
Transfer W = (buf count pos : ℕ) → W → Result ℕ × ℕ × W

-- `open_file` is the method `open`, which may change `f_mode`, and `llseek` moves `f_pos`.
pub record FileOperations (W : Type 0) : Type 0 where
  pub open_file : ℕ → W → Result (Unit {0}) × ℕ × W
  pub llseek : Option ((pos offset whence : ℕ) → W → Result ℕ × ℕ × W)
  pub read : Option (Transfer W)
  pub write : Option (Transfer W)
  pub read_iter : Option (Transfer W)
  pub write_iter : Option (Transfer W)
  pub unlocked_ioctl : Option ((cmd arg : ℕ) → W → Result ℕ × W)

pub record File (W : Type 0) : Type 0 where
  pub f_op : FileOperations W
  pub f_mode : ℕ
  pub f_pos : ℕ

-- The descriptor table and counts, the open files by their address, and the memory.
pub record Io (W : Type 0) : Type 0 where
  pub files : Files
  pub file_at : ℕ → File W
  pub world : W

abbrev pub with_file : {W : Type 0} → (ℕ → File W) → ℕ → File W → ℕ → File W
with_file f p v q = if q == p then v else f q

-- The end of a call on a file.
unfoldable pub put_after : {W : Type 0} → ℕ → Option (Result ℕ × Io W) → Option (Result ℕ × Io W)
unfolding fdput
put_after p none = none
put_after p (some (r, t)) = some (r, record t { files = fdput t.files p })

-- Between `fdget` and `fdput`, or `fdget_pos` and `fdput_pos`, which are the same.
unfoldable pub on_file :
    {W : Type 0} → Io W → ℕ → (ℕ → Io W → Option (Result ℕ × Io W)) → Option (Result ℕ × Io W)
unfolding fget_light put_after
on_file s fd call = elim (fget_light s.files fd) [
  | none ↦ none
  | some (err e, files) ↦ some (err e, record s { files = files })
  | some (ok p, files) ↦ put_after p (call p (record s { files = files }))
]

-- `new_sync_read` copies the position of the kiocb back whatever the method returns.
abbrev pub new_sync_read : {W : Type 0} → Transfer W → Transfer W
new_sync_read method buf len pos w = method buf len pos w

unfoldable pub call_readops : {W : Type 0} → FileOperations W → Transfer W
call_readops ops buf count pos w = elim ops.read [
  | some method ↦ method buf count pos w
  | none ↦ elim ops.read_iter [
    | some method ↦ new_sync_read method buf count pos w
    | none ↦ (err einval, pos, w)
  ]
]

-- `fmode_check` of read.c and of write.c.
unfoldable pub fmode_check : (mode wanted can : ℕ) → Option Errno
fmode_check mode wanted can =
    if not (test mode wanted) then some ebadf else if not (test mode can) then some einval else none

-- `rw_verify_area` returns 0.
unfoldable pub do_read : {W : Type 0} → File W → Transfer W
unfolding call_readops fmode_check
do_read f buf count pos w = elim (fmode_check f.f_mode fmode_read fmode_can_read) [
  | some e ↦ (err e, pos, w)
  | none ↦ call_readops f.f_op buf count pos w
]

-- `new_sync_write` copies the position back only if something was written.
abbrev pub copy_back : {W : Type 0} → ℕ → Result ℕ × ℕ × W → Result ℕ × ℕ × W
copy_back pos (ok (suc n), pos', w) = (ok (suc n), pos', w)
copy_back pos (ok zero, pos', w) = (ok 0, pos, w)
copy_back pos (err e, pos', w) = (err e, pos, w)

unfoldable pub new_sync_write : {W : Type 0} → Transfer W → Transfer W
new_sync_write method buf len pos w = copy_back pos (method buf len pos w)

unfoldable pub call_write : {W : Type 0} → FileOperations W → Transfer W
unfolding new_sync_write
call_write ops buf count pos w = elim ops.write [
  | some method ↦ method buf count pos w
  | none ↦ elim ops.write_iter [
    | some method ↦ new_sync_write method buf count pos w
    | none ↦ (err einval, pos, w)
  ]
]

unfoldable pub do_write : {W : Type 0} → File W → Transfer W
unfolding call_write fmode_check
do_write f buf count pos w = elim (fmode_check f.f_mode fmode_write fmode_can_write) [
  | some e ↦ (err e, pos, w)
  | none ↦ call_write f.f_op buf count pos w
]

-- The position is kept in the file if the result is no error.
unfoldable pub keep_pos : {W : Type 0} → ℕ → Io W → Result ℕ × ℕ × W → Result ℕ × Io W
keep_pos p s (ok n, pos, w) = (
  ok n,
  record s { file_at = with_file s.file_at p (record (s.file_at p) { f_pos = pos }); world = w },
)
keep_pos p s (err e, pos, w) = (err e, record s { world = w })

unfoldable pub vfs_read_api : {W : Type 0} → Io W → (fd buf size : ℕ) → Option (Result ℕ × Io W)
unfolding on_file do_read keep_pos
vfs_read_api s fd buf size =
    on_file s fd
      (λ p t. some (keep_pos p t (do_read (t.file_at p) buf size (t.file_at p).f_pos t.world)))

unfoldable pub vfs_write_api : {W : Type 0} → Io W → (fd buf size : ℕ) → Option (Result ℕ × Io W)
unfolding on_file do_write keep_pos
vfs_write_api s fd buf size =
    on_file s fd
      (λ p t. some (keep_pos p t (do_write (t.file_at p) buf size (t.file_at p).f_pos t.world)))

-- What the method `llseek` returns, and the position it leaves.
abbrev pub sought : {W : Type 0} → ℕ → Io W → Result ℕ × ℕ × W → Result ℕ × Io W
sought p s (r, pos, w) = (
  r,
  record s { file_at = with_file s.file_at p (record (s.file_at p) { f_pos = pos }); world = w },
)

-- `none` is a call of the method of a file that has none.
unfoldable pub vfs_llseek : {W : Type 0} → ℕ → (offset whence : ℕ) → Io W → Option (Result ℕ × Io W)
vfs_llseek p offset whence s =
    if not (test (s.file_at p).f_mode fmode_lseek)
    then some (err espipe, s)
    else elim (s.file_at p).f_op.llseek [
      | none ↦ none
      | some method ↦ some (sought p s (method (s.file_at p).f_pos offset whence s.world))
    ]

unfoldable pub ksys_lseek : {W : Type 0} → Io W → (fd offset whence : ℕ) → Option (Result ℕ × Io W)
unfolding on_file vfs_llseek
ksys_lseek s fd offset whence =
    on_file s fd
      (λ p t. if ltb whence 4 then vfs_llseek p offset whence t else some (err einval, t))

-- `ENOIOCTLCMD` of a method becomes `ENOTTY`.
abbrev pub to_user : Result ℕ → Result ℕ
to_user (ok n) = ok n
to_user (err enoioctlcmd) = err enotty
to_user (err e) = err e

unfoldable pub vfs_ioctl : {W : Type 0} → FileOperations W → (cmd arg : ℕ) → W → Result ℕ × W
vfs_ioctl ops cmd arg w = elim ops.unlocked_ioctl [
  | none ↦ (err enotty, w)
  | some method ↦ (let (r, w') = method cmd arg w in (to_user r, w'))
]

unfoldable pub vfs_ioctl_api : {W : Type 0} → Io W → (fd cmd arg : ℕ) → Option (Result ℕ × Io W)
unfolding on_file vfs_ioctl
vfs_ioctl_api s fd cmd arg = on_file s fd (λ p t.
    let (r, w) = vfs_ioctl (t.file_at p).f_op cmd arg t.world in some (r, record t { world = w }))

-- `do_fcntl` does nothing and returns 0.
unfoldable pub vfs_fcntl_api : {W : Type 0} → Io W → (fd : ℕ) → Option (Result ℕ × Io W)
unfolding on_file
vfs_fcntl_api s fd = on_file s fd (λ p t. some (ok 0, t))

-- `OPEN_FMODE`: the mode that `alloc_empty_file` gives.
unfoldable pub open_fmode : ℕ → ℕ
open_fmode flags = bit_or (bit_and (flags + 1) 3) (bit_and flags fmode_nonotify)

abbrev pub has {ℓ} : {A : Type ℓ} → Option A → Bool
has none = false
has (some a) = true

-- The three tests of `set_fmode`.
abbrev pub set_can_read : {W : Type 0} → FileOperations W → ℕ → ℕ
set_can_read ops mode =
    set_if (test mode fmode_read && (has ops.read || has ops.read_iter)) fmode_can_read mode

abbrev pub set_can_write : {W : Type 0} → FileOperations W → ℕ → ℕ
set_can_write ops mode =
    set_if (test mode fmode_write && (has ops.write || has ops.write_iter)) fmode_can_write mode

abbrev pub drop_lseek : {W : Type 0} → FileOperations W → ℕ → ℕ
drop_lseek ops mode =
    if test mode fmode_lseek && not (has ops.llseek) then clear mode fmode_lseek else mode

unfoldable pub set_fmode : {W : Type 0} → FileOperations W → ℕ → ℕ
set_fmode ops mode =
    drop_lseek ops (set_can_write ops (set_can_read ops (bit_or mode fmode_opened)))

unfoldable pub call_open :
    {W : Type 0} → FileOperations W → Result (Unit {0}) × ℕ × W → Result (File W) × W
unfolding set_fmode
call_open ops (err e, mode, w) = (err e, w)
call_open ops (ok _, mode, w) =
    (ok (record { f_op = ops; f_mode = set_fmode ops mode; f_pos = 0 }), w)

-- `do_dentry_open` of a file with a mode, on an inode with the operations `i_fop`.
unfoldable pub do_dentry_open :
    {W : Type 0} → (mode : ℕ) (i_fop : Option (FileOperations W)) → W → Result (File W) × W
unfolding call_open
do_dentry_open mode none w = (err enodev, w)
do_dentry_open mode (some ops) w = call_open ops (ops.open_file mode w)
