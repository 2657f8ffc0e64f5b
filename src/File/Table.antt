-- ===== src/File/Table.antt =====
-- The descriptor table of a process: src/file/filedesc.c, src/file/fd.c, src/api/close.c. The table
-- is the embedded one of 32 slots (`fdt_cur` never points elsewhere). A `none` result of a read of
-- the table is an access outside the array, which the code does not guard against.
pub mod Slots
pub mod Calls
use linux_vfs.Base.{
  ℕ, zero, suc, ◌+◌, ◌-◌, ◌≤◌, ◌<◌, ◌≡◌, refl, Bool, true, false, ◌&&◌, Option, none, some, List,
  [], ◌∷◌, arith, ltb, ◌==◌, if◌then◌else◌, length, get_elem?, set, replicate,
}
use linux_vfs.Base.Errno.{Errno, ebadf, Result, ok, err}
use linux_vfs.File.Ref.{file_ref_inc, file_ref_put, file_ref_put_close}

-- NULL, `FD_USED`, or the address of a `struct file`.
pub data Slot : Type 0 where
  empty used : Slot
  file : ℕ → Slot

pub record FilePath : Type 0 where
  pub mnt : ℕ
  pub dentry : ℕ

pub record Filedesc : Type 0 where
  pub files : List Slot
  pub pwd : FilePath
  pub root : FilePath
  pub is_user : Bool

abbrev pub nr_open_default : ℕ
nr_open_default = 32

abbrev pub no_path : FilePath
no_path = record { mnt = 0; dentry = 0 }

unfoldable pub filedesc_init : Bool → Filedesc
unfolding replicate
filedesc_init user = record {
  files = replicate nr_open_default empty;
  pwd = no_path;
  root = no_path;
  is_user = user;
}

-- The loop of `filedesc_slot_alloc` from slot `i` on: the slot it takes, and the table.
unfoldable pub slot_scan : ℕ → List Slot → Option ℕ × List Slot
slot_scan i [] = (none, [])
slot_scan i (empty ∷ fs) = (some i, used ∷ fs)
slot_scan i (used ∷ fs) = let (found, fs') = slot_scan (suc i) fs in (found, used ∷ fs')
slot_scan i (file p ∷ fs) = let (found, fs') = slot_scan (suc i) fs in (found, file p ∷ fs')

-- The call returns 0 in any case; on a full table `none` is the slot structure left as it was.
unfoldable pub filedesc_slot_alloc : Filedesc → Option ℕ × Filedesc
unfolding slot_scan
filedesc_slot_alloc fdp =
    let (found, fs) = slot_scan 0 fdp.files in (found, record fdp { files = fs })

-- `filedesc_slot_free` has an empty body.
unfoldable pub filedesc_slot_free : Filedesc → ℕ → Filedesc
filedesc_slot_free fdp fd = fdp

unfoldable pub filedesc_slot_finstall : Filedesc → ℕ → ℕ → Filedesc
filedesc_slot_finstall fdp fd p = record fdp { files = set fdp.files fd (file p) }

abbrev pub slot_file : Slot → Bool → Filedesc → ℕ → Option ℕ × Filedesc
slot_file empty isclose fdp fd = (none, fdp)
slot_file used isclose fdp fd = (none, fdp)
slot_file (file p) isclose fdp fd =
    (some p, if isclose then record fdp { files = set fdp.files fd empty } else fdp)

unfoldable pub filedesc_file_get : Filedesc → ℕ → Bool → Option (Option ℕ × Filedesc)
filedesc_file_get fdp fd isclose = elim (get_elem? fdp.files fd) [
  | none ↦ none
  | some s ↦ some (slot_file s isclose fdp fd)
]

unfoldable pub filedesc_root_set : Filedesc → FilePath → Filedesc
filedesc_root_set fdp p = record fdp { root = p }

unfoldable pub filedesc_pwd_set : Filedesc → FilePath → Filedesc
filedesc_pwd_set fdp p = record fdp { pwd = p }

unfoldable pub filedesc_root_get : Filedesc → FilePath
filedesc_root_get fdp = fdp.root

unfoldable pub filedesc_pwd_get : Filedesc → FilePath
filedesc_pwd_get fdp = fdp.pwd

-- The table with the reference word of each file, and the files given to `__fput`.
pub record Files : Type 0 where
  pub fdp : Filedesc
  pub refs : ℕ → ℕ
  pub fputs : List ℕ

unfoldable pub update : (ℕ → ℕ) → ℕ → ℕ → ℕ → ℕ
update f p v q = if q == p then v else f q

unfoldable pub get_file : Files → ℕ → Files
unfolding update
get_file s p = record s { refs = update s.refs p (file_ref_inc (s.refs p)).0 }

-- A put that reports the last reference runs `__fput`, which releases the file.
unfoldable pub after_put : Files → ℕ → Bool × ℕ → Files
unfolding update
after_put s p r = record s {
  refs = update s.refs p r.1;
  fputs = if r.0 then p ∷ s.fputs else s.fputs;
}

unfoldable pub fput_sync : Files → ℕ → Files
unfolding after_put
fput_sync s p = after_put s p (file_ref_put (s.refs p))

unfoldable pub fput_close_sync : Files → ℕ → Files
unfolding after_put
fput_close_sync s p = after_put s p (file_ref_put_close (s.refs p))

-- `__fget_light`, which `fdget`, `fdget_raw` and `fdget_pos` come down to: the mask is not read.
unfoldable pub fget_light : Files → ℕ → Option (Result ℕ × Files)
unfolding filedesc_file_get get_file
fget_light s fd = elim (filedesc_file_get s.fdp fd false) [
  | none ↦ none
  | some (none, fdp) ↦ some (err ebadf, record s { fdp = fdp })
  | some (some p, fdp) ↦ some (ok p, get_file (record s { fdp = fdp }) p)
]

unfoldable pub fdput : Files → ℕ → Files
unfolding fput_sync
fdput s p = fput_sync s p

unfoldable pub close_fd_get_file : Files → ℕ → Option (Result ℕ × Files)
unfolding filedesc_file_get
close_fd_get_file s fd = elim (filedesc_file_get s.fdp fd true) [
  | none ↦ none
  | some (none, fdp) ↦ some (err ebadf, record s { fdp = fdp })
  | some (some p, fdp) ↦ some (ok p, record s { fdp = fdp })
]

unfoldable pub vfs_close_api : Files → ℕ → Option (Result ℕ × Files)
unfolding close_fd_get_file fput_close_sync
vfs_close_api s fd = elim (close_fd_get_file s fd) [
  | none ↦ none
  | some (err e, s') ↦ some (err e, s')
  | some (ok p, s') ↦ some (ok 0, fput_close_sync s' p)
]
