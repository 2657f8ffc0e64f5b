-- ===== src/Calls/Openat.antt =====
-- open(2): `alloc_empty_file` of src/file/file.c, and `__file_alloc`, `do_open` and `vfs_openat_api` of
-- src/api/open.c. The methods of the open files are a parameter, by inode; they work on the state of
-- the walk. Of the new file the mode and the path stand there as well while it is being opened.
pub mod Installs
pub mod Tests
use linux_vfs.Base.{ℕ, Bool, Option, none, some, List, [], ◌∷◌}
use linux_vfs.Base.Errno.{Errno, enomem, Result, ok, err}
use linux_vfs.Vfs.{Loc, Vfs, Driver, path_get}
use linux_vfs.File.Ref.{file_ref_init}
use linux_vfs.File.Table.{
  Filedesc, filedesc_slot_alloc, filedesc_slot_free, filedesc_slot_finstall, Files, update,
}
use linux_vfs.File.Open.{OpenFlags, build_openflags}
use linux_vfs.File.Calls.{FileOperations, File, open_fmode, do_dentry_open}
use linux_vfs.Namei.State.{Walk}
use linux_vfs.Namei.Lookup.{new_nameidata}
use linux_vfs.Namei.Open.{OpenOp, namei_open}

pub record Opening : Type 0 where
  pub files : Files
  pub vfs : Vfs

-- `undefined` is an access by a slot that was never set.
pub data Outcome : Type 0 where
  returns : Result ℕ → Opening → Outcome
  undefined : Opening → Outcome
  out_of_fuel : Outcome

unfoldable pub alloc_empty_file : (flags : ℕ) → Opening → Option ℕ × Opening
unfolding open_fmode file_ref_init update
alloc_empty_file flags s = elim s.vfs.heap [
  | [] ↦ (none, s)
  | p ∷ heap ↦ (
    some p,
    record {
      files = record s.files { refs = update s.files.refs p (file_ref_init 1) };
      vfs = record s.vfs {
        heap = heap;
        f_path = record { mnt = 0; dentry = 0 };
        f_mode = open_fmode flags;
      };
    },
  )
]

abbrev pub with_table : Opening → Filedesc → Opening
with_table s fdp = record s { files = record s.files { fdp = fdp } }

abbrev pub slot_freed : Option ℕ → Opening → Opening
unfolding filedesc_slot_free
slot_freed none s = s
slot_freed (some fd) s = with_table s (filedesc_slot_free s.files.fdp fd)

abbrev pub file_for : Option ℕ → Option ℕ × Opening → Result ℕ × Opening
file_for slot (none, s) = (err enomem, slot_freed slot s)
file_for slot (some p, s) = (ok p, s)

-- The slot, which is not set if the table is full, and the file.
unfoldable pub file_alloc : (flags : ℕ) → Opening → Option ℕ × (Result ℕ × Opening)
unfolding filedesc_slot_alloc alloc_empty_file filedesc_slot_free
file_alloc flags s =
    let (slot, fdp) = filedesc_slot_alloc s.files.fdp in
    (slot, file_for slot (alloc_empty_file flags (with_table s fdp)))

abbrev pub opened_file : Result (File Vfs) × Vfs → Option Errno × Vfs
opened_file (err e, s) = (some e, s)
opened_file (ok f, s) = (none, record s { f_mode = f.f_mode })

unfoldable pub open_path :
    (i_fop : Vfs → ℕ → Option (FileOperations Vfs)) → Loc → Vfs → Option Errno × Vfs
unfolding do_dentry_open
open_path i_fop p s = opened_file (
    do_dentry_open s.f_mode (i_fop s (s.dentries p.dentry).d_inode)
      (record (path_get p s) { f_path = p }))

abbrev pub installed : Option ℕ → (p : ℕ) → Opening → Outcome
unfolding filedesc_slot_finstall
installed none p s = undefined s
installed (some fd) p s = returns (ok fd) (with_table s (filedesc_slot_finstall s.files.fdp fd p))

-- After an error neither the slot nor the file is given back.
abbrev pub after_open : Option ℕ → (p : ℕ) → Opening → Option (Option Errno × Walk) → Outcome
after_open slot p s none = out_of_fuel
after_open slot p s (some (some e, w)) = returns (err e) (record s { vfs = w.vfs })
after_open slot p s (some (none, w)) = installed slot p (record s { vfs = w.vfs })

module _ (dr : Driver) (fs_root : Loc) (fuel : ℕ) (i_fop : Vfs → ℕ → Option (FileOperations Vfs))
    (has_create : ℕ → Bool) (create : Vfs → ℕ → ℕ → ℕ → Bool → Option Errno × Vfs) where
  abbrev pub open_op : OpenFlags → OpenOp
  unfolding open_path
  open_op op = record {
    open_flag = op.open_flag;
    mode = op.mode;
    intent = op.intent;
    lookup_flags = op.lookup_flags;
    do_open = open_path i_fop;
    has_create = has_create;
    create = create;
  }

  abbrev pub open_file_at : OpenFlags → Result (List ℕ) → Option ℕ → Result ℕ × Opening → Outcome
  unfolding namei_open open_path
  open_file_at op name slot (err e, s) = returns (err e) s
  open_file_at op name slot (ok p, s) =
      after_open slot p s
        (namei_open dr fs_root fuel (open_op op) name (record { vfs = s.vfs; nd = new_nameidata }))

  -- What `__build_openflags` returns is dropped; `op` is what the variable holds before.
  unfoldable pub vfs_openat_api :
      (op : OpenFlags) → Result (List ℕ) → (flags mode : ℕ) → Opening → Outcome
  unfolding build_openflags file_alloc namei_open open_path filedesc_slot_finstall
  vfs_openat_api op name flags mode s =
      let op' = (build_openflags op flags mode).1 in
      let (slot, r) = file_alloc op'.open_flag s in open_file_at op' name slot r
