-- ===== src/File/Getdents.antt =====
-- Directory records: `filldir`, `iterate_dir` and `__getdents` of src/api/readdir.c, on a 64-bit
-- machine. The buffer of the user is a function from the address of a record to the record; `writes`
-- has the address and the length of every write to it. A fault ends a record before its first byte:
-- what a fault in the middle leaves behind is not modelled.

pub mod Bounds
pub mod Records
pub mod Reads
use linux_vfs.Base.{
  ℕ, ◌+◌, ◌-◌, ◌*◌, ◌/◌, ◌%◌, ◌^◌, Bool, true, false, not, ◌&&◌, ◌||◌, Option, none, some, List, [],
  ◌∷◌, ◌==◌, ltb, leb, if◌then◌else◌, length,
}
use linux_vfs.Base.Errno.{Errno, eio, einval, efault, enoent, Result, ok, err}

abbrev pub path_max : ℕ
path_max = 4096

pub record Entry : Type 0 where
  pub name : List ℕ
  pub offset : ℕ
  pub ino : ℕ
  pub d_type : ℕ

pub record Dirent : Type 0 where
  pub d_ino : ℕ
  pub d_off : ℕ
  pub d_reclen : ℕ
  pub d_type : ℕ
  pub d_name : List ℕ

-- `struct getdents_callback`, with the buffer that it points into.
pub record Getdents : Type 0 where
  pub mem : ℕ → Dirent
  pub writes : List (ℕ × ℕ)
  pub current_dir : ℕ
  pub prev_reclen : ℕ
  pub count : ℕ
  pub error : Option Errno

unfoldable pub has_slash : List ℕ → Bool
has_slash [] = false
has_slash (c ∷ cs) = let more = has_slash cs in if c == b'/' then true else more

unfoldable pub verify_dirent_name : List ℕ → Option Errno
unfolding has_slash
verify_dirent_name name =
    if leb path_max (length name) || length name == 0
    then some eio
    else if has_slash name
    then some eio
    else none

-- The length of a record: the fields before the name take 19 bytes.
unfoldable pub reclen_of : List ℕ → ℕ
reclen_of name = (19 + length name + 2 + 7) / 8 * 8

abbrev pub put : (ℕ → Dirent) → ℕ → Dirent → ℕ → Dirent
put mem a d x = if x == a then d else mem x

-- What `filldir` writes: the offset into the record before, then the new record.
unfoldable pub write_record : Getdents → Entry → ℕ → Getdents
write_record b e reclen =
    let dirent = b.current_dir in
    let prev = dirent - b.prev_reclen in
    let mem1 = put b.mem prev (record (b.mem prev) { d_off = e.offset }) in
    let new = record (mem1 dirent) {
      d_ino = e.ino;
      d_reclen = reclen % 2 ^ 16;
      d_type = e.d_type % 2 ^ 8;
      d_name = e.name;
    } in
    record b {
      mem = put mem1 dirent new;
      writes = (dirent, 19 + length e.name + 1) ∷ (prev + 8, 8) ∷ b.writes;
      current_dir = dirent + reclen;
      prev_reclen = reclen;
      count = b.count - reclen;
    }

-- `accessible` is `user_write_access_begin` with the accesses after it, `pending` is
-- `signal_pending_current()`.
module _ (accessible : ℕ → ℕ → Bool) where
  unfoldable pub filldir : Bool → Entry → Getdents → Bool × Getdents
  unfolding write_record
  filldir pending e b =
      let reclen = reclen_of e.name in
      let prev = b.current_dir - b.prev_reclen in
      elim (verify_dirent_name e.name) [
        | some bad ↦ (false, record b { error = some bad })
        | none ↦
            if ltb b.count reclen
            then (false, record b { error = some einval })
            else if not (b.prev_reclen == 0) && pending
            then (false, record b { error = some einval })
            else if not (accessible prev (reclen + b.prev_reclen))
            then (false, record b { error = some efault })
            else (true, record (write_record b e reclen) { error = some einval })
      ]

  -- The file system hands over its entries, each with whether a signal is pending then, until one
  -- is refused.
  unfoldable pub emit : List (Entry × Bool) → Getdents → Getdents
  unfolding filldir
  emit [] b = b
  emit ((e, pending) ∷ es) b =
      let (go, b') = filldir pending e b in let rest = emit es b' in if go then rest else b'

  -- `iterate_dir` with its driver's result after the entries; `dead` is IS_DEADDIR.
  unfoldable pub iterate_dir :
      Bool → List (Entry × Bool) → Option Errno → Getdents → Option Errno × Getdents
  unfolding emit
  iterate_dir dead es res b = if dead then (some enoent, b) else (res, emit es b)

  -- `__getdents` once the directory was read; `pos` is where the directory stands then.
  unfoldable pub finish : (pos count : ℕ) → Option Errno → Getdents → Result ℕ × Getdents
  finish pos count bad b =
      let last = b.current_dir - b.prev_reclen in
      if not (b.prev_reclen == 0)
      then (if not (accessible (last + 8) 8) then (err efault, b) else (
        ok (count - b.count),
        record b {
          mem = put b.mem last (record (b.mem last) { d_off = pos });
          writes = (last + 8, 8) ∷ b.writes;
        },
      ))
      else elim bad [
        | some e ↦ (err e, b)
        | none ↦ elim b.error [ some e ↦ (err e, b) | none ↦ (ok 0, b) ]
      ]

  -- The callback structure at the start. Its `count` is an `int`; a length of 2^31 and above is
  -- negative there, and like 0 less than any record.
  unfoldable pub getdents :
      Bool
      → List (Entry × Bool)
      → Option Errno
      → (pos start count : ℕ) → (ℕ → Dirent)
      → Result ℕ × Getdents
  unfolding iterate_dir finish
  getdents dead es res pos start count mem =
      let total = if ltb count (2 ^ 31) then count else 0 in
      let (bad, b) = iterate_dir dead es res (record {
        mem = mem;
        writes = [];
        current_dir = start;
        prev_reclen = 0;
        count = total;
        error = none;
      }) in
      finish pos total bad b
