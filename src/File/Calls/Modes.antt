-- ===== src/File/Calls/Modes.antt =====
-- What a file that was opened by do_dentry_open of src/api/open.c allows: the access modes of its
-- flags against the tests of src/api/{read,write,lseek}.c.
use linux_vfs.Base.{
  ℕ, ◌+◌, ◌%◌, ◌^◌, ◌≡◌, refl, Bool, true, false, ◌&&◌, ◌||◌, some, ◌==◌, if◌then◌else◌, bit_and,
  bit_or, arith, ◌∙◌, eq→==,
}
use linux_vfs.Base.Bits.{bit, test, set_if, bit-or, bit-and}
use linux_vfs.Base.Bits.Laws.{test-pow, bit-set_if}
use linux_vfs.Base.Errno.{ebadf, espipe, ok, err}
use linux_vfs.File.Open.Flags.{fmode_nonotify}
use linux_vfs.File.Calls.{
  fmode_read, fmode_write, fmode_lseek, fmode_can_read, fmode_can_write, fmode_opened,
  FileOperations, File, Io, call_readops, call_write, do_read, do_write, vfs_llseek, open_fmode,
  has, with_file, set_can_read, set_can_write, set_fmode, call_open, do_dentry_open, fmode_check,
}

bit-set_if_and :
    (b : Bool) (m mode k : ℕ) → bit (set_if b m mode) k ≡ (bit mode k || (b && bit m k))
bit-set_if_and b m mode k = ground (arith, bit-set_if b m mode k)

-- The bits of the mode before the test of FMODE_LSEEK.
module _ {W : Type 0} (ops : FileOperations W) (mode : ℕ) where
  abbrev reads : Bool
  reads = test (bit_or mode fmode_opened) fmode_read && (has ops.read || has ops.read_iter)

  abbrev writes : Bool
  writes =
      test (set_can_read ops (bit_or mode fmode_opened)) fmode_write
      && (has ops.write || has ops.write_iter)

  bit-set_can :
      (k : ℕ)
      → bit (set_can_write ops (set_can_read ops (bit_or mode fmode_opened))) k ≡ (
          ((bit mode k || bit fmode_opened k) || (reads && bit fmode_can_read k))
          || (writes && bit fmode_can_write k))
  bit-set_can k =
      rw
        (
          bit-set_if_and writes fmode_can_write (set_can_read ops (bit_or mode fmode_opened)) k,
          bit-set_if_and reads fmode_can_read (bit_or mode fmode_opened) k,
          bit-or k mode fmode_opened,
        )
        refl

bit-open_fmode :
    (k flags : ℕ)
    → bit (open_fmode flags) k
      ≡ ((bit (flags + 1) k && bit 3 k) || (bit flags k && bit fmode_nonotify k))
unfolding open_fmode
bit-open_fmode k flags =
    rw
      (
        bit-or k (bit_and (flags + 1) 3) (bit_and flags fmode_nonotify),
        bit-and k (flags + 1) 3,
        bit-and k flags fmode_nonotify,
      )
      refl

test-bit : (k mode m : ℕ) → m ≡ 2 ^ k → test mode m ≡ bit mode k
test-bit k mode m e = rw e (test-pow k mode)

-- A mode with no bit that `set_fmode` gives, and not seekable.
abbrev IsFresh : ℕ → Type 0
IsFresh mode = (bit mode 2 ≡ false) × (bit mode 17 ≡ false) × (bit mode 18 ≡ false)

-- A bit that none of the three words that `set_fmode` sets has.
abbrev IsOther : ℕ → Type 0
IsOther k =
    (bit fmode_opened k ≡ false) × (bit fmode_can_read k ≡ false) × (bit fmode_can_write k ≡ false)

others : IsOther 0 × IsOther 1 × IsOther 2
unfolding bit
others = ((refl, refl, refl), (refl, refl, refl), (refl, refl, refl))

can_bits :
    (bit fmode_opened 17 ≡ false)
    × (bit fmode_can_read 17 ≡ true)
    × (bit fmode_can_write 17 ≡ false)
    × (bit fmode_opened 18 ≡ false)
    × (bit fmode_can_read 18 ≡ false)
    × (bit fmode_can_write 18 ≡ true)
unfolding bit
can_bits = (refl, refl, refl, refl, refl, refl)

module _ {W : Type 0} (ops : FileOperations W) (mode : ℕ) (fresh : IsFresh mode) where
  abbrev final_mode : ℕ
  final_mode = set_can_write ops (set_can_read ops (bit_or mode fmode_opened))

  kept : (k : ℕ) → IsOther k → bit final_mode k ≡ bit mode k
  kept k (o, r, w) = bit-set_can ops mode k ∙ rw (o, r, w) (ground arith)

  set_fmode-final : set_fmode ops mode ≡ final_mode
  unfolding set_fmode
  set_fmode-final = rw (test-bit 2 final_mode fmode_lseek refl, kept 2 others.2, fresh.0) refl

  reads-bit : reads ops mode ≡ (bit mode 0 && (has ops.read || has ops.read_iter))
  reads-bit =
      rw
        (
          test-bit 0 (bit_or mode fmode_opened) fmode_read refl,
          bit-or 0 mode fmode_opened,
          others.0.0,
        )
        (ground arith)

  writes-bit : writes ops mode ≡ (bit mode 1 && (has ops.write || has ops.write_iter))
  writes-bit =
      rw
        (
          test-bit 1 (set_can_read ops (bit_or mode fmode_opened)) fmode_write refl,
          bit-set_if_and (reads ops mode) fmode_can_read (bit_or mode fmode_opened) 1,
          bit-or 1 mode fmode_opened,
          others.1.0,
          others.1.1,
        )
        (ground arith)

  final-read : test (set_fmode ops mode) fmode_read ≡ bit mode 0
  final-read = rw set_fmode-final (test-bit 0 final_mode fmode_read refl ∙ kept 0 others.0)

  final-write : test (set_fmode ops mode) fmode_write ≡ bit mode 1
  final-write = rw set_fmode-final (test-bit 1 final_mode fmode_write refl ∙ kept 1 others.1)

  final-lseek : test (set_fmode ops mode) fmode_lseek ≡ false
  final-lseek =
      rw set_fmode-final (test-bit 2 final_mode fmode_lseek refl ∙ kept 2 others.2 ∙ fresh.0)

  final-can_read :
      test (set_fmode ops mode) fmode_can_read ≡ (bit mode 0 && (has ops.read || has ops.read_iter))
  final-can_read = rw set_fmode-final (
      test-bit 17 final_mode fmode_can_read refl
      ∙ bit-set_can ops mode 17
      ∙ rw (can_bits.0, can_bits.1, can_bits.2, fresh.1, reads-bit) (ground arith))

  final-can_write :
      test (set_fmode ops mode) fmode_can_write
      ≡ (bit mode 1 && (has ops.write || has ops.write_iter))
  final-can_write = rw set_fmode-final (
      test-bit 18 final_mode fmode_can_write refl
      ∙ bit-set_can ops mode 18
      ∙ rw (can_bits.3, can_bits.4, can_bits.5, fresh.2, writes-bit) (ground arith))

-- The two masks of `OPEN_FMODE` at a bit that neither has, and at the two bits of the access mode.
not_in_masks :
    (k flags : ℕ)
    → bit 3 k ≡ false
    → bit fmode_nonotify k ≡ false
    → bit (open_fmode flags) k ≡ false
not_in_masks k flags e f = bit-open_fmode k flags ∙ rw (e, f) (ground arith)

access_bit :
    (k flags : ℕ)
    → bit 3 k ≡ true
    → bit fmode_nonotify k ≡ false
    → bit (open_fmode flags) k ≡ bit (flags + 1) k
access_bit k flags e f = bit-open_fmode k flags ∙ rw (e, f) (ground arith)

open_fmode-IsFresh : (flags : ℕ) → IsFresh (open_fmode flags)
unfolding bit
open_fmode-IsFresh flags = (
  not_in_masks 2 flags masks.0 masks.1,
  not_in_masks 17 flags masks.2 masks.3,
  not_in_masks 18 flags masks.4 masks.5,
)
  where
    masks :
        (bit 3 2 ≡ false)
        × (bit fmode_nonotify 2 ≡ false)
        × (bit 3 17 ≡ false)
        × (bit fmode_nonotify 17 ≡ false)
        × (bit 3 18 ≡ false)
        × (bit fmode_nonotify 18 ≡ false)
    masks = (refl, refl, refl, refl, refl, refl)

-- O_RDONLY is 0, O_WRONLY is 1, O_RDWR is 2.
abbrev pub may_read : ℕ → Bool
may_read flags = (flags % 4 == 0) || (flags % 4 == 2)

abbrev pub may_write : ℕ → Bool
may_write flags = (flags % 4 == 1) || (flags % 4 == 2)

open_fmode-read : (flags : ℕ) → bit (open_fmode flags) 0 ≡ may_read flags
unfolding bit
open_fmode-read flags = access_bit 0 flags refl refl ∙ ground arith

open_fmode-write : (flags : ℕ) → bit (open_fmode flags) 1 ≡ may_write flags
unfolding bit
open_fmode-write flags = access_bit 1 flags refl refl ∙ ground arith

update_self : {W : Type 0} (f : ℕ → File W) (p : ℕ) (a : File W) → with_file f p a p ≡ a
update_self f p a = rw (eq→== p p refl) refl

module _ {W : Type 0} (ops : FileOperations W) (mode buf count pos : ℕ) (v : W) where
  abbrev file_of : File W
  file_of = record { f_op = ops; f_mode = mode; f_pos = 0 }

  do_read-allows :
      (r : Bool)
      → test mode fmode_read ≡ r
      → test mode fmode_can_read ≡ (r && (has ops.read || has ops.read_iter))
      → do_read file_of buf count pos v
        ≡ (if r then call_readops ops buf count pos v else (err ebadf, pos, v))
  unfolding do_read fmode_check call_readops
  do_read-allows r e c = ground (arith, e, c)

  do_write-allows :
      (r : Bool)
      → test mode fmode_write ≡ r
      → test mode fmode_can_write ≡ (r && (has ops.write || has ops.write_iter))
      → do_write file_of buf count pos v
        ≡ (if r then call_write ops buf count pos v else (err ebadf, pos, v))
  unfolding do_write fmode_check call_write
  do_write-allows r e c = ground (arith, e, c)

vfs_llseek-refuses :
    {W : Type 0} (s : Io W) (p offset whence : ℕ)
    → test (s.file_at p).f_mode fmode_lseek ≡ false
    → vfs_llseek p offset whence s ≡ some (err espipe, s)
unfolding vfs_llseek
vfs_llseek-refuses s p offset whence e = rw e refl

-- Opening with the flags `flags`, where the method `open` succeeds and leaves the mode: a read of the
-- file reaches its methods if the access mode is O_RDONLY or O_RDWR, and is refused with EBADF if
-- not; a write, if it is O_WRONLY or O_RDWR; and a seek fails with ESPIPE whatever methods the
-- file has, wherever it stands.
pub do_dentry_open-allows :
    {W : Type 0} (ops : FileOperations W) (flags : ℕ) (w w' : W)
    → ops.open_file (open_fmode flags) w ≡ (ok tt, open_fmode flags, w')
    → (buf count pos offset whence p : ℕ) (v : W) (s : Io W)
    → (f : File W) × (do_dentry_open (open_fmode flags) (some ops) w ≡ (ok f, w'))
      × (do_read f buf count pos v
          ≡ (if may_read flags then call_readops ops buf count pos v else (err ebadf, pos, v)))
      × (do_write f buf count pos v
          ≡ (if may_write flags then call_write ops buf count pos v else (err ebadf, pos, v)))
      × (vfs_llseek p offset whence (record s { file_at = with_file s.file_at p f })
          ≡ some (err espipe, record s { file_at = with_file s.file_at p f }))
unfolding do_dentry_open call_open
do_dentry_open-allows ops flags w w' e buf count pos offset whence p v s =
    let mode = open_fmode flags in
    let fresh = open_fmode-IsFresh flags in
    let f = file_of ops (set_fmode ops mode) buf count pos v in
    (
      f,
      rw e refl,
      do_read-allows ops (set_fmode ops mode) buf count pos v (may_read flags)
          (final-read ops mode fresh ∙ open_fmode-read flags)
          (rw (final-can_read ops mode fresh, open_fmode-read flags) refl),
      do_write-allows ops (set_fmode ops mode) buf count pos v (may_write flags)
          (final-write ops mode fresh ∙ open_fmode-write flags)
          (rw (final-can_write ops mode fresh, open_fmode-write flags) refl),
      vfs_llseek-refuses (record s { file_at = with_file s.file_at p f }) p offset whence
          (rw (update_self s.file_at p f) (final-lseek ops mode fresh)),
    )
