-- ===== src/File/Calls/Tests.antt =====
-- The calls on open files at concrete inputs: descriptor 0 holds the file 7, of 10 bytes, which is at
-- position 4. Its file system has the method `read` alone.
use linux_vfs.Base.{ℕ, List, true, ◌+◌, ◌≡◌, refl, Option, none, some, [], ◌∷◌, arith}
use linux_vfs.Base.Bits.{test}
use linux_vfs.Base.Errno.{ebadf, espipe, Result, ok, err}
use linux_vfs.File.Table.{empty, file, no_path, fget_light}
use linux_vfs.File.Table.Calls.{Same}
use linux_vfs.File.Calls.{
  FileOperations, File, Io, Transfer, with_file, call_readops, call_write, do_read, do_write,
  vfs_llseek, open_fmode, do_dentry_open, fmode_check, fmode_read, fmode_can_read, vfs_write_api,
  on_file, put_after, keep_pos,
}
use linux_vfs.File.Calls.Modes.{do_dentry_open-allows}
use linux_vfs.File.Calls.Position.{
  delivered, all_delivered, available, at, read_total, vfs_read_api-Delivers,
}

abbrev text : Transfer (Unit {0})
text buf count pos w = (ok (available 10 pos count), pos + available 10 pos count, w)

abbrev regular : FileOperations (Unit {0})
regular = record {
  open_file = λ mode w. (ok tt, mode, w);
  llseek = none;
  read = some text;
  write = none;
  read_iter = none;
  write_iter = none;
  unlocked_ioctl = none;
}

abbrev io : Io (Unit {0})
io = record {
  files = record {
    fdp = record { files = file 7 ∷ empty ∷ []; pwd = no_path; root = no_path; is_user = true };
    refs = λ p. 0;
    fputs = [];
  };
  file_at = λ p. at regular (fmode_read + fmode_can_read) 4;
  world = tt;
}

abbrev result : Option (Result ℕ × Io (Unit {0})) → Option (Result ℕ)
result none = none
result (some (r, t)) = some r

-- A write to a file that was opened for reading.
refused : result (vfs_write_api io 0 100 5) ≡ some (err ebadf)
unfolding vfs_write_api on_file put_after do_write fmode_check keep_pos test fget_light
refused = refl

do_dentry_open-allows_example :
    (f : File (Unit {0})) × (do_dentry_open (open_fmode 1) (some regular) tt ≡ (ok f, tt))
    × (do_read f 100 5 0 tt ≡ (err ebadf, 0, tt))
    × (do_write f 100 5 0 tt ≡ call_write regular 100 5 0 tt)
    × (vfs_llseek 7 0 2 (record io { file_at = with_file io.file_at 7 f })
        ≡ some (err espipe, record io { file_at = with_file io.file_at 7 f }))
do_dentry_open-allows_example = do_dentry_open-allows regular 1 tt tt refl 100 5 0 0 2 7 tt io

-- A file whose byte at a position is that position, read into a memory.
abbrev numbers : FileOperations (ℕ → ℕ)
numbers = record {
  open_file = λ mode w. (ok tt, mode, w);
  llseek = none;
  read = some (λ buf count pos w.
      let n = available 10 pos count in (ok n, pos + n, delivered (λ b. b) buf n pos w));
  write = none;
  read_iter = none;
  write_iter = none;
  unlocked_ioctl = none;
}

abbrev with_memory : Io (ℕ → ℕ)
with_memory = record {
  files = io.files;
  file_at = λ p. at numbers (fmode_read + fmode_can_read) 4;
  world = λ a. 0;
}

abbrev buffers : List (ℕ × ℕ)
buffers = (100, 5) ∷ (200, 5) ∷ []

-- Bytes 4 to 8 go to the first buffer, and byte 9 to the second.
some_bytes :
    let mem = all_delivered (λ b. b) 10 buffers 4 (λ a. 0) in
    (mem 99 ≡ 0) × (mem 100 ≡ 4) × (mem 104 ≡ 8) × (mem 105 ≡ 0) × (mem 200 ≡ 9) × (mem 201 ≡ 0)
some_bytes = (refl, refl, refl, refl, refl, refl)

vfs_read_api-Delivers_example :
    (t : Io (ℕ → ℕ)) × (read_total with_memory 0 buffers ≡ some (6, t))
    × (t.file_at 7 ≡ at numbers (fmode_read + fmode_can_read) 10)
    × Same t.files with_memory.files
    × ((a : ℕ) → t.world a ≡ all_delivered (λ b. b) 10 buffers 4 (λ a. 0) a)
unfolding fmode_check test call_readops
vfs_read_api-Delivers_example =
    vfs_read_api-Delivers numbers (λ w. w) (λ b. b) (fmode_read + fmode_can_read) 7 0 10 buffers
      with_memory 4
      (λ buf count pos w. (delivered (λ b. b) buf (available 10 pos count) pos w, refl, λ a. refl))
      refl (refl, omega arith) refl
