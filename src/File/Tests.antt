-- ===== src/File/Tests.antt =====
-- The theorems on open files at concrete inputs.
use linux_vfs.Base.{
  Bool, true, false, none, ◌∷◌, [], List, ℕ, ◌+◌, ◌≤◌, ◌<◌, ◌≡◌, ◌≢◌, refl, ◌⊎◌, Option, some,
  arith, ◌==◌, if◌then◌else◌, get_elem?, set,
}
use linux_vfs.Base.Bits.{test}
use linux_vfs.Base.Errno.{Result, ebadf, einval, ok, err}
use linux_vfs.File.Ref.{dead}
use linux_vfs.File.Ref.History.{get, put, put_close, reports, live, count_reports, reports-eq-count}
use linux_vfs.File.Ref.Threads.{World, here, next, reads, closes, opened, after_close, Reach-freed}
use linux_vfs.File.Open.{OpenFlags, build_open_flags, build_openflags}
use linux_vfs.File.Open.Refusal.{build_openflags-refuses}
use linux_vfs.File.Getdents.{
  Entry, Dirent, Getdents, getdents, iterate_dir, emit, filldir, write_record, finish,
  verify_dirent_name, has_slash, reclen_of,
}
use linux_vfs.File.Getdents.Bounds.{Inside, getdents-Inside}
use linux_vfs.File.Getdents.Reads.{IsPrefix, getdents-Reads}
use linux_vfs.File.Getdents.Records.{Reads}
use linux_vfs.File.Table.{empty, used, file, Filedesc, no_path, Files, fget_light, vfs_close_api}
use linux_vfs.File.Table.Calls.{vfs_close_api-holds}

-- A file opened, read as the last reference by a close, and closed.
closed : World
unfolding after_close
closed = after_close (record opened { closing = 1 }) (true, dead)

Reach-freed_example :
    (closed.freed ≤ 1)
    × ((closed.holders ≡ 0) ⊎ (closed.freed ≡ 0))
    × (closed.freed + closed.holders + closed.trying ≢ 0)
unfolding closed after_close
Reach-freed_example =
    Reach-freed
      (next (next here (reads opened (omega arith) refl))
        (closes (record opened { closing = 1 }) (omega arith)))
      (omega arith)

reports-eq-count_example :
    reports 0 (get ∷ put_close ∷ put ∷ get ∷ [])
    ≡ count_reports (live 1) (get ∷ put_close ∷ put ∷ get ∷ [])
reports-eq-count_example =
    reports-eq-count (live 1) 0 4 (get ∷ put_close ∷ put ∷ get ∷ []) (omega arith) (omega arith)

-- Descriptors 0 and 2 hold files, 1 is reserved, 3 is free.
abbrev table : Filedesc
table = record {
  files = file 7 ∷ used ∷ file 9 ∷ empty ∷ [];
  pwd = no_path;
  root = no_path;
  is_user = true;
}

abbrev files : Files
files = record { fdp = table; refs = λ p. if p == 7 then 2 else 0; fputs = [] }

abbrev Lowest : Option ℕ × Filedesc → Type 0
Lowest (found, fdp') =
    ((found ≡ none) × (fdp' ≡ table) × ((j : ℕ) → get_elem? table.files j ≢ some empty))
    ⊎ ((k : ℕ) × (found ≡ some k)
        × (get_elem? table.files k ≡ some empty)
        × (fdp' ≡ record table { files = set table.files k used })
        × ((j : ℕ) → j < k → get_elem? table.files j ≢ some empty))

vfs_close_api-holds_example :
    (t : Files) × (vfs_close_api files 2 ≡ some (ok 0, t))
    × (fget_light t 2 ≡ some (err ebadf, t))
    × (get_elem? t.fdp.files 0 ≡ some (file 7))
    × (t.fputs ≡ 9 ∷ [])
    × (t.refs 9 ≡ dead)
    × (t.refs 7 ≡ 2)
vfs_close_api-holds_example =
    vfs_close_api-holds files 2 9 7 0 refl (omega arith) (λ e. omega (arith, e))
      (λ e. omega (arith, e))

abbrev no_flags : OpenFlags
no_flags = record { open_flag = 0; mode = 0; acc_mode = 0; intent = 0; lookup_flags = 0 }

build_openflags-refuses_example : (build_openflags no_flags 0o20_0100 0o644).0 ≡ err einval
unfolding test
build_openflags-refuses_example = build_openflags-refuses no_flags 0o20_0100 0o644

abbrev accepted : OpenFlags
accepted = (build_open_flags (record { flags = 0o40_0001; mode = 0; resolve = 0x20 }) no_flags).1

-- A directory of two entries, read into 64 bytes at 100.
abbrev entries : List (Entry × Bool)
entries =
    (record { name = b'a' ∷ []; offset = 0; ino = 5; d_type = 8 }, false)
    ∷ (record { name = b'b' ∷ b'b' ∷ []; offset = 1; ino = 6; d_type = 4 }, false)
    ∷ []

abbrev no_memory : ℕ → Dirent
no_memory a = record { d_ino = 0; d_off = 0; d_reclen = 0; d_type = 0; d_name = [] }

abbrev listing : Result ℕ × Getdents
listing = getdents (λ a n. true) false entries none 2 100 64 no_memory

getdents-Inside_example :
    Inside 100 64 listing.1.writes
    × ((n : ℕ) → listing.0 ≡ ok n → (listing.1.current_dir ≡ 100 + n) × (n ≤ 64))
getdents-Inside_example = getdents-Inside (λ a n. true) false entries none 2 100 64 no_memory

getdents-Reads_example :
    (taken : List Entry) × IsPrefix taken entries
    × Reads (λ off. off ≡ 2) listing.1.mem 100 148 taken
unfolding getdents iterate_dir emit filldir write_record finish verify_dirent_name has_slash
    reclen_of
getdents-Reads_example = getdents-Reads (λ a n. true) false entries none 2 100 64 48 no_memory refl
