-- ===== src/File/Getdents/Bounds.antt =====
-- Where the calls of src/api/readdir.c write.
use linux_vfs.Base.{
  ℕ, ◌+◌, ◌^◌, ◌≤◌, ◌≡◌, refl, Bool, true, false, Option, none, some, List, [], ◌∷◌, ltb,
  if◌then◌else◌, length, arith, ◌⊎◌, inl,
}
use linux_vfs.Base.Errno.{Errno, ok}
use linux_vfs.File.Getdents.{
  Entry, Dirent, Getdents, verify_dirent_name, reclen_of, write_record, filldir, emit, iterate_dir,
  finish, getdents,
}

-- Writes that lie within a buffer of `total` bytes at `start`.
abbrev pub Inside : (start total : ℕ) → List (ℕ × ℕ) → Type 0
Inside start total [] = Unit {0}
Inside start total ((a, n) ∷ ws) = (start ≤ a) × (a + n ≤ start + total) × Inside start total ws

-- The records so far fill the buffer from its start, and the rest of it is counted.
abbrev Fills : (start total : ℕ) → Getdents → Type 0
Fills start total b =
    (b.current_dir + b.count ≡ start + total)
    × (start + b.prev_reclen ≤ b.current_dir)
    × (((b.prev_reclen ≡ 0) × (b.current_dir ≡ start)) ⊎ (24 ≤ b.prev_reclen))
    × Inside start total b.writes

reclen_of-holds : (name : List ℕ) → (20 + length name ≤ reclen_of name) × (24 ≤ reclen_of name)
unfolding reclen_of
reclen_of-holds name = (omega arith, omega arith)

filldir-Fills :
    (accessible : ℕ → ℕ → Bool) (pending : Bool) (e : Entry) (start total : ℕ) (b : Getdents)
    → Fills start total b
    → Fills start total (filldir accessible pending e b).1
unfolding filldir write_record
filldir-Fills accessible pending e start total b h = checked (verify_dirent_name e.name) refl
  where
    checked :
        (x : Option Errno)
        → verify_dirent_name e.name ≡ x
        → Fills start total (filldir accessible pending e b).1
    checked (some bad) q = ground (arith, h)
    checked none q = ground (arith, h, reclen_of-holds e.name)

emit-Fills :
    (accessible : ℕ → ℕ → Bool) (es : List (Entry × Bool)) (start total : ℕ) (b : Getdents)
    → Fills start total b
    → Fills start total (emit accessible es b)
unfolding emit
emit-Fills accessible [] start total b h = h
emit-Fills accessible ((e, pending) ∷ es) start total b h =
    let f = filldir-Fills accessible pending e start total b h in
    ground (arith, f, emit-Fills accessible es start total (filldir accessible pending e b).1 f)

iterate_dir-Fills :
    (accessible : ℕ → ℕ → Bool) (dead : Bool) (es : List (Entry × Bool)) (res : Option Errno)
    (start total : ℕ) (b : Getdents)
    → Fills start total b
    → Fills start total (iterate_dir accessible dead es res b).1
unfolding iterate_dir
iterate_dir-Fills accessible true es res start total b h = h
iterate_dir-Fills accessible false es res start total b h = emit-Fills accessible es start total b h

finish-Inside :
    (accessible : ℕ → ℕ → Bool) (pos start total : ℕ) (bad : Option Errno) (b : Getdents)
    → Fills start total b
    → let (r, b') = finish accessible pos total bad b in
      Inside start total b'.writes
      × ((n : ℕ) → r ≡ ok n → (b'.current_dir ≡ start + n) × (n ≤ total))
unfolding finish
finish-Inside accessible pos start total bad b h = ground (arith, h)

Inside-mono :
    (start total count : ℕ) (ws : List (ℕ × ℕ))
    → total ≤ count
    → Inside start total ws
    → Inside start count ws
Inside-mono start total count [] l h = h
Inside-mono start total count ((a, n) ∷ ws) l h =
    (h.0, omega arith, Inside-mono start total count ws l h.2)

-- Whatever a file system hands over, and whatever the buffer holds, `__getdents` writes within the
-- buffer only, and a length that it returns is the number of bytes that the records take, at most
-- the length of the buffer.
pub getdents-Inside :
    (accessible : ℕ → ℕ → Bool) (dead : Bool) (es : List (Entry × Bool)) (res : Option Errno)
    (pos start count : ℕ) (mem : ℕ → Dirent)
    → let (r, b) = getdents accessible dead es res pos start count mem in
      Inside start count b.writes × ((n : ℕ) → r ≡ ok n → (b.current_dir ≡ start + n) × (n ≤ count))
unfolding getdents
getdents-Inside accessible dead es res pos start count mem =
    let total = if ltb count (2 ^ 31) then count else 0 in
    let fresh : Getdents = record {
      mem = mem;
      writes = [];
      current_dir = start;
      prev_reclen = 0;
      count = total;
      error = none;
    } in
    let read = iterate_dir accessible dead es res fresh in
    let f =
      iterate_dir-Fills accessible dead es res start total fresh
        (refl, omega arith, inl (refl, refl), tt) in
    let g = finish-Inside accessible pos start total read.0 read.1 f in
    let le : total ≤ count = ground arith in
    (
      Inside-mono start total count (finish accessible pos total read.0 read.1).1.writes le g.0,
      λ n q. ((g.1 n q).0, omega (arith, (g.1 n q).1, le)),
    )
