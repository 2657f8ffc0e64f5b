-- ===== src/Namei/Filename/Lengths.antt =====
-- The lengths and the memory of src/private/filename.c.
use linux_vfs.Base.{
  ℕ, ◌≡◌, Bool, true, not, ◌&&◌, none, List, ◌∷◌, ◌==◌, if◌then◌else◌, ltb, leb, arith,
}
use linux_vfs.Base.Errno.{Errno, enoent, enametoolong, Result, ok, err}
use linux_vfs.Namei.Filename.{
  path_max, embedded_name_max, Blocks, Filename, getname_long, getname_flags, putname,
}

-- `strncpy_from_user` on a readable string of a length: the length, or the size if there is no NUL
-- within it.
abbrev pub Copies : (copy : ℕ → Result ℕ) → (len : ℕ) → Type 0
Copies copy len = (size : ℕ) → copy size ≡ ok (if ltb len size then len else size)

-- With memory, a readable name is refused exactly if it does not fit into PATH_MAX bytes with its
-- NUL, or is empty without LOOKUP_EMPTY; else it is returned with its whole length, however long.
getname_flags-Copies :
    (copy : ℕ → Result ℕ) (empty_allowed : Bool) (len live : ℕ) (os : List Bool)
    → Copies copy len
    → (getname_flags copy empty_allowed (record { outcomes = true ∷ true ∷ os; live = live })).0 ≡ (
        if leb path_max len
        then err enametoolong
        else if len == 0 && not empty_allowed
        then err enoent
        else ok (record { len = len; separate = leb embedded_name_max len; refcnt = 1 }))
unfolding getname_flags getname_long
getname_flags-Copies copy empty_allowed len live os h =
    ground (arith, h path_max, h embedded_name_max)

-- Whatever the copies and the allocations do, an error leaves as many blocks as there were, and a
-- name that is returned is freed by one `putname` with all its blocks.
pub putname-getname_flags :
    (copy : ℕ → Result ℕ) (empty_allowed : Bool) (m : Blocks)
    → let (r, m') = getname_flags copy empty_allowed m in
      ((e : Errno) → r ≡ err e → m'.live ≡ m.live)
      × ((f : Filename) → r ≡ ok f → ((putname f m').0 ≡ none) × ((putname f m').1.live ≡ m.live))
unfolding getname_flags getname_long putname
putname-getname_flags copy empty_allowed m = ground arith
