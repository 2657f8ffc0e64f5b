-- ===== src/Namei/Filename.antt =====
-- Names copied from the user: `getname_flags` and `putname` of src/private/filename.c. Copying is
-- `strncpy_from_user` of the kernel: for a size, the length that it returns. `outcomes` says which of
-- the next allocations succeed, and `live` counts the blocks that are allocated and not freed.
pub mod Lengths
use linux_vfs.Base.{
  ℕ, ◌+◌, ◌-◌, Bool, true, false, not, ◌&&◌, Option, none, some, List, [], ◌∷◌, ◌==◌, if◌then◌else◌,
}
use linux_vfs.Base.Errno.{Errno, enomem, enoent, enametoolong, Result, ok, err}

abbrev pub path_max : ℕ
path_max = 4096

-- `iname` stands at 28.
abbrev pub embedded_name_max : ℕ
embedded_name_max = path_max - 28

pub record Blocks : Type 0 where
  pub outcomes : List Bool
  pub live : ℕ

-- The length of the name, and whether it has a block of its own.
pub record Filename : Type 0 where
  pub len : ℕ
  pub separate : Bool
  pub refcnt : ℕ

abbrev pub alloc : Blocks → Bool × Blocks
alloc m = elim m.outcomes [
  | true ∷ os ↦ (true, record { outcomes = os; live = m.live + 1 })
  | _ ∷ os ↦ (false, record m { outcomes = os })
  | [] ↦ (false, m)
]

abbrev pub free : Blocks → Blocks
free m = record m { live = m.live - 1 }

module _ (copy : ℕ → Result ℕ) (empty_allowed : Bool) where
  -- The second copy, into a whole block, with a `struct filename` beside it.
  unfoldable pub getname_long : Blocks → Result Filename × Blocks
  getname_long m =
      let (got, m1) = alloc m in
      if not got then (err enomem, free m1) else elim (copy path_max) [
        | err e ↦ (err e, free (free m1))
        | ok len ↦
            if len == 0 && not empty_allowed
            then (err enoent, free (free m1))
            else if len == path_max
            then (err enametoolong, free (free m1))
            else (ok (record { len = len; separate = true; refcnt = 1 }), m1)
      ]

  unfoldable pub getname_flags : Blocks → Result Filename × Blocks
  unfolding getname_long
  getname_flags m =
      let (got, m1) = alloc m in
      if not got then (err enomem, m1) else elim (copy embedded_name_max) [
        | err e ↦ (err e, free m1)
        | ok len ↦
            if len == 0 && not empty_allowed
            then (err enoent, free m1)
            else if len == embedded_name_max
            then getname_long m1
            else (ok (record { len = len; separate = false; refcnt = 1 }), m1)
      ]

-- What is left of the name for those who still hold it; none if it was freed.
unfoldable pub putname : Filename → Blocks → Option Filename × Blocks
putname f m =
    if f.refcnt == 0
    then (some f, m)
    else if not (f.refcnt == 1)
    then (some (record f { refcnt = f.refcnt - 1 }), m)
    else (none, if f.separate then free (free m) else free m)
