-- ===== src/Mnt/Filesystems/Tests.antt =====
-- The registry of src/filesystems.c at concrete inputs: "ext" at 5, then "fat" at 6, which has
-- subtypes; "proc" at 7 is not registered.
use linux_vfs.Base.{
  ℕ, ◌≡◌, refl, ap, length, ◌++◌, none, some, List, [], ◌∷◌, ◌==◌, if◌then◌else◌, arith,
}
use linux_vfs.Base.Bits.{test}
use linux_vfs.Base.Errno.{ebusy}
use linux_vfs.Mnt.Filesystems.{
  Types, head, get_fs_type, register_filesystem, find_filesystem, find_from, is_named, strncmp_eq,
  register_at, check_subtype, prefix_length, dot_at, fs_has_subtype,
}
use linux_vfs.Mnt.Filesystems.Registry.{IsChain, get_fs_type-register_filesystem}

abbrev ext : List ℕ
ext = b'e' ∷ b'x' ∷ b't' ∷ []

abbrev fat : List ℕ
fat = b'f' ∷ b'a' ∷ b't' ∷ []

abbrev proc : List ℕ
proc = b'p' ∷ b'r' ∷ b'o' ∷ b'c' ∷ []

abbrev two_types : Types
two_types = record {
  file_systems = 5;
  name_of = λ p. if p == 5 then ext else if p == 6 then fat else proc;
  fs_flags = λ p. if p == 6 then fs_has_subtype else 0;
  next_of = λ p. if p == 5 then 6 else 0;
}

-- "fat.x" is the second type, "ext.x" has no subtypes, and "extra" is no type.
found :
    (get_fs_type 3 two_types (fat ++ b'.' ∷ b'x' ∷ []) ≡ some 6)
    × (get_fs_type 3 two_types (ext ++ b'.' ∷ b'x' ∷ []) ≡ some 0)
    × (get_fs_type 3 two_types (ext ++ b'r' ∷ b'a' ∷ []) ≡ some 0)
    × (get_fs_type 3 two_types ext ≡ some 5)
unfolding get_fs_type find_filesystem find_from is_named strncmp_eq check_subtype prefix_length
    dot_at test
found = (refl, refl, refl, refl)

-- A second type of a name is refused.
taken :
    register_filesystem 3 (record two_types { name_of = λ p. ext }) 7
    ≡ some (some ebusy, record two_types { name_of = λ p. ext })
unfolding register_filesystem register_at find_filesystem find_from is_named strncmp_eq
taken = refl

two_types-IsChain : IsChain two_types head (5 ∷ 6 ∷ [])
two_types-IsChain = (refl, λ e. omega (arith, e), (refl, λ e. omega (arith, e), refl))

get_fs_type-register_filesystem_example :
    (t : Types) × (register_filesystem 4 two_types 7 ≡ some (none, t))
    × IsChain t head (5 ∷ 6 ∷ 7 ∷ [])
    × (get_fs_type 4 t proc ≡ some 7)
unfolding dot_at
get_fs_type-register_filesystem_example =
    get_fs_type-register_filesystem 4 two_types 7 (5 ∷ 6 ∷ []) (omega arith) two_types-IsChain
      (λ e. omega (arith, e)) refl
      (
        λ e. omega (arith, e),
        (λ e. omega (arith, e), (λ e. omega (arith, e), (λ e. omega (arith, e), tt))),
      )
      refl
      (
        (
          λ e. omega (arith, e),
          (λ e. omega (arith, e), (λ e. omega (arith, e), (λ e. omega (arith, e), tt))),
          λ e. omega (arith, ap (length {A = ℕ}) e),
        ),
        (
          (
            λ e. omega (arith, e),
            (λ e. omega (arith, e), (λ e. omega (arith, e), (λ e. omega (arith, e), tt))),
            λ e. omega (arith, ap (length {A = ℕ}) e),
          ),
          tt,
        ),
      )
