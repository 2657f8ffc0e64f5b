-- ===== src/Mnt/Filesystems.antt =====
-- The file system types that are registered: src/filesystems.c. They are linked by their field
-- `next`, from the pointer `file_systems` on; `find_filesystem` returns the place of a pointer. A
-- name is the list of its bytes without the NUL at its end, and NULL is 0.

pub mod Names
pub mod Registry
pub mod Tests
use linux_vfs.Base.{
  ℕ, zero, suc, Bool, true, false, not, ◌&&◌, Option, none, some, List, [], ◌∷◌, ◌==◌,
  if◌then◌else◌, length,
}
use linux_vfs.Base.Bits.{test}
use linux_vfs.Base.Errno.{Errno, ebusy}
use linux_vfs.Vfs.{update}
use linux_vfs.Dcache.{byte_of, next, take}

abbrev pub fs_has_subtype : ℕ
fs_has_subtype = 4

pub record Types : Type 0 where
  pub file_systems : ℕ
  pub name_of : ℕ → List ℕ
  pub fs_flags : ℕ → ℕ
  pub next_of : ℕ → ℕ

-- Where a pointer stands: `file_systems`, or the field `next` of a type.
pub data Link : Type 0 where
  head : Link
  after : ℕ → Link

abbrev pub load : Types → Link → ℕ
load t head = t.file_systems
load t (after p) = t.next_of p

abbrev pub store : Types → Link → ℕ → Types
store t head fs = record t { file_systems = fs }
store t (after p) fs = record t { next_of = update t.next_of p fs }

-- `strncmp(a, b, n) == 0`.
unfoldable pub strncmp_eq : ℕ → List ℕ → List ℕ → Bool
strncmp_eq zero a b = true
strncmp_eq (suc n) a b =
    if not (byte_of a == byte_of b)
    then false
    else if byte_of a == 0
    then true
    else strncmp_eq n (next a) (next b)

abbrev pub skip {ℓ} : {A : Type ℓ} → ℕ → List A → List A
skip zero xs = xs
skip (suc n) [] = []
skip (suc n) (x ∷ xs) = skip n xs

-- The test of `find_filesystem`: the first `len` bytes, and then a NUL.
unfoldable pub is_named : List ℕ → List ℕ → ℕ → Bool
unfolding strncmp_eq
is_named fs_name name len = strncmp_eq len fs_name name && byte_of (skip len fs_name) == 0

-- The loop from a place on; `none` means that the fuel ran out.
unfoldable pub find_from : ℕ → Types → List ℕ → ℕ → Link → Option Link
find_from zero t name len p = none
find_from (suc k) t name len p =
    let more = find_from k t name len (after (load t p)) in
    if load t p == 0
    then some p
    else if is_named (t.name_of (load t p)) name len
    then some p
    else more

unfoldable pub find_filesystem : ℕ → Types → List ℕ → ℕ → Option Link
unfolding find_from
find_filesystem fuel t name len = find_from fuel t name len head

unfoldable pub register_at : Types → ℕ → Link → Option Errno × Types
register_at t fs p = if not (load t p == 0) then (some ebusy, t) else (none, store t p fs)

unfoldable pub register_filesystem : ℕ → Types → ℕ → Option (Option Errno × Types)
unfolding find_filesystem register_at
register_filesystem fuel t fs =
    if not (t.next_of fs == 0)
    then some (some ebusy, t)
    else elim (find_filesystem fuel t (t.name_of fs) (length (t.name_of fs))) [
      | none ↦ none
      | some p ↦ some (register_at t fs p)
    ]

-- The bytes before the first dot, and whether there is one: `strchr(name, '.')`.
unfoldable pub dot_at : List ℕ → Option ℕ
dot_at [] = none
dot_at (c ∷ cs) =
    let more = dot_at cs in
    if c == b'.' then some 0 else elim more [ none ↦ none | some n ↦ some (suc n) ]

-- A type that is named with a subtype must have some.
unfoldable pub check_subtype : Types → Option ℕ → ℕ → ℕ
check_subtype t none fs = fs
check_subtype t (some n) fs = if test (t.fs_flags fs) fs_has_subtype then fs else 0

unfoldable pub prefix_length : List ℕ → Option ℕ → ℕ
prefix_length name none = length name
prefix_length name (some n) = n

unfoldable pub get_fs_type : ℕ → Types → List ℕ → Option ℕ
unfolding find_filesystem dot_at check_subtype prefix_length
get_fs_type fuel t name = elim (find_filesystem fuel t name (prefix_length name (dot_at name))) [
  | none ↦ none
  | some p ↦ some (check_subtype t (dot_at name) (load t p))
]
