-- ===== src/File/Open.antt =====
-- The flags of open(2): `build_open_how` and `build_open_flags` of src/api/open.c, with the default
-- values of include/linux/vfs/fcntl.h. A structure that the caller passes by reference is an
-- argument and a result, so that what an early return leaves in it is seen.
pub mod Flags
pub mod Refusal
pub mod Follow
pub use Flags.*
use linux_vfs.Base.{
  ℕ, ◌≡◌, refl, List, [], ◌∷◌, Bool, true, false, ◌&&◌, ◌||◌, not, arith, ◌==◌, if◌then◌else◌,
  bit_and, bit_or, bit_xor,
}
use linux_vfs.Base.Bits.{test}
use linux_vfs.Base.Errno.{einval, eagain, Result, ok, err, ◌>>=◌, ◌>>◌, fail_if}

pub record OpenHow : Type 0 where
  pub flags : ℕ
  pub mode : ℕ
  pub resolve : ℕ

pub record OpenFlags : Type 0 where
  pub open_flag : ℕ
  pub mode : ℕ
  pub acc_mode : ℕ
  pub intent : ℕ
  pub lookup_flags : ℕ

unfoldable pub will_create : ℕ → Bool
will_create flags = test flags (any (o_creat ∷ o_tmpfile ∷ []))

-- `ACC_MODE`, an index into "\004\002\006\006".
unfoldable pub acc_mode_of : ℕ → ℕ
acc_mode_of flags = let m = bit_and flags 3 in if m == 0 then 4 else if m == 1 then 2 else 6

unfoldable pub build_open_how : ℕ → ℕ → OpenHow
unfolding will_create
build_open_how flags mode =
    let f = bit_and flags valid_open_flags in
    let f = if test f o_path then bit_and f o_path_flags else f in
    record { flags = f; mode = if will_create f then bit_and mode s_iallugo else 0; resolve = 0 }

abbrev pub strip : ℕ
strip = any (fmode_nonotify ∷ o_cloexec ∷ [])

-- The checks before the mode is stored.
unfoldable pub check_values : OpenHow → ℕ → Result (Unit {0})
unfolding will_create
check_values how flags = do
  fail_if (test flags (complement valid_open_flags)) einval
  fail_if (test how.resolve (complement valid_resolve_flags)) einval
  fail_if (test how.resolve resolve_beneath && test how.resolve resolve_in_root) einval
  fail_if (if will_create flags then test how.mode (complement s_iallugo) else not (how.mode == 0))
      einval

-- The checks of flags against each other, after it.
unfoldable pub check_combination : ℕ → ℕ → Result (Unit {0})
check_combination flags acc = do
  let both = any (o_directory ∷ o_creat ∷ [])
  fail_if (bit_and flags both == both) einval
  fail_if (test flags o_tmpfile && not (test flags o_directory)) einval
  fail_if (test flags o_tmpfile && not (test acc may_write)) einval
  fail_if (test flags o_path && test flags (complement o_path_flags)) einval

abbrev pub with_flag : Bool → ℕ → ℕ → ℕ
with_flag b m x = if b then bit_or x m else x

-- `acc_mode` and `intent` from the flags after `__O_SYNC` was widened.
unfoldable pub access_of : ℕ → ℕ → ℕ
access_of flags acc =
    with_flag (test flags o_append) may_append
      (with_flag (test flags o_trunc) may_write (if test flags o_path then 0 else acc))

unfoldable pub intent_of : ℕ → ℕ
intent_of flags =
    let base = if test flags o_path then 0 else lookup_open in
    if test flags o_creat
    then with_flag (test flags o_excl) lookup_excl (bit_or base lookup_create)
    else base

-- The lookup flags before RESOLVE_CACHED.
unfoldable pub lookup_of : ℕ → ℕ → ℕ
lookup_of flags resolve = with_flag (test resolve resolve_in_root) lookup_in_root (
    with_flag (test resolve resolve_beneath) lookup_beneath (
      with_flag (test resolve resolve_no_symlinks) lookup_no_symlinks (
        with_flag (test resolve resolve_no_magiclinks) lookup_no_magiclinks (
          with_flag (test resolve resolve_no_xdev) lookup_no_xdev (
            with_flag (not (test flags o_nofollow)) lookup_follow
              (with_flag (test flags o_directory) lookup_directory 0))))))

-- The rest of `build_open_flags`, which stores the results.
unfoldable pub fill : OpenHow → ℕ → ℕ → OpenFlags → Result (Unit {0}) × OpenFlags
fill how flags acc op =
    let flags = with_flag (test flags o_sync) o_dsync flags in
    let op = record op {
      open_flag = flags;
      acc_mode = access_of flags acc;
      intent = intent_of flags;
    } in
    let flags = with_flag (test flags o_creat && test flags o_excl) o_nofollow flags in
    let lookup = lookup_of flags how.resolve in
    if test how.resolve resolve_cached
    then if test flags (any (o_trunc ∷ o_creat ∷ o_tmpfile ∷ []))
      then (err eagain, op)
      else (ok tt, record op { lookup_flags = bit_or lookup lookup_cached })
    else (ok tt, record op { lookup_flags = lookup })

unfoldable pub build_open_flags : OpenHow → OpenFlags → Result (Unit {0}) × OpenFlags
build_open_flags how op =
    let flags = bit_and how.flags (complement strip) in
    let acc = acc_mode_of how.flags in
    elim (check_values how flags) [
      | err e ↦ (err e, op)
      | ok _ ↦
          let op1 = record op { mode = if will_create flags then bit_or how.mode s_ifreg else 0 } in
          elim (check_combination flags acc) [
            | err e ↦ (err e, op1)
            | ok _ ↦ fill how flags acc op1
          ]
    ]

-- `__build_openflags`. Its caller `vfs_openat_api` drops the result and goes on with `op`.
unfoldable pub build_openflags : OpenFlags → ℕ → ℕ → Result (Unit {0}) × OpenFlags
unfolding build_open_how build_open_flags
build_openflags op flags mode = build_open_flags (build_open_how flags mode) op
