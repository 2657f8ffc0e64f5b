-- ===== src/File/Open/Refusal.antt =====
-- When `build_open_flags` of src/api/open.c refuses flags.
use linux_vfs.Base.{
  ℕ, ◌^◌, ◌≡◌, refl, ◌⊎◌, inl, inr, [], ◌∷◌, Bool, true, false, ◌&&◌, ◌||◌, not, arith, ◌==◌,
  if◌then◌else◌, bit_and, bit_or, Bool-cases,
}
use linux_vfs.Base.Bits.{bit, test, bit-and}
use linux_vfs.Base.Bits.Laws.{test-pow, test-masked, bit_and-pow, bit_and-or, bit_and_assoc}
use linux_vfs.Base.Errno.{einval, ok, err, ◌>>◌, fail_if}
use linux_vfs.File.Open.{
  OpenHow, OpenFlags, build_open_flags, build_openflags, check_values, check_combination, fill,
  valid_open_flags, o_path_flags, complement, strip, o_creat, o_directory, o_path, o_tmpfile,
  will_create, acc_mode_of, any,
}

-- Tests of single flags as bits.
bit_creat : (x : ℕ) → test x o_creat ≡ bit x 6
bit_creat = test-pow 6

bit_directory : (x : ℕ) → test x o_directory ≡ bit x 16
bit_directory = test-pow 16

bit_path : (x : ℕ) → test x o_path ≡ bit x 21
bit_path = test-pow 21

bit_tmpfile : (x : ℕ) → test x o_tmpfile ≡ bit x 22
bit_tmpfile = test-pow 22

-- A mask of two bits.
two_bits :
    (j k x : ℕ)
    → bit_and x (bit_or (2 ^ j) (2 ^ k))
      ≡ bit_or (if bit x j then 2 ^ j else 0) (if bit x k then 2 ^ k else 0)
two_bits j k x = rw (bit_and-or x (2 ^ j) (2 ^ k), bit_and-pow j x, bit_and-pow k x) refl

both_bits :
    (x : ℕ)
    → (bit_and x (any (o_directory ∷ o_creat ∷ [])) == any (o_directory ∷ o_creat ∷ []))
      ≡ (bit x 16 && bit x 6)
both_bits x = rw (two_bits 16 6 x) (cases (bit x 16) (bit x 6))
  where
    cases :
        (a b : Bool)
        → (bit_or (if a then 2 ^ 16 else 0) (if b then 2 ^ 6 else 0)
            == any (o_directory ∷ o_creat ∷ []))
          ≡ (a && b)
    cases true true = refl
    cases true false = refl
    cases false true = refl
    cases false false = refl

will_create-bits : (x : ℕ) → will_create x ≡ (bit x 6 || bit x 22)
unfolding will_create test
will_create-bits x = rw (two_bits 6 22 x) (cases (bit x 6) (bit x 22))
  where
    cases :
        (a b : Bool)
        → not (bit_or (if a then 2 ^ 6 else 0) (if b then 2 ^ 22 else 0) == 0) ≡ (a || b)
    cases true true = refl
    cases true false = refl
    cases false true = refl
    cases false false = refl

-- The flags that `build_open_how` lets through, by `mask`, and `build_open_flags` strips.
abbrev kept : ℕ → ℕ → ℕ
kept f mask = bit_and (bit_and f mask) (complement strip)

bit-kept :
    (f mask k : ℕ) → bit (kept f mask) k ≡ ((bit f k && bit mask k) && bit (complement strip) k)
bit-kept f mask k = rw (bit-and k (bit_and f mask) (complement strip), bit-and k f mask) refl

-- The bits that `strip` leaves.
unstripped :
    (bit (complement strip) 6 ≡ true)
    × (bit (complement strip) 16 ≡ true)
    × (bit (complement strip) 21 ≡ true)
    × (bit (complement strip) 22 ≡ true)
unfolding bit
unstripped = (refl, refl, refl, refl)

abbrev how_of : ℕ → ℕ → OpenHow
how_of x m = record { flags = x; mode = if will_create x then bit_and m 0o7777 else 0; resolve = 0 }

-- What is asked of a mask: it lies within the valid flags, and lets no O_TMPFILE through.
abbrev IsMask : ℕ → Type 0
IsMask mask =
    (bit_and (bit_and mask (complement strip)) (complement valid_open_flags) ≡ 0)
    × (bit mask 22 ≡ false)

module _ (f m mask : ℕ) (h : IsMask mask) where
  creates : will_create (kept f mask) ≡ will_create (bit_and f mask)
  creates = ground (
    arith,
    will_create-bits (kept f mask),
    will_create-bits (bit_and f mask),
    bit-kept f mask 6,
    bit-kept f mask 22,
    bit-and 6 f mask,
    bit-and 22 f mask,
    unstripped,
  )

  check_values-kept : check_values (how_of (bit_and f mask) m) (kept f mask) ≡ ok tt
  unfolding check_values
  check_values-kept = rw (outside, creates) (modes (Bool-cases (will_create (bit_and f mask))))
    where
      outside : test (kept f mask) (complement valid_open_flags) ≡ false
      outside = rw (bit_and_assoc f mask (complement strip)) (test-masked f _ _ h.0)

      mode_bits : test (bit_and m 0o7777) (complement 0o7777) ≡ false
      mode_bits = test-masked m 0o7777 (complement 0o7777) refl

      none_set : (n : ℕ) → bit_and 0 n ≡ 0 → test 0 n ≡ false
      none_set n e = unfold test in rw e refl

      modes :
          (will_create (bit_and f mask) ≡ true) ⊎ (will_create (bit_and f mask) ≡ false)
          → (do
            fail_if (test 0 (complement 0x3f)) einval
            fail_if (test 0 8 && test 0 16) einval
            fail_if
                (if will_create (bit_and f mask)
                  then test
                      (if will_create (bit_and f mask) then bit_and m 0o7777 else 0)
                      (complement 0o7777)
                  else not ((if will_create (bit_and f mask) then bit_and m 0o7777 else 0) == 0))
                einval)
            ≡ ok tt
      modes (inl e) = rw (e, mode_bits, none_set (complement 0x3f) refl, none_set 8 refl) refl
      modes (inr e) = rw (e, none_set (complement 0x3f) refl, none_set 8 refl) refl

  -- The combination that is refused: O_DIRECTORY with O_CREAT.
  check_combination-kept :
      (acc : ℕ)
      → test (kept f mask) o_path && test (kept f mask) (complement o_path_flags) ≡ false
      → check_combination (kept f mask) acc
        ≡ (if bit (kept f mask) 16 && bit (kept f mask) 6 then err einval else ok tt)
  unfolding check_combination
  check_combination-kept acc p =
      rw (both_bits (kept f mask), bit_tmpfile (kept f mask), no_tmpfile, p)
        (cases (bit (kept f mask) 16 && bit (kept f mask) 6))
    where
      no_tmpfile : bit (kept f mask) 22 ≡ false
      no_tmpfile = ground (arith, bit-kept f mask 22)

      cases :
          (b : Bool)
          → (do fail_if b einval; fail_if false einval; fail_if false einval; fail_if false einval)
            ≡ (if b then err einval else ok tt)
      cases true = refl
      cases false = refl

  build_open_flags-kept :
      (op : OpenFlags)
      → test (kept f mask) o_path && test (kept f mask) (complement o_path_flags) ≡ false
      → (build_open_flags (how_of (bit_and f mask) m) op).0
        ≡ (if bit (kept f mask) 16 && bit (kept f mask) 6 then err einval else ok tt)
  unfolding build_open_flags fill test
  build_open_flags-kept op p =
      ground (arith, check_values-kept, check_combination-kept (acc_mode_of (bit_and f mask)) p)

plain-IsMask : IsMask valid_open_flags
unfolding bit
plain-IsMask = (refl, refl)

path-IsMask : IsMask o_path_flags
unfolding bit
path-IsMask = (refl, refl)

mask_bits :
    (bit valid_open_flags 6 ≡ true)
    × (bit valid_open_flags 16 ≡ true)
    × (bit valid_open_flags 21 ≡ true)
    × (bit o_path_flags 6 ≡ false)
unfolding bit
mask_bits = (refl, refl, refl, refl)

-- Through `build_open_how`, whatever flags and mode a caller of open(2) passes, they are refused
-- exactly when they ask to create a directory (O_CREAT with O_DIRECTORY, and no O_PATH, which
-- overrides O_CREAT), always with EINVAL: no other check can fail on what `build_open_how` lets
-- through.
pub build_openflags-refuses :
    (op : OpenFlags) (f m : ℕ)
    → (build_openflags op f m).0
      ≡ (if test f o_directory && test f o_creat && not (test f o_path) then err einval else ok tt)
unfolding build_openflags
build_openflags-refuses op f m =
    rw
      (
        bit_path (bit_and f valid_open_flags),
        bit-and 21 f valid_open_flags,
        bit_directory f,
        bit_creat f,
        bit_path f,
      )
      (cases (Bool-cases (bit f 21)))
  where
    path_only :
        test (kept f o_path_flags) o_path && test (kept f o_path_flags) (complement o_path_flags)
        ≡ false
    path_only = rw (bit_and_assoc f o_path_flags (complement strip)) (
        ground (
          arith,
          test-masked f (bit_and o_path_flags (complement strip)) (complement o_path_flags) refl,
        ))

    no_path :
        bit f 21 ≡ false
        → test (kept f valid_open_flags) o_path
            && test (kept f valid_open_flags) (complement o_path_flags)
          ≡ false
    no_path e = ground (arith, bit_path (kept f valid_open_flags), bit-kept f valid_open_flags 21)

    cases :
        (bit f 21 ≡ true) ⊎ (bit f 21 ≡ false)
        → (build_open_flags
            (how_of
              (if bit f 21 && bit valid_open_flags 21
                then bit_and (bit_and f valid_open_flags) o_path_flags
                else bit_and f valid_open_flags)
              m)
            op).0
          ≡ (if bit f 16 && bit f 6 && not (bit f 21) then err einval else ok tt)
    cases (inl e) =
        rw (e, mask_bits.2, bit_and_assoc f valid_open_flags o_path_flags)
          (ground (
            arith,
            e,
            mask_bits,
            bit-kept f o_path_flags 6,
            build_open_flags-kept f m o_path_flags path-IsMask op path_only,
          ))
    cases (inr e) = rw (e) (
        ground (
          arith,
          e,
          mask_bits,
          unstripped,
          bit-kept f valid_open_flags 6,
          bit-kept f valid_open_flags 16,
          build_open_flags-kept f m valid_open_flags plain-IsMask op (no_path e),
        ))
