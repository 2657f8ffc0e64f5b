-- ===== src/File/Open/Follow.antt =====
-- Whether an accepted open follows a trailing symbolic link.
use linux_vfs.Base.{
  ℕ, ◌≡◌, refl, sym, Bool, true, false, ◌&&◌, ◌||◌, not, arith, if◌then◌else◌, bit_and, bit_or,
}
use linux_vfs.Base.Bits.{bit, test, bit-or}
use linux_vfs.Base.Bits.Laws.{test-pow}
use linux_vfs.Base.Errno.{ok}
use linux_vfs.File.Open.{
  OpenHow, OpenFlags, build_open_flags, fill, with_flag, lookup_of, lookup_follow, o_creat, o_excl,
  o_nofollow, o_sync, o_dsync, lookup_cached, complement, strip, acc_mode_of, will_create, s_ifreg,
}

or_false : (b : Bool) → (b || false) ≡ b
or_false true = refl
or_false false = refl

and_false : (b : Bool) → (b && false) ≡ false
and_false true = refl
and_false false = refl

and_true : (b : Bool) → (b && true) ≡ b
and_true true = refl
and_true false = refl

bit-with_flag : (b : Bool) (m x k : ℕ) → bit (with_flag b m x) k ≡ (bit x k || (b && bit m k))
bit-with_flag true m x k = bit-or k x m
bit-with_flag false m x k = sym (or_false (bit x k))

-- Only O_NOFOLLOW decides on LOOKUP_FOLLOW.
lookup_of-follow :
    (flags resolve : ℕ) → bit (lookup_of flags resolve) 0 ≡ not (test flags o_nofollow)
unfolding lookup_of bit
lookup_of-follow flags resolve = simp (bit-with_flag, or_false, and_false, and_true)

-- The flags word as the lookup sees it: O_EXCL with O_CREAT adds O_NOFOLLOW.
abbrev seen : ℕ → ℕ
seen flags = with_flag (test flags o_creat && test flags o_excl) o_nofollow flags

nofollow_seen :
    (flags : ℕ)
    → test (seen flags) o_nofollow
      ≡ (test flags o_nofollow || (test flags o_creat && test flags o_excl))
nofollow_seen flags =
    rw
      (
        test-pow 17 (seen flags),
        bit-with_flag (test flags o_creat && test flags o_excl) o_nofollow flags 17,
        test-pow 17 flags,
        top,
        and_true (test flags o_creat && test flags o_excl),
      )
      refl
  where
    top : bit o_nofollow 17 ≡ true
    top = unfold bit in refl

follow_of :
    (flags resolve : ℕ) (cached : Bool)
    → test (with_flag cached lookup_cached (lookup_of (seen flags) resolve)) lookup_follow
      ≡ not (test flags o_nofollow || (test flags o_creat && test flags o_excl))
follow_of flags resolve cached =
    rw
      (
        test-pow 0 (with_flag cached lookup_cached (lookup_of (seen flags) resolve)),
        bit-with_flag cached lookup_cached (lookup_of (seen flags) resolve) 0,
        low,
        and_false cached,
        or_false (bit (lookup_of (seen flags) resolve) 0),
        lookup_of-follow (seen flags) resolve,
        nofollow_seen flags,
      )
      refl
  where
    low : bit lookup_cached 0 ≡ false
    low = unfold bit in refl

fill-follow :
    (how : OpenHow) (flags acc : ℕ) (op : OpenFlags) {op' : OpenFlags}
    → fill how flags acc op ≡ (ok tt, op')
    → test op'.lookup_flags lookup_follow
      ≡ not (
          test op'.open_flag o_nofollow
          || (test op'.open_flag o_creat && test op'.open_flag o_excl))
unfolding fill
fill-follow how flags acc op e = ground (
  arith,
  follow_of (with_flag (test flags o_sync) o_dsync flags) how.resolve true,
  follow_of (with_flag (test flags o_sync) o_dsync flags) how.resolve false,
)

-- An accepted open follows a trailing symbolic link exactly if O_NOFOLLOW is not set and it is not
-- an exclusive creation (O_CREAT with O_EXCL), for every `struct open_how`, its resolve flags and
-- RESOLVE_CACHED included.
build_open_flags-follow :
    (how : OpenHow) (op : OpenFlags) {op' : OpenFlags}
    → build_open_flags how op ≡ (ok tt, op')
    → test op'.lookup_flags lookup_follow
      ≡ not (
          test op'.open_flag o_nofollow
          || (test op'.open_flag o_creat && test op'.open_flag o_excl))
unfolding build_open_flags
build_open_flags-follow how op {op'} e =
    let flags = bit_and how.flags (complement strip) in
    let acc = acc_mode_of how.flags in
    let mode = if will_create flags then bit_or how.mode s_ifreg else 0 in
    ground (arith, fill-follow how flags acc (record op { mode = mode }) {op' = op'})
