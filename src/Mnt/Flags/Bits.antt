-- ===== src/Mnt/Flags/Bits.antt =====
-- The flags of a mount, one by one.
use linux_vfs.Base.{
  ℕ, ◌^◌, ◌≡◌, refl, ◌∙◌, Bool, true, false, not, ◌&&◌, ◌||◌, bit_and, bit_or, if◌then◌else◌,
  bit_xor, ◌==◌, arith,
}
use linux_vfs.Base.Bits.{bit, test, clear, bit-or, bit-and}
use linux_vfs.Base.Bits.Laws.{bit_and-or, bit_and-pow, test-pow, bit-set_if, bit-clear}
use linux_vfs.Namei.State.{mnt_nosymfollow}
use linux_vfs.Mnt.Flags.{
  ms_remount, ms_relatime, ms_rdonly, ms_nosuid, ms_nodev, ms_noexec, ms_nosymfollow, ms_noatime,
  ms_nodiratime, ms_strictatime, mnt_nosuid, mnt_nodev, mnt_noexec, mnt_noatime, mnt_nodiratime,
  mnt_relatime, mnt_readonly, mnt_atime_mask, clear_if, per_mount_flags, keeps_atime, mount_flags,
}

bit-clear_if :
    (b : Bool) (m mode k : ℕ)
    → bit (bit_xor 0xffff_ffff m) k ≡ not (bit m k)
    → bit (clear_if b m mode) k ≡ (if bit m k then not b && bit mode k else bit mode k)
bit-clear_if true m mode k e = bit-clear mode m k e
bit-clear_if false m mode k e = ground arith

-- The bit `k` of a word after `if (b) mode |= m` and `if (b) mode &= ~m`, from what it was before.
abbrev set_bit : Bool → (m k : ℕ) → Bool → Bool
set_bit b m k v = if bit m k then v || b else v

abbrev clear_bit : Bool → (m k : ℕ) → Bool → Bool
clear_bit b m k v = if bit m k then not b && v else v

-- On a literal `k` the right side computes to the tests that set the bit.
per_mount_flags-bit :
    (k flags : ℕ)
    → bit (bit_xor 0xffff_ffff (bit_or mnt_relatime mnt_noatime)) k
      ≡ not (bit (bit_or mnt_relatime mnt_noatime) k)
    → bit (per_mount_flags flags) k
      ≡ set_bit (test flags ms_nosymfollow) mnt_nosymfollow k (
          set_bit (test flags ms_rdonly) mnt_readonly k (
            clear_bit (test flags ms_strictatime) (bit_or mnt_relatime mnt_noatime) k (
              set_bit (test flags ms_nodiratime) mnt_nodiratime k (
                set_bit (test flags ms_noatime) mnt_noatime k (
                  set_bit (test flags ms_noexec) mnt_noexec k (
                    set_bit (test flags ms_nodev) mnt_nodev k (
                      set_bit
                        (test flags ms_nosuid)
                        mnt_nosuid
                        k
                        (set_bit (not (test flags ms_noatime)) mnt_relatime k (bit 0 k)))))))))
unfolding per_mount_flags
per_mount_flags-bit k flags e =
    simp (
      bit-set_if,
      λ (b : Bool) (mode : ℕ). bit-clear_if b (bit_or mnt_relatime mnt_noatime) mode k e,
    )

-- With MS_REMOUNT and no flag for access times, those of the old mount are kept.
mount_flags-bit :
    (k flags old : ℕ)
    → bit (bit_xor 0xffff_ffff mnt_atime_mask) k ≡ not (bit mnt_atime_mask k)
    → bit (mount_flags flags old) k ≡ (
        if keeps_atime flags && bit mnt_atime_mask k
        then bit old k
        else bit (per_mount_flags flags) k)
unfolding mount_flags
mount_flags-bit k flags old e = ground (
  arith,
  bit-or k (clear (per_mount_flags flags) mnt_atime_mask) (bit_and old mnt_atime_mask),
  bit-and k old mnt_atime_mask,
  bit-clear (per_mount_flags flags) mnt_atime_mask k e,
)

-- A flag of the mount that is no flag for access times, and one that is.
plain_flag :
    (k flags old m : ℕ)
    → m ≡ 2 ^ k
    → bit (bit_xor 0xffff_ffff mnt_atime_mask) k ≡ not (bit mnt_atime_mask k)
    → bit mnt_atime_mask k ≡ false
    → test (mount_flags flags old) m ≡ bit (per_mount_flags flags) k
plain_flag k flags old m p e f =
    rw (p, test-pow k (mount_flags flags old), mount_flags-bit k flags old e, f) (ground arith)

atime_flag :
    (k flags old m : ℕ)
    → m ≡ 2 ^ k
    → bit (bit_xor 0xffff_ffff mnt_atime_mask) k ≡ not (bit mnt_atime_mask k)
    → bit mnt_atime_mask k ≡ true
    → test (mount_flags flags old) m
      ≡ (if keeps_atime flags then test old m else bit (per_mount_flags flags) k)
atime_flag k flags old m p e f =
    rw (p, test-pow k (mount_flags flags old), test-pow k old, mount_flags-bit k flags old e, f)
      (ground arith)

-- `flags & mask` is empty if none of the four flags is set.
masked :
    (a b c d : Bool)
    → (bit_or (if a then ms_noatime else 0) (
          bit_or
            (if b then ms_nodiratime else 0)
            (bit_or (if c then ms_relatime else 0) (if d then ms_strictatime else 0)))
        == 0)
      ≡ (not a && not b && not c && not d)
masked true true true true = refl
masked true true true false = refl
masked true true false true = refl
masked true true false false = refl
masked true false true true = refl
masked true false true false = refl
masked true false false true = refl
masked true false false false = refl
masked false true true true = refl
masked false true true false = refl
masked false true false true = refl
masked false true false false = refl
masked false false true true = refl
masked false false true false = refl
masked false false false true = refl
masked false false false false = refl

keeps_atime-test :
    (flags : ℕ)
    → keeps_atime flags ≡ (
        test flags ms_remount
        && (not (test flags ms_noatime)
            && not (test flags ms_nodiratime)
            && not (test flags ms_relatime)
            && not (test flags ms_strictatime)))
keeps_atime-test flags =
    let two = bit_and-or flags ms_relatime ms_strictatime in
    let three = bit_and-or flags ms_nodiratime (bit_or ms_relatime ms_strictatime) in
    let four =
      bit_and-or flags ms_noatime (bit_or ms_nodiratime (bit_or ms_relatime ms_strictatime)) in
    rw
      (
        four,
        three,
        two,
        bit_and-pow 10 flags,
        bit_and-pow 11 flags,
        bit_and-pow 21 flags,
        bit_and-pow 24 flags,
        test-pow 10 flags,
        test-pow 11 flags,
        test-pow 21 flags,
        test-pow 24 flags,
        masked (bit flags 10) (bit flags 11) (bit flags 21) (bit flags 24),
      )
      refl

-- Each flag of the mount is set exactly if its flag of mount(2) is; but MS_STRICTATIME clears the flags
-- for access times "noatime" and "relatime", of which otherwise exactly one is set; and with MS_REMOUNT and
-- none of MS_NOATIME, MS_NODIRATIME, MS_RELATIME and MS_STRICTATIME all three flags for access times are
-- those of the old mount.
pub mount_flags_bits :
    (flags old : ℕ)
    → let m = mount_flags flags old in
      let strict = test flags ms_strictatime in
      let remount =
        test flags ms_remount
        && (not (test flags ms_noatime)
            && not (test flags ms_nodiratime)
            && not (test flags ms_relatime)
            && not strict) in
      (test m mnt_nosuid ≡ test flags ms_nosuid)
      × (test m mnt_nodev ≡ test flags ms_nodev)
      × (test m mnt_noexec ≡ test flags ms_noexec)
      × (test m mnt_readonly ≡ test flags ms_rdonly)
      × (test m mnt_nosymfollow ≡ test flags ms_nosymfollow)
      × (test m mnt_noatime
          ≡ (if remount then test old mnt_noatime else not strict && test flags ms_noatime))
      × (test m mnt_relatime
          ≡ (if remount then test old mnt_relatime else not strict && not (test flags ms_noatime)))
      × (test m mnt_nodiratime
          ≡ (if remount then test old mnt_nodiratime else test flags ms_nodiratime))
unfolding bit
mount_flags_bits flags old = (
  plain_flag 0 flags old mnt_nosuid refl refl refl ∙ per_mount_flags-bit 0 flags refl,
  plain_flag 1 flags old mnt_nodev refl refl refl ∙ per_mount_flags-bit 1 flags refl,
  plain_flag 2 flags old mnt_noexec refl refl refl ∙ per_mount_flags-bit 2 flags refl,
  plain_flag 6 flags old mnt_readonly refl refl refl ∙ per_mount_flags-bit 6 flags refl,
  plain_flag 7 flags old mnt_nosymfollow refl refl refl ∙ per_mount_flags-bit 7 flags refl,
  atime_flag 3 flags old mnt_noatime refl refl refl
      ∙ rw (per_mount_flags-bit 3 flags refl, keeps_atime-test flags) refl,
  atime_flag 5 flags old mnt_relatime refl refl refl
      ∙ rw (per_mount_flags-bit 5 flags refl, keeps_atime-test flags) refl,
  atime_flag 4 flags old mnt_nodiratime refl refl refl
      ∙ rw (per_mount_flags-bit 4 flags refl, keeps_atime-test flags) refl,
)
