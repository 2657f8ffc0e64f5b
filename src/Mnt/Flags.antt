-- ===== src/Mnt/Flags.antt =====
-- The flags of mount(2): `path_mount` of src/mnt/namespace.c up to its call of `do_new_mount`, with the
-- values of include/linux/vfs/{mount,superblock}.h.
pub mod Tests
pub mod Bits
use linux_vfs.Base.{
  ℕ, ◌-◌, ◌^◌, ◌==◌, Bool, true, false, not, ◌&&◌, bit_and, bit_or, if◌then◌else◌, List, [], ◌∷◌,
}
use linux_vfs.Base.Bits.{test, clear, set_if}
use linux_vfs.File.Open.Flags.{any}
use linux_vfs.Namei.State.{mnt_nosymfollow}

abbrev pub ms_rdonly : ℕ
ms_rdonly = 2 ^ 0

abbrev pub ms_nosuid : ℕ
ms_nosuid = 2 ^ 1

abbrev pub ms_nodev : ℕ
ms_nodev = 2 ^ 2

abbrev pub ms_noexec : ℕ
ms_noexec = 2 ^ 3

abbrev pub ms_remount : ℕ
ms_remount = 2 ^ 5

abbrev pub ms_nosymfollow : ℕ
ms_nosymfollow = 2 ^ 8

abbrev pub ms_noatime : ℕ
ms_noatime = 2 ^ 10

abbrev pub ms_nodiratime : ℕ
ms_nodiratime = 2 ^ 11

abbrev pub ms_relatime : ℕ
ms_relatime = 2 ^ 21

abbrev pub ms_strictatime : ℕ
ms_strictatime = 2 ^ 24

-- `1 << 31` is a negative `int`, which is extended by its sign.
abbrev pub ms_nouser : ℕ
ms_nouser = 2 ^ 64 - 2 ^ 31

abbrev pub ms_mgc_val : ℕ
ms_mgc_val = 0xc0ed_0000

abbrev pub ms_mgc_msk : ℕ
ms_mgc_msk = 0xffff_0000

abbrev pub mnt_nosuid : ℕ
mnt_nosuid = 2 ^ 0

abbrev pub mnt_nodev : ℕ
mnt_nodev = 2 ^ 1

abbrev pub mnt_noexec : ℕ
mnt_noexec = 2 ^ 2

abbrev pub mnt_noatime : ℕ
mnt_noatime = 2 ^ 3

abbrev pub mnt_nodiratime : ℕ
mnt_nodiratime = 2 ^ 4

abbrev pub mnt_relatime : ℕ
mnt_relatime = 2 ^ 5

abbrev pub mnt_readonly : ℕ
mnt_readonly = 2 ^ 6

abbrev pub mnt_atime_mask : ℕ
mnt_atime_mask = any (mnt_noatime ∷ mnt_nodiratime ∷ mnt_relatime ∷ [])

-- SB_RDONLY, SB_SYNCHRONOUS, SB_MANDLOCK, SB_DIRSYNC, SB_SILENT, SB_POSIXACL, SB_LAZYTIME and SB_I_VERSION.
abbrev pub sb_flags_mask : ℕ
sb_flags_mask = any (2 ^ 0 ∷ 2 ^ 4 ∷ 2 ^ 6 ∷ 2 ^ 7 ∷ 2 ^ 15 ∷ 2 ^ 16 ∷ 2 ^ 25 ∷ 2 ^ 23 ∷ [])

-- The flags are an `unsigned long`; the mask is an `unsigned`, whose complement is extended by zeros.
abbrev pub discard_magic : ℕ → ℕ
discard_magic flags = if bit_and flags ms_mgc_msk == ms_mgc_val then bit_and flags 0xffff else flags

abbrev pub clear_if : Bool → ℕ → ℕ → ℕ
clear_if b m mode = if b then clear mode m else mode

-- The flags of the mount before the test of MS_REMOUNT.
unfoldable pub per_mount_flags : ℕ → ℕ
per_mount_flags flags = set_if (test flags ms_nosymfollow) mnt_nosymfollow (
    set_if (test flags ms_rdonly) mnt_readonly (
      clear_if (test flags ms_strictatime) (bit_or mnt_relatime mnt_noatime) (
        set_if (test flags ms_nodiratime) mnt_nodiratime (
          set_if (test flags ms_noatime) mnt_noatime (
            set_if (test flags ms_noexec) mnt_noexec (
              set_if (test flags ms_nodev) mnt_nodev (
                set_if (test flags ms_nosuid) mnt_nosuid
                  (set_if (not (test flags ms_noatime)) mnt_relatime 0))))))))

abbrev pub keeps_atime : ℕ → Bool
keeps_atime flags =
    test flags ms_remount
    && bit_and flags (any (ms_noatime ∷ ms_nodiratime ∷ ms_relatime ∷ ms_strictatime ∷ [])) == 0

-- `old` are the flags of the mount that the path is on.
unfoldable pub mount_flags : (flags old : ℕ) → ℕ
unfolding per_mount_flags
mount_flags flags old =
    if keeps_atime flags
    then bit_or (clear (per_mount_flags flags) mnt_atime_mask) (bit_and old mnt_atime_mask)
    else per_mount_flags flags

unfoldable pub super_flags : ℕ → ℕ
super_flags flags = bit_and flags sb_flags_mask
