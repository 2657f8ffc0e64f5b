-- ===== src/Mnt/Flags/Tests.antt =====
-- The flags of a mount at concrete words.
use linux_vfs.Base.{◌≡◌, refl, true, false, bit_or}
use linux_vfs.Base.Bits.{test, clear}
use linux_vfs.Namei.State.{mnt_nosymfollow}
use linux_vfs.Mnt.Flags.{
  ms_rdonly, ms_noatime, ms_remount, ms_strictatime, mnt_nosuid, mnt_nodev, mnt_noexec, mnt_noatime,
  mnt_nodiratime, mnt_relatime, mnt_readonly, discard_magic, per_mount_flags, mount_flags,
}
use linux_vfs.Mnt.Flags.Bits.{mount_flags_bits}

-- By default a mount is "relatime"; the magic number is discarded.
some_flags :
    (mount_flags 0 0 ≡ mnt_relatime)
    × (mount_flags ms_rdonly 0 ≡ bit_or mnt_readonly mnt_relatime)
    × (mount_flags ms_strictatime 0 ≡ 0)
    × (mount_flags ms_remount mnt_nodiratime ≡ mnt_nodiratime)
    × (discard_magic 0xc0ed_0001 ≡ 1)
    × (discard_magic 0x8000_0000 ≡ 0x8000_0000)
unfolding mount_flags per_mount_flags test clear
some_flags = (refl, refl, refl, refl, refl, refl)

-- A read-only mount without access times.
mount_flags_bits_example :
    let m = mount_flags (bit_or ms_rdonly ms_noatime) 0 in
    (test m mnt_nosuid ≡ false)
    × (test m mnt_nodev ≡ false)
    × (test m mnt_noexec ≡ false)
    × (test m mnt_readonly ≡ true)
    × (test m mnt_nosymfollow ≡ false)
    × (test m mnt_noatime ≡ true)
    × (test m mnt_relatime ≡ false)
    × (test m mnt_nodiratime ≡ false)
unfolding test
mount_flags_bits_example = mount_flags_bits (bit_or ms_rdonly ms_noatime) 0
