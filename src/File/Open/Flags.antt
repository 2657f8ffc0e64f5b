-- ===== src/File/Open/Flags.antt =====
-- The values of the flags that src/api/open.c reads: include/linux/vfs/{fcntl,openat2,stat}.h and
-- include/linux/vfs/private/namei.h.
use linux_vfs.Base.{ℕ, List, [], ◌∷◌, bit_or, bit_xor}

abbrev pub o_creat : ℕ
o_creat = 0o100

abbrev pub o_excl : ℕ
o_excl = 0o200

abbrev pub o_trunc : ℕ
o_trunc = 0o1000

abbrev pub o_append : ℕ
o_append = 0o2000

abbrev pub o_nonblock : ℕ
o_nonblock = 0o4000

abbrev pub o_directory : ℕ
o_directory = 0o20_0000

abbrev pub o_nofollow : ℕ
o_nofollow = 0o40_0000

abbrev pub o_cloexec : ℕ
o_cloexec = 0o200_0000

abbrev pub o_path : ℕ
o_path = 0o1000_0000

abbrev pub o_tmpfile : ℕ
o_tmpfile = 0o2000_0000

abbrev pub o_sync : ℕ
o_sync = 0x4000

abbrev pub o_dsync : ℕ
o_dsync = 0x0010

abbrev pub fmode_nonotify : ℕ
fmode_nonotify = 0x200_0000

abbrev pub any : List ℕ → ℕ
any [] = 0
any (m ∷ ms) = bit_or m (any ms)

-- O_NOCTTY, O_DIRECT, O_LARGEFILE and O_NOATIME are 0, and O_NDELAY is O_NONBLOCK.
abbrev pub valid_open_flags : ℕ
valid_open_flags = any (
    0 ∷ 1 ∷ 2 ∷ o_creat ∷ o_excl ∷ o_trunc ∷ o_append ∷ o_nonblock ∷ o_directory ∷ o_nofollow
    ∷ o_cloexec ∷ o_path ∷ [])

abbrev pub o_path_flags : ℕ
o_path_flags = any (o_directory ∷ o_nofollow ∷ o_path ∷ o_cloexec ∷ [])

abbrev pub s_iallugo : ℕ
s_iallugo = 0o7777

abbrev pub s_ifreg : ℕ
s_ifreg = 0o10_0000

abbrev pub may_write : ℕ
may_write = 2

abbrev pub may_append : ℕ
may_append = 8

-- The complement of a mask of a `u64`.
abbrev pub complement : ℕ → ℕ
complement m = bit_xor 0xffff_ffff_ffff_ffff m

-- RESOLVE_* and LOOKUP_*.
abbrev pub resolve_no_xdev : ℕ
resolve_no_xdev = 0x01

abbrev pub resolve_no_magiclinks : ℕ
resolve_no_magiclinks = 0x02

abbrev pub resolve_no_symlinks : ℕ
resolve_no_symlinks = 0x04

abbrev pub resolve_beneath : ℕ
resolve_beneath = 0x08

abbrev pub resolve_in_root : ℕ
resolve_in_root = 0x10

abbrev pub resolve_cached : ℕ
resolve_cached = 0x20

abbrev pub valid_resolve_flags : ℕ
valid_resolve_flags = any (
    resolve_no_xdev ∷ resolve_no_magiclinks ∷ resolve_no_symlinks ∷ resolve_beneath
    ∷ resolve_in_root ∷ resolve_cached ∷ [])

abbrev pub lookup_follow : ℕ
lookup_follow = 0x0001

abbrev pub lookup_directory : ℕ
lookup_directory = 0x0002

abbrev pub lookup_open : ℕ
lookup_open = 0x0100

abbrev pub lookup_create : ℕ
lookup_create = 0x0200

abbrev pub lookup_excl : ℕ
lookup_excl = 0x0400

abbrev pub lookup_no_symlinks : ℕ
lookup_no_symlinks = 0x01_0000

abbrev pub lookup_no_magiclinks : ℕ
lookup_no_magiclinks = 0x02_0000

abbrev pub lookup_no_xdev : ℕ
lookup_no_xdev = 0x04_0000

abbrev pub lookup_beneath : ℕ
lookup_beneath = 0x08_0000

abbrev pub lookup_in_root : ℕ
lookup_in_root = 0x10_0000

abbrev pub lookup_cached : ℕ
lookup_cached = 0x20_0000
