-- ===== src/Dcache/Types.antt =====
-- The type bits of a dentry, set by src/dentry/dcache.c.
use linux_vfs.Base.{ℕ, ◌≡◌, ◌≢◌, refl, true, false, ◌==◌, arith, bit_and, bit_xor, ne→==, ==→eq}
use linux_vfs.Base.Bits.{clear}
use linux_vfs.Base.Bits.Laws.{field_set, field_or}
use linux_vfs.Vfs.{Vfs, d_entry_type, d_is_dir, d_is_symlink, d_is_miss, dcache_entry_type}
use linux_vfs.Dcache.{s_ifmt, d_flags_for_inode, set_inode_and_type, d_rehash, d_add, d_instantiate}

-- The type that a dentry gets lies within the type bits, and is that of a negative dentry for no
-- inode only.
d_flags_for_inode-type :
    (s : Vfs) (i : ℕ) → bit_and (d_flags_for_inode s i) dcache_entry_type ≡ d_flags_for_inode s i
unfolding d_flags_for_inode
d_flags_for_inode-type s i = ground arith

added :
    (s : Vfs) (p i : ℕ)
    → i ≢ 0
    → (((d_add s p i).dentries p).d_inode ≡ i)
      × (d_entry_type ((d_add s p i).dentries p).d_flags ≡ d_flags_for_inode s i)
unfolding d_add d_rehash set_inode_and_type clear
added s p i ne =
    let kept =
      field_set (s.dentries p).d_flags dcache_entry_type (bit_xor 0xffff_ffff dcache_entry_type)
        (d_flags_for_inode s i) refl (d_flags_for_inode-type s i) in
    rw (ne→== i 0 ne, d_add) (ground arith, ground (arith, kept))

-- Adding an inode to a dentry, whatever type the dentry had, leaves it with the type of the inode's
-- mode: it is a directory, a symbolic link or negative exactly as the mode says, and it is never
-- negative.
pub d_add-type :
    (s : Vfs) (p i : ℕ)
    → i ≢ 0
    → let flags = ((d_add s p i).dentries p).d_flags in
      let fmt = bit_and (s.inodes i).i_mode s_ifmt in
      (((d_add s p i).dentries p).d_inode ≡ i)
      × (d_is_dir flags ≡ (fmt == 0o4_0000))
      × (d_is_symlink flags ≡ (fmt == 0o12_0000))
      × (d_is_miss flags ≡ false)
unfolding d_flags_for_inode
d_add-type s p i ne = ground (arith, added s p i ne)

-- On a negative dentry `d_instantiate` gives the same type.
pub d_instantiate-type :
    (s : Vfs) (p i : ℕ)
    → i ≢ 0
    → d_is_miss (s.dentries p).d_flags ≡ true
    → d_entry_type ((d_instantiate s p i).dentries p).d_flags ≡ d_flags_for_inode s i
unfolding d_instantiate
d_instantiate-type s p i ne miss =
    rw (ne→== i 0 ne, d_instantiate)
      (ground (
        arith,
        field_or (s.dentries p).d_flags dcache_entry_type (d_flags_for_inode s i) (==→eq _ _ miss)
            (d_flags_for_inode-type s i),
      ))
