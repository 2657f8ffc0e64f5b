-- ===== src/Init.antt =====
-- Setting up the hash tables: `dcache_init` of src/dentry/dcache.c, `mnt_init` of src/mnt/namespace.c and
-- `vfs_init` of src/init.c. An allocation returns an address or NULL; `ilog2` is `__ilog2_u32` of
-- linux/log2.h. Only the place of a chain is computed here, the chains themselves stand in Vfs.
pub mod Heads
pub mod Tests
use linux_vfs.Base.{
  ℕ, suc, ◌+◌, ◌-◌, ◌/◌, ◌%◌, ◌^◌, Bool, Option, none, some, List, [], ◌∷◌, ◌==◌, if◌then◌else◌,
  bit_and,
}
use linux_vfs.Base.Errno.{Errno, enomem}

-- `struct dcache`.
pub record DcacheTable : Type 0 where
  pub hashtable : ℕ
  pub hash_shift : ℕ

-- `struct ns_hashtable`.
pub record NsHashtable : Type 0 where
  pub chains : ℕ
  pub mask : ℕ
  pub shift : ℕ

-- The number of the chain in the table.
abbrev pub d_hash_in : DcacheTable → (hash : ℕ) → ℕ
d_hash_in c hash = hash % 2 ^ 32 / 2 ^ c.hash_shift

abbrev pub hash_head : NsHashtable → (key1 key2 : ℕ) → ℕ
hash_head ht key1 key2 =
    let tmp = (key1 / 64 + key2 / 64) % 2 ^ 64 in
    bit_and ((tmp + tmp / 2 ^ ht.shift) % 2 ^ 64) ht.mask

module _ (ilog2 : ℕ → ℕ) where
  unfoldable pub dcache_init : (table count : ℕ) → DcacheTable → Option Errno × DcacheTable
  dcache_init table count c =
      if table == 0
      then (some enomem, record c { hashtable = 0 })
      else (none, record { hashtable = table; hash_shift = 32 - ilog2 count })

  unfoldable pub hashtable_init : (table count : ℕ) → NsHashtable → Option Errno × NsHashtable
  hashtable_init table count ht =
      if table == 0
      then (some enomem, record ht { chains = 0 })
      else (none, record { chains = table; mask = 2 ^ ilog2 count - 1; shift = ilog2 count })

  -- The error of the first table is lost.
  unfoldable pub mnt_init :
      (table1 table2 : ℕ)
      → (mountpoints mounts : NsHashtable) → Option Errno × NsHashtable × NsHashtable
  unfolding hashtable_init
  mnt_init table1 table2 mountpoints mounts =
      let (lost, mountpoints') = hashtable_init table1 16 mountpoints in
      let (ret, mounts') = hashtable_init table2 16 mounts in (ret, mountpoints', mounts')

  -- The errors are lost: 0 is returned in any case.
  unfoldable pub vfs_init :
      (table table1 table2 : ℕ)
      → DcacheTable
      → (mountpoints mounts : NsHashtable) → DcacheTable × NsHashtable × NsHashtable
  unfolding dcache_init mnt_init
  vfs_init table table1 table2 c mountpoints mounts =
      let (lost, c') = dcache_init table 32 c in
      let (ret, mountpoints', mounts') = mnt_init table1 table2 mountpoints mounts in
      (c', mountpoints', mounts')
