-- ===== src/Init/Heads.antt =====
-- Where the heads of the chains stand.
use linux_vfs.Base.{ℕ, ◌/◌, ◌%◌, ◌^◌, ◌<◌, ◌≡◌, ◌≢◌, refl, bit_and, ne→==, arith}
use linux_vfs.Base.Bits.Laws.{bit_and-low}
use linux_vfs.Dcache.{d_hash}
use linux_vfs.Namei.Mounts.{m_hash}
use linux_vfs.Mnt.Tree.{mp_hash}
use linux_vfs.Init.{DcacheTable, NsHashtable, d_hash_in, hash_head, vfs_init}

-- What its documentation says of `__ilog2_u32`, at powers of two.
abbrev pub IsLog2 : (ℕ → ℕ) → Type 0
IsLog2 ilog2 = (k : ℕ) → k < 32 → ilog2 (2 ^ k) ≡ k

chain_below : (hash : ℕ) → hash % 2 ^ 32 / 2 ^ 27 < 32
chain_below hash = omega arith

low_below : (x : ℕ) → bit_and x 15 < 16
low_below x = omega (arith, bit_and-low x)

-- Once the tables are allocated: every chain of the cache is one of its 32, and every chain of mountpoints and
-- of mounts one of 16, and they stand where the lookups look for them. The base two logarithm
-- of a power of two is its exponent.
pub vfs_init-heads :
    (ilog2 : ℕ → ℕ) (table table1 table2 : ℕ) (c : DcacheTable) (mountpoints mounts : NsHashtable)
    (hash mnt dentry : ℕ)
    → IsLog2 ilog2
    → table ≢ 0
    → table1 ≢ 0
    → table2 ≢ 0
    → let (c', mountpoints', mounts') = vfs_init ilog2 table table1 table2 c mountpoints mounts in
      (d_hash_in c' hash ≡ d_hash hash)
      × (d_hash_in c' hash < 32)
      × (hash_head mounts' mnt dentry ≡ m_hash mnt dentry)
      × (hash_head mounts' mnt dentry < 16)
      × (hash_head mountpoints' dentry 0 ≡ mp_hash dentry)
      × (hash_head mountpoints' dentry 0 < 16)
unfolding vfs_init m_hash
vfs_init-heads ilog2 table table1 table2 c mountpoints mounts hash mnt dentry log t t1 t2 =
    rw
      (
        ne→== table 0 t,
        ne→== table1 0 t1,
        ne→== table2 0 t2,
        log 5 (omega arith),
        log 4 (omega arith),
      )
      (refl, chain_below hash, bit_and-low _, low_below _, bit_and-low _, low_below _)
