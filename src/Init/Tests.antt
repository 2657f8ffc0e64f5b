-- ===== src/Init/Tests.antt =====
-- The tables after `vfs_init`, with a logarithm that is computed.
use native.Mathlib.Nat.{pow-suc, one-le-pow}
use linux_vfs.Base.{
  ne→==, ◌≤◌, ℕ, zero, suc, ◌+◌, ◌/◌, ◌^◌, ◌<◌, ◌≡◌, refl, ◌==◌, if◌then◌else◌, arith,
}
use linux_vfs.Dcache.{d_hash}
use linux_vfs.Namei.Mounts.{m_hash}
use linux_vfs.Mnt.Tree.{mp_hash}
use linux_vfs.Init.{DcacheTable, NsHashtable, d_hash_in, hash_head, vfs_init}
use linux_vfs.Init.Heads.{vfs_init-heads}

log_within : ℕ → ℕ → ℕ
log_within zero n = 0
log_within (suc fuel) n = let rest = log_within fuel (n / 2) in if n / 2 == 0 then 0 else rest + 1

log_within-pow : (fuel k : ℕ) → k < fuel → log_within fuel (2 ^ k) ≡ k
unfolding log_within
log_within-pow zero k h = absurd (omega arith)
log_within-pow (suc fuel) zero h = refl
log_within-pow (suc fuel) (suc k) h =
    let half : 2 ^ suc k / 2 ≡ 2 ^ k = omega (arith, pow-suc 2 k) in
    let one : 1 ≤ 2 ^ k = one-le-pow k 2 (omega arith) in
    rw (half, ne→== (2 ^ k) 0 (λ e. omega (arith, e, one)), log_within-pow fuel k (omega arith))
      (omega arith)

abbrev cleared : DcacheTable
cleared = record { hashtable = 0; hash_shift = 0 }

abbrev blank : NsHashtable
blank = record { chains = 0; mask = 0; shift = 0 }

vfs_init-heads_example :
    let (c, mountpoints, mounts) = vfs_init (log_within 32) 5 6 7 cleared blank blank in
    (d_hash_in c 0xffff_ffff ≡ d_hash 0xffff_ffff)
    × (d_hash_in c 0xffff_ffff < 32)
    × (hash_head mounts 640 1280 ≡ m_hash 640 1280)
    × (hash_head mounts 640 1280 < 16)
    × (hash_head mountpoints 1280 0 ≡ mp_hash 1280)
    × (hash_head mountpoints 1280 0 < 16)
vfs_init-heads_example =
    vfs_init-heads (log_within 32) 5 6 7 cleared blank blank 0xffff_ffff 640 1280
      (log_within-pow 32) (λ e. omega (arith, e)) (λ e. omega (arith, e)) (λ e. omega (arith, e))
