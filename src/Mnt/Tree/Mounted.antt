-- ===== src/Mnt/Tree/Mounted.antt =====
-- DCACHE_MOUNTED of dentries: what `d_set_mounted`, `__put_mountpoint` and `get_mountpoint` of
-- src/mnt/namespace.c do to it.
use linux_vfs.Base.{
  refl, inl, Bool-cases, inr, Option, none, some, true, false, ℕ, ◌≤◌, ◌≡◌, ◌⊎◌, bit_or, arith, ◌∙◌,
  if◌then◌else◌,
}
use linux_vfs.Base.Bits.{bit, test, bit-or}
use linux_vfs.Base.Bits.Laws.{test-pow}
use linux_vfs.Vfs.{Vfs, Loc, dcache_mounted}
use linux_vfs.Dcache.{d_set_mounted, d_clear_mounted}
use linux_vfs.Namei.Mounts.{lookup_mnt}
use linux_vfs.Mnt.Tree.{Tree, d_mountpoint, put_mountpoint}

-- The mount that a walk that comes to a place goes on to: it looks for one only on a dentry with
-- DCACHE_MOUNTED.
abbrev pub finds : Vfs → Loc → Option ℕ
finds s q = if d_mountpoint s q.dentry then lookup_mnt s q else none

-- A mount stands only on a dentry with DCACHE_MOUNTED.
abbrev pub IsCovered : Vfs → Type 0
IsCovered v = (q : Loc) → d_mountpoint v q.dentry ≡ false → lookup_mnt v q ≡ none

pub still_found :
    (v w : Vfs) (q : Loc)
    → IsCovered v
    → (d_mountpoint v q.dentry ≡ true → d_mountpoint w q.dentry ≡ true)
    → lookup_mnt w q ≡ lookup_mnt v q
    → finds w q ≡ finds v q
still_found v w q covered flags same = elim (Bool-cases (d_mountpoint v q.dentry)) [
  | inl z ↦ rw (z, flags z) same
  | inr z ↦
      let empty = covered q z in
      elim (Bool-cases (d_mountpoint w q.dentry)) [
        | inl y ↦ rw (z, y) (same ∙ empty)
        | inr y ↦ rw (z, y) refl
      ]
]

pub found :
    (v : Vfs) (q : Loc) (m : ℕ)
    → d_mountpoint v q.dentry ≡ true
    → lookup_mnt v q ≡ some m
    → finds v q ≡ some m
found v q m z e = rw z e

pub none_found : (v : Vfs) (q : Loc) → lookup_mnt v q ≡ none → finds v q ≡ none
none_found v q e = elim (Bool-cases (d_mountpoint v q.dentry)) [
  | inl z ↦ rw z e
  | inr z ↦ rw z refl
]

set_mounted : (flags : ℕ) → test (bit_or flags dcache_mounted) dcache_mounted ≡ true
unfolding bit
set_mounted flags =
    test-pow 15 (bit_or flags dcache_mounted) ∙ ground (arith, bit-or 15 flags dcache_mounted)

pub d_set_mounted-d_mountpoint :
    (s : Vfs) (p d : ℕ)
    → (d ≡ p) ⊎ (d_mountpoint s d ≡ true)
    → d_mountpoint (d_set_mounted s p) d ≡ true
unfolding d_set_mounted
d_set_mounted-d_mountpoint s p d h = ground (arith, set_mounted (s.dentries p).d_flags)

-- Putting a mountpoint clears the flag of its dentry only with the last reference.
pub put_mountpoint-d_mountpoint :
    (t : Tree) (mp d : ℕ)
    → d_mountpoint t.vfs d ≡ true
    → ((t.points mp).m_dentry ≡ d → 2 ≤ (t.points mp).m_count)
    → d_mountpoint (put_mountpoint t mp).vfs d ≡ true
unfolding put_mountpoint d_clear_mounted
put_mountpoint-d_mountpoint t mp d h two = ground (arith, h, two)
