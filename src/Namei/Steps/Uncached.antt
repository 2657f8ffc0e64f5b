-- ===== src/Namei/Steps/Uncached.antt =====
-- `__lookup_slow` of src/private/namei/namei-lookup.c: a component that the cache does not hold.
use linux_vfs.Base.{ℕ, zero, suc, ◌≡◌, refl, false, Option, none, some, arith}
use linux_vfs.Base.Bits.{test}
use linux_vfs.Base.Errno.{ok}
use linux_vfs.Vfs.{Qstr, Loc, Vfs, Driver, dcache_par_lookup, note, dput}
use linux_vfs.Dcache.{d_alloc}
use linux_vfs.Namei.State.{Walk}
use linux_vfs.Namei.Steps.{slow_loop, lookup_slow}

pub d_alloc-Negative :
    (s : Vfs) (dir : ℕ) (name : Qstr) {d : ℕ} {t : Vfs}
    → d_alloc s dir name ≡ some (d, t)
    → ((t.dentries d).d_flags ≡ 0) × ((t.dentries d).d_inode ≡ 0)
unfolding d_alloc
d_alloc-Negative s dir name e = ground arith

slow_loop-Negative :
    (dr : Driver) (fs_root : Loc) (fuel k dir d : ℕ) (w w' : Walk)
    → slow_loop dr fs_root fuel k dir w ≡ some (ok d, w')
    → ((w'.vfs.dentries d).d_flags ≡ 0) × ((w'.vfs.dentries d).d_inode ≡ 0)
unfolding slow_loop test
slow_loop-Negative dr fs_root fuel zero dir d w w' e = ground arith
slow_loop-Negative dr fs_root fuel (suc k) dir d w w' e =
    allocated (λ w1 h. slow_loop-Negative dr fs_root fuel k dir d w1 w' h)
      (d_alloc w.vfs dir w.nd.last) refl
  where
    allocated :
        ((w1 : Walk)
          → slow_loop dr fs_root fuel k dir w1 ≡ some (ok d, w')
          → ((w'.vfs.dentries d).d_flags ≡ 0) × ((w'.vfs.dentries d).d_inode ≡ 0))
        → (x : Option (ℕ × Vfs)) → d_alloc w.vfs dir w.nd.last ≡ x
        → ((w'.vfs.dentries d).d_flags ≡ 0) × ((w'.vfs.dentries d).d_inode ≡ 0)
    allocated again none q = ground arith
    allocated again (some (a, t)) q =
        let n = d_alloc-Negative w.vfs dir w.nd.last q in
        let w1 : Walk = record { nd = w.nd; vfs = note (dput a) t } in
        let par : test (t.dentries a).d_flags dcache_par_lookup ≡ false = rw (n.0, test) refl in
        ground (arith, n, par, again w1)

-- The dentry that the slow lookup of a component returns has no flags and no inode, whatever the
-- methods of the file system answer.
lookup_slow-negative :
    (dr : Driver) (fs_root : Loc) (fuel d : ℕ) (w w' : Walk)
    → lookup_slow dr fs_root fuel w ≡ some (ok d, w')
    → ((w'.vfs.dentries d).d_flags ≡ 0) × ((w'.vfs.dentries d).d_inode ≡ 0)
unfolding lookup_slow
lookup_slow-negative dr fs_root fuel d w w' e =
    ground (arith, slow_loop-Negative dr fs_root fuel fuel w.nd.path.dentry d w w')
