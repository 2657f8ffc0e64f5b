-- ===== src/Namei/Mounts/Automount.antt =====
-- `__traverse_mounts` of src/private/namei.c at an automount point that nothing covers.
use linux_vfs.Base.{ℕ, zero, suc, ◌≡◌, refl, Bool, true, none, arith}
use linux_vfs.Base.Bits.{test}
use linux_vfs.Vfs.{Loc, Driver, dcache_managed_dentry, dcache_need_automount}
use linux_vfs.Namei.State.{Walk}
use linux_vfs.Namei.Mounts.{lookup_mnt, traverse_loop}

-- At an automount point that no mount covers no amount of fuel is enough for the loop of
-- `__traverse_mounts`: it goes round for ever.
pub traverse_loop-automount :
    (dr : Driver) (fuel : ℕ) (p : Loc) (crossed : Bool) (w : Walk)
    → test (w.vfs.dentries p.dentry).d_flags dcache_managed_dentry ≡ true
    → test (w.vfs.dentries p.dentry).d_flags dcache_need_automount ≡ true
    → lookup_mnt w.vfs p ≡ none
    → traverse_loop dr fuel p crossed w ≡ none
unfolding traverse_loop
traverse_loop-automount dr zero p crossed w managed auto bare = refl
traverse_loop-automount dr (suc fuel) p crossed w managed auto bare =
    ground (arith, traverse_loop-automount dr fuel p crossed w managed auto bare)
