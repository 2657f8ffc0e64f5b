-- ===== src/Calls/Cwd/Tests.antt =====
-- chdir to "/bin", in the tree of the tests of mounting.
use linux_vfs.Base.{refl, ◌∷◌, true, none, some, Option, []}
use linux_vfs.Base.Bits.{test, clear}
use linux_vfs.Base.Errno.{Result, ok}
use linux_vfs.Vfs.{Loc}
use linux_vfs.File.Table.{empty}
use linux_vfs.Namei.State.{Walk}
use linux_vfs.Namei.Lookup.{new_nameidata}
use linux_vfs.Namei.Walk.{next_component, take_component}
use linux_vfs.Dcache.{first, d_lookup_rcu, matches_rcu, dentry_cmp, string_differs}
use linux_vfs.Calls.Cwd.{Process, find_directory, vfs_chdir_api}
use linux_vfs.Calls.Cwd.Ledger.{EndsWith, one_at, vfs_chdir_api-EndsWith}
use linux_vfs.Mnt.Mount.Tests.{files, slash_bin}
use linux_vfs.Tests.{driver}

abbrev process : Process
process = record {
  vfs = files;
  fdp = record {
    files = empty ∷ [];
    pwd = record { mnt = 5; dentry = 10 };
    root = record { mnt = 5; dentry = 10 };
    is_user = true;
  };
}

abbrev bin_at : Loc
bin_at = record { mnt = 5; dentry = 11 }

abbrev walk_of : Option (Result Loc × Walk) → Walk
walk_of none = record { vfs = files; nd = new_nameidata }
walk_of (some (r, w)) = w

abbrev looked_up : Walk
looked_up = walk_of (find_directory driver 9 (ok slash_bin) process)

vfs_chdir_api-EndsWith_example :
    EndsWith
      (λ p fdp. record fdp { pwd = p })
      (λ p d. 0)
      (λ p d. one_at 10 d)
      process
      looked_up
      (ok bin_at)
      (vfs_chdir_api driver 9 (ok slash_bin) process)
unfolding find_directory test clear next_component take_component d_lookup_rcu first matches_rcu
    dentry_cmp string_differs
vfs_chdir_api-EndsWith_example =
    vfs_chdir_api-EndsWith driver 9 (ok slash_bin) process (ok bin_at) looked_up refl
