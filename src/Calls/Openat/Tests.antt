-- ===== src/Calls/Openat/Tests.antt =====
-- open of "/bin", which is readable, with the descriptor 0 in use.
use linux_vfs.Base.{ℕ, ◌≡◌, refl, true, false, none, some, Option, [], List, ◌∷◌}
use linux_vfs.Base.Bits.{test, clear}
use linux_vfs.Base.Errno.{Result, ok}
use linux_vfs.Vfs.{Vfs, Loc}
use linux_vfs.File.Table.{Slot, empty, file}
use linux_vfs.File.Open.{OpenFlags, check_values, check_combination, fill, lookup_of, intent_of}
use linux_vfs.Namei.Open.{open_last_lookups}
use linux_vfs.File.Calls.{FileOperations}
use linux_vfs.Namei.Walk.{next_component, take_component}
use linux_vfs.Dcache.{first, d_lookup_rcu, matches_rcu, dentry_cmp, string_differs}
use linux_vfs.Calls.Openat.{Opening, Outcome, returns, vfs_openat_api}
use linux_vfs.Calls.Openat.Installs.{Installs, vfs_openat_api-Installs}
use linux_vfs.Mnt.Mount.Tests.{files, slash_bin}
use linux_vfs.Tests.{driver, root}

abbrev directory_operations : FileOperations Vfs
directory_operations = record {
  open_file = λ mode s. (ok tt, mode, s);
  llseek = none;
  read = none;
  write = none;
  read_iter = none;
  write_iter = none;
  unlocked_ioctl = none;
}

abbrev unset : OpenFlags
unset = record { open_flag = 0; mode = 0; acc_mode = 0; intent = 0; lookup_flags = 0 }

abbrev start : Opening
start = record {
  files = record {
    fdp = record {
      files = file 90 ∷ empty ∷ empty ∷ [];
      pwd = record { mnt = 5; dentry = 10 };
      root = record { mnt = 5; dentry = 10 };
      is_user = true;
    };
    refs = λ p. 0;
    fputs = [];
  };
  vfs = files;
}

abbrev opened_at : List ℕ → Outcome
opened_at name =
    vfs_openat_api driver root 9 (λ s i. some directory_operations) (λ i. false)
      (λ s dir d mode excl. (none, s)) unset (ok name) 0 0 start

abbrev seen : Outcome → Option (Result ℕ × List Slot × Loc)
seen (returns r t) = some (r, t.files.fdp.files, t.vfs.f_path)
seen _ = none

bin_opened :
    seen (opened_at slash_bin)
    ≡ some (ok 1, file 90 ∷ file 30 ∷ empty ∷ [], record { mnt = 5; dentry = 11 })
unfolding vfs_openat_api test clear next_component take_component d_lookup_rcu first matches_rcu
    dentry_cmp string_differs check_values check_combination fill lookup_of open_last_lookups
    intent_of
bin_opened = refl

vfs_openat_api-Installs_example : Installs start (opened_at slash_bin)
vfs_openat_api-Installs_example =
    vfs_openat_api-Installs driver root 9 (λ s i. some directory_operations) (λ i. false)
      (λ s dir d mode excl. (none, s)) unset (ok slash_bin) 0 0 start
