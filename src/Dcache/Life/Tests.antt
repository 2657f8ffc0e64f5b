-- ===== src/Dcache/Life/Tests.antt =====
-- `dput` of src/dentry/dentry.c at concrete inputs: dentry 3 under 2 under the root 1, no inodes,
-- and dentry 9, which has one.
use linux_vfs.Base.{ℕ, ◌-◌, ◌^◌, ◌≡◌, refl, true, false, [], ◌∷◌, ◌==◌, if◌then◌else◌, leb, arith}
use linux_vfs.Base.Bits.{test}
use linux_vfs.Dcache.Life.{
  Life, final, Hooks, PutReturns, dget, marked_dead, released, freed, retain_dentry, d_lock,
  d_unlock,
}
use linux_vfs.Dcache.Life.Kill.{
  dput, fast_dput, recheck, lock_for_kill, dentry_kill, mark_dead, unlock_negative, detach, unlist,
  lock_parent, leave_parent, kill_loop, after_kill,
}
use linux_vfs.Dcache.Life.Safety.{AreUnused, dput-AreUnused}
use linux_vfs.Dcache.Life.Locks.{Hangs, dput-Hangs}
use linux_vfs.Dcache.Life.Ends.{HoldsNone, Ends}
use linux_vfs.Dcache.Life.Loop.{dput-HoldsNone}
use linux_vfs.Dcache.Life.Shared.{Agrees, dput-dget}

-- A lockref that nobody else holds.
put_return : ℕ → ℕ × ℕ
put_return c =
    if c == 0 then (2 ^ 32 - 1, c) else if leb (2 ^ 31) c then (2 ^ 32 - 1, c) else (c - 1, c - 1)

abbrev hooks : Hooks
hooks = record {
  put_return = put_return;
  mark_dead = λ c. 2 ^ 32 - 128;
  d_delete = λ p e. false;
  d_release = λ p. true;
  i_busy = λ i. false;
}

hooks-PutReturns : PutReturns hooks
unfolding put_return
hooks-PutReturns c = ground arith

abbrev parent_of : ℕ → ℕ
parent_of q = if q == 3 then 2 else 1

abbrev family : Life
family = record {
  entries = λ q. record {
    d_flags = 0;
    d_inode = 0;
    d_parent = parent_of q;
    d_hashed = false;
    d_count = if q == 1 then 5 else 1;
  };
  d_locks = λ q. false;
  i_locks = λ q. false;
  others = [];
  log = [];
}

-- The last reference to 3 goes, and with it 2, which nothing else holds.
family_killed :
    (final (dput hooks 4 3 family)).log
    ≡ freed 2
      ∷ released 2
      ∷ marked_dead 2 (record (family.entries 2) { d_count = 0 })
      ∷ freed 3
      ∷ released 3
      ∷ marked_dead 3 (record (family.entries 3) { d_count = 0 })
      ∷ []
unfolding dput put_return test retain_dentry d_lock d_unlock fast_dput recheck kill_loop
    lock_for_kill dentry_kill unlock_negative mark_dead detach lock_parent unlist leave_parent
    after_kill
family_killed = refl

dput-AreUnused_example : AreUnused (final (dput hooks 4 3 family)).log
dput-AreUnused_example = dput-AreUnused hooks 4 3 family tt

abbrev with_root : Life
with_root = record family {
  entries =
      λ q. record { d_flags = 0x10_0000; d_inode = 7; d_parent = 9; d_hashed = false; d_count = 1 };
}

dput-Hangs_example : Hangs (dput hooks 5 9 with_root)
dput-Hangs_example =
    dput-Hangs hooks 4 9 with_root hooks-PutReturns (λ e. omega (arith, e)) refl refl refl refl refl
      (λ e. omega (arith, e))

abbrev depth_of : ℕ → ℕ
depth_of q = if q == 3 then 2 else if q == 1 then 0 else 1

dput-HoldsNone_example : Ends (λ _ t. HoldsNone t) (dput hooks 4 3 family)
dput-HoldsNone_example =
    dput-HoldsNone parent_of depth_of (λ q. ground arith) (λ q. ground arith) hooks 4 3 family
      (omega arith) (refl, λ q. (refl, refl)) (λ q. refl)

dput-dget_example : Ends (λ _ t. Agrees family t) (dput hooks 4 1 (dget 1 family))
dput-dget_example =
    dput-dget hooks 4 1 family hooks-PutReturns refl refl (omega arith) (omega arith)
