-- ===== src/Dcache/Life/Kill.antt =====
-- Dropping a reference to a dentry, src/dentry/dentry.c: `lock_for_kill`, `__dentry_kill`,
-- `fast_dput`, `dput`.
use linux_vfs.Base.{
  ℕ, zero, suc, ◌+◌, ◌^◌, Bool, true, false, not, ◌||◌, ◌==◌, leb, if◌then◌else◌, length,
}
use linux_vfs.Base.Bits.{test}
use linux_vfs.Vfs.{update}
use linux_vfs.Dcache.Life.{
  Life, done, out_of_fuel, M, and_then, ◌>>=◌, ◌>>◌, return, Hooks, marked_dead, pruned, released,
  freed, dcache_op_prune, dcache_shrink_list, decrement, set_count, log_event, log_if, d_lock,
  d_unlock, i_lock, i_unlock, retain_dentry,
}

-- The rounds of the loop in `lock_for_kill` on the inode that the dentry had, up to the test of the
-- count; the result is the inode whose lock is held then, or 0.
unfoldable pub chase_inode : ℕ → ℕ → ℕ → M ℕ
chase_inode zero p i s = out_of_fuel s
chase_inode (suc fuel) p i s = and_then ((do d_unlock p; i_lock i; d_lock p) s) (λ _ s1.
    let now = (s1.entries p).d_inode in
    let again = and_then (i_unlock i s1) (λ _. chase_inode fuel p now) in
    if i == now
    then done i s1
    else if now == 0
    then and_then (i_unlock i s1) (λ _. return 0)
    else again)

-- The test at the end of `lock_for_kill`.
unfoldable pub still_unused : ℕ → ℕ → M Bool
still_unused p i s =
    if (s.entries p).d_count == 0
    then done true s
    else if i == 0
    then done false s
    else and_then (i_unlock i s) (λ _. return false)

-- True if the dentry has no reference; the lock of its inode is then held. The source's loop on the
-- inode has no bound; the model has one round more than other threads have moves left.
unfoldable pub lock_for_kill : Hooks → ℕ → M Bool
lock_for_kill k p s =
    let e = s.entries p in
    if not (e.d_count == 0)
    then done false s
    else if e.d_inode == 0
    then done true s
    else if not (k.i_busy e.d_inode || s.i_locks e.d_inode)
    then and_then (i_lock e.d_inode s) (λ _. return true)
    else and_then (chase_inode (length s.others + 2) p e.d_inode s) (λ i. still_unused p i)

-- The last lines of `__dentry_kill`: the parent, with its lock, if that was its last reference.
unfoldable pub leave_parent : ℕ → ℕ → M ℕ
leave_parent p parent s =
    if p == parent
    then done 0 s
    else let s1 = set_count parent (decrement (s.entries parent).d_count) s in
      if (s1.entries parent).d_count == 0
      then done parent s1
      else and_then (d_unlock parent s1) (λ _. return 0)

unfoldable pub lock_parent : ℕ → ℕ → M (Unit {0})
lock_parent p parent s = if p == parent then done tt s else d_lock parent s

-- With the lock of the dentry taken for `dentry_unlist`.
unfoldable pub unlist : ℕ → ℕ → M ℕ
unlist p parent s =
    let s1 = record s { d_locks = update s.d_locks p false } in
    leave_parent p parent
      (log_if (not (test (s.entries p).d_flags dcache_shrink_list)) (freed p) s1)

-- From the reading of the parent on.
unfoldable pub detach : ℕ → M ℕ
detach p s =
    let parent = (s.entries p).d_parent in
    and_then (lock_parent p parent s) (λ _ s1. and_then (d_lock p s1) (λ _. unlist p parent))

unfoldable pub unlock_negative : ℕ → M (Unit {0})
unlock_negative p s = if (s.entries p).d_inode == 0 then d_unlock p s else done tt s

-- Dead, and the file system told of it.
unfoldable pub mark_dead : Hooks → ℕ → Life → Life
mark_dead k p s =
    let e = s.entries p in
    log_if (test e.d_flags dcache_op_prune) (pruned p)
      (set_count p (k.mark_dead e.d_count) (log_event (marked_dead p e) s))

-- `__dentry_kill`, called with the lock of the dentry; the result is 0 or the parent to go on with.
-- Only a dentry with no inode is unlocked: the unlocking of another is left to
-- `dentry_unlink_inode`.
unfoldable pub dentry_kill : Hooks → ℕ → M ℕ
dentry_kill k p s =
    and_then (unlock_negative p (mark_dead k p s))
      (λ _ t. detach p (log_if (k.d_release p) (released p) t))

-- The label `locked` of `fast_dput`.
unfoldable pub recheck : Hooks → ℕ → M Bool
recheck k p s =
    if not ((s.entries p).d_count == 0)
    then and_then (d_unlock p s) (λ _. return true)
    else and_then (retain_dentry k p true s)
        (λ kept. if kept then (do d_unlock p; return true) else return false)

-- After `lockref_put_return` has failed.
unfoldable pub put_locked : Hooks → ℕ → M Bool
put_locked k p s = and_then (d_lock p s) (λ _ s1.
    let c = (s1.entries p).d_count in
    if c == 0 || leb (2 ^ 31) c
    then and_then (d_unlock p s1) (λ _. return true)
    else recheck k p (set_count p (decrement c) s1))

-- True if nothing is left to do; else the lock of the dentry is held.
unfoldable pub fast_dput : Hooks → ℕ → M Bool
fast_dput k p s =
    let (ret, count) = k.put_return (s.entries p).d_count in
    let s1 = set_count p count s in
    if leb (2 ^ 31) ret
    then put_locked k p s1
    else if not (ret == 0)
    then done true s1
    else and_then (retain_dentry k p false s1)
        (λ kept. if kept then return true else (do d_lock p; recheck k p))

-- After a dentry was killed: nothing, or the parent, which is kept or goes through `again`.
unfoldable pub after_kill : Hooks → M (Unit {0}) → ℕ → M (Unit {0})
after_kill k again parent s =
    if parent == 0
    then done tt s
    else and_then (retain_dentry k parent true s) (λ kept. if kept then d_unlock parent else again)

-- The loop of `dput`, entered with the lock of the dentry; it takes one round for each dentry that
-- is killed.
unfoldable pub kill_loop : Hooks → ℕ → ℕ → M (Unit {0})
kill_loop k zero p s = out_of_fuel s
kill_loop k (suc fuel) p s = and_then (lock_for_kill k p s) (λ free.
    if not free
    then d_unlock p
    else dentry_kill k p >>= λ parent. after_kill k (kill_loop k fuel parent) parent)

unfoldable pub dput : Hooks → ℕ → ℕ → M (Unit {0})
dput k fuel p s =
    if p == 0
    then done tt s
    else and_then (fast_dput k p s) (λ finished. if finished then return tt else kill_loop k fuel p)
