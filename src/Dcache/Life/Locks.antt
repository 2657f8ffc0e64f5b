-- ===== src/Dcache/Life/Locks.antt =====
-- The locks that src/dentry/dentry.c takes, and whether its loops end.
use linux_vfs.Base.{ℕ, suc, ◌≡◌, ◌≢◌, Bool, true, false, not, if◌then◌else◌, [], ne→==, arith}
use linux_vfs.Dcache.Life.{
  Event, Life, Run, done, hangs, out_of_fuel, M, and_then, ◌>>=◌, return, Hooks, PutReturns,
  released, log_if, d_lock, d_unlock, i_lock, i_unlock, retain_dentry,
}
use linux_vfs.Dcache.Life.Kill.{
  chase_inode, still_unused, lock_for_kill, lock_parent, detach, unlock_negative, mark_dead,
  dentry_kill, recheck, put_locked, fast_dput, after_kill, kill_loop, dput,
}

-- The thread waits for a lock that it holds itself.
abbrev pub Hangs {ℓ} : {A : Type ℓ} → Run A → Type 0
Hangs (hangs s) = Unit
Hangs _ = ⊥

detach-Hangs : (p : ℕ) (s : Life) → s.d_locks p ≡ true → Hangs (detach p s)
unfolding detach lock_parent d_lock
detach-Hangs p s h = ground arith

log_if-d_locks : (b : Bool) (e : Event) (s : Life) → (log_if b e s).d_locks ≡ s.d_locks
log_if-d_locks b e s = ground arith

mark_dead_keeps :
    (k : Hooks) (p : ℕ) (s : Life)
    → ((mark_dead k p s).d_locks ≡ s.d_locks)
      × (((mark_dead k p s).entries p).d_inode ≡ (s.entries p).d_inode)
unfolding mark_dead
mark_dead_keeps k p s = ground arith

unlock_negative-keeps :
    (p : ℕ) (s : Life) → (s.entries p).d_inode ≢ 0 → unlock_negative p s ≡ done tt s
unfolding unlock_negative
unlock_negative-keeps p s ne = ground arith

-- `__dentry_kill` never returns for a dentry with an inode.
dentry_kill-Hangs :
    (k : Hooks) (p : ℕ) (s : Life)
    → s.d_locks p ≡ true
    → (s.entries p).d_inode ≢ 0
    → Hangs (dentry_kill k p s)
unfolding dentry_kill
dentry_kill-Hangs k p s h ne =
    let t = mark_dead k p s in
    let (locks, inode) = mark_dead_keeps k p s in
    rw (unlock_negative-keeps p t (rw inode ne)) (
      detach-Hangs p (log_if (k.d_release p) (released p) t)
        (rw (log_if-d_locks (k.d_release p) (released p) t, locks) h))

-- What a run that hangs does not let happen goes on hanging.
Hangs-and_then {ℓ κ} :
    {A : Type ℓ} {B : Type κ} (r : Run A) (f : A → M B) → Hangs r → Hangs (and_then r f)
Hangs-and_then (done a s) f h = absurd h
Hangs-and_then (hangs s) f h = tt
Hangs-and_then (out_of_fuel s) f h = absurd h

-- A run that returns true, with the lock of `p` and the entries as they were.
abbrev Takes : ℕ → Life → Run Bool → Type 0
Takes p s (done b t) = (b ≡ true) × (t.d_locks p ≡ true) × (t.entries ≡ s.entries)
Takes p s _ = ⊥

lock_for_kill-Takes :
    (k : Hooks) (p : ℕ) (s : Life)
    → s.d_locks p ≡ true
    → (s.entries p).d_count ≡ 0
    → s.i_locks (s.entries p).d_inode ≡ false
    → s.others ≡ []
    → Takes p s (lock_for_kill k p s)
unfolding lock_for_kill i_lock i_unlock d_lock d_unlock chase_inode still_unused
lock_for_kill-Takes k p s h z free quiet = rw (quiet, z) (ground arith)

kill_loop-Hangs :
    (k : Hooks) (fuel p : ℕ) (s : Life)
    → s.d_locks p ≡ true
    → (s.entries p).d_count ≡ 0
    → (s.entries p).d_inode ≢ 0
    → s.i_locks (s.entries p).d_inode ≡ false
    → s.others ≡ []
    → Hangs (kill_loop k (suc fuel) p s)
unfolding kill_loop
kill_loop-Hangs k fuel p s h z ne free quiet =
    go (lock_for_kill k p s) (lock_for_kill-Takes k p s h z free quiet)
  where
    go :
        (r : Run Bool)
        → Takes p s r
        → Hangs (
            and_then r (λ free.
              if not free
              then d_unlock p
              else dentry_kill k p >>= λ parent. after_kill k (kill_loop k fuel parent) parent))
    go (done true t) (_, locked, same) =
        Hangs-and_then (dentry_kill k p t) (λ parent. after_kill k (kill_loop k fuel parent) parent)
          (dentry_kill-Hangs k p t locked (rw same ne))
    go (done false t) (e, _, _) = cc
    go (hangs t) e = absurd e
    go (out_of_fuel t) e = absurd e

-- `fast_dput` gives its last reference up and leaves the dentry locked.
abbrev GivesUp : ℕ → Life → Run Bool → Type 0
GivesUp p s (done b t) =
    (b ≡ false)
    × (t.d_locks p ≡ true)
    × (t.i_locks ≡ s.i_locks)
    × (t.others ≡ [])
    × ((t.entries p).d_count ≡ 0)
    × ((t.entries p).d_inode ≡ (s.entries p).d_inode)
GivesUp p s _ = ⊥

fast_dput-GivesUp :
    (k : Hooks) (p : ℕ) (s : Life)
    → PutReturns k
    → s.d_locks p ≡ false
    → s.others ≡ []
    → (s.entries p).d_count ≡ 1
    → (s.entries p).d_hashed ≡ false
    → GivesUp p s (fast_dput k p s)
unfolding fast_dput put_locked recheck retain_dentry d_lock d_unlock
fast_dput-GivesUp k p s put free quiet last unhashed =
    rw (quiet, last, unhashed) (ground (arith, put 1))

-- A dentry that has an inode and is not hashed, as the root of a file system, whose count is 1, and
-- whose lock and whose inode's lock the thread does not hold: with nobody else about, `dput` of it
-- never returns, since it waits for the lock of a dentry that it holds itself.
pub dput-Hangs :
    (k : Hooks) (fuel p : ℕ) (s : Life)
    → PutReturns k
    → p ≢ 0
    → s.d_locks p ≡ false
    → s.i_locks (s.entries p).d_inode ≡ false
    → s.others ≡ []
    → (s.entries p).d_count ≡ 1
    → (s.entries p).d_hashed ≡ false
    → (s.entries p).d_inode ≢ 0
    → Hangs (dput k (suc fuel) p s)
unfolding dput
dput-Hangs k fuel p s put nonzero free i_free quiet last unhashed ne =
    rw (ne→== p 0 nonzero)
      (go (fast_dput k p s) (fast_dput-GivesUp k p s put free quiet last unhashed))
  where
    go :
        (r : Run Bool)
        → GivesUp p s r
        → Hangs (and_then r (λ finished. if finished then return tt else kill_loop k (suc fuel) p))
    go (done false t) (_, locked, inodes, still, zero_left, same) =
        kill_loop-Hangs k fuel p t locked zero_left (rw same ne) (rw (same, inodes) i_free) still
    go (done true t) e = cc
    go (hangs t) e = absurd e
    go (out_of_fuel t) e = absurd e
