-- ===== src/Dcache/Life/Loop.antt =====
-- `dput` of src/dentry/dentry.c on dentries with no inode: its branches and its loop.
use linux_vfs.Base.{
  ℕ, zero, suc, ◌^◌, ◌<◌, ◌≡◌, ◌≢◌, refl, sym, inl, inr, Bool, true, false, ◌==◌, if◌then◌else◌,
  leb, ◌||◌, bit_or, Bool-cases, ◌⊎◌, ne→==, arith,
}
use linux_vfs.Vfs.{update}
use linux_vfs.Dcache.Life.{
  Entry, Life, done, M, ◌>>◌, return, Hooks, with_entry, dcache_referenced, set_count, decrement,
  d_lock, d_unlock, retain_dentry,
}
use linux_vfs.Dcache.Life.Kill.{
  lock_for_kill, dentry_kill, recheck, put_locked, fast_dput, after_kill, kill_loop, dput,
}
use linux_vfs.Dcache.Life.Ends.{
  IsQuiet, HoldsOnly, HoldsNone, Ends, Ends-and_then, Killed, set_count-IsQuiet, d_lock-Ends,
  dentry_kill-Ends,
}

module _ (parent : ℕ → ℕ) where
  -- A test that ends with the lock of `p` if it is false, or with that of none.
  abbrev Decided : ℕ → Bool → Life → Type 0
  Decided p true s = IsQuiet parent s × HoldsNone s
  Decided p false s = IsQuiet parent s × HoldsOnly p s

  abbrev Retained : ℕ → Life → Bool → Life → Type 0
  Retained p s b t = IsQuiet parent t × (t.d_locks ≡ s.d_locks)

  retain_dentry-Ends :
      (k : Hooks) (p : ℕ) (locked : Bool) (s : Life)
      → IsQuiet parent s
      → Ends (Retained p s) (retain_dentry k p locked s)
  unfolding retain_dentry
  retain_dentry-Ends k p locked s (still, fields) = elim (fate) [
    | inl (inl e) ↦ rw e ((still, fields), refl)
    | inl (inr e) ↦ rw e ((still, fields), refl)
    | inr e ↦ rw e ((still, λ q. ground (arith, fields q)), refl)
  ]
    where
      e : Entry
      e = s.entries p

      marked : Life
      marked = with_entry p (record e { d_flags = bit_or e.d_flags dcache_referenced }) s

      fate :
          ((retain_dentry k p locked s ≡ done false s) ⊎ (retain_dentry k p locked s ≡ done true s))
          ⊎ (retain_dentry k p locked s ≡ done true marked)
      fate = ground arith

  recheck-Ends :
      (k : Hooks) (p : ℕ) (s : Life)
      → IsQuiet parent s
      → HoldsOnly p s
      → Ends (Decided p) (recheck k p s)
  unfolding recheck d_unlock
  recheck-Ends k p s h locks = elim (Bool-cases ((s.entries p).d_count == 0)) [
    | inl e ↦ rw e (
        Ends-and_then (Retained p s) (Decided p) (retain_dentry k p true s)
          (λ kept. if kept then (do d_unlock p; return true) else return false)
          (retain_dentry-Ends k p true s h) (λ kept t (quiet, same). decide kept t quiet same))
    | inr e ↦ rw e (h, λ q. ground (arith, locks q))
  ]
    where
      decide :
          (kept : Bool) (t : Life)
          → IsQuiet parent t
          → t.d_locks ≡ s.d_locks
          → Ends (Decided p) ((if kept then (do d_unlock p; return true) else return false) t)
      decide true t quiet same = (quiet, λ q. rw same (ground (arith, locks q)))
      decide false t quiet same = (quiet, rw same locks)

  put_locked-Ends :
      (k : Hooks) (p : ℕ) (s : Life)
      → IsQuiet parent s
      → HoldsNone s
      → Ends (Decided p) (put_locked k p s)
  unfolding put_locked d_unlock
  put_locked-Ends k p s (still, fields) none_held =
      rw (d_lock-Ends p s (none_held p) still) (elim (Bool-cases (c == 0 || leb (2 ^ 31) c)) [
        | inl e ↦ rw e ((still, fields), λ q. ground (arith, none_held q))
        | inr e ↦ rw e (
            recheck-Ends k p (set_count p (decrement c) s1)
              (set_count-IsQuiet parent p (decrement c) s1 (still, fields))
              (λ q. ground (arith, none_held q)))
      ])
    where
      s1 : Life
      s1 = record s { d_locks = update s.d_locks p true }

      c : ℕ
      c = (s.entries p).d_count

  fast_dput-Ends :
      (k : Hooks) (p : ℕ) (s : Life)
      → IsQuiet parent s
      → HoldsNone s
      → Ends (Decided p) (fast_dput k p s)
  unfolding fast_dput
  fast_dput-Ends k p s h none_held = elim (Bool-cases (leb (2 ^ 31) ret)) [
    | inl e ↦ rw e (put_locked-Ends k p s1 quiet none_held)
    | inr e ↦ rw e (elim (Bool-cases (ret == 0)) [
      | inr more ↦ rw more (quiet, none_held)
      | inl last ↦ rw last (
          Ends-and_then (Retained p s1) (Decided p) (retain_dentry k p false s1)
            (λ kept. if kept then return true else (do d_lock p; recheck k p))
            (retain_dentry-Ends k p false s1 quiet)
            (λ kept t (still, same). lock_again kept t still same))
    ])
  ]
    where
      ret : ℕ
      ret = (k.put_return (s.entries p).d_count).0

      s1 : Life
      s1 = set_count p (k.put_return (s.entries p).d_count).1 s

      quiet : IsQuiet parent s1
      quiet = set_count-IsQuiet parent p (k.put_return (s.entries p).d_count).1 s h

      lock_again :
          (kept : Bool) (t : Life)
          → IsQuiet parent t
          → t.d_locks ≡ s.d_locks
          → Ends (Decided p) ((if kept then return true else (do d_lock p; recheck k p)) t)
      lock_again true t still same = (still, rw same none_held)
      lock_again false t (still, fields) same = rw (d_lock-Ends p t (rw same (none_held p)) still) (
          recheck-Ends k p (record t { d_locks = update t.d_locks p true }) (still, fields)
            (λ q. rw same (ground (arith, none_held q))))

  lock_for_kill-done :
      (k : Hooks) (p : ℕ) (s : Life)
      → IsQuiet parent s
      → lock_for_kill k p s ≡ done ((s.entries p).d_count == 0) s
  unfolding lock_for_kill
  lock_for_kill-done k p s (still, fields) = rw ((fields p).0) (ground arith)

  after_kill-Ends :
      (k : Hooks) (p : ℕ) (again : M (Unit {0})) (r : ℕ) (s : Life)
      → ((q : ℕ) → parent q ≢ 0)
      → ((t : Life)
          → r ≡ parent p
          → p ≢ parent p
          → IsQuiet parent t
          → HoldsOnly r t
          → Ends (λ _ t. HoldsNone t) (again t))
      → Killed parent p r s
      → Ends (λ _ t. HoldsNone t) (after_kill k again r s)
  unfolding after_kill d_unlock
  after_kill-Ends k p again r s rooted more (quiet, inl (e, none_held)) = rw e none_held
  after_kill-Ends k p again r s rooted more (quiet, inr (e, other, locks)) =
      rw (ne→== r 0 (rw e (rooted p))) (
        Ends-and_then (Retained r s) (λ _ t. HoldsNone t) (retain_dentry k r true s)
          (λ kept. if kept then d_unlock r else again) (retain_dentry-Ends k r true s quiet)
          (λ kept t (still, same). decide kept t still same))
    where
      decide :
          (kept : Bool) (t : Life)
          → IsQuiet parent t
          → t.d_locks ≡ s.d_locks
          → Ends (λ _ t. HoldsNone t) ((if kept then d_unlock r else again) t)
      decide true t still same = λ q. rw same (ground (arith, locks q))
      decide false t still same = more t e other still (rw same locks)

  module _ (depth : ℕ → ℕ) (rooted : (q : ℕ) → parent q ≢ 0)
      (deeper : (q : ℕ) → parent q ≢ q → depth (parent q) < depth q) where
    kill_loop-Ends :
        (k : Hooks) (fuel p : ℕ) (s : Life)
        → depth p < fuel
        → IsQuiet parent s
        → HoldsOnly p s
        → Ends (λ _ t. HoldsNone t) (kill_loop k fuel p s)
    unfolding kill_loop d_unlock
    kill_loop-Ends k zero p s lt h locks = absurd (omega arith)
    kill_loop-Ends k (suc fuel) p s lt h locks =
        rw (lock_for_kill-done k p s h) (elim (Bool-cases ((s.entries p).d_count == 0)) [
          | inr e ↦ rw e (λ q. ground (arith, locks q))
          | inl e ↦ rw e (
              Ends-and_then (Killed parent p) (λ _ t. HoldsNone t) (dentry_kill k p s)
                (λ r. after_kill k (kill_loop k fuel r) r) (dentry_kill-Ends parent k p s h locks)
                (λ r t killed.
                  after_kill-Ends k p (kill_loop k fuel r) r t rooted
                    (λ u e ne quiet only.
                      kill_loop-Ends k fuel r u (rw e (omega (arith, deeper p (λ e. ne (sym e)))))
                        quiet only)
                    killed))
        ])

    -- With nobody else about, on dentries with no inode whose parents get nearer to a root, `dput`
    -- returns if it has fuel for the depth of the dentry, and holds no lock of a dentry afterwards
    -- if it held none before.
    pub dput-HoldsNone :
        (k : Hooks) (fuel p : ℕ) (s : Life)
        → depth p < fuel
        → IsQuiet parent s
        → HoldsNone s
        → Ends (λ _ t. HoldsNone t) (dput k fuel p s)
    unfolding dput
    dput-HoldsNone k fuel p s lt h none_held = elim (Bool-cases (p == 0)) [
      | inl e ↦ rw e none_held
      | inr e ↦ rw e (
          Ends-and_then (Decided p) (λ _ t. HoldsNone t) (fast_dput k p s)
            (λ finished. if finished then return tt else kill_loop k fuel p)
            (fast_dput-Ends k p s h none_held) (λ finished t decided. go finished t decided))
    ]
      where
        go :
            (finished : Bool) (t : Life)
            → Decided p finished t
            → Ends (λ _ t. HoldsNone t) ((if finished then return tt else kill_loop k fuel p) t)
        go true t d = d.1
        go false t d = kill_loop-Ends k fuel p t lt d.0 d.1
