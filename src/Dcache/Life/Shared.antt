-- ===== src/Dcache/Life/Shared.antt =====
-- References to one dentry taken and dropped, `dget` and `dput` of src/dentry/dentry.c.
use linux_vfs.Base.{
  ℕ, ◌+◌, ◌-◌, ◌%◌, ◌^◌, ◌<◌, ◌≡◌, refl, Bool, true, false, ◌==◌, if◌then◌else◌, [], Bool-cases,
  inl, inr, arith,
}
use linux_vfs.Dcache.Life.{
  Life, Run, done, hangs, out_of_fuel, return, and_then, Hooks, PutReturns, set_count, d_lock,
  d_unlock, dget,
}
use linux_vfs.Dcache.Life.Kill.{recheck, put_locked, fast_dput, kill_loop, dput}
use linux_vfs.Dcache.Life.Ends.{Ends}

-- `s` with one reference to `p` less.
abbrev Lowers : ℕ → Life → Bool → Life → Type 0
Lowers p s b t =
    (b ≡ true)
    × (t.log ≡ s.log)
    × ((q : ℕ) → t.d_locks q ≡ s.d_locks q)
    × ((q : ℕ)
        → t.entries q ≡ (
            if q == p
            then record (s.entries p) { d_count = (s.entries p).d_count - 1 }
            else s.entries q))

fast_dput-Lowers :
    (k : Hooks) (p : ℕ) (s : Life)
    → PutReturns k
    → s.d_locks p ≡ false
    → s.others ≡ []
    → 1 < (s.entries p).d_count
    → (s.entries p).d_count < 2 ^ 31
    → Ends (Lowers p s) (fast_dput k p s)
unfolding fast_dput put_locked recheck d_lock d_unlock
fast_dput-Lowers k p s put free still more small =
    rw still (ground (arith, put (s.entries p).d_count))

-- The log, the locks and the entries of two states are the same.
abbrev pub Agrees : Life → Life → Type 0
Agrees s t =
    (t.log ≡ s.log) × ((q : ℕ) → t.d_locks q ≡ s.d_locks q) × ((q : ℕ) → t.entries q ≡ s.entries q)

-- `dput` undoes `dget`: of a dentry with at least one reference and room for another in the
-- count, whose lock the thread does not hold, and with nobody else about, a reference that is taken
-- and dropped again leaves every entry and lock as it was, kills nothing, and `dput` returns.
pub dput-dget :
    (k : Hooks) (fuel p : ℕ) (s : Life)
    → PutReturns k
    → s.d_locks p ≡ false
    → s.others ≡ []
    → 0 < (s.entries p).d_count
    → (s.entries p).d_count + 1 < 2 ^ 31
    → Ends (λ _ t. Agrees s t) (dput k fuel p (dget p s))
unfolding dput dget
dput-dget k fuel p s put free still more small = elim (Bool-cases (p == 0)) [
  | inl e ↦ rw e (refl, (λ q. refl), λ q. refl)
  | inr e ↦ rw e (go (fast_dput k p s1) lowered)
]
  where
    s1 : Life
    s1 = set_count p (((s.entries p).d_count + 1) % 2 ^ 32) s

    lowered : Ends (Lowers p s1) (fast_dput k p s1)
    lowered = fast_dput-Lowers k p s1 put free still (ground arith) (ground arith)

    go :
        (r : Run Bool)
        → Ends (Lowers p s1) r
        → Ends
            (λ _ t. Agrees s t)
            (and_then r (λ finished. if finished then return tt else kill_loop k fuel p))
    go (done true t) (_, log, locks, entries) = (log, locks, λ q. ground (arith, entries q))
    go (done false t) h = cc
    go (hangs t) h = absurd h
    go (out_of_fuel t) h = absurd h
