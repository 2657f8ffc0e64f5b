-- ===== src/Dcache/Life/Rounds.antt =====
-- The loop of `lock_for_kill`, src/dentry/dentry.c, on an inode that other threads may change.
use linux_vfs.Base.{ℕ, zero, suc, ◌+◌, ◌<◌, ◌≡◌, ◌⊎◌, refl, false, List, [], ◌∷◌, length, arith}
use linux_vfs.Vfs.{update}
use linux_vfs.Dcache.Life.{
  Life, Move, Run, done, hangs, out_of_fuel, M, and_then, ◌>>◌, Hooks, d_lock, d_unlock, i_lock,
  i_unlock,
}
use linux_vfs.Dcache.Life.Kill.{chase_inode, still_unused, lock_for_kill}

-- The run does not stop for want of fuel.
abbrev pub HasFuel {ℓ} : {A : Type ℓ} → Run A → Type 0
HasFuel (out_of_fuel s) = ⊥
HasFuel _ = Unit

HasFuel-and_then {ℓ κ} :
    {A : Type ℓ} {B : Type κ} (r : Run A) (f : A → M B)
    → HasFuel r
    → ((a : A) (s : Life) → r ≡ done a s → HasFuel (f a s))
    → HasFuel (and_then r f)
HasFuel-and_then (done a s) f h next = next a s refl
HasFuel-and_then (hangs s) f h next = tt
HasFuel-and_then (out_of_fuel s) f h next = absurd h

abbrev relock : ℕ → ℕ → M (Unit {0})
relock p i = do d_unlock p; i_lock i; d_lock p

relock-HasFuel : (p i : ℕ) (s : Life) → HasFuel (relock p i s)
unfolding d_unlock i_lock d_lock
relock-HasFuel p i s = ground arith

-- Taking the locks again lets the other threads make one move, or nothing changes.
relock_moves :
    (p i : ℕ) (s t : Life)
    → relock p i s ≡ done tt t
    → (t.others ≡ []) × ((t.entries p).d_inode ≡ (s.entries p).d_inode)
      ⊎ (length t.others + 1 ≡ length s.others)
unfolding d_unlock i_lock d_lock
relock_moves p i s t e = go s.others refl
  where
    go :
        (others : List Move)
        → s.others ≡ others
        → (t.others ≡ []) × ((t.entries p).d_inode ≡ (s.entries p).d_inode)
          ⊎ (length t.others + 1 ≡ length s.others)
    go [] q = ground arith
    go (move ∷ rest) q = ground arith

chase_inode-HasFuel :
    (fuel p i : ℕ) (s : Life)
    → length s.others < fuel
    → i ≡ (s.entries p).d_inode
    → HasFuel (chase_inode fuel p i s)
unfolding chase_inode i_unlock
chase_inode-HasFuel zero p i s lt e = absurd (omega arith)
chase_inode-HasFuel (suc fuel) p i s lt e =
    HasFuel-and_then (relock p i s) _ (relock-HasFuel p i s) (λ _ t q.
      let t' = record t { i_locks = update t.i_locks i false } in
      ground (arith, relock_moves p i s t q, chase_inode-HasFuel fuel p (t.entries p).d_inode t'))

still_unused-HasFuel : (p i : ℕ) (s : Life) → HasFuel (still_unused p i s)
unfolding still_unused i_unlock
still_unused-HasFuel p i s = ground arith

-- The rounds of `lock_for_kill` are enough for the finitely many moves that other threads have.
lock_for_kill-HasFuel : (k : Hooks) (p : ℕ) (s : Life) → HasFuel (lock_for_kill k p s)
unfolding lock_for_kill i_lock
lock_for_kill-HasFuel k p s = ground (
  arith,
  HasFuel-and_then (chase_inode (length s.others + 2) p (s.entries p).d_inode s) (still_unused p)
      (chase_inode-HasFuel (length s.others + 2) p (s.entries p).d_inode s (omega arith) refl)
      (λ (i : ℕ) (t : Life)
          (e : chase_inode (length s.others + 2) p (s.entries p).d_inode s ≡ done i t).
        still_unused-HasFuel p i t),
)
