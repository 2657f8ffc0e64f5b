-- ===== src/Dcache/Life/Safety.antt =====
-- What src/dentry/dentry.c may kill.
use linux_vfs.Base.{
  ℕ, zero, suc, ◌+◌, ◌≡◌, ◌∙◌, sym, inl, inr, Bool-cases, ◌==◌, refl, Bool, not, true, false,
  if◌then◌else◌, List, [], ◌∷◌, length, arith,
}
use mathlib.Core.Path.{subst}
use linux_vfs.Base.Bits.{test}
use linux_vfs.Vfs.{update}
use linux_vfs.Dcache.Life.{
  Event, marked_dead, Life, Run, done, hangs, out_of_fuel, final, M, and_then, ◌>>=◌, ◌>>◌, return,
  Hooks, released, freed, log_if, set_count, decrement, dcache_shrink_list, d_lock, d_unlock,
  i_lock, i_unlock, retain_dentry,
}
use linux_vfs.Dcache.Life.Kill.{
  chase_inode, still_unused, lock_for_kill, leave_parent, lock_parent, unlock_negative, detach,
  unlist, mark_dead, dentry_kill, recheck, put_locked, fast_dput, after_kill, kill_loop, dput,
}

-- Every dentry of a log had no reference when it was marked as dead.
abbrev pub AreUnused : List Event → Type 0
AreUnused [] = Unit
AreUnused (marked_dead p e ∷ log) = (e.d_count ≡ 0) × AreUnused log
AreUnused (_ ∷ log) = AreUnused log

-- A run that begins with the log `l` ends with it.
abbrev Logs {ℓ} : {A : Type ℓ} → List Event → Run A → Type 0
Logs l r = (final r).log ≡ l

Logs-and_then {ℓ κ} :
    {A : Type ℓ} {B : Type κ} (l : List Event) (r : Run A) (f : A → M B)
    → Logs l r
    → ((a : A) (s : Life) → s.log ≡ l → Logs l (f a s))
    → Logs l (and_then r f)
Logs-and_then l (done a s) f h next = next a s h
Logs-and_then l (hangs s) f h next = h
Logs-and_then l (out_of_fuel s) f h next = h

d_lock-Logs : (p : ℕ) (s : Life) → Logs s.log (d_lock p s)
unfolding d_lock
d_lock-Logs p s = ground arith

i_lock-Logs : (i : ℕ) (s : Life) → Logs s.log (i_lock i s)
unfolding i_lock
i_lock-Logs i s = ground arith

retain_dentry-Logs :
    (k : Hooks) (p : ℕ) (locked : Bool) (s : Life) → Logs s.log (retain_dentry k p locked s)
unfolding retain_dentry
retain_dentry-Logs k p locked s = ground arith

relock-Logs : (p i : ℕ) (s : Life) → Logs s.log ((do d_unlock p; i_lock i; d_lock p) s)
unfolding d_lock i_lock d_unlock
relock-Logs p i s = ground arith

chase_inode-Logs : (fuel p i : ℕ) (s : Life) → Logs s.log (chase_inode fuel p i s)
unfolding chase_inode i_unlock
chase_inode-Logs zero p i s = refl
chase_inode-Logs (suc fuel) p i s =
    Logs-and_then s.log ((do d_unlock p; i_lock i; d_lock p) s) _ (relock-Logs p i s) (λ a t e.
      ground (
        arith,
        chase_inode-Logs fuel p (t.entries p).d_inode
            (record t { i_locks = update t.i_locks i false }),
      ))

still_unused-Logs : (p i : ℕ) (s : Life) → Logs s.log (still_unused p i s)
unfolding still_unused i_unlock
still_unused-Logs p i s = ground arith

still_unused-zero :
    (p i : ℕ) (s t : Life) → still_unused p i s ≡ done true t → (t.entries p).d_count ≡ 0
unfolding still_unused i_unlock
still_unused-zero p i s t e = ground arith

lock_for_kill-Logs : (k : Hooks) (p : ℕ) (s : Life) → Logs s.log (lock_for_kill k p s)
unfolding lock_for_kill i_lock
lock_for_kill-Logs k p s = ground (
  arith,
  Logs-and_then s.log (chase_inode (length s.others + 2) p (s.entries p).d_inode s) (still_unused p)
      (chase_inode-Logs (length s.others + 2) p (s.entries p).d_inode s)
      (λ (i : ℕ) (t : Life) (e : t.log ≡ s.log). still_unused-Logs p i t ∙ e),
)

and_then-zero :
    (p : ℕ) (r : Run ℕ) (t : Life)
    → and_then r (still_unused p) ≡ done true t
    → (t.entries p).d_count ≡ 0
and_then-zero p (done i s) t e = still_unused-zero p i s t e
and_then-zero p (hangs s) t e = cc
and_then-zero p (out_of_fuel s) t e = cc

lock_for_kill-zero :
    (k : Hooks) (p : ℕ) (s t : Life) → lock_for_kill k p s ≡ done true t → (t.entries p).d_count ≡ 0
unfolding lock_for_kill i_lock
lock_for_kill-zero k p s t e =
    ground (arith, and_then-zero p (chase_inode (length s.others + 2) p (s.entries p).d_inode s) t)

abbrev Fine {ℓ} : {A : Type ℓ} → Run A → Type 0
Fine r = AreUnused (final r).log

Fine-and_then {ℓ κ} :
    {A : Type ℓ} {B : Type κ} (r : Run A) (f : A → M B)
    → Fine r
    → ((a : A) (s : Life) → r ≡ done a s → AreUnused s.log → Fine (f a s))
    → Fine (and_then r f)
Fine-and_then (done a s) f h next = next a s refl h
Fine-and_then (hangs s) f h next = h
Fine-and_then (out_of_fuel s) f h next = h

Logs-Fine {ℓ} : {A : Type ℓ} (l : List Event) (r : Run A) → AreUnused l → Logs l r → Fine r
Logs-Fine l r h e = subst AreUnused (sym e) h

leave_parent-Logs : (p parent : ℕ) (s : Life) → Logs s.log (leave_parent p parent s)
unfolding leave_parent d_unlock
leave_parent-Logs p parent s = ground arith

lock_parent-Logs : (p parent : ℕ) (s : Life) → Logs s.log (lock_parent p parent s)
unfolding lock_parent
lock_parent-Logs p parent s = ground (arith, d_lock-Logs parent s)

unlock_negative-Logs : (p : ℕ) (s : Life) → Logs s.log (unlock_negative p s)
unfolding unlock_negative d_unlock
unlock_negative-Logs p s = ground arith

released-AreUnused :
    (b : Bool) (p : ℕ) (s : Life) → AreUnused s.log → AreUnused (log_if b (released p) s).log
released-AreUnused b p s h = ground arith

freed-AreUnused :
    (b : Bool) (p : ℕ) (s : Life) → AreUnused s.log → AreUnused (log_if b (freed p) s).log
freed-AreUnused b p s h = ground arith

unlist-Fine : (p parent : ℕ) (s : Life) → AreUnused s.log → Fine (unlist p parent s)
unfolding unlist
unlist-Fine p parent s h =
    let s1 = record s { d_locks = update s.d_locks p false } in
    let keep = not (test (s.entries p).d_flags dcache_shrink_list) in
    Logs-Fine (log_if keep (freed p) s1).log (leave_parent p parent (log_if keep (freed p) s1))
      (freed-AreUnused keep p s1 h) (leave_parent-Logs p parent (log_if keep (freed p) s1))

detach-Fine : (p : ℕ) (s : Life) → AreUnused s.log → Fine (detach p s)
unfolding detach
detach-Fine p s h =
    let parent = (s.entries p).d_parent in
    Fine-and_then (lock_parent p parent s) (λ _ t. and_then (d_lock p t) (λ _. unlist p parent))
      (Logs-Fine s.log (lock_parent p parent s) h (lock_parent-Logs p parent s))
      (λ _ s1 _ h1.
        Fine-and_then (d_lock p s1) (λ _. unlist p parent)
          (Logs-Fine s1.log (d_lock p s1) h1 (d_lock-Logs p s1))
          (λ _ s2 _ h2. unlist-Fine p parent s2 h2))

mark_dead-AreUnused :
    (k : Hooks) (p : ℕ) (s : Life)
    → (s.entries p).d_count ≡ 0
    → AreUnused s.log
    → AreUnused (mark_dead k p s).log
unfolding mark_dead
mark_dead-AreUnused k p s z h = ground arith

dentry_kill-Fine :
    (k : Hooks) (p : ℕ) (s : Life)
    → (s.entries p).d_count ≡ 0
    → AreUnused s.log
    → Fine (dentry_kill k p s)
unfolding dentry_kill
dentry_kill-Fine k p s z h =
    let t = mark_dead k p s in
    Fine-and_then (unlock_negative p t) (λ _ u. detach p (log_if (k.d_release p) (released p) u))
      (Logs-Fine t.log (unlock_negative p t) (mark_dead-AreUnused k p s z h)
        (unlock_negative-Logs p t))
      (λ _ u _ h'.
        detach-Fine p (log_if (k.d_release p) (released p) u)
          (released-AreUnused (k.d_release p) p u h'))

recheck-Logs : (k : Hooks) (p : ℕ) (s : Life) → Logs s.log (recheck k p s)
unfolding recheck d_unlock
recheck-Logs k p s = ground (arith, retain_dentry-Logs k p true s)

put_locked-Logs : (k : Hooks) (p : ℕ) (s : Life) → Logs s.log (put_locked k p s)
unfolding put_locked d_unlock
put_locked-Logs k p s =
    Logs-and_then s.log (d_lock p s) _ (d_lock-Logs p s) (λ _ s1 e.
      ground (arith, recheck-Logs k p (set_count p (decrement (s1.entries p).d_count) s1)))

fast_dput-Logs : (k : Hooks) (p : ℕ) (s : Life) → Logs s.log (fast_dput k p s)
unfolding fast_dput
fast_dput-Logs k p s =
    let s1 = set_count p (k.put_return (s.entries p).d_count).1 s in
    ground (arith, put_locked-Logs k p s1, relocked s1)
  where
    relocked :
        (s1 : Life)
        → Logs s1.log (
            and_then
              (retain_dentry k p false s1)
              (λ kept. if kept then return true else (do d_lock p; recheck k p)))
    relocked s1 =
        Logs-and_then s1.log (retain_dentry k p false s1) _ (retain_dentry-Logs k p false s1)
          (λ kept t e. ground (arith, locked t))
      where
        locked : (t : Life) → Logs t.log ((do d_lock p; recheck k p) t)
        locked t =
            Logs-and_then t.log (d_lock p t) _ (d_lock-Logs p t) (λ _ u e. recheck-Logs k p u ∙ e)

after_kill-Fine :
    (k : Hooks) (again : M (Unit {0})) (parent : ℕ) (s : Life)
    → ((t : Life) → AreUnused t.log → Fine (again t))
    → AreUnused s.log
    → Fine (after_kill k again parent s)
unfolding after_kill d_unlock
after_kill-Fine k again parent s more h = elim (Bool-cases (parent == 0)) [
  | inl e ↦ rw e h
  | inr e ↦ rw e (
      Fine-and_then (retain_dentry k parent true s)
        (λ kept. if kept then d_unlock parent else again)
        (Logs-Fine s.log (retain_dentry k parent true s) h (retain_dentry-Logs k parent true s))
        (λ kept t _ h'. ground (arith, more t)))
]

kill_loop-Fine : (k : Hooks) (fuel p : ℕ) (s : Life) → AreUnused s.log → Fine (kill_loop k fuel p s)
unfolding kill_loop d_unlock
kill_loop-Fine k zero p s h = h
kill_loop-Fine k (suc fuel) p s h =
    Fine-and_then (lock_for_kill k p s) _
      (Logs-Fine s.log (lock_for_kill k p s) h (lock_for_kill-Logs k p s))
      (λ free t e h'. round free t e h' (kill_loop-Fine k fuel))
  where
    round :
        (free : Bool) (t : Life)
        → lock_for_kill k p s ≡ done free t
        → AreUnused t.log
        → ((q : ℕ) (u : Life) → AreUnused u.log → Fine (kill_loop k fuel q u))
        → Fine (
            (if not free
                then d_unlock p
                else dentry_kill k p >>= λ parent. after_kill k (kill_loop k fuel parent) parent)
              t)
    round false t e h' ih = h'
    round true t e h' ih =
        Fine-and_then (dentry_kill k p t) (λ parent. after_kill k (kill_loop k fuel parent) parent)
          (dentry_kill-Fine k p t (lock_for_kill-zero k p s t e) h')
          (λ parent u _ h2. after_kill-Fine k (kill_loop k fuel parent) parent u (ih parent) h2)

-- Whatever other threads do to the dentries while a lock is awaited, however the lockref behaves,
-- and also when the call hangs: every dentry that `dput` marks as dead, the parents included, had a
-- count of 0 when it was marked.
pub dput-AreUnused :
    (k : Hooks) (fuel p : ℕ) (s : Life) → AreUnused s.log → AreUnused (final (dput k fuel p s)).log
unfolding dput
dput-AreUnused k fuel p s h = elim (Bool-cases (p == 0)) [
  | inl e ↦ rw e h
  | inr e ↦ rw e (
      Fine-and_then (fast_dput k p s)
        (λ finished. if finished then return tt else kill_loop k fuel p)
        (Logs-Fine s.log (fast_dput k p s) h (fast_dput-Logs k p s))
        (λ finished t _ h'. ground (arith, kill_loop-Fine k fuel p t)))
]
