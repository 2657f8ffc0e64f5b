-- ===== src/Dcache/Life/Ends.antt =====
-- `__dentry_kill` of src/dentry/dentry.c on a dentry with no inode ends, and which locks it leaves.
use linux_vfs.Base.{
  ℕ, ◌≡◌, ◌≢◌, refl, inl, inr, Bool, true, false, not, ◌==◌, if◌then◌else◌, [], Bool-cases, ◌&&◌,
  ◌⊎◌, ◌∙◌, arith,
}
use linux_vfs.Base.Bits.{test}
use linux_vfs.Vfs.{update}
use linux_vfs.Dcache.Life.{
  Event, Life, Run, done, hangs, out_of_fuel, M, and_then, return, Hooks, marked_dead, pruned,
  released, freed, log_event, log_if, set_count, decrement, dcache_shrink_list, d_lock, d_unlock,
}
use linux_vfs.Dcache.Life.Kill.{
  leave_parent, lock_parent, unlist, detach, unlock_negative, mark_dead, dentry_kill,
}

-- Nobody else is about, no dentry has an inode, and `parent` gives the parents.
abbrev pub IsQuiet : (ℕ → ℕ) → Life → Type 0
IsQuiet parent s =
    (s.others ≡ []) × ((q : ℕ) → ((s.entries q).d_inode ≡ 0) × ((s.entries q).d_parent ≡ parent q))

-- The thread holds the lock of `p` and no other of a dentry.
abbrev pub HoldsOnly : ℕ → Life → Type 0
HoldsOnly p s = (q : ℕ) → s.d_locks q ≡ (q == p)

abbrev pub HoldsNone : Life → Type 0
HoldsNone s = (q : ℕ) → s.d_locks q ≡ false

-- A run that ends in a state with a property.
abbrev pub Ends {ℓ} : {A : Type ℓ} → (A → Life → Type 0) → Run A → Type 0
Ends P (done a s) = P a s
Ends P _ = ⊥

pub Ends-and_then {ℓ κ} :
    {A : Type ℓ} {B : Type κ} (P : A → Life → Type 0) (Q : B → Life → Type 0) (r : Run A)
    (f : A → M B)
    → Ends P r
    → ((a : A) (s : Life) → P a s → Ends Q (f a s))
    → Ends Q (and_then r f)
Ends-and_then P Q (done a s) f h next = next a s h
Ends-and_then P Q (hangs s) f h next = absurd h
Ends-and_then P Q (out_of_fuel s) f h next = absurd h

pub d_lock-Ends :
    (p : ℕ) (s : Life)
    → s.d_locks p ≡ false
    → s.others ≡ []
    → d_lock p s ≡ done tt (record s { d_locks = update s.d_locks p true })
unfolding d_lock
d_lock-Ends p s free still = rw (free, still) (ground arith)

module _ (parent : ℕ → ℕ) where
  -- After a kill: the parent that has lost its last reference is locked, or nothing is.
  abbrev pub Killed : ℕ → ℕ → Life → Type 0
  Killed p r s =
      IsQuiet parent s
      × (((r ≡ 0) × HoldsNone s) ⊎ ((r ≡ parent p) × (p ≢ parent p) × HoldsOnly r s))

  log_if-IsQuiet :
      (b : Bool) (e : Event) (s : Life) → IsQuiet parent s → IsQuiet parent (log_if b e s)
  log_if-IsQuiet true e s h = h
  log_if-IsQuiet false e s h = h

  log_if-d_locks_at :
      (b : Bool) (e : Event) (s : Life) (q : ℕ) → (log_if b e s).d_locks q ≡ s.d_locks q
  log_if-d_locks_at b e s q = ground arith

  pub set_count-IsQuiet : (p c : ℕ) (s : Life) → IsQuiet parent s → IsQuiet parent (set_count p c s)
  set_count-IsQuiet p c s (still, fields) = (still, λ q. ground (arith, fields q))

  mark_dead-IsQuiet :
      (k : Hooks) (p : ℕ) (s : Life) → IsQuiet parent s → IsQuiet parent (mark_dead k p s)
  unfolding mark_dead
  mark_dead-IsQuiet k p s h =
      log_if-IsQuiet _ (pruned p) _
        (set_count-IsQuiet p _ (log_event (marked_dead p (s.entries p)) s) h)

  mark_dead-d_locks : (k : Hooks) (p : ℕ) (s : Life) → (mark_dead k p s).d_locks ≡ s.d_locks
  unfolding mark_dead
  mark_dead-d_locks k p s = ground arith

  leave_parent-Ends :
      (p : ℕ) (s : Life)
      → IsQuiet parent s
      → ((q : ℕ) → s.d_locks q ≡ (q == parent p && not (p == parent p)))
      → Ends (Killed p) (leave_parent p (parent p) s)
  unfolding leave_parent d_unlock
  leave_parent-Ends p s h locks = elim (Bool-cases (p == parent p)) [
    | inl e ↦ rw e (h, inl (refl, λ q. ground (arith, locks q)))
    | inr e ↦ rw e (counted e (Bool-cases ((s1.entries (parent p)).d_count == 0)))
  ]
    where
      s1 : Life
      s1 = set_count (parent p) (decrement (s.entries (parent p)).d_count) s

      counted :
          (p == parent p) ≡ false
          → (((s1.entries (parent p)).d_count == 0) ≡ true)
            ⊎ (((s1.entries (parent p)).d_count == 0) ≡ false)
          → Ends (Killed p) (
              if (s1.entries (parent p)).d_count == 0
              then done (parent p) s1
              else and_then (d_unlock (parent p) s1) (λ _. return 0))
      counted ne (inl e) = rw e (
        set_count-IsQuiet (parent p) (decrement (s.entries (parent p)).d_count) s h,
        inr (refl, ground arith, λ q. ground (arith, locks q)),
      )
      counted ne (inr e) = rw e (
        set_count-IsQuiet (parent p) (decrement (s.entries (parent p)).d_count) s h,
        inl (refl, λ q. ground (arith, locks q)),
      )

  unlist-Ends :
      (p : ℕ) (s : Life)
      → IsQuiet parent s
      → ((q : ℕ) → update s.d_locks p false q ≡ (q == parent p && not (p == parent p)))
      → Ends (Killed p) (unlist p (parent p) s)
  unfolding unlist
  unlist-Ends p s h locks =
      let s1 = record s { d_locks = update s.d_locks p false } in
      let keep = not (test (s.entries p).d_flags dcache_shrink_list) in
      leave_parent-Ends p (log_if keep (freed p) s1) (log_if-IsQuiet keep (freed p) s1 h)
        (λ q. log_if-d_locks_at keep (freed p) s1 q ∙ locks q)

  detach-Ends : (p : ℕ) (s : Life) → IsQuiet parent s → HoldsNone s → Ends (Killed p) (detach p s)
  unfolding detach lock_parent
  detach-Ends p s (still, fields) none_held = rw ((fields p).1) (elim (Bool-cases (p == parent p)) [
    | inl e ↦
        rw (e, d_lock-Ends p s (none_held p) still)
          (unlist-Ends p (record s { d_locks = update s.d_locks p true }) (still, fields)
            (λ q. ground (arith, none_held q)))
    | inr e ↦
        let s1 = record s { d_locks = update s.d_locks (parent p) true } in
        rw
          (
            e,
            d_lock-Ends (parent p) s (none_held (parent p)) still,
            d_lock-Ends p s1 (ground (arith, none_held p)) still,
          )
          (unlist-Ends p (record s1 { d_locks = update s1.d_locks p true }) (still, fields)
            (λ q. ground (arith, none_held q)))
  ])

  unlock_negative-Ends :
      (p : ℕ) (s : Life)
      → IsQuiet parent s
      → HoldsOnly p s
      → Ends (λ _ t. IsQuiet parent t × HoldsNone t) (unlock_negative p s)
  unfolding unlock_negative d_unlock
  unlock_negative-Ends p s h locks = rw ((h.1 p).0) (h, λ q. ground (arith, locks q))

  pub dentry_kill-Ends :
      (k : Hooks) (p : ℕ) (s : Life)
      → IsQuiet parent s
      → HoldsOnly p s
      → Ends (Killed p) (dentry_kill k p s)
  unfolding dentry_kill
  dentry_kill-Ends k p s h locks =
      let t = mark_dead k p s in
      let b = k.d_release p in
      Ends-and_then (λ _ u. IsQuiet parent u × HoldsNone u) (Killed p) (unlock_negative p t)
        (λ _ u. detach p (log_if b (released p) u))
        (unlock_negative-Ends p t (mark_dead-IsQuiet k p s h) (rw (mark_dead-d_locks k p s) locks))
        (λ _ u (quiet, none_held).
          detach-Ends p (log_if b (released p) u) (log_if-IsQuiet b (released p) u quiet)
            (λ q. log_if-d_locks_at b (released p) u q ∙ none_held q))
