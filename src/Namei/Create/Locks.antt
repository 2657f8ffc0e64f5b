-- ===== src/Namei/Create/Locks.antt =====
-- The lock of the parent and the write access to its mount, over `lookup_one_qstr_excl` and
-- `__namei_create` of src/private/namei.c.
use linux_vfs.Base.{
  ℕ, suc, ◌-◌, ◌≡◌, ◌≢◌, refl, ◌∙◌, inl, inr, Bool-cases, Bool, true, false, not, ◌&&◌, bit_and,
  bit_or, Option, none, some, List, [], ◌∷◌, ◌==◌, if◌then◌else◌, arith,
}
use linux_vfs.Base.Bits.{test}
use linux_vfs.Base.Errno.{Errno, enoent, enomem, eexist, Result, ok, err}
use linux_vfs.Vfs.{
  Qstr, Loc, Vfs, Ref, note, dput, d_is_miss, dget, inode_lock, inode_unlock, want_write,
  drop_write, Driver, Reval, valid, stale, failed,
}
use linux_vfs.Dcache.{d_alloc, d_lookup, d_alloc_at, new_dentry, adopt}
use linux_vfs.File.Open.Flags.{lookup_create, lookup_excl}
use linux_vfs.Namei.Lookup.{has_trailing}
use linux_vfs.Namei.Steps.{d_revalidate}
use linux_vfs.Namei.State.{
  LastType, norm, Walk, M, lookup_directory, lookup_reval, pure, ref, ◌>>=◌, ◌>>◌,
}
use linux_vfs.Namei.Create.{
  Created, lookup_dcache, settle, revalidated, uncached, s_dead, lookup_new, lookup_one_qstr_excl,
  unlock_parent, judge, create_in,
}

-- How often the lock of the inode `i` is held after a trace.
abbrev pub locks_left : ℕ → List Ref → ℕ
locks_left i [] = 0
locks_left i (inode_lock j ∷ rest) = if i == j then suc (locks_left i rest) else locks_left i rest
locks_left i (inode_unlock j ∷ rest) = if i == j then locks_left i rest - 1 else locks_left i rest
locks_left i (_ ∷ rest) = locks_left i rest

-- How often write access to the mount `m` is held after a trace.
abbrev pub writes_left : ℕ → List Ref → ℕ
writes_left m [] = 0
writes_left m (want_write n ∷ rest) =
    if m == n then suc (writes_left m rest) else writes_left m rest
writes_left m (drop_write n ∷ rest) = if m == n then writes_left m rest - 1 else writes_left m rest
writes_left m (_ ∷ rest) = writes_left m rest

-- An operation ends in a state with a property.
abbrev pub Ends : {A : Type 0} → (A → Walk → Type 0) → Option (A × Walk) → Type 0
Ends P none = ⊥
Ends P (some (a, w)) = P a w

-- The lookup of a file system gives back what it takes, and changes no dentry but its own.
abbrev pub IsPlain : Driver → Type 0
IsPlain dr =
    (s : Vfs) (dir d flags : ℕ)
    → let t = (dr.lookup s dir d flags).1 in
      (t.trace ≡ s.trace) × ((q : ℕ) → q ≢ d → (t.dentries q).d_inode ≡ (s.dentries q).d_inode)

-- The next dentry is not the one at `p`.
abbrev pub IsFresh : List ℕ → ℕ → Type 0
IsFresh [] p = Unit
IsFresh (a ∷ heap) p = p ≢ a

-- Locks, write access and the inode of `p` are as in `s`.
abbrev Keeps : ℕ → Vfs → Vfs → Type 0
Keeps p s t =
    ((i : ℕ) → locks_left i t.trace ≡ locks_left i s.trace)
    × ((m : ℕ) → writes_left m t.trace ≡ writes_left m s.trace)
    × ((t.dentries p).d_inode ≡ (s.dentries p).d_inode)

-- A new dentry takes a reference to its parent, and the inode of the parent is as before.
abbrev Allocates : ℕ → Vfs → Option (ℕ × Vfs) → Type 0
Allocates p s none = Unit
Allocates p s (some (a, t)) =
    (p ≢ a) × (t.trace ≡ dget p ∷ s.trace) × ((t.dentries p).d_inode ≡ (s.dentries p).d_inode)

d_alloc-Allocates :
    (s : Vfs) (p : ℕ) (name : Qstr) → IsFresh s.heap p → Allocates p s (d_alloc s p name)
unfolding d_alloc new_dentry
d_alloc-Allocates s p name fresh = go s.heap fresh
  where
    go :
        (heap : List ℕ)
        → IsFresh heap p
        → Allocates p s (elim (d_alloc_at s (s.dentries p).d_sb name heap) [
          | none ↦ none
          | some (a, s') ↦ some (a, adopt s' p a)
        ])
    go [] h = tt
    go (a ∷ heap) h = ground arith

settle-Keeps :
    (d p : ℕ) (s : Vfs) (r : Result (Option ℕ) × Vfs) (w : Walk)
    → Keeps p s r.1
    → Ends (λ _ t. Keeps p s t.vfs) (settle d r w)
unfolding settle
settle-Keeps d p s (err e, t) w h = h
settle-Keeps d p s (ok none, t) w h = h
settle-Keeps d p s (ok (some old), t) w h = h

revalidated-Keeps :
    (d p : ℕ) (r : Reval) (w : Walk)
    → Ends (λ _ t. Keeps p w.vfs t.vfs × (t.vfs.heap ≡ w.vfs.heap)) (revalidated d r w)
unfolding revalidated
revalidated-Keeps d p valid w = (((λ i. refl), (λ m. refl), refl), refl)
revalidated-Keeps d p stale w = (((λ i. refl), (λ m. refl), refl), refl)
revalidated-Keeps d p (failed e) w = (((λ i. refl), (λ m. refl), refl), refl)

pub Ends-bind :
    {A B : Type 0} (P : A → Walk → Type 0) (Q : B → Walk → Type 0) (m : M A) (f : A → M B)
    (w : Walk)
    → Ends P (m w)
    → ((a : A) (t : Walk) → P a t → Ends Q (f a t))
    → Ends Q ((m >>= f) w)
Ends-bind {A} {B} P Q m f w h next = go (m w) h
  where
    go :
        (r : Option (A × Walk))
        → Ends P r
        → Ends Q (elim r as (λ _. Option (B × Walk)) [ none ↦ none | some (a, t) ↦ f a t ])
    go none h' = h'
    go (some (a, t)) h' = next a t h'

pub Ends-mono :
    {A : Type 0} (P Q : A → Walk → Type 0) (r : Option (A × Walk))
    → Ends P r
    → ((a : A) (t : Walk) → P a t → Q a t)
    → Ends Q r
Ends-mono P Q none h weaken = h
Ends-mono P Q (some (a, t)) h weaken = weaken a t h

Keeps-trans : (p : ℕ) (s t u : Vfs) → Keeps p s t → Keeps p t u → Keeps p s u
Keeps-trans p s t u (locks, writes, inode) (locks', writes', inode') =
    ((λ i. locks' i ∙ locks i), (λ m. writes' m ∙ writes m), inode' ∙ inode)

module _ (dr : Driver) (fs_root : Loc) (fuel : ℕ) (plain : IsPlain dr) where
  lookup_new-Keeps :
      (name : Qstr) (p flags : ℕ) (w : Walk)
      → IsFresh w.vfs.heap p
      → Ends (λ _ t. Keeps p w.vfs t.vfs) (lookup_new dr fs_root fuel name p flags w)
  unfolding lookup_new
  lookup_new-Keeps name p flags w fresh =
      elim (Bool-cases (test (w.vfs.inodes dir).i_flags s_dead)) [
        | inl e ↦ rw e ((λ i. refl), (λ m. refl), refl)
        | inr e ↦ rw e (go (d_alloc w.vfs p name) (d_alloc-Allocates w.vfs p name fresh))
      ]
    where
      dir : ℕ
      dir = (w.vfs.dentries p).d_inode

      go :
          (m : Option (ℕ × Vfs))
          → Allocates p w.vfs m
          → Ends
              (λ _ t. Keeps p w.vfs t.vfs)
              (elim m as (λ _. M (Result ℕ)) [
                | none ↦ pure (err enomem)
                | some (d, s) ↦ settle d (dr.lookup s dir d flags)
              ]
                w)
      go none h = ((λ i. refl), (λ m. refl), refl)
      go (some (a, s)) (other, trace, same) =
          let (kept, inodes) = plain s dir a flags in
          settle-Keeps a p w.vfs (dr.lookup s dir a flags) w
            ((λ i. rw (kept, trace) refl), (λ m. rw (kept, trace) refl), inodes p other ∙ same)

  lookup_dcache-Keeps :
      (name : Qstr) (p flags : ℕ) (w : Walk)
      → Ends
          (λ _ t. Keeps p w.vfs t.vfs × (t.vfs.heap ≡ w.vfs.heap))
          (lookup_dcache dr fs_root fuel name p flags w)
  unfolding lookup_dcache
  lookup_dcache-Keeps name p flags w = go (d_lookup w.vfs p name)
    where
      go :
          (m : Option ℕ)
          → Ends
              (λ _ t. Keeps p w.vfs t.vfs × (t.vfs.heap ≡ w.vfs.heap))
              (elim m as (λ _. M (Result (Option ℕ))) [
                | none ↦ pure (ok none)
                | some d ↦ revalidated d (d_revalidate dr fs_root fuel w.vfs d flags)
              ]
                w)
      go none = (((λ i. refl), (λ m. refl), refl), refl)
      go (some d) = revalidated-Keeps d p (d_revalidate dr fs_root fuel w.vfs d flags) w

  uncached-Keeps :
      (name : Qstr) (p flags : ℕ) (r : Result (Option ℕ)) (w : Walk)
      → IsFresh w.vfs.heap p
      → Ends (λ _ t. Keeps p w.vfs t.vfs) (uncached dr fs_root fuel name p flags r w)
  unfolding uncached
  uncached-Keeps name p flags (err e) w h = ((λ i. refl), (λ m. refl), refl)
  uncached-Keeps name p flags (ok (some d)) w h = ((λ i. refl), (λ m. refl), refl)
  uncached-Keeps name p flags (ok none) w h = lookup_new-Keeps name p flags w h

  pub lookup_one-Keeps :
      (name : Qstr) (p flags : ℕ) (w : Walk)
      → IsFresh w.vfs.heap p
      → Ends (λ _ t. Keeps p w.vfs t.vfs) (lookup_one_qstr_excl dr fs_root fuel name p flags w)
  unfolding lookup_one_qstr_excl
  lookup_one-Keeps name p flags w fresh =
      Ends-bind (λ _ t. Keeps p w.vfs t.vfs × (t.vfs.heap ≡ w.vfs.heap))
        (λ _ t. Keeps p w.vfs t.vfs) (lookup_dcache dr fs_root fuel name p flags)
        (uncached dr fs_root fuel name p flags) w (lookup_dcache-Keeps name p flags w)
        (λ r t (kept, heap).
          Ends-mono (λ _ u. Keeps p t.vfs u.vfs) (λ _ u. Keeps p w.vfs u.vfs)
            (uncached dr fs_root fuel name p flags r t)
            (uncached-Keeps name p flags r t (rw heap fresh))
            (λ _ u. Keeps-trans p w.vfs t.vfs u.vfs kept))

-- Of the inode `dir` one lock more is held, and of the mount one write access.
abbrev pub Locked : Loc → ℕ → Vfs → Vfs → Type 0
Locked p dir s t =
    ((i : ℕ)
      → locks_left i t.trace
        ≡ (if i == dir then suc (locks_left i s.trace) else locks_left i s.trace))
    × ((m : ℕ)
        → writes_left m t.trace
          ≡ (if m == p.mnt then suc (writes_left m s.trace) else writes_left m s.trace))

abbrev pub Unlocked : Vfs → Vfs → Type 0
Unlocked s t =
    ((i : ℕ) → locks_left i t.trace ≡ locks_left i s.trace)
    × ((m : ℕ) → writes_left m t.trace ≡ writes_left m s.trace)

-- With a dentry the parent is locked for writing, and without one it is not.
abbrev pub LockedIf : Option ℕ → Created → Loc → ℕ → Vfs → Vfs → Type 0
LockedIf none c p dir s t = Unlocked s t
LockedIf (some d) c p dir s t =
    Locked p dir s t
    × ((t.dentries p.dentry).d_inode ≡ dir)
    × (c ≡ record { error = none; parent = p; dentry = some d })

unlock_parent-Unlocked :
    (e : Option Errno) (p : Loc) (dir : ℕ) (s : Vfs) (w : Walk)
    → Locked p dir s w.vfs
    → (w.vfs.dentries p.dentry).d_inode ≡ dir
    → Ends (λ c t. LockedIf c.dentry c p dir s t.vfs) (unlock_parent e p w)
unfolding unlock_parent
unlock_parent-Unlocked e p dir s w (locks, writes) same =
    rw same ((λ i. ground (arith, locks i)), λ m. ground (arith, writes m))

judge-LockedIf :
    (p : Loc) (may_create : Bool) (r : Result ℕ) (dir : ℕ) (s : Vfs) (w : Walk)
    → Locked p dir s w.vfs
    → (w.vfs.dentries p.dentry).d_inode ≡ dir
    → Ends (λ c t. LockedIf c.dentry c p dir s t.vfs) (judge p may_create r w)
unfolding judge
judge-LockedIf p may_create (err e) dir s w locked same =
    unlock_parent-Unlocked none p dir s w locked same
judge-LockedIf p may_create (ok d) dir s w locked same =
    elim (Bool-cases (d_is_miss (w.vfs.dentries d).d_flags)) [
      | inl miss ↦ rw miss (go may_create)
      | inr found ↦ rw found (unlock_parent-Unlocked (some eexist) p dir s (put w) locked same)
    ]
  where
    put : Walk → Walk
    put v = record v { vfs = note (dput d) v.vfs }

    go :
        (b : Bool)
        → Ends
            (λ c t. LockedIf c.dentry c p dir s t.vfs)
            ((if not b
                then (do ref (dput d); unlock_parent (some enoent) p)
                else pure (record { error = none; parent = p; dentry = some d }))
              w)
    go true = (locked, same, refl)
    go false = unlock_parent-Unlocked (some enoent) p dir s (put w) locked same

-- Creating in a parent directory: if a dentry is returned, there is no error and the lock of the parent's inode and write
-- access to its mount are held once more than before, and of nothing else; if none is returned, for
-- whatever reason, every lock and write access is held as often as before. The lookup of the file
-- system must give back the locks it takes and leave the inodes of other dentries alone, and memory
-- for a dentry must not be that of the parent.
pub create_in-LockedIf :
    (dr : Driver) (fs_root : Loc) (fuel : ℕ) (p : Loc) (last : Qstr) (type : LastType) (flags : ℕ)
    (w : Walk)
    → IsPlain dr
    → IsFresh w.vfs.heap p.dentry
    → Ends
        (λ c t. LockedIf c.dentry c p (w.vfs.dentries p.dentry).d_inode w.vfs t.vfs)
        (create_in dr fs_root fuel p last type flags w)
unfolding create_in
create_in-LockedIf dr fs_root fuel p last norm flags w plain fresh =
    Ends-bind (λ _ t. Keeps p.dentry w1.vfs t.vfs) (λ c t. LockedIf c.dentry c p dir w.vfs t.vfs)
      (lookup_one_qstr_excl dr fs_root fuel last p.dentry lookup_flags) (judge p may_create) w1
      (lookup_one-Keeps dr fs_root fuel plain last p.dentry lookup_flags w1 fresh)
      (λ r t (locks, writes, same). judge-LockedIf p may_create r dir w.vfs t (locks, writes) same)
  where
    dir : ℕ
    dir = (w.vfs.dentries p.dentry).d_inode

    may_create : Bool
    may_create = not (has_trailing last && not (test flags lookup_directory))

    lookup_flags : ℕ
    lookup_flags =
        bit_or (bit_and flags lookup_reval)
          (if may_create then bit_or lookup_create lookup_excl else 0)

    w1 : Walk
    w1 = record w { vfs = note (inode_lock dir) (note (want_write p.mnt) w.vfs) }
create_in-LockedIf dr fs_root fuel p last _ flags w plain fresh = ((λ i. refl), λ m. refl)
