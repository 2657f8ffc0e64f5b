-- ===== src/Dcache/Life.antt =====
-- The life of a dentry: src/dentry/dentry.c, lockref of include/linux/vfs/dentry.h. The counts are
-- 32-bit words in two's complement. `d_locks` and `i_locks` are the locks that the calling thread
-- holds; one that it takes a second time is never given to it. What other threads do to the entries
-- comes in while a lock of a dentry is awaited, from the list `others`, one element each time.
-- `d_lru_add`, `dentry_free`, `dentry_unlist`, `dentry_unlink_inode` and `__d_drop` are empty.

pub mod Ends
pub mod Kill
pub mod Locks
pub mod Loop
pub mod Rounds
pub mod Safety
pub mod Shared
pub mod Tests
use linux_vfs.Base.{
  ℕ, zero, suc, ◌+◌, ◌-◌, ◌%◌, ◌^◌, ◌≤◌, ◌<◌, ◌≡◌, ◌⊎◌, Bool, true, false, not, ◌&&◌, ◌||◌, List,
  [], ◌∷◌, ◌==◌, leb, if◌then◌else◌, length, bit_or,
}
use linux_vfs.Base.Bits.{test}
use linux_vfs.Vfs.{update}

pub record Entry : Type 0 where
  pub d_flags : ℕ
  pub d_inode : ℕ
  pub d_parent : ℕ
  pub d_hashed : Bool
  pub d_count : ℕ

-- What is done to a dentry that another object can see. `marked_dead` keeps the entry as it was.
pub data Event : Type 0 where
  marked_dead : ℕ → Entry → Event
  pruned released freed : ℕ → Event

abbrev pub Move : Type 0
Move = (ℕ → Entry) → ℕ → Entry

pub record Life : Type 0 where
  pub entries : ℕ → Entry
  pub d_locks : ℕ → Bool
  pub i_locks : ℕ → Bool
  pub others : List Move
  pub log : List Event

-- `hangs`: the thread waits for a lock that it holds. `out_of_fuel`: the loop has more rounds.
pub data Run {ℓ} (A : Type ℓ) : Type ℓ where
  done : A → Life → Run A
  hangs : Life → Run A
  out_of_fuel : Life → Run A

abbrev pub final {ℓ} : {A : Type ℓ} → Run A → Life
final (done a s) = s
final (hangs s) = s
final (out_of_fuel s) = s

abbrev pub M {ℓ} : Type ℓ → Type ℓ
M A = Life → Run A

abbrev pub and_then {ℓ κ} : {A : Type ℓ} {B : Type κ} → Run A → (A → M B) → Run B
and_then (done a s) f = f a s
and_then (hangs s) f = hangs s
and_then (out_of_fuel s) f = out_of_fuel s

infixl 5 ◌>>=◌ ◌>>◌
abbrev pub ◌>>=◌ {ℓ κ} : {A : Type ℓ} {B : Type κ} → M A → (A → M B) → M B
◌>>=◌ m f s = and_then (m s) f

abbrev pub ◌>>◌ {ℓ κ} : {A : Type ℓ} {B : Type κ} → M A → M B → M B
◌>>◌ m k = m >>= λ _. k

abbrev pub return {ℓ} : {A : Type ℓ} → A → M A
return a s = done a s

-- `lockref` of <linux/lockref.h>, which returns the value and leaves a count, and the methods of a
-- file system. `i_busy`: another thread holds the lock of the inode when it is tried.
pub record Hooks : Type 0 where
  pub put_return : ℕ → ℕ × ℕ
  pub mark_dead : ℕ → ℕ
  pub d_delete : ℕ → Entry → Bool
  pub d_release : ℕ → Bool
  pub i_busy : ℕ → Bool

abbrev pub IsNegative : ℕ → Type 0
IsNegative c = 2 ^ 31 ≤ c

-- `lockref_put_return` returns the count that it has lowered, or a negative number, and then the
-- count is as it was.
abbrev pub PutReturns : Hooks → Type 0
PutReturns k =
    (c : ℕ)
    → (IsNegative ((k.put_return c).0) × ((k.put_return c).1 ≡ c))
      ⊎ ((0 < c) × (c < 2 ^ 31) × ((k.put_return c).0 ≡ c - 1) × ((k.put_return c).1 ≡ c - 1))

abbrev pub dcache_op_delete : ℕ
dcache_op_delete = 0x8

abbrev pub dcache_op_prune : ℕ
dcache_op_prune = 0x10

abbrev pub dcache_disconnected : ℕ
dcache_disconnected = 0x20

abbrev pub dcache_referenced : ℕ
dcache_referenced = 0x40

abbrev pub dcache_dontcache : ℕ
dcache_dontcache = 0x80

abbrev pub dcache_shrink_list : ℕ
dcache_shrink_list = 0x400

abbrev pub dcache_lru_list : ℕ
dcache_lru_list = 0x4_0000

abbrev pub decrement : ℕ → ℕ
decrement c = (c + 2 ^ 32 - 1) % 2 ^ 32

abbrev pub with_entry : ℕ → Entry → Life → Life
with_entry p e s = record s { entries = update s.entries p e }

abbrev pub set_count : ℕ → ℕ → Life → Life
set_count p c s = with_entry p (record (s.entries p) { d_count = c }) s

abbrev pub log_event : Event → Life → Life
log_event e s = record s { log = e ∷ s.log }

abbrev pub log_if : Bool → Event → Life → Life
log_if true e s = log_event e s
log_if false e s = s

-- The other threads run until the lock is free.
abbrev pub let_others : List Move → Life → Life
let_others [] s = s
let_others (move ∷ rest) s = record s { entries = move s.entries; others = rest }

abbrev pub held : Bool → Life → Run (Unit {0})
held true s = hangs s
held false s = done tt s

unfoldable pub d_lock : ℕ → M (Unit {0})
d_lock p s =
    held (s.d_locks p) (record (let_others s.others s) { d_locks = update s.d_locks p true })

unfoldable pub d_unlock : ℕ → M (Unit {0})
d_unlock p s = done tt (record s { d_locks = update s.d_locks p false })

unfoldable pub i_lock : ℕ → M (Unit {0})
i_lock i s = held (s.i_locks i) (record s { i_locks = update s.i_locks i true })

unfoldable pub i_unlock : ℕ → M (Unit {0})
i_unlock i s = done tt (record s { i_locks = update s.i_locks i false })

unfoldable pub dget : ℕ → Life → Life
dget p s = if p == 0 then s else set_count p (((s.entries p).d_count + 1) % 2 ^ 32) s

-- Whether the dentry is worth keeping. With the lock it may be marked as referenced.
unfoldable pub retain_dentry : Hooks → ℕ → Bool → M Bool
retain_dentry k p locked s =
    let e = s.entries p in
    if not e.d_hashed
    then done false s
    else if test e.d_flags dcache_disconnected
    then done false s
    else if test e.d_flags dcache_op_delete && (not locked || k.d_delete p e)
    then done false s
    else if test e.d_flags dcache_dontcache
    then done false s
    else if not (test e.d_flags dcache_lru_list)
    then done locked s
    else if test e.d_flags dcache_referenced
    then done true s
    else if not locked
    then done false s
    else done true (with_entry p (record e { d_flags = bit_or e.d_flags dcache_referenced }) s)
