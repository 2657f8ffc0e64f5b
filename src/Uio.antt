-- ===== src/Uio.antt =====
-- Iterators over a buffer of the user: src/uio/iov_iter.c and include/linux/uio.h. An address is a number,
-- and the memory, of the user and of the kernel, gives the byte at each.
pub mod Copies
pub mod Tests
use linux_vfs.Base.{
  ℕ, ◌+◌, ◌-◌, ◌≤◌, ◌≡◌, Bool, true, false, ◌&&◌, Option, none, some, ◌==◌, if◌then◌else◌, leb, ltb,
}

abbrev pub Memory : Type 0
Memory = ℕ → ℕ

-- A copy of `n` bytes.
abbrev pub copy : Memory → (to from n : ℕ) → Memory
copy mem to from n a = if leb to a && ltb a (to + n) then mem (from + (a - to)) else mem a

-- The accesses to user memory: each gets the destination, the source and a length, and returns how many
-- bytes were not copied.
pub record Uaccess : Type 0 where
  pub raw_copy_to_user : Memory → (to from len : ℕ) → ℕ × Memory
  pub raw_copy_from_user : Memory → (to from len : ℕ) → ℕ × Memory

-- What its documentation says of such an access: it copies the first bytes, and returns the number of the
-- others.
abbrev pub CopiesPrefix : (Memory → (to from len : ℕ) → ℕ × Memory) → Type 0
CopiesPrefix access =
    (mem : Memory) (to from len : ℕ)
    → (n : ℕ) × (n ≤ len) × (access mem to from len ≡ (len - n, copy mem to from n))

pub data IterType : Type 0 where
  iter_ubuf iter_iovec iter_bvec iter_kvec iter_folioq iter_xarray iter_discard : IterType

pub record IovIter : Type 0 where
  pub ubuf : ℕ
  pub iov_offset : ℕ
  pub count : ℕ
  pub iter_type : IterType

abbrev pub iter_is_ubuf : IovIter → Bool
iter_is_ubuf i = elim i.iter_type [ iter_ubuf ↦ true | _ ↦ false ]

abbrev pub iov_iter_ubuf : (buf count : ℕ) → IovIter
iov_iter_ubuf buf count = record {
  ubuf = buf;
  iov_offset = 0;
  count = count;
  iter_type = iter_ubuf;
}

-- One step of an iteration: `priv` is the buffer of the kernel.
abbrev pub IovUstep : Type 0
IovUstep = Memory → (iter_base progress len priv : ℕ) → ℕ × Memory

abbrev pub copy_from_user_iter : Uaccess → IovUstep
copy_from_user_iter u mem iter_from progress len to = u.raw_copy_from_user mem to iter_from len

abbrev pub copy_to_user_iter : Uaccess → IovUstep
copy_to_user_iter u mem iter_to progress len from = u.raw_copy_to_user mem iter_to from len

-- What `iterate_ubuf` does with the bytes that remain.
abbrev pub advance : IovIter → ℕ → ℕ × Memory → ℕ × IovIter × Memory
advance i len (remain, mem) = (
  len - remain,
  record i { iov_offset = i.iov_offset + (len - remain); count = i.count - (len - remain) },
  mem,
)

unfoldable pub iterate_ubuf : Memory → IovIter → (len priv : ℕ) → IovUstep → ℕ × IovIter × Memory
iterate_ubuf mem i len priv step = advance i len (step mem (i.ubuf + i.iov_offset) 0 len priv)

-- No more than what is left of the buffer.
abbrev pub clamp : IovIter → ℕ → ℕ
clamp i len = if ltb i.count len then i.count else len

-- `none` is a result that is not set.
unfoldable pub iterate_and_advance :
    Memory → IovIter → (len priv : ℕ) → IovUstep → Option ℕ × IovIter × Memory
unfolding iterate_ubuf
iterate_and_advance mem i len priv step =
    let (n, i', mem') = iterate_ubuf mem i (clamp i len) priv step in
    if clamp i len == 0
    then (some 0, i, mem)
    else if iter_is_ubuf i
    then (some n, i', mem')
    else (none, i, mem)

unfoldable pub copy_from_iter :
    Uaccess → Memory → (addr bytes : ℕ) → IovIter → Option ℕ × IovIter × Memory
unfolding iterate_and_advance
copy_from_iter u mem addr bytes i = iterate_and_advance mem i bytes addr (copy_from_user_iter u)

unfoldable pub copy_to_iter :
    Uaccess → Memory → (addr bytes : ℕ) → IovIter → Option ℕ × IovIter × Memory
unfolding iterate_and_advance
copy_to_iter u mem addr bytes i = iterate_and_advance mem i bytes addr (copy_to_user_iter u)
